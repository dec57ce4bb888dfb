-- ===== src/Tests/Nodes.antt =====
-- The theorems on the validator, its verifiers and its audit trail, applied.
use pitcrypt_f.Prelude.{List, [], false, map, none, pos, refl, returned, true, ℕ, ◌↔◌, ◌∷◌, ◌≡◌}
use pitcrypt_f.Audit.{new_logger, reject}
use pitcrypt_f.Audit.Counts.{IsCounted, call, event_of, perform_all, perform_all_trail}
use pitcrypt_f.Crypto.{decrypt, encrypt, new_engine}
use pitcrypt_f.Crypto.Laws.{decrypt-encrypt}
use pitcrypt_f.Packet.{Bytes}
use pitcrypt_f.SeqSet.Order.{IncreasingFrom}
use pitcrypt_f.Signature.{SignatureResult, verify}
use pitcrypt_f.Signature.Laws.{IsAuthentic, verify_iff}
use pitcrypt_f.Tests.{
  car_packet, fia, paired, paired-Paired, toy_ambience, toy_ed25519, toy_hash, toy_laws, toy_loads,
  toy_primitives, zeros_32, zeros_4,
}
use pitcrypt_f.Validator.{process_packet, setup_relay_session}
use pitcrypt_f.Validator.Acceptance.{Accepts}
use pitcrypt_f.Validator.Ledger.{IsBalanced, Reaches-new_validator, at_start, by_packet, by_relay}
use pitcrypt_f.Validator.Ordering.{Checks, process_packet-Checks}
use pitcrypt_f.Validator.Runs.{Arrival, validated_seqs, validated_seqs-new_checker}
use pitcrypt_f.Validator.Trail.{Settles, process_packet-Settles}
use pitcrypt_f.Validator.Verdict.{IsAcceptable, process_packet_iff}

abbrev arrivals : List (Arrival ℕ)
arrivals = (toy_ambience, pos 9, car_packet) ∷ (toy_ambience, pos 10, car_packet) ∷ []

process_packet_iff_example :
    Accepts (
      process_packet toy_primitives toy_hash toy_ed25519 toy_loads 0 toy_ambience
        (pos 9)
        car_packet
        fia)
    ↔ IsAcceptable toy_primitives toy_hash toy_ed25519 toy_loads 0 toy_ambience
        (pos 9)
        car_packet
        fia
process_packet_iff_example =
    process_packet_iff toy_primitives toy_hash toy_ed25519 toy_loads 0 toy_ambience (pos 9)
      car_packet fia

process_packet-Settles_example : Settles (pos 7) "mercedes_car" fia (
    process_packet toy_primitives toy_hash toy_ed25519 toy_loads 0 toy_ambience
      (pos 9)
      car_packet
      fia)
process_packet-Settles_example =
    process_packet-Settles toy_primitives toy_hash toy_ed25519 toy_loads 0 toy_ambience (pos 9)
      car_packet fia

process_packet-Checks_example :
    Checks toy_primitives toy_hash toy_ed25519 toy_loads 0 (pos 9) car_packet fia (
      process_packet toy_primitives toy_hash toy_ed25519 toy_loads 0 toy_ambience
        (pos 9)
        car_packet
        fia)
process_packet-Checks_example =
    process_packet-Checks toy_primitives toy_hash toy_ed25519 toy_loads 0 toy_ambience (pos 9)
      car_packet fia

validated_seqs-new_checker_example :
    IncreasingFrom
      (pos 0)
      (validated_seqs toy_primitives toy_hash toy_ed25519 toy_loads 0 "mercedes_car" arrivals fia)
validated_seqs-new_checker_example =
    validated_seqs-new_checker toy_primitives toy_hash toy_ed25519 toy_loads 0 "mercedes_car" "fia"
      (pos 60000) (pos 1000) false arrivals fia refl

Reaches-new_validator_example :
    IsBalanced
      (process_packet toy_primitives toy_hash toy_ed25519 toy_loads 0 toy_ambience
        (pos 9)
        car_packet
        (setup_relay_session toy_primitives (pos 1) zeros_32 zeros_32 fia).0).0
Reaches-new_validator_example =
    Reaches-new_validator toy_primitives toy_hash toy_ed25519 toy_loads 0 "fia" (pos 60000)
      (pos 1000) false true true true
      (by_packet toy_ambience (pos 9) car_packet (by_relay (pos 1) zeros_32 zeros_32 at_start))

verify_iff_example :
    ((r : SignatureResult) × ((verify toy_ed25519 car_packet fia.sig_verifier).1 ≡ returned r))
    ↔ IsAuthentic toy_ed25519 car_packet fia.sig_verifier
verify_iff_example = verify_iff toy_ed25519 car_packet fia.sig_verifier

decrypt-encrypt_example :
    (ciphertext : Bytes) × ((encrypt toy_primitives zeros_4 (5 ∷ []) none (paired "car")).1
      ≡ returned (zeros_4, ciphertext))
    × ((decrypt toy_primitives zeros_4 ciphertext none (paired "relay")).1 ≡ returned (5 ∷ []))
decrypt-encrypt_example =
    decrypt-encrypt toy_primitives toy_laws (pos 1) zeros_4 zeros_4 zeros_4 (5 ∷ []) none none
      (new_engine "car") (new_engine "relay") (paired "car") (paired "relay") (paired-Paired "car")
      (paired-Paired "relay")

perform_all_trail_example :
    let xs = call toy_ambience reject car_packet "sequence_invalid" none ∷ [] in
    let l = perform_all {D = ℕ} xs (new_logger "fia" true true) in
    (l.events ≡ map event_of xs) × IsCounted l
perform_all_trail_example =
    perform_all_trail "fia" true true
      (call toy_ambience reject car_packet "sequence_invalid" none ∷ [])
