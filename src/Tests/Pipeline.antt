-- ===== src/Tests/Pipeline.antt =====
-- The theorems on the relay's pipeline and its parts, applied.
use pitcrypt_f.Prelude.{
  Dict, [], false, inl, inr, negsuc, none, pos, refl, returned, some, true, ℤ, ◌↔◌, ◌∷◌, ◌≡◌,
}
use pitcrypt_f.Anomaly.{check_anomaly, is_rejected, new_filter}
use pitcrypt_f.Anomaly.Laws.{check_anomaly-rejected}
use pitcrypt_f.Anomaly.Runs.{Judges, check_anomaly_verdict}
use pitcrypt_f.Crypto.Laws.{decrypt-sealed}
use pitcrypt_f.Decryptor.{decrypt_packet}
use pitcrypt_f.Decryptor.Laws.{decrypt_packet_iff}
use pitcrypt_f.Packet.{Packet, empty_packet}
use pitcrypt_f.Parser.Json.{parse_json_packet, validate_json_packet}
use pitcrypt_f.Parser.Json.Laws.{IsTransmissible, validate_json_packet_iff}
use pitcrypt_f.Relay.{new_relay, process_packet}
use pitcrypt_f.Relay.Counts.{Reaches-new_relay, at_start, by_packet}
use pitcrypt_f.Relay.Funnel.{IsFunnel}
use pitcrypt_f.Relay.Runs.{forwarded_seqs, forwarded_seqs-new_relay}
use pitcrypt_f.Relay.Verdict.{IsForwarded, process_packet_forwards_iff}
use pitcrypt_f.SeqSet.Order.{IncreasingFrom}
use pitcrypt_f.Tests.{
  car_named, paired, toy_json, toy_laws, toy_num, toy_primitives, toy_relay, zeros_4,
}

abbrev speeding : Packet (Dict ℤ)
speeding = record (empty_packet {J = Dict ℤ}) {
  node_id = some "mercedes_car";
  payload_json = some (("Speed", pos 401) ∷ []);
}

check_anomaly-rejected_example :
    is_rejected (check_anomaly toy_num speeding (new_filter "relay_01" [])).1.severity ≡ true
check_anomaly-rejected_example =
    (check_anomaly-rejected toy_num speeding (new_filter "relay_01" [])).1 (
      inl (record {
        value = pos 401;
        lo = negsuc 4;
        hi = pos 400;
        present = refl;
        limited = refl;
        outside = inr refl;
      }))

forwarded_seqs-new_relay_example : IncreasingFrom (pos 0) (
    forwarded_seqs toy_primitives toy_num
      (λ bs. none)
      toy_json
      "mercedes_car"
      ((zeros_4, pos 9, []) ∷ [])
      toy_relay)
forwarded_seqs-new_relay_example =
    forwarded_seqs-new_relay toy_primitives toy_num (λ bs. none) toy_json "mercedes_car" "relay_01"
      (pos 30000) (pos 100) false true toy_relay ((zeros_4, pos 9, []) ∷ []) refl

process_packet_forwards_iff_example :
    ((process_packet toy_primitives toy_num (λ bs. none) toy_json zeros_4 (pos 9) [] toy_relay).1
      ≡ returned (some speeding))
    ↔ ((p : Packet (Dict ℤ)) × ((parse_json_packet (λ bs. none) [] toy_relay.parser).1 ≡ returned p)
        × IsForwarded toy_primitives toy_num toy_json zeros_4
            (pos 9)
            toy_relay.decryptor
            toy_relay.integrity
            toy_relay.reencryptor
            p
            speeding)
process_packet_forwards_iff_example =
    process_packet_forwards_iff toy_primitives toy_num (λ bs. none) toy_json zeros_4 (pos 9) []
      speeding toy_relay

Reaches-new_relay_example :
    IsFunnel
      (process_packet toy_primitives toy_num
        (λ bs. none)
        toy_json
        zeros_4
        (pos 9)
        []
        (new_relay {N = ℤ} "relay_01" (pos 30000) (pos 100) false true [])).0
Reaches-new_relay_example =
    Reaches-new_relay toy_primitives toy_num (λ bs. none) toy_json "relay_01" (pos 30000) (pos 100)
      false true [] (by_packet zeros_4 (pos 9) [] at_start)

check_anomaly_verdict_example :
    Judges (new_filter "relay_01" []) (check_anomaly toy_num speeding (new_filter "relay_01" []))
check_anomaly_verdict_example = check_anomaly_verdict toy_num speeding (new_filter "relay_01" [])

abbrev sealed_dict : Packet (Dict ℤ)
sealed_dict = record (empty_packet {J = Dict ℤ}) {
  node_id = some "mercedes_car";
  nonce_bytes = some zeros_4;
  ciphertext_bytes = some (1 ∷ []);
  header = some zeros_4;
}

decrypt_packet_iff_example :
    (decrypt_packet toy_primitives toy_json sealed_dict toy_relay.decryptor).1
    ≡ returned (record sealed_dict { payload_bytes = some (1 ∷ []); payload_json = some [] })
decrypt_packet_iff_example =
    (decrypt_packet_iff toy_primitives toy_json sealed_dict toy_relay.decryptor
        (record sealed_dict { payload_bytes = some (1 ∷ []); payload_json = some [] })).1
      (record {
        node = "mercedes_car";
        engine = paired "relay_01";
        nonce = zeros_4;
        ciphertext = 1 ∷ [];
        header = some zeros_4;
        plaintext = 1 ∷ [];
        payload = [];
        named = refl;
        nonempty = car_named;
        with_session = refl;
        with_nonce = inl refl;
        with_ciphertext = inl refl;
        with_header = inl (zeros_4, refl, inl refl);
        opens =
            decrypt-sealed toy_primitives toy_laws zeros_4 (1 ∷ []) [] (some zeros_4)
              (paired "relay_01") refl;
        is_json = refl;
        result = refl;
      })

validate_json_packet_iff_example :
    (validate_json_packet sealed_dict ≡ []) ↔ IsTransmissible sealed_dict
validate_json_packet_iff_example = validate_json_packet_iff sealed_dict
