-- ===== src/Tests/CarNodes.antt =====
-- The theorems on the car and on the way from it to the validator, applied.
use pitcrypt_f.Prelude.{
  Any-none, Dict, List, Option, [], arith, map, none, pos, refl, returned, some, true, ℕ, ℤ, ◌++◌,
  ◌+◌, ◌-ℤ◌, ◌∷◌, ◌≡◌,
}
use pitcrypt_f.Anomaly.{channels}
use pitcrypt_f.Anomaly.Laws.{IsImpossible}
use pitcrypt_f.Builder.{BuiltPacket, PacketBuilder}
use pitcrypt_f.Builder.Laws.{build-returned, names-build, new_builder-returned, sequence-build}
use pitcrypt_f.Car.{CarNode, build_and_encrypt, new_car, producer_pass, rotate_keys, transmit_data}
use pitcrypt_f.Car.Delivery.{IsConnected, IsSendable, sent_packet}
use pitcrypt_f.Car.Laws.{Pass, produced-rotate_keys, produces, run_passes, transmits}
use pitcrypt_f.Car.Ledger.{Reaches-new_car, at_start, by_frame}
use pitcrypt_f.Car.Liveness.{Arrives, build_and_encrypt-Arrives, signature_of}
use pitcrypt_f.Car.Runs.{produced-IncreasingFrom}
use pitcrypt_f.Car.Silence.{produced}
use pitcrypt_f.Car.Tally.{IsTallied}
use pitcrypt_f.Crypto.{new_engine}
use pitcrypt_f.Encryptor.{decrypt_packet, encrypt_packet, new_encryptor}
use pitcrypt_f.Encryptor.Laws.{Delivers, SignedParts, decrypt_packet-encrypt_packet, packet_of}
use pitcrypt_f.Hex.{to_hex}
use pitcrypt_f.KeyScheduler.{
  KeyScheduler, RotationClock, RotationEvent, begin_rotation, log_event, manual_force,
  new_scheduler, record_packet, reset_counters,
}
use pitcrypt_f.KeyScheduler.Ledger.{
  Account, Rotations, Steps, at_rest, begins, logs, no_packets, no_step, one_more, records, resets,
}
use pitcrypt_f.KeyScheduler.Ledger.Accounts.{IsAccounted, Steps-new_scheduler}
use pitcrypt_f.Packet.{Bytes, Packet, empty_packet, packet_seq}
use pitcrypt_f.Relay.{process_packet}
use pitcrypt_f.SeqSet.Order.{IncreasingFrom}
use pitcrypt_f.Signer.{CarPacket, built_dict, new_signer, sign_packet}
use pitcrypt_f.Signer.Verifier.{CarVerifier, new_car_verifier, verify_packet}
use pitcrypt_f.Signer.Verifier.Laws.{SignsAndVerifies, verify_packet-sign_packet}
use pitcrypt_f.Tests.{
  Built, car_builder, car_named, length-toy_hash, paired, paired-Paired, toy_car, toy_dumps,
  toy_ed25519, toy_hash, toy_hash_bytes, toy_json, toy_laws, toy_num, toy_primitives, toy_relay,
  toy_sign, zeros_32, zeros_4,
}

toy_signs : SignsAndVerifies (λ key. zeros_32) toy_sign toy_ed25519
toy_signs = record { verifies = λ key bs. refl; key_size = λ key. refl }

abbrev pub nonce_12 : Bytes
nonce_12 = zeros_4 ++ (zeros_4 ++ zeros_4)

abbrev built_by_car : BuiltPacket
built_by_car = record {
  raw_bytes = [];
  header = zeros_4;
  payload = 5 ∷ [];
  sequence_no = 7;
  timestamp = 9;
  checksum = zeros_32;
  team = "mercedes";
  session = "R";
  node_id = "mercedes_car";
  size = 5;
}

abbrev signed_by_car : SignedParts
signed_by_car = record {
  header = zeros_4;
  payload = 5 ∷ [];
  signature = to_hex (toy_sign zeros_32 (zeros_4 ++ (5 ∷ [])));
  signature_bytes = toy_sign zeros_32 (zeros_4 ++ (5 ∷ []));
  sequence_no = pos 7;
  timestamp = pos 9;
  team = "mercedes";
  session = "R";
  signer_node_id = "mercedes_car";
}

decrypt_packet-encrypt_packet_example :
    (q r : Packet (Dict ℤ)) × ((encrypt_packet toy_primitives zeros_4
        (packet_of signed_by_car)
        (paired "car")
        (new_encryptor "car")).1
      ≡ returned q)
    × ((decrypt_packet toy_primitives toy_json q (paired "relay") (new_encryptor "relay")).1
        ≡ returned r)
    × Delivers signed_by_car [] r
    × ((encrypt_packet {J = Dict ℤ} toy_primitives zeros_4
          (packet_of signed_by_car)
          (paired "car")
          (new_encryptor "car")).0.1.packets_encrypted
        ≡ 0 + 1)
    × ((decrypt_packet toy_primitives toy_json q
          (paired "relay")
          (new_encryptor "relay")).0.1.packets_decrypted
        ≡ 0 + 1)
decrypt_packet-encrypt_packet_example =
    decrypt_packet-encrypt_packet toy_primitives toy_laws toy_json (pos 1) zeros_4 zeros_4 zeros_4
      [] none (new_engine "car") (new_engine "relay") (paired "car") (paired "relay") signed_by_car
      (new_encryptor "car") (new_encryptor "relay") (paired-Paired "car") (paired-Paired "relay")
      refl

abbrev scheduled : KeyScheduler
scheduled = record (new_scheduler "mercedes_car" (pos 300) (pos 10000) (pos 1)) {
  packet_count = 10000;
}

abbrev rotation_clock : RotationClock
rotation_clock = record { read_at = pos 3; rotated_at = pos 3; reset_at = pos 4 }

abbrev idle_scheduler : KeyScheduler
idle_scheduler = new_scheduler "mercedes_car" (pos 300) (pos 10000) (pos 1)

abbrev rotation_at : ℤ → ℕ → RotationEvent
rotation_at age n = record { reason = manual_force; rotation_num = n; old_age = age; old_count = 1 }

-- Two rotations at once: the second one begins before the first one has reset the counters, and reads the
-- first packet again; the packet that is recorded after it is lost.
abbrev Overlapping : Type 0
Overlapping =
    (s : Rotations) × (a : Account) × Steps (at_rest idle_scheduler) no_packets s a
    × (a.doubled ≡ 1)
    × (a.lost ≡ 1)

overlapping : Overlapping
unfolding record_packet begin_rotation reset_counters log_event
overlapping =
    let first = rotation_at (pos 2 -ℤ pos 1) 1 in
    let second = rotation_at (pos 3 -ℤ pos 1) 2 in
    let both_read =
      one_more (one_more (one_more no_step records) (begins (pos 2) manual_force))
        (begins (pos 3) manual_force) in
    let both_reset =
      one_more (one_more (one_more both_read records) (resets (pos 4) [] (second ∷ []) first refl))
        (resets (pos 5) [] [] second refl) in
    (
      _,
      _,
      one_more (one_more both_reset (logs (first ∷ []) [] second refl)) (logs [] [] first refl),
      refl,
      refl,
    )

Steps-new_scheduler_example : IsAccounted overlapping.0 overlapping.1
Steps-new_scheduler_example =
    Steps-new_scheduler "mercedes_car" (pos 300) (pos 10000) (pos 1) overlapping.2

abbrev frames : List (ℕ × Bytes × Option ℕ)
frames = (9, zeros_4, some 5) ∷ (10, zeros_4, none) ∷ []

abbrev passes : List (Pass ℕ)
passes = transmits (λ bs. true) ∷ produces 11 zeros_4 (some 5) ∷ []

-- A car with a packet in its queue.
abbrev queued_car : CarNode (Dict ℤ)
queued_car = record toy_car { packet_queue = empty_packet {J = Dict ℤ} ∷ [] }

produced-rotate_keys_example :
    let u = rotate_keys toy_primitives rotation_clock zeros_4 manual_force queued_car in
    (produced toy_primitives toy_sign toy_hash toy_dumps frames u ≡ [])
    × ((sent : List (Packet (Dict ℤ))) × (queued_car.packet_queue
          ≡ sent
            ++ (run_passes toy_primitives toy_sign toy_hash toy_dumps
                (λ q. [])
                passes
                u).packet_queue))
produced-rotate_keys_example =
    produced-rotate_keys toy_primitives toy_sign toy_hash toy_dumps (λ q. []) rotation_clock zeros_4
      manual_force queued_car frames passes

produced-IncreasingFrom_example :
    IncreasingFrom
      (pos 6)
      (map packet_seq (produced toy_primitives toy_sign toy_hash toy_dumps frames toy_car))
produced-IncreasingFrom_example =
    produced-IncreasingFrom toy_primitives toy_sign toy_hash toy_dumps frames toy_car

verify_packet-sign_packet_example :
    let v : CarVerifier = record new_car_verifier { registry = ("mercedes_car", zeros_32) ∷ [] } in
    (q : CarPacket) × ((sign_packet toy_sign
        (built_dict built_by_car)
        (new_signer "mercedes_car" zeros_32)).1
      ≡ returned q)
    × ((sign_packet toy_sign
          (built_dict built_by_car)
          (new_signer "mercedes_car" zeros_32)).0.sign_count
        ≡ 0 + 1)
    × (verify_packet toy_ed25519 q v ≡ (record v { verify_count = 0 + 1 }, returned true))
verify_packet-sign_packet_example =
    verify_packet-sign_packet (λ key. zeros_32) toy_sign toy_ed25519 toy_signs
      (built_dict built_by_car) zeros_4 (5 ∷ []) (new_signer "mercedes_car" zeros_32)
      (record new_car_verifier { registry = ("mercedes_car", zeros_32) ∷ [] }) refl refl car_named
      refl

abbrev fresh_builder : PacketBuilder
fresh_builder = record car_builder { node_id = "car"; sequence = 0; packets_built = 0 }

Reaches-new_car_example : IsTallied {J = Dict ℤ} (
    producer_pass (
      build_and_encrypt toy_primitives toy_sign toy_hash toy_dumps 9 zeros_4 (some 5) (
        new_car toy_primitives "car" fresh_builder zeros_32
          (pos 1)
          zeros_4
          (pos 300)
          (pos 10000)
          (pos 1000))))
Reaches-new_car_example =
    Reaches-new_car toy_primitives toy_sign toy_hash toy_dumps (λ q. []) (λ t. t) (λ t. t)
      "mercedes" "R" "car" fresh_builder zeros_32 zeros_4 (pos 1) (pos 300) (pos 10000) (pos 1000)
      (new_builder-returned (λ t. t) (λ t. t) "mercedes" "R" "car" refl refl)
      (by_frame 9 zeros_4 (some 5) at_start)

pub car_builds : Built
car_builds =
    build-returned toy_hash length-toy_hash toy_dumps 9 5 car_builder refl refl (omega arith)
      (omega arith) (omega arith)

abbrev pub toy_built : BuiltPacket
toy_built = car_builds.0

-- What the car sends of it, which the relay's decoding reads.
abbrev toy_sent : Packet (Dict ℤ)
toy_sent =
    sent_packet toy_primitives toy_sign [] nonce_12 (new_encryptor "mercedes_car") toy_car.signer
      toy_built

pub toy_car-IsConnected : IsConnected toy_car toy_relay (new_encryptor "mercedes_car") [] []
toy_car-IsConnected = record {
  engine = paired "relay_01";
  validator = paired "relay_01_validator";
  encrypts = refl;
  car_key = refl;
  named = refl;
  with_session = refl;
  relay_key = refl;
  with_validator = refl;
  validator_key = refl;
  known_team = refl;
  known_session = refl;
}

pub payload-toy_built : toy_built.payload ≡ toy_dumps 5
payload-toy_built = (names-build toy_hash toy_dumps 9 5 car_builder toy_built car_builds.1).2

toy_built-IsSendable : IsSendable toy_primitives toy_sign [] nonce_12 toy_car.signer toy_built
toy_built-IsSendable = record {
  nonce_bytes = ground arith;
  nonce_size = refl;
  sealed_bytes = rw payload-toy_built (omega arith, tt);
  sig_bytes = ground arith;
  sig_size = omega arith;
}

build_and_encrypt-Arrives_example :
    (out : Packet (Dict ℤ)) × ((build_and_encrypt toy_primitives toy_sign toy_hash toy_dumps 9
        nonce_12
        (some 5)
        toy_car).1
      ≡ some toy_sent)
    × ((process_packet toy_primitives toy_num
          (λ bs. some (transmit_data toy_sent))
          toy_json
          zeros_4
          (pos 9)
          []
          toy_relay).1
        ≡ returned (some out))
    × Arrives toy_primitives out [] "mercedes_car"
        (signature_of toy_sign toy_car.signer toy_built)
        toy_built
build_and_encrypt-Arrives_example =
    let seq : toy_built.sequence_no ≡ 6 + 1 =
      (sequence-build toy_hash toy_dumps 9 5 car_builder).1 toy_built car_builds.1 in
    build_and_encrypt-Arrives toy_primitives toy_laws toy_num (λ bs. some (transmit_data toy_sent))
      (λ q. []) toy_json toy_sign toy_hash length-toy_hash toy_hash_bytes toy_dumps 9 (pos 9)
      nonce_12 zeros_4 [] [] 5 (new_encryptor "mercedes_car") toy_built [] toy_car toy_relay
      car_builds.1 toy_car-IsConnected toy_built-IsSendable refl refl
      (record {
        positive = omega arith;
        unseen = refl;
        ordered = λ h. absurd (omega arith);
        fresh = λ h _. absurd (ground arith);
        has_sig = λ _. refl;
      })
      (Any-none {P = IsImpossible toy_num []} channels
        (λ ch k. absurd (let e = k.present in ground arith)))
