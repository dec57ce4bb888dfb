-- ===== src/Tests/Acceptance.antt =====
-- The theorem on the way of a frame to the decision of the validator, applied.
use pitcrypt_f.Relay
use pitcrypt_f.Validator
use pitcrypt_f.Prelude.{
  Any-none, Dict, [], arith, pos, refl, returned, some, ℤ, ◌++◌, ◌+◌, ◌∷◌, ◌≡◌,
}
use pitcrypt_f.Anomaly.{channels}
use pitcrypt_f.Anomaly.Laws.{IsImpossible}
use pitcrypt_f.Builder.Laws.{sequence-build}
use pitcrypt_f.Car.{build_and_encrypt, transmit_data}
use pitcrypt_f.Car.Acceptance.{IsExpected, build_and_encrypt-Accepts}
use pitcrypt_f.Car.Delivery.{IsSendable, sent_packet}
use pitcrypt_f.Encryptor.{new_encryptor}
use pitcrypt_f.Packet.{Bytes, Packet}
use pitcrypt_f.Signer.Verifier.Laws.{SignsAndVerifies}
use pitcrypt_f.Tests.{
  car_builder, fia, length-toy_hash, paired, toy_ambience, toy_car, toy_dumps, toy_ed25519,
  toy_hash, toy_hash_bytes, toy_json, toy_laws, toy_num, toy_primitives, toy_relay, zeros_32,
  zeros_4,
}
use pitcrypt_f.Tests.CarNodes.{
  car_builds, nonce_12, payload-toy_built, toy_built, toy_car-IsConnected,
}
use pitcrypt_f.Validator.{ValidatorNode}
use pitcrypt_f.Validator.Acceptance.{Accepts}

-- Signatures of 64 bytes.
abbrev long_sign : Bytes → Bytes → Bytes
long_sign key bs = zeros_32 ++ zeros_32

long_sign-SignsAndVerifies : SignsAndVerifies (λ key. zeros_32) long_sign toy_ed25519
long_sign-SignsAndVerifies = record { verifies = λ key bs. refl; key_size = λ key. refl }

abbrev long_sent : Packet (Dict ℤ)
long_sent =
    sent_packet toy_primitives long_sign [] nonce_12 (new_encryptor "mercedes_car") toy_car.signer
      toy_built

long_sign-IsSendable : IsSendable toy_primitives long_sign [] nonce_12 toy_car.signer toy_built
long_sign-IsSendable = record {
  nonce_bytes = ground arith;
  nonce_size = refl;
  sealed_bytes = rw payload-toy_built (omega arith, tt);
  sig_bytes = ground arith;
  sig_size = omega arith;
}

abbrev ready_fia : ValidatorNode
ready_fia = record fia {
  val_engine = some (paired "fia");
  sig_verifier = record fia.sig_verifier { registry = ("mercedes_car", zeros_32) ∷ [] };
}

toy_built_seq : toy_built.sequence_no ≡ 6 + 1
toy_built_seq = (sequence-build toy_hash toy_dumps 9 5 car_builder).1 toy_built car_builds.1

ready_fia-IsExpected :
    IsExpected long_sign (λ key. zeros_32) ready_fia [] toy_car.signer toy_built (pos 9)
ready_fia-IsExpected =
    let seq = toy_built_seq in
    record {
      engine = paired "fia";
      with_session = refl;
      with_key = refl;
      registered = refl;
      sized = refl;
      payload_nonempty = λ e. let same = payload-toy_built in cc;
      in_order = record {
        positive = omega arith;
        unseen = refl;
        ordered = λ _ h. absurd (ground arith);
        fresh = λ h _. absurd (ground arith);
      };
    }

build_and_encrypt-Accepts_example :
    (out : Packet (Dict ℤ)) × ((build_and_encrypt toy_primitives long_sign toy_hash toy_dumps 9
        nonce_12
        (some 5)
        toy_car).1
      ≡ some long_sent)
    × ((Relay.process_packet toy_primitives toy_num
          (λ bs. some (transmit_data long_sent))
          toy_json
          zeros_4
          (pos 9)
          []
          toy_relay).1
        ≡ returned (some out))
    × Accepts (
        Validator.process_packet toy_primitives toy_hash toy_ed25519 toy_json [] toy_ambience
          (pos 9)
          out
          ready_fia)
build_and_encrypt-Accepts_example =
    let seq = toy_built_seq in
    build_and_encrypt-Accepts toy_primitives toy_laws toy_num (λ bs. some (transmit_data long_sent))
      (λ q. []) toy_json [] long_sign (λ key. zeros_32) toy_ed25519 long_sign-SignsAndVerifies
      toy_hash length-toy_hash toy_hash_bytes toy_dumps 9 (pos 9) (pos 9) toy_ambience nonce_12
      zeros_4 [] [] 5 (new_encryptor "mercedes_car") toy_built [] toy_car toy_relay ready_fia
      car_builds.1 toy_car-IsConnected long_sign-IsSendable refl refl
      (record {
        positive = omega arith;
        unseen = refl;
        ordered = λ h. absurd (omega arith);
        fresh = λ h _. absurd (ground arith);
        has_sig = λ _. refl;
      })
      (Any-none {P = IsImpossible toy_num []} channels
        (λ ch k. absurd (let e = k.present in ground arith)))
      ready_fia-IsExpected
