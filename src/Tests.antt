-- ===== src/Tests.antt =====
-- Concrete nodes, packets and primitives on which the theorems are applied.
pub mod Sequences
pub mod Relay
pub mod Nodes
pub mod Formats
pub mod AccessControl
pub mod Pipeline
pub mod CarNodes
pub mod Analysis
pub mod Acceptance
use text.Mathlib.TextEquality.{eq_iff}
use pitcrypt_f.Prelude.{
  Bool, Dict, Option, String, [], arith, false, length, ltb_ℤ, none, pos, refl, returned, some,
  true, ℕ, ℤ, ◌++◌, ◌-ℤ◌, ◌∷◌, ◌≡◌, ◌≢◌,
}
use pitcrypt_f.Anomaly.{Number}
use pitcrypt_f.Audit.{Ambience}
use pitcrypt_f.Builder.{BuiltPacket, PacketBuilder, build}
use pitcrypt_f.Car.{CarNode, new_car}
use pitcrypt_f.Crypto.{
  CryptoEngine, Primitives, complete_handshake, derive_shared_secret, new_engine, new_session,
}
use pitcrypt_f.Crypto.Laws.{AgreesAndUnseals, Paired}
use pitcrypt_f.Decryptor.{new_decryptor}
use pitcrypt_f.Encryptor.{new_encryptor}
use pitcrypt_f.Hex.RoundTrip.{IsBytes}
use pitcrypt_f.Integrity.{IntegrityChecker, new_integrity}
use pitcrypt_f.Packet.{Bytes, Packet, empty_packet, raw}
use pitcrypt_f.Reencryptor.{new_reencryptor}
use pitcrypt_f.Relay.{RelayNode, new_relay}
use pitcrypt_f.Sequence.{ValidatorSequenceChecker, new_checker}
use pitcrypt_f.Validator.{ValidatorNode, new_validator}

abbrev zeros_4 : Bytes
zeros_4 = 0 ∷ 0 ∷ 0 ∷ 0 ∷ []

abbrev zeros_16 : Bytes
zeros_16 = zeros_4 ++ (zeros_4 ++ (zeros_4 ++ zeros_4))

abbrev zeros_32 : Bytes
zeros_32 = zeros_16 ++ zeros_16

abbrev toy_hash : Bytes → Bytes
toy_hash bs = zeros_32

abbrev toy_ed25519 : Bytes → Bytes → Bytes → Bool
toy_ed25519 key sig message = true

-- A cipher that leaves the text as it is.
abbrev toy_primitives : Primitives
toy_primitives = record {
  public_of = λ private. zeros_32;
  exchange = λ private peer. some [];
  hkdf = λ salt secret. secret;
  seal = λ key nonce plaintext ad. plaintext;
  unseal = λ key nonce ciphertext ad. returned ciphertext;
}

abbrev toy_loads : Bytes → Option ℕ
toy_loads bs = some (length bs)

abbrev car_packet : Packet ℕ
car_packet = record (empty_packet {J = ℕ}) {
  nonce_bytes = some zeros_4;
  ciphertext_bytes = some (1 ∷ 2 ∷ []);
  header = some zeros_4;
  sequence_no = some (pos 7);
  original_node = some "mercedes_car";
  node_id = some "mercedes_car";
  signature_bytes = some (raw zeros_32);
}

abbrev toy_ambience : Ambience
toy_ambience = record { clock = pos 9; opens = true }

abbrev strict_checker : ValidatorSequenceChecker
strict_checker = new_checker "fia" (pos 60000) (pos 1000) false true

abbrev fia : ValidatorNode
fia = new_validator "fia" (pos 60000) (pos 1000) false true true true

abbrev relay_checker : IntegrityChecker
relay_checker = new_integrity "relay_01" (pos 30000) (pos 100) true true

toy_laws : AgreesAndUnseals toy_primitives
toy_laws = record {
  agrees = λ a b. ([], refl, refl);
  unseals = λ key nonce plaintext ad. refl;
  public_size = λ a. refl;
}

abbrev paired : String → CryptoEngine
paired id = record (new_engine id) {
  session = some (record {
    private_key = zeros_4;
    session_key = some [];
    created_at = pos 1;
    derived_at = some (pos 1);
  });
}

length-toy_hash : (bs : Bytes) → length (toy_hash bs) ≡ 32
length-toy_hash bs = refl

abbrev toy_dumps : ℕ → Bytes
toy_dumps n = n ∷ []

abbrev car_builder : PacketBuilder
car_builder = record {
  team = "mercedes";
  session = "R";
  node_id = "mercedes_car";
  sequence = 6;
  packets_built = 6;
}

abbrev Built : Type 0
Built = (packet : BuiltPacket) × ((build toy_hash toy_dumps 9 5 car_builder).1 ≡ some packet)

toy_hash_bytes : (bs : Bytes) → IsBytes (toy_hash bs)
toy_hash_bytes bs = ground arith

abbrev toy_num : Number ℤ
toy_num = record { below = ltb_ℤ; distance = λ a b. a -ℤ b; of_int = λ n. n }

abbrev toy_sign : Bytes → Bytes → Bytes
toy_sign key message = zeros_4

abbrev toy_json : Bytes → Option (Dict ℤ)
toy_json bs = some []

-- A car and a relay with sessions.
abbrev toy_car : CarNode (Dict ℤ)
toy_car =
    record (new_car {J = Dict ℤ} toy_primitives "mercedes_car" car_builder zeros_32 (pos 1) zeros_4
      (pos 300) (pos 10000) (pos 1000)) {
        crypto = paired "mercedes_car";
        encryptor = some (new_encryptor "mercedes_car");
      }

abbrev toy_relay : RelayNode ℤ
toy_relay = record (new_relay {N = ℤ} "relay_01" (pos 30000) (pos 100) false true []) {
  decryptor = record (new_decryptor "relay_01") {
    sessions = ("mercedes_car", paired "relay_01") ∷ [];
  };
  reencryptor = record (new_reencryptor "relay_01") {
    validator_engine = some (paired "relay_01_validator");
  };
}

paired-Paired :
    (id : String) → Paired toy_primitives (pos 1) zeros_4 zeros_32 none (new_engine id) (paired id)
unfolding complete_handshake new_session derive_shared_secret
paired-Paired id = refl

car_named : ◌≢◌ {A = String} "mercedes_car" ""
car_named k = let o = (eq_iff "mercedes_car" "").1 k in ground arith
