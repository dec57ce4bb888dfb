-- ===== src/Crypto.antt =====
-- car_producer/src/crypto_engine.py: ECDH sessions and the AEAD engine of a node. The cryptography
-- package is the record `Primitives`. A generated private key and a random nonce are arguments of
-- the call that draws them. `time.time()` is the argument `now`. HKDF's length and info are constants.
pub mod Laws
use pitcrypt_f.Prelude.{
  Bool, Option, Result, String, false, if◌then◌else◌, is_some, length, nat_eq, none, not, raised,
  returned, some, ℕ, ℤ, ◌+◌, ◌==◌,
}
use pitcrypt_f.Packet.{Bytes}

pub data CipherError : Type 0 where
  -- InvalidTag, and any other exception of the cipher.
  invalid_tag cipher_failure : CipherError

pub record Primitives : Type 0 where
  pub public_of : Bytes → Bytes
  -- `none` is the ValueError for a peer key of low order.
  pub exchange : Bytes → Bytes → Option Bytes
  pub hkdf : Option Bytes → Bytes → Bytes
  pub seal : Bytes → Bytes → Bytes → Option Bytes → Bytes
  pub unseal : Bytes → Bytes → Bytes → Option Bytes → Result CipherError Bytes

pub record EcdhSession : Type 0 where
  pub private_key : Bytes
  pub session_key : Option Bytes
  pub created_at : ℤ
  pub derived_at : Option ℤ

pub record CryptoEngine : Type 0 where
  pub node_id : String
  pub session : Option EcdhSession
  pub packets_encrypted : ℕ
  pub packets_decrypted : ℕ
  pub failed_decryptions : ℕ

pub data EngineError : Type 0 where
  no_active_session no_established_session : EngineError
  bad_key_length : ℕ → EngineError
  low_order_key : EngineError
  decrypt_failed : CipherError → EngineError

abbrev pub new_engine : String → CryptoEngine
new_engine id = record {
  node_id = id;
  session = none;
  packets_encrypted = 0;
  packets_decrypted = 0;
  failed_decryptions = 0;
}

abbrev pub is_established : EcdhSession → Bool
is_established s = is_some s.session_key

abbrev pub session_established : CryptoEngine → Bool
session_established e = elim e.session [ none ↦ false | some s ↦ is_established s ]

-- The key of an established session.
abbrev pub engine_key : CryptoEngine → Option Bytes
engine_key e = elim e.session [ none ↦ none | some s ↦ s.session_key ]

module _ (P : Primitives) where
  -- `derive_shared_secret`.
  unfoldable pub derive_shared_secret :
      ℤ → Bytes → Option Bytes → EcdhSession → Result EngineError EcdhSession
  derive_shared_secret now peer salt s =
      if not (length peer == 32)
      then raised (bad_key_length (length peer))
      else elim (P.exchange s.private_key peer) [
        | none ↦ raised low_order_key
        | some secret ↦
            returned (record s { session_key = some (P.hkdf salt secret); derived_at = some now })
      ]

  -- `new_session` with the private key that it draws; the public key is for the peer.
  unfoldable pub new_session : ℤ → Bytes → CryptoEngine → CryptoEngine × Bytes
  new_session now private e = (
    record e {
      session = some (record {
        private_key = private;
        session_key = none;
        created_at = now;
        derived_at = none;
      });
    },
    P.public_of private,
  )

  -- `rotate_session`: the old session is dropped.
  pub rotate_session : ℤ → Bytes → CryptoEngine → CryptoEngine × Bytes
  rotate_session = new_session

  unfoldable pub complete_handshake :
      ℤ → Bytes → Option Bytes → CryptoEngine → Result EngineError CryptoEngine
  complete_handshake now peer salt e = elim e.session [
    | none ↦ raised no_active_session
    | some s ↦ elim (derive_shared_secret now peer salt s) [
      | raised x ↦ raised x
      | returned s' ↦ returned (record e { session = some s' })
    ]
  ]

  -- `encrypt` with the nonce that it draws.
  pub encrypt :
      Bytes
      → Bytes
      → Option Bytes
      → CryptoEngine
      → CryptoEngine × Result EngineError (Bytes × Bytes)
  encrypt nonce plaintext ad e = elim (engine_key e) [
    | none ↦ (e, raised no_established_session)
    | some key ↦ (
      record e { packets_encrypted = e.packets_encrypted + 1 },
      returned (nonce, P.seal key nonce plaintext ad),
    )
  ]

  count_decryption : Result CipherError Bytes → CryptoEngine → CryptoEngine
  count_decryption (returned bs) e = record e { packets_decrypted = e.packets_decrypted + 1 }
  count_decryption (raised invalid_tag) e = record e {
    failed_decryptions = e.failed_decryptions + 1;
  }
  count_decryption (raised cipher_failure) e = e

  pub decrypt :
      Bytes → Bytes → Option Bytes → CryptoEngine → CryptoEngine × Result EngineError Bytes
  decrypt nonce ciphertext ad e = elim (engine_key e) [
    | none ↦ (e, raised no_established_session)
    | some key ↦
        (let r = P.unseal key nonce ciphertext ad in
          (
            count_decryption r e,
            elim r [ returned bs ↦ returned bs | raised x ↦ raised (decrypt_failed x) ],
          ))
  ]
