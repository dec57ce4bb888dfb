-- ===== src/Crypto/Laws.antt =====
-- Two engines that exchange keys understand each other (car_producer/src/crypto_engine.py).
use pitcrypt_f.Prelude.{
  Option, Option-cases, arith, false, inl, inr, length, raised, refl, returned, some, ℤ, ◌+◌, ◌≡◌,
}
use pitcrypt_f.Crypto.{
  CryptoEngine, Primitives, complete_handshake, decrypt, derive_shared_secret, encrypt, engine_key,
  new_session, no_established_session, rotate_session, session_established,
}
use pitcrypt_f.Packet.{Bytes}

-- What the cryptography package documents: with public keys that it makes both sides derive one secret,
-- and what is sealed is unsealed under the same key, nonce and associated data. Public keys have 32 bytes.
pub record AgreesAndUnseals (P : Primitives) : Type 0 where
  pub agrees :
      (a b : Bytes)
      → (secret : Bytes) × (P.exchange a (P.public_of b) ≡ some secret)
        × (P.exchange b (P.public_of a) ≡ some secret)
  pub unseals :
      (key nonce plaintext : Bytes) (ad : Option Bytes)
      → P.unseal key nonce (P.seal key nonce plaintext ad) ad ≡ returned plaintext
  pub public_size : (a : Bytes) → length (P.public_of a) ≡ 32

-- The engine after `new_session` and `complete_handshake`.
abbrev pub Paired :
    Primitives → ℤ → Bytes → Bytes → Option Bytes → CryptoEngine → CryptoEngine → Type 0
Paired P now private peer salt e e' =
    complete_handshake P now peer salt (new_session P now private e).0 ≡ returned e'

pub rotate_session-unestablished :
    (P : Primitives) (now : ℤ) (private : Bytes) (e : CryptoEngine)
    → session_established (rotate_session P now private e).0 ≡ false
unfolding rotate_session new_session
rotate_session-unestablished P now private e = refl

pub packets_encrypted-rotate_session :
    (P : Primitives) (now : ℤ) (private : Bytes) (e : CryptoEngine)
    → (rotate_session P now private e).0.packets_encrypted ≡ e.packets_encrypted
unfolding rotate_session new_session
packets_encrypted-rotate_session P now private e = refl

pub packets_encrypted-complete_handshake :
    (P : Primitives) (now : ℤ) (peer : Bytes) (salt : Option Bytes) (e e' : CryptoEngine)
    → complete_handshake P now peer salt e ≡ returned e'
    → e'.packets_encrypted ≡ e.packets_encrypted
unfolding complete_handshake derive_shared_secret
packets_encrypted-complete_handshake P now peer salt e e' h = ground arith

-- An engine with a key always encrypts.
pub encrypt-keyed :
    (P : Primitives) (nonce plaintext key : Bytes) (ad : Option Bytes) (e : CryptoEngine)
    → engine_key e ≡ some key
    → (encrypt P nonce plaintext ad e).1 ≡ returned (nonce, P.seal key nonce plaintext ad)
unfolding encrypt
encrypt-keyed P nonce plaintext key ad e h = rw (h, encrypt)

-- The engine counts what it encrypts.
pub packets_encrypted-encrypt :
    (P : Primitives) (nonce plaintext : Bytes) (ad : Option Bytes) (e : CryptoEngine)
    → (encrypt P nonce plaintext ad e).0.packets_encrypted
      ≡ elim (encrypt P nonce plaintext ad e).1 [
        | returned r ↦ e.packets_encrypted + 1
        | raised x ↦ e.packets_encrypted
      ]
unfolding encrypt
packets_encrypted-encrypt P nonce plaintext ad e = ground arith

module _ (P : Primitives) (laws : AgreesAndUnseals P) where
  pub engine_key-Paired :
      (now : ℤ) (private peer : Bytes) (salt : Option Bytes) (e e' : CryptoEngine)
      → Paired P now private peer salt e e'
      → (secret : Bytes) × (P.exchange private peer ≡ some secret)
        × (engine_key e' ≡ some (P.hkdf salt secret))
  unfolding complete_handshake new_session derive_shared_secret
  engine_key-Paired now private peer salt e e' h = elim (Option-cases (P.exchange private peer)) [
    | inl k ↦ absurd (ground arith)
    | inr (secret, k) ↦ (secret, k, ground arith)
  ]

  -- A handshake with a public key of the package always completes.
  pub complete_handshake-returned :
      (now : ℤ) (private other : Bytes) (salt : Option Bytes) (e : CryptoEngine)
      → (e' : CryptoEngine) × Paired P now private (P.public_of other) salt e e'
  unfolding complete_handshake new_session derive_shared_secret
  complete_handshake-returned now private other salt e =
      let (secret, ours, _) = laws.agrees private other in
      (
        record e {
          session = some (record {
            private_key = private;
            session_key = some (P.hkdf salt secret);
            created_at = now;
            derived_at = some now;
          });
        },
        ground (arith, laws.public_size other),
      )

  -- Two engines that open sessions, swap the public keys and complete the handshake: what one
  -- encrypts the other decrypts, under the same associated data.
  pub decrypt-encrypt :
      (now : ℤ) (a b nonce plaintext : Bytes) (ad salt : Option Bytes) (e f e' f' : CryptoEngine)
      → Paired P now a (P.public_of b) salt e e'
      → Paired P now b (P.public_of a) salt f f'
      → (ciphertext : Bytes) × ((encrypt P nonce plaintext ad e').1 ≡ returned (nonce, ciphertext))
        × ((decrypt P nonce ciphertext ad f').1 ≡ returned plaintext)
  unfolding encrypt decrypt
  decrypt-encrypt now a b nonce plaintext ad salt e f e' f' he hf =
      let (secret, ours, theirs) = laws.agrees a b in
      let key = P.hkdf salt secret in
      let (s, ks, kse) = engine_key-Paired now a (P.public_of b) salt e e' he in
      let (t, kt, ktf) = engine_key-Paired now b (P.public_of a) salt f f' hf in
      let ke : engine_key e' ≡ some key = ground arith in
      let kf : engine_key f' ≡ some key = ground arith in
      (
        P.seal key nonce plaintext ad,
        rw (ke, encrypt),
        ground (arith, kf, laws.unseals key nonce plaintext ad),
      )

  -- After a rotation an engine encrypts and decrypts nothing until the next handshake.
  pub rotate_session_unusable :
      (now : ℤ) (private nonce body : Bytes) (ad : Option Bytes) (e : CryptoEngine)
      → let e' = (rotate_session P now private e).0 in
        (session_established e' ≡ false)
        × ((encrypt P nonce body ad e').1 ≡ raised no_established_session)
        × (decrypt P nonce body ad e' ≡ (e', raised no_established_session))
  unfolding rotate_session new_session encrypt decrypt
  rotate_session_unusable now private nonce body ad e = (refl, refl, refl)

  -- What is sealed under a key is opened by every engine with the key.
  pub decrypt-sealed :
      (nonce plaintext key : Bytes) (ad : Option Bytes) (e : CryptoEngine)
      → engine_key e ≡ some key
      → (decrypt P nonce (P.seal key nonce plaintext ad) ad e).1 ≡ returned plaintext
  unfolding decrypt
  decrypt-sealed nonce plaintext key ad e h = ground (arith, h, laws.unseals key nonce plaintext ad)
