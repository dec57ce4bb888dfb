-- ===== src/Encryptor/Laws.antt =====
-- What one side's encryptor seals the other side's opens (car_producer/src/encryptor.py).
use pitcrypt_f.Prelude.{
  Bool-cases, Option, Result-cases, String, ap, arith, false, inl, inr, or_default, pos, raised,
  refl, returned, some, sym, true, ℤ, ◌+◌, ◌∙◌, ◌≡◌,
}
use pitcrypt_f.Crypto.{CryptoEngine, Primitives, decrypt, encrypt, engine_key, session_established}
use pitcrypt_f.Crypto.Laws.{
  AgreesAndUnseals, Paired, decrypt-encrypt, encrypt-keyed, engine_key-Paired,
  packets_encrypted-encrypt,
}
use pitcrypt_f.Encryptor.{
  EncryptError, PacketEncryptor, bytes_or_key, decrypt_packet, encrypt_packet, encrypted_dict,
  not_established, seal_packet, unseal_packet,
}
use pitcrypt_f.Packet.{Bytes, Packet, Text, packet_seq, raw, str}
use pitcrypt_f.Signer.{CarPacket}
use pitcrypt_f.Validator.{opened}

session_established-engine_key :
    (e : CryptoEngine) (key : Bytes) → engine_key e ≡ some key → session_established e ≡ true
session_established-engine_key e key h = ground arith

module _ (P : Primitives) {J : Type 0} where
  encrypt_packet-established :
      (nonce head body : Bytes) (p : CarPacket) (e : CryptoEngine) (x : PacketEncryptor)
      → p.header ≡ some head
      → p.payload ≡ some body
      → session_established e ≡ true
      → encrypt_packet {J = J} P nonce p e x ≡ seal_packet P nonce head body p e x
  unfolding encrypt_packet
  encrypt_packet-established nonce head body p e x a b c = ground arith

  seal_packet-returned :
      (nonce head body n c : Bytes) (p : CarPacket) (e : CryptoEngine) (x : PacketEncryptor)
      → (encrypt P nonce body (some head) e).1 ≡ returned (n, c)
      → seal_packet {J = J} P nonce head body p e x ≡ (
        (
          (encrypt P nonce body (some head) e).0,
          record x { packets_encrypted = x.packets_encrypted + 1 },
        ),
        returned (encrypted_dict x.node_id n c head p),
      )
  unfolding seal_packet
  seal_packet-returned nonce head body n c p e x h = rw (h, seal_packet)

  unseal_packet-returned :
      (loads : Bytes → Option J) (n c plaintext : Bytes) (j : J) (p : Packet J) (e : CryptoEngine)
      (x : PacketEncryptor)
      → (decrypt P n c p.header e).1 ≡ returned plaintext
      → loads plaintext ≡ some j
      → unseal_packet P loads n c p e x ≡ (
        ((decrypt P n c p.header e).0, record x { packets_decrypted = x.packets_decrypted + 1 }),
        returned (record p { payload_bytes = some plaintext; payload_json = some j }),
      )
  unfolding unseal_packet
  unseal_packet-returned loads n c plaintext j p e x h k = rw (h, unseal_packet, k)

  decrypt_packet-established :
      (loads : Bytes → Option J) (n c : Bytes) (p : Packet J) (e : CryptoEngine)
      (x : PacketEncryptor)
      → p.nonce_bytes ≡ some n
      → p.ciphertext_bytes ≡ some c
      → session_established e ≡ true
      → decrypt_packet P loads p e x ≡ unseal_packet P loads n c p e x
  unfolding decrypt_packet bytes_or_key
  decrypt_packet-established loads n c p e x a b h = ground arith

  -- Without a session nothing is encrypted, and nothing changes.
  pub encrypt_packet-unestablished :
      (nonce : Bytes) (p : CarPacket) (e : CryptoEngine) (x : PacketEncryptor)
      → session_established e ≡ false
      → encrypt_packet {J = J} P nonce p e x ≡ ((e, x), raised not_established)
  unfolding encrypt_packet
  encrypt_packet-unestablished nonce p e x h = ground arith

  -- What is encrypted has the number of the packet, and the engine counts it.
  seal_packet-numbers :
      (nonce head body : Bytes) (p : CarPacket) (e : CryptoEngine) (x : PacketEncryptor)
      (q : Packet J)
      → (seal_packet P nonce head body p e x).1 ≡ returned q
      → (packet_seq q ≡ or_default p.sequence_no (pos 0))
        × ((seal_packet {J = J} P nonce head body p e x).0.0.packets_encrypted
            ≡ e.packets_encrypted + 1)
  unfolding seal_packet
  seal_packet-numbers nonce head body p e x q h =
      let counts = packets_encrypted-encrypt P nonce body (some head) e in
      elim (Result-cases (encrypt P nonce body (some head) e).1) [
        | inr (err, k) ↦ absurd (ground arith)
        | inl ((n, c), k) ↦
            let sent = ap (λ o. o.1) (seal_packet-returned nonce head body n c p e x k) in
            let made : encrypted_dict {J = J} x.node_id n c head p ≡ q = ground arith in
            (ap (λ o. packet_seq o) (sym made), ground arith)
      ]

  seal_packet-raised :
      (nonce head body : Bytes) (p : CarPacket) (e : CryptoEngine) (x : PacketEncryptor)
      (err : EncryptError)
      → (seal_packet {J = J} P nonce head body p e x).1 ≡ raised err
      → (seal_packet {J = J} P nonce head body p e x).0.0.packets_encrypted ≡ e.packets_encrypted
  unfolding seal_packet
  seal_packet-raised nonce head body p e x err h =
      let counts = packets_encrypted-encrypt P nonce body (some head) e in ground arith

  pub encrypt_packet-numbers :
      (nonce head body : Bytes) (p : CarPacket) (e : CryptoEngine) (x : PacketEncryptor)
      (q : Packet J)
      → p.header ≡ some head
      → p.payload ≡ some body
      → (encrypt_packet P nonce p e x).1 ≡ returned q
      → (packet_seq q ≡ or_default p.sequence_no (pos 0))
        × ((encrypt_packet {J = J} P nonce p e x).0.0.packets_encrypted ≡ e.packets_encrypted + 1)
  encrypt_packet-numbers nonce head body p e x q a b h = elim (Bool-cases (session_established e)) [
    | inl k ↦
        let s = encrypt_packet-established nonce head body p e x a b k in
        rw s (seal_packet-numbers nonce head body p e x q (rw s at h))
    | inr k ↦ absurd (let s = encrypt_packet-unestablished nonce p e x k in ground arith)
  ]

  pub encrypt_packet-raised :
      (nonce head body : Bytes) (p : CarPacket) (e : CryptoEngine) (x : PacketEncryptor)
      (err : EncryptError)
      → p.header ≡ some head
      → p.payload ≡ some body
      → (encrypt_packet {J = J} P nonce p e x).1 ≡ raised err
      → (encrypt_packet {J = J} P nonce p e x).0.0.packets_encrypted ≡ e.packets_encrypted
  encrypt_packet-raised nonce head body p e x err a b h =
      elim (Bool-cases (session_established e)) [
        | inl k ↦
            let s = encrypt_packet-established nonce head body p e x a b k in
            rw s (seal_packet-raised nonce head body p e x err (rw s at h))
        | inr k ↦ ap (λ o. o.0.0.packets_encrypted) (encrypt_packet-unestablished nonce p e x k)
      ]

  -- An engine with a key encrypts every packet with a header and a payload.
  pub encrypt_packet-keyed :
      (nonce key head body : Bytes) (p : CarPacket) (e : CryptoEngine) (x : PacketEncryptor)
      → p.header ≡ some head
      → p.payload ≡ some body
      → engine_key e ≡ some key
      → (encrypt_packet {J = J} P nonce p e x).1
        ≡ returned (encrypted_dict x.node_id nonce (P.seal key nonce body (some head)) head p)
  encrypt_packet-keyed nonce key head body p e x a b c =
      let c' = P.seal key nonce body (some head) in
      let sealed = encrypt-keyed P nonce body key (some head) e c in
      ap (λ o. o.1)
        (encrypt_packet-established nonce head body p e x a b
            (session_established-engine_key e key c)
          ∙ seal_packet-returned nonce head body nonce c' p e x sealed)

-- What is in a signed packet.
pub record SignedParts : Type 0 where
  pub header : Bytes
  pub payload : Bytes
  pub signature : Text
  pub signature_bytes : Bytes
  pub sequence_no : ℤ
  pub timestamp : ℤ
  pub team : String
  pub session : String
  pub signer_node_id : String

-- The dict of the car that holds them.
abbrev pub packet_of : SignedParts → CarPacket
packet_of s = record {
  header = some s.header;
  payload = some s.payload;
  sequence_no = some s.sequence_no;
  timestamp = some s.timestamp;
  team = some s.team;
  session = some s.session;
  signature = some s.signature;
  signature_bytes = some s.signature_bytes;
  signer_node_id = some s.signer_node_id;
}

-- The dict of the other side has the parts, the payload as bytes and as JSON, and the signer as its node.
pub record Delivers {J : Type 0} (s : SignedParts) (j : J) (r : Packet J) : Type 0 where
  header : r.header ≡ some s.header
  payload_bytes : r.payload_bytes ≡ some s.payload
  payload_json : r.payload_json ≡ some j
  signature : r.signature ≡ some (str s.signature)
  signature_bytes : r.signature_bytes ≡ some (raw s.signature_bytes)
  sequence_no : r.sequence_no ≡ some s.sequence_no
  timestamp : r.timestamp ≡ some s.timestamp
  team : r.team ≡ some s.team
  session : r.session ≡ some s.session
  node_id : r.node_id ≡ some s.signer_node_id

module _ (P : Primitives) (laws : AgreesAndUnseals P) {J : Type 0} (loads : Bytes → Option J) where
  -- Two engines that swap public keys and complete the handshake: a signed packet that one encryptor
  -- encrypts is decrypted by the other to its payload, if the payload is JSON. What comes out has the
  -- header, the signature as text and as bytes, the number, the time, the team and the session of the
  -- packet, and its signer as the node, and both encryptors count the packet.
  pub decrypt_packet-encrypt_packet :
      (now : ℤ) (a b nonce : Bytes) (j : J) (salt : Option Bytes) (e f e' f' : CryptoEngine)
      (s : SignedParts) (x y : PacketEncryptor)
      → Paired P now a (P.public_of b) salt e e'
      → Paired P now b (P.public_of a) salt f f'
      → loads s.payload ≡ some j
      → (q r : Packet J) × ((encrypt_packet P nonce (packet_of s) e' x).1 ≡ returned q)
        × ((decrypt_packet P loads q f' y).1 ≡ returned r)
        × Delivers s j r
        × ((encrypt_packet {J = J} P nonce (packet_of s) e' x).0.1.packets_encrypted
            ≡ x.packets_encrypted + 1)
        × ((decrypt_packet P loads q f' y).0.1.packets_decrypted ≡ y.packets_decrypted + 1)
  decrypt_packet-encrypt_packet now a b nonce j salt e f e' f' s x y he hf hj =
      let head = s.header in
      let body = s.payload in
      let p = packet_of s in
      let hp : p.header ≡ some head = refl in
      let hb : p.payload ≡ some body = refl in
      let (c, sealed, opened) =
        decrypt-encrypt P laws now a b nonce body (some head) salt e f e' f' he hf in
      let k =
        session_established-engine_key e' _
          (engine_key-Paired P laws now a (P.public_of b) salt e e' he).2 in
      let l =
        session_established-engine_key f' _
          (engine_key-Paired P laws now b (P.public_of a) salt f f' hf).2 in
      let q = encrypted_dict {J = J} x.node_id nonce c head p in
      let r : Packet J = record q { payload_bytes = some body; payload_json = some j } in
      let sends =
        encrypt_packet-established P {J = J} nonce head body p e' x hp hb k
        ∙ seal_packet-returned P nonce head body nonce c p e' x sealed in
      let gets =
        decrypt_packet-established P loads nonce c q f' y refl refl l
        ∙ unseal_packet-returned P loads nonce c body j q f' y opened hj in
      (
        q,
        r,
        ap (λ o. o.1) sends,
        ap (λ o. o.1) gets,
        record {
          header = refl;
          payload_bytes = refl;
          payload_json = refl;
          signature = refl;
          signature_bytes = refl;
          sequence_no = refl;
          timestamp = refl;
          team = refl;
          session = refl;
          node_id = refl;
        },
        ap (λ o. o.0.1.packets_encrypted) sends,
        ap (λ o. o.0.1.packets_decrypted) gets,
      )
