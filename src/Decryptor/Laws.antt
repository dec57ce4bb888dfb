-- ===== src/Decryptor/Laws.antt =====
-- When the relay decrypts a packet, and how it counts (relay-node/src/decryptor.py).
use text.Mathlib.TextEquality.{eq_iff}
use pitcrypt_f.Prelude.{
  Bool-cases, Option, Option-cases, Result-cases, String, [], ap, arith, false, inl, inr, lookup,
  none, or_default, refl, returned, some, string_eq, sym, true, ℕ, ◌==◌, ◌↔◌, ◌∷◌, ◌≡◌, ◌≢◌, ◌⊎◌,
}
use pitcrypt_f.Crypto.{CryptoEngine, Primitives, decrypt}
use pitcrypt_f.Decryptor.{
  DecryptFailure, RelayDecryptor, Sealed, bytes_or_hex, ciphertext_absent, decrypt_packet,
  header_or_hex, nonce_absent, open_sealed, sealed_of,
}
use pitcrypt_f.Hex.{from_hex}
use pitcrypt_f.Packet.{Bytes, Packet, Text}

-- The bytes of a field: those under the one key, or, where it is absent, those that the nonempty hex text
-- under the other stands for.
abbrev pub IsRead : Option Bytes → Option Text → Bytes → Type 0
IsRead field hex bs =
    (field ≡ some bs)
    ⊎ ((field ≡ none)
        × ((c : ℕ) × (cs : Text) × (hex ≡ some (c ∷ cs)) × (from_hex (c ∷ cs) ≡ some bs)))

-- The header, which may be absent under both keys, or empty as a text.
abbrev pub IsReadHeader : Option Bytes → Option Text → Option Bytes → Type 0
IsReadHeader field hex head =
    ((bs : Bytes) × (head ≡ some bs) × IsRead field hex bs)
    ⊎ ((head ≡ none) × (field ≡ none) × ((hex ≡ none) ⊎ (hex ≡ some [])))

-- The packet names a car with a session, its nonce, ciphertext and header can be read, the ciphertext opens
-- under the key of that session with the header as associated data, and what it holds is JSON.
pub record Decrypts (P : Primitives) {J : Type 0} (loads : Bytes → Option J) (p : Packet J)
    (d : RelayDecryptor) (q : Packet J) : Type 0 where
  pub node : String
  pub engine : CryptoEngine
  pub nonce : Bytes
  pub ciphertext : Bytes
  pub header : Option Bytes
  pub plaintext : Bytes
  pub payload : J
  pub named : p.node_id ≡ some node
  pub nonempty : node ≢ ""
  pub with_session : lookup node d.sessions ≡ some engine
  pub with_nonce : IsRead p.nonce_bytes p.nonce nonce
  pub with_ciphertext : IsRead p.ciphertext_bytes p.ciphertext ciphertext
  pub with_header : IsReadHeader p.header p.header_hex header
  pub opens : (decrypt P nonce ciphertext header engine).1 ≡ returned plaintext
  pub is_json : loads plaintext ≡ some payload
  pub result : q ≡ record p { payload_bytes = some plaintext; payload_json = some payload }

bytes_or_hex_iff :
    (absent : DecryptFailure) (field : Option Bytes) (hex : Option Text) (bs : Bytes)
    → (bytes_or_hex absent field hex ≡ returned bs) ↔ IsRead field hex bs
unfolding bytes_or_hex
bytes_or_hex_iff absent (some x) hex bs = (λ h. inl (ground arith), λ h. ground arith)
bytes_or_hex_iff absent none none bs = (λ h. absurd (ground arith), λ h. ground arith)
bytes_or_hex_iff absent none (some []) bs = (λ h. absurd (ground arith), λ h. ground arith)
bytes_or_hex_iff absent none (some (c ∷ cs)) bs = elim (Option-cases (from_hex (c ∷ cs))) [
  | inl e ↦ (λ h. absurd (ground arith), λ h. ground arith)
  | inr (x, e) ↦ (λ h. inr (refl, (c, cs, refl, ground arith)), λ h. ground arith)
]

header_or_hex_iff :
    (field : Option Bytes) (hex : Option Text) (head : Option Bytes)
    → (header_or_hex field hex ≡ returned head) ↔ IsReadHeader field hex head
unfolding header_or_hex
header_or_hex_iff (some x) hex head = (λ h. inl (x, ground arith, inl refl), λ h. ground arith)
header_or_hex_iff none none head = (λ h. inr (ground arith, refl, inl refl), λ h. ground arith)
header_or_hex_iff none (some []) head = (λ h. inr (ground arith, refl, inr refl), λ h. ground arith)
header_or_hex_iff none (some (c ∷ cs)) head = elim (Option-cases (from_hex (c ∷ cs))) [
  | inl e ↦ (λ h. absurd (ground arith), λ h. ground arith)
  | inr (x, e) ↦ (λ h. inl (x, ground arith, inr (refl, (c, cs, refl, e))), λ h. ground arith)
]

module _ {J : Type 0} where
  sealed_of-returned :
      (p : Packet J) (n c : Bytes) (head : Option Bytes)
      → IsRead p.nonce_bytes p.nonce n
      → IsRead p.ciphertext_bytes p.ciphertext c
      → IsReadHeader p.header p.header_hex head
      → sealed_of p ≡ returned (record { nonce = n; ciphertext = c; header = head })
  unfolding sealed_of
  sealed_of-returned p n c head a b d =
      let x = (bytes_or_hex_iff nonce_absent p.nonce_bytes p.nonce n).1 a in
      let y = (bytes_or_hex_iff ciphertext_absent p.ciphertext_bytes p.ciphertext c).1 b in
      let z = (header_or_hex_iff p.header p.header_hex head).1 d in rw (x, sealed_of, y, z)

  sealed_of-IsRead :
      (p : Packet J) (s : Sealed)
      → sealed_of p ≡ returned s
      → IsRead p.nonce_bytes p.nonce s.nonce
        × IsRead p.ciphertext_bytes p.ciphertext s.ciphertext
        × IsReadHeader p.header p.header_hex s.header
  unfolding sealed_of
  sealed_of-IsRead p s h = elim (Result-cases (bytes_or_hex nonce_absent p.nonce_bytes p.nonce)) [
    | inr (bad, x) ↦ absurd (ground arith)
    | inl (n, x) ↦
        elim (Result-cases (bytes_or_hex ciphertext_absent p.ciphertext_bytes p.ciphertext)) [
          | inr (bad, y) ↦ absurd (ground arith)
          | inl (c, y) ↦ elim (Result-cases (header_or_hex p.header p.header_hex)) [
            | inr (bad, z) ↦ absurd (ground arith)
            | inl (head, z) ↦
                let same : record { nonce = n; ciphertext = c; header = head } ≡ s =
                  (ground arith) in
                let a = (bytes_or_hex_iff nonce_absent p.nonce_bytes p.nonce n).0 x in
                let b =
                  (bytes_or_hex_iff ciphertext_absent p.ciphertext_bytes p.ciphertext c).0 y in
                let d = (header_or_hex_iff p.header p.header_hex head).0 z in
                rw (sym same) (a, b, d)
          ]
        ]
  ]

eq_blank : (s : String) → s ≡ "" → (s == "") ≡ true
eq_blank s e = (eq_iff s "").1 e

module _ (P : Primitives) {J : Type 0} (loads : Bytes → Option J) where
  open_sealed_opens :
      (node : String) (s : Sealed) (e : CryptoEngine) (p : Packet J) (d : RelayDecryptor)
      (q : Packet J)
      → (open_sealed P loads node s e p d).1 ≡ returned q
      → (plaintext : Bytes) × (payload : J) × ((decrypt P s.nonce s.ciphertext s.header e).1
          ≡ returned plaintext)
        × (loads plaintext ≡ some payload)
        × (q ≡ record p { payload_bytes = some plaintext; payload_json = some payload })
  unfolding open_sealed
  open_sealed_opens node s e p d q h =
      elim (Result-cases (decrypt P s.nonce s.ciphertext s.header e).1) [
        | inr (x, bad) ↦ absurd (ground arith)
        | inl (bs, ok) ↦ elim (Option-cases (loads bs)) [
          | inl none_read ↦ absurd (ground arith)
          | inr (payload, read) ↦ (bs, payload, ok, read, ground arith)
        ]
      ]

  -- The engine and the parts with which a packet reaches the cipher.
  decrypt_packet-reaches :
      (p : Packet J) (d : RelayDecryptor) (node : String) (e : CryptoEngine) (s : Sealed)
      → p.node_id ≡ some node
      → node ≢ ""
      → lookup node d.sessions ≡ some e
      → sealed_of p ≡ returned s
      → decrypt_packet P loads p d ≡ open_sealed P loads node s e p d
  unfolding decrypt_packet
  decrypt_packet-reaches p d node e s a b c f =
      let o = (eq_iff node "").0 in
      let x : (node == "") ≡ false = elim (Bool-cases (node == "")) [
        | inl k ↦ absurd (b (o k))
        | inr k ↦ k
      ] in
      let y : or_default p.node_id "" ≡ node = ap (λ k. or_default k "") a in ground arith

  decrypt_packet-Decrypts :
      (p : Packet J) (d : RelayDecryptor) (q : Packet J)
      → (decrypt_packet P loads p d).1 ≡ returned q
      → Decrypts P loads p d q
  unfolding decrypt_packet
  decrypt_packet-Decrypts p d q h = elim (Option-cases p.node_id) [
    | inl e ↦
        let o = eq_blank (or_default p.node_id "") (ap (λ k. or_default k "") e) in
        absurd (ground arith)
    | inr (node, e) ↦ elim (Bool-cases (node == "")) [
      | inl x ↦ absurd (ground arith)
      | inr x ↦ elim (Option-cases (lookup node d.sessions)) [
        | inl y ↦ absurd (ground arith)
        | inr (engine, y) ↦ elim (Result-cases (sealed_of p)) [
          | inr (bad, z) ↦ absurd (ground arith)
          | inl (s, z) ↦
              let reads = sealed_of-IsRead p s z in
              let (bs, payload, a, b, c) = open_sealed_opens node s engine p d q (ground arith) in
              record {
                node = node;
                engine = engine;
                nonce = s.nonce;
                ciphertext = s.ciphertext;
                header = s.header;
                plaintext = bs;
                payload = payload;
                named = e;
                nonempty = λ k. let o = (eq_iff node "").1 k in ground arith;
                with_session = y;
                with_nonce = reads.0;
                with_ciphertext = reads.1;
                with_header = reads.2;
                opens = a;
                is_json = b;
                result = c;
              }
        ]
      ]
    ]
  ]

  Decrypts-decrypt_packet :
      (p : Packet J) (d : RelayDecryptor) (q : Packet J)
      → Decrypts P loads p d q
      → (decrypt_packet P loads p d).1 ≡ returned q
  unfolding open_sealed
  Decrypts-decrypt_packet p d q k =
      let r =
        decrypt_packet-reaches p d k.node k.engine
          (record { nonce = k.nonce; ciphertext = k.ciphertext; header = k.header }) k.named
          k.nonempty k.with_session
          (sealed_of-returned p k.nonce k.ciphertext k.header k.with_nonce k.with_ciphertext
            k.with_header) in
      let a = k.opens in let b = k.is_json in let c = k.result in rw (r, open_sealed, a, b, c)

  -- The relay decrypts a packet into another exactly when the packet names a car with a session, has a
  -- nonce and a ciphertext, as bytes or as hex, opens under the session's key with its header as
  -- associated data, which may be absent, and holds JSON. The other packet is the same with the payload
  -- as bytes and as JSON.
  pub decrypt_packet_iff :
      (p : Packet J) (d : RelayDecryptor) (q : Packet J)
      → ((decrypt_packet P loads p d).1 ≡ returned q) ↔ Decrypts P loads p d q
  decrypt_packet_iff p d q = (decrypt_packet-Decrypts p d q, Decrypts-decrypt_packet p d q)
