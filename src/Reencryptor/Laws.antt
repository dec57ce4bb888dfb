-- ===== src/Reencryptor/Laws.antt =====
-- What the relay forwards to the validator (relay-node/src/reencryptor.py).
use pitcrypt_f.Prelude.{
  List-cases, Option-cases, Result-cases, String, [], ap, arith, inl, inr, none, or_default,
  returned, some, true, ◌≡◌,
}
use pitcrypt_f.Crypto.{CryptoEngine, Primitives, encrypt, engine_key}
use pitcrypt_f.Crypto.Laws.{encrypt-keyed}
use pitcrypt_f.Hex.{to_hex}
use pitcrypt_f.Hex.RoundTrip.{IsBytes, from_hex-to_hex}
use pitcrypt_f.Packet.{Bytes, Packet, Value, is_truthy, packet_seq, packet_ts, raw, str}
use pitcrypt_f.Reencryptor.{
  Reencryptor, complete_hex, complete_raw, convert, forwarded_packet, hex_to_raw, reencrypt,
}

-- A packet that the relay forwards keeps what the signature covers and what the validator compares:
-- the header, the payload under the new key, the numbers, the car and the signature.
pub record Forwards (P : Primitives) {J : Type 0} (nonce : Bytes) (p : Packet J) (r : Reencryptor)
    (q : Packet J) : Type 0 where
  pub engine : CryptoEngine
  pub payload : Bytes
  pub ciphertext : Bytes
  pub drawn : Bytes
  pub with_session : r.validator_engine ≡ some engine
  pub with_payload : p.payload_bytes ≡ some payload
  pub seals : (encrypt P nonce payload p.header engine).1 ≡ returned (drawn, ciphertext)
  pub same_nonce : q.nonce_bytes ≡ some drawn
  pub same_ciphertext : q.ciphertext_bytes ≡ some ciphertext
  pub same_header : q.header ≡ p.header
  pub same_number : q.sequence_no ≡ some (packet_seq p)
  pub same_time : q.timestamp ≡ some (packet_ts p)
  pub from_relay : q.node_id ≡ some r.node_id
  pub from_car : q.original_node ≡ some (or_default p.node_id "")
  pub no_commitment : q.zkp_commitment ≡ none
  pub sig : Value
  pub completed :
      complete_raw (or_default p.signature_bytes (raw [])) (or_default p.signature (str []))
      ≡ some sig
  pub same_signature : q.signature_bytes ≡ some sig

module _ (P : Primitives) {J : Type 0} (nonce : Bytes) (p : Packet J) (r : Reencryptor)
    (q : Packet J) where
  -- What the relay forwards to the validator has the header, the sequence number, the time and the car of
  -- the decrypted packet, its payload sealed under the session with the validator, and no commitment.
  pub reencrypt-Forwards : (reencrypt P nonce p r).1 ≡ returned q → Forwards P nonce p r q
  unfolding reencrypt convert forwarded_packet
  reencrypt-Forwards h = elim (Option-cases r.validator_engine) [
    | inl e ↦ absurd (ground arith)
    | inr (engine, e) ↦ elim (Option-cases p.payload_bytes) [
      | inl x ↦ absurd (ground arith)
      | inr (payload, x) ↦ elim (Result-cases (encrypt P nonce payload p.header engine).1) [
        | inr (bad, y) ↦ absurd (ground arith)
        | inl ((n, c), y) ↦
            elim (Option-cases (
              complete_raw (or_default p.signature_bytes (raw []))
                (or_default p.signature (str [])))) [
                  | inl z ↦ absurd (ground arith)
                  | inr (sig_bytes, z) ↦
                      elim (Option-cases
                        (complete_hex sig_bytes (or_default p.signature (str [])))) [
                          | inl u ↦ absurd (ground arith)
                          | inr (sig_hex, u) ↦
                              let made : q ≡ forwarded_packet r.node_id n c sig_bytes sig_hex p =
                                ground arith in
                              record {
                                engine = engine;
                                payload = payload;
                                ciphertext = c;
                                drawn = n;
                                with_session = e;
                                with_payload = x;
                                seals = y;
                                same_nonce = ap (λ k. k.nonce_bytes) made;
                                same_ciphertext = ap (λ k. k.ciphertext_bytes) made;
                                same_header = ap (λ k. k.header) made;
                                same_number = ap (λ k. k.sequence_no) made;
                                same_time = ap (λ k. k.timestamp) made;
                                from_relay = ap (λ k. k.node_id) made;
                                from_car = ap (λ k. k.original_node) made;
                                no_commitment = ap (λ k. k.zkp_commitment) made;
                                sig = sig_bytes;
                                completed = z;
                                same_signature = ap (λ k. k.signature_bytes) made;
                              }
                        ]
                ]
      ]
    ]
  ]

-- A nonempty signature in hex becomes its bytes.
pub complete_raw-to_hex :
    (sig : Bytes)
    → IsBytes sig
    → is_truthy (some (str (to_hex sig))) ≡ true
    → complete_raw (raw []) (str (to_hex sig)) ≡ some (raw sig)
unfolding complete_raw hex_to_raw
complete_raw-to_hex sig h k = let read = from_hex-to_hex sig h in ground arith

module _ {J : Type 0} where
  -- A signature in hex is completed with its bytes, if it has any.
  convert-signed :
      (id : String) (n c sig : Bytes) (p : Packet J)
      → p.signature_bytes ≡ none
      → p.signature ≡ some (str (to_hex sig))
      → IsBytes sig
      → (q : Packet J) × (convert id n c p ≡ some q)
  unfolding convert complete_raw complete_hex hex_to_raw
  convert-signed id n c sig p a b h =
      let read = from_hex-to_hex sig h in
      elim (List-cases (to_hex sig)) [
        | inl e ↦ (forwarded_packet id n c (raw []) (str []) p, ground arith)
        | inr (x, xs, e) ↦ (forwarded_packet id n c (raw sig) (str (to_hex sig)) p, ground arith)
      ]

  -- A relay with a session with the validator forwards a decrypted packet with a signature in hex.
  pub reencrypt-returned :
      (P : Primitives) (nonce key payload sig : Bytes) (engine : CryptoEngine) (p : Packet J)
      (r : Reencryptor)
      → r.validator_engine ≡ some engine
      → engine_key engine ≡ some key
      → p.payload_bytes ≡ some payload
      → p.signature_bytes ≡ none
      → p.signature ≡ some (str (to_hex sig))
      → IsBytes sig
      → (q : Packet J) × ((reencrypt P nonce p r).1 ≡ returned q)
  unfolding reencrypt
  reencrypt-returned P nonce key payload sig engine p r a b c d e h =
      let sealed = encrypt-keyed P nonce payload key p.header engine b in
      let (q, made) =
        convert-signed r.node_id nonce (P.seal key nonce payload p.header) sig p d e h in
      (q, ground arith)
