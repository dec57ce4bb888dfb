-- ===== src/Validator/Verdict.antt =====
-- When the validator accepts a packet (validator-node/src/main.py, process_packet).
use pitcrypt_f.Prelude.{
  Bool, Option, Option-cases, Result-cases, arith, inl, inr, refl, returned, some, sym, ℤ, ◌↔◌, ◌∙◌,
  ◌≡◌,
}
use pitcrypt_f.Audit.{Ambience}
use pitcrypt_f.Crypto.{CryptoEngine, Primitives}
use pitcrypt_f.Packet.{Bytes, Packet}
use pitcrypt_f.Validator.{
  ValidatorNode, decrypt_packet, decrypt_stage, opened, process_packet, receive, signature_stage,
}
use pitcrypt_f.Validator.Acceptance.{
  Accepts, Accepts-next, Accepts-reject, Holds, Opens, signature_stage-Accepts,
}

module _ (P : Primitives) {J : Type 0} (p : Packet J) where
  pub decrypt_packet-Opens :
      (v : ValidatorNode) (e : CryptoEngine) (plaintext : Bytes)
      → v.val_engine ≡ some e
      → ((decrypt_packet P e p).1 ≡ returned plaintext) ↔ Opens P p v plaintext
  unfolding decrypt_packet
  decrypt_packet-Opens v e plaintext h = (
    λ k. elim (Option-cases p.nonce_bytes) [
      | inl x ↦ absurd (ground arith)
      | inr (n, x) ↦ elim (Option-cases p.ciphertext_bytes) [
        | inl y ↦ absurd (ground arith)
        | inr (c, y) ↦ record {
          engine = e;
          nonce = n;
          ciphertext = c;
          with_session = h;
          with_nonce = x;
          with_ciphertext = y;
          opens = ground arith;
        }
      ]
    ],
    λ o.
        let a = o.with_session in
        let b = o.with_nonce in let c = o.with_ciphertext in let d = o.opens in ground arith,
  )

  Opens-by :
      (u v : ValidatorNode) (bs : Bytes)
      → v.val_engine ≡ u.val_engine
      → Opens P p v bs
      → Opens P p u bs
  Opens-by u v bs same o = record {
    engine = o.engine;
    nonce = o.nonce;
    ciphertext = o.ciphertext;
    with_session = sym same ∙ o.with_session;
    with_nonce = o.with_nonce;
    with_ciphertext = o.with_ciphertext;
    opens = o.opens;
  }

module _ (P : Primitives) (sha256 : Bytes → Bytes) (ed25519 : Bytes → Bytes → Bytes → Bool)
    {J : Type 0} (loads : Bytes → Option J) (no_json : J) (w : Ambience) (now : ℤ)
    (p : Packet J) where
  -- All that the validator asks of a packet.
  abbrev pub IsAcceptable : ValidatorNode → Type 0
  IsAcceptable v =
      (plaintext : Bytes) × (Opens P p v plaintext
        × Holds sha256 ed25519 w now (opened loads no_json plaintext p) v)

  decrypt_stage-Accepts :
      (v : ValidatorNode) (e : CryptoEngine)
      → v.val_engine ≡ some e
      → Accepts (decrypt_stage P sha256 ed25519 loads no_json w now p e v) ↔ IsAcceptable v
  unfolding decrypt_stage
  decrypt_stage-Accepts v e h = elim (Result-cases (decrypt_packet P e p).1) [
    | inr (bad, k) ↦
        Accepts-reject (decrypt_stage P sha256 ed25519 loads no_json w now p e v) (ground arith)
          (λ (bs, (o, _)). let x = (decrypt_packet-Opens P p v e bs h).1 o in ground arith)
    | inl (bs, k) ↦
        let v' : ValidatorNode = record v { val_engine = some (decrypt_packet P e p).0 } in
        let rest = signature_stage-Accepts sha256 ed25519 w now (opened loads no_json bs p) v' in
        Accepts-next (decrypt_stage P sha256 ed25519 loads no_json w now p e v)
          (signature_stage sha256 ed25519 w now (opened loads no_json bs p) v')
          (rw (k, decrypt_stage) refl)
          (
            λ a. (bs, ((decrypt_packet-Opens P p v e bs h).0 k, rest.0 a)),
            λ (bs', (o, x)).
                let same : bs' ≡ bs =
                  (let y = (decrypt_packet-Opens P p v e bs' h).1 o in ground arith) in
                rest.1 (rw same at x),
          )
  ]

  -- The validator accepts a packet exactly when the packet opens under the session's key, its
  -- signature is authentic, its header agrees with its metadata, the sequence checker passes it and
  -- its commitment verifies or is skipped.
  pub process_packet_iff :
      (v : ValidatorNode)
      → Accepts (process_packet P sha256 ed25519 loads no_json w now p v) ↔ IsAcceptable v
  unfolding process_packet decrypt_stage receive
  process_packet_iff v = elim (Option-cases v.val_engine) [
    | inl h ↦
        Accepts-reject (process_packet P sha256 ed25519 loads no_json w now p v) (ground arith)
          (λ (bs, (o, _)). let x = o.with_session in ground arith)
    | inr (e, h) ↦
        Accepts-next (process_packet P sha256 ed25519 loads no_json w now p v)
          (decrypt_stage P sha256 ed25519 loads no_json w now p e (receive v))
          (rw (h, process_packet) refl)
          (let rest = decrypt_stage-Accepts (receive v) e h in
            (
              λ a. let (bs, (o, x)) = rest.0 a in (bs, (Opens-by P p v (receive v) bs refl o, x)),
              λ (bs, (o, x)). rest.1 (bs, (Opens-by P p (receive v) v bs refl o, x)),
            ))
  ]
