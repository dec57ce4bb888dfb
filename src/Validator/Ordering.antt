-- ===== src/Validator/Ordering.antt =====
-- The order of the packets that the validator accepts (validator-node/src/main.py, process_packet).
use pitcrypt_f.Prelude.{
  Bool, Bool-cases, Option, Option-cases, Result-cases, ap, arith, inl, inr, is_some, none, refl,
  some, sym, true, ℤ, ◌∙◌, ◌≡◌, ◌⊎◌,
}
use pitcrypt_f.Audit.{Ambience}
use pitcrypt_f.Commitment.{CommitmentResult, verify_packet}
use pitcrypt_f.Crypto.{Primitives}
use pitcrypt_f.Header.{parse_header}
use pitcrypt_f.Packet.{Bytes, Packet}
use pitcrypt_f.Sequence.{SequenceCheckResult, check}
use pitcrypt_f.Sequence.Verdict.{check-same}
use pitcrypt_f.Signature.{SignatureResult, verify}
use pitcrypt_f.Signature.Laws.{IsAuthentic, verify_iff}
use pitcrypt_f.Validator.{
  Outcome, ValidatorNode, accept_stage, decrypt_packet, decrypt_stage, fail_sequence,
  fail_signature, fail_zkp, header_stage, opened, process_packet, receive, reject_packet,
  same_sequence, sequence_stage, signature_stage, zkp_stage,
}
use pitcrypt_f.Validator.Acceptance.{Agrees, Opens, same_sequence_iff}
use pitcrypt_f.Validator.Verdict.{decrypt_packet-Opens}

module _ (P : Primitives) (sha256 : Bytes → Bytes) (ed25519 : Bytes → Bytes → Bytes → Bool)
    {J : Type 0} (loads : Bytes → Option J) (no_json : J) where
  -- The sequence checker after a call is as it was, and nothing is accepted, or it has checked the
  -- packet. It checks only a packet that opens, is authentic and agrees with its header. An
  -- accepted packet has passed it.
  pub data Checks (now : ℤ) (p : Packet J) (v : ValidatorNode) (o : Outcome J) : Type 0 where
    untouched : o.0.seq_checker ≡ v.seq_checker → o.1 ≡ none → Checks now p v o
    checked :
        (plaintext : Bytes)
        → Opens P p v plaintext
        → IsAuthentic ed25519 (opened loads no_json plaintext p) v.sig_verifier
        → Agrees (opened loads no_json plaintext p)
        → o.0.seq_checker ≡ (check now p v.seq_checker).0
        → (is_some o.1 ≡ true → (check now p v.seq_checker).1.passed ≡ true)
        → Checks now p v o

module _ {J : Type 0} (w : Ambience) (p : Packet J) (sig : SignatureResult) where
  seq_checker-accept_stage :
      (seq : SequenceCheckResult) (zkp : CommitmentResult) (v : ValidatorNode)
      → (accept_stage w p sig seq zkp v).0.seq_checker ≡ v.seq_checker
  unfolding accept_stage
  seq_checker-accept_stage seq zkp v = ground arith

  seq_checker-zkp_stage :
      (sha256 : Bytes → Bytes) (seq : SequenceCheckResult) (v : ValidatorNode)
      → (zkp_stage sha256 w p sig seq v).0.seq_checker ≡ v.seq_checker
  unfolding zkp_stage reject_packet fail_zkp
  seq_checker-zkp_stage sha256 seq v =
      let (z, zkp) = verify_packet sha256 p v.zkp_verifier in
      ground (arith, seq_checker-accept_stage seq zkp (record v { zkp_verifier = z }))

  seq_checker-sequence_stage :
      (sha256 : Bytes → Bytes) (now : ℤ) (v : ValidatorNode)
      → let o = sequence_stage sha256 w now p sig v in
        (o.0.seq_checker ≡ (check now p v.seq_checker).0)
        × (is_some o.1 ≡ true → (check now p v.seq_checker).1.passed ≡ true)
  unfolding sequence_stage reject_packet fail_sequence
  seq_checker-sequence_stage sha256 now v =
      let (c, r) = check now p v.seq_checker in
      ground (arith, seq_checker-zkp_stage sha256 r (record v { seq_checker = c }))

  seq_checker-header_stage :
      (sha256 : Bytes → Bytes) (now : ℤ) (v : ValidatorNode)
      → let o = header_stage sha256 w now p sig v in
        ((o.0.seq_checker ≡ v.seq_checker) × (o.1 ≡ none))
        ⊎ (Agrees p
            × (o.0.seq_checker ≡ (check now p v.seq_checker).0)
            × (is_some o.1 ≡ true → (check now p v.seq_checker).1.passed ≡ true))
  unfolding header_stage reject_packet
  seq_checker-header_stage sha256 now v = elim (Option-cases p.header) [
    | inl e ↦ inl (ground arith)
    | inr (bs, e) ↦ elim (Result-cases (parse_header bs)) [
      | inr (bad, x) ↦ inl (ground arith)
      | inl (h, x) ↦ elim (Bool-cases (same_sequence p.sequence_no h.sequence_no)) [
        | inr s ↦ inl (ground arith)
        | inl s ↦
            let agree : Agrees p = record {
              header = bs;
              fields = h;
              with_header = e;
              parses = x;
              agrees = (same_sequence_iff p.sequence_no h.sequence_no).0 s;
            } in
            let next : header_stage sha256 w now p sig v ≡ sequence_stage sha256 w now p sig v =
              ground arith in
            let (a, b) = seq_checker-sequence_stage sha256 now v in
            inr (agree, rw next a, rw next b)
      ]
    ]
  ]

module _ (P : Primitives) (sha256 : Bytes → Bytes) (ed25519 : Bytes → Bytes → Bytes → Bool)
    {J : Type 0} (loads : Bytes → Option J) (no_json : J) (w : Ambience) (now : ℤ)
    (p : Packet J) where
  Checks-next :
      (v u : ValidatorNode) (o o' : Outcome J)
      → o ≡ o'
      → u.seq_checker ≡ v.seq_checker
      → (plaintext : Bytes) → Opens P p v plaintext
      → let q = opened loads no_json plaintext p in
        IsAuthentic ed25519 q v.sig_verifier
        → ((o'.0.seq_checker ≡ u.seq_checker) × (o'.1 ≡ none))
          ⊎ (Agrees q
              × (o'.0.seq_checker ≡ (check now q u.seq_checker).0)
              × (is_some o'.1 ≡ true → (check now q u.seq_checker).1.passed ≡ true))
        → Checks P sha256 ed25519 loads no_json now p v o
  unfolding opened
  Checks-next v u o o' e s bs opens authentic (inl (a, b)) =
      untouched (ap (λ x. x.0.seq_checker) e ∙ a ∙ s) (ap (λ x. x.1) e ∙ b)
  Checks-next v u o o' e s bs opens authentic (inr (a, b, c)) =
      let same = check-same now p (opened loads no_json bs p) v.seq_checker refl refl refl in
      checked bs opens authentic a (rw (e, same, sym s) b) (rw (e, same, sym s) c)

  -- What a call does to the sequence checker: nothing, and then no packet comes back, or one check of
  -- the packet. Only a packet that opens under the session's key, has an authentic signature and
  -- agrees with its header is checked, and an accepted packet has passed.
  pub process_packet-Checks :
      (v : ValidatorNode)
      → Checks P sha256 ed25519 loads no_json now p v
          (process_packet P sha256 ed25519 loads no_json w now p v)
  unfolding process_packet decrypt_stage signature_stage receive reject_packet fail_signature
  process_packet-Checks v = elim (Option-cases v.val_engine) [
    | inl h ↦ untouched (ground arith) (ground arith)
    | inr (e, h) ↦ elim (Result-cases (decrypt_packet P e p).1) [
      | inr (d, k) ↦ untouched (ground arith) (ground arith)
      | inl (bs, k) ↦
          let q = opened loads no_json bs p in
          let (sv, r) = verify ed25519 q v.sig_verifier in
          elim (Result-cases (verify ed25519 q v.sig_verifier).1) [
            | inr (bad, x) ↦ untouched (ground arith) (ground arith)
            | inl (res, x) ↦
                let u : ValidatorNode = record (receive v) {
                  val_engine = some (decrypt_packet P e p).0;
                  sig_verifier = sv;
                } in
                Checks-next v u (process_packet P sha256 ed25519 loads no_json w now p v)
                  (header_stage sha256 w now q res u) (ground arith) refl bs
                  ((decrypt_packet-Opens P p v e bs h).0 k)
                  ((verify_iff ed25519 q v.sig_verifier).0 (res, x))
                  (seq_checker-header_stage w q res sha256 now u)
          ]
    ]
  ]
