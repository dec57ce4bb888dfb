-- ===== src/Validator/Acceptance.antt =====
-- When the stages after decryption accept a packet (validator-node/src/main.py, process_packet).
use mathlib.Core.Option.{some-injective}
use pitcrypt_f.Prelude.{
  Bool, Bool-cases, Option, Option-cases, Result-cases, ap, arith, inl, inr, int_eqb_iff, none, pos,
  refl, returned, some, true, ℕ, ℤ, ◌↔◌, ◌≡◌,
}
use pitcrypt_f.Audit.{Ambience}
use pitcrypt_f.Commitment.{CommitmentResult, verify_packet}
use pitcrypt_f.Crypto.{CryptoEngine, Primitives, decrypt}
use pitcrypt_f.Header.{ParsedHeader, parse_header}
use pitcrypt_f.Packet.{Bytes, Packet, packet_node, packet_seq, packet_ts}
use pitcrypt_f.Sequence.{SequenceCheckResult, check, node_state}
use pitcrypt_f.Sequence.Verdict.{Acceptable, check-passed}
use pitcrypt_f.Signature.{SignatureResult, verify}
use pitcrypt_f.Signature.Laws.{IsAuthentic, verify_iff}
use pitcrypt_f.Validator.{
  Accepted, Outcome, ValidatorNode, accept_stage, header_stage, same_sequence, sequence_stage,
  signature_stage, zkp_stage,
}

-- The packet comes back.
abbrev pub Accepts : {J : Type 0} → Outcome J → Type 0
Accepts {J} o = (a : Accepted J) × (o.1 ≡ some a)

-- The header parses, and its sequence number is the one of the metadata.
pub record Agrees {J : Type 0} (p : Packet J) : Type 0 where
  pub header : Bytes
  pub fields : ParsedHeader
  pub with_header : p.header ≡ some header
  pub parses : parse_header header ≡ returned fields
  pub agrees : p.sequence_no ≡ some (pos fields.sequence_no)

-- The packet opens under the key of the session with the relay.
pub record Opens (P : Primitives) {J : Type 0} (p : Packet J) (v : ValidatorNode)
    (plaintext : Bytes) : Type 0 where
  pub engine : CryptoEngine
  pub nonce : Bytes
  pub ciphertext : Bytes
  pub with_session : v.val_engine ≡ some engine
  pub with_nonce : p.nonce_bytes ≡ some nonce
  pub with_ciphertext : p.ciphertext_bytes ≡ some ciphertext
  pub opens : (decrypt P nonce ciphertext p.header engine).1 ≡ returned plaintext

-- A stage that goes on, and one that rejects.
pub Accepts-next : {J X : Type 0} (o o' : Outcome J) → o ≡ o' → Accepts o' ↔ X → Accepts o ↔ X
Accepts-next o o' e h = rw e h

pub Accepts-reject : {J X : Type 0} (o : Outcome J) → o.1 ≡ none → ¬ X → Accepts o ↔ X
Accepts-reject o e h = (λ (a, k). absurd (ground arith), λ x. absurd (h x))

accept_stage-Accepts :
    {J : Type 0} (w : Ambience) (p : Packet J) (sig : SignatureResult) (seq : SequenceCheckResult)
    (zkp : CommitmentResult) (v : ValidatorNode)
    → Accepts (accept_stage w p sig seq zkp v)
unfolding accept_stage
accept_stage-Accepts w p sig seq zkp v = (
  record { packet = p; signature_result = sig; sequence_result = seq; zkp_result = zkp },
  ground arith,
)

pub same_sequence_iff : (o : Option ℤ) (n : ℕ) → (same_sequence o n ≡ true) ↔ (o ≡ some (pos n))
same_sequence_iff none n = (λ h. absurd (ground arith), λ h. absurd (ground arith))
same_sequence_iff (some m) n = (
  λ h. ap some ((int_eqb_iff m (pos n)).0 h),
  λ h. (int_eqb_iff m (pos n)).1 (some-injective _ _ h),
)

-- The packet's commitment verifies or is skipped.
abbrev pub Commits : (Bytes → Bytes) → {J : Type 0} → Packet J → ValidatorNode → Type 0
Commits sha256 p v = (verify_packet sha256 p v.zkp_verifier).1.verified ≡ true

-- The checker of the validator passes the packet.
abbrev pub IsInOrder : ℤ → {J : Type 0} → Packet J → ValidatorNode → Type 0
IsInOrder now p v =
    Acceptable v.seq_checker (node_state (packet_node p) now v.seq_checker) (packet_seq p)
      (packet_ts p) now

module _ (sha256 : Bytes → Bytes) {J : Type 0} (w : Ambience) (p : Packet J)
    (sig : SignatureResult) where
  zkp_stage-Accepts :
      (seq : SequenceCheckResult) (v : ValidatorNode)
      → Accepts (zkp_stage sha256 w p sig seq v) ↔ Commits sha256 p v
  unfolding zkp_stage
  zkp_stage-Accepts seq v =
      let (z, zkp) = verify_packet sha256 p v.zkp_verifier in
      let accepted = accept_stage-Accepts w p sig seq zkp (record v { zkp_verifier = z }) in
      elim (Bool-cases (verify_packet sha256 p v.zkp_verifier).1.verified) [
        | inl h ↦
            Accepts-next (zkp_stage sha256 w p sig seq v)
              (accept_stage w p sig seq zkp (record v { zkp_verifier = z }))
              (rw (h, zkp_stage) refl) (λ _. h, λ _. accepted)
        | inr h ↦ Accepts-reject (zkp_stage sha256 w p sig seq v) (ground arith) (λ k. ground arith)
      ]

  sequence_stage-Accepts :
      (now : ℤ) (v : ValidatorNode)
      → Accepts (sequence_stage sha256 w now p sig v) ↔ (IsInOrder now p v × Commits sha256 p v)
  unfolding sequence_stage
  sequence_stage-Accepts now v =
      let c = (check now p v.seq_checker).0 in
      let passed = check-passed now p v.seq_checker in
      let rest = zkp_stage-Accepts (check now p v.seq_checker).1 (record v { seq_checker = c }) in
      elim (Bool-cases (check now p v.seq_checker).1.passed) [
        | inl h ↦
            Accepts-next (sequence_stage sha256 w now p sig v)
              (zkp_stage sha256 w p sig (check now p v.seq_checker).1
                (record v { seq_checker = c }))
              (rw (h, sequence_stage) refl) (λ a. (passed.0 h, rest.0 a), λ (_, k). rest.1 k)
        | inr h ↦
            Accepts-reject (sequence_stage sha256 w now p sig v) (ground arith)
              (λ (k, _). let k' = passed.1 k in ground arith)
      ]

  header_stage-Accepts :
      (now : ℤ) (v : ValidatorNode)
      → Accepts (header_stage sha256 w now p sig v)
        ↔ (Agrees p × (IsInOrder now p v × Commits sha256 p v))
  unfolding header_stage
  header_stage-Accepts now v = elim (Option-cases p.header) [
    | inl e ↦
        Accepts-reject (header_stage sha256 w now p sig v) (ground arith)
          (λ (k, _). let x = k.with_header in ground arith)
    | inr (bs, e) ↦ elim (Result-cases (parse_header bs)) [
      | inr (bad, x) ↦
          Accepts-reject (header_stage sha256 w now p sig v) (ground arith)
            (λ (k, _). let y = k.with_header in let z = k.parses in ground arith)
      | inl (h, x) ↦
          let same = same_sequence_iff p.sequence_no h.sequence_no in
          let rest = sequence_stage-Accepts now v in
          elim (Bool-cases (same_sequence p.sequence_no h.sequence_no)) [
            | inl s ↦
                Accepts-next (header_stage sha256 w now p sig v)
                  (sequence_stage sha256 w now p sig v) (ground arith)
                  (
                    λ a.
                        let agree : Agrees p = record {
                          header = bs;
                          fields = h;
                          with_header = e;
                          parses = x;
                          agrees = same.0 s;
                        } in
                        (agree, rest.0 a),
                    λ (k, r). rest.1 r,
                  )
            | inr s ↦ Accepts-reject (header_stage sha256 w now p sig v) (ground arith) (λ (k, _).
                let y = k.with_header in
                let z = k.parses in let u = k.agrees in ground (arith, same.1))
          ]
    ]
  ]

module _ (sha256 : Bytes → Bytes) (ed25519 : Bytes → Bytes → Bytes → Bool) {J : Type 0}
    (w : Ambience) (now : ℤ) where
  -- All that the stages after decryption ask of a packet.
  abbrev pub Holds : Packet J → ValidatorNode → Type 0
  Holds p v =
      IsAuthentic ed25519 p v.sig_verifier × (Agrees p × (IsInOrder now p v × Commits sha256 p v))

  pub signature_stage-Accepts :
      (p : Packet J) (v : ValidatorNode)
      → Accepts (signature_stage sha256 ed25519 w now p v) ↔ Holds p v
  unfolding signature_stage
  signature_stage-Accepts p v =
      let sv = (verify ed25519 p v.sig_verifier).0 in
      let authentic = verify_iff ed25519 p v.sig_verifier in
      elim (Result-cases (verify ed25519 p v.sig_verifier).1) [
        | inr (bad, h) ↦
            Accepts-reject (signature_stage sha256 ed25519 w now p v) (ground arith)
              (λ (k, _). let (r, k') = authentic.1 k in ground arith)
        | inl (r, h) ↦
            let rest = header_stage-Accepts sha256 w p r now (record v { sig_verifier = sv }) in
            Accepts-next (signature_stage sha256 ed25519 w now p v)
              (header_stage sha256 w now p r (record v { sig_verifier = sv }))
              (rw (h, signature_stage) refl)
              (λ a. (authentic.0 (r, h), rest.0 a), λ (_, k). rest.1 k)
      ]
