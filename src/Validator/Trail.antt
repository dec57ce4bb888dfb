-- ===== src/Validator/Trail.antt =====
-- The audit trail and the counters of the validator (validator-node/src/main.py, process_packet).
use pitcrypt_f.Prelude.{
  Bool, Bool-cases, Option, Option-cases, Result-cases, String, [], ap, arith, inl, inr, none, pos,
  refl, some, ℤ, ◌++◌, ◌+◌, ◌↔◌, ◌∙◌, ◌∷◌, ◌≡◌, ◌≤◌,
}
use pitcrypt_f.Audit.{Ambience, AuditEvent, accept, flag, reject}
use pitcrypt_f.Commitment.{verify_packet}
use pitcrypt_f.Crypto.{CryptoEngine, Primitives}
use pitcrypt_f.Header.{parse_header}
use pitcrypt_f.Packet.{Bytes, Packet, packet_node, packet_seq}
use pitcrypt_f.Sequence.{SequenceCheckResult, check}
use pitcrypt_f.Signature.{SignatureResult, verify}
use pitcrypt_f.Validator.{
  Details, Outcome, ValidatorNode, accept_stage, decrypt_packet, decrypt_stage, fail_sequence,
  fail_signature, fail_zkp, header_error, header_mismatch, header_stage, missing_key, opened,
  process_packet, receive, reject_packet, same_sequence, sequence_errors, sequence_stage,
  signature_error, signature_stage, zkp_reason, zkp_stage,
}
use pitcrypt_f.Validator.Settling.{
  Decides, Decides-next, accept_stage-Decides_of, record_event-tallies, reject_packet-Decides,
  tally_of,
}

module _ (sha256 : Bytes → Bytes) {J : Type 0} (w : Ambience) (p : Packet J)
    (sig : SignatureResult) where
  zkp_stage-Decides :
      (seq : SequenceCheckResult) (v : ValidatorNode)
      → Decides (packet_seq p) (packet_node p) v (zkp_stage sha256 w p sig seq v)
  unfolding zkp_stage fail_zkp
  zkp_stage-Decides seq v =
      let zkp = (verify_packet sha256 p v.zkp_verifier).1 in
      let v' : ValidatorNode = record v {
        zkp_verifier = (verify_packet sha256 p v.zkp_verifier).0;
      } in
      elim (Bool-cases zkp.verified) [
        | inl h ↦
            Decides-next (packet_seq p) (packet_node p) v v' (zkp_stage sha256 w p sig seq v)
              (accept_stage w p sig seq zkp v') (rw (h, zkp_stage) refl) refl refl
              (accept_stage-Decides_of w p sig seq zkp v' seq.warnings refl)
        | inr h ↦
            rw (h, zkp_stage)
              (reject_packet-Decides w p "zkp_invalid" (some (zkp_reason zkp.reason)) v
                (fail_zkp v') refl refl refl refl refl (omega arith))
      ]

  sequence_stage-Decides :
      (now : ℤ) (v : ValidatorNode)
      → Decides (packet_seq p) (packet_node p) v (sequence_stage sha256 w now p sig v)
  unfolding sequence_stage fail_sequence
  sequence_stage-Decides now v =
      let r = (check now p v.seq_checker).1 in
      let v' : ValidatorNode = record v { seq_checker = (check now p v.seq_checker).0 } in
      elim (Bool-cases r.passed) [
        | inl h ↦
            Decides-next (packet_seq p) (packet_node p) v v' (sequence_stage sha256 w now p sig v)
              (zkp_stage sha256 w p sig r v') (rw (h, sequence_stage) refl) refl refl
              (zkp_stage-Decides r v')
        | inr h ↦
            rw (h, sequence_stage)
              (reject_packet-Decides w p "sequence_invalid" (some (sequence_errors r.errors)) v
                (fail_sequence v') refl refl refl refl refl (omega arith))
      ]

  -- A reject that no counter of failures counts.
  plain_reject-Decides :
      (why : String) (more : Option Details) (v : ValidatorNode)
      → Decides {J = J} (packet_seq p) (packet_node p) v (reject_packet w p why more v, none)
  plain_reject-Decides why more v =
      reject_packet-Decides w p why more v v refl refl refl refl refl (omega arith)

  header_stage-Decides :
      (now : ℤ) (v : ValidatorNode)
      → Decides (packet_seq p) (packet_node p) v (header_stage sha256 w now p sig v)
  unfolding header_stage
  header_stage-Decides now v = elim (Option-cases p.header) [
    | inl e ↦
        Decides-next (packet_seq p) (packet_node p) v v (header_stage sha256 w now p sig v) _
          (ground arith) refl refl
          (plain_reject-Decides "invalid_packet_header" (some (missing_key "header")) v)
    | inr (bs, e) ↦ elim (Result-cases (parse_header bs)) [
      | inr (bad, x) ↦
          Decides-next (packet_seq p) (packet_node p) v v (header_stage sha256 w now p sig v) _
            (ground arith) refl refl
            (plain_reject-Decides "invalid_packet_header" (some (header_error bad)) v)
      | inl (h, x) ↦ elim (Bool-cases (same_sequence p.sequence_no h.sequence_no)) [
        | inl s ↦
            Decides-next (packet_seq p) (packet_node p) v v (header_stage sha256 w now p sig v)
              (sequence_stage sha256 w now p sig v) (ground arith) refl refl
              (sequence_stage-Decides now v)
        | inr s ↦
            Decides-next (packet_seq p) (packet_node p) v v (header_stage sha256 w now p sig v) _
              (ground arith) refl refl
              (plain_reject-Decides "header_metadata_mismatch"
                (some (header_mismatch (pos h.sequence_no) p.sequence_no)) v)
      ]
    ]
  ]

module _ (sha256 : Bytes → Bytes) (ed25519 : Bytes → Bytes → Bytes → Bool) {J : Type 0}
    (w : Ambience) (now : ℤ) where
  signature_stage-Decides :
      (p : Packet J) (v : ValidatorNode)
      → Decides (packet_seq p) (packet_node p) v (signature_stage sha256 ed25519 w now p v)
  unfolding signature_stage fail_signature
  signature_stage-Decides p v =
      let v' : ValidatorNode = record v { sig_verifier = (verify ed25519 p v.sig_verifier).0 } in
      elim (Result-cases (verify ed25519 p v.sig_verifier).1) [
        | inl (r, h) ↦
            Decides-next (packet_seq p) (packet_node p) v v'
              (signature_stage sha256 ed25519 w now p v) (header_stage sha256 w now p r v')
              (rw (h, signature_stage) refl) refl refl (header_stage-Decides sha256 w p r now v')
        | inr (e, h) ↦
            rw (h, signature_stage)
              (reject_packet-Decides w p "signature_invalid" (some (signature_error e)) v
                (fail_signature v') refl refl refl refl refl (omega arith))
      ]

module _ (P : Primitives) (sha256 : Bytes → Bytes) (ed25519 : Bytes → Bytes → Bytes → Bool)
    {J : Type 0} (loads : Bytes → Option J) (no_json : J) (w : Ambience) (now : ℤ)
    (p : Packet J) where
  decrypt_stage-Decides :
      (e : CryptoEngine) (v : ValidatorNode)
      → Decides
          (packet_seq p)
          (packet_node p)
          v
          (decrypt_stage P sha256 ed25519 loads no_json w now p e v)
  unfolding decrypt_stage opened
  decrypt_stage-Decides e v =
      let v' : ValidatorNode = record v { val_engine = some (decrypt_packet P e p).0 } in
      elim (Result-cases (decrypt_packet P e p).1) [
        | inl (bs, h) ↦
            Decides-next (packet_seq p) (packet_node p) v v'
              (decrypt_stage P sha256 ed25519 loads no_json w now p e v)
              (signature_stage sha256 ed25519 w now (opened loads no_json bs p) v')
              (rw (h, decrypt_stage) refl) refl refl
              (signature_stage-Decides sha256 ed25519 w now (opened loads no_json bs p) v')
        | inr (d, h) ↦
            rw (h, decrypt_stage)
              (reject_packet-Decides w p "decryption_failed" (some d) v v' refl refl refl refl refl
                (omega arith))
      ]

  -- From the validator that has counted the packet as received.
  pub process_packet-Decides :
      (v : ValidatorNode)
      → Decides
          (packet_seq p)
          (packet_node p)
          (receive v)
          (process_packet P sha256 ed25519 loads no_json w now p v)
  unfolding process_packet receive decrypt_stage
  process_packet-Decides v = elim (Option-cases v.val_engine) [
    | inl h ↦
        Decides-next (packet_seq p) (packet_node p) (receive v) (receive v)
          (process_packet P sha256 ed25519 loads no_json w now p v)
          (reject_packet w p "no_session" none (receive v), none) (ground arith) refl refl
          (reject_packet-Decides w p "no_session" none (receive v) (receive v) refl refl refl refl
            refl (omega arith))
    | inr (e, h) ↦
        Decides-next (packet_seq p) (packet_node p) (receive v) (receive v)
          (process_packet P sha256 ed25519 loads no_json w now p v)
          (decrypt_stage P sha256 ed25519 loads no_json w now p e (receive v))
          (rw (h, process_packet) refl) refl refl (decrypt_stage-Decides e (receive v))
  ]

-- What the processing of a packet does to the counters and the audit trail, from `v` to the outcome `o`,
-- for a packet with this sequence number and node.
pub record Settles {J : Type 0} (seq : ℤ) (node : String) (v : ValidatorNode) (o : Outcome J)
    : Type 0 where
  event : AuditEvent Details
  trail : o.0.audit.events ≡ v.audit.events ++ event ∷ []
  event_seq : event.sequence_no ≡ seq
  event_node : event.node_id ≡ node
  decided : (o.1 ≡ none) ↔ (event.decision ≡ reject)
  received : o.0.stats.received ≡ v.stats.received + 1
  accepts : o.0.stats.accepted ≡ tally_of accept event.decision v.stats.accepted
  rejects : o.0.stats.rejected ≡ tally_of reject event.decision v.stats.rejected
  flags : o.0.stats.flagged ≡ tally_of flag event.decision v.stats.flagged
  accepted_events : o.0.audit.accept_count ≡ tally_of accept event.decision v.audit.accept_count
  rejected_events : o.0.audit.reject_count ≡ tally_of reject event.decision v.audit.reject_count
  flagged_events : o.0.audit.flag_count ≡ tally_of flag event.decision v.audit.flag_count
  failures :
      o.0.stats.sig_failed + o.0.stats.seq_failed + o.0.stats.zkp_failed
      ≤ tally_of reject event.decision
          (v.stats.sig_failed + v.stats.seq_failed + v.stats.zkp_failed)

Decides-Settles :
    {J : Type 0} (seq : ℤ) (node : String) (v : ValidatorNode) (o : Outcome J)
    → Decides seq node (receive v) o
    → Settles seq node v o
unfolding receive
Decides-Settles seq node v o d =
    let t = d.trail in
    let (events, accepts, rejects, flags) = record_event-tallies d.ambience d.event v.audit in
    let decided = d.decided in
    record {
      event = d.event;
      trail = ap (λ l. l.events) t ∙ events;
      event_seq = d.event_seq;
      event_node = d.event_node;
      decided = (λ h. ground arith, λ h. ground arith);
      received = d.received;
      accepts = d.accepts;
      rejects = d.rejects;
      flags = d.flags;
      accepted_events = ap (λ l. l.accept_count) t ∙ accepts;
      rejected_events = ap (λ l. l.reject_count) t ∙ rejects;
      flagged_events = ap (λ l. l.flag_count) t ∙ flags;
      failures = d.failures;
    }

-- A packet is settled once: the counter `received` goes up, one event with the packet's sequence
-- number and node is appended to the audit trail, its decision is a reject exactly when no packet comes
-- back, the counter of that decision goes up at the node and in the audit trail and the others stay, and
-- at most one counter of failures goes up, at a reject.
pub process_packet-Settles :
    (P : Primitives) (sha256 : Bytes → Bytes) (ed25519 : Bytes → Bytes → Bytes → Bool) {J : Type 0}
    (loads : Bytes → Option J) (no_json : J) (w : Ambience) (now : ℤ) (p : Packet J)
    (v : ValidatorNode)
    → Settles
        (packet_seq p)
        (packet_node p)
        v
        (process_packet P sha256 ed25519 loads no_json w now p v)
process_packet-Settles P sha256 ed25519 loads no_json w now p v =
    Decides-Settles (packet_seq p) (packet_node p) v
      (process_packet P sha256 ed25519 loads no_json w now p v)
      (process_packet-Decides P sha256 ed25519 loads no_json w now p v)
