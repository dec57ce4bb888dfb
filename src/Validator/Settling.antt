-- ===== src/Validator/Settling.antt =====
-- What one decision does to the counters and the audit trail of the validator
-- (validator-node/src/main.py, _reject and the last step of process_packet).
use pitcrypt_f.Prelude.{
  List, Option, String, [], ap, arith, is_some, none, not, refl, some, sym, ℕ, ℤ, ◌++◌, ◌+◌, ◌∙◌,
  ◌∷◌, ◌≡◌, ◌≤◌,
}
use pitcrypt_f.Audit.{
  Ambience, AuditDecision, AuditEvent, AuditLogger, accept, flag, log_accept, log_flag, log_reject,
  new_event, record_event, reject, same_decision,
}
use pitcrypt_f.Audit.Counts.{counts-record_event, events-record_event}
use pitcrypt_f.Commitment.{CommitmentResult}
use pitcrypt_f.Packet.{Packet, packet_node, packet_seq}
use pitcrypt_f.Sequence.{SeqWarning, SequenceCheckResult}
use pitcrypt_f.Signature.{SignatureResult}
use pitcrypt_f.Validator.{
  Details, Outcome, ValidatorNode, accept_stage, all_valid, reject_packet, sequence_warnings,
}

-- A counter of the decision `d`, after the decision `e`.
abbrev pub tally_of : AuditDecision → AuditDecision → ℕ → ℕ
tally_of accept accept n = n + 1
tally_of reject reject n = n + 1
tally_of flag flag n = n + 1
tally_of _ _ n = n

-- What the audit log does with an event.
pub record_event-tallies :
    (w : Ambience) (e : AuditEvent Details) (l : AuditLogger Details)
    → ((record_event w e l).events ≡ l.events ++ e ∷ [])
      × ((record_event w e l).accept_count ≡ tally_of accept e.decision l.accept_count)
      × ((record_event w e l).reject_count ≡ tally_of reject e.decision l.reject_count)
      × ((record_event w e l).flag_count ≡ tally_of flag e.decision l.flag_count)
record_event-tallies w e l =
    let (a, b, c) = counts-record_event w e l in
    (events-record_event w e l, ground arith, ground arith, ground arith)

-- What one decision does to the counters and the audit trail, from `v` to the outcome `o`, for a packet
-- with this sequence number and node.
pub record Decides {J : Type 0} (seq : ℤ) (node : String) (v : ValidatorNode) (o : Outcome J)
    : Type 0 where
  pub ambience : Ambience
  pub event : AuditEvent Details
  pub trail : o.0.audit ≡ record_event ambience event v.audit
  pub event_seq : event.sequence_no ≡ seq
  pub event_node : event.node_id ≡ node
  pub decided : is_some o.1 ≡ not (same_decision event.decision reject)
  pub received : o.0.stats.received ≡ v.stats.received
  pub accepts : o.0.stats.accepted ≡ tally_of accept event.decision v.stats.accepted
  pub rejects : o.0.stats.rejected ≡ tally_of reject event.decision v.stats.rejected
  pub flags : o.0.stats.flagged ≡ tally_of flag event.decision v.stats.flagged
  pub failures :
      o.0.stats.sig_failed + o.0.stats.seq_failed + o.0.stats.zkp_failed
      ≤ tally_of reject event.decision
          (v.stats.sig_failed + v.stats.seq_failed + v.stats.zkp_failed)

module _ {J : Type 0} where
  -- A reject, of a validator whose counters of failures may have grown by one.
  pub reject_packet-Decides :
      (w : Ambience) (p : Packet J) (why : String) (more : Option Details) (v u : ValidatorNode)
      → u.audit ≡ v.audit
      → u.stats.received ≡ v.stats.received
      → u.stats.accepted ≡ v.stats.accepted
      → u.stats.rejected ≡ v.stats.rejected
      → u.stats.flagged ≡ v.stats.flagged
      → u.stats.sig_failed + u.stats.seq_failed + u.stats.zkp_failed
        ≤ v.stats.sig_failed + v.stats.seq_failed + v.stats.zkp_failed + 1
      → Decides {J = J} (packet_seq p) (packet_node p) v (reject_packet w p why more u, none)
  unfolding reject_packet log_reject
  reject_packet-Decides w p why more v u a b c d e f = record {
    ambience = w;
    event = new_event w reject p why more;
    trail = ap (record_event w (new_event w reject p why more)) a;
    event_seq = refl;
    event_node = refl;
    decided = refl;
    received = b;
    accepts = c;
    rejects = ap (λ n. n + 1) d;
    flags = e;
    failures = f;
  }

  pub accept_stage-Decides_of :
      (w : Ambience) (p : Packet J) (sig : SignatureResult) (seq : SequenceCheckResult)
      (zkp : CommitmentResult) (v : ValidatorNode) (ws : List SeqWarning)
      → seq.warnings ≡ ws
      → Decides (packet_seq p) (packet_node p) v (accept_stage w p sig seq zkp v)
  unfolding accept_stage log_accept log_flag
  accept_stage-Decides_of w p sig seq zkp v [] e =
      let event = new_event w accept p "all_checks_passed" (some (all_valid zkp.reason)) in
      record {
        ambience = w;
        event = event;
        trail = ground arith;
        event_seq = refl;
        event_node = refl;
        decided = ground arith;
        received = ground arith;
        accepts = ground arith;
        rejects = ground arith;
        flags = ground arith;
        failures = ground arith;
      }
  accept_stage-Decides_of w p sig seq zkp v (x ∷ xs) e =
      let event = new_event w flag p "sequence_warnings" (some (sequence_warnings (x ∷ xs))) in
      record {
        ambience = w;
        event = event;
        trail = ground arith;
        event_seq = refl;
        event_node = refl;
        decided = ground arith;
        received = ground arith;
        accepts = ground arith;
        rejects = ground arith;
        flags = ground arith;
        failures = ground arith;
      }

  -- What follows a validator that differs in other fields only.
  pub Decides-next :
      (seq : ℤ) (node : String) (v u : ValidatorNode) (o o' : Outcome J)
      → o ≡ o'
      → u.audit ≡ v.audit
      → u.stats ≡ v.stats
      → Decides seq node u o'
      → Decides seq node v o
  Decides-next seq node v u o o' e a s k = record {
    ambience = k.ambience;
    event = k.event;
    trail = rw e (k.trail ∙ ap (record_event k.ambience k.event) a);
    event_seq = k.event_seq;
    event_node = k.event_node;
    decided = rw e k.decided;
    received = rw (e, sym s) k.received;
    accepts = rw (e, sym s) k.accepts;
    rejects = rw (e, sym s) k.rejects;
    flags = rw (e, sym s) k.flags;
    failures = rw (e, sym s) k.failures;
  }
