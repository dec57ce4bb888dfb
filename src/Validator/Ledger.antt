-- ===== src/Validator/Ledger.antt =====
-- The books of the validator (validator-node/src/main.py): its counters and its audit trail agree
-- in every state that it reaches.
use pitcrypt_f.Prelude.{Bool, Option, String, ap, arith, refl, some, ℕ, ℤ, ◌+◌, ◌∙◌, ◌≡◌, ◌≤◌}
use pitcrypt_f.Audit.{Ambience, AuditDecision, accept, flag, reject}
use pitcrypt_f.Audit.Counts.{IsCounted, new_logger-IsCounted, record_event-IsCounted}
use pitcrypt_f.Crypto.{Primitives}
use pitcrypt_f.Packet.{Bytes, Packet, packet_node, packet_seq}
use pitcrypt_f.Validator.{
  Outcome, ValidatorNode, new_validator, process_packet, receive, register_car_node,
  setup_relay_session,
}
use pitcrypt_f.Validator.Settling.{Decides, record_event-tallies, tally_of}
use pitcrypt_f.Validator.Trail.{process_packet-Decides}

-- The counters of decisions are those of the audit trail, which counts right, and every packet
-- received is accepted, rejected or flagged. Every failure counted is a reject.
pub record IsBalanced (v : ValidatorNode) : Type 0 where
  pub counted : IsCounted v.audit
  pub accepts : v.stats.accepted ≡ v.audit.accept_count
  pub rejects : v.stats.rejected ≡ v.audit.reject_count
  pub flags : v.stats.flagged ≡ v.audit.flag_count
  pub settled : v.stats.received ≡ v.stats.accepted + v.stats.rejected + v.stats.flagged
  pub failures : v.stats.sig_failed + v.stats.seq_failed + v.stats.zkp_failed ≤ v.stats.rejected

-- A decision adds one to the counters.
tally_of_total :
    (d : AuditDecision) (a r f : ℕ)
    → tally_of accept d a + tally_of reject d r + tally_of flag d f ≡ a + r + f + 1
tally_of_total d a r f = ground arith

tally_of_mono : (d : AuditDecision) (m n : ℕ) → m ≤ n → tally_of reject d m ≤ tally_of reject d n
tally_of_mono d m n h = ground arith

Decides-IsBalanced :
    {J : Type 0} (seq : ℤ) (node : String) (v : ValidatorNode) (o : Outcome J)
    → IsBalanced v
    → Decides seq node (receive v) o
    → IsBalanced o.0
unfolding receive
Decides-IsBalanced seq node v o h s =
    let e = s.trail in
    let d = s.event.decision in
    let (_, a, r, f) = record_event-tallies s.ambience s.event v.audit in
    record {
      counted = rw e (record_event-IsCounted s.ambience s.event v.audit h.counted);
      accepts = s.accepts ∙ rw (e, a) (ap (tally_of accept d) h.accepts);
      rejects = s.rejects ∙ rw (e, r) (ap (tally_of reject d) h.rejects);
      flags = s.flags ∙ rw (e, f) (ap (tally_of flag d) h.flags);
      settled =
          rw (s.received, s.accepts, s.rejects, s.flags)
            (omega (
              arith,
              h.settled,
              tally_of_total d v.stats.accepted v.stats.rejected v.stats.flagged,
            ));
      failures =
          omega (arith, s.failures, s.rejects, tally_of_mono d _ v.stats.rejected h.failures);
    }

-- The states that the validator reaches from its start, by packets, registrations and sessions.
pub data Reaches (P : Primitives) (sha256 : Bytes → Bytes) (ed25519 : Bytes → Bytes → Bytes → Bool)
    {J : Type 0} (loads : Bytes → Option J) (no_json : J) (v : ValidatorNode)
    : ValidatorNode → Type 0 where
  at_start : Reaches P sha256 ed25519 loads no_json v v
  by_packet :
      {u : ValidatorNode} (w : Ambience) (now : ℤ) (p : Packet J)
      → Reaches P sha256 ed25519 loads no_json v u
      → Reaches P sha256 ed25519 loads no_json v
          (process_packet P sha256 ed25519 loads no_json w now p u).0
  by_car :
      {u u' : ValidatorNode} (node : String) (key : Bytes)
      → Reaches P sha256 ed25519 loads no_json v u
      → register_car_node node key u ≡ some u'
      → Reaches P sha256 ed25519 loads no_json v u'
  by_relay :
      {u : ValidatorNode} (now : ℤ) (private relay_pub : Bytes)
      → Reaches P sha256 ed25519 loads no_json v u
      → Reaches P sha256 ed25519 loads no_json v (setup_relay_session P now private relay_pub u).0

register_car_node-IsBalanced :
    (node : String) (key : Bytes) (v v' : ValidatorNode)
    → register_car_node node key v ≡ some v'
    → IsBalanced v
    → IsBalanced v'
unfolding register_car_node
register_car_node-IsBalanced node key v v' e h = ground arith

setup_relay_session-IsBalanced :
    (P : Primitives) (now : ℤ) (private relay_pub : Bytes) (v : ValidatorNode)
    → IsBalanced v
    → IsBalanced (setup_relay_session P now private relay_pub v).0
unfolding setup_relay_session
setup_relay_session-IsBalanced P now private relay_pub v h = ground arith

module _ (P : Primitives) (sha256 : Bytes → Bytes) (ed25519 : Bytes → Bytes → Bytes → Bool)
    {J : Type 0} (loads : Bytes → Option J) (no_json : J) where
  Reaches-IsBalanced :
      (v : ValidatorNode) {u : ValidatorNode}
      → IsBalanced v
      → Reaches P sha256 ed25519 loads no_json v u
      → IsBalanced u
  Reaches-IsBalanced v h at_start = h
  Reaches-IsBalanced v h (by_packet {u} w now p r) =
      Decides-IsBalanced (packet_seq p) (packet_node p) u _ (Reaches-IsBalanced v h r)
        (process_packet-Decides P sha256 ed25519 loads no_json w now p u)
  Reaches-IsBalanced v h (by_car {u} {u'} node key r e) =
      register_car_node-IsBalanced node key u u' e (Reaches-IsBalanced v h r)
  Reaches-IsBalanced v h (by_relay {u} now private relay_pub r) =
      setup_relay_session-IsBalanced P now private relay_pub u (Reaches-IsBalanced v h r)

  -- In every state that a new validator reaches by packets, registrations and handshakes, in any
  -- order, its counters are those of its audit trail, the counters of the trail are the numbers of
  -- its events, each packet received is accepted, rejected or flagged, and no more failures of
  -- signatures, sequences and commitments are counted than rejects.
  pub Reaches-new_validator :
      (id : String) (max_age gap : ℤ) (timestamps strict_ordering to_file alert : Bool)
      {u : ValidatorNode}
      → Reaches P sha256 ed25519 loads no_json
          (new_validator id max_age gap timestamps strict_ordering to_file alert)
          u
      → IsBalanced u
  Reaches-new_validator id max_age gap timestamps strict_ordering to_file alert r =
      Reaches-IsBalanced _
        (record {
          counted = new_logger-IsCounted id to_file alert;
          accepts = refl;
          rejects = refl;
          flags = refl;
          settled = refl;
          failures = omega arith;
        })
        r
