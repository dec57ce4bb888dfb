-- ===== src/Audit/Queries.antt =====
-- What `get_events` returns (validator-node/src/audit_logger.py).
use pitcrypt_f.Prelude.{
  Bool, List, Option, String, [], ap, arith, keep, length, length-drop, none, pos, refl, some,
  string_eq, suc, sym, true, zero, ℕ, ◌&&◌, ◌-◌, ◌<◌, ◌==◌, ◌∷◌, ◌≡◌, ◌≤◌,
}
use pitcrypt_f.Audit.{
  AuditDecision, AuditEvent, AuditLogger, by_decision, by_node, get_events, get_flag_events,
  get_reject_events, same_decision,
}
use pitcrypt_f.Audit.Counts.{IsCounted}

module _ {D : Type 0} where
  -- An event passes the two filters of a query.
  abbrev pub matches : Option AuditDecision → Option String → AuditEvent D → Bool
  matches none none e = true
  matches (some d) none e = same_decision e.decision d
  matches none (some n) e = e.node_id == n
  matches (some d) (some n) e = same_decision e.decision d && e.node_id == n

  keep-true : (es : List (AuditEvent D)) → keep (λ e. true) es ≡ es
  keep-true [] = refl
  keep-true (e ∷ es) = ap (◌∷◌ e) (keep-true es)

  keep-keep :
      (p q : AuditEvent D → Bool) (es : List (AuditEvent D))
      → keep q (keep p es) ≡ keep (λ e. p e && q e) es
  keep-keep p q [] = refl
  keep-keep p q (e ∷ es) = ground (arith, keep-keep p q es)

  -- Without a limit a query returns the recorded events that pass its filters, in their order.
  pub get_events-matches :
      (d : Option AuditDecision) (n : Option String) (l : AuditLogger D)
      → get_events d n none l ≡ keep (matches d n) l.events
  unfolding get_events
  get_events-matches none none l = sym (keep-true l.events)
  get_events-matches (some d) none l = refl
  get_events-matches none (some n) l = refl
  get_events-matches (some d) (some n) l =
      keep-keep (λ e. same_decision e.decision d) (λ e. e.node_id == n) l.events

  -- Of a log that counts right, `reject_count` and `flag_count` are the sizes of what the two
  -- queries for rejected and flagged events return.
  pub length-get_reject_events :
      (l : AuditLogger D)
      → IsCounted l
      → (length (get_reject_events l) ≡ l.reject_count)
        × (length (get_flag_events l) ≡ l.flag_count)
  unfolding get_reject_events get_flag_events get_events
  length-get_reject_events l h = (sym h.rejects, sym h.flags)

  -- A positive limit bounds the number of events returned, for any filters.
  pub length-get_events :
      (d : Option AuditDecision) (n : Option String) (limit : ℕ) (l : AuditLogger D)
      → 0 < limit
      → length (get_events d n (some (pos limit)) l) ≤ limit
  unfolding get_events
  length-get_events d n zero l h = absurd (omega arith)
  length-get_events d n (suc k) l h =
      let es = by_node n (by_decision d l.events) in
      omega (arith, length-drop (length es - suc k) es)

  -- A limit of zero bounds nothing: all matching events are returned.
  pub get_events-limit_zero :
      (d : Option AuditDecision) (n : Option String) (l : AuditLogger D)
      → get_events d n (some (pos 0)) l ≡ get_events d n none l
  unfolding get_events
  get_events-limit_zero d n l = refl
