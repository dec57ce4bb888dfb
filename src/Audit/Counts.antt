-- ===== src/Audit/Counts.antt =====
-- The counters and the file of the audit trail (validator-node/src/audit_logger.py).
use mathlib.Core.List.{append-nil, append_assoc}
use pitcrypt_f.Prelude.{
  Bool, List, Option, String, [], arith, if◌then◌else◌, keep, length, map, refl, suc, ℕ, ◌++◌, ◌+◌,
  ◌∷◌, ◌≡◌,
}
use pitcrypt_f.Audit.{
  Ambience, AuditDecision, AuditEvent, AuditLogger, accept, flag, log_accept, log_flag, log_reject,
  new_event, new_logger, record_event, reject, same_decision, summary,
}
use pitcrypt_f.Packet.{Packet}

module _ {D : Type 0} where
  abbrev pub count_of : AuditDecision → List (AuditEvent D) → ℕ
  count_of d es = length (keep (λ e. same_decision e.decision d) es)

  -- The counters are the numbers of recorded decisions.
  pub record IsCounted (l : AuditLogger D) : Type 0 where
    pub accepts : l.accept_count ≡ count_of accept l.events
    pub rejects : l.reject_count ≡ count_of reject l.events
    pub flags : l.flag_count ≡ count_of flag l.events

  count_of-snoc :
      (d : AuditDecision) (es : List (AuditEvent D)) (e : AuditEvent D)
      → count_of d (es ++ e ∷ [])
        ≡ (if same_decision e.decision d then suc (count_of d es) else count_of d es)
  count_of-snoc d [] e = ground arith
  count_of-snoc d (x ∷ es) e = ground (arith, count_of-snoc d es e)

  pub new_logger-IsCounted :
      (id : String) (to_file alert : Bool) → IsCounted (new_logger id to_file alert)
  new_logger-IsCounted id to_file alert = ground arith

  pub record_event-IsCounted :
      (w : Ambience) (e : AuditEvent D) (l : AuditLogger D)
      → IsCounted l
      → IsCounted (record_event w e l)
  unfolding record_event
  record_event-IsCounted w e l h = ground (
    arith,
    count_of-snoc accept l.events e,
    count_of-snoc reject l.events e,
    count_of-snoc flag l.events e,
  )

  pub counts-record_event :
      (w : Ambience) (e : AuditEvent D) (l : AuditLogger D)
      → let l' = record_event w e l in
        (l'.accept_count
          ≡ (if same_decision e.decision accept then l.accept_count + 1 else l.accept_count))
        × (l'.reject_count
            ≡ (if same_decision e.decision reject then l.reject_count + 1 else l.reject_count))
        × (l'.flag_count
            ≡ (if same_decision e.decision flag then l.flag_count + 1 else l.flag_count))
  unfolding record_event
  counts-record_event w e l = ground arith

  pub events-record_event :
      (w : Ambience) (e : AuditEvent D) (l : AuditLogger D)
      → (record_event w e l).events ≡ l.events ++ e ∷ []
  unfolding record_event
  events-record_event w e l = ground arith

  count_of_total :
      (es : List (AuditEvent D))
      → length es ≡ count_of accept es + count_of reject es + count_of flag es
  count_of_total [] = omega arith
  count_of_total (e ∷ es) = ground (arith, count_of_total es)

  -- The summary of a log that counts right adds up: accepted, rejected and flagged make the total.
  pub summary_total :
      (l : AuditLogger D)
      → IsCounted l
      → let s = summary l in s.total ≡ s.accepted + s.rejected + s.flagged
  unfolding summary
  summary_total l h = omega (arith, count_of_total l.events, h)

-- The calls of a logger.
pub data AuditCall (J D : Type 0) : Type 0 where
  call : Ambience → AuditDecision → Packet J → String → Option D → AuditCall J D

module _ {J D : Type 0} where
  pub perform : AuditCall J D → AuditLogger D → AuditLogger D
  perform (call w accept p why more) = log_accept w p why more
  perform (call w reject p why more) = log_reject w p why more
  perform (call w flag p why more) = log_flag w p why more

  pub perform_all : List (AuditCall J D) → AuditLogger D → AuditLogger D
  perform_all [] l = l
  perform_all (x ∷ xs) l = perform_all xs (perform x l)

  abbrev pub event_of : AuditCall J D → AuditEvent D
  event_of (call w d p why more) = new_event w d p why more

  perform-record_event :
      (x : AuditCall J D) (l : AuditLogger D)
      → (w : Ambience) × (perform x l ≡ record_event w (event_of x) l)
  unfolding perform log_accept log_reject log_flag
  perform-record_event (call w accept p why more) l = (w, refl)
  perform-record_event (call w reject p why more) l = (w, refl)
  perform-record_event (call w flag p why more) l = (w, refl)

  perform_all-IsCounted :
      (xs : List (AuditCall J D)) (l : AuditLogger D) → IsCounted l → IsCounted (perform_all xs l)
  unfolding perform_all
  perform_all-IsCounted [] l h = h
  perform_all-IsCounted (x ∷ xs) l h =
      let (w, e) = perform-record_event x l in
      perform_all-IsCounted xs (perform x l) (rw e (record_event-IsCounted w (event_of x) l h))

  events-perform :
      (x : AuditCall J D) (l : AuditLogger D) → (perform x l).events ≡ l.events ++ event_of x ∷ []
  events-perform x l =
      let (w, e) = perform-record_event x l in rw e (events-record_event w (event_of x) l)

  events-perform_all :
      (xs : List (AuditCall J D)) (l : AuditLogger D)
      → (perform_all xs l).events ≡ l.events ++ map event_of xs
  unfolding perform_all
  events-perform_all [] l = simp append-nil
  events-perform_all (x ∷ xs) l =
      simp (events-perform_all xs (perform x l), events-perform x l, append_assoc)

  -- After any calls on a new logger the trail is the decisions in their order, and each counter is the
  -- number of the decisions of its kind in it.
  pub perform_all_trail :
      (id : String) (to_file alert : Bool) (xs : List (AuditCall J D))
      → let l = perform_all xs (new_logger id to_file alert) in
        (l.events ≡ map event_of xs) × IsCounted l
  perform_all_trail id to_file alert xs = (
    events-perform_all xs (new_logger id to_file alert),
    perform_all-IsCounted xs (new_logger id to_file alert) (new_logger-IsCounted id to_file alert),
  )
