-- ===== src/Audit.antt =====
-- validator-node/src/audit_logger.py: the audit trail of the validator. `D` is the type of the
-- details that a decision comes with; none is the empty dict. A line of the log file is the
-- event that it serialises. The lock makes `_record` one step, so a call is one function. An
-- `Ambience` says what the surroundings do during a call: the clock, and whether the file opens.
-- `summary` is without `reject_rate`, a rounded float.
pub mod Counts
pub mod Queries
use pitcrypt_f.Prelude.{
  Bool, List, Option, String, [], drop, false, if◌then◌else◌, keep, length, negsuc, none,
  or_default, pos, some, string_eq, suc, true, zero, ℕ, ℤ, ◌++◌, ◌+◌, ◌-◌, ◌==◌, ◌∷◌,
}
use pitcrypt_f.Packet.{Packet, packet_node, packet_seq}

pub data AuditDecision : Type 0 where
  accept reject flag : AuditDecision

pub record AuditEvent (D : Type 0) : Type 0 where
  pub decision : AuditDecision
  pub sequence_no : ℤ
  pub node_id : String
  pub team : String
  pub session : String
  pub reason : String
  pub details : Option D
  pub timestamp : ℤ

pub record AuditLogger (D : Type 0) : Type 0 where
  pub node_id : String
  pub log_file : Bool
  pub alert_on_reject : Bool
  pub events : List (AuditEvent D)
  pub lines : List (AuditEvent D)
  pub accept_count : ℕ
  pub reject_count : ℕ
  pub flag_count : ℕ

pub record Ambience : Type 0 where
  pub clock : ℤ
  pub opens : Bool

module _ {D : Type 0} where
  -- `__init__`.
  abbrev pub new_logger : String → Bool → Bool → AuditLogger D
  new_logger id to_file alert = record {
    node_id = id;
    log_file = to_file;
    alert_on_reject = alert;
    events = [];
    lines = [];
    accept_count = 0;
    reject_count = 0;
    flag_count = 0;
  }

  abbrev pub new_event :
      {J : Type 0} → Ambience → AuditDecision → Packet J → String → Option D → AuditEvent D
  new_event w d p why more = record {
    decision = d;
    sequence_no = packet_seq p;
    node_id = packet_node p;
    team = or_default p.team "";
    session = or_default p.session "";
    reason = why;
    details = more;
    timestamp = w.clock;
  }

  write_to_file : Ambience → AuditEvent D → AuditLogger D → AuditLogger D
  write_to_file w e l = if w.opens then record l { lines = l.lines ++ e ∷ [] } else l

  tally : AuditDecision → AuditLogger D → AuditLogger D
  tally accept l = record l { accept_count = l.accept_count + 1 }
  tally reject l = record l { reject_count = l.reject_count + 1 }
  tally flag l = record l { flag_count = l.flag_count + 1 }

  pub record_event : Ambience → AuditEvent D → AuditLogger D → AuditLogger D
  unfolding write_to_file tally
  record_event w e l =
      let l' = tally e.decision (record l { events = l.events ++ e ∷ [] }) in
      if l'.log_file then write_to_file w e l' else l'

  -- The three decisions. The alerts of the last two are log messages only.
  unfoldable pub log_accept :
      {J : Type 0} → Ambience → Packet J → String → Option D → AuditLogger D → AuditLogger D
  log_accept w p why more = record_event w (new_event w accept p why more)

  unfoldable pub log_reject :
      {J : Type 0} → Ambience → Packet J → String → Option D → AuditLogger D → AuditLogger D
  log_reject w p why more = record_event w (new_event w reject p why more)

  unfoldable pub log_flag :
      {J : Type 0} → Ambience → Packet J → String → Option D → AuditLogger D → AuditLogger D
  log_flag w p why more = record_event w (new_event w flag p why more)

-- `==` on the enum.
abbrev pub same_decision : AuditDecision → AuditDecision → Bool
same_decision accept accept = true
same_decision reject reject = true
same_decision flag flag = true
same_decision _ _ = false

-- `xs[-limit:]`.
abbrev pub last_slice {ℓ} : {A : Type ℓ} → ℤ → List A → List A
last_slice (pos zero) xs = xs
last_slice (pos (suc n)) xs = drop (length xs - suc n) xs
last_slice (negsuc n) xs = drop (suc n) xs

module _ {D : Type 0} where
  by_decision : Option AuditDecision → List (AuditEvent D) → List (AuditEvent D)
  by_decision none es = es
  by_decision (some d) es = keep (λ e. same_decision e.decision d) es

  by_node : Option String → List (AuditEvent D) → List (AuditEvent D)
  by_node none es = es
  by_node (some n) es = keep (λ e. e.node_id == n) es

  limited : Option ℤ → List (AuditEvent D) → List (AuditEvent D)
  limited none es = es
  limited (some n) es = last_slice n es

  pub get_events :
      Option AuditDecision → Option String → Option ℤ → AuditLogger D → List (AuditEvent D)
  unfolding by_decision by_node limited
  get_events d n limit l = limited limit (by_node n (by_decision d l.events))

  pub get_reject_events : AuditLogger D → List (AuditEvent D)
  get_reject_events = get_events (some reject) none none

  pub get_flag_events : AuditLogger D → List (AuditEvent D)
  get_flag_events = get_events (some flag) none none

pub record Summary : Type 0 where
  pub node_id : String
  pub total : ℕ
  pub accepted : ℕ
  pub rejected : ℕ
  pub flagged : ℕ

module _ {D : Type 0} where
  pub summary : AuditLogger D → Summary
  summary l = record {
    node_id = l.node_id;
    total = length l.events;
    accepted = l.accept_count;
    rejected = l.reject_count;
    flagged = l.flag_count;
  }

  -- The lines that `export_jsonl` writes.
  pub export_jsonl : AuditLogger D → List (AuditEvent D)
  export_jsonl l = l.events
