-- ===== src/Access.antt =====
-- iam-module/src/access_auditor.py: the audit trail of access decisions and its alerts. The lock makes
-- the bookkeeping of `record` one step. The timestamp and the file are left out. The reason is
-- the one of the decision.
pub mod Laws
use pitcrypt_f.Prelude.{
  Bool, Dict, List, Option, String, [], false, if◌then◌else◌, insert, leb, length, lookup, none,
  or_default, some, ℕ, ℤ, ◌++◌, ◌+◌, ◌∷◌,
}
use pitcrypt_f.Audit.{last_slice}
use pitcrypt_f.Rbac.{AccessDecision, select_decisions}

abbrev pub alert_threshold : ℕ
alert_threshold = 3

pub record AccessAuditor : Type 0 where
  pub node_id : String
  pub events : List AccessDecision
  pub consecutive_denials : Dict ℕ
  pub allow_count : ℕ
  pub deny_count : ℕ
  pub alert_count : ℕ

abbrev pub new_auditor : String → AccessAuditor
new_auditor id = record {
  node_id = id;
  events = [];
  consecutive_denials = [];
  allow_count = 0;
  deny_count = 0;
  alert_count = 0;
}

abbrev pub denials_of : String → AccessAuditor → ℕ
denials_of node a = or_default (lookup node a.consecutive_denials) 0

-- The part of `record` under the lock.
count_access : AccessDecision → AccessAuditor → AccessAuditor
count_access d a =
    if d.allowed
    then record a {
      events = a.events ++ d ∷ [];
      allow_count = a.allow_count + 1;
      consecutive_denials = insert d.node_id 0 a.consecutive_denials;
    }
    else record a {
      events = a.events ++ d ∷ [];
      deny_count = a.deny_count + 1;
      consecutive_denials = insert d.node_id (denials_of d.node_id a + 1) a.consecutive_denials;
    }

-- `_check_alert`; the alert of an unknown node is a log message only.
check_alert : String → AccessAuditor → AccessAuditor
check_alert node a =
    if leb alert_threshold (denials_of node a)
    then record a { alert_count = a.alert_count + 1 }
    else a

-- `record_from_decision`, by `record`.
pub record_access : AccessDecision → AccessAuditor → AccessAuditor
record_access d a = check_alert d.node_id (count_access d a)

pub get_access_events : Option String → Option Bool → Option ℤ → AccessAuditor → List AccessDecision
get_access_events node ok limit a = elim limit [
  | none ↦ select_decisions node ok a.events
  | some n ↦ last_slice n (select_decisions node ok a.events)
]

pub get_denials : Option String → AccessAuditor → List AccessDecision
get_denials node a = get_access_events node (some false) none a

pub record AccessSummary : Type 0 where
  pub total : ℕ
  pub allowed : ℕ
  pub denied : ℕ
  pub alerts_raised : ℕ

pub access_summary : AccessAuditor → AccessSummary
access_summary a = record {
  total = length a.events;
  allowed = a.allow_count;
  denied = a.deny_count;
  alerts_raised = a.alert_count;
}
