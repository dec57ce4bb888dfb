-- ===== src/Rbac.antt =====
-- iam-module/src/rbac_engine.py: the access decisions. `decided_at`, the clock, is left out. A reason
-- is a constructor with the source's name. `enforce` returns True, or the PermissionError's reason.
pub mod Laws
use pitcrypt_f.Prelude.{
  Bool, List, Option, Result, String, [], false, if◌then◌else◌, keep, lookup, none, not, or_default,
  raised, returned, some, string_eq, true, ℕ, ◌++◌, ◌+◌, ◌==◌, ◌∷◌,
}
use pitcrypt_f.Identity.{IdentityStore, NodeIdentity, is_registered}
use pitcrypt_f.Packet.{text_or}
use pitcrypt_f.Policy.{PolicyLoader, is_allowed, role_policies}

pub data AccessReason : Type 0 where
  node_not_registered policy_not_found policy_allow policy_deny : AccessReason

pub record AccessDecision : Type 0 where
  pub allowed : Bool
  pub node_id : String
  pub action : String
  pub resource : String
  pub reason : AccessReason
  pub policy : Option String
  pub role : Option String

pub record RbacEngine : Type 0 where
  pub store : IdentityStore
  pub loader : PolicyLoader
  pub allow_count : ℕ
  pub deny_count : ℕ
  pub decisions : List AccessDecision

abbrev pub new_rbac : IdentityStore → PolicyLoader → RbacEngine
new_rbac s l = record { store = s; loader = l; allow_count = 0; deny_count = 0; decisions = [] }

-- `_default_policy`.
abbrev pub default_policy : String → String
default_policy role_name = or_default (lookup role_name role_policies) "unknown_policy"

-- `identity.policy or self._default_policy(role)`.
abbrev pub policy_of : NodeIdentity → String
policy_of n = text_or n.policy (default_policy n.role)

-- `_record`.
record_decision : AccessDecision → RbacEngine → RbacEngine
record_decision d e =
    let e' = record e { decisions = e.decisions ++ d ∷ [] } in
    if d.allowed
    then record e' { allow_count = e.allow_count + 1 }
    else record e' { deny_count = e.deny_count + 1 }

-- The decision that `check` makes.
decide : String → String → String → RbacEngine → AccessDecision
decide node action_name resource_name e =
    let unknown : AccessDecision = record {
      allowed = false;
      node_id = node;
      action = action_name;
      resource = resource_name;
      reason = node_not_registered;
      policy = none;
      role = none;
    } in
    if not (is_registered node e.store) then unknown else elim (lookup node e.store) [
      | none ↦ unknown
      | some n ↦ elim (lookup (policy_of n) e.loader) [
        | none ↦ record {
          allowed = false;
          node_id = node;
          action = action_name;
          resource = resource_name;
          reason = policy_not_found;
          policy = some (policy_of n);
          role = some n.role;
        }
        | some p ↦
            (let ok = is_allowed p action_name resource_name in
              record {
                allowed = ok;
                node_id = node;
                action = action_name;
                resource = resource_name;
                reason = if ok then policy_allow else policy_deny;
                policy = some (policy_of n);
                role = some n.role;
              })
      ]
    ]

pub check_access : String → String → String → RbacEngine → RbacEngine × AccessDecision
check_access node action_name resource_name e =
    let d = decide node action_name resource_name e in (record_decision d e, d)

pub enforce : String → String → String → RbacEngine → RbacEngine × Result AccessReason Bool
enforce node action_name resource_name e =
    let (e', d) = check_access node action_name resource_name e in
    if not d.allowed then (e', raised d.reason) else (e', returned true)

with_node : Option String → List AccessDecision → List AccessDecision
with_node none ds = ds
with_node (some node) ds = keep (λ d. d.node_id == node) ds

with_verdict : Option Bool → List AccessDecision → List AccessDecision
with_verdict none ds = ds
with_verdict (some true) ds = keep (λ d. d.allowed) ds
with_verdict (some false) ds = keep (λ d. not d.allowed) ds

-- The filters of `get_decisions`, which the auditor's `get_events` has too.
pub select_decisions : Option String → Option Bool → List AccessDecision → List AccessDecision
select_decisions node ok ds = with_verdict ok (with_node node ds)

pub get_decisions : Option String → Option Bool → RbacEngine → List AccessDecision
get_decisions node ok e = select_decisions node ok e.decisions
