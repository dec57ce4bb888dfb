-- ===== src/Rbac/Laws.antt =====
-- When access is granted, and how the decisions are counted (iam-module/src/rbac_engine.py).
use pitcrypt_f.Prelude.{
  Option-cases, String, [], arith, false, inl, inr, keep, keep-append, length, length-append,
  lookup, not, some, true, ◌↔◌, ◌∷◌, ◌≡◌,
}
use pitcrypt_f.Identity.{NodeIdentity, deregister}
use pitcrypt_f.Identity.Laws.{is_registered-deregister}
use pitcrypt_f.Policy.{Policy, is_allowed}
use pitcrypt_f.Policy.Laws.{IsPermitted, is_allowed_iff}
use pitcrypt_f.Rbac.{
  AccessDecision, RbacEngine, check_access, decide, node_not_registered, policy_of, record_decision,
}

module _ (node action_name resource_name : String) (e : RbacEngine) where
  -- The node is registered, and its policy is loaded and permits the action on the resource.
  pub record IsGranted : Type 0 where
    pub identity : NodeIdentity
    pub policy : Policy
    pub known : lookup node e.store ≡ some identity
    pub active : identity.active ≡ true
    pub loaded : lookup (policy_of identity) e.loader ≡ some policy
    pub permitted : IsPermitted policy action_name resource_name

  IsGranted-decide : (decide node action_name resource_name e).allowed ≡ true → IsGranted
  unfolding decide
  IsGranted-decide h = elim (Option-cases (lookup node e.store)) [
    | inl x ↦ absurd (ground arith)
    | inr (n, x) ↦ elim (Option-cases (lookup (policy_of n) e.loader)) [
      | inl y ↦ absurd (ground arith)
      | inr (p, y) ↦
          let ok : is_allowed p action_name resource_name ≡ true = ground arith in
          record {
            identity = n;
            policy = p;
            known = x;
            active = ground arith;
            loaded = y;
            permitted = (is_allowed_iff p action_name resource_name).0 ok;
          }
    ]
  ]

  decide-IsGranted : IsGranted → (decide node action_name resource_name e).allowed ≡ true
  unfolding decide
  decide-IsGranted g =
      let ok = (is_allowed_iff g.policy action_name resource_name).1 g.permitted in
      let a = g.known in let b = g.active in let c = g.loaded in ground arith

  -- Zero trust: access is granted exactly to an active registered node whose own policy, or else the
  -- default one of its role, is loaded and permits the action on the resource.
  pub check_access_iff :
      ((check_access node action_name resource_name e).1.allowed ≡ true) ↔ IsGranted
  unfolding check_access
  check_access_iff = (IsGranted-decide, decide-IsGranted)

-- The counters are the numbers of the decisions of each kind.
pub record IsTallied (e : RbacEngine) : Type 0 where
  pub allows : e.allow_count ≡ length (keep (λ d. d.allowed) e.decisions)
  pub denies : e.deny_count ≡ length (keep (λ d. not d.allowed) e.decisions)

record_decision-IsTallied :
    (d : AccessDecision) (e : RbacEngine) → IsTallied e → IsTallied (record_decision d e)
unfolding record_decision
record_decision-IsTallied d e h =
    let a = keep-append (λ x. x.allowed) e.decisions (d ∷ []) in
    let b = keep-append (λ x. not x.allowed) e.decisions (d ∷ []) in
    let c = length-append (keep (λ x. x.allowed) e.decisions) (keep (λ x. x.allowed) (d ∷ [])) in
    let k =
      length-append (keep (λ x. not x.allowed) e.decisions) (keep (λ x. not x.allowed) (d ∷ [])) in
    let u = h.allows in let v = h.denies in record { allows = ground arith; denies = ground arith }

-- When the two counters are the numbers of the recorded decisions that allow and that deny, they are
-- so after a check too.
pub check_access-IsTallied :
    (node action_name resource_name : String) (e : RbacEngine)
    → IsTallied e
    → IsTallied (check_access node action_name resource_name e).0
unfolding check_access
check_access-IsTallied node action_name resource_name e h =
    record_decision-IsTallied (decide node action_name resource_name e) e h

-- A node that is deregistered is denied every action on every resource, whatever its policy says.
pub check_access-deregister :
    (node action_name resource_name : String) (e : RbacEngine)
    → let d =
        (check_access node action_name resource_name
          (record e { store = deregister node e.store })).1 in
      (d.allowed ≡ false) × (d.reason ≡ node_not_registered)
unfolding check_access decide
check_access-deregister node action_name resource_name e =
    let shut = is_registered-deregister node e.store in ground arith
