-- ===== src/Policy/Laws.antt =====
-- Deny overrides allow, and the default is deny (iam-module/src/policy_loader.py).
use text.Mathlib.TextEquality.{eq_iff}
use pitcrypt_f.Prelude.{
  All, Any, Bool, Bool-cases, String, any-All, any-Any, arith, false, inl, inr, true, ◌↔◌, ◌≡◌, ◌⊎◌,
}
use pitcrypt_f.Policy.{Policy, Rule, covers, is_allowed, rule_matches}

-- A rule speaks of an action on a resource: each is named, or a wildcard stands there.
abbrev pub Names : String → String → Type 0
Names x wanted = (x ≡ wanted) ⊎ (x ≡ "*") ⊎ (x ≡ "any")

abbrev pub Matches : String → String → Rule → Type 0
Matches action_name resource_name r = Names r.action action_name × Names r.resource resource_name

covers_iff : (x wanted : String) → (covers x wanted ≡ true) ↔ Names x wanted
covers_iff x wanted = (
  λ h. ground (arith, eq_iff x wanted, eq_iff x "*", eq_iff x "any"),
  λ h. ground (arith, eq_iff x wanted, eq_iff x "*", eq_iff x "any"),
)

rule_matches_iff :
    (action_name resource_name : String) (r : Rule)
    → (rule_matches action_name resource_name r ≡ true) ↔ Matches action_name resource_name r
rule_matches_iff action_name resource_name r =
    let (a, b) = covers_iff r.action action_name in
    let (c, d) = covers_iff r.resource resource_name in
    (
      λ h. (a (ground arith), c (ground arith)),
      λ (h, k). let u = b h in let v = d k in ground arith,
    )

false_iff : (b : Bool) {X : Type 0} → (b ≡ true) ↔ X → (b ≡ false) ↔ (¬ X)
false_iff b (f, g) = (
  λ h x. let u = g x in ground arith,
  λ h. elim (Bool-cases b) [ inl e ↦ absurd (h (f e)) | inr e ↦ e ],
)

-- What a policy permits.
abbrev pub IsPermitted : Policy → String → String → Type 0
IsPermitted p action_name resource_name =
    All (λ r. ¬ Matches action_name resource_name r) p.deny
    × Any (Matches action_name resource_name) p.allow

-- A policy allows an action on a resource exactly when no deny rule names both, by name or by a
-- wildcard, and some allow rule does: deny overrides allow, and the default is deny.
pub is_allowed_iff :
    (p : Policy) (action_name resource_name : String)
    → (is_allowed p action_name resource_name ≡ true) ↔ IsPermitted p action_name resource_name
unfolding is_allowed
is_allowed_iff p action_name resource_name =
    let m = rule_matches_iff action_name resource_name in
    let (a, b) = any-All (rule_matches action_name resource_name) p.deny (λ r. false_iff _ (m r)) in
    let (c, d) = any-Any (rule_matches action_name resource_name) p.allow m in
    (
      λ h. (a (ground arith), c (ground arith)),
      λ (h, k). let u = b h in let v = d k in ground arith,
    )
