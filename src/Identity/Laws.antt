-- ===== src/Identity/Laws.antt =====
-- Registration and deregistration (iam-module/src/identity_store.py).
use pitcrypt_f.Prelude.{
  Option, Option-cases, String, arith, false, inl, inr, insert, lookup, lookup-insert_ne,
  lookup-insert_self, some, true, ◌≡◌, ◌≢◌,
}
use pitcrypt_f.Identity.{IdentityStore, deregister, is_registered, new_identity, register}
use pitcrypt_f.Packet.{Bytes}

-- A registered node is active with the role, team, policy and key given, a deregistered one is not
-- registered but keeps its identity, and either call leaves another node's entry as it was.
pub register-deregister :
    (stamp node role_name : String) (team_name policy_name : Option String) (key : Option Bytes)
    (s : IdentityStore) (other : String)
    → node ≢ other
    → let n = new_identity stamp node role_name team_name policy_name key in
      let s' = register stamp node role_name team_name policy_name key s in
      (lookup node s' ≡ some n)
      × (is_registered node s' ≡ true)
      × (lookup node (deregister node s') ≡ some (record n { active = false }))
      × (is_registered node (deregister node s') ≡ false)
      × (lookup other s' ≡ lookup other s)
      × (lookup other (deregister node s') ≡ lookup other s)
unfolding register deregister
register-deregister stamp node role_name team_name policy_name key s other h =
    let n = new_identity stamp node role_name team_name policy_name key in
    let a = lookup-insert_self node n s in
    let b = lookup-insert_self node (record n { active = false }) (insert node n s) in
    let c = lookup-insert_ne node other n s h in
    let d = lookup-insert_ne node other (record n { active = false }) (insert node n s) h in
    (a, ground (arith, a), ground (arith, a, b), ground (arith, a, b), c, ground (arith, a, c, d))

pub is_registered-deregister :
    (node : String) (s : IdentityStore) → is_registered node (deregister node s) ≡ false
unfolding deregister
is_registered-deregister node s = elim (Option-cases (lookup node s)) [
  | inl e ↦ ground arith
  | inr (n, e) ↦
      let a = lookup-insert_self node (record n { active = false }) s in ground (arith, a)
]
