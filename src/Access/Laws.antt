-- ===== src/Access/Laws.antt =====
-- The alerts of repeated denials (iam-module/src/access_auditor.py).
use text.Mathlib.TextEquality.{eq_iff}
use pitcrypt_f.Prelude.{
  List, String, [], ap, arith, if◌then◌else◌, keep, leb, lookup-insert, refl, string_eq, suc, ℕ,
  ◌+◌, ◌==◌, ◌∙◌, ◌∷◌, ◌≡◌,
}
use pitcrypt_f.Access.{
  AccessAuditor, check_alert, count_access, denials_of, new_auditor, record_access,
}
use pitcrypt_f.Rbac.{AccessDecision}

-- A list of decisions has the last one first. The number of denials before the first allow:
abbrev pub denied_run : List AccessDecision → ℕ
denied_run [] = 0
denied_run (d ∷ ds) = if d.allowed then 0 else suc (denied_run ds)

abbrev pub about : String → List AccessDecision → List AccessDecision
about node ds = keep (λ d. d.node_id == node) ds

-- The decisions that end a run of three denials or more of their node.
abbrev pub alerts : List AccessDecision → ℕ
alerts [] = 0
alerts (d ∷ ds) =
    if leb 3 (denied_run (about d.node_id (d ∷ ds))) then suc (alerts ds) else alerts ds

unfoldable pub record_accesses : List AccessDecision → AccessAuditor → AccessAuditor
record_accesses [] a = a
record_accesses (d ∷ ds) a = record_access d (record_accesses ds a)

denials_of-record_access :
    (node : String) (d : AccessDecision) (a : AccessAuditor)
    → denials_of node (record_access d a) ≡ (
        if d.node_id == node
        then (if d.allowed then 0 else suc (denials_of d.node_id a))
        else denials_of node a)
unfolding record_access count_access check_alert
denials_of-record_access node d a =
    let e = lookup-insert d.node_id node 0 a.consecutive_denials in
    let f = lookup-insert d.node_id node (denials_of d.node_id a + 1) a.consecutive_denials in
    ground arith

denials_of-record_accesses :
    (node id : String) (ds : List AccessDecision)
    → denials_of node (record_accesses ds (new_auditor id)) ≡ denied_run (about node ds)
unfolding record_accesses
denials_of-record_accesses node id [] = refl
denials_of-record_accesses node id (d ∷ ds) =
    let a = denials_of-record_access node d (record_accesses ds (new_auditor id)) in
    let b = denials_of-record_accesses node id ds in
    let c = denials_of-record_accesses d.node_id id ds in ground (arith, eq_iff d.node_id node)

alert_count-record_access :
    (d : AccessDecision) (a : AccessAuditor)
    → (record_access d a).alert_count ≡ (
        if leb 3 (denials_of d.node_id (record_access d a))
        then suc a.alert_count
        else a.alert_count)
unfolding record_access count_access check_alert
alert_count-record_access d a = ground arith

alert_count-record_accesses :
    (id : String) (ds : List AccessDecision)
    → (record_accesses ds (new_auditor id)).alert_count ≡ alerts ds
unfolding record_accesses
alert_count-record_accesses id [] = refl
alert_count-record_accesses id (d ∷ ds) =
    let a = alert_count-record_access d (record_accesses ds (new_auditor id)) in
    let b = denials_of-record_accesses d.node_id id (d ∷ ds) in
    a
    ∙ rw (alert_count-record_accesses id ds)
        (ap (λ n. if leb 3 n then suc (alerts ds) else alerts ds) b)

-- After any decisions on a new auditor, the denials that it counts for a node are those since the
-- node's last allow, and it has alerted once for every decision that ends a run of three or more.
pub record_accesses-alerts :
    (id : String) (ds : List AccessDecision)
    → let a = record_accesses ds (new_auditor id) in
      (a.alert_count ≡ alerts ds)
      × ((node : String) → denials_of node a ≡ denied_run (about node ds))
record_accesses-alerts id ds =
    (alert_count-record_accesses id ds, λ node. denials_of-record_accesses node id ds)
