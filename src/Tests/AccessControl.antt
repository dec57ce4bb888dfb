-- ===== src/Tests/AccessControl.antt =====
-- The theorems on identities, policies and access decisions, applied.
use text.Mathlib.TextEquality.{eq_iff}
use pitcrypt_f.Prelude.{
  String, [], arith, false, inl, inr, none, refl, string_eq, true, ◌==◌, ◌∷◌, ◌≡◌, ◌≢◌,
}
use pitcrypt_f.Access.{denials_of, new_auditor}
use pitcrypt_f.Access.Laws.{about, alerts, denied_run, record_accesses, record_accesses-alerts}
use pitcrypt_f.Identity.{NodeIdentity, new_identity}
use pitcrypt_f.Policy.{Policy, is_allowed}
use pitcrypt_f.Policy.Laws.{IsPermitted, Names, is_allowed_iff}
use pitcrypt_f.Rbac.{AccessDecision, RbacEngine, check_access, new_rbac, node_not_registered}
use pitcrypt_f.Rbac.Laws.{check_access_iff}

distinct : (a b : String) → (a == b) ≡ false → a ≢ b
distinct a b h e = ground (arith, eq_iff a b)

abbrev car_policy : Policy
car_policy = record {
  name = "car_node_policy";
  allow = record { action = "telemetry.produce"; resource = "*" } ∷ [];
  deny = record { action = "network.transmit"; resource = "validator_node" } ∷ [];
  roles = "car_producer" ∷ [];
}

network_is_not_telemetry : ¬ Names "network.transmit" "telemetry.produce"
network_is_not_telemetry (inl e) = distinct "network.transmit" "telemetry.produce" refl e
network_is_not_telemetry (inr (inl e)) = distinct "network.transmit" "*" refl e
network_is_not_telemetry (inr (inr e)) = distinct "network.transmit" "any" refl e

produce-IsPermitted : IsPermitted car_policy "telemetry.produce" "own_telemetry"
produce-IsPermitted = ((λ (h, _). network_is_not_telemetry h, tt), inl (inl refl, inr (inl refl)))

is_allowed_iff_example : is_allowed car_policy "telemetry.produce" "own_telemetry" ≡ true
is_allowed_iff_example =
    (is_allowed_iff car_policy "telemetry.produce" "own_telemetry").1 produce-IsPermitted

abbrev car_identity : NodeIdentity
car_identity = new_identity "2026" "mercedes_car" "car_producer" none none none

abbrev car_engine : RbacEngine
car_engine = new_rbac (("mercedes_car", car_identity) ∷ []) (("car_node_policy", car_policy) ∷ [])

check_access_iff_example :
    (check_access "mercedes_car" "telemetry.produce" "own_telemetry" car_engine).1.allowed ≡ true
check_access_iff_example =
    (check_access_iff "mercedes_car" "telemetry.produce" "own_telemetry" car_engine).1 (record {
      identity = car_identity;
      policy = car_policy;
      known = refl;
      active = refl;
      loaded = refl;
      permitted = produce-IsPermitted;
    })

abbrev denial : AccessDecision
denial = record {
  allowed = false;
  node_id = "intruder";
  action = "telemetry.read";
  resource = "all_telemetry";
  reason = node_not_registered;
  policy = none;
  role = none;
}

record_accesses-alerts_example :
    let ds = denial ∷ denial ∷ denial ∷ [] in
    let a = record_accesses ds (new_auditor "iam") in
    (a.alert_count ≡ alerts ds) × ((node : String) → denials_of node a ≡ denied_run (about node ds))
record_accesses-alerts_example = record_accesses-alerts "iam" (denial ∷ denial ∷ denial ∷ [])
