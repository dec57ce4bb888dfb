-- ===== src/Policy.antt =====
-- iam-module/src/policy_loader.py: policies and their evaluation. The YAML files are read before the
-- model starts: a loader is the dict of the policies that it loaded. `constraints`, which no decision
-- reads, are left out. A rule without a key has the empty text there.
pub mod Laws
use pitcrypt_f.Prelude.{
  Bool, Dict, List, Option, String, [], any, false, if◌then◌else◌, lookup, map, none, some,
  string_eq, true, ◌&&◌, ◌==◌, ◌||◌, ◌∷◌,
}

pub record Rule : Type 0 where
  pub action : String
  pub resource : String

pub record Policy : Type 0 where
  pub name : String
  pub allow : List Rule
  pub deny : List Rule
  pub roles : List String

-- `x in (wanted, '*', 'any')`.
abbrev pub covers : String → String → Bool
covers x wanted = x == wanted || (x == "*" || x == "any")

-- `_matches`.
abbrev pub rule_matches : String → String → Rule → Bool
rule_matches action_name resource_name r =
    covers r.action action_name && covers r.resource resource_name

-- `is_allowed`: the two loops return at the first rule that matches.
pub is_allowed : Policy → String → String → Bool
is_allowed p action_name resource_name =
    if any (rule_matches action_name resource_name) p.deny
    then false
    else if any (rule_matches action_name resource_name) p.allow
    then true
    else false

pub allowed_actions : Policy → List String
allowed_actions p = map (λ r. r.action) p.allow

pub denied_actions : Policy → List String
denied_actions p = map (λ r. r.action) p.deny

abbrev pub PolicyLoader : Type 0
PolicyLoader = Dict Policy

abbrev pub role_policies : Dict String
role_policies =
    ("car_producer", "car_node_policy")
    ∷ ("relay", "relay_node_policy")
    ∷ ("fia_validator", "validator_node_policy")
    ∷ []

pub get_for_role : String → PolicyLoader → Option Policy
get_for_role role_name l = elim (lookup role_name role_policies) [
  | none ↦ none
  | some name ↦ lookup name l
]

pub is_action_allowed : String → String → String → PolicyLoader → Bool
is_action_allowed policy_name action_name resource_name l = elim (lookup policy_name l) [
  | none ↦ false
  | some p ↦ is_allowed p action_name resource_name
]
