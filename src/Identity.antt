-- ===== src/Identity.antt =====
-- iam-module/src/identity_store.py: the registry of node identities. `registered_at` is the text of
-- the clock at the call. The nodes that iam.yaml lists are an argument of `load`.
pub mod Laws
use pitcrypt_f.Prelude.{
  Bool, Dict, List, Option, String, [], false, insert, keep, lookup, none, or_default, some,
  string_eq, true, values, ◌&&◌, ◌==◌, ◌∷◌,
}
use pitcrypt_f.Packet.{Bytes}

pub record NodeIdentity : Type 0 where
  pub node_id : String
  pub role : String
  pub team : Option String
  pub policy : Option String
  pub public_key_bytes : Option Bytes
  pub registered_at : String
  pub active : Bool

abbrev pub IdentityStore : Type 0
IdentityStore = Dict NodeIdentity

-- `NodeIdentity.__init__`.
abbrev pub new_identity :
    String → String → String → Option String → Option String → Option Bytes → NodeIdentity
new_identity stamp node role_name team_name policy_name key = record {
  node_id = node;
  role = role_name;
  team = team_name;
  policy = policy_name;
  public_key_bytes = key;
  registered_at = stamp;
  active = true;
}

-- What `_load_from_config` reads of a node.
pub record NodeConfig : Type 0 where
  pub role : Option String
  pub team : Option String
  pub policy : Option String

-- `_load_from_config`.
pub load : String → Dict NodeConfig → IdentityStore → IdentityStore
load stamp [] s = s
load stamp ((node, cfg) ∷ nodes) s = load stamp nodes (
    insert node (new_identity stamp node (or_default cfg.role "unknown") cfg.team cfg.policy none)
      s)

unfoldable pub register :
    String
    → String
    → String
    → Option String
    → Option String
    → Option Bytes
    → IdentityStore
    → IdentityStore
register stamp node role_name team_name policy_name key s =
    insert node (new_identity stamp node role_name team_name policy_name key) s

-- `register_public_key`; `none` is the KeyError.
pub register_public_key : String → Bytes → IdentityStore → Option IdentityStore
register_public_key node key s = elim (lookup node s) [
  | none ↦ none
  | some n ↦ some (insert node (record n { public_key_bytes = some key }) s)
]

pub deregister : String → IdentityStore → IdentityStore
deregister node s = elim (lookup node s) [
  | none ↦ s
  | some n ↦ insert node (record n { active = false }) s
]

abbrev pub get : String → IdentityStore → Option NodeIdentity
get node s = lookup node s

pub get_role : String → IdentityStore → Option String
get_role node s = elim (lookup node s) [ none ↦ none | some n ↦ some n.role ]

pub get_policy : String → IdentityStore → Option String
get_policy node s = elim (lookup node s) [ none ↦ none | some n ↦ n.policy ]

abbrev pub is_registered : String → IdentityStore → Bool
is_registered node s = elim (lookup node s) [ none ↦ false | some n ↦ n.active ]

pub get_nodes_by_role : String → IdentityStore → List NodeIdentity
get_nodes_by_role name s = keep (λ n. n.role == name && n.active) (values s)

pub active_nodes : IdentityStore → List NodeIdentity
active_nodes s = keep (λ n. n.active) (values s)
