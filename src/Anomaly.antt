-- ===== src/Anomaly.antt =====
-- relay-node/src/anomaly_filters.py: the anomaly filter of the relay. `N` is the type of the numbers that
-- `json.loads` reads, `Number` what the filter does with them. A payload is the dict of its
-- channels. The text `expected` of a violation is left out.
pub mod Laws
pub mod Runs
use pitcrypt_f.Prelude.{
  Bool, Dict, List, Option, String, [], false, if◌then◌else◌, insert, lookup, negsuc, none,
  or_default, pos, some, true, ℕ, ℤ, ◌++◌, ◌+◌, ◌||◌, ◌∷◌,
}
use pitcrypt_f.Packet.{Packet}

-- `a < b`, `abs(a - b)`, and an integer literal.
pub record Number (N : Type 0) : Type 0 where
  pub below : N → N → Bool
  pub distance : N → N → N
  pub of_int : ℤ → N

abbrev pub physical_limits : Dict (ℤ × ℤ)
physical_limits =
    ("Speed", (negsuc 4, pos 400))
    ∷ ("RPM", (pos 0, pos 16000))
    ∷ ("Throttle", (pos 0, pos 100))
    ∷ ("Brake", (pos 0, pos 1))
    ∷ ("nGear", (pos 0, pos 8))
    ∷ ("DRS", (pos 0, pos 14))
    ∷ []

abbrev pub roc_limits : Dict ℤ
roc_limits =
    ("Speed", pos 50)
    ∷ ("RPM", pos 3000)
    ∷ ("Throttle", pos 100)
    ∷ ("Brake", pos 1)
    ∷ ("nGear", pos 2)
    ∷ ("DRS", pos 14)
    ∷ []

abbrev pub channels : List String
channels = "Speed" ∷ "RPM" ∷ "Throttle" ∷ "Brake" ∷ "nGear" ∷ "DRS" ∷ []

pub data Severity : Type 0 where
  severity_pass severity_flag severity_reject : Severity

pub data AnomalyReason : Type 0 where
  physical_bounds_violation below_threshold above_threshold rate_of_change_exceeded : AnomalyReason

pub record Violation (N : Type 0) : Type 0 where
  pub channel : String
  pub value : N
  pub reason : AnomalyReason
  pub severity : Severity

pub record AnomalyResult (N : Type 0) : Type 0 where
  pub severity : Severity
  pub violations : List (Violation N)

abbrev pub is_clean : Severity → Bool
is_clean severity_pass = true
is_clean _ = false

abbrev pub is_flagged : Severity → Bool
is_flagged severity_flag = true
is_flagged _ = false

abbrev pub is_rejected : Severity → Bool
is_rejected severity_reject = true
is_rejected _ = false

-- The escalation in `add_violation`.
pub escalate : Severity → Severity → Severity
escalate severity_reject s = severity_reject
escalate severity_flag severity_pass = severity_flag
escalate _ s = s

pub record Threshold (N : Type 0) : Type 0 where
  pub lower : Option N
  pub upper : Option N

pub record AnomalyFilter (N : Type 0) : Type 0 where
  pub node_id : String
  pub thresholds : Dict (Dict (Threshold N))
  pub last_values : Dict (Dict N)
  pub checked_count : ℕ
  pub flagged_count : ℕ
  pub rejected_count : ℕ

-- `a or b` for dicts, where `a` may be absent.
abbrev pub dict_or {ℓ} : {A : Type ℓ} → Option (Dict A) → Dict A → Dict A
dict_or none d = d
dict_or (some []) d = d
dict_or (some (x ∷ xs)) d = x ∷ xs

module _ {N : Type 0} where
  -- `__init__`, with the thresholds that the file holds.
  abbrev pub new_filter : String → Dict (Dict (Threshold N)) → AnomalyFilter N
  new_filter id table = record {
    node_id = id;
    thresholds = table;
    last_values = [];
    checked_count = 0;
    flagged_count = 0;
    rejected_count = 0;
  }

  abbrev pub new_anomaly : AnomalyResult N
  new_anomaly = record { severity = severity_pass; violations = [] }

  pub add_violation : String → N → AnomalyReason → Severity → AnomalyResult N → AnomalyResult N
  add_violation ch v why s r = record {
    severity = escalate s r.severity;
    violations =
        r.violations ++ record { channel = ch; value = v; reason = why; severity = s } ∷ [];
  }

  -- `_get_thresholds`.
  get_thresholds : String → AnomalyFilter N → Dict (Threshold N)
  get_thresholds team f =
      dict_or (lookup team f.thresholds) (dict_or (lookup "combined" f.thresholds) [])

module _ {N : Type 0} (num : Number N) where
  -- `value < lower` and `value > upper` for a bound that may be None.
  abbrev below_bound : N → Option N → Bool
  below_bound v none = false
  below_bound v (some x) = num.below v x

  abbrev above_bound : N → Option N → Bool
  above_bound v none = false
  above_bound v (some x) = num.below x v

  -- The physical limits.
  abbrev pub out_of_limits : String → N → Bool
  out_of_limits ch v = elim (lookup ch physical_limits) [
    | none ↦ false
    | some (lo, hi) ↦ num.below v (num.of_int lo) || num.below (num.of_int hi) v
  ]

  check_threshold : String → N → Dict (Threshold N) → AnomalyResult N → AnomalyResult N
  check_threshold ch v ts r = elim (lookup ch ts) [
    | none ↦ r
    | some t ↦
        if below_bound v t.lower
        then add_violation ch v below_threshold severity_flag r
        else if above_bound v t.upper
        then add_violation ch v above_threshold severity_flag r
        else r
  ]

  -- `roc > roc_limit`, where a channel without a limit has infinity.
  abbrev changes_too_fast : String → N → N → Bool
  changes_too_fast ch v old = elim (lookup ch roc_limits) [
    | none ↦ false
    | some limit ↦ num.below (num.of_int limit) (num.distance v old)
  ]

  check_change : String → N → Dict N → AnomalyResult N → AnomalyResult N
  check_change ch v last r = elim (lookup ch last) [
    | none ↦ r
    | some old ↦
        if changes_too_fast ch v old
        then add_violation ch v rate_of_change_exceeded severity_flag r
        else r
  ]

  -- The body of the loop, and the loop.
  check_channel : Dict N → Dict (Threshold N) → Dict N → String → AnomalyResult N → AnomalyResult N
  check_channel payload ts last ch r = elim (lookup ch payload) [
    | none ↦ r
    | some v ↦
        if out_of_limits ch v
        then add_violation ch v physical_bounds_violation severity_reject r
        else check_change ch v last (check_threshold ch v ts r)
  ]

  check_channels :
      Dict N → Dict (Threshold N) → Dict N → List String → AnomalyResult N → AnomalyResult N
  check_channels payload ts last [] r = r
  check_channels payload ts last (ch ∷ chs) r =
      check_channels payload ts last chs (check_channel payload ts last ch r)

-- The update of a node's last values.
keep_values : {N : Type 0} → Dict N → List String → Dict N → Dict N
keep_values payload [] last = last
keep_values payload (ch ∷ chs) last = elim (lookup ch payload) [
  | none ↦ keep_values payload chs last
  | some v ↦ keep_values payload chs (insert ch v last)
]

count_severity : {N : Type 0} → Severity → AnomalyFilter N → AnomalyFilter N
count_severity severity_pass f = record f { checked_count = f.checked_count + 1 }
count_severity severity_flag f = record f {
  checked_count = f.checked_count + 1;
  flagged_count = f.flagged_count + 1;
}
count_severity severity_reject f = record f {
  checked_count = f.checked_count + 1;
  rejected_count = f.rejected_count + 1;
}

module _ {N : Type 0} (num : Number N) where
  pub check_anomaly : Packet (Dict N) → AnomalyFilter N → AnomalyFilter N × AnomalyResult N
  check_anomaly p f =
      let payload = or_default p.payload_json [] in
      let node = or_default p.node_id "unknown" in
      let last = or_default (lookup node f.last_values) [] in
      let r =
        check_channels num payload (get_thresholds (or_default p.team "combined") f) last channels
          new_anomaly in
      (
        count_severity r.severity (record f {
          last_values = insert node (keep_values payload channels last) f.last_values;
        }),
        r,
      )

  -- `check_batch`: the packets with their results, clean, flagged and rejected.
  pub check_batch :
      List (Packet (Dict N))
      → AnomalyFilter N
      → AnomalyFilter N
        × List (Packet (Dict N) × AnomalyResult N)
        × List (Packet (Dict N) × AnomalyResult N)
        × List (Packet (Dict N) × AnomalyResult N)
  check_batch [] f = (f, [], [], [])
  check_batch (p ∷ ps) f =
      let (f', r) = check_anomaly p f in
      let (g, clean, flagged, rejected) = check_batch ps f' in
      elim r.severity [
        | severity_pass ↦ (g, (p, r) ∷ clean, flagged, rejected)
        | severity_flag ↦ (g, clean, (p, r) ∷ flagged, rejected)
        | severity_reject ↦ (g, clean, flagged, (p, r) ∷ rejected)
      ]
