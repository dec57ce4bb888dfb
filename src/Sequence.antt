-- ===== src/Sequence.antt =====
-- validator-node/src/sequence_checker.py: sequence ordering and replay defence at the validator.
-- The three dicts `_last_seq`, `_seen_seqs` and `_first_seen` gain and lose a node together, so
-- they are one dict of records. A message is a constructor with the values that its text shows.
-- `now` is the clock's reading in ms. `check` returns the object after the call and the result.
pub mod Verdict
pub mod Ordering
pub mod Window
use pitcrypt_f.Prelude.{
  Bool, Dict, List, Option, String, [], contains, erase, has_key, if◌then◌else◌, insert, int_eq,
  leb_ℤ, length, lookup, ltb_ℤ, negsuc, none, or_default, pos, some, ℕ, ℤ, ◌&&◌, ◌+◌, ◌-ℤ◌,
}
use pitcrypt_f.Packet.{Packet, packet_node, packet_seq, packet_ts}
use pitcrypt_f.SeqSet.{CheckResult, add_error, add_warning, new_result, remember}

pub data SeqWarning : Type 0 where
  large_gap : String → ℤ → SeqWarning
  future_timestamp : String → ℤ → SeqWarning

pub data SeqError : Type 0 where
  invalid_sequence : ℤ → SeqError
  replay_detected : String → ℤ → SeqError
  out_of_order : String → ℤ → ℤ → SeqError
  stale_packet : String → ℤ → ℤ → SeqError

abbrev pub SequenceCheckResult : Type 0
SequenceCheckResult = CheckResult SeqWarning SeqError

abbrev pub max_timestamp_age_ms : ℤ
max_timestamp_age_ms = pos 60000

abbrev pub max_sequence_gap : ℤ
max_sequence_gap = pos 1000

unfoldable pub replay_window : ℕ
replay_window = 50000

pub record NodeState : Type 0 where
  pub last_seq : ℤ
  pub seen_seqs : List ℤ
  pub first_seen : ℤ

pub record ValidatorSequenceChecker : Type 0 where
  pub node_id : String
  pub max_ts_age : ℤ
  pub max_gap : ℤ
  pub check_ts : Bool
  pub strict : Bool
  pub nodes : Dict NodeState
  pub checked_count : ℕ
  pub passed_count : ℕ
  pub failed_count : ℕ
  pub replay_count : ℕ
  pub gap_count : ℕ

-- `__init__`.
abbrev pub new_checker : String → ℤ → ℤ → Bool → Bool → ValidatorSequenceChecker
new_checker id max_age gap timestamps strict_ordering = record {
  node_id = id;
  max_ts_age = max_age;
  max_gap = gap;
  check_ts = timestamps;
  strict = strict_ordering;
  nodes = [];
  checked_count = 0;
  passed_count = 0;
  failed_count = 0;
  replay_count = 0;
  gap_count = 0;
}

abbrev pub fresh_node : ℤ → NodeState
fresh_node now = record { last_seq = pos 0; seen_seqs = []; first_seen = now }

-- The entry of a node after `check` has initialised it.
abbrev pub node_state : String → ℤ → ValidatorSequenceChecker → NodeState
node_state node now c = or_default (lookup node c.nodes) (fresh_node now)

abbrev pub init_node : String → ℤ → ValidatorSequenceChecker → ValidatorSequenceChecker
init_node node now c =
    if has_key node c.nodes then c else record c { nodes = insert node (fresh_node now) c.nodes }

abbrev pub Progress : Type 0
Progress = ValidatorSequenceChecker × SequenceCheckResult

pub check_validity : ℤ → Progress → Progress
check_validity seq (c, r) =
    if leb_ℤ seq (pos 0) then (c, add_error (invalid_sequence seq) r) else (c, r)

pub check_replay : String → ℤ → NodeState → Progress → Progress
check_replay node seq n (c, r) =
    if contains seq n.seen_seqs
    then (record c { replay_count = c.replay_count + 1 }, add_error (replay_detected node seq) r)
    else (c, r)

pub check_ordering : String → ℤ → NodeState → Progress → Progress
check_ordering node seq n (c, r) =
    if c.strict && ltb_ℤ (pos 0) n.last_seq && leb_ℤ seq n.last_seq
    then (c, add_error (out_of_order node seq n.last_seq) r)
    else (c, r)

pub check_gap : String → ℤ → NodeState → Progress → Progress
check_gap node seq n (c, r) =
    if ltb_ℤ (pos 0) n.last_seq && ltb_ℤ c.max_gap (seq -ℤ n.last_seq)
    then (
      record c { gap_count = c.gap_count + 1 },
      add_warning (large_gap node (seq -ℤ n.last_seq)) r,
    )
    else (c, r)

pub check_freshness : String → ℤ → ℤ → Progress → Progress
check_freshness node now ts (c, r) =
    if c.check_ts && ltb_ℤ (pos 0) ts
    then (if ltb_ℤ c.max_ts_age (now -ℤ ts)
        then (c, add_error (stale_packet node (now -ℤ ts) c.max_ts_age) r)
        else if ltb_ℤ (now -ℤ ts) (negsuc 4999)
        then (c, add_warning (future_timestamp node (now -ℤ ts)) r)
        else (c, r))
    else (c, r)

-- The five checks in their order, each on the node's entry.
pub inspect : String → ℤ → ℤ → ℤ → NodeState → Progress → Progress
inspect node seq ts now n s = check_freshness node now ts (
    check_gap node seq n
      (check_ordering node seq n (check_replay node seq n (check_validity seq s))))

-- Update of the node's entry, only of a packet that passed. `window` is REPLAY_WINDOW.
pub record_passed : ℕ → String → ℤ → NodeState → Progress → ValidatorSequenceChecker
record_passed window node seq n (c, r) =
    if r.passed
    then record c {
      nodes =
          insert node (record n { last_seq = seq; seen_seqs = remember window seq n.seen_seqs })
            c.nodes;
    }
    else c

pub count_check : Bool → ValidatorSequenceChecker → ValidatorSequenceChecker
count_check ok c =
    if ok
    then record c { checked_count = c.checked_count + 1; passed_count = c.passed_count + 1 }
    else record c { checked_count = c.checked_count + 1; failed_count = c.failed_count + 1 }

module _ {J : Type 0} where
  pub check_within : ℕ → ℤ → Packet J → ValidatorSequenceChecker → Progress
  check_within window now p c =
      let node = packet_node p in
      let n = node_state node now c in
      let s = inspect node (packet_seq p) (packet_ts p) now n (init_node node now c, new_result) in
      (count_check s.1.passed (record_passed window node (packet_seq p) n s), s.1)

  pub check : ℤ → Packet J → ValidatorSequenceChecker → Progress
  check = check_within replay_window

pub reset_node : String → ValidatorSequenceChecker → ValidatorSequenceChecker
reset_node node c = record c { nodes = erase node c.nodes }

pub record NodeStats : Type 0 where
  pub node_id : String
  pub last_seq : ℤ
  pub seen_count : ℕ
  pub first_seen : Option ℤ

pub get_node_stats : String → ValidatorSequenceChecker → NodeStats
get_node_stats node c = elim (lookup node c.nodes) [
  | none ↦ record { node_id = node; last_seq = pos 0; seen_count = 0; first_seen = none }
  | some n ↦ record {
    node_id = node;
    last_seq = n.last_seq;
    seen_count = length n.seen_seqs;
    first_seen = some n.first_seen;
  }
]
