-- ===== src/Integrity.antt =====
-- relay-node/src/integrity_checker.py: sequence, replay, timestamp and signature checks at the relay.
-- As in Sequence.antt the dicts `_last_sequence` and `_seen_sequences` are one dict of records, a
-- message is a constructor with the values that its text shows, and `now` is the clock in ms.
pub mod Verdict
pub mod Ordering
use pitcrypt_f.Prelude.{
  Bool, Dict, List, String, [], contains, erase, has_key, if◌then◌else◌, insert, int_eq, leb_ℤ,
  lookup, ltb_ℤ, negsuc, not, or_default, pos, ℕ, ℤ, ◌&&◌, ◌+◌, ◌-ℤ◌, ◌||◌,
}
use pitcrypt_f.Packet.{Packet, is_truthy, packet_seq, packet_ts}
use pitcrypt_f.SeqSet.{CheckResult, add_error, add_warning, new_result, remember}

pub data IntegrityWarning : Type 0 where
  large_sequence_gap : String → ℤ → ℤ → IntegrityWarning
  future_timestamp : String → ℤ → IntegrityWarning

pub data IntegrityError : Type 0 where
  invalid_sequence_number : ℤ → IntegrityError
  replay_attack : String → ℤ → IntegrityError
  out_of_order : String → ℤ → ℤ → IntegrityError
  timestamp_too_old : String → ℤ → ℤ → IntegrityError
  missing_signature : String → ℤ → IntegrityError

abbrev pub IntegrityCheckResult : Type 0
IntegrityCheckResult = CheckResult IntegrityWarning IntegrityError

abbrev pub max_timestamp_age_ms : ℤ
max_timestamp_age_ms = pos 30000

abbrev pub max_sequence_gap : ℤ
max_sequence_gap = pos 100

pub replay_window_size : ℕ
replay_window_size = 10000

pub record NodeSequence : Type 0 where
  pub last_sequence : ℤ
  pub seen_sequences : List ℤ

pub record IntegrityChecker : Type 0 where
  pub node_id : String
  pub max_ts_age : ℤ
  pub max_gap : ℤ
  pub check_timestamps : Bool
  pub check_signatures : Bool
  pub nodes : Dict NodeSequence
  pub checked_count : ℕ
  pub passed_count : ℕ
  pub failed_count : ℕ
  pub replay_count : ℕ
  pub out_of_order_count : ℕ

-- `__init__`.
abbrev pub new_integrity : String → ℤ → ℤ → Bool → Bool → IntegrityChecker
new_integrity id max_age gap timestamps signatures = record {
  node_id = id;
  max_ts_age = max_age;
  max_gap = gap;
  check_timestamps = timestamps;
  check_signatures = signatures;
  nodes = [];
  checked_count = 0;
  passed_count = 0;
  failed_count = 0;
  replay_count = 0;
  out_of_order_count = 0;
}

abbrev pub fresh_sequence : NodeSequence
fresh_sequence = record { last_sequence = pos 0; seen_sequences = [] }

-- The entry of a node after `check` has initialised it.
abbrev pub node_sequence : String → IntegrityChecker → NodeSequence
node_sequence node c = or_default (lookup node c.nodes) fresh_sequence

abbrev pub init_sequence : String → IntegrityChecker → IntegrityChecker
init_sequence node c =
    if has_key node c.nodes then c else record c { nodes = insert node fresh_sequence c.nodes }

-- `packet.get('node_id', 'unknown')`.
abbrev pub car_node : {J : Type 0} → Packet J → String
car_node p = or_default p.node_id "unknown"

abbrev pub Progress : Type 0
Progress = IntegrityChecker × IntegrityCheckResult

pub check_number : ℤ → Progress → Progress
check_number seq (c, r) =
    if leb_ℤ seq (pos 0) then (c, add_error (invalid_sequence_number seq) r) else (c, r)

pub check_replay : String → ℤ → NodeSequence → Progress → Progress
check_replay node seq n (c, r) =
    if contains seq n.seen_sequences
    then (record c { replay_count = c.replay_count + 1 }, add_error (replay_attack node seq) r)
    else (c, r)

pub check_order : String → ℤ → NodeSequence → Progress → Progress
check_order node seq n (c, r) =
    if ltb_ℤ (pos 0) n.last_sequence && leb_ℤ seq n.last_sequence
    then (
      record c { out_of_order_count = c.out_of_order_count + 1 },
      add_error (out_of_order node seq n.last_sequence) r,
    )
    else (c, r)

pub check_gap : String → ℤ → NodeSequence → Progress → Progress
check_gap node seq n (c, r) =
    if ltb_ℤ (pos 0) n.last_sequence && ltb_ℤ c.max_gap (seq -ℤ n.last_sequence)
    then (c, add_warning (large_sequence_gap node (seq -ℤ n.last_sequence) c.max_gap) r)
    else (c, r)

pub check_age : String → ℤ → ℤ → Progress → Progress
check_age node now ts (c, r) =
    if c.check_timestamps && ltb_ℤ (pos 0) ts
    then (if ltb_ℤ c.max_ts_age (now -ℤ ts)
        then (c, add_error (timestamp_too_old node (now -ℤ ts) c.max_ts_age) r)
        else if ltb_ℤ (now -ℤ ts) (negsuc 4999)
        then (c, add_warning (future_timestamp node (now -ℤ ts)) r)
        else (c, r))
    else (c, r)

-- `packet.get('signature') or packet.get('signature_bytes')`.
abbrev pub has_signature : {J : Type 0} → Packet J → Bool
has_signature p = is_truthy p.signature || is_truthy p.signature_bytes

pub check_signature : String → ℤ → Bool → Progress → Progress
check_signature node seq signed (c, r) =
    if c.check_signatures && not signed
    then (c, add_error (missing_signature node seq) r)
    else (c, r)

-- The six checks in their order, each on the node's entry.
pub inspect : String → ℤ → ℤ → Bool → ℤ → NodeSequence → Progress → Progress
inspect node seq ts signed now n s = check_signature node seq signed (
    check_age node now ts (
      check_gap node seq n (check_order node seq n (check_replay node seq n (check_number seq s)))))

-- Update of the node's entry, only of a packet that passed.
pub record_passed : String → ℤ → NodeSequence → Progress → IntegrityChecker
record_passed node seq n (c, r) =
    if r.passed
    then record c {
      nodes =
          insert node
            (record {
              last_sequence = seq;
              seen_sequences = remember replay_window_size seq n.seen_sequences;
            })
            c.nodes;
    }
    else c

pub count_check : Bool → IntegrityChecker → IntegrityChecker
count_check ok c =
    if ok
    then record c { checked_count = c.checked_count + 1; passed_count = c.passed_count + 1 }
    else record c { checked_count = c.checked_count + 1; failed_count = c.failed_count + 1 }

module _ {J : Type 0} where
  pub check : ℤ → Packet J → IntegrityChecker → Progress
  check now p c =
      let node = car_node p in
      let n = node_sequence node c in
      let s =
        inspect node (packet_seq p) (packet_ts p) (has_signature p) now n
          (init_sequence node c, new_result) in
      (count_check s.1.passed (record_passed node (packet_seq p) n s), s.1)

pub reset_node : String → IntegrityChecker → IntegrityChecker
reset_node node c = record c { nodes = erase node c.nodes }
