-- ===== src/KeyScheduler.antt =====
-- car_producer/src/key_scheduler.py: the rotation of the car's session key. Clock readings are arguments,
-- as integers in one unit with `max_age`. The engine is shared with the node, so it is an argument and a
-- result. The thread that checks is `tick`, one pass of its loop; a callback is a function on a state
-- of its owner, in which an exception, which is only logged, leaves what was done before it.
pub mod Laws
pub mod Ledger
use pitcrypt_f.Prelude.{
  Bool, List, Option, String, [], false, if◌then◌else◌, leb_ℤ, none, pos, some, true, ℕ, ℤ, ◌++◌,
  ◌+◌, ◌-ℤ◌, ◌∷◌,
}
use pitcrypt_f.Crypto.{CryptoEngine, Primitives, rotate_session}
use pitcrypt_f.Packet.{Bytes}

abbrev pub max_session_age_seconds : ℤ
max_session_age_seconds = pos 300

abbrev pub max_packets_per_key : ℤ
max_packets_per_key = pos 10000

pub data RotationReason : Type 0 where
  age_exceeded count_exceeded : ℤ → ℤ → RotationReason
  manual_force : RotationReason

pub record RotationEvent : Type 0 where
  pub reason : RotationReason
  pub rotation_num : ℕ
  pub old_age : ℤ
  pub old_count : ℕ

pub record KeyScheduler : Type 0 where
  pub node_id : String
  pub max_age : ℤ
  pub max_packets : ℤ
  pub packet_count : ℕ
  pub session_start : ℤ
  pub rotation_count : ℕ
  pub running : Bool
  pub rotation_log : List RotationEvent

abbrev pub new_scheduler : String → ℤ → ℤ → ℤ → KeyScheduler
new_scheduler id age packets now = record {
  node_id = id;
  max_age = age;
  max_packets = packets;
  packet_count = 0;
  session_start = now;
  rotation_count = 0;
  running = false;
  rotation_log = [];
}

unfoldable pub record_packet : KeyScheduler → KeyScheduler
record_packet k = record k { packet_count = k.packet_count + 1 }

pub should_rotate : ℤ → KeyScheduler → Option RotationReason
should_rotate now k =
    let age = now -ℤ k.session_start in
    let count = pos k.packet_count in
    if leb_ℤ k.max_age age
    then some (age_exceeded age k.max_age)
    else if leb_ℤ k.max_packets count
    then some (count_exceeded count k.max_packets)
    else none

-- The readings of the clock in a rotation, in their order.
pub record RotationClock : Type 0 where
  pub read_at : ℤ
  pub rotated_at : ℤ
  pub reset_at : ℤ

-- The first use of the lock: the number is taken, and the age and the count are read.
unfoldable pub begin_rotation : ℤ → RotationReason → KeyScheduler → KeyScheduler × RotationEvent
begin_rotation now reason k = (
  record k { rotation_count = k.rotation_count + 1 },
  record {
    reason = reason;
    rotation_num = k.rotation_count + 1;
    old_age = now -ℤ k.session_start;
    old_count = k.packet_count;
  },
)

-- The second one.
unfoldable pub reset_counters : ℤ → KeyScheduler → KeyScheduler
reset_counters now k = record k { packet_count = 0; session_start = now }

unfoldable pub log_event : RotationEvent → KeyScheduler → KeyScheduler
log_event event k = record k { rotation_log = k.rotation_log ++ (event ∷ []) }

-- What a rotation leaves: the engine, the scheduler, the event and the new public key.
abbrev pub Rotated : Type 0
Rotated = CryptoEngine × KeyScheduler × RotationEvent × Bytes

-- `_do_rotation` up to the callbacks.
pub do_rotation :
    Primitives → RotationClock → Bytes → RotationReason → CryptoEngine → KeyScheduler → Rotated
do_rotation P t private reason e k =
    let (k₁, event) = begin_rotation t.read_at reason k in
    let (e', new_pub) = rotate_session P t.rotated_at private e in
    (e', log_event event (reset_counters t.reset_at k₁), event, new_pub)

-- The callbacks, each called with the event and the key.
unfoldable pub notify :
    {S : Type 0} → List (RotationEvent → Bytes → S → S) → RotationEvent → Bytes → S → S
notify [] event new_pub s = s
notify (f ∷ fs) event new_pub s = notify fs event new_pub (f event new_pub s)

-- `force_rotation`.
abbrev pub force_rotation :
    Primitives → RotationClock → Bytes → CryptoEngine → KeyScheduler → Rotated
force_rotation P t private e k = do_rotation P t private manual_force e k

-- One pass of `_run`: `none` where nothing is due.
pub tick : Primitives → ℤ → RotationClock → Bytes → CryptoEngine → KeyScheduler → Option Rotated
tick P now t private e k = elim (should_rotate now k) [
  | none ↦ none
  | some reason ↦ some (do_rotation P t private reason e k)
]

pub start_scheduler : KeyScheduler → KeyScheduler
start_scheduler k = if k.running then k else record k { running = true }

pub stop_scheduler : KeyScheduler → KeyScheduler
stop_scheduler k = record k { running = false }

abbrev pub max_ℤ : ℤ → ℤ → ℤ
max_ℤ a b = if leb_ℤ a b then b else a

pub time_until_rotation : ℤ → KeyScheduler → ℤ
time_until_rotation now k = max_ℤ (pos 0) (k.max_age -ℤ (now -ℤ k.session_start))

pub packets_until_rotation : KeyScheduler → ℤ
packets_until_rotation k = max_ℤ (pos 0) (k.max_packets -ℤ pos k.packet_count)
