-- ===== src/KeyScheduler/Ledger.antt =====
-- Rotations of a key that run at once (car_producer/src/key_scheduler.py): the checking thread and
-- force_rotation may both be in `_do_rotation`. Each use of the lock is one step, and so is the append to
-- the log, which is done without the lock.
pub mod Accounts
use pitcrypt_f.Prelude.{List, [], ℕ, ℤ, ◌++◌, ◌+◌, ◌-◌, ◌∷◌, ◌≡◌}
use pitcrypt_f.KeyScheduler.{
  KeyScheduler, RotationEvent, RotationReason, begin_rotation, log_event, record_packet,
  reset_counters,
}

-- The scheduler with the events of the rotations under way: those before the reset of the counters, and
-- those between the reset and the log.
pub record Rotations : Type 0 where
  pub scheduler : KeyScheduler
  pub waiting : List RotationEvent
  pub cleared : List RotationEvent

-- No rotation is under way.
abbrev pub at_rest : KeyScheduler → Rotations
at_rest k = record { scheduler = k; waiting = []; cleared = [] }

-- What becomes of the packets: those recorded, those of the counter that a waiting rotation has read, those
-- that were read by two rotations, and those that a reset took away before they were read.
pub record Account : Type 0 where
  pub recorded : ℕ
  pub seen : ℕ
  pub doubled : ℕ
  pub lost : ℕ

abbrev pub no_packets : Account
no_packets = record { recorded = 0; seen = 0; doubled = 0; lost = 0 }

-- `record_packet`, the first use of the lock in a rotation, the second one, and the append to the log.
pub data Step (s : Rotations) (a : Account) : Rotations → Account → Type 0 where
  records :
      Step s a
        (record s { scheduler = record_packet s.scheduler })
        (record a { recorded = a.recorded + 1 })
  begins :
      (now : ℤ) (reason : RotationReason)
      → Step s a
          (record s {
            scheduler = (begin_rotation now reason s.scheduler).0;
            waiting = s.waiting ++ (begin_rotation now reason s.scheduler).1 ∷ [];
          })
          (record a { doubled = a.doubled + a.seen; seen = s.scheduler.packet_count })
  resets :
      (now : ℤ) (before after : List RotationEvent) (event : RotationEvent)
      → s.waiting ≡ before ++ event ∷ after
      → Step s a
          (record {
            scheduler = reset_counters now s.scheduler;
            waiting = before ++ after;
            cleared = s.cleared ++ event ∷ [];
          })
          (record a { lost = a.lost + (s.scheduler.packet_count - a.seen); seen = 0 })
  logs :
      (before after : List RotationEvent) (event : RotationEvent)
      → s.cleared ≡ before ++ event ∷ after
      → Step s a (record s { scheduler = log_event event s.scheduler; cleared = before ++ after }) a

-- Any number of steps.
pub data Steps (s : Rotations) (a : Account) : Rotations → Account → Type 0 where
  no_step : Steps s a s a
  one_more : {t u : Rotations} {b c : Account} → Steps s a t b → Step t b u c → Steps s a u c
