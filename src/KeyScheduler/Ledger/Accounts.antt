-- ===== src/KeyScheduler/Ledger/Accounts.antt =====
-- The numbers of the rotations, and where the packets are counted_by (car_producer/src/key_scheduler.py).
use pitcrypt_f.Prelude.{
  List, String, [], arith, if◌then◌else◌, inl, inr, leb, length, length-append, nat_eqb, refl, ℕ, ℤ,
  ◌&&◌, ◌++◌, ◌+◌, ◌-◌, ◌∷◌, ◌≡◌, ◌≢◌, ◌≤◌, ◌⊎◌,
}
use pitcrypt_f.Crypto.{CryptoEngine, Primitives}
use pitcrypt_f.KeyScheduler.{
  KeyScheduler, RotationClock, RotationEvent, RotationReason, begin_rotation, do_rotation,
  log_event, new_scheduler, record_packet, reset_counters,
}
use pitcrypt_f.KeyScheduler.Ledger.{
  Account, Rotations, Step, Steps, at_rest, begins, logs, no_packets, no_step, one_more, records,
  resets,
}
use pitcrypt_f.Packet.{Bytes}

-- The packets that events count.
abbrev pub counted_by : List RotationEvent → ℕ
counted_by [] = 0
counted_by (x ∷ xs) = x.old_count + counted_by xs

-- How many events have the number `n`.
abbrev pub times : ℕ → List RotationEvent → ℕ
times n [] = 0
times n (x ∷ xs) = (if nat_eqb x.rotation_num n then 1 else 0) + times n xs

counted_by-append :
    (xs ys : List RotationEvent) → counted_by (xs ++ ys) ≡ counted_by xs + counted_by ys
counted_by-append [] ys = omega arith
counted_by-append (x ∷ xs) ys = omega (arith, counted_by-append xs ys)

times-append : (n : ℕ) (xs ys : List RotationEvent) → times n (xs ++ ys) ≡ times n xs + times n ys
times-append n [] ys = omega arith
times-append n (x ∷ xs) ys = omega (arith, times-append n xs ys)

-- Whether a number has been given out.
abbrev pub taken : ℕ → ℕ → ℕ
taken n count = if leb 1 n && leb n count then 1 else 0

taken-suc :
    (n count : ℕ) → taken n (count + 1) ≡ taken n count + (if nat_eqb (count + 1) n then 1 else 0)
taken-suc n count = ground arith

-- Every number from 1 to the count of rotations is the number of one rotation, logged or under way, and no
-- other is. The packets of all events, with those lost and those of the counter that no waiting rotation
-- has read, are those recorded and those read twice. When no rotation waits nothing of the counter has
-- been read.
pub record IsAccounted (s : Rotations) (a : Account) : Type 0 where
  pub numbered :
      (n : ℕ)
      → times n s.scheduler.rotation_log + times n s.cleared + times n s.waiting
        ≡ taken n s.scheduler.rotation_count
  pub all_there :
      length s.scheduler.rotation_log + length s.cleared + length s.waiting
      ≡ s.scheduler.rotation_count
  pub seen_of : a.seen ≤ s.scheduler.packet_count
  pub balanced :
      counted_by s.scheduler.rotation_log
        + counted_by s.cleared
        + counted_by s.waiting
        + a.lost
        + (s.scheduler.packet_count - a.seen)
      ≡ a.recorded + a.doubled
  pub unseen : (s.waiting ≢ []) ⊎ (a.seen ≡ 0)

append-nonempty : {A : Type 0} (xs : List A) (x : A) → xs ++ x ∷ [] ≢ []
append-nonempty [] x e = cc
append-nonempty (y ∷ ys) x e = cc

-- An event that goes from a list to the end of another keeps their sums.
times-move :
    (n : ℕ) (xs before after : List RotationEvent) (x : RotationEvent)
    → times n (xs ++ x ∷ []) + times n (before ++ after)
      ≡ times n xs + times n (before ++ x ∷ after)
times-move n xs before after x = omega (
  arith,
  times-append n xs (x ∷ []),
  times-append n before after,
  times-append n before (x ∷ after),
)

counted_by-move :
    (xs before after : List RotationEvent) (x : RotationEvent)
    → counted_by (xs ++ x ∷ []) + counted_by (before ++ after)
      ≡ counted_by xs + counted_by (before ++ x ∷ after)
counted_by-move xs before after x = omega (
  arith,
  counted_by-append xs (x ∷ []),
  counted_by-append before after,
  counted_by-append before (x ∷ after),
)

length-move :
    (xs before after : List RotationEvent) (x : RotationEvent)
    → length (xs ++ x ∷ []) + length (before ++ after) ≡ length xs + length (before ++ x ∷ after)
length-move xs before after x =
    omega (
      arith,
      length-append xs (x ∷ []),
      length-append before after,
      length-append before (x ∷ after),
    )

begins-IsAccounted :
    (now : ℤ) (reason : RotationReason) (s : Rotations) (a : Account)
    → IsAccounted s a
    → IsAccounted
        (record s {
          scheduler = (begin_rotation now reason s.scheduler).0;
          waiting = s.waiting ++ (begin_rotation now reason s.scheduler).1 ∷ [];
        })
        (record a { doubled = a.doubled + a.seen; seen = s.scheduler.packet_count })
unfolding begin_rotation
begins-IsAccounted now reason s a h =
    let x = (begin_rotation now reason s.scheduler).1 in
    let there = h.all_there in
    let sums = h.balanced in
    let below = h.seen_of in
    record {
      numbered = λ n. omega (
        arith,
        h.numbered n,
        times-append n s.waiting (x ∷ []),
        taken-suc n s.scheduler.rotation_count,
      );
      all_there = omega (arith, length-append s.waiting (x ∷ []));
      seen_of = omega arith;
      balanced = omega (arith, counted_by-append s.waiting (x ∷ []));
      unseen = inl (append-nonempty s.waiting x);
    }

resets-IsAccounted :
    (now : ℤ) (before after : List RotationEvent) (x : RotationEvent) (s : Rotations) (a : Account)
    → s.waiting ≡ before ++ x ∷ after
    → IsAccounted s a
    → IsAccounted
        (record {
          scheduler = reset_counters now s.scheduler;
          waiting = before ++ after;
          cleared = s.cleared ++ x ∷ [];
        })
        (record a { lost = a.lost + (s.scheduler.packet_count - a.seen); seen = 0 })
unfolding reset_counters
resets-IsAccounted now before after x s a e h =
    let there = rw e at h.all_there in
    let sums = rw e at h.balanced in
    record {
      numbered =
          λ n. let k = rw e at h.numbered n in omega (arith, times-move n s.cleared before after x);
      all_there = omega (arith, length-move s.cleared before after x);
      seen_of = omega arith;
      balanced = omega (arith, counted_by-move s.cleared before after x);
      unseen = inr refl;
    }

logs-IsAccounted :
    (before after : List RotationEvent) (x : RotationEvent) (s : Rotations) (a : Account)
    → s.cleared ≡ before ++ x ∷ after
    → IsAccounted s a
    → IsAccounted (record s { scheduler = log_event x s.scheduler; cleared = before ++ after }) a
unfolding log_event
logs-IsAccounted before after x s a e h =
    let log = s.scheduler.rotation_log in
    let there = rw e at h.all_there in
    let sums = rw e at h.balanced in
    let below = h.seen_of in
    record {
      numbered =
          λ n. let k = rw e at h.numbered n in omega (arith, times-move n log before after x);
      all_there = omega (arith, length-move log before after x);
      seen_of = omega arith;
      balanced = omega (arith, counted_by-move log before after x);
      unseen = h.unseen;
    }

Step-IsAccounted :
    {s t : Rotations} {a b : Account} → IsAccounted s a → Step s a t b → IsAccounted t b
unfolding record_packet
Step-IsAccounted {s} {t} {a} {b} h records =
    let below = h.seen_of in
    let sums = h.balanced in
    record {
      numbered = h.numbered;
      all_there = h.all_there;
      seen_of = omega arith;
      balanced = omega arith;
      unseen = h.unseen;
    }
Step-IsAccounted {s} {t} {a} {b} h (begins now reason) = begins-IsAccounted now reason s a h
Step-IsAccounted {s} {t} {a} {b} h (resets now before after x e) =
    resets-IsAccounted now before after x s a e h
Step-IsAccounted {s} {t} {a} {b} h (logs before after x e) = logs-IsAccounted before after x s a e h

Steps-IsAccounted :
    {s : Rotations} {a : Account} {t : Rotations} {b : Account}
    → IsAccounted s a
    → Steps s a t b
    → IsAccounted t b
Steps-IsAccounted h no_step = h
Steps-IsAccounted h (one_more r x) = Step-IsAccounted (Steps-IsAccounted h r) x

-- `_do_rotation` with nothing in between is three of the steps.
pub do_rotation-Steps :
    (P : Primitives) (t : RotationClock) (private : Bytes) (reason : RotationReason)
    (e : CryptoEngine) (k : KeyScheduler) (a : Account)
    → (b : Account) × Steps (at_rest k) a (at_rest (do_rotation P t private reason e k).1) b
unfolding do_rotation reset_counters begin_rotation log_event
do_rotation-Steps P t private reason e k a =
    let x = (begin_rotation t.read_at reason k).1 in
    (
      _,
      one_more
          (one_more (one_more no_step (begins t.read_at reason)) (resets t.reset_at [] [] x refl))
          (logs [] [] x refl),
    )

-- From a new scheduler, whatever packets are recorded and whatever rotations run, one after the other or
-- at once: every number from 1 to the count of rotations is the number of exactly one rotation, logged
-- or under way, and no other number is one's. The packets that the events of all rotations count, with
-- those that a reset took away before they were read and those of the counter that no waiting rotation
-- has read, are the packets recorded and those that were read twice, by a rotation that began while
-- another was waiting for its reset. While none is waiting, nothing of the counter has been read.
pub Steps-new_scheduler :
    (id : String) (age packets now : ℤ) {s : Rotations} {a : Account}
    → Steps (at_rest (new_scheduler id age packets now)) no_packets s a
    → IsAccounted s a
Steps-new_scheduler id age packets now = Steps-IsAccounted (record {
  numbered = λ n. ground arith;
  all_there = omega arith;
  seen_of = omega arith;
  balanced = omega arith;
  unseen = inr refl;
})
