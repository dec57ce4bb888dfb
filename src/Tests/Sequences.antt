-- ===== src/Tests/Sequences.antt =====
-- The theorems on the validator's sequence checker, applied.
use pitcrypt_f.Prelude.{
  All, List, [], arith, false, length, pos, refl, some, suc, true, zero, ℕ, ℤ, ◌+◌, ◌<ℤ◌, ◌<◌, ◌∷◌,
  ◌≡◌,
}
use pitcrypt_f.Packet.{Packet}
use pitcrypt_f.SeqSet.Order.{IncreasingFrom}
use pitcrypt_f.Sequence.{ValidatorSequenceChecker, check, new_checker, node_state, replay_window}
use pitcrypt_f.Sequence.Ordering.{accepted_seqs, accepted_seqs-new_checker, run_checks}
use pitcrypt_f.Sequence.Verdict.{Acceptable, check-passed}
use pitcrypt_f.Sequence.Window.{IsBounded, check-replay_passes, run_checks-new_checker}
use pitcrypt_f.Tests.{car_packet, strict_checker}

accepted_seqs-new_checker_example :
    IncreasingFrom
      (pos 0)
      (accepted_seqs "mercedes_car" ((pos 9, car_packet) ∷ (pos 9, car_packet) ∷ []) strict_checker)
accepted_seqs-new_checker_example =
    accepted_seqs-new_checker "mercedes_car" "fia" (pos 60000) (pos 1000) false
      ((pos 9, car_packet) ∷ (pos 9, car_packet) ∷ [])

car_packet-Acceptable :
    Acceptable strict_checker
      (node_state "mercedes_car" (pos 9) strict_checker)
      (pos 7)
      (pos 0)
      (pos 9)
car_packet-Acceptable = record {
  positive = omega arith;
  unseen = refl;
  ordered = λ _ h. absurd (omega arith);
  fresh = λ h. absurd (ground arith);
}

check-passed_example : (check (pos 9) car_packet strict_checker).1.passed ≡ true
check-passed_example = (check-passed (pos 9) car_packet strict_checker).1 car_packet-Acceptable

car_packet_passes : (check (pos 9) car_packet strict_checker).1.passed ≡ true
car_packet_passes = (check-passed (pos 9) car_packet strict_checker).1 car_packet-Acceptable

run_checks-new_checker_example :
    IsBounded replay_window (run_checks ((pos 9, car_packet) ∷ []) strict_checker)
run_checks-new_checker_example =
    run_checks-new_checker "fia" (pos 60000) (pos 1000) false true ((pos 9, car_packet) ∷ [])

window_positive : 0 < replay_window
unfolding replay_window
window_positive = omega arith

-- A full window of numbers above 1.
countdown : ℕ → List ℤ
countdown zero = []
countdown (suc n) = pos (n + 2) ∷ countdown n

length-countdown : (n : ℕ) → length (countdown n) ≡ n
unfolding countdown
length-countdown zero = refl
length-countdown (suc n) = omega (arith, length-countdown n)

countdown_above : (n : ℕ) → All (λ x. pos 1 <ℤ x) (countdown n)
unfolding countdown
countdown_above zero = tt
countdown_above (suc n) = (omega arith, countdown_above n)

abbrev full_checker : ValidatorSequenceChecker
full_checker = record (new_checker "fia" (pos 60000) (pos 1000) false false) {
  nodes =
      (
        "mercedes_car",
        record { last_seq = pos 50001; seen_seqs = countdown replay_window; first_seen = pos 0 },
      )
      ∷ [];
}

abbrev old_packet : Packet ℕ
old_packet = record car_packet { sequence_no = some (pos 1) }

check-replay_passes_example :
    ((check (pos 9) old_packet full_checker).1.passed ≡ true)
    × ((check (pos 10) old_packet (check (pos 9) old_packet full_checker).0).1.passed ≡ true)
check-replay_passes_example =
    check-replay_passes (pos 9) (pos 10) old_packet full_checker refl refl (omega arith)
      (length-countdown replay_window) (countdown_above replay_window)
