-- ===== src/Tests/Relay.antt =====
-- The theorems on the relay's integrity checker, applied.
use pitcrypt_f.Prelude.{[], arith, pos, refl, true, ◌∷◌, ◌≡◌}
use pitcrypt_f.Integrity.{check}
use pitcrypt_f.Integrity.Ordering.{accepted_seqs, accepted_seqs-new_integrity}
use pitcrypt_f.Integrity.Verdict.{check-IsIntact}
use pitcrypt_f.SeqSet.Order.{IncreasingFrom}
use pitcrypt_f.Tests.{car_packet, relay_checker}

check-IsIntact_example : (check (pos 9) car_packet relay_checker).1.passed ≡ true
check-IsIntact_example = (check-IsIntact (pos 9) car_packet relay_checker).1 (record {
  positive = omega arith;
  unseen = refl;
  ordered = λ h. absurd (omega arith);
  fresh = λ _ h. absurd (omega arith);
  has_sig = λ _. refl;
})

accepted_seqs-new_integrity_example :
    IncreasingFrom
      (pos 0)
      (accepted_seqs "mercedes_car" ((pos 9, car_packet) ∷ (pos 9, car_packet) ∷ []) relay_checker)
accepted_seqs-new_integrity_example =
    accepted_seqs-new_integrity "mercedes_car" "relay_01" (pos 30000) (pos 100) true true
      ((pos 9, car_packet) ∷ (pos 9, car_packet) ∷ [])
