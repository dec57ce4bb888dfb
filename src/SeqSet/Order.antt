-- ===== src/SeqSet/Order.antt =====
-- Sequences of accepted sequence numbers, shared by the checkers of the relay and the validator.
use pitcrypt_f.Prelude.{
  Bool, List, [], arith, false, if◌then◌else◌, refl, true, ℤ, ◌<ℤ◌, ◌∷◌, ◌≡◌, ◌≤ℤ◌,
}

-- Each number is greater than the one before it.
abbrev pub IncreasingFrom : ℤ → List ℤ → Type 0
IncreasingFrom l [] = Unit
IncreasingFrom l (x ∷ xs) = (l <ℤ x) × IncreasingFrom x xs

pub IncreasingFrom-step :
    (b : Bool) (l l' x : ℤ) (rest : List ℤ)
    → l' ≡ (if b then x else l)
    → (b ≡ true → l <ℤ x)
    → IncreasingFrom l' rest
    → IncreasingFrom l (if b then x ∷ rest else rest)
IncreasingFrom-step true l l' x rest e lt h = (lt refl, rw e at h)
IncreasingFrom-step false l l' x rest e lt h = rw e at h

pub IncreasingFrom-weaken :
    (l l' : ℤ) (xs : List ℤ) → l ≤ℤ l' → IncreasingFrom l' xs → IncreasingFrom l xs
IncreasingFrom-weaken l l' [] h k = tt
IncreasingFrom-weaken l l' (x ∷ xs) h (a, k) = (omega arith, k)
