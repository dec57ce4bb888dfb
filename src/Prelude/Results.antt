-- ===== src/Prelude/Results.antt =====
-- A call that returns or raises.
use mathlib.Core.Path.{◌≡◌, refl}
use mathlib.Core.Logic.{◌⊎◌, inl, inr}

pub data Result {ℓ κ} (E : Type ℓ) (A : Type κ) : Type (ℓ ⊔ κ) where
  returned : A → Result E A
  raised : E → Result E A

pub Result-cases {ℓ κ} :
    {E : Type ℓ} {A : Type κ} (r : Result E A)
    → ((a : A) × (r ≡ returned a)) ⊎ ((e : E) × (r ≡ raised e))
Result-cases (returned a) = inl (a, refl)
Result-cases (raised e) = inr (e, refl)
