-- ===== src/Prelude/Lists.antt =====
-- Lists measured by native numbers, membership as a Boolean test, predicates by recursion.
use Prim.Native.Nat.{ℕ, zero, suc, ◌+◌, ◌-◌, ◌≤◌}
use mathlib.Core.Path.{◌≡◌, refl}
use mathlib.Core.Logic.{◌⊎◌, ◌↔◌, inl, inr}
use mathlib.Core.Bool.{Bool, true, false, ◌||◌, ◌&&◌}
use mathlib.Core.List.{List, [], ◌∷◌, ◌++◌}
use native.Mathlib.Omega.{arith}
use pitcrypt_f.Prelude.Tests.{if◌then◌else◌, Equatable, ◌==◌, nat_eqb}

module _ {ℓ} {A : Type ℓ} where
  abbrev pub length : List A → ℕ
  length [] = 0
  length (x ∷ xs) = suc (length xs)

  abbrev pub take : ℕ → List A → List A
  take zero xs = []
  take (suc n) [] = []
  take (suc n) (x ∷ xs) = x ∷ take n xs

  abbrev pub drop : ℕ → List A → List A
  drop zero xs = xs
  drop (suc n) [] = []
  drop (suc n) (x ∷ xs) = drop n xs

  -- A list comprehension's filter; the test is Boolean, as in the source.
  abbrev pub keep : (A → Bool) → List A → List A
  keep p [] = []
  keep p (x ∷ xs) = if p x then x ∷ keep p xs else keep p xs

  abbrev pub any : (A → Bool) → List A → Bool
  any p [] = false
  any p (x ∷ xs) = p x || any p xs

  pub length-append : (xs ys : List A) → length (xs ++ ys) ≡ length xs + length ys
  length-append [] ys = omega arith
  length-append (x ∷ xs) ys = omega (arith, length-append xs ys)

module _ {ℓ} {A : Type ℓ} where
  pub length-take : (n : ℕ) (xs : List A) → n ≤ length xs → length (take n xs) ≡ n
  length-take zero xs h = omega arith
  length-take (suc n) [] h = omega arith
  length-take (suc n) (x ∷ xs) h = omega (arith, length-take n xs)

  pub length-drop : (n : ℕ) (xs : List A) → length (drop n xs) ≡ length xs - n
  length-drop zero xs = omega arith
  length-drop (suc n) [] = omega arith
  length-drop (suc n) (x ∷ xs) = omega (arith, length-drop n xs)

  pub keep-append : (p : A → Bool) (xs ys : List A) → keep p (xs ++ ys) ≡ keep p xs ++ keep p ys
  keep-append p [] ys = refl
  keep-append p (x ∷ xs) ys = ground (arith, keep-append p xs ys)

-- `==` on byte strings.
pub bytes_eqb : List ℕ → List ℕ → Bool
bytes_eqb [] [] = true
bytes_eqb (x ∷ xs) (y ∷ ys) = nat_eqb x y && bytes_eqb xs ys
bytes_eqb _ _ = false

pub bytes_eqb_sound : (xs ys : List ℕ) → bytes_eqb xs ys ≡ true → xs ≡ ys
unfolding bytes_eqb
bytes_eqb_sound [] [] h = refl
bytes_eqb_sound [] (y ∷ ys) h = cc
bytes_eqb_sound (x ∷ xs) [] h = cc
bytes_eqb_sound (x ∷ xs) (y ∷ ys) h = ground (arith, bytes_eqb_sound xs ys)

pub bytes_eqb_refl : (xs : List ℕ) → bytes_eqb xs xs ≡ true
unfolding bytes_eqb
bytes_eqb_refl [] = refl
bytes_eqb_refl (x ∷ xs) = ground (arith, bytes_eqb_refl xs)

-- `x in xs`.
abbrev pub contains {κ} : {V : Type κ} ⦃inst : Equatable V⦄ → V → List V → Bool
contains v [] = false
contains v (x ∷ xs) = x == v || contains v xs

-- A predicate of every element, and of some.
abbrev pub All {κ ℓ} : {V : Type κ} → (V → Type ℓ) → List V → Type ℓ
All Q [] = Unit
All Q (v ∷ vs) = Q v × All Q vs

pub All-append {κ ℓ} :
    {V : Type κ} (Q : V → Type ℓ) (xs ys : List V) → All Q xs → All Q ys → All Q (xs ++ ys)
All-append Q [] ys h k = k
All-append Q (x ∷ xs) ys (a, h) k = (a, All-append Q xs ys h k)

abbrev pub Any {ℓ} : {A : Type ℓ} → (A → Type 0) → List A → Type 0
Any P [] = ⊥
Any P (x ∷ xs) = P x ⊎ Any P xs

-- A Boolean search finds what it is a test for.
pub any-Any {ℓ} :
    {A : Type ℓ} (p : A → Bool) {P : A → Type 0} (xs : List A)
    → ((x : A) → (p x ≡ true) ↔ P x)
    → (any p xs ≡ true) ↔ Any P xs
any-Any p [] h = (λ e. ground arith, λ e. absurd e)
any-Any p (x ∷ xs) h =
    let (f, g) = any-Any p xs h in
    let (a, b) = h x in (λ e. ground (arith, a, b, f, g), λ e. ground (arith, a, b, f, g))

pub any-All {ℓ κ} :
    {A : Type ℓ} (p : A → Bool) {P : A → Type κ} (xs : List A)
    → ((x : A) → (p x ≡ false) ↔ P x)
    → (any p xs ≡ false) ↔ All P xs
any-All p [] h = (λ e. tt, λ e. refl)
any-All p (x ∷ xs) h =
    let (f, g) = any-All p xs h in
    let (a, b) = h x in
    (
      λ e. (a (ground arith), f (ground arith)),
      λ (k, r). let u = b k in let v = g r in ground arith,
    )

pub Any-none {ℓ} : {A : Type ℓ} {P : A → Type 0} (xs : List A) → ((x : A) → ¬ P x) → ¬ Any P xs
Any-none [] h e = absurd e
Any-none (x ∷ xs) h (inl e) = h x e
Any-none (x ∷ xs) h (inr e) = Any-none xs h e
