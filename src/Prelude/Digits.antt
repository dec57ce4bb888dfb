-- ===== src/Prelude/Digits.antt =====
-- Big-endian numbers in bytes, as `struct` packs them, and slices of joined byte strings.
use Prim.Native.Nat.{ℕ, zero, suc, ◌+◌, ◌*◌, ◌/◌, ◌%◌, ◌^◌, ◌<◌}
use mathlib.Core.Path.{◌≡◌, refl, ap}
use mathlib.Core.List.{List, [], ◌∷◌, ◌++◌}
use native.Mathlib.Nat.{pow-suc}
use native.Mathlib.Omega.{arith}
use pitcrypt_f.Prelude.Lists.{All, All-append, length, take, drop, length-append}

-- `n` in `k` bytes; what does not fit is cut off.
pub be : ℕ → ℕ → List ℕ
be zero n = []
be (suc k) n = be k (n / 256) ++ (n % 256) ∷ []

pub from_be : ℕ → List ℕ → ℕ
from_be acc [] = acc
from_be acc (b ∷ bs) = from_be (acc * 256 + b) bs

pub length-be : (k n : ℕ) → length (be k n) ≡ k
unfolding be
length-be zero n = refl
length-be (suc k) n =
    omega (arith, length-append (be k (n / 256)) ((n % 256) ∷ []), length-be k (n / 256))

pub All-be : (k n : ℕ) → All (λ b. b < 256) (be k n)
unfolding be
All-be zero n = tt
All-be (suc k) n =
    All-append (λ b. b < 256) (be k (n / 256)) ((n % 256) ∷ []) (All-be k (n / 256))
      (omega arith, tt)

from_be-snoc :
    (acc : ℕ) (bs : List ℕ) (b : ℕ) → from_be acc (bs ++ b ∷ []) ≡ from_be acc bs * 256 + b
unfolding from_be
from_be-snoc acc [] b = refl
from_be-snoc acc (x ∷ bs) b = from_be-snoc (acc * 256 + x) bs b

pub from_be-be : (k n : ℕ) → n < 256 ^ k → from_be 0 (be k n) ≡ n
unfolding be from_be
from_be-be zero n h = omega arith
from_be-be (suc k) n h =
    let small : n / 256 < 256 ^ k = omega (arith, pow-suc 256 k) in
    omega (arith, from_be-snoc 0 (be k (n / 256)) (n % 256), from_be-be k (n / 256) small)

module _ {ℓ} {A : Type ℓ} where
  pub take-append : (n : ℕ) (xs ys : List A) → length xs ≡ n → take n (xs ++ ys) ≡ xs
  take-append zero [] ys h = refl
  take-append zero (x ∷ xs) ys h = absurd (omega arith)
  take-append (suc n) [] ys h = absurd (omega arith)
  take-append (suc n) (x ∷ xs) ys h = ap (◌∷◌ x) (take-append n xs ys (omega arith))

  pub take_all : (xs : List A) → take (length xs) xs ≡ xs
  take_all [] = refl
  take_all (x ∷ xs) = ap (◌∷◌ x) (take_all xs)

  pub drop-append : (n : ℕ) (xs ys : List A) → length xs ≡ n → drop n (xs ++ ys) ≡ ys
  drop-append zero [] ys h = refl
  drop-append zero (x ∷ xs) ys h = absurd (omega arith)
  drop-append (suc n) [] ys h = absurd (omega arith)
  drop-append (suc n) (x ∷ xs) ys h = drop-append n xs ys (omega arith)

-- Reading a number that stands at the front.
pub take-be : (k n : ℕ) (rest : List ℕ) → take k (be k n ++ rest) ≡ be k n
take-be k n rest = take-append k (be k n) rest (length-be k n)

pub drop-be : (k n : ℕ) (rest : List ℕ) → drop k (be k n ++ rest) ≡ rest
drop-be k n rest = drop-append k (be k n) rest (length-be k n)
