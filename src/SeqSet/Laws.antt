-- ===== src/SeqSet/Laws.antt =====
-- The rolling window of seen sequence numbers: its size, and what it forgets.
use pitcrypt_f.Prelude.{
  All, Bool-cases, List, [], arith, contains, false, if◌then◌else◌, inl, inr, int_eq, int_eqb_iff,
  length, ltb, ltb_ℤ, not, refl, suc, true, ℕ, ℤ, ◌&&◌, ◌<ℤ◌, ◌<◌, ◌==◌, ◌∷◌, ◌≡◌, ◌≤ℤ◌, ◌≤◌,
}
use pitcrypt_f.SeqSet.{discard, minimum, minimum_from, remember, set_add}

-- `l` is below every element.
abbrev pub IsBelow : ℤ → List ℤ → Type 0
IsBelow l = All (λ x. l ≤ℤ x)

minimum_from-le : (m : ℤ) (xs : List ℤ) → minimum_from m xs ≤ℤ m
unfolding minimum_from
minimum_from-le m [] = omega arith
minimum_from-le m (x ∷ xs) = ground (arith, minimum_from-le (if ltb_ℤ x m then x else m) xs)

minimum_from-IsBelow : (m : ℤ) (xs : List ℤ) → IsBelow (minimum_from m xs) xs
unfolding minimum_from
minimum_from-IsBelow m [] = tt
minimum_from-IsBelow m (x ∷ xs) = (
  ground (arith, minimum_from-le (if ltb_ℤ x m then x else m) xs),
  minimum_from-IsBelow (if ltb_ℤ x m then x else m) xs,
)

pub minimum-IsBelow : (xs : List ℤ) → IsBelow (minimum xs) xs
minimum-IsBelow [] = tt
minimum-IsBelow (x ∷ xs) = (minimum_from-le x xs, minimum_from-IsBelow x xs)

contains-minimum_from : (m : ℤ) (xs : List ℤ) → contains (minimum_from m xs) (m ∷ xs) ≡ true
unfolding minimum_from
contains-minimum_from m [] = ground arith
contains-minimum_from m (x ∷ xs) =
    ground (arith, contains-minimum_from (if ltb_ℤ x m then x else m) xs)

pub contains-discard :
    (a b : ℤ) (xs : List ℤ) → contains b (discard a xs) ≡ (not (a == b) && contains b xs)
contains-discard a b [] = ground arith
contains-discard a b (x ∷ xs) =
    ground (arith, int_eqb_iff x a, int_eqb_iff x b, int_eqb_iff a b, contains-discard a b xs)

length-discard_le : (a : ℤ) (xs : List ℤ) → length (discard a xs) ≤ length xs
length-discard_le a [] = omega arith
length-discard_le a (x ∷ xs) = ground (arith, length-discard_le a xs)

length-discard_lt : (a : ℤ) (xs : List ℤ) → contains a xs ≡ true → length (discard a xs) < length xs
length-discard_lt a [] h = cc
length-discard_lt a (x ∷ xs) h = ground (arith, length-discard_lt a xs, length-discard_le a xs)

contains-minimum_add :
    (a : ℤ) (xs : List ℤ) → contains (minimum (set_add a xs)) (set_add a xs) ≡ true
contains-minimum_add a [] = contains-minimum_from a []
contains-minimum_add a (x ∷ xs) = elim (Bool-cases (contains a (x ∷ xs))) [
  | inl e ↦ rw e (contains-minimum_from x xs)
  | inr e ↦ rw e (contains-minimum_from a (x ∷ xs))
]

contains-set_add : (a : ℤ) (xs : List ℤ) → contains a (set_add a xs) ≡ true
contains-set_add a xs = ground (arith, int_eqb_iff a a)

contains-set_add_of :
    (a b : ℤ) (xs : List ℤ) → contains b xs ≡ true → contains b (set_add a xs) ≡ true
contains-set_add_of a b xs h = ground arith

length-set_add_le : (a : ℤ) (xs : List ℤ) → length (set_add a xs) ≤ suc (length xs)
length-set_add_le a xs = ground arith

-- The window never holds more than `window` numbers.
pub length-remember :
    (window : ℕ) (a : ℤ) (xs : List ℤ) → length xs ≤ window → length (remember window a xs) ≤ window
unfolding remember
length-remember window a xs h =
    let ys : List ℤ = set_add a xs in
    let small = length-set_add_le a xs in
    let less = length-discard_lt (minimum ys) ys (contains-minimum_add a xs) in
    elim (Bool-cases (ltb window (length ys))) [
      | inl e ↦ rw e (omega arith)
      | inr e ↦ rw e (ground arith)
    ]

-- What is in the set after adding, and is gone when the least is dropped, is the least.
remember_gone :
    (window : ℕ) (a b : ℤ) (xs : List ℤ)
    → contains b (set_add a xs) ≡ true
    → contains b (remember window a xs) ≡ false
    → (window < length (set_add a xs)) × (minimum (set_add a xs) ≡ b)
unfolding remember
remember_gone window a b xs h gone =
    let ys : List ℤ = set_add a xs in
    elim (Bool-cases (ltb window (length ys))) [
      | inl e ↦ (
        ground arith,
        (int_eqb_iff (minimum ys) b).0
            (ground (arith, contains-discard (minimum ys) b ys, rw e at gone)),
      )
      | inr e ↦ absurd (ground arith)
    ]

-- Adding forgets at most one number, and that one is below all others.
pub contains-remember :
    (window : ℕ) (a b : ℤ) (xs : List ℤ)
    → contains b xs ≡ true
    → contains b (remember window a xs) ≡ false
    → IsBelow b (set_add a xs)
contains-remember window a b xs h gone =
    let (_, e) = remember_gone window a b xs (contains-set_add_of a b xs h) gone in
    rw e at (minimum-IsBelow (set_add a xs))

-- The number just added stays, unless the window was full and the number is below all in it.
pub contains-remember_self :
    (window : ℕ) (a : ℤ) (xs : List ℤ)
    → contains a (remember window a xs) ≡ false
    → (window ≤ length xs) × IsBelow a (set_add a xs)
contains-remember_self window a xs gone =
    let (full, e) = remember_gone window a a xs (contains-set_add a xs) gone in
    (omega (arith, length-set_add_le a xs), rw e at (minimum-IsBelow (set_add a xs)))

pub contains_above : (a : ℤ) (xs : List ℤ) → All (λ x. a <ℤ x) xs → contains a xs ≡ false
contains_above a [] h = refl
contains_above a (x ∷ xs) h = ground (arith, contains_above a xs h.1)

minimum_from_above : (a : ℤ) (xs : List ℤ) → All (λ x. a <ℤ x) xs → minimum_from a xs ≡ a
unfolding minimum_from
minimum_from_above a [] h = refl
minimum_from_above a (x ∷ xs) h = ground (arith, minimum_from_above a xs h.1)

discard_above : (a : ℤ) (xs : List ℤ) → All (λ x. a <ℤ x) xs → discard a xs ≡ xs
discard_above a [] h = refl
discard_above a (x ∷ xs) h = ground (arith, discard_above a xs h.1)

-- Into a full window a number below all in it is not taken.
pub remember_below :
    (window : ℕ) (a : ℤ) (xs : List ℤ)
    → length xs ≡ window
    → All (λ x. a <ℤ x) xs
    → remember window a xs ≡ xs
unfolding remember
remember_below window a xs full below = ground (
  arith,
  contains_above a xs below,
  minimum_from_above a xs below,
  discard_above a xs below,
  int_eqb_iff a a,
)
