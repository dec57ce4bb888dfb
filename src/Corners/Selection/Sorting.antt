-- ===== src/Corners/Selection/Sorting.antt =====
-- The sorted lists of Corners.
use pitcrypt_f.Prelude.{
  All, All-append, Any, Bool, Bool-cases, List, [], false, inl, inr, true, ◌++◌, ◌∷◌, ◌≡◌, ◌⊎◌,
}
use pitcrypt_f.Corners.{insert_by, sorted_by}

-- No element comes before one that it follows.
abbrev pub IsSorted : {A : Type 0} (before : A → A → Bool) → List A → Type 0
IsSorted before [] = Unit
IsSorted before (x ∷ xs) = All (λ y. before y x ≡ false) xs × IsSorted before xs

-- A strict order whose incomparability is transitive.
pub record IsWeakOrder {A : Type 0} (before : A → A → Bool) : Type 0 where
  pub asymmetric : (x y : A) → before x y ≡ true → before y x ≡ false
  pub negative : (x y z : A) → before z y ≡ false → before y x ≡ false → before z x ≡ false

-- Each element has the symmetric relation to each that follows it.
abbrev pub Pairwise : {A : Type 0} (R : A → A → Type 0) → List A → Type 0
Pairwise R [] = Unit
Pairwise R (x ∷ xs) = All (λ y. R y x) xs × Pairwise R xs

pub All-map :
    {A : Type 0} {P Q : A → Type 0} (xs : List A) → ((x : A) → P x → Q x) → All P xs → All Q xs
All-map [] f h = tt
All-map (x ∷ xs) f (a, h) = (f x a, All-map xs f h)

pub Any-right : {A : Type 0} (P : A → Type 0) (xs : List A) (a : A) → P a → Any P (xs ++ a ∷ [])
Any-right P [] a h = inl h
Any-right P (x ∷ xs) a h = inr (Any-right P xs a h)

pub Any-left : {A : Type 0} (P : A → Type 0) (xs ys : List A) → Any P xs → Any P (xs ++ ys)
Any-left P [] ys h = absurd h
Any-left P (x ∷ xs) ys (inl h) = inl h
Any-left P (x ∷ xs) ys (inr h) = inr (Any-left P xs ys h)

pub Pairwise-right :
    {A : Type 0} (R : A → A → Type 0) (xs : List A) (a : A)
    → Pairwise R xs
    → All (λ x. R a x) xs
    → Pairwise R (xs ++ a ∷ [])
Pairwise-right R [] a h k = (tt, tt)
Pairwise-right R (x ∷ xs) a (p, h) (q, k) =
    (All-append (λ y. R y x) xs (a ∷ []) p (q, tt), Pairwise-right R xs a h k)

module _ {A : Type 0} (before : A → A → Bool) where
  All-insert_by :
      (P : A → Type 0) (x : A) (ys : List A) → P x → All P ys → All P (insert_by before x ys)
  unfolding insert_by
  All-insert_by P x [] h k = (h, tt)
  All-insert_by P x (y ∷ ys) h (k, r) = elim (Bool-cases (before y x)) [
    | inl e ↦ rw e (k, All-insert_by P x ys h r)
    | inr e ↦ rw e (h, (k, r))
  ]

  Any-insert_by :
      (P : A → Type 0) (x : A) (ys : List A) → P x ⊎ Any P ys → Any P (insert_by before x ys)
  unfolding insert_by
  Any-insert_by P x [] h = h
  Any-insert_by P x (y ∷ ys) h = elim (Bool-cases (before y x)) [
    | inl e ↦ rw e (elim h [
      | inl a ↦ inr (Any-insert_by P x ys (inl a))
      | inr (inl b) ↦ inl b
      | inr (inr b) ↦ inr (Any-insert_by P x ys (inr b))
    ])
    | inr e ↦ rw e h
  ]

  Pairwise-insert_by :
      (R : A → A → Type 0)
      → ((a b : A) → R a b → R b a)
      → (x : A) (ys : List A) → All (λ y. R y x) ys
      → Pairwise R ys
      → Pairwise R (insert_by before x ys)
  unfolding insert_by
  Pairwise-insert_by R flip x [] h k = (tt, tt)
  Pairwise-insert_by R flip x (y ∷ ys) (a, h) (b, k) = elim (Bool-cases (before y x)) [
    | inl e ↦
        rw e (All-insert_by (λ z. R z y) x ys (flip y x a) b, Pairwise-insert_by R flip x ys h k)
    | inr e ↦ rw e ((a, h), (b, k))
  ]

  IsSorted-insert_by :
      IsWeakOrder before
      → (x : A) (ys : List A) → IsSorted before ys
      → IsSorted before (insert_by before x ys)
  unfolding insert_by
  IsSorted-insert_by w x [] h = (tt, tt)
  IsSorted-insert_by w x (y ∷ ys) (b, h) = elim (Bool-cases (before y x)) [
    | inl e ↦ rw e (
      All-insert_by (λ z. before z y ≡ false) x ys (w.asymmetric y x e) b,
      IsSorted-insert_by w x ys h,
    )
    | inr e ↦ rw e ((e, All-map ys (λ z k. w.negative x y z k e) b), (b, h))
  ]

  pub All-sorted_by : (P : A → Type 0) (xs : List A) → All P xs → All P (sorted_by before xs)
  unfolding sorted_by
  All-sorted_by P [] h = h
  All-sorted_by P (x ∷ xs) (a, h) = All-insert_by P x (sorted_by before xs) a (All-sorted_by P xs h)

  pub Any-sorted_by : (P : A → Type 0) (xs : List A) → Any P xs → Any P (sorted_by before xs)
  unfolding sorted_by
  Any-sorted_by P [] h = h
  Any-sorted_by P (x ∷ xs) (inl h) = Any-insert_by P x (sorted_by before xs) (inl h)
  Any-sorted_by P (x ∷ xs) (inr h) =
      Any-insert_by P x (sorted_by before xs) (inr (Any-sorted_by P xs h))

  -- A property of every element of the sorted list is one of every element of the list.
  All-insert_by-back :
      (P : A → Type 0) (x : A) (ys : List A) → All P (insert_by before x ys) → P x × All P ys
  unfolding insert_by
  All-insert_by-back P x [] (h, k) = (h, tt)
  All-insert_by-back P x (y ∷ ys) h = elim (Bool-cases (before y x)) [
    | inl e ↦
        let (a, r) : P y × All P (insert_by before x ys) = rw e at h in
        let (b, c) = All-insert_by-back P x ys r in (b, (a, c))
    | inr e ↦ rw e at h
  ]

  pub All-sorted_by-back : (P : A → Type 0) (xs : List A) → All P (sorted_by before xs) → All P xs
  unfolding sorted_by
  All-sorted_by-back P [] h = h
  All-sorted_by-back P (x ∷ xs) h =
      let (a, b) = All-insert_by-back P x (sorted_by before xs) h in (a, All-sorted_by-back P xs b)

  pub Pairwise-sorted_by :
      (R : A → A → Type 0)
      → ((a b : A) → R a b → R b a)
      → (xs : List A) → Pairwise R xs
      → Pairwise R (sorted_by before xs)
  unfolding sorted_by
  Pairwise-sorted_by R flip [] h = tt
  Pairwise-sorted_by R flip (x ∷ xs) (a, h) =
      Pairwise-insert_by R flip x (sorted_by before xs) (All-sorted_by (λ y. R y x) xs a)
        (Pairwise-sorted_by R flip xs h)

  pub IsSorted-sorted_by :
      IsWeakOrder before → (xs : List A) → IsSorted before (sorted_by before xs)
  unfolding sorted_by
  IsSorted-sorted_by w [] = tt
  IsSorted-sorted_by w (x ∷ xs) =
      IsSorted-insert_by w x (sorted_by before xs) (IsSorted-sorted_by w xs)
