-- ===== src/Corners.antt =====
-- performance/corner_analysis.py, _select_non_overlapping_candidates: of the candidates for a corner the
-- most prominent ones, none close to another. Numbers are those of Anomaly. `sorted` is stable; its
-- insertion sort below gives the same list where `<` is a weak order, so where no number is NaN.
pub mod Selection
use pitcrypt_f.Prelude.{
  Bool, List, Option, [], false, if◌then◌else◌, ltb, none, some, suc, true, zero, ℕ, ◌++◌, ◌∷◌,
}
use pitcrypt_f.Anomaly.{Number}

pub record Candidate (N : Type 0) : Type 0 where
  pub apex_idx : ℕ
  pub prominence : N

-- `xs[i]` for an index that is not negative; none is the IndexError.
abbrev pub get_elem? {ℓ} : {A : Type ℓ} → List A → ℕ → Option A
get_elem? [] i = none
get_elem? (x ∷ xs) zero = some x
get_elem? (x ∷ xs) (suc i) = get_elem? xs i

module _ {ℓ} {A : Type ℓ} (before : A → A → Bool) where
  pub insert_by : A → List A → List A
  insert_by x [] = x ∷ []
  insert_by x (y ∷ ys) = if before y x then y ∷ insert_by x ys else x ∷ y ∷ ys

  -- `sorted`, where `before y x` is the comparison by the key.
  pub sorted_by : List A → List A
  sorted_by [] = []
  sorted_by (x ∷ xs) = insert_by x (sorted_by xs)

module _ {N : Type 0} (num : Number N) where
  -- The keys of the two sorts: the prominence in reverse, and the index.
  abbrev pub stronger : Candidate N → Candidate N → Bool
  stronger a b = num.below b.prominence a.prominence

  abbrev pub earlier : Candidate N → Candidate N → Bool
  earlier a b = ltb a.apex_idx b.apex_idx

  module _ (distances : List N) (min_separation : N) where
    -- The generator under `any`, which stops at the first candidate that is close.
    pub is_too_close : N → List (Candidate N) → Option Bool
    is_too_close d [] = some false
    is_too_close d (s ∷ selected) =
        let rest = is_too_close d selected in
        elim (get_elem? distances s.apex_idx) [
          | none ↦ none
          | some e ↦ if num.below (num.distance d e) min_separation then some true else rest
        ]

    -- The loop over the ranked candidates.
    pub select_ranked : List (Candidate N) → List (Candidate N) → Option (List (Candidate N))
    select_ranked [] selected = some selected
    select_ranked (c ∷ ranked) selected = elim (get_elem? distances c.apex_idx) [
      | none ↦ none
      | some d ↦ elim (is_too_close d selected) [
        | none ↦ none
        | some true ↦ select_ranked ranked selected
        | some false ↦ select_ranked ranked (selected ++ c ∷ [])
      ]
    ]

    pub select_non_overlapping_candidates : List (Candidate N) → Option (List (Candidate N))
    select_non_overlapping_candidates [] = some []
    select_non_overlapping_candidates (c ∷ cs) =
        elim (select_ranked (sorted_by stronger (c ∷ cs)) []) [
          | none ↦ none
          | some selected ↦ some (sorted_by earlier selected)
        ]
