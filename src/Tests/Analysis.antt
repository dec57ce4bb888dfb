-- ===== src/Tests/Analysis.antt =====
-- The theorems on the analysis of performance, applied.
use pitcrypt_f.Prelude.{
  List, [], arith, if◌then◌else◌, ltb, negsuc, pos, refl, some, ℕ, ℤ, ◌-◌, ◌∷◌, ◌≡◌,
}
use pitcrypt_f.Anomaly.{Number}
use pitcrypt_f.Corners.{Candidate, select_non_overlapping_candidates}
use pitcrypt_f.Corners.Selection.{IsSelection, select_non_overlapping_candidates-IsSelection}
use pitcrypt_f.Corners.Selection.Sorting.{IsWeakOrder}

abbrev int_or_zero : ℤ → ℕ
int_or_zero (pos n) = n
int_or_zero (negsuc n) = 0

abbrev natural_num : Number ℕ
natural_num = record {
  below = ltb;
  distance = λ a b. if ltb a b then b - a else a - b;
  of_int = int_or_zero;
}

natural_num-IsWeakOrder : IsWeakOrder natural_num.below
natural_num-IsWeakOrder = record {
  asymmetric = λ x y h. ground arith;
  negative = λ x y z h k. ground arith;
}

natural_num-symmetric : (a b : ℕ) → natural_num.distance a b ≡ natural_num.distance b a
natural_num-symmetric a b = ground arith

-- Two candidates in one braking zone and one far away, by the distances of four samples.
abbrev braking : List (Candidate ℕ)
braking =
    record { apex_idx = 0; prominence = 7 }
    ∷ record { apex_idx = 1; prominence = 9 }
    ∷ record { apex_idx = 3; prominence = 8 }
    ∷ []

abbrev sample_distances : List ℕ
sample_distances = 100 ∷ 120 ∷ 200 ∷ 400 ∷ []

select_non_overlapping_candidates-IsSelection_example :
    (out : List (Candidate ℕ)) × (select_non_overlapping_candidates natural_num sample_distances 50
        braking
      ≡ some out)
    × IsSelection natural_num sample_distances 50 braking out
select_non_overlapping_candidates-IsSelection_example =
    select_non_overlapping_candidates-IsSelection natural_num sample_distances 50
      natural_num-IsWeakOrder natural_num-symmetric braking
      ((100, refl), ((120, refl), ((400, refl), tt)))
