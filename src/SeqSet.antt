-- ===== src/SeqSet.antt =====
-- The set of sequence numbers that a node has been seen to use, with its rolling window:
-- `_seen_seqs` of validator-node/src/sequence_checker.py and `_seen_sequences` of
-- relay-node/src/integrity_checker.py. A Python set of ints is a list without duplicates.
pub mod Laws
pub mod Order
use pitcrypt_f.Prelude.{
  Bool, List, [], contains, false, if◌then◌else◌, int_eq, keep, length, ltb, ltb_ℤ, not, pos, true,
  ℕ, ℤ, ◌++◌, ◌==◌, ◌∷◌,
}

pub record CheckResult (W E : Type 0) : Type 0 where
  pub passed : Bool
  pub warnings : List W
  pub errors : List E

module _ {W E : Type 0} where
  abbrev pub new_result : CheckResult W E
  new_result = record { passed = true; warnings = []; errors = [] }

  abbrev pub add_warning : W → CheckResult W E → CheckResult W E
  add_warning msg r = record r { warnings = r.warnings ++ msg ∷ [] }

  abbrev pub add_error : E → CheckResult W E → CheckResult W E
  add_error msg r = record r { errors = r.errors ++ msg ∷ []; passed = false }

abbrev pub set_add : ℤ → List ℤ → List ℤ
set_add a xs = if contains a xs then xs else a ∷ xs

abbrev pub discard : ℤ → List ℤ → List ℤ
discard a = keep (λ x. not (x == a))

-- `min(xs)`; of an empty set Python raises, and the code never asks.
pub minimum_from : ℤ → List ℤ → ℤ
minimum_from m [] = m
minimum_from m (x ∷ xs) = minimum_from (if ltb_ℤ x m then x else m) xs

abbrev pub minimum : List ℤ → ℤ
minimum [] = pos 0
minimum (x ∷ xs) = minimum_from x xs

-- Add, then drop the least element when there are more than `window`.
pub remember : ℕ → ℤ → List ℤ → List ℤ
remember window a xs =
    let ys = set_add a xs in if ltb window (length ys) then discard (minimum ys) ys else ys
