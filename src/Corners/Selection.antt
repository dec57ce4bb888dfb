-- ===== src/Corners/Selection.antt =====
-- What the selection of corners (performance/corner_analysis.py) chooses.
pub mod Sorting
use pitcrypt_f.Prelude.{
  All, All-append, Any, Bool-cases, List, [], arith, false, inl, inr, refl, some, true, ◌++◌, ◌∙◌,
  ◌∷◌, ◌≡◌, ◌⊎◌,
}
use pitcrypt_f.Anomaly.{Number}
use pitcrypt_f.Corners.{
  Candidate, earlier, get_elem?, is_too_close, select_non_overlapping_candidates, select_ranked,
  sorted_by, stronger,
}
use pitcrypt_f.Corners.Selection.Sorting.{
  All-map, All-sorted_by, All-sorted_by-back, Any-left, Any-right, Any-sorted_by, IsSorted,
  IsSorted-sorted_by, IsWeakOrder, Pairwise, Pairwise-right, Pairwise-sorted_by,
}

module _ {N : Type 0} (num : Number N) (distances : List N) (min_separation : N) where
  -- The candidate's sample has a distance.
  abbrev pub IsInRange : Candidate N → Type 0
  IsInRange c = (d : N) × (get_elem? distances c.apex_idx ≡ some d)

  -- The distances of two candidates differ by less than the separation.
  abbrev pub IsClose : Candidate N → Candidate N → Type 0
  IsClose a b =
      (d : N) × (e : N) × (get_elem? distances a.apex_idx ≡ some d)
      × (get_elem? distances b.apex_idx ≡ some e)
      × (num.below (num.distance d e) min_separation ≡ true)

  abbrev pub IsApart : Candidate N → Candidate N → Type 0
  IsApart a b = ¬ IsClose a b

  -- The candidate is the chosen one, or is close to it and not more prominent.
  abbrev pub IsCoveredBy : Candidate N → Candidate N → Type 0
  IsCoveredBy c s = (c ≡ s) ⊎ (IsClose c s × (num.below s.prominence c.prominence ≡ false))

  is_too_close-cases :
      (c : Candidate N) (d : N) (ss : List (Candidate N))
      → get_elem? distances c.apex_idx ≡ some d
      → All IsInRange ss
      → ((is_too_close num distances min_separation d ss ≡ some true) × Any (IsClose c) ss)
        ⊎ ((is_too_close num distances min_separation d ss ≡ some false) × All (IsApart c) ss)
  unfolding is_too_close
  is_too_close-cases c d [] h k = inr (refl, tt)
  is_too_close-cases c d (s ∷ ss) h ((e, j), k) =
      elim (Bool-cases (num.below (num.distance d e) min_separation)) [
        | inl b ↦ inl (rw (j, b, is_too_close) refl, inl (d, e, h, j, b))
        | inr b ↦
            let apart : IsApart c s = λ (d', e', h', j', b'). ground arith in
            elim (is_too_close-cases c d ss h k) [
              | inl (r, a) ↦ inl (rw (j, b, is_too_close) r, inr a)
              | inr (r, a) ↦ inr (rw (j, b, is_too_close) r, (apart, a))
            ]
      ]

  -- What the loop makes of the candidates that are left and those that are selected.
  record Selects (ranked selected out : List (Candidate N)) : Type 1 where
    keeps : (P : Candidate N → Type 0) → Any P selected → Any P out
    chosen : (P : Candidate N → Type 0) → All P ranked → All P selected → All P out
    apart : Pairwise IsApart out
    covers : All (λ c. Any (IsCoveredBy c) out) ranked

  select_ranked-step :
      (c : Candidate N) (ranked selected : List (Candidate N))
      → IsInRange c
      → All IsInRange selected
      → (Any (IsClose c) selected
          × (select_ranked num distances min_separation (c ∷ ranked) selected
              ≡ select_ranked num distances min_separation ranked selected))
        ⊎ (All (IsApart c) selected
            × (select_ranked num distances min_separation (c ∷ ranked) selected
                ≡ select_ranked num distances min_separation ranked (selected ++ c ∷ [])))
  unfolding select_ranked
  select_ranked-step c ranked selected (d, h) k = elim (is_too_close-cases c d selected h k) [
    | inl (r, a) ↦ inl (a, rw (h, r, select_ranked) refl)
    | inr (r, a) ↦ inr (a, rw (h, r, select_ranked) refl)
  ]

  -- A selected candidate that is close covers, being ranked before.
  Any-covers :
      (c : Candidate N) (selected : List (Candidate N))
      → All (λ s. num.below s.prominence c.prominence ≡ false) selected
      → Any (IsClose c) selected
      → Any (IsCoveredBy c) selected
  Any-covers c [] h k = absurd k
  Any-covers c (s ∷ ss) (h, hs) (inl k) = inl (inr (k, h))
  Any-covers c (s ∷ ss) (h, hs) (inr k) = inr (Any-covers c ss hs k)

  -- Every selected candidate is at least as prominent as every one that is left.
  abbrev IsAbove : List (Candidate N) → List (Candidate N) → Type 0
  IsAbove selected ranked =
      All (λ c. All (λ s. num.below s.prominence c.prominence ≡ false) selected) ranked

  IsAbove-nil : (ranked : List (Candidate N)) → IsAbove [] ranked
  IsAbove-nil [] = tt
  IsAbove-nil (r ∷ ranked) = (tt, IsAbove-nil ranked)

  IsAbove-right :
      (c : Candidate N) (selected ranked : List (Candidate N))
      → IsAbove selected ranked
      → All (λ y. stronger num y c ≡ false) ranked
      → IsAbove (selected ++ c ∷ []) ranked
  IsAbove-right c selected [] h k = tt
  IsAbove-right c selected (r ∷ ranked) (a, h) (b, k) = (
    All-append (λ s. num.below s.prominence r.prominence ≡ false) selected (c ∷ []) a (b, tt),
    IsAbove-right c selected ranked h k,
  )

  select_ranked-Selects :
      (ranked selected : List (Candidate N))
      → All IsInRange ranked
      → All IsInRange selected
      → IsSorted (stronger num) ranked
      → IsAbove selected ranked
      → Pairwise IsApart selected
      → (out : List (Candidate N)) × (select_ranked num distances min_separation ranked selected
          ≡ some out)
        × Selects ranked selected out
  unfolding select_ranked
  select_ranked-Selects [] selected h k o a p =
      (selected, refl, record { keeps = λ P x. x; chosen = λ P x y. y; apart = p; covers = tt })
  select_ranked-Selects (c ∷ ranked) selected (i, h) k (b, o) (a, above) p =
      elim (select_ranked-step c ranked selected i k) [
        | inl (close, e) ↦
            let (out, r, s) = select_ranked-Selects ranked selected h k o above p in
            (
              out,
              e ∙ r,
              record {
                keeps = s.keeps;
                chosen = λ P (x, xs) y. s.chosen P xs y;
                apart = s.apart;
                covers = (s.keeps (IsCoveredBy c) (Any-covers c selected a close), s.covers);
              },
            )
        | inr (far, e) ↦
            let more = selected ++ c ∷ [] in
            let (out, r, s) =
              select_ranked-Selects ranked more h (All-append IsInRange selected (c ∷ []) k (i, tt))
                o (IsAbove-right c selected ranked above b)
                (Pairwise-right IsApart selected c p far) in
            (
              out,
              e ∙ r,
              record {
                keeps = λ P x. s.keeps P (Any-left P selected (c ∷ []) x);
                chosen = λ P (x, xs) y. s.chosen P xs (All-append P selected (c ∷ []) y (x, tt));
                apart = s.apart;
                covers = (
                  s.keeps (IsCoveredBy c) (Any-right (IsCoveredBy c) selected c (inl refl)),
                  s.covers,
                );
              },
            )
      ]

  -- What is returned for the candidates.
  pub record IsSelection (candidates out : List (Candidate N)) : Type 0 where
    pub separated : Pairwise IsApart out
    pub in_order : IsSorted (earlier num) out
    pub from : All (λ s. Any (λ c. c ≡ s) candidates) out
    pub covering : All (λ c. Any (IsCoveredBy c) out) candidates

  All-self : {A : Type 0} (xs : List A) → All (λ s. Any (λ c. c ≡ s) xs) xs
  All-self [] = tt
  All-self (x ∷ xs) = (inl refl, All-map xs (λ y h. inr h) (All-self xs))

  stronger-IsWeakOrder : IsWeakOrder num.below → IsWeakOrder (stronger num)
  stronger-IsWeakOrder w = record {
    asymmetric = λ x y. w.asymmetric y.prominence x.prominence;
    negative = λ x y z h k. w.negative z.prominence y.prominence x.prominence k h;
  }

  earlier-IsWeakOrder : IsWeakOrder (earlier num)
  earlier-IsWeakOrder = record {
    asymmetric = λ x y h. ground arith;
    negative = λ x y z h k. ground arith;
  }

  -- If the numbers are weakly ordered and their distance is symmetric, and every candidate's index is
  -- within the distances, the selection returns. What it returns consists of candidates, in the order
  -- of their indices, no two of them closer than the separation, and every candidate is among them or
  -- is closer than the separation to one of them that is not less prominent.
  pub select_non_overlapping_candidates-IsSelection :
      (w : IsWeakOrder num.below) (symmetric : (a b : N) → num.distance a b ≡ num.distance b a)
      (candidates : List (Candidate N))
      → All IsInRange candidates
      → (out : List (Candidate N)) × (select_non_overlapping_candidates num distances min_separation
            candidates
          ≡ some out)
        × IsSelection candidates out
  unfolding select_non_overlapping_candidates
  select_non_overlapping_candidates-IsSelection w symmetric [] h =
      ([], refl, record { separated = tt; in_order = tt; from = tt; covering = tt })
  select_non_overlapping_candidates-IsSelection w symmetric (c ∷ cs) h =
      let candidates = c ∷ cs in
      let ranked = sorted_by (stronger num) candidates in
      let is_from : Candidate N → Type 0 = λ s. Any (λ x. x ≡ s) candidates in
      let (selected, r, s) =
        select_ranked-Selects ranked [] (All-sorted_by (stronger num) IsInRange candidates h) tt
          (IsSorted-sorted_by (stronger num) (stronger-IsWeakOrder w) candidates)
          (IsAbove-nil ranked) tt in
      let out = sorted_by (earlier num) selected in
      (
        out,
        rw (r, select_non_overlapping_candidates) refl,
        record {
          separated =
              Pairwise-sorted_by (earlier num) IsApart
                (λ a b f (d, e, h1, h2, h3). f (e, d, h2, h1, rw (symmetric e d) h3)) selected
                s.apart;
          in_order = IsSorted-sorted_by (earlier num) earlier-IsWeakOrder selected;
          from = All-sorted_by (earlier num) is_from selected (
              s.chosen is_from
                (All-sorted_by (stronger num) is_from candidates (All-self candidates)) tt);
          covering =
              All-map candidates (λ x k. Any-sorted_by (earlier num) (IsCoveredBy x) selected k)
                (All-sorted_by-back (stronger num) (λ x. Any (IsCoveredBy x) selected) candidates
                  s.covers);
        },
      )
