-- ===== src/Anomaly/Laws.antt =====
-- Which packets the anomaly filter rejects, and how it counts (relay-node/src/anomaly_filters.py).
use pitcrypt_f.Prelude.{
  Any, Bool, Bool-cases, Dict, List, Option-cases, String, [], any, any-Any, arith, false, inl, inr,
  lookup, none, or_default, some, true, ℤ, ◌||◌, ◌↔◌, ◌∷◌, ◌≡◌, ◌⊎◌,
}
use pitcrypt_f.Anomaly.{
  AnomalyFilter, AnomalyResult, Number, Threshold, add_violation, channels, check_anomaly,
  check_change, check_channel, check_channels, check_threshold, escalate, get_thresholds,
  is_rejected, new_anomaly, out_of_limits, physical_limits,
}
use pitcrypt_f.Packet.{Packet}

module _ {N : Type 0} (num : Number N) where
  -- A channel of a payload is out of its physical limits.
  pub record IsImpossible (payload : Dict N) (ch : String) : Type 0 where
    pub value : N
    pub lo : ℤ
    pub hi : ℤ
    pub present : lookup ch payload ≡ some value
    pub limited : lookup ch physical_limits ≡ some (lo, hi)
    pub outside :
        (num.below value (num.of_int lo) ≡ true) ⊎ (num.below (num.of_int hi) value ≡ true)

  or_iff : (a b : Bool) → (a || b ≡ true) ↔ ((a ≡ true) ⊎ (b ≡ true))
  or_iff a b = (λ h. ground arith, λ h. ground arith)

  abbrev impossible : Dict N → String → Bool
  impossible payload ch = elim (lookup ch payload) [
    | none ↦ false
    | some v ↦ out_of_limits num ch v
  ]

  impossible_iff :
      (payload : Dict N) (ch : String) → (impossible payload ch ≡ true) ↔ IsImpossible payload ch
  impossible_iff payload ch = elim (Option-cases (lookup ch payload)) [
    | inl e ↦ (λ h. absurd (ground arith), λ k. absurd (let x = k.present in ground arith))
    | inr (v, e) ↦ elim (Option-cases (lookup ch physical_limits)) [
      | inl x ↦ (λ h. absurd (ground arith), λ k. absurd (let y = k.limited in ground arith))
      | inr ((lo, hi), x) ↦ (
        λ h. record {
          value = v;
          lo = lo;
          hi = hi;
          present = e;
          limited = x;
          outside = (or_iff _ _).0 (
              let h' : num.below v (num.of_int lo) || num.below (num.of_int hi) v ≡ true =
                ground arith in
              h');
        },
        λ k. (ground arith),
      )
    ]
  ]

  is_rejected-check_threshold :
      (ch : String) (v : N) (ts : Dict (Threshold N)) (r : AnomalyResult N)
      → is_rejected (check_threshold num ch v ts r).severity ≡ is_rejected r.severity
  unfolding check_threshold add_violation escalate
  is_rejected-check_threshold ch v ts r = ground arith

  is_rejected-check_change :
      (ch : String) (v : N) (last : Dict N) (r : AnomalyResult N)
      → is_rejected (check_change num ch v last r).severity ≡ is_rejected r.severity
  unfolding check_change add_violation escalate
  is_rejected-check_change ch v last r = ground arith

  is_rejected-check_channel :
      (payload : Dict N) (ts : Dict (Threshold N)) (last : Dict N) (ch : String)
      (r : AnomalyResult N)
      → is_rejected (check_channel num payload ts last ch r).severity
        ≡ (is_rejected r.severity || impossible payload ch)
  unfolding check_channel add_violation escalate
  is_rejected-check_channel payload ts last ch r = elim (Option-cases (lookup ch payload)) [
    | inl e ↦ ground arith
    | inr (v, e) ↦
        let a = is_rejected-check_threshold ch v ts r in
        let b = is_rejected-check_change ch v last (check_threshold num ch v ts r) in
        elim (Bool-cases (out_of_limits num ch v)) [ inl h ↦ ground arith | inr h ↦ ground arith ]
  ]

  is_rejected-check_channels :
      (payload : Dict N) (ts : Dict (Threshold N)) (last : Dict N) (chs : List String)
      (r : AnomalyResult N)
      → is_rejected (check_channels num payload ts last chs r).severity
        ≡ (is_rejected r.severity || any (impossible payload) chs)
  unfolding check_channels
  is_rejected-check_channels payload ts last [] r = ground arith
  is_rejected-check_channels payload ts last (ch ∷ chs) r = ground (
    arith,
    is_rejected-check_channels payload ts last chs (check_channel num payload ts last ch r),
    is_rejected-check_channel payload ts last ch r,
  )

  -- The relay's filter rejects a packet exactly when some channel of its payload is outside of its
  -- physical limits, whatever the team's thresholds and the values before are.
  pub check_anomaly-rejected :
      (p : Packet (Dict N)) (f : AnomalyFilter N)
      → (is_rejected (check_anomaly num p f).1.severity ≡ true)
        ↔ Any (IsImpossible (or_default p.payload_json [])) channels
  unfolding check_anomaly
  check_anomaly-rejected p f =
      let payload = or_default p.payload_json [] in
      let last = or_default (lookup (or_default p.node_id "unknown") f.last_values) [] in
      let e =
        is_rejected-check_channels payload (get_thresholds (or_default p.team "combined") f) last
          channels new_anomaly in
      rw e (any-Any (impossible payload) channels (impossible_iff payload))
