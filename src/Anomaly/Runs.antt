-- ===== src/Anomaly/Runs.antt =====
-- The verdict and the counters of the anomaly filter (relay-node/src/anomaly_filters.py).
use pitcrypt_f.Prelude.{
  Any, Dict, List, Option-cases, String, [], arith, inl, inr, lookup, or_default, refl, ℕ, ◌++◌,
  ◌+◌, ◌↔◌, ◌∷◌, ◌≡◌, ◌≢◌, ◌⊎◌,
}
use pitcrypt_f.Anomaly.{
  AnomalyFilter, AnomalyReason, AnomalyResult, Number, Severity, Threshold, Violation,
  above_threshold, add_violation, below_threshold, channels, check_anomaly, check_change,
  check_channel, check_channels, check_threshold, count_severity, escalate, get_thresholds,
  new_anomaly, physical_bounds_violation, rate_of_change_exceeded, severity_flag, severity_pass,
  severity_reject,
}
use pitcrypt_f.Packet.{Packet}

-- A result is a reject, or a pass, when one of the two severities is.
escalate_reject :
    (s t : Severity)
    → (escalate s t ≡ severity_reject) ↔ ((t ≡ severity_reject) ⊎ (s ≡ severity_reject))
unfolding escalate
escalate_reject s t = (λ h. ground arith, λ h. ground arith)

escalate_pass :
    (s t : Severity) → escalate s t ≡ severity_pass → (t ≡ severity_pass) × (s ≡ severity_pass)
unfolding escalate
escalate_pass s t h = (ground arith, ground arith)

Any-snoc :
    {A : Type 0} (P : A → Type 0) (xs : List A) (a : A) → Any P (xs ++ a ∷ []) ↔ (Any P xs ⊎ P a)
Any-snoc P [] a = (
  λ h. elim h [ inl x ↦ inr x | inr x ↦ absurd x ],
  λ h. elim h [ inl x ↦ absurd x | inr x ↦ inl x ],
)
Any-snoc P (x ∷ xs) a =
    let (f, g) = Any-snoc P xs a in
    (
      λ h. elim h [
        | inl y ↦ inl (inl y)
        | inr y ↦ elim (f y) [ inl z ↦ inl (inr z) | inr z ↦ inr z ]
      ],
      λ h. elim h [ inl (inl y) ↦ inl y | inl (inr y) ↦ inr (g (inl y)) | inr y ↦ inr (g (inr y)) ],
    )

append-nonempty : {A : Type 0} (xs : List A) (a : A) → xs ++ a ∷ [] ≢ []
append-nonempty [] a e = cc
append-nonempty (x ∷ xs) a e = cc

module _ {N : Type 0} where
  -- A violation that rejects the packet.
  abbrev pub IsGrave : Violation N → Type 0
  IsGrave v = v.severity ≡ severity_reject

  -- A result rejects when a violation does, and passes when there is none.
  pub record IsJudged (r : AnomalyResult N) : Type 0 where
    pub rejected : (r.severity ≡ severity_reject) ↔ Any IsGrave r.violations
    pub passed : (r.severity ≡ severity_pass) ↔ (r.violations ≡ [])

  add_violation-IsJudged :
      (ch : String) (v : N) (why : AnomalyReason) (s : Severity) (r : AnomalyResult N)
      → s ≢ severity_pass
      → IsJudged r
      → IsJudged (add_violation ch v why s r)
  unfolding add_violation
  add_violation-IsJudged ch v why s r n h =
      let new : Violation N = record { channel = ch; value = v; reason = why; severity = s } in
      let (f, g) = h.rejected in
      let (a, b) = escalate_reject s r.severity in
      let (c, d) = Any-snoc IsGrave r.violations new in
      record {
        rejected = (
          λ e. d (elim (a e) [ inl x ↦ inl (f x) | inr x ↦ inr x ]),
          λ e. b (elim (c e) [ inl x ↦ inl (g x) | inr x ↦ inr x ]),
        );
        passed = (
          λ e. absurd (n (escalate_pass s r.severity e).1),
          λ e. absurd (append-nonempty r.violations new e),
        );
      }

flag_counts : severity_flag ≢ severity_pass
flag_counts e = ground arith

reject_counts : severity_reject ≢ severity_pass
reject_counts e = ground arith

-- What a severity adds to the two counters.
abbrev pub flag_of : Severity → ℕ
flag_of severity_flag = 1
flag_of _ = 0

abbrev pub reject_of : Severity → ℕ
reject_of severity_reject = 1
reject_of _ = 0

-- The verdict on a packet, and how a filter that was `f` counts it.
pub record Judges {N : Type 0} (f : AnomalyFilter N) (o : AnomalyFilter N × AnomalyResult N)
    : Type 0 where
  judged : IsJudged o.1
  checked : o.0.checked_count ≡ f.checked_count + 1
  flagged : o.0.flagged_count ≡ f.flagged_count + flag_of o.1.severity
  rejected : o.0.rejected_count ≡ f.rejected_count + reject_of o.1.severity

module _ {N : Type 0} (num : Number N) where
  check_threshold-IsJudged :
      (ch : String) (v : N) (ts : Dict (Threshold N)) (r : AnomalyResult N)
      → IsJudged r
      → IsJudged (check_threshold num ch v ts r)
  unfolding check_threshold
  check_threshold-IsJudged ch v ts r h =
      let a = add_violation-IsJudged ch v below_threshold severity_flag r flag_counts h in
      let b = add_violation-IsJudged ch v above_threshold severity_flag r flag_counts h in
      ground arith

  check_change-IsJudged :
      (ch : String) (v : N) (last : Dict N) (r : AnomalyResult N)
      → IsJudged r
      → IsJudged (check_change num ch v last r)
  unfolding check_change
  check_change-IsJudged ch v last r h =
      let a = add_violation-IsJudged ch v rate_of_change_exceeded severity_flag r flag_counts h in
      ground arith

  check_channel-IsJudged :
      (payload : Dict N) (ts : Dict (Threshold N)) (last : Dict N) (ch : String)
      (r : AnomalyResult N)
      → IsJudged r
      → IsJudged (check_channel num payload ts last ch r)
  unfolding check_channel
  check_channel-IsJudged payload ts last ch r h = elim (Option-cases (lookup ch payload)) [
    | inl e ↦ ground arith
    | inr (v, e) ↦
        let a =
          add_violation-IsJudged ch v physical_bounds_violation severity_reject r reject_counts h in
        let b =
          check_change-IsJudged ch v last (check_threshold num ch v ts r)
            (check_threshold-IsJudged ch v ts r h) in
        ground arith
  ]

  check_channels-IsJudged :
      (payload : Dict N) (ts : Dict (Threshold N)) (last : Dict N) (chs : List String)
      (r : AnomalyResult N)
      → IsJudged r
      → IsJudged (check_channels num payload ts last chs r)
  unfolding check_channels
  check_channels-IsJudged payload ts last [] r h = h
  check_channels-IsJudged payload ts last (ch ∷ chs) r h =
      check_channels-IsJudged payload ts last chs (check_channel num payload ts last ch r)
        (check_channel-IsJudged payload ts last ch r h)

  -- The filter rejects a packet exactly when one of the violations that it lists rejects, and passes it
  -- exactly when it lists none, so that it flags it when all that it lists flag. The packet is counted as
  -- checked, and, if it is flagged or rejected, as that.
  pub check_anomaly_verdict :
      (p : Packet (Dict N)) (f : AnomalyFilter N) → Judges f (check_anomaly num p f)
  unfolding check_anomaly count_severity
  check_anomaly_verdict p f =
      let last = or_default (lookup (or_default p.node_id "unknown") f.last_values) [] in
      record {
        judged =
            check_channels-IsJudged (or_default p.payload_json [])
              (get_thresholds (or_default p.team "combined") f) last channels new_anomaly
              (record {
                rejected = (λ e. ground arith, λ e. absurd e);
                passed = (λ e. refl, λ e. refl);
              });
        checked = ground arith;
        flagged = ground arith;
        rejected = ground arith;
      }
