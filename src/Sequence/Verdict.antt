-- ===== src/Sequence/Verdict.antt =====
-- When `check` passes a packet, and what it changes (validator-node/src/sequence_checker.py).
use pitcrypt_f.Prelude.{
  Bool, Bool-cases, String, arith, contains, false, if◌then◌else◌, inl, inr, insert, int_eq, lookup,
  lookup-insert_ne, pos, refl, true, ℕ, ℤ, ◌+◌, ◌-ℤ◌, ◌<ℤ◌, ◌↔◌, ◌≡◌, ◌≢◌, ◌≤ℤ◌,
}
use pitcrypt_f.Packet.{Packet, packet_node, packet_seq, packet_ts}
use pitcrypt_f.SeqSet.{new_result, remember}
use pitcrypt_f.Sequence.{
  NodeState, Progress, SequenceCheckResult, ValidatorSequenceChecker, check, check_freshness,
  check_gap, check_ordering, check_replay, check_validity, check_within, count_check, fresh_node,
  init_node, inspect, node_state, record_passed,
}

-- The conditions of a pass, apart from the order in which the code tests them.
pub record Acceptable (c : ValidatorSequenceChecker) (n : NodeState) (seq ts now : ℤ) : Type 0 where
  pub positive : pos 0 <ℤ seq
  pub unseen : contains seq n.seen_seqs ≡ false
  pub ordered : c.strict ≡ true → pos 0 <ℤ n.last_seq → n.last_seq <ℤ seq
  pub fresh : c.check_ts ≡ true → pos 0 <ℤ ts → now -ℤ ts ≤ℤ c.max_ts_age

-- What the five checks leave alone.
pub record IsSame (c d : ValidatorSequenceChecker) : Type 0 where
  pub same_nodes : d.nodes ≡ c.nodes
  pub same_strict : d.strict ≡ c.strict
  pub same_check_ts : d.check_ts ≡ c.check_ts
  pub same_max_ts_age : d.max_ts_age ≡ c.max_ts_age
  pub same_checked : d.checked_count ≡ c.checked_count
  pub same_passed : d.passed_count ≡ c.passed_count
  pub same_failed : d.failed_count ≡ c.failed_count

module _ (c : ValidatorSequenceChecker) (s : ValidatorSequenceChecker × SequenceCheckResult) where
  check_validity-IsSame : (seq : ℤ) → IsSame c s.0 → IsSame c (check_validity seq s).0
  unfolding check_validity
  check_validity-IsSame seq h = ground arith

  check_replay-IsSame :
      (node : String) (seq : ℤ) (n : NodeState)
      → IsSame c s.0
      → IsSame c (check_replay node seq n s).0
  unfolding check_replay
  check_replay-IsSame node seq n h = ground arith

  check_ordering-IsSame :
      (node : String) (seq : ℤ) (n : NodeState)
      → IsSame c s.0
      → IsSame c (check_ordering node seq n s).0
  unfolding check_ordering
  check_ordering-IsSame node seq n h = ground arith

  check_gap-IsSame :
      (node : String) (seq : ℤ) (n : NodeState) → IsSame c s.0 → IsSame c (check_gap node seq n s).0
  unfolding check_gap
  check_gap-IsSame node seq n h = ground arith

  check_freshness-IsSame :
      (node : String) (now ts : ℤ) → IsSame c s.0 → IsSame c (check_freshness node now ts s).0
  unfolding check_freshness
  check_freshness-IsSame node now ts h = ground arith

pub inspect-IsSame :
    (node : String) (seq ts now : ℤ) (n : NodeState)
    (s : ValidatorSequenceChecker × SequenceCheckResult)
    → IsSame s.0 (inspect node seq ts now n s).0
unfolding inspect
inspect-IsSame node seq ts now n s = check_freshness-IsSame s.0 _ node now ts (
    check_gap-IsSame s.0 _ node seq n (
      check_ordering-IsSame s.0 _ node seq n
        (check_replay-IsSame s.0 _ node seq n (check_validity-IsSame s.0 s seq (ground arith)))))

module _ (s : Progress) where
  check_validity-passed :
      (seq : ℤ) → ((check_validity seq s).1.passed ≡ true) ↔ ((s.1.passed ≡ true) × (pos 0 <ℤ seq))
  unfolding check_validity
  check_validity-passed seq = (λ e. ground arith, λ a. ground arith)

  check_replay-passed :
      (node : String) (seq : ℤ) (n : NodeState)
      → ((check_replay node seq n s).1.passed ≡ true)
        ↔ ((s.1.passed ≡ true) × (contains seq n.seen_seqs ≡ false))
  unfolding check_replay
  check_replay-passed node seq n = (λ e. ground arith, λ a. ground arith)

  check_ordering-passed :
      (node : String) (seq : ℤ) (n : NodeState)
      → ((check_ordering node seq n s).1.passed ≡ true)
        ↔ ((s.1.passed ≡ true) × (s.0.strict ≡ true → pos 0 <ℤ n.last_seq → n.last_seq <ℤ seq))
  unfolding check_ordering
  check_ordering-passed node seq n = (λ e. ground arith, λ a. ground arith)

  check_gap-passed :
      (node : String) (seq : ℤ) (n : NodeState) → (check_gap node seq n s).1.passed ≡ s.1.passed
  unfolding check_gap
  check_gap-passed node seq n = ground arith

  check_freshness-passed :
      (node : String) (now ts : ℤ)
      → ((check_freshness node now ts s).1.passed ≡ true)
        ↔ ((s.1.passed ≡ true) × (s.0.check_ts ≡ true → pos 0 <ℤ ts → now -ℤ ts ≤ℤ s.0.max_ts_age))
  unfolding check_freshness
  check_freshness-passed node now ts = (λ e. ground arith, λ a. ground arith)

inspect-passed :
    (node : String) (seq ts now : ℤ) (n : NodeState) (s : Progress)
    → s.1.passed ≡ true
    → ((inspect node seq ts now n s).1.passed ≡ true) ↔ Acceptable s.0 n seq ts now
unfolding inspect
inspect-passed node seq ts now n s h =
    let s₁ = check_validity seq s in
    let s₂ = check_replay node seq n s₁ in
    let s₃ = check_ordering node seq n s₂ in
    let s₄ = check_gap node seq n s₃ in
    let k₂ : IsSame s.0 s₂.0 =
      check_replay-IsSame s.0 s₁ node seq n (check_validity-IsSame s.0 s seq (ground arith)) in
    let k₄ : IsSame s.0 s₄.0 =
      check_gap-IsSame s.0 s₃ node seq n (check_ordering-IsSame s.0 s₂ node seq n k₂) in
    (
      λ e.
          let (e₄, age) = (check_freshness-passed s₄ node now ts).0 e in
          let (e₂, order) = (check_ordering-passed s₂ node seq n).0 (rw check_gap-passed at e₄) in
          let (e₁, new) = (check_replay-passed s₁ node seq n).0 e₂ in
          record {
            positive = ((check_validity-passed s seq).0 e₁).1;
            unseen = new;
            ordered = rw k₂.same_strict at order;
            fresh = rw (k₄.same_check_ts, k₄.same_max_ts_age) at age;
          },
      λ a. (check_freshness-passed s₄ node now ts).1 (
        rw check_gap-passed (
            (check_ordering-passed s₂ node seq n).1 (
              (check_replay-passed s₁ node seq n).1
                  ((check_validity-passed s seq).1 (h, a.positive), a.unseen),
              rw k₂.same_strict a.ordered,
            )),
        rw (k₄.same_check_ts, k₄.same_max_ts_age) a.fresh,
      ),
    )

init_node-Acceptable :
    (node : String) (c : ValidatorSequenceChecker) (n : NodeState) (seq ts now : ℤ)
    → Acceptable (init_node node now c) n seq ts now ↔ Acceptable c n seq ts now
init_node-Acceptable node c n seq ts now = (λ a. ground arith, λ a. ground arith)

-- `check` passes a packet exactly when its sequence number is positive and not in the window of its
-- node, is greater than the last one if the checker is strict and the node has one, and its
-- timestamp is not too old if timestamps are checked and it has one.
pub check-passed :
    {J : Type 0} (now : ℤ) (p : Packet J) (c : ValidatorSequenceChecker)
    → ((check now p c).1.passed ≡ true)
      ↔ Acceptable c (node_state (packet_node p) now c) (packet_seq p) (packet_ts p) now
unfolding check check_within
check-passed now p c =
    let node = packet_node p in
    let seq = packet_seq p in
    let n = node_state node now c in
    let e = inspect-passed node seq (packet_ts p) now n (init_node node now c, new_result) refl in
    let i = init_node-Acceptable node c n seq (packet_ts p) now in
    (λ h. i.0 (e.0 h), λ a. e.1 (i.1 a))

-- The entry that a pass writes.
abbrev pub seen_after : ℕ → ℤ → NodeState → NodeState
seen_after window seq n = record n { last_seq = seq; seen_seqs = remember window seq n.seen_seqs }

count_check-nodes : (ok : Bool) (c : ValidatorSequenceChecker) → (count_check ok c).nodes ≡ c.nodes
unfolding count_check
count_check-nodes ok c = ground arith

nodes-record_passed :
    (window : ℕ) (node : String) (seq : ℤ) (n : NodeState) (s : Progress)
    → (record_passed window node seq n s).nodes
      ≡ (if s.1.passed then insert node (seen_after window seq n) s.0.nodes else s.0.nodes)
unfolding record_passed
nodes-record_passed window node seq n s = ground arith

lookup-init_node_ne :
    (node j : String) (now : ℤ) (c : ValidatorSequenceChecker)
    → node ≢ j
    → lookup j (init_node node now c).nodes ≡ lookup j c.nodes
lookup-init_node_ne node j now c h =
    ground (arith, lookup-insert_ne node j (fresh_node now) c.nodes h)

module _ {J : Type 0} (window : ℕ) (now : ℤ) (p : Packet J) (c : ValidatorSequenceChecker) where
  -- All entries after a call: of a packet that passed, the entry of its node is written.
  pub nodes-check : (check_within window now p c).0.nodes ≡ (
      if (check_within window now p c).1.passed
      then insert
          (packet_node p)
          (seen_after window (packet_seq p) (node_state (packet_node p) now c))
          (init_node (packet_node p) now c).nodes
      else (init_node (packet_node p) now c).nodes)
  unfolding check_within
  nodes-check =
      let node = packet_node p in
      let n = node_state node now c in
      let s = inspect node (packet_seq p) (packet_ts p) now n (init_node node now c, new_result) in
      let same =
        inspect-IsSame node (packet_seq p) (packet_ts p) now n (init_node node now c, new_result) in
      rw (
        count_check-nodes s.1.passed (record_passed window node (packet_seq p) n s),
        nodes-record_passed window node (packet_seq p) n s,
        same.same_nodes,
      )

  pub lookup-check_ne :
      (j : String)
      → packet_node p ≢ j
      → lookup j (check_within window now p c).0.nodes ≡ lookup j c.nodes
  lookup-check_ne j h = rw nodes-check (elim (Bool-cases (check_within window now p c).1.passed) [
    | inl e ↦ rw (e, lookup-insert_ne) (lookup-init_node_ne (packet_node p) j now c h)
    | inr e ↦ rw e (lookup-init_node_ne (packet_node p) j now c h)
  ])

  pub strict-check : (check_within window now p c).0.strict ≡ c.strict
  unfolding check_within record_passed count_check
  strict-check =
      let node = packet_node p in
      let same =
        inspect-IsSame node (packet_seq p) (packet_ts p) now (node_state node now c)
          (init_node node now c, new_result) in
      ground (arith, same.same_strict)

  pub check_ts-check : (check_within window now p c).0.check_ts ≡ c.check_ts
  unfolding check_within record_passed count_check
  check_ts-check =
      let node = packet_node p in
      let same =
        inspect-IsSame node (packet_seq p) (packet_ts p) now (node_state node now c)
          (init_node node now c, new_result) in
      ground (arith, same.same_check_ts)

  -- Every call is counted once, and as passed or as failed.
  pub counts-check :
      let (d, r) = check_within window now p c in
      (d.checked_count ≡ c.checked_count + 1)
      × (d.passed_count ≡ (if r.passed then c.passed_count + 1 else c.passed_count))
      × (d.failed_count ≡ (if r.passed then c.failed_count else c.failed_count + 1))
  unfolding check_within record_passed count_check
  counts-check =
      let node = packet_node p in
      let same =
        inspect-IsSame node (packet_seq p) (packet_ts p) now (node_state node now c)
          (init_node node now c, new_result) in
      ground (arith, same.same_checked, same.same_passed, same.same_failed)

-- `check` reads a packet's node, sequence number and timestamp only.
pub check-same :
    {J : Type 0} (now : ℤ) (p q : Packet J) (c : ValidatorSequenceChecker)
    → packet_node p ≡ packet_node q
    → packet_seq p ≡ packet_seq q
    → packet_ts p ≡ packet_ts q
    → check now p c ≡ check now q c
unfolding check check_within
check-same now p q c a b d = rw (a, b, d) refl
