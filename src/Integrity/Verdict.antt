-- ===== src/Integrity/Verdict.antt =====
-- When the relay's `check` passes a packet, and what it changes (relay-node/src/integrity_checker.py).
use pitcrypt_f.Prelude.{
  Bool, String, arith, contains, false, if◌then◌else◌, insert, int_eq, pos, refl, true, ℤ, ◌-ℤ◌,
  ◌<ℤ◌, ◌↔◌, ◌≡◌, ◌≤ℤ◌,
}
use pitcrypt_f.Integrity.{
  IntegrityChecker, NodeSequence, Progress, car_node, check, check_age, check_gap, check_number,
  check_order, check_replay, check_signature, count_check, has_signature, init_sequence, inspect,
  node_sequence, record_passed, replay_window_size,
}
use pitcrypt_f.Packet.{Packet, packet_seq, packet_ts}
use pitcrypt_f.SeqSet.{new_result, remember}

-- The conditions of a pass, apart from the order in which the code tests them.
pub record IsIntact (c : IntegrityChecker) (n : NodeSequence) (seq ts now : ℤ) (signed : Bool)
    : Type 0 where
  pub positive : pos 0 <ℤ seq
  pub unseen : contains seq n.seen_sequences ≡ false
  pub ordered : pos 0 <ℤ n.last_sequence → n.last_sequence <ℤ seq
  pub fresh : c.check_timestamps ≡ true → pos 0 <ℤ ts → now -ℤ ts ≤ℤ c.max_ts_age
  pub has_sig : c.check_signatures ≡ true → signed ≡ true

-- What the checks leave alone.
pub record IsSame (c d : IntegrityChecker) : Type 0 where
  pub same_nodes : d.nodes ≡ c.nodes
  pub same_timestamps : d.check_timestamps ≡ c.check_timestamps
  pub same_max_ts_age : d.max_ts_age ≡ c.max_ts_age
  pub same_signatures : d.check_signatures ≡ c.check_signatures
  pub same_checked : d.checked_count ≡ c.checked_count
  pub same_passed : d.passed_count ≡ c.passed_count
  pub same_failed : d.failed_count ≡ c.failed_count

module _ (c : IntegrityChecker) (s : Progress) where
  check_number-IsSame : (seq : ℤ) → IsSame c s.0 → IsSame c (check_number seq s).0
  unfolding check_number
  check_number-IsSame seq h = ground arith

  check_replay-IsSame :
      (node : String) (seq : ℤ) (n : NodeSequence)
      → IsSame c s.0
      → IsSame c (check_replay node seq n s).0
  unfolding check_replay
  check_replay-IsSame node seq n h = ground arith

  check_order-IsSame :
      (node : String) (seq : ℤ) (n : NodeSequence)
      → IsSame c s.0
      → IsSame c (check_order node seq n s).0
  unfolding check_order
  check_order-IsSame node seq n h = ground arith

  check_gap-IsSame :
      (node : String) (seq : ℤ) (n : NodeSequence)
      → IsSame c s.0
      → IsSame c (check_gap node seq n s).0
  unfolding check_gap
  check_gap-IsSame node seq n h = ground arith

  check_age-IsSame :
      (node : String) (now ts : ℤ) → IsSame c s.0 → IsSame c (check_age node now ts s).0
  unfolding check_age
  check_age-IsSame node now ts h = ground arith

  check_signature-IsSame :
      (node : String) (seq : ℤ) (signed : Bool)
      → IsSame c s.0
      → IsSame c (check_signature node seq signed s).0
  unfolding check_signature
  check_signature-IsSame node seq signed h = ground arith

pub inspect-IsSame :
    (node : String) (seq ts : ℤ) (signed : Bool) (now : ℤ) (n : NodeSequence) (s : Progress)
    → IsSame s.0 (inspect node seq ts signed now n s).0
unfolding inspect
inspect-IsSame node seq ts signed now n s = check_signature-IsSame s.0 _ node seq signed (
    check_age-IsSame s.0 _ node now ts (
      check_gap-IsSame s.0 _ node seq n (
        check_order-IsSame s.0 _ node seq n
          (check_replay-IsSame s.0 _ node seq n (check_number-IsSame s.0 s seq (ground arith))))))

module _ (s : Progress) where
  check_number-passed :
      (seq : ℤ) → ((check_number seq s).1.passed ≡ true) ↔ ((s.1.passed ≡ true) × (pos 0 <ℤ seq))
  unfolding check_number
  check_number-passed seq = (λ e. ground arith, λ a. ground arith)

  check_replay-passed :
      (node : String) (seq : ℤ) (n : NodeSequence)
      → ((check_replay node seq n s).1.passed ≡ true)
        ↔ ((s.1.passed ≡ true) × (contains seq n.seen_sequences ≡ false))
  unfolding check_replay
  check_replay-passed node seq n = (λ e. ground arith, λ a. ground arith)

  check_order-passed :
      (node : String) (seq : ℤ) (n : NodeSequence)
      → ((check_order node seq n s).1.passed ≡ true)
        ↔ ((s.1.passed ≡ true) × (pos 0 <ℤ n.last_sequence → n.last_sequence <ℤ seq))
  unfolding check_order
  check_order-passed node seq n = (λ e. ground arith, λ a. ground arith)

  check_gap-passed :
      (node : String) (seq : ℤ) (n : NodeSequence) → (check_gap node seq n s).1.passed ≡ s.1.passed
  unfolding check_gap
  check_gap-passed node seq n = ground arith

  check_age-passed :
      (node : String) (now ts : ℤ)
      → ((check_age node now ts s).1.passed ≡ true) ↔ (
          (s.1.passed ≡ true)
          × (s.0.check_timestamps ≡ true → pos 0 <ℤ ts → now -ℤ ts ≤ℤ s.0.max_ts_age))
  unfolding check_age
  check_age-passed node now ts = (λ e. ground arith, λ a. ground arith)

  check_signature-passed :
      (node : String) (seq : ℤ) (signed : Bool)
      → ((check_signature node seq signed s).1.passed ≡ true)
        ↔ ((s.1.passed ≡ true) × (s.0.check_signatures ≡ true → signed ≡ true))
  unfolding check_signature
  check_signature-passed node seq signed = (λ e. ground arith, λ a. ground arith)

inspect-passed :
    (node : String) (seq ts : ℤ) (signed : Bool) (now : ℤ) (n : NodeSequence) (s : Progress)
    → s.1.passed ≡ true
    → ((inspect node seq ts signed now n s).1.passed ≡ true) ↔ IsIntact s.0 n seq ts now signed
unfolding inspect
inspect-passed node seq ts signed now n s h =
    let s₁ = check_number seq s in
    let s₂ = check_replay node seq n s₁ in
    let s₃ = check_order node seq n s₂ in
    let s₄ = check_gap node seq n s₃ in
    let s₅ = check_age node now ts s₄ in
    let k₄ : IsSame s.0 s₄.0 = check_gap-IsSame s.0 s₃ node seq n (
      check_order-IsSame s.0 s₂ node seq n
        (check_replay-IsSame s.0 s₁ node seq n (check_number-IsSame s.0 s seq (ground arith)))) in
    let k₅ = check_age-IsSame s.0 s₄ node now ts k₄ in
    (
      λ e.
          let (e₅, sig) = (check_signature-passed s₅ node seq signed).0 e in
          let (e₄, age) = (check_age-passed s₄ node now ts).0 e₅ in
          let (e₂, order) = (check_order-passed s₂ node seq n).0 (rw check_gap-passed at e₄) in
          let (e₁, new) = (check_replay-passed s₁ node seq n).0 e₂ in
          record {
            positive = ((check_number-passed s seq).0 e₁).1;
            unseen = new;
            ordered = order;
            fresh = rw (k₄.same_timestamps, k₄.same_max_ts_age) at age;
            has_sig = rw k₅.same_signatures at sig;
          },
      λ a. (check_signature-passed s₅ node seq signed).1 (
        (check_age-passed s₄ node now ts).1 (
          rw check_gap-passed (
              (check_order-passed s₂ node seq n).1 (
                (check_replay-passed s₁ node seq n).1
                    ((check_number-passed s seq).1 (h, a.positive), a.unseen),
                a.ordered,
              )),
          rw (k₄.same_timestamps, k₄.same_max_ts_age) a.fresh,
        ),
        rw k₅.same_signatures a.has_sig,
      ),
    )

init_sequence-IsIntact :
    (node : String) (c : IntegrityChecker) (n : NodeSequence) (seq ts now : ℤ) (signed : Bool)
    → IsIntact (init_sequence node c) n seq ts now signed ↔ IsIntact c n seq ts now signed
init_sequence-IsIntact node c n seq ts now signed = (λ a. ground arith, λ a. ground arith)

-- The relay passes a packet exactly when its sequence number is positive, not in the window of its
-- node and greater than the node's last one, its timestamp is not too old if timestamps are checked
-- and it has one, and it carries a signature if signatures are checked.
pub check-IsIntact :
    {J : Type 0} (now : ℤ) (p : Packet J) (c : IntegrityChecker)
    → ((check now p c).1.passed ≡ true)
      ↔ IsIntact c (node_sequence (car_node p) c) (packet_seq p) (packet_ts p) now (has_signature p)
unfolding check
check-IsIntact now p c =
    let node = car_node p in
    let seq = packet_seq p in
    let n = node_sequence node c in
    let e =
      inspect-passed node seq (packet_ts p) (has_signature p) now n
        (init_sequence node c, new_result) refl in
    let i = init_sequence-IsIntact node c n seq (packet_ts p) now (has_signature p) in
    (λ h. i.0 (e.0 h), λ a. e.1 (i.1 a))

count_check-nodes : (ok : Bool) (c : IntegrityChecker) → (count_check ok c).nodes ≡ c.nodes
unfolding count_check
count_check-nodes ok c = ground arith

-- The entry that a pass writes.
abbrev pub seen_after : ℤ → NodeSequence → NodeSequence
seen_after seq n = record {
  last_sequence = seq;
  seen_sequences = remember replay_window_size seq n.seen_sequences;
}

nodes-record_passed :
    (node : String) (seq : ℤ) (n : NodeSequence) (s : Progress)
    → (record_passed node seq n s).nodes
      ≡ (if s.1.passed then insert node (seen_after seq n) s.0.nodes else s.0.nodes)
unfolding record_passed
nodes-record_passed node seq n s = ground arith

module _ {J : Type 0} (now : ℤ) (p : Packet J) (c : IntegrityChecker) where
  -- All entries after a call: of a packet that passed, the entry of its node is written.
  pub nodes-check : (check now p c).0.nodes ≡ (
      if (check now p c).1.passed
      then insert
          (car_node p)
          (seen_after (packet_seq p) (node_sequence (car_node p) c))
          (init_sequence (car_node p) c).nodes
      else (init_sequence (car_node p) c).nodes)
  unfolding check
  nodes-check =
      let node = car_node p in
      let n = node_sequence node c in
      let s₀ : Progress = (init_sequence node c, new_result) in
      let s = inspect node (packet_seq p) (packet_ts p) (has_signature p) now n s₀ in
      let same = inspect-IsSame node (packet_seq p) (packet_ts p) (has_signature p) now n s₀ in
      rw (
        count_check-nodes s.1.passed (record_passed node (packet_seq p) n s),
        nodes-record_passed node (packet_seq p) n s,
        same.same_nodes,
      )
