-- ===== src/Sequence/Ordering.antt =====
-- Runs of the validator's sequence checker (validator-node/src/sequence_checker.py): what a node can
-- have accepted, whatever its packets, other nodes' packets and the clock are.
use text.Mathlib.TextEquality.{eq_iff}
use pitcrypt_f.Prelude.{
  Bool, Bool-cases, List, String, [], arith, false, if◌then◌else◌, inl, inr, lookup-insert,
  ltb_ℤ-cases, pos, refl, string_eq, true, ℤ, ◌&&◌, ◌<ℤ◌, ◌==◌, ◌∙◌, ◌∷◌, ◌≡◌, ◌≤ℤ◌,
}
use pitcrypt_f.Packet.{Packet, packet_node, packet_seq}
use pitcrypt_f.SeqSet.Order.{IncreasingFrom, IncreasingFrom-step, IncreasingFrom-weaken}
use pitcrypt_f.Sequence.{
  ValidatorSequenceChecker, check, fresh_node, init_node, new_checker, node_state, replay_window,
}
use pitcrypt_f.Sequence.Verdict.{check-passed, nodes-check, seen_after, strict-check}

-- The last number accepted from a node, 0 if there is none.
abbrev pub last_of : String → ValidatorSequenceChecker → ℤ
last_of node c = (node_state node (pos 0) c).last_seq

-- A call for each packet with its clock reading, in order.
unfoldable pub run_checks :
    {J : Type 0} → List (ℤ × Packet J) → ValidatorSequenceChecker → ValidatorSequenceChecker
run_checks [] c = c
run_checks ((now, p) ∷ ps) c = run_checks ps (check now p c).0

-- The sequence numbers of a node's packets that pass, in order.
unfoldable pub accepted_seqs :
    {J : Type 0} → String → List (ℤ × Packet J) → ValidatorSequenceChecker → List ℤ
accepted_seqs node [] c = []
accepted_seqs node ((now, p) ∷ ps) c =
    let rest = accepted_seqs node ps (check now p c).0 in
    if (check now p c).1.passed && packet_node p == node then packet_seq p ∷ rest else rest

last_of-init_node :
    (node j : String) (now : ℤ) (c : ValidatorSequenceChecker)
    → last_of j (init_node node now c) ≡ last_of j c
last_of-init_node node j now c =
    ground (arith, eq_iff node j, lookup-insert node j (fresh_node now) c.nodes)

last_seq-node_state :
    (node : String) (now : ℤ) (c : ValidatorSequenceChecker)
    → (node_state node now c).last_seq ≡ last_of node c
last_seq-node_state node now c = ground arith

pub last_of-check :
    {J : Type 0} (j : String) (now : ℤ) (p : Packet J) (c : ValidatorSequenceChecker)
    → last_of j (check now p c).0
      ≡ (if (check now p c).1.passed && packet_node p == j then packet_seq p else last_of j c)
unfolding check
last_of-check j now p c = ground (
  arith,
  eq_iff (packet_node p) j,
  nodes-check replay_window now p c,
  last_of-init_node (packet_node p) j now c,
  lookup-insert (packet_node p) j
      (seen_after replay_window (packet_seq p) (node_state (packet_node p) now c))
      (init_node (packet_node p) now c).nodes,
)

pub check-last_lt :
    {J : Type 0} (now : ℤ) (p : Packet J) (c : ValidatorSequenceChecker)
    → c.strict ≡ true
    → pos 0 ≤ℤ last_of (packet_node p) c
    → (check now p c).1.passed ≡ true
    → last_of (packet_node p) c <ℤ packet_seq p
check-last_lt now p c strict h passed =
    let a = (check-passed now p c).0 passed in
    let e = last_seq-node_state (packet_node p) now c in
    elim (ltb_ℤ-cases (pos 0) (last_of (packet_node p) c)) [
      | inl (_, some_last) ↦ rw e at (a.ordered strict (rw e some_last))
      | inr (_, none_last) ↦ omega (arith, a.positive)
    ]

-- In strict mode the step keeps the last number from going down.
pub last_of-check_nonneg :
    {J : Type 0} (node : String) (now : ℤ) (p : Packet J) (c : ValidatorSequenceChecker)
    → pos 0 ≤ℤ last_of node c
    → pos 0 ≤ℤ last_of node (check now p c).0
last_of-check_nonneg node now p c h =
    elim (Bool-cases ((check now p c).1.passed && packet_node p == node)) [
      | inl e ↦
          rw (last_of-check node now p c, e)
            (omega (arith, ((check-passed now p c).0 (ground arith)).positive))
      | inr e ↦ rw (last_of-check node now p c, e) h
    ]

pub check-strict :
    {J : Type 0} (now : ℤ) (p : Packet J) (c : ValidatorSequenceChecker)
    → c.strict ≡ true
    → (check now p c).0.strict ≡ true
unfolding check
check-strict now p c strict = strict-check replay_window now p c ∙ strict

-- One check and what is accepted after it, where a packet that the check passes may yet be refused.
pub check-IncreasingFrom :
    {J : Type 0} (node : String) (now : ℤ) (p : Packet J) (c : ValidatorSequenceChecker)
    (accepted : Bool) (rest : List ℤ)
    → c.strict ≡ true
    → pos 0 ≤ℤ last_of node c
    → (accepted ≡ true → (check now p c).1.passed ≡ true)
    → IncreasingFrom (last_of node (check now p c).0) rest
    → IncreasingFrom
        (last_of node c)
        (if accepted && packet_node p == node then packet_seq p ∷ rest else rest)
check-IncreasingFrom node now p c accepted rest strict h passed k =
    elim (Bool-cases ((check now p c).1.passed && packet_node p == node)) [
      | inl e ↦
          let same : packet_node p ≡ node = ground (arith, eq_iff (packet_node p) node) in
          let lt = rw same at (check-last_lt now p c strict (rw same h) (ground arith)) in
          let k' : IncreasingFrom (packet_seq p) rest = rw (last_of-check node now p c, e) at k in
          let skip = IncreasingFrom-weaken (last_of node c) (packet_seq p) rest (omega arith) k' in
          elim (Bool-cases (accepted && packet_node p == node)) [
            | inl a ↦ rw a (lt, k')
            | inr a ↦ rw a skip
          ]
      | inr e ↦
          let no : accepted && packet_node p == node ≡ false = ground arith in
          rw no (rw (last_of-check node now p c, e) at k)
    ]

accepted_seqs-IncreasingFrom :
    {J : Type 0} (node : String) (ps : List (ℤ × Packet J)) (c : ValidatorSequenceChecker)
    → c.strict ≡ true
    → pos 0 ≤ℤ last_of node c
    → IncreasingFrom (last_of node c) (accepted_seqs node ps c)
unfolding accepted_seqs
accepted_seqs-IncreasingFrom node [] c strict h = tt
accepted_seqs-IncreasingFrom node ((now, p) ∷ ps) c strict h =
    let c' = (check now p c).0 in
    let accepted = (check now p c).1.passed && packet_node p == node in
    let strict' : c'.strict ≡ true = unfold check in strict-check replay_window now p c ∙ strict in
    IncreasingFrom-step accepted (last_of node c) (last_of node c') (packet_seq p)
      (accepted_seqs node ps c') (last_of-check node now p c)
      (λ e.
        let same : packet_node p ≡ node = ground (arith, eq_iff (packet_node p) node) in
        rw same at (check-last_lt now p c strict (rw same h) (ground arith)))
      (accepted_seqs-IncreasingFrom node ps c' strict' (last_of-check_nonneg node now p c h))

-- From a new strict checker, whatever packets of whatever nodes come at whatever times, the
-- sequence numbers that pass for one node are positive and strictly increasing: none passes twice.
pub accepted_seqs-new_checker :
    {J : Type 0} (node id : String) (max_age gap : ℤ) (timestamps : Bool) (ps : List (ℤ × Packet J))
    → IncreasingFrom (pos 0) (accepted_seqs node ps (new_checker id max_age gap timestamps true))
accepted_seqs-new_checker node id max_age gap timestamps ps =
    accepted_seqs-IncreasingFrom node ps (new_checker id max_age gap timestamps true) refl
      (omega arith)
