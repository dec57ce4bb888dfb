-- ===== src/Integrity/Ordering.antt =====
-- Runs of the relay's integrity checker (relay-node/src/integrity_checker.py): the numbers that a car
-- node can have accepted, and the size of its window.
use text.Mathlib.TextEquality.{eq_iff}
use pitcrypt_f.Prelude.{
  Bool, Bool-cases, List, String, [], arith, false, if◌then◌else◌, inl, inr, length, lookup-insert,
  ltb_ℤ-cases, pos, string_eq, true, ℤ, ◌&&◌, ◌<ℤ◌, ◌==◌, ◌∷◌, ◌≡◌, ◌≤ℤ◌, ◌≤◌,
}
use pitcrypt_f.Integrity.{
  IntegrityChecker, car_node, check, fresh_sequence, init_sequence, new_integrity, node_sequence,
  replay_window_size,
}
use pitcrypt_f.Integrity.Verdict.{check-IsIntact, nodes-check, seen_after}
use pitcrypt_f.Packet.{Packet, packet_seq}
use pitcrypt_f.SeqSet.Laws.{length-remember}
use pitcrypt_f.SeqSet.Order.{IncreasingFrom, IncreasingFrom-step, IncreasingFrom-weaken}

abbrev pub last_of : String → IntegrityChecker → ℤ
last_of node c = (node_sequence node c).last_sequence

-- A call for each packet with its clock reading, in order.
unfoldable pub run_checks : {J : Type 0} → List (ℤ × Packet J) → IntegrityChecker → IntegrityChecker
run_checks [] c = c
run_checks ((now, p) ∷ ps) c = run_checks ps (check now p c).0

-- The sequence numbers of a node's packets that pass, in order.
unfoldable pub accepted_seqs :
    {J : Type 0} → String → List (ℤ × Packet J) → IntegrityChecker → List ℤ
accepted_seqs node [] c = []
accepted_seqs node ((now, p) ∷ ps) c =
    let rest = accepted_seqs node ps (check now p c).0 in
    if (check now p c).1.passed && car_node p == node then packet_seq p ∷ rest else rest

node_sequence-init_sequence :
    (node j : String) (c : IntegrityChecker)
    → node_sequence j (init_sequence node c) ≡ node_sequence j c
node_sequence-init_sequence node j c =
    ground (arith, eq_iff node j, lookup-insert node j fresh_sequence c.nodes)

-- A call writes the entry of its own node, if the packet passes, and no other entry.
pub node_sequence-check :
    {J : Type 0} (j : String) (now : ℤ) (p : Packet J) (c : IntegrityChecker)
    → node_sequence j (check now p c).0 ≡ (
        if (check now p c).1.passed && car_node p == j
        then seen_after (packet_seq p) (node_sequence j c)
        else node_sequence j c)
node_sequence-check j now p c = ground (
  arith,
  eq_iff (car_node p) j,
  nodes-check now p c,
  node_sequence-init_sequence (car_node p) j c,
  lookup-insert (car_node p) j (seen_after (packet_seq p) (node_sequence (car_node p) c))
      (init_sequence (car_node p) c).nodes,
)

last_of-check :
    {J : Type 0} (j : String) (now : ℤ) (p : Packet J) (c : IntegrityChecker)
    → last_of j (check now p c).0
      ≡ (if (check now p c).1.passed && car_node p == j then packet_seq p else last_of j c)
last_of-check j now p c = ground (arith, node_sequence-check j now p c)

check-last_lt :
    {J : Type 0} (now : ℤ) (p : Packet J) (c : IntegrityChecker)
    → pos 0 ≤ℤ last_of (car_node p) c
    → (check now p c).1.passed ≡ true
    → last_of (car_node p) c <ℤ packet_seq p
check-last_lt now p c h passed =
    let a = (check-IsIntact now p c).0 passed in
    elim (ltb_ℤ-cases (pos 0) (last_of (car_node p) c)) [
      | inl (_, some_last) ↦ a.ordered some_last
      | inr (_, none_last) ↦ omega (arith, a.positive)
    ]

pub last_of-check_nonneg :
    {J : Type 0} (node : String) (now : ℤ) (p : Packet J) (c : IntegrityChecker)
    → pos 0 ≤ℤ last_of node c
    → pos 0 ≤ℤ last_of node (check now p c).0
last_of-check_nonneg node now p c h =
    elim (Bool-cases ((check now p c).1.passed && car_node p == node)) [
      | inl e ↦
          rw (last_of-check node now p c, e)
            (omega (arith, ((check-IsIntact now p c).0 (ground arith)).positive))
      | inr e ↦ rw (last_of-check node now p c, e) h
    ]

-- One check and what is passed on after it, where a packet that the check passes may yet be dropped.
pub check-IncreasingFrom :
    {J : Type 0} (node : String) (now : ℤ) (p : Packet J) (c : IntegrityChecker) (accepted : Bool)
    (rest : List ℤ)
    → pos 0 ≤ℤ last_of node c
    → (accepted ≡ true → (check now p c).1.passed ≡ true)
    → IncreasingFrom (last_of node (check now p c).0) rest
    → IncreasingFrom
        (last_of node c)
        (if accepted && car_node p == node then packet_seq p ∷ rest else rest)
check-IncreasingFrom node now p c accepted rest h passed k =
    elim (Bool-cases ((check now p c).1.passed && car_node p == node)) [
      | inl e ↦
          let same : car_node p ≡ node = ground (arith, eq_iff (car_node p) node) in
          let lt = rw same at (check-last_lt now p c (rw same h) (ground arith)) in
          let k' : IncreasingFrom (packet_seq p) rest = rw (last_of-check node now p c, e) at k in
          let skip = IncreasingFrom-weaken (last_of node c) (packet_seq p) rest (omega arith) k' in
          elim (Bool-cases (accepted && car_node p == node)) [
            | inl a ↦ rw a (lt, k')
            | inr a ↦ rw a skip
          ]
      | inr e ↦
          let no : accepted && car_node p == node ≡ false = ground arith in
          rw no (rw (last_of-check node now p c, e) at k)
    ]

accepted_seqs-IncreasingFrom :
    {J : Type 0} (node : String) (ps : List (ℤ × Packet J)) (c : IntegrityChecker)
    → pos 0 ≤ℤ last_of node c
    → IncreasingFrom (last_of node c) (accepted_seqs node ps c)
unfolding accepted_seqs
accepted_seqs-IncreasingFrom node [] c h = tt
accepted_seqs-IncreasingFrom node ((now, p) ∷ ps) c h =
    let c' = (check now p c).0 in
    let accepted = (check now p c).1.passed && car_node p == node in
    IncreasingFrom-step accepted (last_of node c) (last_of node c') (packet_seq p)
      (accepted_seqs node ps c') (last_of-check node now p c)
      (λ e.
        let same : car_node p ≡ node = ground (arith, eq_iff (car_node p) node) in
        rw same at (check-last_lt now p c (rw same h) (ground arith)))
      (accepted_seqs-IncreasingFrom node ps c' (last_of-check_nonneg node now p c h))

-- From a new relay checker with any settings, whatever packets come at whatever times, the
-- sequence numbers that pass for one car node are positive and strictly increasing.
pub accepted_seqs-new_integrity :
    {J : Type 0} (node id : String) (max_age gap : ℤ) (timestamps signatures : Bool)
    (ps : List (ℤ × Packet J))
    → IncreasingFrom
        (pos 0)
        (accepted_seqs node ps (new_integrity id max_age gap timestamps signatures))
accepted_seqs-new_integrity node id max_age gap timestamps signatures ps =
    accepted_seqs-IncreasingFrom node ps (new_integrity id max_age gap timestamps signatures)
      (omega arith)

abbrev pub IsBounded : IntegrityChecker → Type 0
IsBounded c = (node : String) → length (node_sequence node c).seen_sequences ≤ replay_window_size

check-IsBounded :
    {J : Type 0} (now : ℤ) (p : Packet J) (c : IntegrityChecker)
    → IsBounded c
    → IsBounded (check now p c).0
check-IsBounded now p c h j = rw (node_sequence-check j now p c) (
    ground (
      arith,
      h j,
      length-remember replay_window_size (packet_seq p) (node_sequence j c).seen_sequences (h j),
    ))

run_checks-IsBounded :
    {J : Type 0} (ps : List (ℤ × Packet J)) (c : IntegrityChecker)
    → IsBounded c
    → IsBounded (run_checks ps c)
unfolding run_checks
run_checks-IsBounded [] c h = h
run_checks-IsBounded ((now, p) ∷ ps) c h =
    run_checks-IsBounded ps (check now p c).0 (check-IsBounded now p c h)

-- After any calls on a new relay checker, no node's window holds more than REPLAY_WINDOW_SIZE numbers.
pub run_checks-new_integrity :
    {J : Type 0} (id : String) (max_age gap : ℤ) (timestamps signatures : Bool)
    (ps : List (ℤ × Packet J))
    → IsBounded (run_checks ps (new_integrity id max_age gap timestamps signatures))
run_checks-new_integrity id max_age gap timestamps signatures ps =
    run_checks-IsBounded ps (new_integrity id max_age gap timestamps signatures)
      (λ node. omega arith)
