-- ===== src/Sequence/Window.antt =====
-- The rolling window of the validator's sequence checker (validator-node/src/sequence_checker.py):
-- its bound, and which replays it catches without the ordering check.
use text.Mathlib.TextEquality.{eq_iff}
use pitcrypt_f.Prelude.{
  All, Bool, Bool-cases, List, String, [], arith, contains, false, if◌then◌else◌, inl, inr, int_eq,
  length, lookup-insert, pos, refl, string_eq, true, ℕ, ℤ, ◌&&◌, ◌<ℤ◌, ◌<◌, ◌==◌, ◌∙◌, ◌∷◌, ◌≡◌,
  ◌≤◌,
}
use pitcrypt_f.Packet.{Packet, packet_node, packet_seq}
use pitcrypt_f.SeqSet.{remember}
use pitcrypt_f.SeqSet.Laws.{contains-remember_self, contains_above, length-remember, remember_below}
use pitcrypt_f.Sequence.{
  ValidatorSequenceChecker, check, check_within, fresh_node, init_node, new_checker, node_state,
  replay_window,
}
use pitcrypt_f.Sequence.Ordering.{run_checks}
use pitcrypt_f.Sequence.Verdict.{
  check-passed, check_ts-check, nodes-check, seen_after, strict-check,
}

-- No node's set of seen numbers holds more than `window`.
abbrev pub IsBounded : ℕ → ValidatorSequenceChecker → Type 0
IsBounded window c = (node : String) → length (node_state node (pos 0) c).seen_seqs ≤ window

seen-node_state :
    (node : String) (now : ℤ) (c : ValidatorSequenceChecker)
    → (node_state node now c).seen_seqs ≡ (node_state node (pos 0) c).seen_seqs
seen-node_state node now c = ground arith

seen-init_node :
    (node j : String) (now : ℤ) (c : ValidatorSequenceChecker)
    → (node_state j (pos 0) (init_node node now c)).seen_seqs ≡ (node_state j (pos 0) c).seen_seqs
seen-init_node node j now c =
    ground (arith, eq_iff node j, lookup-insert node j (fresh_node now) c.nodes)

module _ {J : Type 0} (window : ℕ) (now : ℤ) (p : Packet J) (c : ValidatorSequenceChecker) where
  seen-check :
      (j : String)
      → (node_state j (pos 0) (check_within window now p c).0).seen_seqs ≡ (
          if (check_within window now p c).1.passed && packet_node p == j
          then remember window (packet_seq p) (node_state j (pos 0) c).seen_seqs
          else (node_state j (pos 0) c).seen_seqs)
  seen-check j = ground (
    arith,
    eq_iff (packet_node p) j,
    nodes-check window now p c,
    seen-init_node (packet_node p) j now c,
    seen-node_state j now c,
    lookup-insert (packet_node p) j
        (seen_after window (packet_seq p) (node_state (packet_node p) now c))
        (init_node (packet_node p) now c).nodes,
  )

  check-IsBounded : IsBounded window c → IsBounded window (check_within window now p c).0
  check-IsBounded h j = rw (seen-check j) (
      ground (
        arith,
        h j,
        length-remember window (packet_seq p) (node_state j (pos 0) c).seen_seqs (h j),
      ))

run_checks-IsBounded :
    {J : Type 0} (ps : List (ℤ × Packet J)) (c : ValidatorSequenceChecker)
    → IsBounded replay_window c
    → IsBounded replay_window (run_checks ps c)
unfolding run_checks
run_checks-IsBounded [] c h = h
run_checks-IsBounded ((now, p) ∷ ps) c h =
    run_checks-IsBounded ps (check now p c).0
      (unfold check in check-IsBounded replay_window now p c h)

-- After any calls on a new checker, no node's window holds more than REPLAY_WINDOW numbers.
pub run_checks-new_checker :
    {J : Type 0} (id : String) (max_age gap : ℤ) (timestamps strict_ordering : Bool)
    (ps : List (ℤ × Packet J))
    → IsBounded replay_window
        (run_checks ps (new_checker id max_age gap timestamps strict_ordering))
run_checks-new_checker id max_age gap timestamps strict_ordering ps =
    run_checks-IsBounded ps (new_checker id max_age gap timestamps strict_ordering)
      (λ node. omega arith)

seen-check_self :
    {J : Type 0} (now : ℤ) (p : Packet J) (c : ValidatorSequenceChecker)
    → (check now p c).1.passed ≡ true
    → (node_state (packet_node p) (pos 0) (check now p c).0).seen_seqs
      ≡ remember replay_window (packet_seq p) (node_state (packet_node p) (pos 0) c).seen_seqs
unfolding check
seen-check_self now p c passed =
    seen-check replay_window now p c (packet_node p)
    ∙ rw (passed, (eq_iff (packet_node p) (packet_node p)).1 refl)

-- Without the ordering check too: a packet that passed is refused when it comes again next, at any
-- time and with any other content, if the window of its node was not full.
pub check-replay_refused :
    {J : Type 0} (now later : ℤ) (p q : Packet J) (c : ValidatorSequenceChecker)
    → length (node_state (packet_node p) (pos 0) c).seen_seqs < replay_window
    → packet_node q ≡ packet_node p
    → packet_seq q ≡ packet_seq p
    → (check now p c).1.passed ≡ true
    → (check later q (check now p c).0).1.passed ≡ false
check-replay_refused now later p q c room same_node same_seq passed =
    elim (Bool-cases (check later q (check now p c).0).1.passed) [
      | inl again ↦
          let unseen = ((check-passed later q (check now p c).0).0 again).unseen in
          let gone =
            rw (same_node, same_seq, seen-node_state, seen-check_self now p c passed) at unseen in
          absurd (omega (arith, contains-remember_self replay_window (packet_seq p) _ gone))
      | inr refused ↦ refused
    ]

lax_untimed_passes :
    {J : Type 0} (now : ℤ) (p : Packet J) (c : ValidatorSequenceChecker)
    → c.strict ≡ false
    → c.check_ts ≡ false
    → pos 0 <ℤ packet_seq p
    → contains (packet_seq p) (node_state (packet_node p) now c).seen_seqs ≡ false
    → (check now p c).1.passed ≡ true
lax_untimed_passes now p c lax untimed positive unseen =
    (check-passed now p c).1
      (record { positive = positive; unseen = unseen; ordered = λ e. cc; fresh = λ e. cc })

-- With the ordering and timestamp checks off, a number below all in a full window passes whenever it
-- comes, since the window drops it as its least as soon as it is added: its replay passes as well.
pub check-replay_passes :
    {J : Type 0} (now later : ℤ) (p : Packet J) (c : ValidatorSequenceChecker)
    → c.strict ≡ false
    → c.check_ts ≡ false
    → pos 0 <ℤ packet_seq p
    → length (node_state (packet_node p) (pos 0) c).seen_seqs ≡ replay_window
    → All (λ x. packet_seq p <ℤ x) (node_state (packet_node p) (pos 0) c).seen_seqs
    → ((check now p c).1.passed ≡ true) × ((check later p (check now p c).0).1.passed ≡ true)
unfolding check
check-replay_passes now later p c lax untimed positive full below =
    let c' = (check now p c).0 in
    let seen = (node_state (packet_node p) (pos 0) c).seen_seqs in
    let unseen : contains (packet_seq p) seen ≡ false = contains_above (packet_seq p) seen below in
    let first : (check now p c).1.passed ≡ true =
      lax_untimed_passes now p c lax untimed positive (rw seen-node_state unseen) in
    let kept =
      seen-check_self now p c first ∙ remember_below replay_window (packet_seq p) seen full below in
    (
      first,
      lax_untimed_passes later p c' (strict-check replay_window now p c ∙ lax)
          (check_ts-check replay_window now p c ∙ untimed) positive
          (rw (seen-node_state, kept) unseen),
    )
