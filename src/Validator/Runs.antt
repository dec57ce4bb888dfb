-- ===== src/Validator/Runs.antt =====
-- Runs of the validator's pipeline (validator-node/src/main.py, process_packet): which sequence
-- numbers of a node it can accept, whatever arrives.
use pitcrypt_f.Prelude.{
  Bool, List, Option, String, [], arith, if◌then◌else◌, is_some, pos, refl, string_eq, sym, true, ℤ,
  ◌&&◌, ◌==◌, ◌∷◌, ◌≡◌, ◌≤ℤ◌,
}
use pitcrypt_f.Audit.{Ambience}
use pitcrypt_f.Crypto.{Primitives}
use pitcrypt_f.Packet.{Bytes, Packet, packet_node, packet_seq}
use pitcrypt_f.SeqSet.Order.{IncreasingFrom}
use pitcrypt_f.Sequence.{new_checker}
use pitcrypt_f.Sequence.Ordering.{check-IncreasingFrom, check-strict, last_of, last_of-check_nonneg}
use pitcrypt_f.Validator.{Outcome, ValidatorNode, process_packet}
use pitcrypt_f.Validator.Ordering.{Checks, checked, process_packet-Checks, untouched}

-- A packet, and the surroundings and the clock of its call.
abbrev pub Arrival : Type 0 → Type 0
Arrival J = Ambience × ℤ × Packet J

module _ (P : Primitives) (sha256 : Bytes → Bytes) (ed25519 : Bytes → Bytes → Bytes → Bool)
    {J : Type 0} (loads : Bytes → Option J) (no_json : J) where
  -- The sequence numbers of the packets of a node that come back, accepted or flagged, in order.
  unfoldable pub validated_seqs : String → List (Arrival J) → ValidatorNode → List ℤ
  validated_seqs node [] v = []
  validated_seqs node ((w, now, p) ∷ ps) v =
      let o = process_packet P sha256 ed25519 loads no_json w now p v in
      let rest = validated_seqs node ps o.0 in
      if is_some o.1 && packet_node p == node then packet_seq p ∷ rest else rest

  -- One packet, for the node that is looked at.
  Checks-step :
      (node : String) (now : ℤ) (p : Packet J) (v : ValidatorNode) (o : Outcome J) (rest : List ℤ)
      → Checks P sha256 ed25519 loads no_json now p v o
      → v.seq_checker.strict ≡ true
      → pos 0 ≤ℤ last_of node v.seq_checker
      → (o.0.seq_checker.strict ≡ true
          → pos 0 ≤ℤ last_of node o.0.seq_checker
          → IncreasingFrom (last_of node o.0.seq_checker) rest)
      → IncreasingFrom
          (last_of node v.seq_checker)
          (if is_some o.1 && packet_node p == node then packet_seq p ∷ rest else rest)
  Checks-step node now p v o rest (untouched same nothing) strict h next =
      rw (nothing, sym same) (next (rw same strict) (rw same h))
  Checks-step node now p v o rest (checked bs opens authentic agree moved passed) strict h next =
      let c = v.seq_checker in
      let s = check-strict now p c strict in
      let h' = last_of-check_nonneg node now p c h in
      let k = next (rw moved s) (rw moved h') in
      check-IncreasingFrom node now p c (is_some o.1) rest strict h passed (rw moved at k)

  validated_seqs-IncreasingFrom :
      (node : String) (ps : List (Arrival J)) (v : ValidatorNode)
      → v.seq_checker.strict ≡ true
      → pos 0 ≤ℤ last_of node v.seq_checker
      → IncreasingFrom (last_of node v.seq_checker) (validated_seqs node ps v)
  unfolding validated_seqs
  validated_seqs-IncreasingFrom node [] v strict h = tt
  validated_seqs-IncreasingFrom node ((w, now, p) ∷ ps) v strict h =
      let o = process_packet P sha256 ed25519 loads no_json w now p v in
      Checks-step node now p v o (validated_seqs node ps o.0)
        (process_packet-Checks P sha256 ed25519 loads no_json w now p v) strict h
        (λ s k. validated_seqs-IncreasingFrom node ps o.0 s k)

  -- A validator whose checker is new and strict accepts from one node only positive and strictly
  -- increasing sequence numbers, whatever arrives: no packet is accepted twice. The session with
  -- the relay and the registered keys are any.
  pub validated_seqs-new_checker :
      (node id : String) (max_age gap : ℤ) (timestamps : Bool) (ps : List (Arrival J))
      (v : ValidatorNode)
      → v.seq_checker ≡ new_checker id max_age gap timestamps true
      → IncreasingFrom (pos 0) (validated_seqs node ps v)
  validated_seqs-new_checker node id max_age gap timestamps ps v e =
      let start : last_of node v.seq_checker ≡ pos 0 = rw e refl in
      rw start at (validated_seqs-IncreasingFrom node ps v (rw e refl) (rw start (omega arith)))
