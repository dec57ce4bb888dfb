-- ===== src/Relay/Runs.antt =====
-- Runs of the relay (relay-node/src/main.py, RelayNode.process_packet): which sequence numbers of a car
-- it can forward, whatever it receives.
use pitcrypt_f.Prelude.{
  Bool, Bool-cases, Dict, List, List-cases, Option, Option-cases, Result-cases, String, [], ap,
  arith, false, if◌then◌else◌, inl, inr, none, or_default, pos, raised, refl, returned, some,
  string_eq, true, ℤ, ◌==◌, ◌∙◌, ◌∷◌, ◌≡◌, ◌≤ℤ◌,
}
use pitcrypt_f.Anomaly.{Number, Severity, check_anomaly, is_rejected}
use pitcrypt_f.Crypto.{Primitives}
use pitcrypt_f.Decryptor.{DecryptFailure, decrypt_packet}
use pitcrypt_f.Decryptor.Laws.{decrypt_packet_iff}
use pitcrypt_f.Integrity.{IntegrityChecker, car_node, check, new_integrity}
use pitcrypt_f.Integrity.Ordering.{check-IncreasingFrom, last_of, last_of-check_nonneg}
use pitcrypt_f.Integrity.Verdict.{check-IsIntact}
use pitcrypt_f.Packet.{Bytes, Packet, packet_seq}
use pitcrypt_f.Parser.Json.{JsonIssue, JsonParseError, parse_json_packet, validate_json_packet}
use pitcrypt_f.Reencryptor.Laws.{reencrypt-Forwards}
use pitcrypt_f.Relay.{
  RelayNode, RelayOutcome, anomaly_stage, count_anomaly, count_decrypted, count_forwarded,
  count_integrity, count_parsed, count_received, decrypt_stage, drop_packet, integrity_stage,
  process_packet, reencrypt_stage,
}
use pitcrypt_f.Relay.Verdict.{
  decrypt_stage-returned, decrypt_stage_iff, integrity_stage-failed, integrity_stage-passed,
  parsed_state, process_packet-returned,
}
use pitcrypt_f.SeqSet.Order.{IncreasingFrom}

-- The nonce that is drawn, the clock, and the bytes that arrive.
abbrev pub Transmission : Type 0
Transmission = Bytes × ℤ × Bytes

-- The packet that goes on to the validator, if one does.
abbrev pub forwarded_of : {N : Type 0} → RelayOutcome N → Option (Packet (Dict N))
forwarded_of o = elim o.1 [ returned out ↦ out | raised x ↦ none ]

forwarded_of-some :
    {N : Type 0} (o : RelayOutcome N) (q : Packet (Dict N))
    → forwarded_of o ≡ some q
    → o.1 ≡ returned (some q)
forwarded_of-some o q h = ground arith

module _ {N : Type 0} where
  integrity-count_integrity :
      (b : Bool) (v : RelayNode N) → (count_integrity b v).integrity ≡ v.integrity
  unfolding count_integrity
  integrity-count_integrity b v = ground arith

  integrity-count_anomaly :
      (r : Severity) (v : RelayNode N) → (count_anomaly r v).integrity ≡ v.integrity
  unfolding count_anomaly
  integrity-count_anomaly r v = ground arith

module _ {N : Type 0} (P : Primitives) (num : Number N) (nonce : Bytes) where
  -- The stages after the integrity checks leave their state.
  integrity-reencrypt_stage :
      (p : Packet (Dict N)) (v : RelayNode N)
      → (reencrypt_stage P nonce p v).0.integrity ≡ v.integrity
  unfolding reencrypt_stage drop_packet count_forwarded
  integrity-reencrypt_stage p v = ground arith

  integrity-anomaly_stage :
      (p : Packet (Dict N)) (v : RelayNode N)
      → (anomaly_stage P num nonce p v).0.integrity ≡ v.integrity
  unfolding anomaly_stage drop_packet
  integrity-anomaly_stage p v =
      let (f, r) = check_anomaly num p v.anomaly in
      let u : RelayNode N = record v { anomaly = f } in
      let same = integrity-count_anomaly r.severity u in
      elim (Bool-cases (is_rejected r.severity)) [
        | inl e ↦ rw (e, anomaly_stage) same
        | inr e ↦
            rw (e, anomaly_stage) (integrity-reencrypt_stage p (count_anomaly r.severity u) ∙ same)
      ]

  integrity-integrity_stage :
      (now : ℤ) (p : Packet (Dict N)) (v : RelayNode N)
      → (integrity_stage P num nonce now p v).0.integrity ≡ (check now p v.integrity).0
  unfolding drop_packet
  integrity-integrity_stage now p v =
      let u : RelayNode N = record v { integrity = (check now p v.integrity).0 } in
      elim (Bool-cases (check now p v.integrity).1.passed) [
        | inl e ↦
            rw (integrity_stage-passed P num nonce now p v e) (
              integrity-anomaly_stage p (count_integrity true u) ∙ integrity-count_integrity true u)
        | inr e ↦
            rw (integrity_stage-failed P num nonce now p v e) (integrity-count_integrity false u)
      ]

module _ {N : Type 0} (P : Primitives) (num : Number N)
    (loads_packet : Bytes → Option (Packet (Dict N))) (loads : Bytes → Option (Dict N)) where
  -- The sequence numbers of a car that go on to the validator, in order.
  unfoldable pub forwarded_seqs : String → List Transmission → RelayNode N → List ℤ
  forwarded_seqs car [] v = []
  forwarded_seqs car ((nonce, now, wire) ∷ ts) v =
      let o = process_packet P num loads_packet loads nonce now wire v in
      let rest = forwarded_seqs car ts o.0 in
      elim (forwarded_of o) [
        | none ↦ rest
        | some q ↦ if or_default q.original_node "" == car then packet_seq q ∷ rest else rest
      ]

  -- A transmission reaches the integrity checks, or leaves them as they are and is not forwarded.
  data Moves (now : ℤ) (c : IntegrityChecker) (o : RelayOutcome N) : Type 0 where
    stays : o.0.integrity ≡ c → forwarded_of o ≡ none → Moves now c o
    moves :
        (p : Packet (Dict N))
        → o.0.integrity ≡ (check now p c).0
        → ((q : Packet (Dict N))
            → forwarded_of o ≡ some q
            → ((check now p c).1.passed ≡ true)
              × (packet_seq q ≡ packet_seq p)
              × (or_default q.original_node "" ≡ car_node p))
        → Moves now c o

  decrypt_stage-still :
      (nonce : Bytes) (now : ℤ) (p : Packet (Dict N)) (v : RelayNode N) (x : DecryptFailure)
      → (decrypt_packet P loads p v.decryptor).1 ≡ raised x
      → (((decrypt_stage P num loads nonce now p v).0.integrity ≡ v.integrity)
          × (forwarded_of (decrypt_stage P num loads nonce now p v) ≡ none))
  unfolding decrypt_stage drop_packet
  decrypt_stage-still nonce now p v x e = (ground arith, ground arith)

  -- What is forwarded of a packet that decrypts.
  forwarded_facts :
      (nonce : Bytes) (now : ℤ) (p inner q : Packet (Dict N)) (v : RelayNode N)
      → validate_json_packet p ≡ []
      → (decrypt_packet P loads p v.decryptor).1 ≡ returned inner
      → forwarded_of (decrypt_stage P num loads nonce now p v) ≡ some q
      → ((check now inner v.integrity).1.passed ≡ true)
        × (packet_seq q ≡ packet_seq inner)
        × (or_default q.original_node "" ≡ car_node inner)
  forwarded_facts nonce now p inner q v good e h =
      let k =
        (decrypt_stage_iff P num loads nonce now p q v good).0
          (forwarded_of-some (decrypt_stage P num loads nonce now p v) q h) in
      let a = (decrypt_packet_iff P loads p v.decryptor k.inner).1 k.decrypts in
      let same : k.inner ≡ inner = ground arith in
      let sent = reencrypt-Forwards P nonce k.inner v.reencryptor q k.sealed in
      let from : or_default q.original_node "" ≡ or_default k.inner.node_id "" =
        ap (λ o. or_default o "") sent.from_car in
      let named : k.inner.node_id ≡ p.node_id = ap (λ o. o.node_id) k.decrypts.result in
      let by_name = k.decrypts.named in
      rw (← same) (
        (check-IsIntact now k.inner v.integrity).1 k.intact,
        ap (λ o. or_default o (pos 0)) sent.same_number,
        ground arith,
      )

  -- A packet that decrypts moves, and what is forwarded of it has its number and its car.
  decrypt_stage-Moves :
      (nonce : Bytes) (now : ℤ) (p : Packet (Dict N)) (v : RelayNode N)
      → validate_json_packet p ≡ []
      → Moves now v.integrity (decrypt_stage P num loads nonce now p v)
  unfolding count_decrypted
  decrypt_stage-Moves nonce now p v good =
      elim (Result-cases (decrypt_packet P loads p v.decryptor).1) [
        | inr (x, e) ↦ let (a, b) = decrypt_stage-still nonce now p v x e in stays a b
        | inl (inner, e) ↦
            let u =
              count_decrypted (record v { decryptor = (decrypt_packet P loads p v.decryptor).0 }) in
            moves inner
              (rw (decrypt_stage-returned P num loads nonce now p inner v e)
                (integrity-integrity_stage P num nonce now inner u))
              (λ q h. forwarded_facts nonce now p inner q v good e h)
      ]

  process_packet-still :
      (nonce : Bytes) (now : ℤ) (wire : Bytes) (v : RelayNode N) (x : JsonParseError)
      → (parse_json_packet loads_packet wire v.parser).1 ≡ raised x
      → let o = process_packet P num loads_packet loads nonce now wire v in
        (o.0.integrity ≡ v.integrity) × (forwarded_of o ≡ none)
  unfolding process_packet drop_packet count_received
  process_packet-still nonce now wire v x e = (ground arith, ground arith)

  process_packet-invalid_still :
      (nonce : Bytes) (now : ℤ) (wire : Bytes) (p : Packet (Dict N)) (v : RelayNode N)
      (i : JsonIssue) (is : List JsonIssue)
      → (parse_json_packet loads_packet wire v.parser).1 ≡ returned p
      → validate_json_packet p ≡ i ∷ is
      → let o = process_packet P num loads_packet loads nonce now wire v in
        (o.0.integrity ≡ v.integrity) × (forwarded_of o ≡ none)
  unfolding process_packet drop_packet count_received
  process_packet-invalid_still nonce now wire p v i is e bad = (ground arith, ground arith)

  process_packet-Moves :
      (nonce : Bytes) (now : ℤ) (wire : Bytes) (v : RelayNode N)
      → Moves now v.integrity (process_packet P num loads_packet loads nonce now wire v)
  unfolding count_parsed count_received
  process_packet-Moves nonce now wire v =
      elim (Result-cases (parse_json_packet loads_packet wire v.parser).1) [
        | inr (x, e) ↦ let (a, b) = process_packet-still nonce now wire v x e in stays a b
        | inl (p, e) ↦ elim (List-cases (validate_json_packet p)) [
          | inr (i, is, bad) ↦
              let (a, b) = process_packet-invalid_still nonce now wire p v i is e bad in stays a b
          | inl good ↦
              rw (process_packet-returned P num loads_packet loads nonce now wire p v e good) (
                decrypt_stage-Moves nonce now p
                  (parsed_state P num loads_packet loads nonce now wire v) good)
        ]
      ]

  forwarded_seqs-IncreasingFrom :
      (car : String) (ts : List Transmission) (v : RelayNode N)
      → pos 0 ≤ℤ last_of car v.integrity
      → IncreasingFrom (last_of car v.integrity) (forwarded_seqs car ts v)
  unfolding forwarded_seqs
  forwarded_seqs-IncreasingFrom car [] v h = tt
  forwarded_seqs-IncreasingFrom car ((nonce, now, wire) ∷ ts) v h =
      let o = process_packet P num loads_packet loads nonce now wire v in
      let next = forwarded_seqs-IncreasingFrom car ts o.0 in
      elim (process_packet-Moves nonce now wire v) [
        | stays same nothing ↦ rw (nothing, forwarded_seqs) (rw same at (next (rw same h)))
        | moves p same facts ↦
            let k = rw same at (next (rw same (last_of-check_nonneg car now p v.integrity h))) in
            elim (Option-cases (forwarded_of o)) [
              | inl e ↦
                  rw (e, forwarded_seqs)
                    (check-IncreasingFrom car now p v.integrity false (forwarded_seqs car ts o.0) h
                      (λ x. absurd (ground arith)) k)
              | inr (q, e) ↦
                  let (passed, same_seq, same_car) = facts q e in
                  rw (e, forwarded_seqs, same_car, same_seq)
                    (check-IncreasingFrom car now p v.integrity true (forwarded_seqs car ts o.0) h
                      (λ x. passed) k)
            ]
      ]

  -- From a new relay, whatever it receives, the sequence numbers that it forwards for one car are
  -- positive and strictly increasing: no packet is forwarded twice.
  pub forwarded_seqs-new_relay :
      (car id : String) (max_age gap : ℤ) (timestamps signatures : Bool) (v : RelayNode N)
      (ts : List Transmission)
      → v.integrity ≡ new_integrity id max_age gap timestamps signatures
      → IncreasingFrom (pos 0) (forwarded_seqs car ts v)
  forwarded_seqs-new_relay car id max_age gap timestamps signatures v ts e =
      let start : last_of car v.integrity ≡ pos 0 = rw e refl in
      rw start at (forwarded_seqs-IncreasingFrom car ts v (rw start (omega arith)))
