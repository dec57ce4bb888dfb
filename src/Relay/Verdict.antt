-- ===== src/Relay/Verdict.antt =====
-- When the relay forwards a packet, and as what (relay-node/src/main.py, RelayNode.process_packet).
use pitcrypt_f.Prelude.{
  Any, Bool-cases, Dict, List, List-cases, Option, Result-cases, [], arith, false, inl, inr,
  or_default, raised, returned, some, true, ℤ, ◌↔◌, ◌∷◌, ◌≡◌,
}
use pitcrypt_f.Anomaly.{Number, Severity, channels, check_anomaly, is_rejected}
use pitcrypt_f.Anomaly.Laws.{IsImpossible, check_anomaly-rejected}
use pitcrypt_f.Crypto.{Primitives}
use pitcrypt_f.Decryptor.{DecryptFailure, RelayDecryptor, decrypt_packet}
use pitcrypt_f.Decryptor.Laws.{Decrypts, decrypt_packet_iff}
use pitcrypt_f.Integrity.{IntegrityChecker, car_node, check, has_signature, node_sequence}
use pitcrypt_f.Integrity.Verdict.{IsIntact, check-IsIntact}
use pitcrypt_f.Packet.{Bytes, Packet, packet_seq, packet_ts}
use pitcrypt_f.Parser.Json.{JsonIssue, JsonParseError, parse_json_packet, validate_json_packet}
use pitcrypt_f.Reencryptor.{Reencryptor, reencrypt}
use pitcrypt_f.Relay.{
  RelayNode, anomaly_stage, count_anomaly, count_decrypted, count_integrity, count_parsed,
  count_received, decrypt_stage, drop_packet, integrity_stage, process_packet, reencrypt_stage,
}

module _ {N : Type 0} where
  -- The count of a severity is a statistic: the components are the same.
  reencryptor-count_anomaly :
      (s : Severity) (v : RelayNode N) → (count_anomaly s v).reencryptor ≡ v.reencryptor
  unfolding count_anomaly
  reencryptor-count_anomaly s v = ground arith

  -- A dropped packet is not a forwarded one.
  drop_packet-none :
      (v : RelayNode N) (q : Packet (Dict N)) → ¬ ((drop_packet v).1 ≡ returned (some q))
  unfolding drop_packet
  drop_packet-none v q h = ground arith

-- What the relay asks of a parsed packet, and what it forwards.
pub record IsForwarded {N : Type 0} (P : Primitives) (num : Number N)
    (loads : Bytes → Option (Dict N)) (nonce : Bytes) (now : ℤ) (d : RelayDecryptor)
    (c : IntegrityChecker) (r : Reencryptor) (p q : Packet (Dict N)) : Type 0 where
  pub inner : Packet (Dict N)
  pub valid : validate_json_packet p ≡ []
  pub decrypts : Decrypts P loads p d inner
  pub intact :
      IsIntact c
        (node_sequence (car_node inner) c)
        (packet_seq inner)
        (packet_ts inner)
        now
        (has_signature inner)
  pub possible : ¬ Any (IsImpossible num (or_default inner.payload_json [])) channels
  pub sealed : (reencrypt P nonce inner r).1 ≡ returned q

module _ {N : Type 0} (P : Primitives) (num : Number N) (nonce : Bytes) where
  reencrypt_stage_iff :
      (p q : Packet (Dict N)) (v : RelayNode N)
      → ((reencrypt_stage P nonce p v).1 ≡ returned (some q))
        ↔ ((reencrypt P nonce p v.reencryptor).1 ≡ returned q)
  unfolding reencrypt_stage drop_packet
  reencrypt_stage_iff p q v = (λ h. ground arith, λ h. ground arith)

  anomaly_stage_iff :
      (p q : Packet (Dict N)) (v : RelayNode N)
      → ((anomaly_stage P num nonce p v).1 ≡ returned (some q)) ↔ (
          (is_rejected (check_anomaly num p v.anomaly).1.severity ≡ false)
          × ((reencrypt P nonce p v.reencryptor).1 ≡ returned q))
  unfolding anomaly_stage
  anomaly_stage_iff p q v =
      let (f, r) = check_anomaly num p v.anomaly in
      let v' = count_anomaly r.severity (record v { anomaly = f }) in
      let same : v'.reencryptor ≡ v.reencryptor =
        reencryptor-count_anomaly r.severity (record v { anomaly = f }) in
      let rest = rw same at (reencrypt_stage_iff p q v') in
      elim (Bool-cases (is_rejected r.severity)) [
        | inl e ↦
            (λ h. absurd (drop_packet-none v' q (ground arith)), λ (a, b). absurd (ground arith))
        | inr e ↦ (λ h. (e, rest.0 (ground arith)), λ (a, b). let x = rest.1 b in ground arith)
      ]

  -- The two ways on from the integrity checks.
  pub integrity_stage-passed :
      (now : ℤ) (p : Packet (Dict N)) (v : RelayNode N)
      → (check now p v.integrity).1.passed ≡ true
      → integrity_stage P num nonce now p v
        ≡ anomaly_stage P num nonce p
            (count_integrity true (record v { integrity = (check now p v.integrity).0 }))
  unfolding integrity_stage
  integrity_stage-passed now p v e = rw e

  pub integrity_stage-failed :
      (now : ℤ) (p : Packet (Dict N)) (v : RelayNode N)
      → (check now p v.integrity).1.passed ≡ false
      → integrity_stage P num nonce now p v
        ≡ drop_packet (count_integrity false (record v { integrity = (check now p v.integrity).0 }))
  unfolding integrity_stage
  integrity_stage-failed now p v e = rw e

  integrity_stage_iff :
      (now : ℤ) (p q : Packet (Dict N)) (v : RelayNode N)
      → ((integrity_stage P num nonce now p v).1 ≡ returned (some q)) ↔ (
          ((check now p v.integrity).1.passed ≡ true)
          × (is_rejected (check_anomaly num p v.anomaly).1.severity ≡ false)
          × ((reencrypt P nonce p v.reencryptor).1 ≡ returned q))
  unfolding count_integrity
  integrity_stage_iff now p q v =
      let u : RelayNode N = record v { integrity = (check now p v.integrity).0 } in
      elim (Bool-cases (check now p v.integrity).1.passed) [
        | inl e ↦
            let rest = anomaly_stage_iff p q (count_integrity true u) in
            (
              λ h. let (a, b) = rest.0 (rw (integrity_stage-passed now p v e) at h) in (e, a, b),
              λ (a, b, c). rw (integrity_stage-passed now p v e) (rest.1 (b, c)),
            )
        | inr e ↦ (
          λ h. absurd (
              drop_packet-none (count_integrity false u) q
                (rw (integrity_stage-failed now p v e) at h)),
          λ (a, b, c). absurd (ground arith),
        )
      ]

module _ {N : Type 0} (P : Primitives) (num : Number N) (loads : Bytes → Option (Dict N))
    (nonce : Bytes) (now : ℤ) where
  -- What becomes of a packet that does not decrypt.
  decrypt_stage-raised :
      (p q : Packet (Dict N)) (v : RelayNode N) (x : DecryptFailure)
      → (decrypt_packet P loads p v.decryptor).1 ≡ raised x
      → ¬ ((decrypt_stage P num loads nonce now p v).1 ≡ returned (some q))
  unfolding decrypt_stage drop_packet
  decrypt_stage-raised p q v x e h = ground arith

  -- And of one that does.
  pub decrypt_stage-returned :
      (p o : Packet (Dict N)) (v : RelayNode N)
      → (decrypt_packet P loads p v.decryptor).1 ≡ returned o
      → decrypt_stage P num loads nonce now p v
        ≡ integrity_stage P num nonce now o
            (count_decrypted (record v { decryptor = (decrypt_packet P loads p v.decryptor).0 }))
  unfolding decrypt_stage
  decrypt_stage-returned p o v e = rw (e, decrypt_stage)

  -- Of a packet that is valid, the relay forwards what it should.
  pub decrypt_stage_iff :
      (p q : Packet (Dict N)) (v : RelayNode N)
      → validate_json_packet p ≡ []
      → ((decrypt_stage P num loads nonce now p v).1 ≡ returned (some q))
        ↔ IsForwarded P num loads nonce now v.decryptor v.integrity v.reencryptor p q
  unfolding count_decrypted
  decrypt_stage_iff p q v valid = elim (Result-cases (decrypt_packet P loads p v.decryptor).1) [
    | inr (x, e) ↦ (
      λ h. absurd (decrypt_stage-raised p q v x e h),
      λ k.
          absurd (
            let a = (decrypt_packet_iff P loads p v.decryptor k.inner).1 k.decrypts in
            ground arith),
    )
    | inl (o, e) ↦
        let v' =
          count_decrypted (record v { decryptor = (decrypt_packet P loads p v.decryptor).0 }) in
        let rest = integrity_stage_iff P num nonce now o q v' in
        let allowed = check_anomaly-rejected num o v.anomaly in
        (
          λ h.
              let (a, b, c) = rest.0 (rw (decrypt_stage-returned p o v e) at h) in
              record {
                inner = o;
                valid = valid;
                decrypts = (decrypt_packet_iff P loads p v.decryptor o).0 e;
                intact = (check-IsIntact now o v.integrity).0 a;
                possible = λ k. let x = allowed.1 k in ground arith;
                sealed = c;
              },
          λ k.
              let a = (decrypt_packet_iff P loads p v.decryptor k.inner).1 k.decrypts in
              let same : k.inner ≡ o = ground arith in
              rw (decrypt_stage-returned p o v e) (
                rest.1 (
                  (check-IsIntact now o v.integrity).1 (rw same at k.intact),
                  elim (Bool-cases (is_rejected (check_anomaly num o v.anomaly).1.severity)) [
                    | inl x ↦ absurd ((rw same at k.possible) (allowed.0 x))
                    | inr x ↦ x
                  ],
                  rw same at k.sealed,
                )),
        )
  ]

module _ {N : Type 0} (P : Primitives) (num : Number N)
    (loads_packet : Bytes → Option (Packet (Dict N))) (loads : Bytes → Option (Dict N))
    (nonce : Bytes) (now : ℤ) where
  -- The relay once a packet is parsed.
  abbrev pub parsed_state : Bytes → RelayNode N → RelayNode N
  parsed_state wire v =
      count_parsed
        (record (count_received v) { parser = (parse_json_packet loads_packet wire v.parser).0 })

  process_packet-raised :
      (wire : Bytes) (q : Packet (Dict N)) (v : RelayNode N) (x : JsonParseError)
      → (parse_json_packet loads_packet wire v.parser).1 ≡ raised x
      → ¬ ((process_packet P num loads_packet loads nonce now wire v).1 ≡ returned (some q))
  unfolding process_packet drop_packet count_received
  process_packet-raised wire q v x e h = ground arith

  process_packet-invalid :
      (wire : Bytes) (p q : Packet (Dict N)) (v : RelayNode N) (i : JsonIssue) (is : List JsonIssue)
      → (parse_json_packet loads_packet wire v.parser).1 ≡ returned p
      → validate_json_packet p ≡ i ∷ is
      → ¬ ((process_packet P num loads_packet loads nonce now wire v).1 ≡ returned (some q))
  unfolding process_packet drop_packet count_received
  process_packet-invalid wire p q v i is e bad h = ground arith

  pub process_packet-returned :
      (wire : Bytes) (p : Packet (Dict N)) (v : RelayNode N)
      → (parse_json_packet loads_packet wire v.parser).1 ≡ returned p
      → validate_json_packet p ≡ []
      → process_packet P num loads_packet loads nonce now wire v
        ≡ decrypt_stage P num loads nonce now p (parsed_state wire v)
  unfolding process_packet count_received
  process_packet-returned wire p v e good = rw (e, process_packet, good)

  -- The relay forwards a packet exactly when the bytes are read as one with a known team and session, a
  -- positive number, a nonce of 12 bytes and a car; the car has a session that opens it to JSON; its
  -- number, time and signature pass the integrity checks; no channel is out of its physical limits;
  -- and the session with the validator seals it. What it forwards is what the reencryptor makes.
  pub process_packet_forwards_iff :
      (wire : Bytes) (q : Packet (Dict N)) (v : RelayNode N)
      → ((process_packet P num loads_packet loads nonce now wire v).1 ≡ returned (some q)) ↔ (
          (p : Packet (Dict N)) × ((parse_json_packet loads_packet wire v.parser).1 ≡ returned p)
          × IsForwarded P num loads nonce now v.decryptor v.integrity v.reencryptor p q)
  unfolding count_received count_parsed
  process_packet_forwards_iff wire q v =
      elim (Result-cases (parse_json_packet loads_packet wire v.parser).1) [
        | inr (x, e) ↦
            (λ h. absurd (process_packet-raised wire q v x e h), λ (p, a, b). absurd (ground arith))
        | inl (p, e) ↦ elim (List-cases (validate_json_packet p)) [
          | inr (i, is, bad) ↦ (
            λ h. absurd (process_packet-invalid wire p q v i is e bad h),
            λ (p', a, k).
                absurd (
                  let same : p' ≡ p = ground arith in
                  let good = rw same at k.valid in ground arith),
          )
          | inl good ↦
              let v' = parsed_state wire v in
              let rest = decrypt_stage_iff P num loads nonce now p q v' good in
              (
                λ h. (p, e, rest.0 (rw (process_packet-returned wire p v e good) at h)),
                λ (p', a, k).
                    let same : p' ≡ p = ground arith in
                    rw (process_packet-returned wire p v e good) (rest.1 (rw same at k)),
              )
        ]
      ]
