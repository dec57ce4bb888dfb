-- ===== src/Relay/Funnel.antt =====
-- The counters of the relay (relay-node/src/main.py, RelayNode) while a packet passes its stages.
use pitcrypt_f.Prelude.{
  Bool-cases, Dict, Option, Result-cases, arith, false, if◌then◌else◌, inl, inr, true, ℕ, ℤ, ◌+◌,
  ◌≡◌, ◌≤◌,
}
use pitcrypt_f.Anomaly.{Number, Severity, check_anomaly, is_rejected}
use pitcrypt_f.Crypto.{Primitives}
use pitcrypt_f.Decryptor.{
  ciphertext_absent, decrypt_packet, decryption_error, no_session_for, nonce_absent,
  packet_tampered, packet_without_node_id, text_not_hex,
}
use pitcrypt_f.Integrity.{check}
use pitcrypt_f.Packet.{Bytes, Packet}
use pitcrypt_f.Reencryptor.{reencrypt}
use pitcrypt_f.Relay.{
  RelayNode, RelayStats, anomaly_stage, count_anomaly, count_decrypted, count_forwarded,
  count_integrity, count_parsed, count_received, decrypt_stage, drop_packet, integrity_stage,
  reencrypt_stage,
}
use pitcrypt_f.Relay.Verdict.{
  decrypt_stage-returned, integrity_stage-failed, integrity_stage-passed,
}

-- The counters, with a packet in flight: `n` packets not settled, `m` not parsed, `k` parsed and not
-- decrypted, `d` decrypted and not checked for integrity, `i` that passed and are not checked for
-- anomalies, `a` admitted by the filter and not forwarded.
pub record IsFunnelWith (n m k d i a : ℕ) (s : RelayStats) : Type 0 where
  pub settled : s.forwarded + s.dropped + n ≤ s.received
  pub parsed : s.parsed + m ≤ s.received
  pub decrypted : s.decrypted + k ≤ s.parsed
  pub accounted : s.decrypted ≡ s.integrity_passed + s.integrity_failed + d
  pub filtered : s.integrity_passed ≡ s.anomaly_clean + s.anomaly_flagged + s.anomaly_rejected + i
  pub forwarded : s.forwarded + a ≤ s.anomaly_clean + s.anomaly_flagged
  pub reencrypted : s.reencrypted ≡ s.forwarded

-- No packet is in flight.
abbrev pub IsFunnel : {N : Type 0} → RelayNode N → Type 0
IsFunnel v = IsFunnelWith 0 0 0 0 0 0 v.stats

-- What is in flight after a verdict of the filter.
abbrev admitted : Severity → ℕ
admitted r = if is_rejected r then 0 else 1

module _ {N : Type 0} where
  -- A packet that is dropped settles, wherever it was.
  pub drop_packet-IsFunnel :
      (m k a : ℕ) (v : RelayNode N) → IsFunnelWith 1 m k 0 0 a v.stats → IsFunnel (drop_packet v).0
  unfolding drop_packet
  drop_packet-IsFunnel m k a v h = record {
    settled = omega (arith, h.settled);
    parsed = omega (arith, h.parsed);
    decrypted = omega (arith, h.decrypted);
    accounted = h.accounted;
    filtered = h.filtered;
    forwarded = omega (arith, h.forwarded);
    reencrypted = h.reencrypted;
  }

  -- A packet that an exception stops is received and not settled.
  pub IsFunnel-crash : (m k : ℕ) (v : RelayNode N) → IsFunnelWith 1 m k 0 0 0 v.stats → IsFunnel v
  IsFunnel-crash m k v h = record {
    settled = omega (arith, h.settled);
    parsed = omega (arith, h.parsed);
    decrypted = omega (arith, h.decrypted);
    accounted = h.accounted;
    filtered = h.filtered;
    forwarded = h.forwarded;
    reencrypted = h.reencrypted;
  }

  pub count_received-IsFunnel :
      (v : RelayNode N) → IsFunnel v → IsFunnelWith 1 1 0 0 0 0 (count_received v).stats
  unfolding count_received
  count_received-IsFunnel v h = record {
    settled = omega (arith, h.settled);
    parsed = omega (arith, h.parsed);
    decrypted = h.decrypted;
    accounted = h.accounted;
    filtered = h.filtered;
    forwarded = h.forwarded;
    reencrypted = h.reencrypted;
  }

  pub count_parsed-IsFunnel :
      (v : RelayNode N)
      → IsFunnelWith 1 1 0 0 0 0 v.stats
      → IsFunnelWith 1 0 1 0 0 0 (count_parsed v).stats
  unfolding count_parsed
  count_parsed-IsFunnel v h = record {
    settled = h.settled;
    parsed = omega (arith, h.parsed);
    decrypted = omega (arith, h.decrypted);
    accounted = h.accounted;
    filtered = h.filtered;
    forwarded = h.forwarded;
    reencrypted = h.reencrypted;
  }

  count_decrypted-IsFunnel :
      (v : RelayNode N)
      → IsFunnelWith 1 0 1 0 0 0 v.stats
      → IsFunnelWith 1 0 0 1 0 0 (count_decrypted v).stats
  unfolding count_decrypted
  count_decrypted-IsFunnel v h = record {
    settled = h.settled;
    parsed = h.parsed;
    decrypted = omega (arith, h.decrypted);
    accounted = omega (arith, h.accounted);
    filtered = h.filtered;
    forwarded = h.forwarded;
    reencrypted = h.reencrypted;
  }

  count_integrity-IsFunnel :
      (v : RelayNode N)
      → IsFunnelWith 1 0 0 1 0 0 v.stats
      → IsFunnelWith 1 0 0 0 1 0 (count_integrity true v).stats
        × IsFunnelWith 1 0 0 0 0 0 (count_integrity false v).stats
  unfolding count_integrity
  count_integrity-IsFunnel v h = (
    record {
      settled = h.settled;
      parsed = h.parsed;
      decrypted = h.decrypted;
      accounted = omega (arith, h.accounted);
      filtered = omega (arith, h.filtered);
      forwarded = h.forwarded;
      reencrypted = h.reencrypted;
    },
    record {
      settled = h.settled;
      parsed = h.parsed;
      decrypted = h.decrypted;
      accounted = omega (arith, h.accounted);
      filtered = h.filtered;
      forwarded = h.forwarded;
      reencrypted = h.reencrypted;
    },
  )

  count_anomaly-IsFunnel :
      (r : Severity) (v : RelayNode N)
      → IsFunnelWith 1 0 0 0 1 0 v.stats
      → IsFunnelWith 1 0 0 0 0 (admitted r) (count_anomaly r v).stats
  unfolding count_anomaly
  count_anomaly-IsFunnel r v h = record {
    settled = ground (arith, h.settled);
    parsed = ground (arith, h.parsed);
    decrypted = ground (arith, h.decrypted);
    accounted = ground (arith, h.accounted);
    filtered = ground (arith, h.filtered);
    forwarded = ground (arith, h.forwarded);
    reencrypted = ground (arith, h.reencrypted);
  }

  count_forwarded-IsFunnel :
      (v : RelayNode N) → IsFunnelWith 1 0 0 0 0 1 v.stats → IsFunnel (count_forwarded v)
  unfolding count_forwarded
  count_forwarded-IsFunnel v h = record {
    settled = omega (arith, h.settled);
    parsed = h.parsed;
    decrypted = h.decrypted;
    accounted = h.accounted;
    filtered = h.filtered;
    forwarded = omega (arith, h.forwarded);
    reencrypted = omega (arith, h.reencrypted);
  }

module _ {N : Type 0} (P : Primitives) (num : Number N) (nonce : Bytes) where
  reencrypt_stage-IsFunnel :
      (p : Packet (Dict N)) (v : RelayNode N)
      → IsFunnelWith 1 0 0 0 0 1 v.stats
      → IsFunnel (reencrypt_stage P nonce p v).0
  unfolding reencrypt_stage
  reencrypt_stage-IsFunnel p v h =
      let (r, out) = reencrypt P nonce p v.reencryptor in
      let u : RelayNode N = record v { reencryptor = r } in
      elim (Result-cases out) [
        | inr (x, e) ↦ rw (e, reencrypt_stage) (drop_packet-IsFunnel 0 0 1 u h)
        | inl (q, e) ↦ rw (e, reencrypt_stage) (count_forwarded-IsFunnel u h)
      ]

  anomaly_stage-IsFunnel :
      (p : Packet (Dict N)) (v : RelayNode N)
      → IsFunnelWith 1 0 0 0 1 0 v.stats
      → IsFunnel (anomaly_stage P num nonce p v).0
  unfolding anomaly_stage
  anomaly_stage-IsFunnel p v h =
      let (f, r) = check_anomaly num p v.anomaly in
      let u = count_anomaly r.severity (record v { anomaly = f }) in
      let k = count_anomaly-IsFunnel r.severity (record v { anomaly = f }) h in
      elim (Bool-cases (is_rejected r.severity)) [
        | inl e ↦ rw (e, anomaly_stage) (drop_packet-IsFunnel 0 0 0 u (rw e at k))
        | inr e ↦ rw (e, anomaly_stage) (reencrypt_stage-IsFunnel p u (rw e at k))
      ]

  integrity_stage-IsFunnel :
      (now : ℤ) (p : Packet (Dict N)) (v : RelayNode N)
      → IsFunnelWith 1 0 0 1 0 0 v.stats
      → IsFunnel (integrity_stage P num nonce now p v).0
  integrity_stage-IsFunnel now p v h =
      let u : RelayNode N = record v { integrity = (check now p v.integrity).0 } in
      let (yes_passed, failed) = count_integrity-IsFunnel u h in
      elim (Bool-cases (check now p v.integrity).1.passed) [
        | inl e ↦
            rw (integrity_stage-passed P num nonce now p v e)
              (anomaly_stage-IsFunnel p (count_integrity true u) yes_passed)
        | inr e ↦
            rw (integrity_stage-failed P num nonce now p v e)
              (drop_packet-IsFunnel 0 0 0 (count_integrity false u) failed)
      ]

module _ {N : Type 0} (P : Primitives) (num : Number N) (loads : Bytes → Option (Dict N))
    (nonce : Bytes) (now : ℤ) where
  pub decrypt_stage-IsFunnel :
      (p : Packet (Dict N)) (v : RelayNode N)
      → IsFunnelWith 1 0 1 0 0 0 v.stats
      → IsFunnel (decrypt_stage P num loads nonce now p v).0
  unfolding decrypt_stage
  decrypt_stage-IsFunnel p v h =
      let u : RelayNode N = record v { decryptor = (decrypt_packet P loads p v.decryptor).0 } in
      let dropped = drop_packet-IsFunnel 0 1 0 u h in
      elim (Result-cases (decrypt_packet P loads p v.decryptor).1) [
        | inl (o, e) ↦ rw (decrypt_stage-returned P num loads nonce now p o v e) (
            integrity_stage-IsFunnel P num nonce now o (count_decrypted u)
              (count_decrypted-IsFunnel u h))
        | inr (text_not_hex, e) ↦ rw (e, decrypt_stage) (IsFunnel-crash 0 1 u h)
        | inr (packet_without_node_id, e) ↦ rw (e, decrypt_stage) dropped
        | inr (no_session_for node, e) ↦ rw (e, decrypt_stage) dropped
        | inr (nonce_absent, e) ↦ rw (e, decrypt_stage) dropped
        | inr (ciphertext_absent, e) ↦ rw (e, decrypt_stage) dropped
        | inr (packet_tampered, e) ↦ rw (e, decrypt_stage) dropped
        | inr (decryption_error, e) ↦ rw (e, decrypt_stage) dropped
      ]
