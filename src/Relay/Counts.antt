-- ===== src/Relay/Counts.antt =====
-- The statistics of the relay (relay-node/src/main.py, RelayNode): how the counters of the stages fit
-- together in every state that the relay reaches.
use pitcrypt_f.Prelude.{
  Bool, Dict, List-cases, Option, Result-cases, String, arith, inl, inr, refl, ℤ, ◌≡◌,
}
use pitcrypt_f.Anomaly.{Number, Threshold}
use pitcrypt_f.Crypto.{Primitives}
use pitcrypt_f.Packet.{Bytes, Packet}
use pitcrypt_f.Parser.Json.{
  field_not_hex, invalid_json, missing_fields, parse_json_packet, validate_json_packet,
}
use pitcrypt_f.Relay.{
  RelayNode, count_received, new_relay, process_packet, setup_car_session, setup_validator_session,
}
use pitcrypt_f.Relay.Funnel.{
  IsFunnel, IsFunnel-crash, IsFunnelWith, count_parsed-IsFunnel, count_received-IsFunnel,
  decrypt_stage-IsFunnel, drop_packet-IsFunnel,
}
use pitcrypt_f.Relay.Verdict.{parsed_state, process_packet-returned}

module _ {N : Type 0} (P : Primitives) (num : Number N)
    (loads_packet : Bytes → Option (Packet (Dict N))) (loads : Bytes → Option (Dict N)) where
  process_packet-IsFunnel :
      (nonce : Bytes) (now : ℤ) (wire : Bytes) (v : RelayNode N)
      → IsFunnel v
      → IsFunnel (process_packet P num loads_packet loads nonce now wire v).0
  unfolding process_packet count_received
  process_packet-IsFunnel nonce now wire v h =
      let u : RelayNode N = record (count_received v) {
        parser = (parse_json_packet loads_packet wire v.parser).0;
      } in
      let k : IsFunnelWith 1 1 0 0 0 0 u.stats = count_received-IsFunnel v h in
      let dropped = drop_packet-IsFunnel 1 0 0 u k in
      elim (Result-cases (parse_json_packet loads_packet wire v.parser).1) [
        | inr (field_not_hex, e) ↦ rw (e, process_packet) (IsFunnel-crash 1 0 u k)
        | inr (invalid_json, e) ↦ rw (e, process_packet) dropped
        | inr (missing_fields, e) ↦ rw (e, process_packet) dropped
        | inl (p, e) ↦ elim (List-cases (validate_json_packet p)) [
          | inr (i, is, bad) ↦ rw (e, process_packet, bad) dropped
          | inl good ↦
              rw (process_packet-returned P num loads_packet loads nonce now wire p v e good) (
                decrypt_stage-IsFunnel P num loads nonce now p
                  (parsed_state P num loads_packet loads nonce now wire v)
                  (count_parsed-IsFunnel u k))
        ]
      ]

  -- The states that the relay reaches from a start, by transmissions and handshakes.
  pub data Reaches (v : RelayNode N) : RelayNode N → Type 0 where
    at_start : Reaches v v
    by_packet :
        {u : RelayNode N} (nonce : Bytes) (now : ℤ) (wire : Bytes)
        → Reaches v u
        → Reaches v (process_packet P num loads_packet loads nonce now wire u).0
    by_car :
        {u : RelayNode N} (now : ℤ) (private : Bytes) (car : String) (car_pub : Bytes)
        → Reaches v u
        → Reaches v (setup_car_session P now private car car_pub u).0
    by_validator :
        {u : RelayNode N} (now : ℤ) (private : Bytes) (name : String) (val_pub : Bytes)
        → Reaches v u
        → Reaches v (setup_validator_session P now private name val_pub u).0

  stats-setup_car_session :
      (now : ℤ) (private : Bytes) (car : String) (car_pub : Bytes) (v : RelayNode N)
      → (setup_car_session P now private car car_pub v).0.stats ≡ v.stats
  unfolding setup_car_session
  stats-setup_car_session now private car car_pub v = ground arith

  stats-setup_validator_session :
      (now : ℤ) (private : Bytes) (name : String) (val_pub : Bytes) (v : RelayNode N)
      → (setup_validator_session P now private name val_pub v).0.stats ≡ v.stats
  unfolding setup_validator_session
  stats-setup_validator_session now private name val_pub v = ground arith

  Reaches-IsFunnel : (v : RelayNode N) {u : RelayNode N} → IsFunnel v → Reaches v u → IsFunnel u
  Reaches-IsFunnel v h at_start = h
  Reaches-IsFunnel v h (by_packet {u} nonce now wire r) =
      process_packet-IsFunnel nonce now wire u (Reaches-IsFunnel v h r)
  Reaches-IsFunnel v h (by_car {u} now private car car_pub r) =
      rw (stats-setup_car_session now private car car_pub u) (Reaches-IsFunnel v h r)
  Reaches-IsFunnel v h (by_validator {u} now private name val_pub r) =
      rw (stats-setup_validator_session now private name val_pub u) (Reaches-IsFunnel v h r)

  -- In every state that a new relay reaches by transmissions and handshakes, in any order, the
  -- forwarded and the dropped packets are at most the received ones, the decrypted packets at most the
  -- parsed ones, every decrypted packet passed or failed the integrity checks, every one that passed
  -- is clean, flagged or rejected, and the forwarded ones are the reencrypted ones, at most the clean
  -- and the flagged.
  pub Reaches-new_relay :
      (id : String) (max_age gap : ℤ) (timestamps signatures : Bool)
      (table : Dict (Dict (Threshold N))) {u : RelayNode N}
      → Reaches (new_relay id max_age gap timestamps signatures table) u
      → IsFunnel u
  Reaches-new_relay id max_age gap timestamps signatures table r =
      Reaches-IsFunnel _
        (record {
          settled = omega arith;
          parsed = omega arith;
          decrypted = omega arith;
          accounted = refl;
          filtered = refl;
          forwarded = omega arith;
          reencrypted = refl;
        })
        r
