-- ===== src/Relay.antt =====
-- relay-node/src/main.py, class RelayNode: the pipeline of the relay. Each stage goes on to the next or
-- drops the packet. `json.loads` is a parameter twice: `loads_packet` reads what the car
-- transmits, `loads` a decrypted payload. `raised` is an exception that process_packet does not
-- catch; the TypeErrors of a transmission with a mistyped field are left out. Sockets, the queue and
-- the simulation mode are left out too.
pub mod Verdict
pub mod Funnel
pub mod Counts
pub mod Runs
use pitcrypt_f.Prelude.{
  Bool, Dict, Option, Result, String, [], false, if◌then◌else◌, none, raised, returned, some, true,
  ℕ, ℤ, ◌+◌, ◌∷◌,
}
use pitcrypt_f.Anomaly.{
  AnomalyFilter, Number, Severity, Threshold, check_anomaly, is_rejected, new_filter, severity_flag,
  severity_pass, severity_reject,
}
use pitcrypt_f.Crypto.{
  EngineError, Primitives, complete_handshake, new_engine, new_session, no_established_session,
}
use pitcrypt_f.Decryptor.{
  RelayDecryptor, decrypt_packet, new_decryptor, register_session, text_not_hex,
}
use pitcrypt_f.Integrity.{IntegrityChecker, check, new_integrity}
use pitcrypt_f.Packet.{Bytes, Packet}
use pitcrypt_f.Parser.{PacketParser, new_parser}
use pitcrypt_f.Parser.Json.{field_not_hex, parse_json_packet, validate_json_packet}
use pitcrypt_f.Reencryptor.{Reencryptor, new_reencryptor, reencrypt, register_validator_session}

pub record RelayStats : Type 0 where
  pub received : ℕ
  pub parsed : ℕ
  pub decrypted : ℕ
  pub integrity_passed : ℕ
  pub integrity_failed : ℕ
  pub anomaly_clean : ℕ
  pub anomaly_flagged : ℕ
  pub anomaly_rejected : ℕ
  pub reencrypted : ℕ
  pub forwarded : ℕ
  pub dropped : ℕ

abbrev pub no_relay_stats : RelayStats
no_relay_stats = record {
  received = 0;
  parsed = 0;
  decrypted = 0;
  integrity_passed = 0;
  integrity_failed = 0;
  anomaly_clean = 0;
  anomaly_flagged = 0;
  anomaly_rejected = 0;
  reencrypted = 0;
  forwarded = 0;
  dropped = 0;
}

pub record RelayNode (N : Type 0) : Type 0 where
  pub node_id : String
  pub parser : PacketParser
  pub decryptor : RelayDecryptor
  pub integrity : IntegrityChecker
  pub anomaly : AnomalyFilter N
  pub reencryptor : Reencryptor
  pub stats : RelayStats

-- `__init__`, of the settings in the section `integrity` and the thresholds of the file.
abbrev pub new_relay :
    {N : Type 0} → String → ℤ → ℤ → Bool → Bool → Dict (Dict (Threshold N)) → RelayNode N
new_relay id max_age gap timestamps signatures table = record {
  node_id = id;
  parser = new_parser id;
  decryptor = new_decryptor id;
  integrity = new_integrity id max_age gap timestamps signatures;
  anomaly = new_filter id table;
  reencryptor = new_reencryptor id;
  stats = no_relay_stats;
}

pub data RelayCrash : Type 0 where
  -- The ValueError of `bytes.fromhex`, in the parser or in the decryptor.
  crash_not_hex : RelayCrash

-- What comes back: a packet for the validator, None for a dropped one, or an exception.
abbrev pub RelayOutcome : Type 0 → Type 0
RelayOutcome N = RelayNode N × Result RelayCrash (Option (Packet (Dict N)))

module _ {N : Type 0} where
  -- One more dropped packet, and nothing to return.
  pub drop_packet : RelayNode N → RelayOutcome N
  drop_packet v =
      let s = v.stats in (record v { stats = record s { dropped = s.dropped + 1 } }, returned none)

  pub count_received : RelayNode N → RelayNode N
  count_received v = let s = v.stats in record v { stats = record s { received = s.received + 1 } }

  pub count_parsed : RelayNode N → RelayNode N
  count_parsed v = let s = v.stats in record v { stats = record s { parsed = s.parsed + 1 } }

  pub count_decrypted : RelayNode N → RelayNode N
  count_decrypted v =
      let s = v.stats in record v { stats = record s { decrypted = s.decrypted + 1 } }

  pub count_integrity : Bool → RelayNode N → RelayNode N
  count_integrity true v =
      let s = v.stats in record v { stats = record s { integrity_passed = s.integrity_passed + 1 } }
  count_integrity false v =
      let s = v.stats in record v { stats = record s { integrity_failed = s.integrity_failed + 1 } }

  pub count_anomaly : Severity → RelayNode N → RelayNode N
  count_anomaly severity_pass v =
      let s = v.stats in record v { stats = record s { anomaly_clean = s.anomaly_clean + 1 } }
  count_anomaly severity_flag v =
      let s = v.stats in record v { stats = record s { anomaly_flagged = s.anomaly_flagged + 1 } }
  count_anomaly severity_reject v =
      let s = v.stats in record v { stats = record s { anomaly_rejected = s.anomaly_rejected + 1 } }

  pub count_forwarded : RelayNode N → RelayNode N
  count_forwarded v =
      let s = v.stats in
      record v { stats = record s { reencrypted = s.reencrypted + 1; forwarded = s.forwarded + 1 } }

module _ {N : Type 0} (P : Primitives) (nonce : Bytes) where
  pub reencrypt_stage : Packet (Dict N) → RelayNode N → RelayOutcome N
  reencrypt_stage p v =
      let (r, q) = reencrypt P nonce p v.reencryptor in
      let v' = record v { reencryptor = r } in
      elim q [
        | raised x ↦ drop_packet v'
        | returned out ↦ (count_forwarded v', returned (some out))
      ]

module _ {N : Type 0} (P : Primitives) (num : Number N) (nonce : Bytes) where
  pub anomaly_stage : Packet (Dict N) → RelayNode N → RelayOutcome N
  anomaly_stage p v =
      let (f, r) = check_anomaly num p v.anomaly in
      let v' = count_anomaly r.severity (record v { anomaly = f }) in
      if is_rejected r.severity then drop_packet v' else reencrypt_stage P nonce p v'

  -- `now` is the clock that the checker reads, in ms.
  pub integrity_stage : ℤ → Packet (Dict N) → RelayNode N → RelayOutcome N
  integrity_stage now p v =
      let (c, r) = check now p v.integrity in
      let v' = count_integrity r.passed (record v { integrity = c }) in
      if r.passed then anomaly_stage p v' else drop_packet v'

module _ {N : Type 0} (P : Primitives) (num : Number N) (loads : Bytes → Option (Dict N))
    (nonce : Bytes) where
  -- A ValueError of the decryptor is not caught.
  pub decrypt_stage : ℤ → Packet (Dict N) → RelayNode N → RelayOutcome N
  decrypt_stage now p v =
      let (d, r) = decrypt_packet P loads p v.decryptor in
      let v' = record v { decryptor = d } in
      elim r [
        | raised text_not_hex ↦ (v', raised crash_not_hex)
        | raised x ↦ drop_packet v'
        | returned q ↦ integrity_stage P num nonce now q (count_decrypted v')
      ]

module _ {N : Type 0} (P : Primitives) (num : Number N)
    (loads_packet : Bytes → Option (Packet (Dict N))) (loads : Bytes → Option (Dict N))
    (nonce : Bytes) where
  pub process_packet : ℤ → Bytes → RelayNode N → RelayOutcome N
  process_packet now wire v₀ =
      let v = count_received v₀ in
      let (parser, r) = parse_json_packet loads_packet wire v.parser in
      let v' = record v { parser = parser } in
      elim r [
        | raised field_not_hex ↦ (v', raised crash_not_hex)
        | raised x ↦ drop_packet v'
        | returned p ↦ elim (validate_json_packet p) [
          | [] ↦ decrypt_stage P num loads nonce now p (count_parsed v')
          | e ∷ es ↦ drop_packet v'
        ]
      ]

module _ {N : Type 0} (P : Primitives) where
  -- `setup_car_session`: the private key is the one that `new_session` draws. The handshake raises
  -- before anything is registered.
  pub setup_car_session :
      ℤ → Bytes → String → Bytes → RelayNode N → RelayNode N × Result EngineError Bytes
  setup_car_session now private car car_pub v =
      let (e, relay_pub) = new_session P now private (new_engine v.node_id) in
      elim (complete_handshake P now car_pub none e) [
        | raised x ↦ (v, raised x)
        | returned e' ↦ elim (register_session car e' v.decryptor) [
          | none ↦ (v, raised no_established_session)
          | some d ↦ (record v { decryptor = d }, returned relay_pub)
        ]
      ]

  -- `setup_validator_session`; `name` is the node's id with the suffix `_validator`.
  pub setup_validator_session :
      ℤ → Bytes → String → Bytes → RelayNode N → RelayNode N × Result EngineError Bytes
  setup_validator_session now private name val_pub v =
      let (e, relay_pub) = new_session P now private (new_engine name) in
      elim (complete_handshake P now val_pub none e) [
        | raised x ↦ (v, raised x)
        | returned e' ↦ elim (register_validator_session e' v.reencryptor) [
          | none ↦ (v, raised no_established_session)
          | some r ↦ (record v { reencryptor = r }, returned relay_pub)
        ]
      ]
