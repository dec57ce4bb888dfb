-- ===== src/Car.antt =====
-- car_producer/src/main.py, class CarProducerNode: the pipeline of the car. One engine is shared by the
-- node, its encryptor and its scheduler, so it is one field here. A frame of the simulator is an
-- argument, `none` for its exception; `dumps` is the JSON text of a frame's payload, `dumps_packet`
-- that of a packet. Threads are steps: one pass of each loop. Connecting is left out.
pub mod Silence
pub mod Laws
pub mod Runs
pub mod Tally
pub mod Ledger
pub mod Delivery
pub mod Liveness
pub mod Acceptance
use pitcrypt_f.Prelude.{
  Bool, List, Option, String, [], be, false, if◌then◌else◌, leb_ℤ, length, ltb, ltb_ℤ, none, not,
  pos, raised, returned, some, true, ℕ, ℤ, ◌&&◌, ◌++◌, ◌+◌, ◌^◌, ◌∷◌,
}
use pitcrypt_f.Builder.{BuiltPacket, PacketBuilder, build}
use pitcrypt_f.Crypto.{
  CryptoEngine, EngineError, Primitives, complete_handshake, new_engine, new_session,
}
use pitcrypt_f.Encryptor.{PacketEncryptor, encrypt_packet, new_encryptor}
use pitcrypt_f.KeyScheduler.{
  KeyScheduler, RotationClock, RotationEvent, RotationReason, do_rotation, new_scheduler, notify,
  record_packet, should_rotate,
}
use pitcrypt_f.Packet.{Bytes, Packet, empty_packet}
use pitcrypt_f.Signer.{CarPacket, PacketSigner, built_dict, new_signer, sign_packet}

pub record CarStats : Type 0 where
  pub packets_built : ℕ
  pub packets_signed : ℕ
  pub packets_encrypted : ℕ
  pub packets_sent : ℕ
  pub packets_failed : ℕ
  pub key_rotations : ℕ

abbrev pub no_car_stats : CarStats
no_car_stats = record {
  packets_built = 0;
  packets_signed = 0;
  packets_encrypted = 0;
  packets_sent = 0;
  packets_failed = 0;
  key_rotations = 0;
}

pub record CarNode (J : Type 0) : Type 0 where
  pub node_id : String
  pub builder : PacketBuilder
  pub signer : PacketSigner
  pub crypto : CryptoEngine
  pub car_pub : Bytes
  pub scheduler : KeyScheduler
  pub encryptor : Option PacketEncryptor
  pub has_socket : Bool
  pub packet_queue : List (Packet J)
  pub max_queue : ℤ
  pub stats : CarStats

-- `__init__`, with the builder that was made, the identity key, and the private key that `new_session`
-- draws at time `now`.
abbrev pub new_car :
    {J : Type 0} → Primitives → String → PacketBuilder → Bytes → ℤ → Bytes → ℤ → ℤ → ℤ → CarNode J
new_car P id b identity now private age packets room =
    let (e, car_pub) = new_session P now private (new_engine id) in
    record {
      node_id = id;
      builder = b;
      signer = new_signer id identity;
      crypto = e;
      car_pub = car_pub;
      scheduler = new_scheduler id age packets now;
      encryptor = none;
      has_socket = false;
      packet_queue = [];
      max_queue = room;
      stats = no_car_stats;
    }

-- The node after a call, and the encrypted packet or None.
abbrev pub CarOutcome : Type 0 → Type 0
CarOutcome J = CarNode J × Option (Packet J)

module _ {J : Type 0} where
  pub count_built : CarNode J → CarNode J
  count_built v =
      let s = v.stats in record v { stats = record s { packets_built = s.packets_built + 1 } }

  pub count_signed : CarNode J → CarNode J
  count_signed v =
      let s = v.stats in record v { stats = record s { packets_signed = s.packets_signed + 1 } }

  pub count_encrypted : CarNode J → CarNode J
  count_encrypted v =
      let s = v.stats in
      record v { stats = record s { packets_encrypted = s.packets_encrypted + 1 } }

  pub count_sent : CarNode J → CarNode J
  count_sent v =
      let s = v.stats in record v { stats = record s { packets_sent = s.packets_sent + 1 } }

  pub count_failed : CarNode J → CarNode J
  count_failed v =
      let s = v.stats in record v { stats = record s { packets_failed = s.packets_failed + 1 } }

  -- The `except` of the pipeline.
  pub fail_packet : CarNode J → CarOutcome J
  fail_packet v = (count_failed v, none)

  -- `_on_key_rotation`: the new key is only logged.
  pub on_key_rotation : RotationEvent → Bytes → CarNode J → CarNode J
  on_key_rotation event new_pub v =
      let s = v.stats in record v { stats = record s { key_rotations = s.key_rotations + 1 } }

module _ {J : Type 0} (P : Primitives) where
  pub encrypt_stage : Bytes → CarPacket → CarNode J → CarOutcome J
  encrypt_stage nonce signed v = elim v.encryptor [
    | none ↦ fail_packet v
    | some x ↦
        (let ((e', x'), r) = encrypt_packet P nonce signed v.crypto x in
          let v' : CarNode J = record v { crypto = e'; encryptor = some x' } in
          elim r [
            | raised err ↦ fail_packet v'
            | returned q ↦
                (record (count_encrypted v') { scheduler = record_packet v.scheduler }, some q)
          ])
  ]

  module _ (sign : Bytes → Bytes → Bytes) where
    pub sign_stage : Bytes → BuiltPacket → CarNode J → CarOutcome J
    sign_stage nonce built v =
        let (s, r) = sign_packet sign (built_dict built) v.signer in
        let v' : CarNode J = record v { signer = s } in
        elim r [
          | raised err ↦ fail_packet v'
          | returned signed ↦ encrypt_stage nonce signed (count_signed v')
        ]

    -- `_build_and_encrypt`; `now` is the builder's clock in ms.
    pub build_and_encrypt :
        {F : Type 0}
        → (Bytes → Bytes)
        → (F → Bytes)
        → ℕ
        → Bytes
        → Option F
        → CarNode J
        → CarOutcome J
    build_and_encrypt sha256 dumps now nonce frame v = elim frame [
      | none ↦ fail_packet v
      | some f ↦
          (let (b, built) = build sha256 dumps now f v.builder in
            let v' : CarNode J = record v { builder = b } in
            elim built [
              | none ↦ fail_packet v'
              | some packet ↦ sign_stage nonce packet (count_built v')
            ])
    ]

  -- A rotation of the scheduler, with the node's callback.
  pub rotate_keys : RotationClock → Bytes → RotationReason → CarNode J → CarNode J
  rotate_keys t private reason v =
      let (e, k, event, new_pub) = do_rotation P t private reason v.crypto v.scheduler in
      notify (on_key_rotation ∷ []) event new_pub (record v { crypto = e; scheduler = k })

  -- One pass of the scheduler's thread.
  pub scheduler_pass : ℤ → RotationClock → Bytes → CarNode J → CarNode J
  scheduler_pass now t private v = elim (should_rotate now v.scheduler) [
    | none ↦ v
    | some reason ↦ rotate_keys t private reason v
  ]

  -- `_simulate_handshake` and the exception that it lets out, with the private key that the simulated
  -- relay draws. An exception leaves what was done before it.
  pub simulate_handshake : ℤ → Bytes → CarNode J → CarNode J × Option EngineError
  simulate_handshake now private v =
      let (relay, relay_pub) = new_session P now private (new_engine "relay_sim") in
      elim (complete_handshake P now relay_pub none v.crypto) [
        | raised x ↦ (v, some x)
        | returned e ↦ elim (complete_handshake P now v.car_pub none relay) [
          | raised x ↦ (record v { crypto = e }, some x)
          | returned relay' ↦
              (record v { crypto = e; encryptor = some (new_encryptor v.node_id) }, none)
        ]
      ]

-- The bytes on the wire: the length in four bytes and the JSON text. `none` is the OverflowError of
-- `to_bytes`.
pub frame_bytes : Bytes → Option Bytes
frame_bytes payload =
    if ltb (length payload) (2 ^ 32) then some (be 4 (length payload) ++ payload) else none

module _ {J : Type 0} where
  -- `put_nowait`, which drops the packet where the queue is full; no bound is a size of 0 or less.
  pub enqueue : Packet J → CarNode J → CarNode J
  enqueue q v =
      if ltb_ℤ (pos 0) v.max_queue && leb_ℤ v.max_queue (pos (length v.packet_queue))
      then v
      else record v { packet_queue = v.packet_queue ++ (q ∷ []) }

  -- One pass of the producer loop, after `_build_and_encrypt`.
  pub producer_pass : CarOutcome J → CarNode J
  producer_pass (v, none) = v
  producer_pass (v, some q) = enqueue q v

  -- The nine keys that are transmitted.
  pub transmit_data : Packet J → Packet J
  transmit_data q = record (empty_packet {J = J}) {
    nonce = q.nonce;
    ciphertext = q.ciphertext;
    header_hex = q.header_hex;
    signature = q.signature;
    sequence_no = q.sequence_no;
    timestamp = q.timestamp;
    team = q.team;
    session = q.session;
    node_id = q.node_id;
  }

  -- `_send_packet`, where `sendall` is the socket's success. `none` is an exception that it lets out.
  pub send_packet : (Packet J → Bytes) → (Bytes → Bool) → Packet J → CarNode J → Option Bool
  send_packet dumps_packet sendall q v =
      if not v.has_socket then some false else elim (frame_bytes (dumps_packet (transmit_data q))) [
        | none ↦ none
        | some bs ↦ some (sendall bs)
      ]

  -- One pass of the transmitter loop.
  pub transmitter_pass : (Packet J → Bytes) → (Bytes → Bool) → CarNode J → CarNode J
  transmitter_pass dumps_packet sendall v = elim v.packet_queue [
    | [] ↦ v
    | q ∷ qs ↦
        (let v' : CarNode J = record v { packet_queue = qs } in
          if not v.has_socket then count_sent v' else elim (send_packet dumps_packet sendall q v) [
            | none ↦ v'
            | some true ↦ count_sent v'
            | some false ↦ count_failed v'
          ])
  ]
