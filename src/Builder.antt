-- ===== src/Builder.antt =====
-- car_producer/src/packet_builder.py, class PacketBuilder: building a packet from a frame, and
-- reading one. `F` is the type of frames, `dumps` the JSON text of a frame's payload, and `sha256`
-- the hash; `lower` and `upper` are the methods of str. A packet is `none` where `struct.pack` raises.
pub mod Laws
use mathlib.Core.Option
use pitcrypt_f.Prelude.{
  Bool, Option, Result, String, bytes_eqb, drop, has_key, if◌then◌else◌, length, lookup, none, not,
  raised, returned, some, take, ℕ, ◌++◌, ◌+◌,
}
use pitcrypt_f.Header.{
  HeaderError, HeaderFields, ParsedHeader, header_size, magic_number, pack, packet_type_tel,
  parse_header, protocol_ver, session_ids, team_ids,
}
use pitcrypt_f.Packet.{Bytes}

pub record PacketBuilder : Type 0 where
  pub team : String
  pub session : String
  pub node_id : String
  pub sequence : ℕ
  pub packets_built : ℕ

pub data BuilderError : Type 0 where
  invalid_team : String → BuilderError
  invalid_session : String → BuilderError

-- `__init__` with a given node id.
pub new_builder :
    (String → String)
    → (String → String)
    → String
    → String
    → String
    → Result BuilderError PacketBuilder
new_builder lower upper t s id =
    if not (has_key (lower t) team_ids)
    then raised (invalid_team t)
    else if not (has_key (upper s) session_ids)
    then raised (invalid_session s)
    else returned (record {
      team = lower t;
      session = upper s;
      node_id = id;
      sequence = 0;
      packets_built = 0;
    })

pub record BuiltPacket : Type 0 where
  pub raw_bytes : Bytes
  pub header : Bytes
  pub payload : Bytes
  pub sequence_no : ℕ
  pub timestamp : ℕ
  pub checksum : Bytes
  pub team : String
  pub session : String
  pub node_id : String
  pub size : ℕ

module _ (sha256 : Bytes → Bytes) where
  -- What `struct.pack` is given for a team's and a session's number.
  abbrev pub fields_with : ℕ → ℕ → Bytes → ℕ → ℕ → HeaderFields
  fields_with seq ts body team session = record {
    magic = magic_number;
    version = protocol_ver;
    team_id = team;
    session_id = session;
    packet_type = packet_type_tel;
    sequence = seq;
    timestamp_ms = ts;
    payload_len = length body;
    checksum = sha256 body;
    reserved = 0;
  }

  -- `TEAM_IDS[self.team]` and `SESSION_IDS[self.session]` raise for an unknown name.
  pub header_fields : PacketBuilder → ℕ → ℕ → Bytes → Option HeaderFields
  header_fields b seq ts body =
      Option.bind (lookup b.team team_ids)
        λ team. Option.map (fields_with seq ts body team) (lookup b.session session_ids)

  pub build_header : PacketBuilder → ℕ → ℕ → Bytes → Option Bytes
  build_header b seq ts body = Option.bind (header_fields b seq ts body) pack

  -- The packet of a given number, time and payload.
  pub packet_of : PacketBuilder → ℕ → ℕ → Bytes → Bytes → BuiltPacket
  packet_of b seq ts body head = record {
    raw_bytes = head ++ body;
    header = head;
    payload = body;
    sequence_no = seq;
    timestamp = ts;
    checksum = sha256 body;
    team = b.team;
    session = b.session;
    node_id = b.node_id;
    size = length (head ++ body);
  }

  -- `build`: the number is taken before anything can raise, the count is raised at the end.
  pub build :
      {F : Type 0} → (F → Bytes) → ℕ → F → PacketBuilder → PacketBuilder × Option BuiltPacket
  build dumps now frame b =
      let seq = b.sequence + 1 in
      let body = dumps frame in
      elim (build_header b seq now body) [
        | none ↦ (record b { sequence = seq }, none)
        | some head ↦ (
          record b { sequence = seq; packets_built = b.packets_built + 1 },
          some (packet_of b seq now body head),
        )
      ]

  -- The payload's bytes of a parsed packet: `parse_payload` before `json.loads`.
  pub payload_slice : Bytes → ParsedHeader → Bytes
  payload_slice packet h = take h.payload_len (drop header_size packet)

  pub verify_checksum : Bytes → Result HeaderError Bool
  verify_checksum packet = elim (parse_header packet) [
    | raised e ↦ raised e
    | returned h ↦ returned (bytes_eqb (sha256 (payload_slice packet h)) h.checksum)
  ]
