-- ===== src/Header.antt =====
-- car_producer/src/packet_builder.py: the binary packet, its 64-byte header and its parser.
-- `struct.pack` raises for a number that does not fit its field; `sha256` and `json.dumps` of a
-- frame are parameters. `team.lower()` and `session.upper()` are the parameters of `new_builder`.
-- A hex text of the returned dicts stands for the bytes or the number that it shows.
pub mod RoundTrip
pub mod ByteRange
use pitcrypt_f.Prelude.{
  Bool, Dict, Option, Result, String, [], be, drop, from_be, if◌then◌else◌, length, ltb, nat_eq,
  none, not, or_default, raised, returned, some, suc, take, zero, ℕ, ◌&&◌, ◌++◌, ◌==◌, ◌^◌, ◌∷◌,
}
use pitcrypt_f.Packet.{Bytes}

pub record HeaderFields : Type 0 where
  pub magic : ℕ
  pub version : ℕ
  pub team_id : ℕ
  pub session_id : ℕ
  pub packet_type : ℕ
  pub sequence : ℕ
  pub timestamp_ms : ℕ
  pub payload_len : ℕ
  pub checksum : Bytes
  pub reserved : ℕ

abbrev pub magic_number : ℕ
magic_number = 0x50435246

abbrev pub protocol_ver : ℕ
protocol_ver = 1

abbrev pub packet_type_tel : ℕ
packet_type_tel = 1

abbrev pub header_size : ℕ
header_size = 64

abbrev pub team_ids : Dict ℕ
team_ids = ("mercedes", 1) ∷ ("redbull", 2) ∷ ("ferrari", 3) ∷ ("mclaren", 4) ∷ ("williams", 5) ∷ []

abbrev pub session_ids : Dict ℕ
session_ids = ("R", 1) ∷ ("Q", 2) ∷ ("S", 3) ∷ []

-- `struct.pack('!IBBBBQQI32sI', …)`: the numbers are checked, the text is cut or padded to 32 bytes.
pub fits : HeaderFields → Bool
fits h =
    ltb h.magic (256 ^ 4)
    && ltb h.version (256 ^ 1)
    && ltb h.team_id (256 ^ 1)
    && ltb h.session_id (256 ^ 1)
    && ltb h.packet_type (256 ^ 1)
    && ltb h.sequence (256 ^ 8)
    && ltb h.timestamp_ms (256 ^ 8)
    && ltb h.payload_len (256 ^ 4)
    && ltb h.reserved (256 ^ 4)

zeros : ℕ → Bytes
zeros zero = []
zeros (suc n) = 0 ∷ zeros n

pad32 : Bytes → Bytes
pad32 bs = take 32 (bs ++ zeros 32)

pub bytes_of : HeaderFields → Bytes
bytes_of h =
    be 4 h.magic
    ++ (be 1 h.version
        ++ (be 1 h.team_id
            ++ (be 1 h.session_id
                ++ (be 1 h.packet_type
                    ++ (be 8 h.sequence
                        ++ (be 8 h.timestamp_ms
                            ++ (be 4 h.payload_len ++ (pad32 h.checksum ++ be 4 h.reserved))))))))

pub pack : HeaderFields → Option Bytes
unfolding fits bytes_of
pack h = if fits h then some (bytes_of h) else none

-- `struct.unpack` of 64 bytes.
pub unpack : Bytes → HeaderFields
unpack b₀ =
    let b₁ = drop 4 b₀ in
    let b₂ = drop 1 b₁ in
    let b₃ = drop 1 b₂ in
    let b₄ = drop 1 b₃ in
    let b₅ = drop 1 b₄ in
    let b₆ = drop 8 b₅ in
    let b₇ = drop 8 b₆ in
    let b₈ = drop 4 b₇ in
    let b₉ = drop 32 b₈ in
    record {
      magic = from_be 0 (take 4 b₀);
      version = from_be 0 (take 1 b₁);
      team_id = from_be 0 (take 1 b₂);
      session_id = from_be 0 (take 1 b₃);
      packet_type = from_be 0 (take 1 b₄);
      sequence = from_be 0 (take 8 b₅);
      timestamp_ms = from_be 0 (take 8 b₆);
      payload_len = from_be 0 (take 4 b₇);
      checksum = take 32 b₈;
      reserved = from_be 0 (take 4 b₉);
    }

-- `next((k for k, v in ids.items() if v == i), None)`.
pub name_of : ℕ → Dict ℕ → Option String
name_of i [] = none
name_of i ((k, v) ∷ ids) = if v == i then some k else name_of i ids

pub data HeaderError : Type 0 where
  too_short : ℕ → HeaderError
  invalid_magic : ℕ → HeaderError

pub record ParsedHeader : Type 0 where
  pub magic : ℕ
  pub version : ℕ
  pub team : String
  pub session : String
  pub packet_type : ℕ
  pub sequence_no : ℕ
  pub timestamp_ms : ℕ
  pub payload_len : ℕ
  pub checksum : Bytes

-- The dict that `parse_header` returns.
pub parsed_of : HeaderFields → ParsedHeader
parsed_of h = record {
  magic = h.magic;
  version = h.version;
  team = or_default (name_of h.team_id team_ids) "unknown";
  session = or_default (name_of h.session_id session_ids) "unknown";
  packet_type = h.packet_type;
  sequence_no = h.sequence;
  timestamp_ms = h.timestamp_ms;
  payload_len = h.payload_len;
  checksum = h.checksum;
}

pub parse_header : Bytes → Result HeaderError ParsedHeader
parse_header packet =
    if ltb (length packet) header_size
    then raised (too_short (length packet))
    else (let h = unpack (take header_size packet) in
        if not (h.magic == magic_number)
        then raised (invalid_magic h.magic)
        else returned (parsed_of h))
