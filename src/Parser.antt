-- ===== src/Parser.antt =====
-- relay-node/src/packet_parser.py, PacketParser.parse: the parser of binary packets at the relay. `sha256`
-- is a parameter. An entry of `parse_errors` is a constructor with the values that its text shows.
-- `struct.unpack` of 64 bytes does not raise.
pub mod Laws
pub mod Json
use pitcrypt_f.Prelude.{
  Bool, List, Option, Result, String, [], bytes_eqb, drop, false, if◌then◌else◌, is_some, length,
  ltb, nat_eq, not, raised, returned, take, true, ℕ, ◌+◌, ◌==◌, ◌∷◌,
}
use pitcrypt_f.Header.{
  HeaderError, HeaderFields, header_size, invalid_magic, magic_number, name_of, packet_type_tel,
  protocol_ver, session_ids, team_ids, too_short, unpack,
}
use pitcrypt_f.Packet.{Bytes}

pub data ParseIssue : Type 0 where
  unsupported_version unsupported_packet_type unknown_team unknown_session : ℕ → ParseIssue
  payload_length_mismatch : ℕ → ℕ → ParseIssue
  checksum_mismatch zero_sequence zero_timestamp : ParseIssue

pub record PacketParser : Type 0 where
  pub node_id : String
  pub parsed_count : ℕ
  pub rejected_count : ℕ

abbrev pub new_parser : String → PacketParser
new_parser id = record { node_id = id; parsed_count = 0; rejected_count = 0 }

pub record ParsedPacket : Type 0 where
  pub raw_bytes : Bytes
  pub header : Bytes
  pub payload_bytes : Bytes
  pub magic : ℕ
  pub version : ℕ
  pub team : Option String
  pub session : Option String
  pub packet_type : ℕ
  pub sequence_no : ℕ
  pub timestamp_ms : ℕ
  pub payload_len : ℕ
  pub checksum : Bytes
  pub checksum_valid : Bool
  pub is_valid : Bool
  pub parse_errors : List ParseIssue

-- `len(errors) == 0`.
pub no_errors : List ParseIssue → Bool
no_errors [] = true
no_errors (e ∷ es) = false

-- `if failed: errors.append(e)`, before the errors that follow.
pub append_if : Bool → ParseIssue → List ParseIssue → List ParseIssue
append_if failed e es = if failed then e ∷ es else es

module _ (sha256 : Bytes → Bytes) where
  -- The errors in the order of their tests.
  issues : HeaderFields → Bytes → List ParseIssue
  issues h payload = append_if (not (h.version == protocol_ver)) (unsupported_version h.version) (
      append_if (not (h.packet_type == packet_type_tel)) (unsupported_packet_type h.packet_type) (
        append_if (not (is_some (name_of h.team_id team_ids))) (unknown_team h.team_id) (
          append_if (not (is_some (name_of h.session_id session_ids)))
            (unknown_session h.session_id)
            (append_if (not (length payload == h.payload_len))
              (payload_length_mismatch (length payload) h.payload_len)
              (append_if (not (bytes_eqb (sha256 payload) h.checksum)) checksum_mismatch (
                append_if (h.sequence == 0) zero_sequence
                  (append_if (h.timestamp_ms == 0) zero_timestamp [])))))))

  describe : Bytes → HeaderFields → ParsedPacket
  describe wire h =
      let payload = take h.payload_len (drop header_size wire) in
      let errors = issues h payload in
      record {
        raw_bytes = wire;
        header = take header_size wire;
        payload_bytes = payload;
        magic = h.magic;
        version = h.version;
        team = name_of h.team_id team_ids;
        session = name_of h.session_id session_ids;
        packet_type = h.packet_type;
        sequence_no = h.sequence;
        timestamp_ms = h.timestamp_ms;
        payload_len = h.payload_len;
        checksum = h.checksum;
        checksum_valid = bytes_eqb (sha256 payload) h.checksum;
        is_valid = no_errors errors;
        parse_errors = errors;
      }

  reject_parse : PacketParser → PacketParser
  reject_parse p = record p { rejected_count = p.rejected_count + 1 }

  pub parse : Bytes → PacketParser → PacketParser × Result HeaderError ParsedPacket
  parse wire p =
      if ltb (length wire) header_size
      then (reject_parse p, raised (too_short (length wire)))
      else (let h = unpack (take header_size wire) in
          if not (h.magic == magic_number)
          then (reject_parse p, raised (invalid_magic h.magic))
          else (let d = describe wire h in
              (
                if d.is_valid
                    then record p { parsed_count = p.parsed_count + 1 }
                    else reject_parse p,
                returned d,
              )))
