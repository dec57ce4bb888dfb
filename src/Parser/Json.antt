-- ===== src/Parser/Json.antt =====
-- relay-node/src/packet_parser.py, PacketParser.parse_json_packet and validate_json_packet: the
-- transmission format. `loads` is the decoding of UTF-8 and JSON, and `none` its failure. A decoded
-- object is a packet whose present keys hold texts in the text fields and integers in the integer
-- ones; what the code does with null or another type there, or with JSON that is no object, is left out.
pub mod Laws
use mathlib.Core.Option
use pitcrypt_f.Prelude.{
  Bool, List, Option, Result, String, [], contains, false, if◌then◌else◌, is_some, leb_ℤ, length,
  nat_eq, none, not, or_default, pos, raised, returned, some, string_eq, ℕ, ℤ, ◌&&◌, ◌++◌, ◌+◌,
  ◌==◌, ◌∷◌,
}
use pitcrypt_f.Hex.{from_hex}
use pitcrypt_f.Packet.{Bytes, Packet, packet_seq}
use pitcrypt_f.Parser.{PacketParser}

pub data JsonParseError : Type 0 where
  -- The two PacketParseErrors, and the ValueError of `bytes.fromhex`, which is not caught.
  invalid_json missing_fields field_not_hex : JsonParseError

pub data JsonIssue : Type 0 where
  bad_team bad_session : Option String → JsonIssue
  bad_sequence : ℤ → JsonIssue
  bad_nonce_size : ℕ → JsonIssue
  bad_node_id : JsonIssue

-- `x in xs` for a text that may be absent.
abbrev pub is_named : Option String → List String → Bool
is_named none xs = false
is_named (some s) xs = contains s xs

module _ {J : Type 0} where
  -- `all(f in data for f in required)`.
  unfoldable pub has_required : Packet J → Bool
  has_required p =
      is_some p.nonce
      && (is_some p.ciphertext
          && (is_some p.header_hex
              && (is_some p.signature
                  && (is_some p.sequence_no
                      && (is_some p.timestamp
                          && (is_some p.team && (is_some p.session && is_some p.node_id)))))))

  -- The three conversions of hex texts, in their order.
  convert_hex : Packet J → Option (Packet J)
  convert_hex p = Option.bind (from_hex (or_default p.nonce [])) λ nonce_part.
      Option.bind (from_hex (or_default p.ciphertext [])) λ ciphertext_part.
        Option.map
          (λ head. record p {
            nonce_bytes = some nonce_part;
            ciphertext_bytes = some ciphertext_part;
            header = some head;
          })
          (from_hex (or_default p.header_hex []))

  pub parse_json_packet :
      (Bytes → Option (Packet J))
      → Bytes
      → PacketParser
      → PacketParser × Result JsonParseError (Packet J)
  parse_json_packet loads bs parser = elim (loads bs) [
    | none ↦ (parser, raised invalid_json)
    | some p ↦
        if not (has_required p) then (parser, raised missing_fields) else elim (convert_hex p) [
          | none ↦ (parser, raised field_not_hex)
          | some q ↦ (record parser { parsed_count = parser.parsed_count + 1 }, returned q)
        ]
  ]

  pub validate_json_packet : Packet J → List JsonIssue
  validate_json_packet p =
      let nonce = or_default p.nonce_bytes [] in
      (if is_named p.team ("mercedes" ∷ "redbull" ∷ []) then [] else bad_team p.team ∷ [])
      ++ ((if is_named p.session ("R" ∷ "Q" ∷ "S" ∷ []) then [] else bad_session p.session ∷ [])
          ++ ((if leb_ℤ (packet_seq p) (pos 0) then bad_sequence (packet_seq p) ∷ [] else [])
              ++ ((if length nonce == 12 then [] else bad_nonce_size (length nonce) ∷ [])
                  ++ (if or_default p.node_id "" == "" then bad_node_id ∷ [] else []))))
