-- ===== src/Parser/Json/Laws.antt =====
-- Which transmitted packets the relay's parser takes (relay-node/src/packet_parser.py).
use mathlib.Core.Option
use pitcrypt_f.Prelude.{
  Bool, List, Option, [], arith, false, if◌then◌else◌, leb_ℤ, length, nat_eq, or_default, pos,
  returned, some, string_eq, true, ℕ, ℤ, ◌++◌, ◌<ℤ◌, ◌==◌, ◌↔◌, ◌∷◌, ◌≡◌,
}
use pitcrypt_f.Hex.{from_hex}
use pitcrypt_f.Packet.{Bytes, Packet, packet_seq}
use pitcrypt_f.Parser.{PacketParser}
use pitcrypt_f.Parser.Json.{
  JsonIssue, convert_hex, has_required, is_named, parse_json_packet, validate_json_packet,
}

unless_iff :
    (b : Bool) (e : JsonIssue) (es : List JsonIssue)
    → ((if b then [] else e ∷ []) ++ es ≡ []) ↔ ((b ≡ true) × (es ≡ []))
unless_iff b e es = (λ h. ground arith, λ h. ground arith)

when_iff :
    (b : Bool) (e : JsonIssue) (es : List JsonIssue)
    → ((if b then e ∷ [] else []) ++ es ≡ []) ↔ ((b ≡ false) × (es ≡ []))
when_iff b e es = (λ h. ground arith, λ h. ground arith)

last_iff : (b : Bool) (e : JsonIssue) → ((if b then e ∷ [] else []) ≡ []) ↔ (b ≡ false)
last_iff b e = (λ h. ground arith, λ h. ground arith)

positive_iff : (n : ℤ) → (leb_ℤ n (pos 0) ≡ false) ↔ (pos 0 <ℤ n)
positive_iff n = (λ h. ground arith, λ h. ground arith)

same_iff_12 : (n : ℕ) → ((n == 12) ≡ true) ↔ (n ≡ 12)
same_iff_12 n = (λ h. ground arith, λ h. ground arith)

module _ {J : Type 0} where
  -- A transmission with all fields, its hex fields in hex, is parsed, and the bytes are added.
  pub parse_json_packet-returned :
      (loads : Bytes → Option (Packet J)) (wire n c head : Bytes) (p : Packet J)
      (parser : PacketParser)
      → loads wire ≡ some p
      → has_required p ≡ true
      → from_hex (or_default p.nonce []) ≡ some n
      → from_hex (or_default p.ciphertext []) ≡ some c
      → from_hex (or_default p.header_hex []) ≡ some head
      → (parse_json_packet loads wire parser).1
        ≡ returned
            (record p { nonce_bytes = some n; ciphertext_bytes = some c; header = some head })
  unfolding parse_json_packet convert_hex Option.bind
  parse_json_packet-returned loads wire n c head p parser a b d e f = ground arith

  -- What the relay asks of a parsed packet.
  pub record IsTransmissible (p : Packet J) : Type 0 where
    pub known_team : is_named p.team ("mercedes" ∷ "redbull" ∷ []) ≡ true
    pub known_session : is_named p.session ("R" ∷ "Q" ∷ "S" ∷ []) ≡ true
    pub positive : pos 0 <ℤ packet_seq p
    pub nonce_size : length (or_default p.nonce_bytes []) ≡ 12
    pub named : (or_default p.node_id "" == "") ≡ false

  -- The relay finds no issue in a packet exactly when its team is mercedes or redbull, its session R, Q
  -- or S, its number positive, its nonce of 12 bytes, and its node named.
  pub validate_json_packet_iff : (p : Packet J) → (validate_json_packet p ≡ []) ↔ IsTransmissible p
  unfolding validate_json_packet
  validate_json_packet_iff p = (
    λ h.
        let (a, h₁) = (unless_iff _ _ _).0 h in
        let (b, h₂) = (unless_iff _ _ _).0 h₁ in
        let (c, h₃) = (when_iff _ _ _).0 h₂ in
        let (d, h₄) = (unless_iff _ _ _).0 h₃ in
        record {
          known_team = a;
          known_session = b;
          positive = (positive_iff _).0 c;
          nonce_size = (same_iff_12 _).0 d;
          named = (last_iff _ _).0 h₄;
        },
    λ k. (unless_iff _ _ _).1 (
      k.known_team,
      (unless_iff _ _ _).1 (
        k.known_session,
        (when_iff _ _ _).1 (
          (positive_iff _).1 k.positive,
          (unless_iff _ _ _).1 ((same_iff_12 _).1 k.nonce_size, (last_iff _ _).1 k.named),
        ),
      ),
    ),
  )
