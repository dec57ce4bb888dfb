-- ===== src/Parser/Laws.antt =====
-- Which binary packets the relay's parser finds valid (relay-node/src/packet_parser.py).
use pitcrypt_f.Prelude.{
  Bool, List, Option, Result, String, ap, arith, bytes_eqb, bytes_eqb_refl, bytes_eqb_sound, drop,
  false, if◌then◌else◌, is_some, length, none, raised, refl, returned, some, sym, take, true, ◌+◌,
  ◌<◌, ◌↔◌, ◌≡◌, ◌≤◌,
}
use pitcrypt_f.Header.{
  HeaderError, HeaderFields, header_size, magic_number, name_of, packet_type_tel, protocol_ver,
  session_ids, team_ids, unpack,
}
use pitcrypt_f.Packet.{Bytes}
use pitcrypt_f.Parser.{
  PacketParser, ParseIssue, ParsedPacket, append_if, describe, issues, no_errors, parse,
  reject_parse,
}

-- The header and the payload that the bytes are read as.
abbrev pub header_of : Bytes → HeaderFields
header_of wire = unpack (take header_size wire)

abbrev pub payload_of : Bytes → Bytes
payload_of wire = take (header_of wire).payload_len (drop header_size wire)

-- The conditions on a packet's bytes.
pub record IsWellFormed (sha256 : Bytes → Bytes) (wire : Bytes) : Type 0 where
  pub team : String
  pub session : String
  pub sized : header_size ≤ length wire
  pub genuine : (header_of wire).magic ≡ magic_number
  pub supported : (header_of wire).version ≡ protocol_ver
  pub telemetry : (header_of wire).packet_type ≡ packet_type_tel
  pub known_team : name_of (header_of wire).team_id team_ids ≡ some team
  pub known_session : name_of (header_of wire).session_id session_ids ≡ some session
  pub complete : length (payload_of wire) ≡ (header_of wire).payload_len
  pub intact : sha256 (payload_of wire) ≡ (header_of wire).checksum
  pub numbered : 0 < (header_of wire).sequence
  pub timed : 0 < (header_of wire).timestamp_ms

abbrev pub returns_valid : Result HeaderError ParsedPacket → Bool
returns_valid (returned d) = d.is_valid
returns_valid (raised e) = false

module _ (sha256 : Bytes → Bytes) where
  -- The conditions on the header and the payload, as the errors speak of them.
  abbrev HasNoIssues : HeaderFields → Bytes → Type 0
  HasNoIssues h payload =
      (h.version ≡ protocol_ver)
      × (h.packet_type ≡ packet_type_tel)
      × (is_some (name_of h.team_id team_ids) ≡ true)
      × (is_some (name_of h.session_id session_ids) ≡ true)
      × (length payload ≡ h.payload_len)
      × (bytes_eqb (sha256 payload) h.checksum ≡ true)
      × (0 < h.sequence)
      × (0 < h.timestamp_ms)

  no_errors-append_if :
      (b : Bool) (e : ParseIssue) (es : List ParseIssue)
      → (no_errors (append_if b e es) ≡ true) ↔ ((b ≡ false) × (no_errors es ≡ true))
  unfolding no_errors append_if
  no_errors-append_if b e es = (λ h. ground arith, λ h. ground arith)

  no_errors-issues :
      (h : HeaderFields) (payload : Bytes)
      → (no_errors (issues sha256 h payload) ≡ true) ↔ HasNoIssues h payload
  unfolding issues
  no_errors-issues h payload = (
    λ e.
        let (a, e₁) = (no_errors-append_if _ _ _).0 e in
        let (b, e₂) = (no_errors-append_if _ _ _).0 e₁ in
        let (c, e₃) = (no_errors-append_if _ _ _).0 e₂ in
        let (d, e₄) = (no_errors-append_if _ _ _).0 e₃ in
        let (f, e₅) = (no_errors-append_if _ _ _).0 e₄ in
        let (g, e₆) = (no_errors-append_if _ _ _).0 e₅ in
        let (i, e₇) = (no_errors-append_if _ _ _).0 e₆ in
        let (j, _) = (no_errors-append_if _ _ _).0 e₇ in
        (
          ground arith,
          ground arith,
          ground arith,
          ground arith,
          ground arith,
          ground arith,
          ground arith,
          ground arith,
        ),
    λ (a, b, c, d, f, g, i, j). (no_errors-append_if _ _ _).1 (
      ground arith,
      (no_errors-append_if _ _ _).1 (
        ground arith,
        (no_errors-append_if _ _ _).1 (
          ground arith,
          (no_errors-append_if _ _ _).1 (
            ground arith,
            (no_errors-append_if _ _ _).1 (
              ground arith,
              (no_errors-append_if _ _ _).1 (
                ground arith,
                (no_errors-append_if _ _ _).1 (
                  ground arith,
                  (no_errors-append_if _ _ _).1 (ground arith, unfold no_errors in refl),
                ),
              ),
            ),
          ),
        ),
      ),
    ),
  )

  is_some-some : (o : Option String) → is_some o ≡ true → (s : String) × (o ≡ some s)
  is_some-some none h = absurd (ground arith)
  is_some-some (some s) h = (s, refl)

  parse-returned :
      (wire : Bytes) (p : PacketParser) (d : ParsedPacket)
      → (parse sha256 wire p).1 ≡ returned d
      → (header_size ≤ length wire)
        × ((header_of wire).magic ≡ magic_number)
        × (describe sha256 wire (header_of wire) ≡ d)
  unfolding parse
  parse-returned wire p d e = (ground arith, ground arith, ground arith)

  parse-describe :
      (wire : Bytes) (p : PacketParser)
      → header_size ≤ length wire
      → (header_of wire).magic ≡ magic_number
      → (parse sha256 wire p).1 ≡ returned (describe sha256 wire (header_of wire))
  unfolding parse
  parse-describe wire p sized genuine = ground arith

  -- The relay's parser returns a valid packet exactly when the bytes are long enough for a header with
  -- the magic number, the supported version and type, a known team and session, a payload of the
  -- stated length with the stated hash, and a sequence number and a timestamp that are not zero.
  pub parse_valid_iff :
      (wire : Bytes) (p : PacketParser)
      → ((d : ParsedPacket) × ((parse sha256 wire p).1 ≡ returned d) × (d.is_valid ≡ true))
        ↔ IsWellFormed sha256 wire
  unfolding parse describe
  parse_valid_iff wire p = (
    λ (d, e, v).
        let (sized, genuine, described) = parse-returned wire p d e in
        let (a, b, c, k, f, g, i, j) =
          (no_errors-issues (header_of wire) (payload_of wire)).0 (rw (sym described) at v) in
        let (t, et) = is_some-some (name_of (header_of wire).team_id team_ids) c in
        let (s, es) = is_some-some (name_of (header_of wire).session_id session_ids) k in
        record {
          team = t;
          session = s;
          sized = sized;
          genuine = genuine;
          supported = a;
          telemetry = b;
          known_team = et;
          known_session = es;
          complete = f;
          intact = bytes_eqb_sound _ _ g;
          numbered = i;
          timed = j;
        },
    λ k.
        let valid = (no_errors-issues (header_of wire) (payload_of wire)).1 (
          k.supported,
          k.telemetry,
          ap is_some k.known_team,
          ap is_some k.known_session,
          k.complete,
          rw k.intact (bytes_eqb_refl (header_of wire).checksum),
          k.numbered,
          k.timed,
        ) in
        (describe sha256 wire (header_of wire), parse-describe wire p k.sized k.genuine, valid),
  )

  -- Each call is counted once: as parsed if it returns a valid packet, and else as rejected.
  pub parse_counts :
      (wire : Bytes) (p : PacketParser)
      → let (q, r) = parse sha256 wire p in
        let valid = returns_valid r in
        (q.parsed_count ≡ (if valid then p.parsed_count + 1 else p.parsed_count))
        × (q.rejected_count ≡ (if valid then p.rejected_count else p.rejected_count + 1))
  unfolding parse reject_parse
  parse_counts wire p = ground arith
