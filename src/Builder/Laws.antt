-- ===== src/Builder/Laws.antt =====
-- What the car builds is what the parser reads (car_producer/src/packet_builder.py).
use mathlib.Core.Option
use mathlib.Core.List.{append-nil}
use pitcrypt_f.Prelude.{
  Option-cases, String, [], ap, arith, bytes_eqb_refl, drop-append, has_key, inl, inr, length,
  lookup, none, refl, returned, some, take_all, true, ℕ, ◌+◌, ◌<◌, ◌^◌, ◌∙◌, ◌≡◌,
}
use pitcrypt_f.Builder.{
  BuiltPacket, PacketBuilder, build, build_header, fields_with, header_fields, new_builder,
  packet_of, payload_slice, verify_checksum,
}
use pitcrypt_f.Header.{
  HeaderFields, ParsedHeader, header_size, magic_number, pack, packet_type_tel, parse_header,
  protocol_ver, session_ids, team_ids,
}
use pitcrypt_f.Header.ByteRange.{IsBytes-pack}
use pitcrypt_f.Header.RoundTrip.{
  lookup-session_ids, lookup-team_ids, pack-fits, parse_header-pack, parsed_of-names, unpack-pack,
}
use pitcrypt_f.Hex.RoundTrip.{IsBytes}
use pitcrypt_f.Packet.{Bytes}

module _ (sha256 : Bytes → Bytes) (sha256_length : (bs : Bytes) → length (sha256 bs) ≡ 32)
    {F : Type 0} (dumps : F → Bytes) where
  header_fields-some :
      (b : PacketBuilder) (seq ts : ℕ) (body : Bytes) {h : HeaderFields}
      → header_fields sha256 b seq ts body ≡ some h
      → (team session : ℕ) × (lookup b.team team_ids ≡ some team)
        × (lookup b.session session_ids ≡ some session)
        × (h ≡ fields_with sha256 seq ts body team session)
  unfolding header_fields Option.bind
  header_fields-some b seq ts body e = elim (Option-cases (lookup b.team team_ids)) [
    | inl unknown ↦ absurd (ground (arith, rw unknown at e))
    | inr (team, et) ↦ elim (Option-cases (lookup b.session session_ids)) [
      | inl unknown ↦ absurd (ground (arith, rw (et, unknown) at e))
      | inr (session, es) ↦ (team, session, et, es, ground (arith, rw (et, es) at e))
    ]
  ]

  build_header-some :
      (b : PacketBuilder) (seq ts : ℕ) (body : Bytes) {head : Bytes}
      → build_header sha256 b seq ts body ≡ some head
      → (h : HeaderFields) × (header_fields sha256 b seq ts body ≡ some h) × (pack h ≡ some head)
  unfolding build_header Option.bind
  build_header-some b seq ts body e = elim (Option-cases (header_fields sha256 b seq ts body)) [
    | inl unknown ↦ absurd (ground (arith, rw unknown at e))
    | inr (h, eh) ↦ (h, eh, rw eh at e)
  ]

  build-some :
      (now : ℕ) (frame : F) (b : PacketBuilder) {packet : BuiltPacket}
      → (build sha256 dumps now frame b).1 ≡ some packet
      → (head : Bytes) × (build_header sha256 b (b.sequence + 1) now (dumps frame) ≡ some head)
        × (packet ≡ packet_of sha256 b (b.sequence + 1) now (dumps frame) head)
  unfolding build
  build-some now frame b e =
      elim (Option-cases (build_header sha256 b (b.sequence + 1) now (dumps frame))) [
        | inl unknown ↦ absurd (ground (arith, e))
        | inr (head, eh) ↦ (head, eh, ground (arith, e))
      ]

  -- The header of a packet that is built consists of bytes, if a hash does.
  pub IsBytes-build :
      (now : ℕ) (frame : F) (b : PacketBuilder) (packet : BuiltPacket)
      → ((bs : Bytes) → IsBytes (sha256 bs))
      → (build sha256 dumps now frame b).1 ≡ some packet
      → IsBytes packet.header
  unfolding packet_of
  IsBytes-build now frame b packet hashes built =
      let (head, eb, ep) = build-some now frame b built in
      let (h, ef, pk) = build_header-some b (b.sequence + 1) now (dumps frame) eb in
      let (_, _, _, _, e) = header_fields-some b (b.sequence + 1) now (dumps frame) ef in
      rw ep (IsBytes-pack h pk (rw e (hashes (dumps frame))))

  -- A packet that is built parses: the header gives back the builder's team and session, the next
  -- sequence number, the time, and the length and hash of the payload.
  pub parse_header-build :
      (now : ℕ) (frame : F) (b : PacketBuilder) {packet : BuiltPacket}
      → (build sha256 dumps now frame b).1 ≡ some packet
      → parse_header packet.raw_bytes
        ≡ returned (record {
          magic = magic_number;
          version = protocol_ver;
          team = b.team;
          session = b.session;
          packet_type = packet_type_tel;
          sequence_no = b.sequence + 1;
          timestamp_ms = now;
          payload_len = length (dumps frame);
          checksum = sha256 (dumps frame);
        })
  unfolding packet_of
  parse_header-build now frame b built =
      let (head, eb, ep) = build-some now frame b built in
      let (h, ef, pk) = build_header-some b (b.sequence + 1) now (dumps frame) eb in
      let (team, session, et, es, eh) =
        header_fields-some b (b.sequence + 1) now (dumps frame) ef in
      let fields = fields_with sha256 (b.sequence + 1) now (dumps frame) team session in
      let names = parsed_of-names b.team b.session fields et es in
      let parsed =
        parse_header-pack fields (dumps frame) (sha256_length (dumps frame)) refl (rw eh at pk) in
      rw ep (parsed ∙ ap returned names)

  -- The header of a packet that is built parses by itself, to the packet's number.
  pub header-build :
      (now : ℕ) (frame : F) (b : PacketBuilder) (packet : BuiltPacket)
      → (build sha256 dumps now frame b).1 ≡ some packet
      → (length packet.header ≡ header_size)
        × ((h : ParsedHeader) × (parse_header packet.header ≡ returned h)
            × (h.sequence_no ≡ packet.sequence_no))
  unfolding packet_of
  header-build now frame b packet built =
      let (head, eb, ep) = build-some now frame b built in
      let (h, ef, pk) = build_header-some b (b.sequence + 1) now (dumps frame) eb in
      let (team, session, et, es, eh) =
        header_fields-some b (b.sequence + 1) now (dumps frame) ef in
      let fields = fields_with sha256 (b.sequence + 1) now (dumps frame) team session in
      let names = parsed_of-names b.team b.session fields et es in
      let parsed = parse_header-pack fields [] (sha256_length (dumps frame)) refl (rw eh at pk) in
      let size = (unpack-pack h (rw eh (sha256_length (dumps frame))) pk).0 in
      rw ep (size, (_, rw append-nil at (parsed ∙ ap returned names), refl))

  -- The checksum of a packet that is built verifies.
  pub verify_checksum-build :
      (now : ℕ) (frame : F) (b : PacketBuilder) {packet : BuiltPacket}
      → (build sha256 dumps now frame b).1 ≡ some packet
      → verify_checksum sha256 packet.raw_bytes ≡ returned true
  unfolding verify_checksum payload_slice packet_of
  verify_checksum-build now frame b built =
      let parsed = parse_header-build now frame b built in
      let (head, eb, ep) = build-some now frame b built in
      let (h, ef, pk) = build_header-some b (b.sequence + 1) now (dumps frame) eb in
      let (team, session, et, es, eh) =
        header_fields-some b (b.sequence + 1) now (dumps frame) ef in
      let size = (unpack-pack h (rw eh (sha256_length (dumps frame))) pk).0 in
      rw (verify_checksum, parsed)
        (rw (ep, drop-append header_size head (dumps frame) size, take_all, bytes_eqb_refl))

  -- A builder of a known team and session builds a packet, as long as the number and the time fit
  -- eight bytes and the payload's length fits four.
  pub build-returned :
      (now : ℕ) (frame : F) (b : PacketBuilder) {team session : ℕ}
      → lookup b.team team_ids ≡ some team
      → lookup b.session session_ids ≡ some session
      → b.sequence + 1 < 256 ^ 8
      → now < 256 ^ 8
      → length (dumps frame) < 256 ^ 4
      → (packet : BuiltPacket) × ((build sha256 dumps now frame b).1 ≡ some packet)
  unfolding build build_header header_fields Option.bind
  build-returned now frame b {team} {session} et es seq ts len =
      let body = dumps frame in
      let h = fields_with sha256 (b.sequence + 1) now body team session in
      let (head, e) =
        pack-fits h (omega arith) (omega arith) (lookup-team_ids b.team et)
          (lookup-session_ids b.session es) (omega arith) seq ts len (omega arith) in
      let ef : header_fields sha256 b (b.sequence + 1) now body ≡ some h = ground (arith, et, es) in
      let eh : build_header sha256 b (b.sequence + 1) now body ≡ some head =
        ground (arith, ef, e) in
      (packet_of sha256 b (b.sequence + 1) now body head, ground (arith, eh))

module _ (sha256 : Bytes → Bytes) {F : Type 0} (dumps : F → Bytes) where
  -- The number is taken whether the packet is built or not.
  pub sequence-build :
      (now : ℕ) (frame : F) (b : PacketBuilder)
      → ((build sha256 dumps now frame b).0.sequence ≡ b.sequence + 1)
        × ((packet : BuiltPacket)
            → (build sha256 dumps now frame b).1 ≡ some packet
            → packet.sequence_no ≡ b.sequence + 1)
  unfolding build packet_of
  sequence-build now frame b = (ground arith, λ packet h. ground arith)

  -- A built packet carries the builder's names and the text of the frame.
  pub names-build :
      (now : ℕ) (frame : F) (b : PacketBuilder) (packet : BuiltPacket)
      → (build sha256 dumps now frame b).1 ≡ some packet
      → (packet.team ≡ b.team) × (packet.session ≡ b.session) × (packet.payload ≡ dumps frame)
  unfolding build packet_of
  names-build now frame b packet h = (ground arith, ground arith, ground arith)

  pub packets_built-build :
      (now : ℕ) (frame : F) (b : PacketBuilder)
      → (build sha256 dumps now frame b).0.packets_built ≡ elim (build sha256 dumps now frame b).1 [
        | none ↦ b.packets_built
        | some packet ↦ b.packets_built + 1
      ]
  unfolding build
  packets_built-build now frame b = ground arith

pub new_builder-packets_built :
    (lower upper : String → String) (t s id : String) (b : PacketBuilder)
    → new_builder lower upper t s id ≡ returned b
    → b.packets_built ≡ 0
unfolding new_builder
new_builder-packets_built lower upper t s id b h = ground arith

-- A builder of a known team and session.
pub new_builder-returned :
    (lower upper : String → String) (t s id : String)
    → has_key (lower t) team_ids ≡ true
    → has_key (upper s) session_ids ≡ true
    → new_builder lower upper t s id
      ≡ returned (record {
        team = lower t;
        session = upper s;
        node_id = id;
        sequence = 0;
        packets_built = 0;
      })
unfolding new_builder
new_builder-returned lower upper t s id a b = ground arith
