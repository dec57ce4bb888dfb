-- ===== src/Header/RoundTrip.antt =====
-- The header's `struct` format: what is packed is read back (car_producer/src/packet_builder.py).
use mathlib.Core.List.{append-nil}
use text.Mathlib.TextEquality.{eq_iff}
use pitcrypt_f.Prelude.{
  String, [], ap, arith, be, drop, drop-append, drop-be, false, from_be-be, length, length-append,
  length-be, length-take, lookup, ltb, refl, returned, some, suc, take, take-append, take-be, true,
  zero, ℕ, ◌++◌, ◌<◌, ◌^◌, ◌≡◌,
}
use pitcrypt_f.Header.{
  HeaderFields, bytes_of, fits, header_size, magic_number, name_of, pack, pad32, parse_header,
  parsed_of, session_ids, team_ids, unpack, zeros,
}
use pitcrypt_f.Packet.{Bytes}

length-zeros : (n : ℕ) → length (zeros n) ≡ n
unfolding zeros
length-zeros zero = refl
length-zeros (suc n) = ap suc (length-zeros n)

length-pad32 : (bs : Bytes) → length (pad32 bs) ≡ 32
unfolding pad32
length-pad32 bs =
    length-take 32 (bs ++ zeros 32) (omega (arith, length-append bs (zeros 32), length-zeros 32))

pub length-bytes_of : (h : HeaderFields) → length (bytes_of h) ≡ header_size
unfolding bytes_of
length-bytes_of h = omega (arith, length-append {0}, length-be, length-pad32)

pad32_exact : (bs : Bytes) → length bs ≡ 32 → pad32 bs ≡ bs
unfolding pad32
pad32_exact bs h = take-append 32 bs (zeros 32) h

take-be_self : (k n : ℕ) → take k (be k n) ≡ be k n
take-be_self k n = rw append-nil at (take-be k n [])

take-pad32 : (bs rest : Bytes) → take 32 (pad32 bs ++ rest) ≡ pad32 bs
take-pad32 bs rest = take-append 32 (pad32 bs) rest (length-pad32 bs)

drop-pad32 : (bs rest : Bytes) → drop 32 (pad32 bs ++ rest) ≡ rest
drop-pad32 bs rest = drop-append 32 (pad32 bs) rest (length-pad32 bs)

-- The numbers of a header fit their fields.
record IsPacked (h : HeaderFields) : Type 0 where
  magic_fits : h.magic < 256 ^ 4
  version_fits : h.version < 256 ^ 1
  team_fits : h.team_id < 256 ^ 1
  session_fits : h.session_id < 256 ^ 1
  type_fits : h.packet_type < 256 ^ 1
  sequence_fits : h.sequence < 256 ^ 8
  timestamp_fits : h.timestamp_ms < 256 ^ 8
  payload_fits : h.payload_len < 256 ^ 4
  reserved_fits : h.reserved < 256 ^ 4

fits-IsPacked : (h : HeaderFields) → fits h ≡ true → IsPacked h
unfolding fits
fits-IsPacked h e = ground arith

pack-bytes_of :
    (h : HeaderFields) {bs : Bytes} → pack h ≡ some bs → (fits h ≡ true) × (bs ≡ bytes_of h)
unfolding pack
pack-bytes_of h e = ground arith

unpack-bytes_of : (h : HeaderFields) → length h.checksum ≡ 32 → IsPacked h → unpack (bytes_of h) ≡ h
unfolding unpack bytes_of
unpack-bytes_of h sum p =
    simp
      (
        take-be,
        drop-be,
        take-be_self,
        take-pad32,
        drop-pad32,
        from_be-be 4 h.magic p.magic_fits,
        from_be-be 1 h.version p.version_fits,
        from_be-be 1 h.team_id p.team_fits,
        from_be-be 1 h.session_id p.session_fits,
        from_be-be 1 h.packet_type p.type_fits,
        from_be-be 8 h.sequence p.sequence_fits,
        from_be-be 8 h.timestamp_ms p.timestamp_fits,
        from_be-be 4 h.payload_len p.payload_fits,
        from_be-be 4 h.reserved p.reserved_fits,
      )
      (rw (pad32_exact h.checksum sum))

-- A header that `struct.pack` takes, with a checksum of 32 bytes, is 64 bytes long, and unpacking
-- these gives all its fields back.
pub unpack-pack :
    (h : HeaderFields) {bs : Bytes}
    → length h.checksum ≡ 32
    → pack h ≡ some bs
    → (length bs ≡ header_size) × (unpack bs ≡ h)
unpack-pack h sum packed =
    let (fit, e) = pack-bytes_of h packed in
    rw e (length-bytes_of h, unpack-bytes_of h sum (fits-IsPacked h fit))

-- A packed header with the magic number, and whatever stands behind it, parses to its fields.
pub parse_header-pack :
    (h : HeaderFields) {bs : Bytes} (body : Bytes)
    → length h.checksum ≡ 32
    → h.magic ≡ magic_number
    → pack h ≡ some bs
    → parse_header (bs ++ body) ≡ returned (parsed_of h)
unfolding parse_header
parse_header-pack h {bs} body sum magic packed =
    let (size, back) = unpack-pack h sum packed in
    let long : ltb (length (bs ++ body)) header_size ≡ false =
      ground (arith, length-append bs body) in
    rw (long, take-append header_size bs body size, back, magic)

name_of-team_ids : (t : String) (i : ℕ) → lookup t team_ids ≡ some i → name_of i team_ids ≡ some t
unfolding name_of
name_of-team_ids t i h = ground (
  arith,
  eq_iff "mercedes" t,
  eq_iff "redbull" t,
  eq_iff "ferrari" t,
  eq_iff "mclaren" t,
  eq_iff "williams" t,
)

name_of-session_ids :
    (s : String) (i : ℕ) → lookup s session_ids ≡ some i → name_of i session_ids ≡ some s
unfolding name_of
name_of-session_ids s i h = ground (arith, eq_iff "R" s, eq_iff "Q" s, eq_iff "S" s)

-- The ids that the tables give to a team and a session are read back as these names.
pub parsed_of-names :
    (t s : String) (h : HeaderFields)
    → lookup t team_ids ≡ some h.team_id
    → lookup s session_ids ≡ some h.session_id
    → parsed_of h ≡ record {
      magic = h.magic;
      version = h.version;
      team = t;
      session = s;
      packet_type = h.packet_type;
      sequence_no = h.sequence;
      timestamp_ms = h.timestamp_ms;
      payload_len = h.payload_len;
      checksum = h.checksum;
    }
unfolding parsed_of
parsed_of-names t s h team session =
    rw (name_of-team_ids t h.team_id team, name_of-session_ids s h.session_id session)

-- A header whose numbers fit their fields is packed.
pub pack-fits :
    (h : HeaderFields)
    → h.magic < 256 ^ 4
    → h.version < 256 ^ 1
    → h.team_id < 256 ^ 1
    → h.session_id < 256 ^ 1
    → h.packet_type < 256 ^ 1
    → h.sequence < 256 ^ 8
    → h.timestamp_ms < 256 ^ 8
    → h.payload_len < 256 ^ 4
    → h.reserved < 256 ^ 4
    → (bs : Bytes) × (pack h ≡ some bs)
unfolding pack fits
pack-fits h a b c d e f g i j = (bytes_of h, ground arith)

pub lookup-team_ids : (t : String) {n : ℕ} → lookup t team_ids ≡ some n → n < 256 ^ 1
lookup-team_ids t h = ground arith

pub lookup-session_ids : (s : String) {n : ℕ} → lookup s session_ids ≡ some n → n < 256 ^ 1
lookup-session_ids s h = ground arith
