-- ===== src/Tests/Formats.antt =====
-- The theorems on headers, commitments, hex texts and signatures, applied.
use pitcrypt_f.Prelude.{[], arith, refl, returned, some, true, ◌++◌, ◌↔◌, ◌∷◌, ◌≡◌}
use pitcrypt_f.Builder.{verify_checksum}
use pitcrypt_f.Builder.Laws.{build-returned, parse_header-build, verify_checksum-build}
use pitcrypt_f.Commitment.{new_verifier, verify_commitment}
use pitcrypt_f.Commitment.Laws.{verify_commitment_iff}
use pitcrypt_f.Header.{magic_number, packet_type_tel, parse_header, protocol_ver}
use pitcrypt_f.Hex.{from_hex, to_hex}
use pitcrypt_f.Packet.{Bytes}
use pitcrypt_f.Parser.{ParsedPacket, new_parser, parse}
use pitcrypt_f.Parser.Laws.{IsWellFormed, parse_valid_iff}
use pitcrypt_f.Tests.{Built, car_builder, length-toy_hash, toy_dumps, toy_hash, zeros_32}

verify_commitment_iff_example :
    ((verify_commitment toy_hash (1 ∷ []) [] [] (new_verifier "fia")).1.verified ≡ true)
    ↔ ((bs : Bytes) × (from_hex [] ≡ some bs) × ([] ≡ to_hex (toy_hash (1 ∷ [] ++ bs))))
verify_commitment_iff_example = verify_commitment_iff toy_hash (1 ∷ []) [] [] (new_verifier "fia")

build-returned_example : Built
build-returned_example =
    build-returned toy_hash length-toy_hash toy_dumps 9 5 car_builder refl refl (omega arith)
      (omega arith) (omega arith)

built : Built
built =
    build-returned toy_hash length-toy_hash toy_dumps 9 5 car_builder refl refl (omega arith)
      (omega arith) (omega arith)

parse_header-build_example :
    parse_header built.0.raw_bytes
    ≡ returned (record {
      magic = magic_number;
      version = protocol_ver;
      team = "mercedes";
      session = "R";
      packet_type = packet_type_tel;
      sequence_no = 7;
      timestamp_ms = 9;
      payload_len = 1;
      checksum = zeros_32;
    })
parse_header-build_example =
    parse_header-build toy_hash length-toy_hash toy_dumps 9 5 car_builder built.1

verify_checksum-build_example : verify_checksum toy_hash built.0.raw_bytes ≡ returned true
verify_checksum-build_example =
    verify_checksum-build toy_hash length-toy_hash toy_dumps 9 5 car_builder built.1

parse_valid_iff_example :
    ((d : ParsedPacket) × ((parse toy_hash built.0.raw_bytes (new_parser "relay_01")).1
        ≡ returned d)
      × (d.is_valid ≡ true))
    ↔ IsWellFormed toy_hash built.0.raw_bytes
parse_valid_iff_example = parse_valid_iff toy_hash built.0.raw_bytes (new_parser "relay_01")
