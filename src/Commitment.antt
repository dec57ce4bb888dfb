-- ===== src/Commitment.antt =====
-- validator-node/src/zkp_verifier.py: the hash commitments of packets. `sha256` is the hash.
-- Hex texts are lists of code points; a reason is a constructor with the source's name.
pub mod Laws
use pitcrypt_f.Prelude.{
  Bool, List, Option, String, [], bytes_eqb, false, if◌then◌else◌, none, or_default, some, true, ℕ,
  ◌++◌, ◌+◌, ◌||◌, ◌∷◌,
}
use pitcrypt_f.Hex.{from_hex, to_hex}
use pitcrypt_f.Packet.{Bytes, Packet, Text}

pub data CommitmentReason : Type 0 where
  commitment_valid commitment_mismatch invalid_nonce_format : CommitmentReason
  no_commitment_skipped missing_payload_bytes : CommitmentReason

pub record CommitmentResult : Type 0 where
  pub verified : Bool
  pub reason : CommitmentReason
  pub commitment : Option Text
  pub computed : Option Text

pub record ZkpVerifier : Type 0 where
  pub node_id : String
  pub verified_count : ℕ
  pub failed_count : ℕ
  pub skipped_count : ℕ

abbrev pub new_verifier : String → ZkpVerifier
new_verifier id = record { node_id = id; verified_count = 0; failed_count = 0; skipped_count = 0 }

pub record Commitment : Type 0 where
  pub commitment : Text
  pub nonce : Text

-- `not x` for an optional text.
abbrev pub is_empty : Option Text → Bool
is_empty none = true
is_empty (some []) = true
is_empty (some (c ∷ cs)) = false

module _ (sha256 : Bytes → Bytes) where
  -- `generate_commitment` with the nonce given, or drawn by the caller.
  pub generate_commitment : Bytes → Bytes → Commitment
  generate_commitment payload nonce = record {
    commitment = to_hex (sha256 (payload ++ nonce));
    nonce = to_hex nonce;
  }

  check_commitment : Bytes → Text → Bytes → CommitmentResult
  check_commitment payload commitment nonce =
      let computed = to_hex (sha256 (payload ++ nonce)) in
      if bytes_eqb computed commitment
      then record {
        verified = true;
        reason = commitment_valid;
        commitment = some commitment;
        computed = some computed;
      }
      else record {
        verified = false;
        reason = commitment_mismatch;
        commitment = some commitment;
        computed = some computed;
      }

  count_result : Bool → ZkpVerifier → ZkpVerifier
  count_result true v = record v { verified_count = v.verified_count + 1 }
  count_result false v = record v { failed_count = v.failed_count + 1 }

  pub verify_commitment : Bytes → Text → Text → ZkpVerifier → ZkpVerifier × CommitmentResult
  unfolding check_commitment count_result
  verify_commitment payload commitment nonce v = elim (from_hex nonce) [
    | none ↦ (
      record v { failed_count = v.failed_count + 1 },
      record {
        verified = false;
        reason = invalid_nonce_format;
        commitment = none;
        computed = none;
      },
    )
    | some nonce_bytes ↦
        (let r = check_commitment payload commitment nonce_bytes in (count_result r.verified v, r))
  ]

  pub verify_packet : {J : Type 0} → Packet J → ZkpVerifier → ZkpVerifier × CommitmentResult
  verify_packet p v =
      if is_empty p.zkp_commitment || is_empty p.zkp_nonce
      then (
        record v { skipped_count = v.skipped_count + 1 },
        record {
          verified = true;
          reason = no_commitment_skipped;
          commitment = none;
          computed = none;
        },
      )
      else elim p.payload_bytes [
        | none ↦ (
          record v { failed_count = v.failed_count + 1 },
          record {
            verified = false;
            reason = missing_payload_bytes;
            commitment = none;
            computed = none;
          },
        )
        | some payload ↦
            verify_commitment payload (or_default p.zkp_commitment []) (or_default p.zkp_nonce []) v
      ]

  -- `verify_batch`: the packets with their results, those that verify and the others.
  pub verify_batch :
      {J : Type 0}
      → List (Packet J)
      → ZkpVerifier
      → ZkpVerifier × List (Packet J × CommitmentResult) × List (Packet J × CommitmentResult)
  verify_batch [] v = (v, [], [])
  verify_batch (p ∷ ps) v =
      let (v', r) = verify_packet p v in
      let (w, verified, failed) = verify_batch ps v' in
      if r.verified then (w, (p, r) ∷ verified, failed) else (w, verified, (p, r) ∷ failed)
