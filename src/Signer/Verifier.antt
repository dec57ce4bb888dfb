-- ===== src/Signer/Verifier.antt =====
-- car_producer/src/signer.py, class SignatureVerifier: the check of a signed packet. `ed25519` is the
-- verification of the cryptography package: key, signature, data.
pub mod Laws
use pitcrypt_f.Prelude.{
  Bool, Dict, Option, Result, String, [], has_key, if◌then◌else◌, insert, length, lookup, nat_eq,
  none, not, or_default, raised, returned, some, string_eq, true, ℕ, ◌++◌, ◌+◌, ◌==◌, ◌∷◌,
}
use pitcrypt_f.Hex.{from_hex}
use pitcrypt_f.Packet.{Bytes}
use pitcrypt_f.Signature.{public_key_size}
use pitcrypt_f.Signer.{CarPacket}

pub data CarVerifyError : Type 0 where
  -- The ValueErrors, the one of `bytes.fromhex` among them, and InvalidSignature.
  no_signer : CarVerifyError
  unknown_signer : String → CarVerifyError
  no_header_or_payload no_signature_found sig_not_hex : CarVerifyError
  signature_invalid : String → CarVerifyError

pub record CarVerifier : Type 0 where
  pub registry : Dict Bytes
  pub verify_count : ℕ
  pub fail_count : ℕ

abbrev pub new_car_verifier : CarVerifier
new_car_verifier = record { registry = []; verify_count = 0; fail_count = 0 }

-- `register_node`; `none` is the ValueError for a key of another size.
pub register_key : String → Bytes → CarVerifier → Option CarVerifier
register_key node key v =
    if not (length key == public_key_size)
    then none
    else some (record v { registry = insert node key v.registry })

-- The signature's bytes, or the hex text in their place.
pub signature_of : CarPacket → Result CarVerifyError Bytes
signature_of p = elim p.signature_bytes [
  | some sig ↦ returned sig
  | none ↦ elim p.signature [
    | none ↦ raised no_signature_found
    | some [] ↦ raised no_signature_found
    | some (c ∷ cs) ↦ elim (from_hex (c ∷ cs)) [
      | none ↦ raised sig_not_hex
      | some sig ↦ returned sig
    ]
  ]
]

-- `header + payload`, if both keys are there.
pub signed_data : CarPacket → Option Bytes
signed_data p = elim p.header [
  | none ↦ none
  | some head ↦ elim p.payload [ none ↦ none | some body ↦ some (head ++ body) ]
]

module _ (ed25519 : Bytes → Bytes → Bytes → Bool) where
  -- The call under `try`.
  pub try_verify :
      String → Bytes → Bytes → Bytes → CarVerifier → CarVerifier × Result CarVerifyError Bool
  try_verify node key sig data_to_verify v =
      if ed25519 key sig data_to_verify
      then (record v { verify_count = v.verify_count + 1 }, returned true)
      else (record v { fail_count = v.fail_count + 1 }, raised (signature_invalid node))

  pub verify_packet : CarPacket → CarVerifier → CarVerifier × Result CarVerifyError Bool
  verify_packet p v =
      let node = or_default p.signer_node_id "" in
      if node == "" then (v, raised no_signer) else elim (lookup node v.registry) [
        | none ↦ (v, raised (unknown_signer node))
        | some key ↦ elim (signed_data p) [
          | none ↦ (v, raised no_header_or_payload)
          | some bs ↦ elim (signature_of p) [
            | raised x ↦ (v, raised x)
            | returned sig ↦ try_verify node key sig bs v
          ]
        ]
      ]

  -- `verify_bytes`, whose InvalidSignature is not counted.
  pub verify_bytes : String → Bytes → Bytes → CarVerifier → CarVerifier × Result CarVerifyError Bool
  verify_bytes node sig bs v = elim (lookup node v.registry) [
    | none ↦ (v, raised (unknown_signer node))
    | some key ↦
        if ed25519 key sig bs
        then (record v { verify_count = v.verify_count + 1 }, returned true)
        else (v, raised (signature_invalid node))
  ]

pub is_known : String → CarVerifier → Bool
is_known node v = has_key node v.registry
