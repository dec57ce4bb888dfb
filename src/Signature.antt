-- ===== src/Signature.antt =====
-- validator-node/src/signature_verifier.py: Ed25519 verification at the validator. A key is its 32
-- bytes; `ed25519` is the check of the cryptography package: key, signature, data. Each error is
-- raised after `_rejected_count` goes up, and an unknown node after `_unknown_count` too, so the
-- checks are a function and the counts follow from what it raises. `invalid_signature` is the
-- exception InvalidSignature, all others are SignatureVerificationError.
pub mod Laws
use pitcrypt_f.Prelude.{
  Bool, Dict, List, Option, Result, String, [], erase, false, has_key, if◌then◌else◌, insert,
  length, lookup, nat_eq, none, not, or_default, raised, returned, some, string_eq, true, ℕ, ◌++◌,
  ◌+◌, ◌==◌, ◌∷◌,
}
use pitcrypt_f.Hex.{from_hex}
use pitcrypt_f.Packet.{Bytes, Packet, is_truthy, raw, str, text_or}

abbrev pub public_key_size : ℕ
public_key_size = 32

abbrev pub signature_size : ℕ
signature_size = 64

pub data VerifyError : Type 0 where
  missing_node_identity : VerifyError
  unknown_node : String → VerifyError
  no_signature : String → VerifyError
  signature_not_text signature_not_hex signature_not_bytes : VerifyError
  invalid_signature_size : ℕ → VerifyError
  missing_header missing_payload : VerifyError
  invalid_signature : String → VerifyError

pub record SignatureVerifier : Type 0 where
  pub node_id : String
  pub registry : Dict Bytes
  pub verified_count : ℕ
  pub rejected_count : ℕ
  pub unknown_count : ℕ

abbrev pub new_signature_verifier : String → SignatureVerifier
new_signature_verifier id = record {
  node_id = id;
  registry = [];
  verified_count = 0;
  rejected_count = 0;
  unknown_count = 0;
}

-- `none` is the ValueError for a key of another size.
pub register_node : String → Bytes → SignatureVerifier → Option SignatureVerifier
register_node node key v =
    if not (length key == public_key_size)
    then none
    else some (record v { registry = insert node key v.registry })

pub deregister_node : String → SignatureVerifier → SignatureVerifier
deregister_node node v =
    if has_key node v.registry then record v { registry = erase node v.registry } else v

pub is_registered : String → SignatureVerifier → Bool
is_registered node v = has_key node v.registry

-- `get('original_node') or get('node_id', '') or get('signer_node_id', '')`.
abbrev pub signing_node : {J : Type 0} → Packet J → String
signing_node p = text_or p.original_node (text_or p.node_id (or_default p.signer_node_id ""))

-- The signature's bytes, from `signature_bytes` or else from the hex text `signature`.
resolve_signature : {J : Type 0} → String → Packet J → Result VerifyError Bytes
resolve_signature node p = elim p.signature_bytes [
  | some (raw bs) ↦ returned bs
  | some other ↦ raised signature_not_bytes
  | none ↦ if not (is_truthy p.signature) then raised (no_signature node) else elim p.signature [
    | some (str hex) ↦ elim (from_hex hex) [
      | none ↦ raised signature_not_hex
      | some bs ↦ returned bs
    ]
    | other ↦ raised signature_not_text
  ]
]

-- `not packet.get(k)` for bytes.
abbrev pub no_bytes : Option Bytes → Bool
no_bytes none = true
no_bytes (some []) = true
no_bytes (some (b ∷ bs)) = false

pub record SignatureResult : Type 0 where
  pub verified : Bool
  pub node_id : String

count_outcome : Result VerifyError SignatureResult → SignatureVerifier → SignatureVerifier
count_outcome (returned r) v = record v { verified_count = v.verified_count + 1 }
count_outcome (raised (unknown_node n)) v = record v {
  unknown_count = v.unknown_count + 1;
  rejected_count = v.rejected_count + 1;
}
count_outcome (raised e) v = record v { rejected_count = v.rejected_count + 1 }

module _ (ed25519 : Bytes → Bytes → Bytes → Bool) where
  check_signature :
      {J : Type 0} → String → Bytes → Bytes → Packet J → Result VerifyError SignatureResult
  check_signature node key sig p =
      if not (length sig == signature_size)
      then raised (invalid_signature_size (length sig))
      else if no_bytes p.header
      then raised missing_header
      else if no_bytes p.payload_bytes
      then raised missing_payload
      else if ed25519 key sig (or_default p.header [] ++ or_default p.payload_bytes [])
      then returned (record { verified = true; node_id = node })
      else raised (invalid_signature node)

  examine : {J : Type 0} → Packet J → SignatureVerifier → Result VerifyError SignatureResult
  examine p v =
      let node = signing_node p in
      if node == "" then raised missing_node_identity else elim (lookup node v.registry) [
        | none ↦ raised (unknown_node node)
        | some key ↦ elim (resolve_signature node p) [
          | raised e ↦ raised e
          | returned sig ↦ check_signature node key sig p
        ]
      ]

  pub verify :
      {J : Type 0}
      → Packet J
      → SignatureVerifier
      → SignatureVerifier × Result VerifyError SignatureResult
  verify p v = (count_outcome (examine p v) v, examine p v)

  -- `verify_batch`: the packets that verify with their results, and the others with their errors.
  pub verify_batch :
      {J : Type 0}
      → List (Packet J)
      → SignatureVerifier
      → SignatureVerifier × List (Packet J × SignatureResult) × List (Packet J × VerifyError)
  verify_batch [] v = (v, [], [])
  verify_batch (p ∷ ps) v =
      let (v', r) = verify p v in
      let (w, verified, failed) = verify_batch ps v' in
      elim r [
        | returned s ↦ (w, (p, s) ∷ verified, failed)
        | raised e ↦ (w, verified, (p, e) ∷ failed)
      ]
