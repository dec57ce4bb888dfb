-- ===== src/Signature/Laws.antt =====
-- What a verified signature means (validator-node/src/signature_verifier.py).
use text.Mathlib.TextEquality.{eq_iff}
use pitcrypt_f.Prelude.{
  Bool, Option, Option-cases, Result, Result-cases, String, [], arith, false, inl, inr, length,
  lookup, none, or_default, refl, returned, some, true, ◌++◌, ◌+◌, ◌↔◌, ◌∷◌, ◌≡◌, ◌≢◌, ◌≤◌, ◌⊎◌,
}
use pitcrypt_f.Hex.{from_hex}
use pitcrypt_f.Packet.{Bytes, Packet, Text, Value, number, raw, str}
use pitcrypt_f.Signature.{
  SignatureResult, SignatureVerifier, VerifyError, check_signature, count_outcome, examine,
  no_bytes, resolve_signature, signature_size, signing_node, verify,
}

-- The bytes that `signature_bytes`, or else the hex text `signature`, stands for.
abbrev pub Signs : {J : Type 0} → Packet J → Bytes → Type 0
Signs p sig =
    (p.signature_bytes ≡ some (raw sig))
    ⊎ ((hex : Text) × (p.signature_bytes ≡ none)
        × (p.signature ≡ some (str hex))
        × (hex ≢ [])
        × (from_hex hex ≡ some sig))

-- An authentic packet: its node is known, and the node's key verifies the packet's 64-byte signature
-- over the header and the payload, neither of which is empty.
pub record IsAuthentic (ed25519 : Bytes → Bytes → Bytes → Bool) {J : Type 0} (p : Packet J)
    (v : SignatureVerifier) : Type 0 where
  pub key : Bytes
  pub sig : Bytes
  pub header : Bytes
  pub payload : Bytes
  pub named : signing_node p ≢ ""
  pub known : lookup (signing_node p) v.registry ≡ some key
  pub signed : Signs p sig
  pub sized : length sig ≡ signature_size
  pub with_header : p.header ≡ some header
  pub header_nonempty : header ≢ []
  pub with_payload : p.payload_bytes ≡ some payload
  pub payload_nonempty : payload ≢ []
  pub verifies : ed25519 key sig (header ++ payload) ≡ true

resolve_signature-Signs_of :
    {J : Type 0} (node : String) (p : Packet J) (sig : Bytes) (direct hexed : Option Value)
    → p.signature_bytes ≡ direct
    → p.signature ≡ hexed
    → resolve_signature node p ≡ returned sig
    → Signs p sig
unfolding resolve_signature
resolve_signature-Signs_of node p sig (some (raw bs)) hexed d e h = inl (ground arith)
resolve_signature-Signs_of node p sig (some (str t)) hexed d e h = absurd (ground arith)
resolve_signature-Signs_of node p sig (some (number n)) hexed d e h = absurd (ground arith)
resolve_signature-Signs_of node p sig none none d e h = absurd (ground arith)
resolve_signature-Signs_of node p sig none (some (str [])) d e h = absurd (ground arith)
resolve_signature-Signs_of node p sig none (some (str (c ∷ cs))) d e h =
    elim (Option-cases (from_hex (c ∷ cs))) [
      | inl bad ↦ absurd (ground arith)
      | inr (bs, ok) ↦ inr (c ∷ cs, d, e, λ q. cc, ground arith)
    ]
resolve_signature-Signs_of node p sig none (some (raw bs)) d e h = absurd (ground arith)
resolve_signature-Signs_of node p sig none (some (number n)) d e h = absurd (ground arith)

resolve_signature-Signs :
    {J : Type 0} (node : String) (p : Packet J) (sig : Bytes)
    → (resolve_signature node p ≡ returned sig) ↔ Signs p sig
unfolding resolve_signature
resolve_signature-Signs node p sig = (
  λ e. resolve_signature-Signs_of node p sig p.signature_bytes p.signature refl refl e,
  λ s. ground arith,
)

module _ (ed25519 : Bytes → Bytes → Bytes → Bool) {J : Type 0} (p : Packet J) where
  check_signature-returned :
      (node : String) (key sig : Bytes) {r : SignatureResult}
      → check_signature ed25519 node key sig p ≡ returned r
      → (length sig ≡ signature_size)
        × (no_bytes p.header ≡ false)
        × (no_bytes p.payload_bytes ≡ false)
        × (ed25519 key sig (or_default p.header [] ++ or_default p.payload_bytes []) ≡ true)
        × (r ≡ record { verified = true; node_id = node })
  unfolding check_signature
  check_signature-returned node key sig e = ground arith

count_outcome_counts :
    (r : Result VerifyError SignatureResult) (v : SignatureVerifier)
    → let w = count_outcome r v in
      (w.registry ≡ v.registry)
      × (w.verified_count + w.rejected_count ≡ v.verified_count + v.rejected_count + 1)
      × (v.unknown_count ≤ w.unknown_count)
      × (w.unknown_count ≤ v.unknown_count + 1)
unfolding count_outcome
count_outcome_counts r v = ground arith

no_bytes-some :
    (o : Option Bytes) → no_bytes o ≡ false → (o ≡ some (or_default o [])) × (or_default o [] ≢ [])
no_bytes-some none h = absurd (ground arith)
no_bytes-some (some []) h = absurd (ground arith)
no_bytes-some (some (b ∷ bs)) h = (refl, λ e. cc)

module _ (ed25519 : Bytes → Bytes → Bytes → Bool) {J : Type 0} (p : Packet J)
    (v : SignatureVerifier) where
  verify-IsAuthentic :
      {r : SignatureResult} → (verify ed25519 p v).1 ≡ returned r → IsAuthentic ed25519 p v
  unfolding verify examine
  verify-IsAuthentic {r} e = elim (Option-cases (lookup (signing_node p) v.registry)) [
    | inl unknown ↦ absurd (ground arith)
    | inr (key, known) ↦ elim (Result-cases (resolve_signature (signing_node p) p)) [
      | inr (bad, es) ↦ absurd (ground arith)
      | inl (sig, es) ↦
          let (sized, h, b, ok, _) =
            check_signature-returned ed25519 p (signing_node p) key sig {r = r} (ground arith) in
          let (eh, nh) = no_bytes-some p.header h in
          let (eb, nb) = no_bytes-some p.payload_bytes b in
          record {
            key = key;
            sig = sig;
            header = or_default p.header [];
            payload = or_default p.payload_bytes [];
            named = ground (arith, eq_iff (signing_node p) "");
            known = known;
            signed = (resolve_signature-Signs (signing_node p) p sig).0 es;
            sized = sized;
            with_header = eh;
            header_nonempty = nh;
            with_payload = eb;
            payload_nonempty = nb;
            verifies = ok;
          }
    ]
  ]

  IsAuthentic-verify :
      IsAuthentic ed25519 p v
      → (verify ed25519 p v).1 ≡ returned (record { verified = true; node_id = signing_node p })
  unfolding verify examine check_signature
  IsAuthentic-verify a =
      let resolved = (resolve_signature-Signs (signing_node p) p a.sig).1 a.signed in
      ground (arith, eq_iff (signing_node p) "")

  -- The validator verifies a packet exactly when it is authentic.
  pub verify_iff :
      ((r : SignatureResult) × ((verify ed25519 p v).1 ≡ returned r)) ↔ IsAuthentic ed25519 p v
  verify_iff = (λ (r, e). verify-IsAuthentic e, λ a. (_, IsAuthentic-verify a))

  -- Each call is counted once, as verified or as rejected, and registers nothing. An unknown node
  -- is counted as such too.
  pub verify_counts :
      let (w, r) = verify ed25519 p v in
      (w.registry ≡ v.registry)
      × (w.verified_count + w.rejected_count ≡ v.verified_count + v.rejected_count + 1)
      × (v.unknown_count ≤ w.unknown_count)
      × (w.unknown_count ≤ v.unknown_count + 1)
  unfolding verify
  verify_counts = count_outcome_counts (examine ed25519 p v) v
