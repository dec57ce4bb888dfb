-- ===== src/Commitment/Laws.antt =====
-- What a verified commitment means (validator-node/src/zkp_verifier.py).
use pitcrypt_f.Prelude.{
  Bool-cases, Option-cases, [], arith, bytes_eqb_refl, bytes_eqb_sound, inl, inr, or_default, some,
  sym, true, ◌++◌, ◌+◌, ◌||◌, ◌↔◌, ◌∙◌, ◌≡◌, ◌⊎◌,
}
use pitcrypt_f.Commitment.{
  ZkpVerifier, check_commitment, commitment_valid, count_result, generate_commitment, is_empty,
  verify_commitment, verify_packet,
}
use pitcrypt_f.Hex.{from_hex, to_hex}
use pitcrypt_f.Hex.RoundTrip.{IsBytes, from_hex-to_hex, to_hex_injective}
use pitcrypt_f.Packet.{Bytes, Packet, Text}

module _ (sha256 : Bytes → Bytes) where
  -- A commitment verifies exactly when the nonce is hex and the commitment is the hex text of the
  -- hash of the payload and the nonce.
  pub verify_commitment_iff :
      (payload : Bytes) (commitment nonce : Text) (v : ZkpVerifier)
      → ((verify_commitment sha256 payload commitment nonce v).1.verified ≡ true) ↔ (
          (bs : Bytes) × (from_hex nonce ≡ some bs)
          × (commitment ≡ to_hex (sha256 (payload ++ bs))))
  unfolding verify_commitment check_commitment
  verify_commitment_iff payload commitment nonce v = elim (Option-cases (from_hex nonce)) [
    | inl bad ↦ (λ h. absurd (ground arith), λ (bs, e, _). absurd (ground arith))
    | inr (bs, e) ↦ (
      λ h.
          let sound = bytes_eqb_sound (to_hex (sha256 (payload ++ bs))) commitment in
          (bs, e, ground (arith, sound)),
      λ (bs', e', sum). let same = bytes_eqb_refl (to_hex (sha256 (payload ++ bs))) in ground arith,
    )
  ]

  -- A packet verifies exactly when it has no commitment or no nonce, or it has a payload and the
  -- three verify.
  pub verify_packet_iff :
      {J : Type 0} (p : Packet J) (v : ZkpVerifier)
      → ((verify_packet sha256 p v).1.verified ≡ true) ↔ (
          (is_empty p.zkp_commitment || is_empty p.zkp_nonce ≡ true)
          ⊎ ((payload : Bytes) × (p.payload_bytes ≡ some payload)
              × ((verify_commitment sha256 payload
                    (or_default p.zkp_commitment [])
                    (or_default p.zkp_nonce [])
                    v).1.verified
                  ≡ true)))
  unfolding verify_packet
  verify_packet_iff p v = elim (Bool-cases (is_empty p.zkp_commitment || is_empty p.zkp_nonce)) [
    | inl skip ↦ (λ h. inl skip, λ h. rw (skip, verify_packet))
    | inr full ↦ elim (Option-cases p.payload_bytes) [
      | inl missing ↦ (λ h. absurd (ground arith), λ h. absurd (ground arith))
      | inr (payload, e) ↦ (λ h. inr (payload, e, ground arith), λ h. ground arith)
    ]
  ]

  module _ (sha256_bytes : (bs : Bytes) → IsBytes (sha256 bs)) where
    -- A commitment that the car generates verifies against the same payload.
    pub verify_commitment-generate :
        (payload nonce : Bytes) (v : ZkpVerifier)
        → IsBytes nonce
        → let c = generate_commitment sha256 payload nonce in
          verify_commitment sha256 payload c.commitment c.nonce v ≡ (
            record v { verified_count = v.verified_count + 1 },
            record {
              verified = true;
              reason = commitment_valid;
              commitment = some c.commitment;
              computed = some c.commitment;
            },
          )
    unfolding verify_commitment generate_commitment check_commitment count_result
    verify_commitment-generate payload nonce v bytes =
        let c = to_hex (sha256 (payload ++ nonce)) in
        ground (arith, from_hex-to_hex nonce bytes, bytes_eqb_refl c)

    -- Two payloads that verify against one commitment and nonce have, with the nonce, one hash:
    -- opening a commitment in two ways is a collision of the hash.
    pub verify_commitment-binding :
        (payload other : Bytes) (commitment nonce : Text) (v w : ZkpVerifier)
        → (verify_commitment sha256 payload commitment nonce v).1.verified ≡ true
        → (verify_commitment sha256 other commitment nonce w).1.verified ≡ true
        → (bs : Bytes) × (from_hex nonce ≡ some bs)
          × (sha256 (payload ++ bs) ≡ sha256 (other ++ bs))
    verify_commitment-binding payload other commitment nonce v w h k =
        let (bs, e, c) = (verify_commitment_iff payload commitment nonce v).0 h in
        let (bs', e', c') = (verify_commitment_iff other commitment nonce w).0 k in
        let same : bs' ≡ bs = cc in
        (
          bs,
          e,
          to_hex_injective _ _ (sha256_bytes (payload ++ bs)) (sha256_bytes (other ++ bs))
              (sym c ∙ c' ∙ rw same),
        )
