-- ===== src/Car/Silence.antt =====
-- A car whose engine has no session makes no packets (car_producer/src/main.py).
use pitcrypt_f.Prelude.{
  List, Option, Option-cases, Result-cases, [], ap, false, inl, inr, none, refl, some, ℕ, ◌∷◌, ◌≡◌,
}
use pitcrypt_f.Builder.{BuiltPacket, build}
use pitcrypt_f.Car.{
  CarNode, CarOutcome, build_and_encrypt, count_built, count_failed, count_signed, encrypt_stage,
  fail_packet, on_key_rotation, rotate_keys, sign_stage,
}
use pitcrypt_f.Crypto.{Primitives, session_established}
use pitcrypt_f.Encryptor.Laws.{encrypt_packet-unestablished}
use pitcrypt_f.KeyScheduler.{RotationClock, RotationReason, notify}
use pitcrypt_f.KeyScheduler.Laws.{do_rotation-unestablished}
use pitcrypt_f.Packet.{Bytes, Packet}
use pitcrypt_f.Signer.{CarPacket, built_dict, sign_packet}

module _ {J : Type 0} (P : Primitives) where
  -- A stage of `v` that yields nothing and leaves the engine and the queue.
  abbrev pub IsSilent : CarNode J → CarOutcome J → Type 0
  IsSilent v o = (o.1 ≡ none) × (o.0.crypto ≡ v.crypto) × (o.0.packet_queue ≡ v.packet_queue)

  encrypt_stage-IsSilent :
      (nonce : Bytes) (signed : CarPacket) (v : CarNode J)
      → session_established v.crypto ≡ false
      → IsSilent v (encrypt_stage P nonce signed v)
  unfolding encrypt_stage fail_packet count_failed
  encrypt_stage-IsSilent nonce signed v h = elim (Option-cases v.encryptor) [
    | inl e ↦ rw (e, encrypt_stage) (refl, refl, refl)
    | inr (x, e) ↦
        let k = encrypt_packet-unestablished P {J = J} nonce signed v.crypto x h in
        rw (e, encrypt_stage, k) (refl, ap (λ o. o.0.0) k, refl)
  ]

  module _ (sign : Bytes → Bytes → Bytes) where
    sign_stage-IsSilent :
        (nonce : Bytes) (built : BuiltPacket) (v : CarNode J)
        → session_established v.crypto ≡ false
        → IsSilent v (sign_stage P sign nonce built v)
    unfolding sign_stage fail_packet count_failed count_signed
    sign_stage-IsSilent nonce built v h =
        let (s, r) = sign_packet sign (built_dict built) v.signer in
        let u = count_signed (record v { signer = s }) in
        elim (Result-cases r) [
          | inl (signed, e) ↦ rw (e, sign_stage) (encrypt_stage-IsSilent nonce signed u h)
          | inr (x, e) ↦ rw (e, sign_stage) (refl, refl, refl)
        ]

    module _ (sha256 : Bytes → Bytes) {F : Type 0} (dumps : F → Bytes) where
      pub build_and_encrypt-IsSilent :
          (now : ℕ) (nonce : Bytes) (frame : Option F) (v : CarNode J)
          → session_established v.crypto ≡ false
          → IsSilent v (build_and_encrypt P sign sha256 dumps now nonce frame v)
      unfolding build_and_encrypt fail_packet count_failed count_built
      build_and_encrypt-IsSilent now nonce none v h = (refl, refl, refl)
      build_and_encrypt-IsSilent now nonce (some f) v h =
          let (b, built) = build sha256 dumps now f v.builder in
          let u = count_built (record v { builder = b }) in
          elim (Option-cases built) [
            | inl e ↦ rw (e, build_and_encrypt) (refl, refl, refl)
            | inr (packet, e) ↦ rw (e, build_and_encrypt) (sign_stage-IsSilent nonce packet u h)
          ]

      -- The packets of passes of the producer, one after the other: the clock, the nonce, the frame.
      unfoldable pub produced : List (ℕ × Bytes × Option F) → CarNode J → List (Packet J)
      produced [] v = []
      produced ((now, nonce, frame) ∷ xs) v =
          let o = build_and_encrypt P sign sha256 dumps now nonce frame v in
          let rest = produced xs o.0 in elim o.1 [ none ↦ rest | some q ↦ q ∷ rest ]

      pub produced-unestablished :
          (xs : List (ℕ × Bytes × Option F)) (v : CarNode J)
          → session_established v.crypto ≡ false
          → produced xs v ≡ []
      unfolding produced
      produced-unestablished [] v h = refl
      produced-unestablished ((now, nonce, frame) ∷ xs) v h =
          let (nothing, same, _) = build_and_encrypt-IsSilent now nonce frame v h in
          let o = build_and_encrypt P sign sha256 dumps now nonce frame v in
          rw (nothing, produced) (produced-unestablished xs o.0 (rw same h))

  pub rotate_keys-unestablished :
      (t : RotationClock) (private : Bytes) (reason : RotationReason) (v : CarNode J)
      → session_established (rotate_keys P t private reason v).crypto ≡ false
  unfolding rotate_keys notify on_key_rotation
  rotate_keys-unestablished t private reason v =
      do_rotation-unestablished P t private reason v.crypto v.scheduler
