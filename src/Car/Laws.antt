-- ===== src/Car/Laws.antt =====
-- What the car can send before and after a rotation of its key (car_producer/src/main.py).
use mathlib.Core.List.{append_assoc}
use pitcrypt_f.Prelude.{
  Bool, List, List-cases, Option, Option-cases, [], ap, arith, false, inl, inr, length, none, refl,
  some, sym, true, ℕ, ℤ, ◌++◌, ◌∙◌, ◌∷◌, ◌≡◌,
}
use pitcrypt_f.Car.{
  CarNode, build_and_encrypt, count_failed, count_sent, on_key_rotation, producer_pass, rotate_keys,
  scheduler_pass, simulate_handshake, transmitter_pass,
}
use pitcrypt_f.Car.Silence.{
  build_and_encrypt-IsSilent, produced, produced-unestablished, rotate_keys-unestablished,
}
use pitcrypt_f.Crypto.{
  CryptoEngine, Primitives, complete_handshake, derive_shared_secret, new_session,
  session_established,
}
use pitcrypt_f.Crypto.Laws.{AgreesAndUnseals}
use pitcrypt_f.Encryptor.{new_encryptor}
use pitcrypt_f.KeyScheduler.{RotationClock, RotationReason, notify, should_rotate}
use pitcrypt_f.Packet.{Bytes, Packet}

-- A pass of one of the three loops of a car.
pub data Pass (F : Type 0) : Type 0 where
  produces : (now : ℕ) (nonce : Bytes) (frame : Option F) → Pass F
  transmits : (sendall : Bytes → Bool) → Pass F
  schedules : (now : ℤ) (t : RotationClock) (private : Bytes) → Pass F

module _ {J : Type 0} (P : Primitives) where
  -- What is left of a queue.
  abbrev IsRest : List (Packet J) → List (Packet J) → Type 0
  IsRest old new = (sent : List (Packet J)) × (old ≡ sent ++ new)

  IsRest-trans : (xs ys zs : List (Packet J)) → IsRest xs ys → IsRest ys zs → IsRest xs zs
  IsRest-trans xs ys zs (a, e) (b, f) = (a ++ b, e ∙ ap (λ l. a ++ l) f ∙ sym (append_assoc a b zs))

  transmitter_pass-IsRest :
      (dumps_packet : Packet J → Bytes) (sendall : Bytes → Bool) (v : CarNode J)
      → ((transmitter_pass dumps_packet sendall v).crypto ≡ v.crypto)
        × IsRest v.packet_queue (transmitter_pass dumps_packet sendall v).packet_queue
  unfolding transmitter_pass count_sent count_failed
  transmitter_pass-IsRest dumps_packet sendall v = elim (List-cases v.packet_queue) [
    | inl e ↦ (ground arith, ([], ground arith))
    | inr (q, qs, e) ↦ (ground arith, (q ∷ [], ground arith))
  ]

  scheduler_pass-unestablished :
      (now : ℤ) (t : RotationClock) (private : Bytes) (v : CarNode J)
      → session_established v.crypto ≡ false
      → (session_established (scheduler_pass P now t private v).crypto ≡ false)
        × ((scheduler_pass P now t private v).packet_queue ≡ v.packet_queue)
  unfolding scheduler_pass rotate_keys notify on_key_rotation
  scheduler_pass-unestablished now t private v h =
      elim (Option-cases (should_rotate now v.scheduler)) [
        | inl e ↦ rw (e, scheduler_pass) (h, refl)
        | inr (reason, e) ↦
            rw (e, scheduler_pass) (rotate_keys-unestablished P t private reason v, refl)
      ]

  module _ (sign : Bytes → Bytes → Bytes) (sha256 : Bytes → Bytes) {F : Type 0} (dumps : F → Bytes)
      (dumps_packet : Packet J → Bytes) where
    pub run_pass : Pass F → CarNode J → CarNode J
    run_pass (produces now nonce frame) v =
        producer_pass (build_and_encrypt P sign sha256 dumps now nonce frame v)
    run_pass (transmits sendall) v = transmitter_pass dumps_packet sendall v
    run_pass (schedules now t private) v = scheduler_pass P now t private v

    pub run_passes : List (Pass F) → CarNode J → CarNode J
    run_passes [] v = v
    run_passes (x ∷ xs) v = run_passes xs (run_pass x v)

    run_pass-IsRest :
        (x : Pass F) (v : CarNode J)
        → session_established v.crypto ≡ false
        → (session_established (run_pass x v).crypto ≡ false)
          × IsRest v.packet_queue (run_pass x v).packet_queue
    unfolding run_pass producer_pass
    run_pass-IsRest (produces now nonce frame) v h =
        let (nothing, same, queue) =
          build_and_encrypt-IsSilent P sign sha256 dumps now nonce frame v h in
        rw (nothing, producer_pass) (rw same h, ([], sym queue))
    run_pass-IsRest (transmits sendall) v h =
        let (same, rest) = transmitter_pass-IsRest dumps_packet sendall v in (rw same h, rest)
    run_pass-IsRest (schedules now t private) v h =
        let (none_now, queue) = scheduler_pass-unestablished now t private v h in
        (none_now, ([], sym queue))

    run_passes-IsRest :
        (xs : List (Pass F)) (v : CarNode J)
        → session_established v.crypto ≡ false
        → IsRest v.packet_queue (run_passes xs v).packet_queue
    unfolding run_passes
    run_passes-IsRest [] v h = ([], refl)
    run_passes-IsRest (x ∷ xs) v h =
        let (k, rest) = run_pass-IsRest x v h in
        IsRest-trans v.packet_queue (run_pass x v).packet_queue
          (run_passes xs (run_pass x v)).packet_queue rest (run_passes-IsRest xs (run_pass x v) k)

  -- After a rotation of its key the car makes no packet of whatever frames come, as long as no handshake
  -- follows: the callback of the rotation only counts it. Whatever passes of the producer, the
  -- transmitter and the scheduler follow, nothing enters the queue: what is in it is what was queued
  -- at the rotation, less packets taken from its front.
  pub produced-rotate_keys :
      (sign : Bytes → Bytes → Bytes) (sha256 : Bytes → Bytes) {F : Type 0} (dumps : F → Bytes)
      (dumps_packet : Packet J → Bytes) (t : RotationClock) (private : Bytes)
      (reason : RotationReason) (v : CarNode J) (frames : List (ℕ × Bytes × Option F))
      (passes : List (Pass F))
      → let u = rotate_keys P t private reason v in
        (produced P sign sha256 dumps frames u ≡ [])
        × ((sent : List (Packet J)) × (v.packet_queue
              ≡ sent ++ (run_passes sign sha256 dumps dumps_packet passes u).packet_queue))
  unfolding rotate_keys notify on_key_rotation
  produced-rotate_keys sign sha256 dumps dumps_packet t private reason v frames passes =
      let u = rotate_keys P t private reason v in
      let h = rotate_keys-unestablished P t private reason v in
      (
        produced-unestablished P sign sha256 dumps frames u h,
        run_passes-IsRest sign sha256 dumps dumps_packet passes u h,
      )

module _ {J : Type 0} (P : Primitives) (laws : AgreesAndUnseals P) where
  -- A handshake of a car whose session is the one that it announced always succeeds and gives it a
  -- session to encrypt with.
  pub simulate_handshake-established :
      (now at : ℤ) (a b : Bytes) (e : CryptoEngine) (v : CarNode J)
      → v.crypto ≡ (new_session P at a e).0
      → v.car_pub ≡ P.public_of a
      → let (v', r) = simulate_handshake P now b v in
        (r ≡ none)
        × (session_established v'.crypto ≡ true)
        × (v'.encryptor ≡ some (new_encryptor v.node_id))
  unfolding simulate_handshake new_session complete_handshake derive_shared_secret
  simulate_handshake-established now at a b e v h k =
      let ours = laws.public_size b in
      let theirs : length v.car_pub ≡ 32 = rw k (laws.public_size a) in
      let (secret, mine, other) = laws.agrees a b in
      let with_session : v.crypto.session ≡ (new_session P at a e).0.session =
        ap (λ o. o.session) h in
      (ground arith, ground arith, ground arith)
