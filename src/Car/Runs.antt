-- ===== src/Car/Runs.antt =====
-- Runs of the car (car_producer/src/main.py): the numbers of the packets that it sends.
use pitcrypt_f.Prelude.{
  List, Option, Option-cases, Result-cases, [], ap, arith, inl, inr, map, none, or_default, pos,
  refl, some, ℕ, ◌++◌, ◌+◌, ◌∙◌, ◌∷◌, ◌≡◌,
}
use pitcrypt_f.Builder.{BuiltPacket, build}
use pitcrypt_f.Builder.Laws.{sequence-build}
use pitcrypt_f.Car.{
  CarNode, build_and_encrypt, count_built, count_encrypted, count_failed, count_signed,
  encrypt_stage, fail_packet, sign_stage,
}
use pitcrypt_f.Car.Silence.{produced}
use pitcrypt_f.Crypto.{Primitives}
use pitcrypt_f.Encryptor.{encrypt_packet}
use pitcrypt_f.Encryptor.Laws.{encrypt_packet-numbers}
use pitcrypt_f.Packet.{Bytes, Packet, packet_seq}
use pitcrypt_f.SeqSet.Order.{IncreasingFrom, IncreasingFrom-weaken}
use pitcrypt_f.Signer.{CarPacket, built_dict, sign_packet, signed_dict}
use pitcrypt_f.Signer.Laws.{sign_packet-built_dict}

module _ {J : Type 0} (P : Primitives) where
  -- What is sent has the number of the signed packet, and the builder stays.
  encrypt_stage-numbers :
      (nonce head body : Bytes) (signed : CarPacket) (v : CarNode J)
      → signed.header ≡ some head
      → signed.payload ≡ some body
      → ((encrypt_stage P nonce signed v).0.builder ≡ v.builder)
        × ((q : Packet J)
            → (encrypt_stage P nonce signed v).1 ≡ some q
            → packet_seq q ≡ or_default signed.sequence_no (pos 0))
  unfolding encrypt_stage fail_packet count_failed count_encrypted
  encrypt_stage-numbers nonce head body signed v a b = elim (Option-cases v.encryptor) [
    | inl e ↦ rw (e, encrypt_stage) (refl, λ q h. absurd (ground arith))
    | inr (x, e) ↦ elim (Result-cases (encrypt_packet {J = J} P nonce signed v.crypto x).1) [
      | inr (err, k) ↦ rw (e, encrypt_stage, k) (refl, λ q h. absurd (ground arith))
      | inl (p, k) ↦
          let (same, counts) = encrypt_packet-numbers P nonce head body signed v.crypto x p a b k in
          rw (e, encrypt_stage, k) (refl, λ q h. let eq : p ≡ q = ground arith in rw eq at same)
    ]
  ]

  module _ (sign : Bytes → Bytes → Bytes) where
    sign_stage-numbers :
        (nonce : Bytes) (built : BuiltPacket) (v : CarNode J)
        → ((sign_stage P sign nonce built v).0.builder ≡ v.builder)
          × ((q : Packet J)
              → (sign_stage P sign nonce built v).1 ≡ some q
              → packet_seq q ≡ pos built.sequence_no)
    unfolding sign_stage count_signed
    sign_stage-numbers nonce built v =
        let u =
          count_signed (record v { signer = (sign_packet sign (built_dict built) v.signer).0 }) in
        let signed = signed_dict sign v.signer (built.header ++ built.payload) (built_dict built) in
        rw (sign_packet-built_dict sign built v.signer, sign_stage)
          (encrypt_stage-numbers nonce built.header built.payload signed u refl refl)

    module _ (sha256 : Bytes → Bytes) {F : Type 0} (dumps : F → Bytes) where
      build_and_encrypt-numbers :
          (now : ℕ) (nonce : Bytes) (f : F) (v : CarNode J)
          → let o = build_and_encrypt P sign sha256 dumps now nonce (some f) v in
            (o.0.builder.sequence ≡ v.builder.sequence + 1)
            × ((q : Packet J) → o.1 ≡ some q → packet_seq q ≡ pos (v.builder.sequence + 1))
      unfolding build_and_encrypt fail_packet count_failed count_built
      build_and_encrypt-numbers now nonce f v =
          let (b, built) = build sha256 dumps now f v.builder in
          let u = count_built (record v { builder = b }) in
          let (next, number_of) = sequence-build sha256 dumps now f v.builder in
          elim (Option-cases built) [
            | inl e ↦ rw (e, build_and_encrypt) (next, λ q h. absurd (ground arith))
            | inr (packet, e) ↦
                let (same, seqs) = sign_stage-numbers nonce packet u in
                rw (e, build_and_encrypt)
                  (ap (λ o. o.sequence) same ∙ next, λ q h. seqs q h ∙ ap pos (number_of packet e))
          ]

      -- The numbers of the packets that a car sends are greater than those before, whatever frames come.
      pub produced-IncreasingFrom :
          (xs : List (ℕ × Bytes × Option F)) (v : CarNode J)
          → IncreasingFrom
              (pos v.builder.sequence)
              (map packet_seq (produced P sign sha256 dumps xs v))
      unfolding produced build_and_encrypt fail_packet count_failed
      produced-IncreasingFrom [] v = tt
      produced-IncreasingFrom ((now, nonce, none) ∷ xs) v =
          produced-IncreasingFrom xs (count_failed v)
      produced-IncreasingFrom ((now, nonce, some f) ∷ xs) v =
          let o = build_and_encrypt P sign sha256 dumps now nonce (some f) v in
          let (next, seqs) = build_and_encrypt-numbers now nonce f v in
          let rest = rw next at (produced-IncreasingFrom xs o.0) in
          elim (Option-cases o.1) [
            | inl e ↦
                rw (e, produced)
                  (IncreasingFrom-weaken (pos v.builder.sequence) (pos (v.builder.sequence + 1)) _
                    (omega arith) rest)
            | inr (q, e) ↦ rw (e, produced, seqs q e) (omega arith, rest)
          ]
