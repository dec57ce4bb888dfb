-- ===== src/Car/Tally.antt =====
-- The statistics of the car (car_producer/src/main.py) after each of its operations.
use pitcrypt_f.Prelude.{
  Bool, Option, Option-cases, Result-cases, ap, arith, inl, inr, none, refl, some, sym, ℕ, ℤ, ◌++◌,
  ◌+◌, ◌∙◌, ◌≡◌, ◌≤◌,
}
use pitcrypt_f.Builder.{BuiltPacket, build}
use pitcrypt_f.Builder.Laws.{packets_built-build}
use pitcrypt_f.Car.{
  CarNode, CarOutcome, build_and_encrypt, count_built, count_encrypted, count_failed, count_sent,
  count_signed, encrypt_stage, enqueue, fail_packet, on_key_rotation, producer_pass, rotate_keys,
  sign_stage, simulate_handshake, transmitter_pass,
}
use pitcrypt_f.Crypto.{Primitives, complete_handshake, new_engine, new_session}
use pitcrypt_f.Crypto.Laws.{packets_encrypted-complete_handshake}
use pitcrypt_f.Encryptor.{encrypt_packet}
use pitcrypt_f.Encryptor.Laws.{encrypt_packet-numbers, encrypt_packet-raised}
use pitcrypt_f.KeyScheduler.{RotationClock, RotationReason, notify, record_packet}
use pitcrypt_f.KeyScheduler.Laws.{do_rotation-counts}
use pitcrypt_f.Packet.{Bytes, Packet}
use pitcrypt_f.Signer.{CarPacket, built_dict, sign_packet, signed_dict}
use pitcrypt_f.Signer.Laws.{sign_packet-built_dict}

-- The counters of the node are those of the builder, the signer, the engine and the scheduler.
pub record IsTallied {J : Type 0} (v : CarNode J) : Type 0 where
  pub built : v.stats.packets_built ≡ v.builder.packets_built
  pub signed : v.stats.packets_signed ≡ v.stats.packets_built
  pub by_signer : v.stats.packets_signed ≡ v.signer.sign_count
  pub encrypted : v.stats.packets_encrypted ≡ v.crypto.packets_encrypted
  pub fewer : v.stats.packets_encrypted ≤ v.stats.packets_signed
  pub rotations : v.stats.key_rotations ≡ v.scheduler.rotation_count

-- The same while a packet that is built is not signed.
record IsTalliedWith {J : Type 0} (v : CarNode J) (n m : ℕ) : Type 0 where
  built : v.stats.packets_built ≡ v.builder.packets_built
  signed : v.stats.packets_signed + n ≡ v.stats.packets_built
  by_signer : v.stats.packets_signed ≡ v.signer.sign_count
  encrypted : v.stats.packets_encrypted ≡ v.crypto.packets_encrypted
  fewer : v.stats.packets_encrypted + m ≤ v.stats.packets_signed
  rotations : v.stats.key_rotations ≡ v.scheduler.rotation_count

module _ {J : Type 0} where
  fail_packet-IsTallied :
      (m : ℕ) (v : CarNode J) → IsTalliedWith v 0 m → IsTallied (fail_packet v).0
  unfolding fail_packet count_failed
  fail_packet-IsTallied m v h = record {
    built = h.built;
    signed = omega (arith, h.signed);
    by_signer = h.by_signer;
    encrypted = h.encrypted;
    fewer = omega (arith, h.fewer);
    rotations = h.rotations;
  }

  -- The counts of packets that are sent or failed do not touch the others.
  IsTallied-sends :
      (v w : CarNode J)
      → w.builder ≡ v.builder
      → w.signer ≡ v.signer
      → w.crypto ≡ v.crypto
      → w.scheduler ≡ v.scheduler
      → w.stats ≡ record v.stats {
        packets_sent = w.stats.packets_sent;
        packets_failed = w.stats.packets_failed;
      }
      → IsTallied v
      → IsTallied w
  IsTallied-sends v w a b c d e h = record {
    built = ground (arith, h.built);
    signed = ground (arith, h.signed);
    by_signer = ground (arith, h.by_signer);
    encrypted = ground (arith, h.encrypted);
    fewer = ground (arith, h.fewer);
    rotations = ground (arith, h.rotations);
  }

module _ {J : Type 0} (P : Primitives) where
  encrypt_stage-IsTallied :
      (nonce head body : Bytes) (p : CarPacket) (v : CarNode J)
      → p.header ≡ some head
      → p.payload ≡ some body
      → IsTalliedWith v 0 1
      → IsTallied (encrypt_stage P nonce p v).0
  unfolding encrypt_stage count_encrypted record_packet
  encrypt_stage-IsTallied nonce head body p v a b h = elim (Option-cases v.encryptor) [
    | inl e ↦ rw (e, encrypt_stage) (fail_packet-IsTallied 1 v h)
    | inr (x, e) ↦ elim (Result-cases (encrypt_packet {J = J} P nonce p v.crypto x).1) [
      | inr (err, k) ↦
          let same = encrypt_packet-raised P {J = J} nonce head body p v.crypto x err a b k in
          rw (e, encrypt_stage, k)
            (fail_packet-IsTallied 1 _ (record {
              built = h.built;
              signed = h.signed;
              by_signer = h.by_signer;
              encrypted = h.encrypted ∙ sym same;
              fewer = h.fewer;
              rotations = h.rotations;
            }))
      | inl (q, k) ↦
          let (_, counts) = encrypt_packet-numbers P nonce head body p v.crypto x q a b k in
          let before = h.encrypted in
          rw (e, encrypt_stage, k)
            (record {
              built = h.built;
              signed = omega (arith, h.signed);
              by_signer = h.by_signer;
              encrypted = omega (arith, counts, before);
              fewer = omega (arith, h.fewer);
              rotations = h.rotations;
            })
    ]
  ]

  module _ (sign : Bytes → Bytes → Bytes) where
    sign_stage-IsTallied :
        (nonce : Bytes) (built : BuiltPacket) (v : CarNode J)
        → IsTalliedWith v 1 0
        → IsTallied (sign_stage P sign nonce built v).0
    unfolding sign_stage count_signed
    sign_stage-IsTallied nonce built v h =
        let done = sign_packet-built_dict sign built v.signer in
        let u =
          count_signed (record v { signer = (sign_packet sign (built_dict built) v.signer).0 }) in
        let signed = signed_dict sign v.signer (built.header ++ built.payload) (built_dict built) in
        let counted = ap (λ o. o.0.sign_count) done in
        rw (done, sign_stage)
          (encrypt_stage-IsTallied nonce built.header built.payload signed u refl refl (record {
            built = h.built;
            signed = omega (arith, h.signed);
            by_signer = omega (arith, h.by_signer, counted);
            encrypted = h.encrypted;
            fewer = omega (arith, h.fewer);
            rotations = h.rotations;
          }))

    module _ (sha256 : Bytes → Bytes) {F : Type 0} (dumps : F → Bytes) where
      pub build_and_encrypt-IsTallied :
          (now : ℕ) (nonce : Bytes) (frame : Option F) (v : CarNode J)
          → IsTallied v
          → IsTallied (build_and_encrypt P sign sha256 dumps now nonce frame v).0
      unfolding build_and_encrypt count_built
      build_and_encrypt-IsTallied now nonce none v h = fail_packet-IsTallied 0 v (record {
        built = h.built;
        signed = omega (arith, h.signed);
        by_signer = h.by_signer;
        encrypted = h.encrypted;
        fewer = omega (arith, h.fewer);
        rotations = h.rotations;
      })
      build_and_encrypt-IsTallied now nonce (some f) v h =
          let (b, built) = build sha256 dumps now f v.builder in
          let count = packets_built-build sha256 dumps now f v.builder in
          let u : CarNode J = record v { builder = b } in
          let before = h.built in
          elim (Option-cases built) [
            | inl e ↦
                rw (e, build_and_encrypt)
                  (fail_packet-IsTallied 0 u (record {
                    built = ground arith;
                    signed = omega (arith, h.signed);
                    by_signer = h.by_signer;
                    encrypted = h.encrypted;
                    fewer = omega (arith, h.fewer);
                    rotations = h.rotations;
                  }))
            | inr (packet, e) ↦
                rw (e, build_and_encrypt)
                  (sign_stage-IsTallied nonce packet (count_built u) (record {
                    built = ground arith;
                    signed = omega (arith, h.signed);
                    by_signer = h.by_signer;
                    encrypted = h.encrypted;
                    fewer = omega (arith, h.fewer);
                    rotations = h.rotations;
                  }))
          ]

  pub rotate_keys-IsTallied :
      (t : RotationClock) (private : Bytes) (reason : RotationReason) (v : CarNode J)
      → IsTallied v
      → IsTallied (rotate_keys P t private reason v)
  unfolding rotate_keys notify on_key_rotation
  rotate_keys-IsTallied t private reason v h =
      let (counts, same) = do_rotation-counts P t private reason v.crypto v.scheduler in
      record {
        built = h.built;
        signed = h.signed;
        by_signer = h.by_signer;
        encrypted = h.encrypted ∙ sym same;
        fewer = h.fewer;
        rotations = ap (λ n. n + 1) h.rotations ∙ sym counts;
      }

  pub simulate_handshake-IsTallied :
      (now : ℤ) (private : Bytes) (v : CarNode J)
      → IsTallied v
      → IsTallied (simulate_handshake P now private v).0
  unfolding simulate_handshake
  simulate_handshake-IsTallied now private v h =
      let (relay, relay_pub) = new_session P now private (new_engine "relay_sim") in
      elim (Result-cases (complete_handshake P now relay_pub none v.crypto)) [
        | inr (x, e) ↦ rw (e, simulate_handshake) h
        | inl (c, e) ↦
            let same = packets_encrypted-complete_handshake P now relay_pub none v.crypto c e in
            let k = h.encrypted ∙ sym same in
            elim (Result-cases (complete_handshake P now v.car_pub none relay)) [
              | inr (x, o) ↦
                  rw (e, simulate_handshake, o)
                    (record {
                      built = h.built;
                      signed = h.signed;
                      by_signer = h.by_signer;
                      encrypted = k;
                      fewer = h.fewer;
                      rotations = h.rotations;
                    })
              | inl (r, o) ↦
                  rw (e, simulate_handshake, o)
                    (record {
                      built = h.built;
                      signed = h.signed;
                      by_signer = h.by_signer;
                      encrypted = k;
                      fewer = h.fewer;
                      rotations = h.rotations;
                    })
            ]
      ]

module _ {J : Type 0} where
  pub producer_pass-IsTallied : (o : CarOutcome J) → IsTallied o.0 → IsTallied (producer_pass o)
  unfolding producer_pass enqueue
  producer_pass-IsTallied (v, none) h = h
  producer_pass-IsTallied (v, some q) h =
      IsTallied-sends v (producer_pass (v, some q)) (ground arith) (ground arith) (ground arith)
        (ground arith) (ground arith) h

  pub transmitter_pass-IsTallied :
      (dumps_packet : Packet J → Bytes) (sendall : Bytes → Bool) (v : CarNode J)
      → IsTallied v
      → IsTallied (transmitter_pass dumps_packet sendall v)
  unfolding transmitter_pass count_sent count_failed
  transmitter_pass-IsTallied dumps_packet sendall v h =
      IsTallied-sends v (transmitter_pass dumps_packet sendall v) (ground arith) (ground arith)
        (ground arith) (ground arith) (ground arith) h
