-- ===== src/Car/Ledger.antt =====
-- The statistics of the car (car_producer/src/main.py) and the counters of its parts agree in every
-- state that it reaches.
use pitcrypt_f.Prelude.{Bool, Option, String, arith, refl, returned, sym, ℕ, ℤ, ◌≡◌}
use pitcrypt_f.Builder.{PacketBuilder, new_builder}
use pitcrypt_f.Builder.Laws.{new_builder-packets_built}
use pitcrypt_f.Car.{
  CarNode, build_and_encrypt, new_car, producer_pass, rotate_keys, simulate_handshake,
  transmitter_pass,
}
use pitcrypt_f.Car.Tally.{
  IsTallied, build_and_encrypt-IsTallied, producer_pass-IsTallied, rotate_keys-IsTallied,
  simulate_handshake-IsTallied, transmitter_pass-IsTallied,
}
use pitcrypt_f.Crypto.{Primitives, new_session}
use pitcrypt_f.KeyScheduler.{RotationClock, RotationReason}
use pitcrypt_f.Packet.{Bytes, Packet}

module _ {J : Type 0} (P : Primitives) (sign : Bytes → Bytes → Bytes) (sha256 : Bytes → Bytes)
    {F : Type 0} (dumps : F → Bytes) (dumps_packet : Packet J → Bytes) where
  -- The states that the car reaches: passes of the producer and the transmitter, rotations by the
  -- scheduler or by hand, and handshakes, in any order.
  pub data Reaches (v : CarNode J) : CarNode J → Type 0 where
    at_start : Reaches v v
    by_frame :
        {u : CarNode J} (now : ℕ) (nonce : Bytes) (frame : Option F)
        → Reaches v u
        → Reaches v (producer_pass (build_and_encrypt P sign sha256 dumps now nonce frame u))
    by_transmitter :
        {u : CarNode J} (sendall : Bytes → Bool)
        → Reaches v u
        → Reaches v (transmitter_pass dumps_packet sendall u)
    by_rotation :
        {u : CarNode J} (t : RotationClock) (private : Bytes) (reason : RotationReason)
        → Reaches v u
        → Reaches v (rotate_keys P t private reason u)
    by_handshake :
        {u : CarNode J} (now : ℤ) (private : Bytes)
        → Reaches v u
        → Reaches v (simulate_handshake P now private u).0

  Reaches-IsTallied : (v : CarNode J) {u : CarNode J} → IsTallied v → Reaches v u → IsTallied u
  Reaches-IsTallied v h at_start = h
  Reaches-IsTallied v h (by_frame {u} now nonce frame r) =
      producer_pass-IsTallied (build_and_encrypt P sign sha256 dumps now nonce frame u) (
        build_and_encrypt-IsTallied P sign sha256 dumps now nonce frame u (Reaches-IsTallied v h r))
  Reaches-IsTallied v h (by_transmitter {u} sendall r) =
      transmitter_pass-IsTallied dumps_packet sendall u (Reaches-IsTallied v h r)
  Reaches-IsTallied v h (by_rotation {u} t private reason r) =
      rotate_keys-IsTallied P t private reason u (Reaches-IsTallied v h r)
  Reaches-IsTallied v h (by_handshake {u} now private r) =
      simulate_handshake-IsTallied P now private u (Reaches-IsTallied v h r)

  -- In every state that a new car reaches by passes of its loops, rotations and handshakes, in any
  -- order, the packets built are those that the builder counts, each is signed and counted by the
  -- signer, the packets encrypted are those that the engine counts, at most those signed, and the
  -- rotations are those that the scheduler counts.
  pub Reaches-new_car :
      (lower upper : String → String) (t s id : String) (b : PacketBuilder)
      (identity private : Bytes) (now age packets room : ℤ) {u : CarNode J}
      → new_builder lower upper t s id ≡ returned b
      → Reaches (new_car P id b identity now private age packets room) u
      → IsTallied u
  unfolding new_session
  Reaches-new_car lower upper t s id b identity private now age packets room made r =
      let none_built = new_builder-packets_built lower upper t s id b made in
      Reaches-IsTallied _
        (record {
          built = sym none_built;
          signed = refl;
          by_signer = refl;
          encrypted = refl;
          fewer = omega arith;
          rotations = refl;
        })
        r
