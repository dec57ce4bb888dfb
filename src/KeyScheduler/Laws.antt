-- ===== src/KeyScheduler/Laws.antt =====
-- When a key is rotated, and where the packets are counted (car_producer/src/key_scheduler.py).
use pitcrypt_f.Prelude.{false, refl, ◌+◌, ◌≡◌}
use pitcrypt_f.Crypto.{CryptoEngine, Primitives, session_established}
use pitcrypt_f.Crypto.Laws.{packets_encrypted-rotate_session, rotate_session-unestablished}
use pitcrypt_f.KeyScheduler.{
  KeyScheduler, RotationClock, RotationReason, begin_rotation, do_rotation, log_event,
  reset_counters,
}
use pitcrypt_f.Packet.{Bytes}

-- A rotation takes the engine's session away.
pub do_rotation-unestablished :
    (P : Primitives) (t : RotationClock) (private : Bytes) (reason : RotationReason)
    (e : CryptoEngine) (k : KeyScheduler)
    → session_established (do_rotation P t private reason e k).0 ≡ false
unfolding do_rotation
do_rotation-unestablished P t private reason e k =
    rotate_session-unestablished P t.rotated_at private e

-- A rotation is counted, and the engine's counters stay.
pub do_rotation-counts :
    (P : Primitives) (t : RotationClock) (private : Bytes) (reason : RotationReason)
    (e : CryptoEngine) (k : KeyScheduler)
    → let (e', k', _, _) = do_rotation P t private reason e k in
      (k'.rotation_count ≡ k.rotation_count + 1) × (e'.packets_encrypted ≡ e.packets_encrypted)
unfolding do_rotation log_event reset_counters begin_rotation
do_rotation-counts P t private reason e k =
    (refl, packets_encrypted-rotate_session P t.rotated_at private e)
