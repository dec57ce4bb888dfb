-- ===== src/Signer/Laws.antt =====
-- What the car signs (car_producer/src/signer.py).
use pitcrypt_f.Prelude.{refl, returned, ◌++◌, ◌+◌, ◌≡◌}
use pitcrypt_f.Builder.{BuiltPacket}
use pitcrypt_f.Packet.{Bytes}
use pitcrypt_f.Signer.{PacketSigner, built_dict, sign_packet, signed_dict}

-- A packet of the builder is always signed.
pub sign_packet-built_dict :
    (sign : Bytes → Bytes → Bytes) (b : BuiltPacket) (s : PacketSigner)
    → sign_packet sign (built_dict b) s ≡ (
      record s { sign_count = s.sign_count + 1 },
      returned (signed_dict sign s (b.header ++ b.payload) (built_dict b)),
    )
unfolding sign_packet
sign_packet-built_dict sign b s = refl
