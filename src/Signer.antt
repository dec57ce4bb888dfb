-- ===== src/Signer.antt =====
-- car_producer/src/signer.py, class PacketSigner: the Ed25519 signature of the car. `sign` is the
-- signature of the cryptography package: private key, data. The packet dict of the car is the record
-- CarPacket with its keys as optional fields; of the builder's keys those that nothing after the
-- builder reads are left out, as is the time of signing.
pub mod Verifier
pub mod Laws
use pitcrypt_f.Prelude.{Option, Result, String, none, pos, raised, returned, some, ℕ, ℤ, ◌++◌, ◌+◌}
use pitcrypt_f.Builder.{BuiltPacket}
use pitcrypt_f.Hex.{to_hex}
use pitcrypt_f.Packet.{Bytes, Text}

pub record CarPacket : Type 0 where
  pub header : Option Bytes
  pub payload : Option Bytes
  pub sequence_no : Option ℤ
  pub timestamp : Option ℤ
  pub team : Option String
  pub session : Option String
  pub signature : Option Text
  pub signature_bytes : Option Bytes
  pub signer_node_id : Option String

-- The dict that PacketBuilder.build returns.
abbrev pub built_dict : BuiltPacket → CarPacket
built_dict b = record {
  header = some b.header;
  payload = some b.payload;
  sequence_no = some (pos b.sequence_no);
  timestamp = some (pos b.timestamp);
  team = some b.team;
  session = some b.session;
  signature = none;
  signature_bytes = none;
  signer_node_id = none;
}

pub record PacketSigner : Type 0 where
  pub node_id : String
  pub private_key : Bytes
  pub sign_count : ℕ

abbrev pub new_signer : String → Bytes → PacketSigner
new_signer id key = record { node_id = id; private_key = key; sign_count = 0 }

pub data SignError : Type 0 where
  -- The ValueError for a packet without header or payload.
  unsignable : SignError

module _ (sign : Bytes → Bytes → Bytes) where
  -- The copy of the dict with the signature of `data`.
  abbrev pub signed_dict : PacketSigner → Bytes → CarPacket → CarPacket
  signed_dict s data_to_sign p =
      let sig = sign s.private_key data_to_sign in
      record p {
        signature = some (to_hex sig);
        signature_bytes = some sig;
        signer_node_id = some s.node_id;
      }

  pub sign_packet : CarPacket → PacketSigner → PacketSigner × Result SignError CarPacket
  sign_packet p s = elim p.header [
    | none ↦ (s, raised unsignable)
    | some head ↦ elim p.payload [
      | none ↦ (s, raised unsignable)
      | some body ↦
          (record s { sign_count = s.sign_count + 1 }, returned (signed_dict s (head ++ body) p))
    ]
  ]

  pub sign_bytes : Bytes → PacketSigner → Bytes
  sign_bytes bs s = sign s.private_key bs
