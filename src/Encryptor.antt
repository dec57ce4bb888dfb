-- ===== src/Encryptor.antt =====
-- car_producer/src/encryptor.py, class PacketEncryptor: the encryption of a signed packet. The engine is
-- shared with the node and with the scheduler, so it is an argument and a result of the calls and no
-- field. The nonce that the engine draws is an argument; `loads` decodes UTF-8 and JSON. The keys
-- `encrypted_at`, `size_original` and `size_encrypted`, which are only shown, are left out.
pub mod Laws
use pitcrypt_f.Prelude.{
  Option, Result, String, [], if◌then◌else◌, none, not, or_default, pos, raised, returned, some, ℕ,
  ◌+◌,
}
use pitcrypt_f.Crypto.{
  CryptoEngine, EngineError, Primitives, decrypt, decrypt_failed, encrypt, invalid_tag,
  session_established,
}
use pitcrypt_f.Hex.{from_hex, to_hex}
use pitcrypt_f.Packet.{Bytes, Packet, Text, empty_packet, raw, str}
use pitcrypt_f.Signer.{CarPacket}

pub data EncryptError : Type 0 where
  -- The RuntimeError, the ValueErrors and KeyErrors, what the engine raises, InvalidTag with its own
  -- message, and what the decoding raises.
  not_established : EncryptError
  header_absent payload_missing : EncryptError
  key_absent hex_invalid : EncryptError
  engine_error : EngineError → EncryptError
  tag_mismatch : EncryptError
  not_json : EncryptError

pub record PacketEncryptor : Type 0 where
  pub node_id : String
  pub packets_encrypted : ℕ
  pub packets_decrypted : ℕ
  pub failed_decryptions : ℕ

abbrev pub new_encryptor : String → PacketEncryptor
new_encryptor id = record {
  node_id = id;
  packets_encrypted = 0;
  packets_decrypted = 0;
  failed_decryptions = 0;
}

-- The engine and the encryptor after a call, and what the call returns or raises.
abbrev pub Encrypted : Type 0 → Type 0
Encrypted A = (CryptoEngine × PacketEncryptor) × Result EncryptError A

-- `packet.get(k)`, or else the hex text under the other key, which must be there.
bytes_or_key : Option Bytes → Option Text → Result EncryptError Bytes
bytes_or_key (some bs) hex = returned bs
bytes_or_key none none = raised key_absent
bytes_or_key none (some hex) = elim (from_hex hex) [
  | none ↦ raised hex_invalid
  | some bs ↦ returned bs
]

module _ {J : Type 0} where
  -- The dict for the relay.
  abbrev pub encrypted_dict : String → Bytes → Bytes → Bytes → CarPacket → Packet J
  encrypted_dict id n c head p = record (empty_packet {J = J}) {
    nonce = some (to_hex n);
    nonce_bytes = some n;
    ciphertext = some (to_hex c);
    ciphertext_bytes = some c;
    header = some head;
    header_hex = some (to_hex head);
    signature = some (str (or_default p.signature []));
    signature_bytes = some (raw (or_default p.signature_bytes []));
    sequence_no = some (or_default p.sequence_no (pos 0));
    timestamp = some (or_default p.timestamp (pos 0));
    team = some (or_default p.team "");
    session = some (or_default p.session "");
    node_id = some (or_default p.signer_node_id id);
  }

  -- The call of the engine, and what follows it.
  pub seal_packet :
      Primitives
      → Bytes
      → Bytes
      → Bytes
      → CarPacket
      → CryptoEngine
      → PacketEncryptor
      → Encrypted (Packet J)
  seal_packet P nonce head body p e x =
      let (e', r) = encrypt P nonce body (some head) e in
      elim r [
        | raised err ↦ ((e', x), raised (engine_error err))
        | returned (n, c) ↦ (
          (e', record x { packets_encrypted = x.packets_encrypted + 1 }),
          returned (encrypted_dict x.node_id n c head p),
        )
      ]

  pub encrypt_packet :
      Primitives → Bytes → CarPacket → CryptoEngine → PacketEncryptor → Encrypted (Packet J)
  encrypt_packet P nonce p e x =
      if not (session_established e) then ((e, x), raised not_established) else elim p.header [
        | none ↦ ((e, x), raised header_absent)
        | some head ↦ elim p.payload [
          | none ↦ ((e, x), raised payload_missing)
          | some body ↦ seal_packet P nonce head body p e x
        ]
      ]

  -- InvalidTag is counted and raised again, other exceptions go through.
  fail_with : EngineError → CryptoEngine → PacketEncryptor → Encrypted (Packet J)
  fail_with (decrypt_failed invalid_tag) e x =
      ((e, record x { failed_decryptions = x.failed_decryptions + 1 }), raised tag_mismatch)
  fail_with err e x = ((e, x), raised (engine_error err))

  -- The part under `try`.
  unseal_packet :
      Primitives
      → (Bytes → Option J)
      → Bytes
      → Bytes
      → Packet J
      → CryptoEngine
      → PacketEncryptor
      → Encrypted (Packet J)
  unseal_packet P loads n c p e x =
      let (e', r) = decrypt P n c p.header e in
      elim r [
        | raised err ↦ fail_with err e' x
        | returned plaintext ↦
            (let x' = record x { packets_decrypted = x.packets_decrypted + 1 } in
              elim (loads plaintext) [
                | none ↦ ((e', x'), raised not_json)
                | some j ↦ (
                  (e', x'),
                  returned (record p { payload_bytes = some plaintext; payload_json = some j }),
                )
              ])
      ]

  pub decrypt_packet :
      Primitives
      → (Bytes → Option J)
      → Packet J
      → CryptoEngine
      → PacketEncryptor
      → Encrypted (Packet J)
  decrypt_packet P loads p e x =
      if not (session_established e)
      then ((e, x), raised not_established)
      else elim (bytes_or_key p.nonce_bytes p.nonce) [
        | raised err ↦ ((e, x), raised err)
        | returned n ↦ elim (bytes_or_key p.ciphertext_bytes p.ciphertext) [
          | raised err ↦ ((e, x), raised err)
          | returned c ↦ unseal_packet P loads n c p e x
        ]
      ]
