-- ===== src/Reencryptor.antt =====
-- relay-node/src/reencryptor.py: the encryption for the validator. The nonce that `encrypt` draws is an
-- argument. The keys of the result that nothing reads are left out: the sizes and the two marks of
-- the relay.
pub mod Laws
use pitcrypt_f.Prelude.{
  Bool, List, Option, Result, String, [], false, if◌then◌else◌, none, not, or_default, raised,
  returned, some, ℕ, ◌&&◌, ◌+◌, ◌∷◌,
}
use pitcrypt_f.Crypto.{CryptoEngine, Primitives, encrypt, session_established}
use pitcrypt_f.Hex.{from_hex, to_hex}
use pitcrypt_f.Packet.{
  Bytes, Packet, Text, Value, empty_packet, is_truthy, packet_seq, packet_ts, raw, str,
}

pub data ReencryptionError : Type 0 where
  no_validator_session payload_absent reencryption_failed : ReencryptionError

pub record Reencryptor : Type 0 where
  pub node_id : String
  pub validator_engine : Option CryptoEngine
  pub reencrypted_count : ℕ
  pub failed_count : ℕ

abbrev pub new_reencryptor : String → Reencryptor
new_reencryptor id = record {
  node_id = id;
  validator_engine = none;
  reencrypted_count = 0;
  failed_count = 0;
}

-- `none` is the ValueError for an engine without a session.
pub register_validator_session : CryptoEngine → Reencryptor → Option Reencryptor
register_validator_session e r =
    if not (session_established e) then none else some (record r { validator_engine = some e })

-- `bytes.fromhex(v)` and `v.hex()`; `none` is an exception.
hex_to_raw : Value → Option Value
hex_to_raw (str hex) = elim (from_hex hex) [ none ↦ none | some bs ↦ some (raw bs) ]
hex_to_raw v = none

raw_to_hex : Value → Option Value
raw_to_hex (raw bs) = some (str (to_hex bs))
raw_to_hex v = none

-- The two fallback conversions: the signature as bytes and as hex text.
pub complete_raw : Value → Value → Option Value
complete_raw sig_bytes sig_hex =
    if not (is_truthy (some sig_bytes)) && is_truthy (some sig_hex)
    then hex_to_raw sig_hex
    else some sig_bytes

complete_hex : Value → Value → Option Value
complete_hex sig_bytes sig_hex =
    if not (is_truthy (some sig_hex)) && is_truthy (some sig_bytes)
    then raw_to_hex sig_bytes
    else some sig_hex

-- `header.hex() if header else ''`.
header_text : Option Bytes → Text
header_text none = []
header_text (some bs) = to_hex bs

module _ {J : Type 0} where
  -- The packet for the validator.
  forwarded_packet : String → Bytes → Bytes → Value → Value → Packet J → Packet J
  forwarded_packet id n c sig_bytes sig_hex p = record (empty_packet {J = J}) {
    nonce = some (to_hex n);
    nonce_bytes = some n;
    ciphertext = some (to_hex c);
    ciphertext_bytes = some c;
    header = p.header;
    header_hex = some (header_text p.header);
    signature = some sig_hex;
    signature_bytes = some sig_bytes;
    sequence_no = some (packet_seq p);
    timestamp = some (packet_ts p);
    team = some (or_default p.team "");
    session = some (or_default p.session "");
    node_id = some id;
    original_node = some (or_default p.node_id "");
  }

  -- What is returned once the payload is encrypted.
  convert : String → Bytes → Bytes → Packet J → Option (Packet J)
  convert id n c p =
      elim (complete_raw (or_default p.signature_bytes (raw []))
        (or_default p.signature (str []))) [
          | none ↦ none
          | some sig_bytes ↦ elim (complete_hex sig_bytes (or_default p.signature (str []))) [
            | none ↦ none
            | some sig_hex ↦ some (forwarded_packet id n c sig_bytes sig_hex p)
          ]
        ]

  pub reencrypt :
      Primitives
      → Bytes
      → Packet J
      → Reencryptor
      → Reencryptor × Result ReencryptionError (Packet J)
  reencrypt P nonce p r = elim r.validator_engine [
    | none ↦ (r, raised no_validator_session)
    | some e ↦ elim p.payload_bytes [
      | none ↦ (r, raised payload_absent)
      | some payload ↦
          (let (e', sealed) = encrypt P nonce payload p.header e in
            let r' = record r { validator_engine = some e' } in
            elim sealed [
              | raised x ↦
                  (record r' { failed_count = r.failed_count + 1 }, raised reencryption_failed)
              | returned (n, c) ↦
                  (let counted = record r' { reencrypted_count = r.reencrypted_count + 1 } in
                    elim (convert r.node_id n c p) [
                      | none ↦ (
                        record counted { failed_count = r.failed_count + 1 },
                        raised reencryption_failed,
                      )
                      | some q ↦ (counted, returned q)
                    ])
            ])
    ]
  ]

  -- `reencrypt_batch`, with the nonce that each call would draw: the packets that go on, and the others
  -- with their errors.
  pub reencrypt_batch :
      Primitives
      → List (Bytes × Packet J)
      → Reencryptor
      → Reencryptor × List (Packet J) × List (Packet J × ReencryptionError)
  reencrypt_batch P [] r = (r, [], [])
  reencrypt_batch P ((nonce, p) ∷ ps) r =
      let (r', q) = reencrypt P nonce p r in
      let (s, done, failed) = reencrypt_batch P ps r' in
      elim q [ returned out ↦ (s, out ∷ done, failed) | raised x ↦ (s, done, (p, x) ∷ failed) ]

pub validator_session_active : Reencryptor → Bool
validator_session_active r = elim r.validator_engine [
  | none ↦ false
  | some e ↦ session_established e
]
