-- ===== src/Decryptor.antt =====
-- relay-node/src/decryptor.py: the decryption at the relay, with one engine for each car node. `loads` is
-- the decoding of a payload as UTF-8 and JSON. An engine changes when it decrypts, so the dict of
-- sessions is written again.
pub mod Laws
use pitcrypt_f.Prelude.{
  Bool, Dict, List, Option, Result, String, [], has_key, if◌then◌else◌, insert, lookup, none, not,
  or_default, raised, returned, some, string_eq, ℕ, ◌+◌, ◌==◌, ◌∷◌,
}
use pitcrypt_f.Crypto.{
  CryptoEngine, EngineError, Primitives, decrypt, decrypt_failed, invalid_tag, session_established,
}
use pitcrypt_f.Hex.{from_hex}
use pitcrypt_f.Packet.{Bytes, Packet, Text}

pub data DecryptFailure : Type 0 where
  -- DecryptionError before the cipher is called.
  packet_without_node_id : DecryptFailure
  no_session_for : String → DecryptFailure
  nonce_absent ciphertext_absent : DecryptFailure
  -- The ValueError of `bytes.fromhex`, which is not caught.
  text_not_hex : DecryptFailure
  -- InvalidTag, and DecryptionError from any other exception.
  packet_tampered decryption_error : DecryptFailure

pub record RelayDecryptor : Type 0 where
  pub node_id : String
  pub sessions : Dict CryptoEngine
  pub decrypted_count : ℕ
  pub failed_count : ℕ
  pub tamper_count : ℕ

abbrev pub new_decryptor : String → RelayDecryptor
new_decryptor id = record {
  node_id = id;
  sessions = [];
  decrypted_count = 0;
  failed_count = 0;
  tamper_count = 0;
}

-- `register_session`; `none` is the ValueError for an engine without a session.
pub register_session : String → CryptoEngine → RelayDecryptor → Option RelayDecryptor
register_session node e d =
    if not (session_established e)
    then none
    else some (record d { sessions = insert node e d.sessions })

pub update_session : String → CryptoEngine → RelayDecryptor → RelayDecryptor
update_session node e d = record d { sessions = insert node e d.sessions }

pub has_session : String → RelayDecryptor → Bool
has_session node d = has_key node d.sessions

-- `packet.get(k)`, or else the hex text under the other key; `absent` is raised for an empty one.
bytes_or_hex : DecryptFailure → Option Bytes → Option Text → Result DecryptFailure Bytes
bytes_or_hex absent (some bs) hex = returned bs
bytes_or_hex absent none none = raised absent
bytes_or_hex absent none (some []) = raised absent
bytes_or_hex absent none (some (c ∷ cs)) = elim (from_hex (c ∷ cs)) [
  | none ↦ raised text_not_hex
  | some bs ↦ returned bs
]

-- The header, which may be absent.
header_or_hex : Option Bytes → Option Text → Result DecryptFailure (Option Bytes)
header_or_hex (some bs) hex = returned (some bs)
header_or_hex none none = returned none
header_or_hex none (some []) = returned none
header_or_hex none (some (c ∷ cs)) = elim (from_hex (c ∷ cs)) [
  | none ↦ raised text_not_hex
  | some bs ↦ returned (some bs)
]

-- The arguments of the cipher: nonce, ciphertext and header.
pub record Sealed : Type 0 where
  pub nonce : Bytes
  pub ciphertext : Bytes
  pub header : Option Bytes

module _ {J : Type 0} where
  pub sealed_of : Packet J → Result DecryptFailure Sealed
  sealed_of p = elim (bytes_or_hex nonce_absent p.nonce_bytes p.nonce) [
    | raised x ↦ raised x
    | returned n ↦ elim (bytes_or_hex ciphertext_absent p.ciphertext_bytes p.ciphertext) [
      | raised x ↦ raised x
      | returned c ↦ elim (header_or_hex p.header p.header_hex) [
        | raised x ↦ raised x
        | returned h ↦ returned (record { nonce = n; ciphertext = c; header = h })
      ]
    ]
  ]

-- What the cipher's exception becomes.
failure_of : EngineError → DecryptFailure
failure_of (decrypt_failed invalid_tag) = packet_tampered
failure_of e = decryption_error

count_failure : DecryptFailure → RelayDecryptor → RelayDecryptor
count_failure packet_tampered d = record d {
  failed_count = d.failed_count + 1;
  tamper_count = d.tamper_count + 1;
}
count_failure x d = record d { failed_count = d.failed_count + 1 }

module _ (P : Primitives) {J : Type 0} (loads : Bytes → Option J) where
  -- The part under `try`.
  open_sealed :
      String
      → Sealed
      → CryptoEngine
      → Packet J
      → RelayDecryptor
      → RelayDecryptor × Result DecryptFailure (Packet J)
  open_sealed node s e p d =
      let (e', r) = decrypt P s.nonce s.ciphertext s.header e in
      let d' = record d { sessions = insert node e' d.sessions } in
      elim r [
        | raised x ↦ (count_failure (failure_of x) d', raised (failure_of x))
        | returned plaintext ↦
            (let counted = record d' { decrypted_count = d.decrypted_count + 1 } in
              elim (loads plaintext) [
                | none ↦ (count_failure decryption_error counted, raised decryption_error)
                | some payload ↦ (
                  counted,
                  returned
                      (record p { payload_bytes = some plaintext; payload_json = some payload }),
                )
              ])
      ]

  pub decrypt_packet : Packet J → RelayDecryptor → RelayDecryptor × Result DecryptFailure (Packet J)
  decrypt_packet p d =
      let node = or_default p.node_id "" in
      if node == "" then (d, raised packet_without_node_id) else elim (lookup node d.sessions) [
        | none ↦ (d, raised (no_session_for node))
        | some e ↦ elim (sealed_of p) [
          | raised x ↦ (d, raised x)
          | returned s ↦ open_sealed node s e p d
        ]
      ]

  -- `decrypt_batch`: the packets that decrypt, and the others with their errors. It stops at a
  -- ValueError, which it does not catch.
  pub decrypt_batch :
      List (Packet J)
      → RelayDecryptor
      → RelayDecryptor × Result DecryptFailure (List (Packet J) × List (Packet J × DecryptFailure))
  decrypt_batch [] d = (d, returned ([], []))
  decrypt_batch (p ∷ ps) d =
      let (d', r) = decrypt_packet p d in
      let (e, rest) = decrypt_batch ps d' in
      elim r [
        | raised text_not_hex ↦ (d', raised text_not_hex)
        | raised x ↦ elim rest [
          | raised y ↦ (e, raised y)
          | returned (ok, bad) ↦ (e, returned (ok, (p, x) ∷ bad))
        ]
        | returned q ↦ elim rest [
          | raised y ↦ (e, raised y)
          | returned (ok, bad) ↦ (e, returned (q ∷ ok, bad))
        ]
      ]
