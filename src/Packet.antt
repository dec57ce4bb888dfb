-- ===== src/Packet.antt =====
-- The packet dict that travels from the relay to the validator: relay-node/src/reencryptor.py
-- builds it and validator-node/src/main.py adds to it. A key is an optional field, `none` where it is absent.
-- A key that holds None is left out: most code reads keys by `get` and tests for truth, and would take
-- it as an absent one, but the checkers compare the sequence number and the time, which raises TypeError.
-- `J` is the type of decoded JSON payloads.
use pitcrypt_f.Prelude.{
  Bool, List, Option, String, [], false, if◌then◌else◌, int_eqb, none, not, or_default, pos, some,
  string_eq, true, ℕ, ℤ, ◌==◌, ◌∷◌,
}

abbrev pub Bytes : Type 0
Bytes = List ℕ

-- A text whose characters the code reads, by its code points.
abbrev pub Text : Type 0
Text = List ℕ

-- A value whose type the code tests with `isinstance`.
pub data Value : Type 0 where
  str : Text → Value
  raw : Bytes → Value
  number : ℤ → Value

pub record Packet (J : Type 0) : Type 0 where
  pub nonce : Option Text
  pub ciphertext : Option Text
  pub header_hex : Option Text
  pub nonce_bytes : Option Bytes
  pub ciphertext_bytes : Option Bytes
  pub header : Option Bytes
  pub payload_bytes : Option Bytes
  pub payload_json : Option J
  pub signature : Option Value
  pub signature_bytes : Option Value
  pub sequence_no : Option ℤ
  pub timestamp : Option ℤ
  pub team : Option String
  pub session : Option String
  pub node_id : Option String
  pub original_node : Option String
  pub signer_node_id : Option String
  pub zkp_commitment : Option Text
  pub zkp_nonce : Option Text

-- Python's truth value of what `packet.get(k)` returns.
abbrev pub is_truthy : Option Value → Bool
is_truthy none = false
is_truthy (some (str [])) = false
is_truthy (some (str (c ∷ cs))) = true
is_truthy (some (raw [])) = false
is_truthy (some (raw (b ∷ bs))) = true
is_truthy (some (number n)) = not (int_eqb n (pos 0))

-- `packet.get(k) or d` for a text.
abbrev pub text_or : Option String → String → String
text_or none d = d
text_or (some s) d = if s == "" then d else s

-- `packet.get('original_node') or packet.get('node_id', 'unknown')`.
abbrev pub packet_node : {J : Type 0} → Packet J → String
packet_node p = text_or p.original_node (or_default p.node_id "unknown")

-- `packet.get('sequence_no', 0)` and `packet.get('timestamp', 0)`.
abbrev pub packet_seq : {J : Type 0} → Packet J → ℤ
packet_seq p = or_default p.sequence_no (pos 0)

abbrev pub packet_ts : {J : Type 0} → Packet J → ℤ
packet_ts p = or_default p.timestamp (pos 0)

-- A packet dict without keys.
abbrev pub empty_packet : {J : Type 0} → Packet J
empty_packet = record {
  nonce = none;
  ciphertext = none;
  header_hex = none;
  nonce_bytes = none;
  ciphertext_bytes = none;
  header = none;
  payload_bytes = none;
  payload_json = none;
  signature = none;
  signature_bytes = none;
  sequence_no = none;
  timestamp = none;
  team = none;
  session = none;
  node_id = none;
  original_node = none;
  signer_node_id = none;
  zkp_commitment = none;
  zkp_nonce = none;
}
