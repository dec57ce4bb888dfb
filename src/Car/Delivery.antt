-- ===== src/Car/Delivery.antt =====
-- From the car (car_producer/src/main.py) to the validator's side of the relay (relay-node/src/main.py):
-- what the car sends over a connected relay goes on to the validator.
use text.Mathlib.TextEquality.{eq_iff}
use pitcrypt_f.Prelude.{
  Any, Dict, Option, String, [], ap, arith, false, inl, length, lookup, pos, refl, returned, some,
  string_eq, sym, true, ℕ, ℤ, ◌++◌, ◌<◌, ◌==◌, ◌∷◌, ◌≡◌,
}
use pitcrypt_f.Anomaly.{Number, channels}
use pitcrypt_f.Anomaly.Laws.{IsImpossible}
use pitcrypt_f.Builder.{BuiltPacket, build}
use pitcrypt_f.Car.{
  CarNode, build_and_encrypt, count_built, count_signed, encrypt_stage, sign_stage, transmit_data,
}
use pitcrypt_f.Crypto.{CryptoEngine, Primitives, engine_key}
use pitcrypt_f.Crypto.Laws.{AgreesAndUnseals, decrypt-sealed}
use pitcrypt_f.Decryptor.{RelayDecryptor}
use pitcrypt_f.Decryptor.Laws.{Decrypts}
use pitcrypt_f.Encryptor.{PacketEncryptor, encrypted_dict}
use pitcrypt_f.Encryptor.Laws.{encrypt_packet-keyed}
use pitcrypt_f.Hex.RoundTrip.{IsBytes, from_hex-to_hex, is_truthy-to_hex}
use pitcrypt_f.Integrity.{node_sequence}
use pitcrypt_f.Integrity.Verdict.{IsIntact}
use pitcrypt_f.Packet.{Bytes, Packet}
use pitcrypt_f.Parser.{PacketParser}
use pitcrypt_f.Parser.Json.{has_required, is_named, parse_json_packet}
use pitcrypt_f.Parser.Json.Laws.{parse_json_packet-returned, validate_json_packet_iff}
use pitcrypt_f.Reencryptor.{reencrypt}
use pitcrypt_f.Reencryptor.Laws.{reencrypt-returned}
use pitcrypt_f.Relay.{RelayNode, process_packet}
use pitcrypt_f.Relay.Verdict.{process_packet_forwards_iff}
use pitcrypt_f.Signer.{PacketSigner, built_dict, signed_dict}
use pitcrypt_f.Signer.Laws.{sign_packet-built_dict}

module _ {J : Type 0} (P : Primitives) where
  -- The dict that the car encrypts of a built packet, under a key.
  abbrev pub sent_dict :
      (Bytes → Bytes → Bytes) → Bytes → Bytes → String → PacketSigner → BuiltPacket → Packet J
  sent_dict sign key nonce id s built =
      encrypted_dict id nonce (P.seal key nonce built.payload (some built.header)) built.header
        (signed_dict sign s (built.header ++ built.payload) (built_dict built))

  -- A car with a session and an encryptor sends every frame that its builder takes.
  pub build_and_encrypt-sends :
      (sign : Bytes → Bytes → Bytes) (sha256 : Bytes → Bytes) {F : Type 0} (dumps : F → Bytes)
      (now : ℕ) (nonce key : Bytes) (f : F) (built : BuiltPacket) (x : PacketEncryptor)
      (v : CarNode J)
      → v.encryptor ≡ some x
      → engine_key v.crypto ≡ some key
      → (build sha256 dumps now f v.builder).1 ≡ some built
      → (build_and_encrypt P sign sha256 dumps now nonce (some f) v).1
        ≡ some (sent_dict sign key nonce x.node_id v.signer built)
  unfolding build_and_encrypt sign_stage encrypt_stage count_built count_signed
  build_and_encrypt-sends sign sha256 dumps now nonce key f built x v a b c =
      let signed = signed_dict sign v.signer (built.header ++ built.payload) (built_dict built) in
      let sealed =
        encrypt_packet-keyed P {J = J} nonce key built.header built.payload signed v.crypto x refl
          refl b in
      let s = sign_packet-built_dict sign built v.signer in
      rw (c, build_and_encrypt, s, sign_stage, a, encrypt_stage, sealed)

-- A car, and a relay that shares a key with it and another one with the validator.
pub record IsConnected {N : Type 0} (v : CarNode (Dict N)) (r : RelayNode N) (x : PacketEncryptor)
    (key val_key : Bytes) : Type 0 where
  pub engine : CryptoEngine
  pub validator : CryptoEngine
  pub encrypts : v.encryptor ≡ some x
  pub car_key : engine_key v.crypto ≡ some key
  pub named : (v.signer.node_id == "") ≡ false
  pub with_session : lookup v.signer.node_id r.decryptor.sessions ≡ some engine
  pub relay_key : engine_key engine ≡ some key
  pub with_validator : r.reencryptor.validator_engine ≡ some validator
  pub validator_key : engine_key validator ≡ some val_key
  pub known_team : is_named (some v.builder.team) ("mercedes" ∷ "redbull" ∷ []) ≡ true
  pub known_session : is_named (some v.builder.session) ("R" ∷ "Q" ∷ "S" ∷ []) ≡ true

-- What is sealed, signed and drawn consists of bytes, a nonce of 12 of them.
pub record IsSendable (P : Primitives) (sign : Bytes → Bytes → Bytes) (key nonce : Bytes)
    (s : PacketSigner) (built : BuiltPacket) : Type 0 where
  pub nonce_bytes : IsBytes nonce
  pub nonce_size : length nonce ≡ 12
  pub sealed_bytes : IsBytes (P.seal key nonce built.payload (some built.header))
  pub sig_bytes : IsBytes (sign s.private_key (built.header ++ built.payload))
  pub sig_size : 0 < length (sign s.private_key (built.header ++ built.payload))

module _ {N : Type 0} (P : Primitives) (sign : Bytes → Bytes → Bytes) (key nonce : Bytes)
    (x : PacketEncryptor) (s : PacketSigner) (built : BuiltPacket) where
  -- What the car sends, what the relay reads of it, and what it decrypts.
  abbrev pub sent_packet : Packet (Dict N)
  sent_packet = sent_dict P sign key nonce x.node_id s built

  abbrev pub arrived_packet : Packet (Dict N)
  arrived_packet = record (transmit_data sent_packet) {
    nonce_bytes = some nonce;
    ciphertext_bytes = some (P.seal key nonce built.payload (some built.header));
    header = some built.header;
  }

  abbrev pub read_packet : Dict N → Packet (Dict N)
  read_packet payload = record arrived_packet {
    payload_bytes = some built.payload;
    payload_json = some payload;
  }

module _ {N : Type 0} (P : Primitives) (laws : AgreesAndUnseals P) (num : Number N)
    (loads_packet : Bytes → Option (Packet (Dict N))) (loads : Bytes → Option (Dict N))
    (sign : Bytes → Bytes → Bytes) (key nonce : Bytes) (x : PacketEncryptor) (s : PacketSigner)
    (built : BuiltPacket) where
  parse_sent :
      (wire : Bytes) (parser : PacketParser)
      → IsSendable P sign key nonce s built
      → IsBytes built.header
      → loads_packet wire ≡ some (transmit_data (sent_packet P sign key nonce x s built))
      → (parse_json_packet loads_packet wire parser).1
        ≡ returned (arrived_packet P sign key nonce x s built)
  unfolding transmit_data has_required
  parse_sent wire parser h head e =
      parse_json_packet-returned loads_packet wire nonce
        (P.seal key nonce built.payload (some built.header)) built.header
        (transmit_data (sent_packet P sign key nonce x s built)) parser e refl
        (from_hex-to_hex _ h.nonce_bytes) (from_hex-to_hex _ h.sealed_bytes)
        (from_hex-to_hex _ head)

  arrived_packet-Decrypts :
      (payload : Dict N) (engine : CryptoEngine) (d : RelayDecryptor)
      → (s.node_id == "") ≡ false
      → lookup s.node_id d.sessions ≡ some engine
      → engine_key engine ≡ some key
      → loads built.payload ≡ some payload
      → Decrypts P loads
          (arrived_packet P sign key nonce x s built)
          d
          (read_packet P sign key nonce x s built payload)
  unfolding transmit_data
  arrived_packet-Decrypts payload engine d a b c e = record {
    node = s.node_id;
    engine = engine;
    nonce = nonce;
    ciphertext = P.seal key nonce built.payload (some built.header);
    header = some built.header;
    plaintext = built.payload;
    payload = payload;
    named = refl;
    nonempty = λ k. let o = (eq_iff s.node_id "").1 k in ground arith;
    with_session = b;
    with_nonce = inl refl;
    with_ciphertext = inl refl;
    with_header = inl (built.header, refl, inl refl);
    opens = decrypt-sealed P laws nonce built.payload key (some built.header) engine c;
    is_json = e;
    result = refl;
  }

  -- Of what the car sends, the relay forwards a packet.
  pub process_packet_sent :
      (nonce' : Bytes) (now : ℤ) (wire val_key : Bytes) (payload : Dict N) (v : CarNode (Dict N))
      (r : RelayNode N)
      → v.signer ≡ s
      → v.builder.team ≡ built.team
      → v.builder.session ≡ built.session
      → 0 < built.sequence_no
      → IsConnected v r x key val_key
      → IsSendable P sign key nonce s built
      → IsBytes built.header
      → loads_packet wire ≡ some (transmit_data (sent_packet P sign key nonce x s built))
      → loads built.payload ≡ some payload
      → IsIntact r.integrity
          (node_sequence s.node_id r.integrity)
          (pos built.sequence_no)
          (pos built.timestamp)
          now
          true
      → ¬ Any (IsImpossible num payload) channels
      → (out : Packet (Dict N)) × ((process_packet P num loads_packet loads nonce' now wire r).1
          ≡ returned (some out))
        × ((reencrypt P nonce' (read_packet P sign key nonce x s built payload) r.reencryptor).1
            ≡ returned out)
  unfolding transmit_data
  process_packet_sent nonce' now wire val_key payload v r a b c d k h head e f intact possible =
      let (out, sealed) =
        reencrypt-returned P nonce' val_key built.payload
          (sign s.private_key (built.header ++ built.payload)) k.validator
          (read_packet P sign key nonce x s built payload) r.reencryptor k.with_validator
          k.validator_key refl refl refl h.sig_bytes in
      let signed =
        is_truthy-to_hex (sign s.private_key (built.header ++ built.payload)) h.sig_size in
      let known : s.node_id ≡ v.signer.node_id = ap (λ o. o.node_id) (sym a) in
      let decrypts =
        arrived_packet-Decrypts payload k.engine r.decryptor (rw a at k.named)
          (rw a at k.with_session) k.relay_key f in
      (
        out,
        (process_packet_forwards_iff P num loads_packet loads nonce' now wire out r).1 (
          (arrived_packet P sign key nonce x s built),
          parse_sent wire r.parser h head e,
          record {
            inner = read_packet P sign key nonce x s built payload;
            valid =
                (validate_json_packet_iff (arrived_packet P sign key nonce x s built)).1 (record {
                  known_team = rw b at k.known_team;
                  known_session = rw c at k.known_session;
                  positive = omega arith;
                  nonce_size = h.nonce_size;
                  named = rw a at k.named;
                });
            decrypts = decrypts;
            intact = record {
              positive = intact.positive;
              unseen = intact.unseen;
              ordered = intact.ordered;
              fresh = intact.fresh;
              has_sig = λ _. ground arith;
            };
            possible = possible;
            sealed = sealed;
          },
        ),
        sealed,
      )
