-- ===== src/Car/Liveness.antt =====
-- The whole way from a frame of the car (car_producer/src/main.py) over the relay (relay-node/src/main.py)
-- to a packet that the validator can open.
use pitcrypt_f.Prelude.{
  Any, Dict, Option, String, ap, arith, length, none, or_default, pos, refl, returned, some, sym,
  true, ℕ, ℤ, ◌++◌, ◌∙◌, ◌≡◌,
}
use pitcrypt_f.Anomaly.{Number, channels}
use pitcrypt_f.Anomaly.Laws.{IsImpossible}
use pitcrypt_f.Builder.{BuiltPacket, build}
use pitcrypt_f.Builder.Laws.{IsBytes-build, names-build, sequence-build}
use pitcrypt_f.Car.{CarNode, build_and_encrypt, transmit_data}
use pitcrypt_f.Car.Delivery.{
  IsConnected, IsSendable, build_and_encrypt-sends, process_packet_sent, read_packet, sent_packet,
}
use pitcrypt_f.Crypto.{CryptoEngine, Primitives, decrypt, engine_key}
use pitcrypt_f.Crypto.Laws.{AgreesAndUnseals, decrypt-sealed, encrypt-keyed}
use pitcrypt_f.Encryptor.{PacketEncryptor}
use pitcrypt_f.Hex.RoundTrip.{IsBytes, is_truthy-to_hex}
use pitcrypt_f.Integrity.{node_sequence}
use pitcrypt_f.Integrity.Verdict.{IsIntact}
use pitcrypt_f.Packet.{Bytes, Packet, packet_ts, raw}
use pitcrypt_f.Reencryptor.{reencrypt}
use pitcrypt_f.Reencryptor.Laws.{complete_raw-to_hex, reencrypt-Forwards}
use pitcrypt_f.Relay.{RelayNode, process_packet}
use pitcrypt_f.Signer.{PacketSigner}

-- What the validator can make of a packet: its header, its number, time and car, its signature and no
-- commitment, and the payload for every engine with the key.
pub record Arrives {N : Type 0} (P : Primitives) (out : Packet (Dict N)) (val_key : Bytes)
    (node : String) (sig : Bytes) (built : BuiltPacket) : Type 0 where
  pub nonce : Bytes
  pub ciphertext : Bytes
  pub same_header : out.header ≡ some built.header
  pub same_number : out.sequence_no ≡ some (pos built.sequence_no)
  pub same_time : packet_ts out ≡ pos built.timestamp
  pub same_car : out.original_node ≡ some node
  pub signed : out.signature_bytes ≡ some (raw sig)
  pub uncommitted : out.zkp_commitment ≡ none
  pub with_nonce : out.nonce_bytes ≡ some nonce
  pub with_ciphertext : out.ciphertext_bytes ≡ some ciphertext
  pub opens :
      (g : CryptoEngine)
      → engine_key g ≡ some val_key
      → (decrypt P nonce ciphertext out.header g).1 ≡ returned built.payload

-- The signature of the header and the payload.
abbrev pub signature_of : (Bytes → Bytes → Bytes) → PacketSigner → BuiltPacket → Bytes
signature_of sign s built = sign s.private_key (built.header ++ built.payload)

module _ {N : Type 0} (P : Primitives) (laws : AgreesAndUnseals P) (num : Number N)
    (loads_packet : Bytes → Option (Packet (Dict N))) (dumps_packet : Packet (Dict N) → Bytes)
    (loads : Bytes → Option (Dict N)) (sign : Bytes → Bytes → Bytes) where
  reencrypt-Arrives :
      (nonce' key nonce val_key : Bytes) (x : PacketEncryptor) (built : BuiltPacket)
      (payload : Dict N) (v : CarNode (Dict N)) (r : RelayNode N) (out : Packet (Dict N))
      → IsConnected v r x key val_key
      → IsSendable P sign key nonce v.signer built
      → (reencrypt P nonce' (read_packet P sign key nonce x v.signer built payload) r.reencryptor).1
        ≡ returned out
      → Arrives P out val_key v.signer.node_id (signature_of sign v.signer built) built
  unfolding transmit_data
  reencrypt-Arrives nonce' key nonce val_key x built payload v r out k sendable e =
      let p = read_packet P sign key nonce x v.signer built payload in
      let f = reencrypt-Forwards P nonce' p r.reencryptor out e in
      let made =
        encrypt-keyed P nonce' built.payload val_key (some built.header) k.validator
          k.validator_key in
      let ours = f.with_session in
      let theirs = k.with_validator in
      let same_engine : f.engine ≡ k.validator = ground arith in
      let carried = f.with_payload in
      let sig = signature_of sign v.signer built in
      let whole =
        complete_raw-to_hex sig sendable.sig_bytes (is_truthy-to_hex sig sendable.sig_size) in
      let completed = f.completed in
      let same_payload : built.payload ≡ f.payload = ground arith in
      let seals = rw (same_engine, ← same_payload) at f.seals in
      let sealed = P.seal val_key nonce' built.payload (some built.header) in
      let parts : (nonce' ≡ f.drawn) × (sealed ≡ f.ciphertext) = (ground arith, ground arith) in
      record {
        nonce = nonce';
        ciphertext = sealed;
        same_header = f.same_header;
        same_number = f.same_number;
        same_time = ap (λ o. or_default o (pos 0)) f.same_time;
        same_car = f.from_car;
        signed = f.same_signature ∙ ground arith;
        uncommitted = f.no_commitment;
        with_nonce = f.same_nonce ∙ ap some (sym parts.0);
        with_ciphertext = f.same_ciphertext ∙ ap some (sym parts.1);
        opens = λ g h.
            rw f.same_header
              (decrypt-sealed P laws nonce' built.payload val_key (some built.header) g h);
      }

  -- A frame that the car's builder takes reaches the validator, if car and relay share a key and the
  -- relay and the validator another one, the team and the session are those that the relay takes, the
  -- packet's number and time pass the relay's integrity checks, its payload is JSON without an
  -- impossible channel, what is transmitted is read as it was written, a hash has 32 bytes, and hashes,
  -- sealed texts, signatures and nonces consist of bytes. The car sends a packet; the relay forwards one
  -- for it that has its header, its number and time, the car's name and the signature, no commitment,
  -- and that every engine with the validator's key opens to the payload that the car built.
  pub build_and_encrypt-Arrives :
      (sha256 : Bytes → Bytes) (sha256_length : (bs : Bytes) → length (sha256 bs) ≡ 32)
      (hashes : (bs : Bytes) → IsBytes (sha256 bs)) {F : Type 0} (dumps : F → Bytes) (now : ℕ)
      (clock : ℤ) (nonce nonce' key val_key : Bytes) (f : F) (x : PacketEncryptor)
      (built : BuiltPacket) (payload : Dict N) (v : CarNode (Dict N)) (r : RelayNode N)
      → let q = sent_packet P sign key nonce x v.signer built in
        (build sha256 dumps now f v.builder).1 ≡ some built
        → IsConnected v r x key val_key
        → IsSendable P sign key nonce v.signer built
        → loads_packet (dumps_packet (transmit_data q)) ≡ some (transmit_data q)
        → loads built.payload ≡ some payload
        → IsIntact r.integrity
            (node_sequence v.signer.node_id r.integrity)
            (pos built.sequence_no)
            (pos built.timestamp)
            clock
            true
        → ¬ Any (IsImpossible num payload) channels
        → (out : Packet (Dict N)) × ((build_and_encrypt P sign sha256 dumps now nonce (some f) v).1
            ≡ some q)
          × ((process_packet P num loads_packet loads nonce' clock
                (dumps_packet (transmit_data q))
                r).1
              ≡ returned (some out))
          × Arrives P out val_key v.signer.node_id (signature_of sign v.signer built) built
  build_and_encrypt-Arrives sha256 sha256_length hashes dumps now clock nonce nonce' key val_key f x
        built payload v r b k h json e i possible =
      let (team, session, _) = names-build sha256 dumps now f v.builder built b in
      let (_, number_of) = sequence-build sha256 dumps now f v.builder in
      let same_number = number_of built b in
      let head = IsBytes-build sha256 sha256_length dumps now f v.builder built hashes b in
      let q = sent_packet P sign key nonce x v.signer built in
      let (out, forwards, sealed) =
        process_packet_sent P laws num loads_packet loads sign key nonce x v.signer built nonce'
          clock (dumps_packet (transmit_data q)) val_key payload v r refl (sym team) (sym session)
          (omega arith) k h head json e i possible in
      (
        out,
        build_and_encrypt-sends P sign sha256 dumps now nonce key f built x v k.encrypts k.car_key
            b,
        forwards,
        reencrypt-Arrives nonce' key nonce val_key x built payload v r out k h sealed,
      )
