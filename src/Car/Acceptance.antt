-- ===== src/Car/Acceptance.antt =====
-- The whole way from a frame of the car (car_producer/src/main.py) over the relay (relay-node/src/main.py)
-- to the decision of the validator (validator-node/src/main.py).
use pitcrypt_f.Relay
use pitcrypt_f.Validator
use text.Mathlib.TextEquality.{eq_iff}
use pitcrypt_f.Prelude.{
  Any, Bool, Dict, Option, String, [], ap, arith, false, inl, length, lookup, none, pos, refl,
  returned, some, string_eq, sym, true, ℕ, ℤ, ◌++◌, ◌==◌, ◌∙◌, ◌≡◌, ◌≢◌,
}
use pitcrypt_f.Anomaly.{Number, channels}
use pitcrypt_f.Anomaly.Laws.{IsImpossible}
use pitcrypt_f.Audit.{Ambience}
use pitcrypt_f.Builder.{BuiltPacket, build}
use pitcrypt_f.Builder.Laws.{header-build}
use pitcrypt_f.Car.{CarNode, build_and_encrypt, transmit_data}
use pitcrypt_f.Car.Delivery.{IsConnected, IsSendable, sent_packet}
use pitcrypt_f.Car.Liveness.{Arrives, build_and_encrypt-Arrives, signature_of}
use pitcrypt_f.Commitment.Laws.{verify_packet_iff}
use pitcrypt_f.Crypto.{CryptoEngine, Primitives, engine_key}
use pitcrypt_f.Crypto.Laws.{AgreesAndUnseals}
use pitcrypt_f.Encryptor.{PacketEncryptor}
use pitcrypt_f.Header.{ParsedHeader, parse_header}
use pitcrypt_f.Hex.RoundTrip.{IsBytes}
use pitcrypt_f.Integrity.{node_sequence}
use pitcrypt_f.Integrity.Verdict.{IsIntact}
use pitcrypt_f.Packet.{Bytes, Packet, packet_node}
use pitcrypt_f.Relay.{RelayNode}
use pitcrypt_f.Sequence.{node_state}
use pitcrypt_f.Sequence.Verdict.{Acceptable}
use pitcrypt_f.Signature.{signature_size, signing_node}
use pitcrypt_f.Signature.Laws.{IsAuthentic}
use pitcrypt_f.Signer.{PacketSigner}
use pitcrypt_f.Signer.Verifier.Laws.{SignsAndVerifies}
use pitcrypt_f.Validator.{ValidatorNode, opened}
use pitcrypt_f.Validator.Acceptance.{Accepts, Agrees, IsInOrder, Opens}
use pitcrypt_f.Validator.Verdict.{IsAcceptable, process_packet_iff}

-- A validator that shares a key with the relay, has the key of the car's signer, and for which the packet's
-- number and time are in order; the signature has the size of Ed25519, and the payload is not empty.
pub record IsExpected (sign : Bytes → Bytes → Bytes) (public_of : Bytes → Bytes)
    (val : ValidatorNode) (val_key : Bytes) (s : PacketSigner) (built : BuiltPacket) (now : ℤ)
    : Type 0 where
  pub engine : CryptoEngine
  pub with_session : val.val_engine ≡ some engine
  pub with_key : engine_key engine ≡ some val_key
  pub registered : lookup s.node_id val.sig_verifier.registry ≡ some (public_of s.private_key)
  pub sized : length (signature_of sign s built) ≡ signature_size
  pub payload_nonempty : built.payload ≢ []
  pub in_order :
      Acceptable val.seq_checker
        (node_state s.node_id now val.seq_checker)
        (pos built.sequence_no)
        (pos built.timestamp)
        now

-- The node of a packet that names its original node.
nodes-original :
    {J : Type 0} (p : Packet J) (node : String)
    → p.original_node ≡ some node
    → (node == "") ≡ false
    → (packet_node p ≡ node) × (signing_node p ≡ node)
nodes-original p node e h = (ground arith, ground arith)

module _ {N : Type 0} (P : Primitives) (sha256 : Bytes → Bytes)
    (ed25519 : Bytes → Bytes → Bytes → Bool) (loads : Bytes → Option (Dict N)) (no_json : Dict N)
    (sign : Bytes → Bytes → Bytes) (public_of : Bytes → Bytes)
    (signs : SignsAndVerifies public_of sign ed25519) where
  -- A packet that arrives is one that an expecting validator asks for.
  Arrives-IsAcceptable :
      (w : Ambience) (now : ℤ) (out : Packet (Dict N)) (val_key : Bytes) (s : PacketSigner)
      (built : BuiltPacket) (val : ValidatorNode) (h : ParsedHeader)
      → (s.node_id == "") ≡ false
      → Arrives P out val_key s.node_id (signature_of sign s built) built
      → IsExpected sign public_of val val_key s built now
      → built.header ≢ []
      → parse_header built.header ≡ returned h
      → h.sequence_no ≡ built.sequence_no
      → IsAcceptable P sha256 ed25519 loads no_json w now out val
  unfolding opened
  Arrives-IsAcceptable w now out val_key s built val h named a v nonempty parses same =
      let q = opened loads no_json built.payload out in
      let (node, signer) = nodes-original q s.node_id a.same_car named in
      let opens : Opens P out val built.payload = record {
        engine = v.engine;
        nonce = a.nonce;
        ciphertext = a.ciphertext;
        with_session = v.with_session;
        with_nonce = a.with_nonce;
        with_ciphertext = a.with_ciphertext;
        opens = a.opens v.engine v.with_key;
      } in
      let authentic : IsAuthentic ed25519 q val.sig_verifier = record {
        key = public_of s.private_key;
        sig = signature_of sign s built;
        header = built.header;
        payload = built.payload;
        named = λ e. let o = (eq_iff s.node_id "").1 (sym signer ∙ e) in ground arith;
        known = rw signer v.registered;
        signed = inl a.signed;
        sized = v.sized;
        with_header = a.same_header;
        header_nonempty = nonempty;
        with_payload = refl;
        payload_nonempty = v.payload_nonempty;
        verifies = signs.verifies s.private_key (built.header ++ built.payload);
      } in
      let agrees : Agrees q = record {
        header = built.header;
        fields = h;
        with_header = a.same_header;
        parses = parses;
        agrees = a.same_number ∙ ap (λ n. some (pos n)) (sym same);
      } in
      let in_order : IsInOrder now q val = rw (node, a.same_number, a.same_time) v.in_order in
      let uncommitted : q.zkp_commitment ≡ none = a.uncommitted in
      let commits = (verify_packet_iff sha256 q val.zkp_verifier).1 (inl (ground arith)) in
      (built.payload, (opens, (authentic, (agrees, (in_order, commits)))))

module _ {N : Type 0} (P : Primitives) (laws : AgreesAndUnseals P) (num : Number N)
    (loads_packet : Bytes → Option (Packet (Dict N))) (dumps_packet : Packet (Dict N) → Bytes)
    (loads : Bytes → Option (Dict N)) (no_json : Dict N) (sign : Bytes → Bytes → Bytes)
    (public_of : Bytes → Bytes) (ed25519 : Bytes → Bytes → Bytes → Bool)
    (signs : SignsAndVerifies public_of sign ed25519) where
  -- A frame that the car's builder takes is accepted by the validator, if car and relay share a key and
  -- the relay and the validator another one, the team and the session are those that the relay takes,
  -- the packet's number and time pass the checks of the relay and of the validator, its payload is
  -- nonempty JSON without an impossible channel, what is transmitted is read as it was written, the
  -- validator has the public key of the car's signer, whose signatures verify and have 64 bytes, a hash has
  -- 32 bytes, and hashes, sealed texts, signatures and nonces consist of bytes. The car sends a packet,
  -- the relay forwards one for it, and the validator accepts that one.
  pub build_and_encrypt-Accepts :
      (sha256 : Bytes → Bytes) (sha256_length : (bs : Bytes) → length (sha256 bs) ≡ 32)
      (hashes : (bs : Bytes) → IsBytes (sha256 bs)) {F : Type 0} (dumps : F → Bytes) (now : ℕ)
      (clock val_clock : ℤ) (w : Ambience) (nonce nonce' key val_key : Bytes) (f : F)
      (x : PacketEncryptor) (built : BuiltPacket) (payload : Dict N) (v : CarNode (Dict N))
      (r : RelayNode N) (val : ValidatorNode)
      → let q = sent_packet P sign key nonce x v.signer built in
        (build sha256 dumps now f v.builder).1 ≡ some built
        → IsConnected v r x key val_key
        → IsSendable P sign key nonce v.signer built
        → loads_packet (dumps_packet (transmit_data q)) ≡ some (transmit_data q)
        → loads built.payload ≡ some payload
        → IsIntact r.integrity
            (node_sequence v.signer.node_id r.integrity)
            (pos built.sequence_no)
            (pos built.timestamp)
            clock
            true
        → ¬ Any (IsImpossible num payload) channels
        → IsExpected sign public_of val val_key v.signer built val_clock
        → (out : Packet (Dict N)) × ((build_and_encrypt P sign sha256 dumps now nonce (some f) v).1
            ≡ some q)
          × ((Relay.process_packet P num loads_packet loads nonce' clock
                (dumps_packet (transmit_data q))
                r).1
              ≡ returned (some out))
          × Accepts (Validator.process_packet P sha256 ed25519 loads no_json w val_clock out val)
  build_and_encrypt-Accepts sha256 sha256_length hashes dumps now clock val_clock w nonce nonce' key
        val_key f x built payload v r val b k h json e i possible expected =
      let (out, sends, forwards, arrives) =
        build_and_encrypt-Arrives P laws num loads_packet dumps_packet loads sign sha256
          sha256_length hashes dumps now clock nonce nonce' key val_key f x built payload v r b k h
          json e i possible in
      let (size, (fields, parses, same)) =
        header-build sha256 sha256_length dumps now f v.builder built b in
      let nonempty : built.header ≢ [] =
        (λ z. absurd (let y = ap (λ l. length l) z in ground arith)) in
      (
        out,
        sends,
        forwards,
        (process_packet_iff P sha256 ed25519 loads no_json w val_clock out val).1 (
            Arrives-IsAcceptable P sha256 ed25519 loads no_json sign public_of signs w val_clock out
              val_key v.signer built val fields k.named arrives expected nonempty parses same),
      )
