-- ===== src/Validator.antt =====
-- validator-node/src/main.py, class ValidatorNode: the pipeline of the validator. Each stage goes
-- on to the next or rejects. The cryptography package and the hash are parameters, and so is
-- `json.loads` on the payload, which only sets `payload_json`: `none` is its failure, `no_json` the
-- empty dict that then stands there. An `Ambience` holds for one call.
pub mod Acceptance
pub mod Verdict
pub mod Settling
pub mod Trail
pub mod Ledger
pub mod Runs
pub mod Ordering
use pitcrypt_f.Prelude.{
  Bool, List, Option, Result, String, [], false, if◌then◌else◌, int_eqb, none, not, or_default, pos,
  raised, returned, some, ℕ, ℤ, ◌+◌, ◌∷◌,
}
use pitcrypt_f.Audit.{Ambience, AuditLogger, log_accept, log_flag, log_reject, new_logger}
use pitcrypt_f.Commitment.{
  CommitmentReason, CommitmentResult, ZkpVerifier, new_verifier, verify_packet,
}
use pitcrypt_f.Crypto.{
  CryptoEngine, EngineError, Primitives, complete_handshake, decrypt, new_engine, new_session,
}
use pitcrypt_f.Header.{HeaderError, parse_header}
use pitcrypt_f.Packet.{Bytes, Packet}
use pitcrypt_f.Sequence.{
  SeqError, SeqWarning, SequenceCheckResult, ValidatorSequenceChecker, check, new_checker,
}
use pitcrypt_f.Signature.{
  SignatureResult, SignatureVerifier, VerifyError, new_signature_verifier, register_node, verify,
}

-- What `details` of an audit event holds.
pub data Details : Type 0 where
  missing_key : String → Details
  engine_error : EngineError → Details
  signature_error : VerifyError → Details
  header_mismatch : ℤ → Option ℤ → Details
  header_error : HeaderError → Details
  sequence_errors : List SeqError → Details
  zkp_reason : CommitmentReason → Details
  sequence_warnings : List SeqWarning → Details
  all_valid : CommitmentReason → Details

pub record ValidatorStats : Type 0 where
  pub received : ℕ
  pub accepted : ℕ
  pub rejected : ℕ
  pub flagged : ℕ
  pub sig_failed : ℕ
  pub seq_failed : ℕ
  pub zkp_failed : ℕ

pub record ValidatorNode : Type 0 where
  pub node_id : String
  pub sig_verifier : SignatureVerifier
  pub seq_checker : ValidatorSequenceChecker
  pub zkp_verifier : ZkpVerifier
  pub audit : AuditLogger Details
  pub val_engine : Option CryptoEngine
  pub stats : ValidatorStats

-- `metadata_sequence == header_sequence`.
abbrev pub same_sequence : Option ℤ → ℕ → Bool
same_sequence none n = false
same_sequence (some m) n = int_eqb m (pos n)

-- The packet that `process_packet` returns, with the results that it adds.
pub record Accepted (J : Type 0) : Type 0 where
  pub packet : Packet J
  pub signature_result : SignatureResult
  pub sequence_result : SequenceCheckResult
  pub zkp_result : CommitmentResult

abbrev pub no_stats : ValidatorStats
no_stats = record {
  received = 0;
  accepted = 0;
  rejected = 0;
  flagged = 0;
  sig_failed = 0;
  seq_failed = 0;
  zkp_failed = 0;
}

-- `__init__`, of the settings in the sections `sequence` and `audit`.
abbrev pub new_validator : String → ℤ → ℤ → Bool → Bool → Bool → Bool → ValidatorNode
new_validator id max_age gap timestamps strict_ordering to_file alert = record {
  node_id = id;
  sig_verifier = new_signature_verifier id;
  seq_checker = new_checker id max_age gap timestamps strict_ordering;
  zkp_verifier = new_verifier id;
  audit = new_logger id to_file alert;
  val_engine = none;
  stats = no_stats;
}

module _ {J : Type 0} where
  -- `_reject`.
  pub reject_packet : Ambience → Packet J → String → Option Details → ValidatorNode → ValidatorNode
  reject_packet w p why more v =
      let s = v.stats in
      record v {
        stats = record s { rejected = s.rejected + 1 };
        audit = log_reject w p why more v.audit;
      }

-- The counters of the stages that fail.
fail_signature : ValidatorNode → ValidatorNode
fail_signature v =
    let s = v.stats in record v { stats = record s { sig_failed = s.sig_failed + 1 } }

fail_sequence : ValidatorNode → ValidatorNode
fail_sequence v = let s = v.stats in record v { stats = record s { seq_failed = s.seq_failed + 1 } }

fail_zkp : ValidatorNode → ValidatorNode
fail_zkp v = let s = v.stats in record v { stats = record s { zkp_failed = s.zkp_failed + 1 } }

pub receive : ValidatorNode → ValidatorNode
receive v = let s = v.stats in record v { stats = record s { received = s.received + 1 } }

-- The result of a packet's way through the stages.
abbrev pub Outcome : Type 0 → Type 0
Outcome J = ValidatorNode × Option (Accepted J)

module _ {J : Type 0} where
  pub accept_stage :
      Ambience
      → Packet J
      → SignatureResult
      → SequenceCheckResult
      → CommitmentResult
      → ValidatorNode
      → Outcome J
  accept_stage w p sig seq zkp v =
      let s = v.stats in
      let result : Accepted J = record {
        packet = p;
        signature_result = sig;
        sequence_result = seq;
        zkp_result = zkp;
      } in
      elim seq.warnings [
        | [] ↦ (
          record v {
            stats = record s { accepted = s.accepted + 1 };
            audit = log_accept w p "all_checks_passed" (some (all_valid zkp.reason)) v.audit;
          },
          some result,
        )
        | x ∷ xs ↦ (
          record v {
            stats = record s { flagged = s.flagged + 1 };
            audit = log_flag w p "sequence_warnings" (some (sequence_warnings (x ∷ xs))) v.audit;
          },
          some result,
        )
      ]

module _ (sha256 : Bytes → Bytes) {J : Type 0} where
  zkp_stage :
      Ambience → Packet J → SignatureResult → SequenceCheckResult → ValidatorNode → Outcome J
  zkp_stage w p sig seq v =
      let (z, zkp) = verify_packet sha256 p v.zkp_verifier in
      let v' = record v { zkp_verifier = z } in
      if not zkp.verified
      then (reject_packet w p "zkp_invalid" (some (zkp_reason zkp.reason)) (fail_zkp v'), none)
      else accept_stage w p sig seq zkp v'

  -- `now` is the clock that the checker reads, in ms.
  sequence_stage : Ambience → ℤ → Packet J → SignatureResult → ValidatorNode → Outcome J
  sequence_stage w now p sig v =
      let (c, seq) = check now p v.seq_checker in
      let v' = record v { seq_checker = c } in
      if not seq.passed
      then (
        reject_packet w p "sequence_invalid" (some (sequence_errors seq.errors)) (fail_sequence v'),
        none,
      )
      else zkp_stage w p sig seq v'

  header_stage : Ambience → ℤ → Packet J → SignatureResult → ValidatorNode → Outcome J
  header_stage w now p sig v = elim p.header [
    | none ↦ (reject_packet w p "invalid_packet_header" (some (missing_key "header")) v, none)
    | some bs ↦ elim (parse_header bs) [
      | raised e ↦ (reject_packet w p "invalid_packet_header" (some (header_error e)) v, none)
      | returned h ↦
          if not (same_sequence p.sequence_no h.sequence_no)
          then (
            reject_packet w p "header_metadata_mismatch"
                (some (header_mismatch (pos h.sequence_no) p.sequence_no)) v,
            none,
          )
          else sequence_stage w now p sig v
    ]
  ]

module _ (sha256 : Bytes → Bytes) (ed25519 : Bytes → Bytes → Bytes → Bool) {J : Type 0} where
  pub signature_stage : Ambience → ℤ → Packet J → ValidatorNode → Outcome J
  signature_stage w now p v =
      let (sv, r) = verify ed25519 p v.sig_verifier in
      let v' = record v { sig_verifier = sv } in
      elim r [
        | raised e ↦ (
          reject_packet w p "signature_invalid" (some (signature_error e)) (fail_signature v'),
          none,
        )
        | returned sig ↦ header_stage sha256 w now p sig v'
      ]

module _ {J : Type 0} (loads : Bytes → Option J) (no_json : J) where
  -- The copy of the packet that the stages after decryption work on.
  unfoldable pub opened : Bytes → Packet J → Packet J
  opened plaintext p = record p {
    payload_bytes = some plaintext;
    payload_json = some (or_default (loads plaintext) no_json);
  }

module _ (P : Primitives) {J : Type 0} where
  -- The arguments of `decrypt` are read in their order, and an absent key is a KeyError.
  pub decrypt_packet : CryptoEngine → Packet J → CryptoEngine × Result Details Bytes
  decrypt_packet e p = elim p.nonce_bytes [
    | none ↦ (e, raised (missing_key "nonce_bytes"))
    | some nonce ↦ elim p.ciphertext_bytes [
      | none ↦ (e, raised (missing_key "ciphertext_bytes"))
      | some ciphertext ↦
          (let (e', r) = decrypt P nonce ciphertext p.header e in
            (e', elim r [ returned bs ↦ returned bs | raised x ↦ raised (engine_error x) ]))
    ]
  ]

module _ (P : Primitives) (sha256 : Bytes → Bytes) (ed25519 : Bytes → Bytes → Bytes → Bool)
    {J : Type 0} (loads : Bytes → Option J) (no_json : J) where
  decrypt_stage : Ambience → ℤ → Packet J → CryptoEngine → ValidatorNode → Outcome J
  decrypt_stage w now p e v =
      let (e', r) = decrypt_packet P e p in
      let v' = record v { val_engine = some e' } in
      elim r [
        | raised d ↦ (reject_packet w p "decryption_failed" (some d) v', none)
        | returned plaintext ↦
            signature_stage sha256 ed25519 w now (opened loads no_json plaintext p) v'
      ]

  pub process_packet : Ambience → ℤ → Packet J → ValidatorNode → Outcome J
  process_packet w now p v₀ =
      let v = receive v₀ in
      elim v.val_engine [
        | none ↦ (reject_packet w p "no_session" none v, none)
        | some e ↦ decrypt_stage w now p e v
      ]

-- `register_car_node`; `none` is the ValueError of the verifier.
pub register_car_node : String → Bytes → ValidatorNode → Option ValidatorNode
register_car_node node key v = elim (register_node node key v.sig_verifier) [
  | none ↦ none
  | some sv ↦ some (record v { sig_verifier = sv })
]

module _ (P : Primitives) where
  -- `setup_relay_session`: the private key is the one that `new_session` draws. When the handshake
  -- raises, the engine without a session key stays in place.
  pub setup_relay_session :
      ℤ → Bytes → Bytes → ValidatorNode → ValidatorNode × Result EngineError Bytes
  setup_relay_session now private relay_pub v =
      let (e, val_pub) = new_session P now private (new_engine v.node_id) in
      elim (complete_handshake P now relay_pub none e) [
        | raised x ↦ (record v { val_engine = some e }, raised x)
        | returned e' ↦ (record v { val_engine = some e' }, returned val_pub)
      ]
