-- ===== src/Lib.antt =====
-- PitCrypt-F1 carries telemetry from race cars over a relay to a validator of the FIA. A car builds
-- a binary packet, signs it and encrypts it for the relay. The relay decrypts it, checks it and
-- encrypts it again for the validator, which decrypts, verifies the signature, compares the header
-- with the metadata, checks the sequence number and the commitment, and writes its decision to an
-- audit log. Beside the pipeline stands the access control of the nodes.
--
-- Packet: the packet dict. Header, Builder, Crypto, Signer, Encryptor, KeyScheduler, Car:
-- packet_builder.py, crypto_engine.py, signer.py, encryptor.py, key_scheduler.py and main.py of
-- car_producer/src. Parser, Decryptor, Integrity, Anomaly, Reencryptor, Relay: packet_parser.py,
-- decryptor.py, integrity_checker.py, anomaly_filters.py, reencryptor.py and main.py of
-- relay-node/src. Car/Delivery, Car/Liveness and Car/Acceptance follow a frame from the car over
-- the relay to the validator. Sequence, Signature, Commitment, Audit, Validator:
-- sequence_checker.py, signature_verifier.py, zkp_verifier.py, audit_logger.py and main.py of
-- validator-node/src. Identity, Policy, Rbac, Access: identity_store.py, policy_loader.py,
-- rbac_engine.py and access_auditor.py of iam-module/src. Corners: the selection of corners of
-- performance/corner_analysis.py. SeqSet is the result object and the window that both checkers
-- have, Hex is bytes.hex and bytes.fromhex. A file named after a component holds its state as
-- records and its operations as functions from the state before to the state after and the result;
-- the files below it hold what is proved. Tests applies the theorems to concrete nodes.
--
-- An operation that raises returns an Option or a Result. A method keeps the name it has in the
-- source; process_packet of the relay and of the validator and _build_and_encrypt of the car are
-- chains of stages, each of which drops or rejects the packet or calls the next. The engine that
-- the car's node, encryptor and scheduler share is one field of the node. The threads of the car
-- are steps, one pass of a loop each, in any order; a rotation of the key takes the lock twice, and
-- in KeyScheduler/Ledger each use of the lock is a step, so that packets and other rotations come
-- between the two. Python's integers that may be negative are the type ℤ of Prelude/Int, all others
-- are ℕ; the numbers of a payload are a type with an interface, Number of Anomaly. Dicts are
-- association lists. Every loop is structural recursion, so no fuel is needed. Numbers of the
-- header are checked against their width, as struct.pack does. A replay window holds 50000 numbers
-- at the validator and 10000 at the relay.
--
-- Parameters, not modelled: SHA-256, Ed25519, X25519, HKDF and ChaCha20-Poly1305 of the
-- cryptography package, json.dumps and json.loads, the clock, random keys and nonces. What is
-- assumed of them is a hypothesis of the theorem that uses it: a hash has 32 bytes, a key exchange
-- of generated keys agrees, a sealed text unseals under its key. A packet dict with a null or a
-- mistyped value in a key is left out: the relay and the validator would raise TypeError at some of
-- them. Sockets, log messages and files are left out too, and so are the drivers run_simulation,
-- the car's simulator, the other analyses of performance, the forensic tools, simulations and
-- benchmarks, the dashboard and the Rust crate.
pub mod Prelude
pub mod Packet
pub mod SeqSet
pub mod Header
pub mod Builder
pub mod Hex
pub mod Commitment
pub mod Corners
pub mod Signature
pub mod Crypto
pub mod Validator
pub mod Integrity
pub mod Audit
pub mod Sequence
pub mod Identity
pub mod Policy
pub mod Rbac
pub mod Access
pub mod Parser
pub mod Decryptor
pub mod Anomaly
pub mod Reencryptor
pub mod Relay
pub mod Signer
pub mod Encryptor
pub mod KeyScheduler
pub mod Car
pub mod Tests
