-- ===== src/Signer/Verifier/Laws.antt =====
-- A packet that the car signs verifies, and what does not (car_producer/src/signer.py).
use text.Mathlib.TextEquality.{eq_iff}
use pitcrypt_f.Prelude.{
  Bool, Bool-cases, Option-cases, Result-cases, String, ap, arith, false, inl, inr, insert, length,
  lookup, lookup-insert, or_default, refl, returned, some, string_eq, true, ◌++◌, ◌+◌, ◌==◌, ◌↔◌,
  ◌≡◌, ◌≢◌,
}
use pitcrypt_f.Packet.{Bytes}
use pitcrypt_f.Signer.{CarPacket, PacketSigner, sign_packet, signed_dict}
use pitcrypt_f.Signer.Verifier.{
  CarVerifier, register_key, signature_of, signed_data, try_verify, verify_packet,
}

-- What the cryptography package documents of Ed25519: a signature of the key verifies, and a key
-- has 32 bytes.
pub record SignsAndVerifies (public_of : Bytes → Bytes) (sign : Bytes → Bytes → Bytes)
    (ed25519 : Bytes → Bytes → Bytes → Bool) : Type 0 where
  pub verifies : (key bs : Bytes) → ed25519 (public_of key) (sign key bs) bs ≡ true
  pub key_size : (key : Bytes) → length (public_of key) ≡ 32

-- What the verifier asks of a packet.
pub record IsSigned (ed25519 : Bytes → Bytes → Bytes → Bool) (p : CarPacket) (v : CarVerifier)
    : Type 0 where
  pub node : String
  pub key : Bytes
  pub bs : Bytes
  pub sig : Bytes
  pub signer : p.signer_node_id ≡ some node
  pub nonempty : (node == "") ≡ false
  pub known : lookup node v.registry ≡ some key
  pub with_data : signed_data p ≡ some bs
  pub with_sig : signature_of p ≡ returned sig
  pub checks : ed25519 key sig bs ≡ true

eq_blank : (s : String) → s ≡ "" → (s == "") ≡ true
eq_blank s e = (eq_iff s "").1 e

module _ (ed25519 : Bytes → Bytes → Bytes → Bool) where
  try_verify_returned :
      (node : String) (key sig bs : Bytes) (v : CarVerifier) (r : Bool)
      → (try_verify ed25519 node key sig bs v).1 ≡ returned r
      → ed25519 key sig bs ≡ true
  unfolding try_verify
  try_verify_returned node key sig bs v r h = ground arith

  verify_packet-IsSigned :
      (p : CarPacket) (v : CarVerifier) (r : Bool)
      → (verify_packet ed25519 p v).1 ≡ returned r
      → IsSigned ed25519 p v
  unfolding verify_packet
  verify_packet-IsSigned p v r h = elim (Option-cases p.signer_node_id) [
    | inl e ↦
        let o = eq_blank (or_default p.signer_node_id "") (ap (λ k. or_default k "") e) in
        absurd (ground arith)
    | inr (node, e) ↦ elim (Bool-cases (node == "")) [
      | inl x ↦ absurd (ground arith)
      | inr x ↦ elim (Option-cases (lookup node v.registry)) [
        | inl y ↦ absurd (ground arith)
        | inr (key, y) ↦ elim (Option-cases (signed_data p)) [
          | inl z ↦ absurd (ground arith)
          | inr (bs, z) ↦ elim (Result-cases (signature_of p)) [
            | inr (bad, u) ↦ absurd (ground arith)
            | inl (sig, u) ↦ record {
              node = node;
              key = key;
              bs = bs;
              sig = sig;
              signer = e;
              nonempty = x;
              known = y;
              with_data = z;
              with_sig = u;
              checks = try_verify_returned node key sig bs v r (ground arith);
            }
          ]
        ]
      ]
    ]
  ]

  -- A packet that is signed verifies, and is counted.
  IsSigned-verify_packet :
      (p : CarPacket) (v : CarVerifier)
      → IsSigned ed25519 p v
      → verify_packet ed25519 p v ≡ (record v { verify_count = v.verify_count + 1 }, returned true)
  unfolding verify_packet try_verify
  IsSigned-verify_packet p v k =
      let a = k.signer in
      let b = k.nonempty in
      let c = k.known in
      let d = k.with_data in
      let e = k.with_sig in
      let f = k.checks in
      let y : or_default p.signer_node_id "" ≡ k.node = ap (λ o. or_default o "") a in ground arith

  -- The car's verifier returns for a packet exactly when the packet names a registered node, has a header
  -- and a payload, and has a signature of both under the node's key.
  pub verify_packet_returns_iff :
      (p : CarPacket) (v : CarVerifier)
      → ((r : Bool) × ((verify_packet ed25519 p v).1 ≡ returned r)) ↔ IsSigned ed25519 p v
  verify_packet_returns_iff p v = (
    λ (r, h). verify_packet-IsSigned p v r h,
    λ k. (true, ap (λ o. o.1) (IsSigned-verify_packet p v k)),
  )

module _ (public_of : Bytes → Bytes) (sign : Bytes → Bytes → Bytes)
    (ed25519 : Bytes → Bytes → Bytes → Bool) (laws : SignsAndVerifies public_of sign ed25519) where
  -- A packet with a header and a payload that a signer with a named node signs verifies with every
  -- verifier that has the public key of that node, and is counted by both.
  pub verify_packet-sign_packet :
      (p : CarPacket) (head body : Bytes) (s : PacketSigner) (v : CarVerifier)
      → p.header ≡ some head
      → p.payload ≡ some body
      → s.node_id ≢ ""
      → lookup s.node_id v.registry ≡ some (public_of s.private_key)
      → (q : CarPacket) × ((sign_packet sign p s).1 ≡ returned q)
        × ((sign_packet sign p s).0.sign_count ≡ s.sign_count + 1)
        × (verify_packet ed25519 q v
            ≡ (record v { verify_count = v.verify_count + 1 }, returned true))
  unfolding sign_packet signed_data signature_of
  verify_packet-sign_packet p head body s v a b named known =
      let bs = head ++ body in
      let x : (s.node_id == "") ≡ false = elim (Bool-cases (s.node_id == "")) [
        | inl k ↦ absurd (named ((eq_iff s.node_id "").0 k))
        | inr k ↦ k
      ] in
      (
        signed_dict sign s bs p,
        ground arith,
        ground arith,
        IsSigned-verify_packet ed25519 (signed_dict sign s bs p) v (record {
          node = s.node_id;
          key = public_of s.private_key;
          bs = bs;
          sig = sign s.private_key bs;
          signer = refl;
          nonempty = x;
          known = known;
          with_data = rw (a, b);
          with_sig = refl;
          checks = laws.verifies s.private_key bs;
        }),
      )

  -- The public key of a signer can be registered, and is then the one that is looked up.
  pub lookup-register_key :
      (s : PacketSigner) (v : CarVerifier)
      → (v' : CarVerifier) × (register_key s.node_id (public_of s.private_key) v ≡ some v')
        × (lookup s.node_id v'.registry ≡ some (public_of s.private_key))
  unfolding register_key
  lookup-register_key s v =
      let key = public_of s.private_key in
      let size = laws.key_size s.private_key in
      (
        record v { registry = insert s.node_id key v.registry },
        ground arith,
        ground
            (arith, lookup-insert s.node_id s.node_id key v.registry, eq_iff s.node_id s.node_id),
      )
