-- ===== src/Message/Signing.antt =====
-- What a signature made by `sign` of crates/core/src/message.rs guarantees.
use n3ur0n.Prelude.{ok, ◌≡◌, Option, some, arith, eq_iff}
use n3ur0n.Identity.{
  Bytes, Crypto, IsCrypto, Keypair, from_public_key, public_key, instance_id, sign_with,
  verify_with,
}
use n3ur0n.Message.{
  Envelope, SignedMessage, encode_signature, decode_signature, canonical_bytes, sign,
  verify_signature,
}

module _ (c : Crypto) (canonical : Envelope → Option Bytes) where
  -- `sign` succeeds exactly for the key pair of the sender, on an envelope with canonical bytes;
  -- it keeps the envelope and attaches the key of the pair.
  pub sign-ok :
      (e : Envelope) (k : Keypair) (m : SignedMessage)
      → sign c canonical e k ≡ ok m
      → (e.sender_id ≡ instance_id c k)
        × (m.envelope ≡ e)
        × (m.sender_public_key ≡ public_key c k)
        × ((bytes : Bytes) × (canonical e ≡ some bytes)
            × (m.signature ≡ encode_signature c (sign_with c k bytes)))
  unfolding sign canonical_bytes
  sign-ok e k m h = ground (arith, eq_iff e.sender_id (instance_id c k))

  -- What a key pair signs in its own name passes the check of the receiver.
  pub verify_signature-sign :
      (laws : IsCrypto c) (e : Envelope) (k : Keypair) (m : SignedMessage)
      → sign c canonical e k ≡ ok m
      → verify_signature c canonical m ≡ ok tt
  unfolding verify_signature canonical_bytes decode_signature encode_signature instance_id
      public_key sign_with verify_with
  verify_signature-sign laws e k m h =
      let (owner, same, key, (bytes, covered, signed)) = sign-ok e k m h in
      let signature : Bytes = c.sign_bytes k.seed bytes in
      ground (
        arith,
        eq_iff (from_public_key c m.sender_public_key) m.envelope.sender_id,
        owner,
        same,
        key,
        covered,
        signed,
        laws.hex_inverse signature,
        laws.signature_size k.seed bytes,
        laws.verifies k.seed bytes,
      )
