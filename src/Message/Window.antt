-- ===== src/Message/Window.antt =====
-- Exactly when `verify_envelope` of crates/core/src/verify.rs accepts.
use n3ur0n.Prelude.{
  Option-cases, length, ok, ℕ, ◌+◌, ◌≤◌, ◌<◌, ◌≡◌, sym, ap, ◌∙◌, ◌↔◌, inl, inr, true, Option, some,
  arith, eq_iff,
}
use n3ur0n.Clock.{distance, whole_seconds, from_secs}
use n3ur0n.Identity.{Bytes, InstanceId, Crypto, from_public_key, verify_with}
use n3ur0n.Message.{
  Envelope, SignedMessage, VerifyConfig, VerifiedEnvelope, signature_byte_size, decode_signature,
  canonical_bytes, verify_signature, verify_envelope,
}

module _ (c : Crypto) (canonical : Envelope → Option Bytes) where
  -- An inbound message that is addressed to `recipient`, recent at `now`, and signed by the key
  -- whose hash is the sender's id.
  pub record IsAuthentic (m : SignedMessage) (recipient : InstanceId) (now : ℕ)
      (config : VerifyConfig) : Type 0 where
    pub addressed : m.envelope.recipient_id ≡ recipient
    pub recent : from_secs (whole_seconds (distance now m.envelope.timestamp)) ≤ config.clock_skew
    pub key_hashes_to_sender : from_public_key c m.sender_public_key ≡ m.envelope.sender_id
    pub bytes : Bytes
    pub covered : canonical m.envelope ≡ some bytes
    pub signature : Bytes
    pub decoded : c.hex_decode m.signature ≡ some signature
    pub full_size : length signature ≡ signature_byte_size
    pub verified : c.verify_bytes m.sender_public_key bytes signature ≡ true

  -- The part of `IsAuthentic` that `verify_signature` checks.
  signature_sound :
      (m : SignedMessage)
      → verify_signature c canonical m ≡ ok tt
      → (from_public_key c m.sender_public_key ≡ m.envelope.sender_id)
        × (bytes : Bytes) × (signature : Bytes) × (canonical m.envelope ≡ some bytes)
        × (c.hex_decode m.signature ≡ some signature)
        × (length signature ≡ signature_byte_size)
        × (c.verify_bytes m.sender_public_key bytes signature ≡ true)
  unfolding verify_signature canonical_bytes decode_signature verify_with
  signature_sound m h = elim (Option-cases (canonical m.envelope)) [
    | inl none_covered ↦ absurd (ground arith)
    | inr (bytes, covered) ↦ elim (Option-cases (c.hex_decode m.signature)) [
      | inl undecoded ↦ absurd (ground arith)
      | inr (signature, decoded) ↦ (
        ground (arith, eq_iff (from_public_key c m.sender_public_key) m.envelope.sender_id),
        bytes,
        signature,
        covered,
        decoded,
        ground arith,
        ground arith,
      )
    ]
  ]

  verify_envelope_sound :
      (m : SignedMessage) (recipient : InstanceId) (now : ℕ) (config : VerifyConfig)
      (v : VerifiedEnvelope)
      → verify_envelope c canonical m recipient now config ≡ ok v
      → IsAuthentic m recipient now config × (v.message ≡ m)
  unfolding verify_envelope
  verify_envelope_sound m recipient now config v h =
      let checked : verify_signature c canonical m ≡ ok tt = ground arith in
      let (hashed, bytes, signature, covered, decoded, full_size, verified) =
        signature_sound m checked in
      (
        record {
          addressed = ground (arith, eq_iff m.envelope.recipient_id recipient);
          recent = ground arith;
          key_hashes_to_sender = hashed;
          bytes = bytes;
          covered = covered;
          signature = signature;
          decoded = decoded;
          full_size = full_size;
          verified = verified;
        },
        ground arith,
      )

  signature_complete :
      (m : SignedMessage) (recipient : InstanceId) (now : ℕ) (config : VerifyConfig)
      → IsAuthentic m recipient now config
      → verify_signature c canonical m ≡ ok tt
  unfolding verify_signature canonical_bytes decode_signature verify_with
  signature_complete m recipient now config a = ground (
    arith,
    eq_iff (from_public_key c m.sender_public_key) m.envelope.sender_id,
    a.covered,
    a.decoded,
    a.full_size,
    a.verified,
    a.key_hashes_to_sender,
  )

  verify_envelope_complete :
      (m : SignedMessage) (recipient : InstanceId) (now : ℕ) (config : VerifyConfig)
      → IsAuthentic m recipient now config
      → verify_envelope c canonical m recipient now config ≡ ok (record { message = m })
  unfolding verify_envelope
  verify_envelope_complete m recipient now config a = ground (
    arith,
    eq_iff m.envelope.recipient_id recipient,
    a.recent,
    a.addressed,
    signature_complete m recipient now config a,
  )

  -- `verify_envelope` accepts a message exactly when it is authentic, and hands that message on.
  pub verify_envelope-ok_iff :
      (m : SignedMessage) (recipient : InstanceId) (now : ℕ) (config : VerifyConfig)
      (v : VerifiedEnvelope)
      → (verify_envelope c canonical m recipient now config ≡ ok v)
        ↔ (IsAuthentic m recipient now config × (v.message ≡ m))
  verify_envelope-ok_iff m recipient now config v = (
    verify_envelope_sound m recipient now config v,
    λ (a, e).
        verify_envelope_complete m recipient now config a
        ∙ ap (λ (x : SignedMessage). ok (record { message = x })) (sym e),
  )

  -- An accepted message was stamped less than the allowed skew and one second away from `now`,
  -- in the past or in the future, for a skew of whole seconds.
  pub accepted_within :
      (m : SignedMessage) (recipient : InstanceId) (now skew : ℕ) (v : VerifiedEnvelope)
      → verify_envelope c canonical m recipient now (record { clock_skew = from_secs skew }) ≡ ok v
      → (now < m.envelope.timestamp + from_secs (skew + 1))
        × (m.envelope.timestamp < now + from_secs (skew + 1))
  accepted_within m recipient now skew v h =
      let a =
        (verify_envelope_sound m recipient now (record { clock_skew = from_secs skew }) v
          h).0.recent in
      (ground arith, ground arith)
