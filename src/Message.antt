-- ===== src/Message.antt =====
-- crates/core/src/message.rs and verify.rs: the envelope, its signature, and the check of an
-- inbound message. `canonical` is `serde_jcs::to_vec`.
pub mod Signing
pub mod Window
use n3ur0n.Prelude.{
  ltb, eqb, if◌then◌else◌, length, ok, err, ◌>>=◌, ◌>>◌, ok_or, ℕ, ◌*◌, String, not, Option, ◌==◌,
}
use n3ur0n.Clock.{distance, whole_seconds, from_secs}
use n3ur0n.Errors.{
  wrong_keypair, CoreError, invalid_identifier, signature_invalid, recipient_mismatch,
  timestamp_out_of_window, canonical, crypto, CoreResult,
}
use n3ur0n.Identity.{
  Bytes, InstanceId, Crypto, Keypair, from_public_key, public_key, instance_id, sign_with,
  verify_with,
}
use n3ur0n.Json.{Value}

pub data ProtocolVerb : Type 0 where
  describe_self get_known_peers ping invoke blob_ticket : ProtocolVerb

pub record Envelope : Type 0 where
  pub sender_id : InstanceId
  pub recipient_id : InstanceId
  pub timestamp : ℕ
  pub nonce : String
  pub verb : ProtocolVerb
  pub payload : Value
  pub sender_endpoint : Option String

pub record SignedMessage : Type 0 where
  pub envelope : Envelope
  pub sender_public_key : Bytes
  pub signature : String

pub record VerifyConfig : Type 0 where
  -- A `Duration`, in nanoseconds.
  pub clock_skew : ℕ

-- `VerifyConfig::default`
abbrev pub default_verify : VerifyConfig
default_verify = record { clock_skew = from_secs (5 * 60) }

pub record VerifiedEnvelope : Type 0 where
  pub message : SignedMessage

abbrev pub signature_byte_size : ℕ
signature_byte_size = 64

module _ (c : Crypto) where
  -- `signature_codec::encode`
  unfoldable pub encode_signature : Bytes → String
  encode_signature sig = c.hex_encode sig

  -- `signature_codec::decode`
  unfoldable pub decode_signature : String → CoreResult Bytes
  decode_signature s = do
    bytes ← ok_or (c.hex_decode s) crypto
    if eqb (length bytes) signature_byte_size then ok bytes else err crypto

module _ (c : Crypto) (canonical : Envelope → Option Bytes) where
  -- `Envelope::canonical_bytes`
  unfoldable pub canonical_bytes : Envelope → CoreResult Bytes
  canonical_bytes e = ok_or (canonical e) CoreError.canonical

  -- `Envelope::sign`
  unfoldable pub sign : Envelope → Keypair → CoreResult SignedMessage
  sign e k =
      if not (e.sender_id == instance_id c k) then err (invalid_identifier wrong_keypair) else do
        bytes ← canonical_bytes e
        ok (record {
          envelope = e;
          sender_public_key = public_key c k;
          signature = encode_signature c (sign_with c k bytes);
        })

  -- `SignedMessage::verify_signature`
  unfoldable pub verify_signature : SignedMessage → CoreResult Unit
  verify_signature m =
      if not (from_public_key c m.sender_public_key == m.envelope.sender_id)
      then err signature_invalid
      else do
        bytes ← canonical_bytes m.envelope
        sig ← decode_signature c m.signature
        verify_with c m.sender_public_key bytes sig

  -- `now` is what `clock.now()` returns.
  unfoldable pub verify_envelope :
      SignedMessage → InstanceId → ℕ → VerifyConfig → CoreResult VerifiedEnvelope
  verify_envelope m expected_recipient now config =
      let skew = from_secs (whole_seconds (distance now m.envelope.timestamp)) in
      if not (m.envelope.recipient_id == expected_recipient)
      then err (recipient_mismatch expected_recipient m.envelope.recipient_id)
      else if ltb config.clock_skew skew
      then err timestamp_out_of_window
      else (verify_signature m >> ok (record { message = m }))
