-- ===== src/Examples/Messages.antt =====
-- Runs of the checks of crates/core/src/identity.rs, message.rs and verify.rs.
use n3ur0n.Prelude.{ok, ◌≡◌, refl, ◌↔◌, [], ◌∷◌}
use n3ur0n.Examples.World.{
  same_bytes, unary, spelled, read, named, toy, toy-IsCrypto, bob_keys, toy_canonical, noon,
  ping_envelope, ping_message,
}
use n3ur0n.Identity.{
  from_public_key, public_key, instance_id, sign_with, verify_with, parse_instance_id,
  validate_alias,
}
use n3ur0n.Identity.Parsing.{parse-from_public_key}
use n3ur0n.Message.{
  SignedMessage, default_verify, VerifiedEnvelope, encode_signature, decode_signature,
  canonical_bytes, sign, verify_signature, verify_envelope,
}
use n3ur0n.Message.Signing.{verify_signature-sign}
use n3ur0n.Message.Window.{IsAuthentic, verify_envelope-ok_iff}

signed_by_bob : sign toy toy_canonical ping_envelope bob_keys ≡ ok ping_message
unfolding sign canonical_bytes instance_id public_key from_public_key named encode_signature
    sign_with spelled unary
signed_by_bob = refl

accepted :
    verify_envelope toy toy_canonical ping_message "n3:alice" noon default_verify
    ≡ ok (record { message = ping_message })
unfolding verify_envelope verify_signature canonical_bytes from_public_key named decode_signature
    spelled unary read verify_with same_bytes
accepted = refl

verify_signature-sign_example : verify_signature toy toy_canonical ping_message ≡ ok tt
verify_signature-sign_example =
    verify_signature-sign toy toy_canonical toy-IsCrypto ping_envelope bob_keys ping_message
      signed_by_bob

verify_envelope-ok_iff_example :
    (verify_envelope toy toy_canonical ping_message "n3:alice" noon default_verify
      ≡ ok (record { message = ping_message }))
    ↔ (IsAuthentic toy toy_canonical ping_message "n3:alice" noon default_verify
        × (◌≡◌ {A = SignedMessage}
            (VerifiedEnvelope.message (record { message = ping_message }))
            ping_message))
verify_envelope-ok_iff_example =
    verify_envelope-ok_iff toy toy_canonical ping_message "n3:alice" noon default_verify
      (record { message = ping_message })

parse-from_public_key_example :
    parse_instance_id (from_public_key toy (1 ∷ [])) ≡ ok (from_public_key toy (1 ∷ []))
parse-from_public_key_example = parse-from_public_key toy toy-IsCrypto (1 ∷ [])

valid_alias : validate_alias "bobby" ≡ ok tt
unfolding validate_alias
valid_alias = refl
