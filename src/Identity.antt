-- ===== src/Identity.antt =====
-- crates/core/src/identity.rs: instance ids, key pairs and aliases. The cryptography of the crates
-- `sha2`, `ed25519_dalek` and `data_encoding` is the record `Crypto`.
pub mod Parsing
use Prim.Native.String.{◌++◌}
use n3ur0n.Prelude.{
  ltb, eqb, if◌then◌else◌, length, take, all, codes, is_ascii_alphanumeric, starts_with,
  drop_prefix, ok, err, ℕ, ◌≤◌, String, ◌≡◌, Bool, true, not, ◌||◌, Option, some, List, [], ◌∷◌,
}
use n3ur0n.Errors.{
  bad_instance_id, alias_empty, alias_too_long, alias_poses_as_id, alias_character,
  invalid_identifier, signature_invalid, CoreResult,
}

abbrev pub Bytes : Type 0
Bytes = List ℕ

-- The canonical id, `struct InstanceId(String)`.
abbrev pub InstanceId : Type 0
InstanceId = String

-- What the code calls of the cryptography crates.
pub record Crypto : Type 0 where
  pub sha256 : Bytes → Bytes
  -- `BASE32_NOPAD.encode(_).to_lowercase()`
  pub base32_lower : Bytes → String
  -- `SigningKey::verifying_key`, on the seed of the key.
  pub verifying_key : Bytes → Bytes
  pub sign_bytes : Bytes → Bytes → Bytes
  pub verify_bytes : Bytes → Bytes → Bytes → Bool
  -- `HEXLOWER`
  pub hex_encode : Bytes → String
  pub hex_decode : String → Option Bytes

-- What the crates document of these functions.
pub record IsCrypto (c : Crypto) : Type 0 where
  pub verifies :
      (seed message : Bytes)
      → c.verify_bytes (c.verifying_key seed) message (c.sign_bytes seed message) ≡ true
  pub signature_size : (seed message : Bytes) → length (c.sign_bytes seed message) ≡ 64
  pub hex_inverse : (bytes : Bytes) → c.hex_decode (c.hex_encode bytes) ≡ some bytes
  pub base32_alphanumeric :
      (bytes : Bytes) → all is_ascii_alphanumeric (codes (c.base32_lower bytes)) ≡ true
  pub base32_nonempty :
      (bytes : Bytes) → 1 ≤ length bytes → 1 ≤ length (codes (c.base32_lower bytes))
  pub sha256_size : (bytes : Bytes) → length (c.sha256 bytes) ≡ 32

abbrev pub id_prefix : String
id_prefix = "n3:"

abbrev pub id_hash_bytes : ℕ
id_hash_bytes = 20

-- `struct Keypair`: the secret seed.
pub record Keypair : Type 0 where
  pub seed : Bytes

module _ (c : Crypto) where
  unfoldable pub from_public_key : Bytes → InstanceId
  from_public_key key = id_prefix ++ c.base32_lower (take id_hash_bytes (c.sha256 key))

  unfoldable pub public_key : Keypair → Bytes
  public_key k = c.verifying_key k.seed

  unfoldable pub instance_id : Keypair → InstanceId
  unfolding from_public_key public_key
  instance_id k = from_public_key (public_key k)

  -- `Keypair::sign`
  unfoldable pub sign_with : Keypair → Bytes → Bytes
  sign_with k message = c.sign_bytes k.seed message

  -- `PublicKey::verify`
  unfoldable pub verify_with : Bytes → Bytes → Bytes → CoreResult Unit
  verify_with key message signature =
      if c.verify_bytes key message signature then ok tt else err signature_invalid

-- `InstanceId::parse`
unfoldable pub parse_instance_id : String → CoreResult InstanceId
parse_instance_id s =
    let payload = drop_prefix (codes id_prefix) (codes s) in
    if not (starts_with (codes id_prefix) (codes s))
    then err (invalid_identifier bad_instance_id)
    else if eqb (length payload) 0 || not (all is_ascii_alphanumeric payload)
    then err (invalid_identifier bad_instance_id)
    else ok s

abbrev pub alias_max_len : ℕ
alias_max_len = 32

abbrev is_alias_char : ℕ → Bool
is_alias_char ch = is_ascii_alphanumeric ch || eqb ch b'-' || eqb ch b'_' || eqb ch b'.'

-- The loop over the characters of an alias.
check_alias_chars : List ℕ → CoreResult Unit
check_alias_chars [] = ok tt
check_alias_chars (ch ∷ cs) =
    let rest = check_alias_chars cs in
    if is_alias_char ch then rest else err (invalid_identifier (alias_character ch))

unfoldable pub validate_alias : String → CoreResult Unit
unfolding check_alias_chars
validate_alias alias =
    let n = length (codes alias) in
    if eqb n 0
    then err (invalid_identifier alias_empty)
    else if ltb alias_max_len n
    then err (invalid_identifier alias_too_long)
    else if starts_with (codes id_prefix) (codes alias)
    then err (invalid_identifier alias_poses_as_id)
    else check_alias_chars (codes alias)
