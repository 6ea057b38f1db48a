-- ===== src/Identity/Parsing.antt =====
-- Derived ids parse, and an alias is never an id (crates/core/src/identity.rs).
use Prim.Native.String.append
use Prim.Native.String.{◌++◌ as text_append}
use Prim.Native.Char.{code}
use n3ur0n.Prelude.{
  take, length-take, codes, starts_with, drop_prefix, ok, err, ℕ, String, ◌≡◌, refl, ap, ◌∙◌, true,
  List, [], ◌∷◌, ◌++◌, arith,
}
use n3ur0n.Errors.{bad_instance_id, invalid_identifier}
use n3ur0n.Identity.{
  Bytes, Crypto, IsCrypto, id_prefix, id_hash_bytes, from_public_key, parse_instance_id,
  validate_alias,
}

pub codes-append : (s t : String) → codes (text_append s t) ≡ codes s ++ codes t
codes-append String.[] t = ap codes (append.nil t)
codes-append (String.◌∷◌ ch s) t =
    ap codes (append.cons ch s t) ∙ ap (λ l. code ch ∷ l) (codes-append s t)

starts_with-append : (p s : List ℕ) → starts_with p (p ++ s) ≡ true
starts_with-append [] s = refl
starts_with-append (x ∷ p) s = ground (arith, starts_with-append p s)

drop_prefix-append : (p s : List ℕ) → drop_prefix p (p ++ s) ≡ s
drop_prefix-append [] s = refl
drop_prefix-append (x ∷ p) s = drop_prefix-append p s

module _ (c : Crypto) (laws : IsCrypto c) where
  -- The id that is derived from a public key is accepted by `InstanceId::parse`, unchanged.
  pub parse-from_public_key :
      (key : Bytes) → parse_instance_id (from_public_key c key) ≡ ok (from_public_key c key)
  unfolding parse_instance_id from_public_key
  parse-from_public_key key =
      let hash : Bytes = take id_hash_bytes (c.sha256 key) in
      let encoded : List ℕ = codes (c.base32_lower hash) in
      let split : codes (from_public_key c key) ≡ codes id_prefix ++ encoded =
        codes-append id_prefix (c.base32_lower hash) in
      ground (
        arith,
        split,
        starts_with-append (codes id_prefix) encoded,
        drop_prefix-append (codes id_prefix) encoded,
        laws.base32_alphanumeric hash,
        laws.base32_nonempty hash,
        laws.sha256_size key,
        length-take id_hash_bytes (c.sha256 key),
      )

-- An accepted alias is refused by `InstanceId::parse`: it cannot pose as an id.
pub parse-alias :
    (alias : String)
    → validate_alias alias ≡ ok tt
    → parse_instance_id alias ≡ err (invalid_identifier bad_instance_id)
unfolding validate_alias parse_instance_id
parse-alias alias h = ground arith
