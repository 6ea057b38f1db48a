-- ===== src/Mention/RoundTrip.antt =====
-- What `parse_mentions` of crates/node/src/mention.rs reads from a mention that `to_token` wrote.
use Prim.Native.String.{◌++◌ as join}
use Prim.Native.String.append
use Prim.Native.Char.{Char}
use n3ur0n.Prelude.{
  if◌then◌else◌, Bool-cases, len_utf8, ℕ, suc, ◌+◌, String, ◌≡◌, refl, ap, ◌∙◌, inl, inr, true,
  false, ◌||◌, Option, none, some, [], ◌∷◌, arith, ◌==◌, eq_iff,
}
use n3ur0n.Mention.{
  MentionKind, file_kind, peer_kind, lobe_kind, cap_kind, from_prefix, kind_name, Mention, at_sign,
  quote, slash, trailing_punctuation, quoted, quote_if_needed, value_of, to_token, quoted_value,
  bare_value, read_with, read_value, descend, parts_of, Token, token_with, token_value, token_typed,
  token_parted, read_token, mention_at, either_way, mentions_from, parse_mentions,
}
use n3ur0n.Text.{
  is_whitespace, split_at, trim_end_matches, has_char, strip_char, count_chars, until, any_char,
  ends_in, byte_size,
}
use n3ur0n.Text.Splitting.{
  split_at-join, strip_char-none, until_none, trim_end_matches-none, drop_chars_all, byte_size-join,
  split_at-none,
}

from_prefix-kind_name : (kind : MentionKind) → from_prefix (kind_name kind) ≡ some kind
unfolding from_prefix
from_prefix-kind_name file_kind = refl
from_prefix-kind_name peer_kind = refl
from_prefix-kind_name lobe_kind = refl
from_prefix-kind_name cap_kind = refl

kind_name_plain : (kind : MentionKind) → has_char 58 (kind_name kind) ≡ false
unfolding has_char
kind_name_plain file_kind = refl
kind_name_plain peer_kind = refl
kind_name_plain lobe_kind = refl
kind_name_plain cap_kind = refl

read_value-quoted :
    (value : String)
    → has_char quote value ≡ false
    → read_value (quoted value) ≡ some (value, byte_size (quoted value), "")
unfolding read_value strip_char byte_size
read_value-quoted value plain =
    let size : byte_size value + 2 ≡ byte_size (quoted value) =
      omega (arith, byte_size-join value (String.◌∷◌ "\"" "")) in
    ap quoted_value (split_at-join quote value "\"" "" plain refl)
    ∙ ap (λ n. some (value, n, "")) size

read_value-bare :
    (value : String)
    → has_char quote value ≡ false
    → any_char is_whitespace value ≡ false
    → ends_in trailing_punctuation value ≡ false
    → read_value value ≡ some (value, byte_size value, "")
unfolding read_value
read_value-bare value plain one_word ends =
    let whole : trim_end_matches trailing_punctuation (until is_whitespace value) ≡ value =
      ap (trim_end_matches trailing_punctuation) (until_none is_whitespace value one_word)
      ∙ trim_end_matches-none trailing_punctuation value ends in
    ap (read_with value) (strip_char-none quote value plain)
    ∙ ap (λ v. some (bare_value v value)) whole
    ∙ ap (λ r. some (value, byte_size value, r)) (drop_chars_all value)

read_value-quote_if_needed :
    (value : String)
    → has_char quote value ≡ false
    → read_value (quote_if_needed value) ≡ some (value, byte_size (quote_if_needed value), "")
unfolding quote_if_needed
read_value-quote_if_needed value plain =
    elim (Bool-cases
      (any_char is_whitespace value || ends_in trailing_punctuation value || value == "")) [
        | inl needs ↦ rw needs (read_value-quoted value plain)
        | inr bare ↦
            rw bare (read_value-bare value plain (ground (arith, bare)) (ground (arith, bare)))
      ]

-- An entity and a capability that a mention of the kind can have.
pub data IsSpeakable : MentionKind → String → Option String → Type 0 where
  a_file : (e : String) → IsSpeakable file_kind e none
  a_cap : (e : String) → IsSpeakable cap_kind e none
  a_peer : (e : String) → has_char slash e ≡ false → IsSpeakable peer_kind e none
  a_lobe : (e : String) → has_char slash e ≡ false → IsSpeakable lobe_kind e none
  on_peer :
      (e cap : String)
      → has_char slash e ≡ false
      → (cap == "") ≡ false
      → IsSpeakable peer_kind e (some cap)
  in_lobe :
      (e cap : String)
      → has_char slash e ≡ false
      → (cap == "") ≡ false
      → IsSpeakable lobe_kind e (some cap)

descend-value_of :
    (e cap : String)
    → (e == "") ≡ false
    → has_char slash e ≡ false
    → (cap == "") ≡ false
    → descend (value_of e (some cap)) (split_at slash (value_of e (some cap))) ≡ some (e, some cap)
descend-value_of e cap some_e plain some_cap =
    ap (descend (value_of e (some cap))) (split_at-join slash e "/" cap plain refl)
    ∙ ground (arith, some_e, some_cap)

parts_of-value_of :
    (kind : MentionKind) (e : String) (cap : Option String)
    → IsSpeakable kind e cap
    → (e == "") ≡ false
    → parts_of kind (value_of e cap) ≡ some (e, cap)
parts_of-value_of _ e _ (a_file _) some_e = refl
parts_of-value_of _ e _ (a_cap _) some_e = refl
parts_of-value_of _ _ _ (a_peer e plain) some_e = ap (descend e) (split_at-none slash e plain)
parts_of-value_of _ _ _ (a_lobe e plain) some_e = ap (descend e) (split_at-none slash e plain)
parts_of-value_of _ _ _ (on_peer e cap plain some_cap) some_e =
    descend-value_of e cap some_e plain some_cap
parts_of-value_of _ _ _ (in_lobe e cap plain some_cap) some_e =
    descend-value_of e cap some_e plain some_cap

cons-not_empty : (ch : Char) (s : String) → (String.◌∷◌ ch s == "") ≡ false
unfolding count_chars
cons-not_empty ch s = elim (Bool-cases (String.◌∷◌ ch s == "")) [
  | inl same ↦ absurd (omega (arith, ap count_chars ((eq_iff (String.◌∷◌ ch s) "").0 same)))
  | inr other ↦ other
]

value_of-not_empty :
    (e : String) (cap : Option String) → (e == "") ≡ false → (value_of e cap == "") ≡ false
value_of-not_empty e none h = h
value_of-not_empty String.[] (some cap) h = absurd (cc h)
value_of-not_empty (String.◌∷◌ ch e) (some cap) h =
    simp (append.cons) (cons-not_empty ch (join e (String.◌∷◌ "/" cap)))

read_token-token :
    (kind : MentionKind) (e : String) (cap : Option String)
    → IsSpeakable kind e cap
    → (e == "") ≡ false
    → has_char quote (value_of e cap) ≡ false
    → let q = quote_if_needed (value_of e cap) in
      read_token (join (kind_name kind) (String.◌∷◌ ":" q))
      ≡ some (record {
        kind = kind;
        parts = (e, cap);
        raw_len = byte_size (kind_name kind) + 1 + byte_size q;
        rest = "";
      })
unfolding read_token
read_token-token kind e cap fits some_e plain =
    let value = value_of e cap in
    let q = quote_if_needed value in
    let before = byte_size (kind_name kind) + 1 in
    ap token_parted (split_at-join 58 (kind_name kind) ":" q (kind_name_plain kind) refl)
    ∙ ap (token_typed before q) (from_prefix-kind_name kind)
    ∙ ap (token_value kind before) (read_value-quote_if_needed value plain)
    ∙ ap (λ b. if b then none else token_with kind (before + byte_size q) "" (parts_of kind value))
        (value_of-not_empty e cap some_e)
    ∙ ap (token_with kind (before + byte_size q) "") (parts_of-value_of kind e cap fits some_e)

mentions_from-token :
    (fuel : ℕ) (s : String) (t : Token)
    → read_token s ≡ some t
    → t.rest ≡ ""
    → mentions_from (suc (suc fuel)) 0 true (String.◌∷◌ "@" s) ≡ mention_at 0 t ∷ []
unfolding mentions_from is_whitespace
mentions_from-token fuel s t read done =
    ap
      (λ o.
        either_way o
          (λ x. mention_at 0 x ∷ mentions_from (suc fuel) (0 + 1 + x.raw_len) false x.rest)
          (mentions_from (suc fuel) (0 + len_utf8 at_sign) false s))
      read
    ∙ ap (λ r. mention_at 0 t ∷ mentions_from (suc fuel) (0 + 1 + t.raw_len) false r) done

-- A mention of an entity without quotes, and without a slash where a capability could follow, is read
-- from its token as it was, over the bytes of the whole token, whether or not it had to be quoted.
pub parse_mentions-to_token :
    (m : Mention)
    → IsSpeakable m.kind m.entity m.capability
    → (m.entity == "") ≡ false
    → has_char quote (value_of m.entity m.capability) ≡ false
    → parse_mentions (to_token m)
      ≡ record {
        kind = m.kind;
        entity = m.entity;
        capability = m.capability;
        span = (0, byte_size (to_token m));
      }
        ∷ []
unfolding parse_mentions to_token count_chars byte_size
parse_mentions-to_token m fits some_e plain =
    let q = quote_if_needed (value_of m.entity m.capability) in
    let body = join (kind_name m.kind) (String.◌∷◌ ":" q) in
    mentions_from-token (count_chars body) body _
      (read_token-token m.kind m.entity m.capability fits some_e plain) refl
    ∙ ap
        (λ n.
          record { kind = m.kind; entity = m.entity; capability = m.capability; span = (0, n) }
          ∷ [])
        (omega (arith, byte_size-join (kind_name m.kind) (String.◌∷◌ ":" q)))
