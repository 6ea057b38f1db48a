-- ===== src/Mention.antt =====
-- crates/node/src/mention.rs: the mentions `@type:value` in a message, and the scope that they give.
-- Positions are in bytes, as in the source; what is left to read is kept as the text itself.
pub mod RoundTrip
pub mod Scope
use Prim.Native.String.{◌++◌ as join}
use Prim.Native.Char.{code}
use n3ur0n.Prelude.{
  eqb, if◌then◌else◌, length, len_utf8, ℕ, zero, suc, ◌+◌, String, Bool, true, false, not, ◌&&◌,
  ◌||◌, Option, none, some, List, [], ◌∷◌, ◌++◌, ◌==◌,
}
use n3ur0n.Lobe.{contains}
use n3ur0n.Plan.Frontier.{missing, after}
use n3ur0n.Registry.{len}
use n3ur0n.Text.{
  is_whitespace, split_at, trim_end_matches, trim, strip_char, count_chars, drop_chars, until,
  any_char, ends_in, byte_size, from_byte, to_byte,
}

-- `MentionKind`
pub data MentionKind : Type 0 where
  file_kind peer_kind lobe_kind cap_kind : MentionKind

unfoldable pub from_prefix : String → Option MentionKind
from_prefix s =
    if s == "file"
    then some file_kind
    else if s == "peer"
    then some peer_kind
    else if s == "lobe"
    then some lobe_kind
    else if s == "cap"
    then some cap_kind
    else none

abbrev pub kind_name : MentionKind → String
kind_name file_kind = "file"
kind_name peer_kind = "peer"
kind_name lobe_kind = "lobe"
kind_name cap_kind = "cap"

pub record Mention : Type 0 where
  pub kind : MentionKind
  pub entity : String
  pub capability : Option String
  pub span : ℕ × ℕ

abbrev pub at_sign : ℕ
at_sign = 64

abbrev pub quote : ℕ
quote = 34

abbrev pub slash : ℕ
slash = 47

-- `TRAILING_PUNCTUATION`
unfoldable pub trailing_punctuation : ℕ → Bool
trailing_punctuation c =
    eqb c 46
    || eqb c 44
    || eqb c 59
    || eqb c 58
    || eqb c 33
    || eqb c 63
    || eqb c 41
    || eqb c 93
    || eqb c 125
    || eqb c 34
    || eqb c 39

abbrev pub quoted : String → String
quoted value = String.◌∷◌ "\"" (join value (String.◌∷◌ "\"" ""))

unfoldable pub quote_if_needed : String → String
quote_if_needed value =
    if any_char is_whitespace value || ends_in trailing_punctuation value || value == ""
    then quoted value
    else value

-- `{entity}/{cap}`
abbrev pub value_of : String → Option String → String
value_of entity none = entity
value_of entity (some cap) = join entity (String.◌∷◌ "/" cap)

abbrev pub token_of : MentionKind → String → String
token_of kind value =
    String.◌∷◌ "@" (join (kind_name kind) (String.◌∷◌ ":" (quote_if_needed value)))

unfoldable pub to_token : Mention → String
to_token m = token_of m.kind (value_of m.entity m.capability)

-- The value after the colon, its bytes in the text, and what stands after it.
abbrev pub quoted_value : Option (String × String) → Option (String × ℕ × String)
quoted_value none = none
quoted_value (some (value, rest)) = some (value, byte_size value + 2, rest)

abbrev pub bare_value : String → String → String × ℕ × String
bare_value unquoted after = (unquoted, byte_size unquoted, drop_chars (count_chars unquoted) after)

abbrev pub read_with : String → Option String → Option (String × ℕ × String)
read_with after (some body) = quoted_value (split_at quote body)
read_with after none =
    some (bare_value (trim_end_matches trailing_punctuation (until is_whitespace after)) after)

unfoldable pub read_value : String → Option (String × ℕ × String)
read_value after = read_with after (strip_char quote after)

-- The entity and the capability of a value.
abbrev pub descend : String → Option (String × String) → Option (String × Option String)
descend value none = some (value, none)
descend value (some (e, cap)) =
    if e == "" then none else if cap == "" then some (e, none) else some (e, some cap)

abbrev pub parts_of : MentionKind → String → Option (String × Option String)
parts_of file_kind value = some (value, none)
parts_of cap_kind value = some (value, none)
parts_of peer_kind value = descend value (split_at slash value)
parts_of lobe_kind value = descend value (split_at slash value)

-- A token that was read: what it mentions, its bytes after the `@`, and the text after it.
pub record Token : Type 0 where
  pub kind : MentionKind
  pub parts : String × Option String
  pub raw_len : ℕ
  pub rest : String

abbrev pub token_with : MentionKind → ℕ → String → Option (String × Option String) → Option Token
token_with kind raw_len rest none = none
token_with kind raw_len rest (some parts) =
    some (record { kind = kind; parts = parts; raw_len = raw_len; rest = rest })

abbrev pub token_value : MentionKind → ℕ → Option (String × ℕ × String) → Option Token
token_value kind before none = none
token_value kind before (some (value, len, rest)) =
    if value == "" then none else token_with kind (before + len) rest (parts_of kind value)

abbrev pub token_typed : ℕ → String → Option MentionKind → Option Token
token_typed before after none = none
token_typed before after (some kind) = token_value kind before (read_value after)

abbrev pub token_parted : Option (String × String) → Option Token
token_parted none = none
token_parted (some (prefix, after)) = token_typed (byte_size prefix + 1) after (from_prefix prefix)

-- What stands after an `@` that opens a token.
unfoldable pub read_token : String → Option Token
read_token rest = token_parted (split_at 58 rest)

abbrev pub mention_at : ℕ → Token → Mention
mention_at at t = record {
  kind = t.kind;
  entity = t.parts.0;
  capability = t.parts.1;
  span = (at, at + 1 + t.raw_len);
}

-- The token that opens with the character, if one does.
abbrev pub opened : ℕ → Bool → String → Option Token
opened c opens s = if eqb c at_sign && opens then read_token s else none

abbrev pub either_way : Option Token → (Token → List Mention) → List Mention → List Mention
either_way (some t) found missing = found t
either_way none found missing = missing

-- The loop of `parse_mentions`: at a byte position, with whether a token may open there.
unfoldable pub mentions_from : ℕ → ℕ → Bool → String → List Mention
mentions_from zero at opens s = []
mentions_from (suc fuel) at opens String.[] = []
mentions_from (suc fuel) at opens (String.◌∷◌ ch s) =
    either_way (opened (code ch) opens s)
      (λ t. mention_at at t ∷ mentions_from fuel (at + 1 + t.raw_len) false t.rest)
      (mentions_from fuel (at + len_utf8 (code ch)) (is_whitespace (code ch)) s)

unfoldable pub parse_mentions : String → List Mention
parse_mentions s = mentions_from (suc (count_chars s)) 0 true s

-- The loop of `strip_mentions` over the spans.
unfoldable pub cut : String → ℕ → List Mention → String
cut s cursor [] = from_byte cursor s
cut s cursor (m ∷ ms) = join (from_byte cursor (to_byte m.span.0 s)) (cut s m.span.1 ms)

unfoldable pub strip_mentions : String → String
strip_mentions s = trim (cut s 0 (parse_mentions s))

-- `char::is_alphanumeric`, of Unicode, is the argument.
unfoldable pub is_scope_only : (ℕ → Bool) → String → Bool
is_scope_only is_alphanumeric s =
    not (eqb (length (parse_mentions s)) 0) && not (any_char is_alphanumeric (strip_mentions s))

pub record MentionScope : Type 0 where
  pub peers : List String
  pub lobes : List String
  pub capabilities : List String
  pub files : List String

unfoldable pub is_empty : MentionScope → Bool
is_empty scope =
    eqb (length scope.peers) 0 && eqb (length scope.lobes) 0 && eqb (length scope.capabilities) 0

unfoldable pub push_unique : List String → String → List String
push_unique v item = if contains v item then v else v ++ item ∷ []

abbrev pub push_capability : Option String → MentionScope → MentionScope
push_capability none scope = scope
push_capability (some cap) scope = record {
  peers = scope.peers;
  lobes = scope.lobes;
  capabilities = push_unique scope.capabilities cap;
  files = scope.files;
}

abbrev pub push_entity : MentionKind → String → MentionScope → MentionScope
push_entity file_kind e scope = record {
  peers = scope.peers;
  lobes = scope.lobes;
  capabilities = scope.capabilities;
  files = push_unique scope.files e;
}
push_entity peer_kind e scope = record {
  peers = push_unique scope.peers e;
  lobes = scope.lobes;
  capabilities = scope.capabilities;
  files = scope.files;
}
push_entity lobe_kind e scope = record {
  peers = scope.peers;
  lobes = push_unique scope.lobes e;
  capabilities = scope.capabilities;
  files = scope.files;
}
push_entity cap_kind e scope = record {
  peers = scope.peers;
  lobes = scope.lobes;
  capabilities = push_unique scope.capabilities e;
  files = scope.files;
}

-- The loop of `from_text`.
unfoldable pub add_mentions : List Mention → MentionScope → MentionScope
add_mentions [] scope = scope
add_mentions (m ∷ ms) scope =
    add_mentions ms (push_capability m.capability (push_entity m.kind m.entity scope))

abbrev pub no_scope : MentionScope
no_scope = record { peers = []; lobes = []; capabilities = []; files = [] }

unfoldable pub from_text : String → MentionScope
from_text s = add_mentions (parse_mentions s) no_scope
