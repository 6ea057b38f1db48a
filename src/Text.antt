-- ===== src/Text.antt =====
-- Methods of Rust's `str` that the planner and the mentions use. Their separators are ASCII, so that a
-- byte position of one is a position between characters.
pub mod Splitting
use Prim.Native.String.{◌++◌ as join}
use mathlib.Core.Option
use Prim.Native.Char.{code, Char}
use n3ur0n.Prelude.{
  leb, eqb, if◌then◌else◌, len_utf8, ℕ, zero, suc, ◌+◌, ◌-◌, String, Bool, true, false, ◌&&◌, ◌||◌,
  Option, none, some, List, [], ◌∷◌,
}

-- `char::is_whitespace`: the property White_Space of Unicode.
unfoldable pub is_whitespace : ℕ → Bool
is_whitespace c =
    (leb 9 c && leb c 13)
    || eqb c 32
    || eqb c 133
    || eqb c 160
    || eqb c 5760
    || (leb 8192 c && leb c 8202)
    || eqb c 8232
    || eqb c 8233
    || eqb c 8239
    || eqb c 8287
    || eqb c 12288

-- `find(c)` and the two texts around the character: what stands before it, and after it.
unfoldable pub split_at : ℕ → String → Option (String × String)
split_at c String.[] = none
split_at c (String.◌∷◌ ch s) =
    if eqb (code ch) c
    then some ("", s)
    else Option.map (λ (p : String × String). (String.◌∷◌ ch p.0, p.1)) (split_at c s)

-- `split(c)`: the first piece, and the others.
unfoldable pub split_on : ℕ → String → String × List String
split_on c String.[] = ("", [])
split_on c (String.◌∷◌ ch s) =
    let (first, rest) = split_on c s in
    if eqb (code ch) c then ("", first ∷ rest) else (String.◌∷◌ ch first, rest)

unfoldable pub trim_start : String → String
trim_start String.[] = ""
trim_start (String.◌∷◌ ch s) = if is_whitespace (code ch) then trim_start s else String.◌∷◌ ch s

-- A character before what is left of the text after it.
abbrev pub keep_end : (ℕ → Bool) → Char → String → String
keep_end p ch String.[] = if p (code ch) then "" else String.◌∷◌ ch ""
keep_end p ch (String.◌∷◌ d t) = String.◌∷◌ ch (String.◌∷◌ d t)

unfoldable pub trim_end_matches : (ℕ → Bool) → String → String
trim_end_matches p String.[] = ""
trim_end_matches p (String.◌∷◌ ch s) = keep_end p ch (trim_end_matches p s)

unfoldable pub trim : String → String
trim s = trim_end_matches is_whitespace (trim_start s)

-- `contains(c)`
unfoldable pub has_char : ℕ → String → Bool
has_char c String.[] = false
has_char c (String.◌∷◌ ch s) = eqb (code ch) c || has_char c s

-- `strip_prefix`
unfoldable pub strip_char : ℕ → String → Option String
strip_char c String.[] = none
strip_char c (String.◌∷◌ ch s) = if eqb (code ch) c then some s else none

-- `strip_suffix`
unfoldable pub strip_last : ℕ → String → Option String
strip_last c String.[] = none
strip_last c (String.◌∷◌ ch String.[]) = if eqb (code ch) c then some "" else none
strip_last c (String.◌∷◌ ch (String.◌∷◌ d t)) =
    Option.map (λ (r : String). String.◌∷◌ ch r) (strip_last c (String.◌∷◌ d t))

unfoldable pub count_chars : String → ℕ
count_chars String.[] = 0
count_chars (String.◌∷◌ ch s) = suc (count_chars s)

-- `all(p)` on the characters.
unfoldable pub all_chars : (ℕ → Bool) → String → Bool
all_chars p String.[] = true
all_chars p (String.◌∷◌ ch s) = p (code ch) && all_chars p s

unfoldable pub take_chars : ℕ → String → String
take_chars zero s = ""
take_chars (suc n) String.[] = ""
take_chars (suc n) (String.◌∷◌ ch s) = String.◌∷◌ ch (take_chars n s)

-- `strip_prefix` of a text, given by its characters.
unfoldable pub strip_prefix : List ℕ → String → Option String
strip_prefix [] s = some s
strip_prefix (c ∷ cs) s = elim (strip_char c s) [ some rest ↦ strip_prefix cs rest | none ↦ none ]

-- `split_once` of a character that stands twice, as in `::`.
unfoldable pub split_twice : ℕ → String → Option (String × String)
split_twice c String.[] = none
split_twice c (String.◌∷◌ ch s) =
    let rest = Option.map (λ (p : String × String). (String.◌∷◌ ch p.0, p.1)) (split_twice c s) in
    if eqb (code ch) c
    then elim (strip_char c s) [ some after ↦ some ("", after) | none ↦ rest ]
    else rest

unfoldable pub drop_chars : ℕ → String → String
drop_chars zero s = s
drop_chars (suc n) String.[] = ""
drop_chars (suc n) (String.◌∷◌ ch s) = drop_chars n s

-- What stands before the first character that passes the test.
unfoldable pub until : (ℕ → Bool) → String → String
until p String.[] = ""
until p (String.◌∷◌ ch s) = let rest = until p s in if p (code ch) then "" else String.◌∷◌ ch rest

-- `any(p)` on the characters.
unfoldable pub any_char : (ℕ → Bool) → String → Bool
any_char p String.[] = false
any_char p (String.◌∷◌ ch s) = p (code ch) || any_char p s

-- Whether the last character passes the test.
unfoldable pub ends_in : (ℕ → Bool) → String → Bool
ends_in p String.[] = false
ends_in p (String.◌∷◌ ch String.[]) = p (code ch)
ends_in p (String.◌∷◌ ch (String.◌∷◌ d s)) = ends_in p (String.◌∷◌ d s)

-- `len()`: how many bytes the text has.
unfoldable pub byte_size : String → ℕ
byte_size String.[] = 0
byte_size (String.◌∷◌ ch s) = len_utf8 (code ch) + byte_size s

-- The text from a byte position, which lies between characters, and up to one.
unfoldable pub from_byte : ℕ → String → String
from_byte n String.[] = ""
from_byte n (String.◌∷◌ ch s) =
    let rest = from_byte (n - len_utf8 (code ch)) s in if eqb n 0 then String.◌∷◌ ch s else rest

unfoldable pub to_byte : ℕ → String → String
to_byte n String.[] = ""
to_byte n (String.◌∷◌ ch s) =
    let rest = to_byte (n - len_utf8 (code ch)) s in if eqb n 0 then "" else String.◌∷◌ ch rest
