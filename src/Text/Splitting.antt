-- ===== src/Text/Splitting.antt =====
-- What splitting a text at a character gives.
use Prim.Native.String.{◌++◌ as join}
use Prim.Native.String.append
use Prim.Native.Char.{code, Char}
use n3ur0n.Prelude.{
  eqb, Bool-cases, Option-cases, ℕ, ◌+◌, ◌<◌, String, ◌≡◌, refl, ap, inl, inr, Bool, false, ◌||◌,
  none, some, arith,
}
use n3ur0n.Text.{
  split_at, keep_end, trim_end_matches, has_char, strip_char, count_chars, drop_chars, until,
  any_char, ends_in, byte_size,
}

pub split_at-shrinks :
    (c : ℕ) (s before after : String)
    → split_at c s ≡ some (before, after)
    → count_chars after < count_chars s
unfolding split_at count_chars
split_at-shrinks c String.[] before after h = absurd (cc h)
split_at-shrinks c (String.◌∷◌ ch s) before after h = elim (Bool-cases (eqb (code ch) c)) [
  | inl here ↦ ground (arith, here)
  | inr later ↦ elim (Option-cases (split_at c s)) [
    | inl missing ↦ absurd (ground (arith, later, missing))
    | inr ((x, y), found) ↦ ground (arith, later, found, split_at-shrinks c s x y found)
  ]
]

-- Text without the separator, then the separator: the first piece is that text.
pub split_at-join :
    (c : ℕ) (s : String) (ch : Char) (t : String)
    → has_char c s ≡ false
    → code ch ≡ c
    → split_at c (join s (String.◌∷◌ ch t)) ≡ some (s, t)
unfolding split_at has_char
split_at-join c String.[] ch t free e = simp (append.nil) (ground (arith, e))
split_at-join c (String.◌∷◌ d s) ch t free e =
    simp (append.cons) (ground (arith, e, split_at-join c s ch t))

pub strip_char-none : (c : ℕ) (s : String) → has_char c s ≡ false → strip_char c s ≡ none
unfolding strip_char has_char
strip_char-none c String.[] plain = refl
strip_char-none c (String.◌∷◌ ch s) plain = ground (arith, plain)

pub until_none : (p : ℕ → Bool) (s : String) → any_char p s ≡ false → until p s ≡ s
unfolding until any_char
until_none p String.[] h = refl
until_none p (String.◌∷◌ ch s) h = ground (arith, h, until_none p s)

pub trim_end_matches-none :
    (p : ℕ → Bool) (s : String) → ends_in p s ≡ false → trim_end_matches p s ≡ s
unfolding trim_end_matches ends_in
trim_end_matches-none p String.[] h = refl
trim_end_matches-none p (String.◌∷◌ ch String.[]) h = ground (arith, h)
trim_end_matches-none p (String.◌∷◌ ch (String.◌∷◌ d s)) h =
    ap (keep_end p ch) (trim_end_matches-none p (String.◌∷◌ d s) h)

pub drop_chars_all : (s : String) → drop_chars (count_chars s) s ≡ ""
unfolding drop_chars count_chars
drop_chars_all String.[] = refl
drop_chars_all (String.◌∷◌ ch s) = drop_chars_all s

pub byte_size-join : (s t : String) → byte_size (join s t) ≡ byte_size s + byte_size t
unfolding byte_size
byte_size-join String.[] t = simp (append.nil) (omega arith)
byte_size-join (String.◌∷◌ ch s) t = simp (append.cons) (omega (arith, byte_size-join s t))

pub has_char-join : (c : ℕ) (s t : String) → has_char c (join s t) ≡ (has_char c s || has_char c t)
unfolding has_char
has_char-join c String.[] t = simp (append.nil) (refl)
has_char-join c (String.◌∷◌ ch s) t = simp (append.cons) (ground (arith, has_char-join c s t))

pub split_at-none : (c : ℕ) (s : String) → has_char c s ≡ false → split_at c s ≡ none
unfolding split_at has_char
split_at-none c String.[] plain = refl
split_at-none c (String.◌∷◌ ch s) plain = ground (arith, plain, split_at-none c s)
