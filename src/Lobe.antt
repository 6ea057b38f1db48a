-- ===== src/Lobe.antt =====
-- crates/core/src/lobe.rs: lobe ids, the set that an instance declares, and the lobes that a
-- capability may not claim.
pub mod Grammar
pub mod Membership
use n3ur0n.Prelude.{
  ltb, eqb, if◌then◌else◌, length, filter, head?, get_last?, codes, is_ascii_lowercase,
  is_ascii_digit, ok, err, ◌>>◌, refuse_if, ℕ, String, Bool, false, not, ◌||◌, Option, none, some,
  List, [], ◌∷◌, ◌++◌, ◌==◌,
}
use n3ur0n.Errors.{
  lobe_too_short, lobe_too_long, lobe_edge, lobe_character, too_many_lobes, lobe_declared_twice,
  invalid_identifier, CoreResult,
}

abbrev pub max_lobes_per_instance : ℕ
max_lobes_per_instance = 5

abbrev pub lobe_id_min_len : ℕ
lobe_id_min_len = 2

abbrev pub lobe_id_max_len : ℕ
lobe_id_max_len = 64

abbrev pub is_edge_char : ℕ → Bool
is_edge_char c = is_ascii_lowercase c || is_ascii_digit c

abbrev pub is_lobe_char : ℕ → Bool
is_lobe_char c = is_ascii_lowercase c || is_ascii_digit c || eqb c b'-' || eqb c b'.'

-- `char::default()`
abbrev or_nul : Option ℕ → ℕ
or_nul none = 0
or_nul (some c) = c

-- The loop over the characters.
check_chars : List ℕ → CoreResult Unit
check_chars [] = ok tt
check_chars (c ∷ cs) =
    let rest = check_chars cs in
    if is_lobe_char c then rest else err (invalid_identifier (lobe_character c))

check_edges : List ℕ → CoreResult Unit
check_edges cs =
    refuse_if (not (is_edge_char (or_nul (head? cs))) || not (is_edge_char (or_nul (get_last? cs))))
      (invalid_identifier lobe_edge)

unfoldable pub validate_lobe_id : String → CoreResult Unit
unfolding check_chars check_edges
validate_lobe_id id =
    let n = length (codes id) in
    if ltb n lobe_id_min_len
    then err (invalid_identifier lobe_too_short)
    else if ltb lobe_id_max_len n
    then err (invalid_identifier lobe_too_long)
    else (check_chars (codes id) >> check_edges (codes id))

-- `slice.contains(x)`
unfoldable pub contains : List String → String → Bool
contains [] x = false
contains (y ∷ ys) x = y == x || contains ys x

-- The loop over the declared ids; `seen` is `ids[..i]`.
check_declared : List String → List String → CoreResult Unit
check_declared seen [] = ok tt
check_declared seen (id ∷ ids) =
    let rest = check_declared (seen ++ id ∷ []) ids in
    validate_lobe_id id
    >> refuse_if (contains seen id) (invalid_identifier lobe_declared_twice)
    >> rest

unfoldable pub validate_instance_lobes : List String → CoreResult Unit
unfolding check_declared
validate_instance_lobes ids =
    if ltb max_lobes_per_instance (length ids)
    then err (invalid_identifier too_many_lobes)
    else check_declared [] ids

unfoldable pub unclaimable_lobes : List String → List String → List String
unfolding contains
unclaimable_lobes cap_lobes instance_lobes = filter (λ l. not (contains instance_lobes l)) cap_lobes
