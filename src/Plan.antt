-- ===== src/Plan.antt =====
-- crates/node/src/planner/plan.rs: plans, the references in their arguments, and the graph of their
-- steps. A hash set is the list of its elements, in the order of insertion.
pub mod Counting
pub mod Templates
pub mod Validation
pub mod Checks
pub mod Validity
pub mod Position
pub mod Order
pub mod Board
pub mod Resolution
pub mod Frontier
pub mod Seed
pub mod Acyclic
pub mod Schedule
pub mod Topological
pub mod Depth
use n3ur0n.Json
use Prim.Native.Char.{code, Char}
use n3ur0n.Prelude.{
  eqb, if◌then◌else◌, filter, is_ascii_lowercase, is_ascii_uppercase, is_ascii_alphanumeric, ℕ,
  zero, suc, String, Bool, false, not, ◌&&◌, ◌||◌, Option, none, some, List, [], ◌∷◌, ◌++◌, map,
  ◌==◌,
}
use n3ur0n.Json.{
  Value, null, boolean, unsigned, other_number, text, array, object, Items, nil, cons, Fields, end,
  field,
}
use n3ur0n.Lobe.{contains}
use n3ur0n.Text.{split_at, split_on, count_chars, all_chars}

pub record PlanStep : Type 0 where
  pub id : String
  pub peer : String
  pub capability : String
  pub args : Value
  pub depends_on : List String

-- `struct Plan`, by its field.
abbrev pub Plan : Type 0
Plan = List PlanStep

abbrev pub max_plan_steps : ℕ
max_plan_steps = 8

abbrev pub dollar : ℕ
dollar = 36

abbrev pub open_brace : ℕ
open_brace = 123

abbrev pub close_brace : ℕ
close_brace = 125

abbrev pub dot : ℕ
dot = 46

-- `${inner}` at the character: what stands inside, and after it.
unfoldable pub dollar_ref : Char → String → Option (String × String)
dollar_ref ch String.[] = none
dollar_ref ch (String.◌∷◌ d s) =
    if eqb (code ch) dollar && eqb (code d) open_brace then split_at close_brace s else none

-- `{inner}` at the character.
unfoldable pub brace_ref : Char → String → Option (String × String)
brace_ref ch s = if eqb (code ch) open_brace then split_at close_brace s else none

-- `split('.').next()`
abbrev pub head_of : String → String
head_of key = (split_on dot key).0

abbrev is_ascii_alphabetic : ℕ → Bool
is_ascii_alphabetic c = is_ascii_lowercase c || is_ascii_uppercase c

unfoldable pub looks_like_step_id : String → Bool
looks_like_step_id String.[] = false
looks_like_step_id (String.◌∷◌ ch s) =
    is_ascii_alphabetic (code ch)
    && all_chars (λ c. is_ascii_alphanumeric c || eqb c b'_') (String.◌∷◌ ch s)

-- The loop of `extract_template_keys` on what is left of the text.
unfoldable pub keys_from : ℕ → String → List String
keys_from zero s = []
keys_from (suc fuel) String.[] = []
keys_from (suc fuel) (String.◌∷◌ ch s) = elim (dollar_ref ch s) [
  | some (inner, rest) ↦ inner ∷ keys_from fuel rest
  | none ↦ elim (brace_ref ch s) [
    | some (inner, rest) ↦
        let later = keys_from fuel rest in
        if looks_like_step_id (head_of inner) then inner ∷ later else later
    | none ↦ keys_from fuel s
  ]
]

unfoldable pub extract_template_keys : String → List String
extract_template_keys s = keys_from (suc (count_chars s)) s

-- The ids that the keys of one text name.
unfoldable pub ids_of : List String → List String
ids_of [] = []
ids_of (key ∷ keys) =
    let rest = ids_of keys in if head_of key == "" then rest else head_of key ∷ rest

-- `collect_refs`, and `collect_ref_keys`, which keeps the whole keys.
unfoldable mutual
  pub collect_refs : Value → List String
  collect_refs (text s) = ids_of (extract_template_keys s)
  collect_refs (array xs) = refs_of_items xs
  collect_refs (object fs) = refs_of_fields fs
  collect_refs null = []
  collect_refs (boolean b) = []
  collect_refs (unsigned n) = []
  collect_refs other_number = []

  pub refs_of_items : Items → List String
  refs_of_items nil = []
  refs_of_items (cons x xs) = collect_refs x ++ refs_of_items xs

  pub refs_of_fields : Fields → List String
  refs_of_fields end = []
  refs_of_fields (field k v fs) = collect_refs v ++ refs_of_fields fs

unfoldable mutual
  pub collect_ref_keys : Value → List String
  collect_ref_keys (text s) = extract_template_keys s
  collect_ref_keys (array xs) = keys_of_items xs
  collect_ref_keys (object fs) = keys_of_fields fs
  collect_ref_keys null = []
  collect_ref_keys (boolean b) = []
  collect_ref_keys (unsigned n) = []
  collect_ref_keys other_number = []

  pub keys_of_items : Items → List String
  keys_of_items nil = []
  keys_of_items (cons x xs) = collect_ref_keys x ++ keys_of_items xs

  pub keys_of_fields : Fields → List String
  keys_of_fields end = []
  keys_of_fields (field k v fs) = collect_ref_keys v ++ keys_of_fields fs

-- The elements of a hash set that is filled from a list.
unfoldable pub as_set : List String → List String
as_set [] = []
as_set (x ∷ xs) = x ∷ filter (λ y. not (x == y)) (as_set xs)

abbrev pub step_id : PlanStep → String
step_id s = s.id

abbrev pub plan_ids : Plan → List String
plan_ids plan = map step_id plan

-- The dependencies of a step that count: declared or referenced, on another step of the plan.
unfoldable pub real_deps : Plan → PlanStep → List String
real_deps plan s =
    filter (λ dep. not (dep == s.id) && contains (plan_ids plan) dep)
      (as_set (s.depends_on ++ collect_refs s.args))

-- A step of the graph: its id and the ids that it waits for.
abbrev pub Link : Type 0
Link = String × List String

abbrev pub link_of : Plan → PlanStep → Link
link_of plan s = (s.id, real_deps plan s)

unfoldable pub links : Plan → List Link
links plan = map (link_of plan) plan
