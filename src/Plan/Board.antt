-- ===== src/Plan/Board.antt =====
-- The blackboard of crates/node/src/planner/plan.rs, a hash map from step ids to their results, and
-- `lookup_path`. A map is the list of its entries; a key stands in it once.
use n3ur0n.Json
use n3ur0n.Prelude.{
  if◌then◌else◌, Bool-cases, String, ◌≡◌, refl, inl, inr, Bool, true, false, Option, none, some,
  List, [], ◌∷◌, arith, ◌==◌, eq_iff,
}
use n3ur0n.Json.{Value, null, object}
use n3ur0n.Plan.{dot}
use n3ur0n.Text.{split_on}

module _ {A : Type 0} where
  -- `get`
  unfoldable pub entry_of : List (String × A) → String → Option A
  entry_of [] k = none
  entry_of ((j, a) ∷ es) k = if j == k then some a else entry_of es k

  -- `insert`
  unfoldable pub with_entry : String → A → List (String × A) → List (String × A)
  with_entry k a [] = (k, a) ∷ []
  with_entry k a ((j, b) ∷ es) =
      let rest = with_entry k a es in if j == k then (k, a) ∷ es else (j, b) ∷ rest

  abbrev pub is_entry : Option A → Bool
  is_entry none = false
  is_entry (some a) = true

  pub entry_of-with_entry :
      (k x : String) (a : A) (es : List (String × A))
      → entry_of (with_entry k a es) x ≡ (if k == x then some a else entry_of es x)
  unfolding entry_of with_entry
  entry_of-with_entry k x a [] = refl
  entry_of-with_entry k x a ((j, b) ∷ es) = elim (Bool-cases (j == k)) [
    | inl same ↦ ground (arith, same, eq_iff j k, eq_iff j x, eq_iff k x)
    | inr other ↦
        ground (arith, other, eq_iff j k, eq_iff j x, eq_iff k x, entry_of-with_entry k x a es)
  ]

abbrev pub Blackboard : Type 0
Blackboard = List (String × Value)

-- The loop over `parts[1..]`.
unfoldable pub walk : Value → List String → Option Value
walk v [] = some v
walk (object fs) (p ∷ ps) = elim (Json.lookup_field fs p) [ some v ↦ walk v ps | none ↦ none ]
walk null (p ∷ ps) = none
walk _ (p ∷ ps) = none

abbrev pub walk_from : Option Value → List String → Option Value
walk_from none ps = none
walk_from (some v) ps = walk v ps

unfoldable pub lookup_path : String → Blackboard → Option Value
lookup_path path board = let (id, rest) = split_on dot path in walk_from (entry_of board id) rest
