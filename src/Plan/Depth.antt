-- ===== src/Plan/Depth.antt =====
-- `plan_depth` of crates/node/src/planner/plan.rs: the longest chain of steps that wait for each other.
use n3ur0n.Prelude.{
  if◌then◌else◌, filter, ℕ, ◌+◌, max, String, not, Option, none, some, List, [], ◌∷◌, ◌++◌, ◌==◌,
}
use n3ur0n.Plan.{PlanStep, Plan, collect_refs, as_set}
use n3ur0n.Plan.Board.{entry_of, with_entry}
use n3ur0n.Plan.Order.{topological_order}

-- `by_id.get(id)`: of several steps with the id, the last.
unfoldable pub step_of : Plan → String → Option PlanStep
step_of [] id = none
step_of (s ∷ plan) id = elim (step_of plan id) [
  | some later ↦ some later
  | none ↦ if s.id == id then some s else none
]

abbrev or_zero : Option ℕ → ℕ
or_zero none = 0
or_zero (some n) = n

-- The largest of the levels of the dependencies, 0 for none.
unfoldable pub deepest_dep : List (String × ℕ) → List String → ℕ
deepest_dep level [] = 0
deepest_dep level (d ∷ ds) = max (or_zero (entry_of level d)) (deepest_dep level ds)

-- What the step waits for: declared or referenced, but itself.
abbrev pub other_deps : PlanStep → List String
other_deps s = filter (λ dep. not (dep == s.id)) (as_set (s.depends_on ++ collect_refs s.args))

abbrev pub level_of : List (String × ℕ) → PlanStep → ℕ
level_of level s = deepest_dep level (other_deps s) + 1

abbrev deeper : List (String × ℕ) × ℕ → Option PlanStep → List (String × ℕ) × ℕ
deeper acc none = acc
deeper (level, deepest) (some s) =
    let d = level_of level s in (with_entry s.id d level, max deepest d)

-- The loop over the order.
unfoldable pub depth_from : Plan → List String → List (String × ℕ) × ℕ → ℕ
depth_from plan [] acc = acc.1
depth_from plan (id ∷ order) acc = depth_from plan order (deeper acc (step_of plan id))

unfoldable pub plan_depth : Plan → ℕ
plan_depth plan = depth_from plan (topological_order plan) ([], 0)
