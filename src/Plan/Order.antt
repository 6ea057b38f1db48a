-- ===== src/Plan/Order.antt =====
-- `topological_order` of crates/node/src/planner/plan.rs: Kahn's algorithm. A hash map from the ids
-- of the steps is a function; no key but those is ever read.
use n3ur0n.Prelude.{
  leb, eqb, if◌then◌else◌, length, filter, sort, ℕ, zero, suc, ◌+◌, ◌-◌, ◌^◌, String, Bool, Option,
  none, some, List, [], ◌∷◌, ◌++◌, map, ◌==◌,
}
use n3ur0n.Lobe.{contains}
use n3ur0n.Plan.{Plan, Link, links}

-- `indeg` once the loop over the dependencies is done.
unfoldable pub indegree : List Link → String → ℕ
indegree [] k = 0
indegree ((id, deps) ∷ ls) k = (if id == k then length deps else 0) + indegree ls k

-- `edges[k]` once that loop is done: the steps that wait for `k`, in the order of the plan.
unfoldable pub outs : List Link → String → List String
outs [] k = []
outs ((id, deps) ∷ ls) k = let rest = outs ls k in if contains deps k then id ∷ rest else rest

-- `plan_idx.get(id)`: of several steps with the id, the last.
unfoldable pub index_from : ℕ → List Link → String → Option ℕ
index_from i [] k = none
index_from i ((id, deps) ∷ ls) k = elim (index_from (suc i) ls k) [
  | some j ↦ some j
  | none ↦ if id == k then some i else none
]

-- `unwrap_or(usize::MAX)`
abbrev or_max : Option ℕ → ℕ
or_max none = 2 ^ 64 - 1
or_max (some i) = i

abbrev pub by_index : List Link → String → String → Bool
by_index ls a b = leb (or_max (index_from 0 ls a)) (or_max (index_from 0 ls b))

abbrev pub unlike_head : String → List String → List String
unlike_head x [] = x ∷ []
unlike_head x (y ∷ ys) = if x == y then y ∷ ys else x ∷ y ∷ ys

-- `Vec::dedup`: of equal neighbours, one is kept.
unfoldable pub dedup : List String → List String
dedup [] = []
dedup (x ∷ xs) = unlike_head x (dedup xs)

unfoldable pub edges_of : List Link → String → List String
edges_of ls k = dedup (sort (by_index ls) (outs ls k))

-- The steps that wait for nothing more and were not taken yet, and what each step still waits for.
pub record Frontier : Type 0 where
  pub queue : List String
  pub indeg : String → ℕ

abbrev pub lowered : (String → ℕ) → String → String → ℕ
lowered indeg o k = if o == k then indeg k - 1 else indeg k

-- The loop over `outs` once a step is done.
unfoldable pub release : List String → Frontier → Frontier
release [] fr = fr
release (o ∷ os) fr =
    let less = lowered fr.indeg o in
    let freed = eqb (less o) 0 in
    release os (record { queue = (if freed then fr.queue ++ o ∷ [] else fr.queue); indeg = less })

abbrev pub seed : List Link → Frontier
seed ls = record {
  queue = filter (λ id. eqb (indegree ls id) 0) (map (λ (l : Link). l.0) ls);
  indeg = indegree ls;
}

-- The loop over the queue: the order so far, and what is left.
unfoldable pub kahn : List Link → ℕ → List String → Frontier → List String × Frontier
kahn ls zero order fr = (order, fr)
kahn ls (suc fuel) order fr = elim fr.queue [
  | [] ↦ (order, fr)
  | id ∷ rest ↦
      kahn ls fuel (order ++ id ∷ [])
        (release (edges_of ls id) (record { queue = rest; indeg = fr.indeg }))
]

-- The order, which the source wraps in `Ok`.
unfoldable pub topological_order : Plan → List String
topological_order plan = (kahn (links plan) (length plan) [] (seed (links plan))).0
