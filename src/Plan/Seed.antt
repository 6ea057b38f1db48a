-- ===== src/Plan/Seed.antt =====
-- The graph of a plan and its first frontier, for `topological_order` and `execute_plan_streaming` of
-- crates/node/src/planner/plan.rs.
use mathlib.Core.Path.{subst}
use n3ur0n.Prelude.{
  eqb, if◌then◌else◌, length, In, In-map_of_In, In-map, ◌≤◌, String, ◌≡◌, refl, sym, ap, inl, inr,
  not, ◌&&◌, List, [], ◌∷◌, ◌++◌, map, arith, ◌==◌, eq_iff,
}
use n3ur0n.Lobe.{contains}
use n3ur0n.Plan.{PlanStep, Plan, collect_refs, as_set, plan_ids, real_deps, Link, link_of, links}
use n3ur0n.Plan.Acyclic.{IsClosed}
use n3ur0n.Plan.Counting.{
  occurs, IsUnique, occurs-filter, occurs-as_set, contains-occurs, occurs-In,
}
use n3ur0n.Plan.Frontier.{ids, missing, IsGraph, IsFrontier, In-ids}
use n3ur0n.Plan.Order.{indegree, seed}

ids_of_links : (plan steps : Plan) → ids (map (link_of plan) steps) ≡ plan_ids steps
ids_of_links plan [] = refl
ids_of_links plan (s ∷ steps) = ap (λ xs. s.id ∷ xs) (ids_of_links plan steps)

pub ids-links : (plan : Plan) → ids (links plan) ≡ plan_ids plan
unfolding links
ids-links plan = ids_of_links plan plan

links-In :
    (plan : Plan) (l : Link)
    → In l (links plan)
    → (s : PlanStep) × In s plan × (l ≡ (s.id, real_deps plan s))
unfolding links
links-In plan l m = let (s, ms, e) = In-map (link_of plan) plan l m in (s, ms, sym e)

real_deps-once : (plan : Plan) (s : PlanStep) → IsUnique (real_deps plan s)
unfolding real_deps
real_deps-once plan s x = ground (
  arith,
  occurs-filter (λ dep. not (dep == s.id) && contains (plan_ids plan) dep) x
      (as_set (s.depends_on ++ collect_refs s.args)),
  occurs-as_set (s.depends_on ++ collect_refs s.args) x,
)

real_deps-known :
    (plan : Plan) (s : PlanStep) (d : String) → In d (real_deps plan s) → In d (plan_ids plan)
unfolding real_deps
real_deps-known plan s d m =
    let kept =
      occurs-filter (λ dep. not (dep == s.id) && contains (plan_ids plan) dep) d
        (as_set (s.depends_on ++ collect_refs s.args)) in
    (occurs-In d (plan_ids plan)).0 (
      ground (arith, kept, contains-occurs (plan_ids plan) d, (occurs-In d (real_deps plan s)).1 m))

-- Step ids without repetition make a graph whose dependencies are steps.
pub links-IsGraph : (plan : Plan) → IsUnique (plan_ids plan) → IsGraph (links plan)
links-IsGraph plan u = record {
  unique = rw (ids-links plan) u;
  single = λ l m. let (s, ms, e) = links-In plan l m in rw e (real_deps-once plan s);
}

pub links-IsClosed : (plan : Plan) → IsClosed (links plan)
links-IsClosed plan l m d md =
    let (s, ms, e) = links-In plan l m in
    rw (ids-links plan) (real_deps-known plan s d (subst (λ (k : Link). In d k.1) e md))

missing-none : (ds : List String) → missing [] ds ≡ length ds
unfolding missing occurs
missing-none [] = refl
missing-none (d ∷ ds) = omega (arith, missing-none ds)

indegree-absent : (ls : List Link) (k : String) → occurs k (ids ls) ≡ 0 → indegree ls k ≡ 0
unfolding indegree occurs
indegree-absent [] k h = refl
indegree-absent ((id, deps) ∷ ls) k h = ground (arith, indegree-absent ls k)

indegree-link :
    (ls : List Link) (l : Link) → IsUnique (ids ls) → In l ls → indegree ls l.0 ≡ length l.1
unfolding indegree occurs
indegree-link [] l u m = elim m [ ]
indegree-link ((id, deps) ∷ ls) l u m = elim m [
  | inl here ↦ rw (← here) (ground (arith, eq_iff id id, u id, indegree-absent ls id))
  | inr later ↦ ground (
    arith,
    eq_iff id l.0,
    u l.0,
    In-ids ls l later,
    indegree-link ls l (λ x. ground (arith, u x)) later,
  )
]

pub seed-IsFrontier : (ls : List Link) → IsGraph ls → IsFrontier ls [] (seed ls)
unfolding occurs
seed-IsFrontier ls g =
    let q : (x : String)
        → occurs x (seed ls).queue ≡ (if eqb (indegree ls x) 0 then occurs x (ids ls) else 0) =
      λ x. occurs-filter (λ id. eqb (indegree ls id) 0) x (ids ls) in
    let fits : (l : Link)
        → In l ls
        → (indegree ls l.0 ≡ missing [] l.1) × (1 ≤ occurs l.0 (ids ls)) =
      λ l m. (omega (arith, indegree-link ls l g.unique m, missing-none l.1), In-ids ls l m) in
    record {
      once = λ x. ground (arith, q x, g.unique x);
      known = λ x h. (occurs-In x (ids ls)).0 (ground (arith, q x, h));
      counted = λ l m z. ground (arith, fits l m);
      ready = λ l m z. ground (arith, fits l m, q l.0, z);
      waiting = λ l m z. ground (arith, fits l m, q l.0, z);
    }

pub step_link : (plan : Plan) (s : PlanStep) → In s plan → In (link_of plan s) (links plan)
unfolding links
step_link plan s m = In-map_of_In (link_of plan) plan s m

length_links_of : (plan steps : Plan) → length (map (link_of plan) steps) ≡ length steps
length_links_of plan [] = refl
length_links_of plan (s ∷ steps) = omega (arith, length_links_of plan steps)

pub length-links : (plan : Plan) → length (links plan) ≡ length plan
unfolding links
length-links plan = length_links_of plan plan
