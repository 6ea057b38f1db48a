-- ===== src/Plan/Topological.antt =====
-- What `topological_order` of crates/node/src/planner/plan.rs gives for a plan whose step ids are
-- all different.
use mathlib.Core.Path.{subst}
use n3ur0n.Prelude.{length, In, ◌≤◌, String, ◌≡◌, refl, ◌↔◌, List, [], ◌∷◌, ◌++◌, arith}
use n3ur0n.Plan.{PlanStep, Plan, plan_ids, real_deps, Link, link_of, links}
use n3ur0n.Plan.Acyclic.{Ranking, missing-In, length-ids, all_done}
use n3ur0n.Plan.Counting.{occurs, IsUnique, occurs-In}
use n3ur0n.Plan.Frontier.{ids, IsGraph, In-ids, known_occurs}
use n3ur0n.Plan.Order.{Frontier, seed, kahn, topological_order}
use n3ur0n.Plan.Position.{position, position-below, same_length}
use n3ur0n.Plan.Schedule.{
  Reached, seeded, Reached-IsFrontier, IsOrdered, Reached-IsOrdered, IsOrdered-prefix, kahn-Reached,
  kahn-runs_out,
}
use n3ur0n.Plan.Seed.{ids-links, links-IsGraph, links-IsClosed, step_link, length-links}

-- For a plan whose step ids are all different, the loop over the queue ends with an empty queue within
-- as many turns as there are steps, and its order is one in which steps are taken one by one, each
-- from a queue of the steps that wait for nothing more.
pub topological_order_ends :
    (plan : Plan)
    → IsUnique (plan_ids plan)
    → (fr : Frontier) × Reached (links plan) (topological_order plan) fr × (fr.queue ≡ [])
unfolding topological_order
topological_order_ends plan u =
    let g = links-IsGraph plan u in
    (
      (kahn (links plan) (length plan) [] (seed (links plan))).1,
      kahn-Reached (links plan) (length plan) [] (seed (links plan)) seeded,
      kahn-runs_out (links plan) (length plan) [] (seed (links plan)) g seeded
          (omega (arith, length-links plan)),
    )

-- For a plan whose step ids are all different, the order has no id twice, only ids of the plan, and
-- each step behind every other step of the plan that it declares or refers to.
pub topological_order_sound :
    (plan : Plan)
    → IsUnique (plan_ids plan)
    → IsUnique (topological_order plan)
      × ((x : String) → In x (topological_order plan) → In x (plan_ids plan))
      × ((early late : List String) (s : PlanStep) (d : String)
          → topological_order plan ≡ early ++ s.id ∷ late
          → In s plan
          → In d (real_deps plan s)
          → In d early)
topological_order_sound plan u =
    let (fr, h, e) = topological_order_ends plan u in
    let g = links-IsGraph plan u in
    let fits = Reached-IsFrontier (links plan) (topological_order plan) fr g h in
    (
      λ x. omega (arith, fits.once x),
      λ x m.
          subst (In x) (ids-links plan)
            (fits.known x (omega (arith, (occurs-In x (topological_order plan)).1 m))),
      λ early late s d split ms md.
          missing-In early (real_deps plan s)
            (IsOrdered-prefix (links plan) [] early late s.id
              (subst (IsOrdered (links plan) []) split
                (Reached-IsOrdered (links plan) (topological_order plan) fr g h))
              (link_of plan s) (step_link plan s ms) refl)
            d md,
    )

-- Where a schedule has taken all the steps, they are ranked by when it took them.
order_ranks :
    (ls : List Link) (done : List String) (fr : Frontier)
    → IsGraph ls
    → Reached ls done fr
    → length done ≡ length ls
    → Ranking ls
order_ranks ls done fr g h full =
    let fits = Reached-IsFrontier ls done fr g h in
    let all : (x : String) → occurs x (ids ls) ≤ occurs x done = λ x.
      same_length done (ids ls) x (λ y. ground (arith, fits.once y, known_occurs ls done fr fits y))
        (omega (arith, full, length-ids ls)) in
    record {
      rank = λ x. position x done;
      below = λ l m d md.
          position-below l.0 d done (λ x. omega (arith, fits.once x))
            (omega (arith, all l.0, In-ids ls l m))
            (λ early late split.
              missing-In early l.1
                (IsOrdered-prefix ls [] early late l.0
                  (subst (IsOrdered ls []) split (Reached-IsOrdered ls done fr g h)) l m refl)
                d md);
    }

-- For a plan whose step ids are all different, the order has all the steps if and only if the steps
-- can be ranked so that each stands above every step it waits for: if there is no cycle.
pub topological_order_complete :
    (plan : Plan)
    → IsUnique (plan_ids plan)
    → (length (topological_order plan) ≡ length plan) ↔ Ranking (links plan)
topological_order_complete plan u =
    let (fr, h, e) = topological_order_ends plan u in
    let g = links-IsGraph plan u in
    let fits = Reached-IsFrontier (links plan) (topological_order plan) fr g h in
    (
      λ full.
          order_ranks (links plan) (topological_order plan) fr g h
            (omega (arith, full, length-links plan)),
      λ r. omega (
        arith,
        all_done (links plan) (topological_order plan) fr r g (links-IsClosed plan) fits e,
        length-links plan,
      ),
    )
