-- ===== src/Executor/Runs.antt =====
-- What holds of every execution of a plan by `execute_plan_streaming` of
-- crates/node/src/planner/plan.rs, in whatever order its steps finish.
use n3ur0n.Prelude.{
  leb, eqb, if◌then◌else◌, length, In, Result, ok, ℕ, ◌+◌, ◌≤◌, String, ◌≡◌, refl, ap, ◌∙◌, Bool,
  true, false, Option, none, some, List, [], ◌∷◌, ◌++◌, arith, ◌==◌,
}
use n3ur0n.Executor.{
  Setting, Flight, Running, by_id, spawn_found, spawn_step, with_indeg, free_steps, spawn_all,
  begin, board_value, record_done, complete, Run, started, finishes,
}
use n3ur0n.Executor.Simulation.{flight_ids, frontier, Run-Reached}
use n3ur0n.Json.{Value}
use n3ur0n.Plan.{PlanStep, plan_ids, real_deps, link_of, links}
use n3ur0n.Plan.Acyclic.{missing-In, length_done, all_done}
use n3ur0n.Plan.Board.{entry_of, with_entry, is_entry, entry_of-with_entry}
use n3ur0n.Plan.Counting.{occurs, IsUnique, occurs-append, occurs-In}
use n3ur0n.Plan.Frontier.{occurs_one}
use n3ur0n.Plan.Order.{edges_of, lowered, seed, topological_order}
use n3ur0n.Plan.Schedule.{Reached-IsFrontier, Reached-maximal}
use n3ur0n.Plan.Seed.{links-IsGraph, links-IsClosed, step_link, length-links}
use n3ur0n.Plan.Topological.{topological_order_ends}
use n3ur0n.Plan.Validation.{validate_plan}
use n3ur0n.Plan.Validity.{validate_plan_iff}

entry_step :
    (done : List String) (f : Flight) (x : String) (v : Value) (o : Option Value)
    → is_entry o ≡ leb 1 (occurs x done)
    → is_entry (if f.id == x then some v else o) ≡ leb 1 (occurs x (done ++ f.id ∷ []))
entry_step done f x v o h = ground (arith, h, occurs-append x done (f.id ∷ []), occurs_one x f.id)

length-flight_ids : (fs : List Flight) → length (flight_ids fs) ≡ length fs
length-flight_ids [] = refl
length-flight_ids (f ∷ fs) = omega (arith, length-flight_ids fs)

module _ (env : Setting) where
  board-spawn_found :
      (found : Option PlanStep) (st : Running)
      → (spawn_found env found st).blackboard ≡ st.blackboard
  board-spawn_found none st = refl
  board-spawn_found (some s) st = refl

  board-spawn_step :
      (st : Running) (id : String) → (spawn_step env st id).blackboard ≡ st.blackboard
  unfolding spawn_step
  board-spawn_step st id = board-spawn_found (by_id env.plan id) st

  board_either :
      (b : Bool) (st : Running) (less : String → ℕ) (o : String)
      → (if b then spawn_step env (with_indeg env st less) o else with_indeg env st less).blackboard
        ≡ st.blackboard
  board_either true st less o = board-spawn_step (with_indeg env st less) o
  board_either false st less o = refl

  board-free_steps :
      (os : List String) (st : Running) → (free_steps env os st).blackboard ≡ st.blackboard
  unfolding free_steps
  board-free_steps [] st = refl
  board-free_steps (o ∷ os) st =
      let less = lowered st.indeg o in
      let b = eqb (less o) 0 in
      board-free_steps os
        (if b then spawn_step env (with_indeg env st less) o else with_indeg env st less)
      ∙ board_either b st less o

  board-spawn_all :
      (os : List String) (st : Running) → (spawn_all env os st).blackboard ≡ st.blackboard
  unfolding spawn_all
  board-spawn_all [] st = refl
  board-spawn_all (o ∷ os) st = board-spawn_all os (spawn_step env st o) ∙ board-spawn_step st o

  board-begin : (begin env).blackboard ≡ []
  unfolding begin
  board-begin = board-spawn_all (seed (links env.plan)).queue _

  -- What a completion does to the blackboard.
  pub board-complete :
      (st : Running) (id : String) (r : Result String Value) (rest : List Flight)
      → (complete env st id r rest).blackboard ≡ with_entry id (board_value env r) st.blackboard
  unfolding complete record_done
  board-complete st id r rest =
      board-free_steps (edges_of (links env.plan) id) (record_done env st id r rest)

  -- The blackboard has an entry for exactly the steps that are done.
  pub board_done :
      (done : List String) (st : Running) (x : String)
      → Run env done st
      → is_entry (entry_of st.blackboard x) ≡ leb 1 (occurs x done)
  unfolding occurs entry_of
  board_done _ _ x started = ap (λ b. is_entry (entry_of b x)) board-begin
  board_done _ _ x (finishes done st f early late r before split result) =
      ap (λ b. is_entry (entry_of b x)) (board-complete st f.id r (early ++ late))
      ∙ ap is_entry (entry_of-with_entry f.id x (board_value env r) st.blackboard)
      ∙ entry_step done f x (board_value env r) (entry_of st.blackboard x)
          (board_done done st x before)

-- In every execution of a plan with different step ids, whatever the order and the results in which
-- its steps finish: no step is in flight or done twice, and the blackboard has an entry for every step
-- that one in flight waits for.
pub Run-waits :
    (env : Setting) (done : List String) (st : Running)
    → IsUnique (plan_ids env.plan)
    → Run env done st
    → ((x : String) → occurs x done + occurs x (flight_ids st.in_flight) ≤ 1)
      × ((s : PlanStep) (d : String)
          → In s env.plan
          → In s.id (flight_ids st.in_flight)
          → In d (real_deps env.plan s)
          → is_entry (entry_of st.blackboard d) ≡ true)
Run-waits env done st u run =
    let ls = links env.plan in
    let fits =
      Reached-IsFrontier ls done (frontier st) (links-IsGraph env.plan u)
        (Run-Reached env done st u run) in
    (
      fits.once,
      λ s d ms flying md.
          let one : occurs s.id done + occurs s.id (flight_ids st.in_flight) ≡ 1 =
            omega (arith, fits.once s.id, (occurs-In s.id (flight_ids st.in_flight)).1 flying) in
          let past =
            missing-In done (real_deps env.plan s)
              (fits.ready (link_of env.plan s) (step_link env.plan s ms) one) d md in
          board_done env done st d run ∙ ground (arith, (occurs-In d done).1 past),
    )

-- An execution of a plan with different step ids that has nothing left in flight has done exactly the
-- steps of `topological_order`, each once.
pub Run-ended :
    (env : Setting) (done : List String) (st : Running)
    → IsUnique (plan_ids env.plan)
    → Run env done st
    → st.in_flight ≡ []
    → (x : String) → occurs x done ≡ occurs x (topological_order env.plan)
Run-ended env done st u run e x =
    let ls = links env.plan in
    let g = links-IsGraph env.plan u in
    let reached = Run-Reached env done st u run in
    let empty : flight_ids st.in_flight ≡ [] = ap flight_ids e in
    let (fr, h, none_left) = topological_order_ends env.plan u in
    omega (
      arith,
      Reached-maximal ls done (topological_order env.plan) (frontier st) fr g reached empty h x,
      Reached-maximal ls (topological_order env.plan) done fr (frontier st) g h none_left reached x,
    )

-- In every execution of a plan that `validate_plan` accepts, the steps done and in flight are no more
-- than those of the plan, and nothing is in flight only once all steps are done: the execution can
-- neither go on forever nor stop before all steps are done.
pub Run-completes :
    (env : Setting) (done : List String) (st : Running)
    → validate_plan env.check env.catalog env.plan ≡ ok tt
    → Run env done st
    → (length done + length st.in_flight ≤ length env.plan)
      × (st.in_flight ≡ [] → length done ≡ length env.plan)
Run-completes env done st accepted run =
    let valid = (validate_plan_iff env.check env.catalog env.plan).0 accepted in
    let ls = links env.plan in
    let g = links-IsGraph env.plan valid.unique in
    let fits =
      Reached-IsFrontier ls done (frontier st) g (Run-Reached env done st valid.unique run) in
    (
      omega (
        arith,
        length_done ls done (frontier st) fits,
        length-flight_ids st.in_flight,
        length-links env.plan,
      ),
      λ e. omega (
        arith,
        all_done ls done (frontier st) valid.ranking g (links-IsClosed env.plan) fits
            (ap flight_ids e),
        length-links env.plan,
      ),
    )
