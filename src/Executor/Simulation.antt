-- ===== src/Executor/Simulation.antt =====
-- `execute_plan_streaming` of crates/node/src/planner/plan.rs goes through the frontiers of the graph:
-- what is in flight there is the queue here.
use mathlib.Core.List.{append_assoc, append-nil}
use mathlib.Core.Path.{subst}
use n3ur0n.Prelude.{
  eqb, if◌then◌else◌, Bool-cases, Option-cases, In, Result, ℕ, ◌+◌, String, ◌≡◌, refl, sym, ap, ◌∙◌,
  inl, inr, Bool, true, false, some, List, [], ◌∷◌, ◌++◌, map, arith, ◌==◌, eq_iff,
}
use n3ur0n.Executor.{
  Setting, Flight, Running, by_id, spawn_found, spawn_step, with_indeg, free_steps, spawn_all,
  begin, record_done, complete, Run, started, finishes,
}
use n3ur0n.Json.{Value}
use n3ur0n.Plan.{PlanStep, Plan, plan_ids, links}
use n3ur0n.Plan.Counting.{occurs, IsUnique, occurs-append, occurs-In}
use n3ur0n.Plan.Frontier.{ids, missing, edges_of-occurs, after}
use n3ur0n.Plan.Order.{edges_of, Frontier, lowered, release, seed}
use n3ur0n.Plan.Schedule.{Reached, seeded, take_step}
use n3ur0n.Plan.Seed.{ids-links, links-IsGraph, seed-IsFrontier}

abbrev pub flight_ids : List Flight → List String
flight_ids fs = map (λ (f : Flight). f.id) fs

abbrev pub frontier : Running → Frontier
frontier st = record { queue = flight_ids st.in_flight; indeg = st.indeg }

by_id_sound : (plan : Plan) (id : String) (s : PlanStep) → by_id plan id ≡ some s → s.id ≡ id
unfolding by_id
by_id_sound [] id s h = absurd (cc h)
by_id_sound (x ∷ plan) id s h = elim (Option-cases (by_id plan id)) [
  | inl missing ↦ elim (Bool-cases (x.id == id)) [
    | inl same ↦
        let e : x ≡ s = ground (arith, h, missing, same) in
        ap (λ (z : PlanStep). z.id) (sym e) ∙ (eq_iff x.id id).0 same
    | inr other ↦ absurd (ground (arith, h, missing, other))
  ]
  | inr (later, found) ↦
      let e : later ≡ s = ground (arith, h, found) in by_id_sound plan id s (found ∙ ap some e)
]

pub by_id_found :
    (plan : Plan) (id : String)
    → In id (plan_ids plan)
    → (s : PlanStep) × (by_id plan id ≡ some s) × (s.id ≡ id)
unfolding by_id
by_id_found [] id m = elim m [ ]
by_id_found (s ∷ plan) id m = elim m [
  | inl here ↦ elim (Option-cases (by_id plan id)) [
    | inl missing ↦ (s, ground (arith, missing, (eq_iff s.id id).1 here), here)
    | inr (later, found) ↦ (later, ground (arith, found), by_id_sound plan id later found)
  ]
  | inr there ↦
      let (later, found, same) = by_id_found plan id there in (later, ground (arith, found), same)
]

flight_ids-append : (xs ys : List Flight) → flight_ids (xs ++ ys) ≡ flight_ids xs ++ flight_ids ys
flight_ids-append [] ys = refl
flight_ids-append (x ∷ xs) ys = ap (λ zs. x.id ∷ zs) (flight_ids-append xs ys)

flight_counts :
    (f : Flight) (early late : List Flight) (x : String)
    → occurs x (flight_ids (early ++ f ∷ late))
      ≡ (if f.id == x then 1 else 0) + occurs x (flight_ids (early ++ late))
unfolding occurs
flight_counts f early late x = omega (
  arith,
  ap (occurs x) (flight_ids-append early (f ∷ late)),
  occurs-append x (flight_ids early) (f.id ∷ flight_ids late),
  ap (occurs x) (flight_ids-append early late),
  occurs-append x (flight_ids early) (flight_ids late),
)

module _ (env : Setting) where
  spawned :
      (st : Running) (id : String)
      → In id (plan_ids env.plan)
      → frontier (spawn_step env st id)
        ≡ record { queue = flight_ids st.in_flight ++ id ∷ []; indeg = st.indeg }
  unfolding spawn_step
  spawned st id m =
      let (s, found, same) = by_id_found env.plan id m in
      ap (λ found. frontier (spawn_found env found st)) found
      ∙ ap (λ q. record { queue = q; indeg = st.indeg })
          (flight_ids-append st.in_flight _ ∙ ap (λ x. flight_ids st.in_flight ++ x ∷ []) same)

  freed_once :
      (b : Bool) (st : Running) (less : String → ℕ) (o : String)
      → In o (plan_ids env.plan)
      → frontier (if b then spawn_step env (with_indeg env st less) o else with_indeg env st less)
        ≡ record {
          queue = (if b then flight_ids st.in_flight ++ o ∷ [] else flight_ids st.in_flight);
          indeg = less;
        }
  freed_once true st less o m = spawned (with_indeg env st less) o m
  freed_once false st less o m = refl

  pub free_steps-frontier :
      (os : List String) (st : Running)
      → ((x : String) → In x os → In x (plan_ids env.plan))
      → frontier (free_steps env os st) ≡ release os (frontier st)
  unfolding free_steps release
  free_steps-frontier [] st known = refl
  free_steps-frontier (o ∷ os) st known =
      let less = lowered st.indeg o in
      let b = eqb (less o) 0 in
      free_steps-frontier os
        (if b then spawn_step env (with_indeg env st less) o else with_indeg env st less)
        (λ x m. known x (inr m))
      ∙ ap (release os) (freed_once b st less o (known o (inl refl)))

  spawn_all-frontier :
      (os : List String) (st : Running)
      → ((x : String) → In x os → In x (plan_ids env.plan))
      → frontier (spawn_all env os st)
        ≡ record { queue = flight_ids st.in_flight ++ os; indeg = st.indeg }
  unfolding spawn_all
  spawn_all-frontier [] st known =
      ap (λ q. record { queue = q; indeg = st.indeg }) (sym (append-nil (flight_ids st.in_flight)))
  spawn_all-frontier (o ∷ os) st known =
      let one = spawned st o (known o (inl refl)) in
      spawn_all-frontier os (spawn_step env st o) (λ x m. known x (inr m))
      ∙ ap (λ (fr : Frontier). record { queue = fr.queue ++ os; indeg = fr.indeg }) one
      ∙ ap (λ q. record { queue = q; indeg = st.indeg })
          (append_assoc (flight_ids st.in_flight) (o ∷ []) os)

  begin-frontier : IsUnique (plan_ids env.plan) → frontier (begin env) ≡ seed (links env.plan)
  unfolding begin
  begin-frontier u =
      let first = seed (links env.plan) in
      let fits = seed-IsFrontier (links env.plan) (links-IsGraph env.plan u) in
      spawn_all-frontier first.queue _ (λ x m.
        subst (In x) (ids-links env.plan)
          (fits.known x (omega (arith, (occurs-In x first.queue).1 m))))

  record_done-frontier :
      (st : Running) (id : String) (r : Result String Value) (rest : List Flight)
      → frontier (record_done env st id r rest)
        ≡ record { queue = flight_ids rest; indeg = st.indeg }
  unfolding record_done
  record_done-frontier st id r rest = refl

  complete-frontier :
      (st : Running) (id : String) (r : Result String Value) (rest : List Flight)
      → IsUnique (plan_ids env.plan)
      → frontier (complete env st id r rest)
        ≡ after (links env.plan) (frontier st) id (flight_ids rest)
  unfolding complete
  complete-frontier st id r rest u =
      let ls = links env.plan in
      free_steps-frontier (edges_of ls id) (record_done env st id r rest) (λ x m.
        subst (In x) (ids-links env.plan) (
          (occurs-In x (ids ls)).0 (
            omega (
              arith,
              (edges_of-occurs ls id (links-IsGraph env.plan u)).1 x,
              (occurs-In x (edges_of ls id)).1 m,
            ))))
      ∙ ap (release (edges_of ls id)) (record_done-frontier st id r rest)

  -- An execution of a plan with different step ids takes the steps one by one, each from a queue of the
  -- steps that wait for nothing more.
  pub Run-Reached :
      (done : List String) (st : Running)
      → IsUnique (plan_ids env.plan)
      → Run env done st
      → Reached (links env.plan) done (frontier st)
  unfolding occurs
  Run-Reached _ _ u started = subst (Reached (links env.plan) []) (sym (begin-frontier u)) seeded
  Run-Reached _ _ u (finishes done st f early late r before split result) =
      subst (Reached (links env.plan) (done ++ f.id ∷ []))
        (sym (complete-frontier st f.id r (early ++ late) u))
        (take_step done (frontier st) f.id (flight_ids (early ++ late))
          (Run-Reached done st u before)
          (λ x. ap (λ fs. occurs x (flight_ids fs)) split ∙ flight_counts f early late x))
