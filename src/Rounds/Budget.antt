-- ===== src/Rounds/Budget.antt =====
-- How much a dispatch of crates/node/src/planner/plan_exec.rs runs at most.
use n3ur0n.Prelude.{
  ltb, Bool-cases, Option-cases, length, filter, length-append, In, ℕ, ◌+◌, ◌-◌, ◌*◌, ◌≤◌, ◌<◌,
  String, ◌≡◌, refl, inl, inr, not, ◌||◌, Option, none, some, List, [], ◌∷◌, arith, ◌==◌,
}
use n3ur0n.Catalog.{Catalog}
use n3ur0n.Executor.{Setting, TraceEntry, trace_of, PlanRun}
use n3ur0n.Plan.{Plan, max_plan_steps}
use n3ur0n.Plan.Board.{entry_of}
use n3ur0n.Plan.Frontier.{missing}
use n3ur0n.Plan.Validation.{SchemaCheck}
use n3ur0n.Plan.Validity.{validate_plan_iff}
use n3ur0n.Rounds.{
  max_plan_rounds, PlanOutcome, empty_plan, valid_plan, invalid_plan, Recompile, resolve_plan,
  adds_nothing, ContinuationReason, continuation_reason, merge_runs, Dispatch, RoundInput, Planner,
  compiled_once, Step, stop, go_on, merged, run_next, compile_next, continue_with, next_round,
  after_step, rounds,
}
use n3ur0n.Rounds.Soundness.{resolve_plan_sound}

-- Every run has at most an entry for each step of its plan.
abbrev pub IsFair : List RoundInput → Type 0
IsFair is =
    (i : RoundInput)
    → In i is
    → (plan : Plan) (run : PlanRun) → i.execute plan ≡ some run
    → length run.trace ≤ length plan

abbrev pub steps_of : Dispatch → ℕ
steps_of d = length d.run.trace

-- What a round may add.
abbrev IsWithin : Dispatch → Step → Type 0
IsWithin d (stop e) = (steps_of e ≡ steps_of d) × (e.round ≡ d.round)
IsWithin d (go_on e) = (steps_of e ≤ steps_of d + max_plan_steps) × (e.round ≡ d.round + 1)

merged-IsWithin :
    (p : Planner) (d : Dispatch) (next : Plan) (out : Option PlanRun)
    → length next ≤ max_plan_steps
    → ((run : PlanRun) → out ≡ some run → length run.trace ≤ length next)
    → IsWithin d (merged p d next out)
unfolding merge_runs
merged-IsWithin p d next none few fair = (refl, refl)
merged-IsWithin p d next (some run) few fair =
    (omega (arith, few, fair run refl, length-append d.run.trace run.trace), refl)

run_next-IsWithin :
    (p : Planner) (i : RoundInput) (d : Dispatch) (outcome : PlanOutcome)
    → ((plan : Plan) → outcome ≡ valid_plan plan → length plan ≤ max_plan_steps)
    → ((plan : Plan) (run : PlanRun) → i.execute plan ≡ some run → length run.trace ≤ length plan)
    → IsWithin d (run_next p i d outcome)
run_next-IsWithin p i d empty_plan few fair = (refl, refl)
run_next-IsWithin p i d (invalid_plan e) few fair = (refl, refl)
run_next-IsWithin p i d (valid_plan next) few fair =
    elim (Bool-cases (adds_nothing p.render next d.run.trace p.catalog || not i.journalled)) [
      | inl ends ↦ rw ends (refl, refl)
      | inr runs ↦ rw runs (merged-IsWithin p d next (i.execute next) (few next refl) (fair next))
    ]

few_steps_of :
    (check : SchemaCheck) (catalog : Catalog) (recompile : Recompile) (plan p : Plan)
    → resolve_plan check catalog recompile plan ≡ valid_plan p
    → length p ≤ max_plan_steps
few_steps_of check catalog recompile plan p h =
    ((validate_plan_iff check catalog p).0
      ((resolve_plan_sound check catalog recompile plan p).0 h)).few_steps

compile_next-IsWithin :
    (p : Planner) (i : RoundInput) (d : Dispatch) (answer : Option Plan)
    → ((plan : Plan) (run : PlanRun) → i.execute plan ≡ some run → length run.trace ≤ length plan)
    → IsWithin d (compile_next p i d answer)
compile_next-IsWithin p i d none fair = (refl, refl)
compile_next-IsWithin p i d (some plan) fair =
    run_next-IsWithin p i d (resolve_plan p.check p.catalog i.recompile plan)
      (few_steps_of p.check p.catalog i.recompile plan) fair

continue_with-IsWithin :
    (p : Planner) (i : RoundInput) (d : Dispatch) (reason : Option ContinuationReason)
    → ((plan : Plan) (run : PlanRun) → i.execute plan ≡ some run → length run.trace ≤ length plan)
    → IsWithin d (continue_with p i d reason)
continue_with-IsWithin p i d none fair = (refl, refl)
continue_with-IsWithin p i d (some reason) fair =
    compile_next-IsWithin p i (compiled_once d) i.compiled fair

after_step-bounded :
    (p : Planner) (is : List RoundInput) (d : Dispatch) (step : Step)
    → IsWithin d step
    → d.round < max_plan_rounds
    → ((e : Dispatch)
        → e.round ≤ max_plan_rounds
        → (steps_of (rounds p is e) ≤ steps_of e + (max_plan_rounds - e.round) * max_plan_steps)
          × ((rounds p is e).round ≤ max_plan_rounds))
    → (steps_of (after_step step (rounds p is))
        ≤ steps_of d + (max_plan_rounds - d.round) * max_plan_steps)
      × ((after_step step (rounds p is)).round ≤ max_plan_rounds)
after_step-bounded p is d (stop e) within left ih =
    (omega (arith, within, left), omega (arith, within, left))
after_step-bounded p is d (go_on e) within left ih =
    let later = ih e (omega (arith, within.1, left)) in
    (omega (arith, within, left, later.0), later.1)

-- From any state of the loop over the rounds, where each run has at most an entry for each step of its
-- plan, no more than two rounds are run, and each round that is left adds at most eight steps.
pub rounds_bounded :
    (p : Planner) (is : List RoundInput) (d : Dispatch)
    → IsFair is
    → d.round ≤ max_plan_rounds
    → (steps_of (rounds p is d) ≤ steps_of d + (max_plan_rounds - d.round) * max_plan_steps)
      × ((rounds p is d).round ≤ max_plan_rounds)
unfolding rounds next_round
rounds_bounded p [] d fair le = (omega arith, le)
rounds_bounded p (i ∷ is) d fair le = elim (Bool-cases (ltb d.round max_plan_rounds)) [
  | inl left ↦ rw left (
      after_step-bounded p is d
        (continue_with p i d (continuation_reason d.run.trace d.depth i.elapsed))
        (continue_with-IsWithin p i d (continuation_reason d.run.trace d.depth i.elapsed)
          (fair i (inl refl)))
        (ground (arith, left)) (λ e le'. rounds_bounded p is e (λ j m. fair j (inr m)) le'))
  | inr over ↦ rw over (omega arith, le)
]

-- The trace of a run has at most an entry for each step of its plan.
pub length-trace_of :
    (env : Setting) (plan : Plan) (es : List (String × TraceEntry))
    → length (trace_of env plan es) ≤ length plan
unfolding trace_of
length-trace_of env [] es = omega arith
length-trace_of env (s ∷ plan) es = elim (Option-cases (entry_of es s.id)) [
  | inl missing ↦ ground (arith, missing, length-trace_of env plan es)
  | inr (t, found) ↦ ground (
    arith,
    found,
    length-trace_of env plan (filter (λ (e : String × TraceEntry). not (e.0 == s.id)) es),
  )
]
