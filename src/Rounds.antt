-- ===== src/Rounds.antt =====
-- The rounds of a dispatch in crates/node/src/planner/plan_exec.rs: whether a plan is run, whether another
-- round follows, and how the runs are put together. What the compiler answers, how long it took and
-- what a run gives are inputs.
pub mod Soundness
pub mod Budget
pub mod Continuing
use Prim.Native.String.{◌++◌ as join}
use n3ur0n.Prelude.{
  ltb, leb, eqb, if◌then◌else◌, length, all, any, ok, err, ℕ, zero, suc, ◌+◌, String, Bool, true,
  false, not, ◌&&◌, ◌||◌, Option, none, some, List, [], ◌∷◌, ◌++◌, map,
}
use n3ur0n.Catalog.{ToolDef, Catalog, find}
use n3ur0n.Executor.{TraceEntry, PlanRun}
use n3ur0n.Json.{Value}
use n3ur0n.Lobe.{contains}
use n3ur0n.Plan.{PlanStep, Plan, collect_refs}
use n3ur0n.Plan.Board.{entry_of, with_entry, is_entry, Blackboard}
use n3ur0n.Plan.Depth.{plan_depth}
use n3ur0n.Plan.Frontier.{after}
use n3ur0n.Plan.Resolution.{Render}
use n3ur0n.Plan.Validation.{ValidationError, Validated, SchemaCheck, tool_of, validate_plan}

abbrev pub compile_retry_limit : ℕ
compile_retry_limit = 1

abbrev pub max_plan_rounds : ℕ
max_plan_rounds = 2

abbrev pub continuation_depth_threshold : ℕ
continuation_depth_threshold = 3

abbrev pub max_total_steps : ℕ
max_total_steps = 12

abbrev pub dispatch_budget_secs : ℕ
dispatch_budget_secs = 300

pub data PlanOutcome : Type 0 where
  empty_plan : PlanOutcome
  valid_plan : Plan → PlanOutcome
  invalid_plan : ValidationError → PlanOutcome

-- The compiler, asked again with the error; it may fail.
abbrev pub Recompile : Type 0
Recompile = ValidationError → Option Plan

-- What becomes of an answer, given its validation; the last argument is what follows an error.
abbrev pub judged : Plan → Validated → (ValidationError → PlanOutcome) → PlanOutcome
judged plan (ok u) next = valid_plan plan
judged plan (err e) next = next e

abbrev pub retried :
    SchemaCheck
    → Catalog
    → ValidationError
    → Option Plan
    → (ValidationError → PlanOutcome)
    → PlanOutcome
retried check catalog last none next = invalid_plan last
retried check catalog last (some []) next = empty_plan
retried check catalog last (some (s ∷ plan)) next =
    judged (s ∷ plan) (validate_plan check catalog (s ∷ plan)) next

-- The loop over the attempts.
unfoldable pub attempts : SchemaCheck → Catalog → Recompile → ℕ → ValidationError → PlanOutcome
attempts check catalog recompile zero last = invalid_plan last
attempts check catalog recompile (suc n) last =
    retried check catalog last (recompile last) (attempts check catalog recompile n)

unfoldable pub resolve_plan : SchemaCheck → Catalog → Recompile → Plan → PlanOutcome
resolve_plan check catalog recompile [] = empty_plan
resolve_plan check catalog recompile (s ∷ plan) =
    judged (s ∷ plan) (validate_plan check catalog (s ∷ plan))
      (attempts check catalog recompile compile_retry_limit)

-- `serde_json::to_string` of the arguments is the renderer.
unfoldable pub invocation_fingerprint : Render → String → String → Value → String
invocation_fingerprint render peer_id capability args =
    join peer_id (join "::" (join capability (join "::" (render args))))

unfoldable pub executed_invocations : Render → List TraceEntry → List String
executed_invocations render trace =
    map (λ (e : TraceEntry). invocation_fingerprint render e.peer_id e.capability e.args) trace

abbrev pub repeats : Render → List String → PlanStep → Option ToolDef → Bool
repeats render already s none = false
repeats render already s (some tool) =
    contains already (invocation_fingerprint render tool.peer_id s.capability s.args)

unfoldable pub is_repeat : Render → List String → Catalog → PlanStep → Bool
is_repeat render already catalog s =
    eqb (length (collect_refs s.args)) 0 && repeats render already s (find catalog (tool_of s))

unfoldable pub adds_nothing : Render → Plan → List TraceEntry → Catalog → Bool
adds_nothing render next trace catalog =
    not (eqb (length trace) 0)
    && all (is_repeat render (executed_invocations render trace) catalog) next

pub data ContinuationReason : Type 0 where
  step_failed deep_plan : ContinuationReason

abbrev pub has_failed : TraceEntry → Bool
has_failed e = elim e.error [ none ↦ false | some m ↦ true ]

unfoldable pub continuation_reason : List TraceEntry → ℕ → ℕ → Option ContinuationReason
continuation_reason trace depth elapsed_secs =
    if leb max_total_steps (length trace) || leb dispatch_budget_secs elapsed_secs
    then none
    else if any has_failed trace
    then some step_failed
    else if leb continuation_depth_threshold depth
    then some deep_plan
    else none

-- `format!("{id}_r{n}")`, for the text of the number.
abbrev pub suffixed : String → String → String
suffixed id n = join id (join "_r" n)

-- The loop over the blackboard of the next run.
unfoldable pub merge_board : String → Blackboard → Blackboard → Blackboard
merge_board n board [] = board
merge_board n board ((id, v) ∷ next) =
    merge_board n (with_entry (if is_entry (entry_of board id) then suffixed id n else id) v board)
      next

abbrev pub or_last : Option String → Option String → Option String
or_last none earlier = earlier
or_last (some id) earlier = some id

unfoldable pub merge_runs : String → PlanRun → PlanRun → PlanRun
merge_runs n run next = record {
  blackboard = merge_board n run.blackboard next.blackboard;
  last_step_id = or_last next.last_step_id run.last_step_id;
  trace = run.trace ++ next.trace;
}

-- The variables of the loop over the rounds.
pub record Dispatch : Type 0 where
  pub run : PlanRun
  pub round : ℕ
  pub rounds_used : ℕ
  pub depth : ℕ

-- What one round meets: the seconds since the dispatch began, what the compiler answers at first and
-- when asked again, whether the plan could be journalled, and what a plan gives when it is run.
pub record RoundInput : Type 0 where
  pub elapsed : ℕ
  pub compiled : Option Plan
  pub recompile : Recompile
  pub journalled : Bool
  pub execute : Plan → Option PlanRun

-- What the rounds share: schemas, catalog, renderer, and the text of a number.
pub record Planner : Type 0 where
  pub check : SchemaCheck
  pub catalog : Catalog
  pub render : Render
  pub number : ℕ → String

abbrev pub compiled_once : Dispatch → Dispatch
compiled_once d = record {
  run = d.run;
  round = d.round;
  rounds_used = d.rounds_used + 1;
  depth = d.depth;
}

-- A round ends the loop with what there is, or goes on with more.
pub data Step : Type 0 where
  stop go_on : Dispatch → Step

abbrev pub merged : Planner → Dispatch → Plan → Option PlanRun → Step
merged p d next none = stop d
merged p d next (some run) = go_on (record {
  run = merge_runs (p.number (d.round + 1)) d.run run;
  round = d.round + 1;
  rounds_used = d.rounds_used;
  depth = plan_depth next;
})

abbrev pub run_next : Planner → RoundInput → Dispatch → PlanOutcome → Step
run_next p i d empty_plan = stop d
run_next p i d (invalid_plan e) = stop d
run_next p i d (valid_plan next) =
    if adds_nothing p.render next d.run.trace p.catalog || not i.journalled
    then stop d
    else merged p d next (i.execute next)

abbrev pub compile_next : Planner → RoundInput → Dispatch → Option Plan → Step
compile_next p i d none = stop d
compile_next p i d (some plan) = run_next p i d (resolve_plan p.check p.catalog i.recompile plan)

abbrev pub continue_with : Planner → RoundInput → Dispatch → Option ContinuationReason → Step
continue_with p i d none = stop d
continue_with p i d (some reason) = compile_next p i (compiled_once d) i.compiled

unfoldable pub next_round : Planner → RoundInput → Dispatch → Step
next_round p i d = continue_with p i d (continuation_reason d.run.trace d.depth i.elapsed)

abbrev pub after_step : Step → (Dispatch → Dispatch) → Dispatch
after_step (stop d) more = d
after_step (go_on d) more = more d

-- The loop over the rounds; a list of inputs is long enough where it has one for each round left.
unfoldable pub rounds : Planner → List RoundInput → Dispatch → Dispatch
rounds p [] d = d
rounds p (i ∷ is) d =
    let after = after_step (next_round p i d) (rounds p is) in
    if ltb d.round max_plan_rounds then after else d
