-- ===== src/Executor.antt =====
-- `execute_plan_streaming` of crates/node/src/planner/plan.rs: steps run as soon as what they wait for
-- is done, and finish in any order. The invocation of a capability, local or remote, is outside: a step
-- that is invoked may finish with any result. What the invocation writes to the call journal is part of
-- it. A step that fails before that finishes with the error that it was given.
pub mod Simulation
pub mod Runs
use Prim.Native.String.{◌++◌ as join}
use n3ur0n.Json
use n3ur0n.Prelude.{
  eqb, if◌then◌else◌, filter, Result, ok, err, ℕ, String, ◌≡◌, not, Option, none, some, List, [],
  ◌∷◌, ◌++◌, ◌==◌,
}
use n3ur0n.Catalog.{Catalog, find}
use n3ur0n.Handler.Stages.{refusal}
use n3ur0n.Json.{Value, text, object, end, field}
use n3ur0n.Plan.{PlanStep, Plan, links}
use n3ur0n.Plan.Board.{entry_of, with_entry, Blackboard}
use n3ur0n.Plan.Frontier.{ids}
use n3ur0n.Plan.Order.{index_from, edges_of, lowered, seed}
use n3ur0n.Plan.Resolution.{Render, resolve_value}
use n3ur0n.Plan.Templates.{first_unresolved_template}
use n3ur0n.Plan.Validation.{SchemaCheck, validate_args_against_schema, tool_of}

-- What the execution uses: the plan, the catalog, the schemas, the texts of values, and the fresh id of
-- each call.
pub record Setting : Type 0 where
  pub plan : Plan
  pub catalog : Catalog
  pub check : SchemaCheck
  pub render : Render
  pub call_id : String → String

pub record TraceEntry : Type 0 where
  pub call_id : String
  pub peer_id : String
  pub capability : String
  pub args : Value
  pub result : Option Value
  pub error : Option String

-- A future in `in_flight`: of a step that failed at once, or of an invocation.
pub record Flight : Type 0 where
  pub id : String
  pub instant : Option String

-- `DispatchEvent::StepDone`
pub record StepDone : Type 0 where
  pub id : String
  pub args : Value
  pub result : Option Value
  pub error : Option String

-- The variables of the loop over the completions. `hooked` is what `on_step_done` was called with.
pub record Running : Type 0 where
  pub in_flight : List Flight
  pub indeg : String → ℕ
  pub blackboard : Blackboard
  pub trace_by_id : List (String × TraceEntry)
  pub last_id : Option String
  pub events : List StepDone
  pub hooked : List (ℕ × TraceEntry)

-- `by_id.get(id)`
unfoldable pub by_id : Plan → String → Option PlanStep
by_id [] id = none
by_id (s ∷ plan) id = elim (by_id plan id) [
  | some later ↦ some later
  | none ↦ if s.id == id then some s else none
]

-- The messages of a step that fails before its invocation.
abbrev pub unresolved_message : String → String → String
unresolved_message id unresolved = join "step `" (
    join id (
      join "`: unresolved template `" (
        join unresolved
          "` (no expressions allowed in ${...}; use raw refs only, let the downstream tool combine values)")))

abbrev pub not_in_catalog_message : String → String
not_in_catalog_message tool = join "tool `" (join tool "` not in catalog")

abbrev pub resolved_args_message : String → String → String → String
resolved_args_message id tool e =
    join "step `"
      (join id (join "`: resolved args do not conform to `" (join tool (join "` schema_in: " e))))

module _ (env : Setting) where
  abbrev pub entry_for : PlanStep → String → Value → Option String → TraceEntry
  entry_for step peer args e = record {
    call_id = env.call_id step.id;
    peer_id = peer;
    capability = step.capability;
    args = args;
    result = none;
    error = e;
  }

  -- The entry of the trace, and the error that it fails with at once, if it does.
  unfoldable pub prepare : PlanStep → Value → TraceEntry × Option String
  prepare step args = elim (first_unresolved_template args) [
    | some unresolved ↦
        let e = unresolved_message step.id unresolved in
        (entry_for step step.peer args (some e), some e)
    | none ↦ elim (find env.catalog (tool_of step)) [
      | none ↦
          let e = not_in_catalog_message (tool_of step) in
          (entry_for step step.peer args (some e), some e)
      | some tool ↦ elim (validate_args_against_schema env.check args tool.cap.schema_in) [
        | some refusal ↦
            let e = resolved_args_message step.id (tool_of step) refusal in
            (entry_for step tool.peer_id args (some e), some e)
        | none ↦ (entry_for step tool.peer_id args none, none)
      ]
    ]
  ]

  abbrev pub launch : PlanStep → TraceEntry × Option String → Running → Running
  launch step (entry, instant) st = record {
    in_flight = st.in_flight ++ record { id = step.id; instant = instant } ∷ [];
    indeg = st.indeg;
    blackboard = st.blackboard;
    trace_by_id = with_entry step.id entry st.trace_by_id;
    last_id = st.last_id;
    events = st.events;
    hooked = st.hooked;
  }

  abbrev pub spawn_found : Option PlanStep → Running → Running
  spawn_found none st = st
  spawn_found (some step) st =
      launch step (prepare step (resolve_value env.render st.blackboard step.args)) st

  unfoldable pub spawn_step : Running → String → Running
  spawn_step st id = spawn_found (by_id env.plan id) st

  abbrev pub with_indeg : Running → (String → ℕ) → Running
  with_indeg st indeg = record {
    in_flight = st.in_flight;
    indeg = indeg;
    blackboard = st.blackboard;
    trace_by_id = st.trace_by_id;
    last_id = st.last_id;
    events = st.events;
    hooked = st.hooked;
  }

  -- The loop over the steps that wait for the one that is done.
  unfoldable pub free_steps : List String → Running → Running
  free_steps [] st = st
  free_steps (o ∷ os) st =
      let less = lowered st.indeg o in
      let freed = spawn_step (with_indeg st less) o in
      free_steps os (if eqb (less o) 0 then freed else with_indeg st less)

  unfoldable pub spawn_all : List String → Running → Running
  spawn_all [] st = st
  spawn_all (id ∷ ids) st = spawn_all ids (spawn_step st id)

  -- Before the first completion.
  unfoldable pub begin : Running
  begin =
      let first = seed (links env.plan) in
      spawn_all first.queue (record {
        in_flight = [];
        indeg = first.indeg;
        blackboard = [];
        trace_by_id = [];
        last_id = none;
        events = [];
        hooked = [];
      })

  abbrev pub finished : TraceEntry → Result String Value → TraceEntry
  finished t (ok v) = record {
    call_id = t.call_id;
    peer_id = t.peer_id;
    capability = t.capability;
    args = t.args;
    result = some v;
    error = t.error;
  }
  finished t (err e) = record {
    call_id = t.call_id;
    peer_id = t.peer_id;
    capability = t.capability;
    args = t.args;
    result = t.result;
    error = some e;
  }

  -- What the blackboard keeps of a result.
  abbrev pub board_value : Result String Value → Value
  board_value (ok v) = v
  board_value (err e) = object (field "error" (text e) end)

  abbrev pub last_of : String → Result String Value → Option String → Option String
  last_of id (ok v) last = some id
  last_of id (err e) last = last

  abbrev step_args : Option TraceEntry → Value
  step_args none = object end
  step_args (some t) = t.args

  abbrev pub done_event : String → Value → Result String Value → StepDone
  done_event id args (ok v) = record { id = id; args = args; result = some v; error = none }
  done_event id args (err e) = record { id = id; args = args; result = none; error = some e }

  abbrev traced :
      String
      → Option TraceEntry
      → Result String Value
      → List (String × TraceEntry)
      → List (String × TraceEntry)
  traced id none r es = es
  traced id (some t) r es = with_entry id (finished t r) es

  -- `on_step_done`, with the index in the plan and the entry.
  abbrev hook : Option ℕ → Option TraceEntry → List (ℕ × TraceEntry)
  hook (some i) (some t) = (i, t) ∷ []
  hook (some i) none = []
  hook none t = []

  -- A completion up to the freeing of other steps; `rest` is what stays in flight.
  unfoldable pub record_done : Running → String → Result String Value → List Flight → Running
  record_done st id r rest =
      let entry = entry_of st.trace_by_id id in
      let trace = traced id entry r st.trace_by_id in
      record {
        in_flight = rest;
        indeg = st.indeg;
        blackboard = with_entry id (board_value r) st.blackboard;
        trace_by_id = trace;
        last_id = last_of id r st.last_id;
        events = st.events ++ done_event id (step_args entry) r ∷ [];
        hooked = st.hooked ++ hook (index_from 0 (links env.plan) id) (entry_of trace id);
      }

  unfoldable pub complete : Running → String → Result String Value → List Flight → Running
  complete st id r rest = free_steps (edges_of (links env.plan) id) (record_done st id r rest)

  -- The trace in the order of the plan; `remove` leaves nothing for a second step of the same id.
  unfoldable pub trace_of : Plan → List (String × TraceEntry) → List TraceEntry
  trace_of [] es = []
  trace_of (s ∷ plan) es = elim (entry_of es s.id) [
    | some t ↦ t ∷ trace_of plan (filter (λ (e : String × TraceEntry). not (e.0 == s.id)) es)
    | none ↦ trace_of plan es
  ]

-- `struct PlanRun`
pub record PlanRun : Type 0 where
  pub blackboard : Blackboard
  pub last_step_id : Option String
  pub trace : List TraceEntry

unfoldable pub plan_run : Setting → Running → PlanRun
plan_run env st = record {
  blackboard = st.blackboard;
  last_step_id = st.last_id;
  trace = trace_of env env.plan st.trace_by_id;
}

-- What a future may give: its error if it failed at once, else anything.
abbrev pub IsResultOf : Flight → Result String Value → Type 0
IsResultOf f r = (e : String) → f.instant ≡ some e → r ≡ err e

-- The executions of a plan, with the steps that are done, in the order in which they finished: the next
-- to finish is any that is in flight.
pub data Run (env : Setting) : List String → Running → Type 0 where
  started : Run env [] (begin env)
  finishes :
      (done : List String) (st : Running) (f : Flight) (early late : List Flight)
      (r : Result String Value)
      → Run env done st
      → st.in_flight ≡ early ++ f ∷ late
      → IsResultOf f r
      → Run env (done ++ f.id ∷ []) (complete env st f.id r (early ++ late))
