-- ===== src/Examples/Dispatching.antt =====
-- A dispatch whose second round goes past the number of steps that one dispatch is meant to run.
use n3ur0n.Json
use mathlib.Core.Path.{subst}
use n3ur0n.Prelude.{
  length, take, In, length-take, insert_sorted, sort, ok, ◌+◌, ◌≤◌, String, ◌≡◌, refl, ap, ◌∙◌, inl,
  inr, true, Option, none, some, List, [], ◌∷◌, arith,
}
use n3ur0n.Catalog.{short_peer, find_tool, find}
use n3ur0n.Examples.Plans.{tools, step, sample, allow}
use n3ur0n.Executor.{TraceEntry, PlanRun}
use n3ur0n.Json.{Value, null, text, lookup_field}
use n3ur0n.Lobe.{contains}
use n3ur0n.Plan.{
  Plan, dollar_ref, brace_ref, looks_like_step_id, keys_from, extract_template_keys, ids_of,
  collect_refs, refs_of_fields, collect_ref_keys, keys_of_fields, as_set, real_deps, links,
}
use n3ur0n.Plan.Board.{entry_of, with_entry}
use n3ur0n.Plan.Depth.{step_of, deepest_dep, depth_from, plan_depth}
use n3ur0n.Plan.Order.{
  indegree, outs, index_from, dedup, edges_of, release, kahn, topological_order,
}
use n3ur0n.Plan.Templates.{after_dollar, template_in, first_unresolved_template, template_of_fields}
use n3ur0n.Plan.Validation.{
  validate_args_against_schema, each, check_unique, check_args, schema_out_of, is_missing_field,
  check_key, validate_plan,
}
use n3ur0n.Rounds.{
  valid_plan, resolve_plan, invocation_fingerprint, executed_invocations, is_repeat, adds_nothing,
  continuation_reason, suffixed, merge_board, merge_runs, Dispatch, RoundInput, Planner, next_round,
  rounds,
}
use n3ur0n.Rounds.Budget.{IsFair, steps_of, rounds_bounded}
use n3ur0n.Rounds.Continuing.{IsDecided, rounds-IsDecided}
use n3ur0n.Rounds.Soundness.{resolve_plan_sound, merge_board_keeps}
use n3ur0n.Text.{
  split_at, split_on, strip_char, count_chars, all_chars, take_chars, strip_prefix, split_twice,
}

abbrev entry : Option String → TraceEntry
entry e = record {
  call_id = "call";
  peer_id = "n3:abc";
  capability = "lower";
  args = null;
  result = none;
  error = e;
}

abbrev eight : List TraceEntry
eight =
    entry (some "refused")
    ∷ entry none
    ∷ entry none
    ∷ entry none
    ∷ entry none
    ∷ entry none
    ∷ entry none
    ∷ entry none
    ∷ []

abbrev first_run : PlanRun
first_run = record { blackboard = []; last_step_id = none; trace = eight }

abbrev planner : Planner
planner = record { check = allow; catalog = tools; render = λ v. "value"; number = λ n. "2" }

abbrev eight_steps : Plan
eight_steps =
    step "a" ""
    ∷ step "b" ""
    ∷ step "c" ""
    ∷ step "d" ""
    ∷ step "e" ""
    ∷ step "f" ""
    ∷ step "g" ""
    ∷ step "h" ""
    ∷ []

abbrev second : RoundInput
second = record {
  elapsed = 10;
  compiled = some eight_steps;
  recompile = λ e. none;
  journalled = true;
  execute = λ plan.
      some (record { blackboard = []; last_step_id = none; trace = take (length plan) eight });
}

abbrev begun : Dispatch
begun = record { run = first_run; round = 1; rounds_used = 1; depth = 1 }

past_the_budget : steps_of (rounds planner (second ∷ []) begun) ≡ 16
unfolding topological_order kahn links real_deps collect_refs refs_of_fields extract_template_keys
    keys_from ids_of as_set contains dollar_ref brace_ref count_chars split_at split_on release
    edges_of dedup index_from outs looks_like_step_id insert_sorted sort all_chars indegree
    validate_plan check_unique each check_args find find_tool short_peer split_twice strip_char
    take_chars strip_prefix first_unresolved_template template_of_fields template_in after_dollar
    validate_args_against_schema is_missing_field schema_out_of Json.get lookup_field check_key
    collect_ref_keys keys_of_fields rounds next_round continuation_reason resolve_plan adds_nothing
    executed_invocations is_repeat invocation_fingerprint merge_runs merge_board plan_depth
    depth_from step_of deepest_dep entry_of with_entry
past_the_budget = refl

second-IsFair : IsFair (second ∷ [])
second-IsFair i m plan run = elim m [
  | inl e ↦
      subst (λ (j : RoundInput). j.execute plan ≡ some run → length run.trace ≤ length plan) e
        (λ h.
          let same : record {
            blackboard = [];
            last_step_id = none;
            trace = take (length plan) eight;
          }
              ≡ run =
            cc h in
          omega (arith, ap (λ (r : PlanRun). length r.trace) same, length-take (length plan) eight))
  | inr none_left ↦ elim none_left [ ]
]

rounds_bounded_example :
    (steps_of (rounds planner (second ∷ []) begun) ≤ 8 + 8)
    × ((rounds planner (second ∷ []) begun).round ≤ 2)
rounds_bounded_example = rounds_bounded planner (second ∷ []) begun second-IsFair (omega arith)

resolve_plan_sound_example :
    (resolve_plan allow tools (λ e. none) sample ≡ valid_plan sample
      → validate_plan allow tools sample ≡ ok tt)
    × (validate_plan allow tools sample ≡ ok tt
        → resolve_plan allow tools (λ e. none) sample ≡ valid_plan sample)
resolve_plan_sound_example = resolve_plan_sound allow tools (λ e. none) sample sample

rounds-IsDecided_example : IsDecided planner second [] begun (rounds planner (second ∷ []) begun)
rounds-IsDecided_example = rounds-IsDecided planner second [] begun

apart :
    (id : String) (v : Value)
    → In {A = String × Value} (id, v) (("s1", text "again") ∷ [])
    → ¬ (suffixed id "2" ≡ "s1")
apart id v m e = elim m [
  | inl same ↦
      let clash : ◌≡◌ {A = String} "s1_r2" "s1" =
        ap (λ (q : String × Value). suffixed q.0 "2") same ∙ e in
      cc clash
  | inr none_left ↦ elim none_left [ ]
]

merge_board_keeps_example :
    entry_of (merge_board "2" (("s1", null) ∷ []) (("s1", text "again") ∷ [])) "s1" ≡ some null
unfolding entry_of
merge_board_keeps_example =
    merge_board_keeps "2" (("s1", null) ∷ []) (("s1", text "again") ∷ []) "s1" refl apart

-- A step of the second round takes the place of one of the first, where that has the suffixed id.
overwritten :
    entry_of
      (merge_board "2" (("s1", null) ∷ ("s1_r2", text "first") ∷ []) (("s1", text "again") ∷ []))
      "s1_r2"
    ≡ some (text "again")
unfolding merge_board entry_of with_entry
overwritten = refl
