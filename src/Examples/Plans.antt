-- ===== src/Examples/Plans.antt =====
-- A plan of two steps, of which the first in the plan waits for the other, and its execution.
use n3ur0n.Storage.Peers
use n3ur0n.Json
use n3ur0n.Storage
use n3ur0n.Prelude.{
  length, In, insert_sorted, sort, ok, err, ◌+◌, ◌≤◌, String, ◌≡◌, refl, ◌↔◌, ◌⊎◌, inl, true, none,
  some, List, [], ◌∷◌, ◌++◌,
}
use n3ur0n.Capability.{free, default_cap_version}
use n3ur0n.Catalog.{
  ToolDef, Catalog, short_peer, tool_name, find_tool, find, is_offered, ReadDecls, remote_tools,
  local_tools, build,
}
use n3ur0n.Catalog.Filtering.{IsRemote, IsOwn, build_exact}
use n3ur0n.Catalog.Lookup.{find-tool_name}
use n3ur0n.Executor.{
  Setting, Flight, Running, by_id, prepare, spawn_step, free_steps, spawn_all, begin, record_done,
  complete, Run, started, finishes,
}
use n3ur0n.Executor.Runs.{Run-waits, Run-ended, Run-completes}
use n3ur0n.Executor.Simulation.{flight_ids, frontier, Run-Reached}
use n3ur0n.Json.{null, text, object, end, field, lookup_field}
use n3ur0n.Lobe.{contains}
use n3ur0n.Plan.{
  PlanStep, Plan, dollar_ref, brace_ref, looks_like_step_id, keys_from, extract_template_keys,
  ids_of, collect_refs, refs_of_fields, collect_ref_keys, keys_of_fields, as_set, plan_ids,
  real_deps, links,
}
use n3ur0n.Plan.Acyclic.{Ranking}
use n3ur0n.Plan.Board.{entry_of, with_entry, is_entry, walk, lookup_path}
use n3ur0n.Plan.Counting.{occurs, IsUnique}
use n3ur0n.Plan.Order.{
  indegree, outs, index_from, dedup, edges_of, Frontier, release, kahn, topological_order,
}
use n3ur0n.Plan.Resolution.{
  whole_template, substitute_from, substitute_inline, resolve_value, resolve_fields,
}
use n3ur0n.Plan.Schedule.{Reached}
use n3ur0n.Plan.Templates.{after_dollar, template_in, first_unresolved_template, template_of_fields}
use n3ur0n.Plan.Topological.{
  topological_order_ends, topological_order_sound, topological_order_complete,
}
use n3ur0n.Plan.Validation.{
  SchemaCheck, validate_args_against_schema, each, check_unique, check_args, schema_out_of,
  is_missing_field, check_key, validate_plan,
}
use n3ur0n.Plan.Validity.{IsValidPlan, validate_plan_iff}
use n3ur0n.Registry.{CapabilityRegistry, from_decls}
use n3ur0n.Storage.Peers.{PeerRecord}
use n3ur0n.Text.{
  is_whitespace, split_at, split_on, trim_start, trim_end_matches, trim, has_char, strip_char,
  strip_last, count_chars, all_chars, take_chars, strip_prefix, split_twice,
}

abbrev pub tool : ToolDef
tool = record {
  peer_id = "n3:abc";
  peer_endpoint = none;
  cap = record {
    name = "upper";
    description = "";
    schema_in = object end;
    schema_out = object end;
    mode = free;
    pricing = none;
    tags = [];
    lobe_ids = "text" ∷ [];
    examples = record { user_intent = ""; args = null; expected_output = null } ∷ [];
    disambiguation = none;
    negative_examples = [];
    output_semantic = none;
    version = default_cap_version;
    languages = [];
    countries = [];
  };
}

abbrev pub tools : Catalog
tools = tool ∷ []

abbrev pub step : String → String → PlanStep
step id words = record {
  id = id;
  peer = "abc";
  capability = "upper";
  args = object (field "text" (text words) end);
  depends_on = [];
}

abbrev pub sample : Plan
sample = step "s2" "again ${s1.v}" ∷ step "s1" "once" ∷ []

abbrev pub allow : SchemaCheck
allow schema value = none

abbrev pub setting : Setting
setting = record {
  plan = sample;
  catalog = tools;
  check = allow;
  render = λ v. "value";
  call_id = λ id. "call";
}

pub sample_accepted : validate_plan allow tools sample ≡ ok tt
unfolding topological_order kahn links real_deps collect_refs refs_of_fields extract_template_keys
    keys_from ids_of as_set contains dollar_ref brace_ref count_chars split_at split_on release
    edges_of dedup index_from outs looks_like_step_id insert_sorted sort all_chars indegree
    validate_plan check_unique each check_args find find_tool short_peer split_twice strip_char
    take_chars strip_prefix first_unresolved_template template_of_fields template_in after_dollar
    validate_args_against_schema is_missing_field schema_out_of Json.get lookup_field check_key
    collect_ref_keys keys_of_fields
sample_accepted = refl

sample_valid : IsValidPlan allow tools sample
sample_valid = (validate_plan_iff allow tools sample).0 sample_accepted

sample_order : topological_order sample ≡ "s1" ∷ "s2" ∷ []
unfolding topological_order kahn links real_deps collect_refs refs_of_fields extract_template_keys
    keys_from ids_of as_set contains dollar_ref brace_ref count_chars split_at split_on release
    edges_of dedup index_from outs looks_like_step_id insert_sorted sort all_chars indegree
sample_order = refl

-- Before the first completion only `s1` is in flight; then only `s2`; then nothing.
abbrev in_air : String → Flight
in_air id = record { id = id; instant = none }

abbrev after_one : Running
after_one = complete setting (begin setting) "s1" (ok (object (field "v" (text "one") end))) []

abbrev after_two : Running
after_two = complete setting after_one "s2" (err "refused") []

first_flight : (begin setting).in_flight ≡ in_air "s1" ∷ []
unfolding topological_order kahn links real_deps collect_refs refs_of_fields extract_template_keys
    keys_from ids_of as_set contains dollar_ref brace_ref count_chars split_at split_on release
    edges_of dedup index_from outs looks_like_step_id insert_sorted sort all_chars indegree begin
    spawn_all spawn_step by_id prepare resolve_value resolve_fields whole_template trim trim_start
    trim_end_matches is_whitespace strip_prefix strip_char strip_last has_char substitute_inline
    substitute_from lookup_path entry_of walk find find_tool short_peer split_twice take_chars
    first_unresolved_template template_of_fields template_in after_dollar
    validate_args_against_schema with_entry complete record_done free_steps lookup_field
first_flight = refl

second_flight : after_one.in_flight ≡ in_air "s2" ∷ []
unfolding topological_order kahn links real_deps collect_refs refs_of_fields extract_template_keys
    keys_from ids_of as_set contains dollar_ref brace_ref count_chars split_at split_on release
    edges_of dedup index_from outs looks_like_step_id insert_sorted sort all_chars indegree begin
    spawn_all spawn_step by_id prepare resolve_value resolve_fields whole_template trim trim_start
    trim_end_matches is_whitespace strip_prefix strip_char strip_last has_char substitute_inline
    substitute_from lookup_path entry_of walk find find_tool short_peer split_twice take_chars
    first_unresolved_template template_of_fields template_in after_dollar
    validate_args_against_schema with_entry complete record_done free_steps lookup_field
second_flight = refl

no_flight : after_two.in_flight ≡ []
unfolding topological_order kahn links real_deps collect_refs refs_of_fields extract_template_keys
    keys_from ids_of as_set contains dollar_ref brace_ref count_chars split_at split_on release
    edges_of dedup index_from outs looks_like_step_id insert_sorted sort all_chars indegree begin
    spawn_all spawn_step by_id prepare resolve_value resolve_fields whole_template trim trim_start
    trim_end_matches is_whitespace strip_prefix strip_char strip_last has_char substitute_inline
    substitute_from lookup_path entry_of walk find find_tool short_peer split_twice take_chars
    first_unresolved_template template_of_fields template_in after_dollar
    validate_args_against_schema with_entry complete record_done free_steps lookup_field
no_flight = refl

after_one-Run : Run setting ("s1" ∷ []) after_one
after_one-Run =
    finishes [] (begin setting) (in_air "s1") [] [] (ok (object (field "v" (text "one") end)))
      started first_flight (λ e h. absurd (cc h))

after_two-Run : Run setting ("s1" ∷ "s2" ∷ []) after_two
after_two-Run =
    finishes ("s1" ∷ []) after_one (in_air "s2") [] [] (err "refused") after_one-Run second_flight
      (λ e h. absurd (cc h))

validate_plan_iff_example :
    (validate_plan allow tools sample ≡ ok tt) ↔ IsValidPlan allow tools sample
validate_plan_iff_example = validate_plan_iff allow tools sample

topological_order_ends_example :
    (fr : Frontier) × Reached (links sample) (topological_order sample) fr × (fr.queue ≡ [])
topological_order_ends_example = topological_order_ends sample sample_valid.unique

topological_order_sound_example :
    IsUnique (topological_order sample)
    × ((x : String) → In x (topological_order sample) → In x (plan_ids sample))
    × ((early late : List String) (s : PlanStep) (d : String)
        → topological_order sample ≡ early ++ s.id ∷ late
        → In s sample
        → In d (real_deps sample s)
        → In d early)
topological_order_sound_example = topological_order_sound sample sample_valid.unique

topological_order_complete_example :
    (length (topological_order sample) ≡ length sample) ↔ Ranking (links sample)
topological_order_complete_example = topological_order_complete sample sample_valid.unique

Run-Reached_example : Reached (links sample) ("s1" ∷ "s2" ∷ []) (frontier after_two)
Run-Reached_example =
    Run-Reached setting ("s1" ∷ "s2" ∷ []) after_two sample_valid.unique after_two-Run

Run-waits_example :
    ((x : String) → occurs x ("s1" ∷ []) + occurs x (flight_ids after_one.in_flight) ≤ 1)
    × ((s : PlanStep) (d : String)
        → In s sample
        → In s.id (flight_ids after_one.in_flight)
        → In d (real_deps sample s)
        → is_entry (entry_of after_one.blackboard d) ≡ true)
Run-waits_example = Run-waits setting ("s1" ∷ []) after_one sample_valid.unique after_one-Run

Run-ended_example : occurs "s2" ("s1" ∷ "s2" ∷ []) ≡ occurs "s2" (topological_order sample)
Run-ended_example =
    Run-ended setting ("s1" ∷ "s2" ∷ []) after_two sample_valid.unique after_two-Run no_flight "s2"

Run-completes_example :
    (2 + length after_two.in_flight ≤ length sample)
    × (after_two.in_flight ≡ [] → length {A = String} ("s1" ∷ "s2" ∷ []) ≡ length sample)
Run-completes_example =
    Run-completes setting ("s1" ∷ "s2" ∷ []) after_two sample_accepted after_two-Run

find-tool_name_example :
    (x : ToolDef) × (find tools (tool_name tool) ≡ some x)
    × In x tools
    × (short_peer x.peer_id ≡ short_peer "n3:abc")
    × (x.cap.name ≡ "upper")
unfolding short_peer strip_prefix strip_char take_chars has_char
find-tool_name_example = find-tool_name tools tool (inl refl) refl

abbrev known_peer : PeerRecord
known_peer = record {
  id = "n3:peer";
  endpoint = "http://peer";
  alias = none;
  last_seen = some 1;
  tls_fingerprint = none;
  describe_self_cached = some "cached";
  describe_self_fetched_at = none;
  source = none;
}

abbrev readable : ReadDecls
readable raw = some tool.cap ∷ none ∷ []

abbrev own_registry : CapabilityRegistry
own_registry = from_decls (tool.cap ∷ [])

abbrev whole_catalog : Catalog
whole_catalog = local_tools "n3:self" own_registry ++ remote_tools readable (known_peer ∷ [])

build_exact_example :
    (records : List PeerRecord) × (Storage.Peers.list none (known_peer ∷ []) 10 ≡ ok records)
    × ((t : ToolDef)
        → In t whole_catalog ↔ (
            (is_offered t.cap ≡ true)
            × (IsOwn "n3:self" own_registry t ⊎ IsRemote readable records t)))
unfolding build Storage.Peers.list sort insert_sorted
build_exact_example =
    build_exact readable none "n3:self" own_registry (known_peer ∷ []) 10 whole_catalog refl

-- Inside braces that are not a reference, `${..}` is replaced, but it is not counted as a dependency.
abbrev quoted : String
quoted = "{\"k\": \"${s1.v}\"}"

missed_reference : collect_refs (text quoted) ≡ []
unfolding collect_refs extract_template_keys keys_from ids_of dollar_ref brace_ref count_chars
    split_at split_on looks_like_step_id all_chars
missed_reference = refl

replaced_reference :
    resolve_value (λ v. "value") (("s1", object (field "v" (text "one") end)) ∷ []) (text quoted)
    ≡ text "{\"k\": \"one\"}"
unfolding resolve_value whole_template trim trim_start trim_end_matches is_whitespace strip_prefix
    strip_char strip_last has_char substitute_inline substitute_from lookup_path entry_of walk
    lookup_field dollar_ref brace_ref count_chars split_at split_on
replaced_reference = refl
