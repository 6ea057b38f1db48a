-- ===== src/Plan/Validity.antt =====
-- What `validate_plan` of crates/node/src/planner/plan.rs accepts.
use mathlib.Core.Path.{subst}
use n3ur0n.Prelude.{
  ltb, eqb, Option-cases, length, In, ok, ◌>>◌, refuse_if, ◌≤◌, String, ◌≡◌, refl, ◌↔◌, inl, inr,
  false, not, Option, none, some, [], arith, ◌==◌, eq_iff,
}
use n3ur0n.Catalog.{ToolDef, Catalog, find}
use n3ur0n.Lobe.{contains}
use n3ur0n.Plan.{PlanStep, Plan, max_plan_steps, head_of, collect_ref_keys, plan_ids, links}
use n3ur0n.Plan.Acyclic.{Ranking}
use n3ur0n.Plan.Checks.{
  then_ok, refuse_if_ok, each_ok, check_unique_ok, no_text, known_iff, differs, stages_ok,
}
use n3ur0n.Plan.Counting.{IsUnique}
use n3ur0n.Plan.Order.{topological_order}
use n3ur0n.Plan.Templates.{first_unresolved_template}
use n3ur0n.Plan.Topological.{topological_order_complete}
use n3ur0n.Plan.Validation.{
  no_steps, too_many_steps, unknown_dependency, unknown_step, own_output, field_not_produced,
  dependency_cycle, SchemaCheck, validate_args_against_schema, each, check_unique, check_dep,
  tool_of, check_args, check_step, is_missing_field, check_key, check_refs, validate_plan,
}

-- A step whose tool is in the catalog, with arguments that the input schema of the tool allows unless
-- they have a template, and with dependencies and references that the plan can meet.
pub record IsValidStep (check : SchemaCheck) (catalog : Catalog) (plan : Plan) (s : PlanStep)
    : Type 0 where
  pub tool : ToolDef
  pub found : find catalog (tool_of s) ≡ some tool
  pub conforms :
      first_unresolved_template s.args ≡ none
      → validate_args_against_schema check s.args tool.cap.schema_in ≡ none
  pub declared : (d : String) → In d s.depends_on → In d (plan_ids plan)
  pub referenced :
      (key : String)
      → In key (collect_ref_keys s.args)
      → In (head_of key) (plan_ids plan)
        × ¬ (head_of key ≡ s.id)
        × (is_missing_field catalog plan key ≡ false)

-- One to eight steps with different ids, each valid, and without a cycle.
pub record IsValidPlan (check : SchemaCheck) (catalog : Catalog) (plan : Plan) : Type 0 where
  pub some_steps : 1 ≤ length plan
  pub few_steps : length plan ≤ max_plan_steps
  pub unique : IsUnique (plan_ids plan)
  pub steps : (s : PlanStep) → In s plan → IsValidStep check catalog plan s
  pub ranking : Ranking (links plan)

check_args_ok :
    (check : SchemaCheck) (s : PlanStep) (found : Option ToolDef)
    → (check_args check s found ≡ ok tt) ↔ (
        (tool : ToolDef) × (found ≡ some tool)
        × (first_unresolved_template s.args ≡ none
            → validate_args_against_schema check s.args tool.cap.schema_in ≡ none))
unfolding check_args
check_args_ok check s none = (λ h. absurd (ground (arith, h)), λ h. absurd (ground (arith, h)))
check_args_ok check s (some tool) = (
  λ h. (
    tool,
    refl,
    λ clear. elim (Option-cases (validate_args_against_schema check s.args tool.cap.schema_in)) [
      | inl fits ↦ fits
      | inr (e, bad) ↦ absurd (ground (arith, h, clear, bad))
    ],
  ),
  λ h.
      let same : h.0 ≡ tool = ground (arith, h.1) in
      let fits =
        subst
          (λ (t : ToolDef).
            first_unresolved_template s.args ≡ none
            → validate_args_against_schema check s.args t.cap.schema_in ≡ none)
          same h.2 in
      elim (Option-cases (first_unresolved_template s.args)) [
        | inl clear ↦ ground (arith, clear, fits clear)
        | inr (left, unresolved) ↦ ground (arith, unresolved)
      ],
)

check_key_ok :
    (catalog : Catalog) (plan : Plan) (id key : String)
    → (check_key catalog plan id key ≡ ok tt) ↔ (
        In (head_of key) (plan_ids plan)
        × ¬ (head_of key ≡ id)
        × (is_missing_field catalog plan key ≡ false))
unfolding check_key
check_key_ok catalog plan id key =
    let known = refuse_if (not (contains (plan_ids plan) (head_of key))) (unknown_step id key) in
    let other = refuse_if (head_of key == id) (own_output id key) in
    let produced = refuse_if (is_missing_field catalog plan key) (field_not_produced id key) in
    let outer = then_ok (known >> other) produced in
    let inner = then_ok known other in
    let is_known =
      refuse_if_ok (not (contains (plan_ids plan) (head_of key))) (unknown_step id key) in
    let is_other = refuse_if_ok (head_of key == id) (own_output id key) in
    let is_produced =
      refuse_if_ok (is_missing_field catalog plan key) (field_not_produced id key) in
    (
      λ h.
          let (front, last) = outer.0 h in
          let (a, b) = inner.0 front in
          (
            (known_iff (plan_ids plan) (head_of key)).0 (is_known.0 a),
            λ same. ground (arith, is_other.0 b, (eq_iff (head_of key) id).1 same),
            is_produced.0 last,
          ),
      λ h. outer.1 (
        inner.1 (
          is_known.1 ((known_iff (plan_ids plan) (head_of key)).1 h.0),
          is_other.1 (differs (head_of key) id h.1),
        ),
        is_produced.1 h.2,
      ),
    )

check_step_ok :
    (check : SchemaCheck) (catalog : Catalog) (plan : Plan) (s : PlanStep)
    → ((check_step check catalog plan s ≡ ok tt) × (check_refs catalog plan s ≡ ok tt))
      ↔ IsValidStep check catalog plan s
check_step_ok check catalog plan s =
    let args = check_args check s (find catalog (tool_of s)) in
    let deps = each (check_dep plan s.id) s.depends_on in
    let split = then_ok args deps in
    let fits = check_args_ok check s (find catalog (tool_of s)) in
    let all_deps = each_ok (check_dep plan s.id) s.depends_on in
    let all_keys = each_ok (check_key catalog plan s.id) (collect_ref_keys s.args) in
    (
      λ h.
          let (a, d) = split.0 h.0 in
          let (tool, found, conforms) = fits.0 a in
          record {
            tool = tool;
            found = found;
            conforms = conforms;
            declared = λ x m. (known_iff (plan_ids plan) x).0 (
                (refuse_if_ok (not (contains (plan_ids plan) x)) (unknown_dependency s.id x)).0
                  (all_deps.0 d x m));
            referenced = λ key m. (check_key_ok catalog plan s.id key).0 (all_keys.0 h.1 key m);
          },
      λ v. (
        split.1 (
          fits.1 (v.tool, v.found, v.conforms),
          all_deps.1 (λ x m.
              (refuse_if_ok (not (contains (plan_ids plan) x)) (unknown_dependency s.id x)).1
                ((known_iff (plan_ids plan) x).1 (v.declared x m))),
        ),
        all_keys.1 (λ key m. (check_key_ok catalog plan s.id key).1 (v.referenced key m)),
      ),
    )

-- `validate_plan` accepts a plan if and only if it has one to eight steps with different ids, each step
-- has a tool of the catalog, arguments that the tool's schema allows unless a template is in them, and
-- only dependencies on steps and references to outputs that other steps declare, and there is no cycle.
pub validate_plan_iff :
    (check : SchemaCheck) (catalog : Catalog) (plan : Plan)
    → (validate_plan check catalog plan ≡ ok tt) ↔ IsValidPlan check catalog plan
unfolding validate_plan
validate_plan_iff check catalog plan =
    let stages =
      stages_ok (refuse_if (eqb (length plan) 0) no_steps)
        (refuse_if (ltb max_plan_steps (length plan)) (too_many_steps (length plan)))
        (check_unique [] plan) (each (check_step check catalog plan) plan)
        (each (check_refs catalog plan) plan)
        (refuse_if (not (eqb (length (topological_order plan)) (length plan))) dependency_cycle) in
    let ra = refuse_if_ok (eqb (length plan) 0) no_steps in
    let rb = refuse_if_ok (ltb max_plan_steps (length plan)) (too_many_steps (length plan)) in
    let rf =
      refuse_if_ok (not (eqb (length (topological_order plan)) (length plan))) dependency_cycle in
    let distinct = check_unique_ok [] plan (λ x. no_text x) in
    let valid_step = check_step_ok check catalog plan in
    let all_steps = each_ok (check_step check catalog plan) plan in
    let all_refs = each_ok (check_refs catalog plan) plan in
    (
      λ h.
          let (ha, hb, hc, hd, he, hf) = stages.0 h in
          record {
            some_steps = ground (arith, ra.0 ha);
            few_steps = ground (arith, rb.0 hb);
            unique = distinct.0 hc;
            steps = λ s m. (valid_step s).0 (all_steps.0 hd s m, all_refs.0 he s m);
            ranking = (topological_order_complete plan (distinct.0 hc)).0 (ground (arith, rf.0 hf));
          },
      λ v. stages.1 (
        ra.1 (ground (arith, v.some_steps)),
        rb.1 (ground (arith, v.few_steps)),
        distinct.1 v.unique,
        all_steps.1 (λ s m. ((valid_step s).1 (v.steps s m)).0),
        all_refs.1 (λ s m. ((valid_step s).1 (v.steps s m)).1),
        rf.1 (ground (arith, (topological_order_complete plan v.unique).1 v.ranking)),
      ),
    )
