-- ===== src/Plan/Validation.antt =====
-- `validate_plan` of crates/node/src/planner/plan.rs. The validation of a value by a JSON schema, of
-- the crate `jsonschema`, is a parameter: the messages of what fails, if anything does.
use mathlib.Core.Option
use n3ur0n.Json
use n3ur0n.Prelude.{
  ltb, eqb, if◌then◌else◌, length, head?, Result, ok, err, ◌>>◌, refuse_if, ℕ, String, Bool, true,
  false, not, Option, none, some, List, [], ◌∷◌, ◌++◌, ◌==◌,
}
use n3ur0n.Catalog.{ToolDef, Catalog, qualified, find}
use n3ur0n.Json.{Value, null, object, end, field}
use n3ur0n.Lobe.{contains}
use n3ur0n.Plan.{PlanStep, Plan, max_plan_steps, dot, head_of, collect_ref_keys, plan_ids}
use n3ur0n.Plan.Order.{topological_order}
use n3ur0n.Plan.Templates.{first_unresolved_template}
use n3ur0n.Text.{split_on}

-- What a `PlanError::Validation` says, by its kind.
pub data ValidationError : Type 0 where
  no_steps : ValidationError
  too_many_steps : ℕ → ValidationError
  duplicate_step_id : String → ValidationError
  not_in_catalog : String → String → ValidationError
  args_do_not_conform : String → String → String → ValidationError
  unknown_dependency : String → String → ValidationError
  unknown_step : String → String → ValidationError
  own_output : String → String → ValidationError
  field_not_produced : String → String → ValidationError
  dependency_cycle : ValidationError

abbrev pub Validated : Type 0
Validated = Result ValidationError Unit

-- `compile` and `validate`, of the schema and the value.
abbrev pub SchemaCheck : Type 0
SchemaCheck = Value → Value → Option String

abbrev pub constrains : Value → Bool
constrains (object (field k v fs)) = true
constrains (object end) = false
constrains null = false
constrains _ = false

unfoldable pub validate_args_against_schema : SchemaCheck → Value → Value → Option String
validate_args_against_schema check args schema =
    if constrains schema then check schema args else none

-- A loop that returns at the first error.
unfoldable pub each : {A : Type 0} → (A → Validated) → List A → Validated
each f [] = ok tt
each f (x ∷ xs) = let rest = each f xs in f x >> rest

-- `insert` into `seen_ids`, which holds `past`.
unfoldable pub check_unique : List String → Plan → Validated
check_unique past [] = ok tt
check_unique past (s ∷ plan) =
    let rest = check_unique (past ++ s.id ∷ []) plan in
    refuse_if (contains past s.id) (duplicate_step_id s.id) >> rest

abbrev pub check_dep : Plan → String → String → Validated
check_dep plan id dep = refuse_if (not (contains (plan_ids plan) dep)) (unknown_dependency id dep)

abbrev pub tool_of : PlanStep → String
tool_of s = qualified s.peer s.capability

-- The arguments of a step, once its tool is found; those with a template are left for later.
unfoldable pub check_args : SchemaCheck → PlanStep → Option ToolDef → Validated
check_args check s none = err (not_in_catalog s.id (tool_of s))
check_args check s (some tool) = elim (first_unresolved_template s.args) [
  | some unresolved ↦ ok tt
  | none ↦ elim (validate_args_against_schema check s.args tool.cap.schema_in) [
    | some e ↦ err (args_do_not_conform s.id (tool_of s) e)
    | none ↦ ok tt
  ]
]

abbrev pub check_step : SchemaCheck → Catalog → Plan → PlanStep → Validated
check_step check catalog plan s =
    check_args check s (find catalog (tool_of s)) >> each (check_dep plan s.id) s.depends_on

-- `id_to_schema_out.get(id)`
unfoldable pub schema_out_of : Catalog → Plan → String → Option Value
schema_out_of catalog [] id = none
schema_out_of catalog (s ∷ plan) id = elim (schema_out_of catalog plan id) [
  | some schema ↦ some schema
  | none ↦
      if s.id == id
      then Option.map (λ (t : ToolDef). t.cap.schema_out) (find catalog (tool_of s))
      else none
]

-- Whether the schema declares properties, and not this one.
abbrev pub lacks : Option Value → String → Bool
lacks (some (object (field k v fs))) name = elim (Json.lookup_field (field k v fs) name) [
  | some x ↦ false
  | none ↦ true
]
lacks (some (object end)) name = false
lacks (some null) name = false
lacks (some _) name = false
lacks none name = false

abbrev pub properties : Option Value → Option Value
properties none = none
properties (some schema) = Json.get schema "properties"

-- The name after the first `.` of a key, and whether the step it names does not produce it.
unfoldable pub is_missing_field : Catalog → Plan → String → Bool
is_missing_field catalog plan key = elim (head? (split_on dot key).1) [
  | some name ↦ lacks (properties (schema_out_of catalog plan (head_of key))) name
  | none ↦ false
]

unfoldable pub check_key : Catalog → Plan → String → String → Validated
check_key catalog plan id key =
    refuse_if (not (contains (plan_ids plan) (head_of key))) (unknown_step id key)
    >> refuse_if (head_of key == id) (own_output id key)
    >> refuse_if (is_missing_field catalog plan key) (field_not_produced id key)

abbrev pub check_refs : Catalog → Plan → PlanStep → Validated
check_refs catalog plan s = each (check_key catalog plan s.id) (collect_ref_keys s.args)

unfoldable pub validate_plan : SchemaCheck → Catalog → Plan → Validated
validate_plan check catalog plan =
    refuse_if (eqb (length plan) 0) no_steps
    >> refuse_if (ltb max_plan_steps (length plan)) (too_many_steps (length plan))
    >> check_unique [] plan
    >> each (check_step check catalog plan) plan
    >> each (check_refs catalog plan) plan
    >> refuse_if (not (eqb (length (topological_order plan)) (length plan))) dependency_cycle
