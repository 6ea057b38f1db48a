-- ===== src/Plan/Templates.antt =====
-- `first_unresolved_template` of crates/node/src/planner/plan.rs: what is left of the references.
use mathlib.Core.Option
use Prim.Native.String.{◌++◌ as join}
use Prim.Native.Char.{code}
use n3ur0n.Prelude.{eqb, if◌then◌else◌, String, Option, none, some}
use n3ur0n.Json.{
  Value, null, boolean, unsigned, other_number, text, array, object, Items, nil, cons, Fields, end,
  field,
}
use n3ur0n.Plan.{dollar, open_brace, close_brace}
use n3ur0n.Text.{split_at, strip_char}

-- What stands after the first `${`.
unfoldable pub after_dollar : String → Option String
after_dollar String.[] = none
after_dollar (String.◌∷◌ ch s) =
    let later = after_dollar s in
    if eqb (code ch) dollar
    then elim (strip_char open_brace s) [ some rest ↦ some rest | none ↦ later ]
    else later

-- `${inner}`
abbrev pub template_of : String → String
template_of inner = String.◌∷◌ "$" (String.◌∷◌ "{" (join inner "}"))

unfoldable pub template_in : String → Option String
template_in s = elim (after_dollar s) [
  | some rest ↦ Option.map (λ (p : String × String). template_of p.0) (split_at close_brace rest)
  | none ↦ none
]

abbrev first_of : Option String → Option String → Option String
first_of none later = later
first_of (some t) later = some t

unfoldable mutual
  pub first_unresolved_template : Value → Option String
  first_unresolved_template (text s) = template_in s
  first_unresolved_template (array xs) = template_of_items xs
  first_unresolved_template (object fs) = template_of_fields fs
  first_unresolved_template null = none
  first_unresolved_template (boolean b) = none
  first_unresolved_template (unsigned n) = none
  first_unresolved_template other_number = none

  pub template_of_items : Items → Option String
  template_of_items nil = none
  template_of_items (cons x xs) = first_of (first_unresolved_template x) (template_of_items xs)

  pub template_of_fields : Fields → Option String
  template_of_fields end = none
  template_of_fields (field k v fs) = first_of (first_unresolved_template v) (template_of_fields fs)
