-- ===== src/Plan/Resolution.antt =====
-- `resolve_value` of crates/node/src/planner/plan.rs: the references of a value replaced by what they
-- stand for. `Value::to_string`, of `serde_json`, is a parameter.
use Prim.Native.String.{◌++◌ as join}
use n3ur0n.Prelude.{
  if◌then◌else◌, ℕ, zero, suc, String, Bool, not, ◌&&◌, Option, none, some, [], ◌∷◌, ◌==◌,
}
use n3ur0n.Json.{
  Value, null, boolean, unsigned, other_number, text, array, object, Items, nil, cons, Fields, end,
  field,
}
use n3ur0n.Plan.{dollar, open_brace, close_brace, dollar_ref, brace_ref, head_of}
use n3ur0n.Plan.Board.{entry_of, is_entry, Blackboard, lookup_path}
use n3ur0n.Plan.Templates.{template_of}
use n3ur0n.Text.{trim, has_char, strip_char, strip_last, count_chars, strip_prefix}

abbrev pub Render : Type 0
Render = Value → String

-- `value_to_text`
abbrev pub value_to_text : Render → Value → String
value_to_text render (text s) = s
value_to_text render null = render null
value_to_text render v = render v

-- `${inner}` over the whole text, if nothing inside opens another brace.
abbrev whole_inner : Option String → Option String
whole_inner none = none
whole_inner (some inner) = if has_char open_brace inner then none else some inner

abbrev unless_empty : Option String → Option String
unless_empty none = none
unless_empty (some inner) = if inner == "" then none else some inner

abbrev stripped_end : Option String → Option String
stripped_end none = none
stripped_end (some rest) = strip_last close_brace rest

unfoldable pub whole_template : String → Option String
whole_template s =
    let trimmed = trim s in
    elim (strip_prefix (dollar ∷ open_brace ∷ []) trimmed) [
      | some rest ↦ whole_inner (stripped_end (some rest))
      | none ↦ unless_empty (whole_inner (stripped_end (strip_char open_brace trimmed)))
    ]

abbrev or_text : Render → Option Value → String → String
or_text render none s = s
or_text render (some v) s = value_to_text render v

-- Whether `{inner}` without a dollar names a known step.
abbrev pub names_known : Blackboard → String → Bool
names_known board inner = not (head_of inner == "") && is_entry (entry_of board (head_of inner))

-- `{inner}`
abbrev pub braced : String → String
braced inner = String.◌∷◌ "{" (join inner "}")

-- The loop of `substitute_inline` on what is left of the text.
unfoldable pub substitute_from : Render → Blackboard → ℕ → String → String
substitute_from render board zero s = s
substitute_from render board (suc fuel) String.[] = ""
substitute_from render board (suc fuel) (String.◌∷◌ ch s) = elim (dollar_ref ch s) [
  | some (inner, rest) ↦
      join (or_text render (lookup_path inner board) (template_of inner))
        (substitute_from render board fuel rest)
  | none ↦ elim (brace_ref ch s) [
    | some (inner, rest) ↦
        let replaced =
          join (or_text render (lookup_path inner board) (braced inner))
            (substitute_from render board fuel rest) in
        let kept = String.◌∷◌ ch (substitute_from render board fuel s) in
        if names_known board inner then replaced else kept
    | none ↦ String.◌∷◌ ch (substitute_from render board fuel s)
  ]
]

unfoldable pub substitute_inline : Render → Blackboard → String → String
substitute_inline render board s = substitute_from render board (suc (count_chars s)) s

abbrev or_substituted : Render → Blackboard → String → Option Value → Value
or_substituted render board s (some v) = v
or_substituted render board s none = text (substitute_inline render board s)

abbrev whole_value : Blackboard → Option String → Option Value
whole_value board none = none
whole_value board (some inner) = lookup_path inner board

unfoldable mutual
  pub resolve_value : Render → Blackboard → Value → Value
  resolve_value render board (text s) =
      or_substituted render board s (whole_value board (whole_template s))
  resolve_value render board (array xs) = array (resolve_items render board xs)
  resolve_value render board (object fs) = object (resolve_fields render board fs)
  resolve_value render board null = null
  resolve_value render board (boolean b) = boolean b
  resolve_value render board (unsigned n) = unsigned n
  resolve_value render board other_number = other_number

  pub resolve_items : Render → Blackboard → Items → Items
  resolve_items render board nil = nil
  resolve_items render board (cons x xs) =
      cons (resolve_value render board x) (resolve_items render board xs)

  pub resolve_fields : Render → Blackboard → Fields → Fields
  resolve_fields render board end = end
  resolve_fields render board (field k v fs) =
      field k (resolve_value render board v) (resolve_fields render board fs)
