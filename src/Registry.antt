-- ===== src/Registry.antt =====
-- crates/node/src/registry.rs: the capabilities that an instance exposes, by name. The map is the
-- list of its entries; its order stands for the order of iteration, which Rust leaves open.
pub mod Contents
pub mod Lobes
use mathlib.Core.Option
use n3ur0n.Storage.Table
use n3ur0n.Prelude.{
  length, filter, texts_le, sort, codes, ℕ, String, Bool, true, false, not, Option, none, some,
  List, [], ◌∷◌, map,
}
use n3ur0n.Capability.{is_public, CapabilityDecl}
use n3ur0n.Json.{Value}
use n3ur0n.Lobe.{contains, unclaimable_lobes}
use n3ur0n.NodeErrors.{NodeResult}

-- `dyn Binding`, as the registry's clients call it.
abbrev pub Binding : Type 0
Binding = Value → NodeResult Value

pub record Entry : Type 0 where
  pub decl : CapabilityDecl
  pub binding : Option Binding

abbrev pub Row : Type 0
Row = String × Entry

abbrev pub row_key : Row → String
row_key r = r.0

-- `struct CapabilityRegistry`
pub record CapabilityRegistry : Type 0 where
  pub by_name : List Row

abbrev pub replace : Row → Row → Row
replace new old = (old.0, new.1)

-- `by_name.insert(name, entry)`
insert : List Row → CapabilityDecl → Option Binding → List Row
insert rows d b = Table.upsert row_key replace rows (d.name, record { decl = d; binding = b })

insert_decls : List Row → List CapabilityDecl → List Row
unfolding insert
insert_decls rows [] = rows
insert_decls rows (d ∷ ds) = insert_decls (insert rows d none) ds

insert_entries : List Row → List (CapabilityDecl × Binding) → List Row
unfolding insert
insert_entries rows [] = rows
insert_entries rows ((d, b) ∷ es) = insert_entries (insert rows d (some b)) es

unfoldable pub from_decls : List CapabilityDecl → CapabilityRegistry
unfolding insert_decls
from_decls decls = record { by_name = insert_decls [] decls }

unfoldable pub from_entries : List (CapabilityDecl × Binding) → CapabilityRegistry
unfolding insert_entries
from_entries entries = record { by_name = insert_entries [] entries }

abbrev pub decl_of : Row → CapabilityDecl
decl_of r = r.1.decl

unfoldable pub get : CapabilityRegistry → String → Option CapabilityDecl
get reg name = Option.map decl_of (Table.find row_key reg.by_name name)

unfoldable pub binding_for : CapabilityRegistry → String → Option Binding
binding_for reg name = elim (Table.find row_key reg.by_name name) [
  | none ↦ none
  | some r ↦ r.1.binding
]

unfoldable pub all_decls : CapabilityRegistry → List CapabilityDecl
all_decls reg = map decl_of reg.by_name

unfoldable pub public_decls : CapabilityRegistry → List CapabilityDecl
public_decls reg = map decl_of (filter (λ (r : Row). is_public r.1.decl.mode) reg.by_name)

-- What `enforce_instance_lobes` does to one entry.
abbrev pub declared_only : List String → CapabilityDecl → CapabilityDecl
declared_only lobes d = record d { lobe_ids = filter (contains lobes) d.lobe_ids }

abbrev pub enforce_row : List String → Row → Row
enforce_row lobes r = elim (unclaimable_lobes r.1.decl.lobe_ids lobes) [
  | [] ↦ r
  | _ ∷ _ ↦ (r.0, record r.1 { decl = declared_only lobes r.1.decl })
]

-- The capabilities that lost a lobe, each with the lobes that it lost.
abbrev pub dropped_rows : List String → List Row → List (String × List String)
dropped_rows lobes [] = []
dropped_rows lobes (r ∷ rs) = elim (unclaimable_lobes r.1.decl.lobe_ids lobes) [
  | [] ↦ dropped_rows lobes rs
  | l ∷ ls ↦ (r.0, l ∷ ls) ∷ dropped_rows lobes rs
]

-- `sort()` of the pairs; the names are different, so they alone decide.
abbrev pub by_cap_name : String × List String → String × List String → Bool
by_cap_name a b = texts_le (codes a.0) (codes b.0)

unfoldable pub enforce_instance_lobes :
    CapabilityRegistry → List String → CapabilityRegistry × List (String × List String)
enforce_instance_lobes reg lobes = (
  record { by_name = map (enforce_row lobes) reg.by_name },
  sort by_cap_name (dropped_rows lobes reg.by_name),
)

unfoldable pub contains_key : CapabilityRegistry → String → Bool
contains_key reg name = elim (Table.find row_key reg.by_name name) [ none ↦ false | some _ ↦ true ]

unfoldable pub retain_published :
    CapabilityRegistry → List String → CapabilityRegistry × List String
unfolding contains_key
retain_published reg [] = (reg, [])
retain_published reg (a ∷ allow) = (
  record { by_name = filter (λ (r : Row). contains (a ∷ allow) r.0) reg.by_name },
  filter (λ name. not (contains_key reg name)) (a ∷ allow),
)

unfoldable pub len : CapabilityRegistry → ℕ
len reg = length reg.by_name
