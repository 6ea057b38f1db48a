-- ===== src/Registry/Lobes.antt =====
-- The subset rule `cap.lobe_ids ⊆ instance.lobe_ids` in crates/node/src/registry.rs.
use mathlib.Core.Option
use n3ur0n.Storage.Table
use mathlib.Core.Path.{subst}
use n3ur0n.Prelude.{
  Option-cases, filter, In, List-cases, sort, In-sort, String, ◌≡◌, refl, ap, ◌∙◌, ◌≢◌, inl, inr,
  List, [], ◌∷◌, map, arith,
}
use n3ur0n.Capability.{CapabilityDecl}
use n3ur0n.Lobe.{contains, unclaimable_lobes}
use n3ur0n.Registry.{
  Row, row_key, CapabilityRegistry, decl_of, get, declared_only, enforce_row, dropped_rows,
  by_cap_name, enforce_instance_lobes,
}

-- A capability that claims nothing foreign loses nothing.
filter-of_claimable :
    (lobes cs : List String) → unclaimable_lobes cs lobes ≡ [] → filter (contains lobes) cs ≡ cs
unfolding unclaimable_lobes
filter-of_claimable lobes [] h = refl
filter-of_claimable lobes (l ∷ ls) h = ground (arith, filter-of_claimable lobes ls)

-- What is left is all claimable.
unclaimable-filter :
    (lobes cs : List String) → unclaimable_lobes (filter (contains lobes) cs) lobes ≡ []
unfolding unclaimable_lobes
unclaimable-filter lobes [] = refl
unclaimable-filter lobes (l ∷ ls) = ground (arith, unclaimable-filter lobes ls)

enforce_row-key : (lobes : List String) (r : Row) → row_key (enforce_row lobes r) ≡ row_key r
enforce_row-key lobes r = ground arith

decl-enforce_row :
    (lobes : List String) (r : Row)
    → decl_of (enforce_row lobes r) ≡ declared_only lobes (decl_of r)
decl-enforce_row lobes r = elim (List-cases (unclaimable_lobes r.1.decl.lobe_ids lobes)) [
  | inl e ↦ ground (arith, e, filter-of_claimable lobes r.1.decl.lobe_ids)
  | inr (l, ls, e) ↦ ground (arith, e)
]

-- After `enforce_instance_lobes` each capability is still there, with exactly those of its lobes
-- that the instance declares, and unchanged in all else.
pub get-enforce :
    (reg : CapabilityRegistry) (lobes : List String) (name : String)
    → get (enforce_instance_lobes reg lobes).0 name
      ≡ Option.map (declared_only lobes) (get reg name)
unfolding get enforce_instance_lobes
get-enforce reg lobes name = elim (Option-cases (Table.find row_key reg.by_name name)) [
  | inl e ↦
      ground
        (arith, Table.find-map row_key (enforce_row lobes) reg.by_name name (enforce_row-key lobes))
  | inr (r, e) ↦ ground (
    arith,
    Table.find-map row_key (enforce_row lobes) reg.by_name name (enforce_row-key lobes),
    decl-enforce_row lobes r,
  )
]

dropped-enforced :
    (lobes : List String) (rows : List Row) → dropped_rows lobes (map (enforce_row lobes) rows) ≡ []
dropped-enforced lobes [] = refl
dropped-enforced lobes (r ∷ rs) =
    let clean : unclaimable_lobes (enforce_row lobes r).1.decl.lobe_ids lobes ≡ [] =
      ap (λ (d : CapabilityDecl). unclaimable_lobes d.lobe_ids lobes) (decl-enforce_row lobes r)
      ∙ unclaimable-filter lobes r.1.decl.lobe_ids in
    ground (arith, clean, dropped-enforced lobes rs)

-- A second enforcement against the same lobes has nothing to report.
pub enforce_twice :
    (reg : CapabilityRegistry) (lobes : List String)
    → (enforce_instance_lobes (enforce_instance_lobes reg lobes).0 lobes).1 ≡ []
unfolding enforce_instance_lobes sort
enforce_twice reg lobes = ap (sort by_cap_name) (dropped-enforced lobes reg.by_name)

In-dropped_rows :
    (lobes : List String) (rows : List Row) (name : String) (ls : List String)
    → In (name, ls) (dropped_rows lobes rows)
    → (r : Row) × In r rows
      × (r.0 ≡ name)
      × (unclaimable_lobes r.1.decl.lobe_ids lobes ≡ ls)
      × (ls ≢ [])
In-dropped_rows lobes [] name ls m = elim m [ ]
In-dropped_rows lobes (r ∷ rs) name ls m =
    elim (List-cases (unclaimable_lobes r.1.decl.lobe_ids lobes)) [
      | inl e ↦ later (In-dropped_rows lobes rs name ls (subst pick e m))
      | inr (l, ls', e) ↦ here l ls' e (In-dropped_rows lobes rs name ls) (subst pick e m)
    ]
  where
    pick : List String → Type 0
    pick u =
        In (name, ls)
          (elim u [ [] ↦ dropped_rows lobes rs | l ∷ ls' ↦ (r.0, l ∷ ls') ∷ dropped_rows lobes rs ])

    Reported : List Row → Type 0
    Reported rows =
        (q : Row) × In q rows
        × (q.0 ≡ name)
        × (unclaimable_lobes q.1.decl.lobe_ids lobes ≡ ls)
        × (ls ≢ [])

    later : Reported rs → Reported (r ∷ rs)
    later (q, k, e, u, n) = (q, inr k, e, u, n)

    here :
        (l : String) (ls' : List String)
        → unclaimable_lobes r.1.decl.lobe_ids lobes ≡ l ∷ ls'
        → (In (name, ls) (dropped_rows lobes rs) → Reported rs)
        → In (name, ls) ((r.0, l ∷ ls') ∷ dropped_rows lobes rs)
        → Reported (r ∷ rs)
    here l ls' e ih (inl same) = (
      r,
      inl refl,
      ap (λ (p : String × List String). p.0) same,
      e ∙ ap (λ (p : String × List String). p.1) same,
      λ none_left. cc,
    )
    here l ls' e ih (inr k) = later (ih k)

-- What is reported: a capability of the registry, with all the lobes that it claimed and the
-- instance does not declare, at least one.
pub enforce_report :
    (reg : CapabilityRegistry) (lobes : List String) (name : String) (ls : List String)
    → In (name, ls) (enforce_instance_lobes reg lobes).1
    → (r : Row) × In r reg.by_name
      × (r.0 ≡ name)
      × (unclaimable_lobes r.1.decl.lobe_ids lobes ≡ ls)
      × (ls ≢ [])
unfolding enforce_instance_lobes
enforce_report reg lobes name ls m =
    In-dropped_rows lobes reg.by_name name ls
      (In-sort by_cap_name (dropped_rows lobes reg.by_name) (name, ls) m)
