-- ===== src/Registry/Contents.antt =====
-- Which capabilities the registry of crates/node/src/registry.rs holds, and which it shows.
use n3ur0n.Storage.Table
use mathlib.Core.Path.{subst}
use n3ur0n.Prelude.{
  if◌then◌else◌, filter, In, In-filter_sound, In-filter_complete, In-map_of_In, In-map, String, ◌≡◌,
  refl, sym, ap, ◌∙◌, ◌≢◌, ◌↔◌, Bool, true, none, some, List, [], ◌∷◌, ◌++◌, map, arith, ◌==◌,
}
use n3ur0n.Capability.{AccessMode, free, restricted, private, is_public, CapabilityDecl}
use n3ur0n.Lobe.{contains}
use n3ur0n.Registry.{
  Row, row_key, CapabilityRegistry, replace, from_decls, decl_of, get, all_decls, public_decls,
  retain_published, insert, insert_decls,
}

insert_decls-append :
    (rows : List Row) (ds : List CapabilityDecl) (d : CapabilityDecl)
    → insert_decls rows (ds ++ d ∷ []) ≡ insert (insert_decls rows ds) d none
unfolding insert_decls
insert_decls-append rows [] d = refl
insert_decls-append rows (x ∷ ds) d = insert_decls-append (insert rows x none) ds d

-- The last declaration of a name wins: one more declaration is what its name then gives, and
-- changes no other name.
pub get-from_decls :
    (ds : List CapabilityDecl) (d : CapabilityDecl) (name : String)
    → get (from_decls (ds ++ d ∷ [])) name
      ≡ (if d.name == name then some d else get (from_decls ds) name)
unfolding get from_decls insert
get-from_decls ds d name = ground (
  arith,
  insert_decls-append [] ds d,
  Table.find-upsert row_key replace (insert_decls [] ds)
      (d.name, record { decl = d; binding = none }) name (λ new old. refl),
)

public-ne-private : (m : AccessMode) → is_public m ≡ true → m ≢ private
unfolding is_public
public-ne-private m h e = ground arith

public-of_ne_private : (m : AccessMode) → m ≢ private → is_public m ≡ true
unfolding is_public
public-of_ne_private private n = absurd (n refl)
public-of_ne_private free n = refl
public-of_ne_private restricted n = refl

-- `describe_self` and the local catalogue: a declaration is shown to peers exactly when the
-- registry holds it with a mode other than `Private`.
pub public_decls_iff :
    (reg : CapabilityRegistry) (d : CapabilityDecl)
    → In d (public_decls reg) ↔ (In d (all_decls reg) × (d.mode ≢ private))
unfolding public_decls all_decls
public_decls_iff reg d = (sound, λ (m, n). complete m n)
  where
    shown : Row → Bool
    shown r = is_public r.1.decl.mode

    sound :
        In d (map decl_of (filter shown reg.by_name))
        → In d (map decl_of reg.by_name) × (d.mode ≢ private)
    sound m =
        let (r, k, e) = In-map decl_of (filter shown reg.by_name) d m in
        let (stored, open_mode) = In-filter_sound shown reg.by_name r k in
        (
          subst (λ x. In x (map decl_of reg.by_name)) e (In-map_of_In decl_of reg.by_name r stored),
          λ p.
              public-ne-private r.1.decl.mode open_mode (ap (λ (x : CapabilityDecl). x.mode) e ∙ p),
        )

    complete :
        In d (map decl_of reg.by_name)
        → d.mode ≢ private
        → In d (map decl_of (filter shown reg.by_name))
    complete m n =
        let (r, k, e) = In-map decl_of reg.by_name d m in
        let open_mode : shown r ≡ true =
          public-of_ne_private r.1.decl.mode
            (λ p. n (sym (ap (λ (x : CapabilityDecl). x.mode) e) ∙ p)) in
        subst (λ x. In x (map decl_of (filter shown reg.by_name))) e
          (In-map_of_In decl_of (filter shown reg.by_name) r
            (In-filter_complete shown reg.by_name r k open_mode))

-- With an allow list, exactly the named capabilities are left, as they were; without one, all are.
-- What is returned are the names of the list that the registry does not have.
pub get-retain_published :
    (reg : CapabilityRegistry) (a : String) (allow : List String) (name : String)
    → get (retain_published reg (a ∷ allow)).0 name
      ≡ (if contains (a ∷ allow) name then get reg name else none)
unfolding get retain_published
get-retain_published reg a allow name =
    ground (arith, Table.find-filter row_key (contains (a ∷ allow)) reg.by_name name)
