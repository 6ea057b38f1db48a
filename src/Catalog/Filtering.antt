-- ===== src/Catalog/Filtering.antt =====
-- What `build` and `scoped_to` of crates/node/src/planner/catalog.rs keep.
use n3ur0n.Registry
use n3ur0n.Storage.Peers
use n3ur0n.Storage
use mathlib.Core.Path.{subst}
use n3ur0n.Prelude.{
  eqb, Bool-cases, length, filter, In, In-append_left, In-append_right, In-append_cases,
  In-filter_sound, In-filter_complete, In-map_of_In, In-map, ok, Result-cases, ℕ, String, ◌≡◌, refl,
  sym, ap, ◌∙◌, ◌↔◌, ◌⊎◌, inl, inr, true, ◌&&◌, List, [], ◌∷◌, ◌++◌, map, arith,
}
use n3ur0n.Capability.{CapabilityDecl}
use n3ur0n.Catalog.{
  ToolDef, Catalog, in_scope, scoped_to, is_offered, ReadDecls, remote_tool, local_tool,
  cached_decls, remote_tools, local_tools, build,
}
use n3ur0n.Registry.{CapabilityRegistry}
use n3ur0n.Storage.{Fault}
use n3ur0n.Storage.Peers.{PeerRecord}

-- A tool that stands for a declaration in the cached description of a known peer.
pub record IsRemote (read : ReadDecls) (ps : List PeerRecord) (t : ToolDef) : Type 0 where
  pub peer : PeerRecord
  pub known : In peer ps
  pub declared : In t.cap (cached_decls read peer.describe_self_cached)
  pub tool : remote_tool peer t.cap ≡ t

IsRemote-later :
    (read : ReadDecls) (p : PeerRecord) (ps : List PeerRecord) (t : ToolDef)
    → IsRemote read ps t
    → IsRemote read (p ∷ ps) t
IsRemote-later read p ps t h = record {
  peer = h.peer;
  known = inr h.known;
  declared = h.declared;
  tool = h.tool;
}

tools-In :
    (f : CapabilityDecl → ToolDef)
    → ((c : CapabilityDecl) → (f c).cap ≡ c)
    → (decls : List CapabilityDecl) (t : ToolDef)
    → In t (map f (filter is_offered decls))
      ↔ (In t.cap decls × (is_offered t.cap ≡ true) × (f t.cap ≡ t))
tools-In f same decls t = (
  λ m.
      let (c, k, e) = In-map f (filter is_offered decls) t m in
      let (d, offered) = In-filter_sound is_offered decls c k in
      let back : c ≡ t.cap = sym (same c) ∙ ap (λ (x : ToolDef). x.cap) e in
      (
        subst (λ x. In x decls) back d,
        subst (λ x. is_offered x ≡ true) back offered,
        subst (λ x. f x ≡ t) back e,
      ),
  λ h.
      subst (λ x. In x (map f (filter is_offered decls))) h.2
        (In-map_of_In f (filter is_offered decls) t.cap
          (In-filter_complete is_offered decls t.cap h.0 h.1)),
)

remote_tools_iff :
    (read : ReadDecls) (ps : List PeerRecord) (t : ToolDef)
    → In t (remote_tools read ps) ↔ ((is_offered t.cap ≡ true) × IsRemote read ps t)
unfolding remote_tools
remote_tools_iff read [] t = (λ m. elim m [ ], λ h. elim h.1.known [ ])
remote_tools_iff read (p ∷ ps) t =
    let decls = cached_decls read p.describe_self_cached in
    let own = tools-In (remote_tool p) (λ c. refl) decls t in
    let later = remote_tools_iff read ps t in
    (
      λ m.
          elim (In-append_cases t (map (remote_tool p) (filter is_offered decls))
            (remote_tools read ps) m) [
              | inl here ↦
                  let (d, o, e) = own.0 here in
                  (o, record { peer = p; known = inl refl; declared = d; tool = e })
              | inr there ↦ let (o, r) = later.0 there in (o, IsRemote-later read p ps t r)
            ],
      λ h. elim h.1.known [
        | inl here ↦
            In-append_left t (map (remote_tool p) (filter is_offered decls)) (remote_tools read ps)
              (subst
                (λ (x : PeerRecord). In t (
                  map (remote_tool x)
                    (filter is_offered (cached_decls read x.describe_self_cached))))
                (sym here)
                ((tools-In (remote_tool h.1.peer) (λ c. refl)
                    (cached_decls read h.1.peer.describe_self_cached) t).1
                  (h.1.declared, h.0, h.1.tool)))
        | inr there ↦
            In-append_right t (map (remote_tool p) (filter is_offered decls)) (remote_tools read ps)
              (later.1 (
                h.0,
                record { peer = h.1.peer; known = there; declared = h.1.declared; tool = h.1.tool },
              ))
      ],
    )

-- A tool that stands for a declaration of the local registry.
abbrev pub IsOwn : String → CapabilityRegistry → ToolDef → Type 0
IsOwn self_id registry t = In t.cap (Registry.all_decls registry) × (local_tool self_id t.cap ≡ t)

offered_iff :
    (read : ReadDecls) (self_id : String) (registry : CapabilityRegistry)
    (records : List PeerRecord) (t : ToolDef)
    → In t (local_tools self_id registry ++ remote_tools read records)
      ↔ ((is_offered t.cap ≡ true) × (IsOwn self_id registry t ⊎ IsRemote read records t))
unfolding local_tools
offered_iff read self_id registry records t =
    let own = tools-In (local_tool self_id) (λ c. refl) (Registry.all_decls registry) t in
    let remote = remote_tools_iff read records t in
    (
      λ m. elim (In-append_cases t (local_tools self_id registry) (remote_tools read records) m) [
        | inl here ↦ let (d, o, e) = own.0 here in (o, inl (d, e))
        | inr there ↦ let (o, r) = remote.0 there in (o, inr r)
      ],
      λ h. elim h.1 [
        | inl mine ↦
            In-append_left t (local_tools self_id registry) (remote_tools read records)
              (own.1 (mine.0, h.0, mine.1))
        | inr theirs ↦
            In-append_right t (local_tools self_id registry) (remote_tools read records)
              (remote.1 (h.0, theirs))
      ],
    )

-- Where `build` gives a catalog, it read the known peers, and the tools of the catalog are exactly
-- those that stand for a declaration of the local registry, or for one in the cached description of a
-- peer, and are offered: not named `plan`, and with an example.
pub build_exact :
    (read : ReadDecls) (fault : Fault) (self_id : String) (registry : CapabilityRegistry)
    (db : List PeerRecord) (peer_limit : ℕ) (catalog : Catalog)
    → build read fault self_id registry db peer_limit ≡ ok catalog
    → (records : List PeerRecord) × (Storage.Peers.list fault db peer_limit ≡ ok records)
      × ((t : ToolDef)
          → In t catalog
            ↔ ((is_offered t.cap ≡ true) × (IsOwn self_id registry t ⊎ IsRemote read records t)))
unfolding build local_tools
build_exact read fault self_id registry db peer_limit catalog h =
    elim (Result-cases (Storage.Peers.list fault db peer_limit)) [
      | inl (e, failed) ↦ absurd (ground (arith, h, failed))
      | inr (records, listed) ↦
          let same : local_tools self_id registry ++ remote_tools read records ≡ catalog =
            ground (arith, h, listed) in
          (
            records,
            listed,
            λ t.
                subst
                  (λ c. In t c ↔ (
                    (is_offered t.cap ≡ true)
                    × (IsOwn self_id registry t ⊎ IsRemote read records t)))
                  same (offered_iff read self_id registry records t),
          )
    ]

-- `scoped_to` keeps exactly the tools within the scope: of the peers, lobes and capabilities that are
-- asked for, where any is asked for.
pub scoped_to_exact :
    (catalog : Catalog) (peer_ids lobes capabilities : List String) (t : ToolDef)
    → In t (scoped_to catalog peer_ids lobes capabilities)
      ↔ (In t catalog × (in_scope peer_ids lobes capabilities t ≡ true))
unfolding scoped_to in_scope
scoped_to_exact catalog peer_ids lobes capabilities t =
    elim (Bool-cases
      (eqb (length peer_ids) 0 && eqb (length lobes) 0 && eqb (length capabilities) 0)) [
        | inl nothing ↦
            let all : in_scope peer_ids lobes capabilities t ≡ true = ground (arith, nothing) in
            rw nothing (λ m. (m, all), λ h. h.0)
        | inr something ↦ rw something (
          λ m. In-filter_sound (in_scope peer_ids lobes capabilities) catalog t m,
          λ h. In-filter_complete (in_scope peer_ids lobes capabilities) catalog t h.0 h.1,
        )
      ]
