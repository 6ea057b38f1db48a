-- ===== src/Verbs/Access.antt =====
-- Who may call what through `invoke` of crates/node/src/handler.rs.
use n3ur0n.Registry
use n3ur0n.Prelude.{
  Option-cases, All, ok, err, Result-cases, ◌≡◌, refl, ◌≢◌, ◌↔◌, ◌⊎◌, inl, inr, none, some, List,
  [], ◌∷◌, arith,
}
use n3ur0n.BlobLookup.{collect_blob_refs, read_local_bytes}
use n3ur0n.BlobTypes.{BlobRef}
use n3ur0n.Capability.{AccessMode, free, restricted, private, CapabilityDecl}
use n3ur0n.Json.{Value}
use n3ur0n.Node.{Node, Outside}
use n3ur0n.NodeErrors.{NodeError}
use n3ur0n.Protocol.{InvokeRequest}
use n3ur0n.Storage.{Fault}
use n3ur0n.Verbs.{check_blobs, check_access, call_upstream, invoke}

-- A capability that is private is answered like one that does not exist.
pub invoke-hidden :
    (o : Outside) (fault : Fault) (node : Node) (payload : Value) (req : InvokeRequest)
    → o.decode_invoke payload ≡ some req
    → (Registry.get node.registry req.capability ≡ none)
      ⊎ ((d : CapabilityDecl) × (Registry.get node.registry req.capability ≡ some d)
          × (d.mode ≡ private))
    → invoke o fault node payload ≡ err (NodeError.unknown_capability req.capability)
unfolding invoke check_access
invoke-hidden o fault node payload req decoded (inl missing) = ground (arith, decoded, missing)
invoke-hidden o fault node payload req decoded (inr (d, found, hidden)) =
    ground (arith, decoded, found, hidden)

access-cases : (m : AccessMode) → (m ≡ free) ⊎ (m ≡ restricted) ⊎ (m ≡ private)
access-cases free = inl refl
access-cases restricted = inr (inl refl)
access-cases private = inr (inr refl)

check_access-ok :
    (d : CapabilityDecl) (req : InvokeRequest)
    → (check_access d req ≡ ok tt)
      ↔ ((d.mode ≢ private) × (d.mode ≡ restricted → req.subscription_token ≢ none))
unfolding check_access
check_access-ok d req = (
  λ h. (λ hidden. ground (arith, hidden), λ limited untold. ground (arith, limited, untold)),
  λ (visible, told). elim (access-cases d.mode) [
    | inl open_to_all ↦ ground (arith, open_to_all)
    | inr (inl limited) ↦ elim (Option-cases req.subscription_token) [
      | inl untold ↦ absurd (told limited untold)
      | inr (token, given) ↦ ground (arith, limited, given)
    ]
    | inr (inr hidden) ↦ absurd (visible hidden)
  ],
)

check_blobs-ok :
    (o : Outside) (fault : Fault) (node : Node) (bs : List BlobRef)
    → (check_blobs o fault node bs ≡ ok tt)
      ↔ All (λ (b : BlobRef). read_local_bytes o fault node b.hash ≢ none) bs
unfolding check_blobs
check_blobs-ok o fault node [] = (λ h. tt, λ h. refl)
check_blobs-ok o fault node (b ∷ bs) =
    let (sound, complete) = check_blobs-ok o fault node bs in
    elim (Option-cases (read_local_bytes o fault node b.hash)) [
      | inl missing ↦
          (λ h. absurd (ground (arith, missing)), λ (present, rest). absurd (present missing))
      | inr (bytes, found) ↦ (
        λ h. (λ missing. ground (arith, missing, found), sound (ground (arith, found))),
        λ (present, rest). ground (arith, found, complete rest),
      )
    ]

-- What a call must meet for its result to be handed out.
pub record IsServed (o : Outside) (fault : Fault) (node : Node) (payload v : Value) : Type 0 where
  pub req : InvokeRequest
  pub decoded : o.decode_invoke payload ≡ some req
  pub decl : CapabilityDecl
  pub registered : Registry.get node.registry req.capability ≡ some decl
  pub visible : decl.mode ≢ private
  pub token_given : decl.mode ≡ restricted → req.subscription_token ≢ none
  pub blobs_present :
      All
        (λ (b : BlobRef). read_local_bytes o fault node b.hash ≢ none)
        (collect_blob_refs req.args)
  pub result : Value
  pub returned : call_upstream o node req ≡ ok result
  pub encoded : o.encode_result (record { result = result }) ≡ some v

invoke_sound :
    (o : Outside) (fault : Fault) (node : Node) (payload v : Value)
    → invoke o fault node payload ≡ ok v
    → IsServed o fault node payload v
unfolding invoke
invoke_sound o fault node payload v h = elim (Option-cases (o.decode_invoke payload)) [
  | inl undecoded ↦ absurd (ground (arith, undecoded))
  | inr (req, decoded) ↦ elim (Option-cases (Registry.get node.registry req.capability)) [
    | inl missing ↦ absurd (ground (arith, decoded, missing))
    | inr (d, found) ↦
        let allowed : check_access d req ≡ ok tt = ground (arith, decoded, found) in
        let present : check_blobs o fault node (collect_blob_refs req.args) ≡ ok tt =
          ground (arith, decoded, found) in
        elim (Result-cases (call_upstream o node req)) [
          | inl (problem, failed) ↦ absurd (ground (arith, decoded, found, failed))
          | inr (result, returned) ↦ record {
            req = req;
            decoded = decoded;
            decl = d;
            registered = found;
            visible = ((check_access-ok d req).0 allowed).0;
            token_given = ((check_access-ok d req).0 allowed).1;
            blobs_present = (check_blobs-ok o fault node (collect_blob_refs req.args)).0 present;
            result = result;
            returned = returned;
            encoded = ground (arith, decoded, found, returned);
          }
        ]
  ]
]

-- `invoke` succeeds exactly for a registered capability that is not private, with a token where it
-- is restricted, when each blob that the arguments mention can be read here and has its hash, and
-- the upstream call succeeds; it hands out what that call returned.
pub invoke-ok_iff :
    (o : Outside) (fault : Fault) (node : Node) (payload v : Value)
    → (invoke o fault node payload ≡ ok v) ↔ IsServed o fault node payload v
unfolding invoke
invoke-ok_iff o fault node payload v = (
  invoke_sound o fault node payload v,
  λ (s : IsServed o fault node payload v). ground (
    arith,
    s.decoded,
    s.registered,
    s.returned,
    s.encoded,
    (check_access-ok s.decl s.req).1 (s.visible, s.token_given),
    (check_blobs-ok o fault node (collect_blob_refs s.req.args)).1 s.blobs_present,
  ),
)
