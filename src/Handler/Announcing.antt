-- ===== src/Handler/Announcing.antt =====
-- What a request may write into the peer directory: the reverse announce of
-- crates/node/src/handler.rs, and the pull that it spawns.
use n3ur0n.Storage.Peers
use n3ur0n.Storage.Table
use n3ur0n.Storage.Peers.Directory
use mathlib.Core.Path.{subst}
use n3ur0n.Prelude.{
  Option-cases, ok, err, String, ◌≡◌, refl, sym, ap, ◌∙◌, ◌≢◌, ◌⊎◌, inl, inr, Option, none, some,
  List, arith, eq_iff,
}
use n3ur0n.Discovery.{Pull}
use n3ur0n.Discovery.Filing.{refresh_peer-others}
use n3ur0n.Handler.{
  Faults, Readings, Served, dispatch, record_audit, announced, claim_of, conclude, serve_fresh,
  handle_request, settle,
}
use n3ur0n.Handler.Admission.{pruned_node}
use n3ur0n.Handler.Stages.{announce-cases, SameBut-conclude, handle-admitted, handle-cases}
use n3ur0n.Identity.{instance_id}
use n3ur0n.Json.{Value}
use n3ur0n.Message.{Envelope, SignedMessage}
use n3ur0n.Node.{Node, Outside, node_id}
use n3ur0n.NodeErrors.{NodeResult}
use n3ur0n.Protocol.{DescribeSelfResponse}
use n3ur0n.Storage.{Fault}
use n3ur0n.Storage.Peers.{PeerRecord, peer_key}

-- A node takes up the endpoint of another sender only.
claim-foreign :
    (o : Outside) (node : Node) (e : Envelope) (endpoint : String)
    → claim_of o node e ≡ some endpoint
    → (e.sender_id ≢ node_id o node) × (e.sender_endpoint ≡ some endpoint) × (endpoint ≢ "")
unfolding claim_of
claim-foreign o node e endpoint h = elim (Option-cases e.sender_endpoint) [
  | inl unclaimed ↦ absurd (ground (arith, unclaimed))
  | inr (given, claimed) ↦ (
    ground (arith, claimed, eq_iff e.sender_id (node_id o node)),
    ground (arith, claimed),
    ground (arith, claimed, eq_iff given ""),
  )
]

-- What a request may do to the directory: nothing, or the upsert of the sender's row; and only then
-- may it spawn a task, for the endpoint that was upserted.
abbrev IsAnnounced : Outside → Faults → Readings → Node → Envelope → Served → Type 0
IsAnnounced o f r node e s =
    ((s.node.peers ≡ node.peers) × (s.refresh ≡ none))
    ⊎ ((endpoint : String) × (claim_of o node e ≡ some endpoint)
        × (s.node.peers ≡ (Peers.upsert f.peer_upsert node.peers (announced r e endpoint)).1)
        × ((s.refresh ≡ none) ⊎ (s.refresh ≡ some endpoint)))

conclude-IsAnnounced :
    (o : Outside) (f : Faults) (r : Readings) (node : Node) (e : Envelope)
    (outcome : NodeResult Value)
    → IsAnnounced o f r node e (conclude o f r node e outcome)
unfolding conclude record_audit claim_of
conclude-IsAnnounced o f r node e (err problem) = inl (refl, refl)
conclude-IsAnnounced o f r node e (ok payload) =
    elim (announce-cases o f r (record_audit f r node e (ok payload)) e) [
      | inl same ↦ inl (
        ap (λ (x : Node × Option String). x.0.peers) same,
        ap (λ (x : Node × Option String). x.1) same,
      )
      | inr (endpoint, taken, same, spawned) ↦
          inr (endpoint, taken, ap (λ (x : Node). x.peers) same, spawned)
    ]

request-IsAnnounced :
    (o : Outside) (f : Faults) (r : Readings) (node : Node) (m : SignedMessage)
    → IsAnnounced o f r node m.envelope (handle_request o f r node m)
unfolding serve_fresh claim_of
request-IsAnnounced o f r node m = elim (handle-cases o f r node m) [
  | inr (problem, turned_away) ↦
      inl
        (ap (λ (x : Served). x.node.peers) turned_away, ap (λ (x : Served). x.refresh) turned_away)
  | inl a ↦
      let pruned = pruned_node f r node m.envelope in
      subst (λ (x : Served). IsAnnounced o f r node m.envelope x)
        (sym (handle-admitted o f r node m a))
        (conclude-IsAnnounced o f r pruned m.envelope
          (dispatch o f pruned r.now m.envelope.verb m.envelope.payload))
]

request-keypair :
    (o : Outside) (f : Faults) (r : Readings) (node : Node) (m : SignedMessage)
    → (handle_request o f r node m).node.keypair ≡ node.keypair
unfolding serve_fresh
request-keypair o f r node m = elim (handle-cases o f r node m) [
  | inr (problem, turned_away) ↦ ap (λ (x : Served). x.node.keypair) turned_away
  | inl a ↦
      let pruned = pruned_node f r node m.envelope in
      ap (λ (x : Served). x.node.keypair) (handle-admitted o f r node m a)
      ∙ (SameBut-conclude o f r pruned m.envelope
          (dispatch o f pruned r.now m.envelope.verb m.envelope.payload)).keypair
]

request-others :
    (o : Outside) (f : Faults) (r : Readings) (node : Node) (m : SignedMessage) (id : String)
    → (id ≢ m.envelope.sender_id) ⊎ (id ≡ node_id o node)
    → Peers.get none (handle_request o f r node m).node.peers id ≡ Peers.get none node.peers id
request-others o f r node m id other = elim (request-IsAnnounced o f r node m) [
  | inl (same, idle) ↦ ap (λ (x : List PeerRecord). Peers.get none x id) same
  | inr (endpoint, taken, same, spawned) ↦
      let (foreign, given, full) = claim-foreign o node m.envelope endpoint taken in
      ap (λ (x : List PeerRecord). Peers.get none x id) same
      ∙ Directory.upsert-others f.peer_upsert node.peers (announced r m.envelope endpoint) id
          (λ e. elim other [ inl distinct ↦ distinct (sym e) | inr own ↦ foreign (e ∙ own) ])
]

-- A task is spawned for the endpoint that the envelope claims only.
request-spawns :
    (o : Outside) (f : Faults) (r : Readings) (node : Node) (m : SignedMessage) (endpoint : String)
    → (handle_request o f r node m).refresh ≡ some endpoint
    → m.envelope.sender_endpoint ≡ some endpoint
request-spawns o f r node m endpoint h = elim (request-IsAnnounced o f r node m) [
  | inl (same, idle) ↦ absurd (ground (arith, idle))
  | inr (claimed, taken, same, inl idle) ↦ absurd (ground (arith, idle))
  | inr (claimed, taken, same, inr spawned) ↦
      (claim-foreign o node m.envelope claimed taken).1 ∙ sym spawned ∙ h
]

-- A request, with the pull in the background that it may spawn, never writes a row for the node
-- itself, and else only the row of its sender and that of the instance which the claimed endpoint
-- describes.
pub directory_of_others :
    (o : Outside) (f : Faults) (r : Readings) (p : Pull) (node : Node) (m : SignedMessage)
    (id : String)
    → ((id ≢ m.envelope.sender_id)
        × ((endpoint : String) (d : DescribeSelfResponse)
            → m.envelope.sender_endpoint ≡ some endpoint
            → p.describe endpoint ≡ some d
            → id ≢ d.instance_id))
      ⊎ (id ≡ node_id o node)
    → Peers.get none (settle o p (handle_request o f r node m)).peers id
      ≡ Peers.get none node.peers id
unfolding settle
directory_of_others o f r p node m id other =
    elim (Option-cases (handle_request o f r node m).refresh) [
      | inl idle ↦ rw idle (request-others o f r node m id (not_sent other))
      | inr (endpoint, spawned) ↦ rw spawned (
          refresh_peer-others o p (handle_request o f r node m).node endpoint id
            (λ d described foreign same. elim other [
              | inl (distinct, undescribed) ↦
                  undescribed endpoint d (request-spawns o f r node m endpoint spawned) described
                    (sym same)
              | inr own ↦
                  foreign
                    (same ∙ own ∙ sym (ap (instance_id o.crypto) (request-keypair o f r node m)))
            ])
          ∙ request-others o f r node m id (not_sent other))
    ]
  where
    not_sent : {A B C : Type 0} → (A × B) ⊎ C → A ⊎ C
    not_sent (inl h) = inl h.0
    not_sent (inr h) = inr h

get-found :
    (peers : List PeerRecord) (id : String) (old : PeerRecord)
    → Table.find peer_key peers id ≡ some old
    → Peers.get none peers id ≡ ok (some old)
unfolding Peers.get
get-found peers id old h = ap ok h

upsert-sender :
    (fault : Fault) (peers : List PeerRecord) (row old : PeerRecord)
    → Table.find peer_key peers row.id ≡ some old
    → row.alias ≡ none
    → (p : PeerRecord) × (Peers.get none (Peers.upsert fault peers row).1 row.id ≡ ok (some p))
      × (p.alias ≡ old.alias)
      × ((p.endpoint ≡ old.endpoint) ⊎ (p.endpoint ≡ row.endpoint))
unfolding Peers.upsert
upsert-sender (some e) peers row old found unknown =
    (old, get-found peers row.id old found, refl, inl refl)
upsert-sender none peers row old found unknown =
    let (p, stored, endpoint, alias) = Directory.upsert-keeps peers row old found unknown in
    (p, stored, alias, inr endpoint)

-- When the handler of a request returns, the alias of its sender is what it was, if the sender was
-- known, and where the sender's row changed, the endpoint is the one that the envelope claims.
pub sender_keeps_alias :
    (o : Outside) (f : Faults) (r : Readings) (node : Node) (m : SignedMessage) (old : PeerRecord)
    → Table.find peer_key node.peers m.envelope.sender_id ≡ some old
    → (p : PeerRecord) × (Peers.get none
          (handle_request o f r node m).node.peers
          m.envelope.sender_id
        ≡ ok (some p))
      × (p.alias ≡ old.alias)
      × ((p.endpoint ≡ old.endpoint) ⊎ (m.envelope.sender_endpoint ≡ some p.endpoint))
sender_keeps_alias o f r node m old found = elim (request-IsAnnounced o f r node m) [
  | inl (same, idle) ↦ (
    old,
    ap (λ (x : List PeerRecord). Peers.get none x m.envelope.sender_id) same
        ∙ get-found node.peers m.envelope.sender_id old found,
    refl,
    inl refl,
  )
  | inr (endpoint, taken, same, spawned) ↦
      let (foreign, given, full) = claim-foreign o node m.envelope endpoint taken in
      let (p, stored, alias_kept, endpoint_was) =
        upsert-sender f.peer_upsert node.peers (announced r m.envelope endpoint) old found refl in
      (
        p,
        ap (λ (x : List PeerRecord). Peers.get none x m.envelope.sender_id) same ∙ stored,
        alias_kept,
        elim endpoint_was [ inl kept ↦ inl kept | inr new ↦ inr (given ∙ ap some (sym new)) ],
      )
]
