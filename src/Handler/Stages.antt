-- ===== src/Handler/Stages.antt =====
-- What the stages of `handle_request` (crates/node/src/handler.rs) leave of a node.
use n3ur0n.Storage.Nonces
use n3ur0n.Storage.Peers
use mathlib.Core.Path.{subst}
use n3ur0n.Prelude.{
  Option-cases, ok, err, Result-cases, ℕ, String, ◌≡◌, refl, sym, ◌⊎◌, inl, inr, Bool, true, false,
  Option, none, some, List, arith,
}
use n3ur0n.Clock.{unix_timestamp}
use n3ur0n.Handler.{
  Faults, Readings, Served, record_audit, announced, claim_of, announce, conclude, serve_fresh,
  admit, handle_request,
}
use n3ur0n.Json.{Value}
use n3ur0n.Message.{Envelope, SignedMessage, VerifiedEnvelope, verify_envelope}
use n3ur0n.Message.Window.{verify_envelope-ok_iff}
use n3ur0n.Node.{Node, Outside, node_id}
use n3ur0n.NodeErrors.{NodeError, NodeResult}
use n3ur0n.Storage.{StorageResult, Fault}
use n3ur0n.Storage.Nonces.{NonceRow}
use n3ur0n.Storage.Peers.{PeerRecord}

-- Two nodes that differ at most in their journal and in their directory.
pub record SameBut (a b : Node) : Type 0 where
  pub keypair : a.keypair ≡ b.keypair
  pub registry : a.registry ≡ b.registry
  pub lobes : a.lobes ≡ b.lobes
  pub alias : a.alias ≡ b.alias
  pub config : a.config ≡ b.config
  pub nonces : a.nonces ≡ b.nonces
  pub blobs : a.blobs ≡ b.blobs

pub SameBut-audit :
    (f : Faults) (r : Readings) (node : Node) (e : Envelope) (outcome : NodeResult Value)
    → SameBut (record_audit f r node e outcome) node
unfolding record_audit
SameBut-audit f r node e outcome = record {
  keypair = refl;
  registry = refl;
  lobes = refl;
  alias = refl;
  config = refl;
  nonces = refl;
  blobs = refl;
}

abbrev pub with_peers : Node → List PeerRecord → Node
with_peers node peers = record node { peers = peers }

-- The announce writes nothing but the row of the sender, and spawns a task for no other endpoint
-- than the claimed one.
pub announce-cases :
    (o : Outside) (f : Faults) (r : Readings) (node : Node) (e : Envelope)
    → (announce o f r node e ≡ (node, none))
      ⊎ ((endpoint : String) × (claim_of o node e ≡ some endpoint)
          × ((announce o f r node e).0
              ≡ with_peers node (Peers.upsert f.peer_upsert node.peers (announced r e endpoint)).1)
          × (((announce o f r node e).1 ≡ none) ⊎ ((announce o f r node e).1 ≡ some endpoint)))
unfolding announce
announce-cases o f r node e = elim (Option-cases (claim_of o node e)) [
  | inl none_taken ↦ inl (ground (arith, none_taken))
  | inr (endpoint, taken) ↦ inr (
    endpoint,
    taken,
    ground (arith, taken),
    elim (Option-cases (announce o f r node e).1) [
      | inl unspawned ↦ inl (ground (arith, unspawned))
      | inr (at, spawned) ↦ inr (ground (arith, taken, spawned))
    ],
  )
]

pub SameBut-announce :
    (o : Outside) (f : Faults) (r : Readings) (node base : Node) (e : Envelope)
    → SameBut node base
    → SameBut (announce o f r node e).0 base
SameBut-announce o f r node base e s = elim (announce-cases o f r node e) [
  | inl same ↦ subst (λ (x : Node × Option String). SameBut x.0 base) (sym same) s
  | inr (endpoint, taken, same, spawned) ↦
      subst (λ (x : Node). SameBut x base) (sym same)
        (record {
          keypair = s.keypair;
          registry = s.registry;
          lobes = s.lobes;
          alias = s.alias;
          config = s.config;
          nonces = s.nonces;
          blobs = s.blobs;
        })
]

pub SameBut-conclude :
    (o : Outside) (f : Faults) (r : Readings) (node : Node) (e : Envelope)
    (outcome : NodeResult Value)
    → SameBut (conclude o f r node e outcome).node node
unfolding conclude
SameBut-conclude o f r node e (err problem) = SameBut-audit f r node e (err problem)
SameBut-conclude o f r node e (ok payload) =
    SameBut-announce o f r (record_audit f r node e (ok payload)) node e
      (SameBut-audit f r node e (ok payload))

-- The request IsPassed the checks of `verify_envelope` and its nonce was new.
pub record IsAdmitted (o : Outside) (f : Faults) (r : Readings) (node : Node) (m : SignedMessage)
    : Type 0 where
  pub verified : VerifiedEnvelope
  pub authentic :
      verify_envelope o.crypto o.canonical m (node_id o node) r.verified_at node.config.verify
      ≡ ok verified
  pub new :
      (Nonces.insert_if_absent f.nonce_insert node.nonces m.envelope.sender_id m.envelope.nonce
        (unix_timestamp r.now)).0
      ≡ ok true

abbrev pub with_nonces : Node → List NonceRow → Node
with_nonces node nonces = record node { nonces = nonces }

abbrev pub inserted_rows : Faults → Readings → Node → Envelope → StorageResult Bool × List NonceRow
inserted_rows f r node e =
    Nonces.insert_if_absent f.nonce_insert node.nonces e.sender_id e.nonce (unix_timestamp r.now)

-- An admitted request is served, with its nonce in the table.
admit-new :
    (o : Outside) (f : Faults) (r : Readings) (node : Node) (e : Envelope)
    → (inserted_rows f r node e).0 ≡ ok true
    → admit o f r node e ≡ serve_fresh o f r (with_nonces node (inserted_rows f r node e).1) e
unfolding admit
admit-new o f r node e h = ground (arith, h)

pub handle-admitted :
    (o : Outside) (f : Faults) (r : Readings) (node : Node) (m : SignedMessage)
    → IsAdmitted o f r node m
    → handle_request o f r node m
      ≡ serve_fresh o f r (with_nonces node (inserted_rows f r node m.envelope).1) m.envelope
unfolding handle_request
handle-admitted o f r node m a =
    let same : a.verified.message ≡ m =
      ((verify_envelope-ok_iff o.crypto o.canonical m (node_id o node) r.verified_at
          node.config.verify a.verified).0
        a.authentic).1 in
    ground (arith, a.authentic, same, admit-new o f r node m.envelope a.new)

-- The table stays as it was where an insert reports no new row.
insert-unchanged :
    (fault : Fault) (rows : List NonceRow) (s n : String) (now : ℕ)
    → ¬ ((Nonces.insert_if_absent fault rows s n now).0 ≡ ok true)
    → (Nonces.insert_if_absent fault rows s n now).1 ≡ rows
unfolding Nonces.insert_if_absent
insert-unchanged none rows s n now h = ground arith
insert-unchanged (some e) rows s n now h = refl

insert-cases :
    (f : Faults) (r : Readings) (node : Node) (e : Envelope)
    → ((inserted_rows f r node e).0 ≡ ok true) ⊎ ¬ ((inserted_rows f r node e).0 ≡ ok true)
insert-cases f r node e = elim (Result-cases (inserted_rows f r node e).0) [
  | inl (problem, failed) ↦ inr (λ h. ground (arith, failed, h))
  | inr (true, inserted) ↦ inl inserted
  | inr (false, ignored) ↦ inr (λ h. ground (arith, ignored, h))
]

-- What is served where a request is turned away.
abbrev pub refusal : Node → NodeError → Served
refusal node problem = record { answer = err problem; node = node; refresh = none }

admit-refused :
    (o : Outside) (f : Faults) (r : Readings) (node : Node) (e : Envelope)
    → ¬ ((inserted_rows f r node e).0 ≡ ok true)
    → (problem : NodeError) × (admit o f r node e ≡ refusal node problem)
unfolding admit
admit-refused o f r node e h =
    let same =
      insert-unchanged f.nonce_insert node.nonces e.sender_id e.nonce (unix_timestamp r.now) h in
    elim (Result-cases (inserted_rows f r node e).0) [
      | inl (problem, failed) ↦ (NodeError.storage problem, ground (arith, failed, same))
      | inr (true, inserted) ↦ absurd (h inserted)
      | inr (false, ignored) ↦ (NodeError.replay, ground (arith, ignored, same))
    ]

-- Each request is admitted, or it is refused and leaves the node as it was.
pub handle-cases :
    (o : Outside) (f : Faults) (r : Readings) (node : Node) (m : SignedMessage)
    → IsAdmitted o f r node m
      ⊎ ((problem : NodeError) × (handle_request o f r node m ≡ refusal node problem))
unfolding handle_request
handle-cases o f r node m =
    elim (Result-cases
      (verify_envelope o.crypto o.canonical m (node_id o node) r.verified_at node.config.verify)) [
        | inl (problem, failed) ↦ inr (NodeError.core problem, ground (arith, failed))
        | inr (v, authentic) ↦
            let same =
              ((verify_envelope-ok_iff o.crypto o.canonical m (node_id o node) r.verified_at
                  node.config.verify v).0
                authentic).1 in
            elim (insert-cases f r node m.envelope) [
              | inl new ↦ inl (record { verified = v; authentic = authentic; new = new })
              | inr old ↦
                  let (problem, turned_away) = admit-refused o f r node m.envelope old in
                  inr (problem, ground (arith, authentic, same, turned_away))
            ]
      ]
