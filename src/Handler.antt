-- ===== src/Handler.antt =====
-- crates/node/src/handler.rs: one signed request through the node.
pub mod Stages
pub mod Admission
pub mod Outcomes
pub mod Announcing
use n3ur0n.Storage.Audit
use n3ur0n.Json
use n3ur0n.Storage.Nonces
use n3ur0n.Storage.Peers
use n3ur0n.Verbs
use n3ur0n.Prelude.{
  if◌then◌else◌, ok, err, ℕ, ◌-◌, ◌*◌, String, Bool, true, false, not, ◌&&◌, Option, none, some,
  ◌==◌,
}
use n3ur0n.Clock.{unix_timestamp}
use n3ur0n.Discovery.{Pull, refresh_peer}
use n3ur0n.Json.{Value, as_str}
use n3ur0n.Message.{ProtocolVerb, Envelope, SignedMessage, sign, verify_envelope}
use n3ur0n.Node.{Node, Outside, node_id}
use n3ur0n.NodeErrors.{ticket_on_messages, NodeError, NodeResult, status_of, from_core}
use n3ur0n.Storage.{StorageResult, Fault}
use n3ur0n.Storage.Audit.{Direction}
use n3ur0n.Storage.Peers.{PeerRecord}

-- The statements that may fail in one request.
pub record Faults : Type 0 where
  pub nonce_insert : Fault
  pub nonce_prune : Fault
  pub peer_list : Fault
  pub peer_get : Fault
  pub peer_upsert : Fault
  pub audit_write : Fault
  pub blob_get : Fault

-- What the request reads of clocks and random numbers: `clock.now()` in `verify_envelope`, in the
-- handler and in `record_audit`, the time that the verb took, and the nonce of the reply.
pub record Readings : Type 0 where
  pub verified_at : ℕ
  pub now : ℕ
  pub audited_at : ℕ
  pub latency_ms : Option ℕ
  pub reply_nonce : String

-- The answer, the node when the handler returns, and the endpoint for the task that it spawned.
pub record Served : Type 0 where
  pub answer : NodeResult SignedMessage
  pub node : Node
  pub refresh : Option String

abbrev pub nonce_ttl_seconds : ℕ
nonce_ttl_seconds = 60 * 60

-- The `match` on the verb.
unfoldable pub dispatch : Outside → Faults → Node → ℕ → ProtocolVerb → Value → NodeResult Value
dispatch o f node now ProtocolVerb.describe_self payload = Verbs.describe_self o node now
dispatch o f node now ProtocolVerb.ping payload = Verbs.ping o now
dispatch o f node now ProtocolVerb.get_known_peers payload =
    Verbs.get_known_peers o f.peer_list node payload
dispatch o f node now ProtocolVerb.invoke payload = Verbs.invoke o f.blob_get node payload
dispatch o f node now ProtocolVerb.blob_ticket payload =
    err (NodeError.invalid_payload ticket_on_messages)

abbrev text_of : Option Value → Option String
text_of none = none
text_of (some v) = as_str v

-- `inbound_label`
unfoldable pub inbound_label : Envelope → Option String
inbound_label e = elim e.verb [
  | ProtocolVerb.invoke ↦ text_of (Json.get e.payload "capability")
  | ProtocolVerb.describe_self ↦ some "describe_self"
  | ProtocolVerb.ping ↦ some "ping"
  | ProtocolVerb.get_known_peers ↦ some "get_known_peers"
  | ProtocolVerb.blob_ticket ↦ some "blob_ticket"
]

abbrev outcome_status : NodeResult Value → String
outcome_status (ok v) = "ok"
outcome_status (err e) = status_of e

-- `record_audit`, whose failure is only logged.
unfoldable pub record_audit : Faults → Readings → Node → Envelope → NodeResult Value → Node
record_audit f r node e outcome = record node {
  audit =
      (Audit.record_entry f.audit_write node.audit (record {
        timestamp = unix_timestamp r.audited_at;
        direction = Direction.inbound;
        peer_id = e.sender_id;
        capability = inbound_label e;
        status = outcome_status outcome;
        latency_ms = r.latency_ms;
      })).1;
}

abbrev pub announced : Readings → Envelope → String → PeerRecord
announced r e endpoint = record {
  id = e.sender_id;
  endpoint = endpoint;
  alias = none;
  last_seen = some (unix_timestamp r.now);
  tls_fingerprint = none;
  describe_self_cached = none;
  describe_self_fetched_at = none;
  source = some "reverse_announce";
}

abbrev already_known : StorageResult (Option PeerRecord) → Bool
already_known (ok (some p)) = true
already_known (ok none) = false
already_known (err e) = false

abbrev upserted : StorageResult Unit → Bool
upserted (ok u) = true
upserted (err e) = false

-- The endpoint that the envelope claims for its sender, where the node takes it up.
unfoldable pub claim_of : Outside → Node → Envelope → Option String
claim_of o node e = elim e.sender_endpoint [
  | none ↦ none
  | some endpoint ↦
      if not (e.sender_id == node_id o node) && not (endpoint == "") then some endpoint else none
]

-- The reverse announce: the node, and the endpoint that a spawned task is to refresh.
unfoldable pub announce : Outside → Faults → Readings → Node → Envelope → Node × Option String
announce o f r node e = elim (claim_of o node e) [
  | none ↦ (node, none)
  | some endpoint ↦
      let known = already_known (Peers.get f.peer_get node.peers e.sender_id) in
      let (done, peers) = Peers.upsert f.peer_upsert node.peers (announced r e endpoint) in
      (record node { peers = peers }, if upserted done && not known then some endpoint else none)
]

-- The signed reply to the sender.
unfoldable pub reply_to : Outside → Readings → Node → Envelope → Value → NodeResult SignedMessage
reply_to o r node e payload = from_core (
    sign o.crypto o.canonical
      (record {
        sender_id = node_id o node;
        recipient_id = e.sender_id;
        timestamp = r.now;
        nonce = r.reply_nonce;
        verb = e.verb;
        payload = payload;
        sender_endpoint = node.config.endpoint;
      })
      node.keypair)

-- After the verb: the journal, then the error, or the announce and the reply.
unfoldable pub conclude : Outside → Faults → Readings → Node → Envelope → NodeResult Value → Served
conclude o f r node e outcome =
    let journaled = record_audit f r node e outcome in
    elim outcome [
      | err problem ↦ record { answer = err problem; node = journaled; refresh = none }
      | ok payload ↦
          let (after, refresh) = announce o f r journaled e in
          record { answer = reply_to o r after e payload; node = after; refresh = refresh }
    ]

-- `NONCE_TTL_SECONDS` before now.
abbrev pub prune_cutoff : Readings → ℕ
prune_cutoff r = unix_timestamp r.now - nonce_ttl_seconds

-- A new nonce: prune, then the verb.
unfoldable pub serve_fresh : Outside → Faults → Readings → Node → Envelope → Served
serve_fresh o f r node e =
    let pruned = record node {
      nonces = (Nonces.prune_older_than f.nonce_prune node.nonces (prune_cutoff r)).1;
    } in
    conclude o f r pruned e (dispatch o f pruned r.now e.verb e.payload)

-- The anti-replay insert and what follows it.
unfoldable pub admit : Outside → Faults → Readings → Node → Envelope → Served
admit o f r node e =
    let (inserted, nonces) =
      Nonces.insert_if_absent f.nonce_insert node.nonces e.sender_id e.nonce
        (unix_timestamp r.now) in
    let after = record node { nonces = nonces } in
    elim inserted [
      | err problem ↦ record {
        answer = err (NodeError.storage problem);
        node = after;
        refresh = none;
      }
      | ok new ↦
          let fresh = serve_fresh o f r after e in
          if new
          then fresh
          else record { answer = err NodeError.replay; node = after; refresh = none }
    ]

-- Up to its return. The task that it may spawn is a step of its own, `settle`.
unfoldable pub handle_request : Outside → Faults → Readings → Node → SignedMessage → Served
handle_request o f r node request =
    elim (verify_envelope o.crypto o.canonical request (node_id o node) r.verified_at
      node.config.verify) [
        | err problem ↦ record {
          answer = err (NodeError.core problem);
          node = node;
          refresh = none;
        }
        | ok verified ↦ admit o f r node verified.message.envelope
      ]

-- The spawned task, whose result is only logged.
abbrev pub run_spawned : Outside → Pull → Node → Option String → Node
run_spawned o p node none = node
run_spawned o p node (some endpoint) = (refresh_peer o p node endpoint).1

-- The node once the spawned task is done too.
unfoldable pub settle : Outside → Pull → Served → Node
settle o p s = run_spawned o p s.node s.refresh
