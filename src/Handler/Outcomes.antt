-- ===== src/Handler/Outcomes.antt =====
-- What a request leads to in crates/node/src/handler.rs: the reply, the directory and the journal.
use mathlib.Core.Path.{subst}
use n3ur0n.Prelude.{ok, err, ℕ, ◌≤◌, ◌≡◌, inl, inr, arith, eq_iff}
use n3ur0n.Clock.{distance, whole_seconds, from_secs}
use n3ur0n.Handler.{
  Faults, Readings, Served, dispatch, record_audit, announce, reply_to, conclude, serve_fresh,
  handle_request,
}
use n3ur0n.Handler.Admission.{pruned_node}
use n3ur0n.Handler.Stages.{SameBut-audit, SameBut-announce, handle-admitted, handle-cases}
use n3ur0n.Identity.{IsCrypto}
use n3ur0n.Json.{Value}
use n3ur0n.Message.{Envelope, SignedMessage, VerifyConfig, sign, verify_envelope}
use n3ur0n.Message.Signing.{sign-ok, verify_signature-sign}
use n3ur0n.Node.{Node, Outside, node_id}
use n3ur0n.NodeErrors.{NodeResult}

-- The parts of a reply that `reply_to` made.
reply-parts :
    (o : Outside) (r : Readings) (node : Node) (e : Envelope) (payload : Value)
    (reply : SignedMessage)
    → reply_to o r node e payload ≡ ok reply
    → sign o.crypto o.canonical
        (record {
          sender_id = node_id o node;
          recipient_id = e.sender_id;
          timestamp = r.now;
          nonce = r.reply_nonce;
          verb = e.verb;
          payload = payload;
          sender_endpoint = node.config.endpoint;
        })
        node.keypair
      ≡ ok reply
unfolding reply_to
reply-parts o r node e payload reply h = ground arith

conclude-answered :
    (o : Outside) (f : Faults) (r : Readings) (node : Node) (e : Envelope)
    (outcome : NodeResult Value) (reply : SignedMessage)
    → (conclude o f r node e outcome).answer ≡ ok reply
    → (after : Node) × (payload : Value) × (after.keypair ≡ node.keypair)
      × (reply_to o r after e payload ≡ ok reply)
unfolding conclude
conclude-answered o f r node e (err problem) reply h = absurd (ground arith)
conclude-answered o f r node e (ok payload) reply h =
    let journaled = record_audit f r node e (ok payload) in
    (
      (announce o f r journaled e).0,
      payload,
      (SameBut-announce o f r journaled node e (SameBut-audit f r node e (ok payload))).keypair,
      h,
    )

-- Whatever is answered was signed by `reply_to`, for some payload and a node with the same key.
pub answered :
    (o : Outside) (f : Faults) (r : Readings) (node : Node) (m reply : SignedMessage)
    → (handle_request o f r node m).answer ≡ ok reply
    → (after : Node) × (payload : Value) × (after.keypair ≡ node.keypair)
      × (reply_to o r after m.envelope payload ≡ ok reply)
unfolding serve_fresh
answered o f r node m reply h = elim (handle-cases o f r node m) [
  | inr (problem, turned_away) ↦ absurd (ground (arith, turned_away))
  | inl a ↦
      let pruned = pruned_node f r node m.envelope in
      conclude-answered o f r pruned m.envelope
        (dispatch o f pruned r.now m.envelope.verb m.envelope.payload) reply
        (subst (λ (x : Served). x.answer ≡ ok reply) (handle-admitted o f r node m a) h)
]

-- A node answers in its own name, to the sender and with the verb of the request; and the sender
-- accepts the answer, as long as its clock is within its own skew of the node's.
pub answer-accepted :
    (o : Outside) (laws : IsCrypto o.crypto) (f : Faults) (r : Readings) (node : Node)
    (m reply : SignedMessage) (heard_at : ℕ) (config : VerifyConfig)
    → (handle_request o f r node m).answer ≡ ok reply
    → from_secs (whole_seconds (distance heard_at r.now)) ≤ config.clock_skew
    → (reply.envelope.sender_id ≡ node_id o node)
      × (reply.envelope.recipient_id ≡ m.envelope.sender_id)
      × (reply.envelope.verb ≡ m.envelope.verb)
      × (verify_envelope o.crypto o.canonical reply m.envelope.sender_id heard_at config
          ≡ ok (record { message = reply }))
unfolding verify_envelope
answer-accepted o laws f r node m reply heard_at config h near =
    let (after, payload, key, signed) = answered o f r node m reply h in
    let parts = reply-parts o r after m.envelope payload reply signed in
    let (owner, same, public, rest) = sign-ok o.crypto o.canonical _ after.keypair reply parts in
    let checked = verify_signature-sign o.crypto o.canonical laws _ after.keypair reply parts in
    (
      ground (arith, same, key),
      ground (arith, same),
      ground (arith, same),
      ground (
        arith,
        same,
        checked,
        near,
        eq_iff m.envelope.sender_id m.envelope.sender_id,
        eq_iff reply.envelope.recipient_id m.envelope.sender_id,
      ),
    )
