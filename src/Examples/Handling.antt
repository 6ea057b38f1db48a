-- ===== src/Examples/Handling.antt =====
-- Runs of crates/node/src/handler.rs and blob_resolve.rs: Bob pings Alice, and calls her.
use n3ur0n.Storage.Peers
use n3ur0n.Storage.Table
use n3ur0n.Storage.Nonces
use n3ur0n.Storage.Blobs
use n3ur0n.Json
use n3ur0n.Registry
use n3ur0n.Prelude.{
  length, In, sort, ok, err, ◌+◌, ◌≤◌, String, ◌≡◌, refl, sym, ap, ◌∙◌, ◌≢◌, ◌↔◌, ◌⊎◌, inl, inr,
  Option, none, some, List, [], ◌∷◌, arith,
}
use n3ur0n.BlobLookup.{parse_blob_ref, collect_blob_refs, read_local_bytes}
use n3ur0n.BlobLookup.Integrity.{read_local_bytes-hash}
use n3ur0n.BlobTypes.{hash_bytes}
use n3ur0n.Clock.{from_secs}
use n3ur0n.Discovery.{Pull, refresh_peer}
use n3ur0n.Examples.World.{
  fitted, same_bytes, unary, spelled, read, named, toy, toy-IsCrypto, toy_canonical, outside,
  hidden, registry, bob_row, alice, noon, ping_message, no_faults, at_time,
}
use n3ur0n.Handler.{
  Served, dispatch, record_audit, claim_of, announce, reply_to, conclude, serve_fresh, admit,
  handle_request, settle,
}
use n3ur0n.Handler.Admission.{start, no_replay}
use n3ur0n.Handler.Announcing.{directory_of_others, sender_keeps_alias}
use n3ur0n.Handler.Outcomes.{answer-accepted}
use n3ur0n.Handler.Stages.{IsAdmitted, refusal, handle-cases}
use n3ur0n.Identity.{
  from_public_key, public_key, instance_id, sign_with, verify_with, parse_instance_id,
}
use n3ur0n.Json.{Value, null, unsigned, text, object, end, field}
use n3ur0n.Message.{
  ProtocolVerb, SignedMessage, default_verify, encode_signature, decode_signature, canonical_bytes,
  sign, verify_signature, verify_envelope,
}
use n3ur0n.Node.{Node, node_id}
use n3ur0n.NodeErrors.{NodeError}
use n3ur0n.Protocol.{DescribeSelfResponse, GetKnownPeersRequest, PeerSummary, InvokeRequest}
use n3ur0n.Storage.Peers.{PeerRecord, peer_key}
use n3ur0n.Verbs.{summaries, get_known_peers, check_blobs, check_access, call_upstream, invoke}
use n3ur0n.Verbs.Access.{invoke-hidden, IsServed, invoke-ok_iff}
use n3ur0n.Verbs.Peering.{IsTold, get_known_peers-tells}

abbrev served : Served
served = handle_request outside no_faults (at_time noon) alice ping_message

ping_IsAdmitted : IsAdmitted outside no_faults (at_time noon) alice ping_message
unfolding verify_envelope verify_signature canonical_bytes from_public_key named decode_signature
    spelled unary read verify_with same_bytes instance_id public_key Nonces.insert_if_absent
    Nonces.seen
ping_IsAdmitted = record {
  verified = record { message = ping_message };
  authentic = refl;
  new = refl;
}

no_replay_example :
    ¬ IsAdmitted outside no_faults (at_time (noon + from_secs 20)) served.node ping_message
no_replay_example =
    no_replay outside 300 no_faults no_faults (at_time noon) (at_time (noon + from_secs 20)) alice
      served.node noon ping_message ping_message refl (omega arith) (omega arith) ping_IsAdmitted
      start (omega arith) refl

handle-cases_example :
    IsAdmitted outside no_faults (at_time noon) alice ping_message
    ⊎ ((problem : NodeError) × (served ≡ refusal alice problem))
handle-cases_example = handle-cases outside no_faults (at_time noon) alice ping_message

abbrev pong : SignedMessage
pong = record {
  envelope = record {
    sender_id = "n3:alice";
    recipient_id = "n3:bob";
    timestamp = noon;
    nonce = "xyz";
    verb = ProtocolVerb.ping;
    payload = text "2026-01-01T00:00:00Z";
    sender_endpoint = some "https://alice";
  };
  sender_public_key = 0 ∷ [];
  signature = spelled (fitted 64 (0 ∷ []));
}

pong_answered : served.answer ≡ ok pong
unfolding handle_request admit serve_fresh conclude dispatch reply_to announce claim_of
    n3ur0n.Verbs.ping verify_envelope verify_signature canonical_bytes from_public_key named
    decode_signature spelled unary read verify_with same_bytes instance_id public_key
    Nonces.insert_if_absent Nonces.seen sign encode_signature sign_with record_audit
pong_answered = refl

answer-accepted_example :
    (pong.envelope.sender_id ≡ node_id outside alice)
    × (pong.envelope.recipient_id ≡ ping_message.envelope.sender_id)
    × (ProtocolVerb.ping ≡ ProtocolVerb.ping)
    × (verify_envelope toy toy_canonical pong "n3:bob" noon default_verify
        ≡ ok (record { message = pong }))
answer-accepted_example =
    answer-accepted outside toy-IsCrypto no_faults (at_time noon) alice ping_message pong noon
      default_verify pong_answered (omega arith)

-- Bob is unknown, Carol is known; what Bob's endpoint describes is Carol.
abbrev carol_row : PeerRecord
carol_row = record bob_row { id = "n3:carol"; endpoint = "https://carol"; alias = some "carol" }

abbrev knows_carol : Node
knows_carol = record alice { peers = carol_row ∷ [] }

abbrev as_carol : DescribeSelfResponse
as_carol = record {
  instance_id = "n3:carol";
  endpoint = none;
  alias = none;
  version = "";
  updated_at = "";
  lobe_ids = [];
  capabilities = [];
}

abbrev pull : Pull
pull = record {
  describe = λ endpoint. some as_carol;
  print = λ d. some "{}";
  now = noon;
  upsert = none;
  set_alias = none;
}

abbrev announced_carol : Node
announced_carol =
    settle outside pull (handle_request outside no_faults (at_time noon) knows_carol ping_message)

-- The pull that Bob's request spawns moves Carol to Bob's endpoint, and takes her alias away.
carol_moved :
    Peers.get none announced_carol.peers "n3:carol"
    ≡ ok (
        some (record carol_row {
          endpoint = "https://bob";
          alias = none;
          last_seen = some 10000;
          describe_self_cached = some "{}";
          describe_self_fetched_at = some 10000;
          source = some "bootstrap";
        }))
unfolding settle refresh_peer Peers.get Peers.upsert Peers.set_alias Peers.merge Table.find
    Table.upsert Table.update handle_request admit serve_fresh conclude dispatch reply_to announce
    claim_of n3ur0n.Verbs.ping verify_envelope verify_signature canonical_bytes from_public_key
    named decode_signature spelled unary read verify_with same_bytes instance_id public_key
    Nonces.insert_if_absent Nonces.seen sign encode_signature sign_with record_audit Table.append
carol_moved = refl

dave_is_not_bob : ¬ (◌≡◌ {A = String} "n3:dave" "n3:bob")
dave_is_not_bob e = cc e

dave_is_not_described :
    (d : DescribeSelfResponse) → some as_carol ≡ some d → "n3:dave" ≢ d.instance_id
dave_is_not_described d h e = is_carol (e ∙ sym (ap named_by h))
  where
    named_by : Option DescribeSelfResponse → String
    named_by none = ""
    named_by (some x) = x.instance_id

    is_carol : ¬ (◌≡◌ {A = String} "n3:dave" "n3:carol")
    is_carol e = cc e

directory_of_others_example :
    Peers.get none announced_carol.peers "n3:dave" ≡ Peers.get none knows_carol.peers "n3:dave"
directory_of_others_example =
    directory_of_others outside no_faults (at_time noon) pull knows_carol ping_message "n3:dave"
      (inl (dave_is_not_bob, λ endpoint d claimed. dave_is_not_described d))

bob_found : Table.find peer_key alice.peers "n3:bob" ≡ some bob_row
unfolding Table.find
bob_found = refl

sender_keeps_alias_example :
    (p : PeerRecord) × (Peers.get none served.node.peers "n3:bob" ≡ ok (some p))
    × (p.alias ≡ some "bobby")
    × ((p.endpoint ≡ "https://old") ⊎ (some "https://bob" ≡ some p.endpoint))
sender_keeps_alias_example =
    sender_keeps_alias outside no_faults (at_time noon) alice ping_message bob_row bob_found

abbrev call : String → Value
call name = object (field "capability" (text name) end)

abbrev request : String → InvokeRequest
request name = record { capability = name; args = call name; subscription_token = none }

hidden_decoded : outside.decode_invoke (call "hidden") ≡ some (request "hidden")
unfolding Json.get
hidden_decoded = refl

hidden_found : Registry.get registry "hidden" ≡ some hidden
unfolding Registry.get Table.find
hidden_found = refl

invoke-hidden_example :
    invoke outside none alice (call "hidden") ≡ err (NodeError.unknown_capability "hidden")
invoke-hidden_example =
    invoke-hidden outside none alice (call "hidden") (request "hidden") hidden_decoded
      (inr (hidden, hidden_found, refl))

invoke-ok_iff_example :
    (invoke outside none alice (call "weather") ≡ ok (text "done"))
    ↔ IsServed outside none alice (call "weather") (text "done")
invoke-ok_iff_example = invoke-ok_iff outside none alice (call "weather") (text "done")

weather_called : invoke outside none alice (call "weather") ≡ ok (text "done")
unfolding invoke check_access check_blobs call_upstream Registry.get Registry.binding_for Table.find
    Json.get collect_blob_refs parse_blob_ref
weather_called = refl

bob_told : get_known_peers outside none alice null ≡ ok (unsigned 1)
unfolding get_known_peers Peers.list sort summaries parse_instance_id
bob_told = refl

get_known_peers-tells_example :
    (req : GetKnownPeersRequest) × (told : List PeerSummary) × (outside.decode_peers null
      ≡ some req)
    × (outside.encode_peers (record { peers = told }) ≡ some (unsigned 1))
    × (length told ≤ req.limit)
    × (length told ≤ 1000)
    × ((s : PeerSummary) → In s told → IsTold outside req.capability alice.peers s)
get_known_peers-tells_example = get_known_peers-tells outside none alice null (unsigned 1) bob_told

abbrev bob_hash : String
bob_hash = hash_bytes toy (1 ∷ [])

bob_read : read_local_bytes outside none alice bob_hash ≡ some (1 ∷ [])
unfolding read_local_bytes Blobs.get Table.find hash_bytes spelled unary
bob_read = refl

read_local_bytes-hash_example : hash_bytes toy (1 ∷ []) ≡ bob_hash
read_local_bytes-hash_example = read_local_bytes-hash outside none alice bob_hash (1 ∷ []) bob_read

abbrev some_ref : Value
some_ref = object (
    field "hash" (text "sha256:aaaaaaaaaaaaaaaaaaaaaaaaaaaaaaaaaaaaaaaaaaaaaaaaaaaaaaaaaaaaaaaa")
      (field "size" (unsigned 3) (field "mime" (text "text/plain") end)))
