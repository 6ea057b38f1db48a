-- ===== src/Verbs.antt =====
-- The verb handlers of crates/node/src/handler.rs.
pub mod Access
pub mod Peering
use n3ur0n.Storage.Peers
use n3ur0n.Registry
use n3ur0n.Prelude.{
  if◌then◌else◌, any, ok, err, ◌>>=◌, ok_or, ℕ, min, String, Bool, true, false, ◌&&◌, Option, none,
  some, List, [], ◌∷◌, ◌==◌,
}
use n3ur0n.BlobLookup.{collect_blob_refs, read_local_bytes}
use n3ur0n.BlobTypes.{BlobRef}
use n3ur0n.Capability.{free, restricted, private, is_public, CapabilityDecl}
use n3ur0n.Identity.{instance_id, parse_instance_id}
use n3ur0n.Json.{Value}
use n3ur0n.Message.{ProtocolVerb}
use n3ur0n.Node.{Node, Outside, node_id}
use n3ur0n.NodeErrors.{
  undecodable, token_required, blob_missing, unformattable_time, NodeError, NodeResult,
  from_storage, from_adapter,
}
use n3ur0n.Protocol.{protocol_version, DescribeSelfResponse, PeerSummary, InvokeRequest}
use n3ur0n.Registry.{binding_for, public_decls}
use n3ur0n.Storage.{Fault}
use n3ur0n.Storage.Peers.{PeerRecord}

unfoldable pub describe_self : Outside → Node → ℕ → NodeResult Value
describe_self o node now = do
  updated_at ← ok_or (o.rfc3339 now) (NodeError.invalid_payload unformattable_time)
  ok_or
      (o.encode_descriptor (record {
        instance_id = node_id o node;
        endpoint = node.config.endpoint;
        alias = node.alias;
        version = protocol_version;
        updated_at = updated_at;
        lobe_ids = node.lobes;
        capabilities = public_decls node.registry;
      }))
      NodeError.serde

unfoldable pub ping : Outside → ℕ → NodeResult Value
ping o now = do
  server_time ← ok_or (o.rfc3339 now) (NodeError.invalid_payload unformattable_time)
  ok_or (o.encode_ping (record { server_time = server_time })) NodeError.serde

-- The descriptor that is cached for a peer, if it can be read.
abbrev cached_descriptor : Outside → PeerRecord → Option DescribeSelfResponse
cached_descriptor o p = elim p.describe_self_cached [
  | none ↦ none
  | some raw ↦ o.decode_descriptor raw
]

abbrev pub offers : String → Option DescribeSelfResponse → Bool
offers want none = false
offers want (some d) =
    any (λ (cap : CapabilityDecl). cap.name == want && is_public cap.mode) d.capabilities

abbrev pub wanted : Outside → Option String → PeerRecord → Bool
wanted o none p = true
wanted o (some want) p = offers want (cached_descriptor o p)

abbrev pub summary_of : Outside → Option String → PeerRecord → Option PeerSummary
summary_of o capability p = elim (parse_instance_id p.id) [
  | err e ↦ none
  | ok id ↦
      if wanted o capability p
      then some (record { instance_id = id; endpoint = some p.endpoint; alias = p.alias })
      else none
]

-- `filter_map`
unfoldable pub summaries : Outside → Option String → List PeerRecord → List PeerSummary
summaries o capability [] = []
summaries o capability (p ∷ ps) =
    let rest = summaries o capability ps in
    elim (summary_of o capability p) [ none ↦ rest | some s ↦ s ∷ rest ]

unfoldable pub get_known_peers : Outside → Fault → Node → Value → NodeResult Value
get_known_peers o fault node payload = do
  req ←
      ok_or (o.decode_peers payload)
        (NodeError.invalid_payload (undecodable ProtocolVerb.get_known_peers))
  records ← from_storage (Peers.list fault node.peers (min req.limit 1000))
  ok_or (o.encode_peers (record { peers = summaries o req.capability records })) NodeError.serde

-- The loop over the blobs that the arguments mention.
unfoldable pub check_blobs : Outside → Fault → Node → List BlobRef → NodeResult Unit
check_blobs o fault node [] = ok tt
check_blobs o fault node (b ∷ bs) =
    let rest = check_blobs o fault node bs in
    elim (read_local_bytes o fault node b.hash) [
      | none ↦ err (NodeError.invalid_payload (blob_missing b.hash))
      | some bytes ↦ rest
    ]

-- The checks of the access mode.
unfoldable pub check_access : CapabilityDecl → InvokeRequest → NodeResult Unit
check_access d req = elim d.mode [
  | private ↦ err (NodeError.unknown_capability req.capability)
  | restricted ↦ elim req.subscription_token [
    | none ↦ err (NodeError.invalid_payload (token_required req.capability))
    | some t ↦ ok tt
  ]
  | free ↦ ok tt
]

-- The binding of the capability, or the node's backend.
unfoldable pub call_upstream : Outside → Node → InvokeRequest → NodeResult Value
call_upstream o node req = elim (binding_for node.registry req.capability) [
  | some binding ↦ binding req.args
  | none ↦ from_adapter (o.backend req.capability req.args)
]

unfoldable pub invoke : Outside → Fault → Node → Value → NodeResult Value
invoke o fault node payload = do
  req ←
      ok_or (o.decode_invoke payload) (NodeError.invalid_payload (undecodable ProtocolVerb.invoke))
  decl ←
      ok_or (Registry.get node.registry req.capability)
        (NodeError.unknown_capability req.capability)
  _ ← check_access decl req
  _ ← check_blobs o fault node (collect_blob_refs req.args)
  result ← call_upstream o node req
  ok_or (o.encode_result (record { result = result })) NodeError.serde
