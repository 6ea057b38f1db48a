-- ===== src/Node.antt =====
-- crates/node/src/node.rs: the state of a node and what may be changed while it runs. The tables of
-- its database are fields; `Outside` holds what the node calls of other crates and of the network.
pub mod Membership
use n3ur0n.Prelude.{Result, ℕ, String, Option, List}
use n3ur0n.Identity.{Bytes, InstanceId, Crypto, Keypair, instance_id}
use n3ur0n.Json.{Value}
use n3ur0n.Message.{Envelope, VerifyConfig}
use n3ur0n.NodeErrors.{AdapterError}
use n3ur0n.Protocol.{
  DescribeSelfResponse, GetKnownPeersRequest, GetKnownPeersResponse, PingResponse, InvokeRequest,
  InvokeResponse,
}
use n3ur0n.Registry.{CapabilityRegistry, enforce_instance_lobes}
use n3ur0n.Storage.Audit.{AuditRow}
use n3ur0n.Storage.Blobs.{BlobRecord}
use n3ur0n.Storage.Nonces.{NonceRow}
use n3ur0n.Storage.Peers.{PeerRecord}

-- `NodeConfig`
pub record NodeConfig : Type 0 where
  pub endpoint : Option String
  pub alias : Option String
  pub lobe_ids : List String
  pub verify : VerifyConfig
  pub bootstrap_peers : List String
  pub blobs_dir : Option String

-- `Node`, with the tables behind `db`. The clock is in `Readings`, the backend in `Outside`; the
-- backends and the directory of manifest mode are not modelled.
pub record Node : Type 0 where
  pub keypair : Keypair
  pub registry : CapabilityRegistry
  pub lobes : List String
  pub alias : Option String
  pub config : NodeConfig
  pub nonces : List NonceRow
  pub peers : List PeerRecord
  pub audit : List AuditRow
  pub blobs : List BlobRecord

pub record Outside : Type 0 where
  pub crypto : Crypto
  -- `serde_jcs::to_vec`
  pub canonical : Envelope → Option Bytes
  -- `OffsetDateTime::format(Rfc3339)`
  pub rfc3339 : ℕ → Option String
  -- `serde_json::to_value`, `from_value` and `from_str` at the types of the protocol.
  pub encode_descriptor : DescribeSelfResponse → Option Value
  pub encode_ping : PingResponse → Option Value
  pub encode_peers : GetKnownPeersResponse → Option Value
  pub encode_result : InvokeResponse → Option Value
  pub decode_peers : Value → Option GetKnownPeersRequest
  pub decode_invoke : Value → Option InvokeRequest
  pub decode_descriptor : String → Option DescribeSelfResponse
  -- `Backend::invoke` of the node's backend.
  pub backend : String → Value → Result AdapterError Value
  -- `std::fs::read` and `Path::join`.
  pub read_file : String → Option Bytes
  pub join_path : String → String → String

-- `Node::new`, over the tables of an opened database.
unfoldable pub new_node :
    Keypair
    → CapabilityRegistry
    → NodeConfig
    → List NonceRow
    → List PeerRecord
    → List AuditRow
    → List BlobRecord
    → Node
new_node keypair registry config nonces peers audit blobs = record {
  keypair = keypair;
  registry = (enforce_instance_lobes registry config.lobe_ids).0;
  lobes = config.lobe_ids;
  alias = config.alias;
  config = config;
  nonces = nonces;
  peers = peers;
  audit = audit;
  blobs = blobs;
}

-- `Node::set_alias`
unfoldable pub rename : Node → Option String → Node
rename node alias = record node { alias = alias }

-- `Node::set_lobes`
unfoldable pub set_lobes : Node → List String → Node
set_lobes node lobes = record node {
  lobes = lobes;
  registry = (enforce_instance_lobes node.registry lobes).0;
}

abbrev pub node_id : Outside → Node → InstanceId
node_id o node = instance_id o.crypto node.keypair
