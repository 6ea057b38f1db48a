-- ===== src/Discovery.antt =====
-- crates/node/src/discovery.rs: `refresh_peer`, which pulls the descriptor of a peer into the
-- directory. The walks over many peers (`bootstrap_*`, `discover_capability`) are not modelled.
pub mod Filing
use n3ur0n.Storage.Peers
use n3ur0n.Prelude.{if◌then◌else◌, ok, err, ℕ, String, Option, none, some, List, ◌==◌}
use n3ur0n.Clock.{unix_timestamp}
use n3ur0n.Node.{Node, Outside, node_id}
use n3ur0n.NodeErrors.{describe_failed, NodeError, NodeResult}
use n3ur0n.Protocol.{DescribeSelfResponse}
use n3ur0n.Storage.{StorageResult, Fault}
use n3ur0n.Storage.Peers.{PeerRecord}

-- What one pull meets: the answer of `client::describe_self` at an endpoint, if there is one, what
-- `serde_json::to_string` writes, the clock, and the statements that may fail.
pub record Pull : Type 0 where
  pub describe : String → Option DescribeSelfResponse
  pub print : DescribeSelfResponse → Option String
  pub now : ℕ
  pub upsert : Fault
  pub set_alias : Fault

abbrev pub described_row : Pull → String → DescribeSelfResponse → String → PeerRecord
described_row p endpoint d cached = record {
  id = d.instance_id;
  endpoint = endpoint;
  alias = d.alias;
  last_seen = some (unix_timestamp p.now);
  tls_fingerprint = none;
  describe_self_cached = some cached;
  describe_self_fetched_at = some (unix_timestamp p.now);
  source = some "bootstrap";
}

abbrev filed : DescribeSelfResponse → StorageResult Unit → NodeResult DescribeSelfResponse
filed d (ok u) = ok d
filed d (err e) = err (NodeError.storage e)

-- The alias is written only once the row is.
abbrev pub rename_described :
    Pull
    → DescribeSelfResponse
    → StorageResult Unit × List PeerRecord
    → NodeResult DescribeSelfResponse × List PeerRecord
rename_described p d (err e, peers) = (err (NodeError.storage e), peers)
rename_described p d (ok u, peers) =
    let (named, rows) = Peers.set_alias p.set_alias peers d.instance_id d.alias in
    (filed d named, rows)

abbrev pub file_described :
    Pull
    → List PeerRecord
    → String
    → DescribeSelfResponse
    → Option String
    → NodeResult DescribeSelfResponse × List PeerRecord
file_described p peers endpoint d none = (err NodeError.serde, peers)
file_described p peers endpoint d (some cached) =
    rename_described p d (Peers.upsert p.upsert peers (described_row p endpoint d cached))

-- What an endpoint answered; the descriptor of the node itself is not filed.
abbrev pub take_description :
    Outside
    → Pull
    → Node
    → String
    → Option DescribeSelfResponse
    → NodeResult DescribeSelfResponse × List PeerRecord
take_description o p node endpoint none =
    (err (NodeError.invalid_payload (describe_failed endpoint)), node.peers)
take_description o p node endpoint (some d) =
    let written = file_described p node.peers endpoint d (p.print d) in
    if d.instance_id == node_id o node then (ok d, node.peers) else written

unfoldable pub refresh_peer :
    Outside → Pull → Node → String → NodeResult DescribeSelfResponse × Node
refresh_peer o p node endpoint =
    let (answer, peers) = take_description o p node endpoint (p.describe endpoint) in
    (answer, record node { peers = peers })
