-- ===== src/Discovery/Filing.antt =====
-- Which rows `refresh_peer` of crates/node/src/discovery.rs may write.
use n3ur0n.Storage.Peers
use n3ur0n.Storage.Peers.Directory
use n3ur0n.Prelude.{
  Bool-cases, ok, err, String, ◌≡◌, refl, ◌∙◌, ◌≢◌, inl, inr, Option, none, some, List, arith, ◌==◌,
  eq_iff,
}
use n3ur0n.Discovery.{
  Pull, described_row, rename_described, file_described, take_description, refresh_peer,
}
use n3ur0n.Node.{Node, Outside, node_id}
use n3ur0n.Protocol.{DescribeSelfResponse}
use n3ur0n.Storage.{StorageResult}
use n3ur0n.Storage.Peers.{PeerRecord}

-- A row of the directory, as a lookup that runs finds it.
abbrev row_at : List PeerRecord → String → StorageResult (Option PeerRecord)
row_at peers id = Peers.get none peers id

rename_described-others :
    (p : Pull) (d : DescribeSelfResponse) (out : StorageResult Unit × List PeerRecord) (id : String)
    → d.instance_id ≢ id
    → row_at (rename_described p d out).1 id ≡ row_at out.1 id
rename_described-others p d (err e, peers) id h = refl
rename_described-others p d (ok u, peers) id h =
    Directory.set_alias-others p.set_alias peers d.instance_id id d.alias h

file_described-others :
    (p : Pull) (peers : List PeerRecord) (endpoint : String) (d : DescribeSelfResponse)
    (cached : Option String) (id : String)
    → d.instance_id ≢ id
    → row_at (file_described p peers endpoint d cached).1 id ≡ row_at peers id
file_described-others p peers endpoint d none id h = refl
file_described-others p peers endpoint d (some cached) id h =
    rename_described-others p d (Peers.upsert p.upsert peers (described_row p endpoint d cached)) id
      h
    ∙ Directory.upsert-others p.upsert peers (described_row p endpoint d cached) id h

take_description-others :
    (o : Outside) (p : Pull) (node : Node) (endpoint : String)
    (answer : Option DescribeSelfResponse) (id : String)
    → ((d : DescribeSelfResponse)
        → answer ≡ some d
        → d.instance_id ≢ node_id o node
        → d.instance_id ≢ id)
    → row_at (take_description o p node endpoint answer).1 id ≡ row_at node.peers id
take_description-others o p node endpoint none id h = refl
take_description-others o p node endpoint (some d) id h =
    elim (Bool-cases (d.instance_id == node_id o node)) [
      | inl own ↦ rw own refl
      | inr foreign ↦ rw foreign (
          file_described-others p node.peers endpoint d (p.print d) id
            (h d refl (λ same. ground (arith, foreign, eq_iff d.instance_id (node_id o node)))))
    ]

-- A pull writes the row of no instance but the one that was described, and not the node's own.
pub refresh_peer-others :
    (o : Outside) (p : Pull) (node : Node) (endpoint id : String)
    → ((d : DescribeSelfResponse)
        → p.describe endpoint ≡ some d
        → d.instance_id ≢ node_id o node
        → d.instance_id ≢ id)
    → Peers.get none (refresh_peer o p node endpoint).1.peers id ≡ Peers.get none node.peers id
unfolding refresh_peer
refresh_peer-others o p node endpoint id h =
    take_description-others o p node endpoint (p.describe endpoint) id h
