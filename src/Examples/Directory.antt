-- ===== src/Examples/Directory.antt =====
-- Runs of crates/storage/src.
use n3ur0n.Storage.Peers
use n3ur0n.Storage.Nonces
use n3ur0n.Storage.Table
use n3ur0n.Prelude.{sort, ok, ◌≡◌, refl, false, none, some, List, [], ◌∷◌, arith}
use n3ur0n.Examples.World.{bob_row}
use n3ur0n.Lobe.{contains}
use n3ur0n.Storage.Nonces.{NonceRow}
use n3ur0n.Storage.Peers.{PeerRecord, peer_key}
use n3ur0n.Storage.Peers.Directory.{upsert-keeps}
use n3ur0n.Storage.PlanRuns.{PlanRunRecord, violates}

abbrev peers : List PeerRecord
peers = bob_row ∷ []

abbrev nameless : PeerRecord
nameless = record bob_row { endpoint = "https://new"; alias = none }

bob_stored : Table.find peer_key peers "n3:bob" ≡ some bob_row
unfolding Table.find
bob_stored = refl

upsert-keeps_example :
    (p : PeerRecord) × (Peers.get none (Peers.upsert none peers nameless).1 "n3:bob" ≡ ok (some p))
    × (p.endpoint ≡ "https://new")
    × (p.alias ≡ some "bobby")
upsert-keeps_example = upsert-keeps peers nameless bob_row bob_stored refl

peers-HasKeys : Table.HasKeys peer_key peers
unfolding Table.find
peers-HasKeys = (refl, tt)

bob_prefix : Peers.find_by_id_prefix none peers "n3:bo" 5 ≡ ok peers
unfolding Peers.find_by_id_prefix sort
bob_prefix = refl

abbrev run : PlanRunRecord
run = record {
  id = "r1";
  conversation_id = "c1";
  plan_json = "{}";
  status = "running";
  created_at = 7;
  finished_at = none;
}

run_fits : violates ("c1" ∷ []) [] run ≡ false
unfolding Table.find contains
run_fits = refl

abbrev nonces : List NonceRow
nonces = record { sender_id = "n3:bob"; nonce = "abc"; seen_at = 10 } ∷ []

abc_seen : Nonces.seen nonces "n3:bob" "abc" ≡ some 10
unfolding Nonces.seen
abc_seen = refl

seen-prune_example : Nonces.seen (Nonces.prune_older_than none nonces 10).1 "n3:bob" "abc" ≡ some 10
seen-prune_example = Nonces.seen-prune none nonces 10 "n3:bob" "abc" 10 abc_seen (omega arith)
