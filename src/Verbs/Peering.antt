-- ===== src/Verbs/Peering.antt =====
-- What `get_known_peers` of crates/node/src/handler.rs tells.
use n3ur0n.Storage.Peers
use mathlib.Core.Path.{subst}
use n3ur0n.Prelude.{
  Bool-cases, Option-cases, length, take, In, length-take, In-take, sort, In-sort, ok, Result-cases,
  ℕ, ◌≤◌, min, String, ◌≡◌, refl, sym, ap, ◌∙◌, inl, inr, true, Option, none, some, List, [], ◌∷◌,
  arith,
}
use n3ur0n.Identity.{parse_instance_id}
use n3ur0n.Json.{Value}
use n3ur0n.Node.{Node, Outside}
use n3ur0n.Protocol.{GetKnownPeersRequest, PeerSummary}
use n3ur0n.Storage.{Fault}
use n3ur0n.Storage.Peers.{PeerRecord, by_last_seen}
use n3ur0n.Verbs.{wanted, summary_of, summaries, get_known_peers}

-- A summary that may be told of a peer.
pub record IsTold (o : Outside) (capability : Option String) (peers : List PeerRecord)
    (s : PeerSummary) : Type 0 where
  pub peer : PeerRecord
  pub known : In peer peers
  pub parses : parse_instance_id peer.id ≡ ok s.instance_id
  pub reached : s.endpoint ≡ some peer.endpoint
  pub named : s.alias ≡ peer.alias
  pub wanted_here : wanted o capability peer ≡ true

summary_of_sound :
    (o : Outside) (capability : Option String) (p : PeerRecord) (s : PeerSummary)
    → summary_of o capability p ≡ some s
    → (parse_instance_id p.id ≡ ok s.instance_id)
      × (s.endpoint ≡ some p.endpoint)
      × (s.alias ≡ p.alias)
      × (wanted o capability p ≡ true)
summary_of_sound o capability p s h = elim (Result-cases (parse_instance_id p.id)) [
  | inl (problem, unparsed) ↦ absurd (ground (arith, unparsed))
  | inr (id, parsed) ↦ elim (Bool-cases (wanted o capability p)) [
    | inl serves ↦ ground (arith, parsed, serves)
    | inr lacks ↦ absurd (ground (arith, parsed, lacks))
  ]
]

later :
    {o : Outside} {capability : Option String} {s : PeerSummary} (p : PeerRecord)
    (ps : List PeerRecord)
    → IsTold o capability ps s
    → IsTold o capability (p ∷ ps) s
later p ps t = record {
  peer = t.peer;
  known = inr t.known;
  parses = t.parses;
  reached = t.reached;
  named = t.named;
  wanted_here = t.wanted_here;
}

summaries-skip :
    (o : Outside) (capability : Option String) (p : PeerRecord) (ps : List PeerRecord)
    → summary_of o capability p ≡ none
    → summaries o capability (p ∷ ps) ≡ summaries o capability ps
unfolding summaries
summaries-skip o capability p ps h = ground (arith, h)

summaries-tell :
    (o : Outside) (capability : Option String) (p : PeerRecord) (ps : List PeerRecord)
    (t : PeerSummary)
    → summary_of o capability p ≡ some t
    → summaries o capability (p ∷ ps) ≡ t ∷ summaries o capability ps
unfolding summaries
summaries-tell o capability p ps t h = ground (arith, h)

summaries_sound :
    (o : Outside) (capability : Option String) (ps : List PeerRecord) (s : PeerSummary)
    → In s (summaries o capability ps)
    → IsTold o capability ps s
unfolding summaries
summaries_sound o capability [] s m = elim m [ ]
summaries_sound o capability (p ∷ ps) s m = elim (Option-cases (summary_of o capability p)) [
  | inl skipped ↦ later p ps (
      summaries_sound o capability ps s (subst (In s) (summaries-skip o capability p ps skipped) m))
  | inr (t, told) ↦ elim (subst (In s) (summaries-tell o capability p ps t told) m) [
    | inl same ↦
        let (parses, reached, named, wanted_here) =
          summary_of_sound o capability p s (told ∙ ap some same) in
        record {
          peer = p;
          known = inl refl;
          parses = parses;
          reached = reached;
          named = named;
          wanted_here = wanted_here;
        }
    | inr rest ↦ later p ps (summaries_sound o capability ps s rest)
  ]
]

length-summaries :
    (o : Outside) (capability : Option String) (ps : List PeerRecord)
    → length (summaries o capability ps) ≤ length ps
unfolding summaries
length-summaries o capability [] = omega arith
length-summaries o capability (p ∷ ps) = ground (arith, length-summaries o capability ps)

list-ok :
    (fault : Fault) (peers records : List PeerRecord) (limit : ℕ)
    → Peers.list fault peers limit ≡ ok records
    → (length records ≤ limit) × ((p : PeerRecord) → In p records → In p peers)
unfolding Peers.list
list-ok (some e) peers records limit h = absurd (cc h)
list-ok none peers records limit h =
    let e : take limit (sort by_last_seen peers) ≡ records = ground arith in
    (
      subst (λ (l : List PeerRecord). length l ≤ limit) e
          (omega (arith, length-take limit (sort by_last_seen peers))),
      λ p m.
          In-sort by_last_seen peers p
            (In-take limit (sort by_last_seen peers) p (subst (In p) (sym e) m)),
    )

known_elsewhere :
    {o : Outside} {capability : Option String} {s : PeerSummary} {records peers : List PeerRecord}
    → ((p : PeerRecord) → In p records → In p peers)
    → IsTold o capability records s
    → IsTold o capability peers s
known_elsewhere known t = record {
  peer = t.peer;
  known = known t.peer t.known;
  parses = t.parses;
  reached = t.reached;
  named = t.named;
  wanted_here = t.wanted_here;
}

-- A list of peers that is told has at most as many as were asked for, and at most 1000; each is a
-- peer of the directory whose id parses, and where a capability was asked for, one whose cached
-- descriptor shows it with a mode other than private.
pub get_known_peers-tells :
    (o : Outside) (fault : Fault) (node : Node) (payload v : Value)
    → get_known_peers o fault node payload ≡ ok v
    → (req : GetKnownPeersRequest) × (told : List PeerSummary) × (o.decode_peers payload ≡ some req)
      × (o.encode_peers (record { peers = told }) ≡ some v)
      × (length told ≤ req.limit)
      × (length told ≤ 1000)
      × ((s : PeerSummary) → In s told → IsTold o req.capability node.peers s)
unfolding get_known_peers
get_known_peers-tells o fault node payload v h = elim (Option-cases (o.decode_peers payload)) [
  | inl undecoded ↦ absurd (ground (arith, undecoded))
  | inr (req, decoded) ↦ elim (Result-cases (Peers.list fault node.peers (min req.limit 1000))) [
    | inl (problem, failed) ↦ absurd (ground (arith, decoded, failed))
    | inr (records, listed) ↦
        let (few, known) = list-ok fault node.peers records (min req.limit 1000) listed in
        (
          req,
          summaries o req.capability records,
          decoded,
          ground (arith, decoded, listed),
          omega (arith, few, length-summaries o req.capability records),
          omega (arith, few, length-summaries o req.capability records),
          λ s m. known_elsewhere known (summaries_sound o req.capability records s m),
        )
  ]
]
