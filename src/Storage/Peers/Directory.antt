-- ===== src/Storage/Peers/Directory.antt =====
-- What the statements of crates/storage/src/peers.rs leave in the directory.
use mathlib.Core.Option
use n3ur0n.Storage.Table
use mathlib.Core.Path.{subst}
use n3ur0n.Prelude.{
  eqb, if◌then◌else◌, Bool-cases, Option-cases, length, take, all, filter, In, In-filter_sound,
  length-take, In-take, sort, In-sort, codes, starts_with, ok, ℕ, ◌≤◌, String, ◌≡◌, refl, sym, ◌≢◌,
  ◌↔◌, inl, inr, Bool, true, not, ◌||◌, Option, none, some, List, [], ◌++◌, arith, ◌==◌, eq_iff,
}
use n3ur0n.Identity.{id_prefix}
use n3ur0n.Storage.{Fault}
use n3ur0n.Storage.Peers.{
  PeerRecord, peer_key, merge, upsert, with_alias, set_alias, get, delete, strip_id_prefix,
  is_id_char, find_by_id_prefix, by_id,
}

-- What a writer does not know stays as it was.
pub merged : PeerRecord → Option PeerRecord → PeerRecord
merged r none = r
merged r (some old) = merge r old

-- After an upsert that runs, the peer's own row is the record, completed by what the directory
-- knew of that peer, and every other peer has the row that it had.
pub get-upsert :
    (peers : List PeerRecord) (r : PeerRecord) (j : String)
    → get none (upsert none peers r).1 j
      ≡ ok (
          if r.id == j
          then some (merged r (Table.find peer_key peers j))
          else Table.find peer_key peers j)
unfolding get upsert merged merge
get-upsert peers r j =
    ground (arith, Table.find-upsert peer_key merge peers r j (λ new old. unfold merge in refl))

-- A writer that gives no alias never erases one: only the endpoint is overwritten.
pub upsert-keeps :
    (peers : List PeerRecord) (r old : PeerRecord)
    → Table.find peer_key peers r.id ≡ some old
    → r.alias ≡ none
    → (p : PeerRecord) × (get none (upsert none peers r).1 r.id ≡ ok (some p))
      × (p.endpoint ≡ r.endpoint)
      × (p.alias ≡ old.alias)
unfolding merged merge
upsert-keeps peers r old found unknown =
    (merge r old, ground (arith, get-upsert peers r r.id, eq_iff r.id r.id), refl, ground arith)

-- A descriptor is authoritative: the alias that it gives is written, `none` included.
pub get-set_alias :
    (peers : List PeerRecord) (id j : String) (alias : Option String)
    → get none (set_alias none peers id alias).1 j
      ≡ ok (
          if id == j
          then Option.map (with_alias alias) (Table.find peer_key peers j)
          else Table.find peer_key peers j)
unfolding get set_alias
get-set_alias peers id j alias =
    ground (arith, Table.find-update peer_key (with_alias alias) peers id j (λ r. refl))

pub upsert-others :
    (fault : Fault) (peers : List PeerRecord) (row : PeerRecord) (id : String)
    → row.id ≢ id
    → get none (upsert fault peers row).1 id ≡ get none peers id
unfolding get upsert
upsert-others none peers row id h = ground (arith, get-upsert peers row id, eq_iff row.id id, h)
upsert-others (some e) peers row id h = refl

pub set_alias-others :
    (fault : Fault) (peers : List PeerRecord) (named id : String) (alias : Option String)
    → named ≢ id
    → get none (set_alias fault peers named alias).1 id ≡ get none peers id
unfolding get set_alias
set_alias-others none peers named id alias h =
    ground (arith, get-set_alias peers named id alias, eq_iff named id, h)
set_alias-others (some e) peers named id alias h = refl

-- After a deletion that runs, the peer is gone and every other peer is as it was; the result says
-- whether there was such a peer.
pub get-delete :
    (peers : List PeerRecord) (id j : String)
    → (get none (delete none peers id).1 j
        ≡ ok (if id == j then none else Table.find peer_key peers j))
      × (((delete none peers id).0 ≡ ok true) ↔ (Table.find peer_key peers id ≢ none))
unfolding get delete
get-delete peers id j = (
  ground (arith, Table.find-remove peer_key peers id j),
  (
    λ h e. ground arith,
    λ n. elim (Option-cases (Table.find peer_key peers id)) [
      | inl e ↦ absurd (n e)
      | inr (r, e) ↦ rw e
    ],
  ),
)

-- One row for each peer, whatever statement runs or fails.
pub directory_keys :
    (fault : Fault) (peers : List PeerRecord) (r : PeerRecord) (id : String) (alias : Option String)
    → Table.HasKeys peer_key peers
    → Table.HasKeys peer_key (upsert fault peers r).1
      × Table.HasKeys peer_key (set_alias fault peers id alias).1
      × Table.HasKeys peer_key (delete fault peers id).1
unfolding upsert set_alias delete
directory_keys (some e) peers r id alias h = (h, h, h)
directory_keys none peers r id alias h = (
  Table.HasKeys-upsert peer_key merge peers r (λ new old. unfold merge in refl) h,
  Table.HasKeys-update peer_key (with_alias alias) peers id (λ x. refl) h,
  Table.HasKeys-remove peer_key peers id h,
)

-- A lookup by prefix returns peers of the directory whose id starts with `n3:` and the fragment,
-- at most `limit` of them, and nothing at all for a fragment that is not lowercase base32.
pub find_by_id_prefix_sound :
    (peers found : List PeerRecord) (prefix : String) (limit : ℕ)
    → find_by_id_prefix none peers prefix limit ≡ ok found
    → (length found ≤ limit)
      × ((r : PeerRecord)
          → In r found
          → In r peers
            × (starts_with (codes id_prefix ++ strip_id_prefix (codes prefix)) (codes r.id) ≡ true)
            × (all is_id_char (strip_id_prefix (codes prefix)) ≡ true))
unfolding find_by_id_prefix
find_by_id_prefix_sound peers found prefix limit h = elim (Bool-cases malformed) [
  | inl bad ↦
      let e : found ≡ [] = ground arith in
      (subst (λ l. length l ≤ limit) (sym e) (omega arith), λ r m. absurd (subst (In r) e m))
  | inr fine ↦
      let e : take limit (sort by_id (filter matching peers)) ≡ found = ground arith in
      subst
        (λ l.
          (length l ≤ limit)
          × ((r : PeerRecord)
              → In r l
              → In r peers × (matching r ≡ true) × (all is_id_char body ≡ true)))
        e
        (
          omega (arith, length-take limit (sort by_id (filter matching peers))),
          λ r m.
              let (k, t) = In-filter_sound matching peers r (
                In-sort by_id (filter matching peers) r
                  (In-take limit (sort by_id (filter matching peers)) r m)) in
              (k, t, ground arith),
        )
]
  where
    body : List ℕ
    body = strip_id_prefix (codes prefix)

    malformed : Bool
    malformed = eqb (length body) 0 || not (all is_id_char body)

    matching : PeerRecord → Bool
    matching r = starts_with (codes id_prefix ++ body) (codes r.id)
