-- ===== src/Storage/Peers.antt =====
-- crates/storage/src/peers.rs: the peer directory.
pub mod Directory
use n3ur0n.Storage.Table
use n3ur0n.Prelude.{
  leb, eqb, if◌then◌else◌, length, take, all, filter, texts_le, sort, codes, is_ascii_lowercase,
  is_ascii_digit, starts_with, drop_prefix, ok, ℕ, suc, String, Bool, true, false, not, ◌||◌,
  Option, none, some, List, [], ◌++◌,
}
use n3ur0n.Identity.{id_prefix}
use n3ur0n.Storage.{StorageResult, Fault, statement, query}

pub record PeerRecord : Type 0 where
  pub id : String
  pub endpoint : String
  pub alias : Option String
  pub last_seen : Option ℕ
  pub tls_fingerprint : Option String
  pub describe_self_cached : Option String
  pub describe_self_fetched_at : Option ℕ
  pub source : Option String

abbrev pub peer_key : PeerRecord → String
peer_key r = r.id

-- SQL's `COALESCE(new, old)`.
abbrev pub coalesce : {A : Type 0} → Option A → Option A → Option A
coalesce (some a) old = some a
coalesce none old = old

-- `ON CONFLICT(id) DO UPDATE SET …`
unfoldable pub merge : PeerRecord → PeerRecord → PeerRecord
merge new old = record {
  id = old.id;
  endpoint = new.endpoint;
  alias = coalesce new.alias old.alias;
  last_seen = coalesce new.last_seen old.last_seen;
  tls_fingerprint = coalesce new.tls_fingerprint old.tls_fingerprint;
  describe_self_cached = coalesce new.describe_self_cached old.describe_self_cached;
  describe_self_fetched_at = coalesce new.describe_self_fetched_at old.describe_self_fetched_at;
  source = coalesce new.source old.source;
}

unfoldable pub upsert : Fault → List PeerRecord → PeerRecord → StorageResult Unit × List PeerRecord
upsert fault peers r = statement fault peers tt (Table.upsert peer_key merge peers r)

abbrev pub with_alias : Option String → PeerRecord → PeerRecord
with_alias alias r = record r { alias = alias }

unfoldable pub set_alias :
    Fault → List PeerRecord → String → Option String → StorageResult Unit × List PeerRecord
set_alias fault peers id alias =
    statement fault peers tt (Table.update peer_key (with_alias alias) peers id)

unfoldable pub get : Fault → List PeerRecord → String → StorageResult (Option PeerRecord)
get fault peers id = query fault (Table.find peer_key peers id)

-- `DELETE`, which reports whether a row went.
unfoldable pub delete : Fault → List PeerRecord → String → StorageResult Bool × List PeerRecord
delete fault peers id =
    statement fault peers (elim (Table.find peer_key peers id) [ none ↦ false | some _ ↦ true ])
      (Table.remove peer_key peers id)

-- `strip_prefix("n3:").unwrap_or(prefix)`
abbrev pub strip_id_prefix : List ℕ → List ℕ
strip_id_prefix cs =
    if starts_with (codes id_prefix) cs then drop_prefix (codes id_prefix) cs else cs

abbrev pub is_id_char : ℕ → Bool
is_id_char ch = is_ascii_lowercase ch || is_ascii_digit ch

abbrev by_id : PeerRecord → PeerRecord → Bool
by_id a b = texts_le (codes a.id) (codes b.id)

unfoldable pub find_by_id_prefix :
    Fault → List PeerRecord → String → ℕ → StorageResult (List PeerRecord)
find_by_id_prefix fault peers prefix limit =
    let body = strip_id_prefix (codes prefix) in
    if eqb (length body) 0 || not (all is_id_char body)
    then ok []
    else query fault (
        take limit (
          sort by_id (
            filter (λ (r : PeerRecord). starts_with (codes id_prefix ++ body) (codes r.id)) peers)))

-- `ORDER BY last_seen DESC NULLS LAST`; SQL leaves the order of ties open.
abbrev pub seen_rank : PeerRecord → ℕ
seen_rank r = elim r.last_seen [ none ↦ 0 | some t ↦ suc t ]

abbrev pub by_last_seen : PeerRecord → PeerRecord → Bool
by_last_seen a b = leb (seen_rank b) (seen_rank a)

unfoldable pub list : Fault → List PeerRecord → ℕ → StorageResult (List PeerRecord)
list fault peers limit = query fault (take limit (sort by_last_seen peers))
