-- ===== src/Catalog.antt =====
-- crates/node/src/planner/catalog.rs: the capabilities that a plan may use. What `serde_json` reads
-- from a text is a parameter, as are the scores of the ranking, which are floats.
pub mod Lookup
pub mod Filtering
pub mod Ranking
use Prim.Native.String.{◌++◌ as join}
use n3ur0n.Registry
use n3ur0n.Storage.Peers
use n3ur0n.Storage
use n3ur0n.Prelude.{
  ltb, eqb, if◌then◌else◌, length, take, any, filter, sort, ok, err, ℕ, String, Bool, true, false,
  not, ◌&&◌, ◌||◌, Option, none, some, List, [], ◌∷◌, ◌++◌, map, ◌==◌,
}
use n3ur0n.Capability.{CapabilityDecl}
use n3ur0n.Lobe.{contains}
use n3ur0n.Registry.{CapabilityRegistry}
use n3ur0n.Storage.{StorageResult, Fault}
use n3ur0n.Storage.Peers.{PeerRecord}
use n3ur0n.Text.{take_chars, strip_prefix, split_twice}

pub record ToolDef : Type 0 where
  pub peer_id : String
  pub peer_endpoint : Option String
  pub cap : CapabilityDecl

-- `struct Catalog`, by its field.
abbrev pub Catalog : Type 0
Catalog = List ToolDef

abbrev pub local_top_k : ℕ
local_top_k = 12

-- `n3:`
abbrev id_prefix : List ℕ
id_prefix = 110 ∷ 51 ∷ 58 ∷ []

abbrev pub colon : ℕ
colon = 58

abbrev or_whole : Option String → String → String
or_whole none s = s
or_whole (some rest) s = rest

unfoldable pub short_peer : String → String
short_peer peer_id = take_chars 12 (or_whole (strip_prefix id_prefix peer_id) peer_id)

-- `format!("{short}::{}", name)`
abbrev pub qualified : String → String → String
qualified short name = join short (String.◌∷◌ ":" (String.◌∷◌ ":" name))

unfoldable pub tool_name : ToolDef → String
tool_name t = qualified (short_peer t.peer_id) t.cap.name

unfoldable pub tool_names : Catalog → List (String × String)
tool_names catalog = map (λ (t : ToolDef). (short_peer t.peer_id, t.cap.name)) catalog

-- `iter().find(..)`
unfoldable pub find_tool : String → String → Catalog → Option ToolDef
find_tool peer cap_name [] = none
find_tool peer cap_name (t ∷ catalog) =
    if short_peer t.peer_id == peer && t.cap.name == cap_name
    then some t
    else find_tool peer cap_name catalog

abbrev pub find_pair : Catalog → Option (String × String) → Option ToolDef
find_pair catalog none = none
find_pair catalog (some (peer, cap_name)) = find_tool peer cap_name catalog

unfoldable pub find : Catalog → String → Option ToolDef
find catalog name = find_pair catalog (split_twice colon name)

-- `is_empty() || contains(..)`
abbrev admits : List String → List String → Bool
admits asked have = eqb (length asked) 0 || any (λ h. contains asked h) have

unfoldable pub in_scope : List String → List String → List String → ToolDef → Bool
in_scope peer_ids lobes capabilities t =
    admits peer_ids (t.peer_id ∷ [])
    && admits lobes t.cap.lobe_ids
    && admits capabilities (t.cap.name ∷ [])

unfoldable pub scoped_to : Catalog → List String → List String → List String → Catalog
scoped_to catalog peer_ids lobes capabilities =
    if eqb (length peer_ids) 0 && eqb (length lobes) 0 && eqb (length capabilities) 0
    then catalog
    else filter (in_scope peer_ids lobes capabilities) catalog

-- `EXCLUDED_CAP_NAMES`, and the demand for an example.
unfoldable pub is_offered : CapabilityDecl → Bool
is_offered cap = not (cap.name == "plan") && not (eqb (length cap.examples) 0)

-- What `serde_json` reads: the `capabilities` of a cached description, each where it is a declaration.
abbrev pub ReadDecls : Type 0
ReadDecls = String → List (Option CapabilityDecl)

-- The declarations that could be read.
unfoldable pub present : List (Option CapabilityDecl) → List CapabilityDecl
present [] = []
present (none ∷ decls) = present decls
present (some cap ∷ decls) = cap ∷ present decls

abbrev pub remote_tool : PeerRecord → CapabilityDecl → ToolDef
remote_tool p cap = record { peer_id = p.id; peer_endpoint = some p.endpoint; cap = cap }

abbrev pub local_tool : String → CapabilityDecl → ToolDef
local_tool self_id cap = record { peer_id = self_id; peer_endpoint = none; cap = cap }

-- The declarations in the cached description of a peer.
abbrev pub cached_decls : ReadDecls → Option String → List CapabilityDecl
cached_decls read none = []
cached_decls read (some raw) = present (read raw)

-- The loop over the known peers.
unfoldable pub remote_tools : ReadDecls → List PeerRecord → Catalog
remote_tools read [] = []
remote_tools read (p ∷ ps) =
    map (remote_tool p) (filter is_offered (cached_decls read p.describe_self_cached))
    ++ remote_tools read ps

unfoldable pub local_tools : String → CapabilityRegistry → Catalog
local_tools self_id registry =
    map (local_tool self_id) (filter is_offered (Registry.all_decls registry))

unfoldable pub build :
    ReadDecls → Fault → String → CapabilityRegistry → List PeerRecord → ℕ → StorageResult Catalog
build read fault self_id registry db peer_limit = elim (Storage.Peers.list fault db peer_limit) [
  | ok records ↦ ok (local_tools self_id registry ++ remote_tools read records)
  | err e ↦ err e
]

abbrev pub is_none : Option String → Bool
is_none none = true
is_none (some s) = false

-- Scores, and `total_cmp`: whether the first is at least the second.
module _ (Score : Type 0) (at_least : Score → Score → Bool) where
  abbrev pub Scored : Type 0
  Scored = ToolDef × Score

  abbrev pub is_local : Scored → Bool
  is_local x = is_none x.0.peer_endpoint

  abbrev by_score : Scored → Scored → Bool
  by_score a b = at_least a.1 b.1

  -- `sort_by` only where something must be dropped, then `take`.
  unfoldable pub ranked : ℕ → List Scored → List Scored
  ranked k xs = take k (if ltb k (length xs) then sort by_score xs else xs)

  -- `zip`
  abbrev pub with_scores : Catalog → List Score → List Scored
  with_scores [] scores = []
  with_scores (t ∷ tools) [] = []
  with_scores (t ∷ tools) (s ∷ scores) = (t, s) ∷ with_scores tools scores

  unfoldable pub rank_tools : List Scored → ℕ → Catalog
  rank_tools pairs remote_top_k =
      map (λ (x : Scored). x.0) (ranked local_top_k (filter is_local pairs))
      ++ map (λ (x : Scored). x.0) (ranked remote_top_k (filter (λ x. not (is_local x)) pairs))

  unfoldable pub filter_with_scores : Catalog → List Score → ℕ → Catalog
  filter_with_scores tools scores remote_top_k =
      if eqb remote_top_k 0 || not (eqb (length scores) (length tools))
      then tools
      else rank_tools (with_scores tools scores) remote_top_k
