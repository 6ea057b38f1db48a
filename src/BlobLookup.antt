-- ===== src/BlobLookup.antt =====
-- crates/node/src/blob_resolve.rs: the blob references in the arguments of a call, and the bytes
-- that this node holds.
pub mod Integrity
use n3ur0n.Storage.Blobs
use n3ur0n.Json
use n3ur0n.Prelude.{
  if◌then◌else◌, ok, err, ℕ, String, Option, none, some, List, [], ◌∷◌, ◌++◌, ◌==◌,
}
use n3ur0n.BlobTypes.{BlobRef, validate_hash, hash_bytes}
use n3ur0n.Identity.{Bytes}
use n3ur0n.Json.{
  Value, null, boolean, unsigned, other_number, text, array, object, Items, nil, cons, Fields, end,
  field, as_str, as_u64,
}
use n3ur0n.Node.{Node, Outside}
use n3ur0n.Storage.{StorageResult, Fault}
use n3ur0n.Storage.Blobs.{BlobRecord}

unfoldable as_text : Option Value → Option String
as_text none = none
as_text (some v) = as_str v

unfoldable as_size : Option Value → Option ℕ
as_size none = none
as_size (some v) = as_u64 v

-- The fields that `parse_blob_ref` requires, once read.
unfoldable ref_of : Value → Option String → Option ℕ → Option String → Option BlobRef
unfolding as_text
ref_of v none size mime = none
ref_of v (some hash) none mime = none
ref_of v (some hash) (some size) none = none
ref_of v (some hash) (some size) (some mime) = elim (validate_hash hash) [
  | err e ↦ none
  | ok u ↦ some (record {
    hash = hash;
    size = size;
    mime = mime;
    fetch_url = as_text (Json.get v "fetch_url");
    name = as_text (Json.get v "name");
  })
]

unfoldable pub parse_blob_ref : Value → Option BlobRef
unfolding ref_of as_text as_size
parse_blob_ref v =
    ref_of v (as_text (Json.get v "hash")) (as_size (Json.get v "size"))
      (as_text (Json.get v "mime"))

-- A value that is a reference stands for itself; any other is walked.
abbrev pub or_walk : Option BlobRef → List BlobRef → List BlobRef
or_walk (some r) rest = r ∷ []
or_walk none rest = rest

-- `walk_blob_refs`
unfoldable mutual
  pub collect_blob_refs : Value → List BlobRef
  collect_blob_refs (array xs) = or_walk (parse_blob_ref (array xs)) (collect_items xs)
  collect_blob_refs (object fs) = or_walk (parse_blob_ref (object fs)) (collect_fields fs)
  collect_blob_refs null = or_walk (parse_blob_ref null) []
  collect_blob_refs (boolean b) = or_walk (parse_blob_ref (boolean b)) []
  collect_blob_refs (unsigned n) = or_walk (parse_blob_ref (unsigned n)) []
  collect_blob_refs other_number = or_walk (parse_blob_ref other_number) []
  collect_blob_refs (text s) = or_walk (parse_blob_ref (text s)) []

  pub collect_items : Items → List BlobRef
  collect_items nil = []
  collect_items (cons x xs) = collect_blob_refs x ++ collect_items xs

  pub collect_fields : Fields → List BlobRef
  collect_fields end = []
  collect_fields (field k v fs) = collect_blob_refs v ++ collect_fields fs

-- `std::fs::read(path)`, kept where the content has the hash.
abbrev pub read_checked : Outside → String → String → Option Bytes
read_checked o path hash = elim (o.read_file path) [
  | none ↦ none
  | some b ↦ if hash_bytes o.crypto b == hash then some b else none
]

-- The second place to look: `<blobs_dir>/<hash>`.
abbrev pub from_dir : Outside → Option String → String → Option Bytes
from_dir o none hash = none
from_dir o (some root) hash = read_checked o (o.join_path root hash) hash

abbrev pub indexed_path : StorageResult (Option BlobRecord) → Option String
indexed_path (ok (some rec)) = some rec.columns.storage_path
indexed_path (ok none) = none
indexed_path (err e) = none

abbrev pub from_index : Outside → Option String → String → Option Bytes
from_index o none hash = none
from_index o (some path) hash = read_checked o path hash

unfoldable pub read_local_bytes : Outside → Fault → Node → String → Option Bytes
read_local_bytes o fault node hash =
    elim (from_index o (indexed_path (Blobs.get fault node.blobs hash)) hash) [
      | some b ↦ some b
      | none ↦ from_dir o node.config.blobs_dir hash
    ]
