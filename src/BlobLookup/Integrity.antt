-- ===== src/BlobLookup/Integrity.antt =====
-- What the blobs of a call are worth: crates/node/src/blob_resolve.rs.
use n3ur0n.Storage.Blobs
use n3ur0n.Json
use n3ur0n.Prelude.{
  Option-cases, All, All-append, ok, Result-cases, ℕ, String, ◌≡◌, inl, inr, Option, none, some,
  List, [], arith, eq_iff,
}
use n3ur0n.BlobLookup.{
  parse_blob_ref, or_walk, collect_blob_refs, collect_items, collect_fields, read_checked, from_dir,
  indexed_path, from_index, read_local_bytes, as_text, as_size, ref_of,
}
use n3ur0n.BlobTypes.{BlobRef, validate_hash, hash_bytes}
use n3ur0n.Identity.{Bytes}
use n3ur0n.Json.{
  Value, null, boolean, unsigned, other_number, text, array, object, Items, nil, cons, Fields, end,
  field,
}
use n3ur0n.Node.{Node, Outside}
use n3ur0n.Storage.{Fault}

read_checked-hash :
    (o : Outside) (path hash : String) (bytes : Bytes)
    → read_checked o path hash ≡ some bytes
    → hash_bytes o.crypto bytes ≡ hash
read_checked-hash o path hash bytes h = elim (Option-cases (o.read_file path)) [
  | inl unread ↦ absurd (ground (arith, unread))
  | inr (b, contents) ↦ ground (arith, contents, eq_iff (hash_bytes o.crypto b) hash)
]

from_index-hash :
    (o : Outside) (path : Option String) (hash : String) (bytes : Bytes)
    → from_index o path hash ≡ some bytes
    → hash_bytes o.crypto bytes ≡ hash
from_index-hash o none hash bytes h = absurd (cc h)
from_index-hash o (some path) hash bytes h = read_checked-hash o path hash bytes h

from_dir-hash :
    (o : Outside) (root : Option String) (hash : String) (bytes : Bytes)
    → from_dir o root hash ≡ some bytes
    → hash_bytes o.crypto bytes ≡ hash
from_dir-hash o none hash bytes h = absurd (cc h)
from_dir-hash o (some root) hash bytes h = read_checked-hash o (o.join_path root hash) hash bytes h

-- Bytes that are found for a hash have that hash, wherever they were found.
pub read_local_bytes-hash :
    (o : Outside) (fault : Fault) (node : Node) (hash : String) (bytes : Bytes)
    → read_local_bytes o fault node hash ≡ some bytes
    → hash_bytes o.crypto bytes ≡ hash
unfolding read_local_bytes
read_local_bytes-hash o fault node hash bytes h =
    let stored = indexed_path (Blobs.get fault node.blobs hash) in
    elim (Option-cases (from_index o stored hash)) [
      | inr (b, found) ↦ from_index-hash o stored hash bytes (ground (arith, found))
      | inl missing ↦ from_dir-hash o node.config.blobs_dir hash bytes (ground (arith, missing))
    ]

ref_of-valid :
    (v : Value) (hash : Option String) (size : Option ℕ) (mime : Option String) (r : BlobRef)
    → ref_of v hash size mime ≡ some r
    → validate_hash r.hash ≡ ok tt
unfolding ref_of
ref_of-valid v none size mime r h = absurd (cc h)
ref_of-valid v (some hash) none mime r h = absurd (cc h)
ref_of-valid v (some hash) (some size) none r h = absurd (cc h)
ref_of-valid v (some hash) (some size) (some mime) r h = elim (Result-cases (validate_hash hash)) [
  | inl (problem, bad) ↦ absurd (ground (arith, bad))
  | inr (u, good) ↦ ground (arith, good)
]

parse_blob_ref-valid :
    (v : Value) (r : BlobRef) → parse_blob_ref v ≡ some r → validate_hash r.hash ≡ ok tt
unfolding parse_blob_ref
parse_blob_ref-valid v r h =
    ref_of-valid v (as_text (Json.get v "hash")) (as_size (Json.get v "size"))
      (as_text (Json.get v "mime")) r h

abbrev pub HasHash : BlobRef → Type 0
HasHash r = validate_hash r.hash ≡ ok tt

or_walk-valid :
    (v : Value) (rest : List BlobRef)
    → All HasHash rest
    → All HasHash (or_walk (parse_blob_ref v) rest)
or_walk-valid v rest h = elim (Option-cases (parse_blob_ref v)) [
  | inl other ↦ rw other h
  | inr (r, parsed) ↦ rw parsed (parse_blob_ref-valid v r parsed, tt)
]

mutual
  unfolding collect_blob_refs

  valid_blob_refs : (v : Value) → All HasHash (collect_blob_refs v)
  valid_blob_refs (array xs) = or_walk-valid (array xs) (collect_items xs) (valid_items xs)
  valid_blob_refs (object fs) = or_walk-valid (object fs) (collect_fields fs) (valid_fields fs)
  valid_blob_refs null = or_walk-valid null [] tt
  valid_blob_refs (boolean b) = or_walk-valid (boolean b) [] tt
  valid_blob_refs (unsigned n) = or_walk-valid (unsigned n) [] tt
  valid_blob_refs other_number = or_walk-valid other_number [] tt
  valid_blob_refs (text s) = or_walk-valid (text s) [] tt

  valid_items : (xs : Items) → All HasHash (collect_items xs)
  valid_items nil = tt
  valid_items (cons x xs) =
      All-append HasHash (collect_blob_refs x) (collect_items xs) (valid_blob_refs x)
        (valid_items xs)

  valid_fields : (fs : Fields) → All HasHash (collect_fields fs)
  valid_fields end = tt
  valid_fields (field k v fs) =
      All-append HasHash (collect_blob_refs v) (collect_fields fs) (valid_blob_refs v)
        (valid_fields fs)

-- Each blob that is collected from the arguments of a call has a well-formed hash.
pub collect_blob_refs-valid : (v : Value) → All HasHash (collect_blob_refs v)
collect_blob_refs-valid v = valid_blob_refs v
