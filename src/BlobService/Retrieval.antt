-- ===== src/BlobService/Retrieval.antt =====
-- `get_blob`, `head_blob` and `delete_blob` of crates/server/src/blobs.rs, and the sweep of
-- blob_gc.rs.
use n3ur0n.Storage.Blobs
use n3ur0n.Storage.Table
use n3ur0n.Prelude.{
  leb, if◌then◌else◌, ok, err, ◌>>=◌, ok_or, refuse_if, ℕ, String, Bool, false, Option, none, some,
  List, [], ◌∷◌,
}
use n3ur0n.BlobService.{
  Wire, Shelf, ShelfFaults, ShelfReadings, storage_failed, malformed_hash, blob_not_found,
  blob_expired, not_authorized, not_uploader, BlobResult, or_refuse, verify_ticket,
}
use n3ur0n.BlobService.Requests.{content, headers, deleted, Response, file_key, with_node}
use n3ur0n.BlobTypes.{BlobOperation, validate_hash}
use n3ur0n.Clock.{unix_timestamp}
use n3ur0n.Identity.{Bytes}
use n3ur0n.Lobe.{contains}
use n3ur0n.Node.{Outside}
use n3ur0n.Storage.{StorageResult, Fault}
use n3ur0n.Storage.Blobs.{BlobRecord, same_text, delete_expired}

abbrev pub is_listed : Wire → Option String → String → Bool
is_listed w none sender = false
is_listed w (some whitelist) sender = elim (w.decode_ids whitelist) [
  | none ↦ false
  | some ids ↦ contains ids sender
]

unfoldable pub get_authorization : Wire → BlobRecord → String → BlobResult Unit
get_authorization w r sender =
    if same_text r.columns.uploader_id (some sender)
    then ok tt
    else if is_listed w r.columns.recipients_whitelist sender
    then ok tt
    else err not_authorized

-- The lookup of GET and DELETE.
abbrev pub found_blob : StorageResult (Option BlobRecord) → BlobResult BlobRecord
found_blob (ok (some r)) = ok r
found_blob (ok none) = err blob_not_found
found_blob (err e) = err storage_failed

-- What a download hands out.
unfoldable pub read_blob :
    Wire → ShelfFaults → ShelfReadings → Shelf → String → String → BlobResult (BlobRecord × Bytes)
read_blob w f t s hash sender = do
  r ← found_blob (Blobs.get f.blob_get s.node.blobs hash)
  _ ← refuse_if (leb r.columns.expires_at (unix_timestamp t.found_at)) blob_expired
  _ ← get_authorization w r sender
  file ← ok_or (Table.find file_key s.files r.columns.storage_path) blob_not_found
  ok (r, file.1)

unfoldable pub get_blob :
    Outside → Wire → ShelfFaults → ShelfReadings → Shelf → String → Option String → Response × Shelf
get_blob o w f t s hash header = elim (validate_hash hash) [
  | err e ↦ (err malformed_hash, s)
  | ok u ↦
      let (verified, node) = verify_ticket o w f t s.node header BlobOperation.fetch hash in
      let after = with_node s node in
      elim verified [
        | err e ↦ (err e, after)
        | ok pair ↦ elim (read_blob w f t after hash pair.0.envelope.sender_id) [
          | err e ↦ (err e, after)
          | ok (r, bytes) ↦ (
            ok (content r.columns.mime r.columns.size bytes),
            with_node after (record node {
              blobs = (Blobs.touch f.blob_touch node.blobs hash (unix_timestamp t.found_at)).1;
            }),
          )
        ]
      ]
]

unfoldable pub head_blob : ShelfFaults → ShelfReadings → Shelf → String → Response
head_blob f t s hash = do
  _ ← or_refuse (validate_hash hash) malformed_hash
  r ← or_refuse (found_blob (Blobs.get f.blob_get s.node.blobs hash)) blob_not_found
  _ ← refuse_if (leb r.columns.expires_at (unix_timestamp t.found_at)) blob_not_found
  ok (headers r.columns.mime r.columns.size)

-- The file goes first, whether that fails or not; then the row.
unfoldable pub erase_blob : ShelfFaults → Shelf → BlobRecord → String → Response × Shelf
erase_blob f s r hash =
    let (erased, rows) = Blobs.delete f.blob_delete s.node.blobs hash in
    let files =
      if f.remove_file then s.files else Table.remove file_key s.files r.columns.storage_path in
    let after = record s { node = record s.node { blobs = rows }; files = files } in
    elim erased [ err e ↦ (err storage_failed, after) | ok u ↦ (ok deleted, after) ]

unfoldable pub delete_blob :
    Outside → Wire → ShelfFaults → ShelfReadings → Shelf → String → Option String → Response × Shelf
delete_blob o w f t s hash header = elim (validate_hash hash) [
  | err e ↦ (err malformed_hash, s)
  | ok u ↦
      let (verified, node) = verify_ticket o w f t s.node header BlobOperation.remove hash in
      let after = with_node s node in
      elim verified [
        | err e ↦ (err e, after)
        | ok pair ↦ elim (found_blob (Blobs.get f.blob_get node.blobs hash)) [
          | err e ↦ (err e, after)
          | ok r ↦
              let erased = erase_blob f after r hash in
              if same_text r.columns.uploader_id (some pair.0.envelope.sender_id)
              then erased
              else (err not_uploader, after)
        ]
      ]
]

-- The files of the rows that a sweep removed; one that is gone already is IsPassed over.
remove_files : List (String × Bytes) → List BlobRecord → List (String × Bytes)
remove_files files [] = files
remove_files files (r ∷ rs) = remove_files (Table.remove file_key files r.columns.storage_path) rs

-- One round of the loop of `blob_gc::spawn`.
unfoldable pub sweep : Fault → Fault → Shelf → ℕ → Shelf
unfolding remove_files
sweep select_fault delete_fault s now =
    let (swept, rows) = delete_expired select_fault delete_fault s.node.blobs now in
    let node = record s.node { blobs = rows } in
    elim swept [
      | err e ↦ with_node s node
      | ok gone ↦ record s { node = node; files = remove_files s.files gone }
    ]
