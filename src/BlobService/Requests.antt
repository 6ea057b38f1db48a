-- ===== src/BlobService/Requests.antt =====
-- `put_blob` of crates/server/src/blobs.rs, and the responses of its handlers.
use mathlib.Core.Option
use n3ur0n.Storage.Blobs
use n3ur0n.Storage.Table
use n3ur0n.Prelude.{
  ltb, eqb, if◌then◌else◌, length, ok, err, ◌>>=◌, ok_or, refuse_if, ℕ, String, not, Option, none,
  some, List, ◌==◌,
}
use n3ur0n.BlobService.{
  Wire, Shelf, ShelfFaults, ShelfReadings, storage_failed, not_configured, malformed_hash,
  no_capability, no_size, no_mime, size_mismatch, hash_mismatch, io_failed, BlobResult,
  verify_ticket, cap_allows_upload, check_peer_quota, effective_expires,
}
use n3ur0n.BlobTypes.{
  BlobOperation, BlobTicketPayload, validate_hash, hash_bytes, classify_cap_staging,
}
use n3ur0n.Clock.{unix_timestamp}
use n3ur0n.Identity.{Bytes}
use n3ur0n.Message.{SignedMessage}
use n3ur0n.Node.{Node, Outside}
use n3ur0n.Storage.Blobs.{BlobInsert, BlobRecord}

-- The bodies of the responses: 200 and 201 of an upload with size and expiry, a download, the
-- headers of one, and 204.
pub data Answer : Type 0 where
  held created : (size expires_at : ℕ) → Answer
  content : (mime : String) (size : ℕ) (bytes : Bytes) → Answer
  headers : (mime : String) (size : ℕ) → Answer
  deleted : Answer

abbrev pub Response : Type 0
Response = BlobResult Answer

abbrev pub file_key : String × Bytes → String
file_key p = p.0

-- `std::fs::write`, which replaces what the path holds.
abbrev pub written : List (String × Bytes) → String → Bytes → List (String × Bytes)
written files path bytes = Table.upsert file_key (λ new old. (old.0, new.1)) files (path, bytes)

abbrev pub spoiled : List (String × Bytes) → String → Option Bytes → List (String × Bytes)
spoiled files path none = files
spoiled files path (some left) = written files path left

-- `storage_path(&blobs_root(config_dir), hash)`
abbrev pub path_of : Outside → String → String → String
path_of o config_dir hash = o.join_path (o.join_path (o.join_path config_dir "blobs") "sha256") hash

-- The row of `insert_blob_record`.
abbrev pub uploaded :
    Wire → String → ℕ → String → ℕ → String → BlobTicketPayload → String → String → BlobInsert
uploaded w hash size mime expires_at path ticket uploader ticket_nonce = record {
  hash = hash;
  size = size;
  mime = mime;
  path = none;
  expires_at = expires_at;
  storage_path = path;
  provenance = "inbound";
  role = "input";
  anchor_kind = "cap_job";
  processing_status = "staged";
  local_user_id = none;
  client_id = none;
  conversation_id = none;
  dispatch_id = none;
  capability = ticket.capability;
  remote_sender_id = some uploader;
  ticket_nonce = some ticket_nonce;
  invoke_id = none;
  user_visible = classify_cap_staging.user_visible;
  user_deletable = classify_cap_staging.user_deletable;
  uploader_id = some uploader;
  recipients_whitelist = Option.map w.encode_ids ticket.recipients_whitelist;
}

-- A blob that is stored and not expired, whose upload is answered at once.
unfoldable pub already_held : ShelfFaults → ShelfReadings → Node → String → Option BlobRecord
already_held f t node hash = elim (Blobs.get f.blob_get node.blobs hash) [
  | err e ↦ none
  | ok none ↦ none
  | ok (some r) ↦ if ltb (unix_timestamp t.found_at) r.columns.expires_at then some r else none
]

-- The checks of the body.
unfoldable pub check_body :
    Outside → ShelfFaults → ShelfReadings → Node → String → String → ℕ → Bytes → BlobResult Unit
check_body o f t node uploader hash size body = do
  _ ← refuse_if (not (eqb (length body) size)) size_mismatch
  _ ← refuse_if (not (hash_bytes o.crypto body == hash)) hash_mismatch
  check_peer_quota f t node uploader size

-- The file, then the row.
unfoldable pub store_blob :
    Outside
    → Wire
    → ShelfFaults
    → ShelfReadings
    → Shelf
    → String
    → String
    → SignedMessage
    → BlobTicketPayload
    → ℕ
    → String
    → Bytes
    → Response × Shelf
store_blob o w f t s config_dir hash signed ticket size mime body =
    let path = path_of o config_dir hash in
    let expires_at = effective_expires ticket (unix_timestamp t.stored_at) in
    let row =
      uploaded w hash size mime expires_at path ticket signed.envelope.sender_id
        signed.envelope.nonce in
    let (stored, rows) = Blobs.upsert f.blob_upsert t.database_at s.node.blobs row in
    let after = record s {
      node = record s.node { blobs = rows };
      files = written s.files path body;
    } in
    if f.create_dir then (err io_failed, s) else elim f.write [
      | some left ↦ (err io_failed, record s { files = spoiled s.files path left })
      | none ↦ elim stored [
        | err e ↦ (err storage_failed, after)
        | ok u ↦ (ok (created size expires_at), after)
      ]
    ]

-- What the ticket of an upload must name: the capability, the size and the type.
unfoldable pub upload_terms : Node → BlobTicketPayload → BlobResult (ℕ × String)
upload_terms node ticket = do
  cap ← ok_or ticket.capability no_capability
  size ← ok_or ticket.size no_size
  mime ← ok_or ticket.mime no_mime
  _ ← cap_allows_upload node cap
  ok (size, mime)

-- An upload whose ticket was verified.
unfoldable pub accept_upload :
    Outside
    → Wire
    → ShelfFaults
    → ShelfReadings
    → Shelf
    → String
    → String
    → SignedMessage
    → BlobTicketPayload
    → Bytes
    → Response × Shelf
accept_upload o w f t s config_dir hash signed ticket body = elim (upload_terms s.node ticket) [
  | err e ↦ (err e, s)
  | ok terms ↦ elim (already_held f t s.node hash) [
    | some r ↦ (ok (held r.columns.size r.columns.expires_at), s)
    | none ↦ elim (check_body o f t s.node signed.envelope.sender_id hash terms.0 body) [
      | err e ↦ (err e, s)
      | ok u ↦ store_blob o w f t s config_dir hash signed ticket terms.0 terms.1 body
    ]
  ]
]

abbrev pub with_node : Shelf → Node → Shelf
with_node s node = record s { node = node }

unfoldable pub put_blob :
    Outside
    → Wire
    → ShelfFaults
    → ShelfReadings
    → Shelf
    → String
    → Option String
    → Bytes
    → Response × Shelf
put_blob o w f t s hash header body = elim s.config_dir [
  | none ↦ (err not_configured, s)
  | some dir ↦ elim (validate_hash hash) [
    | err e ↦ (err malformed_hash, s)
    | ok u ↦
        let (verified, node) = verify_ticket o w f t s.node header BlobOperation.put hash in
        elim verified [
          | err e ↦ (err e, with_node s node)
          | ok pair ↦ accept_upload o w f t (with_node s node) dir hash pair.0 pair.1 body
        ]
  ]
]
