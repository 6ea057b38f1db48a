-- ===== src/Examples/Blobs.antt =====
-- Runs of crates/storage/src/blobs.rs and crates/server/src/blobs.rs: Bob fetches and deletes a blob
-- that he uploaded to Alice.
use n3ur0n.Storage.Blobs
use n3ur0n.Storage.Nonces
use n3ur0n.Storage.Table
use n3ur0n.Registry
use n3ur0n.Prelude.{
  eqb, if◌then◌else◌, length, codes, ok, is_ok, ◌<◌, String, ◌≡◌, refl, ◌⊎◌, false, none, some,
  List, [], ◌∷◌,
}
use n3ur0n.BlobService.{
  Wire, Shelf, ShelfFaults, ShelfReadings, decode_ticket_wire, open_ticket, check_ticket,
  verify_ticket, cap_allows_upload, check_peer_quota, effective_expires,
}
use n3ur0n.BlobService.Quota.{IsUpload}
use n3ur0n.BlobService.Requests.{
  created, content, deleted, file_key, already_held, check_body, store_blob, upload_terms,
  accept_upload, put_blob,
}
use n3ur0n.BlobService.Retrieval.{get_authorization, read_blob, get_blob, erase_blob, delete_blob}
use n3ur0n.BlobService.Serving.{IsReader, get_blob-authorized, IsErased, delete_blob-own}
use n3ur0n.BlobService.Tickets.{IsTicket}
use n3ur0n.BlobService.Uploading.{IsStored, put_blob-created}
use n3ur0n.BlobTypes.{
  BlobOperation, BlobPurpose, BlobTicketPayload, validate_hash, hash_bytes, default_ttl_secs,
}
use n3ur0n.Clock.{unix_timestamp}
use n3ur0n.Examples.World.{
  same_bytes, unary, spelled, read, named, outside, alice, noon, ping_envelope, ping_message,
}
use n3ur0n.Identity.{from_public_key, public_key, instance_id, verify_with}
use n3ur0n.Json.{Value, unsigned, as_u64}
use n3ur0n.Message.{
  ProtocolVerb, SignedMessage, decode_signature, canonical_bytes, verify_signature, verify_envelope,
}
use n3ur0n.Storage.Blobs.{
  BlobInsert, BlobRecord, blob_key, or_else, sum_bytes_for_uploader, count_for_uploader,
}
use n3ur0n.Storage.Blobs.Classes.{SameOwner, get-upsert_owner}

abbrev hash : String
hash = "sha256:aaaaaaaaaaaaaaaaaaaaaaaaaaaaaaaaaaaaaaaaaaaaaaaaaaaaaaaaaaaaaaaa"

abbrev columns : BlobInsert
columns = record {
  hash = hash;
  size = 1;
  mime = "text/plain";
  path = none;
  expires_at = 20000;
  storage_path = "/store";
  provenance = "inbound";
  role = "input";
  anchor_kind = "cap_job";
  processing_status = "staged";
  local_user_id = none;
  client_id = none;
  conversation_id = none;
  dispatch_id = none;
  capability = none;
  remote_sender_id = some "n3:bob";
  ticket_nonce = none;
  invoke_id = none;
  user_visible = false;
  user_deletable = false;
  uploader_id = some "n3:bob";
  recipients_whitelist = none;
}

abbrev row : BlobRecord
row = record { columns = columns; created_at = 1; last_access_at = none }

abbrev rows : List BlobRecord
rows = row ∷ []

row_found : Table.find blob_key rows hash ≡ some row
unfolding Table.find
row_found = refl

another_hash : ¬ (◌≡◌ {A = String} "sha256:other" hash)
another_hash e = cc e

-- The same blob, from another peer.
abbrev from_carol : BlobInsert
from_carol = record columns { uploader_id = some "n3:carol"; expires_at = 30000 }

get-upsert_owner_example :
    ((r : BlobRecord) × (Blobs.get none (Blobs.upsert none 9 rows from_carol).1 hash ≡ ok (some r))
      × SameOwner r row
      × (r.columns.path ≡ or_else none none)
      × (r.columns.expires_at ≡ 30000))
    × (Blobs.get none (Blobs.upsert none 9 rows from_carol).1 "sha256:other"
        ≡ Blobs.get none rows "sha256:other")
get-upsert_owner_example =
    get-upsert_owner 9 rows from_carol row "sha256:other" row_found another_hash

abbrev ticket : BlobOperation → BlobTicketPayload
ticket op = record {
  operation = op;
  hash = some hash;
  size = none;
  mime = none;
  capability = none;
  expires_at = 10300;
  purpose = BlobPurpose.input;
  requested_ttl_secs = some 900000;
  recipients_whitelist = none;
}

abbrev ticket_message : Value → SignedMessage
ticket_message payload = record ping_message {
  envelope = record ping_envelope { verb = ProtocolVerb.blob_ticket; payload = payload };
}

-- The header names the operation.
abbrev wire : Wire
wire = record {
  decode_base64url = λ s. some (codes s);
  decode_message = λ bytes. some (ticket_message (unsigned (length bytes)));
  decode_ticket = λ v. elim (as_u64 v) [
    | none ↦ none
    | some n ↦ some (ticket (if eqb n 1 then BlobOperation.fetch else BlobOperation.remove))
  ];
  encode_ids = λ ids. "";
  decode_ids = λ s. none;
}

abbrev no_shelf_faults : ShelfFaults
no_shelf_faults = record {
  nonce_insert = none;
  blob_get = none;
  blob_sum = none;
  blob_count = none;
  blob_upsert = none;
  blob_delete = none;
  blob_touch = none;
  create_dir = false;
  write = none;
  remove_file = false;
}

abbrev at_noon : ShelfReadings
at_noon = record {
  verified_at = noon;
  ticket_at = noon;
  found_at = noon;
  quota_at = noon;
  stored_at = noon;
  database_at = 10000;
}

abbrev shelf : Shelf
shelf = record {
  node = record alice { blobs = rows };
  files = ("/store", 1 ∷ []) ∷ [];
  config_dir = some "/config";
}

fetch_verified :
    (verify_ticket outside wire no_shelf_faults at_noon shelf.node
      (some "a")
      BlobOperation.fetch
      hash).0
    ≡ ok (ticket_message (unsigned 1), ticket BlobOperation.fetch)
unfolding verify_ticket open_ticket decode_ticket_wire check_ticket verify_envelope verify_signature
    canonical_bytes from_public_key named decode_signature spelled unary read verify_with same_bytes
    instance_id public_key Nonces.insert_if_absent Nonces.seen
fetch_verified = refl

fetched :
    (get_blob outside wire no_shelf_faults at_noon shelf hash (some "a")).0
    ≡ ok (content "text/plain" 1 (1 ∷ []))
unfolding get_blob read_blob get_authorization Blobs.get Table.find validate_hash verify_ticket
    open_ticket decode_ticket_wire check_ticket verify_envelope verify_signature canonical_bytes
    from_public_key named decode_signature spelled unary read verify_with same_bytes instance_id
    public_key Nonces.insert_if_absent Nonces.seen
fetched = refl

get_blob-authorized_example :
    (m : SignedMessage) × (t : BlobTicketPayload) × (r : BlobRecord) × IsTicket outside wire at_noon
      shelf.node BlobOperation.fetch hash m t
    × (Table.find blob_key rows hash ≡ some r)
    × (unix_timestamp noon < r.columns.expires_at)
    × IsReader wire r m.envelope.sender_id
    × ((path : String) × (Table.find file_key shelf.files r.columns.storage_path
          ≡ some (path, 1 ∷ [])))
get_blob-authorized_example =
    get_blob-authorized outside wire no_shelf_faults at_noon shelf hash (some "a") "text/plain" 1
      (1 ∷ []) fetched

erased : (delete_blob outside wire no_shelf_faults at_noon shelf hash (some "ab")).0 ≡ ok deleted
unfolding delete_blob erase_blob Blobs.delete Blobs.get Table.find validate_hash verify_ticket
    open_ticket decode_ticket_wire check_ticket verify_envelope verify_signature canonical_bytes
    from_public_key named decode_signature spelled unary read verify_with same_bytes instance_id
    public_key Nonces.insert_if_absent Nonces.seen
erased = refl

delete_blob-own_example :
    let out = delete_blob outside wire no_shelf_faults at_noon shelf hash (some "ab") in
    ((is_ok out.0 ≡ false) × (out.1.node.blobs ≡ rows) × (out.1.files ≡ shelf.files))
    ⊎ ((m : SignedMessage) × (t : BlobTicketPayload) × (r : BlobRecord) × IsTicket outside wire
          at_noon shelf.node BlobOperation.remove hash m t
        × (Table.find blob_key rows hash ≡ some r)
        × (r.columns.uploader_id ≡ some m.envelope.sender_id)
        × IsErased r hash hash "/elsewhere" shelf out)
delete_blob-own_example =
    delete_blob-own outside wire no_shelf_faults at_noon shelf hash hash "/elsewhere" (some "ab")

-- Bob uploads a byte for the capability `weather`.
abbrev upload_hash : String
upload_hash = "sha256:aaaaaaaaaaaaaaaaaaaaaaaaaaaaaaaabbbbbbbbbbbbbbbbbbbbbbbbbbbbbbbb"

abbrev upload_ticket : BlobTicketPayload
upload_ticket = record (ticket BlobOperation.put) {
  hash = some upload_hash;
  size = some 1;
  mime = some "text/plain";
  capability = some "weather";
}

abbrev upload_wire : Wire
upload_wire = record wire { decode_ticket = λ v. some upload_ticket }

upload_created :
    (put_blob outside upload_wire no_shelf_faults at_noon shelf upload_hash (some "a") (32 ∷ [])).0
    ≡ ok (created 1 614800)
unfolding put_blob accept_upload upload_terms cap_allows_upload already_held check_body
    check_peer_quota store_blob effective_expires default_ttl_secs sum_bytes_for_uploader
    count_for_uploader Registry.get hash_bytes Blobs.upsert Blobs.get Table.find validate_hash
    verify_ticket open_ticket decode_ticket_wire check_ticket verify_envelope verify_signature
    canonical_bytes from_public_key named decode_signature spelled unary read verify_with same_bytes
    instance_id public_key Nonces.insert_if_absent Nonces.seen
upload_created = refl

put_blob-created_example :
    (m : SignedMessage) × (t : BlobTicketPayload) × (dir : String) × (shelf.config_dir ≡ some dir)
    × IsTicket outside upload_wire at_noon shelf.node BlobOperation.put upload_hash m t
    × IsUpload outside no_shelf_faults at_noon
        (verify_ticket outside upload_wire no_shelf_faults at_noon shelf.node
          (some "a")
          BlobOperation.put
          upload_hash).1
        m.envelope.sender_id
        upload_hash
        t
        1
        (32 ∷ [])
    × (614800 ≡ effective_expires t (unix_timestamp noon))
    × IsStored outside dir upload_hash m.envelope.sender_id
        (32 ∷ [])
        1
        614800
        rows
        (put_blob outside upload_wire no_shelf_faults at_noon shelf upload_hash
          (some "a")
          (32 ∷ [])).1
put_blob-created_example =
    put_blob-created outside upload_wire no_shelf_faults at_noon shelf upload_hash (some "a")
      (32 ∷ []) 1 614800 upload_created

-- A ticket that names no blob is taken for any.
abbrev unnamed_wire : Wire
unnamed_wire = record wire {
  decode_ticket = λ v. some (record (ticket BlobOperation.fetch) { hash = none });
}

unnamed_fetched :
    (get_blob outside unnamed_wire no_shelf_faults at_noon shelf hash (some "a")).0
    ≡ ok (content "text/plain" 1 (1 ∷ []))
unfolding get_blob read_blob get_authorization Blobs.get Table.find validate_hash verify_ticket
    open_ticket decode_ticket_wire check_ticket verify_envelope verify_signature canonical_bytes
    from_public_key named decode_signature spelled unary read verify_with same_bytes instance_id
    public_key Nonces.insert_if_absent Nonces.seen
unnamed_fetched = refl
