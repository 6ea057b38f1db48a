-- ===== src/BlobService.antt =====
-- crates/server/src/blobs.rs and blob_gc.rs: tickets, upload, download and deletion of blobs by
-- peers, and the sweep of expired ones. The files below the blob directory are the rows of a table;
-- that a response cannot be built of its headers is not modelled.
pub mod Requests
pub mod Retrieval
pub mod Quota
pub mod Tickets
pub mod Acceptance
pub mod Serving
pub mod Uploading
use n3ur0n.Storage.Blobs
use n3ur0n.Storage.Nonces
use n3ur0n.Storage.Table
use n3ur0n.Registry
use n3ur0n.Prelude.{
  ltb, leb, if◌then◌else◌, Result, ok, err, ◌>>=◌, ok_or, refuse_if, ℕ, ◌+◌, ◌-◌, ◌*◌, ◌^◌, min,
  max, String, Bool, true, false, not, Option, none, some, List, ◌==◌,
}
use n3ur0n.BlobTypes.{BlobOperation, BlobTicketPayload, default_ttl_secs}
use n3ur0n.Capability.{free, restricted, private}
use n3ur0n.Clock.{unix_timestamp}
use n3ur0n.Errors.{CoreError, CoreResult}
use n3ur0n.Identity.{Bytes}
use n3ur0n.Json.{Value}
use n3ur0n.Message.{ProtocolVerb, SignedMessage, VerifiedEnvelope, verify_envelope}
use n3ur0n.Node.{Node, Outside, node_id}
use n3ur0n.Storage.{Fault}
use n3ur0n.Storage.Blobs.{sum_bytes_for_uploader, count_for_uploader}

-- What the handlers call of the header's codec and of serde.
pub record Wire : Type 0 where
  -- `BASE64URL_NOPAD.decode(header.trim().as_bytes())`
  pub decode_base64url : String → Option Bytes
  pub decode_message : Bytes → Option SignedMessage
  pub decode_ticket : Value → Option BlobTicketPayload
  -- `serde_json::to_string(ids).unwrap_or_default()`
  pub encode_ids : List String → String
  pub decode_ids : String → Option (List String)

pub record Shelf : Type 0 where
  pub node : Node
  pub files : List (String × Bytes)
  -- `state.config_dir`
  pub config_dir : Option String

-- The statements and the calls of the file system that may fail; a write that fails leaves a file
-- with this content, if any.
pub record ShelfFaults : Type 0 where
  pub nonce_insert : Fault
  pub blob_get : Fault
  pub blob_sum : Fault
  pub blob_count : Fault
  pub blob_upsert : Fault
  pub blob_delete : Fault
  pub blob_touch : Fault
  pub create_dir : Bool
  pub write : Option (Option Bytes)
  pub remove_file : Bool

-- The readings of the clock, in the order of the code, and the database's own second.
pub record ShelfReadings : Type 0 where
  pub verified_at : ℕ
  pub ticket_at : ℕ
  pub found_at : ℕ
  pub quota_at : ℕ
  pub stored_at : ℕ
  pub database_at : ℕ

-- The responses of `blob_error`, by their message.
pub data BlobError : Type 0 where
  missing_ticket undecodable_ticket : BlobError
  unverified_ticket : CoreError → BlobError
  wrong_verb storage_failed ticket_replay bad_payload : BlobError
  operation_mismatch ticket_expired ticket_hash_mismatch : BlobError
  capability_not_found refuses_upload quota_exceeded : BlobError
  not_configured malformed_hash no_capability no_size no_mime : BlobError
  size_mismatch hash_mismatch io_failed : BlobError
  blob_not_found blob_expired not_authorized not_uploader : BlobError

abbrev pub BlobResult : Type 0 → Type 0
BlobResult A = Result BlobError A

abbrev pub max_granted_ttl_secs : ℕ
max_granted_ttl_secs = 7 * 24 * 60 * 60

abbrev pub default_per_peer_bytes : ℕ
default_per_peer_bytes = 100 * 1024 * 1024

abbrev pub default_per_peer_blobs : ℕ
default_per_peer_blobs = 50

-- `map_err` to one response.
abbrev pub or_refuse : {E A : Type 0} → Result E A → BlobError → BlobResult A
or_refuse (ok a) e = ok a
or_refuse (err x) e = err e

-- `decode_ticket_wire` of crates/core/src/blob.rs
unfoldable pub decode_ticket_wire : Wire → String → CoreResult SignedMessage
decode_ticket_wire w header = do
  bytes ← ok_or (w.decode_base64url header) CoreError.crypto
  ok_or (w.decode_message bytes) CoreError.serde

abbrev pub is_ticket : ProtocolVerb → Bool
is_ticket ProtocolVerb.blob_ticket = true
is_ticket ProtocolVerb.ping = false
is_ticket ProtocolVerb.describe_self = false
is_ticket ProtocolVerb.get_known_peers = false
is_ticket ProtocolVerb.invoke = false

abbrev verified_ticket : CoreResult VerifiedEnvelope → BlobResult SignedMessage
verified_ticket (ok v) = ok v.message
verified_ticket (err e) = err (unverified_ticket e)

-- `verify_ticket` up to the nonce.
unfoldable pub open_ticket :
    Outside → Wire → ShelfReadings → Node → Option String → BlobResult SignedMessage
open_ticket o w t node header = do
  raw ← ok_or header missing_ticket
  signed ← or_refuse (decode_ticket_wire w raw) undecodable_ticket
  message ← verified_ticket (
      verify_envelope o.crypto o.canonical signed (node_id o node) t.verified_at node.config.verify)
  (if is_ticket message.envelope.verb then ok message else err wrong_verb)

abbrev pub same_operation : BlobOperation → BlobOperation → Bool
same_operation BlobOperation.put BlobOperation.put = true
same_operation BlobOperation.put BlobOperation.fetch = false
same_operation BlobOperation.put BlobOperation.remove = false
same_operation BlobOperation.fetch BlobOperation.fetch = true
same_operation BlobOperation.fetch BlobOperation.put = false
same_operation BlobOperation.fetch BlobOperation.remove = false
same_operation BlobOperation.remove BlobOperation.remove = true
same_operation BlobOperation.remove BlobOperation.put = false
same_operation BlobOperation.remove BlobOperation.fetch = false

abbrev pub names_other : Option String → String → Bool
names_other none path_hash = false
names_other (some h) path_hash = not (h == path_hash)

-- `verify_ticket` after the nonce.
unfoldable pub check_ticket :
    Wire → ShelfReadings → BlobOperation → String → SignedMessage → BlobResult BlobTicketPayload
check_ticket w t want_op path_hash message = do
  ticket ← ok_or (w.decode_ticket message.envelope.payload) bad_payload
  (if not (same_operation ticket.operation want_op)
      then err operation_mismatch
      else if ltb ticket.expires_at (unix_timestamp t.ticket_at)
      then err ticket_expired
      else if names_other ticket.hash path_hash
      then err ticket_hash_mismatch
      else ok ticket)

abbrev pub with_ticket :
    SignedMessage → BlobResult BlobTicketPayload → BlobResult (SignedMessage × BlobTicketPayload)
with_ticket m (ok t) = ok (m, t)
with_ticket m (err e) = err e

unfoldable pub verify_ticket :
    Outside
    → Wire
    → ShelfFaults
    → ShelfReadings
    → Node
    → Option String
    → BlobOperation
    → String
    → BlobResult (SignedMessage × BlobTicketPayload) × Node
verify_ticket o w f t node header want_op path_hash = elim (open_ticket o w t node header) [
  | err e ↦ (err e, node)
  | ok message ↦
      let (inserted, nonces) =
        Nonces.insert_if_absent f.nonce_insert node.nonces message.envelope.sender_id
          message.envelope.nonce (unix_timestamp t.ticket_at) in
      let after = record node { nonces = nonces } in
      let checked = with_ticket message (check_ticket w t want_op path_hash message) in
      elim inserted [
        | err e ↦ (err storage_failed, after)
        | ok new ↦ if new then (checked, after) else (err ticket_replay, after)
      ]
]

unfoldable pub cap_allows_upload : Node → String → BlobResult Unit
cap_allows_upload node cap_name = do
  decl ← ok_or (Registry.get node.registry cap_name) capability_not_found
  elim decl.mode [ private ↦ err refuses_upload | restricted ↦ ok tt | free ↦ ok tt ]

unfoldable pub check_peer_quota : ShelfFaults → ShelfReadings → Node → String → ℕ → BlobResult Unit
check_peer_quota f t node uploader add_bytes = do
  used ←
      or_refuse (sum_bytes_for_uploader f.blob_sum node.blobs uploader (unix_timestamp t.quota_at))
        storage_failed
  _ ← refuse_if (ltb default_per_peer_bytes (used + add_bytes)) quota_exceeded
  count ←
      or_refuse (count_for_uploader f.blob_count node.blobs uploader (unix_timestamp t.quota_at))
        storage_failed
  refuse_if (leb default_per_peer_blobs count) quota_exceeded

-- `i64::try_from(r).unwrap_or(i64::MAX).clamp(default, MAX_GRANTED_TTL_SECS)`
abbrev pub granted_ttl : ℕ → Option ℕ → ℕ
granted_ttl default none = default
granted_ttl default (some r) = max default (min (min r (2 ^ 63 - 1)) max_granted_ttl_secs)

unfoldable pub effective_expires : BlobTicketPayload → ℕ → ℕ
effective_expires ticket now =
    now + granted_ttl (default_ttl_secs ticket.purpose) ticket.requested_ttl_secs
