-- ===== src/BlobTypes.antt =====
-- crates/core/src/blob.rs: references to blobs, tickets, classes and retention.
use Prim.Native.String.{◌++◌}
use n3ur0n.Prelude.{
  leb, eqb, if◌then◌else◌, all, codes, is_ascii_uppercase, is_ascii_digit, starts_with, drop_prefix,
  byte_len, ok, err, ℕ, ◌*◌, String, Bool, true, false, not, ◌&&◌, ◌||◌, Option, List,
}
use n3ur0n.Errors.{hash_prefix, hash_digits, invalid_identifier, CoreResult}
use n3ur0n.Identity.{Bytes, Crypto}

abbrev pub blob_hash_prefix : String
blob_hash_prefix = "sha256:"

pub record BlobRef : Type 0 where
  pub hash : String
  pub size : ℕ
  pub mime : String
  pub fetch_url : Option String
  pub name : Option String

pub data BlobOperation : Type 0 where
  put fetch remove : BlobOperation

pub data BlobPurpose : Type 0 where
  input output owned : BlobPurpose

pub record BlobTicketPayload : Type 0 where
  pub operation : BlobOperation
  pub hash : Option String
  pub size : Option ℕ
  pub mime : Option String
  pub capability : Option String
  pub expires_at : ℕ
  pub purpose : BlobPurpose
  pub requested_ttl_secs : Option ℕ
  pub recipients_whitelist : Option (List String)

pub data BlobProvenance : Type 0 where
  outbound inbound : BlobProvenance

pub data BlobRole : Type 0 where
  input output : BlobRole

pub data AnchorKind : Type 0 where
  user_session cap_job local_cache : AnchorKind

pub data ProcessingStatus : Type 0 where
  uploading staged referenced processing ready consumed expired stale : ProcessingStatus

pub record BlobClassification : Type 0 where
  pub provenance : BlobProvenance
  pub role : BlobRole
  pub anchor_kind : AnchorKind
  pub user_visible : Bool
  pub user_deletable : Bool
  pub processing_status : ProcessingStatus

is_lower_hex : ℕ → Bool
is_lower_hex ch =
    (is_ascii_digit ch || (leb b'a' ch && leb ch b'f') || (leb b'A' ch && leb ch b'F'))
    && not (is_ascii_uppercase ch)

unfoldable pub validate_hash : String → CoreResult Unit
unfolding is_lower_hex
validate_hash s =
    let hex = drop_prefix (codes blob_hash_prefix) (codes s) in
    if not (starts_with (codes blob_hash_prefix) (codes s))
    then err (invalid_identifier hash_prefix)
    else if not (eqb (byte_len hex) 64) || not (all is_lower_hex hex)
    then err (invalid_identifier hash_digits)
    else ok tt

unfoldable pub hash_bytes : Crypto → Bytes → String
hash_bytes c data_bytes = blob_hash_prefix ++ c.hex_encode (c.sha256 data_bytes)

abbrev pub classify_outbound_upload : BlobClassification
classify_outbound_upload = record {
  provenance = BlobProvenance.outbound;
  role = BlobRole.input;
  anchor_kind = user_session;
  user_visible = true;
  user_deletable = true;
  processing_status = ready;
}

abbrev pub classify_inbound_output : BlobClassification
classify_inbound_output = record {
  provenance = BlobProvenance.inbound;
  role = BlobRole.output;
  anchor_kind = user_session;
  user_visible = true;
  user_deletable = true;
  processing_status = ready;
}

abbrev pub classify_cap_staging : BlobClassification
classify_cap_staging = record {
  provenance = BlobProvenance.inbound;
  role = BlobRole.input;
  anchor_kind = cap_job;
  user_visible = false;
  user_deletable = false;
  processing_status = staged;
}

abbrev pub classify_local_cache : BlobClassification
classify_local_cache = record {
  provenance = BlobProvenance.outbound;
  role = BlobRole.input;
  anchor_kind = local_cache;
  user_visible = true;
  user_deletable = true;
  processing_status = staged;
}

unfoldable pub default_ttl_secs : BlobPurpose → ℕ
default_ttl_secs BlobPurpose.input = 60 * 60
default_ttl_secs BlobPurpose.output = 24 * 60 * 60
default_ttl_secs BlobPurpose.owned = 60 * 60
