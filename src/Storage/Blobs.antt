-- ===== src/Storage/Blobs.antt =====
-- crates/storage/src/blobs.rs: the index of the blobs.
pub mod Classes
use n3ur0n.Storage.Table
use n3ur0n.Prelude.{
  ltb, leb, eqb, if◌then◌else◌, length, take, filter, sort, ok, err, ℕ, ◌+◌, ◌*◌, String, Bool,
  true, false, not, ◌&&◌, ◌||◌, Option, none, some, List, [], ◌∷◌, ◌==◌,
}
use n3ur0n.Storage.{StorageResult, Fault, statement, query}

-- The columns of a `BlobInsert`.
pub record BlobInsert : Type 0 where
  pub hash : String
  pub size : ℕ
  pub mime : String
  pub path : Option String
  pub expires_at : ℕ
  pub storage_path : String
  pub provenance : String
  pub role : String
  pub anchor_kind : String
  pub processing_status : String
  pub local_user_id : Option ℕ
  pub client_id : Option String
  pub conversation_id : Option String
  pub dispatch_id : Option String
  pub capability : Option String
  pub remote_sender_id : Option String
  pub ticket_nonce : Option String
  pub invoke_id : Option String
  pub user_visible : Bool
  pub user_deletable : Bool
  pub uploader_id : Option String
  pub recipients_whitelist : Option String

-- `BlobRecord`: the columns above and the two that the database fills in.
pub record BlobRecord : Type 0 where
  pub columns : BlobInsert
  pub open columns use *
  pub created_at : ℕ
  pub last_access_at : Option ℕ

abbrev pub blob_key : BlobRecord → String
blob_key r = r.columns.hash

abbrev pub or_else : {A : Type 0} → Option A → Option A → Option A
or_else (some a) b = some a
or_else none b = b

-- `ON CONFLICT(hash) DO UPDATE SET …`; `now` is the database's `strftime('%s', 'now')`.
pub refreshed : ℕ → BlobRecord → BlobRecord → BlobRecord
refreshed now new old = record {
  columns = record old.columns {
    size = new.columns.size;
    mime = new.columns.mime;
    path = or_else old.columns.path new.columns.path;
    expires_at = new.columns.expires_at;
    storage_path = new.columns.storage_path;
    processing_status = new.columns.processing_status;
  };
  created_at = old.created_at;
  last_access_at = some now;
}

unfoldable pub upsert :
    Fault → ℕ → List BlobRecord → BlobInsert → StorageResult Unit × List BlobRecord
unfolding refreshed
upsert fault now rows row = statement fault rows tt (
    Table.upsert blob_key (refreshed now) rows
      (record { columns = row; created_at = now; last_access_at = none }))

-- `anchor_kind IN ('local_cache', 'user_session')`
abbrev pub is_ours : BlobRecord → Bool
is_ours r = r.columns.anchor_kind == "local_cache" || r.columns.anchor_kind == "user_session"

abbrev pub is_outbound_input : BlobRecord → Bool
is_outbound_input r = r.columns.provenance == "outbound" && r.columns.role == "input" && is_ours r

abbrev pub referenced_upload : ℕ → ℕ → BlobRecord → BlobRecord
referenced_upload now expires_at r = record r {
  columns = record r.columns {
    anchor_kind = "user_session";
    processing_status = "referenced";
    user_visible = true;
    user_deletable = true;
    expires_at = expires_at;
  };
  last_access_at = some now;
}

-- An `UPDATE … WHERE hash = k AND p`: `f` on the rows that pass `p`, and whether there was one.
abbrev where_holds : (BlobRecord → Bool) → (BlobRecord → BlobRecord) → BlobRecord → BlobRecord
where_holds p f r = if p r then f r else r

abbrev any_holds : (BlobRecord → Bool) → Option BlobRecord → Bool
any_holds p none = false
any_holds p (some r) = p r

unfoldable pub mark_outbound :
    Fault → ℕ → List BlobRecord → String → ℕ → StorageResult Bool × List BlobRecord
mark_outbound fault now rows hash expires_at =
    statement fault rows (any_holds is_outbound_input (Table.find blob_key rows hash)) (
      Table.update blob_key (where_holds is_outbound_input (referenced_upload now expires_at)) rows
        hash)

abbrev pub returned_output : ℕ → Option String → ℕ → BlobRecord → BlobRecord
returned_output now name expires_at r = record r {
  columns = record r.columns {
    provenance = "inbound";
    role = "output";
    anchor_kind = "user_session";
    processing_status = "ready";
    user_visible = true;
    user_deletable = true;
    path = or_else name r.columns.path;
    expires_at = expires_at;
  };
  last_access_at = some now;
}

unfoldable pub mark_inbound_output :
    Fault → ℕ → List BlobRecord → String → Option String → ℕ → StorageResult Bool × List BlobRecord
mark_inbound_output fault now rows hash name expires_at =
    statement fault rows (any_holds is_ours (Table.find blob_key rows hash))
      (Table.update blob_key (where_holds is_ours (returned_output now name expires_at)) rows hash)

unfoldable pub get : Fault → List BlobRecord → String → StorageResult (Option BlobRecord)
get fault rows hash = query fault (Table.find blob_key rows hash)

unfoldable pub delete : Fault → List BlobRecord → String → StorageResult Bool × List BlobRecord
delete fault rows hash =
    statement fault rows (any_holds (λ r. true) (Table.find blob_key rows hash))
      (Table.remove blob_key rows hash)

abbrev pub same_text : Option String → Option String → Bool
same_text (some a) (some b) = a == b
same_text none b = false
same_text (some a) none = false

abbrev pub same_number : Option ℕ → Option ℕ → Bool
same_number (some a) (some b) = eqb a b
same_number none b = false
same_number (some a) none = false

abbrev pub is_owned : Option ℕ → Option String → BlobRecord → Bool
is_owned local_user_id client_id r =
    r.columns.user_visible
    && (same_number local_user_id r.columns.local_user_id
        || same_text client_id r.columns.client_id)

-- `ORDER BY created_at DESC`; SQL leaves the order of ties open.
abbrev pub newest_first : BlobRecord → BlobRecord → Bool
newest_first a b = leb b.created_at a.created_at

unfoldable pub list_user_visible :
    Fault → List BlobRecord → Option ℕ → Option String → ℕ → StorageResult (List BlobRecord)
list_user_visible fault rows local_user_id client_id limit =
    query fault (take limit (sort newest_first (filter (is_owned local_user_id client_id) rows)))

abbrev pub is_cap_job : BlobRecord → Bool
is_cap_job r = r.columns.anchor_kind == "cap_job"

unfoldable pub list_cap_jobs : Fault → List BlobRecord → ℕ → StorageResult (List BlobRecord)
list_cap_jobs fault rows limit =
    query fault (take limit (sort newest_first (filter is_cap_job rows)))

-- `uploader_id = ?1 AND expires_at > ?2`
abbrev pub counts_for : String → ℕ → BlobRecord → Bool
counts_for uploader now r =
    same_text r.columns.uploader_id (some uploader) && ltb now r.columns.expires_at

sum_sizes : List BlobRecord → ℕ
sum_sizes [] = 0
sum_sizes (r ∷ rs) = r.columns.size + sum_sizes rs

unfoldable pub sum_bytes_for_uploader : Fault → List BlobRecord → String → ℕ → StorageResult ℕ
unfolding sum_sizes
sum_bytes_for_uploader fault rows uploader now =
    query fault (sum_sizes (filter (counts_for uploader now) rows))

unfoldable pub count_for_uploader : Fault → List BlobRecord → String → ℕ → StorageResult ℕ
count_for_uploader fault rows uploader now =
    query fault (length (filter (counts_for uploader now) rows))

abbrev pub is_expired : ℕ → BlobRecord → Bool
is_expired now r = leb r.columns.expires_at now

-- The select and the delete, which runs only where the select found rows.
unfoldable pub delete_expired :
    Fault → Fault → List BlobRecord → ℕ → StorageResult (List BlobRecord) × List BlobRecord
delete_expired (some e) delete_fault rows now = (err e, rows)
delete_expired none delete_fault rows now = elim (filter (is_expired now) rows) [
  | [] ↦ (ok [], rows)
  | r ∷ rs ↦
      statement delete_fault rows (r ∷ rs)
        (filter (λ (x : BlobRecord). not (is_expired now x)) rows)
]

abbrev touched : ℕ → BlobRecord → BlobRecord
touched now r = record r { last_access_at = some now }

unfoldable pub touch : Fault → List BlobRecord → String → ℕ → StorageResult Unit × List BlobRecord
touch fault rows hash now = statement fault rows tt (Table.update blob_key (touched now) rows hash)
