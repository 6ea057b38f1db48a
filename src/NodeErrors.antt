-- ===== src/NodeErrors.antt =====
-- crates/node/src/error.rs and the errors of crates/adapters/src/lib.rs. The text of an
-- `InvalidPayload` is replaced by a value of `Complaint` that names it.
use n3ur0n.Prelude.{Result, ok, err, ℕ, String, List}
use n3ur0n.Errors.{CoreError, CoreResult}
use n3ur0n.Message.{ProtocolVerb}
use n3ur0n.Storage.{StorageError, StorageResult}

pub data AdapterError : Type 0 where
  unknown_capability transport backend : String → AdapterError
  serde : AdapterError

pub data Complaint : Type 0 where
  undecodable : ProtocolVerb → Complaint
  token_required blob_missing describe_failed : String → Complaint
  ticket_on_messages unformattable_time : Complaint

pub data NodeError : Type 0 where
  core : CoreError → NodeError
  storage : StorageError → NodeError
  adapter : AdapterError → NodeError
  replay : NodeError
  unknown_capability : String → NodeError
  invalid_payload : Complaint → NodeError
  partial_reload : (backends_loaded : ℕ) → (reason : String) → NodeError
  identity : String → NodeError
  io serde : NodeError
  unresolved_mentions : List String → NodeError
  template : String → NodeError

abbrev pub NodeResult : Type 0 → Type 0
NodeResult A = Result NodeError A

-- `status_of` of crates/node/src/audit.rs: the short kind of an error in the call journal.
unfoldable pub status_of : NodeError → String
status_of (NodeError.unknown_capability _) = "unknown_capability"
status_of NodeError.replay = "replay"
status_of (NodeError.invalid_payload _) = "invalid_payload"
status_of (NodeError.unresolved_mentions _) = "unresolved_mentions"
status_of (NodeError.adapter _) = "adapter_error"
status_of (NodeError.template _) = "template_error"
status_of (NodeError.storage _) = "storage_error"
status_of (NodeError.core _) = "rejected"
status_of _ = "error"

-- `?` where the error of a component becomes an error of the node.
abbrev pub from_core : {A : Type 0} → CoreResult A → NodeResult A
from_core (ok a) = ok a
from_core (err e) = err (NodeError.core e)

abbrev pub from_storage : {A : Type 0} → StorageResult A → NodeResult A
from_storage (ok a) = ok a
from_storage (err e) = err (NodeError.storage e)

abbrev pub from_adapter : {A : Type 0} → Result AdapterError A → NodeResult A
from_adapter (ok a) = ok a
from_adapter (err e) = err (NodeError.adapter e)
