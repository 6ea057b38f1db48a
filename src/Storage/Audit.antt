-- ===== src/Storage/Audit.antt =====
-- crates/storage/src/audit.rs: the rows of the call journal and how one is written.
use n3ur0n.Prelude.{ℕ, String, Option, List, [], ◌∷◌, ◌++◌}
use n3ur0n.Storage.{StorageResult, Fault, statement}

pub data Direction : Type 0 where
  inbound outbound local : Direction

-- `Direction::as_str`
unfoldable pub direction_name : Direction → String
direction_name inbound = "in"
direction_name outbound = "out"
direction_name local = "local"

pub record AuditEntry : Type 0 where
  pub timestamp : ℕ
  pub direction : Direction
  pub peer_id : String
  pub capability : Option String
  pub status : String
  pub latency_ms : Option ℕ

-- A row of `audit_log`, which holds the name of the direction.
pub record AuditRow : Type 0 where
  pub direction : String
  pub entry : AuditEntry

unfoldable pub record_entry :
    Fault → List AuditRow → AuditEntry → StorageResult Unit × List AuditRow
unfolding direction_name
record_entry fault log e =
    statement fault log tt
      (log ++ record { direction = direction_name e.direction; entry = e } ∷ [])
