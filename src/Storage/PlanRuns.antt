-- ===== src/Storage/PlanRuns.antt =====
-- crates/storage/src/plan_runs.rs: the journal of compiled plans. `conversations` are the ids that
-- the foreign key of the table allows; the constraints are those of migration 0005_plan_runs.sql.
pub mod Journal
use n3ur0n.Storage.Table
use n3ur0n.Prelude.{
  leb, if◌then◌else◌, take, filter, sort, ok, err, ℕ, String, Bool, true, false, not, ◌&&◌, ◌||◌,
  Option, none, some, List, ◌==◌,
}
use n3ur0n.Lobe.{contains}
use n3ur0n.Storage.{pool, sqlite, StorageResult, Fault, statement, query}

pub record PlanRunRecord : Type 0 where
  pub id : String
  pub conversation_id : String
  pub plan_json : String
  pub status : String
  pub created_at : ℕ
  pub finished_at : Option ℕ

abbrev pub run_key : PlanRunRecord → String
run_key r = r.id

-- `CHECK (status IN ('running', 'done', 'failed'))`
abbrev pub is_status : String → Bool
is_status s = s == "running" || s == "done" || s == "failed"

abbrev pub is_present : {A : Type 0} → Option A → Bool
is_present none = false
is_present (some a) = true

-- The primary key, the check and the foreign key.
abbrev pub violates : List String → List PlanRunRecord → PlanRunRecord → Bool
violates conversations runs r =
    is_present (Table.find run_key runs r.id)
    || not (is_status r.status)
    || not (contains conversations r.conversation_id)

unfoldable pub insert :
    Fault
    → List String
    → List PlanRunRecord
    → PlanRunRecord
    → StorageResult Unit × List PlanRunRecord
insert fault conversations runs r =
    if violates conversations runs r
    then (elim fault [ none ↦ err sqlite | some e ↦ err e ], runs)
    else statement fault runs tt (Table.append run_key runs r)

abbrev pub closed : String → ℕ → PlanRunRecord → PlanRunRecord
closed status finished_at r = record r { status = status; finished_at = some finished_at }

-- The check is made for each row that is updated, so not where there is no such run.
unfoldable pub set_status :
    Fault → List PlanRunRecord → String → String → ℕ → StorageResult Unit × List PlanRunRecord
set_status fault runs id status finished_at =
    if is_present (Table.find run_key runs id) && not (is_status status)
    then (elim fault [ none ↦ err sqlite | some e ↦ err e ], runs)
    else statement fault runs tt (Table.update run_key (closed status finished_at) runs id)

-- `query_row(…).ok()`: only a failure of the pool is an error.
unfoldable pub get : Fault → List PlanRunRecord → String → StorageResult (Option PlanRunRecord)
get none runs id = ok (Table.find run_key runs id)
get (some pool) runs id = err pool
get (some _) runs id = ok none

-- `ORDER BY created_at ASC, rowid ASC`; the sort is stable and the rows are in `rowid` order.
abbrev by_creation : PlanRunRecord → PlanRunRecord → Bool
by_creation a b = leb a.created_at b.created_at

unfoldable pub list_for_conversation :
    Fault → List PlanRunRecord → String → ℕ → StorageResult (List PlanRunRecord)
list_for_conversation fault runs conversation_id limit = query fault (
    take limit (
      sort by_creation (filter (λ (r : PlanRunRecord). r.conversation_id == conversation_id) runs)))
