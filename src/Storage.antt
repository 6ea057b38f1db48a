-- ===== src/Storage.antt =====
-- crates/storage/src: the repositories over SQLite. A table is the list of its rows in `rowid`
-- order. A statement either runs as a whole or fails and changes nothing; which, is the argument
-- of type `Fault`.
pub mod Table
pub mod Nonces
pub mod Peers
pub mod PlanRuns
pub mod Audit
pub mod Blobs
pub mod Conversations
use n3ur0n.Prelude.{Result, ok, err, Option, none, some}

-- `StorageError`
pub data StorageError : Type 0 where
  pool sqlite migration : StorageError

abbrev pub StorageResult : Type 0 → Type 0
StorageResult A = Result StorageError A

abbrev pub Fault : Type 0
Fault = Option StorageError

-- `db.get()?` and the statement: the result, and the table after it.
abbrev pub statement : {S A : Type 0} → Fault → S → A → S → StorageResult A × S
statement none before a after = (ok a, after)
statement (some e) before a after = (err e, before)

-- A statement that only reads.
abbrev pub query : {A : Type 0} → Fault → A → StorageResult A
query none a = ok a
query (some e) a = err e

-- What holds before a statement and after it holds whether or not it runs.
pub statement_keeps :
    {S A : Type 0} (P : S → Type 0) (fault : Fault) (before after : S) (a : A)
    → P before
    → P after
    → P (statement fault before a after).1
statement_keeps P none before after a h k = k
statement_keeps P (some e) before after a h k = h
