-- ===== src/Storage/PlanRuns/Journal.antt =====
-- The life of a run in the journal of crates/storage/src/plan_runs.rs.
use n3ur0n.Storage.Table
use mathlib.Core.Path.{subst}
use n3ur0n.Prelude.{
  Bool-cases, Option-cases, All, ok, ℕ, String, ◌≡◌, refl, sym, inl, inr, true, false, not, ◌&&◌,
  none, some, List, arith, eq_iff,
}
use n3ur0n.Lobe.{contains}
use n3ur0n.Storage.{Fault, statement_keeps}
use n3ur0n.Storage.PlanRuns.{
  PlanRunRecord, run_key, is_status, is_present, violates, insert, closed, set_status, get,
}

-- A row satisfies the constraints of the table.
pub record IsRun (conversations : List String) (r : PlanRunRecord) : Type 0 where
  pub known_status : is_status r.status ≡ true
  pub known_conversation : contains conversations r.conversation_id ≡ true

pub record IsJournal (conversations : List String) (runs : List PlanRunRecord) : Type 0 where
  pub keys : Table.HasKeys run_key runs
  pub rows : All (IsRun conversations) runs

find-fresh :
    (conversations : List String) (runs : List PlanRunRecord) (r : PlanRunRecord)
    → violates conversations runs r ≡ false
    → Table.find run_key runs r.id ≡ none
find-fresh conversations runs r fine = elim (Option-cases (Table.find run_key runs r.id)) [
  | inl e ↦ e
  | inr (x, e) ↦ absurd (ground arith)
]

-- A new run that is inserted is found under its id as it was given, and closing it changes its
-- status and its end and nothing else.
pub get-set_status-insert :
    (conversations : List String) (runs : List PlanRunRecord) (r : PlanRunRecord) (status : String)
    (finished_at : ℕ)
    → violates conversations runs r ≡ false
    → is_status status ≡ true
    → (get none (insert none conversations runs r).1 r.id ≡ ok (some r))
      × (get none
            (set_status none (insert none conversations runs r).1 r.id status finished_at).1
            r.id
          ≡ ok (some (closed status finished_at r)))
unfolding get set_status insert
get-set_status-insert conversations runs r status finished_at fresh valid =
    let new : Table.find run_key runs r.id ≡ none = find-fresh conversations runs r fresh in
    let found : Table.find run_key (Table.append run_key runs r) r.id ≡ some r =
      ground (arith, Table.find-append run_key runs r r.id, eq_iff r.id r.id) in
    (
      ground (arith, found),
      ground (
        arith,
        found,
        Table.find-update run_key (closed status finished_at) (Table.append run_key runs r) r.id
            r.id (λ x. refl),
        eq_iff r.id r.id,
      ),
    )

insert-IsJournal :
    (fault : Fault) (conversations : List String) (runs : List PlanRunRecord) (r : PlanRunRecord)
    → IsJournal conversations runs
    → IsJournal conversations (insert fault conversations runs r).1
unfolding insert
insert-IsJournal fault conversations runs r j = elim (Bool-cases (violates conversations runs r)) [
  | inl bad ↦ rw bad j
  | inr fine ↦ rw fine (
      statement_keeps (IsJournal conversations) fault runs (Table.append run_key runs r) tt j
        (record {
          keys = Table.HasKeys-append run_key runs r j.keys (find-fresh conversations runs r fine);
          rows =
              Table.All-append_row run_key (IsRun conversations) runs r j.rows
                (record { known_status = ground arith; known_conversation = ground arith });
        }))
]

set_status-IsJournal :
    (fault : Fault) (conversations : List String) (runs : List PlanRunRecord) (id status : String)
    (finished_at : ℕ)
    → IsJournal conversations runs
    → IsJournal conversations (set_status fault runs id status finished_at).1
unfolding set_status
set_status-IsJournal fault conversations runs id status finished_at j =
    elim (Bool-cases (is_present (Table.find run_key runs id) && not (is_status status))) [
      | inl bad ↦ rw bad j
      | inr fine ↦ rw fine (
          statement_keeps (IsJournal conversations) fault runs
            (Table.update run_key (closed status finished_at) runs id) tt j
            (record {
              keys =
                  Table.HasKeys-update run_key (closed status finished_at) runs id (λ x. refl)
                    j.keys;
              rows = closed_rows fine;
            }))
    ]
  where
    closed_rows :
        (is_present (Table.find run_key runs id) && not (is_status status)) ≡ false
        → All (IsRun conversations) (Table.update run_key (closed status finished_at) runs id)
    closed_rows fine = elim (Bool-cases (is_status status)) [
      | inl valid ↦
          Table.All-update run_key (IsRun conversations) (closed status finished_at) runs id
            (λ r h. record { known_status = valid; known_conversation = h.known_conversation })
            j.rows
      | inr unknown ↦ elim (Option-cases (Table.find run_key runs id)) [
        | inl e ↦
            subst (All (IsRun conversations))
              (sym (Table.update-absent run_key (closed status finished_at) runs id e)) j.rows
        | inr (x, e) ↦ absurd (ground arith)
      ]
    ]

-- Whatever is inserted or closed, and whichever statement fails, the ids stay different and each
-- row keeps the constraints of the table.
pub insert-set_status-IsJournal :
    (fault : Fault) (conversations : List String) (runs : List PlanRunRecord) (r : PlanRunRecord)
    (id status : String) (finished_at : ℕ)
    → IsJournal conversations runs
    → IsJournal conversations (insert fault conversations runs r).1
      × IsJournal conversations (set_status fault runs id status finished_at).1
insert-set_status-IsJournal fault conversations runs r id status finished_at j = (
  insert-IsJournal fault conversations runs r j,
  set_status-IsJournal fault conversations runs id status finished_at j,
)
