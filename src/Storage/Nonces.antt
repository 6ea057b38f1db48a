-- ===== src/Storage/Nonces.antt =====
-- crates/storage/src/nonces.rs: the nonces that were accepted, by sender.
use n3ur0n.Prelude.{
  ltb, if◌then◌else◌, length, filter, ok, ℕ, ◌-◌, ◌≤◌, String, ◌≡◌, Bool, true, false, not, ◌&&◌,
  Option, none, some, List, [], ◌∷◌, arith, ◌==◌, eq_iff,
}
use n3ur0n.Storage.{StorageResult, Fault, statement}

pub record NonceRow : Type 0 where
  pub sender_id : String
  pub nonce : String
  pub seen_at : ℕ

-- The primary key is the pair of sender and nonce.
unfoldable pub seen : List NonceRow → String → String → Option ℕ
seen [] s n = none
seen (r ∷ rs) s n = if r.sender_id == s && r.nonce == n then some r.seen_at else seen rs s n

abbrev is_seen : List NonceRow → String → String → Bool
is_seen rs s n = elim (seen rs s n) [ none ↦ false | some _ ↦ true ]

-- `INSERT OR IGNORE`, which reports whether a row went in.
unfoldable pub insert_if_absent :
    Fault → List NonceRow → String → String → ℕ → StorageResult Bool × List NonceRow
insert_if_absent fault rows sender_id nonce now =
    statement fault rows (not (is_seen rows sender_id nonce)) (
      if is_seen rows sender_id nonce
      then rows
      else record { sender_id = sender_id; nonce = nonce; seen_at = now } ∷ rows)

drop_older : ℕ → List NonceRow → List NonceRow
drop_older cutoff rows = filter (λ r. not (ltb r.seen_at cutoff)) rows

unfoldable pub prune_older_than : Fault → List NonceRow → ℕ → StorageResult ℕ × List NonceRow
unfolding drop_older
prune_older_than fault rows cutoff =
    statement fault rows (length rows - length (drop_older cutoff rows)) (drop_older cutoff rows)

-- The table after an insert that went through: the key has a time, and the others keep theirs.
pub seen-insert :
    (fault : Fault) (rows : List NonceRow) (s n s' n' : String) (now : ℕ)
    → seen (insert_if_absent fault rows s n now).1 s' n' ≡ (elim (seen rows s' n') [
      | some t ↦ some t
      | none ↦ elim fault [ none ↦ if s == s' && n == n' then some now else none | some _ ↦ none ]
    ])
unfolding seen insert_if_absent
seen-insert fault rows s n s' n' now = ground (arith, eq_iff s s', eq_iff n n')

seen-drop_older :
    (cutoff : ℕ) (rows : List NonceRow) (s n : String) (t : ℕ)
    → seen rows s n ≡ some t
    → cutoff ≤ t
    → seen (drop_older cutoff rows) s n ≡ some t
unfolding seen drop_older
seen-drop_older cutoff [] s n t h k = absurd (cc h)
seen-drop_older cutoff (r ∷ rs) s n t h k = ground (arith, seen-drop_older cutoff rs s n t)

-- A prune forgets no nonce that was seen at the cutoff or later.
pub seen-prune :
    (fault : Fault) (rows : List NonceRow) (cutoff : ℕ) (s n : String) (t : ℕ)
    → seen rows s n ≡ some t
    → cutoff ≤ t
    → seen (prune_older_than fault rows cutoff).1 s n ≡ some t
unfolding prune_older_than
seen-prune none rows cutoff s n t h k = seen-drop_older cutoff rows s n t h k
seen-prune (some e) rows cutoff s n t h k = h

-- An insert reports a new row only for a pair that is not in the table.
pub inserted-new :
    (fault : Fault) (rows : List NonceRow) (s n : String) (now : ℕ)
    → (insert_if_absent fault rows s n now).0 ≡ ok true
    → (seen rows s n ≡ none) × (seen (insert_if_absent fault rows s n now).1 s n ≡ some now)
unfolding seen insert_if_absent
inserted-new fault rows s n now h = ground (arith, eq_iff s s, eq_iff n n)
