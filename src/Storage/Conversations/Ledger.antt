-- ===== src/Storage/Conversations/Ledger.antt =====
-- What the statements of crates/storage/src/conversations.rs keep of the ledger of turns.
use n3ur0n.Storage.Table
use n3ur0n.Storage.Conversations
use mathlib.Core.List.{append_assoc, append-nil}
use mathlib.Core.Path.{subst}
use n3ur0n.Prelude.{
  eqb, Bool-cases, Option-cases, filter, ok, is_ok, ℕ, String, ◌≡◌, refl, sym, ap, ◌∙◌, ◌⊎◌, inl,
  inr, Bool, false, not, ◌&&◌, ◌||◌, Option, none, some, List, [], ◌∷◌, ◌++◌, arith, ◌==◌, eq_iff,
}
use n3ur0n.Storage.{Fault, statement_keeps}
use n3ur0n.Storage.Conversations.{
  TurnRecord, Threads, thread_key, is_stored, turn_at, touched, add_turn, and_then, add_turns,
  committed, append_turns,
}

-- Whether the ledger has a turn already, or not its conversation.
unfoldable pub is_refused : Threads → TurnRecord → Bool
is_refused db t =
    is_stored (turn_at db.turns t.conversation_id t.seq)
    || not (is_stored (Table.find thread_key db.conversations t.conversation_id))

add_turn-turns :
    (db after : Threads) (t : TurnRecord) (updated_at : ℕ)
    → add_turn db t updated_at ≡ some after
    → (is_refused db t ≡ false) × (after.turns ≡ db.turns ++ t ∷ [])
unfolding add_turn is_refused
add_turn-turns db after t updated_at h = elim (Bool-cases (is_refused db t)) [
  | inl bad ↦ absurd (ground (arith, h, bad))
  | inr good ↦ (good, ap (λ (d : Threads). d.turns) (sym (the_one (ground (arith, h, good)))))
]
  where
    the_one :
        some (record {
          conversations =
              Table.update thread_key (touched updated_at) db.conversations t.conversation_id;
          turns = db.turns ++ t ∷ [];
        })
          ≡ some after
        → record {
          conversations =
              Table.update thread_key (touched updated_at) db.conversations t.conversation_id;
          turns = db.turns ++ t ∷ [];
        }
          ≡ after
    the_one e = cc e

add_turns-turns :
    (ts : List TurnRecord) (updated_at : ℕ) (db after : Threads)
    → add_turns ts updated_at db ≡ some after
    → after.turns ≡ db.turns ++ ts
unfolding add_turns
add_turns-turns [] updated_at db after h =
    let same : db ≡ after = cc h in
    ap (λ (d : Threads). d.turns) (sym same) ∙ sym (append-nil db.turns)
add_turns-turns (t ∷ ts) updated_at db after h = elim (Option-cases (add_turn db t updated_at)) [
  | inl refusal ↦ absurd (cc (sym (ap (λ o. and_then o (add_turns ts updated_at)) refusal) ∙ h))
  | inr (next, added) ↦
      add_turns-turns ts updated_at next after
        (sym (ap (λ o. and_then o (add_turns ts updated_at)) added) ∙ h)
      ∙ ap (λ xs. xs ++ ts) (add_turn-turns db next t updated_at added).1
      ∙ append_assoc db.turns (t ∷ []) ts
]

committed-cases :
    (fault : Fault) (db : Threads) (ts : List TurnRecord) (o : Option Threads)
    → ((after : Threads) → o ≡ some after → after.turns ≡ db.turns ++ ts)
    → (((committed fault db o).0 ≡ ok tt) × ((committed fault db o).1.turns ≡ db.turns ++ ts))
      ⊎ ((is_ok (committed fault db o).0 ≡ false) × ((committed fault db o).1 ≡ db))
committed-cases none db ts none h = inr (refl, refl)
committed-cases (some e) db ts none h = inr (refl, refl)
committed-cases none db ts (some after) h = inl (refl, h after refl)
committed-cases (some e) db ts (some after) h = inr (refl, refl)

-- Turns that are appended together are all added, behind those there were, or none is and nothing has
-- changed, whether a statement fails or a turn is already there or belongs to no conversation.
pub append_turns_atomic :
    (fault : Fault) (db : Threads) (ts : List TurnRecord) (updated_at : ℕ)
    → (((append_turns fault db ts updated_at).0 ≡ ok tt)
        × ((append_turns fault db ts updated_at).1.turns ≡ db.turns ++ ts))
      ⊎ ((is_ok (append_turns fault db ts updated_at).0 ≡ false)
          × ((append_turns fault db ts updated_at).1 ≡ db))
unfolding append_turns
append_turns_atomic fault db [] updated_at = inl (refl, sym (append-nil db.turns))
append_turns_atomic fault db (t ∷ ts) updated_at =
    committed-cases fault db (t ∷ ts) (add_turns (t ∷ ts) updated_at db)
      (λ after e. add_turns-turns (t ∷ ts) updated_at db after e)

-- No two turns of a conversation have the same number.
unfoldable pub HasSeqs : List TurnRecord → Type 0
HasSeqs [] = Unit
HasSeqs (t ∷ ts) = (turn_at ts t.conversation_id t.seq ≡ none) × HasSeqs ts

turn_at-append_other :
    (ts : List TurnRecord) (t : TurnRecord) (c : String) (n : ℕ)
    → turn_at ts c n ≡ none
    → (t.conversation_id == c && eqb t.seq n) ≡ false
    → turn_at (ts ++ t ∷ []) c n ≡ none
unfolding turn_at
turn_at-append_other [] t c n h other = ground (arith, other)
turn_at-append_other (x ∷ ts) t c n h other =
    ground (arith, h, other, turn_at-append_other ts t c n)

HasSeqs-append :
    (ts : List TurnRecord) (t : TurnRecord)
    → HasSeqs ts
    → turn_at ts t.conversation_id t.seq ≡ none
    → HasSeqs (ts ++ t ∷ [])
unfolding HasSeqs turn_at
HasSeqs-append [] t h new = (refl, tt)
HasSeqs-append (x ∷ ts) t h new = (
  turn_at-append_other ts t x.conversation_id x.seq h.0 (
      ground (
        arith,
        new,
        eq_iff t.conversation_id x.conversation_id,
        eq_iff x.conversation_id t.conversation_id,
      )),
  HasSeqs-append ts t h.1 (ground (arith, new)),
)

turn_at-filter :
    (p : TurnRecord → Bool) (ts : List TurnRecord) (c : String) (n : ℕ)
    → turn_at ts c n ≡ none
    → turn_at (filter p ts) c n ≡ none
unfolding turn_at
turn_at-filter p [] c n h = refl
turn_at-filter p (t ∷ ts) c n h = ground (arith, h, turn_at-filter p ts c n)

HasSeqs-filter : (p : TurnRecord → Bool) (ts : List TurnRecord) → HasSeqs ts → HasSeqs (filter p ts)
unfolding HasSeqs
HasSeqs-filter p [] h = tt
HasSeqs-filter p (t ∷ ts) h = elim (Bool-cases (p t)) [
  | inl kept ↦ rw kept (turn_at-filter p ts t.conversation_id t.seq h.0, HasSeqs-filter p ts h.1)
  | inr gone ↦ rw gone (HasSeqs-filter p ts h.1)
]

not_stored :
    (ts : List TurnRecord) (c : String) (n : ℕ)
    → is_stored (turn_at ts c n) ≡ false
    → turn_at ts c n ≡ none
not_stored ts c n h = elim (Option-cases (turn_at ts c n)) [
  | inl missing ↦ missing
  | inr (t, found) ↦ absurd (cc (sym (ap is_stored found) ∙ h))
]

add_turns-HasSeqs :
    (ts : List TurnRecord) (updated_at : ℕ) (db after : Threads)
    → HasSeqs db.turns
    → add_turns ts updated_at db ≡ some after
    → HasSeqs after.turns
unfolding add_turns is_refused
add_turns-HasSeqs [] updated_at db after h e =
    let same : db ≡ after = cc e in subst (λ (d : Threads). HasSeqs d.turns) same h
add_turns-HasSeqs (t ∷ ts) updated_at db after h e =
    elim (Option-cases (add_turn db t updated_at)) [
      | inl refusal ↦ absurd (cc (sym (ap (λ o. and_then o (add_turns ts updated_at)) refusal) ∙ e))
      | inr (next, added) ↦
          let (good, longer) = add_turn-turns db next t updated_at added in
          add_turns-HasSeqs ts updated_at next after
            (subst HasSeqs (sym longer) (
              HasSeqs-append db.turns t h
                (not_stored db.turns t.conversation_id t.seq (ground (arith, good)))))
            (sym (ap (λ o. and_then o (add_turns ts updated_at)) added) ∙ e)
    ]

committed-HasSeqs :
    (fault : Fault) (db : Threads) (o : Option Threads)
    → HasSeqs db.turns
    → ((after : Threads) → o ≡ some after → HasSeqs after.turns)
    → HasSeqs (committed fault db o).1.turns
committed-HasSeqs none db none h k = h
committed-HasSeqs (some e) db none h k = h
committed-HasSeqs none db (some after) h k = k after refl
committed-HasSeqs (some e) db (some after) h k = h

append_turns-HasSeqs :
    (fault : Fault) (db : Threads) (ts : List TurnRecord) (updated_at : ℕ)
    → HasSeqs db.turns
    → HasSeqs (append_turns fault db ts updated_at).1.turns
unfolding append_turns
append_turns-HasSeqs fault db [] updated_at h = h
append_turns-HasSeqs fault db (t ∷ rest) updated_at h =
    committed-HasSeqs fault db (add_turns (t ∷ rest) updated_at db) h
      (λ after e. add_turns-HasSeqs (t ∷ rest) updated_at db after h e)

-- No statement ever gives two turns of a conversation the same number, whether it runs or fails:
-- appending turns, deleting a conversation.
pub ledger-HasSeqs :
    (fault : Fault) (db : Threads)
    → HasSeqs db.turns
    → ((ts : List TurnRecord) (updated_at : ℕ)
        → HasSeqs (append_turns fault db ts updated_at).1.turns)
      × ((id : String) → HasSeqs (Conversations.delete fault db id).1.turns)
unfolding Conversations.delete
ledger-HasSeqs fault db h = (
  λ ts updated_at. append_turns-HasSeqs fault db ts updated_at h,
  λ id.
      statement_keeps (λ (d : Threads). HasSeqs d.turns) fault db _ tt h
        (HasSeqs-filter (λ (t : TurnRecord). not (t.conversation_id == id)) db.turns h),
)
