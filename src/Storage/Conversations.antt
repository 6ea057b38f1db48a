-- ===== src/Storage/Conversations.antt =====
-- crates/storage/src/conversations.rs: conversations and their turns. The constraints are those of
-- migration 0002_conversations.sql: the id of a conversation, the number of a turn within its
-- conversation, and that the conversation of a turn exists; turns go with their conversation.
pub mod Ledger
use n3ur0n.Storage.Table
use n3ur0n.Prelude.{
  leb, eqb, if◌then◌else◌, take, filter, sort, ok, err, ℕ, String, Bool, true, false, not, ◌&&◌,
  ◌||◌, Option, none, some, List, [], ◌∷◌, ◌++◌, ◌==◌,
}
use n3ur0n.Storage.{pool, sqlite, StorageResult, Fault, statement, query}

pub record ConversationRecord : Type 0 where
  pub id : String
  pub client_id : String
  pub title : Option String
  pub created_at : ℕ
  pub updated_at : ℕ

pub record TurnRecord : Type 0 where
  pub conversation_id : String
  pub seq : ℕ
  pub role : String
  pub payload : String
  pub created_at : ℕ

-- The two tables.
pub record Threads : Type 0 where
  pub conversations : List ConversationRecord
  pub turns : List TurnRecord

abbrev pub thread_key : ConversationRecord → String
thread_key c = c.id

abbrev pub is_stored : {A : Type 0} → Option A → Bool
is_stored none = false
is_stored (some a) = true

-- `SELECT … WHERE conversation_id = c AND seq = n`
unfoldable pub turn_at : List TurnRecord → String → ℕ → Option TurnRecord
turn_at [] c n = none
turn_at (t ∷ ts) c n = if t.conversation_id == c && eqb t.seq n then some t else turn_at ts c n

abbrev pub refused : Fault → StorageResult Unit
refused none = err sqlite
refused (some e) = err e

unfoldable pub insert : Fault → Threads → ConversationRecord → StorageResult Unit × Threads
insert fault db conv =
    if is_stored (Table.find thread_key db.conversations conv.id)
    then (refused fault, db)
    else statement fault db tt
        (record { conversations = Table.append thread_key db.conversations conv; turns = db.turns })

unfoldable pub get : Fault → Threads → String → StorageResult (Option ConversationRecord)
get fault db id = query fault (Table.find thread_key db.conversations id)

-- `ORDER BY updated_at DESC`
abbrev by_update : ConversationRecord → ConversationRecord → Bool
by_update a b = leb b.updated_at a.updated_at

unfoldable pub list_for_client :
    Fault → Threads → String → ℕ → StorageResult (List ConversationRecord)
list_for_client fault db client_id limit = query fault (
    take limit (
      sort by_update
        (filter (λ (c : ConversationRecord). c.client_id == client_id) db.conversations)))

abbrev pub touched : ℕ → ConversationRecord → ConversationRecord
touched updated_at c = record c { updated_at = updated_at }

abbrev pub retitled : Option String → ℕ → ConversationRecord → ConversationRecord
retitled (some t) updated_at c = record c { title = some t; updated_at = updated_at }
retitled none updated_at c = touched updated_at c

unfoldable pub update_meta :
    Fault → Threads → String → Option String → ℕ → StorageResult Unit × Threads
update_meta fault db id title updated_at = statement fault db tt (record {
  conversations = Table.update thread_key (retitled title updated_at) db.conversations id;
  turns = db.turns;
})

unfoldable pub delete : Fault → Threads → String → StorageResult Unit × Threads
delete fault db id = statement fault db tt (record {
  conversations = Table.remove thread_key db.conversations id;
  turns = filter (λ (t : TurnRecord). not (t.conversation_id == id)) db.turns;
})

-- One turn of the loop of `append_turns`: the insert and the update.
unfoldable pub add_turn : Threads → TurnRecord → ℕ → Option Threads
add_turn db t updated_at =
    if is_stored (turn_at db.turns t.conversation_id t.seq)
      || not (is_stored (Table.find thread_key db.conversations t.conversation_id))
    then none
    else some (record {
      conversations =
          Table.update thread_key (touched updated_at) db.conversations t.conversation_id;
      turns = db.turns ++ t ∷ [];
    })

abbrev pub and_then : Option Threads → (Threads → Option Threads) → Option Threads
and_then none f = none
and_then (some db) f = f db

-- The loop within the transaction.
unfoldable pub add_turns : List TurnRecord → ℕ → Threads → Option Threads
add_turns [] updated_at db = some db
add_turns (t ∷ ts) updated_at db = and_then (add_turn db t updated_at) (add_turns ts updated_at)

-- `commit`, or what an error leaves.
abbrev pub committed : Fault → Threads → Option Threads → StorageResult Unit × Threads
committed fault db none = (refused fault, db)
committed fault db (some after) = statement fault db tt after

unfoldable pub append_turns : Fault → Threads → List TurnRecord → ℕ → StorageResult Unit × Threads
append_turns fault db [] updated_at = (ok tt, db)
append_turns fault db (t ∷ ts) updated_at = committed fault db (add_turns (t ∷ ts) updated_at db)

unfoldable pub append_turn : Fault → Threads → TurnRecord → ℕ → StorageResult Unit × Threads
append_turn fault db t updated_at = append_turns fault db (t ∷ []) updated_at

abbrev pub by_seq : TurnRecord → TurnRecord → Bool
by_seq a b = leb a.seq b.seq

unfoldable pub load_turns : Fault → Threads → String → StorageResult (List TurnRecord)
load_turns fault db conversation_id =
    query fault
      (sort by_seq (filter (λ (t : TurnRecord). t.conversation_id == conversation_id) db.turns))

abbrev pub or_larger : ℕ → Option ℕ → Option ℕ
or_larger n none = some n
or_larger n (some m) = if leb m n then some n else some m

-- `SELECT MAX(seq)`
unfoldable pub largest : List TurnRecord → String → Option ℕ
largest [] c = none
largest (t ∷ ts) c =
    let rest = largest ts c in if t.conversation_id == c then or_larger t.seq rest else rest

-- `query_row(…).ok()`: only a failure of the pool is an error.
unfoldable pub max_seq : Fault → Threads → String → StorageResult (Option ℕ)
max_seq none db conversation_id = ok (largest db.turns conversation_id)
max_seq (some pool) db conversation_id = err pool
max_seq (some _) db conversation_id = ok none
