-- ===== src/Conversation/Stored.antt =====
-- How crates/node/src/conversation.rs stores conversations and loads them. The JSON of a turn is a
-- parameter.
use n3ur0n.Storage.Conversations
use n3ur0n.Prelude.{
  ltb, if◌then◌else◌, get_last?, ok, err, ℕ, ◌+◌, ◌*◌, String, not, Option, none, some, List, [],
  ◌∷◌, ◌==◌,
}
use n3ur0n.Conversation.{
  storage, serde, not_found, ownership_mismatch, ConversationResult, Turn, tool_call, tool_result,
  role_label, stamp_of, ConversationState, new_state, validate,
}
use n3ur0n.Identity.{InstanceId}
use n3ur0n.Json.{Value}
use n3ur0n.Plan.Frontier.{after}
use n3ur0n.Storage.{StorageResult, Fault}
use n3ur0n.Storage.Conversations.{ConversationRecord, TurnRecord, Threads}

-- What `serde_json` writes for a turn and reads from a payload; either may fail.
pub record Codec : Type 0 where
  pub write : Turn → Option String
  pub read : String → Option Turn

-- `create`, with the id that was drawn.
unfoldable pub create :
    Fault
    → Threads
    → String
    → String
    → Option String
    → ℕ
    → StorageResult Unit × Threads × ConversationState
create fault db id client_id title now =
    let state = new_state id client_id title now in
    let (result, after) = Conversations.insert fault db (record {
      id = id;
      client_id = client_id;
      title = title;
      created_at = state.created_at;
      updated_at = state.updated_at;
    }) in
    (result, after, state)

-- The loop of `load` over the rows: the turns, and the largest number.
abbrev with_row :
    ℕ → Option Turn → ConversationResult (List Turn × ℕ) → ConversationResult (List Turn × ℕ)
with_row seq none rest = err serde
with_row seq (some t) (ok (turns, seqs)) = ok (t ∷ turns, if ltb seqs seq then seq else seqs)
with_row seq (some t) (err e) = err e

unfoldable pub read_rows : Codec → List TurnRecord → ConversationResult (List Turn × ℕ)
read_rows codec [] = ok ([], 0)
read_rows codec (r ∷ rs) = with_row r.seq (codec.read r.payload) (read_rows codec rs)

abbrev pub loaded :
    ConversationRecord
    → ℕ
    → ConversationResult (List Turn × ℕ)
    → ConversationResult ConversationState
loaded r now (err e) = err e
loaded r now (ok (turns, seqs)) = ok (
    validate
      (record {
        id = r.id;
        client_id = r.client_id;
        title = r.title;
        created_at = r.created_at;
        updated_at = r.updated_at;
        turns = turns;
        last_seq = seqs;
      })
      now)

abbrev pub load_rows :
    Codec
    → ConversationRecord
    → ℕ
    → StorageResult (List TurnRecord)
    → ConversationResult ConversationState
load_rows codec r now (err e) = err (storage e)
load_rows codec r now (ok rows) = loaded r now (read_rows codec rows)

-- Once the header was read: whose it is, and then its turns.
abbrev pub load_owned :
    Codec
    → Fault
    → Threads
    → String
    → String
    → ℕ
    → StorageResult (Option ConversationRecord)
    → ConversationResult ConversationState
load_owned codec fault db id client_id now (err e) = err (storage e)
load_owned codec fault db id client_id now (ok none) = err (not_found id)
load_owned codec fault db id client_id now (ok (some r)) =
    if not (r.client_id == client_id)
    then err ownership_mismatch
    else load_rows codec r now (Conversations.load_turns fault db id)

unfoldable pub load :
    Codec → Fault → Fault → Threads → String → String → ℕ → ConversationResult ConversationState
load codec header rows db id client_id now =
    load_owned codec rows db id client_id now (Conversations.get header db id)

abbrev pub lifted : StorageResult Unit × Threads → ConversationResult Unit × Threads
lifted (ok u, db) = (ok u, db)
lifted (err e, db) = (err (storage e), db)

abbrev pub row_of : String → ℕ → Turn → ℕ → String → TurnRecord
row_of id seq t at payload = record {
  conversation_id = id;
  seq = seq;
  role = role_label t;
  payload = payload;
  created_at = at;
}

abbrev persist_as :
    Fault → Threads → ConversationState → Turn → Option String → ConversationResult Unit × Threads
persist_as fault db state t none = (err serde, db)
persist_as fault db state t (some payload) = lifted (
    Conversations.append_turn fault db (row_of state.id state.last_seq t (stamp_of t) payload)
      state.updated_at)

abbrev persist_turn :
    Codec → Fault → Threads → ConversationState → Option Turn → ConversationResult Unit × Threads
persist_turn codec fault db state none = (err (not_found "empty turns"), db)
persist_turn codec fault db state (some t) = persist_as fault db state t (codec.write t)

unfoldable pub persist_last :
    Codec → Fault → Threads → ConversationState → ConversationResult Unit × Threads
persist_last codec fault db state = persist_turn codec fault db state (get_last? state.turns)

-- What a step leaves: its call and its result.
pub record ToolPair : Type 0 where
  pub call_id : String
  pub peer_id : InstanceId
  pub capability : String
  pub args : Value
  pub result : Option Value
  pub error : Option String

abbrev pub call_turn : ToolPair → ℕ → Turn
call_turn p at = tool_call p.call_id p.peer_id p.capability p.args at

abbrev pub result_turn : ToolPair → ℕ → Turn
result_turn p at = tool_result p.call_id p.peer_id p.capability p.result p.error at

abbrev pub call_seq : ℕ → ℕ → ℕ
call_seq base_seq plan_index = base_seq + 1 + 2 * plan_index

abbrev pub pair_rows : String → ℕ → ToolPair → ℕ → String → String → List TurnRecord
pair_rows id seq p at call result =
    row_of id seq (call_turn p at) at call ∷ row_of id (seq + 1) (result_turn p at) at result ∷ []

abbrev pub persist_rows :
    Fault
    → Threads
    → String
    → ℕ
    → ToolPair
    → ℕ
    → Option String
    → Option String
    → ConversationResult Unit × Threads
persist_rows fault db id seq p at none result = (err serde, db)
persist_rows fault db id seq p at (some call) none = (err serde, db)
persist_rows fault db id seq p at (some call) (some result) =
    lifted (Conversations.append_turns fault db (pair_rows id seq p at call result) at)

unfoldable pub persist_tool_pair_at :
    Codec → Fault → Threads → String → ℕ → ℕ → ToolPair → ℕ → ConversationResult Unit × Threads
persist_tool_pair_at codec fault db conversation_id base_seq plan_index p updated_at =
    persist_rows fault db conversation_id (call_seq base_seq plan_index) p updated_at
      (codec.write (call_turn p updated_at)) (codec.write (result_turn p updated_at))
