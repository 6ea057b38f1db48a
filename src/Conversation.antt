-- ===== src/Conversation.antt =====
-- crates/node/src/conversation.rs: a conversation in memory, what of it the planner is shown. The
-- text of a number is a parameter.
pub mod Window
pub mod Stored
pub mod Persistence
use Prim.Native.String.{◌++◌ as join}
use n3ur0n.Storage.Conversations
use n3ur0n.Prelude.{
  leb, eqb, if◌then◌else◌, length, get_last?, Result, ℕ, zero, suc, ◌+◌, ◌-◌, String, Bool, true,
  false, not, ◌&&◌, Option, none, some, List, [], ◌∷◌, ◌++◌, ◌==◌,
}
use n3ur0n.Handler.Admission.{start}
use n3ur0n.Identity.{InstanceId}
use n3ur0n.Json.{Value}
use n3ur0n.Storage.{StorageError}
use n3ur0n.Text.{trim}

pub data ConversationError : Type 0 where
  storage : StorageError → ConversationError
  serde : ConversationError
  not_found : String → ConversationError
  ownership_mismatch : ConversationError

abbrev pub ConversationResult : Type 0 → Type 0
ConversationResult A = Result ConversationError A

pub record UserAttachment : Type 0 where
  pub hash : String
  pub mime : String
  pub size : ℕ
  pub name : Option String

pub record UserInput : Type 0 where
  pub text : String
  pub attachments : List UserAttachment

unfoldable pub is_empty : UserInput → Bool
is_empty sent = trim sent.text == "" && eqb (length sent.attachments) 0

abbrev label_of : UserAttachment → Option String → String
label_of att none = att.mime
label_of att (some name) = name

-- The loop over the attachments.
unfoldable pub with_attachments : (ℕ → String) → String → List UserAttachment → String
with_attachments show words [] = words
with_attachments show words (att ∷ atts) =
    with_attachments show
      (join words (
        join "\n[attachment: " (
          join (label_of att att.name)
            (join " · " (join att.hash (join " · " (join (show att.size) " bytes]")))))))
      atts

unfoldable pub planner_text : (ℕ → String) → UserInput → String
planner_text show sent =
    let words = trim sent.text in
    let count = length sent.attachments in
    with_attachments show
      (if words == "" && not (eqb count 0)
        then join "The user sent " (join (show count) " file(s).")
        else words)
      sent.attachments

pub data Turn : Type 0 where
  user : String → List UserAttachment → ℕ → Turn
  assistant : String → Option String → ℕ → Turn
  tool_call : String → InstanceId → String → Value → ℕ → Turn
  tool_result : String → InstanceId → String → Option Value → Option String → ℕ → Turn
  system : String → ℕ → Turn

abbrev pub role_label : Turn → String
role_label (user said atts ts) = "user"
role_label (assistant said model ts) = "assistant"
role_label (tool_call id peer_id capability args ts) = "tool_call"
role_label (tool_result call_id peer_id capability result e ts) = "tool_result"
role_label (system said ts) = "system"

abbrev pub stamp_of : Turn → ℕ
stamp_of (user said atts ts) = ts
stamp_of (assistant said model ts) = ts
stamp_of (tool_call id peer_id capability args ts) = ts
stamp_of (tool_result call_id peer_id capability result e ts) = ts
stamp_of (system said ts) = ts

-- The field `next_seq` is the number of the last turn.
pub record ConversationState : Type 0 where
  pub id : String
  pub client_id : String
  pub title : Option String
  pub created_at : ℕ
  pub updated_at : ℕ
  pub turns : List Turn
  pub last_seq : ℕ

-- `ConversationState::new`, at the present second.
unfoldable pub new_state : String → String → Option String → ℕ → ConversationState
new_state id client_id title now = record {
  id = id;
  client_id = client_id;
  title = title;
  created_at = now;
  updated_at = now;
  turns = [];
  last_seq = 0;
}

unfoldable pub next_seq : ConversationState → ℕ
next_seq state = state.last_seq + 1

unfoldable pub push : ConversationState → Turn → ConversationState
push state t = record {
  id = state.id;
  client_id = state.client_id;
  title = state.title;
  created_at = state.created_at;
  updated_at = stamp_of t;
  turns = state.turns ++ t ∷ [];
  last_seq = state.last_seq + 1;
}

unfoldable pub push_user_input : ConversationState → UserInput → ℕ → ConversationState
push_user_input state sent now = push state (user sent.text sent.attachments now)

unfoldable pub push_assistant : ConversationState → String → Option String → ℕ → ConversationState
push_assistant state said model now = push state (assistant said model now)

unfoldable pub push_tool_call_with_id :
    ConversationState → String → InstanceId → String → Value → ℕ → ConversationState
push_tool_call_with_id state id peer_id capability args now =
    push state (tool_call id peer_id capability args now)

unfoldable pub push_tool_result :
    ConversationState
    → String
    → InstanceId
    → String
    → Option Value
    → Option String
    → ℕ
    → ConversationState
push_tool_result state call_id peer_id capability result e now =
    push state (tool_result call_id peer_id capability result e now)

unfoldable pub push_system : ConversationState → String → ℕ → ConversationState
push_system state said now = push state (system said now)

abbrev pub restarted : String
restarted = "instance restarted before result was persisted"

abbrev pub repaired : ConversationState → ℕ → Option Turn → ConversationState
repaired state now (some (tool_call id peer_id capability args ts)) =
    push_tool_result state id peer_id capability none (some restarted) now
repaired state now (some (user said atts ts)) = state
repaired state now (some _) = state
repaired state now none = state

unfoldable pub validate : ConversationState → ℕ → ConversationState
validate state now = repaired state now (get_last? state.turns)

abbrev pub is_assistant : Turn → Bool
is_assistant (assistant said model ts) = true
is_assistant (user said atts ts) = false
is_assistant _ = false

abbrev pub is_tool : Turn → Bool
is_tool (tool_call id peer_id capability args ts) = true
is_tool (tool_result call_id peer_id capability result e ts) = true
is_tool (user said atts ts) = false
is_tool _ = false

-- `last_assistant_idx`, of the turns from an index on.
unfoldable pub last_assistant : ℕ → List Turn → Option ℕ
last_assistant i [] = none
last_assistant i (t ∷ ts) = elim (last_assistant (suc i) ts) [
  | some j ↦ some j
  | none ↦ if is_assistant t then some i else none
]

abbrev pub is_past : ℕ → Option ℕ → Bool
is_past i none = false
is_past i (some li) = leb i li

unfoldable pub visible_from : Option ℕ → ℕ → List Turn → List Turn
visible_from li i [] = []
visible_from li i (t ∷ ts) =
    let rest = visible_from li (suc i) ts in if is_tool t && is_past i li then rest else t ∷ rest

unfoldable pub filter_visible_for_llm : List Turn → List Turn
filter_visible_for_llm turns = visible_from (last_assistant 0 turns) 0 turns

-- `refs.get(n)` and `refs[n..]`
unfoldable pub get_elem? : List Turn → ℕ → Option Turn
get_elem? [] n = none
get_elem? (t ∷ ts) zero = some t
get_elem? (t ∷ ts) (suc n) = get_elem? ts n

unfoldable pub drop : ℕ → List Turn → List Turn
drop zero ts = ts
drop (suc n) [] = []
drop (suc n) (t ∷ ts) = drop n ts

-- Whether the two turns are a call and its result.
abbrev pub is_result_of : String → Turn → Bool
is_result_of id (tool_result call_id peer_id capability result e ts) = id == call_id
is_result_of id (user said atts ts) = false
is_result_of id _ = false

abbrev pub is_pair : Option Turn → Option Turn → Bool
is_pair (some (tool_call id peer_id capability args ts)) (some t) = is_result_of id t
is_pair (some (tool_call id peer_id capability args ts)) none = false
is_pair (some _) t = false
is_pair none t = false

unfoldable pub prune_context_refs : List Turn → ℕ → List Turn
prune_context_refs refs max_turns =
    let start = length refs - max_turns in
    if leb (length refs) max_turns
    then refs
    else if is_pair (get_elem? refs (start - 1)) (get_elem? refs start)
    then drop (start - 1) refs
    else drop start refs

-- The turns that `to_chat_messages` writes out.
unfoldable pub chat_turns : ConversationState → ℕ → List Turn
chat_turns state max_turns = prune_context_refs (filter_visible_for_llm state.turns) max_turns
