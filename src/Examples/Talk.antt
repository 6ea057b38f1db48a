-- ===== src/Examples/Talk.antt =====
-- Mentions in messages, and a conversation with a call and its result.
use n3ur0n.Storage.Conversations
use n3ur0n.Storage.Table
use n3ur0n.Prelude.{
  leb, if◌then◌else◌, length, any, get_last?, insert_sorted, sort, ok, is_ok, ℕ, ◌≤◌, String, ◌≡◌,
  refl, ◌⊎◌, false, none, some, List, [], ◌∷◌, ◌++◌, ◌==◌,
}
use n3ur0n.Conversation.{
  Turn, user, assistant, tool_call, tool_result, role_label, ConversationState, push,
  push_tool_result, restarted, validate, filter_visible_for_llm, get_elem?, drop, is_pair,
  prune_context_refs,
}
use n3ur0n.Conversation.Persistence.{is_call, load_sound, persist_tool_pair_at_atomic}
use n3ur0n.Conversation.Stored.{Codec, read_rows, load, ToolPair, persist_tool_pair_at}
use n3ur0n.Conversation.Window.{
  without_past_tools, filter_visible_for_llm_lem, prune_context_refs_keeps,
}
use n3ur0n.Identity.{InstanceId}
use n3ur0n.Json.{null, text}
use n3ur0n.Mention.{
  peer_kind, cap_kind, from_prefix, Mention, trailing_punctuation, quote_if_needed, to_token,
  read_value, read_token, mentions_from, parse_mentions, from_text,
}
use n3ur0n.Mention.RoundTrip.{on_peer, parse_mentions-to_token}
use n3ur0n.Mention.Scope.{IsScope, names_cap, from_text_exact}
use n3ur0n.Plan.Counting.{occurs}
use n3ur0n.Storage.Conversations.{
  ConversationRecord, TurnRecord, Threads, thread_key, turn_at, append_turns,
}
use n3ur0n.Storage.Conversations.Ledger.{HasSeqs, ledger-HasSeqs}
use n3ur0n.Text.{
  is_whitespace, split_at, has_char, strip_char, count_chars, any_char, ends_in, byte_size,
}

-- `@peer:alice/sum up`, which has to be quoted.
abbrev asked : Mention
asked = record { kind = peer_kind; entity = "alice"; capability = some "sum up"; span = (0, 0) }

parse_mentions-to_token_example :
    parse_mentions (to_token asked)
    ≡ record {
      kind = peer_kind;
      entity = "alice";
      capability = some "sum up";
      span = (0, byte_size (to_token asked));
    }
      ∷ []
unfolding has_char
parse_mentions-to_token_example =
    parse_mentions-to_token asked (on_peer "alice" "sum up" refl refl) refl refl

from_text_exact_example :
    IsScope (from_text "hi @cap:sum")
    × ((x : String)
        → leb 1 (occurs x (from_text "hi @cap:sum").capabilities)
          ≡ any (names_cap x) (parse_mentions "hi @cap:sum"))
from_text_exact_example = from_text_exact "hi @cap:sum"

-- A value that begins with a quote is written bare, and is not read again.
abbrev odd_name : Mention
odd_name = record { kind = cap_kind; entity = "\"x"; capability = none; span = (0, 0) }

odd_name_lost : parse_mentions (to_token odd_name) ≡ []
unfolding parse_mentions mentions_from to_token read_token split_at quote_if_needed any_char
    is_whitespace ends_in trailing_punctuation from_prefix read_value strip_char count_chars
odd_name_lost = refl

abbrev peer : InstanceId
peer = "n3:abc"

abbrev call : Turn
call = tool_call "call_1" peer "upper" null 5

abbrev outcome : Turn
outcome = tool_result "call_1" peer "upper" (some (text "HI")) none 6

abbrev history : List Turn
history = user "hi" [] 4 ∷ call ∷ outcome ∷ []

-- The window of one turn has two.
over_limit : prune_context_refs history 1 ≡ call ∷ outcome ∷ []
unfolding prune_context_refs get_elem? drop
over_limit = refl

prune_context_refs_keeps_example :
    ((early : List Turn) × (history ≡ early ++ prune_context_refs history 1))
    × (length (prune_context_refs history 1) ≤ 2)
    × ((early late : List Turn) (c r : Turn)
        → history ≡ early ++ c ∷ r ∷ late
        → prune_context_refs history 1 ≡ r ∷ late
        → is_pair (some c) (some r) ≡ false)
prune_context_refs_keeps_example = prune_context_refs_keeps history 1

filter_visible_for_llm_lem_example :
    filter_visible_for_llm (history ++ assistant "HI" none 7 ∷ [])
    ≡ without_past_tools (history ++ assistant "HI" none 7 ∷ [])
filter_visible_for_llm_lem_example =
    filter_visible_for_llm_lem (history ++ assistant "HI" none 7 ∷ [])

abbrev codec : Codec
codec = record {
  write = λ t. some (role_label t);
  read = λ s.
      if s == "tool_call"
      then some call
      else if s == "tool_result"
      then some outcome
      else some (user s [] 4);
}

abbrev thread : ConversationRecord
thread = record {
  id = "conv_1";
  client_id = "client";
  title = none;
  created_at = 1;
  updated_at = 1;
}

abbrev row : ℕ → String → TurnRecord
row seq role = record {
  conversation_id = "conv_1";
  seq = seq;
  role = role;
  payload = role;
  created_at = 1;
}

abbrev threads : Threads
threads = record { conversations = thread ∷ []; turns = row 1 "user" ∷ row 2 "tool_call" ∷ [] }

abbrev reloaded : ConversationState
reloaded = record {
  id = "conv_1";
  client_id = "client";
  title = none;
  created_at = 1;
  updated_at = 9;
  turns = user "user" [] 4 ∷ call ∷ tool_result "call_1" peer "upper" none (some restarted) 9 ∷ [];
  last_seq = 3;
}

reloads : load codec none none threads "conv_1" "client" 9 ≡ ok reloaded
unfolding load Conversations.get Conversations.load_turns read_rows validate push_tool_result push
    Table.find sort insert_sorted
reloads = refl

load_sound_example :
    ((r : ConversationRecord) × (Table.find thread_key threads.conversations "conv_1" ≡ some r)
      × (r.client_id ≡ "client"))
    × (is_call (get_last? reloaded.turns) ≡ false)
load_sound_example = load_sound codec none none threads "conv_1" "client" 9 reloaded reloads

abbrev pair : ToolPair
pair = record {
  call_id = "call_1";
  peer_id = peer;
  capability = "upper";
  args = null;
  result = some (text "HI");
  error = none;
}

persist_tool_pair_at_atomic_example :
    let out = persist_tool_pair_at codec none threads "conv_1" 2 0 pair 8 in
    ((c r : String) × (codec.write (tool_call pair.call_id pair.peer_id pair.capability pair.args 8)
        ≡ some c)
      × (codec.write
            (tool_result pair.call_id pair.peer_id pair.capability pair.result pair.error 8)
          ≡ some r)
      × (out.0 ≡ ok tt)
      × (out.1.turns
          ≡ threads.turns
            ++ record {
              conversation_id = "conv_1";
              seq = 3;
              role = "tool_call";
              payload = c;
              created_at = 8;
            }
              ∷ record {
                conversation_id = "conv_1";
                seq = 4;
                role = "tool_result";
                payload = r;
                created_at = 8;
              }
              ∷ []))
    ⊎ ((is_ok out.0 ≡ false) × (out.1 ≡ threads))
persist_tool_pair_at_atomic_example =
    persist_tool_pair_at_atomic codec none threads "conv_1" 2 0 pair 8

ledger-HasSeqs_example :
    ((ts : List TurnRecord) (updated_at : ℕ)
      → HasSeqs (append_turns none threads ts updated_at).1.turns)
    × ((id : String) → HasSeqs (Conversations.delete none threads id).1.turns)
unfolding HasSeqs turn_at
ledger-HasSeqs_example = ledger-HasSeqs none threads (refl, (refl, tt))
