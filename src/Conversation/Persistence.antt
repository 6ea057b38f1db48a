-- ===== src/Conversation/Persistence.antt =====
-- Loading and storing conversations, of crates/node/src/conversation.rs.
use n3ur0n.Storage.Conversations
use n3ur0n.Storage.Table
use mathlib.Core.Path.{subst}
use n3ur0n.Prelude.{
  Bool-cases, get_last?, get_last?-append, ok, err, is_ok, ℕ, ◌+◌, ◌*◌, String, ◌≡◌, refl, ap, ◌∙◌,
  ◌⊎◌, inl, inr, Bool, true, false, Option, none, some, List, [], ◌∷◌, ◌++◌, arith, ◌==◌, eq_iff,
}
use n3ur0n.Conversation.{
  ConversationResult, Turn, user, assistant, tool_call, tool_result, system, ConversationState,
  push, push_tool_result, restarted, repaired, validate,
}
use n3ur0n.Conversation.Stored.{
  Codec, read_rows, loaded, load_rows, load_owned, load, lifted, ToolPair, call_turn, result_turn,
  call_seq, pair_rows, persist_rows, persist_tool_pair_at,
}
use n3ur0n.Handler.Outcomes.{answered}
use n3ur0n.Plan.Frontier.{after}
use n3ur0n.Storage.{StorageResult, Fault, query}
use n3ur0n.Storage.Conversations.{ConversationRecord, TurnRecord, Threads, thread_key}
use n3ur0n.Storage.Conversations.Ledger.{append_turns_atomic}

abbrev pub is_call : Option Turn → Bool
is_call (some (tool_call id peer_id capability args ts)) = true
is_call (some (user said atts ts)) = false
is_call (some _) = false
is_call none = false

repaired-is_call :
    (state : ConversationState) (now : ℕ) (t : Option Turn)
    → get_last? state.turns ≡ t
    → is_call (get_last? (repaired state now t).turns) ≡ false
unfolding push_tool_result push
repaired-is_call state now none e = ap is_call e
repaired-is_call state now (some (user said atts ts)) e = ap is_call e
repaired-is_call state now (some (assistant said model ts)) e = ap is_call e
repaired-is_call state now (some (tool_call id peer_id capability args ts)) e =
    ap is_call
      (get_last?-append state.turns (tool_result id peer_id capability none (some restarted) now))
repaired-is_call state now (some (tool_result call_id peer_id capability result r ts)) e =
    ap is_call e
repaired-is_call state now (some (system said ts)) e = ap is_call e

-- No conversation ends in a call without its result once it is validated.
pub validate-is_call :
    (state : ConversationState) (now : ℕ) → is_call (get_last? (validate state now).turns) ≡ false
unfolding validate
validate-is_call state now = repaired-is_call state now (get_last? state.turns) refl

loaded_sound :
    (r : ConversationRecord) (now : ℕ) (read : ConversationResult (List Turn × ℕ))
    (state : ConversationState)
    → loaded r now read ≡ ok state
    → is_call (get_last? state.turns) ≡ false
loaded_sound r now (err e) state h = absurd (ground (arith, h))
loaded_sound r now (ok (turns, seqs)) state h =
    subst (λ (s : ConversationState). is_call (get_last? s.turns) ≡ false) (unwrapped h)
      (validate-is_call _ now)
  where
    unwrapped :
        {a b : ConversationState}
        → ◌≡◌ {A = ConversationResult ConversationState} (ok a) (ok b)
        → a ≡ b
    unwrapped e = cc e

load_rows_sound :
    (codec : Codec) (r : ConversationRecord) (now : ℕ) (rows : StorageResult (List TurnRecord))
    (state : ConversationState)
    → load_rows codec r now rows ≡ ok state
    → is_call (get_last? state.turns) ≡ false
load_rows_sound codec r now (err e) state h = absurd (ground (arith, h))
load_rows_sound codec r now (ok rows) state h = loaded_sound r now (read_rows codec rows) state h

load_owned_sound :
    (codec : Codec) (fault : Fault) (db : Threads) (id client_id : String) (now : ℕ)
    (header : StorageResult (Option ConversationRecord)) (state : ConversationState)
    → load_owned codec fault db id client_id now header ≡ ok state
    → ((r : ConversationRecord) × (header ≡ ok (some r)) × (r.client_id ≡ client_id))
      × (is_call (get_last? state.turns) ≡ false)
load_owned_sound codec fault db id client_id now (err e) state h = absurd (ground (arith, h))
load_owned_sound codec fault db id client_id now (ok none) state h = absurd (ground (arith, h))
load_owned_sound codec fault db id client_id now (ok (some r)) state h =
    elim (Bool-cases (r.client_id == client_id)) [
      | inl own ↦ (
        (r, refl, (eq_iff r.client_id client_id).0 own),
        load_rows_sound codec r now (Conversations.load_turns fault db id) state
            (ground (arith, own, h)),
      )
      | inr other ↦ absurd (ground (arith, other, h))
    ]

query_found :
    (fault : Fault) (found : Option ConversationRecord) (r : ConversationRecord)
    → query fault found ≡ ok (some r)
    → found ≡ some r
query_found none found r h = cc h
query_found (some e) found r h = absurd (ground (arith, h))

-- A conversation is loaded only for the client whose it is, and then it does not end in a call without
-- its result.
pub load_sound :
    (codec : Codec) (header rows : Fault) (db : Threads) (id client_id : String) (now : ℕ)
    (state : ConversationState)
    → load codec header rows db id client_id now ≡ ok state
    → ((r : ConversationRecord) × (Table.find thread_key db.conversations id ≡ some r)
        × (r.client_id ≡ client_id))
      × (is_call (get_last? state.turns) ≡ false)
unfolding load Conversations.get
load_sound codec header rows db id client_id now state h =
    let (owner, last) =
      load_owned_sound codec rows db id client_id now (Conversations.get header db id) state h in
    (
      (
        owner.0,
        query_found header (Table.find thread_key db.conversations id) owner.0 owner.1,
        owner.2,
      ),
      last,
    )

lifted-cases :
    (out : StorageResult Unit × Threads) (db : Threads) (ts : List TurnRecord)
    → ((out.0 ≡ ok tt) × (out.1.turns ≡ db.turns ++ ts)) ⊎ ((is_ok out.0 ≡ false) × (out.1 ≡ db))
    → (((lifted out).0 ≡ ok tt) × ((lifted out).1.turns ≡ db.turns ++ ts))
      ⊎ ((is_ok (lifted out).0 ≡ false) × ((lifted out).1 ≡ db))
lifted-cases (ok u, after) db ts (inl h) = inl (refl, h.1)
lifted-cases (ok u, after) db ts (inr h) = absurd (ground (arith, h.0))
lifted-cases (err e, after) db ts (inl h) = absurd (ground (arith, h.0))
lifted-cases (err e, after) db ts (inr h) = inr (refl, h.1)

persist_rows-cases :
    (fault : Fault) (db : Threads) (id : String) (seq : ℕ) (p : ToolPair) (at : ℕ)
    (call result : Option String)
    → ((c r : String) × (call ≡ some c)
        × (result ≡ some r)
        × ((persist_rows fault db id seq p at call result).0 ≡ ok tt)
        × ((persist_rows fault db id seq p at call result).1.turns
            ≡ db.turns ++ pair_rows id seq p at c r))
      ⊎ ((is_ok (persist_rows fault db id seq p at call result).0 ≡ false)
          × ((persist_rows fault db id seq p at call result).1 ≡ db))
persist_rows-cases fault db id seq p at none result = inr (refl, refl)
persist_rows-cases fault db id seq p at (some call) none = inr (refl, refl)
persist_rows-cases fault db id seq p at (some call) (some result) =
    elim (lifted-cases (Conversations.append_turns fault db (pair_rows id seq p at call result) at)
      db (pair_rows id seq p at call result)
      (append_turns_atomic fault db (pair_rows id seq p at call result) at)) [
        | inl h ↦ inl (call, result, refl, refl, h.0, h.1)
        | inr h ↦ inr h
      ]

-- What a step leaves is stored as two rows, or not at all, and then nothing changes. The rows hold what
-- the codec writes for the call of the step and for its result, and stand at the two numbers that are
-- reserved for the place of the step in the plan.
pub persist_tool_pair_at_atomic :
    (codec : Codec) (fault : Fault) (db : Threads) (id : String) (base_seq plan_index : ℕ)
    (p : ToolPair) (at : ℕ)
    → let out = persist_tool_pair_at codec fault db id base_seq plan_index p at in
      ((c r : String) × (codec.write (tool_call p.call_id p.peer_id p.capability p.args at)
          ≡ some c)
        × (codec.write (tool_result p.call_id p.peer_id p.capability p.result p.error at) ≡ some r)
        × (out.0 ≡ ok tt)
        × (out.1.turns
            ≡ db.turns
              ++ record {
                conversation_id = id;
                seq = base_seq + 1 + 2 * plan_index;
                role = "tool_call";
                payload = c;
                created_at = at;
              }
                ∷ record {
                  conversation_id = id;
                  seq = base_seq + 2 + 2 * plan_index;
                  role = "tool_result";
                  payload = r;
                  created_at = at;
                }
                ∷ []))
      ⊎ ((is_ok out.0 ≡ false) × (out.1 ≡ db))
unfolding persist_tool_pair_at
persist_tool_pair_at_atomic codec fault db id base_seq plan_index p at =
    elim (persist_rows-cases fault db id (call_seq base_seq plan_index) p at
      (codec.write (call_turn p at)) (codec.write (result_turn p at))) [
        | inr nothing ↦ inr nothing
        | inl (c, r, wrote, answered, done, turns) ↦ inl (
          c,
          r,
          wrote,
          answered,
          done,
          turns ∙ ap (λ (n : ℕ). db.turns ++ pair_at c r n) (omega arith),
        )
      ]
  where
    pair_at : String → String → ℕ → List TurnRecord
    pair_at c r second =
        record {
          conversation_id = id;
          seq = base_seq + 1 + 2 * plan_index;
          role = "tool_call";
          payload = c;
          created_at = at;
        }
        ∷ record {
          conversation_id = id;
          seq = second;
          role = "tool_result";
          payload = r;
          created_at = at;
        }
        ∷ []
