-- ===== src/Conversation/Window.antt =====
-- What of a conversation `to_chat_messages` of crates/node/src/conversation.rs writes out.
use mathlib.Core.List.{append_assoc}
use n3ur0n.Prelude.{
  leb, if◌then◌else◌, Bool-cases, Option-cases, length, all, any, length-append, ℕ, zero, suc, ◌+◌,
  ◌-◌, ◌≤◌, String, ◌≡◌, refl, sym, ap, ◌∙◌, ◌⊎◌, inl, inr, Bool, true, false, ◌&&◌, Option, none,
  some, List, [], ◌∷◌, ◌++◌, arith,
}
use n3ur0n.Conversation.{
  Turn, user, assistant, tool_call, tool_result, system, is_assistant, is_tool, last_assistant,
  is_past, visible_from, filter_visible_for_llm, get_elem?, drop, is_result_of, is_pair,
  prune_context_refs,
}
use n3ur0n.Plan.Frontier.{missing}

abbrev has_assistant : List Turn → Bool
has_assistant ts = any is_assistant ts

-- The turns without the tool turns that an assistant turn follows.
pub without_past_tools : List Turn → List Turn
without_past_tools [] = []
without_past_tools (t ∷ ts) =
    let rest = without_past_tools ts in if is_tool t && has_assistant ts then rest else t ∷ rest

last_assistant-later : (i : ℕ) (ts : List Turn) (j : ℕ) → last_assistant i ts ≡ some j → i ≤ j
unfolding last_assistant
last_assistant-later i [] j h = absurd (cc h)
last_assistant-later i (t ∷ ts) j h = elim (Option-cases (last_assistant (suc i) ts)) [
  | inl missing ↦ ground (arith, h, missing)
  | inr (k, found) ↦ ground (arith, h, found, last_assistant-later (suc i) ts k found)
]

last_assistant-any :
    (i : ℕ) (ts : List Turn) → last_assistant i ts ≡ none → has_assistant ts ≡ false
unfolding last_assistant
last_assistant-any i [] h = refl
last_assistant-any i (t ∷ ts) h = elim (Option-cases (last_assistant (suc i) ts)) [
  | inl missing ↦ ground (arith, h, missing, last_assistant-any (suc i) ts missing)
  | inr (k, found) ↦ absurd (ground (arith, h, found))
]

last_assistant-some :
    (i : ℕ) (ts : List Turn) (j : ℕ) → last_assistant i ts ≡ some j → has_assistant ts ≡ true
unfolding last_assistant
last_assistant-some i [] j h = absurd (cc h)
last_assistant-some i (t ∷ ts) j h = elim (Option-cases (last_assistant (suc i) ts)) [
  | inl missing ↦ ground (arith, h, missing)
  | inr (k, found) ↦ ground (arith, last_assistant-some (suc i) ts k found)
]

-- Nothing is hidden once no assistant turn follows.
visible_from_none :
    (li : Option ℕ) (i : ℕ) (ts : List Turn)
    → ((k : ℕ) → i ≤ k → is_past k li ≡ false)
    → visible_from li i ts ≡ ts
unfolding visible_from
visible_from_none li i [] h = refl
visible_from_none li i (t ∷ ts) h =
    ground (arith, h i, visible_from_none li (suc i) ts (λ k le. h k (omega (arith, le))))

last_assistant-here :
    (i : ℕ) (t : Turn) (ts : List Turn)
    → last_assistant (suc i) ts ≡ none
    → last_assistant i (t ∷ ts) ≡ (if is_assistant t then some i else none)
unfolding last_assistant
last_assistant-here i t ts h = ground (arith, h)

last_assistant-there :
    (i : ℕ) (t : Turn) (ts : List Turn) (k : ℕ)
    → last_assistant (suc i) ts ≡ some k
    → last_assistant i (t ∷ ts) ≡ some k
unfolding last_assistant
last_assistant-there i t ts k h = ground (arith, h)

not_hidden :
    (t : Turn) (i : ℕ) (rest : List Turn)
    → (if is_tool t && is_past i (if is_assistant t then some i else none) then rest else t ∷ rest)
      ≡ t ∷ rest
not_hidden (user said atts ts) i rest = refl
not_hidden (assistant said model ts) i rest = refl
not_hidden (tool_call id peer_id capability args ts) i rest = refl
not_hidden (tool_result call_id peer_id capability result e ts) i rest = refl
not_hidden (system said ts) i rest = refl

kept :
    (t : Turn) (ts rest : List Turn)
    → has_assistant ts ≡ false
    → (if is_tool t && has_assistant ts then rest else t ∷ rest) ≡ t ∷ rest
kept t ts rest h = ground (arith, h)

hidden :
    (t : Turn) (ts : List Turn) (i k : ℕ) (rest : List Turn)
    → suc i ≤ k
    → has_assistant ts ≡ true
    → (if is_tool t && is_past i (some k) then rest else t ∷ rest)
      ≡ (if is_tool t && has_assistant ts then rest else t ∷ rest)
hidden t ts i k rest le h = ground (arith, le, h)

visible_from-without :
    (i : ℕ) (ts : List Turn) → visible_from (last_assistant i ts) i ts ≡ without_past_tools ts
unfolding visible_from without_past_tools
visible_from-without i [] = refl
visible_from-without i (t ∷ ts) = elim (Option-cases (last_assistant (suc i) ts)) [
  | inl missing ↦
      let li = if is_assistant t then some i else none in
      let all : visible_from li (suc i) ts ≡ ts =
        visible_from_none li (suc i) ts (λ k le. ground (arith, le)) in
      let none_past : without_past_tools ts ≡ ts =
        sym (visible_from-without (suc i) ts)
        ∙ ap (λ o. visible_from o (suc i) ts) missing
        ∙ visible_from_none none (suc i) ts (λ k le. refl) in
      ap (λ o. visible_from o i (t ∷ ts)) (last_assistant-here i t ts missing)
      ∙ not_hidden t i (visible_from li (suc i) ts)
      ∙ ap (λ r. t ∷ r) (all ∙ sym none_past)
      ∙ sym (kept t ts (without_past_tools ts) (last_assistant-any (suc i) ts missing))
  | inr (k, found) ↦
      let later = visible_from-without (suc i) ts in
      ap (λ o. visible_from o i (t ∷ ts)) (last_assistant-there i t ts k found)
      ∙ hidden t ts i k (visible_from (some k) (suc i) ts) (last_assistant-later (suc i) ts k found)
          (last_assistant-some (suc i) ts k found)
      ∙ ap (λ r. if is_tool t && has_assistant ts then r else t ∷ r)
          (ap (λ o. visible_from o (suc i) ts) (sym found) ∙ later)
]

-- `filter_visible_for_llm` hides exactly the tool turns that some assistant turn follows.
pub filter_visible_for_llm_lem :
    (turns : List Turn) → filter_visible_for_llm turns ≡ without_past_tools turns
unfolding filter_visible_for_llm
filter_visible_for_llm_lem turns = visible_from-without 0 turns

get_elem?-append :
    (early late : List Turn) (t : Turn) → get_elem? (early ++ t ∷ late) (length early) ≡ some t
unfolding get_elem?
get_elem?-append [] late t = refl
get_elem?-append (e ∷ early) late t = get_elem?-append early late t

length-drop : (n : ℕ) (ts : List Turn) → length (drop n ts) ≡ length ts - n
unfolding drop
length-drop zero ts = omega arith
length-drop (suc n) [] = omega arith
length-drop (suc n) (t ∷ ts) = omega (arith, length-drop n ts)

drop_split : (n : ℕ) (ts : List Turn) → (early : List Turn) × (ts ≡ early ++ drop n ts)
unfolding drop
drop_split zero ts = ([], refl)
drop_split (suc n) [] = ([], refl)
drop_split (suc n) (t ∷ ts) = let (early, e) = drop_split n ts in (t ∷ early, ap (λ xs. t ∷ xs) e)

result_not_call :
    (id : String) (t x : Turn) → is_result_of id t ≡ true → is_pair (some t) (some x) ≡ false
result_not_call id (user said atts ts) x h = refl
result_not_call id (assistant said model ts) x h = refl
result_not_call id (tool_call i peer_id capability args ts) x h = absurd (ground (arith, h))
result_not_call id (tool_result call_id peer_id capability result e ts) x h = refl
result_not_call id (system said ts) x h = refl

call_not_result : (x a b : Option Turn) → is_pair a b ≡ true → is_pair x a ≡ false
call_not_result x none b h = absurd (ground (arith, h))
call_not_result none (some a) b h = refl
call_not_result (some x) (some a) none h = absurd (no_pair a h)
  where
    no_pair : (t : Turn) → is_pair (some t) none ≡ true → ⊥
    no_pair (user said atts ts) e = ground (arith, e)
    no_pair (assistant said model ts) e = ground (arith, e)
    no_pair (tool_call id peer_id capability args ts) e = ground (arith, e)
    no_pair (tool_result call_id peer_id capability result r ts) e = ground (arith, e)
    no_pair (system said ts) e = ground (arith, e)
call_not_result (some x) (some a) (some b) h = elim (Bool-cases (is_pair (some x) (some a))) [
  | inl both ↦ absurd (ground (arith, h, both_pairs x a b both))
  | inr single ↦ single
]
  where
    both_pairs :
        (x a b : Turn) → is_pair (some x) (some a) ≡ true → is_pair (some a) (some b) ≡ false
    both_pairs (user said atts ts) a b e = absurd (ground (arith, e))
    both_pairs (assistant said model ts) a b e = absurd (ground (arith, e))
    both_pairs (tool_call id peer_id capability args ts) a b e = result_not_call id a b e
    both_pairs (tool_result call_id peer_id capability result r ts) a b e =
        absurd (ground (arith, e))
    both_pairs (system said ts) a b e = absurd (ground (arith, e))

-- Where the window begins.
record IsCut (refs : List Turn) (max_turns k : ℕ) : Type 0 where
  pub window : prune_context_refs refs max_turns ≡ drop k refs
  pub bounded : length refs ≤ max_turns + 1 + k
  pub whole : (k ≡ 0) ⊎ (is_pair (get_elem? refs (k - 1)) (get_elem? refs k) ≡ false)

prune_context_refs-IsCut : (refs : List Turn) (n : ℕ) → (k : ℕ) × IsCut refs n k
unfolding prune_context_refs drop
prune_context_refs-IsCut refs n =
    let start = length refs - n in
    elim (Bool-cases (leb (length refs) n)) [
      | inl all ↦ (
        0,
        record { window = ground (arith, all); bounded = ground (arith, all); whole = inl refl },
      )
      | inr more ↦ elim (Bool-cases (is_pair (get_elem? refs (start - 1)) (get_elem? refs start))) [
        | inl pair ↦ (
          start - 1,
          record {
            window = ground (arith, more, pair);
            bounded = ground (arith, more);
            whole = inr (
                call_not_result (get_elem? refs (start - 1 - 1)) (get_elem? refs (start - 1))
                  (get_elem? refs start) pair);
          },
        )
        | inr single ↦ (
          start,
          record {
            window = ground (arith, more, single);
            bounded = ground (arith, more);
            whole = inr single;
          },
        )
      ]
    ]

pred_suc : (n : ℕ) → suc n - 1 ≡ n
pred_suc n = omega arith

snoc_length : (early : List Turn) (c : Turn) → suc (length early) ≡ length (early ++ c ∷ [])
snoc_length early c = omega (arith, length-append early (c ∷ []))

-- The window is an end of the turns, of at most one more than the limit, and no call is cut off from
-- the result that stands right behind it.
pub prune_context_refs_keeps :
    (refs : List Turn) (max_turns : ℕ)
    → ((early : List Turn) × (refs ≡ early ++ prune_context_refs refs max_turns))
      × (length (prune_context_refs refs max_turns) ≤ max_turns + 1)
      × ((early late : List Turn) (c r : Turn)
          → refs ≡ early ++ c ∷ r ∷ late
          → prune_context_refs refs max_turns ≡ r ∷ late
          → is_pair (some c) (some r) ≡ false)
prune_context_refs_keeps refs n =
    let (k, h) = prune_context_refs-IsCut refs n in
    let (before, split) = drop_split k refs in
    (
      (before, split ∙ ap (λ xs. before ++ xs) (sym h.window)),
      omega (arith, ap length h.window, length-drop k refs, h.bounded),
      λ early late c r e cut.
          let size : k ≡ suc (length early) = omega (
            arith,
            length-drop k refs,
            ap length (sym h.window ∙ cut),
            ap length e,
            length-append early (c ∷ r ∷ late),
          ) in
          elim h.whole [
            | inl zero_k ↦ absurd (omega (arith, zero_k, size))
            | inr single ↦
                let first : get_elem? refs (k - 1) ≡ some c =
                  ap (λ m. get_elem? refs (m - 1)) size
                  ∙ ap (λ m. get_elem? refs m) (pred_suc (length early))
                  ∙ ap (λ ts. get_elem? ts (length early)) e
                  ∙ get_elem?-append early (r ∷ late) c in
                let second : get_elem? refs k ≡ some r =
                  ap (get_elem? refs) (size ∙ snoc_length early c)
                  ∙ ap (λ ts. get_elem? ts (length (early ++ c ∷ [])))
                      (e ∙ sym (append_assoc early (c ∷ []) (r ∷ late)))
                  ∙ get_elem?-append (early ++ c ∷ []) late r in
                sym (ap (λ o. is_pair o (get_elem? refs k)) first ∙ ap (is_pair (some c)) second)
                ∙ single
          ],
    )
