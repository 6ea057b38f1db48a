-- ===== src/Mention/Scope.antt =====
-- The scope that `from_text` of crates/node/src/mention.rs takes from a message.
use n3ur0n.Prelude.{
  leb, any, String, ◌≡◌, Bool, true, false, ◌&&◌, ◌||◌, Option, none, some, List, [], ◌∷◌, arith,
  ◌==◌, eq_iff,
}
use n3ur0n.Mention.{
  MentionKind, file_kind, peer_kind, lobe_kind, cap_kind, Mention, parse_mentions, MentionScope,
  push_unique, push_capability, push_entity, add_mentions, no_scope, from_text,
}
use n3ur0n.Plan.Counting.{occurs, IsUnique, occurs-append, contains-occurs}
use n3ur0n.Plan.Frontier.{occurs_one}

push_unique-IsUnique :
    (v : List String) (item : String) → IsUnique v → IsUnique (push_unique v item)
unfolding push_unique occurs
push_unique-IsUnique v item u x = ground (
  arith,
  u x,
  eq_iff item x,
  contains-occurs v item,
  occurs-append x v (item ∷ []),
  occurs_one x item,
)

-- No entity and no capability twice.
pub record IsScope (scope : MentionScope) : Type 0 where
  pub peers : IsUnique scope.peers
  pub lobes : IsUnique scope.lobes
  pub capabilities : IsUnique scope.capabilities
  pub files : IsUnique scope.files

-- How often a mention names an entity of the kind, or a capability.
occurs-push_unique :
    (v : List String) (item x : String)
    → leb 1 (occurs x (push_unique v item)) ≡ (leb 1 (occurs x v) || item == x)
unfolding push_unique occurs
occurs-push_unique v item x =
    ground (
      arith,
      eq_iff item x,
      contains-occurs v item,
      occurs-append x v (item ∷ []),
      occurs_one x item,
    )

push_entity-IsScope :
    (kind : MentionKind) (e : String) (scope : MentionScope)
    → IsScope scope
    → IsScope (push_entity kind e scope)
push_entity-IsScope file_kind e scope h = record {
  peers = h.peers;
  lobes = h.lobes;
  capabilities = h.capabilities;
  files = push_unique-IsUnique scope.files e h.files;
}
push_entity-IsScope peer_kind e scope h = record {
  peers = push_unique-IsUnique scope.peers e h.peers;
  lobes = h.lobes;
  capabilities = h.capabilities;
  files = h.files;
}
push_entity-IsScope lobe_kind e scope h = record {
  peers = h.peers;
  lobes = push_unique-IsUnique scope.lobes e h.lobes;
  capabilities = h.capabilities;
  files = h.files;
}
push_entity-IsScope cap_kind e scope h = record {
  peers = h.peers;
  lobes = h.lobes;
  capabilities = push_unique-IsUnique scope.capabilities e h.capabilities;
  files = h.files;
}

push_capability-IsScope :
    (cap : Option String) (scope : MentionScope)
    → IsScope scope
    → IsScope (push_capability cap scope)
push_capability-IsScope none scope h = h
push_capability-IsScope (some cap) scope h = record {
  peers = h.peers;
  lobes = h.lobes;
  capabilities = push_unique-IsUnique scope.capabilities cap h.capabilities;
  files = h.files;
}

add_mentions-IsScope :
    (ms : List Mention) (scope : MentionScope) → IsScope scope → IsScope (add_mentions ms scope)
unfolding add_mentions
add_mentions-IsScope [] scope h = h
add_mentions-IsScope (m ∷ ms) scope h =
    add_mentions-IsScope ms (push_capability m.capability (push_entity m.kind m.entity scope)) (
      push_capability-IsScope m.capability (push_entity m.kind m.entity scope)
        (push_entity-IsScope m.kind m.entity scope h))

abbrev pub is_cap : MentionKind → Bool
is_cap cap_kind = true
is_cap file_kind = false
is_cap peer_kind = false
is_cap lobe_kind = false

abbrev pub is_named : Option String → String → Bool
is_named none x = false
is_named (some cap) x = cap == x

-- The capabilities that mentions name, alone or on a peer or in a lobe.
abbrev pub names_cap : String → Mention → Bool
names_cap x m = is_cap m.kind && m.entity == x || is_named m.capability x

one_mention :
    (kind : MentionKind) (e : String) (cap : Option String) (scope : MentionScope) (x : String)
    → leb 1 (occurs x (push_capability cap (push_entity kind e scope)).capabilities)
      ≡ (leb 1 (occurs x scope.capabilities) || (is_cap kind && e == x || is_named cap x))
one_mention file_kind e none scope x = ground arith
one_mention peer_kind e none scope x = ground arith
one_mention lobe_kind e none scope x = ground arith
one_mention cap_kind e none scope x = ground (arith, occurs-push_unique scope.capabilities e x)
one_mention file_kind e (some c) scope x = ground (arith, occurs-push_unique scope.capabilities c x)
one_mention peer_kind e (some c) scope x = ground (arith, occurs-push_unique scope.capabilities c x)
one_mention lobe_kind e (some c) scope x = ground (arith, occurs-push_unique scope.capabilities c x)
one_mention cap_kind e (some c) scope x = ground (
  arith,
  occurs-push_unique scope.capabilities e x,
  occurs-push_unique (push_unique scope.capabilities e) c x,
)

add_mentions-capabilities :
    (ms : List Mention) (scope : MentionScope) (x : String)
    → leb 1 (occurs x (add_mentions ms scope).capabilities)
      ≡ (leb 1 (occurs x scope.capabilities) || any (names_cap x) ms)
unfolding add_mentions
add_mentions-capabilities [] scope x = ground arith
add_mentions-capabilities (m ∷ ms) scope x = ground (
  arith,
  add_mentions-capabilities ms (push_capability m.capability (push_entity m.kind m.entity scope)) x,
  one_mention m.kind m.entity m.capability scope x,
)

-- The scope of a message has nothing twice, and its capabilities are exactly those that a mention of
-- the message names, alone or on a peer or in a lobe.
pub from_text_exact :
    (s : String)
    → IsScope (from_text s)
      × ((x : String)
          → leb 1 (occurs x (from_text s).capabilities) ≡ any (names_cap x) (parse_mentions s))
unfolding from_text occurs
from_text_exact s = (
  add_mentions-IsScope (parse_mentions s) no_scope (record {
    peers = λ x. omega arith;
    lobes = λ x. omega arith;
    capabilities = λ x. omega arith;
    files = λ x. omega arith;
  }),
  λ x. add_mentions-capabilities (parse_mentions s) no_scope x,
)
