-- ===== src/Handler/Admission.antt =====
-- What the nonce table of crates/node/src/handler.rs remembers, across requests that
-- are served one after the other on a clock that does not run backwards.
use n3ur0n.Storage.Nonces
use mathlib.Core.Path.{subst}
use n3ur0n.Prelude.{
  leb, Bool-cases, ok, ℕ, ◌+◌, ◌≤◌, ◌<◌, String, ◌≡◌, refl, sym, ap, ◌∙◌, ◌⊎◌, inl, inr, Option,
  some, List, arith,
}
use n3ur0n.Clock.{unix_timestamp, from_secs}
use n3ur0n.Handler.{
  Faults, Readings, Served, nonce_ttl_seconds, dispatch, prune_cutoff, serve_fresh, handle_request,
}
use n3ur0n.Handler.Stages.{
  with_peers, SameBut-conclude, IsAdmitted, with_nonces, inserted_rows, handle-admitted,
  handle-cases,
}
use n3ur0n.Message.{Envelope, SignedMessage, VerifyConfig, verify_envelope}
use n3ur0n.Message.Window.{accepted_within}
use n3ur0n.Node.{NodeConfig, Node, Outside, rename, set_lobes, node_id}
use n3ur0n.Storage.{Fault}
use n3ur0n.Storage.Nonces.{NonceRow}
use n3ur0n.Storage.Peers.{PeerRecord}

-- The life of a node, with the time of its last reading of the clock: requests, the nonces of blob
-- tickets (crates/server/src/blobs.rs), and what an operator or a background task changes.
pub data Steps (o : Outside) : ℕ → Node → ℕ → Node → Type 0 where
  start : {t : ℕ} {node : Node} → Steps o t node t node
  request :
      {t t' : ℕ} {a b : Node} (f : Faults) (r : Readings) (m : SignedMessage)
      → Steps o t a t' b
      → t' ≤ r.verified_at
      → r.verified_at ≤ r.now
      → Steps o t a r.now (handle_request o f r b m).node
  renamed :
      {t t' : ℕ} {a b : Node} (alias : Option String)
      → Steps o t a t' b
      → Steps o t a t' (rename b alias)
  moved :
      {t t' : ℕ} {a b : Node} (lobes : List String)
      → Steps o t a t' b
      → Steps o t a t' (set_lobes b lobes)
  ticketed :
      {t t' : ℕ} {a b : Node} (fault : Fault) (sender nonce : String) (now : ℕ)
      → Steps o t a t' b
      → t' ≤ now
      → Steps o t a now (
          with_nonces b
            (Nonces.insert_if_absent fault b.nonces sender nonce (unix_timestamp now)).1)
  peers_changed :
      {t t' : ℕ} {a b : Node} (peers : List PeerRecord)
      → Steps o t a t' b
      → Steps o t a t' (with_peers b peers)

-- The node that the verb of an admitted request runs on.
abbrev pub pruned_node : Faults → Readings → Node → Envelope → Node
pruned_node f r node e =
    with_nonces node
      (Nonces.prune_older_than f.nonce_prune (inserted_rows f r node e).1 (prune_cutoff r)).1

-- What an admitted request leaves of the nonces and of the configuration.
admitted-state :
    (o : Outside) (f : Faults) (r : Readings) (node : Node) (m : SignedMessage)
    → IsAdmitted o f r node m
    → ((handle_request o f r node m).node.nonces
        ≡ (Nonces.prune_older_than f.nonce_prune
            (inserted_rows f r node m.envelope).1
            (prune_cutoff r)).1)
      × ((handle_request o f r node m).node.config ≡ node.config)
unfolding serve_fresh
admitted-state o f r node m a =
    let kept =
      SameBut-conclude o f r (pruned_node f r node m.envelope) m.envelope
        (dispatch o f (pruned_node f r node m.envelope) r.now m.envelope.verb m.envelope.payload) in
    let served = handle-admitted o f r node m a in
    (
      ap (λ (x : Served). x.node.nonces) served ∙ kept.nonces,
      ap (λ (x : Served). x.node.config) served ∙ kept.config,
    )

request-config :
    (o : Outside) (f : Faults) (r : Readings) (node : Node) (m : SignedMessage)
    → (handle_request o f r node m).node.config ≡ node.config
request-config o f r node m = elim (handle-cases o f r node m) [
  | inl a ↦ (admitted-state o f r node m a).1
  | inr (problem, turned_away) ↦ rw turned_away refl
]

steps-config : {o : Outside} {t t' : ℕ} {a b : Node} → Steps o t a t' b → b.config ≡ a.config
unfolding rename set_lobes
steps-config start = refl
steps-config {o} (request f r m steps late ordered) = request-config o f r _ m ∙ steps-config steps
steps-config (renamed alias steps) = steps-config steps
steps-config (moved lobes steps) = steps-config steps
steps-config (ticketed fault sender nonce now steps late) = steps-config steps
steps-config (peers_changed peers steps) = steps-config steps

steps-ordered : {o : Outside} {t t' : ℕ} {a b : Node} → Steps o t a t' b → t ≤ t'
steps-ordered start = omega arith
steps-ordered (request f r m steps late ordered) = let h = steps-ordered steps in omega arith
steps-ordered (renamed alias steps) = steps-ordered steps
steps-ordered (moved lobes steps) = steps-ordered steps
steps-ordered (ticketed fault sender nonce now steps late) =
    let h = steps-ordered steps in omega arith
steps-ordered (peers_changed peers steps) = steps-ordered steps

-- The pair is in the table with its time, or its hour is over.
IsRemembered : String → String → ℕ → ℕ → Node → Type 0
IsRemembered s n since clock node =
    (Nonces.seen node.nonces s n ≡ some since) ⊎ (since + nonce_ttl_seconds < unix_timestamp clock)

IsRemembered-cases :
    (s n : String) (since clock : ℕ) (node : Node)
    → IsRemembered s n since clock node
    → (Nonces.seen node.nonces s n ≡ some since)
      ⊎ (since + nonce_ttl_seconds < unix_timestamp clock)
unfolding IsRemembered
IsRemembered-cases s n since clock node h = h

IsRemembered-later :
    (s n : String) (since clock later : ℕ) (node : Node)
    → IsRemembered s n since clock node
    → clock ≤ later
    → IsRemembered s n since later node
unfolding IsRemembered
IsRemembered-later s n since clock later node (inl stored) ordered = inl stored
IsRemembered-later s n since clock later node (inr over) ordered = inr (ground arith)

request-remembers :
    (o : Outside) (f : Faults) (r : Readings) (node : Node) (m : SignedMessage) (s n : String)
    (since clock : ℕ)
    → IsRemembered s n since clock node
    → clock ≤ r.now
    → IsRemembered s n since r.now (handle_request o f r node m).node
unfolding IsRemembered
request-remembers o f r node m s n since clock h ordered = elim (handle-cases o f r node m) [
  | inr (problem, turned_away) ↦
      subst (λ (x : Served). IsRemembered s n since r.now x.node) (sym turned_away)
        (IsRemembered-later s n since clock r.now node h ordered)
  | inl a ↦ elim h [
    | inr over ↦ inr (ground arith)
    | inl stored ↦ elim (Bool-cases (leb (prune_cutoff r) since)) [
      | inl recent ↦ inl (
          subst (λ (x : List NonceRow). Nonces.seen x s n ≡ some since)
            (sym (admitted-state o f r node m a).0)
            (Nonces.seen-prune f.nonce_prune (inserted_rows f r node m.envelope).1 (prune_cutoff r)
              s n since
              (ground (
                arith,
                stored,
                Nonces.seen-insert f.nonce_insert node.nonces m.envelope.sender_id m.envelope.nonce
                    s n (unix_timestamp r.now),
              ))
              (ground (arith, recent))))
      | inr old ↦ inr (ground (arith, old))
    ]
  ]
]

-- The nonce of an admitted request is in the table, with the second of its admission.
admitted-IsRemembered :
    (o : Outside) (f : Faults) (r : Readings) (node : Node) (m : SignedMessage)
    → IsAdmitted o f r node m
    → IsRemembered m.envelope.sender_id m.envelope.nonce
        (unix_timestamp r.now)
        r.now
        (handle_request o f r node m).node
unfolding IsRemembered
admitted-IsRemembered o f r node m a =
    let (s, n, now) : String × String × ℕ =
      (m.envelope.sender_id, m.envelope.nonce, unix_timestamp r.now) in
    inl (
      subst (λ (x : List NonceRow). Nonces.seen x s n ≡ some now)
        (sym (admitted-state o f r node m a).0)
        (Nonces.seen-prune f.nonce_prune (inserted_rows f r node m.envelope).1 (prune_cutoff r) s n
          now (Nonces.inserted-new f.nonce_insert node.nonces s n now a.new).1 (omega arith)))

ticket-remembers :
    (node : Node) (s n : String) (since clock now : ℕ) (fault : Fault) (sender nonce : String)
    → IsRemembered s n since clock node
    → clock ≤ now
    → IsRemembered s n since now (
        with_nonces node
          (Nonces.insert_if_absent fault node.nonces sender nonce (unix_timestamp now)).1)
unfolding IsRemembered
ticket-remembers node s n since clock now fault sender nonce h late = elim h [
  | inl stored ↦ inl (
      ground
        (arith, stored, Nonces.seen-insert fault node.nonces sender nonce s n (unix_timestamp now)))
  | inr over ↦ inr (ground arith)
]

steps-remember :
    {o : Outside} {t t' : ℕ} {a b : Node} (s n : String) (since : ℕ)
    → Steps o t a t' b
    → IsRemembered s n since t a
    → IsRemembered s n since t' b
unfolding IsRemembered rename set_lobes
steps-remember s n since start h = h
steps-remember {o} s n since (request {t' = clock} f r m steps late ordered) h =
    request-remembers o f r _ m s n since clock (steps-remember s n since steps h) (ground arith)
steps-remember s n since (renamed alias steps) h = steps-remember s n since steps h
steps-remember s n since (moved lobes steps) h = steps-remember s n since steps h
steps-remember s n since (ticketed {t' = clock} {b = b} fault sender nonce now steps late) h =
    ticket-remembers b s n since clock now fault sender nonce (steps-remember s n since steps h)
      late
steps-remember s n since (peers_changed peers steps) h = steps-remember s n since steps h

admitted-within :
    (o : Outside) (f : Faults) (r : Readings) (node : Node) (m : SignedMessage) (skew : ℕ)
    → node.config.verify ≡ record { clock_skew = from_secs skew }
    → IsAdmitted o f r node m
    → (r.verified_at < m.envelope.timestamp + from_secs (skew + 1))
      × (m.envelope.timestamp < r.verified_at + from_secs (skew + 1))
admitted-within o f r node m skew configured a =
    accepted_within o.crypto o.canonical m (node_id o node) r.verified_at skew a.verified (
      subst
        (λ (c : VerifyConfig).
          verify_envelope o.crypto o.canonical m (node_id o node) r.verified_at c ≡ ok a.verified)
        configured a.authentic)

-- A node whose clock skew is whole seconds, less than half an hour, admits an envelope once: after
-- a request was admitted, and after any steps on a clock that does not run backwards, no request
-- with the same envelope is admitted.
pub no_replay :
    (o : Outside) (skew : ℕ) (f f' : Faults) (r r' : Readings) (node later : Node) (t : ℕ)
    (m m' : SignedMessage)
    → node.config.verify ≡ record { clock_skew = from_secs skew }
    → skew < 1800
    → r.verified_at ≤ r.now
    → IsAdmitted o f r node m
    → Steps o r.now (handle_request o f r node m).node t later
    → t ≤ r'.verified_at
    → m'.envelope ≡ m.envelope
    → ¬ IsAdmitted o f' r' later m'
no_replay o skew f f' r r' node later t m m' configured small ordered first steps after same again =
    let remembered =
      steps-remember m.envelope.sender_id m.envelope.nonce (unix_timestamp r.now) steps
        (admitted-IsRemembered o f r node m first) in
    let verify_kept =
      ap (λ (c : NodeConfig). c.verify) (steps-config steps ∙ request-config o f r node m)
      ∙ configured in
    let first_window = admitted-within o f r node m skew configured first in
    let again_window = admitted-within o f' r' later m' skew verify_kept again in
    let unseen =
      (Nonces.inserted-new f'.nonce_insert later.nonces m'.envelope.sender_id m'.envelope.nonce
        (unix_timestamp r'.now) again.new).0 in
    elim (IsRemembered-cases m.envelope.sender_id m.envelope.nonce (unix_timestamp r.now) t later
      remembered) [
        | inl stored ↦ ground (arith, same, stored, unseen)
        | inr over ↦ ground (arith, same, first_window, again_window)
      ]
