-- ===== src/Plan/Frontier.antt =====
-- The invariant of the graph of a plan while its steps are taken one by one, each once nothing that
-- it waits for is left: of the loop of `topological_order` and of that of `execute_plan_streaming`
-- in crates/node/src/planner/plan.rs.
use mathlib.Core.Path.{subst}
use n3ur0n.Prelude.{
  leb, eqb, if◌then◌else◌, Bool-cases, In, sort, ℕ, ◌+◌, ◌-◌, ◌≤◌, String, ◌≡◌, refl, inl, inr,
  ◌&&◌, List, [], ◌∷◌, ◌++◌, map, arith, ◌==◌, eq_iff,
}
use n3ur0n.Plan.{Link}
use n3ur0n.Plan.Counting.{
  occurs, IsUnique, occurs-append, occurs-sort, occurs-dedup, contains-occurs, occurs-In,
}
use n3ur0n.Plan.Order.{outs, by_index, edges_of, Frontier, lowered, release}

abbrev pub ids : List Link → List String
ids ls = map (λ (l : Link). l.0) ls

-- How many of the dependencies are not done.
unfoldable pub missing : List String → List String → ℕ
missing done [] = 0
missing done (d ∷ ds) = (if eqb (occurs d done) 0 then 1 else 0) + missing done ds

-- No id twice, and no dependency twice.
pub record IsGraph (ls : List Link) : Type 0 where
  pub unique : IsUnique (ids ls)
  pub single : (l : Link) → In l ls → IsUnique l.1

-- A frontier that fits the steps that are done.
pub record IsFrontier (ls : List Link) (done : List String) (fr : Frontier) : Type 0 where
  pub once : (x : String) → occurs x done + occurs x fr.queue ≤ 1
  pub known : (x : String) → 1 ≤ occurs x done + occurs x fr.queue → In x (ids ls)
  pub counted : (l : Link) → In l ls → occurs l.0 done ≡ 0 → fr.indeg l.0 ≡ missing done l.1
  pub ready :
      (l : Link) → In l ls → occurs l.0 done + occurs l.0 fr.queue ≡ 1 → missing done l.1 ≡ 0
  pub waiting :
      (l : Link) → In l ls → occurs l.0 done + occurs l.0 fr.queue ≡ 0 → 1 ≤ missing done l.1

missing-snoc :
    (done : List String) (id : String) (ds : List String)
    → occurs id done ≡ 0
    → missing done ds ≡ missing (done ++ id ∷ []) ds + occurs id ds
unfolding missing occurs
missing-snoc done id [] h = omega arith
missing-snoc done id (d ∷ ds) h =
    ground
      (arith, eq_iff d id, eq_iff id d, occurs-append d done (id ∷ []), missing-snoc done id ds h)

abbrev freed_by : String → Frontier → Frontier
freed_by o fr =
    let less = lowered fr.indeg o in
    record { queue = (if eqb (less o) 0 then fr.queue ++ o ∷ [] else fr.queue); indeg = less }

-- What the loop over the freed steps leaves.
pub release-indeg :
    (os : List String) (fr : Frontier) (k : String)
    → (release os fr).indeg k ≡ fr.indeg k - occurs k os
unfolding release occurs
release-indeg [] fr k = omega arith
release-indeg (o ∷ os) fr k = ground (arith, eq_iff o k, release-indeg os (freed_by o fr) k)

release-queue :
    (os : List String) (fr : Frontier) (k : String)
    → IsUnique os
    → occurs k (release os fr).queue
      ≡ occurs k fr.queue + (if eqb (occurs k os) 1 && leb (fr.indeg k) 1 then 1 else 0)
unfolding release occurs
release-queue [] fr k u = ground arith
release-queue (o ∷ os) fr k u = ground (
  arith,
  eq_iff o k,
  eq_iff k o,
  u k,
  u o,
  occurs-append k fr.queue (o ∷ []),
  release-queue os (freed_by o fr) k (λ x. ground (arith, u x)),
)

outs_bounded : (ls : List Link) (k x : String) → occurs x (outs ls k) ≤ occurs x (ids ls)
unfolding outs occurs
outs_bounded [] k x = omega arith
outs_bounded (l ∷ ls) k x = ground (arith, outs_bounded ls k x)

pub In-ids : (ls : List Link) (l : Link) → In l ls → 1 ≤ occurs l.0 (ids ls)
unfolding occurs
In-ids [] l m = elim m [ ]
In-ids ((id, deps) ∷ ls) l m = elim m [
  | inl here ↦ ground (arith, here, eq_iff id id)
  | inr later ↦ omega (arith, In-ids ls l later)
]

outs-occurs :
    (ls : List Link) (k : String) (l : Link)
    → IsUnique (ids ls)
    → In l ls
    → IsUnique l.1
    → occurs l.0 (outs ls k) ≡ occurs k l.1
unfolding outs occurs
outs-occurs [] k l u m single = elim m [ ]
outs-occurs ((id, deps) ∷ ls) k l u m single = elim m [
  | inl here ↦
      ground
        (arith, here, eq_iff id id, u id, outs_bounded ls k id, contains-occurs deps k, single k)
  | inr later ↦ ground (
    arith,
    eq_iff id l.0,
    u l.0,
    In-ids ls l later,
    contains-occurs deps k,
    outs-occurs ls k l (λ x. ground (arith, u x)) later single,
  )
]

pub edges_of-occurs :
    (ls : List Link) (k : String)
    → IsGraph ls
    → IsUnique (edges_of ls k)
      × ((x : String) → occurs x (edges_of ls k) ≤ occurs x (ids ls))
      × ((l : Link) → In l ls → occurs l.0 (edges_of ls k) ≡ occurs k l.1)
unfolding edges_of
edges_of-occurs ls k g =
    let same : (x : String) → occurs x (edges_of ls k) ≡ occurs x (outs ls k) = λ x.
      let bounded = outs_bounded ls k x in
      ground (
        arith,
        bounded,
        g.unique x,
        occurs-dedup x (sort (by_index ls) (outs ls k)),
        occurs-sort (by_index ls) x (outs ls k),
      ) in
    (
      λ x. omega (arith, same x, outs_bounded ls k x, g.unique x),
      λ x. omega (arith, same x, outs_bounded ls k x),
      λ l m. omega (arith, same l.0, outs-occurs ls k l g.unique m (g.single l m)),
    )

missing-occurs :
    (done : List String) (k : String) (ds : List String)
    → occurs k done ≡ 0
    → occurs k ds ≤ missing done ds
unfolding missing occurs
missing-occurs done k [] h = omega arith
missing-occurs done k (d ∷ ds) h = ground (arith, eq_iff d k, missing-occurs done k ds h)

pub link_of_occurs :
    (ls : List Link) (x : String) → 1 ≤ occurs x (ids ls) → (l : Link) × In l ls × (l.0 ≡ x)
unfolding occurs
link_of_occurs [] x h = absurd (omega arith)
link_of_occurs ((id, deps) ∷ ls) x h = elim (Bool-cases (id == x)) [
  | inl same ↦ ((id, deps), inl refl, (eq_iff id x).0 same)
  | inr other ↦ let (l, m, e) = link_of_occurs ls x (ground (arith, other)) in (l, inr m, e)
]

abbrev pub after : List Link → Frontier → String → List String → Frontier
after ls fr id rest = release (edges_of ls id) (record { queue = rest; indeg = fr.indeg })

pub occurs_one : (x id : String) → occurs x (id ∷ []) ≡ (if id == x then 1 else 0)
unfolding occurs
occurs_one x id = omega arith

-- How often a step is done or in the queue once `id` is taken.
total :
    (ls : List Link) (done : List String) (fr : Frontier) (id : String) (rest : List String)
    → IsGraph ls
    → ((x : String) → occurs x fr.queue ≡ (if id == x then 1 else 0) + occurs x rest)
    → (x : String)
    → occurs x (done ++ id ∷ []) + occurs x (after ls fr id rest).queue
      ≡ occurs x done
        + occurs x fr.queue
        + (if eqb (occurs x (edges_of ls id)) 1 && leb (fr.indeg x) 1 then 1 else 0)
total ls done fr id rest g q x = ground (
  arith,
  occurs-append x done (id ∷ []),
  q x,
  release-queue (edges_of ls id) (record { queue = rest; indeg = fr.indeg }) x
      (edges_of-occurs ls id g).0,
  occurs_one x id,
)

-- What taking the step `id` changes for a link.
taken :
    (ls : List Link) (done : List String) (fr : Frontier) (id : String) (rest : List String)
    → IsGraph ls
    → IsFrontier ls done fr
    → ((x : String) → occurs x fr.queue ≡ (if id == x then 1 else 0) + occurs x rest)
    → (l : Link) → In l ls
    → (occurs l.0 (done ++ id ∷ []) + occurs l.0 (after ls fr id rest).queue
        ≡ occurs l.0 done
          + occurs l.0 fr.queue
          + (if eqb (occurs id l.1) 1 && leb (fr.indeg l.0) 1 then 1 else 0))
      × ((after ls fr id rest).indeg l.0 ≡ fr.indeg l.0 - occurs id l.1)
      × (missing done l.1 ≡ missing (done ++ id ∷ []) l.1 + occurs id l.1)
      × (occurs id l.1 ≤ missing done l.1)
      × (occurs id l.1 ≤ 1)
taken ls done fr id rest g h q l m =
    let e = (edges_of-occurs ls id g).2 l m in
    let fr1 : Frontier = record { queue = rest; indeg = fr.indeg } in
    let new : occurs id done ≡ 0 = ground (arith, h.once id, q id, eq_iff id id) in
    (
      ground (arith, total ls done fr id rest g q l.0, e),
      ground (arith, release-indeg (edges_of ls id) fr1 l.0, e),
      missing-snoc done id l.1 new,
      missing-occurs done id l.1 new,
      g.single l m id,
    )

pub known_occurs :
    (ls : List Link) (done : List String) (fr : Frontier)
    → IsFrontier ls done fr
    → (x : String) → 1 ≤ occurs x done + occurs x fr.queue
    → 1 ≤ occurs x (ids ls)
known_occurs ls done fr h x occ = (occurs-In x (ids ls)).1 (h.known x occ)

-- Taking a step that waits for nothing leaves a frontier that fits.
pub advance-IsFrontier :
    (ls : List Link) (done : List String) (fr : Frontier) (id : String) (rest : List String)
    → IsGraph ls
    → IsFrontier ls done fr
    → ((x : String) → occurs x fr.queue ≡ (if id == x then 1 else 0) + occurs x rest)
    → IsFrontier ls (done ++ id ∷ []) (after ls fr id rest)
advance-IsFrontier ls done fr id rest g h q =
    let change = taken ls done fr id rest g h q in
    let sum = total ls done fr id rest g q in
    let of_ids : (x : String)
        → 1 ≤ occurs x (done ++ id ∷ []) + occurs x (after ls fr id rest).queue
        → 1 ≤ occurs x (ids ls) =
      λ x occ.
        ground (arith, sum x, (edges_of-occurs ls id g).1 x, known_occurs ls done fr h x, occ) in
    record {
      once = λ x. elim (Bool-cases (leb 1 (occurs x (ids ls)))) [
        | inl inside ↦
            let (l, m, e) = link_of_occurs ls x (ground (arith, inside)) in
            subst (λ y. occurs y (done ++ id ∷ []) + occurs y (after ls fr id rest).queue ≤ 1) e
              (ground (arith, change l m, h.once l.0, h.ready l m, h.counted l m))
        | inr outside ↦ ground (arith, of_ids x, outside)
      ];
      known = λ x occ. (occurs-In x (ids ls)).0 (of_ids x occ);
      counted =
          λ l m z. ground (arith, change l m, h.counted l m, occurs-append l.0 done (id ∷ []), z);
      ready = λ l m z. ground (arith, change l m, h.once l.0, h.ready l m, h.counted l m, z);
      waiting = λ l m z. ground (arith, change l m, h.once l.0, h.waiting l m, h.counted l m, z);
    }
