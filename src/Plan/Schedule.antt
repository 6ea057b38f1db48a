-- ===== src/Plan/Schedule.antt =====
-- `topological_order` of crates/node/src/planner/plan.rs: its loop takes the steps of a plan one by one,
-- as any schedule does that takes a step only when nothing it waits for is left.
use mathlib.Core.List.{append_assoc, append-nil}
use mathlib.Core.Path.{subst}
use n3ur0n.Prelude.{
  if◌then◌else◌, length, length-append, In, List-cases, ℕ, zero, suc, ◌+◌, ◌≤◌, String, ◌≡◌, refl,
  sym, ap, inl, inr, List, [], ◌∷◌, ◌++◌, arith, ◌==◌, eq_iff,
}
use n3ur0n.Plan.{Link}
use n3ur0n.Plan.Acyclic.{no_occurs, length_done}
use n3ur0n.Plan.Counting.{occurs, occurs-append}
use n3ur0n.Plan.Frontier.{
  missing, IsGraph, IsFrontier, link_of_occurs, after, known_occurs, advance-IsFrontier,
}
use n3ur0n.Plan.Order.{Frontier, seed, kahn}
use n3ur0n.Plan.Seed.{seed-IsFrontier}

-- What one can reach from the first frontier by taking, again and again, any step of the queue.
pub data Reached (ls : List Link) : List String → Frontier → Type 0 where
  seeded : Reached ls [] (seed ls)
  take_step :
      (done : List String) (fr : Frontier) (id : String) (rest : List String)
      → Reached ls done fr
      → ((x : String) → occurs x fr.queue ≡ (if id == x then 1 else 0) + occurs x rest)
      → Reached ls (done ++ id ∷ []) (after ls fr id rest)

pub Reached-IsFrontier :
    (ls : List Link) (done : List String) (fr : Frontier)
    → IsGraph ls
    → Reached ls done fr
    → IsFrontier ls done fr
Reached-IsFrontier ls _ _ g seeded = seed-IsFrontier ls g
Reached-IsFrontier ls _ _ g (take_step done fr id rest before q) =
    advance-IsFrontier ls done fr id rest g (Reached-IsFrontier ls done fr g before) q

-- Each step of a list stands behind all that it waits for, where `past` came before the list.
pub IsOrdered : List Link → List String → List String → Type 0
IsOrdered ls past [] = Unit
IsOrdered ls past (id ∷ order) =
    ((l : Link) → In l ls → l.0 ≡ id → missing past l.1 ≡ 0) × IsOrdered ls (past ++ id ∷ []) order

IsOrdered-snoc :
    (ls : List Link) (past order : List String) (id : String)
    → IsOrdered ls past order
    → ((l : Link) → In l ls → l.0 ≡ id → missing (past ++ order) l.1 ≡ 0)
    → IsOrdered ls past (order ++ id ∷ [])
unfolding IsOrdered
IsOrdered-snoc ls past [] id h fits =
    (λ l m e. subst (λ xs. missing xs l.1 ≡ 0) (append-nil past) (fits l m e), tt)
IsOrdered-snoc ls past (x ∷ order) id h fits = (
  h.0,
  IsOrdered-snoc ls (past ++ x ∷ []) order id h.1 (λ l m e.
      subst (λ xs. missing xs l.1 ≡ 0) (sym (append_assoc past (x ∷ []) order)) (fits l m e)),
)

pub Reached-IsOrdered :
    (ls : List Link) (done : List String) (fr : Frontier)
    → IsGraph ls
    → Reached ls done fr
    → IsOrdered ls [] done
unfolding IsOrdered occurs
Reached-IsOrdered ls _ _ g seeded = tt
Reached-IsOrdered ls _ _ g (take_step done fr id rest before q) =
    let h = Reached-IsFrontier ls done fr g before in
    IsOrdered-snoc ls [] done id (Reached-IsOrdered ls done fr g before)
      (λ l m e. ground (arith, h.ready l m, h.once l.0, q l.0, eq_iff id l.0, sym e))

-- What stands before a step in an ordered list.
pub IsOrdered-prefix :
    (ls : List Link) (past early late : List String) (id : String)
    → IsOrdered ls past (early ++ id ∷ late)
    → (l : Link) → In l ls
    → l.0 ≡ id
    → missing (past ++ early) l.1 ≡ 0
unfolding IsOrdered
IsOrdered-prefix ls past [] late id h l m e =
    subst (λ xs. missing xs l.1 ≡ 0) (sym (append-nil past)) (h.0 l m e)
IsOrdered-prefix ls past (x ∷ early) late id h l m e =
    subst (λ xs. missing xs l.1 ≡ 0) (append_assoc past (x ∷ []) early)
      (IsOrdered-prefix ls (past ++ x ∷ []) early late id h.1 l m e)

missing_mono :
    (done done' ds : List String)
    → ((x : String) → occurs x done' ≤ occurs x done)
    → missing done ds ≤ missing done' ds
unfolding missing
missing_mono done done' [] h = omega arith
missing_mono done done' (d ∷ ds) h = ground (arith, h d, missing_mono done done' ds h)

-- What an ended schedule has taken includes any step that waits only for steps it has taken.
ended_takes :
    (ls : List Link) (done : List String) (fr : Frontier) (l : Link)
    → IsFrontier ls done fr
    → fr.queue ≡ []
    → In l ls
    → missing done l.1 ≡ 0
    → occurs l.0 done ≡ 1
ended_takes ls done fr l h e m z = ground (arith, no_occurs l.0 e, h.once l.0, h.waiting l m, z)

-- A schedule that has come to its end has taken every step that any schedule takes.
pub Reached-maximal :
    (ls : List Link) (done done' : List String) (fr fr' : Frontier)
    → IsGraph ls
    → Reached ls done fr
    → fr.queue ≡ []
    → Reached ls done' fr'
    → (x : String) → occurs x done' ≤ occurs x done
unfolding occurs
Reached-maximal ls done _ fr _ g h e seeded x = omega arith
Reached-maximal ls done _ fr _ g h e (take_step done' fr' id rest before q) x =
    let rest_in = Reached-maximal ls done done' fr fr' g h e before in
    let past = Reached-IsFrontier ls done' fr' g before in
    let here : 1 ≤ occurs id fr'.queue = ground (arith, q id, eq_iff id id) in
    let (l, m, same) =
      link_of_occurs ls id (known_occurs ls done' fr' past id (omega (arith, here))) in
    let free : missing done' l.1 ≡ 0 = ground (
      arith,
      past.ready l m,
      past.once id,
      here,
      ap (λ y. occurs y done') same,
      ap (λ y. occurs y fr'.queue) same,
    ) in
    let taken_too : occurs l.0 done ≡ 1 =
      ended_takes ls done fr l (Reached-IsFrontier ls done fr g h) e m
        (omega (arith, missing_mono done done' l.1 rest_in, free)) in
    ground (
      arith,
      eq_iff id x,
      occurs-append x done' (id ∷ []),
      rest_in x,
      past.once id,
      here,
      subst (λ y. occurs y done ≡ 1) same taken_too,
    )

kahn-stop :
    (ls : List Link) (fuel : ℕ) (order : List String) (fr : Frontier)
    → fr.queue ≡ []
    → kahn ls (suc fuel) order fr ≡ (order, fr)
unfolding kahn
kahn-stop ls fuel order fr e = rw e refl

kahn-step :
    (ls : List Link) (fuel : ℕ) (order : List String) (fr : Frontier) (id : String)
    (rest : List String)
    → fr.queue ≡ id ∷ rest
    → kahn ls (suc fuel) order fr ≡ kahn ls fuel (order ++ id ∷ []) (after ls fr id rest)
unfolding kahn
kahn-step ls fuel order fr id rest e = rw e refl

take_head :
    (ls : List Link) (order : List String) (fr : Frontier) (id : String) (rest : List String)
    → fr.queue ≡ id ∷ rest
    → Reached ls order fr
    → Reached ls (order ++ id ∷ []) (after ls fr id rest)
unfolding occurs
take_head ls order fr id rest e h = take_step order fr id rest h (λ x. rw e refl)

-- The loop over the queue only ever takes its head.
pub kahn-Reached :
    (ls : List Link) (fuel : ℕ) (order : List String) (fr : Frontier)
    → Reached ls order fr
    → Reached ls (kahn ls fuel order fr).0 (kahn ls fuel order fr).1
unfolding kahn
kahn-Reached ls zero order fr h = h
kahn-Reached ls (suc fuel) order fr h = elim (List-cases fr.queue) [
  | inl e ↦ rw (kahn-stop ls fuel order fr e) h
  | inr (id, rest, e) ↦ rw (kahn-step ls fuel order fr id rest e) (
      kahn-Reached ls fuel (order ++ id ∷ []) (after ls fr id rest)
        (take_head ls order fr id rest e h))
]

no_more : (xs : List String) → length xs ≤ 0 → xs ≡ []
no_more [] h = refl
no_more (x ∷ xs) h = absurd (omega arith)

-- A step of fuel for each step of the plan is enough to empty the queue.
pub kahn-runs_out :
    (ls : List Link) (fuel : ℕ) (order : List String) (fr : Frontier)
    → IsGraph ls
    → Reached ls order fr
    → length ls ≤ length order + fuel
    → (kahn ls fuel order fr).1.queue ≡ []
unfolding kahn
kahn-runs_out ls zero order fr g h enough =
    no_more fr.queue (omega (arith, length_done ls order fr (Reached-IsFrontier ls order fr g h)))
kahn-runs_out ls (suc fuel) order fr g h enough = elim (List-cases fr.queue) [
  | inl e ↦ rw (kahn-stop ls fuel order fr e) e
  | inr (id, rest, e) ↦ rw (kahn-step ls fuel order fr id rest e) (
      kahn-runs_out ls fuel (order ++ id ∷ []) (after ls fr id rest) g
        (take_head ls order fr id rest e h) (omega (arith, length-append order (id ∷ []))))
]
