-- ===== src/Plan/Acyclic.antt =====
-- When the steps of a graph can all be taken, for `topological_order` and `execute_plan_streaming` of
-- crates/node/src/planner/plan.rs.
use mathlib.Core.Path.{subst}
use n3ur0n.Prelude.{
  leb, eqb, Bool-cases, length, length-append, In, ℕ, zero, suc, ◌+◌, ◌≤◌, ◌<◌, String, ◌≡◌, refl,
  sym, inl, inr, List, [], ◌∷◌, ◌++◌, arith,
}
use n3ur0n.Plan.{Link}
use n3ur0n.Plan.Counting.{occurs, occurs-append, occurs-In, length-le_of_occurs}
use n3ur0n.Plan.Frontier.{ids, missing, IsGraph, IsFrontier, link_of_occurs, known_occurs}
use n3ur0n.Plan.Order.{Frontier}

-- Ranks by which each step stands above the steps that it waits for.
pub record Ranking (ls : List Link) : Type 0 where
  pub rank : String → ℕ
  pub below : (l : Link) → In l ls → (d : String) → In d l.1 → rank d < rank l.0

-- The dependencies are steps of the graph.
abbrev pub IsClosed : List Link → Type 0
IsClosed ls = (l : Link) → In l ls → (d : String) → In d l.1 → In d (ids ls)

missing-first :
    (done ds : List String) → 1 ≤ missing done ds → (d : String) × In d ds × (occurs d done ≡ 0)
unfolding missing
missing-first done [] h = absurd (omega arith)
missing-first done (d ∷ ds) h = elim (Bool-cases (eqb (occurs d done) 0)) [
  | inl new ↦ (d, inl refl, ground (arith, new))
  | inr old ↦ let (x, m, e) = missing-first done ds (ground (arith, h, old)) in (x, inr m, e)
]

pub missing-In : (done ds : List String) → missing done ds ≡ 0 → (d : String) → In d ds → In d done
unfolding missing
missing-In done [] h d m = elim m [ ]
missing-In done (x ∷ ds) h d m = elim m [
  | inl here ↦ (occurs-In d done).0 (ground (arith, here, h))
  | inr later ↦ missing-In done ds (ground (arith, h)) d later
]

pub no_occurs : {xs : List String} (x : String) → xs ≡ [] → occurs x xs ≡ 0
unfolding occurs
no_occurs x e = rw e refl

pub length-ids : (ls : List Link) → length (ids ls) ≡ length ls
length-ids [] = refl
length-ids (l ∷ ls) = omega (arith, length-ids ls)

-- With ranks, a frontier with an empty queue has all the steps below any rank behind it.
done_below :
    (ls : List Link) (done : List String) (fr : Frontier) (r : Ranking ls)
    → IsClosed ls
    → IsFrontier ls done fr
    → fr.queue ≡ []
    → (n : ℕ) (l : Link) → In l ls
    → r.rank l.0 < n
    → occurs l.0 done ≡ 1
done_below ls done fr r c h e zero l m lt = absurd (omega arith)
done_below ls done fr r c h e (suc n) l m lt =
    let below : (d : String) → In d l.1 → occurs d done ≡ 1 = λ d md.
      let (l', m', e') = link_of_occurs ls d ((occurs-In d (ids ls)).1 (c l m d md)) in
      subst (λ x. occurs x done ≡ 1) e'
        (done_below ls done fr r c h e n l' m'
          (subst (λ x. r.rank x < n) (sym e') (omega (arith, r.below l m d md, lt)))) in
    elim (Bool-cases (eqb (occurs l.0 done) 1)) [
      | inl yes_done ↦ ground (arith, yes_done)
      | inr not_done ↦
          let new : occurs l.0 done ≡ 0 = ground (arith, not_done, h.once l.0) in
          let empty : occurs l.0 fr.queue ≡ 0 = no_occurs l.0 e in
          let (d, md, fresh) = missing-first done l.1 (h.waiting l m (omega (arith, new, empty))) in
          absurd (omega (arith, below d md, fresh))
    ]

-- No more steps are taken than the graph has.
pub length_done :
    (ls : List Link) (done : List String) (fr : Frontier)
    → IsFrontier ls done fr
    → length done + length fr.queue ≤ length ls
length_done ls done fr h =
    let counts : (x : String) → occurs x (done ++ fr.queue) ≤ occurs x (ids ls) =
      λ x. ground (arith, occurs-append x done fr.queue, h.once x, known_occurs ls done fr h x) in
    omega (
      arith,
      length-le_of_occurs (done ++ fr.queue) (ids ls) counts,
      length-append done fr.queue,
      length-ids ls,
    )

-- With ranks, the steps are all taken once the queue is empty.
pub all_done :
    (ls : List Link) (done : List String) (fr : Frontier) (r : Ranking ls)
    → IsGraph ls
    → IsClosed ls
    → IsFrontier ls done fr
    → fr.queue ≡ []
    → length done ≡ length ls
all_done ls done fr r g c h e =
    let counts : (x : String) → occurs x (ids ls) ≤ occurs x done = λ x.
      elim (Bool-cases (leb 1 (occurs x (ids ls)))) [
        | inl inside ↦
            let (l, m, same) = link_of_occurs ls x (ground (arith, inside)) in
            subst (λ y. occurs y (ids ls) ≤ occurs y done) same
              (omega (
                arith,
                g.unique l.0,
                done_below ls done fr r c h e (suc (r.rank l.0)) l m (omega arith),
              ))
        | inr outside ↦ ground (arith, outside)
      ] in
    omega (arith, length-le_of_occurs (ids ls) done counts, length_done ls done fr h, length-ids ls)
