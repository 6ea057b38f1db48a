-- ===== src/Plan/Position.antt =====
-- Where an id stands in an order of the steps, for `topological_order` of
-- crates/node/src/planner/plan.rs.
use n3ur0n.Prelude.{
  leb, if◌then◌else◌, Bool-cases, length, In, ℕ, suc, ◌≤◌, ◌<◌, String, ◌≡◌, ap, inl, inr, List, [],
  ◌∷◌, ◌++◌, arith, ◌==◌, eq_iff,
}
use n3ur0n.Plan.Counting.{occurs, IsUnique, occurs-append, occurs-In, length-le_of_occurs}

unfoldable pub position : String → List String → ℕ
position x [] = 0
position x (y ∷ ys) = let later = position x ys in if y == x then 0 else suc later

position_early :
    (x y : String) (early late : List String)
    → 1 ≤ occurs x early
    → occurs y early ≡ 0
    → position x (early ++ y ∷ late) < position y (early ++ y ∷ late)
unfolding occurs position
position_early x y [] late h z = absurd (omega arith)
position_early x y (e ∷ early) late h z =
    ground (arith, eq_iff e x, eq_iff e y, eq_iff x y, position_early x y early late)

split_at_id :
    (x : String) (xs : List String)
    → 1 ≤ occurs x xs
    → (early late : List String) × (xs ≡ early ++ x ∷ late)
unfolding occurs
split_at_id x [] h = absurd (omega arith)
split_at_id x (y ∷ ys) h = elim (Bool-cases (y == x)) [
  | inl same ↦ ([], ys, ap (λ z. z ∷ ys) ((eq_iff y x).0 same))
  | inr other ↦
      let (early, late, e) = split_at_id x ys (ground (arith, other)) in
      (y ∷ early, late, ap (λ zs. y ∷ zs) e)
]

-- Where a step stands behind all that it waits for, its position is the greater one.
pub position-below :
    (x d : String) (order : List String)
    → IsUnique order
    → 1 ≤ occurs x order
    → ((early late : List String) → order ≡ early ++ x ∷ late → In d early)
    → position d order < position x order
unfolding occurs
position-below x d order u m h =
    let (early, late, e) = split_at_id x order m in
    let alone : occurs x early ≡ 0 =
      ground (arith, u x, ap (occurs x) e, occurs-append x early (x ∷ late), eq_iff x x) in
    rw e (position_early d x early late ((occurs-In d early).1 (h early late e)) alone)

-- A list as long as one whose elements it has at most as often has them as often.
pub same_length :
    (xs ys : List String) (x : String)
    → ((y : String) → occurs y xs ≤ occurs y ys)
    → length xs ≡ length ys
    → occurs x ys ≤ occurs x xs
unfolding occurs
same_length xs ys x h e = elim (Bool-cases (leb (occurs x ys) (occurs x xs))) [
  | inl le ↦ ground (arith, le)
  | inr gt ↦
      let more = length-le_of_occurs (x ∷ xs) ys (λ y. ground (arith, eq_iff x y, h y, gt)) in
      absurd (omega (arith, more, e))
]
