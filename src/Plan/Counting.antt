-- ===== src/Plan/Counting.antt =====
-- How often a text occurs in a list: lists as bags, for the queues and orders of
-- crates/node/src/planner/plan.rs.
use n3ur0n.Prelude.{
  leb, if◌then◌else◌, Bool-cases, length, filter, In, insert_sorted, sort, ℕ, suc, ◌+◌, ◌≤◌, String,
  ◌≡◌, refl, ◌↔◌, inl, inr, Bool, not, List, [], ◌∷◌, ◌++◌, arith, ◌==◌, eq_iff,
}
use n3ur0n.Lobe.{contains}
use n3ur0n.Plan.{as_set}
use n3ur0n.Plan.Order.{unlike_head, dedup}

unfoldable pub occurs : String → List String → ℕ
occurs x [] = 0
occurs x (y ∷ ys) = (if y == x then 1 else 0) + occurs x ys

abbrev pub IsUnique : List String → Type 0
IsUnique xs = (x : String) → occurs x xs ≤ 1

pub occurs-append :
    (x : String) (xs ys : List String) → occurs x (xs ++ ys) ≡ occurs x xs + occurs x ys
unfolding occurs
occurs-append x [] ys = omega arith
occurs-append x (y ∷ xs) ys = omega (arith, occurs-append x xs ys)

pub occurs-filter :
    (p : String → Bool) (x : String) (xs : List String)
    → occurs x (filter p xs) ≡ (if p x then occurs x xs else 0)
unfolding occurs
occurs-filter p x [] = ground arith
occurs-filter p x (y ∷ ys) = ground (arith, eq_iff y x, occurs-filter p x ys)

occurs-insert_sorted :
    (le : String → String → Bool) (x y : String) (ys : List String)
    → occurs x (insert_sorted le y ys) ≡ (if y == x then 1 else 0) + occurs x ys
unfolding occurs insert_sorted
occurs-insert_sorted le x y [] = refl
occurs-insert_sorted le x y (z ∷ zs) = ground (arith, occurs-insert_sorted le x y zs)

pub occurs-sort :
    (le : String → String → Bool) (x : String) (xs : List String)
    → occurs x (sort le xs) ≡ occurs x xs
unfolding occurs sort
occurs-sort le x [] = refl
occurs-sort le x (y ∷ ys) =
    omega (arith, occurs-insert_sorted le x y (sort le ys), occurs-sort le x ys)

occurs-unlike_head :
    (x y : String) (ys : List String)
    → (occurs x (unlike_head y ys) ≤ occurs x (y ∷ ys))
      × (1 ≤ occurs x (y ∷ ys) → 1 ≤ occurs x (unlike_head y ys))
unfolding occurs
occurs-unlike_head x y [] = (omega arith, λ h. h)
occurs-unlike_head x y (z ∷ zs) = ground (arith, eq_iff y z, eq_iff y x, eq_iff z x)

occurs-dedup_bounds :
    (x : String) (xs : List String)
    → (occurs x (dedup xs) ≤ occurs x xs) × (1 ≤ occurs x xs → 1 ≤ occurs x (dedup xs))
unfolding occurs dedup
occurs-dedup_bounds x [] = (omega arith, λ h. h)
occurs-dedup_bounds x (y ∷ ys) =
    ground (arith, occurs-unlike_head x y (dedup ys), occurs-dedup_bounds x ys)

-- Dropping equal neighbours changes nothing of what occurs at most once.
pub occurs-dedup :
    (x : String) (xs : List String) → occurs x xs ≤ 1 → occurs x (dedup xs) ≡ occurs x xs
occurs-dedup x xs h = ground (arith, occurs-dedup_bounds x xs)

pub occurs-as_set : (xs : List String) → IsUnique (as_set xs)
unfolding occurs as_set
occurs-as_set [] x = omega arith
occurs-as_set (y ∷ ys) x =
    ground (arith, eq_iff y x, occurs-filter (λ z. not (y == z)) x (as_set ys), occurs-as_set ys x)

pub contains-occurs : (xs : List String) (x : String) → contains xs x ≡ leb 1 (occurs x xs)
unfolding contains occurs
contains-occurs [] x = ground arith
contains-occurs (y ∷ ys) x = ground (arith, contains-occurs ys x)

pub occurs-In : (x : String) (xs : List String) → 1 ≤ occurs x xs ↔ In x xs
unfolding occurs
occurs-In x [] = (λ h. absurd (omega arith), λ m. elim m [ ])
occurs-In x (y ∷ ys) = (
  λ h. elim (Bool-cases (y == x)) [
    | inl same ↦ inl ((eq_iff y x).0 same)
    | inr other ↦ inr ((occurs-In x ys).0 (ground (arith, other)))
  ],
  λ m. elim m [
    | inl same ↦ ground (arith, eq_iff y x, same)
    | inr later ↦ omega (arith, (occurs-In x ys).1 later)
  ],
)

-- One occurrence less.
remove_one : String → List String → List String
remove_one x [] = []
remove_one x (y ∷ ys) = let rest = remove_one x ys in if y == x then ys else y ∷ rest

remove_one-counts :
    (x z : String) (ys : List String)
    → 1 ≤ occurs x ys
    → (suc (length (remove_one x ys)) ≡ length ys)
      × (occurs z (remove_one x ys) + (if x == z then 1 else 0) ≡ occurs z ys)
unfolding occurs remove_one
remove_one-counts x z [] h = absurd (omega arith)
remove_one-counts x z (y ∷ ys) h =
    ground (arith, eq_iff y x, eq_iff x z, eq_iff y z, remove_one-counts x z ys)

-- A list whose elements all occur elsewhere, as often, is no longer than that list.
pub length-le_of_occurs :
    (xs ys : List String) → ((x : String) → occurs x xs ≤ occurs x ys) → length xs ≤ length ys
unfolding occurs
length-le_of_occurs [] ys h = omega arith
length-le_of_occurs (x ∷ xs) ys h =
    let there : 1 ≤ occurs x ys = ground (arith, h x, eq_iff x x) in
    let rest =
      length-le_of_occurs xs (remove_one x ys)
        (λ z. ground (arith, h z, remove_one-counts x z ys there)) in
    omega (arith, rest, remove_one-counts x x ys there)
