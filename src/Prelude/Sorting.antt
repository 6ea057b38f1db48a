-- ===== src/Prelude/Sorting.antt =====
-- Insertion sort, and the order of texts.
use Prim.Native.Nat.{ℕ, suc}
use mathlib.Core.Path.{◌≡◌, refl}
use mathlib.Core.Logic.{◌⊎◌, inl, inr}
use mathlib.Core.Bool.{Bool, true, false, ◌&&◌, ◌||◌}
use mathlib.Core.List.{List, [], ◌∷◌}
use native.Mathlib.Omega.{arith}
use n3ur0n.Prelude.Tests.{ltb, eqb, if◌then◌else◌}
use n3ur0n.Prelude.Lists.{In, length}

-- Texts compare as their code points, which is the order of their bytes.
abbrev pub texts_le : List ℕ → List ℕ → Bool
texts_le [] t = true
texts_le (a ∷ s) [] = false
texts_le (a ∷ s) (b ∷ t) = ltb a b || (eqb a b && texts_le s t)

module _ {A : Type 0} (le : A → A → Bool) where
  unfoldable pub insert_sorted : A → List A → List A
  insert_sorted x [] = x ∷ []
  insert_sorted x (y ∷ ys) = if le x y then x ∷ y ∷ ys else y ∷ insert_sorted x ys

  unfoldable pub sort : List A → List A
  unfolding insert_sorted
  sort [] = []
  sort (x ∷ xs) = insert_sorted x (sort xs)

  length-insert_sorted : (x : A) (xs : List A) → length (insert_sorted x xs) ≡ suc (length xs)
  unfolding insert_sorted
  length-insert_sorted x [] = refl
  length-insert_sorted x (y ∷ ys) = ground (arith, length-insert_sorted x ys)

  pub length-sort : (xs : List A) → length (sort xs) ≡ length xs
  unfolding sort
  length-sort [] = refl
  length-sort (x ∷ xs) = omega (arith, length-insert_sorted x (sort xs), length-sort xs)

  In-insert_sorted : (x a : A) (xs : List A) → In a (insert_sorted x xs) → (x ≡ a) ⊎ In a xs
  unfolding insert_sorted
  In-insert_sorted x a [] m = m
  In-insert_sorted x a (y ∷ ys) m = go (le x y) m (In-insert_sorted x a ys)
    where
      go :
          (b : Bool)
          → In a (if b then x ∷ y ∷ ys else y ∷ insert_sorted x ys)
          → (In a (insert_sorted x ys) → (x ≡ a) ⊎ In a ys)
          → (x ≡ a) ⊎ In a (y ∷ ys)
      go true k ih = k
      go false (inl e) ih = inr (inl e)
      go false (inr k) ih = elim (ih k) [ inl e ↦ inl e | inr r ↦ inr (inr r) ]

  -- Sorting invents nothing.
  pub In-sort : (xs : List A) (a : A) → In a (sort xs) → In a xs
  unfolding sort
  In-sort [] a m = m
  In-sort (x ∷ xs) a m = elim (In-insert_sorted x a (sort xs) m) [
    | inl e ↦ inl e
    | inr k ↦ inr (In-sort xs a k)
  ]
