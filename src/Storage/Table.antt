-- ===== src/Storage/Table.antt =====
-- Rows with a text for their primary key: what the SQL of crates/storage/src does to such a table.
use mathlib.Core.Option
use mathlib.Core.Path.{subst}
use n3ur0n.Prelude.{
  if◌then◌else◌, Bool-cases, Option-cases, filter, All, All-append, String, ◌≡◌, refl, sym, inl,
  inr, Bool, true, false, Option, none, some, List, [], ◌∷◌, ◌++◌, map, arith, ◌==◌, eq_iff,
}

module _ {Row : Type 0} (key : Row → String) where
  -- `SELECT … WHERE key = k`
  unfoldable pub find : List Row → String → Option Row
  find [] k = none
  find (r ∷ rs) k = if key r == k then some r else find rs k

  -- `UPDATE … WHERE key = k`
  unfoldable pub update : (Row → Row) → List Row → String → List Row
  update f [] k = []
  update f (r ∷ rs) k = (if key r == k then f r else r) ∷ update f rs k

  -- `DELETE … WHERE key = k`
  pub remove : List Row → String → List Row
  remove [] k = []
  remove (r ∷ rs) k = let rest = remove rs k in if key r == k then rest else r ∷ rest

  -- `INSERT …` of a row whose key is new.
  unfoldable pub append : List Row → Row → List Row
  append rs r = rs ++ r ∷ []

  abbrev has : List Row → String → Bool
  has rs k = elim (find rs k) [ none ↦ false | some _ ↦ true ]

  -- `INSERT … ON CONFLICT(key) DO UPDATE`: `merge new old` is the row after the conflict.
  unfoldable pub upsert : (Row → Row → Row) → List Row → Row → List Row
  upsert merge rs r = if has rs (key r) then update (merge r) rs (key r) else append rs r

  -- No two rows have the same key.
  abbrev pub HasKeys : List Row → Type 0
  HasKeys [] = Unit
  HasKeys (r ∷ rs) = (find rs (key r) ≡ none) × HasKeys rs

  pub find-append :
      (rs : List Row) (r : Row) (k : String)
      → find (append rs r) k
        ≡ elim (find rs k) [ none ↦ if key r == k then some r else none | some x ↦ some x ]
  unfolding find append
  find-append [] r k = refl
  find-append (x ∷ rs) r k = ground (arith, find-append rs r k)

  pub find-update :
      (f : Row → Row) (rs : List Row) (k j : String)
      → ((r : Row) → key (f r) ≡ key r)
      → find (update f rs k) j ≡ (if k == j then Option.map f (find rs j) else find rs j)
  unfolding find update
  find-update f [] k j keeps = ground arith
  find-update f (r ∷ rs) k j keeps =
      ground
        (arith, eq_iff k j, eq_iff (key r) k, eq_iff (key r) j, keeps r, find-update f rs k j keeps)

  pub find-remove :
      (rs : List Row) (k j : String) → find (remove rs k) j ≡ (if k == j then none else find rs j)
  unfolding find remove
  find-remove [] k j = ground arith
  find-remove (r ∷ rs) k j =
      ground (arith, eq_iff k j, eq_iff (key r) k, eq_iff (key r) j, find-remove rs k j)

  pub key-find : (rs : List Row) (k : String) (r : Row) → find rs k ≡ some r → key r ≡ k
  unfolding find
  key-find [] k r h = absurd (cc h)
  key-find (x ∷ rs) k r h = ground (arith, eq_iff (key x) k, key-find rs k r)

  pub find-upsert :
      (merge : Row → Row → Row) (rs : List Row) (r : Row) (j : String)
      → ((new old : Row) → key (merge new old) ≡ key old)
      → find (upsert merge rs r) j ≡ (
          if key r == j
          then some (elim (find rs j) [ none ↦ r | some old ↦ merge r old ])
          else find rs j)
  unfolding upsert
  find-upsert merge rs r j keeps = elim (Option-cases (find rs (key r))) [
    | inl new ↦ ground (arith, new, find-append rs r j, eq_iff (key r) j)
    | inr (old, found) ↦
        ground (arith, found, find-update (merge r) rs (key r) j (keeps r), eq_iff (key r) j)
  ]

  pub HasKeys-append :
      (rs : List Row) (r : Row) → HasKeys rs → find rs (key r) ≡ none → HasKeys (append rs r)
  unfolding find append
  HasKeys-append [] r h n = (refl, tt)
  HasKeys-append (x ∷ rs) r h n = (
    ground (arith, find-append rs r (key x), eq_iff (key x) (key r), eq_iff (key r) (key x)),
    HasKeys-append rs r h.1 (ground arith),
  )

  pub HasKeys-update :
      (f : Row → Row) (rs : List Row) (k : String)
      → ((r : Row) → key (f r) ≡ key r)
      → HasKeys rs
      → HasKeys (update f rs k)
  unfolding update
  HasKeys-update f [] k keeps h = tt
  HasKeys-update f (x ∷ rs) k keeps h = (
    ground (arith, keeps x, find-update f rs k (key x) keeps, h.0),
    HasKeys-update f rs k keeps h.1,
  )

  pub HasKeys-remove : (rs : List Row) (k : String) → HasKeys rs → HasKeys (remove rs k)
  unfolding remove
  HasKeys-remove [] k h = tt
  HasKeys-remove (x ∷ rs) k h = elim (Bool-cases (key x == k)) [
    | inl gone ↦ rw gone (HasKeys-remove rs k h.1)
    | inr stays ↦ rw stays (ground (arith, find-remove rs k (key x)), HasKeys-remove rs k h.1)
  ]

  upsert-new :
      (merge : Row → Row → Row) (rs : List Row) (r : Row)
      → find rs (key r) ≡ none
      → upsert merge rs r ≡ append rs r
  unfolding upsert
  upsert-new merge rs r e = ground arith

  upsert-old :
      (merge : Row → Row → Row) (rs : List Row) (r old : Row)
      → find rs (key r) ≡ some old
      → upsert merge rs r ≡ update (merge r) rs (key r)
  unfolding upsert
  upsert-old merge rs r old e = ground arith

  pub HasKeys-upsert :
      (merge : Row → Row → Row) (rs : List Row) (r : Row)
      → ((new old : Row) → key (merge new old) ≡ key old)
      → HasKeys rs
      → HasKeys (upsert merge rs r)
  HasKeys-upsert merge rs r keeps h = elim (Option-cases (find rs (key r))) [
    | inl new ↦ subst HasKeys (sym (upsert-new merge rs r new)) (HasKeys-append rs r h new)
    | inr (old, found) ↦
        subst HasKeys (sym (upsert-old merge rs r old found))
          (HasKeys-update (merge r) rs (key r) (keeps r) h)
  ]

module _ {Row : Type 0} (key : Row → String) (P : Row → Type 0) where
  -- A property of every row is kept where the new rows have it.
  pub All-update :
      (f : Row → Row) (rs : List Row) (k : String)
      → ((r : Row) → P r → P (f r))
      → All P rs
      → All P (update key f rs k)
  unfolding update
  All-update f [] k keeps h = tt
  All-update f (r ∷ rs) k keeps h = (step (key r == k), All-update f rs k keeps h.1)
    where
      step : (b : Bool) → P (if b then f r else r)
      step true = keeps r h.0
      step false = h.0

  pub All-append_row : (rs : List Row) (r : Row) → All P rs → P r → All P (append key rs r)
  unfolding append
  All-append_row rs r h p = All-append P rs (r ∷ []) h (p, tt)

  pub All-remove : (rs : List Row) (k : String) → All P rs → All P (remove key rs k)
  unfolding remove
  All-remove [] k h = tt
  All-remove (r ∷ rs) k h = step (key r == k) (All-remove rs k h.1)
    where
      step :
          (b : Bool)
          → All P (remove key rs k)
          → All P (if b then remove key rs k else r ∷ remove key rs k)
      step true rest = rest
      step false rest = (h.0, rest)

pub update-absent :
    {Row : Type 0} (key : Row → String) (f : Row → Row) (rs : List Row) (k : String)
    → find key rs k ≡ none
    → update key f rs k ≡ rs
unfolding find update
update-absent key f [] k h = refl
update-absent key f (r ∷ rs) k h = ground (arith, update-absent key f rs k)

pub find-map :
    {Row : Type 0} (key : Row → String) (f : Row → Row) (rs : List Row) (k : String)
    → ((r : Row) → key (f r) ≡ key r)
    → find key (map f rs) k ≡ Option.map f (find key rs k)
unfolding find
find-map key f [] k keeps = refl
find-map key f (r ∷ rs) k keeps = ground (arith, keeps r, find-map key f rs k keeps)

pub find-filter :
    {Row : Type 0} (key : Row → String) (p : String → Bool) (rs : List Row) (k : String)
    → find key (filter (λ r. p (key r)) rs) k ≡ (if p k then find key rs k else none)
unfolding find
find-filter key p [] k = ground arith
find-filter key p (r ∷ rs) k = ground (arith, eq_iff (key r) k, find-filter key p rs k)
