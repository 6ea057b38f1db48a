-- ===== src/Lobe/Grammar.antt =====
-- Which lobe ids `validate_lobe_id` of crates/core/src/lobe.rs accepts.
use mathlib.Core.Path.{subst}
use n3ur0n.Prelude.{
  ltb, if◌then◌else◌, Bool-cases, length, get_last?, All, length-append, All-append, All-left,
  get_last?-append, split_last, codes, ok, err, ◌>>◌, refuse_if, ℕ, ◌+◌, ◌≤◌, String, ◌≡◌, refl, ap,
  ◌↔◌, ◌⊎◌, inl, inr, true, not, ◌||◌, some, List, [], ◌∷◌, ◌++◌, arith,
}
use n3ur0n.Errors.{lobe_too_short, lobe_too_long, lobe_edge, invalid_identifier}
use n3ur0n.Lobe.{is_edge_char, is_lobe_char, validate_lobe_id, check_chars, check_edges}

abbrev pub IsEdge : ℕ → Type 0
IsEdge c = ((b'a' ≤ c) × (c ≤ b'z')) ⊎ ((b'0' ≤ c) × (c ≤ b'9'))

abbrev pub IsInside : ℕ → Type 0
IsInside c = IsEdge c ⊎ (c ≡ b'-') ⊎ (c ≡ b'.')

-- `[a-z0-9][a-z0-9.-]{0,62}[a-z0-9]`
pub record IsLobeId (cs : List ℕ) : Type 0 where
  pub first : ℕ
  pub middle : List ℕ
  pub last : ℕ
  pub shape : cs ≡ first ∷ (middle ++ last ∷ [])
  pub first_edge : IsEdge first
  pub inside : All IsInside middle
  pub last_edge : IsEdge last
  pub short : length middle ≤ 62

IsEdge-of_test : (c : ℕ) → is_edge_char c ≡ true → IsEdge c
IsEdge-of_test c h = ground arith

test-of_IsEdge : (c : ℕ) → IsEdge c → is_edge_char c ≡ true
test-of_IsEdge c (inl h) = ground arith
test-of_IsEdge c (inr h) = ground arith

IsInside-of_test : (c : ℕ) → is_lobe_char c ≡ true → IsInside c
IsInside-of_test c h = ground arith

test-of_IsInside : (c : ℕ) → IsInside c → is_lobe_char c ≡ true
test-of_IsInside c (inl (inl h)) = ground arith
test-of_IsInside c (inl (inr h)) = ground arith
test-of_IsInside c (inr (inl h)) = ground arith
test-of_IsInside c (inr (inr h)) = ground arith

check_chars_sound : (cs : List ℕ) → check_chars cs ≡ ok tt → All IsInside cs
unfolding check_chars
check_chars_sound [] h = tt
check_chars_sound (c ∷ cs) h = elim (Bool-cases (is_lobe_char c)) [
  | inl good ↦ (IsInside-of_test c good, check_chars_sound cs (rw good at h))
  | inr bad ↦ absurd (cc (rw bad at h))
]

check_chars_complete : (cs : List ℕ) → All IsInside cs → check_chars cs ≡ ok tt
unfolding check_chars
check_chars_complete [] h = refl
check_chars_complete (c ∷ cs) h = rw (test-of_IsInside c h.0) (check_chars_complete cs h.1)

check_edges_sound :
    (x : ℕ) (ys : List ℕ) (y : ℕ) → check_edges (x ∷ (ys ++ y ∷ [])) ≡ ok tt → IsEdge x × IsEdge y
unfolding check_edges
check_edges_sound x ys y h =
    let e : get_last? (x ∷ (ys ++ y ∷ [])) ≡ some y = get_last?-append (x ∷ ys) y in
    edges (rw e at h)
  where
    edges :
        refuse_if (not (is_edge_char x) || not (is_edge_char y)) (invalid_identifier lobe_edge)
          ≡ ok tt
        → IsEdge x × IsEdge y
    edges k = (IsEdge-of_test x (ground arith), IsEdge-of_test y (ground arith))

check_edges_complete :
    (x : ℕ) (ys : List ℕ) (y : ℕ) → IsEdge x → IsEdge y → check_edges (x ∷ (ys ++ y ∷ [])) ≡ ok tt
unfolding check_edges
check_edges_complete x ys y hx hy =
    rw (get_last?-append (x ∷ ys) y, test-of_IsEdge x hx, test-of_IsEdge y hy)

-- The checks after the tests on the length.
checked_shape :
    (x : ℕ) (xs : List ℕ)
    → 1 ≤ length xs
    → length xs ≤ 63
    → (check_chars (x ∷ xs) >> check_edges (x ∷ xs)) ≡ ok tt
    → IsLobeId (x ∷ xs)
checked_shape x [] lo hi h = absurd (omega arith)
checked_shape x (z ∷ zs) lo hi h =
    let (ys, y, e) = split_last z zs in
    let chars : check_chars (x ∷ z ∷ zs) ≡ ok tt = ground arith in
    let edges : check_edges (x ∷ z ∷ zs) ≡ ok tt = ground arith in
    let shape : x ∷ z ∷ zs ≡ x ∷ (ys ++ y ∷ []) = ap (λ l. x ∷ l) e in
    let all : All IsInside (x ∷ (ys ++ y ∷ [])) =
      subst (λ l. All IsInside l) shape (check_chars_sound (x ∷ z ∷ zs) chars) in
    let ends : IsEdge x × IsEdge y = check_edges_sound x ys y (rw shape at edges) in
    record {
      first = x;
      middle = ys;
      last = y;
      shape = shape;
      first_edge = ends.0;
      inside = All-left IsInside ys (y ∷ []) all.1;
      last_edge = ends.1;
      short = omega (arith, length-append ys (y ∷ []), ap length e);
    }

IsLobeId-sound : (id : String) → validate_lobe_id id ≡ ok tt → IsLobeId (codes id)
unfolding validate_lobe_id
IsLobeId-sound id h = go (codes id) h
  where
    go :
        (cs : List ℕ)
        → (if ltb (length cs) 2
            then err (invalid_identifier lobe_too_short)
            else if ltb 64 (length cs)
            then err (invalid_identifier lobe_too_long)
            else (check_chars cs >> check_edges cs))
          ≡ ok tt
        → IsLobeId cs
    go [] k = absurd (cc k)
    go (x ∷ xs) k = checked_shape x xs (ground arith) (ground arith) (ground arith)

IsLobeId-complete : (id : String) → IsLobeId (codes id) → validate_lobe_id id ≡ ok tt
unfolding validate_lobe_id
IsLobeId-complete id v =
    let n : length (codes id) ≡ length v.middle + 2 =
      omega (arith, ap length v.shape, length-append v.middle (v.last ∷ [])) in
    let chars : check_chars (codes id) ≡ ok tt = check_chars_complete (codes id) (
      rw v.shape (
        inl v.first_edge,
        All-append IsInside v.middle (v.last ∷ []) v.inside (inl v.last_edge, tt),
      )) in
    let edges : check_edges (codes id) ≡ ok tt =
      rw v.shape (check_edges_complete v.first v.middle v.last v.first_edge v.last_edge) in
    ground (arith, v.short)

-- `validate_lobe_id` accepts exactly the ids of the grammar `[a-z0-9][a-z0-9.-]{0,62}[a-z0-9]`.
pub validate_lobe_id-ok_iff : (id : String) → (validate_lobe_id id ≡ ok tt) ↔ IsLobeId (codes id)
validate_lobe_id-ok_iff id = (IsLobeId-sound id, IsLobeId-complete id)
