-- ===== src/Lobe/Membership.antt =====
-- The declared set and the subset rule of crates/core/src/lobe.rs.
use mathlib.Core.Path.{subst}
use n3ur0n.Prelude.{
  ltb, if◌then◌else◌, Bool-cases, length, All, In, In-append_left, In-append_right, In-append_cases,
  In-filter_sound, In-filter_complete, codes, ok, err, ◌≤◌, String, ◌≡◌, refl, sym, ◌↔◌, inl, inr,
  Bool, true, false, not, List, [], ◌∷◌, ◌++◌, arith, ◌==◌, eq_iff,
}
use n3ur0n.Errors.{too_many_lobes, invalid_identifier}
use n3ur0n.Lobe.{
  validate_lobe_id, contains, validate_instance_lobes, unclaimable_lobes, check_declared,
}
use n3ur0n.Lobe.Grammar.{IsLobeId, validate_lobe_id-ok_iff}

-- No text stands twice in the list.
abbrev pub IsDistinct : List String → Type 0
IsDistinct [] = Unit
IsDistinct (x ∷ xs) = (¬ In x xs) × IsDistinct xs

contains_sound : (xs : List String) (x : String) → contains xs x ≡ true → In x xs
unfolding contains
contains_sound [] x h = absurd (cc h)
contains_sound (y ∷ ys) x h = elim (Bool-cases (y == x)) [
  | inl same ↦ inl ((eq_iff y x).0 same)
  | inr other ↦ inr (contains_sound ys x (rw other at h))
]

contains_complete : (xs : List String) (x : String) → In x xs → contains xs x ≡ true
unfolding contains
contains_complete [] x m = elim m [ ]
contains_complete (y ∷ ys) x (inl e) = rw ((eq_iff y x).1 e)
contains_complete (y ∷ ys) x (inr m) = ground (arith, contains_complete ys x m)

pub contains_iff : (xs : List String) (x : String) → (contains xs x ≡ true) ↔ In x xs
contains_iff xs x = (contains_sound xs x, contains_complete xs x)

-- Each of the ids is well formed, new to `seen`, and not repeated.
abbrev AreNew : List String → List String → Type 0
AreNew seen [] = Unit
AreNew seen (id ∷ ids) = IsLobeId (codes id) × (¬ In id seen) × AreNew (seen ++ id ∷ []) ids

check_declared_sound : (seen ids : List String) → check_declared seen ids ≡ ok tt → AreNew seen ids
unfolding check_declared
check_declared_sound seen [] h = tt
check_declared_sound seen (id ∷ ids) h =
    let valid : validate_lobe_id id ≡ ok tt = ground arith in
    let fresh : contains seen id ≡ false = ground arith in
    (
      (validate_lobe_id-ok_iff id).0 valid,
      λ m. cc ((contains_iff seen id).1 m, fresh),
      check_declared_sound (seen ++ id ∷ []) ids (ground arith),
    )

check_declared_complete :
    (seen ids : List String) → AreNew seen ids → check_declared seen ids ≡ ok tt
unfolding check_declared
check_declared_complete seen [] h = refl
check_declared_complete seen (id ∷ ids) h =
    let fresh : contains seen id ≡ false = elim (Bool-cases (contains seen id)) [
      | inl old ↦ absurd (h.1 ((contains_iff seen id).0 old))
      | inr new ↦ new
    ] in
    ground (
      arith,
      (validate_lobe_id-ok_iff id).1 h.0,
      fresh,
      check_declared_complete (seen ++ id ∷ []) ids h.2,
    )

AreNew-absent : (seen ids : List String) (x : String) → AreNew seen ids → In x seen → ¬ In x ids
AreNew-absent seen [] x h m k = elim k [ ]
AreNew-absent seen (id ∷ ids) x h m (inl e) = h.1 (subst (λ y. In y seen) (sym e) m)
AreNew-absent seen (id ∷ ids) x h m (inr k) =
    AreNew-absent (seen ++ id ∷ []) ids x h.2 (In-append_left x seen (id ∷ []) m) k

AreNew-IsDistinct : (seen ids : List String) → AreNew seen ids → IsDistinct ids
AreNew-IsDistinct seen [] h = tt
AreNew-IsDistinct seen (id ∷ ids) h = (
  AreNew-absent (seen ++ id ∷ []) ids id h.2 (In-append_right id seen (id ∷ []) (inl refl)),
  AreNew-IsDistinct (seen ++ id ∷ []) ids h.2,
)

AreNew-valid : (seen ids : List String) → AreNew seen ids → All (λ id. IsLobeId (codes id)) ids
AreNew-valid seen [] h = tt
AreNew-valid seen (id ∷ ids) h = (h.0, AreNew-valid (seen ++ id ∷ []) ids h.2)

AreNew-intro :
    (seen ids : List String)
    → All (λ id. IsLobeId (codes id)) ids
    → IsDistinct ids
    → ((x : String) → In x ids → ¬ In x seen)
    → AreNew seen ids
AreNew-intro seen [] v d n = tt
AreNew-intro seen (id ∷ ids) v d n = (
  v.0,
  n id (inl refl),
  AreNew-intro (seen ++ id ∷ []) ids v.1 d.1 λ x m k. elim (In-append_cases x seen (id ∷ []) k) [
    | inl old ↦ n x (inr m) old
    | inr (inl e) ↦ d.0 (subst (λ y. In y ids) (sym e) m)
    | inr (inr b) ↦ b
  ],
)

-- A well-formed declaration: at most five lobes, each in the grammar, none twice.
pub record IsDeclaration (ids : List String) : Type 0 where
  pub bounded : length ids ≤ 5
  pub grammatical : All (λ id. IsLobeId (codes id)) ids
  pub distinct : IsDistinct ids

-- `validate_instance_lobes` accepts exactly the declarations of at most five lobes that are all
-- in the grammar and pairwise different.
pub validate_instance_lobes-ok_iff :
    (ids : List String) → (validate_instance_lobes ids ≡ ok tt) ↔ IsDeclaration ids
unfolding validate_instance_lobes
validate_instance_lobes-ok_iff ids = (sound, complete)
  where
    sound :
        (if ltb 5 (length ids)
            then err (invalid_identifier too_many_lobes)
            else check_declared [] ids)
          ≡ ok tt
        → IsDeclaration ids
    sound h =
        let new : AreNew [] ids = check_declared_sound [] ids (ground arith) in
        record {
          bounded = ground arith;
          grammatical = AreNew-valid [] ids new;
          distinct = AreNew-IsDistinct [] ids new;
        }

    complete :
        IsDeclaration ids
        → (if ltb 5 (length ids)
            then err (invalid_identifier too_many_lobes)
            else check_declared [] ids)
          ≡ ok tt
    complete d = ground (
      arith,
      d.bounded,
      check_declared_complete [] ids (AreNew-intro [] ids d.grammatical d.distinct (λ x m k. k)),
    )

-- `unclaimable_lobes` names exactly the lobes that the capability claims and its instance does
-- not declare.
pub unclaimable_lobes_iff :
    (cap_lobes instance_lobes : List String) (l : String)
    → In l (unclaimable_lobes cap_lobes instance_lobes) ↔ (In l cap_lobes × (¬ In l instance_lobes))
unfolding unclaimable_lobes
unclaimable_lobes_iff cap_lobes instance_lobes l = (
  λ m.
      let (k, t) = In-filter_sound undeclared cap_lobes l m in
      (k, λ d. cc ((contains_iff instance_lobes l).1 d, t)),
  λ h. In-filter_complete undeclared cap_lobes l h.0 (absent h.1),
)
  where
    undeclared : String → Bool
    undeclared x = not (contains instance_lobes x)

    absent : (¬ In l instance_lobes) → not (contains instance_lobes l) ≡ true
    absent n = elim (Bool-cases (contains instance_lobes l)) [
      | inl old ↦ absurd (n ((contains_iff instance_lobes l).0 old))
      | inr new ↦ rw new
    ]
