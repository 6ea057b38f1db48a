-- ===== src/Plan/Checks.antt =====
-- The checks of `validate_plan` in crates/node/src/planner/plan.rs one after the other: what it means that
-- each of them passes.
use mathlib.Core.Path.{subst}
use n3ur0n.Prelude.{
  Bool-cases, In, ok, err, ◌>>◌, refuse_if, String, ◌≡◌, refl, ◌↔◌, inl, inr, Bool, true, false,
  not, List, [], ◌∷◌, ◌++◌, arith, ◌==◌, eq_iff,
}
use n3ur0n.Lobe.{contains}
use n3ur0n.Plan.{Plan, plan_ids}
use n3ur0n.Plan.Counting.{occurs, IsUnique, occurs-append, contains-occurs, occurs-In}
use n3ur0n.Plan.Frontier.{occurs_one}
use n3ur0n.Plan.Validation.{ValidationError, duplicate_step_id, Validated, each, check_unique}

pub then_ok : (a b : Validated) → (a >> b ≡ ok tt) ↔ ((a ≡ ok tt) × (b ≡ ok tt))
then_ok (ok u) b = (λ h. (refl, h), λ h. h.1)
then_ok (err e) b = (λ h. absurd (ground (arith, h)), λ h. absurd (ground (arith, h.0)))

pub refuse_if_ok : (b : Bool) (e : ValidationError) → (refuse_if b e ≡ ok tt) ↔ (b ≡ false)
refuse_if_ok true e = (λ h. absurd (ground (arith, h)), λ h. absurd (cc h))
refuse_if_ok false e = (λ h. refl, λ h. refl)

pub each_ok :
    {A : Type 0} (f : A → Validated) (xs : List A)
    → (each f xs ≡ ok tt) ↔ ((x : A) → In x xs → f x ≡ ok tt)
unfolding each
each_ok f [] = (λ h x m. elim m [ ], λ h. refl)
each_ok f (x ∷ xs) =
    let (split, join_up) = then_ok (f x) (each f xs) in
    let later = each_ok f xs in
    (
      λ h y m. elim m [
        | inl here ↦ subst (λ z. f z ≡ ok tt) here (split h).0
        | inr there ↦ later.0 (split h).1 y there
      ],
      λ h. join_up (h x (inl refl), later.1 (λ y m. h y (inr m))),
    )

pub check_unique_ok :
    (past : List String) (plan : Plan)
    → IsUnique past
    → (check_unique past plan ≡ ok tt) ↔ IsUnique (past ++ plan_ids plan)
unfolding check_unique occurs
check_unique_ok past [] u = (λ h x. ground (arith, occurs-append x past [], u x), λ h. refl)
check_unique_ok past (s ∷ plan) u =
    let (split, join_up) =
      then_ok (refuse_if (contains past s.id) (duplicate_step_id s.id))
        (check_unique (past ++ s.id ∷ []) plan) in
    let fresh = refuse_if_ok (contains past s.id) (duplicate_step_id s.id) in
    let longer : contains past s.id ≡ false → IsUnique (past ++ s.id ∷ []) = λ new x. ground (
      arith,
      new,
      contains-occurs past s.id,
      eq_iff s.id x,
      u x,
      occurs-append x past (s.id ∷ []),
      occurs_one x s.id,
    ) in
    let moved : (x : String)
        → occurs x ((past ++ s.id ∷ []) ++ plan_ids plan)
          ≡ occurs x (past ++ s.id ∷ plan_ids plan) =
      λ x. omega (
        arith,
        occurs-append x (past ++ s.id ∷ []) (plan_ids plan),
        occurs-append x past (s.id ∷ []),
        occurs-append x past (s.id ∷ plan_ids plan),
        occurs_one x s.id,
      ) in
    (
      λ h x.
          let (ok_head, ok_rest) = split h in
          let new = fresh.0 ok_head in
          omega
            (arith, moved x, (check_unique_ok (past ++ s.id ∷ []) plan (longer new)).0 ok_rest x),
      λ h.
          let new : contains past s.id ≡ false = ground (
            arith,
            contains-occurs past s.id,
            h s.id,
            occurs-append s.id past (s.id ∷ plan_ids plan),
            eq_iff s.id s.id,
          ) in
          join_up (
            fresh.1 new,
            (check_unique_ok (past ++ s.id ∷ []) plan (longer new)).1
                (λ x. omega (arith, moved x, h x)),
          ),
    )

pub no_text : IsUnique []
unfolding occurs
no_text x = omega arith

pub known_iff : (xs : List String) (x : String) → (not (contains xs x) ≡ false) ↔ In x xs
known_iff xs x =
    let counted = contains-occurs xs x in
    (
      λ h. (occurs-In x xs).0 (ground (arith, h, counted)),
      λ m. ground (arith, (occurs-In x xs).1 m, counted),
    )

pub differs : (x y : String) → ¬ (x ≡ y) → (x == y) ≡ false
differs x y h = elim (Bool-cases (x == y)) [
  | inl same ↦ absurd (h ((eq_iff x y).0 same))
  | inr other ↦ other
]

abbrev pub IsPassed : Validated → Type 0
IsPassed v = v ≡ ok tt

pub stages_ok :
    (a b c d e f : Validated)
    → IsPassed (a >> b >> c >> d >> e >> f)
      ↔ (IsPassed a × IsPassed b × IsPassed c × IsPassed d × IsPassed e × IsPassed f)
stages_ok a b c d e f =
    let s1 = then_ok a b in
    let s2 = then_ok (a >> b) c in
    let s3 = then_ok (a >> b >> c) d in
    let s4 = then_ok (a >> b >> c >> d) e in
    let s5 = then_ok (a >> b >> c >> d >> e) f in
    (
      λ h.
          let (h5, hf) = s5.0 h in
          let (h4, he) = s4.0 h5 in
          let (h3, hd) = s3.0 h4 in
          let (h2, hc) = s2.0 h3 in let (ha, hb) = s1.0 h2 in (ha, hb, hc, hd, he, hf),
      λ h. s5.1 (s4.1 (s3.1 (s2.1 (s1.1 (h.0, h.1), h.2), h.3), h.4), h.5),
    )
