-- ===== src/Rounds/Soundness.antt =====
-- What `resolve_plan` of crates/node/src/planner/plan_exec.rs lets through, and what merging the runs keeps.
use mathlib.Core.Path.{subst}
use n3ur0n.Prelude.{
  if◌then◌else◌, Bool-cases, In, ok, err, ℕ, zero, suc, String, ◌≡◌, refl, sym, ap, ◌∙◌, inl, inr,
  true, false, Option, none, some, [], ◌∷◌, arith, ◌==◌,
}
use n3ur0n.Catalog.{Catalog}
use n3ur0n.Json.{Value}
use n3ur0n.Plan.{Plan}
use n3ur0n.Plan.Board.{entry_of, with_entry, is_entry, entry_of-with_entry, Blackboard}
use n3ur0n.Plan.Checks.{differs}
use n3ur0n.Plan.Validation.{ValidationError, Validated, SchemaCheck, validate_plan}
use n3ur0n.Rounds.{
  compile_retry_limit, PlanOutcome, valid_plan, Recompile, judged, retried, attempts, resolve_plan,
  suffixed, merge_board,
}

judged_sound :
    (check : SchemaCheck) (catalog : Catalog) (plan p : Plan) (v : Validated)
    (next : ValidationError → PlanOutcome)
    → validate_plan check catalog plan ≡ v
    → ((e : ValidationError) → next e ≡ valid_plan p → validate_plan check catalog p ≡ ok tt)
    → judged plan v next ≡ valid_plan p
    → validate_plan check catalog p ≡ ok tt
judged_sound check catalog plan p (ok u) next e sound h =
    let same : plan ≡ p = cc h in subst (λ q. validate_plan check catalog q ≡ ok tt) same e
judged_sound check catalog plan p (err x) next e sound h = sound x h

retried_sound :
    (check : SchemaCheck) (catalog : Catalog) (last : ValidationError) (answer : Option Plan)
    (next : ValidationError → PlanOutcome) (p : Plan)
    → ((e : ValidationError) → next e ≡ valid_plan p → validate_plan check catalog p ≡ ok tt)
    → retried check catalog last answer next ≡ valid_plan p
    → validate_plan check catalog p ≡ ok tt
retried_sound check catalog last none next p sound h = absurd (cc h)
retried_sound check catalog last (some []) next p sound h = absurd (cc h)
retried_sound check catalog last (some (s ∷ plan)) next p sound h =
    judged_sound check catalog (s ∷ plan) p (validate_plan check catalog (s ∷ plan)) next refl sound
      h

attempts_sound :
    (check : SchemaCheck) (catalog : Catalog) (recompile : Recompile) (n : ℕ)
    (last : ValidationError) (p : Plan)
    → attempts check catalog recompile n last ≡ valid_plan p
    → validate_plan check catalog p ≡ ok tt
unfolding attempts
attempts_sound check catalog recompile zero last p h = absurd (cc h)
attempts_sound check catalog recompile (suc n) last p h =
    retried_sound check catalog last (recompile last) (attempts check catalog recompile n) p
      (λ e k. attempts_sound check catalog recompile n e p k) h

-- Whatever the compiler answers, a plan is let through only if `validate_plan` accepts it, and a plan
-- that is accepted at once is let through as it is.
pub resolve_plan_sound :
    (check : SchemaCheck) (catalog : Catalog) (recompile : Recompile) (plan p : Plan)
    → (resolve_plan check catalog recompile plan ≡ valid_plan p
        → validate_plan check catalog p ≡ ok tt)
      × (validate_plan check catalog plan ≡ ok tt
          → resolve_plan check catalog recompile plan ≡ valid_plan plan)
unfolding resolve_plan validate_plan
resolve_plan_sound check catalog recompile [] p =
    (λ h. absurd (cc h), λ h. absurd (ground (arith, h)))
resolve_plan_sound check catalog recompile (s ∷ plan) p = (
  λ h.
      judged_sound check catalog (s ∷ plan) p (validate_plan check catalog (s ∷ plan))
        (attempts check catalog recompile compile_retry_limit) refl
        (λ e k. attempts_sound check catalog recompile compile_retry_limit e p k) h,
  λ h. ap (λ v. judged (s ∷ plan) v (attempts check catalog recompile compile_retry_limit)) h,
)

-- Merging the blackboard of a later run changes no entry of the earlier ones, but one whose id is that
-- of a later step with the suffix of the round.
pub merge_board_keeps :
    (n : String) (board next : Blackboard) (x : String)
    → is_entry (entry_of board x) ≡ true
    → ((id : String) (v : Value) → In (id, v) next → ¬ (suffixed id n ≡ x))
    → entry_of (merge_board n board next) x ≡ entry_of board x
unfolding merge_board
merge_board_keeps n board [] x known apart = refl
merge_board_keeps n board ((id, v) ∷ next) x known apart =
    let key = if is_entry (entry_of board id) then suffixed id n else id in
    let other : (key == x) ≡ false = elim (Bool-cases (is_entry (entry_of board id))) [
      | inl taken ↦ rw taken (differs (suffixed id n) x (apart id v (inl refl)))
      | inr fresh ↦
          rw fresh
            (differs id x (λ e. cc (sym fresh ∙ ap (λ y. is_entry (entry_of board y)) e ∙ known)))
    ] in
    let same : entry_of (with_entry key v board) x ≡ entry_of board x =
      entry_of-with_entry key x v board ∙ ap (λ b. if b then some v else entry_of board x) other in
    merge_board_keeps n (with_entry key v board) next x (ap is_entry same ∙ known)
      (λ j w m. apart j w (inr m))
    ∙ same
