-- ===== src/Rounds/Continuing.antt =====
-- When the loop over the rounds of crates/node/src/planner/plan_exec.rs runs another plan.
use n3ur0n.Prelude.{
  ltb, leb, eqb, Bool-cases, Option-cases, length, all, any, In, ℕ, ◌+◌, ◌≤◌, ◌<◌, ◌≡◌, refl, sym,
  ap, ◌∙◌, ◌↔◌, ◌⊎◌, inl, inr, Bool, true, false, ◌||◌, Option, none, some, List, [], ◌∷◌, arith,
}
use n3ur0n.Catalog.{Catalog}
use n3ur0n.Executor.{TraceEntry, PlanRun}
use n3ur0n.Plan.{PlanStep, Plan}
use n3ur0n.Plan.Depth.{plan_depth}
use n3ur0n.Plan.Resolution.{Render}
use n3ur0n.Rounds.{
  max_plan_rounds, continuation_depth_threshold, max_total_steps, dispatch_budget_secs, PlanOutcome,
  empty_plan, valid_plan, invalid_plan, resolve_plan, executed_invocations, is_repeat, adds_nothing,
  ContinuationReason, step_failed, deep_plan, has_failed, continuation_reason, merge_runs, Dispatch,
  RoundInput, Planner, compiled_once, Step, stop, go_on, run_next, compile_next, continue_with,
  next_round, after_step, rounds,
}

-- Fewer than twelve steps have run and less than five minutes have passed, and a step failed or the plan
-- was three steps deep.
continuation_reason_iff :
    (trace : List TraceEntry) (depth elapsed : ℕ)
    → ((r : ContinuationReason) × (continuation_reason trace depth elapsed ≡ some r)) ↔ (
        (length trace < max_total_steps)
        × (elapsed < dispatch_budget_secs)
        × ((any has_failed trace ≡ true) ⊎ (continuation_depth_threshold ≤ depth)))
unfolding continuation_reason
continuation_reason_iff trace depth elapsed =
    elim (Bool-cases (leb max_total_steps (length trace) || leb dispatch_budget_secs elapsed)) [
      | inl over ↦
          (λ h. absurd (ground (arith, over, h.1)), λ h. absurd (ground (arith, over, h.0, h.1)))
      | inr room ↦ elim (Bool-cases (any has_failed trace)) [
        | inl failed ↦ (
          λ h. (ground (arith, room), ground (arith, room), inl failed),
          λ h. (step_failed, ground (arith, room, failed)),
        )
        | inr fine ↦ elim (Bool-cases (leb continuation_depth_threshold depth)) [
          | inl deep ↦ (
            λ h. (ground (arith, room), ground (arith, room), inr (ground (arith, deep))),
            λ h. (deep_plan, ground (arith, room, fine, deep)),
          )
          | inr shallow ↦ (
            λ h. absurd (ground (arith, room, fine, shallow, h.1)),
            λ h. absurd (ground (arith, fine, shallow, h.2)),
          )
        ]
      ]
    ]

all-false :
    {A : Type 0} (p : A → Bool) (xs : List A)
    → (all p xs ≡ false) ↔ ((x : A) × In x xs × (p x ≡ false))
all-false p [] = (λ h. absurd (cc h), λ h. absurd (h.1))
all-false p (x ∷ xs) = elim (Bool-cases (p x)) [
  | inl holds ↦ (
    λ h. let (y, m, fails) = (all-false p xs).0 (ground (arith, holds)) in (y, inr m, fails),
    λ h. elim h.1 [
      | inl e ↦ absurd (ground (arith, holds, h.2, ap p e))
      | inr m ↦ ground (arith, holds, (all-false p xs).1 (h.0, m, h.2))
    ],
  )
  | inr fails ↦ (λ h. (x, inl refl, fails), λ h. ground (arith, fails))
]

-- A plan brings something new: nothing has run yet, or a step of it does not repeat a call.
adds_nothing-false :
    (render : Render) (next : Plan) (trace : List TraceEntry) (catalog : Catalog)
    → (adds_nothing render next trace catalog ≡ false) ↔ (
        (length trace ≡ 0)
        ⊎ ((s : PlanStep) × In s next
            × (is_repeat render (executed_invocations render trace) catalog s ≡ false)))
unfolding adds_nothing
adds_nothing-false render next trace catalog =
    let some_new = all-false (is_repeat render (executed_invocations render trace) catalog) next in
    elim (Bool-cases (eqb (length trace) 0)) [
      | inl fresh ↦ (λ h. inl (ground (arith, fresh)), λ h. ground (arith, fresh))
      | inr ran ↦ (
        λ h. inr (some_new.0 (ground (arith, ran))),
        λ h. elim h [
          | inl none_ran ↦ absurd (ground (arith, ran, none_ran))
          | inr new ↦ ground (arith, ran, some_new.1 new)
        ],
      )
    ]

-- Another plan is run: there is a round left, and room for it, and a reason; the compiler answers; a valid
-- plan comes of the answer, which brings something new and is journalled; and its execution succeeds.
pub record IsContinued (p : Planner) (i : RoundInput) (d : Dispatch) : Type 0 where
  pub round_left : d.round < max_plan_rounds
  pub few_steps : length d.run.trace < max_total_steps
  pub in_time : i.elapsed < dispatch_budget_secs
  pub reason : (any has_failed d.run.trace ≡ true) ⊎ (continuation_depth_threshold ≤ d.depth)
  pub answer : Plan
  pub compiled : i.compiled ≡ some answer
  pub next : Plan
  pub resolved : resolve_plan p.check p.catalog i.recompile answer ≡ valid_plan next
  pub new :
      (length d.run.trace ≡ 0)
      ⊎ ((s : PlanStep) × In s next
          × (is_repeat p.render (executed_invocations p.render d.run.trace) p.catalog s ≡ false))
  pub journalled : i.journalled ≡ true
  pub run : PlanRun
  pub executed : i.execute next ≡ some run

-- What the loop does with one round's input.
abbrev pub IsDecided : Planner → RoundInput → List RoundInput → Dispatch → Dispatch → Type 0
IsDecided p i is d out =
    ((c : IsContinued p i d) × (out
        ≡ rounds p is (record {
          run = merge_runs (p.number (d.round + 1)) d.run c.run;
          round = d.round + 1;
          rounds_used = d.rounds_used + 1;
          depth = plan_depth c.next;
        })))
    ⊎ (¬ IsContinued p i d × (out.run ≡ d.run) × (out.round ≡ d.round))

stop-IsDecided :
    (p : Planner) (i : RoundInput) (is : List RoundInput) (d : Dispatch) (step : Step)
    → (e : Dispatch) → (e.run ≡ d.run) × (e.round ≡ d.round)
    → step ≡ stop e
    → ¬ IsContinued p i d
    → IsDecided p i is d (after_step step (rounds p is))
stop-IsDecided p i is d step e same ended never = rw ended (inr (never, same.0, same.1))

-- What the compiler and its retry gave is what continues.
outcome_of :
    (p : Planner) (i : RoundInput) (d : Dispatch) (answer : Plan) (c : IsContinued p i d)
    → i.compiled ≡ some answer
    → resolve_plan p.check p.catalog i.recompile answer ≡ valid_plan c.next
outcome_of p i d answer c got =
    let both : ◌≡◌ {A = Option Plan} (some answer) (some c.answer) = sym got ∙ c.compiled in
    ap (resolve_plan p.check p.catalog i.recompile) (cc both) ∙ c.resolved

same_plan :
    (p : Planner) (i : RoundInput) (d : Dispatch) (answer next : Plan) (c : IsContinued p i d)
    → i.compiled ≡ some answer
    → resolve_plan p.check p.catalog i.recompile answer ≡ valid_plan next
    → next ≡ c.next
same_plan p i d answer next c got out =
    let both : ◌≡◌ {A = PlanOutcome} (valid_plan next) (valid_plan c.next) =
      sym out ∙ outcome_of p i d answer c got in
    cc both

run_next-IsDecided :
    (p : Planner) (i : RoundInput) (is : List RoundInput) (d : Dispatch) (answer : Plan)
    (outcome : PlanOutcome)
    → d.round < max_plan_rounds
    → length d.run.trace < max_total_steps
    → i.elapsed < dispatch_budget_secs
    → (any has_failed d.run.trace ≡ true) ⊎ (continuation_depth_threshold ≤ d.depth)
    → i.compiled ≡ some answer
    → resolve_plan p.check p.catalog i.recompile answer ≡ outcome
    → IsDecided p i is d (after_step (run_next p i (compiled_once d) outcome) (rounds p is))
run_next-IsDecided p i is d answer empty_plan left few soon reason got out =
    inr (λ c. absurd (cc (sym out ∙ outcome_of p i d answer c got)), refl, refl)
run_next-IsDecided p i is d answer (invalid_plan e) left few soon reason got out =
    inr (λ c. absurd (cc (sym out ∙ outcome_of p i d answer c got)), refl, refl)
run_next-IsDecided p i is d answer (valid_plan next) left few soon reason got out =
    let law = adds_nothing-false p.render next d.run.trace p.catalog in
    let step = run_next p i (compiled_once d) (valid_plan next) in
    elim (Bool-cases (adds_nothing p.render next d.run.trace p.catalog)) [
      | inl repeated ↦
          stop-IsDecided p i is d step (compiled_once d) (refl, refl) (ground (arith, repeated))
            (λ c.
              let fresh = (adds_nothing-false p.render c.next d.run.trace p.catalog).1 c.new in
              ground (arith, repeated, fresh, same_plan p i d answer next c got out))
      | inr fresh ↦ elim (Bool-cases i.journalled) [
        | inr unwritten ↦
            stop-IsDecided p i is d step (compiled_once d) (refl, refl)
              (ground (arith, fresh, unwritten)) (λ c. ground (arith, unwritten, c.journalled))
        | inl in_journal ↦ elim (Option-cases (i.execute next)) [
          | inl failed ↦
              stop-IsDecided p i is d step (compiled_once d) (refl, refl)
                (ground (arith, fresh, in_journal, failed))
                (λ c.
                  let fails : i.execute c.next ≡ none =
                    sym (ap i.execute (same_plan p i d answer next c got out)) ∙ failed in
                  ground (arith, fails, c.executed))
          | inr (run, ran) ↦
              let goes : step
                  ≡ go_on (record {
                    run = merge_runs (p.number (d.round + 1)) d.run run;
                    round = d.round + 1;
                    rounds_used = d.rounds_used + 1;
                    depth = plan_depth next;
                  }) =
                ground (arith, fresh, in_journal, ran) in
              inl (
                record {
                  round_left = left;
                  few_steps = few;
                  in_time = soon;
                  reason = reason;
                  answer = answer;
                  compiled = got;
                  next = next;
                  resolved = out;
                  new = law.0 fresh;
                  journalled = in_journal;
                  run = run;
                  executed = ran;
                },
                ap (λ (x : Step). after_step x (rounds p is)) goes,
              )
        ]
      ]
    ]

compile_next-IsDecided :
    (p : Planner) (i : RoundInput) (is : List RoundInput) (d : Dispatch) (compiled : Option Plan)
    → d.round < max_plan_rounds
    → length d.run.trace < max_total_steps
    → i.elapsed < dispatch_budget_secs
    → (any has_failed d.run.trace ≡ true) ⊎ (continuation_depth_threshold ≤ d.depth)
    → i.compiled ≡ compiled
    → IsDecided p i is d (after_step (compile_next p i (compiled_once d) compiled) (rounds p is))
compile_next-IsDecided p i is d none left few soon reason silent =
    inr (λ c. ground (arith, silent, c.compiled), refl, refl)
compile_next-IsDecided p i is d (some answer) left few soon reason got =
    run_next-IsDecided p i is d answer (resolve_plan p.check p.catalog i.recompile answer) left few
      soon reason got refl

continue_with-IsDecided :
    (p : Planner) (i : RoundInput) (is : List RoundInput) (d : Dispatch)
    (reason : Option ContinuationReason)
    → d.round < max_plan_rounds
    → continuation_reason d.run.trace d.depth i.elapsed ≡ reason
    → IsDecided p i is d (after_step (continue_with p i d reason) (rounds p is))
continue_with-IsDecided p i is d none left idle = inr (
  λ c.
      let (r, given) =
        (continuation_reason_iff d.run.trace d.depth i.elapsed).1
          (c.few_steps, c.in_time, c.reason) in
      ground (arith, idle, given),
  refl,
  refl,
)
continue_with-IsDecided p i is d (some r) left given =
    let (few, soon, reason) =
      (continuation_reason_iff d.run.trace d.depth i.elapsed).0 (r, given) in
    compile_next-IsDecided p i is d i.compiled left few soon reason refl

-- Each turn of the loop over the rounds runs another plan exactly if there is a round left and room and
-- time for it, a step failed or the plan was deep, the compiler answers, a valid plan comes of that which
-- brings something new, is journalled, and is executed: then the loop goes on with the merged runs.
-- Else it ends with the runs that it has.
pub rounds-IsDecided :
    (p : Planner) (i : RoundInput) (is : List RoundInput) (d : Dispatch)
    → IsDecided p i is d (rounds p (i ∷ is) d)
unfolding rounds next_round
rounds-IsDecided p i is d = elim (Bool-cases (ltb d.round max_plan_rounds)) [
  | inr over ↦ rw over (inr (λ c. ground (arith, over, c.round_left), refl, refl))
  | inl left ↦ rw left (
      continue_with-IsDecided p i is d (continuation_reason d.run.trace d.depth i.elapsed)
        (ground (arith, left)) refl)
]
