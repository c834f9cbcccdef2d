-- ===== src/Service/Planner/Stops.antt =====
-- Where a plan stops.
use hart_link.Common.{
  ℕ, ◌≡◌, refl, arith, ap, sym, ◌∙◌, true, false, not, ◌||◌, Bool-cases, inl, inr, List, [], ◌∷◌,
  map, if◌then◌else◌, Result, ok, err,
}
use hart_link.Operation.Exchange.{Request, DeviceReply}
use hart_link.Service.Health.{RetryPolicy, ExchangeError}
use hart_link.Service.Planner.{
  Plan, PlanStep, StepReport, PlanExpectation, is_met, is_failed, execute_steps, execute_plan,
}

-- The reports up to the first whose expectation is not met, and that one.
abbrev pub through_failure : List StepReport → List StepReport
through_failure [] = []
through_failure (r ∷ rs) = elim r.expectation_met [ true ↦ r ∷ through_failure rs | false ↦ r ∷ [] ]

through_met :
    (r : StepReport) (rs : List StepReport)
    → r.expectation_met ≡ true
    → through_failure (r ∷ rs) ≡ r ∷ through_failure rs
through_met r rs h = simp h

through_unmet :
    (r : StepReport) (rs : List StepReport)
    → r.expectation_met ≡ false
    → through_failure (r ∷ rs) ≡ r ∷ []
through_unmet r rs h = simp h

failed_unmet :
    (e : PlanExpectation) (r : Result ExchangeError DeviceReply)
    → (is_failed r || not (is_met e r)) ≡ not (is_met e r)
failed_unmet e (ok reply) = refl
failed_unmet e (err x) = refl

module _ {ℓ} {S : Type ℓ}
    (link : S → Request → (queue : ℕ) → RetryPolicy → Result ExchangeError DeviceReply × S) where
  all_reported :
      (steps : List PlanStep) (s : S)
      → map (λ r. r.step_name) (execute_steps link true steps s).0 ≡ map (λ p. p.name) steps
  unfolding execute_steps
  all_reported [] s = refl
  all_reported (step ∷ rest) s =
      let answer = link s step.step_request step.queue step.retry in
      elim (Bool-cases (is_failed answer.0 || not (is_met step.expectation answer.0))) [
        | inl bad ↦ rw (execute_steps, bad) (ap (◌∷◌ step.name) (all_reported rest answer.1))
        | inr good ↦ rw (execute_steps, good) (ap (◌∷◌ step.name) (all_reported rest answer.1))
      ]

  cut :
      (steps : List PlanStep) (s : S)
      → (execute_steps link false steps s).0 ≡ through_failure (execute_steps link true steps s).0
  unfolding execute_steps
  cut [] s = refl
  cut (step ∷ rest) s =
      let answer = link s step.step_request step.queue step.retry in
      let same = failed_unmet step.expectation answer.0 in
      let report : StepReport = record {
        step_name = step.name;
        result = answer.0;
        expectation_met = is_met step.expectation answer.0;
      } in
      elim (Bool-cases (is_met step.expectation answer.0)) [
        | inl met ↦
            let good : (is_failed answer.0 || not (is_met step.expectation answer.0)) ≡ false =
              ground (arith, met, same) in
            rw (execute_steps, good)
              (ap (◌∷◌ report) (cut rest answer.1)
                ∙ sym (through_met report (execute_steps link true rest answer.1).0 met))
        | inr unmet ↦
            let bad : (is_failed answer.0 || not (is_met step.expectation answer.0)) ≡ true =
              ground (arith, unmet, same) in
            rw (execute_steps, bad)
              (sym (through_unmet report (execute_steps link true rest answer.1).0 unmet))
      ]

  -- Whatever the link answers: a plan that goes on after failures reports every step, in order, by its name; and
  -- a plan that does not reports the same up to its first step whose exchange fails or whose expectation is not
  -- met, that step included, and no further one.
  pub execute_plan-cut :
      (p : Plan) (s : S)
      → (let full = (execute_plan link (record p { continue_after_failure = true }) s).0 in
          (map (λ r. r.step_name) full ≡ map (λ q. q.name) p.steps)
          × ((execute_plan link p s).0
              ≡ (if p.continue_after_failure then full else through_failure full)))
  unfolding execute_plan
  execute_plan-cut p s = elim (Bool-cases p.continue_after_failure) [
    | inl on ↦ (all_reported p.steps s, rw (execute_plan, on) refl)
    | inr off ↦ (all_reported p.steps s, rw (execute_plan, off) (cut p.steps s))
  ]
