-- ===== src/Service/Planner.antt =====
-- src/service/planner.rs: a sequential plan of requests. The link is a parameter: what it answers to a request,
-- and the state it is in after it. A name is the list of its characters.
mod Tests
pub mod Stops
use hart_link.Common.{
  ℕ, bit_and, Bool, true, false, not, ◌&&◌, ◌||◌, List, [], ◌∷◌, ◌++◌, any, ◌==◌, Result, ok, err,
}
use hart_link.Operation.Exchange.{Request, DeviceReply}
use hart_link.Service.Health.{RetryPolicy, ExchangeError, default_policy}

pub data PlanExpectation : Type 0 where
  success : PlanExpectation
  response_codes data_prefix : List ℕ → PlanExpectation

pub record PlanStep : Type 0 where
  pub name : List ℕ
  pub step_request : Request
  pub queue : ℕ
  pub retry : RetryPolicy
  pub expectation : PlanExpectation

-- `PlanStep::new`, whose queue is the default one.
unfoldable pub new_step : (name : List ℕ) → Request → PlanStep
new_step name r = record {
  name = name;
  step_request = r;
  queue = 0;
  retry = default_policy;
  expectation = success;
}

pub record Plan : Type 0 where
  pub steps : List PlanStep
  pub continue_after_failure : Bool

unfoldable pub new_plan : Plan
new_plan = record { steps = []; continue_after_failure = false }

unfoldable pub with_step : Plan → PlanStep → Plan
with_step p step = record p { steps = p.steps ++ step ∷ [] }

pub record StepReport : Type 0 where
  pub step_name : List ℕ
  pub result : Result ExchangeError DeviceReply
  pub expectation_met : Bool

-- `slice::starts_with`
unfoldable pub starts_with : List ℕ → (prefix : List ℕ) → Bool
starts_with bytes [] = true
starts_with [] (x ∷ prefix) = false
starts_with (b ∷ bytes) (x ∷ prefix) = (b == x) && starts_with bytes prefix

unfoldable pub has_communication_error : DeviceReply → Bool
has_communication_error reply = not (bit_and reply.response_code 0x80 == 0)

unfoldable pub expectation_matches : PlanExpectation → DeviceReply → Bool
unfolding has_communication_error starts_with
expectation_matches success reply = reply.response_code == 0
expectation_matches (response_codes codes) reply =
    not (has_communication_error reply) && any (λ c. c == reply.response_code) codes
expectation_matches (data_prefix bytes) reply =
    (reply.response_code == 0)
    && (not (has_communication_error reply) && starts_with reply.data_bytes bytes)

abbrev pub is_met : PlanExpectation → Result ExchangeError DeviceReply → Bool
is_met expectation (ok reply) = expectation_matches expectation reply
is_met expectation (err e) = false

abbrev pub is_failed : Result ExchangeError DeviceReply → Bool
is_failed (ok reply) = false
is_failed (err e) = true

module _ {ℓ} {S : Type ℓ}
    (link : S → Request → (queue : ℕ) → RetryPolicy → Result ExchangeError DeviceReply × S) where
  -- The loop of `execute`, with the state of the link.
  unfoldable pub execute_steps : (continuing : Bool) → List PlanStep → S → List StepReport × S
  unfolding expectation_matches
  execute_steps continuing [] s = ([], s)
  execute_steps continuing (step ∷ rest) s =
      let answer = link s step.step_request step.queue step.retry in
      let met = is_met step.expectation answer.0 in
      let report : StepReport = record {
        step_name = step.name;
        result = answer.0;
        expectation_met = met;
      } in
      elim ((is_failed answer.0 || not met) && not continuing) [
        | true ↦ (report ∷ [], answer.1)
        | false ↦ let later = execute_steps continuing rest answer.1 in (report ∷ later.0, later.1)
      ]

  unfoldable pub execute_plan : Plan → S → List StepReport × S
  unfolding execute_steps
  execute_plan p s = execute_steps p.continue_after_failure p.steps s
