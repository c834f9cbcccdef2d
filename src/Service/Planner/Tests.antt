-- ===== src/Service/Planner/Tests.antt =====
-- A run of the planner's theorem at three steps and a link that answers some.
use hart_link.Common.{
  ℕ, ◌+◌, ◌==◌, ◌≡◌, false, true, none, List, [], ◌∷◌, map, Result, ok, err, if◌then◌else◌,
}
use hart_link.Wire.Address.{polling, primary}
use hart_link.Wire.Frame.{fsk}
use hart_link.Operation.Exchange.{Request, DeviceReply}
use hart_link.Service.Health.{RetryPolicy, ExchangeError, response_timeout_expired}
use hart_link.Service.Planner.{Plan, PlanStep, StepReport, execute_plan, data_prefix}
use hart_link.Service.Planner.Stops.{through_failure, execute_plan-cut}

abbrev policy : RetryPolicy
policy = record {
  transport_retries = 1;
  busy_retries = 2;
  delayed_response_polls = 8;
  retry_delay = 50;
  response_timeout = 1600;
  total_timeout = 8000;
}

abbrev step : ℕ → PlanStep
step command = record {
  name = command ∷ [];
  queue = 0;
  retry = policy;
  expectation = data_prefix (254 ∷ []);
  step_request = record {
    address = polling 0 primary;
    command = command;
    data_bytes = [];
    preambles = 5;
    frame_expansion = [];
    physical_layer = fsk;
    retry_safety = none;
  };
}

abbrev reply : ℕ → DeviceReply
reply command = record {
  address = polling 0 primary;
  command = command;
  response_code = 0;
  device_status = 0;
  data_bytes = 254 ∷ 1 ∷ [];
  burst = false;
  physical_layer = fsk;
  response_preambles = 5;
  frame_expansion = [];
}

-- A link that counts the requests, and does not answer command 3.
abbrev link : ℕ → Request → (queue : ℕ) → RetryPolicy → Result ExchangeError DeviceReply × ℕ
link n r queue retry =
    (if r.command == 3 then err response_timeout_expired else ok (reply r.command), n + 1)

abbrev plan : Plan
plan = record { steps = step 0 ∷ step 3 ∷ step 1 ∷ []; continue_after_failure = false }

abbrev full : List StepReport
full = (execute_plan link (record plan { continue_after_failure = true }) 0).0

execute_plan-cut_example :
    (map (λ r. r.step_name) full ≡ map (λ q. q.name) plan.steps)
    × ((execute_plan link plan 0).0 ≡ (if false then full else through_failure full))
execute_plan-cut_example = execute_plan-cut link plan 0
