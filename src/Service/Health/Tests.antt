-- ===== src/Service/Health/Tests.antt =====
-- Runs of the health theorems at the default configuration and a slow device.
use hart_link.Common.{
  ℕ, suc, ◌+◌, ◌-◌, ◌≤◌, ◌<◌, ◌≡◌, refl, arith, true, false, none, some, List, [], ◌∷◌, Result, ok,
  err, All,
}
use hart_link.Service.Health.{
  RetryPolicy, SessionError, exchange_error, response_timeout_expired, send_timeout_expired,
  AdaptiveTiming, DeviceHealthOptions, HealthState, new_health, cooling_down, validate_options,
  is_transport_outage, check_cooldown, record_success, record_failure, adaptive_timeout,
  execute_inner,
}
use hart_link.Service.Health.Timing.{IsShorter, adaptive_timeout-IsShorter}
use hart_link.Service.Health.Budget.{Run, watched, AreInBudget, execute_inner-AreInBudget}
use hart_link.Service.Health.Outages.{
  Event, no_streak, streak, succeeded, failed, checked, observed, tried_fast, Quiet, run_events,
  check_cooldown-refuses, record_failure-refuses,
}

abbrev timing : AdaptiveTiming
timing = record { minimum = 100; maximum = 5000; margin = 50 }

abbrev options : DeviceHealthOptions
options = record { failure_threshold = 3; cooldown = 10000; adaptive = some timing }

abbrev policy : RetryPolicy
policy = record {
  transport_retries = 2;
  busy_retries = 2;
  delayed_response_polls = 8;
  retry_delay = 50;
  response_timeout = 1600;
  total_timeout = 8000;
}

valid : validate_options options ≡ ok tt
unfolding validate_options
valid = refl

abbrev taught : HealthState
taught = record {
  successes = 1;
  failures = 0;
  consecutive_transport_failures = 0;
  cooldown_activations = 0;
  cooldown_rejections = 0;
  cooldown_until = none;
  learned_response = some 300;
  adaptive_attempts = 0;
  adaptive_fallbacks = 0;
}

selected : adaptive_timeout options true policy taught ≡ some 350
unfolding adaptive_timeout
selected = refl

adaptive_timeout-IsShorter_example : IsShorter options true policy 350
adaptive_timeout-IsShorter_example =
    adaptive_timeout-IsShorter options true policy taught 350 valid selected

-- A device that never answers: every execution takes the time for a response, and the session counts them.
abbrev silent : ℕ → RetryPolicy → ℕ → (Result SessionError (Unit {0}) × ℕ) × ℕ
silent n p start =
    ((err (exchange_error response_timeout_expired), start + p.response_timeout), suc n)

-- The two executions of a call at 20: a short one, and its fallback at 370 with the time that is left.
abbrev two_runs : List Run
two_runs =
    record { policy = record policy { transport_retries = 0; response_timeout = 350 }; start = 20 }
    ∷ record { policy = record policy { transport_retries = 1; total_timeout = 7650 }; start = 370 }
    ∷ []

asked :
    (execute_inner options (watched silent) true policy false 20 taught (0, [])).session_state.1
    ≡ two_runs
unfolding execute_inner
asked = refl

execute_inner-AreInBudget_example :
    AreInBudget policy 20
      (execute_inner options (watched silent) true policy false 20 taught (0, [])).session_state.1
execute_inner-AreInBudget_example =
    execute_inner-AreInBudget options silent true policy 20 false taught 0

abbrev late : SessionError
late = exchange_error response_timeout_expired

abbrev history : List Event
history =
    failed late 10
    ∷ succeeded true 300
    ∷ failed late 20
    ∷ failed late 40
    ∷ checked false 50
    ∷ failed (exchange_error send_timeout_expired) 60
    ∷ []

refused :
    (check_cooldown false 100 (run_events options new_health history)).0 ≡ err (cooling_down 9960)
unfolding check_cooldown run_events record_success record_failure new_health
refused = refl

check_cooldown-refuses_example : (3 ≤ 3) × (0 < 9960) × (100 + 9960 ≡ 60 + 10000)
unfolding is_transport_outage
check_cooldown-refuses_example =
    check_cooldown-refuses options history 100 9960 (omega arith) refused

outage : is_transport_outage late ≡ true
unfolding is_transport_outage
outage = refl

enough : 3 ≤ suc (streak no_streak history).outages
unfolding is_transport_outage
enough = omega arith

-- A refused call, a probe that has not ended yet, and a snapshot.
abbrev between : List Event
between = checked false 80 ∷ checked true 90 ∷ tried_fast ∷ observed 100 ∷ []

between-Quiet : All (Quiet 10070) between
unfolding Quiet
between-Quiet = (omega arith, (omega arith, (tt, (omega arith, tt))))

record_failure-refuses_example :
    (check_cooldown false 500 (
      run_events options
        (record_failure options late 70 (run_events options new_health history))
        between)).0
    ≡ err (cooling_down (70 + 10000 - 500))
record_failure-refuses_example =
    record_failure-refuses options history between late 70 500 (omega arith) outage enough
      between-Quiet (omega arith)
