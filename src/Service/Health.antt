-- ===== src/Service/Health.antt =====
-- src/service/health.rs: a device session with outage suppression and adaptive read-only timeouts. Times and
-- durations are nanoseconds. The session under it is a parameter: what it answers to an operation under a retry
-- policy from a moment on, and when. Whether a command is registered as read-only is a parameter, too.
mod Tests
pub mod Timing
pub mod Budget
pub mod Outages
use hart_link.Common.{
  ℕ, ◌+◌, ◌-◌, ◌*◌, ◌/◌, min, Bool, true, false, not, ◌&&◌, ◌||◌, Option, none, some, ltb, leb,
  ◌==◌, if◌then◌else◌, Result, ok, err, u64_max, saturating_add,
}
use hart_link.Wire.Address.{WireError}
use hart_link.Operation.Codec.{OperationError}
use hart_link.Operation.Exchange.{OperationSafety}

abbrev pub maximum_retry_duration : ℕ
maximum_retry_duration = 86400000000000

-- `Duration::MAX`
abbrev pub duration_max : ℕ
duration_max = u64_max * 1000000000 + 999999999

-- `Duration::saturating_add`
abbrev pub duration_add : ℕ → ℕ → ℕ
duration_add a b = min (a + b) duration_max

pub record RetryPolicy : Type 0 where
  pub transport_retries : ℕ
  pub busy_retries : ℕ
  pub delayed_response_polls : ℕ
  pub retry_delay : ℕ
  pub response_timeout : ℕ
  pub total_timeout : ℕ

-- `RetryPolicy::default()`
abbrev pub default_policy : RetryPolicy
default_policy = record {
  transport_retries = 1;
  busy_retries = 2;
  delayed_response_polls = 8;
  retry_delay = 50000000;
  response_timeout = 1600000000;
  total_timeout = 8000000000;
}

pub data RetryPolicyError : Type 0 where
  response_timeout_error total_timeout_error : RetryPolicyError
  deadline_overflow response_deadline_overflow retry_delay_overflow : RetryPolicyError
  response_timeout_limit total_timeout_limit retry_delay_limit : RetryPolicyError

-- What a channel says of its failure is not looked at.
pub data ExchangeError : Type 0 where
  command_denied : (command : ℕ) → OperationSafety → (queue : ℕ) → ExchangeError
  unknown_queue : ℕ → ExchangeError
  deadline_expired response_timeout_expired send_timeout_expired : ExchangeError
  busy delayed_response : ℕ → ExchangeError
  channel_failure runner_stopped : ExchangeError
  wire_error : WireError → ExchangeError
  operation_error : OperationError → ExchangeError
  retry_policy_error : RetryPolicyError → ExchangeError
  transmit_prefix : ℕ → ExchangeError

pub data SessionError : Type 0 where
  exchange_error : ExchangeError → SessionError
  format_error : OperationError → SessionError
  address_error : WireError → SessionError
  preambles_error : ℕ → SessionError

pub record AdaptiveTiming : Type 0 where
  pub minimum : ℕ
  pub maximum : ℕ
  pub margin : ℕ

pub data DeviceHealthConfigError : Type 0 where
  zero_adaptive_timeout adaptive_order adaptive_limit cooldown_limit : DeviceHealthConfigError

unfoldable pub validate_timing : AdaptiveTiming → Result DeviceHealthConfigError (Unit {0})
validate_timing t =
    if (t.minimum == 0) || (t.maximum == 0)
    then err zero_adaptive_timeout
    else if ltb t.maximum t.minimum
    then err adaptive_order
    else if ltb maximum_retry_duration t.maximum || ltb maximum_retry_duration t.margin
    then err adaptive_limit
    else ok tt

pub record DeviceHealthOptions : Type 0 where
  pub failure_threshold : ℕ
  pub cooldown : ℕ
  pub adaptive : Option AdaptiveTiming

unfoldable pub validate_options : DeviceHealthOptions → Result DeviceHealthConfigError (Unit {0})
unfolding validate_timing
validate_options o =
    if ltb maximum_retry_duration o.cooldown
    then err cooldown_limit
    else elim o.adaptive [ none ↦ ok tt | some t ↦ validate_timing t ]

pub record HealthState : Type 0 where
  pub successes : ℕ
  pub failures : ℕ
  pub consecutive_transport_failures : ℕ
  pub cooldown_activations : ℕ
  pub cooldown_rejections : ℕ
  pub cooldown_until : Option ℕ
  pub learned_response : Option ℕ
  pub adaptive_attempts : ℕ
  pub adaptive_fallbacks : ℕ

-- `HealthState::default()`
unfoldable pub new_health : HealthState
new_health = record {
  successes = 0;
  failures = 0;
  consecutive_transport_failures = 0;
  cooldown_activations = 0;
  cooldown_rejections = 0;
  cooldown_until = none;
  learned_response = none;
  adaptive_attempts = 0;
  adaptive_fallbacks = 0;
}

pub data ManagedSessionError : Type 0 where
  cooling_down : (remaining : ℕ) → ManagedSessionError
  unsafe_probe : (command : ℕ) → ManagedSessionError
  session_error : SessionError → ManagedSessionError

unfoldable pub is_response_timeout : SessionError → Bool
is_response_timeout (exchange_error response_timeout_expired) = true
is_response_timeout other = false

unfoldable pub is_transport_outage : SessionError → Bool
is_transport_outage (exchange_error response_timeout_expired) = true
is_transport_outage (exchange_error send_timeout_expired) = true
is_transport_outage (exchange_error channel_failure) = true
is_transport_outage (exchange_error runner_stopped) = true
is_transport_outage other = false

unfoldable pub smoothed_duration : Option ℕ → (sample : ℕ) → ℕ
smoothed_duration none sample = sample
smoothed_duration (some previous) sample = min ((previous * 3 + sample) / 4) u64_max

-- `until.checked_duration_since(now)`, with a remaining duration of zero as none.
unfoldable pub remaining_at : (now : ℕ) → Option ℕ → ℕ
remaining_at now none = 0
remaining_at now (some until) = until - now

unfoldable pub check_cooldown :
    (bypass : Bool) → (now : ℕ) → HealthState → Result ManagedSessionError (Unit {0}) × HealthState
unfolding remaining_at
check_cooldown bypass now h =
    if bypass
    then (ok tt, h)
    else if remaining_at now h.cooldown_until == 0
    then (ok tt, record h { cooldown_until = none })
    else (
      err (cooling_down (remaining_at now h.cooldown_until)),
      record h { cooldown_rejections = saturating_add h.cooldown_rejections 1 },
    )

-- `u32::saturating_add`
abbrev pub u32_add : ℕ → ℕ → ℕ
u32_add a b = min (a + b) 4294967295

-- `clamp`, of bounds in order.
unfoldable pub clamp : (value low high : ℕ) → ℕ
clamp value low high = if ltb value low then low else min value high

module _ (options : DeviceHealthOptions) where
  unfoldable pub record_success : (read_only : Bool) → (elapsed : ℕ) → HealthState → HealthState
  unfolding smoothed_duration
  record_success read_only elapsed h = record h {
    successes = saturating_add h.successes 1;
    consecutive_transport_failures = 0;
    cooldown_until = none;
    learned_response = elim options.adaptive [
      | none ↦ h.learned_response
      | some t ↦
          if read_only
          then some (smoothed_duration h.learned_response elapsed)
          else h.learned_response
    ];
  }

  -- An outage at a moment, counted already. Instants do not overflow.
  unfoldable pub begin_cooldown : (now : ℕ) → HealthState → HealthState
  unfolding remaining_at
  begin_cooldown now h =
      if leb options.failure_threshold h.consecutive_transport_failures
      then record h {
        cooldown_activations =
            if remaining_at now h.cooldown_until == 0
            then saturating_add h.cooldown_activations 1
            else h.cooldown_activations;
        cooldown_until = some (now + options.cooldown);
      }
      else h

  unfoldable pub record_failure : SessionError → (now : ℕ) → HealthState → HealthState
  unfolding is_transport_outage begin_cooldown
  record_failure e now h =
      let failed = record h { failures = saturating_add h.failures 1 } in
      if is_transport_outage e
      then begin_cooldown now (record failed {
        consecutive_transport_failures = u32_add h.consecutive_transport_failures 1;
      })
      else record failed { consecutive_transport_failures = 0; cooldown_until = none }

  unfoldable pub adaptive_timeout : (read_only : Bool) → RetryPolicy → HealthState → Option ℕ
  unfolding clamp
  adaptive_timeout read_only policy h =
      if (policy.transport_retries == 0) || not read_only then none else elim options.adaptive [
        | none ↦ none
        | some t ↦ elim h.learned_response [
          | none ↦ none
          | some learned ↦
              let candidate =
                min (clamp (duration_add learned t.margin) t.minimum t.maximum)
                  policy.response_timeout in
              if ltb candidate policy.response_timeout then some candidate else none
        ]
      ]

pub record DeviceHealthSnapshot : Type 0 where
  pub successes : ℕ
  pub failures : ℕ
  pub consecutive_transport_failures : ℕ
  pub cooldown_activations : ℕ
  pub cooldown_rejections : ℕ
  pub cooldown_remaining : ℕ
  pub learned_response : Option ℕ
  pub adaptive_attempts : ℕ
  pub adaptive_fallbacks : ℕ

-- `snapshot`: the counters, with what remains of the cooldown, and the state after it.
unfoldable pub take_snapshot : (now : ℕ) → HealthState → DeviceHealthSnapshot × HealthState
unfolding remaining_at
take_snapshot now h =
    let remaining = remaining_at now h.cooldown_until in
    (
      record {
        successes = h.successes;
        failures = h.failures;
        consecutive_transport_failures = h.consecutive_transport_failures;
        cooldown_activations = h.cooldown_activations;
        cooldown_rejections = h.cooldown_rejections;
        cooldown_remaining = remaining;
        learned_response = h.learned_response;
        adaptive_attempts = h.adaptive_attempts;
        adaptive_fallbacks = h.adaptive_fallbacks;
      },
      if remaining == 0 then record h { cooldown_until = none } else h,
    )

unfoldable pub fast_policy : RetryPolicy → (fast_timeout : ℕ) → RetryPolicy
fast_policy policy fast_timeout = record policy {
  transport_retries = 0;
  response_timeout = fast_timeout;
}

unfoldable pub fallback_policy : RetryPolicy → (remaining : ℕ) → RetryPolicy
fallback_policy policy remaining = record policy {
  transport_retries = policy.transport_retries - 1;
  response_timeout = min policy.response_timeout remaining;
  total_timeout = remaining;
}

-- What a call comes to: its answer, the health and the moment after it, and what the session then keeps.
pub record Finished {ℓ κ} (A : Type ℓ) (S : Type κ) : Type (ℓ ⊔ κ) where
  pub answer : Result ManagedSessionError A
  pub health : HealthState
  pub finished : ℕ
  pub session_state : S

-- One call on a session, with no other call in between. The session, and whatever is under it, keeps an `S`;
-- nothing is assumed of it. No time passes but in the session.
module _ {ℓ κ} {A : Type ℓ} {S : Type κ} (options : DeviceHealthOptions)
    (session : S → RetryPolicy → (start : ℕ) → (Result SessionError A × ℕ) × S)
    (read_only : Bool) where
  unfoldable pub finish :
      Result SessionError A → (elapsed : ℕ) → (now : ℕ) → HealthState → S → Finished A S
  unfolding record_success record_failure
  finish (ok value) elapsed now h s = record {
    answer = ok value;
    health = record_success options read_only elapsed h;
    finished = now;
    session_state = s;
  }
  finish (err e) elapsed now h s = record {
    answer = err (session_error e);
    health = record_failure options e now h;
    finished = now;
    session_state = s;
  }

  -- After a short attempt that had no answer in time.
  unfoldable pub fall_back :
      RetryPolicy → (start now : ℕ) → SessionError → HealthState → S → Finished A S
  unfolding finish fallback_policy
  fall_back policy start now e h s =
      if leb policy.total_timeout (now - start)
      then finish (err e) (now - start) now h s
      else (let again =
            session s (fallback_policy policy (policy.total_timeout - (now - start))) now in
          finish again.0.0 (again.0.1 - now) again.0.1
            (record h { adaptive_fallbacks = saturating_add h.adaptive_fallbacks 1 }) again.1)

  unfoldable pub judge_fast :
      RetryPolicy → (start now : ℕ) → Result SessionError A → HealthState → S → Finished A S
  unfolding is_response_timeout fall_back finish
  judge_fast policy start now (ok value) h s = finish (ok value) (now - start) now h s
  judge_fast policy start now (err e) h s =
      if is_response_timeout e
      then fall_back policy start now e h s
      else finish (err e) (now - start) now h s

  unfoldable pub attempt :
      RetryPolicy → (start : ℕ) → HealthState → (fast : Option ℕ) → S → Finished A S
  unfolding judge_fast fast_policy finish
  attempt policy start h none s =
      let result = session s policy start in
      finish result.0.0 (result.0.1 - start) result.0.1 h result.1
  attempt policy start h (some fast_timeout) s =
      let result = session s (fast_policy policy fast_timeout) start in
      judge_fast policy start result.0.1 result.0.0
        (record h { adaptive_attempts = saturating_add h.adaptive_attempts 1 }) result.1

  unfoldable pub execute_inner :
      RetryPolicy → (bypass : Bool) → (start : ℕ) → HealthState → S → Finished A S
  unfolding check_cooldown adaptive_timeout attempt
  execute_inner policy bypass start h s =
      let checked = check_cooldown bypass start h in
      elim checked.0 [
        | err e ↦ record { answer = err e; health = checked.1; finished = start; session_state = s }
        | ok _ ↦
            attempt policy start checked.1 (adaptive_timeout options read_only policy checked.1) s
      ]

  unfoldable pub execute : RetryPolicy → (start : ℕ) → HealthState → S → Finished A S
  unfolding execute_inner
  execute policy start h s = execute_inner policy false start h s

  unfoldable pub probe : (command : ℕ) → RetryPolicy → (start : ℕ) → HealthState → S → Finished A S
  unfolding execute_inner
  probe command policy start h s =
      if not read_only
      then record {
        answer = err (unsafe_probe command);
        health = h;
        finished = start;
        session_state = s;
      }
      else execute_inner policy true start h s
