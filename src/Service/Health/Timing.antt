-- ===== src/Service/Health/Timing.antt =====
-- The learned timeout, and what a call with it may use up.
use hart_link.Common.{
  ℕ, suc, ◌+◌, ◌≤◌, ◌<◌, ◌≡◌, refl, arith, min, Bool, true, not, ◌||◌, Bool-cases, inl, inr,
  Option-cases, none, some, ltb, ◌==◌, if◌then◌else◌, ok,
}
use hart_link.Service.Health.{
  RetryPolicy, AdaptiveTiming, DeviceHealthOptions, HealthState, validate_options, duration_add,
  clamp, adaptive_timeout, fast_policy, fallback_policy,
}

-- The limits of a policy that are neither transport retries nor times to respond.
pub record KeepsOthers (policy other : RetryPolicy) : Type 0 where
  pub busy : other.busy_retries ≡ policy.busy_retries
  pub polls : other.delayed_response_polls ≡ policy.delayed_response_polls
  pub delay : other.retry_delay ≡ policy.retry_delay

-- A timeout that is selected for a policy: shorter than the caller's, within the bounds of the configuration,
-- for a read-only command that may be retried. The transport retries of the short attempt and of its fallback
-- allow, together with their first attempts, as many attempts as the caller's do; the other retries of both are
-- the caller's.
pub record IsShorter (options : DeviceHealthOptions) (read_only : Bool) (policy : RetryPolicy)
    (t : ℕ) : Type 0 where
  pub shorter : t < policy.response_timeout
  pub reads : read_only ≡ true
  pub bounded :
      (a : AdaptiveTiming) × (options.adaptive ≡ some a) × (a.minimum ≤ t) × (t ≤ a.maximum)
  pub transport_attempts :
      (remaining : ℕ)
      → suc (fast_policy policy t).transport_retries
          + suc (fallback_policy policy remaining).transport_retries
        ≡ suc policy.transport_retries
  pub short_kept : KeepsOthers policy (fast_policy policy t)
  pub fallback_kept : (remaining : ℕ) → KeepsOthers policy (fallback_policy policy remaining)

chosen :
    (t limit learned : ℕ) (timing : AdaptiveTiming)
    → timing.minimum ≤ timing.maximum
    → (let candidate = min (clamp learned timing.minimum timing.maximum) limit in
        (if ltb candidate limit then some candidate else none) ≡ some t)
    → (t < limit) × (timing.minimum ≤ t) × (t ≤ timing.maximum)
unfolding clamp
chosen t limit learned timing order e = ground (arith, e)

validate_options-order :
    (options : DeviceHealthOptions) (timing : AdaptiveTiming)
    → validate_options options ≡ ok tt
    → options.adaptive ≡ some timing
    → timing.minimum ≤ timing.maximum
unfolding validate_options
validate_options-order options timing v e = ground (arith, v, e)

-- The timeout that a validated configuration selects for a policy is shorter than the caller's, within the
-- configured bounds, only for a read-only command that may be retried. With one first attempt each, the
-- transport retries of the short attempt and of its fallback allow together as many attempts as the transport
-- retries of the caller with one first attempt. Busy retries, delayed-response polls and the retry delay of
-- each are the caller's.
pub adaptive_timeout-IsShorter :
    (options : DeviceHealthOptions) (read_only : Bool) (policy : RetryPolicy) (h : HealthState)
    (t : ℕ)
    → validate_options options ≡ ok tt
    → adaptive_timeout options read_only policy h ≡ some t
    → IsShorter options read_only policy t
unfolding adaptive_timeout fast_policy fallback_policy
adaptive_timeout-IsShorter options read_only policy h t v e =
    elim (Bool-cases ((policy.transport_retries == 0) || not read_only)) [
      | inl unfit ↦ absurd (ground (arith, e, unfit))
      | inr fit ↦ elim (Option-cases options.adaptive) [
        | inl off ↦ absurd (ground (arith, e, fit, off))
        | inr (timing, on) ↦ elim (Option-cases h.learned_response) [
          | inl untaught ↦ absurd (ground (arith, e, fit, on, untaught))
          | inr (learned, known) ↦
              let (short, low, high) =
                chosen t policy.response_timeout (duration_add learned timing.margin) timing
                  (validate_options-order options timing v on)
                  (rw (adaptive_timeout, fit, on, known) at e) in
              record {
                shorter = short;
                reads = ground (arith, fit);
                bounded = (timing, on, low, high);
                transport_attempts = λ remaining. ground (arith, fit);
                short_kept = record { busy = refl; polls = refl; delay = refl };
                fallback_kept = λ remaining. record { busy = refl; polls = refl; delay = refl };
              }
        ]
      ]
    ]
