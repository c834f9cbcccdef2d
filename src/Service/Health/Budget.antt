-- ===== src/Service/Health/Budget.antt =====
-- What a managed call asks of the session under it.
use hart_link.Common.{
  ℕ, suc, ◌+◌, ◌-◌, ◌≤◌, ◌≡◌, refl, arith, Bool, Bool-cases, inl, inr, Option, Option-cases, none,
  some, List, [], ◌∷◌, ◌++◌, length, All, leb, ltb, min, ◌<◌, if◌then◌else◌, Result, ok, err,
  Result-cases, not, ◌||◌, ◌==◌,
}
use hart_link.Service.Health.{
  RetryPolicy, SessionError, DeviceHealthOptions, HealthState, is_response_timeout, check_cooldown,
  clamp, duration_add, adaptive_timeout, fast_policy, fallback_policy, finish, fall_back,
  judge_fast, attempt, execute_inner,
}

-- An execution that the session is asked for: its policy, and the moment at which it starts.
pub record Run : Type 0 where
  pub policy : RetryPolicy
  pub start : ℕ

-- A session that also keeps a list of the executions that it is asked for, in their order.
abbrev pub watched {ℓ κ} :
    {A : Type ℓ} {S : Type κ}
    → (S → RetryPolicy → ℕ → (Result SessionError A × ℕ) × S)
    → S × List Run
    → RetryPolicy
    → ℕ
    → (Result SessionError A × ℕ) × (S × List Run)
watched session (s, runs) policy start = (
  (session s policy start).0,
  ((session s policy start).1, runs ++ record { policy = policy; start = start } ∷ []),
)

-- The attempts that the transport retries of the executions allow.
abbrev pub transport_attempts : List Run → ℕ
transport_attempts [] = 0
transport_attempts (r ∷ rs) = suc r.policy.transport_retries + transport_attempts rs

-- An execution within the budget of a call: it is to end by the moment at which the time of the call is up,
-- waits no longer for a response than the caller allows, and changes no other limit of the caller's policy.
pub record InBudget (policy : RetryPolicy) (start : ℕ) (r : Run) : Type 0 where
  pub ends : r.start + r.policy.total_timeout ≤ start + policy.total_timeout
  pub response : r.policy.response_timeout ≤ policy.response_timeout
  pub busy : r.policy.busy_retries ≡ policy.busy_retries
  pub polls : r.policy.delayed_response_polls ≡ policy.delayed_response_polls
  pub delay : r.policy.retry_delay ≡ policy.retry_delay

-- Executions within the budget of a call, together no more of them than two and no more attempts by their
-- transport retries than the caller allows.
pub record AreInBudget (policy : RetryPolicy) (start : ℕ) (runs : List Run) : Type 0 where
  pub each : All (InBudget policy start) runs
  pub few : length runs ≤ 2
  pub attempts : transport_attempts runs ≤ suc policy.transport_retries

selected :
    (t limit candidate : ℕ)
    → (if ltb candidate limit then some candidate else none) ≡ some t
    → t < limit
selected t limit candidate e = ground (arith, e)

-- A timeout is selected only below the caller's, and only where the caller allows a transport retry.
adaptive_timeout-selected :
    (options : DeviceHealthOptions) (read_only : Bool) (policy : RetryPolicy) (h : HealthState)
    (t : ℕ)
    → adaptive_timeout options read_only policy h ≡ some t
    → (t < policy.response_timeout) × (0 < policy.transport_retries)
unfolding adaptive_timeout
adaptive_timeout-selected options read_only policy h t e =
    elim (Bool-cases ((policy.transport_retries == 0) || not read_only)) [
      | inl unfit ↦ absurd (ground (arith, e, unfit))
      | inr fit ↦ elim (Option-cases options.adaptive) [
        | inl off ↦ absurd (ground (arith, e, fit, off))
        | inr (timing, on) ↦ elim (Option-cases h.learned_response) [
          | inl untaught ↦ absurd (ground (arith, e, fit, on, untaught))
          | inr (learned, known) ↦ (
            selected t policy.response_timeout
                (min (clamp (duration_add learned timing.margin) timing.minimum timing.maximum)
                  policy.response_timeout)
                (rw (adaptive_timeout, fit, on, known) at e),
            ground (arith, fit),
          )
        ]
      ]
    ]

attempts_left :
    (policy : RetryPolicy)
    → 0 < policy.transport_retries
    → (left : ℕ)
    → suc (fallback_policy policy left).transport_retries + 0 + 1 ≤ suc policy.transport_retries
unfolding fallback_policy
attempts_left policy some_retry left = omega (arith, some_retry)

module _ {ℓ κ} {A : Type ℓ} {S : Type κ} (options : DeviceHealthOptions)
    (session : S → RetryPolicy → (start : ℕ) → (Result SessionError A × ℕ) × S) (read_only : Bool)
    (policy : RetryPolicy) (start : ℕ) where
  finish_lem :
      (r : Result SessionError A) (elapsed now : ℕ) (h : HealthState) (s : S) (runs : List Run)
      → (finish options (watched session) read_only r elapsed now h (s, runs)).session_state.1
        ≡ runs
  unfolding finish
  finish_lem (ok v) elapsed now h s runs = refl
  finish_lem (err e) elapsed now h s runs = refl

  -- The executions after a first one with no transport retries.
  abbrev AfterFast : (t : ℕ) → List Run → Type 0
  AfterFast t runs =
      (rest : List Run) × (runs ≡ record { policy = fast_policy policy t; start = start } ∷ rest)
      × (length rest ≤ 1)
      × All (InBudget policy start) rest
      × (transport_attempts rest + 1 ≤ suc policy.transport_retries)

  fallback-InBudget :
      (now : ℕ)
      → now - start < policy.total_timeout
      → InBudget policy start (record {
        policy = fallback_policy policy (policy.total_timeout - (now - start));
        start = now;
      })
  unfolding fallback_policy
  fallback-InBudget now left = record {
    ends = omega (arith, left);
    response = omega arith;
    busy = refl;
    polls = refl;
    delay = refl;
  }

  judge_fast-AfterFast :
      (t now : ℕ) (r : Result SessionError A) (h : HealthState) (s : S)
      → 0 < policy.transport_retries
      → AfterFast t
          (judge_fast options
            (watched session)
            read_only
            policy
            start
            now
            r
            h
            (s, record { policy = fast_policy policy t; start = start } ∷ [])).session_state.1
  unfolding judge_fast fall_back
  judge_fast-AfterFast t now (ok v) h s some_retry =
      ([], finish_lem (ok v) (now - start) now h s _, omega arith, tt, omega arith)
  judge_fast-AfterFast t now (err e) h s some_retry = elim (Bool-cases (is_response_timeout e)) [
    | inr other ↦
        rw (judge_fast, other)
          ([], finish_lem (err e) (now - start) now h s _, omega arith, tt, omega arith)
    | inl late ↦ elim (Bool-cases (leb policy.total_timeout (now - start))) [
      | inl spent ↦
          rw (judge_fast, late, fall_back, spent)
            ([], finish_lem (err e) (now - start) now h s _, omega arith, tt, omega arith)
      | inr left ↦
          let again = fallback_policy policy (policy.total_timeout - (now - start)) in
          rw (judge_fast, late, fall_back, left)
            (
              record { policy = again; start = now } ∷ [],
              finish_lem _ _ _ _ _ _,
              omega arith,
              (fallback-InBudget now (ground (arith, left)), tt),
              attempts_left policy some_retry (policy.total_timeout - (now - start)),
            )
    ]
  ]

  AfterFast-AreInBudget :
      (t : ℕ) (runs : List Run)
      → t < policy.response_timeout
      → AfterFast t runs
      → AreInBudget policy start runs
  unfolding fast_policy
  AfterFast-AreInBudget t runs short (rest, e, few, good, spent) = rw e (record {
    each = (
      record {
        ends = omega arith;
        response = omega (arith, short);
        busy = refl;
        polls = refl;
        delay = refl;
      },
      good,
    );
    few = omega (arith, few);
    attempts = omega (arith, spent);
  })

  attempt-AreInBudget :
      (h : HealthState) (fast : Option ℕ) (s : S)
      → ((t : ℕ) → fast ≡ some t → (t < policy.response_timeout) × (0 < policy.transport_retries))
      → AreInBudget policy start
          (attempt options (watched session) read_only policy start h fast (s, [])).session_state.1
  unfolding attempt
  attempt-AreInBudget h none s allowed = rw (finish_lem _ _ _ _ _ _) (record {
    each = (
      record {
        ends = omega arith;
        response = omega arith;
        busy = refl;
        polls = refl;
        delay = refl;
      },
      tt,
    );
    few = omega arith;
    attempts = omega arith;
  })
  attempt-AreInBudget h (some t) s allowed =
      let (short, some_retry) = allowed t refl in
      AfterFast-AreInBudget t _ short (judge_fast-AfterFast t _ _ _ _ some_retry)

  -- Over any session, whatever it answers, keeps and takes in time: a managed call asks it for at most two
  -- executions. Each is given a total timeout that ends no later than the caller's, counted from the start of
  -- the call, waits no longer for a response than the caller allows, and has the caller's busy retries,
  -- delayed-response polls and retry delay, each anew. With one first attempt for each execution, their
  -- transport retries allow together no more attempts than those of the caller with one first attempt.
  pub execute_inner-AreInBudget :
      (bypass : Bool) (h : HealthState) (s : S)
      → AreInBudget policy start
          (execute_inner options
            (watched session)
            read_only
            policy
            bypass
            start
            h
            (s, [])).session_state.1
  unfolding execute_inner
  execute_inner-AreInBudget bypass h s = elim (Result-cases (check_cooldown bypass start h).0) [
    | inr (e, q) ↦
        rw (execute_inner, q) (record { each = tt; few = omega arith; attempts = omega arith })
    | inl (u, q) ↦
        let checked = check_cooldown bypass start h in
        rw (execute_inner, q)
          (attempt-AreInBudget checked.1 (adaptive_timeout options read_only policy checked.1) s
            (λ t e. adaptive_timeout-selected options read_only policy checked.1 t e))
  ]
