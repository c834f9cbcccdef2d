-- ===== src/Service/Health/Outages.antt =====
-- When calls are refused: the critical sections of any number of calls, in any order, as one history.
use hart_link.Common.{
  ℕ, suc, ◌+◌, ◌-◌, ◌≤◌, ◌<◌, ◌≡◌, arith, min, Bool, true, false, Bool-cases, inl, inr,
  Option-cases, some, List, [], ◌∷◌, leb, if◌then◌else◌, err, saturating_add, All,
}
use hart_link.Service.Health.{
  SessionError, DeviceHealthOptions, HealthState, new_health, cooling_down, is_transport_outage,
  remaining_at, check_cooldown, record_success, begin_cooldown, record_failure, take_snapshot,
  u32_add,
}

-- A critical section of a call, with the moment at which it reads the clock.
pub data Event : Type 0 where
  succeeded : (read_only : Bool) → (elapsed : ℕ) → Event
  failed : SessionError → (now : ℕ) → Event
  checked : (bypass : Bool) → (now : ℕ) → Event
  observed : (now : ℕ) → Event
  tried_fast fell_back : Event

-- The outages in a row at the end of a history, and the moment of the last outage.
pub record Streak : Type 0 where
  pub outages : ℕ
  pub last : ℕ

abbrev pub streak_after : Streak → Event → Streak
streak_after s (succeeded read_only elapsed) = record s { outages = 0 }
streak_after s (failed e now) =
    if is_transport_outage e
    then record { outages = suc s.outages; last = now }
    else record s { outages = 0 }
streak_after s (checked bypass now) = s
streak_after s (observed now) = s
streak_after s tried_fast = s
streak_after s fell_back = s

abbrev pub streak : Streak → List Event → Streak
streak s [] = s
streak s (e ∷ es) = streak (streak_after s e) es

abbrev pub no_streak : Streak
no_streak = record { outages = 0; last = 0 }

module _ (options : DeviceHealthOptions) where
  unfoldable pub run_event : HealthState → Event → HealthState
  run_event h (succeeded read_only elapsed) = record_success options read_only elapsed h
  run_event h (failed e now) = record_failure options e now h
  run_event h (checked bypass now) = (check_cooldown bypass now h).1
  run_event h (observed now) = (take_snapshot now h).1
  run_event h tried_fast = record h { adaptive_attempts = saturating_add h.adaptive_attempts 1 }
  run_event h fell_back = record h { adaptive_fallbacks = saturating_add h.adaptive_fallbacks 1 }

  unfoldable pub run_events : HealthState → List Event → HealthState
  unfolding run_event
  run_events h [] = h
  run_events h (e ∷ es) = run_events (run_event h e) es

  record Counts (h : HealthState) (s : Streak) : Type 0 where
    counted : h.consecutive_transport_failures ≡ min s.outages 4294967295
    started :
        (t : ℕ)
        → h.cooldown_until ≡ some t
        → (options.failure_threshold ≤ s.outages) × (t ≡ s.last + options.cooldown)

  module _ (small : options.failure_threshold ≤ 255) where
    outage-Counts :
        (h : HealthState) (s : Streak) (now : ℕ)
        → Counts h s
        → Counts
            (begin_cooldown options now (record h {
              failures = saturating_add h.failures 1;
              consecutive_transport_failures = u32_add h.consecutive_transport_failures 1;
            }))
            (record { outages = suc s.outages; last = now })
    unfolding begin_cooldown
    outage-Counts h s now v =
        elim (Bool-cases
          (leb options.failure_threshold (u32_add h.consecutive_transport_failures 1))) [
            | inl reached ↦
                rw (begin_cooldown, reached)
                  (record {
                    counted = omega (arith, v.counted);
                    started = λ t q. (ground (arith, reached, v.counted), ground (arith, q));
                  })
            | inr below ↦
                rw (begin_cooldown, below)
                  (record {
                    counted = omega (arith, v.counted);
                    started = λ t q. absurd (ground (arith, below, v.counted, (v.started t q).0));
                  })
          ]

    failed-Counts :
        (h : HealthState) (s : Streak) (e : SessionError) (now : ℕ)
        → Counts h s
        → Counts (record_failure options e now h) (streak_after s (failed e now))
    unfolding record_failure
    failed-Counts h s e now v = elim (Bool-cases (is_transport_outage e)) [
      | inr other ↦
          rw (record_failure, other)
            (record { counted = omega arith; started = λ t q. absurd (cc) })
      | inl outage ↦ rw (record_failure, outage) (outage-Counts h s now v)
    ]

    run_event-Counts :
        (h : HealthState) (s : Streak) (e : Event)
        → Counts h s
        → Counts (run_event h e) (streak_after s e)
    unfolding run_event record_success check_cooldown take_snapshot
    run_event-Counts h s (succeeded read_only elapsed) v = record {
      counted = omega arith;
      started = λ t q. absurd (cc);
    }
    run_event-Counts h s (failed e now) v = failed-Counts h s e now v
    run_event-Counts h s (checked bypass now) v = record {
      counted = ground (arith, v.counted);
      started = λ t q. v.started t (ground (arith, q));
    }
    run_event-Counts h s (observed now) v = record {
      counted = ground (arith, v.counted);
      started = λ t q. v.started t (ground (arith, q));
    }
    run_event-Counts h s tried_fast v = record { counted = v.counted; started = v.started }
    run_event-Counts h s fell_back v = record { counted = v.counted; started = v.started }

    run_events-Counts :
        (es : List Event) (h : HealthState) (s : Streak)
        → Counts h s
        → Counts (run_events h es) (streak s es)
    unfolding run_events
    run_events-Counts [] h s v = v
    run_events-Counts (e ∷ es) h s v =
        run_events-Counts es (run_event h e) (streak_after s e) (run_event-Counts h s e v)

  new_health-Counts : Counts new_health no_streak
  unfolding new_health
  new_health-Counts = record { counted = omega arith; started = λ t q. absurd (cc) }

refused_until :
    (now r : ℕ) (h : HealthState)
    → (check_cooldown false now h).0 ≡ err (cooling_down r)
    → (t : ℕ) × (h.cooldown_until ≡ some t) × (r ≡ t - now) × (0 < r)
unfolding check_cooldown remaining_at
refused_until now r h e = elim (Option-cases h.cooldown_until) [
  | inl idle ↦ absurd (ground (arith, e, idle))
  | inr (t, on) ↦ (t, on, ground (arith, e, on), ground (arith, e, on))
]

-- Whatever calls have done to the state, their critical sections interleaved in any way: a call is refused
-- only if the last failures in a row that were transport outages are at least as many as the threshold, and
-- only before the cooldown has passed since the last of them, and it is told what remains.
pub check_cooldown-refuses :
    (options : DeviceHealthOptions) (es : List Event) (now r : ℕ)
    → options.failure_threshold ≤ 255
    → (check_cooldown false now (run_events options new_health es)).0 ≡ err (cooling_down r)
    → (options.failure_threshold ≤ (streak no_streak es).outages)
      × (0 < r)
      × (now + r ≡ (streak no_streak es).last + options.cooldown)
check_cooldown-refuses options es now r small e =
    let (t, on, left, some_left) = refused_until now r (run_events options new_health es) e in
    let counts =
      run_events-Counts options small es new_health no_streak (new_health-Counts options) in
    let (many, until) = counts.started t on in (many, some_left, omega (arith, left, until))

begins :
    (options : DeviceHealthOptions) (h : HealthState) (e : SessionError) (now : ℕ)
    → is_transport_outage e ≡ true
    → options.failure_threshold ≤ u32_add h.consecutive_transport_failures 1
    → (record_failure options e now h).cooldown_until ≡ some (now + options.cooldown)
unfolding record_failure begin_cooldown
begins options h e now outage reached = ground (arith, outage, reached)

refuses_before :
    (t later : ℕ) (h : HealthState)
    → h.cooldown_until ≡ some t
    → later < t
    → (check_cooldown false later h).0 ≡ err (cooling_down (t - later))
unfolding check_cooldown remaining_at
refuses_before t later h on early = ground (arith, on, early)

-- A critical section, in a cooldown until a moment, that records neither a success nor a failure and reads the
-- clock before that moment.
unfoldable pub Quiet : (until : ℕ) → Event → Type 0
Quiet until (succeeded read_only elapsed) = ⊥
Quiet until (failed e now) = ⊥
Quiet until (checked bypass now) = now < until
Quiet until (observed now) = now < until
Quiet until tried_fast = Unit
Quiet until fell_back = Unit

run_event-Quiet :
    (options : DeviceHealthOptions) (h : HealthState) (until : ℕ) (e : Event)
    → Quiet until e
    → h.cooldown_until ≡ some until
    → (run_event options h e).cooldown_until ≡ some until
unfolding Quiet run_event check_cooldown take_snapshot remaining_at
run_event-Quiet options h until (succeeded read_only elapsed) q on = absurd q
run_event-Quiet options h until (failed e now) q on = absurd q
run_event-Quiet options h until (checked bypass now) q on = ground (arith, q, on)
run_event-Quiet options h until (observed now) q on = ground (arith, q, on)
run_event-Quiet options h until tried_fast q on = on
run_event-Quiet options h until fell_back q on = on

run_events-Quiet :
    (options : DeviceHealthOptions) (es : List Event) (h : HealthState) (until : ℕ)
    → All (Quiet until) es
    → h.cooldown_until ≡ some until
    → (run_events options h es).cooldown_until ≡ some until
unfolding run_events
run_events-Quiet options [] h until q on = on
run_events-Quiet options (e ∷ es) h until (q, qs) on =
    run_events-Quiet options es (run_event options h e) until qs
      (run_event-Quiet options h until e q on)

-- A transport outage that makes as many in a row as the threshold, then any calls, probes and snapshots within
-- the cooldown that record neither a success nor a failure: a call that does not bypass the cooldown, before
-- the cooldown has passed, is refused with what remains of it.
pub record_failure-refuses :
    (options : DeviceHealthOptions) (es between : List Event) (e : SessionError) (now later : ℕ)
    → options.failure_threshold ≤ 255
    → is_transport_outage e ≡ true
    → options.failure_threshold ≤ suc (streak no_streak es).outages
    → All (Quiet (now + options.cooldown)) between
    → later < now + options.cooldown
    → (check_cooldown false later (
        run_events options
          (record_failure options e now (run_events options new_health es))
          between)).0
      ≡ err (cooling_down (now + options.cooldown - later))
record_failure-refuses options es between e now later small outage many quiet early =
    let h = run_events options new_health es in
    let until = now + options.cooldown in
    let counts =
      run_events-Counts options small es new_health no_streak (new_health-Counts options) in
    let begun = begins options h e now outage (omega (arith, counts.counted)) in
    refuses_before until later (run_events options (record_failure options e now h) between)
      (run_events-Quiet options between (record_failure options e now h) until quiet begun) early
