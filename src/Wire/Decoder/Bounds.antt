-- ===== src/Wire/Decoder/Bounds.antt =====
-- The memory and event limits of the decoder.
use hart_link.Common.{
  ℕ, zero, suc, ◌^◌, ◌+◌, ◌-◌, ◌≤◌, ◌<◌, ◌≡◌, refl, ◌∙◌, subst, ap, u64_max, Bool-cases,
  saturating_add, not, ◌&&◌, arith, min, Option, none, some, List, [], ◌∷◌, ◌++◌, true, false, inl,
  inr, length, drop, length-drop, length-append, ◌==◌,
}
use mathlib.Core.Option.{some-injective}
use hart_link.Wire.Decoder.State.{
  DecodeLimits, DecodeEvent, FrameDecoder, DecoderStep, discarding, no_candidate, need_more,
  rejecting, framing, discard, retain_possible_preambles, append_bounded, new_decoder,
  maximum_decode_events_per_push, maximum_decode_buffer_capacity,
}
use hart_link.Wire.Decoder.Analysis.{analyze}
use hart_link.Wire.Decoder.Run.{
  Round, returns, again, round, next_event_loop, next_event, collect, push, limit_events, is_empty,
}
use hart_link.Wire.Decoder.Termination.{Round-cases, next_event-cases, collect_total}

-- No more bytes are buffered than before, under the same limits.
pub record Shrinks (d d' : FrameDecoder) : Type 0 where
  pub fewer : length d'.bytes ≤ length d.bytes
  pub same_limits : d'.limits ≡ d.limits

Shrinks-trans : {a b c : FrameDecoder} → Shrinks a b → Shrinks b c → Shrinks a c
Shrinks-trans h k = record { fewer = omega arith; same_limits = k.same_limits ∙ h.same_limits }

pub discard-Shrinks : (d : FrameDecoder) (n : ℕ) → Shrinks d (discard d n)
unfolding discard
discard-Shrinks d n = record {
  fewer = omega (arith, length-drop (min n (length d.bytes)) d.bytes);
  same_limits = refl;
}

pub retain-Shrinks : (d : FrameDecoder) → Shrinks d (retain_possible_preambles d)
unfolding retain_possible_preambles
retain-Shrinks d = discard-Shrinks d _

abbrev state_of : Round → FrameDecoder
state_of (returns o d) = d
state_of (again d) = d

round-Shrinks : (s : DecoderStep) (d : FrameDecoder) → Shrinks d (state_of (round s d))
unfolding round discard
round-Shrinks no_candidate d = retain-Shrinks d
round-Shrinks need_more d = record { fewer = omega arith; same_limits = refl }
round-Shrinks (discarding n) d = discard-Shrinks d n
round-Shrinks (rejecting w n true) d = record {
  fewer = omega (arith, length-drop (min n (length d.bytes)) d.bytes);
  same_limits = refl;
}
round-Shrinks (rejecting w n false) d = discard-Shrinks d n
round-Shrinks (framing f n b) d = record {
  fewer = omega (arith, length-drop n d.bytes);
  same_limits = refl;
}

round-Shrinks_of :
    (s : DecoderStep) (d : FrameDecoder) (r : Round) → round s d ≡ r → Shrinks d (state_of r)
round-Shrinks_of s d r e = subst (λ x. Shrinks d (state_of x)) e (round-Shrinks s d)

next_event_loop-Shrinks :
    (fuel : ℕ) (d d' : FrameDecoder) (o : Option DecodeEvent)
    → next_event_loop fuel d ≡ some (o, d')
    → Shrinks d d'
unfolding next_event_loop
next_event_loop-Shrinks zero d d' o e = absurd (cc)
next_event_loop-Shrinks (suc fuel) d d' o e =
    elim (Round-cases (round (analyze d.bytes d.limits) d)) [
      | inl (o', d1, r) ↦
          let e' : ◌≡◌ {A = Option (Option DecodeEvent × FrameDecoder)} (some (o', d1))
              (some (o, d')) =
            rw (r, next_event_loop) at e in
          subst (Shrinks d)
            (ap (λ (x : Option DecodeEvent × FrameDecoder). x.1) (some-injective _ _ e'))
            (round-Shrinks_of (analyze d.bytes d.limits) d (returns o' d1) r)
      | inr (d1, r) ↦
          let e' : next_event_loop fuel d1 ≡ some (o, d') = rw (r, next_event_loop) at e in
          Shrinks-trans (round-Shrinks_of (analyze d.bytes d.limits) d (again d1) r)
            (next_event_loop-Shrinks fuel d1 d' o e')
    ]

pub next_event-Shrinks :
    (d d' : FrameDecoder) (o : Option DecodeEvent) → next_event d ≡ some (o, d') → Shrinks d d'
unfolding next_event
next_event-Shrinks d d' o e = next_event_loop-Shrinks (suc (length d.bytes)) d d' o e

abbrev Collected : FrameDecoder → ℕ → List DecodeEvent × FrameDecoder → Type 0
Collected d room (events, d') = Shrinks d d' × (length events ≤ room)

collect-Shrinks :
    (room : ℕ) (d : FrameDecoder) (r : List DecodeEvent × FrameDecoder)
    → collect room d ≡ some r
    → Collected d room r
unfolding collect
collect-Shrinks zero d r e =
    subst (Collected d 0) (some-injective _ _ e)
      (record { fewer = omega arith; same_limits = refl }, omega arith)
collect-Shrinks (suc room) d r e = elim (next_event-cases d) [
  | inl (d1, n) ↦
      let e' : some ([], d1) ≡ some r = rw (n, collect) at e in
      subst (Collected d (suc room)) (some-injective _ _ e')
        (next_event-Shrinks d d1 none n, omega arith)
  | inr (v, d1, n) ↦
      let ((events, d2), c) = collect_total room d1 in
      let e' : some (v ∷ events, d2) ≡ some r = rw (n, collect, c) at e in
      let rest = collect-Shrinks room d1 (events, d2) c in
      subst (Collected d (suc room)) (some-injective _ _ e')
        (Shrinks-trans (next_event-Shrinks d d1 (some v) n) rest.0, omega (arith, rest.1))
]

-- The buffer holds no more than the limits allow, and the limits are those of `new`.
pub record IsBounded (d : FrameDecoder) : Type 0 where
  pub within : length d.bytes ≤ d.limits.buffer_capacity
  pub capacity : d.limits.buffer_capacity ≤ maximum_decode_buffer_capacity

pub new_decoder-IsBounded : (l : DecodeLimits) → IsBounded (new_decoder l)
unfolding new_decoder
new_decoder-IsBounded l = record { within = omega arith; capacity = omega arith }

append_bounded-IsBounded :
    (d : FrameDecoder) (fragment : List ℕ)
    → IsBounded d
    → length fragment < 2 ^ 63
    → IsBounded (append_bounded d fragment)
unfolding append_bounded
append_bounded-IsBounded d fragment b h =
    let over = min (length d.bytes + length fragment) u64_max - d.limits.buffer_capacity in
    let from_buffer = min over (length d.bytes) in
    let from_fragment = min (over - from_buffer) (length fragment) in
    let kept_length : length (drop from_buffer d.bytes ++ drop from_fragment fragment)
        ≡ (length d.bytes - from_buffer) + (length fragment - from_fragment) =
      omega (
        arith,
        length-append (drop from_buffer d.bytes) (drop from_fragment fragment),
        length-drop from_buffer d.bytes,
        length-drop from_fragment fragment,
      ) in
    elim (Bool-cases (over == 0)) [
      | inl fits ↦ rw fits (record {
        within = ground (arith, length-append d.bytes fragment, b.within, b.capacity);
        capacity = b.capacity;
      })
      | inr more ↦ rw more (record {
        within = omega (arith, b.within, b.capacity, kept_length);
        capacity = b.capacity;
      })
    ]

limit_events-Shrinks : (es : List DecodeEvent) (d : FrameDecoder) → Shrinks d (limit_events es d)
unfolding limit_events
limit_events-Shrinks es d =
    elim (Bool-cases ((length es == maximum_decode_events_per_push) && not (is_empty d.bytes))) [
      | inl over ↦ rw over (record {
        fewer = (retain-Shrinks (hit d)).fewer;
        same_limits = (retain-Shrinks (hit d)).same_limits;
      })
      | inr few ↦ rw few (record { fewer = omega arith; same_limits = refl })
    ]
  where
    hit : FrameDecoder → FrameDecoder
    hit d = record d {
      statistics = record (d.statistics) {
        event_limit_hits = saturating_add d.statistics.event_limit_hits 1;
      };
    }

append_bounded-limits :
    (d : FrameDecoder) (fragment : List ℕ) → (append_bounded d fragment).limits ≡ d.limits
unfolding append_bounded
append_bounded-limits d fragment = ground arith

abbrev Bounded : FrameDecoder → List DecodeEvent × FrameDecoder → Type 0
Bounded d (events, d') =
    IsBounded d' × (length events ≤ maximum_decode_events_per_push) × (d'.limits ≡ d.limits)

-- From a bounded decoder and for a fragment below 2 ^ 63 bytes, `push` keeps the buffer within its
-- limit, reports at most 4096 events, and leaves the limits alone.
pub push-IsBounded :
    (d d' : FrameDecoder) (fragment : List ℕ) (events : List DecodeEvent)
    → IsBounded d
    → length fragment < 2 ^ 63
    → push d fragment ≡ some (events, d')
    → IsBounded d' × (length events ≤ maximum_decode_events_per_push) × (d'.limits ≡ d.limits)
unfolding push
push-IsBounded d d' fragment events b h e =
    let d0 = append_bounded d fragment in
    let b0 = append_bounded-IsBounded d fragment b h in
    let ((es, d1), c) = collect_total maximum_decode_events_per_push d0 in
    let out = some-injective (es, limit_events es d1) (events, d') (rw (c, push) at e) in
    let (s, few) = collect-Shrinks maximum_decode_events_per_push d0 (es, d1) c in
    let t = Shrinks-trans s (limit_events-Shrinks es d1) in
    let limits : (limit_events es d1).limits ≡ d.limits =
      t.same_limits ∙ append_bounded-limits d fragment in
    subst (λ (r : List DecodeEvent × FrameDecoder). Bounded d r) out
      (
        record {
          within = rw (t.same_limits) (omega (arith, b0.within, t.fewer));
          capacity = rw (t.same_limits) b0.capacity;
        },
        few,
        limits,
      )
