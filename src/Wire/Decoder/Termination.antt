-- ===== src/Wire/Decoder/Termination.antt =====
-- The loops of `next_event` and `push` end: the fuel given is enough.
use hart_link.Common.{
  ℕ, zero, suc, ◌-◌, ◌<◌, ◌≡◌, ◌≢◌, refl, arith, min, Option, none, some, List, [], ◌∷◌, ◌⊎◌, inl,
  inr, length, length-drop,
}
use hart_link.Wire.Frame.{FrameRepair}
use hart_link.Wire.Decoder.State.{
  DecodeLimits, DecodeEvent, FrameDecoder, DecoderStep, no_candidate, need_more, discarding,
  rejecting, framing, discard, append_bounded, maximum_decode_events_per_push,
}
use hart_link.Wire.Decoder.Candidate.{find_candidate, candidate_from}
use hart_link.Wire.Decoder.Analysis.{build_frame, analyze_at, analyze}
use hart_link.Wire.Decoder.Run.{
  Round, returns, again, round, next_event_loop, next_event, collect, push, limit_events,
}

build_frame-ne-discarding :
    (bytes : List ℕ) (i c d : ℕ) (r : Option FrameRepair) (n : ℕ)
    → build_frame bytes i c d r ≢ discarding n
unfolding build_frame
build_frame-ne-discarding bytes i c d r n e = ground arith

analyze_at-ne-discarding :
    (bytes : List ℕ) (limits : DecodeLimits) (i c n : ℕ)
    → analyze_at bytes limits i c ≢ discarding n
unfolding analyze_at
analyze_at-ne-discarding bytes limits i c n e = grind (arith, build_frame-ne-discarding)

-- What is discarded before a candidate is something.
analyze-discarding :
    (bytes : List ℕ) (limits : DecodeLimits) (n : ℕ)
    → analyze bytes limits ≡ discarding n
    → (0 < n) × (0 < length bytes)
unfolding analyze find_candidate
analyze-discarding [] limits n e = absurd (unfold candidate_from in cc)
analyze-discarding (b ∷ bytes) limits n e = grind (arith, analyze_at-ne-discarding)

length-discard : (d : FrameDecoder) (n : ℕ) → length (discard d n).bytes ≡ length d.bytes - n
unfolding discard
length-discard d n = omega (arith, length-drop (min n (length d.bytes)) d.bytes)

-- A round that goes round again has discarded bytes before a candidate, and nothing else.
pub round_again :
    (s : DecoderStep) (d d' : FrameDecoder)
    → round s d ≡ again d'
    → (n : ℕ) × (s ≡ discarding n) × (d' ≡ discard d n)
unfolding round
round_again (discarding n) d d' e = (n, refl, cc)
round_again no_candidate d d' e = cc
round_again need_more d d' e = cc
round_again (rejecting w n b) d d' e = cc
round_again (framing f n b) d d' e = cc

round_shrinks :
    (d d' : FrameDecoder)
    → round (analyze d.bytes d.limits) d ≡ again d'
    → length d'.bytes < length d.bytes
round_shrinks d d' e =
    let (n, found, moved) = round_again (analyze d.bytes d.limits) d d' e in
    rw moved (omega (arith, length-discard d n, analyze-discarding d.bytes d.limits n found))

pub Round-cases :
    (r : Round)
    → ((o : Option DecodeEvent) × (d : FrameDecoder) × (r ≡ returns o d))
      ⊎ ((d : FrameDecoder) × (r ≡ again d))
Round-cases (returns o d) = inl (o, d, refl)
Round-cases (again d) = inr (d, refl)

next_event_loop_total :
    (fuel : ℕ) (d : FrameDecoder)
    → length d.bytes < fuel
    → (r : Option DecodeEvent × FrameDecoder) × (next_event_loop fuel d ≡ some r)
unfolding next_event_loop
next_event_loop_total zero d h = absurd (omega arith)
next_event_loop_total (suc fuel) d h = elim (Round-cases (round (analyze d.bytes d.limits) d)) [
  | inl (o, d', e) ↦ ((o, d'), rw (e, next_event_loop))
  | inr (d', e) ↦
      rw (e, next_event_loop) (next_event_loop_total fuel d' (omega (arith, round_shrinks d d' e)))
]

-- `next_event` returns from every state.
pub next_event_total :
    (d : FrameDecoder) → (r : Option DecodeEvent × FrameDecoder) × (next_event d ≡ some r)
unfolding next_event
next_event_total d = next_event_loop_total (suc (length d.bytes)) d (omega arith)

-- `next_event` returns without an event, or with one.
pub next_event-cases :
    (d : FrameDecoder)
    → ((d' : FrameDecoder) × (next_event d ≡ some (none, d')))
      ⊎ ((v : DecodeEvent) × (d' : FrameDecoder) × (next_event d ≡ some (some v, d')))
next_event-cases d = go (next_event_total d)
  where
    go :
        (r : Option DecodeEvent × FrameDecoder) × (next_event d ≡ some r)
        → ((d' : FrameDecoder) × (next_event d ≡ some (none, d')))
          ⊎ ((v : DecodeEvent) × (d' : FrameDecoder) × (next_event d ≡ some (some v, d')))
    go ((none, d'), e) = inl (d', e)
    go ((some v, d'), e) = inr (v, d', e)

pub collect_total :
    (room : ℕ) (d : FrameDecoder)
    → (r : List DecodeEvent × FrameDecoder) × (collect room d ≡ some r)
unfolding collect
collect_total zero d = (([], d), refl)
collect_total (suc room) d = elim (next_event-cases d) [
  | inl (d', e) ↦ (([], d'), rw (e, collect))
  | inr (v, d', e) ↦
      let ((events, d''), rest) = collect_total room d' in
      ((v ∷ events, d''), rw (e, collect, rest))
]

-- `push` returns from every state and for every fragment: the fuel of its loops is enough.
pub push_total :
    (d : FrameDecoder) (fragment : List ℕ)
    → (r : List DecodeEvent × FrameDecoder) × (push d fragment ≡ some r)
unfolding push
push_total d fragment =
    let ((events, d'), e) =
      collect_total maximum_decode_events_per_push (append_bounded d fragment) in
    ((events, limit_events events d'), rw (e, push))
