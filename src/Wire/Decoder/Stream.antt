-- ===== src/Wire/Decoder/Stream.antt =====
-- Frames sent one after another are received in order, however the stream is cut into fragments.
pub mod Feed
use mathlib.Core.List.{append_assoc, append-nil, reverse, reverse-cons, map-append}
use hart_link.Common.{
  ℕ, zero, suc, ◌+◌, ◌-◌, ◌≤◌, ◌<◌, min, ◌≡◌, refl, arith, ap, sym, subst, ◌∙◌, ◌⊎◌, inl, inr, Bool,
  true, false, not, ◌&&◌, Option, none, some, List, [], ◌∷◌, ◌++◌, map, length, length-append,
  length-replicate, drop, drop-append, replicate, replicate_snoc, All, append_split, append-eq-nil,
  All-append_right, length-map, flatten, leb, saturating_add, u64_max, u8_max, ◌==◌, if◌then◌else◌,
  Result, ok, ◌>>=◌,
}
use hart_link.Wire.Address.{WireError}
use hart_link.Wire.Frame.{Frame, encode, max_encoded_frame_size}
use hart_link.Wire.Frame.Layout.{IsFrame, frame_bytes, encode_lem, length-frame_bytes}
use hart_link.Wire.Decoder.State.{
  DecodeLimits, DecodeEvent, received, FrameDecoder, DecoderStep, framing, no_candidate, need_more,
  discard, retain_possible_preambles, append_bounded, count_ones, maximum_decode_events_per_push,
}
use hart_link.Wire.Decoder.Analysis.{analyze}
use hart_link.Wire.Decoder.Run.{
  returns, round, next_event_loop, next_event, collect, limit_events, push,
}
use hart_link.Wire.Decoder.Search.{find_candidate-only_preambles}
use hart_link.Wire.Decoder.Reading.{analyze-frame_bytes}
use hart_link.Wire.Decoder.Reading.Prefix.{analyze-prefix}

lt-cases : (a b : ℕ) → (a < b) ⊎ (b ≤ a)
lt-cases a b = ground arith

-- The frame fits the wire, and has the preambles that the receiver asks for.
pub record Sendable (limits : DecodeLimits) (f : Frame) : Type 0 where
  pub fits : IsFrame f
  pub enough : limits.minimum_preambles ≤ f.preambles

count_ones-replicate : (n : ℕ) → count_ones (replicate n 0xff) ≡ n
unfolding count_ones
count_ones-replicate zero = refl
count_ones-replicate (suc n) = ap suc (count_ones-replicate n)

reverse-replicate : (n a : ℕ) → reverse (replicate n a) ≡ replicate n a
reverse-replicate zero a = refl
reverse-replicate (suc n) a =
    reverse-cons a (replicate n a)
    ∙ ap (λ (t : List ℕ). t ++ a ∷ []) (reverse-replicate n a)
    ∙ replicate_snoc n a

-- A buffer of preambles is kept whole.
retain_preambles :
    (d : FrameDecoder)
    → d.bytes ≡ replicate (length d.bytes) 0xff
    → length d.bytes ≤ 255
    → (retain_possible_preambles d).bytes ≡ d.bytes
unfolding retain_possible_preambles discard
retain_preambles d ones few =
    let counted : count_ones (reverse d.bytes) ≡ length d.bytes =
      ap (λ (t : List ℕ). count_ones (reverse t)) ones
      ∙ ap count_ones (reverse-replicate (length d.bytes) 0xff)
      ∙ count_ones-replicate (length d.bytes) in
    let nothing : min (length d.bytes - min (count_ones (reverse d.bytes)) u8_max) (length d.bytes)
        ≡ 0 =
      omega arith in
    rw nothing

retain-limits : (d : FrameDecoder) → (retain_possible_preambles d).limits ≡ d.limits
unfolding retain_possible_preambles discard
retain-limits d = refl

next_event_returns :
    (d d' : FrameDecoder) (s : DecoderStep) (o : Option DecodeEvent)
    → analyze d.bytes d.limits ≡ s
    → round s d ≡ returns o d'
    → next_event d ≡ some (o, d')
unfolding next_event next_event_loop
next_event_returns d d' s o e r =
    let returned : round (analyze d.bytes d.limits) d ≡ returns o d' =
      ap (λ (x : DecoderStep). round x d) e ∙ r in
    rw (returned, next_event_loop)

-- No event comes of a buffer that ends inside a frame, and the buffer stays.
next_event_inside :
    (d : FrameDecoder) (f : Frame) (rest more : List ℕ)
    → Sendable d.limits f
    → d.bytes ++ more ≡ frame_bytes f ++ rest
    → length d.bytes < length (frame_bytes f)
    → (d' : FrameDecoder) × (next_event d ≡ some (none, d'))
      × (d'.bytes ≡ d.bytes)
      × (d'.limits ≡ d.limits)
unfolding round
next_event_inside d f rest more s same short =
    elim (analyze-prefix f s.fits rest d.bytes more d.limits same s.enough short) [
      | inl (e, ones, few) ↦ (
        retain_possible_preambles d,
        next_event_returns d _ no_candidate none e refl,
        retain_preambles d ones few,
        retain-limits d,
      )
      | inr e ↦ (d, next_event_returns d d need_more none e refl, refl, refl)
    ]

abbrev pub stream_of : List Frame → List ℕ
stream_of [] = []
stream_of (f ∷ fs) = frame_bytes f ++ stream_of fs

-- The buffer holds no whole frame.
abbrev pub Inside : List ℕ → List Frame → Type 0
Inside bytes [] = Unit
Inside bytes (f ∷ fs) = length bytes < length (frame_bytes f)

-- What `collect` makes of a buffer inside a stream of frames: the whole frames at the front are
-- events, and what is left is where the remaining frames begin.
pub record Drained (room : ℕ) (d : FrameDecoder) (fs : List Frame) (more : List ℕ) : Type 0 where
  pub gone : List Frame
  pub left : List Frame
  pub after : FrameDecoder
  pub whole : fs ≡ gone ++ left
  pub events : collect room d ≡ some (map received gone, after)
  pub tail : after.bytes ++ more ≡ stream_of left
  pub same_limits : after.limits ≡ d.limits
  pub few : length gone + length after.bytes ≤ length d.bytes
  pub inside : Inside after.bytes left
  pub short : length after.bytes ≤ max_encoded_frame_size

-- The decoder after a frame that needed no repair.
abbrev took : FrameDecoder → List ℕ → FrameDecoder
took d b = record d {
  bytes = b;
  statistics = record (d.statistics) { frames = saturating_add d.statistics.frames 1 };
}

next_event_frame :
    (d : FrameDecoder) (f : Frame) (b : List ℕ)
    → Sendable d.limits f
    → d.bytes ≡ frame_bytes f ++ b
    → next_event d ≡ some (some (received f), took d b)
next_event_frame d f b s e =
    next_event_returns d (took d b) (framing f (length (frame_bytes f)) false) (some (received f))
      (ap (λ (t : List ℕ). analyze t d.limits) e ∙ analyze-frame_bytes f s.fits b d.limits s.enough)
      (unfold round in ap (λ (t : List ℕ). returns (some (received f)) (took d t)) dropped)
  where
    dropped : drop (length (frame_bytes f)) d.bytes ≡ b
    dropped = ap (drop (length (frame_bytes f))) e ∙ drop-append (frame_bytes f) b

collect_nothing :
    (room : ℕ) (d d' : FrameDecoder)
    → next_event d ≡ some (none, d')
    → collect (suc room) d ≡ some ([], d')
unfolding collect
collect_nothing room d d' e = rw (e, collect)

collect_one :
    (room : ℕ) (d d1 d2 : FrameDecoder) (v : DecodeEvent) (vs : List DecodeEvent)
    → next_event d ≡ some (some v, d1)
    → collect room d1 ≡ some (vs, d2)
    → collect (suc room) d ≡ some (v ∷ vs, d2)
unfolding collect
collect_one room d d1 d2 v vs e r = rw (e, collect, r)

analyze-nil : (limits : DecodeLimits) → analyze [] limits ≡ no_candidate
unfolding analyze
analyze-nil limits = rw (find_candidate-only_preambles limits 0, analyze)

pub collect-Drained :
    (fs : List Frame) (room : ℕ) (d : FrameDecoder) (more : List ℕ)
    → All (Sendable d.limits) fs
    → d.bytes ++ more ≡ stream_of fs
    → length d.bytes < room
    → Drained room d fs more
collect-Drained fs zero d more s e h = absurd (omega arith)
collect-Drained [] (suc room) d more s e h =
    let nothing = append-eq-nil d.bytes more e in
    let ones : d.bytes ≡ replicate (length d.bytes) 0xff =
      nothing ∙ ap (λ (t : List ℕ). replicate (length t) 0xff) (sym nothing) in
    let kept = retain_preambles d ones (omega (arith, ap length nothing)) in
    record {
      gone = [];
      left = [];
      after = retain_possible_preambles d;
      whole = refl;
      events = collect_nothing room d _ (
          next_event_returns d (retain_possible_preambles d) no_candidate none
            (ap (λ (t : List ℕ). analyze t d.limits) nothing ∙ analyze-nil d.limits)
            (unfold round in refl));
      tail = ap (λ (t : List ℕ). t ++ more) kept ∙ e;
      same_limits = retain-limits d;
      few = omega (arith, ap length kept);
      inside = tt;
      short = omega (arith, ap length kept, ap length nothing);
    }
collect-Drained (f ∷ fs) (suc room) d more s e h =
    elim (lt-cases (length d.bytes) (length (frame_bytes f))) [
      | inl short ↦
          let (d', n, b, l) = next_event_inside d f (stream_of fs) more s.0 e short in
          record {
            gone = [];
            left = f ∷ fs;
            after = d';
            whole = refl;
            events = collect_nothing room d d' n;
            tail = ap (λ (t : List ℕ). t ++ more) b ∙ e;
            same_limits = l;
            few = omega (arith, ap length b);
            inside = omega (arith, ap length b);
            short = omega (arith, ap length b, length-frame_bytes f s.0.fits);
          }
      | inr long ↦
          let (b, front, rest) = append_split (frame_bytes f) d.bytes (stream_of fs) more e long in
          let lengths = ap length front ∙ length-append (frame_bytes f) b in
          let r =
            collect-Drained fs room (took d b) more s.1 rest
              (omega (arith, lengths, length-frame_bytes f s.0.fits)) in
          record {
            gone = f ∷ r.gone;
            left = r.left;
            after = r.after;
            whole = ap (◌∷◌ f) r.whole;
            events =
                collect_one room d (took d b) r.after (received f) _
                  (next_event_frame d f b s.0 front) r.events;
            tail = r.tail;
            same_limits = r.same_limits;
            few = omega (arith, lengths, r.few, length-frame_bytes f s.0.fits);
            inside = r.inside;
            short = r.short;
          }
    ]
