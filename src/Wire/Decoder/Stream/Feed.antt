-- ===== src/Wire/Decoder/Stream/Feed.antt =====
-- A stream of frames pushed in fragments of any cut.
use mathlib.Core.List.{append_assoc, map-append}
use hart_link.Common.{
  ℕ, ◌+◌, ◌-◌, ◌≤◌, ◌<◌, min, ◌≡◌, refl, arith, ap, sym, subst, ◌∙◌, true, false, Option, none,
  some, List, [], ◌∷◌, ◌++◌, map, length, length-append, length-map, append-eq-nil, All,
  All-append_right, flatten, u64_max, ◌==◌, Result, ok, ok_inj, ◌>>=◌,
}
use hart_link.Wire.Address.{WireError}
use hart_link.Wire.Frame.{Frame, encode, max_encoded_frame_size}
use hart_link.Wire.Frame.Layout.{frame_bytes, encode_lem, length-frame_bytes}
use hart_link.Wire.Decoder.State.{
  DecodeLimits, DecodeEvent, received, FrameDecoder, append_bounded, new_decoder, clamp_limits,
  maximum_decode_events_per_push,
}
use hart_link.Wire.Decoder.Run.{collect, limit_events, push}
use hart_link.Wire.Decoder.Stream.{Sendable, Inside, stream_of, collect-Drained}

-- The fragments pushed in order, with the events of all of them.
unfoldable pub feed : FrameDecoder → List (List ℕ) → Option (List DecodeEvent × FrameDecoder)
feed d [] = some ([], d)
feed d (fragment ∷ rest) = elim (push d fragment) [
  | none ↦ none
  | some (events, d') ↦ elim (feed d' rest) [
    | none ↦ none
    | some (later, d'') ↦ some (events ++ later, d'')
  ]
]

-- The frames encoded one after another.
unfoldable pub encode_all : List Frame → Result WireError (List ℕ)
encode_all [] = ok []
encode_all (f ∷ fs) = do bytes ← encode f; rest ← encode_all fs; ok (bytes ++ rest)

-- The fragment fits the buffer beside the beginning of a frame, and is too small for 4096 events.
abbrev pub FitsBuffer : DecodeLimits → List ℕ → Type 0
FitsBuffer l fragment =
    (length fragment + max_encoded_frame_size ≤ l.buffer_capacity)
    × (length fragment + max_encoded_frame_size < maximum_decode_events_per_push)

append_whole :
    (d : FrameDecoder) (y : List ℕ)
    → length d.bytes + length y ≤ d.limits.buffer_capacity
    → append_bounded d y ≡ record d { bytes = d.bytes ++ y }
unfolding append_bounded
append_whole d y h =
    let none_over : (min (length d.bytes + length y) u64_max - d.limits.buffer_capacity == 0)
        ≡ true =
      ground arith in
    rw none_over

few_events :
    (events : List DecodeEvent) (d : FrameDecoder)
    → length events < maximum_decode_events_per_push
    → limit_events events d ≡ d
unfolding limit_events
few_events events d h =
    let under : (length events == maximum_decode_events_per_push) ≡ false = ground arith in rw under

push_one :
    (d d' : FrameDecoder) (y : List ℕ) (events : List DecodeEvent)
    → collect maximum_decode_events_per_push (append_bounded d y) ≡ some (events, d')
    → limit_events events d' ≡ d'
    → push d y ≡ some (events, d')
unfolding push
push_one d d' y events e l = rw (e, push, l)

feed_one :
    (d d1 d2 : FrameDecoder) (y : List ℕ) (ys : List (List ℕ)) (es fs : List DecodeEvent)
    → push d y ≡ some (es, d1)
    → feed d1 ys ≡ some (fs, d2)
    → feed d (y ∷ ys) ≡ some (es ++ fs, d2)
unfolding feed
feed_one d d1 d2 y ys es fs e r = rw (e, feed, r)

nothing_left :
    (bytes : List ℕ) (fs : List Frame) → bytes ++ [] ≡ stream_of fs → Inside bytes fs → fs ≡ []
nothing_left bytes [] e i = refl
nothing_left bytes (f ∷ fs) e i = absurd (
    omega
      (arith, i, ap length e, length-append bytes [], length-append (frame_bytes f) (stream_of fs)))

feed-stream_of :
    (ys : List (List ℕ)) (fs : List Frame) (d : FrameDecoder)
    → All (Sendable d.limits) fs
    → All (FitsBuffer d.limits) ys
    → d.bytes ++ flatten ys ≡ stream_of fs
    → Inside d.bytes fs
    → length d.bytes ≤ max_encoded_frame_size
    → (d' : FrameDecoder) × (feed d ys ≡ some (map received fs, d')) × (d'.bytes ≡ [])
unfolding feed
feed-stream_of [] fs d s t e i h =
    let done = nothing_left d.bytes fs e i in
    (
      d,
      ap (λ (g : List Frame). some (map received g, d)) (sym done),
      append-eq-nil d.bytes [] (e ∙ ap stream_of done),
    )
feed-stream_of (y ∷ ys) fs d s t e i h =
    let d0 : FrameDecoder = record d { bytes = d.bytes ++ y } in
    let r =
      collect-Drained fs maximum_decode_events_per_push d0 (flatten ys) s
        (append_assoc d.bytes y (flatten ys) ∙ e) (omega (arith, length-append d.bytes y, t.0)) in
    let few =
      few_events (map received r.gone) r.after
        (omega (arith, length-map r.gone received, r.few, length-append d.bytes y, t.0)) in
    let pushed =
      push_one d r.after y (map received r.gone)
        (ap (collect maximum_decode_events_per_push) (append_whole d y (omega (arith, t.0)))
          ∙ r.events)
        few in
    let sendable =
      subst (λ l. All (Sendable l) r.left) (sym r.same_limits)
        (All-append_right (Sendable d.limits) r.gone r.left
          (subst (All (Sendable d.limits)) r.whole s)) in
    let fits = subst (λ l. All (FitsBuffer l) ys) (sym r.same_limits) t.1 in
    let (d', fed, empty) = feed-stream_of ys r.left r.after sendable fits r.tail r.inside r.short in
    (
      d',
      feed_one d r.after d' y ys _ _ pushed fed
          ∙ ap (λ (es : List DecodeEvent). some (es, d'))
              (sym (map-append received r.gone r.left) ∙ ap (map received) (sym r.whole)),
      empty,
    )

encode_all_lem :
    (l : DecodeLimits) (fs : List Frame) → All (Sendable l) fs → encode_all fs ≡ ok (stream_of fs)
unfolding encode_all
encode_all_lem l [] s = refl
encode_all_lem l (f ∷ fs) s =
    rw (encode_lem f s.0.fits.expansion_fits s.0.fits.payload_fits, encode_all_lem l fs s.1)

Inside-nil : (l : DecodeLimits) (fs : List Frame) → All (Sendable l) fs → Inside [] fs
Inside-nil l [] s = tt
Inside-nil l (f ∷ fs) s = (length-frame_bytes f s.0.fits).0

-- Frames that fit the wire and are encoded one after another: a new decoder that is given their bytes in any
-- fragments, each of fewer than 3574 bytes and small enough for its buffer behind a frame that is incomplete,
-- receives exactly these frames in their order, and keeps no byte. The bound on a fragment keeps it below the
-- 4096 events that one push returns. This holds under every checksum policy.
pub feed-encode_all :
    (l : DecodeLimits) (fs : List Frame) (ys : List (List ℕ))
    → All (Sendable (clamp_limits l)) fs
    → encode_all fs ≡ ok (flatten ys)
    → All (FitsBuffer (clamp_limits l)) ys
    → (d' : FrameDecoder) × (feed (new_decoder l) ys ≡ some (map received fs, d')) × (d'.bytes ≡ [])
unfolding new_decoder
feed-encode_all l fs ys s e t =
    feed-stream_of ys fs (new_decoder l) s t (ok_inj (sym e ∙ encode_all_lem (clamp_limits l) fs s))
      (Inside-nil (clamp_limits l) fs s) (omega arith)
