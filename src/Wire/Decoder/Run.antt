-- ===== src/Wire/Decoder/Run.antt =====
-- src/wire/decoder.rs: `next_event` and `push`. The `loop` of `next_event` takes fuel, one round for
-- each buffered byte and one more; `none` is an exhausted fuel.
use hart_link.Common.{
  ℕ, zero, suc, Bool, true, false, not, ◌&&◌, Option, none, some, List, [], ◌∷◌, length, drop, ◌==◌,
  if◌then◌else◌, saturating_add,
}
use hart_link.Wire.Decoder.State.{
  DecodeEvent, received, refused, FrameDecoder, DecoderStep, no_candidate, need_more, discarding,
  rejecting, framing, discard, retain_possible_preambles, append_bounded,
  maximum_decode_events_per_push,
}
use hart_link.Wire.Decoder.Analysis.{analyze}

-- One round of the loop returns with an event or without one, or goes round again.
pub data Round : Type 0 where
  returns : Option DecodeEvent → FrameDecoder → Round
  again : FrameDecoder → Round

unfoldable pub round : DecoderStep → FrameDecoder → Round
round no_candidate d = returns none (retain_possible_preambles d)
round need_more d = returns none d
round (discarding count) d = again (discard d count)
round (rejecting error consumed checksum_failure) d =
    let counted =
      if checksum_failure
      then record d {
        statistics = record (d.statistics) {
          checksum_failures = saturating_add d.statistics.checksum_failures 1;
        };
      }
      else d in
    returns (some (refused error)) (discard counted consumed)
round (framing frame consumed repaired) d = returns (some (received frame)) (record d {
  bytes = drop consumed d.bytes;
  statistics = record (d.statistics) {
    frames = saturating_add d.statistics.frames 1;
    repaired_frames =
        if repaired
        then saturating_add d.statistics.repaired_frames 1
        else d.statistics.repaired_frames;
  };
})

unfoldable pub next_event_loop : ℕ → FrameDecoder → Option (Option DecodeEvent × FrameDecoder)
next_event_loop zero d = none
next_event_loop (suc fuel) d = elim (round (analyze d.bytes d.limits) d) [
  | returns event d' ↦ some (event, d')
  | again d' ↦ next_event_loop fuel d'
]

unfoldable pub next_event : FrameDecoder → Option (Option DecodeEvent × FrameDecoder)
next_event d = next_event_loop (suc (length d.bytes)) d

-- The loop of `push`, with the number of events that it may still collect.
unfoldable pub collect : ℕ → FrameDecoder → Option (List DecodeEvent × FrameDecoder)
collect zero d = some ([], d)
collect (suc room) d = elim (next_event d) [
  | none ↦ none
  | some (none, d') ↦ some ([], d')
  | some (some event, d') ↦ elim (collect room d') [
    | none ↦ none
    | some (events, d'') ↦ some (event ∷ events, d'')
  ]
]

abbrev pub is_empty {ℓ} : {A : Type ℓ} → List A → Bool
is_empty [] = true
is_empty (x ∷ xs) = false

-- The end of `push`: after too many events only the preambles at the end are kept.
unfoldable pub limit_events : List DecodeEvent → FrameDecoder → FrameDecoder
limit_events events d =
    if (length events == maximum_decode_events_per_push) && not (is_empty d.bytes)
    then retain_possible_preambles (record d {
      statistics = record (d.statistics) {
        event_limit_hits = saturating_add d.statistics.event_limit_hits 1;
      };
    })
    else d

unfoldable pub push : FrameDecoder → List ℕ → Option (List DecodeEvent × FrameDecoder)
push d fragment = elim (collect maximum_decode_events_per_push (append_bounded d fragment)) [
  | none ↦ none
  | some (events, d') ↦ some (events, limit_events events d')
]
