-- ===== src/Wire/Tests.antt =====
-- Runs of the wire's theorems at concrete frames.
use hart_link.Common.{
  ℕ, ◌≤◌, ◌≡◌, refl, arith, All, true, false, none, some, List, [], ◌∷◌, ◌++◌, map, length, ok,
  flatten,
}
use hart_link.Wire.Address.{encoded_len, polling, unique, primary, secondary, read_from, write_to}
use hart_link.Wire.Address.Laws.{read_from-write_to}
use hart_link.Wire.Frame.{
  is_burst, Frame, request, response, burst, fsk, psk, encode, delimiter_byte, xor_checksum,
  xor_fold,
}
use hart_link.Wire.Frame.Delimiter.{ReadsBack, delimiter_byte-ReadsBack}
use hart_link.Wire.Frame.Layout.{IsFrame, frame_bytes}
use hart_link.Wire.Decoder.State.{
  DecodeEvent, received, FrameDecoder, default_limits, new_decoder, clamp_limits, framing,
  maximum_decode_events_per_push,
}
use hart_link.Wire.Decoder.Analysis.{analyze}
use hart_link.Wire.Decoder.Run.{push}
use hart_link.Wire.Decoder.Reading.{analyze-frame_bytes}
use hart_link.Wire.Decoder.Termination.{push_total}
use hart_link.Wire.Decoder.Bounds.{IsBounded, new_decoder-IsBounded, push-IsBounded}
use hart_link.Wire.Decoder.Stream.{Sendable}
use hart_link.Wire.Decoder.Stream.Feed.{FitsBuffer, feed, encode_all, feed-encode_all}

-- A read request to polling address 0, and an answer from a unique address.
abbrev question : Frame
question = record {
  preambles = 5;
  kind = request;
  physical_layer = fsk;
  address = polling 0 primary;
  expansion = [];
  wire_command = 0;
  payload = [];
  repair = none;
}

abbrev answer : Frame
answer = record {
  preambles = 2;
  kind = response;
  physical_layer = fsk;
  address = unique 0x1234 0x56789a primary;
  expansion = [];
  wire_command = 3;
  payload = 0 ∷ 0x50 ∷ [];
  repair = none;
}

abbrev frames : List Frame
frames = question ∷ answer ∷ []

-- The bytes of both frames, cut inside the preambles and inside the bodies.
abbrev fragments : List (List ℕ)
fragments =
    (255 ∷ 255 ∷ 255 ∷ [])
    ∷ (255 ∷ 255 ∷ 2 ∷ 128 ∷ [])
    ∷ (0 ∷ 0 ∷ 130 ∷ 255 ∷ [])
    ∷ (255 ∷ 134 ∷ 146 ∷ 0x34 ∷ 0x56 ∷ 0x78 ∷ 0x9a ∷ [])
    ∷ (3 ∷ 2 ∷ 0 ∷ 0x50 ∷ 197 ∷ [])
    ∷ []

question-IsFrame : IsFrame question
question-IsFrame = record {
  preambles_fit = omega arith;
  address_fits = omega arith;
  expansion_fits = omega arith;
  payload_fits = omega arith;
  unrepaired = refl;
}

answer-IsFrame : IsFrame answer
answer-IsFrame = record {
  preambles_fit = omega arith;
  address_fits = (omega arith, omega arith);
  expansion_fits = omega arith;
  payload_fits = omega arith;
  unrepaired = refl;
}

question-Sendable : Sendable (clamp_limits default_limits) question
unfolding clamp_limits
question-Sendable = record { fits = question-IsFrame; enough = omega arith }

answer-Sendable : Sendable (clamp_limits default_limits) answer
unfolding clamp_limits
answer-Sendable = record { fits = answer-IsFrame; enough = omega arith }

frames_encoded : encode_all frames ≡ ok (flatten fragments)
unfolding encode_all encode write_to delimiter_byte xor_checksum xor_fold encoded_len is_burst
frames_encoded = refl

fragments_fit : All (FitsBuffer (clamp_limits default_limits)) fragments
unfolding clamp_limits
fragments_fit = omega arith

feed-encode_all_example :
    (d' : FrameDecoder) × (feed (new_decoder default_limits) fragments
      ≡ some (map received frames, d'))
    × (d'.bytes ≡ [])
feed-encode_all_example =
    feed-encode_all default_limits frames fragments (question-Sendable, (answer-Sendable, tt))
      frames_encoded fragments_fit

-- Noise before a cut frame.
abbrev noise : List ℕ
noise = 1 ∷ 255 ∷ 255 ∷ 255 ∷ 2 ∷ 128 ∷ 0 ∷ 0 ∷ 131 ∷ 255 ∷ []

push_total_example :
    (r : List DecodeEvent × FrameDecoder) × (push (new_decoder default_limits) noise ≡ some r)
push_total_example = push_total (new_decoder default_limits) noise

abbrev noise_run :
    (r : List DecodeEvent × FrameDecoder) × (push (new_decoder default_limits) noise ≡ some r)
noise_run = push_total (new_decoder default_limits) noise

push-IsBounded_example :
    IsBounded noise_run.0.1
    × (length noise_run.0.0 ≤ maximum_decode_events_per_push)
    × (noise_run.0.1.limits ≡ (new_decoder default_limits).limits)
push-IsBounded_example =
    push-IsBounded (new_decoder default_limits) noise_run.0.1 noise noise_run.0.0
      (new_decoder-IsBounded default_limits) (omega arith) noise_run.1

analyze-frame_bytes_example :
    analyze (frame_bytes answer ++ 255 ∷ 7 ∷ []) default_limits
    ≡ framing answer (length (frame_bytes answer)) false
analyze-frame_bytes_example =
    analyze-frame_bytes answer answer-IsFrame (255 ∷ 7 ∷ []) default_limits (omega arith)

read_from-write_to_example :
    read_from (write_to (unique 0x1234 0x56789a secondary) true []) true
    ≡ ok (unique 0x1234 0x56789a secondary)
read_from-write_to_example =
    read_from-write_to (unique 0x1234 0x56789a secondary) true (omega arith, omega arith)

delimiter_byte-ReadsBack_example : ReadsBack burst psk true 3 (delimiter_byte burst psk true 3)
delimiter_byte-ReadsBack_example = delimiter_byte-ReadsBack burst psk true 3 (omega arith)
