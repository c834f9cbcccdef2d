-- ===== src/Wire/Decoder/State.antt =====
-- src/wire/decoder.rs: the limits, the counters, the state of the decoder and the operations on its
-- buffer.
use hart_link.Common.{
  ℕ, suc, ◌-◌, min, max, Bool, true, false, Option, none, some, List, [], ◌∷◌, ◌++◌, length, drop,
  ltb, ◌==◌, if◌then◌else◌, Result, ok, err, ◌>>=◌, saturating_add, u8_max,
}
use mathlib.Core.List.{reverse}
use hart_link.Wire.Address.{WireError}
use hart_link.Wire.Frame.{Frame}

abbrev pub maximum_decode_buffer_capacity : ℕ
maximum_decode_buffer_capacity = 16777216

abbrev pub maximum_decode_events_per_push : ℕ
maximum_decode_events_per_push = 4096

pub data ChecksumPolicy : Type 0 where
  strict : ChecksumPolicy
  known_gateway : (delimiter_bit : Bool) (checksum_source_node : Option ℕ) → ChecksumPolicy

pub record DecodeLimits : Type 0 where
  pub buffer_capacity : ℕ
  pub minimum_preambles : ℕ
  pub checksum_policy : ChecksumPolicy

abbrev pub default_limits : DecodeLimits
default_limits = record { buffer_capacity = 4096; minimum_preambles = 2; checksum_policy = strict }

pub data DecodeLimitsError : Type 0 where
  empty_buffer : DecodeLimitsError
  buffer_limit : ℕ → DecodeLimitsError
  no_preambles : DecodeLimitsError
  bad_source_node : ℕ → DecodeLimitsError

unfoldable pub validate_policy : ChecksumPolicy → Result DecodeLimitsError (Unit {0})
validate_policy (known_gateway delimiter_bit (some node)) =
    if ltb 63 node then err (bad_source_node node) else ok tt
validate_policy (known_gateway delimiter_bit none) = ok tt
validate_policy strict = ok tt

-- `DecodeLimits::validate`
unfoldable pub validate_limits : DecodeLimits → Result DecodeLimitsError (Unit {0})
unfolding validate_policy
validate_limits l =
    if l.buffer_capacity == 0
    then err empty_buffer
    else if ltb maximum_decode_buffer_capacity l.buffer_capacity
    then err (buffer_limit l.buffer_capacity)
    else if l.minimum_preambles == 0
    then err no_preambles
    else validate_policy l.checksum_policy

pub record DecodeStatistics : Type 0 where
  pub frames : ℕ
  pub discarded_bytes : ℕ
  pub checksum_failures : ℕ
  pub overflow_bytes : ℕ
  pub repaired_frames : ℕ
  pub event_limit_hits : ℕ

abbrev pub no_statistics : DecodeStatistics
no_statistics = record {
  frames = 0;
  discarded_bytes = 0;
  checksum_failures = 0;
  overflow_bytes = 0;
  repaired_frames = 0;
  event_limit_hits = 0;
}

pub data DecodeEvent : Type 0 where
  received : Frame → DecodeEvent
  refused : WireError → DecodeEvent

pub record FrameDecoder : Type 0 where
  pub bytes : List ℕ
  pub limits : DecodeLimits
  pub statistics : DecodeStatistics

pub data DecoderStep : Type 0 where
  no_candidate : DecoderStep
  need_more : DecoderStep
  discarding : (count : ℕ) → DecoderStep
  rejecting : (error : WireError) (consumed : ℕ) (checksum_failure : Bool) → DecoderStep
  framing : (frame : Frame) (consumed : ℕ) (repaired : Bool) → DecoderStep

-- `usize::clamp(1, limit)` and `u8::max(1)` of `FrameDecoder::new`.
unfoldable pub clamp_limits : DecodeLimits → DecodeLimits
clamp_limits l = record {
  buffer_capacity = min (max l.buffer_capacity 1) maximum_decode_buffer_capacity;
  minimum_preambles = max l.minimum_preambles 1;
  checksum_policy = l.checksum_policy;
}

unfoldable pub new_decoder : DecodeLimits → FrameDecoder
unfolding clamp_limits
new_decoder l = record { bytes = []; limits = clamp_limits l; statistics = no_statistics }

unfoldable pub try_new_decoder : DecodeLimits → Result DecodeLimitsError FrameDecoder
unfolding validate_limits new_decoder
try_new_decoder l = validate_limits l >>= λ _. ok (new_decoder l)

-- `clear`: the counters stay.
unfoldable pub clear : FrameDecoder → FrameDecoder
clear d = record d { bytes = [] }

unfoldable pub buffered_len : FrameDecoder → ℕ
buffered_len d = length d.bytes

unfoldable pub append_bounded : FrameDecoder → List ℕ → FrameDecoder
append_bounded d fragment =
    let overflow = saturating_add (length d.bytes) (length fragment) - d.limits.buffer_capacity in
    if overflow == 0
    then record d { bytes = d.bytes ++ fragment }
    else (let from_buffer = min overflow (length d.bytes) in
        let from_fragment = min (overflow - from_buffer) (length fragment) in
        record d {
          bytes = drop from_buffer d.bytes ++ drop from_fragment fragment;
          statistics = record (d.statistics) {
            overflow_bytes = saturating_add d.statistics.overflow_bytes overflow;
          };
        })

unfoldable pub discard : FrameDecoder → ℕ → FrameDecoder
discard d count = record d {
  bytes = drop (min count (length d.bytes)) d.bytes;
  statistics = record (d.statistics) {
    discarded_bytes = saturating_add d.statistics.discarded_bytes count;
  };
}

-- The length of the prefix of 0xff bytes: `take_while(..).count()`.
unfoldable pub count_ones : List ℕ → ℕ
count_ones [] = 0
count_ones (byte ∷ bytes) = elim (byte == 0xff) [ true ↦ suc (count_ones bytes) | false ↦ 0 ]

unfoldable pub retain_possible_preambles : FrameDecoder → FrameDecoder
unfolding count_ones discard
retain_possible_preambles d =
    let keep = min (count_ones (reverse d.bytes)) u8_max in discard d (length d.bytes - keep)
