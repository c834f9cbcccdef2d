-- ===== src/Wire/Decoder/Analysis.antt =====
-- src/wire/decoder.rs: `analyze`, one look at the buffered bytes.
use hart_link.Common.{
  ℕ, ◌+◌, ◌/◌, ◌^◌, bit_and, bit_xor, Bool, true, false, not, ◌&&◌, Option, none, some, List,
  length, get_or, slice, ltb, leb, ◌==◌, if◌then◌else◌, ok, err, u8_max, u8_or,
}
use hart_link.Wire.Address.{bad_delimiter, bad_checksum, read_from}
use hart_link.Wire.Frame.{
  FrameRepair, altered_delimiter, kind_from_delimiter, layer_from_delimiter, xor_checksum,
}
use hart_link.Wire.Decoder.State.{
  DecodeLimits, DecoderStep, no_candidate, need_more, discarding, rejecting, framing,
}
use hart_link.Wire.Decoder.Candidate.{
  find_candidate, allow_delimiter_repair, short_address_repair, is_some,
}

-- The delimiter after the repair of its reserved bit, and the repair.
unfoldable pub repaired_delimiter : DecodeLimits → ℕ → ℕ × Option FrameRepair
repaired_delimiter limits delimiter =
    if not (is_some (kind_from_delimiter delimiter))
      && (allow_delimiter_repair limits.checksum_policy
          && is_some (kind_from_delimiter (bit_xor delimiter 0x10)))
    then (bit_xor delimiter 0x10, some altered_delimiter)
    else (delimiter, none)

-- The repair reported with a frame: the address repair over the checksum's over the delimiter's.
unfoldable pub final_repair : Bool → Option FrameRepair → Option FrameRepair → Option FrameRepair
final_repair delimiter_checksum_matches (some address_repair) repair = some address_repair
final_repair true none repair = some altered_delimiter
final_repair false none repair = repair

-- The end of `analyze`, once the checksum is accepted: address, kind, frame.
unfoldable pub build_frame :
    List ℕ → (delimiter_index preamble_count delimiter : ℕ) → Option FrameRepair → DecoderStep
build_frame bytes delimiter_index preamble_count delimiter repair =
    let long = not (bit_and delimiter 0x80 == 0) in
    let address_len = if long then 5 else 1 in
    let expansion_len = bit_and (delimiter / 2 ^ 5) 0x03 in
    let command_index = delimiter_index + 1 + address_len + expansion_len in
    let count_index = command_index + 1 in
    let payload_len = get_or bytes count_index 0 in
    let checksum_index = count_index + 1 + payload_len in
    let address_start = delimiter_index + 1 in
    let address_end = address_start + address_len in
    elim (read_from (slice address_start address_end bytes) long) [
      | err error ↦ rejecting error (checksum_index + 1) false
      | ok address ↦ elim (kind_from_delimiter delimiter) [
        | none ↦ rejecting (bad_delimiter delimiter) (delimiter_index + 1) false
        | some kind ↦
            framing
              (record {
                preambles = u8_or preamble_count u8_max;
                kind = kind;
                physical_layer = layer_from_delimiter delimiter;
                address = address;
                expansion = slice address_end command_index bytes;
                wire_command = get_or bytes command_index 0;
                payload = slice (count_index + 1) checksum_index bytes;
                repair = repair;
              })
              (checksum_index + 1) (is_some repair)
      ]
    ]

-- `analyze` from the delimiter on, at a candidate with no bytes before its preambles.
unfoldable pub analyze_at :
    List ℕ → DecodeLimits → (delimiter_index preamble_count : ℕ) → DecoderStep
analyze_at bytes limits delimiter_index preamble_count =
    let (delimiter, repair) = repaired_delimiter limits (get_or bytes delimiter_index 0) in
    let long = not (bit_and delimiter 0x80 == 0) in
    let address_len = if long then 5 else 1 in
    let expansion_len = bit_and (delimiter / 2 ^ 5) 0x03 in
    let command_index = delimiter_index + 1 + address_len + expansion_len in
    let count_index = command_index + 1 in
    if leb (length bytes) count_index
    then need_more
    else (let payload_len = get_or bytes count_index 0 in
        let checksum_index = count_index + 1 + payload_len in
        if leb (length bytes) checksum_index
        then need_more
        else (let expected = xor_checksum (slice delimiter_index checksum_index bytes) in
            let actual = get_or bytes checksum_index 0 in
            let delimiter_checksum_matches =
              allow_delimiter_repair limits.checksum_policy && (bit_xor expected 0x10 == actual) in
            let address_repair =
              if not (expected == actual) && (not delimiter_checksum_matches && not long)
              then short_address_repair limits.checksum_policy
                  (get_or bytes (delimiter_index + 1) 0) expected actual
              else none in
            if not (expected == actual)
              && (not delimiter_checksum_matches && not (is_some address_repair))
            then rejecting (bad_checksum expected actual) (delimiter_index + 1) true
            else build_frame bytes delimiter_index preamble_count delimiter
                (final_repair delimiter_checksum_matches address_repair repair)))

unfoldable pub analyze : List ℕ → DecodeLimits → DecoderStep
analyze bytes limits = elim (find_candidate bytes limits) [
  | none ↦ no_candidate
  | some (delimiter_index, preamble_start, preamble_count) ↦
      if ltb 0 preamble_start
      then discarding preamble_start
      else analyze_at bytes limits delimiter_index preamble_count
]
