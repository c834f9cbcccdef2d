-- ===== src/Wire/Decoder/Candidate.antt =====
-- src/wire/decoder.rs: the search for a delimiter behind enough preambles, and the repairs of the
-- checksum policy.
use hart_link.Common.{
  ℕ, suc, ◌+◌, ◌-◌, min, bit_and, bit_xor, Bool, true, false, not, ◌&&◌, ◌||◌, Option, none, some,
  List, [], ◌∷◌, take, ltb, leb, ◌==◌, if◌then◌else◌, u8_max,
}
use hart_link.Wire.Frame.{FrameRepair, short_address_rewrite, kind_from_delimiter}
use hart_link.Wire.Decoder.State.{ChecksumPolicy, strict, known_gateway, DecodeLimits}

unfoldable pub allow_delimiter_repair : ChecksumPolicy → Bool
allow_delimiter_repair (known_gateway true _) = true
allow_delimiter_repair (known_gateway false _) = false
allow_delimiter_repair strict = false

abbrev pub is_some {ℓ} : {A : Type ℓ} → Option A → Bool
is_some none = false
is_some (some a) = true

unfoldable pub is_possible_delimiter : ℕ → ChecksumPolicy → Bool
unfolding allow_delimiter_repair
is_possible_delimiter byte policy =
    is_some (kind_from_delimiter byte)
    || (allow_delimiter_repair policy && is_some (kind_from_delimiter (bit_xor byte 0x10)))

unfoldable pub repair_from : Option ℕ → ℕ → ℕ → ℕ → Option FrameRepair
repair_from none received_address expected actual = none
repair_from (some source) received_address expected actual =
    if ltb 63 source
    then none
    else (let reconstructed = bit_xor (bit_xor received_address expected) actual in
        if (bit_and reconstructed 0xc0 == bit_and received_address 0xc0)
          && (bit_and reconstructed 0x3f == source)
        then some (short_address_rewrite source)
        else none)

unfoldable pub short_address_repair : ChecksumPolicy → ℕ → ℕ → ℕ → Option FrameRepair
unfolding repair_from
short_address_repair (known_gateway delimiter_bit source) received_address expected actual =
    repair_from source received_address expected actual
short_address_repair strict received_address expected actual = none

-- The index of the last byte that is not 0xff.
unfoldable pub last_other : List ℕ → Option ℕ
last_other [] = none
last_other (value ∷ bytes) = elim (last_other bytes) [
  | some i ↦ some (suc i)
  | none ↦ if value == 0xff then none else some 0
]

abbrev pub after_position : Option ℕ → ℕ
after_position none = 0
after_position (some position) = position + 1

-- The closure of `find_candidate`: delimiter index, first retained preamble, preambles retained.
unfoldable pub candidate_at : DecodeLimits → List ℕ → ℕ → ℕ → Option (ℕ × ℕ × ℕ)
unfolding last_other
candidate_at limits bytes index byte =
    if not (is_possible_delimiter byte limits.checksum_policy)
    then none
    else (let preamble_start = after_position (last_other (take index bytes)) in
        let preamble_count = index - preamble_start in
        let retained_count = min preamble_count u8_max in
        let retained_start = index - retained_count in
        if leb limits.minimum_preambles preamble_count
        then some (index, retained_start, retained_count)
        else none)

-- `find_map` over the enumerated bytes from an index on.
unfoldable pub candidate_from : DecodeLimits → List ℕ → ℕ → List ℕ → Option (ℕ × ℕ × ℕ)
candidate_from limits bytes index [] = none
candidate_from limits bytes index (byte ∷ rest) = elim (candidate_at limits bytes index byte) [
  | some c ↦ some c
  | none ↦ candidate_from limits bytes (suc index) rest
]

unfoldable pub find_candidate : List ℕ → DecodeLimits → Option (ℕ × ℕ × ℕ)
find_candidate bytes limits = candidate_from limits bytes 0 bytes
