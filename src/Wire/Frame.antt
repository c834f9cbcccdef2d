-- ===== src/Wire/Frame.antt =====
-- src/wire/frame.rs and the checksum of src/wire/mod.rs.
pub mod Delimiter
pub mod Layout
use hart_link.Common.{
  ℕ, ◌*◌, ◌%◌, ◌^◌, bit_and, bit_or, bit_xor, Bool, true, false, ◌||◌, Option, none, some, List, [],
  ◌∷◌, ◌++◌, length, drop, replicate, ltb, leb, ◌==◌, if◌then◌else◌, Result, ok, err, ◌>>=◌, ◌>>◌,
  reject_if, u8_max, u8_or,
}
use hart_link.Wire.Address.{
  Address, WireError, expansion_length, payload_length, encoded_len, write_to,
}

abbrev pub max_encoded_frame_size : ℕ
max_encoded_frame_size = 522

-- `xor_checksum`, by its fold.
unfoldable pub xor_fold : ℕ → List ℕ → ℕ
xor_fold sum [] = sum
xor_fold sum (byte ∷ bytes) = xor_fold (bit_xor sum byte) bytes

unfoldable pub xor_checksum : List ℕ → ℕ
xor_checksum bytes = xor_fold 0 bytes

pub data PhysicalLayer : Type 0 where
  fsk psk : PhysicalLayer

unfoldable pub delimiter_bit : PhysicalLayer → ℕ
delimiter_bit fsk = 0
delimiter_bit psk = 0x08

unfoldable pub layer_from_delimiter : ℕ → PhysicalLayer
layer_from_delimiter delimiter = if bit_and delimiter 0x08 == 0 then fsk else psk

pub data FrameKind : Type 0 where
  request response burst : FrameKind

pub data FrameRepair : Type 0 where
  altered_delimiter : FrameRepair
  short_address_rewrite : (checksum_source_node : ℕ) → FrameRepair

unfoldable pub delimiter_base : FrameKind → ℕ
delimiter_base request = 0x02
delimiter_base response = 0x06
delimiter_base burst = 0x01

unfoldable pub kind_from_delimiter : ℕ → Option FrameKind
kind_from_delimiter delimiter =
    let low = bit_and delimiter 0x1f in
    if low == 0x02 || low == 0x0a
    then some request
    else if low == 0x06 || low == 0x0e
    then some response
    else if low == 0x01 || low == 0x09
    then some burst
    else none

-- `kind == FrameKind::Burst`
unfoldable pub is_burst : FrameKind → Bool
is_burst request = false
is_burst response = false
is_burst burst = true

pub record Frame : Type 0 where
  pub preambles : ℕ
  pub kind : FrameKind
  pub physical_layer : PhysicalLayer
  pub address : Address
  pub expansion : List ℕ
  pub wire_command : ℕ
  pub payload : List ℕ
  pub repair : Option FrameRepair

-- The delimiter's fields joined; both `encode` and `delimiter` write this expression.
unfoldable pub delimiter_byte : FrameKind → PhysicalLayer → Bool → ℕ → ℕ
unfolding delimiter_base delimiter_bit
delimiter_byte kind layer long expansion_len =
    bit_or (bit_or (bit_or (delimiter_base kind) (delimiter_bit layer)) (if long then 0x80 else 0))
      (u8_or expansion_len 0 * 2 ^ 5 % 2 ^ 8)

unfoldable pub encode : Frame → Result WireError (List ℕ)
encode f = do
  reject_if (ltb 3 (length f.expansion)) (expansion_length (length f.expansion))
  count ←
      if leb (length f.payload) u8_max
      then ok (length f.payload)
      else err (payload_length (length f.payload))
  let delimiter =
      delimiter_byte f.kind f.physical_layer (encoded_len f.address == 5) (length f.expansion)
  let preamble = replicate f.preambles 0xff
  let checksum_start = length preamble
  let output = preamble ++ delimiter ∷ []
  let output = write_to f.address (is_burst f.kind) output
  let output = output ++ f.expansion
  let output = output ++ f.wire_command ∷ []
  let output = output ++ count ∷ []
  let output = output ++ f.payload
  ok (output ++ xor_checksum (drop checksum_start output) ∷ [])

unfoldable pub delimiter : Frame → Result WireError ℕ
delimiter f = do
  reject_if (ltb 3 (length f.expansion)) (expansion_length (length f.expansion))
  ok (delimiter_byte f.kind f.physical_layer (encoded_len f.address == 5) (length f.expansion))
