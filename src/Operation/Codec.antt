-- ===== src/Operation/Codec.antt =====
-- src/operation/codec.rs: the payload writer and reader. A reader's method returns its value and the
-- reader moved on. An `f32` is its 32-bit pattern, which the conversions to and from bytes keep.
pub mod Laws
pub mod Fields
use hart_link.Common.{
  ℕ, ◌+◌, ◌-◌, ◌*◌, ◌&&◌, Bool, true, false, Option, none, some, List, [], ◌∷◌, ◌++◌, length,
  get_or, get_elem?, drop, slice, ltb, leb, ◌==◌, if◌then◌else◌, Result, ok, err, ◌>>=◌,
  saturating_add, be16, be24, be32, join24,
}
use Prim.Native.String.{String}
use hart_link.Wire.Address.{WireError}

-- The errors that the codecs of this directory raise; a name is a static text.
pub data OperationError : Type 0 where
  command_mismatch : (expected actual : ℕ) → OperationError
  device_status : (code status : ℕ) → OperationError
  communication_status : (summary status : ℕ) → OperationError
  truncated_field : String → (offset : ℕ) → OperationError
  trailing_bytes : ℕ → OperationError
  invalid_value : String → OperationError
  request_length : (command actual : ℕ) → OperationError
  wire_failure : WireError → OperationError

pub record PayloadWriter : Type 0 where
  pub written : List ℕ

abbrev pub new_writer : PayloadWriter
new_writer = record { written = [] }

unfoldable pub write_u8 : PayloadWriter → ℕ → PayloadWriter
write_u8 w value = record { written = w.written ++ value ∷ [] }

unfoldable pub write_u16 : PayloadWriter → ℕ → PayloadWriter
write_u16 w value = record { written = w.written ++ be16 value }

unfoldable pub write_u24 : PayloadWriter → ℕ → Result OperationError PayloadWriter
write_u24 w value =
    if ltb 0x00ffffff value
    then err (invalid_value "24-bit integer")
    else ok (record { written = w.written ++ be24 value })

unfoldable pub write_u32 : PayloadWriter → ℕ → PayloadWriter
write_u32 w value = record { written = w.written ++ be32 value }

unfoldable pub write_f32 : PayloadWriter → ℕ → PayloadWriter
write_f32 w value = record { written = w.written ++ be32 value }

unfoldable pub write_bytes : PayloadWriter → List ℕ → PayloadWriter
write_bytes w value = record { written = w.written ++ value }

pub record PayloadReader : Type 0 where
  pub bytes : List ℕ
  pub offset : ℕ

unfoldable pub new_reader : List ℕ → PayloadReader
new_reader bytes = record { bytes = bytes; offset = 0 }

unfoldable pub remaining : PayloadReader → ℕ
remaining r = length r.bytes - r.offset

abbrev pub or_truncated : Option ℕ → String → ℕ → Result OperationError ℕ
or_truncated none field offset = err (truncated_field field offset)
or_truncated (some value) field offset = ok value

unfoldable pub read_u8 : PayloadReader → String → Result OperationError (ℕ × PayloadReader)
read_u8 r field = do
  value ← or_truncated (get_elem? r.bytes r.offset) field r.offset
  ok (value, record r { offset = r.offset + 1 })

-- `bytes`: a slice `offset..end` that does not lie in the data is refused.
unfoldable pub read_bytes :
    PayloadReader → (length : ℕ) → String → Result OperationError (List ℕ × PayloadReader)
read_bytes r count field =
    let end = saturating_add r.offset count in
    if leb r.offset end && leb end (length r.bytes)
    then ok (slice r.offset end r.bytes, record r { offset = end })
    else err (truncated_field field r.offset)

unfoldable pub read_u16 : PayloadReader → String → Result OperationError (ℕ × PayloadReader)
read_u16 r field = do
  (bytes, r') ← read_bytes r 2 field
  ok (get_or bytes 0 0 * 256 + get_or bytes 1 0, r')

unfoldable pub read_u24 : PayloadReader → String → Result OperationError (ℕ × PayloadReader)
read_u24 r field = do
  (bytes, r') ← read_bytes r 3 field
  ok (join24 (get_or bytes 0 0) (get_or bytes 1 0) (get_or bytes 2 0), r')

-- `u32::from_be_bytes`
abbrev pub from_be32 : List ℕ → ℕ
from_be32 bytes =
    get_or bytes 0 0 * 16777216
    + get_or bytes 1 0 * 65536
    + get_or bytes 2 0 * 256
    + get_or bytes 3 0

unfoldable pub read_u32 : PayloadReader → String → Result OperationError (ℕ × PayloadReader)
read_u32 r field = do (bytes, r') ← read_bytes r 4 field; ok (from_be32 bytes, r')

unfoldable pub read_f32 : PayloadReader → String → Result OperationError (ℕ × PayloadReader)
read_f32 r field = do (bytes, r') ← read_bytes r 4 field; ok (from_be32 bytes, r')

unfoldable pub rest : PayloadReader → List ℕ × PayloadReader
rest r = (drop r.offset r.bytes, record r { offset = length r.bytes })

unfoldable pub finish_reader : PayloadReader → Result OperationError (Unit {0})
unfolding remaining
finish_reader r = if remaining r == 0 then ok tt else err (trailing_bytes (remaining r))
