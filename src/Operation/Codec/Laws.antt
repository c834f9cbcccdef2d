-- ===== src/Operation/Codec/Laws.antt =====
-- Reading back what was written, field by field.
use hart_link.Common.{
  ℕ, ◌+◌, ◌*◌, ◌/◌, ◌%◌, ◌^◌, ◌<◌, min, ◌≡◌, arith, ap, ◌∙◌, ◌&&◌, true, List, ◌∷◌, ◌++◌, length,
  length-append, slice_of, leb, ok, be16, be24, be32, join24, join24_value, get_elem?-append,
  u64_max,
}
use Prim.Native.String.{String}
use hart_link.Operation.Codec.{
  PayloadReader, read_bytes, read_u8, read_u16, read_u24, read_u32, read_f32, from_be32,
}

-- The reader stands before `after`, behind `before`, in data that fit the address space.
pub record At (r : PayloadReader) (before after : List ℕ) : Type 0 where
  pub data_split : r.bytes ≡ before ++ after
  pub position : r.offset ≡ length before
  pub addressable : length r.bytes < 2 ^ 63

-- The reader moved on over the bytes that it has read.
abbrev pub moved : PayloadReader → ℕ → PayloadReader
moved r n = record r { offset = r.offset + n }

pub read_bytes-append :
    (r : PayloadReader) (before xs after : List ℕ) (field : String)
    → At r before (xs ++ after)
    → read_bytes r (length xs) field ≡ ok (xs, moved r (length xs))
unfolding read_bytes
read_bytes-append r before xs after field a =
    let total =
      ap length a.data_split
      ∙ length-append before (xs ++ after)
      ∙ ap (λ (t : ℕ). length before + t) (length-append xs after) in
    let end : min (r.offset + length xs) u64_max ≡ r.offset + length xs =
      omega (arith, total, a.position, a.addressable) in
    let fits : (leb r.offset (r.offset + length xs) && leb (r.offset + length xs) (length r.bytes))
        ≡ true =
      ground (arith, total, a.position) in
    let cut =
      slice_of r.bytes before xs after r.offset (r.offset + length xs) a.data_split a.position
        (omega (arith, a.position)) in
    rw (end, fits, cut)

pub read_u8-cons :
    (r : PayloadReader) (before after : List ℕ) (field : String) (x : ℕ)
    → At r before (x ∷ after)
    → read_u8 r field ≡ ok (x, moved r 1)
unfolding read_u8
read_u8-cons r before after field x a =
    rw (a.data_split, a.position, get_elem?-append before after x)

pub read_u16-be16 :
    (r : PayloadReader) (before after : List ℕ) (field : String) (x : ℕ)
    → At r before (be16 x ++ after)
    → x < 2 ^ 16
    → read_u16 r field ≡ ok (x, moved r 2)
unfolding read_u16
read_u16-be16 r before after field x a h =
    let value : x / 256 % 256 * 256 + x % 256 ≡ x = omega arith in
    rw (read_bytes-append r before (be16 x) after field a, value)

pub read_u24-be24 :
    (r : PayloadReader) (before after : List ℕ) (field : String) (x : ℕ)
    → At r before (be24 x ++ after)
    → x < 2 ^ 24
    → read_u24 r field ≡ ok (x, moved r 3)
unfolding read_u24
read_u24-be24 r before after field x a h =
    let value : join24 (x / 65536 % 256) (x / 256 % 256) (x % 256) ≡ x = omega (
      arith,
      join24_value (x / 65536 % 256) (x / 256 % 256) (x % 256) (omega arith) (omega arith),
    ) in
    rw (read_bytes-append r before (be24 x) after field a, value)

from_be32-be32 : (x : ℕ) → x < 2 ^ 32 → from_be32 (be32 x) ≡ x
from_be32-be32 x h = omega arith

pub read_u32-be32 :
    (r : PayloadReader) (before after : List ℕ) (field : String) (x : ℕ)
    → At r before (be32 x ++ after)
    → x < 2 ^ 32
    → read_u32 r field ≡ ok (x, moved r 4)
unfolding read_u32
read_u32-be32 r before after field x a h =
    rw (read_bytes-append r before (be32 x) after field a, from_be32-be32 x h)

pub read_f32-be32 :
    (r : PayloadReader) (before after : List ℕ) (field : String) (x : ℕ)
    → At r before (be32 x ++ after)
    → x < 2 ^ 32
    → read_f32 r field ≡ ok (x, moved r 4)
unfolding read_f32
read_f32-be32 r before after field x a h =
    rw (read_bytes-append r before (be32 x) after field a, from_be32-be32 x h)
