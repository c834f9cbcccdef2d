-- ===== src/Operation/Text.antt =====
-- src/operation/text.rs: packed six-bit text, Latin-1 text and device dates. A text is the list of its
-- code points.
pub mod Packed
use mathlib.Core.List.{reverse}
use hart_link.Common.{
  ℕ, zero, suc, ◌+◌, ◌-◌, ◌*◌, ◌/◌, ◌%◌, ◌^◌, bit_and, bit_or, Bool, true, false, not, ◌&&◌, ◌||◌,
  List, [], ◌∷◌, ◌++◌, length, replicate, drop, take, get_or, ltb, leb, ◌==◌, if◌then◌else◌, Result,
  ok, err, ◌>>=◌, u8_max,
}
use hart_link.Operation.Codec.{OperationError, invalid_value}

-- The characters of Unicode's White_Space property.
unfoldable pub is_whitespace : ℕ → Bool
is_whitespace c =
    (leb 0x09 c && leb c 0x0d)
    || ((c == 0x20)
        || ((c == 0x85)
            || ((c == 0xa0)
                || ((c == 0x1680)
                    || ((leb 0x2000 c && leb c 0x200a)
                        || ((c == 0x2028)
                            || ((c == 0x2029)
                                || ((c == 0x202f) || ((c == 0x205f) || (c == 0x3000))))))))))

-- `str::trim_end_matches`: the text without the longest tail of such characters.
unfoldable pub trim_end_matches : (ℕ → Bool) → List ℕ → List ℕ
trim_end_matches p [] = []
trim_end_matches p (c ∷ cs) = elim (trim_end_matches p cs) [
  | [] ↦ if p c then [] else c ∷ []
  | d ∷ ds ↦ c ∷ d ∷ ds
]

-- `str::trim_end`
unfoldable pub trim_end : List ℕ → List ℕ
unfolding trim_end_matches is_whitespace
trim_end cs = trim_end_matches is_whitespace cs

pub record DeviceDate : Type 0 where
  pub day : ℕ
  pub month : ℕ
  pub year_since_1900 : ℕ

pub record TagDescriptorDate : Type 0 where
  pub tag : List ℕ
  pub descriptor : List ℕ
  pub date : DeviceDate

unfoldable pub validate_date : DeviceDate → Result OperationError (Unit {0})
validate_date d =
    if (d.day == 0) && ((d.month == 0) && (d.year_since_1900 == 0))
    then ok tt
    else if not (leb 1 d.day && leb d.day 31) || not (leb 1 d.month && leb d.month 12)
    then err (invalid_value "device date")
    else ok tt

-- The loop of `pack_text` over the characters, with the number of codes so far.
unfoldable pub text_codes : (capacity taken : ℕ) → List ℕ → Result OperationError (List ℕ)
text_codes capacity taken [] = ok []
text_codes capacity taken (code ∷ cs) =
    let later = text_codes capacity (taken + 1) cs in
    if not (leb 0x20 code && leb code 0x5f) || (taken == capacity)
    then err (invalid_value "packed-text character")
    else (do codes ← later; ok (bit_and code 0x3f ∷ codes))

-- `Vec::resize`
abbrev pub resize : ℕ → ℕ → List ℕ → List ℕ
resize n value xs = take n xs ++ replicate (n - length xs) value

-- Four codes in three bytes; a `<<` on `u8` drops the high bits.
unfoldable pub pack_group : ℕ → ℕ → ℕ → ℕ → List ℕ
pack_group a b c d =
    bit_or (a * 2 ^ 2 % 256) (b / 2 ^ 4)
    ∷ bit_or (b * 2 ^ 4 % 256) (c / 2 ^ 2)
    ∷ bit_or (c * 2 ^ 6 % 256) d
    ∷ []

-- The groups of `chunks_exact(4)`.
unfoldable pub pack_groups : List ℕ → List ℕ
unfolding pack_group
pack_groups (a ∷ b ∷ c ∷ d ∷ codes) = pack_group a b c d ++ pack_groups codes
pack_groups _ = []

unfoldable pub pack_text : List ℕ → (output_bytes : ℕ) → Result OperationError (List ℕ)
unfolding text_codes pack_groups
pack_text text output_bytes =
    if ltb u8_max output_bytes || not (output_bytes % 3 == 0)
    then err (invalid_value "packed-text length")
    else (let capacity = output_bytes / 3 * 4 in
        do
          codes ← text_codes capacity 0 text
          ok (pack_groups (resize capacity (bit_and 0x20 0x3f) codes)))

-- The six-bit code as an ASCII character.
unfoldable pub ascii_of : ℕ → ℕ
ascii_of code = if bit_and code 0x20 == 0 then bit_or code 0x40 else code

unfoldable pub unpack_group : ℕ → ℕ → ℕ → List ℕ
unfolding ascii_of
unpack_group x y z =
    ascii_of (x / 2 ^ 2)
    ∷ ascii_of (bit_or (bit_and x 0x03 * 2 ^ 4 % 256) (y / 2 ^ 4))
    ∷ ascii_of (bit_or (bit_and y 0x0f * 2 ^ 2 % 256) (z / 2 ^ 6))
    ∷ ascii_of (bit_and z 0x3f)
    ∷ []

-- The groups of `chunks_exact(3)`.
unfoldable pub unpack_groups : List ℕ → List ℕ
unfolding unpack_group
unpack_groups (x ∷ y ∷ z ∷ bytes) = unpack_group x y z ++ unpack_groups bytes
unpack_groups _ = []

unfoldable pub unpack_text : List ℕ → List ℕ
unfolding unpack_groups trim_end
unpack_text bytes = trim_end (unpack_groups bytes)

-- The loop of `encode_latin1`.
unfoldable pub latin1_bytes : (length taken : ℕ) → List ℕ → Result OperationError (List ℕ)
latin1_bytes limit taken [] = ok []
latin1_bytes limit taken (character ∷ cs) =
    let later = latin1_bytes limit (taken + 1) cs in
    if (taken == limit) || ltb 0xff character
    then err (invalid_value "Latin-1 string")
    else (do bytes ← later; ok (character ∷ bytes))

unfoldable pub encode_latin1 : List ℕ → ℕ → Result OperationError (List ℕ)
unfolding latin1_bytes
encode_latin1 value limit = do bytes ← latin1_bytes limit 0 value; ok (resize limit 0x20 bytes)

unfoldable pub is_padding : ℕ → Bool
is_padding c = (c == 0) || (c == 0x20)

unfoldable pub decode_latin1 : List ℕ → ℕ → Result OperationError (List ℕ)
unfolding trim_end_matches is_padding
decode_latin1 bytes limit =
    if not (length bytes == limit)
    then err (invalid_value "Latin-1 string length")
    else ok (trim_end_matches is_padding bytes)

unfoldable pub decode_tag_descriptor_date : List ℕ → Result OperationError TagDescriptorDate
unfolding unpack_text validate_date
decode_tag_descriptor_date bytes =
    if not (length bytes == 21)
    then err (invalid_value "tag, descriptor, and date length")
    else (let device_date : DeviceDate = record {
      day = get_or bytes 18 0;
      month = get_or bytes 19 0;
      year_since_1900 = get_or bytes 20 0;
    } in
        validate_date device_date >>= λ _. ok (record {
          tag = unpack_text (take 6 bytes);
          descriptor = unpack_text (take (18 - 6) (drop 6 bytes));
          date = device_date;
        }))

-- `WriteTagDescriptorDate::new`: the request data.
unfoldable pub new_tag_write : TagDescriptorDate → Result OperationError (List ℕ)
unfolding validate_date pack_text
new_tag_write value = do
  u ← validate_date value.date
  tag ← pack_text value.tag 6
  descriptor ← pack_text value.descriptor 12
  ok ((tag ++ descriptor) ++ value.date.day ∷ value.date.month ∷ value.date.year_since_1900 ∷ [])
