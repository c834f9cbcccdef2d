-- ===== src/Common/Words.antt =====
-- Machine words as native numbers: the integer limits, Rust's saturating and checked operations,
-- big-endian byte sequences and the values they stand for.
use Prim.Native.Nat.{ℕ, ◌+◌, ◌*◌, ◌/◌, ◌%◌, ◌^◌, ◌<◌, min, bit_or}
use mathlib.Core.Path.{◌≡◌}
use mathlib.Core.Option.{Option, none, some}
use mathlib.Core.List.{List, [], ◌∷◌}
use native.Mathlib.Omega.{arith}
use hart_link.Common.Tests.{leb, if◌then◌else◌}
use hart_link.Common.Bits.{bit_or-fields}

abbrev pub u8_max : ℕ
u8_max = 255

abbrev pub u16_max : ℕ
u16_max = 65535

abbrev pub u64_max : ℕ
u64_max = 18446744073709551615

-- `usize` is taken at 64 bits.
abbrev pub usize_max : ℕ
usize_max = 18446744073709551615

-- `u64::saturating_add`, and that of a 64-bit `usize`.
abbrev pub saturating_add : ℕ → ℕ → ℕ
saturating_add a b = min (a + b) u64_max

-- `u16::checked_add` and `usize::checked_add`, with the largest value first.
abbrev pub checked_add : ℕ → ℕ → ℕ → Option ℕ
checked_add largest a b = if leb (a + b) largest then some (a + b) else none

-- `u8::try_from(n).unwrap_or(default)`
abbrev pub u8_or : ℕ → ℕ → ℕ
u8_or n default = if leb n u8_max then n else default

abbrev pub IsByte : ℕ → Type 0
IsByte x = x < 256

-- `u16::to_be_bytes`, the last three of `u32::to_be_bytes`, and all four of them.
abbrev pub be16 : ℕ → List ℕ
be16 x = x / 256 % 256 ∷ x % 256 ∷ []

abbrev pub be24 : ℕ → List ℕ
be24 x = x / 65536 % 256 ∷ x / 256 % 256 ∷ x % 256 ∷ []

abbrev pub be32 : ℕ → List ℕ
be32 x = x / 16777216 % 256 ∷ x / 65536 % 256 ∷ x / 256 % 256 ∷ x % 256 ∷ []

-- `(a << 8) | b` and `(a << 16) | (b << 8) | c`, over bytes.
unfoldable pub join16 : ℕ → ℕ → ℕ
join16 a b = bit_or (a * 2 ^ 8) b

unfoldable pub join24 : ℕ → ℕ → ℕ → ℕ
join24 a b c = bit_or (bit_or (a * 2 ^ 16) (b * 2 ^ 8)) c

pub join16_value : (a b : ℕ) → b < 256 → join16 a b ≡ a * 256 + b
unfolding join16
join16_value a b h = bit_or-fields 8 a b h

pub join24_value : (a b c : ℕ) → b < 256 → c < 256 → join24 a b c ≡ a * 65536 + b * 256 + c
unfolding join24
join24_value a b c hb hc =
    let high : bit_or (a * 2 ^ 16) (b * 2 ^ 8) ≡ (a * 256 + b) * 2 ^ 8 =
      omega (arith, bit_or-fields 16 a (b * 256) (omega arith)) in
    rw high (omega (arith, bit_or-fields 8 (a * 256 + b) c hc))
