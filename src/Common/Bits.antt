-- ===== src/Common/Bits.antt =====
-- Bit operations at variables: tables over bytes, disjoint fields, single bits.
use Prim.Native.Nat.{
  ℕ, zero, suc, ◌+◌, ◌-◌, ◌*◌, ◌/◌, ◌%◌, ◌^◌, ◌≤◌, ◌<◌, min, max, bit_and, bit_or, bit_xor, differ,
  digits, bit_and-bitwise, bit_or-bitwise, bit_xor-bitwise,
}
use mathlib.Core.Path.{◌≡◌, refl, ap, ◌∙◌, sym}
use mathlib.Core.Logic.{◌≢◌}
use mathlib.Core.Bool.{Bool, true, ◌&&◌}
use native.Mathlib.Omega.{arith}
use native.Mathlib.Nat.{pow-suc, mod-add-div'}

-- A test of every number below a bound, by evaluation.
unfoldable pub holds_below : ℕ → (ℕ → Bool) → Bool
holds_below zero p = true
holds_below (suc n) p = p n && holds_below n p

pub holds_below-at : (n : ℕ) (p : ℕ → Bool) (x : ℕ) → holds_below n p ≡ true → x < n → p x ≡ true
unfolding holds_below
holds_below-at zero p x h lt = absurd (omega arith)
holds_below-at (suc n) p x h lt = ground (arith, holds_below-at n p x)

-- `digits` recurs on fuel. Any two amounts that are enough give one result.
digits_fuel :
    (end : ℕ → ℕ) (op : ℕ → ℕ → ℕ) (fuel more x y : ℕ)
    → x ≤ fuel
    → x ≤ more
    → digits end op fuel x y ≡ digits end op more x y
digits_fuel end op zero zero x y h k = refl
digits_fuel end op zero (suc more) zero y h k = refl
digits_fuel end op (suc fuel) zero zero y h k = refl
digits_fuel end op (suc fuel) (suc more) zero y h k = refl
digits_fuel end op zero (suc more) (suc x) y h k = absurd (omega arith)
digits_fuel end op (suc fuel) zero (suc x) y h k = absurd (omega arith)
digits_fuel end op (suc fuel) (suc more) (suc x) y h k =
    let later = digits_fuel end op fuel more (suc x / 2) (y / 2) (omega arith) (omega arith) in
    ap (λ (t : ℕ). t * 2 + op (suc x % 2) (y % 2)) later

-- One binary digit of an operation, with as much fuel as the number itself.
digits_step :
    (end : ℕ → ℕ) (op : ℕ → ℕ → ℕ) (x y : ℕ)
    → digits end op (suc x) (suc x) y
      ≡ digits end op (suc x / 2) (suc x / 2) (y / 2) * 2 + op (suc x % 2) (y % 2)
digits_step end op x y =
    ap (λ (t : ℕ). t * 2 + op (suc x % 2) (y % 2))
      (digits_fuel end op x (suc x / 2) (suc x / 2) (y / 2) (omega arith) (omega arith))

pub zero-bit_or : (b : ℕ) → bit_or 0 b ≡ b
zero-bit_or b = bit_or-bitwise 0 b

pub bit_or_step : (a b : ℕ) → bit_or a b ≡ bit_or (a / 2) (b / 2) * 2 + max (a % 2) (b % 2)
bit_or_step zero b = omega (arith, zero-bit_or b, zero-bit_or (b / 2))
bit_or_step (suc x) b =
    let halves = bit_or-bitwise (suc x / 2) (b / 2) in
    omega (arith, halves, digits_step (λ y. y) max x b, bit_or-bitwise (suc x) b)

zero-bit_and : (y : ℕ) → bit_and 0 y ≡ 0
zero-bit_and y = bit_and-bitwise 0 y

pub bit_and_step : (x y : ℕ) → bit_and x y ≡ bit_and (x / 2) (y / 2) * 2 + min (x % 2) (y % 2)
bit_and_step zero y = omega (arith, zero-bit_and (y / 2), zero-bit_and y)
bit_and_step (suc x) y =
    let halves = bit_and-bitwise (suc x / 2) (y / 2) in
    omega (arith, halves, digits_step (λ _. zero) min x y, bit_and-bitwise (suc x) y)

bit_and-zero_at : (n a : ℕ) → a ≤ n → bit_and a 0 ≡ 0
bit_and-zero_at zero a h = omega (arith, ap (λ (t : ℕ). bit_and t 0) (zero_of a h), zero-bit_and 0)
  where
    zero_of : (a : ℕ) → a ≤ 0 → a ≡ 0
    zero_of a h = omega arith
bit_and-zero_at (suc n) zero h = zero-bit_and 0
bit_and-zero_at (suc n) (suc a) h =
    omega (arith, bit_and_step (suc a) 0, bit_and-zero_at n (suc a / 2) (omega arith))

pub bit_and-zero : (a : ℕ) → bit_and a 0 ≡ 0
bit_and-zero a = bit_and-zero_at a a (omega arith)

bit_or-zero_at : (n a : ℕ) → a ≤ n → bit_or a 0 ≡ a
bit_or-zero_at n zero h = zero-bit_or 0
bit_or-zero_at zero (suc a) h = absurd (omega arith)
bit_or-zero_at (suc n) (suc a) h =
    omega (arith, bit_or_step (suc a) 0, bit_or-zero_at n (suc a / 2) (omega arith))

pub bit_or-zero : (a : ℕ) → bit_or a 0 ≡ a
bit_or-zero a = bit_or-zero_at a a (omega arith)

-- A product by `2 ^ (k + 1)` is twice one by `2 ^ k`.
double_shift : (q k : ℕ) → q * 2 ^ suc k ≡ 2 * (q * 2 ^ k)
double_shift q k = omega (arith, ap (λ (t : ℕ). q * t) (pow-suc 2 k))

-- `(q << k) | r` is a sum where `r` fits the low `k` bits.
pub bit_or-fields : (k q r : ℕ) → r < 2 ^ k → bit_or (q * 2 ^ k) r ≡ q * 2 ^ k + r
bit_or-fields zero q r h =
    let r0 : r ≡ 0 = omega arith in rw r0 (omega (arith, bit_or-zero (q * 2 ^ 0)))
bit_or-fields (suc k) q r h = ground (
  arith,
  bit_or_step (q * 2 ^ suc k) r,
  double_shift q k,
  pow-suc 2 k,
  bit_or-fields k q (r / 2) (omega (arith, pow-suc 2 k)),
)

-- The bit of a number at a position, 0 or 1.
unfoldable pub tbit : ℕ → ℕ → ℕ
tbit x zero = x % 2
tbit x (suc k) = tbit (x / 2) k

pub tbit-bit_or : (a b k : ℕ) → tbit (bit_or a b) k ≡ max (tbit a k) (tbit b k)
unfolding tbit
tbit-bit_or a b zero = omega (arith, bit_or_step a b)
tbit-bit_or a b (suc k) =
    let half : bit_or a b / 2 ≡ bit_or (a / 2) (b / 2) = omega (arith, bit_or_step a b) in
    rw half (tbit-bit_or (a / 2) (b / 2) k)

-- `x & (1 << k)` has the bit at `k`, in its place.
pub bit_and-two_pow : (x k : ℕ) → bit_and x (2 ^ k) ≡ tbit x k * 2 ^ k
unfolding tbit
bit_and-two_pow x zero = omega (arith, bit_and_step x 1, bit_and-zero (x / 2))
bit_and-two_pow x (suc k) =
    let half : 2 ^ suc k / 2 ≡ 2 ^ k = omega (arith, pow-suc 2 k) in
    omega (
      arith,
      bit_and_step x (2 ^ suc k),
      ap (bit_and (x / 2)) half,
      pow-suc 2 k,
      bit_and-two_pow (x / 2) k,
      double_shift (tbit (x / 2) k) k,
    )

-- The bits below `n` do not see a multiple of `2 ^ n`.
pub tbit-add_high : (n j r q : ℕ) → j < n → tbit (r + q * 2 ^ n) j ≡ tbit r j
unfolding tbit
tbit-add_high zero j r q h = absurd (omega arith)
tbit-add_high (suc n) zero r q h = omega (arith, double_shift q n)
tbit-add_high (suc n) (suc j) r q h =
    let half : (r + q * 2 ^ suc n) / 2 ≡ r / 2 + q * 2 ^ n = omega (arith, double_shift q n) in
    rw half (tbit-add_high n j (r / 2) q (omega arith))

pub tbit-mod : (n j x : ℕ) → j < n → tbit (x % 2 ^ n) j ≡ tbit x j
tbit-mod n j x h =
    sym (tbit-add_high n j (x % 2 ^ n) (x / 2 ^ n) h)
    ∙ ap (λ (t : ℕ). tbit t j) (mod-add-div' x (2 ^ n))

-- `x << s` moves every bit up by `s`.
pub tbit-shift : (s j x : ℕ) → tbit (x * 2 ^ s) (s + j) ≡ tbit x j
unfolding tbit
tbit-shift zero j x =
    let a : x * 2 ^ 0 ≡ x = omega arith in let b : zero + j ≡ j = omega arith in rw (a, b)
tbit-shift (suc s) j x =
    let half : x * 2 ^ suc s / 2 ≡ x * 2 ^ s = omega (arith, double_shift x s) in
    let b : suc s + j ≡ suc (s + j) = omega arith in rw (b, tbit, half) (tbit-shift s j x)

tbit_zero : (k : ℕ) → tbit 0 k ≡ 0
unfolding tbit
tbit_zero zero = refl
tbit_zero (suc k) = tbit_zero k

pub tbit-shift_low : (s j x : ℕ) → j < s → tbit (x * 2 ^ s) j ≡ 0
tbit-shift_low s j x h =
    ap (λ (t : ℕ). tbit t j) (zero_add (x * 2 ^ s)) ∙ tbit-add_high s j 0 x h ∙ tbit_zero j
  where
    zero_add : (t : ℕ) → t ≡ 0 + t
    zero_add t = omega arith

pub tbit-two_pow_self : (k : ℕ) → tbit (2 ^ k) k ≡ 1
unfolding tbit
tbit-two_pow_self zero = refl
tbit-two_pow_self (suc k) =
    let half : 2 ^ suc k / 2 ≡ 2 ^ k = omega (arith, pow-suc 2 k) in rw half (tbit-two_pow_self k)

pub tbit-two_pow_ne : (k j : ℕ) → k ≢ j → tbit (2 ^ k) j ≡ 0
unfolding tbit
tbit-two_pow_ne zero zero h = absurd (h refl)
tbit-two_pow_ne zero (suc j) h = tbit_zero j
tbit-two_pow_ne (suc k) zero h = omega (arith, pow-suc 2 k)
tbit-two_pow_ne (suc k) (suc j) h =
    let half : 2 ^ suc k / 2 ≡ 2 ^ k = omega (arith, pow-suc 2 k) in
    rw half (tbit-two_pow_ne k j (λ e. h (ap suc e)))

pub tbit-le-one : (x k : ℕ) → tbit x k ≤ 1
unfolding tbit
tbit-le-one x zero = omega arith
tbit-le-one x (suc k) = tbit-le-one (x / 2) k

zero-bit_xor : (b : ℕ) → bit_xor 0 b ≡ b
zero-bit_xor b = bit_xor-bitwise 0 b

pub bit_xor_step : (a b : ℕ) → bit_xor a b ≡ bit_xor (a / 2) (b / 2) * 2 + differ (a % 2) (b % 2)
bit_xor_step zero b = omega (arith, zero-bit_xor b, zero-bit_xor (b / 2), zero_differ (b % 2))
  where
    zero_differ : (n : ℕ) → differ 0 n ≡ n
    zero_differ n = refl
bit_xor_step (suc x) b =
    let halves = bit_xor-bitwise (suc x / 2) (b / 2) in
    omega (arith, halves, digits_step (λ y. y) differ x b, bit_xor-bitwise (suc x) b)

differ_one : (n : ℕ) → n < 2 → differ n 1 ≡ 1 - n
differ_one zero h = refl
differ_one (suc zero) h = refl
differ_one (suc (suc n)) h = absurd (omega arith)

differ_zero : (n : ℕ) → differ n 0 ≡ n
differ_zero zero = refl
differ_zero (suc n) = refl

-- Flipping the bit 0x10 changes every number.
pub bit_xor-sixteen_ne : (x : ℕ) → bit_xor x 0x10 ≢ x
bit_xor-sixteen_ne x e = omega (
  arith,
  bit_xor_step x 0x10,
  bit_xor_step (x / 2) 0x8,
  bit_xor_step (x / 2 / 2) 0x4,
  bit_xor_step (x / 2 / 2 / 2) 0x2,
  bit_xor_step (x / 2 / 2 / 2 / 2) 0x1,
  differ_zero (x % 2),
  differ_zero (x / 2 % 2),
  differ_zero (x / 2 / 2 % 2),
  differ_zero (x / 2 / 2 / 2 % 2),
  differ_one (x / 2 / 2 / 2 / 2 % 2) (omega arith),
)
