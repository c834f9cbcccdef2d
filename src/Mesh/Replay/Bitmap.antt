-- ===== src/Mesh/Replay/Bitmap.antt =====
-- The bits of the window's bitmap under the shifts and masks of `accept`.
use native.Mathlib.Nat.{one-le-pow}
use hart_link.Common.{
  ℕ, zero, suc, ◌+◌, ◌-◌, ◌*◌, ◌%◌, ◌^◌, ◌≤◌, ◌<◌, bit_and, ◌≡◌, refl, ap, ◌⊎◌, inl, inr, arith,
  false, not, leb, ◌==◌, Bool-cases,
}
use hart_link.Common.Bits.{
  tbit, tbit-bit_or, tbit-mod, tbit-shift, tbit-shift_low, tbit-two_pow_self, tbit-two_pow_ne,
  bit_and-two_pow, tbit-le-one,
}
use hart_link.Mesh.Replay.{shift_seen}

pub lt-cases : (a b : ℕ) → (a < b) ⊎ (b ≤ a)
lt-cases a b = ground arith

pub tbit_one : (k : ℕ) → tbit 1 (suc k) ≡ 0
tbit_one k = tbit-two_pow_ne 0 (suc k) (λ e. omega arith)

pub shift_lowest : (x s : ℕ) → tbit (shift_seen x s) 0 ≡ 1
unfolding shift_seen
shift_lowest x s = elim (Bool-cases (leb 64 s)) [
  | inl far ↦ rw far (tbit-two_pow_self 0)
  | inr near ↦
      rw (near, tbit-bit_or (x * 2 ^ s % 2 ^ 64) 1 0)
        (omega (arith, tbit-le-one (x * 2 ^ s % 2 ^ 64) 0, tbit-two_pow_self 0))
]

pub shift_low : (x s k : ℕ) → suc k < s → suc k < 64 → tbit (shift_seen x s) (suc k) ≡ 0
unfolding shift_seen
shift_low x s k h n = elim (Bool-cases (leb 64 s)) [
  | inl far ↦ rw far (tbit_one k)
  | inr near ↦
      rw (near, tbit-bit_or (x * 2 ^ s % 2 ^ 64) 1 (suc k))
        (omega (arith, tbit_one k, tbit-mod 64 (suc k) (x * 2 ^ s) n, tbit-shift_low s (suc k) x h))
]

pub shift_high :
    (x s k : ℕ) → s ≤ suc k → suc k < 64 → tbit (shift_seen x s) (suc k) ≡ tbit x (suc k - s)
unfolding shift_seen
shift_high x s k h n =
    let near : leb 64 s ≡ false = ground arith in
    let place : s + (suc k - s) ≡ suc k = omega arith in
    rw (near, tbit-bit_or (x * 2 ^ s % 2 ^ 64) 1 (suc k))
      (omega (
        arith,
        tbit_one k,
        tbit-mod 64 (suc k) (x * 2 ^ s) n,
        tbit-shift s (suc k - s) x,
        ap (tbit (x * 2 ^ s)) place,
      ))

pub masked : (x k : ℕ) → not (bit_and x (2 ^ k) == 0) ≡ (tbit x k == 1)
masked x k = ground (
  arith,
  bit_and-two_pow x k,
  tbit-le-one x k,
  one-le-pow k 2,
  bit_cases (tbit x k) (2 ^ k) (tbit-le-one x k),
)
  where
    bit_cases : (b m : ℕ) → b ≤ 1 → ((b ≡ 0) × (b * m ≡ 0)) ⊎ ((b ≡ 1) × (b * m ≡ m))
    bit_cases zero m h = inl (refl, omega arith)
    bit_cases (suc zero) m h = inr (refl, omega arith)
    bit_cases (suc (suc b)) m h = absurd (omega arith)
