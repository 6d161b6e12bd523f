-- ===== src/Base/Masks.antt =====
-- Masks: the low ones of a number, and setting and clearing one digit of a 32-bit word.
use Prim.Native.Nat.{ℕ, zero, suc, ◌+◌, ◌-◌, ◌*◌, ◌/◌, ◌%◌, ◌^◌, ◌<◌}
use Prim.Native.Nat.{bit_and, bit_or}
use Prim.Native.Nat.{bit_and-bitwise}
use mathlib.Core.Path.{◌≡◌, ap}
use native.Mathlib.Nat.{pow-suc, one-le-pow}
use mfstools.Base.Tests.{◌==◌, if◌then◌else◌}
use native.Mathlib.Decide.{ℕ_discrete}
use native.Mathlib.Nat.{pow-le-pow_right, add-mul-mod_self_left, mod-eq_of_lt, div-add-mod}
use native.Mathlib.Omega.{arith}
use mfstools.Base.Bits.{
  bit_at, bit_at-lt, bit_and_step, bit_at-bit_or, bit_at-bit_and, bit_at-complement,
  bit_at-two-pow_self, bit_at-two-pow_ne,
}

-- A mask of low ones takes the remainder.
pub bit_and_odd : (k x : ℕ) → bit_and (2 * k + 1) x ≡ bit_and k (x / 2) * 2 + x % 2
bit_and_odd k x = omega (arith, bit_and_step (2 * k + 1) x, ap (λ t. bit_and t (x / 2)) half)
  where
    half : (2 * k + 1) / 2 ≡ k
    half = omega arith

mod_double : (x m : ℕ) → 0 < m → x / 2 % m * 2 + x % 2 ≡ x % (m * 2)
mod_double x m p = omega (
  arith,
  ap (λ t. t % (m * 2)) parts,
  add-mul-mod_self_left (x / 2 % m * 2 + x % 2) (m * 2) (x / 2 / m),
  mod-eq_of_lt small,
)
  where
    parts : x ≡ x / 2 % m * 2 + x % 2 + m * 2 * (x / 2 / m)
    parts = omega (arith, div-add-mod (x / 2) m)

    small : x / 2 % m * 2 + x % 2 < m * 2
    small = omega arith

pub low_mask-bit_and : (k x : ℕ) → bit_and (2 ^ k - 1) x ≡ x % 2 ^ k
low_mask-bit_and zero x = omega (arith, bit_and-bitwise 0 x)
low_mask-bit_and (suc k) x = omega (
  arith,
  ap (λ t. bit_and t x) split,
  bit_and_odd (2 ^ k - 1) x,
  low_mask-bit_and k (x / 2),
  mod_double x (2 ^ k) (one-le-pow k 2 (omega arith)),
  ap (λ (t : ℕ). x % t) (pow-suc 2 k),
)
  where
    split : 2 ^ suc k - 1 ≡ 2 * (2 ^ k - 1) + 1
    split = omega (arith, pow-suc 2 k, one-le-pow k 2 (omega arith))

-- Setting and clearing digit `p` of a 32-bit word by its mask.
pub set_digit : (w p q : ℕ) → bit_at (bit_or w (2 ^ p)) q ≡ (if p == q then 1 else bit_at w q)
set_digit w p q = elim (ℕ_discrete p q) [
  | yes e ↦ ground (
    arith,
    bit_at-bit_or q w (2 ^ p),
    bit_at-lt q w,
    bit_at-two-pow_self p,
    ap (λ t. bit_at (2 ^ p) t) e,
  )
  | no ne ↦ ground (arith, bit_at-bit_or q w (2 ^ p), bit_at-two-pow_ne p q ne)
]

pub clear_digit :
    (w p q : ℕ)
    → p < 32
    → q < 32
    → bit_at (bit_and w (2 ^ 32 - 1 - 2 ^ p)) q ≡ (if p == q then 0 else bit_at w q)
clear_digit w p q hp hq = elim (ℕ_discrete p q) [
  | yes e ↦ ground (
    arith,
    bit_at-bit_and q w (2 ^ 32 - 1 - 2 ^ p),
    bit_at-complement 32 (2 ^ p) q fits hq,
    bit_at-lt q w,
    bit_at-two-pow_self p,
    ap (λ t. bit_at (2 ^ p) t) e,
  )
  | no ne ↦ ground (
    arith,
    bit_at-bit_and q w (2 ^ 32 - 1 - 2 ^ p),
    bit_at-complement 32 (2 ^ p) q fits hq,
    bit_at-lt q w,
    bit_at-two-pow_ne p q ne,
  )
]
  where
    fits : 2 ^ p < 2 ^ 32
    fits = omega (arith, pow-le-pow_right {n = 2} (omega arith) {i = p} {j = 31} (omega arith))
