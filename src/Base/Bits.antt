-- ===== src/Base/Bits.antt =====
-- The binary digits of a number, and what `|`, `&`, `^`, masks and shifts do to each of them.
-- The native operations are recursions on digits with fuel; here each gets one equation for the
-- lowest digit, and from it one for every digit.
use Prim.Native.Nat.{ℕ, zero, suc, ◌+◌, ◌-◌, ◌*◌, ◌/◌, ◌%◌, ◌^◌, ◌≤◌, ◌<◌, min, max}
use Prim.Native.Nat.{bit_and, bit_or, bit_xor, digits, differ}
use Prim.Native.Nat.{bit_and-bitwise, bit_or-bitwise, bit_xor-bitwise}
use mathlib.Core.Path.{◌≡◌, refl, sym, ap, ◌∙◌}
use mathlib.Core.Logic.{◌≢◌}
use native.Mathlib.Nat.{pow-suc, div-div-eq-div-mul}
use native.Mathlib.Omega.{arith}

module _ (z : ℕ → ℕ) (f : ℕ → ℕ → ℕ) where
  run_out : (fuel y : ℕ) → digits z f fuel 0 y ≡ z y
  run_out zero y = refl
  run_out (suc fuel) y = refl

  -- More fuel than enough changes nothing.
  spare_fuel :
      (enough more x y : ℕ)
      → x ≤ enough
      → enough ≤ more
      → digits z f more x y ≡ digits z f enough x y
  spare_fuel enough more zero y h l = run_out more y ∙ sym (run_out enough y)
  spare_fuel zero more (suc x) y h l = absurd (omega arith)
  spare_fuel (suc enough) zero (suc x) y h l = absurd (omega arith)
  spare_fuel (suc enough) (suc more) (suc x) y h l =
      ap (λ (t : ℕ). t * 2 + f (suc x % 2) (y % 2))
        (spare_fuel enough more (suc x / 2) (y / 2) (omega arith) (omega arith))

  -- An operation on digits, at a number that has not run out.
  lowest :
      (op : ℕ → ℕ → ℕ)
      → ((x y : ℕ) → op x y ≡ digits z f x x y)
      → (x y : ℕ) → op (suc x) y ≡ f (suc x % 2) (y % 2) + 2 * op (suc x / 2) (y / 2)
  lowest op means x y = omega (
    arith,
    means (suc x) y,
    means (suc x / 2) (y / 2),
    spare_fuel (suc x / 2) x (suc x / 2) (y / 2) (omega arith) (omega arith),
  )

pub bit_or_step : (x y : ℕ) → bit_or x y ≡ max (x % 2) (y % 2) + 2 * bit_or (x / 2) (y / 2)
bit_or_step zero y = omega (arith, bit_or-bitwise 0 y, bit_or-bitwise 0 (y / 2))
bit_or_step (suc x) y = lowest (λ y'. y') max bit_or (λ u v. bit_or-bitwise u v) x y

pub bit_and_step : (x y : ℕ) → bit_and x y ≡ min (x % 2) (y % 2) + 2 * bit_and (x / 2) (y / 2)
bit_and_step zero y = omega (arith, bit_and-bitwise 0 y, bit_and-bitwise 0 (y / 2))
bit_and_step (suc x) y = lowest (λ y'. 0) min bit_and (λ u v. bit_and-bitwise u v) x y

pub bit_xor_step : (x y : ℕ) → bit_xor x y ≡ (x % 2 + y % 2) % 2 + 2 * bit_xor (x / 2) (y / 2)
bit_xor_step zero y = omega (arith, bit_xor-bitwise 0 y, bit_xor-bitwise 0 (y / 2))
bit_xor_step (suc x) y =
    lowest (λ y'. y') differ bit_xor (λ u v. bit_xor-bitwise u v) x y
    ∙ ap (λ (t : ℕ). t + 2 * bit_xor (suc x / 2) (y / 2))
        (differ_of_digits (suc x % 2) (y % 2) (omega arith) (omega arith))
  where
    differ_of_digits : (u v : ℕ) → u < 2 → v < 2 → differ u v ≡ (u + v) % 2
    differ_of_digits zero v p q = omega arith
    differ_of_digits (suc zero) zero p q = refl
    differ_of_digits (suc zero) (suc zero) p q = refl
    differ_of_digits (suc zero) (suc (suc v)) p q = absurd (omega arith)
    differ_of_digits (suc (suc u)) v p q = absurd (omega arith)

-- Digit `k` of `a`, the lowest first.
abbrev pub bit_at : ℕ → ℕ → ℕ
bit_at a zero = a % 2
bit_at a (suc k) = bit_at (a / 2) k

pub bit_at-lt : (k a : ℕ) → bit_at a k < 2
bit_at-lt zero a = omega arith
bit_at-lt (suc k) a = bit_at-lt k (a / 2)

pub bit_at-bit_or : (k a b : ℕ) → bit_at (bit_or a b) k ≡ max (bit_at a k) (bit_at b k)
bit_at-bit_or zero a b = omega (arith, bit_or_step a b)
bit_at-bit_or (suc k) a b = ap (λ t. bit_at t k) half ∙ bit_at-bit_or k (a / 2) (b / 2)
  where
    half : bit_or a b / 2 ≡ bit_or (a / 2) (b / 2)
    half = omega (arith, bit_or_step a b)

pub bit_at-bit_and : (k a b : ℕ) → bit_at (bit_and a b) k ≡ min (bit_at a k) (bit_at b k)
bit_at-bit_and zero a b = omega (arith, bit_and_step a b)
bit_at-bit_and (suc k) a b = ap (λ t. bit_at t k) half ∙ bit_at-bit_and k (a / 2) (b / 2)
  where
    half : bit_and a b / 2 ≡ bit_and (a / 2) (b / 2)
    half = omega (arith, bit_and_step a b)

pub bit_at-bit_xor : (k a b : ℕ) → bit_at (bit_xor a b) k ≡ (bit_at a k + bit_at b k) % 2
bit_at-bit_xor zero a b = omega (arith, bit_xor_step a b)
bit_at-bit_xor (suc k) a b = ap (λ t. bit_at t k) half ∙ bit_at-bit_xor k (a / 2) (b / 2)
  where
    half : bit_xor a b / 2 ≡ bit_xor (a / 2) (b / 2)
    half = omega (arith, bit_xor_step a b)

-- Numbers with the same digits are equal.
pub bit_at_ext :
    (n a b : ℕ) → a < 2 ^ n → b < 2 ^ n → ((k : ℕ) → k < n → bit_at a k ≡ bit_at b k) → a ≡ b
bit_at_ext zero a b p q h = omega arith
bit_at_ext (suc n) a b p q h =
    let halves : a / 2 ≡ b / 2 =
      bit_at_ext n (a / 2) (b / 2) (omega (arith, pow-suc 2 n)) (omega (arith, pow-suc 2 n))
        (λ k l. h (suc k) (omega arith)) in
    omega (arith, h 0 (omega arith), halves)

pub bit_at_zero : (k : ℕ) → bit_at 0 k ≡ 0
bit_at_zero zero = refl
bit_at_zero (suc k) = bit_at_zero k

two-pow-half : (n : ℕ) → 2 ^ suc n / 2 ≡ 2 ^ n
two-pow-half n = omega (arith, pow-suc 2 n)

-- `1 << n` has the digit `n` and no other.
pub bit_at-two-pow_self : (n : ℕ) → bit_at (2 ^ n) n ≡ 1
bit_at-two-pow_self zero = refl
bit_at-two-pow_self (suc n) = ap (λ t. bit_at t n) (two-pow-half n) ∙ bit_at-two-pow_self n

pub bit_at-two-pow_ne : (n k : ℕ) → n ≢ k → bit_at (2 ^ n) k ≡ 0
bit_at-two-pow_ne zero zero h = absurd (h refl)
bit_at-two-pow_ne zero (suc k) h = bit_at_zero k
bit_at-two-pow_ne (suc n) zero h = omega (arith, pow-suc 2 n)
bit_at-two-pow_ne (suc n) (suc k) h =
    ap (λ t. bit_at t k) (two-pow-half n) ∙ bit_at-two-pow_ne n k (λ e. h (ap suc e))

-- Complement in `w` bits: `~a` turns every digit round.
pub bit_at-complement : (w a k : ℕ) → a < 2 ^ w → k < w → bit_at (2 ^ w - 1 - a) k ≡ 1 - bit_at a k
bit_at-complement zero a k p q = absurd (omega arith)
bit_at-complement (suc w) a zero p q = omega (arith, pow-suc 2 w)
bit_at-complement (suc w) a (suc k) p q =
    ap (λ t. bit_at t k) half
    ∙ bit_at-complement w (a / 2) k (omega (arith, pow-suc 2 w)) (omega arith)
  where
    half : (2 ^ suc w - 1 - a) / 2 ≡ 2 ^ w - 1 - a / 2
    half = omega (arith, pow-suc 2 w)

-- `(1 << k) & a` is not zero exactly when the digit `k` of `a` is one.
pub two-pow-bit_and : (k a : ℕ) → bit_and (2 ^ k) a ≡ bit_at a k * 2 ^ k
two-pow-bit_and zero a =
    let step : bit_and 1 a ≡ min 1 (a % 2) + 2 * bit_and 0 (a / 2) = bit_and_step 1 a in
    omega (arith, step, bit_and-bitwise 0 (a / 2))
two-pow-bit_and (suc k) a = omega (
  arith,
  bit_and_step (2 ^ suc k) a,
  pow-suc 2 k,
  ap (λ t. bit_and t (a / 2)) (two-pow-half k),
  two-pow-bit_and k (a / 2),
  ap (λ (t : ℕ). bit_at (a / 2) k * t) (pow-suc 2 k),
)

-- The results stay within the width.
pub bit_or-lt : (w a b : ℕ) → a < 2 ^ w → b < 2 ^ w → bit_or a b < 2 ^ w
bit_or-lt zero a b p q =
    omega (arith, ap (λ t. bit_or t b) (both_zero a p), ap (λ t. bit_or 0 t) (both_zero b q))
  where
    both_zero : (x : ℕ) → x < 2 ^ 0 → x ≡ 0
    both_zero x h = omega arith
bit_or-lt (suc w) a b p q = omega (
  arith,
  bit_or_step a b,
  pow-suc 2 w,
  bit_or-lt w (a / 2) (b / 2) (omega (arith, pow-suc 2 w)) (omega (arith, pow-suc 2 w)),
)

pub bit_and-le : (n a b : ℕ) → a ≤ n → bit_and a b ≤ a
bit_and-le n zero b h = omega (arith, bit_and-bitwise 0 b)
bit_and-le zero (suc a) b h = absurd (omega arith)
bit_and-le (suc n) (suc a) b h =
    omega (arith, bit_and_step (suc a) b, bit_and-le n (suc a / 2) (b / 2) (omega arith))

pub bit_and-le_right : (n a b : ℕ) → a ≤ n → bit_and a b ≤ b
bit_and-le_right n zero b h = omega (arith, bit_and-bitwise 0 b)
bit_and-le_right zero (suc a) b h = absurd (omega arith)
bit_and-le_right (suc n) (suc a) b h =
    omega (arith, bit_and_step (suc a) b, bit_and-le_right n (suc a / 2) (b / 2) (omega arith))

pub bit_xor-lt : (w a b : ℕ) → a < 2 ^ w → b < 2 ^ w → bit_xor a b < 2 ^ w
bit_xor-lt zero a b p q =
    omega (arith, ap (λ t. bit_xor t b) (both_zero a p), ap (λ t. bit_xor 0 t) (both_zero b q))
  where
    both_zero : (x : ℕ) → x < 2 ^ 0 → x ≡ 0
    both_zero x h = omega arith
bit_xor-lt (suc w) a b p q = omega (
  arith,
  bit_xor_step a b,
  pow-suc 2 w,
  bit_xor-lt w (a / 2) (b / 2) (omega (arith, pow-suc 2 w)) (omega (arith, pow-suc 2 w)),
)

-- `m ^ 1` is the neighbour of `m` in its pair.
pub bit_xor-one : (m : ℕ) → bit_xor m 1 ≡ m / 2 * 2 + (1 - m % 2)
bit_xor-one m = omega (arith, bit_xor_step m 1, bit_xor-zero (m / 2) (m / 2) (omega arith))
  where
    bit_xor-zero : (n a : ℕ) → a ≤ n → bit_xor a 0 ≡ a
    bit_xor-zero n zero h = refl
    bit_xor-zero zero (suc a) h = absurd (omega arith)
    bit_xor-zero (suc n) (suc a) h =
        omega (arith, bit_xor_step (suc a) 0, bit_xor-zero n (suc a / 2) (omega arith))

-- Shifting right by one more place halves.
pub shift_suc : (u k : ℕ) → u / 2 ^ suc k ≡ u / 2 ^ k / 2
shift_suc u k = omega (arith, ap (λ (t : ℕ). u / t) (pow-suc 2 k), div-div-eq-div-mul u (2 ^ k) 2)

pub pow_split : (k n : ℕ) → k ≤ n → 2 ^ (n - k) * 2 ^ k ≡ 2 ^ n
pow_split zero n h = let e : n - 0 ≡ n = omega arith in rw e (omega arith)
pow_split (suc k) zero h = absurd (omega arith)
pow_split (suc k) (suc n) h =
    let e : suc n - suc k ≡ n - k = omega arith in
    rw e (
      omega (
        arith,
        pow_split k n (omega arith),
        pow-suc 2 n,
        ap (λ (t : ℕ). 2 ^ (n - k) * t) (pow-suc 2 k),
      ))
