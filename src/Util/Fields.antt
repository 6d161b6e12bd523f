-- ===== src/Util/Fields.antt =====
-- `|` and `&` on numbers that are made of fields.
use mfstools.Base.{
  ℕ, zero, suc, ◌+◌, ◌-◌, ◌*◌, ◌/◌, ◌%◌, ◌^◌, ◌≤◌, ◌<◌, ◌≡◌, refl, ap, ap₂, ◌∙◌, arith, bit_and,
  bit_or,
}
use mfstools.Base.Bits.{bit_or_step, bit_and_step}
use mfstools.Base.Masks.{low_mask-bit_and}
use Prim.Native.Nat.{bit_and-bitwise, bit_or-bitwise}
use native.Mathlib.Nat.{pow-suc}

double_field : (k q r : ℕ) → q * 2 ^ suc k + r ≡ 2 * (q * 2 ^ k) + r
double_field k q r = omega (arith, ap (λ (t : ℕ). q * t) (pow-suc 2 k))

half_field : (k q r : ℕ) → (q * 2 ^ suc k + r) / 2 ≡ q * 2 ^ k + r / 2
half_field k q r = omega (arith, double_field k q r)

parity_field : (k q r : ℕ) → (q * 2 ^ suc k + r) % 2 ≡ r % 2
parity_field k q r = omega (arith, double_field k q r)

-- Each field is worked on by itself.
pub bit_or_fields :
    (k a b c d : ℕ)
    → b < 2 ^ k
    → d < 2 ^ k
    → bit_or (a * 2 ^ k + b) (c * 2 ^ k + d) ≡ bit_or a c * 2 ^ k + bit_or b d
bit_or_fields zero a b c d p q =
    ap₂ bit_or {x = a * 1 + b} {y = a} {u = c * 1 + d} {v = c} (omega arith) (omega arith)
    ∙ omega (arith, ap₂ bit_or {x = b} {y = 0} {u = d} {v = 0} (omega arith) (omega arith))
bit_or_fields (suc k) a b c d p q = omega (
  arith,
  bit_or_step (a * 2 ^ suc k + b) (c * 2 ^ suc k + d),
  ap₂ bit_or (half_field k a b) (half_field k c d),
  parity_field k a b,
  parity_field k c d,
  bit_or_fields k a (b / 2) c (d / 2) (omega (arith, pow-suc 2 k)) (omega (arith, pow-suc 2 k)),
  bit_or_step b d,
  ap (λ (t : ℕ). bit_or a c * t) (pow-suc 2 k),
)

pub bit_and_fields :
    (k a b c d : ℕ)
    → b < 2 ^ k
    → d < 2 ^ k
    → bit_and (a * 2 ^ k + b) (c * 2 ^ k + d) ≡ bit_and a c * 2 ^ k + bit_and b d
bit_and_fields zero a b c d p q =
    ap₂ bit_and {x = a * 1 + b} {y = a} {u = c * 1 + d} {v = c} (omega arith) (omega arith)
    ∙ omega (arith, ap₂ bit_and {x = b} {y = 0} {u = d} {v = 0} (omega arith) (omega arith))
bit_and_fields (suc k) a b c d p q = omega (
  arith,
  bit_and_step (a * 2 ^ suc k + b) (c * 2 ^ suc k + d),
  ap₂ bit_and (half_field k a b) (half_field k c d),
  parity_field k a b,
  parity_field k c d,
  bit_and_fields k a (b / 2) c (d / 2) (omega (arith, pow-suc 2 k)) (omega (arith, pow-suc 2 k)),
  bit_and_step b d,
  ap (λ (t : ℕ). bit_and a c * t) (pow-suc 2 k),
)

bit_and_comm_fuel : (n a b : ℕ) → a ≤ n → b ≤ n → bit_and a b ≡ bit_and b a
bit_and_comm_fuel zero a b p q =
    ap₂ bit_and {x = a} {y = b} {u = b} {v = a} (omega arith) (omega arith)
bit_and_comm_fuel (suc n) zero zero p q = refl
bit_and_comm_fuel (suc n) zero (suc b) p q = omega (
  arith,
  bit_and_step 0 (suc b),
  bit_and_step (suc b) 0,
  bit_and_comm_fuel n 0 (suc b / 2) (omega arith) (omega arith),
)
bit_and_comm_fuel (suc n) (suc a) b p q = omega (
  arith,
  bit_and_step (suc a) b,
  bit_and_step b (suc a),
  bit_and_comm_fuel n (suc a / 2) (b / 2) (omega arith) (omega arith),
)

pub bit_and_comm : (a b : ℕ) → bit_and a b ≡ bit_and b a
bit_and_comm a b = bit_and_comm_fuel (a + b) a b (omega arith) (omega arith)

pub bit_and-low_mask : (k x : ℕ) → bit_and x (2 ^ k - 1) ≡ x % 2 ^ k
bit_and-low_mask k x = bit_and_comm x (2 ^ k - 1) ∙ low_mask-bit_and k x

pub bit_and-zero : (x : ℕ) → bit_and x 0 ≡ 0
bit_and-zero x = bit_and_comm x 0 ∙ bit_and-bitwise 0 x

pub zero-bit_or : (x : ℕ) → bit_or 0 x ≡ x
zero-bit_or x = bit_or-bitwise 0 x

pub bit_or-zero : (x : ℕ) → bit_or x 0 ≡ x
bit_or-zero x = or_zero_fuel x x (omega arith)
  where
    or_zero_fuel : (n a : ℕ) → a ≤ n → bit_or a 0 ≡ a
    or_zero_fuel n zero h = refl
    or_zero_fuel zero (suc a) h = absurd (omega arith)
    or_zero_fuel (suc n) (suc a) h =
        omega (arith, bit_or_step (suc a) 0, or_zero_fuel n (suc a / 2) (omega arith))
