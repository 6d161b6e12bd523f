-- ===== src/Util/Swaps.antt =====
-- The swaps reverse the bytes, and so each undoes itself.
use mfstools.Base.{
  ℕ, ◌+◌, ◌*◌, ◌/◌, ◌%◌, ◌^◌, ◌<◌, ◌≡◌, ap, ap₂, ◌∙◌, arith, bit_and, bit_or, Bool, u32,
}
use mfstools.Util.{endian16_swap, endian32_swap, intswap16, intswap32}
use mfstools.Util.Fields.{
  bit_or_fields, bit_and_fields, bit_and-low_mask, bit_and-zero, zero-bit_or, bit_or-zero,
}

-- `x << k | y` of disjoint fields, either way round.
pub or_high : (k x y : ℕ) → y < 2 ^ k → bit_or (x * 2 ^ k) y ≡ x * 2 ^ k + y
or_high k x y h =
    ap₂ bit_or {x = x * 2 ^ k} {y = x * 2 ^ k + 0} {u = y} {v = 0 * 2 ^ k + y} (omega arith)
      (omega arith)
    ∙ bit_or_fields k x 0 0 y (omega arith) h
    ∙ omega (arith, ap (λ (t : ℕ). t * 2 ^ k) (bit_or-zero x), zero-bit_or y)

pub or_low : (k x y : ℕ) → y < 2 ^ k → bit_or y (x * 2 ^ k) ≡ x * 2 ^ k + y
or_low k x y h =
    ap₂ bit_or {x = y} {y = 0 * 2 ^ k + y} {u = x * 2 ^ k} {v = x * 2 ^ k + 0} (omega arith)
      (omega arith)
    ∙ bit_or_fields k 0 y x 0 h (omega arith)
    ∙ omega (arith, ap (λ (t : ℕ). t * 2 ^ k) (zero-bit_or x), bit_or-zero y)

-- The masks that keep every other field.
keep_high : (y : ℕ) → y < 2 ^ 16 → bit_and y 0xff00 ≡ y / 2 ^ 8 * 2 ^ 8
keep_high y h =
    ap (λ t. bit_and t 0xff00) parts
    ∙ bit_and_fields 8 (y / 2 ^ 8) (y % 2 ^ 8) 0xff 0 (omega arith) (omega arith)
    ∙ omega (arith, bit_and-low_mask 8 (y / 2 ^ 8), bit_and-zero (y % 2 ^ 8))
  where
    parts : y ≡ y / 2 ^ 8 * 2 ^ 8 + y % 2 ^ 8
    parts = omega arith

pub keep_high_32 :
    (x : ℕ) → x < 2 ^ 32 → bit_and x 0xff00ff00 ≡ x / 2 ^ 24 * 2 ^ 24 + x / 2 ^ 8 % 2 ^ 8 * 2 ^ 8
keep_high_32 x h =
    ap (λ t. bit_and t 0xff00ff00) parts
    ∙ bit_and_fields 16 (x / 2 ^ 16) (x % 2 ^ 16) 0xff00 0xff00 (omega arith) (omega arith)
    ∙ omega (arith, keep_high (x / 2 ^ 16) (omega arith), keep_high (x % 2 ^ 16) (omega arith))
  where
    parts : x ≡ x / 2 ^ 16 * 2 ^ 16 + x % 2 ^ 16
    parts = omega arith

-- Two pairs of bytes put between one another.
weave :
    (a b c d : ℕ)
    → a < 2 ^ 8
    → b < 2 ^ 8
    → c < 2 ^ 8
    → d < 2 ^ 8
    → bit_or (a * 2 ^ 16 + b) (c * 2 ^ 24 + d * 2 ^ 8) ≡ (c * 2 ^ 8 + a) * 2 ^ 16 + (d * 2 ^ 8 + b)
weave a b c d p q r s =
    ap (λ t. bit_or (a * 2 ^ 16 + b) t) parts
    ∙ bit_or_fields 16 a b (c * 2 ^ 8) (d * 2 ^ 8) (omega arith) (omega arith)
    ∙ omega (arith, or_low 8 c a p, or_low 8 d b q)
  where
    parts : c * 2 ^ 24 + d * 2 ^ 8 ≡ c * 2 ^ 8 * 2 ^ 16 + d * 2 ^ 8
    parts = omega arith

endian16_swap_lem : (n : ℕ) → n < 2 ^ 16 → endian16_swap n ≡ n % 2 ^ 8 * 2 ^ 8 + n / 2 ^ 8
unfolding endian16_swap
endian16_swap_lem n h = omega (arith, or_high 8 n (n / 2 ^ 8) (omega arith))

-- The second step of `Endian32_Swap`, on its own.
byte_pairs :
    (x : ℕ)
    → x < 2 ^ 32
    → bit_or (bit_and x 0xff00ff00 / 2 ^ 8) (bit_and (u32 (x * 2 ^ 8)) 0xff00ff00)
      ≡ (x / 2 ^ 16 % 2 ^ 8 * 2 ^ 8 + x / 2 ^ 24) * 2 ^ 16 + (x % 2 ^ 8 * 2 ^ 8 + x / 2 ^ 8 % 2 ^ 8)
byte_pairs x h =
    ap₂ bit_or {x = bit_and x 0xff00ff00 / 2 ^ 8} {y = x / 2 ^ 24 * 2 ^ 16 + x / 2 ^ 8 % 2 ^ 8}
      {u = bit_and (u32 (x * 2 ^ 8)) 0xff00ff00}
      {v = x / 2 ^ 16 % 2 ^ 8 * 2 ^ 24 + x % 2 ^ 8 * 2 ^ 8} (omega (arith, keep_high_32 x h))
      (omega (arith, keep_high_32 (u32 (x * 2 ^ 8)) (omega arith)))
    ∙ weave (x / 2 ^ 24) (x / 2 ^ 8 % 2 ^ 8) (x / 2 ^ 16 % 2 ^ 8) (x % 2 ^ 8) (omega arith)
        (omega arith) (omega arith) (omega arith)

half_words :
    (n : ℕ) → n < 2 ^ 32 → bit_or (u32 (n * 2 ^ 16)) (n / 2 ^ 16) ≡ n % 2 ^ 16 * 2 ^ 16 + n / 2 ^ 16
half_words n h =
    ap (λ t. bit_or t (n / 2 ^ 16)) shifted ∙ or_high 16 (n % 2 ^ 16) (n / 2 ^ 16) (omega arith)
  where
    shifted : u32 (n * 2 ^ 16) ≡ n % 2 ^ 16 * 2 ^ 16
    shifted = omega arith

-- The bytes in the other order.
pub endian32_swap_lem :
    (n : ℕ)
    → n < 2 ^ 32
    → endian32_swap n
      ≡ n % 2 ^ 8 * 2 ^ 24 + n / 2 ^ 8 % 2 ^ 8 * 2 ^ 16 + n / 2 ^ 16 % 2 ^ 8 * 2 ^ 8 + n / 2 ^ 24
unfolding endian32_swap
endian32_swap_lem n h =
    ap (λ x. bit_or (bit_and x 0xff00ff00 / 2 ^ 8) (bit_and (u32 (x * 2 ^ 8)) 0xff00ff00))
      (half_words n h)
    ∙ byte_pairs (n % 2 ^ 16 * 2 ^ 16 + n / 2 ^ 16) (omega arith)
    ∙ omega arith

-- Swapping twice gives the number back, and a swapped number fits its width: what is stored through
-- `intswap32` is what is read through it, on either kind of drive and machine.
pub intswap32_twice :
    (mfs_lsb arch_lsb : Bool) (n : ℕ)
    → n < 2 ^ 32
    → (intswap32 mfs_lsb arch_lsb (intswap32 mfs_lsb arch_lsb n) ≡ n)
      × (intswap32 mfs_lsb arch_lsb n < 2 ^ 32)
unfolding intswap32
intswap32_twice mfs_lsb arch_lsb n h = ground (
  arith,
  endian32_swap_lem n h,
  endian32_swap_lem (endian32_swap n) (omega (arith, endian32_swap_lem n h)),
)

-- The same for 16 bits.
pub intswap16_twice :
    (mfs_lsb arch_lsb : Bool) (n : ℕ)
    → n < 2 ^ 16
    → (intswap16 mfs_lsb arch_lsb (intswap16 mfs_lsb arch_lsb n) ≡ n)
      × (intswap16 mfs_lsb arch_lsb n < 2 ^ 16)
unfolding intswap16
intswap16_twice mfs_lsb arch_lsb n h = ground (
  arith,
  endian16_swap_lem n h,
  endian16_swap_lem (endian16_swap n) (omega (arith, endian16_swap_lem n h)),
)
