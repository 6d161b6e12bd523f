-- ===== src/Util/Swap64.antt =====
-- `Endian64_Swap` turns the order of all eight bytes round: it exchanges the halves, and turns each as
-- `Endian32_Swap` does.
use mfstools.Base.{
  ℕ, ◌+◌, ◌*◌, ◌/◌, ◌%◌, ◌^◌, ◌<◌, ◌≡◌, refl, ap, ap₂, ◌∙◌, Bool, true, false, arith, bit_and,
  bit_or, if◌then◌else◌, u64,
}
use mfstools.Util.{endian32_swap, endian64_swap, intswap64, same_order}
use mfstools.Util.Fields.{bit_or_fields, bit_and_fields, bit_and-low_mask}
use mfstools.Util.Swaps.{or_low, endian32_swap_lem}

-- The low halves of both halves, and the low bytes of both halves of a 32-bit number.
low_pairs : (k x : ℕ) → x < 2 ^ 32 → bit_and x 0x00FF00FF ≡ x / 2 ^ 16 % 2 ^ 8 * 2 ^ 16 + x % 2 ^ 8
low_pairs k x h =
    ap (λ t. bit_and t 0x00FF00FF) parts
    ∙ bit_and_fields 16 (x / 2 ^ 16) (x % 2 ^ 16) 0xFF 0xFF (omega arith) (omega arith)
    ∙ omega (arith, bit_and-low_mask 8 (x / 2 ^ 16), bit_and-low_mask 8 (x % 2 ^ 16))
  where
    parts : x ≡ x / 2 ^ 16 * 2 ^ 16 + x % 2 ^ 16
    parts = omega arith

low_halves :
    (a b : ℕ)
    → b < 2 ^ 32
    → bit_and (a * 2 ^ 32 + b) 0x0000FFFF0000FFFF ≡ a % 2 ^ 16 * 2 ^ 32 + b % 2 ^ 16
low_halves a b h =
    bit_and_fields 32 a b 0xFFFF 0xFFFF h (omega arith)
    ∙ omega (arith, bit_and-low_mask 16 a, bit_and-low_mask 16 b)

low_bytes :
    (a b : ℕ)
    → a < 2 ^ 32
    → b < 2 ^ 32
    → bit_and (a * 2 ^ 32 + b) 0x00FF00FF00FF00FF
      ≡ (a / 2 ^ 16 % 2 ^ 8 * 2 ^ 16 + a % 2 ^ 8) * 2 ^ 32
        + (b / 2 ^ 16 % 2 ^ 8 * 2 ^ 16 + b % 2 ^ 8)
low_bytes a b h k =
    bit_and_fields 32 a b 0x00FF00FF 0x00FF00FF k (omega arith)
    ∙ omega (arith, low_pairs 0 a h, low_pairs 0 b k)

-- The half words of each half exchanged.
swap_words :
    (a b : ℕ)
    → a < 2 ^ 32
    → b < 2 ^ 32
    → let x = a * 2 ^ 32 + b in
      bit_or (bit_and (x / 2 ^ 16) 0x0000FFFF0000FFFF) (u64 (bit_and x 0x0000FFFF0000FFFF * 2 ^ 16))
      ≡ (a % 2 ^ 16 * 2 ^ 16 + a / 2 ^ 16) * 2 ^ 32 + (b % 2 ^ 16 * 2 ^ 16 + b / 2 ^ 16)
swap_words a b h k =
    ap₂ bit_or first second
    ∙ bit_or_fields 32 (a / 2 ^ 16) (b / 2 ^ 16) (a % 2 ^ 16 * 2 ^ 16) (b % 2 ^ 16 * 2 ^ 16)
        (omega arith) (omega arith)
    ∙ omega (
      arith,
      or_low 16 (a % 2 ^ 16) (a / 2 ^ 16) (omega arith),
      or_low 16 (b % 2 ^ 16) (b / 2 ^ 16) (omega arith),
    )
  where
    shifted : (a * 2 ^ 32 + b) / 2 ^ 16 ≡ a / 2 ^ 16 * 2 ^ 32 + (a % 2 ^ 16 * 2 ^ 16 + b / 2 ^ 16)
    shifted = omega arith

    first :
        bit_and ((a * 2 ^ 32 + b) / 2 ^ 16) 0x0000FFFF0000FFFF ≡ a / 2 ^ 16 * 2 ^ 32 + b / 2 ^ 16
    first =
        ap (λ t. bit_and t 0x0000FFFF0000FFFF) shifted
        ∙ low_halves (a / 2 ^ 16) (a % 2 ^ 16 * 2 ^ 16 + b / 2 ^ 16) (omega arith)
        ∙ omega arith

    second :
        u64 (bit_and (a * 2 ^ 32 + b) 0x0000FFFF0000FFFF * 2 ^ 16)
        ≡ a % 2 ^ 16 * 2 ^ 16 * 2 ^ 32 + b % 2 ^ 16 * 2 ^ 16
    second = omega (arith, low_halves a b k)

-- The bytes of each half word exchanged.
swap_bytes :
    (a b : ℕ)
    → a < 2 ^ 32
    → b < 2 ^ 32
    → let x = a * 2 ^ 32 + b in
      bit_or (bit_and (x / 2 ^ 8) 0x00FF00FF00FF00FF) (u64 (bit_and x 0x00FF00FF00FF00FF * 2 ^ 8))
      ≡ ((a / 2 ^ 16 % 2 ^ 8 * 2 ^ 8 + a / 2 ^ 24) * 2 ^ 16
            + (a % 2 ^ 8 * 2 ^ 8 + a / 2 ^ 8 % 2 ^ 8))
          * 2 ^ 32
        + ((b / 2 ^ 16 % 2 ^ 8 * 2 ^ 8 + b / 2 ^ 24) * 2 ^ 16
            + (b % 2 ^ 8 * 2 ^ 8 + b / 2 ^ 8 % 2 ^ 8))
swap_bytes a b h k =
    ap₂ bit_or first second
    ∙ bit_or_fields 32 (a / 2 ^ 24 * 2 ^ 16 + a / 2 ^ 8 % 2 ^ 8)
        (b / 2 ^ 24 * 2 ^ 16 + b / 2 ^ 8 % 2 ^ 8)
        (a / 2 ^ 16 % 2 ^ 8 * 2 ^ 8 * 2 ^ 16 + a % 2 ^ 8 * 2 ^ 8)
        (b / 2 ^ 16 % 2 ^ 8 * 2 ^ 8 * 2 ^ 16 + b % 2 ^ 8 * 2 ^ 8) (omega arith) (omega arith)
    ∙ omega (arith, woven a h, woven b k)
  where
    shifted : (a * 2 ^ 32 + b) / 2 ^ 8 ≡ a / 2 ^ 8 * 2 ^ 32 + (a % 2 ^ 8 * 2 ^ 24 + b / 2 ^ 8)
    shifted = omega arith

    first :
        bit_and ((a * 2 ^ 32 + b) / 2 ^ 8) 0x00FF00FF00FF00FF
        ≡ (a / 2 ^ 24 * 2 ^ 16 + a / 2 ^ 8 % 2 ^ 8) * 2 ^ 32
          + (b / 2 ^ 24 * 2 ^ 16 + b / 2 ^ 8 % 2 ^ 8)
    first =
        ap (λ t. bit_and t 0x00FF00FF00FF00FF) shifted
        ∙ low_bytes (a / 2 ^ 8) (a % 2 ^ 8 * 2 ^ 24 + b / 2 ^ 8) (omega arith) (omega arith)
        ∙ omega arith

    second :
        u64 (bit_and (a * 2 ^ 32 + b) 0x00FF00FF00FF00FF * 2 ^ 8)
        ≡ (a / 2 ^ 16 % 2 ^ 8 * 2 ^ 8 * 2 ^ 16 + a % 2 ^ 8 * 2 ^ 8) * 2 ^ 32
          + (b / 2 ^ 16 % 2 ^ 8 * 2 ^ 8 * 2 ^ 16 + b % 2 ^ 8 * 2 ^ 8)
    second = omega (arith, low_bytes a b h k)

    woven :
        (z : ℕ)
        → z < 2 ^ 32
        → bit_or
            (z / 2 ^ 24 * 2 ^ 16 + z / 2 ^ 8 % 2 ^ 8)
            (z / 2 ^ 16 % 2 ^ 8 * 2 ^ 8 * 2 ^ 16 + z % 2 ^ 8 * 2 ^ 8)
          ≡ (z / 2 ^ 16 % 2 ^ 8 * 2 ^ 8 + z / 2 ^ 24) * 2 ^ 16
            + (z % 2 ^ 8 * 2 ^ 8 + z / 2 ^ 8 % 2 ^ 8)
    woven z l =
        bit_or_fields 16 (z / 2 ^ 24) (z / 2 ^ 8 % 2 ^ 8) (z / 2 ^ 16 % 2 ^ 8 * 2 ^ 8)
          (z % 2 ^ 8 * 2 ^ 8) (omega arith) (omega arith)
        ∙ omega (
          arith,
          or_low 8 (z / 2 ^ 16 % 2 ^ 8) (z / 2 ^ 24) (omega arith),
          or_low 8 (z % 2 ^ 8) (z / 2 ^ 8 % 2 ^ 8) (omega arith),
        )

swap_halves :
    (n : ℕ) → n < 2 ^ 64 → bit_or (n / 2 ^ 32) (u64 (n * 2 ^ 32)) ≡ n % 2 ^ 32 * 2 ^ 32 + n / 2 ^ 32
swap_halves n h =
    ap (bit_or (n / 2 ^ 32)) shifted ∙ or_low 32 (n % 2 ^ 32) (n / 2 ^ 32) (omega arith)
  where
    shifted : u64 (n * 2 ^ 32) ≡ n % 2 ^ 32 * 2 ^ 32
    shifted = omega arith

-- The halves exchanged, and the bytes of each in the other order.
pub endian64_swap_lem :
    (n : ℕ)
    → n < 2 ^ 64
    → endian64_swap n ≡ endian32_swap (n % 2 ^ 32) * 2 ^ 32 + endian32_swap (n / 2 ^ 32)
unfolding endian64_swap
endian64_swap_lem n h =
    ap (λ (x : ℕ). bytes (words x)) (swap_halves n h)
    ∙ ap (λ (x : ℕ). bytes x) (swap_words (n % 2 ^ 32) (n / 2 ^ 32) (omega arith) (omega arith))
    ∙ swap_bytes (turned (n % 2 ^ 32)) (turned (n / 2 ^ 32)) (omega arith) (omega arith)
    ∙ omega (
      arith,
      endian32_swap_lem (n % 2 ^ 32) (omega arith),
      endian32_swap_lem (n / 2 ^ 32) (omega arith),
    )
  where
    words : ℕ → ℕ
    words x =
        bit_or (bit_and (x / 2 ^ 16) 0x0000FFFF0000FFFF)
          (u64 (bit_and x 0x0000FFFF0000FFFF * 2 ^ 16))

    bytes : ℕ → ℕ
    bytes x =
        bit_or (bit_and (x / 2 ^ 8) 0x00FF00FF00FF00FF) (u64 (bit_and x 0x00FF00FF00FF00FF * 2 ^ 8))

    turned : ℕ → ℕ
    turned z = z % 2 ^ 16 * 2 ^ 16 + z / 2 ^ 16

-- Swapping a 64-bit number twice gives it back, and it fits its width.
pub intswap64_twice :
    (mfs_lsb arch_lsb : Bool) (n : ℕ)
    → n < 2 ^ 64
    → (intswap64 mfs_lsb arch_lsb (intswap64 mfs_lsb arch_lsb n) ≡ n)
      × (intswap64 mfs_lsb arch_lsb n < 2 ^ 64)
unfolding intswap64
intswap64_twice mfs_lsb arch_lsb n h = by_order (same_order mfs_lsb arch_lsb)
  where
    low : endian32_swap (n % 2 ^ 32) < 2 ^ 32
    low = omega (arith, endian32_swap_lem (n % 2 ^ 32) (omega arith))

    high : endian32_swap (n / 2 ^ 32) < 2 ^ 32
    high = omega (arith, endian32_swap_lem (n / 2 ^ 32) (omega arith))

    fits : endian64_swap n < 2 ^ 64
    fits = omega (arith, endian64_swap_lem n h, low, high)

    back32 : (z : ℕ) → z < 2 ^ 32 → endian32_swap (endian32_swap z) ≡ z
    back32 z l = omega (
      arith,
      endian32_swap_lem z l,
      endian32_swap_lem (endian32_swap z) (omega (arith, endian32_swap_lem z l)),
    )

    back : endian64_swap (endian64_swap n) ≡ n
    back =
        endian64_swap_lem (endian64_swap n) fits
        ∙ ap₂ (λ (a b : ℕ). endian32_swap a * 2 ^ 32 + endian32_swap b)
            {x = endian64_swap n % 2 ^ 32} {y = endian32_swap (n / 2 ^ 32)}
            {u = endian64_swap n / 2 ^ 32} {v = endian32_swap (n % 2 ^ 32)}
            (omega (arith, endian64_swap_lem n h, low, high))
            (omega (arith, endian64_swap_lem n h, low, high))
        ∙ omega (arith, back32 (n / 2 ^ 32) (omega arith), back32 (n % 2 ^ 32) (omega arith))

    by_order :
        (same : Bool)
        → ((if same
              then (if same then n else endian64_swap n)
              else endian64_swap (if same then n else endian64_swap n))
            ≡ n)
          × ((if same then n else endian64_swap n) < 2 ^ 64)
    by_order true = (refl, h)
    by_order false = (back, fits)
