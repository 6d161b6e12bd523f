-- ===== src/Zonemap/Bitmap/Laws.antt =====
-- What the bit functions of lib/zonemap.c do to each bit: setting and clearing touch one bit only.
use mfstools.Base.{
  ℕ, ◌-◌, ◌*◌, ◌/◌, ◌%◌, ◌^◌, ◌<◌, ◌≡◌, ap, ◌∙◌, true, false, if◌then◌else◌, ◌==◌, bit_and, bit_or,
  arith, length, get_or, set, length-set, get_or-set_self, get_or-set_ne, u32,
}
use mfstools.Base.Bits.{bit_at, bit_at-lt, two-pow-bit_and}
use mfstools.Base.Masks.{set_digit, clear_digit, low_mask-bit_and}
use native.Mathlib.Nat.{pow-le-pow_right, one-le-pow}
use native.Mathlib.Decide.{ℕ_discrete}
use mfstools.Zonemap.Bitmap.{Bitmap, bit_mask, bit_state_get, bit_state_set, bit_state_clear}

-- The place of a bit within its word.
abbrev pub place : ℕ → ℕ
place bit = 31 - bit % 32

mask_place : (bit : ℕ) → bit < 2 ^ 32 → bit_and 31 (2 ^ 32 - 1 - bit) ≡ place bit
mask_place bit h =
    let low_five : bit_and 31 (2 ^ 32 - 1 - bit) ≡ (2 ^ 32 - 1 - bit) % 32 =
      low_mask-bit_and 5 (2 ^ 32 - 1 - bit) in
    omega arith

bit_mask_lem : (bit : ℕ) → bit < 2 ^ 32 → bit_mask bit ≡ 2 ^ place bit
unfolding bit_mask
bit_mask_lem bit h =
    ap (λ k. u32 (1 * 2 ^ k)) (mask_place bit h)
    ∙ omega (arith, pow-le-pow_right {n = 2} (omega arith) {i = place bit} {j = 31} (omega arith))

-- The word at a bit's index, and the bit's digit in it.
abbrev pub digit : Bitmap → ℕ → ℕ
digit bitmap bit = bit_at (get_or bitmap.words (bit / 32) 0) (place bit)

pub bit_state_get_lem :
    (bitmap : Bitmap) (bit : ℕ) → bit < 2 ^ 32 → bit_state_get bitmap bit ≡ (digit bitmap bit == 1)
unfolding bit_state_get
bit_state_get_lem bitmap bit h = ground (
  arith,
  ap (λ m. bit_and m (get_or bitmap.words (bit / 32) 0)) (bit_mask_lem bit h),
  two-pow-bit_and (place bit) (get_or bitmap.words (bit / 32) 0),
  one-le-pow (place bit) 2,
  bit_at-lt (place bit) (get_or bitmap.words (bit / 32) 0),
)

-- A bit lies within the words of its bitmap.
abbrev pub InRange : Bitmap → ℕ → Type 0
InRange bitmap bit = (bit / 32 < length bitmap.words) × (bit < 2 ^ 32)

module _ (bitmap : Bitmap) (i : ℕ) (r : InRange bitmap i) (j : ℕ) (w : ℕ) where
  open bitmap use {words}

  -- A digit of the array after the word of bit `i` is replaced by `w`.
  digit_new : ℕ
  digit_new = bit_at (get_or (set words (i / 32) w) (j / 32) 0) (place j)

  digit_new_lem :
      (v : ℕ)
      → ((q : ℕ)
          → q < 32
          → bit_at w q ≡ (if place i == q then v else bit_at (get_or words (i / 32) 0) q))
      → digit_new ≡ (if i == j then v else digit bitmap j)
  unfolding digit_new
  digit_new_lem v h = elim (ℕ_discrete (i / 32) (j / 32)) [
    | no ne ↦
        ground (arith, ap (λ t. bit_at t (place j)) (get_or-set_ne words (i / 32) (j / 32) w 0 ne))
    | yes e ↦ ground (
      arith,
      ap (λ t. bit_at (get_or (set words (i / 32) w) t 0) (place j)) e,
      ap (λ t. bit_at t (place j)) (get_or-set_self words (i / 32) w 0 r.0),
      ap (λ t. bit_at (get_or words t 0) (place j)) e,
      h (place j) (omega arith),
    )
  ]

module _ (bitmap : Bitmap) (i j : ℕ) (r : InRange bitmap i) (h : j < 2 ^ 32) where
  open bitmap use {words}

  -- Setting a bit makes it read as one and leaves every other bit alone.
  pub get-set :
      bit_state_get (bit_state_set bitmap i) j ≡ (if i == j then true else bit_state_get bitmap j)
  unfolding bit_state_set digit_new
  get-set = ground (
    arith,
    bit_state_get_lem (bit_state_set bitmap i) j h,
    bit_state_get_lem bitmap j h,
    digit_new_lem bitmap i r j (bit_or (get_or words (i / 32) 0) (bit_mask i)) 1
        (λ q l. rw (bit_mask_lem i r.1) (set_digit (get_or words (i / 32) 0) (place i) q)),
  )

  -- Clearing a bit makes it read as zero and leaves every other bit alone.
  pub get-clear :
      bit_state_get (bit_state_clear bitmap i) j
      ≡ (if i == j then false else bit_state_get bitmap j)
  unfolding bit_state_clear digit_new
  get-clear = ground (
    arith,
    bit_state_get_lem (bit_state_clear bitmap i) j h,
    bit_state_get_lem bitmap j h,
    digit_new_lem bitmap i r j (bit_and (get_or words (i / 32) 0) (2 ^ 32 - 1 - bit_mask i)) 0
        (λ q l.
          rw (bit_mask_lem i r.1)
            (clear_digit (get_or words (i / 32) 0) (place i) q (omega arith) l)),
  )

-- Neither operation changes how many words there are.
pub length-set_words :
    (bitmap : Bitmap) (i : ℕ) → length (bit_state_set bitmap i).words ≡ length bitmap.words
unfolding bit_state_set
length-set_words bitmap i = length-set bitmap.words (i / 32) _

pub length-clear_words :
    (bitmap : Bitmap) (i : ℕ) → length (bit_state_clear bitmap i).words ≡ length bitmap.words
unfolding bit_state_clear
length-clear_words bitmap i = length-set bitmap.words (i / 32) _
