-- ===== src/Zonemap/Update/Alloc.antt =====
-- Taking a block out of a larger free one, against the count of `Cover`.
use mfstools.Base.{
  ℕ, zero, suc, ◌+◌, ◌-◌, ◌/◌, ◌^◌, ◌≤◌, ◌<◌, ◌≡◌, refl, ◌∙◌, true, false, arith, List, length,
  get_or, modify, length-modify, bit_xor, ◌==◌, u32,
}
use mfstools.Base.Bits.{bit_xor-one}
use native.Mathlib.Numerals.{add-one}
use mfstools.Zonemap.Bitmap.{Bitmap, no_bitmap, bit_state_get, bit_state_clear}
use mfstools.Zonemap.Bitmap.Laws.{get-clear, length-clear_words}
use mfstools.Zonemap.Update.{level_bit, less_free, mark_free, take_block}
use mfstools.Zonemap.Update.Cover.{
  ind, halve, cover, cover-modify, Fits, Fits-modify, Fits-InRange, halve-lt, halve-suc,
  bit-lt-word, neighbour-lt, half-lt,
}
use mfstools.Zonemap.Update.Free.{
  cover-mark_free, length-mark_free, Fits-mark_free, level_bit-mark_free_ne,
}

-- The state after the block `m` of level `order` is taken: the same room, and each smallest block
-- of it counted once less.
pub record Taken (n order m : ℕ) (before after : List Bitmap) : Type 0 where
  pub levels : length after ≡ length before
  pub fits : Fits n after
  pub free : (u : ℕ) → u < 2 ^ n → cover after u + ind (m == halve order u) ≡ cover before u

-- The neighbours on the way up to the free block are all taken, and the block is free.
abbrev pub PathUp : ℕ → ℕ → ℕ → List Bitmap → Type 0
PathUp zero order m bitmaps = level_bit bitmaps order m ≡ true
PathUp (suc left) order m bitmaps =
    (level_bit bitmaps order (bit_xor m 1) ≡ false) × PathUp left (suc order) (m / 2) bitmaps

cleared : ℕ → Bitmap → Bitmap
cleared m b = record (less_free 1 (bit_state_clear b m)) { last = u32 (m + 1) }

get-cleared :
    (m : ℕ) (b : Bitmap) (i : ℕ)
    → bit_state_get (cleared m b) i ≡ bit_state_get (bit_state_clear b m) i
unfolding cleared bit_state_get
get-cleared m b i = refl

length-cleared : (m : ℕ) (b : Bitmap) → length (cleared m b).words ≡ length b.words
unfolding cleared
length-cleared m b = length-clear_words b m

PathUp-mark_free :
    (left order l m i : ℕ) (bitmaps : List Bitmap)
    → l < order
    → PathUp left order m bitmaps
    → PathUp left order m (mark_free l i bitmaps)
PathUp-mark_free zero order l m i bitmaps h p =
    level_bit-mark_free_ne l i order m bitmaps (omega arith) ∙ p
PathUp-mark_free (suc left) order l m i bitmaps h (off, p) = (
  level_bit-mark_free_ne l i order (bit_xor m 1) bitmaps (omega arith) ∙ off,
  PathUp-mark_free left (suc order) l (m / 2) i bitmaps (omega arith) p,
)

module _ (n : ℕ) (small : n < 32) where
  take_whole-Taken :
      (order m : ℕ) (bitmaps : List Bitmap)
      → order < length bitmaps
      → order ≤ n
      → Fits n bitmaps
      → m < 2 ^ (n - order)
      → level_bit bitmaps order m ≡ true
      → Taken n order m bitmaps (modify bitmaps order (cleared m))
  take_whole-Taken order m bitmaps inside below fits range on = record {
    levels = length-modify bitmaps order (cleared m);
    fits = Fits-modify n bitmaps order (cleared m) (length-cleared m) fits;
    free = λ u h. ground (
      arith,
      cover-modify bitmaps order (cleared m) u inside,
      get-cleared m (get_or bitmaps order no_bitmap) (halve order u),
      get-clear (get_or bitmaps order no_bitmap) m (halve order u)
          (Fits-InRange n bitmaps order m small fits inside range)
          (bit-lt-word n order (halve order u) small (halve-lt order n u below h)),
      same u,
    );
  }
    where
      same : (u : ℕ) → m ≡ halve order u → level_bit bitmaps order (halve order u) ≡ true
      same u q = rw (← q) on

  -- The block is taken, and the rest of the larger block stays free.
  pub take_block-Taken :
      (left order m : ℕ) (bitmaps : List Bitmap)
      → order + left < length bitmaps
      → length bitmaps ≤ suc n
      → Fits n bitmaps
      → m < 2 ^ (n - order)
      → PathUp left order m bitmaps
      → Taken n order m bitmaps (take_block left order m bitmaps)
  unfolding take_block cleared
  take_block-Taken zero order m bitmaps inside tall fits range on =
      take_whole-Taken order m bitmaps (omega arith) (omega arith) fits range on
  take_block-Taken (suc left) order m bitmaps inside tall fits range (off, up) =
      let marked : List Bitmap = mark_free order (bit_xor m 1) bitmaps in
      let rest : Taken n (suc order) (m / 2) marked (take_block left (suc order) (m / 2) marked) =
        take_block-Taken left (suc order) (m / 2) (mark_free order (bit_xor m 1) bitmaps)
          (omega (arith, length-mark_free order (bit_xor m 1) bitmaps))
          (omega (arith, length-mark_free order (bit_xor m 1) bitmaps))
          (Fits-mark_free n order (bit_xor m 1) bitmaps fits)
          (half-lt n order m (omega arith) range)
          (PathUp-mark_free left (suc order) order (m / 2) (bit_xor m 1) bitmaps (omega arith)
            up) in
      rw add-one (record {
        levels = rest.levels ∙ length-mark_free order (bit_xor m 1) bitmaps;
        fits = rest.fits;
        free = λ u h. ground (
          arith,
          rest.free u h,
          cover-mark_free n small bitmaps fits order (bit_xor m 1) (omega arith) (omega arith)
              (neighbour-lt (n - order) m (omega arith) range) off u h,
          bit_xor-one m,
          halve-suc order u,
        );
      })
