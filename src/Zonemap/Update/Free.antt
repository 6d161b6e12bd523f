-- ===== src/Zonemap/Update/Free.antt =====
-- Marking and joining free blocks, against the count of `Cover`.
use mfstools.Base.{
  ℕ, zero, suc, ◌+◌, ◌-◌, ◌*◌, ◌/◌, ◌^◌, ◌≤◌, ◌<◌, ◌≡◌, ◌≢◌, refl, sym, ap, ◌∙◌, true, false, arith,
  List, length, get_or, length-modify, get_or-modify_self, get_or-modify_ne, bit_xor, ◌==◌,
  if◌then◌else◌, Bool-cases, inl, inr,
}
use mfstools.Base.Bits.{bit_xor-one}
use native.Mathlib.Numerals.{add-one}
use native.Mathlib.Decide.{ℕ_discrete}
use mfstools.Zonemap.Bitmap.{Bitmap, no_bitmap, bit_state_get, bit_state_set, bit_state_clear}
use mfstools.Zonemap.Bitmap.Laws.{InRange, get-set, get-clear, length-set_words, length-clear_words}
use mfstools.Zonemap.Update.{level_bit, more_free, less_free, mark_free, clear_pair, coalesce}
use mfstools.Zonemap.Update.Cover.{
  ind, halve, cover, cover-modify, Fits, Fits-modify, Fits-InRange, halve-lt, halve-suc,
  bit-lt-word, Disjoint, Disjoint-above, neighbour-lt, halve-block_start, half-lt,
}

-- The counters of a bitmap are not part of its bits.
pub get-more_free : (b : Bitmap) (i : ℕ) → bit_state_get (more_free b) i ≡ bit_state_get b i
unfolding bit_state_get
get-more_free b i = refl

pub get-less_free :
    (n : ℕ) (b : Bitmap) (i : ℕ) → bit_state_get (less_free n b) i ≡ bit_state_get b i
unfolding bit_state_get
get-less_free n b i = refl

module _ (n : ℕ) (small : n < 32) where
  module _ (bitmaps : List Bitmap) (fits : Fits n bitmaps) (order m : ℕ)
      (inside : order < length bitmaps) (below : order ≤ n) (range : m < 2 ^ (n - order)) where
    -- Marking a bit that was clear counts once more at each smallest block of its block.
    pub cover-mark_free :
        level_bit bitmaps order m ≡ false
        → (u : ℕ) → u < 2 ^ n
        → cover (mark_free order m bitmaps) u ≡ cover bitmaps u + ind (m == halve order u)
    unfolding mark_free
    cover-mark_free off u p = elim (ℕ_discrete m (halve order u)) [
      | yes e ↦ ground (
        arith,
        ap (λ t. level_bit bitmaps order t) e,
        cover-modify bitmaps order (λ b. more_free (bit_state_set b m)) u inside,
        get-more_free (bit_state_set (get_or bitmaps order no_bitmap) m) (halve order u),
        after u p,
      )
      | no ne ↦ ground (
        arith,
        cover-modify bitmaps order (λ b. more_free (bit_state_set b m)) u inside,
        get-more_free (bit_state_set (get_or bitmaps order no_bitmap) m) (halve order u),
        after u p,
      )
    ]
      where
        after :
            (u : ℕ)
            → u < 2 ^ n
            → bit_state_get (bit_state_set (get_or bitmaps order no_bitmap) m) (halve order u)
              ≡ (if m == halve order u then true else level_bit bitmaps order (halve order u))
        after u p =
            get-set (get_or bitmaps order no_bitmap) m (halve order u)
              (Fits-InRange n bitmaps order m small fits inside range)
              (bit-lt-word n order (halve order u) small (halve-lt order n u below p))

    -- Clearing a pair of free neighbours counts once less at each smallest block of either.
    cover-clear_pair :
        level_bit bitmaps order m ≡ true
        → level_bit bitmaps order (bit_xor m 1) ≡ true
        → bit_xor m 1 < 2 ^ (n - order)
        → (u : ℕ) → u < 2 ^ n
        → cover (clear_pair order m bitmaps) u + ind (m / 2 == halve (suc order) u)
          ≡ cover bitmaps u
    unfolding clear_pair
    cover-clear_pair on neighbour range' u p = ground (
      arith,
      cover-modify bitmaps order
          (λ b. less_free 2 (bit_state_clear (bit_state_clear b m) (bit_xor m 1))) u inside,
      get-less_free 2 (bit_state_clear (bit_state_clear bitmap m) (bit_xor m 1)) (halve order u),
      get-clear (bit_state_clear bitmap m) (bit_xor m 1) (halve order u) in_range'
          (bit-lt-word n order (halve order u) small (halve-lt order n u below p)),
      get-clear bitmap m (halve order u) in_range
          (bit-lt-word n order (halve order u) small (halve-lt order n u below p)),
      bit_xor-one m,
      halve-suc order u,
      same m on,
      same (bit_xor m 1) neighbour,
    )
      where
        bitmap : Bitmap
        bitmap = get_or bitmaps order no_bitmap

        in_range : InRange bitmap m
        in_range = Fits-InRange n bitmaps order m small fits inside range

        in_range' : InRange (bit_state_clear bitmap m) (bit_xor m 1)
        in_range' = omega (
          arith,
          Fits-InRange n bitmaps order (bit_xor m 1) small fits inside range',
          length-clear_words bitmap m,
        )

        same :
            (t : ℕ)
            → level_bit bitmaps order t ≡ true
            → t ≡ halve order u
            → level_bit bitmaps order (halve order u) ≡ true
        same t e q = rw (← q) e

-- Two states of the bitmaps with the same blocks free, and the same room.
pub record Same (n : ℕ) (before after : List Bitmap) : Type 0 where
  pub levels : length after ≡ length before
  pub fits : Fits n after
  pub free : (u : ℕ) → u < 2 ^ n → cover after u ≡ cover before u

length-mark : (m : ℕ) (b : Bitmap) → length (more_free (bit_state_set b m)).words ≡ length b.words
length-mark m b = length-set_words b m

length-clear_two :
    (m k : ℕ) (b : Bitmap)
    → length (less_free 2 (bit_state_clear (bit_state_clear b m) k)).words ≡ length b.words
length-clear_two m k b = length-clear_words (bit_state_clear b m) k ∙ length-clear_words b m

pub length-mark_free :
    (order m : ℕ) (bitmaps : List Bitmap) → length (mark_free order m bitmaps) ≡ length bitmaps
unfolding mark_free
length-mark_free order m bitmaps = length-modify bitmaps order (λ b. more_free (bit_state_set b m))

pub Fits-mark_free :
    (n order m : ℕ) (bitmaps : List Bitmap) → Fits n bitmaps → Fits n (mark_free order m bitmaps)
unfolding mark_free
Fits-mark_free n order m bitmaps = Fits-modify n bitmaps order _ (length-mark m)

pub length-clear_pair :
    (order m : ℕ) (bitmaps : List Bitmap) → length (clear_pair order m bitmaps) ≡ length bitmaps
unfolding clear_pair
length-clear_pair order m bitmaps =
    length-modify bitmaps order
      (λ b. less_free 2 (bit_state_clear (bit_state_clear b m) (bit_xor m 1)))

pub Fits-clear_pair :
    (n order m : ℕ) (bitmaps : List Bitmap) → Fits n bitmaps → Fits n (clear_pair order m bitmaps)
unfolding clear_pair
Fits-clear_pair n order m bitmaps = Fits-modify n bitmaps order _ (length-clear_two m (bit_xor m 1))

-- A change of one level leaves the bits of another alone.
pub level_bit-clear_pair_ne :
    (order m l i : ℕ) (bitmaps : List Bitmap)
    → order ≢ l
    → level_bit (clear_pair order m bitmaps) l i ≡ level_bit bitmaps l i
unfolding clear_pair
level_bit-clear_pair_ne order m l i bitmaps ne =
    ap (λ b. bit_state_get b i) (get_or-modify_ne bitmaps order l _ no_bitmap ne)

pub level_bit-mark_free_ne :
    (order m l i : ℕ) (bitmaps : List Bitmap)
    → order ≢ l
    → level_bit (mark_free order m bitmaps) l i ≡ level_bit bitmaps l i
unfolding mark_free
level_bit-mark_free_ne order m l i bitmaps ne =
    ap (λ b. bit_state_get b i) (get_or-modify_ne bitmaps order l _ no_bitmap ne)

pub level_bit-mark_free_self :
    (n order m : ℕ) (bitmaps : List Bitmap)
    → n < 32
    → Fits n bitmaps
    → order < length bitmaps
    → m < 2 ^ (n - order)
    → level_bit (mark_free order m bitmaps) order m ≡ true
unfolding mark_free
level_bit-mark_free_self n order m bitmaps small fits inside range =
    ap (λ b. bit_state_get b m) (get_or-modify_self bitmaps order _ no_bitmap inside)
    ∙ get-more_free (bit_state_set (get_or bitmaps order no_bitmap) m) m
    ∙ ground (
      arith,
      get-set (get_or bitmaps order no_bitmap) m m
          (Fits-InRange n bitmaps order m small fits inside range)
          (bit-lt-word n order m small range),
    )

pub Same-trans : {n : ℕ} {a b c : List Bitmap} → Same n a b → Same n b c → Same n a c
Same-trans p q = record {
  levels = q.levels ∙ p.levels;
  fits = q.fits;
  free = λ u h. q.free u h ∙ p.free u h;
}

module _ (n : ℕ) (small : n < 32) where
  -- One round of the loop.
  join-Same :
      (order m : ℕ) (bitmaps : List Bitmap)
      → suc order < length bitmaps
      → length bitmaps ≤ suc n
      → Fits n bitmaps
      → Disjoint n bitmaps
      → m < 2 ^ (n - order)
      → level_bit bitmaps order m ≡ true
      → level_bit bitmaps order (bit_xor m 1) ≡ true
      → Same n bitmaps (mark_free (suc order) (m / 2) (clear_pair order m bitmaps))
  join-Same order m bitmaps inside tall fits alone range on neighbour = record {
    levels =
        length-mark_free (suc order) (m / 2) (clear_pair order m bitmaps)
        ∙ length-clear_pair order m bitmaps;
    fits = Fits-mark_free n (suc order) (m / 2) _ (Fits-clear_pair n order m bitmaps fits);
    free = λ u h. omega (
      arith,
      cover-mark_free n small (clear_pair order m bitmaps) (Fits-clear_pair n order m bitmaps fits)
          (suc order) (m / 2) (omega (arith, length-clear_pair order m bitmaps)) (omega arith)
          (half-lt n order m (omega arith) range) parent_off u h,
      cover-clear_pair n small bitmaps fits order m (omega arith) (omega arith) range on neighbour
          (neighbour-lt (n - order) m (omega arith) range) u h,
    );
  }
    where
      parent_off : level_bit (clear_pair order m bitmaps) (suc order) (m / 2) ≡ false
      parent_off =
          level_bit-clear_pair_ne order m (suc order) (m / 2) bitmaps (omega arith)
          ∙ ap (λ t. level_bit bitmaps (suc order) t)
              (sym (
                halve-suc order (m * 2 ^ order)
                ∙ ap (λ (t : ℕ). t / 2) (halve-block_start order m)))
          ∙ Disjoint-above n bitmaps order (suc order) m alone (omega arith) inside (omega arith)
              range on

  -- Joining free neighbours leaves the same smallest blocks free.
  pub coalesce-Same :
      (left order m : ℕ) (bitmaps : List Bitmap)
      → order + suc left ≡ length bitmaps
      → length bitmaps ≤ suc n
      → Fits n bitmaps
      → Disjoint n bitmaps
      → m < 2 ^ (n - order)
      → level_bit bitmaps order m ≡ true
      → Same n bitmaps (coalesce left order m bitmaps)
  unfolding coalesce
  coalesce-Same zero order m bitmaps e h fits alone range on = record {
    levels = refl;
    fits = fits;
    free = λ u p. refl;
  }
  coalesce-Same (suc left) order m bitmaps e h fits alone range on =
      elim (Bool-cases (level_bit bitmaps order (bit_xor m 1))) [
        | inr off ↦ rw off (record { levels = refl; fits = fits; free = λ u p. refl })
        | inl neighbour ↦
            rw (neighbour, add-one)
              (let joined : Same n bitmaps
                    (mark_free (suc order) (m / 2) (clear_pair order m bitmaps)) =
                  join-Same order m bitmaps (omega arith) h fits alone range on neighbour in
                Same-trans joined (
                  coalesce-Same left (suc order) (m / 2) _ (omega (arith, joined.levels))
                    (omega (arith, joined.levels)) joined.fits
                    (λ u p. omega (arith, joined.free u p, alone u p))
                    (half-lt n order m (omega arith) range)
                    (level_bit-mark_free_self n (suc order) (m / 2) _ small
                      (Fits-clear_pair n order m bitmaps fits)
                      (omega (arith, length-clear_pair order m bitmaps))
                      (half-lt n order m (omega arith) range))))
      ]
