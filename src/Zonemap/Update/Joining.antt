-- ===== src/Zonemap/Update/Joining.antt =====
-- The joining of free neighbours by mfs_zone_map_update of lib/zonemap.c: no two are left that were not
-- both free before.
use mfstools.Base.{
  ℕ, zero, suc, ◌+◌, ◌-◌, ◌/◌, ◌^◌, ◌≤◌, ◌<◌, ◌≡◌, ◌≢◌, ◌⊎◌, sym, ap, ap₂, ◌∙◌, Bool, true, false,
  not, ◌&&◌, arith, List, length, get_or, get_or-modify_self, bit_xor, ◌==◌, if◌then◌else◌,
  Bool-cases, inl, inr,
}
use mfstools.Base.Bits.{bit_xor-one}
use native.Mathlib.Numerals.{add-one}
use native.Mathlib.Decide.{ℕ_discrete}
use mfstools.Zonemap.Bitmap.{Bitmap, no_bitmap, bit_state_get, bit_state_set, bit_state_clear}
use mfstools.Zonemap.Bitmap.Laws.{get-set, get-clear, length-clear_words}
use mfstools.Zonemap.Update.{level_bit, mark_free, clear_pair, coalesce}
use mfstools.Zonemap.Update.Cover.{Fits, Fits-InRange, bit-lt-word, neighbour-lt, half-lt}
use mfstools.Zonemap.Update.Free.{
  get-more_free, get-less_free, length-mark_free, length-clear_pair, Fits-mark_free,
  Fits-clear_pair, level_bit-clear_pair_ne, level_bit-mark_free_ne,
}

-- A block and its neighbour are both free on their level.
abbrev pub free_pair : List Bitmap → ℕ → ℕ → Bool
free_pair bitmaps l i = level_bit bitmaps l i && level_bit bitmaps l (bit_xor i 1)

-- They are, and were not before.
abbrev pub new_pair : List Bitmap → List Bitmap → ℕ → ℕ → Bool
new_pair before after l i = free_pair after l i && not (free_pair before l i)

module _ (n : ℕ) (small : n < 32) where
  level_bit-mark_free :
      (bitmaps : List Bitmap) (order m j : ℕ)
      → Fits n bitmaps
      → order < length bitmaps
      → m < 2 ^ (n - order)
      → j < 2 ^ (n - order)
      → level_bit (mark_free order m bitmaps) order j
        ≡ (if m == j then true else level_bit bitmaps order j)
  unfolding mark_free
  level_bit-mark_free bitmaps order m j fits inside range range' =
      ap (λ b. bit_state_get b j) (get_or-modify_self bitmaps order _ no_bitmap inside)
      ∙ get-more_free (bit_state_set (get_or bitmaps order no_bitmap) m) j
      ∙ get-set (get_or bitmaps order no_bitmap) m j
          (Fits-InRange n bitmaps order m small fits inside range)
          (bit-lt-word n order j small range')

  level_bit-clear_pair :
      (bitmaps : List Bitmap) (order m j : ℕ)
      → Fits n bitmaps
      → order < length bitmaps
      → m < 2 ^ (n - order)
      → bit_xor m 1 < 2 ^ (n - order)
      → j < 2 ^ (n - order)
      → level_bit (clear_pair order m bitmaps) order j
        ≡ (if bit_xor m 1 == j then false else if m == j then false else level_bit bitmaps order j)
  unfolding clear_pair
  level_bit-clear_pair bitmaps order m j fits inside range range' range'' =
      ap (λ b. bit_state_get b j) (get_or-modify_self bitmaps order _ no_bitmap inside)
      ∙ get-less_free 2 (bit_state_clear (bit_state_clear bitmap m) (bit_xor m 1)) j
      ∙ get-clear (bit_state_clear bitmap m) (bit_xor m 1) j
          (omega (
            arith,
            Fits-InRange n bitmaps order (bit_xor m 1) small fits inside range',
            length-clear_words bitmap m,
          ))
          (bit-lt-word n order j small range'')
      ∙ ap (λ t. if bit_xor m 1 == j then false else t)
          (get-clear bitmap m j (Fits-InRange n bitmaps order m small fits inside range)
            (bit-lt-word n order j small range''))
    where
      bitmap : Bitmap
      bitmap = get_or bitmaps order no_bitmap

  -- The only new pair there may be is that of one block.
  Only : List Bitmap → List Bitmap → ℕ → ℕ → Type 0
  Only before bitmaps order m =
      (l i : ℕ)
      → suc l < length bitmaps
      → i < 2 ^ (n - l)
      → new_pair before bitmaps l i ≡ true
      → (l ≡ order) × ((i ≡ m) ⊎ (i ≡ bit_xor m 1))

  -- Where two states have the same bits, they have the same new pairs.
  new_pair-same :
      (before b b' : List Bitmap) (l i : ℕ)
      → level_bit b' l i ≡ level_bit b l i
      → level_bit b' l (bit_xor i 1) ≡ level_bit b l (bit_xor i 1)
      → new_pair before b' l i ≡ true
      → new_pair before b l i ≡ true
  new_pair-same before b b' l i e e' h = rw (← e, ← e') h

  xor-back : (i : ℕ) → bit_xor (bit_xor i 1) 1 ≡ i
  xor-back i = ground (arith, bit_xor-one i, bit_xor-one (bit_xor i 1))

  new_pair-both :
      (before b : List Bitmap) (l i : ℕ)
      → new_pair before b l i ≡ true
      → (level_bit b l i ≡ true) × (level_bit b l (bit_xor i 1) ≡ true)
  new_pair-both before b l i h = (ground (arith, h), ground (arith, h))

  -- One round of the loop.
  Only-join :
      (before bitmaps : List Bitmap) (order m : ℕ)
      → suc order < length bitmaps
      → length bitmaps ≤ suc n
      → Fits n bitmaps
      → m < 2 ^ (n - order)
      → Only before bitmaps order m
      → Only before (mark_free (suc order) (m / 2) (clear_pair order m bitmaps)) (suc order) (m / 2)
  unfolding Only
  Only-join before bitmaps order m inside tall fits range only l i within range' h =
      elim (ℕ_discrete l (suc order)) [
        | yes up ↦ (up, parent up)
        | no off ↦ absurd (elim (ℕ_discrete l order) [
          | yes same ↦ child same
          | no other ↦
              (other
                (only l i within' range' (
                  new_pair-same before bitmaps after l i (untouched i off other)
                    (untouched (bit_xor i 1) off other) h)).0)
        ])
      ]
    where
      cleared : List Bitmap
      cleared = clear_pair order m bitmaps

      after : List Bitmap
      after = mark_free (suc order) (m / 2) cleared

      within' : suc l < length bitmaps
      within' = omega (
        arith,
        within,
        length-mark_free (suc order) (m / 2) cleared,
        length-clear_pair order m bitmaps,
      )

      range'' : bit_xor i 1 < 2 ^ (n - l)
      range'' = neighbour-lt (n - l) i (omega (arith, within', tall)) range'

      untouched : (j : ℕ) → l ≢ suc order → l ≢ order → level_bit after l j ≡ level_bit bitmaps l j
      untouched j a b =
          level_bit-mark_free_ne (suc order) (m / 2) l j cleared (λ e. a (sym e))
          ∙ level_bit-clear_pair_ne order m l j bitmaps (λ e. b (sym e))

      above :
          (j : ℕ)
          → l ≡ suc order
          → j < 2 ^ (n - l)
          → m / 2 ≢ j
          → level_bit after l j ≡ level_bit bitmaps l j
      above j up r ne =
          ap (λ k. level_bit after k j) up
          ∙ level_bit-mark_free cleared (suc order) (m / 2) j
              (Fits-clear_pair n order m bitmaps fits)
              (omega (arith, inside, length-clear_pair order m bitmaps))
              (half-lt n order m (omega (arith, inside, tall)) range) (rw (← up) r)
          ∙ ground (arith, ne)
          ∙ level_bit-clear_pair_ne order m (suc order) j bitmaps (omega arith)
          ∙ ap (λ k. level_bit bitmaps k j) (sym up)

      parent : l ≡ suc order → (i ≡ m / 2) ⊎ (i ≡ bit_xor (m / 2) 1)
      parent up = elim (ℕ_discrete i (m / 2)) [
        | yes e ↦ inl e
        | no ne ↦ elim (ℕ_discrete i (bit_xor (m / 2) 1)) [
          | yes e ↦ inr e
          | no ne' ↦ absurd (
              omega (
                arith,
                up,
                (only l i within' range' (
                    new_pair-same before bitmaps after l i (above i up range' (λ e. ne (sym e)))
                      (above (bit_xor i 1) up range''
                        (λ e. ne' (sym (ap (λ k. bit_xor k 1) e ∙ xor-back i))))
                      h)).0,
              ))
        ]
      ]

      beside :
          (j : ℕ)
          → l ≡ order
          → j < 2 ^ (n - l)
          → level_bit after l j
            ≡ (if bit_xor m 1 == j then false else if m == j then false else level_bit bitmaps l j)
      beside j same r =
          level_bit-mark_free_ne (suc order) (m / 2) l j cleared (omega (arith, same))
          ∙ ap (λ k. level_bit cleared k j) same
          ∙ level_bit-clear_pair bitmaps order m j fits (omega (arith, inside)) range
              (neighbour-lt (n - order) m (omega (arith, inside, tall)) range) (rw (← same) r)
          ∙ ap
              (λ k.
                if bit_xor m 1 == j then false else if m == j then false else level_bit bitmaps k j)
              (sym same)

      child : ¬ (l ≡ order)
      child same = elim (ℕ_discrete m i) [
        | yes e ↦ ground (arith, e, beside i same range', (new_pair-both before after l i h).0)
        | no ne ↦ elim (ℕ_discrete (bit_xor m 1) i) [
          | yes e ↦ ground (arith, e, beside i same range', (new_pair-both before after l i h).0)
          | no ne' ↦
              elim (only l i within' range' (
                new_pair-same before bitmaps after l i
                  (beside i same range' ∙ ground (arith, ne, ne'))
                  (beside (bit_xor i 1) same range''
                    ∙ ground (
                      arith,
                      λ (e : m ≡ bit_xor i 1). ne' (ap (λ k. bit_xor k 1) e ∙ xor-back i),
                      λ (e : bit_xor m 1 ≡ bit_xor i 1).
                          ne (sym (xor-back m) ∙ ap (λ k. bit_xor k 1) e ∙ xor-back i),
                    ))
                  h)).1 [ inl e ↦ ne (sym e) | inr e ↦ ne' (sym e) ]
        ]
      ]

  -- When the loop ends, no pair of free neighbours below the top is new.
  new_pair-coalesce :
      (before : List Bitmap) (left order m : ℕ) (bitmaps : List Bitmap)
      → order + suc left ≡ length bitmaps
      → length bitmaps ≤ suc n
      → Fits n bitmaps
      → m < 2 ^ (n - order)
      → Only before bitmaps order m
      → (l i : ℕ) → suc l < length bitmaps
      → i < 2 ^ (n - l)
      → new_pair before (coalesce left order m bitmaps) l i ≡ false
  unfolding coalesce Only
  new_pair-coalesce before zero order m bitmaps e tall fits range only l i within range' =
      elim (Bool-cases (new_pair before bitmaps l i)) [
        | inl h ↦ absurd (omega (arith, (only l i within range' h).0))
        | inr h ↦ h
      ]
  new_pair-coalesce before (suc left) order m bitmaps e tall fits range only l i within range' =
      elim (Bool-cases (level_bit bitmaps order (bit_xor m 1))) [
        | inl neighbour ↦
            rw (neighbour, add-one)
              (new_pair-coalesce before left (suc order) (m / 2) joined (omega (arith, e, levels))
                (omega (arith, tall, levels))
                (Fits-mark_free n (suc order) (m / 2) _ (Fits-clear_pair n order m bitmaps fits))
                (half-lt n order m (omega (arith, e, tall)) range)
                (Only-join before bitmaps order m (omega (arith, e)) tall fits range only) l i
                (omega (arith, within, levels)) range')
        | inr off ↦ rw (off) (elim (Bool-cases (new_pair before bitmaps l i)) [
          | inl h ↦ absurd (alone off h (only l i within range' h))
          | inr h ↦ h
        ])
      ]
    where
      joined : List Bitmap
      joined = mark_free (suc order) (m / 2) (clear_pair order m bitmaps)

      levels : length joined ≡ length bitmaps
      levels =
          length-mark_free (suc order) (m / 2) (clear_pair order m bitmaps)
          ∙ length-clear_pair order m bitmaps

      alone :
          level_bit bitmaps order (bit_xor m 1) ≡ false
          → new_pair before bitmaps l i ≡ true
          → ¬ ((l ≡ order) × ((i ≡ m) ⊎ (i ≡ bit_xor m 1)))
      alone off h (same, inl at) = ground (
        arith,
        off,
        (new_pair-both before bitmaps l i h).1,
        ap₂ (λ k j. level_bit bitmaps k (bit_xor j 1)) same at,
      )
      alone off h (same, inr at) = ground (
        arith,
        off,
        (new_pair-both before bitmaps l i h).0,
        ap₂ (λ k j. level_bit bitmaps k j) same at,
      )

  -- Marking one block makes no other pair.
  Only-mark_free :
      (bitmaps : List Bitmap) (order m : ℕ)
      → order < length bitmaps
      → length bitmaps ≤ suc n
      → Fits n bitmaps
      → m < 2 ^ (n - order)
      → Only bitmaps (mark_free order m bitmaps) order m
  unfolding Only
  Only-mark_free bitmaps order m inside tall fits range l i within range' h =
      elim (ℕ_discrete l order) [
        | no off ↦ absurd (same_pair (untouched i off) (untouched (bit_xor i 1) off))
        | yes same ↦ elim (ℕ_discrete i m) [
          | yes e ↦ (same, inl e)
          | no ne ↦ elim (ℕ_discrete i (bit_xor m 1)) [
            | yes e ↦ (same, inr e)
            | no ne' ↦ absurd (
                same_pair (beside i same range' (λ e. ne (sym e))) (
                  beside (bit_xor i 1) same range''
                    (λ e. ne' (sym (ap (λ k. bit_xor k 1) e ∙ xor-back i)))))
          ]
        ]
      ]
    where
      after : List Bitmap
      after = mark_free order m bitmaps

      range'' : bit_xor i 1 < 2 ^ (n - l)
      range'' =
          neighbour-lt (n - l) i (omega (arith, within, length-mark_free order m bitmaps, tall))
            range'

      same_pair :
          level_bit after l i ≡ level_bit bitmaps l i
          → ¬ (level_bit after l (bit_xor i 1) ≡ level_bit bitmaps l (bit_xor i 1))
      same_pair e e' = ground (arith, new_pair-same bitmaps bitmaps after l i e e' h)

      untouched : (j : ℕ) → l ≢ order → level_bit after l j ≡ level_bit bitmaps l j
      untouched j off = level_bit-mark_free_ne order m l j bitmaps (λ e. off (sym e))

      beside :
          (j : ℕ)
          → l ≡ order
          → j < 2 ^ (n - l)
          → m ≢ j
          → level_bit after l j ≡ level_bit bitmaps l j
      beside j same r ne =
          ap (λ k. level_bit after k j) same
          ∙ level_bit-mark_free bitmaps order m j fits inside range (rw (← same) r)
          ∙ ground (arith, ne)
          ∙ ap (λ k. level_bit bitmaps k j) (sym same)

  -- Marking a block free and joining makes no pair of free neighbours below the top.
  pub new_pair-freed :
      (left order m : ℕ) (bitmaps : List Bitmap)
      → order + suc left ≡ length bitmaps
      → length bitmaps ≤ suc n
      → Fits n bitmaps
      → m < 2 ^ (n - order)
      → (l i : ℕ) → suc l < length bitmaps
      → i < 2 ^ (n - l)
      → new_pair bitmaps (coalesce left order m (mark_free order m bitmaps)) l i ≡ false
  new_pair-freed left order m bitmaps e tall fits range l i within range' =
      new_pair-coalesce bitmaps left order m (mark_free order m bitmaps) (omega (arith, e, levels))
        (omega (arith, tall, levels)) (Fits-mark_free n order m bitmaps fits) range
        (Only-mark_free bitmaps order m (omega (arith, e)) tall fits range) l i
        (omega (arith, within, levels)) range'
    where
      levels : length (mark_free order m bitmaps) ≡ length bitmaps
      levels = length-mark_free order m bitmaps
