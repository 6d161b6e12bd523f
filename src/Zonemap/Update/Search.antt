-- ===== src/Zonemap/Update/Search.antt =====
-- What the two search loops of mfs_zone_map_update find.
use mfstools.Base.{
  ℕ, zero, suc, ◌+◌, ◌-◌, ◌*◌, ◌/◌, ◌^◌, ◌≤◌, ◌<◌, ◌≡◌, ◌≢◌, refl, ap, ◌∙◌, true, false, arith,
  Option, none, some, List, length, bit_xor, Bool-cases, inl, inr,
}
use mfstools.Base.Bits.{bit_xor-one}
use native.Mathlib.Nat.{pow-suc, pow-le-pow_right, one-le-pow, zero-add}
use native.Mathlib.Decide.{ℕ_discrete}
use mfstools.Zonemap.Bitmap.{Bitmap}
use mfstools.Zonemap.Update.{level_bit, find_order, find_free}
use mfstools.Zonemap.Update.Cover.{
  halve, halve-block_start, Disjoint, Disjoint-above, neighbour-lt, half-lt,
}
use mfstools.Zonemap.Update.Alloc.{PathUp}

-- The level of a size that is a smallest block doubled `o` times.
pub find_order_lem :
    (minalloc o left order : ℕ)
    → 0 < minalloc
    → minalloc * 2 ^ o < 2 ^ 64
    → order ≤ o
    → o < order + left
    → find_order minalloc (minalloc * 2 ^ o) left order ≡ o
unfolding find_order
find_order_lem minalloc o zero order pos fits h h' = absurd (omega arith)
find_order_lem minalloc o (suc left) order pos fits h h' = elim (ℕ_discrete order o) [
  | yes e ↦ ground (arith, ap (λ (t : ℕ). minalloc * 2 ^ t) e)
  | no ne ↦
      ground (arith, find_order_lem minalloc o left (order + 1) pos fits, smaller (omega arith))
]
  where
    smaller : order < o → minalloc * 2 ^ order < minalloc * 2 ^ o
    smaller l = grind (
      arith,
      pow-suc 2 order,
      one-le-pow order 2 (omega arith),
      pow-le-pow_right {n = 2} (omega arith) {i = suc order} {j = o} l,
    )

pub find_free-none :
    (bitmaps : List Bitmap) (order m left orderfree : ℕ)
    → ((l : ℕ)
        → orderfree ≤ l
        → l < orderfree + left
        → level_bit bitmaps l (m / 2 ^ (l - order)) ≡ false)
    → find_free bitmaps order m left orderfree ≡ none
unfolding find_free
find_free-none bitmaps order m zero orderfree h = refl
find_free-none bitmaps order m (suc left) orderfree h = ground (
  arith,
  h orderfree (omega arith) (omega arith),
  find_free-none bitmaps order m left (orderfree + 1) (λ l p q. h l (omega arith) (omega arith)),
)

-- What the loop finds is set, and lies in the range searched.
pub record Finds (bitmaps : List Bitmap) (order m left orderfree : ℕ) (r : Option ℕ) : Type 0 where
  pub level : ℕ
  pub result : r ≡ some level
  pub from : orderfree ≤ level
  pub below : level < orderfree + left
  pub on : level_bit bitmaps level (m / 2 ^ (level - order)) ≡ true

pub find_free-Finds :
    (bitmaps : List Bitmap) (order m left orderfree l : ℕ)
    → orderfree ≤ l
    → l < orderfree + left
    → level_bit bitmaps l (m / 2 ^ (l - order)) ≡ true
    → Finds bitmaps order m left orderfree (find_free bitmaps order m left orderfree)
unfolding find_free
find_free-Finds bitmaps order m zero orderfree l h h' on = absurd (omega arith)
find_free-Finds bitmaps order m (suc left) orderfree l h h' on =
    elim (Bool-cases (level_bit bitmaps orderfree (m / 2 ^ (orderfree - order)))) [
      | inl found ↦ rw found (record {
        level = orderfree;
        result = refl;
        from = omega arith;
        below = omega arith;
        on = found;
      })
      | inr off ↦ rw off (
          let later : l ≢ orderfree = λ e. cc (differs e, off, on) in
          let rest =
            find_free-Finds bitmaps order m left (orderfree + 1) l (omega arith) (omega arith) on in
          record {
            level = rest.level;
            result = rest.result;
            from = omega (arith, rest.from);
            below = omega (arith, rest.below);
            on = rest.on;
          })
    ]
  where
    differs :
        l ≡ orderfree
        → level_bit bitmaps l (m / 2 ^ (l - order))
          ≡ level_bit bitmaps orderfree (m / 2 ^ (orderfree - order))
    differs e = ap (λ t. level_bit bitmaps t (m / 2 ^ (t - order))) e

pub halve-add : (a b u : ℕ) → halve (a + b) u ≡ halve b (halve a u)
halve-add zero b u = ap (λ k. halve k u) (zero-add b)
halve-add (suc a) b u = ap (λ k. halve k u) (suc_first a b) ∙ halve-add a b (u / 2)
  where
    suc_first : (a b : ℕ) → suc a + b ≡ suc (a + b)
    suc_first a b = omega arith

-- Below a free block the neighbours are taken, since no block is free twice.
pub PathUp-of_free :
    (n : ℕ) (bitmaps : List Bitmap) (left order m : ℕ)
    → Disjoint n bitmaps
    → order + left < length bitmaps
    → length bitmaps ≤ suc n
    → m < 2 ^ (n - order)
    → level_bit bitmaps (order + left) (halve left m) ≡ true
    → PathUp left order m bitmaps
PathUp-of_free n bitmaps zero order m alone inside tall range on =
    let e : order + 0 ≡ order = omega arith in rw e at on
PathUp-of_free n bitmaps (suc left) order m alone inside tall range on =
    let e : order + suc left ≡ suc order + left = omega arith in
    (
      neighbour_off,
      PathUp-of_free n bitmaps left (suc order) (m / 2) alone (omega arith) tall
          (half-lt n order m (omega arith) range) (rw e at on),
    )
  where
    pair : bit_xor m 1 / 2 ≡ m / 2
    pair = omega (arith, bit_xor-one m)

    meets : halve (order + suc left) (bit_xor m 1 * 2 ^ order) ≡ halve left (m / 2)
    meets =
        halve-add order (suc left) (bit_xor m 1 * 2 ^ order)
        ∙ ap (λ t. halve left (t / 2)) (halve-block_start order (bit_xor m 1))
        ∙ ap (λ t. halve left t) pair

    neighbour_off : level_bit bitmaps order (bit_xor m 1) ≡ false
    neighbour_off = elim (Bool-cases (level_bit bitmaps order (bit_xor m 1))) [
      | inr off ↦ off
      | inl set_too ↦ cc (
        on,
        ap (λ t. level_bit bitmaps (order + suc left) t) meets,
        Disjoint-above n bitmaps order (order + suc left) (bit_xor m 1) alone (omega arith) inside
            (omega arith) (neighbour-lt (n - order) m (omega arith) range) set_too,
      )
    ]
