-- ===== src/Zonemap/Update/WellFormed.antt =====
-- The invariant of a loaded zone map, the requests that the zone can serve, and the sectors of the
-- zone as the bitmaps see them.
use mfstools.Base.{
  ℕ, ◌+◌, ◌-◌, ◌*◌, ◌/◌, ◌^◌, ◌≤◌, ◌<◌, ◌≡◌, sym, ap, ap₂, ◌∙◌, Bool, true, arith, length, ltb, leb,
  ◌==◌, ◌&&◌, u32, u64, sub64,
}
use native.Mathlib.Nat.{
  div-eq_of_lt-le, div-div-eq-div-mul, mul-div_cancel, mul-le-mul_right, one-le-pow, mod-eq_of_lt,
  lt-mul-div-succ, div-mul-le_self, div-lt_iff_lt-mul,
}
use native.Mathlib.Decide.{ℕ_discrete, dec_lt}
use mfstools.Base.Bits.{pow_split}
use mfstools.Zonemap.Zone.{ZoneMap}
use mfstools.Zonemap.Update.{block_bit}
use mfstools.Zonemap.Update.Cover.{ind, halve, cover, Fits, Disjoint, halve-eq-shift, bit-lt-word}

pub record WellFormed (zone : ZoneMap) : Type 0 where
  -- the header counts the bitmaps, and the last of them has one bit
  pub levels : length zone.bitmaps ≡ zone.map.num
  pub some_level : 0 < zone.map.num
  pub few_levels : zone.map.num ≤ 32
  pub fits : Fits (zone.map.num - 1) zone.bitmaps
  -- no smallest block is marked free at two levels
  pub alone : Disjoint (zone.map.num - 1) zone.bitmaps
  -- the sectors of the zone, and the numbers that stay within 64 bits
  pub unit : 0 < zone.map.min
  pub extent : zone.map.last < zone.map.first + zone.map.min * 2 ^ (zone.map.num - 1)
  pub no_wrap : zone.map.first + zone.map.min * 2 ^ (zone.map.num - 1) < 2 ^ 64

-- A block of `size` sectors at `sector`: a smallest block doubled `order` times, the block number
-- `place` of that level, within the zone.
pub record Request (zone : ZoneMap) (sector size order place : ℕ) : Type 0 where
  pub order_in : order < zone.map.num
  pub doubled : size ≡ zone.map.min * 2 ^ order
  pub aligned : sector ≡ zone.map.first + place * size
  pub within : sector + size ≤ zone.map.last + 1

-- The smallest block that a sector of the zone lies in.
abbrev pub unit_of : ZoneMap → ℕ → ℕ
unit_of zone s = (s - zone.map.first) / zone.map.min

-- At how many levels the bitmaps mark a sector of the zone free: 0 is taken, and 1 is free.
unfoldable pub free_levels : ZoneMap → ℕ → ℕ
free_levels zone s = cover zone.bitmaps (unit_of zone s)

-- A sector of the zone.
abbrev pub InZone : ZoneMap → ℕ → Type 0
InZone zone s = (zone.map.first ≤ s) × (s ≤ zone.map.last)

-- A sector of a block.
abbrev pub in_block : ℕ → ℕ → ℕ → Bool
in_block sector size s = leb sector s && ltb s (sector + size)

quotient_unique :
    (place x size : ℕ)
    → 0 < size
    → ind (place == x / size) ≡ ind (leb (place * size) x && ltb x (place * size + size))
quotient_unique place x size pos = elim (ℕ_discrete place (x / size)) [
  | yes e ↦
      ground (
        arith,
        ap (λ (t : ℕ). t * size) e,
        div-mul-le_self x size,
        lt-mul-div-succ x {b = size} pos,
      )
  | no ne ↦ ground (
    arith,
    λ (p : place * size ≤ x) (q : x < (place + 1) * size).
        ne (sym (div-eq_of_lt-le {k = place} size {m = x} p q)),
  )
]

module _ {zone : ZoneMap} (wf : WellFormed zone) {sector size order place : ℕ}
    (rq : Request zone sector size order place) where
  pub size_pos : 0 < size
  size_pos = grind (arith, rq.doubled, wf.unit, one-le-pow order 2 (omega arith))

  -- The whole zone, in blocks of this size.
  whole : zone.map.min * 2 ^ (zone.map.num - 1) ≡ 2 ^ (zone.map.num - 1 - order) * size
  whole =
      ap (λ (t : ℕ). zone.map.min * t)
        (sym (pow_split order (zone.map.num - 1) (omega (arith, rq.order_in))))
      ∙ omega (arith, ap (λ (t : ℕ). 2 ^ (zone.map.num - 1 - order) * t) rq.doubled)

  pub place-lt : place < 2 ^ (zone.map.num - 1 - order)
  place-lt = elim (dec_lt place (2 ^ (zone.map.num - 1 - order))) [
    | yes h ↦ h
    | no h ↦
        let big : 2 ^ (zone.map.num - 1 - order) * size ≤ place * size = grind arith in
        absurd (omega (arith, whole, rq.aligned, rq.within, wf.extent, size_pos))
  ]

  pub size-lt : size < 2 ^ 64
  size-lt =
      let some_block : size ≤ 2 ^ (zone.map.num - 1 - order) * size =
        grind (arith, one-le-pow (zone.map.num - 1 - order) 2 (omega arith)) in
      omega (arith, whole, wf.no_wrap)

  -- The block's bit, worked out by the code, is its number on its level.
  pub block_bit_lem : block_bit zone sector order ≡ place
  block_bit_lem =
      ap u32 (
        ap₂ ◌/◌ offset (ap u64 (sym rq.doubled) ∙ mod-eq_of_lt size-lt)
        ∙ mul-div_cancel place size_pos)
      ∙ mod-eq_of_lt (
          bit-lt-word (zone.map.num - 1) order place (omega (arith, wf.few_levels, wf.some_level))
            place-lt)
    where
      offset : sub64 sector zone.map.first ≡ place * size
      offset = omega (arith, rq.aligned, rq.within, wf.extent, wf.no_wrap)

  -- A sector lies in the block exactly when its smallest block does.
  pub in_block_lem :
      (s : ℕ)
      → InZone zone s
      → ind (place == halve order (unit_of zone s)) ≡ ind (in_block sector size s)
  in_block_lem s i =
      ap (λ t. ind (place == t))
        (halve-eq-shift order (unit_of zone s)
          ∙ div-div-eq-div-mul (s - zone.map.first) zone.map.min (2 ^ order)
          ∙ ap (λ (t : ℕ). (s - zone.map.first) / t) (sym rq.doubled))
      ∙ quotient_unique place (s - zone.map.first) size size_pos
      ∙ ground (arith, rq.aligned)

pub unit_of-lt :
    {zone : ZoneMap}
    → WellFormed zone
    → (s : ℕ) → InZone zone s
    → unit_of zone s < 2 ^ (zone.map.num - 1)
unit_of-lt {zone} wf s i =
    (div-lt_iff_lt-mul {k = zone.map.min} wf.unit).1 (omega (arith, wf.extent))

-- The sectors of a smallest block of a block lie in it.
module _ {zone : ZoneMap} (wf : WellFormed zone) {sector size order place : ℕ}
    (rq : Request zone sector size order place) (u : ℕ) (here : place ≡ halve order u) where
  first_sector : ℕ
  first_sector = zone.map.first + u * zone.map.min

  bounds :
      (place * size ≤ u * zone.map.min) × (u * zone.map.min + zone.map.min ≤ place * size + size)
  bounds =
      let q : place ≡ u / 2 ^ order = here ∙ halve-eq-shift order u in
      let low : place * 2 ^ order ≤ u = rw q (div-mul-le_self u (2 ^ order)) in
      let high : u < 2 ^ order * (place + 1) =
        rw q (lt-mul-div-succ u {b = 2 ^ order} (one-le-pow order 2 (omega arith))) in
      let low' : place * 2 ^ order * zone.map.min ≤ u * zone.map.min =
        mul-le-mul_right zone.map.min low in
      let high' : (u + 1) * zone.map.min ≤ 2 ^ order * (place + 1) * zone.map.min =
        mul-le-mul_right zone.map.min (omega arith) in
      let s : place * size ≡ place * (zone.map.min * 2 ^ order) =
        ap (λ (t : ℕ). place * t) rq.doubled in
      (omega arith, omega (arith, rq.doubled))

  pub unit_sector : (s : ℕ) × InZone zone s × (in_block sector size s ≡ true) × (unit_of zone s ≡ u)
  unit_sector = (
    zone.map.first + u * zone.map.min,
    omega (arith, bounds, rq.aligned, rq.within, wf.unit),
    ground (arith, bounds, rq.aligned, wf.unit),
    ap (λ (t : ℕ). t / zone.map.min) (omega arith) ∙ mul-div_cancel u wf.unit,
  )
