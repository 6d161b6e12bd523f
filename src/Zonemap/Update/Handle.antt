-- ===== src/Zonemap/Update/Handle.antt =====
-- mfs_zone_map_update and mfs_zone_map_block_state at the handle.
use mfstools.Base.{
  ℕ, zero, suc, ◌+◌, ◌-◌, ◌*◌, ◌/◌, ◌^◌, ◌≤◌, ◌<◌, ◌≡◌, ap, ap₂, ◌∙◌, arith, u32, sub64,
}
use native.Mathlib.Nat.{
  mod-eq_of_lt, div-div-eq-div-mul, mul-div_cancel, one-le-pow, pow-suc, pow-le-pow_right,
}
use native.Mathlib.Decide.{ℕ_discrete}
use mfstools.Zonemap.Zone.{ZoneMap}
use mfstools.Zonemap.Update.{level_bit, find_order_32, state_is, zone_block_state}
use mfstools.Zonemap.Update.Cover.{bit-lt-word}
use mfstools.Zonemap.Update.WellFormed.{WellFormed, Request, size_pos, place-lt}

find_order_32_lem :
    (minalloc o left order : ℕ)
    → 0 < minalloc
    → minalloc * 2 ^ o < 2 ^ 32
    → order ≤ o
    → o < order + left
    → find_order_32 minalloc (minalloc * 2 ^ o) left order ≡ o
unfolding find_order_32
find_order_32_lem minalloc o zero order pos fits h h' = absurd (omega arith)
find_order_32_lem minalloc o (suc left) order pos fits h h' = elim (ℕ_discrete order o) [
  | yes e ↦ ground (arith, ap (λ (t : ℕ). minalloc * 2 ^ t) e)
  | no ne ↦
      ground (arith, find_order_32_lem minalloc o left (order + 1) pos fits, smaller (omega arith))
]
  where
    smaller : order < o → minalloc * 2 ^ order < minalloc * 2 ^ o
    smaller l = grind (
      arith,
      pow-suc 2 order,
      one-le-pow order 2 (omega arith),
      pow-le-pow_right {n = 2} (omega arith) {i = suc order} {j = o} l,
    )

-- For a block that the zone can serve, mfs_zone_map_block_state reads the block's own bit, the one
-- that mfs_zone_map_update works on. The size must fit 32 bits, in which this function shifts.
pub zone_block_state_lem :
    {zone : ZoneMap} {sector size order place : ℕ}
    → WellFormed zone
    → Request zone sector size order place
    → size < 2 ^ 32
    → zone_block_state zone sector size ≡ state_is (level_bit zone.bitmaps order place)
unfolding zone_block_state
zone_block_state_lem {zone} {sector} {size} {order} {place} wf rq small =
    rw (order_lem, bit_lem) (ground (arith, rq.order_in, rq.doubled))
  where
    order_lem : find_order_32 zone.map.min size zone.map.num 0 ≡ order
    order_lem = rw (rq.doubled) (
        find_order_32_lem zone.map.min order zone.map.num 0 wf.unit (omega (arith, rq.doubled))
          (omega arith) (omega (arith, rq.order_in)))

    offset : sub64 sector zone.map.first ≡ place * size
    offset = omega (arith, rq.aligned, rq.within, wf.extent, wf.no_wrap)

    block_number : sub64 sector zone.map.first / 2 ^ order / zone.map.min ≡ place
    block_number =
        div-div-eq-div-mul (sub64 sector zone.map.first) (2 ^ order) zone.map.min
        ∙ ap₂ ◌/◌ offset (omega (arith, rq.doubled))
        ∙ mul-div_cancel place (size_pos wf rq)

    bit_lem : u32 (sub64 sector zone.map.first / 2 ^ order / zone.map.min) ≡ place
    bit_lem =
        ap u32 block_number
        ∙ mod-eq_of_lt (
            bit-lt-word (zone.map.num - 1) order place (omega (arith, wf.few_levels, wf.some_level))
              (place-lt wf rq))
