-- ===== src/Zonemap/Update/Allocating.antt =====
-- Allocating a block: mfs_zone_map_update with the state zero.
use mfstools.Base.{
  ℕ, suc, ◌+◌, ◌-◌, ◌/◌, ◌^◌, ◌≤◌, ◌<◌, ◌≡◌, refl, ap, ◌∙◌, Bool, true, false, arith, length, sub64,
}
use mfstools.Zonemap.Zone.{ZoneMap, cut}
use mfstools.Zonemap.Update.{
  level_bit, find_free, take_block, alloc_block, apply_state, updated, update_zone,
}
use mfstools.Zonemap.Update.Cover.{ind, halve, halve-eq-shift}
use mfstools.Zonemap.Update.Alloc.{Taken, take_block-Taken}
use mfstools.Zonemap.Update.Search.{Finds, find_free-Finds, PathUp-of_free}
use mfstools.Zonemap.Update.WellFormed.{
  WellFormed, Request, unit_of, free_levels, InZone, in_block, place-lt, in_block_lem, unit_of-lt,
}
use mfstools.Zonemap.Update.Laws.{update_zone_lem}

module _ {zone : ZoneMap} (wf : WellFormed zone) {sector size order place : ℕ}
    (rq : Request zone sector size order place) (level : ℕ) (from : order ≤ level)
    (below : level < zone.map.num)
    (held : level_bit zone.bitmaps level (place / 2 ^ (level - order)) ≡ true) where
  search :
      Finds zone.bitmaps order place
        (zone.map.num - order)
        order
        (find_free zone.bitmaps order place (zone.map.num - order) order)
  search =
      find_free-Finds zone.bitmaps order place (zone.map.num - order) order level from
        (omega (arith, rq.order_in)) held

  taken :
      Taken
        (zone.map.num - 1)
        order
        place
        zone.bitmaps
        (take_block (search.level - order) order place zone.bitmaps)
  taken =
      take_block-Taken (zone.map.num - 1) (omega (arith, wf.few_levels, wf.some_level))
        (search.level - order) order place zone.bitmaps room tall wf.fits (place-lt wf rq)
        (PathUp-of_free (zone.map.num - 1) zone.bitmaps (search.level - order) order place wf.alone
          room tall (place-lt wf rq) found_on)
    where
      room : order + (search.level - order) < length zone.bitmaps
      room = omega (arith, wf.levels, search.from, search.below, rq.order_in)

      tall : length zone.bitmaps ≤ suc (zone.map.num - 1)
      tall = omega (arith, wf.levels, wf.some_level)

      there : order + (search.level - order) ≡ search.level
      there = omega (arith, search.from)

      found_on :
          level_bit zone.bitmaps
            (order + (search.level - order))
            (halve (search.level - order) place)
          ≡ true
      found_on = rw (there, halve-eq-shift (search.level - order) place) (search.on)

  -- Allocating a block that lies in a free block of its own or of a larger size, with a request that
  -- is not stale: the call succeeds, the zone stays well formed, exactly the sectors of the block turn
  -- from free to taken (of a larger free block the rest stays free), and the header's count of free
  -- sectors falls by its size, cut to the field's width.
  pub update_zone_allocates :
      (is_64 : Bool) {logstamp : ℕ}
      → zone.map.logstamp < logstamp
      → (s : ℕ) → InZone zone s
      → (after : ZoneMap) × (update_zone is_64 zone sector size false logstamp ≡ updated after)
        × WellFormed after
        × (free_levels after s + ind (in_block sector size s) ≡ free_levels zone s)
        × (after.map.free ≡ cut is_64 (sub64 zone.map.free size))
  unfolding apply_state alloc_block free_levels
  update_zone_allocates is_64 newer s i = (
    alloc_block is_64 zone size order place search.level,
    update_zone_lem wf rq is_64 false newer
        ∙ ap (λ r. updated (apply_state is_64 zone size false order place r)) search.result,
    record {
      levels = taken.levels ∙ wf.levels;
      some_level = wf.some_level;
      few_levels = wf.few_levels;
      fits = taken.fits;
      alone = λ u h. omega (arith, taken.free u h, wf.alone u h);
      unit = wf.unit;
      extent = wf.extent;
      no_wrap = wf.no_wrap;
    },
    omega (arith, taken.free (unit_of zone s) (unit_of-lt wf s i), in_block_lem wf rq s i),
    refl,
  )
