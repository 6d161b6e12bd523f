-- ===== src/Zonemap/Update/Freeing.antt =====
-- Freeing a block: mfs_zone_map_update with a state that is not zero.
use mfstools.Base.{
  ℕ, ◌+◌, ◌-◌, ◌*◌, ◌/◌, ◌^◌, ◌≤◌, ◌<◌, ◌≡◌, refl, sym, ap, ◌∙◌, Bool, suc, true, false, arith,
  none, List, length, ◌==◌,
}
use native.Mathlib.Decide.{ℕ_discrete}
use mfstools.Zonemap.Bitmap.{Bitmap}
use mfstools.Zonemap.Zone.{ZoneMap, cut}
use mfstools.Zonemap.Update.{
  level_bit, find_free, mark_free, coalesce, free_block, apply_state, updated, update_zone,
}
use mfstools.Zonemap.Update.Cover.{
  ind, halve, cover, halve-eq-shift, ind-le-cover, halve-block_start, Disjoint,
}
use mfstools.Zonemap.Update.Free.{
  cover-mark_free, length-mark_free, Fits-mark_free, level_bit-mark_free_self, coalesce-Same, Same,
}
use mfstools.Zonemap.Update.Search.{find_free-none, halve-add}
use mfstools.Zonemap.Update.WellFormed.{
  WellFormed, Request, unit_of, free_levels, InZone, in_block, place-lt, in_block_lem, unit_of-lt,
  unit_sector,
}
use mfstools.Zonemap.Update.Joining.{new_pair, new_pair-freed}
use mfstools.Zonemap.Update.Laws.{update_zone_lem}

module _ {zone : ZoneMap} (wf : WellFormed zone) {sector size order place : ℕ}
    (rq : Request zone sector size order place)
    (taken : (s : ℕ) → InZone zone s → in_block sector size s ≡ true → free_levels zone s ≡ 0) where
  uncovered : (u : ℕ) → place ≡ halve order u → cover zone.bitmaps u ≡ 0
  unfolding free_levels
  uncovered u here =
      let (s, inside, among, same) = unit_sector wf rq u here in
      sym (ap (λ t. cover zone.bitmaps t) same) ∙ taken s inside among

  inside : order < length zone.bitmaps
  inside = omega (arith, rq.order_in, wf.levels)

  -- No level from the block's own up has it free.
  level_off :
      (l : ℕ)
      → order ≤ l
      → l < length zone.bitmaps
      → level_bit zone.bitmaps l (place / 2 ^ (l - order)) ≡ false
  level_off l h h' = ground (
    arith,
    ind-le-cover zone.bitmaps l (place * 2 ^ order) h',
    uncovered (place * 2 ^ order) (sym (halve-block_start order place)),
    ap (λ t. level_bit zone.bitmaps l t) meets,
  )
    where
      split : l ≡ order + (l - order)
      split = omega arith

      meets : halve l (place * 2 ^ order) ≡ place / 2 ^ (l - order)
      meets =
          ap (λ k. halve k (place * 2 ^ order)) split
          ∙ halve-add order (l - order) (place * 2 ^ order)
          ∙ ap (λ t. halve (l - order) t) (halve-block_start order place)
          ∙ halve-eq-shift (l - order) place

  marked : List Bitmap
  marked = mark_free order place zone.bitmaps

  few : zone.map.num - 1 < 32
  few = omega (arith, wf.few_levels, wf.some_level)

  marked-cover :
      (u : ℕ)
      → u < 2 ^ (zone.map.num - 1)
      → cover marked u ≡ cover zone.bitmaps u + ind (place == halve order u)
  unfolding marked
  marked-cover =
      cover-mark_free (zone.map.num - 1) few zone.bitmaps wf.fits order place inside
        (omega (arith, rq.order_in)) (place-lt wf rq) off
    where
      self : order - order ≡ 0
      self = omega arith

      whole : place / 2 ^ 0 ≡ place
      whole = omega arith

      off : level_bit zone.bitmaps order place ≡ false
      off = ground (
        arith,
        level_off order (omega arith) inside,
        ap (λ (t : ℕ). level_bit zone.bitmaps order (place / 2 ^ t)) self,
        ap (λ (t : ℕ). level_bit zone.bitmaps order t) whole,
      )

  marked-Disjoint : Disjoint (zone.map.num - 1) marked
  marked-Disjoint u h = elim (ℕ_discrete place (halve order u)) [
    | yes here ↦ ground (arith, marked-cover u h, uncovered u here)
    | no away ↦ ground (arith, marked-cover u h, wf.alone u h)
  ]

  joined : Same (zone.map.num - 1) marked (coalesce (zone.map.num - 1 - order) order place marked)
  unfolding marked
  joined =
      coalesce-Same (zone.map.num - 1) few (zone.map.num - 1 - order) order place marked
        (omega (arith, levels, wf.levels, rq.order_in, wf.some_level))
        (omega (arith, levels, wf.levels, wf.some_level))
        (Fits-mark_free (zone.map.num - 1) order place zone.bitmaps wf.fits) marked-Disjoint
        (place-lt wf rq)
        (level_bit-mark_free_self (zone.map.num - 1) order place zone.bitmaps few wf.fits inside
          (place-lt wf rq))
    where
      levels : length marked ≡ length zone.bitmaps
      levels = length-mark_free order place zone.bitmaps

  freed_WellFormed : (is_64 : Bool) → WellFormed (free_block is_64 zone size order place)
  unfolding free_block marked
  freed_WellFormed is_64 = record {
    levels = joined.levels ∙ length-mark_free order place zone.bitmaps ∙ wf.levels;
    some_level = wf.some_level;
    few_levels = wf.few_levels;
    fits = joined.fits;
    alone = λ u h. omega (arith, joined.free u h, marked-Disjoint u h);
    unit = wf.unit;
    extent = wf.extent;
    no_wrap = wf.no_wrap;
  }

  freed_levels :
      (is_64 : Bool) (s : ℕ)
      → InZone zone s
      → free_levels (free_block is_64 zone size order place) s
        ≡ free_levels zone s + ind (in_block sector size s)
  unfolding free_block marked free_levels
  freed_levels is_64 s i = omega (
    arith,
    joined.free (unit_of zone s) (unit_of-lt wf s i),
    marked-cover (unit_of zone s) (unit_of-lt wf s i),
    in_block_lem wf rq s i,
  )

  -- Freeing a block of which no sector is free, with a request that is not stale: the call succeeds,
  -- the zone stays well formed, exactly the sectors of the block turn from taken to free, and the
  -- header's count of free sectors grows by its size, cut to the field's width. Below the top level no
  -- two neighbours are both free afterwards that were not both free before.
  pub update_zone_frees :
      (is_64 : Bool) {logstamp : ℕ}
      → zone.map.logstamp < logstamp
      → (s : ℕ) → InZone zone s
      → (l i : ℕ) → suc l < zone.map.num
      → i < 2 ^ (zone.map.num - 1 - l)
      → (after : ZoneMap) × (update_zone is_64 zone sector size true logstamp ≡ updated after)
        × WellFormed after
        × (free_levels after s ≡ free_levels zone s + ind (in_block sector size s))
        × (after.map.free ≡ cut is_64 (zone.map.free + size))
        × (new_pair zone.bitmaps after.bitmaps l i ≡ false)
  unfolding apply_state free_block
  update_zone_frees is_64 newer s inside_zone l i below range = (
    free_block is_64 zone size order place,
    update_zone_lem wf rq is_64 true newer
        ∙ ap (λ r. updated (apply_state is_64 zone size true order place r)) none_found,
    freed_WellFormed is_64,
    freed_levels is_64 s inside_zone,
    refl,
    new_pair-freed (zone.map.num - 1) few (zone.map.num - 1 - order) order place zone.bitmaps
        (omega (arith, wf.levels, rq.order_in)) (omega (arith, wf.levels)) wf.fits (place-lt wf rq)
        l i (omega (arith, below, wf.levels)) range,
  )
    where
      none_found : find_free zone.bitmaps order place (zone.map.num - order) order ≡ none
      none_found =
          find_free-none zone.bitmaps order place (zone.map.num - order) order
            (λ l p q. level_off l p (omega (arith, wf.levels, rq.order_in)))
