-- ===== src/Zonemap/Update/Laws.antt =====
-- What mfs_zone_map_update does to a well-formed zone: freeing and allocating a block.
use mfstools.Base.{ℕ, ◌-◌, ◌<◌, ◌≡◌, Bool, arith}
use mfstools.Zonemap.Zone.{ZoneMap}
use mfstools.Zonemap.Update.{find_order, find_free, apply_state, updated, update_zone}
use mfstools.Zonemap.Update.Search.{find_order_lem}
use mfstools.Zonemap.Update.WellFormed.{WellFormed, Request, size-lt, block_bit_lem}

module _ {zone : ZoneMap} (wf : WellFormed zone) {sector size order place : ℕ}
    (rq : Request zone sector size order place) where
  order_lem : find_order zone.map.min size zone.map.num 0 ≡ order
  order_lem = rw (rq.doubled) (
      find_order_lem zone.map.min order zone.map.num 0 wf.unit
        (omega (arith, rq.doubled, size-lt wf rq)) (omega arith) (omega (arith, rq.order_in)))

  -- A request that the zone can serve, and that is not stale, gets as far as the search.
  pub update_zone_lem :
      (is_64 state : Bool) {logstamp : ℕ}
      → zone.map.logstamp < logstamp
      → update_zone is_64 zone sector size state logstamp
        ≡ updated (
            apply_state is_64 zone size state order place
              (find_free zone.bitmaps order place (zone.map.num - order) order))
  unfolding update_zone
  update_zone_lem is_64 state {logstamp} newer =
      rw (order_lem, block_bit_lem wf rq) (ground (arith, rq.order_in, rq.doubled, size-lt wf rq))
