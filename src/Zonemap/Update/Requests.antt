-- ===== src/Zonemap/Update/Requests.antt =====
-- Requests that change nothing, requests that are refused, and what mfs_zone_for_block guarantees.
use mfstools.Base.{
  ℕ, suc, ◌+◌, ◌-◌, ◌*◌, ◌/◌, ◌%◌, ◌^◌, ◌≤◌, ◌<◌, ◌≡◌, refl, ap, ◌∙◌, Bool, true, false, arith,
  some, List, [], ◌∷◌, get_elem?, leb, ◌&&◌, Bool-cases, sub64, inl, inr,
}
use mfstools.Zonemap.Zone.{
  ZoneMap, MfsHandle, found, ZoneSearch, missing, at, find_zone, check_block, zone_for_block,
}
use mfstools.Zonemap.Update.{level_bit, find_free, apply_state, updated, update_zone}
use mfstools.Zonemap.Update.Search.{Finds, find_free-Finds, find_free-none}
use mfstools.Zonemap.Update.WellFormed.{WellFormed, Request}
use mfstools.Zonemap.Update.Laws.{update_zone_lem}

-- A request whose stamp is not newer than that of the zone was applied before: it is accepted and
-- changes nothing, whatever it asks for.
pub update_zone_stale :
    (is_64 : Bool) (zone : ZoneMap) (sector size : ℕ) (state : Bool) (logstamp : ℕ)
    → logstamp ≤ zone.map.logstamp
    → update_zone is_64 zone sector size state logstamp ≡ updated zone
unfolding update_zone
update_zone_stale is_64 zone sector size state logstamp old = ground arith

module _ {zone : ZoneMap} (wf : WellFormed zone) {sector size order place : ℕ}
    (rq : Request zone sector size order place) (is_64 : Bool) {logstamp : ℕ}
    (newer : zone.map.logstamp < logstamp) where
  -- Freeing a block that lies in a free block, of its own or of a larger size, changes nothing.
  pub update_zone_free_again :
      (level : ℕ)
      → order ≤ level
      → level < zone.map.num
      → level_bit zone.bitmaps level (place / 2 ^ (level - order)) ≡ true
      → update_zone is_64 zone sector size true logstamp ≡ updated zone
  unfolding apply_state
  update_zone_free_again level from below held =
      update_zone_lem wf rq is_64 true newer
      ∙ ap (λ r. updated (apply_state is_64 zone size true order place r)) search.result
    where
      search :
          Finds zone.bitmaps order place
            (zone.map.num - order)
            order
            (find_free zone.bitmaps order place (zone.map.num - order) order)
      search =
          find_free-Finds zone.bitmaps order place (zone.map.num - order) order level from
            (omega (arith, rq.order_in)) held

  -- Allocating a block that lies in no free block of its own or of a larger size changes nothing.
  pub update_zone_allocate_again :
      ((level : ℕ)
        → order ≤ level
        → level < zone.map.num
        → level_bit zone.bitmaps level (place / 2 ^ (level - order)) ≡ false)
      → update_zone is_64 zone sector size false logstamp ≡ updated zone
  unfolding apply_state
  update_zone_allocate_again off =
      update_zone_lem wf rq is_64 false newer
      ∙ ap (λ r. updated (apply_state is_64 zone size false order place r))
          (find_free-none zone.bitmaps order place (zone.map.num - order) order
            (λ l p q. off l p (omega (arith, rq.order_in))))

-- The zone that the search finds is the one at the place that it reports, and holds the sector.
pub record FoundAt (zones : List ZoneMap) (sector i j : ℕ) (zone : ZoneMap) : Type 0 where
  pub past : i ≤ j
  pub at_place : get_elem? zones (j - i) ≡ some zone
  pub first : zone.map.first ≤ sector
  pub last : sector ≤ zone.map.last

module _ (z : ZoneMap) (zones : List ZoneMap) (sector i : ℕ) {j : ℕ} {zone : ZoneMap} where
  FoundAt-here :
      (leb z.map.first sector && leb sector z.map.last) ≡ true
      → i ≡ j
      → z ≡ zone
      → FoundAt (z ∷ zones) sector i j zone
  FoundAt-here here place same =
      rw (← same, ← place)
        (record {
          past = omega arith;
          at_place = ap (λ k. get_elem? (z ∷ zones) k) self;
          first = ground arith;
          last = ground arith;
        })
    where
      self : i - i ≡ 0
      self = omega arith

  FoundAt-later : FoundAt zones sector (suc i) j zone → FoundAt (z ∷ zones) sector i j zone
  FoundAt-later rest = record {
    past = omega (arith, rest.past);
    at_place = ap (λ k. get_elem? (z ∷ zones) k) shift ∙ rest.at_place;
    first = rest.first;
    last = rest.last;
  }
    where
      shift : j - i ≡ suc (j - suc i)
      shift = omega (arith, rest.past)

find_zone-FoundAt :
    (zones : List ZoneMap) (sector i : ℕ) {j : ℕ} {zone : ZoneMap}
    → find_zone zones sector i ≡ at j zone
    → FoundAt zones sector i j zone
unfolding find_zone
find_zone-FoundAt [] sector i e = cc e
find_zone-FoundAt (z ∷ zones) sector i e =
    elim (Bool-cases (leb z.map.first sector && leb sector z.map.last)) [
      | inl here ↦ FoundAt-here z zones sector i here (ground arith) (ground arith)
      | inr away ↦
          FoundAt-later z zones sector i (find_zone-FoundAt zones sector (suc i) (ground arith))
    ]

check_block_lem :
    (z : ZoneMap) (j sector size : ℕ) {i : ℕ} {zone : ZoneMap}
    → check_block j z sector size ≡ found i zone
    → 0 < size
    → sector + size < 2 ^ 64
    → z.map.first ≤ sector
    → (j ≡ i) × (z ≡ zone) × (sector + size ≤ z.map.last + 1) × ((sector - z.map.first) % size ≡ 0)
unfolding check_block
check_block_lem z j sector size e pos small low = ground (arith, ap (λ (t : ℕ). t % size) offset)
  where
    offset : sub64 sector z.map.first ≡ sector - z.map.first
    offset = omega arith

-- What mfs_zone_for_block hands on: the zone is the loaded one at its place, the block lies within
-- it, and it is a whole number of block sizes from the start of the zone.
pub zone_for_block_lem :
    (mfshnd : MfsHandle) (sector size : ℕ) {i : ℕ} {zone : ZoneMap}
    → zone_for_block mfshnd sector size ≡ found i zone
    → 0 < size
    → sector + size < 2 ^ 64
    → (get_elem? mfshnd.loaded_zones i ≡ some zone)
      × (zone.map.first ≤ sector)
      × (sector + size ≤ zone.map.last + 1)
      × (sector ≡ zone.map.first + (sector - zone.map.first) / size * size)
unfolding zone_for_block
zone_for_block_lem mfshnd sector size {i} {zone} e pos small =
    search (find_zone mfshnd.loaded_zones sector 0) refl
  where
    whole : (j : ℕ) → j ≡ j - 0
    whole j = omega arith

    search :
        (r : ZoneSearch)
        → find_zone mfshnd.loaded_zones sector 0 ≡ r
        → (get_elem? mfshnd.loaded_zones i ≡ some zone)
          × (zone.map.first ≤ sector)
          × (sector + size ≤ zone.map.last + 1)
          × (sector ≡ zone.map.first + (sector - zone.map.first) / size * size)
    search missing r = cc (rw (r, zone_for_block) at e)
    search (at j z) r =
        let here : FoundAt mfshnd.loaded_zones sector 0 j z =
          find_zone-FoundAt mfshnd.loaded_zones sector 0 r in
        let checked =
          check_block_lem z j sector size (rw (r, zone_for_block) at e) pos small here.first in
        rw (← checked.1, ← checked.0)
          (
            ap (λ k. get_elem? mfshnd.loaded_zones k) (whole j) ∙ here.at_place,
            here.first,
            checked.2,
            omega (arith, checked.3, here.first),
          )
