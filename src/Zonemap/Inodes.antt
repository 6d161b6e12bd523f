-- ===== src/Zonemap/Inodes.antt =====
-- Where an inode is kept: mfs_inode_count and mfs_inode_to_sector of lib/zonemap.c, on the list of
-- the zones of type `ztInode`, which is another list than that of the loaded zones.
use mfstools.Base.{
  ℕ, ◌+◌, ◌-◌, ◌*◌, ◌/◌, ◌%◌, ◌^◌, ◌<◌, ◌≡◌, ap, Option, none, some, List, [], ◌∷◌, arith, leb, ltb,
  if◌then◌else◌, u32, add64, sub64,
}
use native.Mathlib.Decide.{dec_lt}
use mfstools.Zonemap.Zone.{ZoneMap, MapError, inode_out_of_bounds}

-- `struct zone_map_head` of the inode zones
pub record InodeZones : Type 0 where
  pub size : ℕ
  pub zones : List ZoneMap

-- mfs_inode_count
unfoldable pub inode_count : InodeZones → ℕ
inode_count head = u32 (head.size / 2)

-- The loop of mfs_inode_to_sector; `none` if no zone is left.
unfoldable pub sector_in_zones : List ZoneMap → ℕ → Option ℕ
sector_in_zones [] sector = none
sector_in_zones (cur ∷ zones) sector =
    if ltb sector cur.map.size
    then some (add64 sector cur.map.first)
    else sector_in_zones zones (sub64 sector cur.map.size)

-- mfs_inode_to_sector: the sector, or 0, and the message that it leaves.
unfoldable pub inode_to_sector : InodeZones → ℕ → ℕ × Option MapError
unfolding inode_count sector_in_zones
inode_to_sector head inode =
    if leb (inode_count head) inode
    then (0, none)
    else elim (sector_in_zones head.zones (u32 (inode * 2))) [
      | some sector ↦ (sector, none)
      | none ↦ (0, some (inode_out_of_bounds inode))
    ]

-- The sectors of the zones, one zone behind the other, as the inodes number them.
unfoldable pub total_size : List ZoneMap → ℕ
total_size [] = 0
total_size (cur ∷ zones) = cur.map.size + total_size zones

-- A sector stands at a place that the zones before it leave: it is `offset` sectors into the zone.
pub data Placed : List ZoneMap → ℕ → ℕ → Type 0 where
  here :
      {cur : ZoneMap} {zones : List ZoneMap} {offset sector : ℕ}
      → offset < cur.map.size
      → sector ≡ cur.map.first + offset
      → Placed (cur ∷ zones) offset sector
  later :
      {cur : ZoneMap} {zones : List ZoneMap} {offset offset' sector : ℕ}
      → offset ≡ cur.map.size + offset'
      → Placed zones offset' sector
      → Placed (cur ∷ zones) offset sector

-- No sector number of a zone wraps.
unfoldable pub Fits64 : List ZoneMap → Type 0
Fits64 [] = Unit
Fits64 (cur ∷ zones) = (cur.map.first + cur.map.size < 2 ^ 64) × Fits64 zones

sector_in_zones_lem :
    (zones : List ZoneMap) (offset : ℕ)
    → Fits64 zones
    → offset < total_size zones
    → offset < 2 ^ 64
    → (sector : ℕ) × (sector_in_zones zones offset ≡ some sector) × Placed zones offset sector
unfolding sector_in_zones Fits64 total_size
sector_in_zones_lem [] offset fits h h' = absurd (omega arith)
sector_in_zones_lem (cur ∷ zones) offset fits h h' = elim (dec_lt offset cur.map.size) [
  | yes l ↦ (add64 offset cur.map.first, ground arith, here l (omega (arith, fits.0)))
  | no ge ↦
      let e : sub64 offset cur.map.size ≡ offset - cur.map.size = omega (arith, fits.0) in
      let rest =
        sector_in_zones_lem zones (offset - cur.map.size) fits.1 (omega arith) (omega arith) in
      (
        rest.0,
        ground (arith, ap (λ o. sector_in_zones zones o) e, rest.1),
        later (omega arith) rest.2,
      )
]

-- The sizes of the zones are even, so that no zone ends between the two sectors of an inode.
unfoldable pub AreEven : List ZoneMap → Type 0
AreEven [] = Unit
AreEven (cur ∷ zones) = (cur.map.size % 2 ≡ 0) × AreEven zones

-- The sector behind one at an even place is at the next place of the same zone.
Placed-next :
    {zones : List ZoneMap} {offset sector : ℕ}
    → AreEven zones
    → offset % 2 ≡ 0
    → Placed zones offset sector
    → Placed zones (offset + 1) (sector + 1)
unfolding AreEven
Placed-next even e (here h eq) = here (omega (arith, e, h, even)) (omega (arith, eq))
Placed-next even e (later eq p) =
    later (omega (arith, eq)) (Placed-next even.1 (omega (arith, e, eq, even)) p)

-- Every inode below the count, of zones of even sizes that have the sectors the head counts, has a
-- place: its two sectors are numbered from its number doubled, through the zones one behind the other,
-- with no message left.
pub inode_to_sector-Placed :
    (head : InodeZones) (inode : ℕ)
    → Fits64 head.zones
    → AreEven head.zones
    → total_size head.zones ≡ head.size
    → head.size < 2 ^ 32
    → inode < inode_count head
    → (sector : ℕ) × (inode_to_sector head inode ≡ (sector, none))
      × Placed head.zones (inode * 2) sector
      × Placed head.zones (inode * 2 + 1) (sector + 1)
unfolding inode_to_sector inode_count
inode_to_sector-Placed head inode fits even total small h =
    let place =
      sector_in_zones_lem head.zones (inode * 2) fits (omega (arith, total)) (omega arith) in
    let e : u32 (inode * 2) ≡ inode * 2 = omega arith in
    (
      place.0,
      ground (arith, ap (λ o. sector_in_zones head.zones o) e, place.1),
      place.2,
      Placed-next even (omega arith) place.2,
    )
