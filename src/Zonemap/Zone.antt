-- ===== src/Zonemap/Zone.antt =====
-- The data of include/zonemap.h and include/mfs.h, and how lib/zonemap.c finds the zone of a block.
-- A field of a header is held as the number that `intswap32` or `intswap64` makes of it. The two
-- layouts `zone_header_32` and `zone_header_64` hold the same fields at different widths; `is_64`
-- of the handle says which is in use, and `cut` cuts a stored sum to the width of the layout.
use mfstools.Base.{
  ℕ, suc, ◌%◌, Bool, not, ◌&&◌, Option, List, [], ◌∷◌, ltb, leb, ◌==◌, if◌then◌else◌, u32, u64,
  add64, sub64,
}
use mfstools.Zonemap.Bitmap.{Bitmap}

-- `zone_type`; `ztPad` is not a value that a map has.
pub data ZoneType : Type 0 where
  inode application media : ZoneType

-- `zone_header_32`, `zone_header_64`, with the `zone_map_ptr` of the next map spelled out
pub record ZoneHeader : Type 0 where
  pub sector : ℕ
  pub sbackup : ℕ
  pub length : ℕ
  pub next_sector : ℕ
  pub next_sbackup : ℕ
  pub next_length : ℕ
  pub next_size : ℕ
  pub next_min : ℕ
  pub type : ZoneType
  pub logstamp : ℕ
  pub checksum : ℕ
  pub first : ℕ
  pub last : ℕ
  pub size : ℕ
  pub min : ℕ
  pub free : ℕ
  pub num : ℕ

-- `struct zone_changed_run`
pub record ChangedRun : Type 0 where
  pub bitno : ℕ
  pub newstate : Bool

-- `struct zone_changes`
pub record Changes : Type 0 where
  pub allocated : ℕ
  pub freed : ℕ

-- `struct zone_map`. The two links are the order of `loaded_zones` in the handle.
pub record ZoneMap : Type 0 where
  pub map : ZoneHeader
  pub bitmaps : List Bitmap
  pub changed_runs : List (List ChangedRun)
  pub changes : List Changes
  pub dirty : Bool

-- The messages that the zone map functions leave in `err_msg`, with their arguments.
pub data MapError : Type 0 where
  out_of_bounds : ℕ → MapError
  crosses_boundary : ℕ → ℕ → MapError
  not_aligned : ℕ → ℕ → MapError
  too_large : ℕ → ℕ → MapError
  not_multiple : ℕ → ℕ → MapError
  inode_out_of_bounds : ℕ → MapError

-- The part of `struct mfs_handle` that the zone map functions use.
pub record MfsHandle : Type 0 where
  pub is_64 : Bool
  pub loaded_zones : List ZoneMap
  pub err : Option MapError

-- What is stored in a sector or size field of the layout.
abbrev pub cut : Bool → ℕ → ℕ
cut is_64 n = if is_64 then u64 n else u32 n

pub data Lookup : Type 0 where
  -- the place of the zone among the loaded ones, and the zone
  found : ℕ → ZoneMap → Lookup
  refused : MapError → Lookup

-- The place of a loaded zone, and the zone; or none.
pub data ZoneSearch : Type 0 where
  missing : ZoneSearch
  at : ℕ → ZoneMap → ZoneSearch

-- The loop of mfs_zone_for_block over the loaded zones, `i` of which are passed.
unfoldable pub find_zone : List ZoneMap → ℕ → ℕ → ZoneSearch
find_zone [] sector i = missing
find_zone (zone ∷ zones) sector i =
    if leb zone.map.first sector && leb sector zone.map.last
    then at i zone
    else find_zone zones sector (suc i)

-- The two checks of mfs_zone_for_block on the zone that was found.
unfoldable pub check_block : ℕ → ZoneMap → ℕ → ℕ → Lookup
check_block i zone sector size =
    if ltb zone.map.last (sub64 (add64 sector size) 1)
    then refused (crosses_boundary sector size)
    else if not (sub64 sector zone.map.first % size == 0)
    then refused (not_aligned sector size)
    else found i zone

-- mfs_zone_for_block
unfoldable pub zone_for_block : MfsHandle → ℕ → ℕ → Lookup
unfolding find_zone check_block
zone_for_block mfshnd sector size = elim (find_zone mfshnd.loaded_zones sector 0) [
  | missing ↦ refused (out_of_bounds sector)
  | at i zone ↦ check_block i zone sector size
]
