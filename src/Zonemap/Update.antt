-- ===== src/Zonemap/Update.antt =====
-- mfs_zone_map_update and mfs_zone_map_block_state of lib/zonemap.c: the buddy allocator.
-- Level 0 of the bitmaps has a bit for each smallest block, and each further level a bit for two
-- blocks of the level below. A bit that is one marks its whole block free.
pub mod Cover
pub mod Free
pub mod Alloc
pub mod Search
pub mod WellFormed
pub mod Joining
pub mod Laws
pub mod Freeing
pub mod Allocating
pub mod Requests
pub mod Handle
use mfstools.Base.{
  ℕ, zero, suc, ◌+◌, ◌-◌, ◌/◌, ◌^◌, Bool, true, false, not, Option, none, some, List, bit_xor, ltb,
  leb, ◌==◌, ◌<<◌, ◌>>◌, if◌then◌else◌, u32, u64, sub32, sub64, set, modify, get_or,
}
use mfstools.Zonemap.Bitmap.{Bitmap, no_bitmap, bit_state_get, bit_state_set, bit_state_clear}
use mfstools.Zonemap.Zone.{
  ZoneMap, MapError, too_large, not_multiple, MfsHandle, cut, Lookup, found, refused,
  zone_for_block,
}

-- The bit `bit` of the bitmap of level `order`.
abbrev pub level_bit : List Bitmap → ℕ → ℕ → Bool
level_bit bitmaps order bit = bit_state_get (get_or bitmaps order no_bitmap) bit

-- The loop that finds the level whose blocks hold `size` sectors, with `left` levels to go.
unfoldable pub find_order : ℕ → ℕ → ℕ → ℕ → ℕ
find_order minalloc size zero order = order
find_order minalloc size (suc left) order =
    if leb size (u64 (minalloc << order)) then order else find_order minalloc size left (order + 1)

-- The loop that finds the first free bit of the block or of one that holds it; `none` is -1.
unfoldable pub find_free : List Bitmap → ℕ → ℕ → ℕ → ℕ → Option ℕ
find_free bitmaps order mapbit zero orderfree = none
find_free bitmaps order mapbit (suc left) orderfree =
    if level_bit bitmaps orderfree (mapbit >> (orderfree - order))
    then some orderfree
    else find_free bitmaps order mapbit left (orderfree + 1)

-- `bitmap->freeblocks = intswap32 (intswap32 (bitmap->freeblocks) + 1)`, and - 1.
abbrev pub more_free : Bitmap → Bitmap
more_free bitmap = record bitmap { freeblocks = u32 (bitmap.freeblocks + 1) }

abbrev pub less_free : ℕ → Bitmap → Bitmap
less_free n bitmap = record bitmap { freeblocks = sub32 bitmap.freeblocks n }

-- Set a bit of a level and count it.
unfoldable pub mark_free : ℕ → ℕ → List Bitmap → List Bitmap
mark_free order bit bitmaps = modify bitmaps order (λ b. more_free (bit_state_set b bit))

-- Clear a bit and its neighbour, and count both out.
unfoldable pub clear_pair : ℕ → ℕ → List Bitmap → List Bitmap
clear_pair order bit bitmaps =
    modify bitmaps order
      (λ b. less_free 2 (bit_state_clear (bit_state_clear b bit) (bit_xor bit 1)))

-- The loop that joins free neighbours; `left` is how many levels lie above `order`, so that
-- `order + 1 < numbitmaps` is that it is not zero.
unfoldable pub coalesce : ℕ → ℕ → ℕ → List Bitmap → List Bitmap
unfolding mark_free clear_pair
coalesce zero order mapbit bitmaps = bitmaps
coalesce (suc left) order mapbit bitmaps =
    let joined =
      coalesce left (order + 1) (mapbit / 2)
        (mark_free (order + 1) (mapbit / 2) (clear_pair order mapbit bitmaps)) in
    if level_bit bitmaps order (bit_xor mapbit 1) then joined else bitmaps

-- The loop that splits a larger free block, `left` levels above `order`, and what follows it: the
-- bit is cleared and counted out, and noted as the last one allocated.
unfoldable pub take_block : ℕ → ℕ → ℕ → List Bitmap → List Bitmap
unfolding mark_free
take_block zero order mapbit bitmaps =
    modify bitmaps order
      (λ b. record (less_free 1 (bit_state_clear b mapbit)) { last = u32 (mapbit + 1) })
take_block (suc left) order mapbit bitmaps =
    take_block left (order + 1) (mapbit / 2) (mark_free order (bit_xor mapbit 1) bitmaps)

-- The branch of mfs_zone_map_update that frees a block.
unfoldable pub free_block : Bool → ZoneMap → ℕ → ℕ → ℕ → ZoneMap
unfolding coalesce
free_block is_64 zone size order mapbit = record zone {
  map = record (zone.map) { free = cut is_64 (zone.map.free + size) };
  bitmaps = coalesce (zone.map.num - 1 - order) order mapbit (mark_free order mapbit zone.bitmaps);
  dirty = true;
}

-- The branch that allocates a block, out of the free one at level `orderfree`.
unfoldable pub alloc_block : Bool → ZoneMap → ℕ → ℕ → ℕ → ℕ → ZoneMap
unfolding take_block
alloc_block is_64 zone size order mapbit orderfree = record zone {
  map = record (zone.map) { free = cut is_64 (sub64 zone.map.free size) };
  bitmaps = take_block (orderfree - order) order mapbit zone.bitmaps;
  dirty = true;
}

pub data Outcome : Type 0 where
  -- the return value 1, with the zone as it is left
  updated : ZoneMap → Outcome
  -- the return value 0
  failed : MapError → Outcome

-- The bit of the level `order` that stands for the block at `sector`.
abbrev pub block_bit : ZoneMap → ℕ → ℕ → ℕ
block_bit zone sector order = u32 (sub64 sector zone.map.first / u64 (zone.map.min << order))

-- The last step of mfs_zone_map_update: free or allocate, if that changes anything.
unfoldable pub apply_state : Bool → ZoneMap → ℕ → Bool → ℕ → ℕ → Option ℕ → ZoneMap
unfolding free_block alloc_block
apply_state is_64 zone size true order mapbit (some orderfree) = zone
apply_state is_64 zone size true order mapbit none = free_block is_64 zone size order mapbit
apply_state is_64 zone size false order mapbit none = zone
apply_state is_64 zone size false order mapbit (some orderfree) =
    alloc_block is_64 zone size order mapbit orderfree

-- mfs_zone_map_update from the logstamp check on, at the zone that was found.
unfoldable pub update_zone : Bool → ZoneMap → ℕ → ℕ → Bool → ℕ → Outcome
unfolding find_order find_free apply_state
update_zone is_64 zone sector size state logstamp =
    let order = find_order zone.map.min size zone.map.num 0 in
    let mapbit = block_bit zone sector order in
    if leb logstamp zone.map.logstamp
    then updated zone
    else if leb zone.map.num order
    then failed (too_large sector size)
    else if not (u64 (zone.map.min << order) == size)
    then failed (not_multiple sector size)
    else updated (
        apply_state is_64 zone size state order mapbit
          (find_free zone.bitmaps order mapbit (zone.map.num - order) order))

-- mfs_zone_map_update: the return value, and the handle as it is left.
unfoldable pub zone_map_update : MfsHandle → ℕ → ℕ → Bool → ℕ → ℕ × MfsHandle
zone_map_update mfshnd sector size state logstamp = elim (zone_for_block mfshnd sector size) [
  | refused e ↦ (0, record mfshnd { err = some e })
  | found i zone ↦ elim (update_zone mfshnd.is_64 zone sector size state logstamp) [
    | failed e ↦ (0, record mfshnd { err = some e })
    | updated zone' ↦ (1, record mfshnd { loaded_zones = set mfshnd.loaded_zones i zone' })
  ]
]

-- The loop of mfs_zone_map_block_state, which shifts `minalloc` in 32 bits.
unfoldable pub find_order_32 : ℕ → ℕ → ℕ → ℕ → ℕ
find_order_32 minalloc size zero order = order
find_order_32 minalloc size (suc left) order =
    if leb size (u32 (minalloc << order))
    then order
    else find_order_32 minalloc size left (order + 1)

pub data BlockState : Type 0 where
  -- the return value 1 or 0
  state_is : Bool → BlockState
  -- the return value -1
  no_state : MapError → BlockState

-- mfs_zone_map_block_state from the bounds on, at the zone that was found.
unfoldable pub zone_block_state : ZoneMap → ℕ → ℕ → BlockState
unfolding find_order_32
zone_block_state zone sector size =
    let order = find_order_32 zone.map.min size zone.map.num 0 in
    if leb zone.map.num order
    then no_state (too_large sector size)
    else if not (u64 (zone.map.min << order) == size)
    then no_state (not_multiple sector size)
    else state_is
        (level_bit zone.bitmaps order (u32 ((sub64 sector zone.map.first >> order) / zone.map.min)))

-- mfs_zone_map_block_state
unfoldable pub zone_map_block_state : MfsHandle → ℕ → ℕ → BlockState × MfsHandle
zone_map_block_state mfshnd sector size = elim (zone_for_block mfshnd sector size) [
  | refused e ↦ (no_state e, record mfshnd { err = some e })
  | found i zone ↦ elim (zone_block_state zone sector size) [
    | no_state e ↦ (no_state e, record mfshnd { err = some e })
    | state_is b ↦ (state_is b, mfshnd)
  ]
]
