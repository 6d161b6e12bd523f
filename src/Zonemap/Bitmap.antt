-- ===== src/Zonemap/Bitmap.antt =====
-- One allocation bitmap of a zone map: `bitmap_header` with the words that follow it
-- (include/zonemap.h), and the functions of lib/zonemap.c that read, set and clear a bit.
-- A word is held as the number that `intswap32` makes of it; bit 0 is its highest digit.
pub mod Laws
use mfstools.Base.{
  ℕ, ◌+◌, ◌-◌, ◌*◌, ◌/◌, ◌%◌, ◌^◌, Bool, true, false, not, List, [], bit_and, bit_or, ◌==◌, ◌<<◌,
  u32, get_or, set,
}

pub record Bitmap : Type 0 where
  pub nbits : ℕ
  pub freeblocks : ℕ
  pub last : ℕ
  pub nints : ℕ
  -- the `nints` words behind the header
  pub words : List ℕ

-- What an index outside the array of bitmaps would read; `Zone.WellFormed` keeps indices inside.
abbrev pub no_bitmap : Bitmap
no_bitmap = record { nbits = 0; freeblocks = 0; last = 0; nints = 0; words = [] }

-- `1 << (31 & ~bit)`, the mask of a bit within its word.
unfoldable pub bit_mask : ℕ → ℕ
bit_mask bit = u32 (1 << bit_and 31 (2 ^ 32 - 1 - bit))

-- mfs_zone_map_bit_state_get
unfoldable pub bit_state_get : Bitmap → ℕ → Bool
bit_state_get bitmap bit = not (bit_and (bit_mask bit) (get_or bitmap.words (bit / 32) 0) == 0)

-- mfs_zone_map_bit_state_set
unfoldable pub bit_state_set : Bitmap → ℕ → Bitmap
bit_state_set bitmap bit = record bitmap {
  words = set bitmap.words (bit / 32) (bit_or (get_or bitmap.words (bit / 32) 0) (bit_mask bit));
}

-- mfs_zone_map_bit_state_clear
unfoldable pub bit_state_clear : Bitmap → ℕ → Bitmap
bit_state_clear bitmap bit = record bitmap {
  words =
      set bitmap.words (bit / 32)
        (bit_and (get_or bitmap.words (bit / 32) 0) (2 ^ 32 - 1 - bit_mask bit));
}
