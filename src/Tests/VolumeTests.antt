-- ===== src/Tests/VolumeTests.antt =====
-- A set of volumes: one that holds sectors 0 to 4095, and a file of 3000 sectors opened behind it.
use mfstools.Base.{
  ℕ, ◌+◌, ◌*◌, min, ◌<◌, ◌^◌, ◌≡◌, refl, none, Bool, true, false, Option, some, List, [], ◌∷◌, ◌++◌,
  arith, replicate, sub64,
}
use mfstools.Volume.{
  VolumeInfo, VolumeHandle, Added, added, get_volume, volume_set_size, asks_read_only, next_start,
  append_volume, add_volume,
}
use mfstools.Volume.Blocks.{
  Sector, MemBlock, locate_for_read, absorb, last_sector, grown, fresh, finish, copy_into, zero_out,
  zero_sector, write_here, mem_write,
}
use mfstools.Volume.Held.{Apart}
use mfstools.Volume.Writing.{in_memory, write_data}
use mfstools.Volume.Written.{Written}
use mfstools.Spans.{sectors_from}
use mfstools.Volume.Reading.{
  PartitionRead, next_piece, read_loop, read_volume, read_data, read_sectors,
}
use mfstools.Volume.Overlay.{Full, overlay, Reads}
use mfstools.Volume.ReadBack.{read_data-overlay}
use mfstools.Volume.Taking.{Overwritten}
use mfstools.Volume.RoundTrip.{read_data-write_data}
use mfstools.Volume.Modes.{without_blocks, discard_memwrite}
use mfstools.Volume.Layout.{Tiled}
use mfstools.Volume.Adding.{Placed, add_volume-Placed}

abbrev first_volume : VolumeInfo ℕ
first_volume = record { file = 4096; read_only = false; start = 0; sectors = 4096; mem_blocks = [] }

abbrev handle : VolumeHandle ℕ
handle = record { volumes = first_volume ∷ []; write_mode = 0 }

-- `RO:/a`
abbrev path : List ℕ
path = 82 ∷ 79 ∷ 58 ∷ 47 ∷ 97 ∷ []

abbrev open_any : List ℕ → Bool → Option ℕ
open_any name read_only = some 3000

abbrev size_any : ℕ → ℕ
size_any file = 3000

handle-Tiled : Tiled 0 handle.volumes
unfolding Tiled
handle-Tiled = (refl, omega arith, omega arith)

handle-room : (file : ℕ) → volume_set_size handle.volumes 0 + size_any file < 2 ^ 64
unfolding volume_set_size
handle-room file = omega arith

add_volume-Placed_example :
    Placed handle true 5000 (add_volume open_any size_any handle (some path) false)
unfolding asks_read_only
add_volume-Placed_example =
    add_volume-Placed open_any size_any handle path false 5000 handle-Tiled handle-room

abbrev start_of : Added ℕ → ℕ
start_of (added hnd start) = start
start_of _ = 0

-- The size is cut to 2048 sectors, which stand behind the first volume, read-only.
added_start : start_of (add_volume open_any size_any handle (some path) false) ≡ 4096
unfolding add_volume append_volume next_start asks_read_only
added_start = refl

-- Three sectors of memory at 10 and two at 20; ten sectors written at 12 join both.
abbrev sector_of : ℕ → Sector
sector_of n = n ∷ []

abbrev two_blocks : List MemBlock
two_blocks =
    record { start = 10; sectors = 3; body = replicate 3 (sector_of 1) }
    ∷ record { start = 20; sectors = 2; body = replicate 2 (sector_of 2) }
    ∷ []

abbrev ten : List Sector
ten = replicate 10 (sector_of 3)

two_blocks-Apart : Apart 0 two_blocks
unfolding Apart
two_blocks-Apart = (omega arith, omega arith, (omega arith, omega arith, omega arith))

joined :
    mem_write (sector_of 9) two_blocks 12 (replicate 9 (sector_of 3))
    ≡ record {
      start = 10;
      sectors = 12;
      body = replicate 2 (sector_of 1) ++ replicate 9 (sector_of 3) ++ replicate 1 (sector_of 2);
    }
      ∷ []
unfolding mem_write write_here absorb last_sector grown fresh finish copy_into zero_out zero_sector
joined = refl

abbrev local_volume : VolumeInfo ℕ
local_volume = record {
  file = 1;
  read_only = true;
  start = 1024;
  sectors = 1024;
  mem_blocks = two_blocks;
}

abbrev local_handle : VolumeHandle ℕ
local_handle = record { volumes = local_volume ∷ []; write_mode = 2 }

-- A partition that reads no more than two sectors in a call.
abbrev numbered : ℕ → Sector
numbered k = k ∷ []

abbrev two_at_most : PartitionRead ℕ
two_at_most file pos n = some (sectors_from numbered pos (min 2 n))

two_at_most-Reads : Reads two_at_most 1 1024 numbered
two_at_most-Reads = record {
  amount = λ pos n. min 2 n;
  some_read = λ pos n h. (omega arith, omega arith);
  gives = λ pos n h h'. refl;
}

two_blocks-Full : Full two_blocks
unfolding Full
two_blocks-Full = (refl, (refl, tt))

read_data-overlay_example :
    read_data two_at_most (local_volume ∷ []) 1032 15
    ≡ read_sectors (sectors_from (overlay two_blocks numbered) (sub64 1032 1024) 15)
unfolding get_volume
read_data-overlay_example =
    read_data-overlay two_at_most numbered (local_volume ∷ []) local_volume 1032 15
      two_at_most-Reads refl two_blocks-Apart two_blocks-Full (omega arith) (omega arith)
      (omega arith)

-- Sectors 8 and 9 from the partition, three from memory, and on.
mixed :
    read_data two_at_most (local_volume ∷ []) 1032 6
    ≡ read_sectors ((8 ∷ []) ∷ (9 ∷ []) ∷ (1 ∷ []) ∷ (1 ∷ []) ∷ (1 ∷ []) ∷ (13 ∷ []) ∷ [])
unfolding read_data read_volume read_loop next_piece get_volume locate_for_read
mixed = refl

-- The blocks of a volume are not given back: what the loop does is not defined.
discard_undefined : discard_memwrite local_handle ≡ none
unfolding discard_memwrite without_blocks
discard_undefined = refl

-- Ten sectors over a part of the second block and what is behind it.
read_data-write_data_example :
    (volumes : List (VolumeInfo ℕ)) × (vol' : VolumeInfo ℕ) × (write_data
        (sector_of 9)
        local_handle
        1036
        ten
      ≡ in_memory volumes (10 * 512))
    × (read_data two_at_most volumes 1036 10 ≡ read_sectors ten)
    × (get_volume volumes 1036 ≡ some vol')
    × Apart 0 vol'.mem_blocks
    × Overwritten numbered two_blocks (sub64 1036 1024) ten vol'.mem_blocks
unfolding get_volume
read_data-write_data_example =
    read_data-write_data (sector_of 9) two_at_most numbered local_handle local_volume 1036 ten
      two_at_most-Reads refl refl two_blocks-Apart two_blocks-Full (omega arith) (omega arith)
      (omega arith) (omega arith)
