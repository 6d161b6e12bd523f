-- ===== src/Volume/Reading.antt =====
-- mfsvol_read_data of lib/volume.c. Sectors that are held in memory are copied from there, and the
-- others are read from the partition, which may read fewer than it is asked for.
use mfstools.Base.{
  ℕ, zero, suc, ◌+◌, ◌*◌, ◌^◌, Option, none, some, List, [], ◌∷◌, ◌++◌, ltb, leb, if◌then◌else◌,
  take, drop, length, add64, sub64, u32,
}
use mfstools.Volume.Blocks.{Sector, MemBlock, block_end, locate_for_read}
use mfstools.Volume.{VolumeInfo, get_volume}

-- Why a read fails: EIO for a sector of no volume, for the end of the volume or for a read that gives
-- nothing; or a negative result of the partition, which is passed on.
pub data ReadError : Type 0 where
  in_no_volume past_volume nothing_read partition_error : ReadError

-- What mfsvol_read_data does: `unending` if its loop does not end within the fuel, `overflowed` if the
-- `int` of the bytes that are read leaves its range, which C does not define, or the sectors that it
-- reads.
pub data ReadOutcome : Type 0 where
  unending overflowed : ReadOutcome
  not_read : ReadError → ReadOutcome
  read_sectors : List Sector → ReadOutcome

-- What one round of the loop gets: so many sectors from a block, and the blocks from the next on; or
-- so many that are to be read from the partition.
pub data Piece : Type 0 where
  from_memory : ℕ → List Sector → List MemBlock → Piece
  from_partition : ℕ → Piece

-- `tocopy`: what the block has behind `pos`, up to the end of the read.
abbrev pub to_copy : MemBlock → ℕ → ℕ → ℕ
to_copy block pos limit =
    let behind = sub64 block.sectors (sub64 pos block.start) in
    if ltb limit (block_end block) then sub64 behind (sub64 (block_end block) limit) else behind

-- The next block, if it starts within the read.
abbrev pub still_within : List MemBlock → ℕ → List MemBlock
still_within [] limit = []
still_within (block ∷ blocks) limit = if leb limit block.start then [] else block ∷ blocks

unfoldable pub next_piece : List MemBlock → ℕ → ℕ → Piece
next_piece [] pos limit = from_partition (sub64 limit pos)
next_piece (block ∷ blocks) pos limit =
    if leb block.start pos
    then from_memory (to_copy block pos limit)
        (take (to_copy block pos limit) (drop (sub64 pos block.start) block.body))
        (still_within blocks limit)
    else from_partition (sub64 block.start pos)

-- `tivo_partition_read`, of a file: from a sector on, so many sectors.
abbrev pub PartitionRead : Type 0 → Type 0
PartitionRead File = File → ℕ → ℕ → Option (List Sector)

module _ {File : Type 0} (partition_read : PartitionRead File) where
  -- The loop: `pos` is `sector + nread / 512`, `limit` is `sector + count`, and `so_far` is what the
  -- buffer holds. `nread` is an `int` and `count * 512` has 32 bits.
  unfoldable pub read_loop : File → ℕ → ℕ → ℕ → List MemBlock → ℕ → ℕ → List Sector → ReadOutcome
  unfolding next_piece
  read_loop file sector count zero blocks pos limit so_far = unending
  read_loop file sector count (suc fuel) blocks pos limit so_far =
      let nread = 512 * sub64 pos sector in
      let round : ReadOutcome = elim (next_piece blocks pos limit) [
        | from_memory n new rest ↦
            read_loop file sector count fuel rest (add64 pos n) limit (so_far ++ new)
        | from_partition n ↦ elim (partition_read file pos n) [
          | none ↦ not_read partition_error
          | some [] ↦ not_read nothing_read
          | some (first ∷ more) ↦
              read_loop file sector count fuel blocks (add64 pos (suc (length more))) limit
                (so_far ++ first ∷ more)
        ]
      ] in
      if leb (2 ^ 31) nread
      then overflowed
      else if leb (u32 (count * 512)) nread
      then read_sectors so_far
      else round

  -- mfsvol_read_data behind the search for the volume.
  unfoldable pub read_volume : VolumeInfo File → ℕ → ℕ → ReadOutcome
  unfolding read_loop
  read_volume vol sector count =
      let offset = sub64 sector vol.start in
      let limit = add64 offset count in
      let blocks = locate_for_read vol.mem_blocks offset count in
      if ltb vol.sectors limit
      then not_read past_volume
      else read_loop vol.file offset count (suc (count + length blocks)) blocks offset limit []

  -- mfsvol_read_data
  unfoldable pub read_data : List (VolumeInfo File) → ℕ → ℕ → ReadOutcome
  unfolding read_volume
  read_data volumes sector count = elim (get_volume volumes sector) [
    | none ↦ not_read in_no_volume
    | some vol ↦ read_volume vol sector count
  ]
