-- ===== src/Inode/Runs.antt =====
-- The data of an inode: mfs_read_inode_data_part, mfs_write_inode_data_part and mfs_read_inode_data.
-- The data stands in the inode itself, or in runs of sectors that the inode lists.
pub mod Slices
pub mod Reading
pub mod Stored
pub mod Writing
pub mod RoundTrip
use mfstools.Base.{
  ℕ, zero, suc, ◌+◌, ◌-◌, ◌*◌, ◌/◌, ◌^◌, Bool, true, false, not, ◌&&◌, ◌||◌, Option, none, some,
  List, [], ◌∷◌, ◌++◌, ltb, leb, ◌==◌, if◌then◌else◌, take, drop, replicate, get_or, length, add64,
  u32,
}
use mfstools.Util.{intswap32, sectorswap64}
use mfstools.Crc.{word_at, store}
use mfstools.Zonemap.Inodes.{InodeZones}
use mfstools.Inode.{
  Sector, Drive, field, has_flag, size_word, numblocks_word, type_byte, data_start, inode_data,
  inode_data2,
}
use mfstools.Inode.Sectors.{write_inode}

-- An element of `datablocks`
pub record Run : Type 0 where
  pub sector : ℕ
  pub count : ℕ

-- A 64-bit word in memory, that begins at a 32-bit one.
abbrev pub dword_at : Bool → Sector → ℕ → ℕ
dword_at arch_lsb buf word =
    let a = word_at arch_lsb buf word in
    let b = word_at arch_lsb buf (word + 1) in if arch_lsb then a + 2 ^ 32 * b else b + 2 ^ 32 * a

-- The result of a read of data: a negative result, or the sectors that were read.
pub data Part : Type 0 where
  failed : Part
  got : List Sector → Part

module _ (mfs_lsb arch_lsb is_64 : Bool) where
  -- `datablocks.d64[loop]` or `datablocks.d32[loop]`, which start at word 15
  unfoldable pub run_at : Sector → ℕ → Run
  run_at inode i =
      if is_64
      then record {
        sector = sectorswap64 mfs_lsb arch_lsb (dword_at arch_lsb inode (15 + 3 * i));
        count = field mfs_lsb arch_lsb (17 + 3 * i) inode;
      }
      else record {
        sector = field mfs_lsb arch_lsb (15 + 2 * i) inode;
        count = field mfs_lsb arch_lsb (16 + 2 * i) inode;
      }

  -- The runs from the place `i` on, `n` of them.
  unfoldable pub runs_from : Sector → ℕ → ℕ → List Run
  unfolding run_at
  runs_from inode zero i = []
  runs_from inode (suc n) i = run_at inode i ∷ runs_from inode n (i + 1)

  abbrev pub in_inode : Sector → Bool
  in_inode inode =
      has_flag mfs_lsb arch_lsb inode_data inode || has_flag mfs_lsb arch_lsb inode_data2 inode

-- The test that passes a run by, and what is left of one that is not: `start` sectors are skipped,
-- and no more than `count` are wanted.
abbrev pub is_skipped : Run → ℕ → Bool
is_skipped run start = not (start == 0) && leb run.count start

abbrev pub wanted : Run → ℕ → ℕ → ℕ
wanted run start count = if ltb count (run.count - start) then count else run.count - start

module _ {S : Type 0} (drive : Drive S) where
  -- The loop of mfs_read_inode_data_part, with what was read so far.
  unfoldable pub read_runs : S → List Run → ℕ → ℕ → List Sector → Part
  read_runs s [] start count acc = got acc
  read_runs s (run ∷ runs) start count acc =
      let skip = read_runs s runs (start - run.count) count acc in
      let size = wanted run start count in
      let step : Part = elim (drive.read s (add64 run.sector start) size) [
        | none ↦ failed
        | some new ↦
            let rest = read_runs s runs 0 (count - size) (acc ++ new) in
            if not (length new == size) || count - size == 0 then got (acc ++ new) else rest
      ] in
      if count == 0 then got acc else if is_skipped run start then skip else step

  -- The loop of mfs_write_inode_data_part: `new` is the data that is left, and `total` counts the
  -- sectors written.
  unfoldable pub write_runs : S → List Run → ℕ → List Sector → ℕ → Option ℕ × S
  write_runs s [] start new total = (some total, s)
  write_runs s (run ∷ runs) start new total =
      let skip = write_runs s runs (start - run.count) new total in
      let size = wanted run start (length new) in
      let (result, s') = drive.write s (add64 run.sector start) (take size new) in
      let step : Option ℕ × S = elim result [
        | none ↦ (none, s')
        | some written ↦
            let rest = write_runs s' runs 0 (drop written new) (total + written) in
            if not (written == size) || length new - size == 0
            then (some (total + written), s')
            else rest
      ] in
      if length new == 0 then (some total, s) else if is_skipped run start then skip else step

module _ {S : Type 0} (drive : Drive S) (mfs_lsb arch_lsb is_64 : Bool) where
  -- mfs_read_inode_data_part. A size too large for the inode is taken for 512 - 0xc3 bytes.
  unfoldable pub read_data_part : S → Sector → ℕ → ℕ → Part
  unfolding read_runs runs_from
  read_data_part s inode start count =
      let stored = field mfs_lsb arch_lsb size_word inode in
      let size = if ltb (512 - 0x3c) stored then 512 - 0xc3 else stored in
      let blocks = field mfs_lsb arch_lsb numblocks_word inode in
      if count == 0
      then got []
      else if in_inode mfs_lsb arch_lsb is_64 inode
      then (if start == 0
          then got ((take size (drop data_start inode) ++ replicate (512 - size) 0) ∷ [])
          else got [])
      else read_runs drive s (runs_from mfs_lsb arch_lsb is_64 inode blocks 0) start count []

  -- mfs_write_inode_data_part, of as many sectors as `new` has: how many were written or `none` for a
  -- negative result, the inode, and the drive.
  unfoldable pub write_data_part : InodeZones → S → Sector → List Sector → ℕ → Option ℕ × Sector × S
  unfolding write_runs runs_from
  write_data_part zones s inode [] start = (some 0, inode, s)
  write_data_part zones s inode (first ∷ more) start =
      let inode' = store inode data_start (take (512 - 0x3c) first) in
      let (good, s') = write_inode drive mfs_lsb arch_lsb zones s inode' in
      let blocks = field mfs_lsb arch_lsb numblocks_word inode in
      let (result, s'') =
        write_runs drive s (runs_from mfs_lsb arch_lsb is_64 inode blocks 0) start (first ∷ more)
          0 in
      if in_inode mfs_lsb arch_lsb is_64 inode
      then (if start == 0
          then (if good then (some 1, inode', s') else (none, inode', s'))
          else (some 0, inode, s))
      else (result, inode, s'')

-- What mfs_read_inode_data returns: a null pointer with the size set to 0 or to the negative result,
-- or the size in bytes and the sectors that were read.
pub data DataRead : Type 0 where
  no_data data_failed : DataRead
  data_of : ℕ → List Sector → DataRead

module _ {S : Type 0} (drive : Drive S) (mfs_lsb arch_lsb is_64 : Bool) where
  -- mfs_read_inode_data, for a size below 2 ^ 31 - 511, which stays one in an `int`. Streams, type 2,
  -- are not read.
  unfoldable pub read_inode_data : S → Sector → DataRead
  unfolding read_data_part
  read_inode_data s inode =
      let size = field mfs_lsb arch_lsb size_word inode in
      if get_or inode type_byte 0 == 2 || size == 0
      then no_data
      else elim (read_data_part drive mfs_lsb arch_lsb is_64 s inode 0 ((size + 511) / 512)) [
        | failed ↦ data_failed
        | got sectors ↦ data_of size sectors
      ]
