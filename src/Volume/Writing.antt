-- ===== src/Volume/Writing.antt =====
-- mfsvol_write_data of lib/volume.c, up to the call of `tivo_partition_write`, which is an outcome
-- here: the result of the call is then the result of the function.
use mfstools.Base.{
  ℕ, ◌*◌, ◌/◌, ◌%◌, some, none, List, [], ◌∷◌, ltb, ◌==◌, if◌then◌else◌, length, add64, sub64, u32,
}
use mfstools.Volume.Blocks.{Sector, mem_write}
use mfstools.Volume.{VolumeInfo, VolumeHandle, holds, get_volume, vw_fake}

-- Why a write fails: EIO or EPERM in `errno`.
pub data WriteError : Type 0 where
  no_volume : WriteError
  read_only_volume : WriteError
  crosses_volume : WriteError

pub data WriteOutcome (File : Type 0) : Type 0 where
  -- the return value -1
  refused : WriteError → WriteOutcome File
  -- a hex dump is printed, and the number is returned
  dumped : ℕ → WriteOutcome File
  -- written to memory: the volumes after it, and the number that is returned
  in_memory : List (VolumeInfo File) → ℕ → WriteOutcome File
  -- `tivo_partition_write` is called with the file, the sector and the sectors
  to_partition : File → ℕ → List Sector → WriteOutcome File

module _ {File : Type 0} (junk : Sector) where
  -- The volume that mfsvol_get_volume finds takes the write in its memory blocks.
  unfoldable pub write_blocks : List (VolumeInfo File) → ℕ → List Sector → List (VolumeInfo File)
  write_blocks [] sector buf = []
  write_blocks (vol ∷ volumes) sector buf =
      let later = write_blocks volumes sector buf in
      if holds sector vol
      then record vol { mem_blocks = mem_write junk vol.mem_blocks (sub64 sector vol.start) buf }
        ∷ volumes
      else vol ∷ later

  -- The part of mfsvol_write_data behind the search; `sector` is still that of the volume set.
  unfoldable pub write_volume :
      VolumeHandle File → VolumeInfo File → ℕ → List Sector → WriteOutcome File
  unfolding write_blocks
  write_volume hnd vol sector buf =
      let offset = sub64 sector vol.start in
      if hnd.write_mode == vw_fake
      then dumped (u32 (length buf * 512))
      else if hnd.write_mode / 2 % 2 == 1
      then in_memory (write_blocks hnd.volumes sector buf) (u32 (length buf * 512))
      else if vol.read_only
      then refused read_only_volume
      else if ltb vol.sectors (add64 offset (length buf))
      then refused crosses_volume
      else to_partition vol.file offset buf

  -- mfsvol_write_data
  unfoldable pub write_data : VolumeHandle File → ℕ → List Sector → WriteOutcome File
  unfolding write_volume
  write_data hnd sector buf = elim (get_volume hnd.volumes sector) [
    | none ↦ refused no_volume
    | some vol ↦ write_volume hnd vol sector buf
  ]
