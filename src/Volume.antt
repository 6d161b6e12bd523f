-- ===== src/Volume.antt =====
-- The volume set of lib/volume.c and include/volume.h: opened partitions that stand one behind the
-- other in one numbering of sectors, and blocks of sectors that are written to memory only.
-- Devices and files are a parameter: `tivo_partition_open` and the calls on what it opens.
pub mod Blocks
pub mod Held
pub mod Written
pub mod MemWrite
pub mod Writing
pub mod Reading
pub mod Overlay
pub mod Bodies
pub mod Taking
pub mod Overwriting
pub mod ReadLoop
pub mod ReadBack
pub mod Modes
pub mod RoundTrip
pub mod Layout
pub mod Adding
use mfstools.Base.{
  ℕ, zero, suc, ◌+◌, ◌-◌, ◌%◌, ◌^◌, Bool, true, false, not, Option, none, some, List, [], ◌∷◌, ◌++◌,
  ltb, leb, ◌==◌, ◌&&◌, ◌||◌, if◌then◌else◌, bit_and, bit_or, add64, take, drop,
}
use Blocks.{MemBlock}

-- `struct volume_info`; `file` is what `tivo_partition_open` gave.
pub record VolumeInfo (File : Type 0) : Type 0 where
  pub file : File
  -- `vol_flags & VOL_RDONLY`
  pub read_only : Bool
  pub start : ℕ
  pub sectors : ℕ
  pub mem_blocks : List MemBlock

-- `struct volume_handle`, less the names of the devices and the error message. The write mode is
-- the sum of vwFake (1) and vwLocal (2).
pub record VolumeHandle (File : Type 0) : Type 0 where
  pub volumes : List (VolumeInfo File)
  pub write_mode : ℕ

abbrev pub vw_normal : ℕ
vw_normal = 0

abbrev pub vw_fake : ℕ
vw_fake = 1

-- `sectors & ~(MFS_PARTITION_ROUND - 1)`
abbrev pub round_down : ℕ → ℕ
round_down sectors = bit_and sectors (2 ^ 64 - 1 - (1024 - 1))

-- `!strncmp (path, "RO:", 3)`
unfoldable pub asks_read_only : List ℕ → Bool
asks_read_only path = starts (take 3 path)
  where
    starts : List ℕ → Bool
    starts (a ∷ b ∷ c ∷ []) = a == 82 && b == 79 && c == 58
    starts _ = false

-- What mfsvol_add_volume leaves: the handle with the new volume and the start that it returns, or
-- the return value -1 with the volumes as they were.
pub data Added (File : Type 0) : Type 0 where
  added : VolumeHandle File → ℕ → Added File
  not_added : Added File

module _ {File : Type 0} where
  -- The test of mfsvol_get_volume.
  abbrev pub holds : ℕ → VolumeInfo File → Bool
  holds sector vol = leb vol.start sector && ltb sector (add64 vol.start vol.sectors)

  -- mfsvol_get_volume
  unfoldable pub get_volume : List (VolumeInfo File) → ℕ → Option (VolumeInfo File)
  get_volume [] sector = none
  get_volume (vol ∷ volumes) sector =
      if holds sector vol then some vol else get_volume volumes sector

  -- mfsvol_volume_size
  unfoldable pub volume_size : List (VolumeInfo File) → ℕ → ℕ
  volume_size [] sector = 0
  volume_size (vol ∷ volumes) sector =
      if vol.start == sector then vol.sectors else volume_size volumes sector

  -- mfsvol_volume_set_size
  unfoldable pub volume_set_size : List (VolumeInfo File) → ℕ → ℕ
  volume_set_size [] total = total
  volume_set_size (vol ∷ volumes) total = volume_set_size volumes (add64 total vol.sectors)

  -- mfsvol_is_writable
  unfoldable pub is_writable : VolumeHandle File → ℕ → Bool
  is_writable hnd sector = elim (get_volume hnd.volumes sector) [
    | none ↦ false
    | some vol ↦ if vol.read_only then not (hnd.write_mode == vw_normal) else true
  ]

  -- The loop of mfsvol_add_volume: where the volume behind the last one starts.
  unfoldable pub next_start : List (VolumeInfo File) → ℕ → ℕ
  next_start [] start = start
  next_start (vol ∷ volumes) start = next_start volumes (add64 vol.start vol.sectors)

  -- mfsvol_add_volume behind `tivo_partition_open`. `size_of` is `tivo_partition_size`.
  unfoldable pub append_volume : (File → ℕ) → VolumeHandle File → File → Bool → Added File
  unfolding next_start
  append_volume size_of hnd file read_only =
      let sectors = round_down (size_of file) in
      let start = next_start hnd.volumes 0 in
      let newvol : VolumeInfo File = record {
        file = file;
        read_only = read_only;
        start = start;
        sectors = sectors;
        mem_blocks = [];
      } in
      if sectors == 0
      then not_added
      else added (record hnd { volumes = hnd.volumes ++ newvol ∷ [] }) start

  -- mfsvol_add_volume, from the path that mfsvol_device_translate returns on; `open_file` is
  -- `tivo_partition_open` at the path and whether the access mode is O_RDONLY. In a write mode that
  -- is not normal three characters are dropped, be they `RO:` or not.
  unfoldable pub add_volume :
      (List ℕ → Bool → Option File)
      → (File → ℕ)
      → VolumeHandle File
      → Option (List ℕ)
      → Bool
      → Added File
  unfolding append_volume
  add_volume open_file size_of hnd none read_only = not_added
  add_volume open_file size_of hnd (some path) read_only =
      let forced = not (hnd.write_mode == vw_normal) || asks_read_only path in
      elim (open_file (if forced then drop 3 path else path) (forced || read_only)) [
        | none ↦ not_added
        | some file ↦ append_volume size_of hnd file (forced || read_only)
      ]
