-- ===== src/Volume/Modes.antt =====
-- mfsvol_enable_memwrite and mfsvol_discard_memwrite of lib/volume.c: writes kept in memory, and their
-- end.
use mfstools.Base.{ℕ, ◌-◌, ◌^◌, Option, none, some, List, [], ◌∷◌, bit_and, bit_or}
use mfstools.Volume.{VolumeInfo, VolumeHandle}

abbrev pub vw_local : ℕ
vw_local = 2

module _ {File : Type 0} where
  unfoldable pub enable_memwrite : VolumeHandle File → VolumeHandle File
  enable_memwrite hnd = record hnd { write_mode = bit_or hnd.write_mode vw_local }

  -- The loop over the volumes. The loop over the blocks of a volume goes on to a `next` that was never
  -- set, which C does not define: `none` when a volume has a block.
  unfoldable pub without_blocks : List (VolumeInfo File) → Option (List (VolumeInfo File))
  without_blocks [] = some []
  without_blocks (vol ∷ volumes) =
      let rest = without_blocks volumes in
      elim vol.mem_blocks [
        | [] ↦ elim rest [ none ↦ none | some volumes' ↦ some (vol ∷ volumes') ]
        | block ∷ blocks ↦ none
      ]

  -- The mode is an `int`, of which two bits are in use.
  unfoldable pub discard_memwrite : VolumeHandle File → Option (VolumeHandle File)
  unfolding without_blocks
  discard_memwrite hnd = elim (without_blocks hnd.volumes) [
    | none ↦ none
    | some volumes ↦
        some (record {
          volumes = volumes;
          write_mode = bit_and hnd.write_mode (2 ^ 32 - 1 - vw_local);
        })
  ]
