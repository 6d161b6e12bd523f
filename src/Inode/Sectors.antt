-- ===== src/Inode/Sectors.antt =====
-- Reading and writing the sector of an inode and its backup: mfs_read_inode_to_buf, mfs_read_inode
-- and mfs_write_inode.
use mfstools.Base.{ℕ, Bool, false, Option, none, some, [], ◌∷◌, ◌==◌, if◌then◌else◌, add64}
use mfstools.Crc.{mfs_check_crc, mfs_update_crc}
use mfstools.Zonemap.Inodes.{InodeZones, inode_to_sector}
use mfstools.Inode.{Sector, Drive, field, inode_word, checksum_word}

module _ {S : Type 0} (drive : Drive S) (mfs_lsb arch_lsb : Bool) (zones : InodeZones) where
  -- One sector, if the call returns 512.
  unfoldable pub read_sector : S → ℕ → Option Sector
  read_sector s sector = elim (drive.read s sector 1) [ some (buf ∷ []) ↦ some buf | _ ↦ none ]

  -- The sector at the number, if its checksum is right.
  unfoldable pub read_checked : S → ℕ → Option Sector
  unfolding read_sector
  read_checked s sector = elim (read_sector s sector) [
    | none ↦ none
    | some buf ↦ if mfs_check_crc mfs_lsb arch_lsb buf checksum_word then some buf else none
  ]

  -- mfs_read_inode_to_buf, and mfs_read_inode: the buffer, or `none` for a result of -1. The backup
  -- on the next sector is tried only if the first sector was read and its checksum is wrong.
  unfoldable pub read_inode : S → ℕ → Option Sector
  unfolding read_sector read_checked
  read_inode s inode =
      let sector = (inode_to_sector zones inode).0 in
      if sector == 0 then none else elim (read_sector s sector) [
        | none ↦ none
        | some buf ↦
            if mfs_check_crc mfs_lsb arch_lsb buf checksum_word
            then some buf
            else read_checked s (add64 sector 1)
      ]

  -- mfs_write_inode: whether it returns 0, and the drive afterwards.
  unfoldable pub write_inode : S → Sector → Bool × S
  write_inode s inode =
      let sector = (inode_to_sector zones (field mfs_lsb arch_lsb inode_word inode)).0 in
      let buf = mfs_update_crc mfs_lsb arch_lsb inode checksum_word in
      if sector == 0
      then (false, s)
      else let (result, s') = drive.write s sector (buf ∷ buf ∷ []) in
        (elim result [ none ↦ false | some n ↦ n == 2 ], s')
