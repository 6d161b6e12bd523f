-- ===== src/Inode/Backup.antt =====
-- An inode that was written is read back, also when one of its two sectors is damaged.
use mfstools.Base.{
  ℕ, ◌≡◌, ◌≢◌, refl, ap, ◌∙◌, Bool, true, false, some, [], ◌∷◌, arith, length, add64,
}
use mfstools.Crc.{mfs_check_crc, mfs_update_crc}
use mfstools.Crc.RoundTrip.{check-update}
use mfstools.Zonemap.Inodes.{InodeZones, inode_to_sector}
use mfstools.Inode.{Sector, Drive, field, inode_word, checksum_word}
use mfstools.Inode.Sectors.{read_sector, read_checked, read_inode, write_inode}

module _ {S : Type 0} (drive : Drive S) where
  -- What is asked of a drive at a sector: two sectors written there in one call are written whole,
  -- and read back one by one.
  pub record KeepsPair (sector : ℕ) : Type 0 where
    pub writes : (s : S) (a b : Sector) → (drive.write s sector (a ∷ b ∷ [])).0 ≡ some 2
    pub first :
        (s : S) (a b : Sector)
        → drive.read (drive.write s sector (a ∷ b ∷ [])).1 sector 1 ≡ some (a ∷ [])
    pub second :
        (s : S) (a b : Sector)
        → drive.read (drive.write s sector (a ∷ b ∷ [])).1 (add64 sector 1) 1 ≡ some (b ∷ [])

  -- One of the two sectors holds the inode: the first, or the second behind a first that is read
  -- but whose checksum is wrong.
  pub data HoldsCopy (mfs_lsb arch_lsb : Bool) (s : S) (sector : ℕ) (copy : Sector) : Type 0 where
    intact : drive.read s sector 1 ≡ some (copy ∷ []) → HoldsCopy mfs_lsb arch_lsb s sector copy
    damaged :
        (bad : Sector)
        → drive.read s sector 1 ≡ some (bad ∷ [])
        → mfs_check_crc mfs_lsb arch_lsb bad checksum_word ≡ false
        → drive.read s (add64 sector 1) 1 ≡ some (copy ∷ [])
        → HoldsCopy mfs_lsb arch_lsb s sector copy

module _ {S : Type 0} (drive : Drive S) (mfs_lsb arch_lsb : Bool) (zones : InodeZones) where
  read_sector_lem :
      (s : S) (sector : ℕ) (buf : Sector)
      → drive.read s sector 1 ≡ some (buf ∷ [])
      → read_sector drive mfs_lsb arch_lsb zones s sector ≡ some buf
  unfolding read_sector
  read_sector_lem s sector buf e = rw (e, read_sector) refl

  read_inode_copy :
      (s : S) (inode : ℕ) (copy : Sector)
      → (inode_to_sector zones inode).0 ≢ 0
      → mfs_check_crc mfs_lsb arch_lsb copy checksum_word ≡ true
      → HoldsCopy drive mfs_lsb arch_lsb s (inode_to_sector zones inode).0 copy
      → read_inode drive mfs_lsb arch_lsb zones s inode ≡ some copy
  unfolding read_inode read_checked read_sector
  read_inode_copy s inode copy ne good (intact e) = ground (arith, good, e)
  read_inode_copy s inode copy ne good (damaged bad e wrong e') = ground (arith, good, e, e', wrong)

  -- mfs_write_inode at an inode that has a place, on a drive that keeps what is written there,
  -- succeeds, and mfs_read_inode of its number then gives the buffer with its checksum made right.
  -- It still does in any later state in which one of the two sectors is damaged, as long as the
  -- checksum shows a damaged first sector.
  pub read_inode-write_inode :
      (s : S) (inode : Sector)
      → length inode ≡ 512
      → (inode_to_sector zones (field mfs_lsb arch_lsb inode_word inode)).0 ≢ 0
      → KeepsPair drive (inode_to_sector zones (field mfs_lsb arch_lsb inode_word inode)).0
      → (later : S)
      → HoldsCopy drive mfs_lsb arch_lsb later
          (inode_to_sector zones (field mfs_lsb arch_lsb inode_word inode)).0
          (mfs_update_crc mfs_lsb arch_lsb inode checksum_word)
      → ((write_inode drive mfs_lsb arch_lsb zones s inode).0 ≡ true)
        × (read_inode drive mfs_lsb arch_lsb zones
              (write_inode drive mfs_lsb arch_lsb zones s inode).1
              (field mfs_lsb arch_lsb inode_word inode)
            ≡ some (mfs_update_crc mfs_lsb arch_lsb inode checksum_word))
        × (read_inode drive mfs_lsb arch_lsb zones later (field mfs_lsb arch_lsb inode_word inode)
            ≡ some (mfs_update_crc mfs_lsb arch_lsb inode checksum_word))
  unfolding write_inode
  read_inode-write_inode s inode whole ne keeps later holds = (
    written,
    read_inode_copy _ number copy ne good (intact stored),
    read_inode_copy later number copy ne good holds,
  )
    where
      number : ℕ
      number = field mfs_lsb arch_lsb inode_word inode

      copy : Sector
      copy = mfs_update_crc mfs_lsb arch_lsb inode checksum_word

      good : mfs_check_crc mfs_lsb arch_lsb copy checksum_word ≡ true
      good = check-update mfs_lsb arch_lsb inode checksum_word (omega (arith, whole)) (omega arith)

      written : (write_inode drive mfs_lsb arch_lsb zones s inode).0 ≡ true
      written = ground (arith, ne, keeps.writes s copy copy)

      state_eq :
          (write_inode drive mfs_lsb arch_lsb zones s inode).1
          ≡ (drive.write s (inode_to_sector zones number).0 (copy ∷ copy ∷ [])).1
      state_eq = ground (arith, ne)

      stored :
          drive.read
            (write_inode drive mfs_lsb arch_lsb zones s inode).1
            (inode_to_sector zones number).0
            1
          ≡ some (copy ∷ [])
      stored =
          ap (λ t. drive.read t (inode_to_sector zones number).0 1) state_eq
          ∙ keeps.first s copy copy
