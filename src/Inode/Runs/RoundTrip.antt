-- ===== src/Inode/Runs/RoundTrip.antt =====
-- Data that was written to an inode's runs is read back.
use mfstools.Base.{
  ℕ, suc, ◌+◌, ◌^◌, ◌≤◌, ◌<◌, ◌≡◌, refl, ap, ◌∙◌, Bool, false, some, List, [], ◌∷◌, arith, length,
}
use mfstools.Zonemap.Inodes.{InodeZones}
use mfstools.Inode.{Sector, Drive, field, numblocks_word}
use mfstools.Inode.Runs.{Run, got, write_runs, runs_from, in_inode, read_data_part, write_data_part}
use mfstools.Inode.Runs.Reading.{Within, Serves, read_data_part-contents}
use mfstools.Inode.Runs.Stored.{Stores, Separate, Outside, total_count}
use mfstools.Inode.Runs.Writing.{Done, write_runs-Done}

module _ {S : Type 0} (drive : Drive S) (size : ℕ) (content : S → ℕ → Sector)
    (small : size < 2 ^ 64) (stores : Stores drive size content)
    (serves : (s : S) → Serves drive s size (content s)) where
  -- On a device that keeps what is written, for an inode whose data stands in runs that lie within
  -- the device and share no sector: writing no more than the runs have room for behind `start`
  -- returns the number of sectors written, leaves the inode as it is, changes no sector outside
  -- the runs, and a read of the same part then gives what was written.
  pub read_data_part-write_data_part :
      (mfs_lsb arch_lsb is_64 : Bool) (zones : InodeZones) (s : S) (inode : Sector)
      (new : List Sector) (start k : ℕ)
      → in_inode mfs_lsb arch_lsb is_64 inode ≡ false
      → Within size
          (runs_from mfs_lsb arch_lsb is_64 inode (field mfs_lsb arch_lsb numblocks_word inode) 0)
      → Separate
          (runs_from mfs_lsb arch_lsb is_64 inode (field mfs_lsb arch_lsb numblocks_word inode) 0)
      → start + length new
        ≤ total_count
            (runs_from mfs_lsb arch_lsb is_64 inode (field mfs_lsb arch_lsb numblocks_word inode) 0)
      → Outside k
          (runs_from mfs_lsb arch_lsb is_64 inode (field mfs_lsb arch_lsb numblocks_word inode) 0)
      → let (result, inode', s') =
          write_data_part drive mfs_lsb arch_lsb is_64 zones s inode new start in
        (result ≡ some (length new))
        × (inode' ≡ inode)
        × (content s' k ≡ content s k)
        × (read_data_part drive mfs_lsb arch_lsb is_64 s' inode start (length new) ≡ got new)
  unfolding write_data_part
  read_data_part-write_data_part mfs_lsb arch_lsb is_64 zones s inode [] start k in_runs w sep fits
        out =
      (
        refl,
        refl,
        refl,
        read_data_part-contents drive s size (content s) small (serves s) mfs_lsb arch_lsb is_64
            inode start 0 in_runs w,
      )
  read_data_part-write_data_part mfs_lsb arch_lsb is_64 zones s inode (first ∷ more) start k in_runs
        w sep fits out =
      rw (in_runs) (
        done.counted ∙ ap some (omega arith),
        refl,
        done.others k out,
        read_data_part-contents drive _ size (content _) small (serves _) mfs_lsb arch_lsb is_64
              inode start (suc (length more)) in_runs w
            ∙ ap got done.slice,
      )
    where
      runs : List Run
      runs = runs_from mfs_lsb arch_lsb is_64 inode (field mfs_lsb arch_lsb numblocks_word inode) 0

      done :
          Done drive size content small stores s runs start
            (first ∷ more)
            0
            (write_runs drive s runs start (first ∷ more) 0).0
            (write_runs drive s runs start (first ∷ more) 0).1
      done =
          write_runs-Done drive size content small stores s runs start (first ∷ more) 0 w sep fits
