-- ===== src/Log/Loading/Rounds.antt =====
-- A round of the loop that reads in the entries of one sector: nothing is left to do, the entry goes on
-- in the next sector, or it is complete.
use mfstools.Base.{
  ℕ, suc, ◌+◌, ◌-◌, ◌≤◌, ◌<◌, ◌≡◌, refl, min, Bool, false, ◌||◌, ◌==◌, Option, none, some, List,
  ◌⊎◌, arith, ltb, take, drop,
}
use mfstools.Inode.{Sector, field}
use mfstools.Log.Loading.{
  hdr_size, first_word, size_word, LogEntry, Reader, reading, copy_part, link, start_entry,
  next_entry, read_entries, start_sector, continue_sector, load_sector,
}

module _ (mfs_lsb arch_lsb : Bool) (fuel stamp : ℕ) (buf : Sector) (curstart : ℕ) (r : Reader) where
  abbrev size : ℕ
  size = field mfs_lsb arch_lsb size_word buf

  abbrev copied : ℕ → Option LogEntry
  copied tocopy = copy_part (take tocopy (drop (curstart + hdr_size) buf)) r.cur

  pub read_entries_stop :
      (r.remaining ≡ 0) ⊎ (size ≤ curstart)
      → read_entries mfs_lsb arch_lsb (suc fuel) stamp buf curstart r ≡ reading r
  unfolding read_entries
  read_entries_stop h = ground (arith, h)

  pub read_entries_part :
      curstart < size
      → size - curstart < r.remaining
      → read_entries mfs_lsb arch_lsb (suc fuel) stamp buf curstart r
        ≡ reading (record r {
          cur = copied (size - curstart);
          remaining = r.remaining - (size - curstart);
        })
  unfolding read_entries
  read_entries_part h more = rw (all) (ground (arith, h, more))
    where
      all : min r.remaining (size - curstart) ≡ size - curstart
      all = omega (arith, more)

  pub read_entries_whole :
      curstart < size
      → 0 < r.remaining
      → r.remaining ≤ size - curstart
      → read_entries mfs_lsb arch_lsb (suc fuel) stamp buf curstart r
        ≡ read_entries mfs_lsb arch_lsb fuel stamp buf (curstart + r.remaining) (
            next_entry mfs_lsb arch_lsb stamp buf
              (curstart + r.remaining)
              (link r.entries (copied r.remaining)))
  unfolding read_entries
  read_entries_whole h some_left fits = rw (all) (ground (arith, h, some_left))
    where
      all : min r.remaining (size - curstart) ≡ r.remaining
      all = omega (arith, fits)

module _ (mfs_lsb arch_lsb : Bool) (stamp : ℕ) (buf : Sector) where
  pub load_sector_start :
      (entries : List LogEntry) (n : ℕ)
      → field mfs_lsb arch_lsb first_word buf ≡ 0
      → load_sector mfs_lsb arch_lsb stamp buf
          (record { entries = entries; cur = none; remaining = n })
        ≡ read_entries mfs_lsb arch_lsb
            (suc (field mfs_lsb arch_lsb size_word buf))
            stamp
            buf
            0
            (start_entry mfs_lsb arch_lsb stamp buf 0 entries)
  unfolding load_sector start_sector
  load_sector_start entries n h = rw (h) refl

  pub load_sector_continue :
      (entries : List LogEntry) (e : LogEntry) (n : ℕ)
      → 0 < field mfs_lsb arch_lsb first_word buf
      → field mfs_lsb arch_lsb first_word buf ≤ n
      → load_sector mfs_lsb arch_lsb stamp buf
          (record { entries = entries; cur = some e; remaining = n })
        ≡ read_entries mfs_lsb arch_lsb
            (suc (field mfs_lsb arch_lsb size_word buf))
            stamp
            buf
            0
            (record { entries = entries; cur = some e; remaining = n })
  unfolding load_sector continue_sector
  load_sector_continue entries e n some_left fits = rw (good) refl
    where
      good :
          (ltb n (field mfs_lsb arch_lsb first_word buf)
            || (field mfs_lsb arch_lsb first_word buf == 0))
          ≡ false
      good = ground (arith, some_left, fits)
