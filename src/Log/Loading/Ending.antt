-- ===== src/Log/Loading/Ending.antt =====
-- Loading one sector of the log ends: it takes no more rounds than the sector has bytes.
use mfstools.Base.{
  inl, inr, ℕ, zero, suc, ◌+◌, ◌-◌, ◌<◌, Bool, true, false, not, ◌&&◌, none, some, List, arith, leb,
  ◌==◌, if◌then◌else◌,
}
use native.Mathlib.Decide.{dec_le, dec_lt}
use mfstools.Log.Loading.Rounds.{read_entries_stop, read_entries_part, read_entries_whole}
use mfstools.Inode.{Sector, field}
use mfstools.Log.Loading.{
  first_word, size_word, LogEntry, Reader, Loading, reading, bad_entry, no_end, start_entry,
  read_entries, start_sector, continue_sector, load_sector, go_on, is_some,
}

-- The loop has an end.
unfoldable pub Ends : Loading → Type 0
Ends (reading r) = Unit
Ends (bad_entry stamp) = Unit
Ends no_end = ⊥

pub Ends-if : (b : Bool) (l m : Loading) → Ends l → Ends m → Ends (if b then l else m)
Ends-if true l m h k = h
Ends-if false l m h k = k

pub Ends-go_on :
    (l : Loading) (next : Reader → Loading)
    → Ends l
    → ((r : Reader) → Ends (next r))
    → Ends (go_on l next)
Ends-go_on (reading r) next h k = k r
Ends-go_on (bad_entry stamp) next h k = h
Ends-go_on no_end next h k = h

module _ (mfs_lsb arch_lsb : Bool) where
  read_entries-Ends :
      (fuel stamp : ℕ) (buf : Sector) (curstart : ℕ) (r : Reader)
      → field mfs_lsb arch_lsb size_word buf - curstart < fuel
      → Ends (read_entries mfs_lsb arch_lsb fuel stamp buf curstart r)
  unfolding Ends
  read_entries-Ends zero stamp buf curstart r h = absurd (omega arith)
  read_entries-Ends (suc fuel) stamp buf curstart r h = elim (dec_lt 0 r.remaining) [
    | no none_left ↦
        rw (read_entries_stop mfs_lsb arch_lsb fuel stamp buf curstart r (inl (omega arith))) tt
    | yes some_left ↦ elim (dec_lt curstart (field mfs_lsb arch_lsb size_word buf)) [
      | no past ↦
          rw (read_entries_stop mfs_lsb arch_lsb fuel stamp buf curstart r (inr (omega arith))) tt
      | yes before ↦ elim (dec_le r.remaining (field mfs_lsb arch_lsb size_word buf - curstart)) [
        | no more ↦
            rw (read_entries_part mfs_lsb arch_lsb fuel stamp buf curstart r before (omega arith))
              tt
        | yes fits ↦
            rw (read_entries_whole mfs_lsb arch_lsb fuel stamp buf curstart r before some_left fits)
              (read_entries-Ends fuel stamp buf (curstart + r.remaining) _ (omega arith))
      ]
    ]
  ]

  read_enough :
      (stamp : ℕ) (buf : Sector) (curstart : ℕ) (r : Reader)
      → Ends (
          read_entries mfs_lsb arch_lsb
            (suc (field mfs_lsb arch_lsb size_word buf))
            stamp
            buf
            curstart
            r)
  read_enough stamp buf curstart r =
      read_entries-Ends (suc (field mfs_lsb arch_lsb size_word buf)) stamp buf curstart r
        (omega arith)

  start_sector-Ends :
      (stamp : ℕ) (buf : Sector) (entries : List LogEntry)
      → Ends (start_sector mfs_lsb arch_lsb stamp buf entries)
  unfolding start_sector Ends
  start_sector-Ends stamp buf entries =
      let first = field mfs_lsb arch_lsb first_word buf in
      let size = field mfs_lsb arch_lsb size_word buf in
      let started = start_entry mfs_lsb arch_lsb stamp buf first entries in
      let run = read_entries mfs_lsb arch_lsb (suc size) stamp buf first started in
      let skipped : Reader = record { entries = entries; cur = none; remaining = 0 } in
      Ends-if (not (first == 0) && is_some entries) (bad_entry stamp)
        (if not (first == 0) && leb size first then reading skipped else run) tt
        (Ends-if (not (first == 0) && leb size first) (reading skipped) run tt
          (read_enough stamp buf first started))

  continue_sector-Ends :
      (stamp : ℕ) (buf : Sector) (r : Reader) → Ends (continue_sector mfs_lsb arch_lsb stamp buf r)
  unfolding continue_sector Ends
  continue_sector-Ends stamp buf r = Ends-if _ (bad_entry stamp) _ tt (read_enough stamp buf 0 r)

  pub load_sector-Ends :
      (stamp : ℕ) (buf : Sector) (r : Reader) → Ends (load_sector mfs_lsb arch_lsb stamp buf r)
  unfolding load_sector
  load_sector-Ends stamp buf r =
      elim r.cur
        as (λ cur. Ends (elim cur [
          | none ↦ start_sector mfs_lsb arch_lsb stamp buf r.entries
          | some e ↦ continue_sector mfs_lsb arch_lsb stamp buf r
        ])) [
          | none ↦ start_sector-Ends stamp buf r.entries
          | some e ↦ continue_sector-Ends stamp buf r
        ]
