-- ===== src/Log/Loading.antt =====
-- Reading the entries of the log back: mfs_log_load_list of lib/log.c. `read` stands for mfs_log_read.
pub mod Rounds
pub mod Pieces
pub mod Continuing
pub mod Carrying
pub mod RoundTrip
pub mod Sessions
pub mod Committed
pub mod Device
pub mod Cycle
pub mod Ending
pub mod Terminating
use mfstools.Base.{
  ℕ, zero, suc, ◌+◌, ◌-◌, ◌^◌, min, Bool, true, false, not, ◌&&◌, ◌||◌, Option, none, some, List,
  [], ◌∷◌, ◌++◌, ltb, leb, ◌==◌, if◌then◌else◌, take, drop, u32,
}
use mfstools.Util.{intswap16}
use mfstools.Inode.{Sector, field}
use mfstools.Inode.Directory.{half_at}
use mfstools.Log.{LogRead, log_sector, unread, other_stamp, wrong_checksum}

-- The further words of `log_hdr`, and its size.
abbrev pub first_word : ℕ
first_word = 2

abbrev pub size_word : ℕ
size_word = 3

abbrev pub hdr_size : ℕ
hdr_size = 16

-- An element of the list: the stamp of the sector that it starts in, and the bytes of its entry.
pub record LogEntry : Type 0 where
  pub logstamp : ℕ
  pub bytes : List ℕ

-- `*list`, `cur` with the bytes that are copied to it so far, and `partremaining`.
pub record Reader : Type 0 where
  pub entries : List LogEntry
  pub cur : Option LogEntry
  pub remaining : ℕ

-- What comes of a sector: the bytes of it are read; it does not go on where the ones before it end; or
-- the fuel runs out.
pub data Loading : Type 0 where
  reading : Reader → Loading
  bad_entry : ℕ → Loading
  no_end : Loading

-- What mfs_log_load_list makes of the list: 1, or 0 for an error at a stamp.
pub data Loaded : Type 0 where
  loaded : List LogEntry → Loaded
  load_error : ℕ → Loaded
  load_no_end : Loaded

-- The bytes that are copied to `cur`, and `cur` put at the end of the list.
unfoldable pub copy_part : List ℕ → Option LogEntry → Option LogEntry
copy_part piece none = none
copy_part piece (some e) = some (record e { bytes = e.bytes ++ piece })

unfoldable pub link : List LogEntry → Option LogEntry → List LogEntry
link entries none = entries
link entries (some e) = entries ++ (e ∷ [])

-- `if (*list)`
abbrev pub is_some : List LogEntry → Bool
is_some [] = false
is_some (e ∷ es) = true

abbrev pub go_on : Loading → (Reader → Loading) → Loading
go_on (reading r) next = next r
go_on (bad_entry stamp) next = bad_entry stamp
go_on no_end next = no_end

-- `if (!~start)`
abbrev pub first_stamp : ℕ → ℕ → ℕ
first_stamp last_sync start = if start == 2 ^ 32 - 1 then u32 (last_sync + 1) else start

abbrev pub as_loaded : Loading → Loaded
as_loaded (reading r) = loaded r.entries
as_loaded (bad_entry stamp) = load_error stamp
as_loaded no_end = load_no_end

module _ (mfs_lsb arch_lsb : Bool) where
  -- A new entry at the place `curstart` of the sector.
  unfoldable pub start_entry : ℕ → Sector → ℕ → List LogEntry → Reader
  start_entry stamp buf curstart entries =
      let total =
        intswap16 mfs_lsb arch_lsb (half_at arch_lsb (drop (curstart + hdr_size) buf) 0) + 2 in
      record {
        entries = entries;
        cur = if ltb 2 total then some (record { logstamp = stamp; bytes = [] }) else none;
        remaining = total;
      }

  -- What follows an entry that is complete, at the place `curstart`.
  unfoldable pub next_entry : ℕ → Sector → ℕ → List LogEntry → Reader
  unfolding start_entry
  next_entry stamp buf curstart entries =
      if leb (curstart + 2) (field mfs_lsb arch_lsb size_word buf)
      then start_entry stamp buf curstart entries
      else record { entries = entries; cur = none; remaining = 0 }

  -- The loop that reads in the entries of one sector.
  unfoldable pub read_entries : ℕ → ℕ → Sector → ℕ → Reader → Loading
  unfolding copy_part link next_entry
  read_entries zero stamp buf curstart r = no_end
  read_entries (suc fuel) stamp buf curstart r =
      let size = field mfs_lsb arch_lsb size_word buf in
      let tocopy = min r.remaining (size - curstart) in
      let cur = copy_part (take tocopy (drop (curstart + hdr_size) buf)) r.cur in
      let rest =
        read_entries fuel stamp buf (curstart + tocopy)
          (next_entry stamp buf (curstart + tocopy) (link r.entries cur)) in
      if ltb 0 r.remaining && ltb curstart size
      then (if ltb 0 (r.remaining - tocopy)
          then reading (record r { cur = cur; remaining = r.remaining - tocopy })
          else rest)
      else reading r

  -- What is done with a sector when no entry is pending, and when one is.
  unfoldable pub start_sector : ℕ → Sector → List LogEntry → Loading
  unfolding start_entry read_entries
  start_sector stamp buf entries =
      let first = field mfs_lsb arch_lsb first_word buf in
      let size = field mfs_lsb arch_lsb size_word buf in
      if not (first == 0) && is_some entries
      then bad_entry stamp
      else if not (first == 0) && leb size first
      then reading (record { entries = entries; cur = none; remaining = 0 })
      else read_entries (suc size) stamp buf first (start_entry stamp buf first entries)

  unfoldable pub continue_sector : ℕ → Sector → Reader → Loading
  unfolding read_entries
  continue_sector stamp buf r =
      let first = field mfs_lsb arch_lsb first_word buf in
      if ltb r.remaining first || (first == 0)
      then bad_entry stamp
      else read_entries (suc (field mfs_lsb arch_lsb size_word buf)) stamp buf 0 r

  unfoldable pub load_sector : ℕ → Sector → Reader → Loading
  load_sector stamp buf r = elim r.cur [
    | none ↦ start_sector stamp buf r.entries
    | some e ↦ continue_sector stamp buf r
  ]

  module _ (read : ℕ → LogRead) where
    -- The loop over the sectors. A read that is not of a whole sector ends it.
    unfoldable pub load_sectors : ℕ → ℕ → ℕ → Reader → Loading
    unfolding load_sector
    load_sectors zero start end r = no_end
    load_sectors (suc fuel) start end r =
        if leb start end
        then elim (read start) [
          | log_sector buf ↦
              go_on (load_sector start buf r) (λ r'. load_sectors fuel (u32 (start + 1)) end r')
          | unread ↦ reading r
          | other_stamp ↦ reading r
          | wrong_checksum ↦ reading r
        ]
        else reading r

    -- mfs_log_load_list, of a ring of `nsectors`. An entry that is not complete is dropped.
    unfoldable pub log_load_list : ℕ → ℕ → ℕ → ℕ → Loaded
    unfolding load_sectors
    log_load_list nsectors last_sync start end = as_loaded (
        load_sectors (suc nsectors) (first_stamp last_sync start) end
          (record { entries = []; cur = none; remaining = 0 }))
