-- ===== src/Log.antt =====
-- The transaction log, lib/log.c and include/log.h: the sectors of the log are a ring, in which each
-- stands at the place of its stamp, and entries are laid one behind the other through the sectors.
pub mod Ring
pub mod Bytes
pub mod Rounds
pub mod Appending
pub mod Loading
pub mod Replay
use mfstools.Base.{
  ℕ, zero, suc, ◌+◌, ◌-◌, ◌%◌, ◌^◌, Bool, true, false, not, Option, none, some, List, [], ◌∷◌, ltb,
  leb, ◌==◌, if◌then◌else◌, take, drop, replicate, add64, u32, sub32, sub64,
}
use mfstools.Util.{intswap16}
use mfstools.Crc.{store, mfs_check_crc, mfs_update_crc}
use mfstools.Inode.{Sector, Drive, field}
use mfstools.Inode.Directory.{half_at}

-- The words of `log_hdr`.
abbrev pub logstamp_word : ℕ
logstamp_word = 0

abbrev pub crc_word : ℕ
crc_word = 1

-- `lognsectors` and `logstart` of the volume header
pub record LogArea : Type 0 where
  pub nsectors : ℕ
  pub start : ℕ

-- mfs_log_stamp_to_sector
unfoldable pub log_stamp_to_sector : LogArea → ℕ → ℕ
log_stamp_to_sector area logstamp = add64 (logstamp % area.nsectors) area.start

-- What mfs_log_read returns: -1, 0 for a sector that has another stamp or a wrong checksum, or 512 and
-- the sector.
pub data LogRead : Type 0 where
  unread other_stamp wrong_checksum : LogRead
  log_sector : Sector → LogRead

module _ {S : Type 0} (drive : Drive S) (mfs_lsb arch_lsb : Bool) (area : LogArea) where
  -- mfs_log_read
  unfoldable pub log_read : S → ℕ → LogRead
  unfolding log_stamp_to_sector
  log_read s logstamp = elim (drive.read s (log_stamp_to_sector area logstamp) 1) [
    | some (buf ∷ []) ↦
        if not (logstamp == field mfs_lsb arch_lsb logstamp_word buf)
        then other_stamp
        else if not (mfs_check_crc mfs_lsb arch_lsb buf crc_word)
        then wrong_checksum
        else log_sector buf
    | _ ↦ unread
  ]

  -- mfs_log_write: whether it returns 512, and the drive afterwards.
  unfoldable pub log_write : S → Sector → Bool × S
  unfolding log_stamp_to_sector
  log_write s buf =
      let (result, s') =
        drive.write s (log_stamp_to_sector area (field mfs_lsb arch_lsb logstamp_word buf))
          (mfs_update_crc mfs_lsb arch_lsb buf crc_word ∷ []) in
      (elim result [ none ↦ false | some n ↦ n == 1 ], s')

-- `current_log`: the fields of its header as numbers, and the 496 bytes behind the header.
pub record CurrentLog : Type 0 where
  pub logstamp : ℕ
  pub first : ℕ
  pub size : ℕ
  pub body : List ℕ

-- `512 - sizeof (log_hdr)`
abbrev pub body_size : ℕ
body_size = 512 - 16

-- `512 - intswap32 (current_log->size) - sizeof (log_hdr)`
abbrev pub free_room : CurrentLog → ℕ
free_room log = sub64 (sub32 512 log.size) 16

-- What mfs_log_write_current_log leaves in `current_log` once it has been written.
unfoldable pub next_log : CurrentLog → CurrentLog
next_log log = record {
  logstamp = u32 (log.logstamp + 1);
  first = 0;
  size = 0;
  body = replicate body_size 0;
}

-- What mfs_log_add_entry does: nothing without a current log; or the sectors that it hands to
-- mfs_log_write one after the other, whose result it does not look at, the current log then, and how
-- many bytes of the entry are copied.
pub data Filled : Type 0 where
  no_current_log no_end : Filled
  filled : List CurrentLog → CurrentLog → ℕ → Filled

-- A copy of bytes of the entry to the end of the log.
abbrev pub append_bytes : CurrentLog → List ℕ → CurrentLog
append_bytes log new = record log { body = store log.body log.size new }

-- The loop of mfs_log_add_entry that deals with overflow; `total` is the length of the entry.
unfoldable pub overflow : ℕ → List ℕ → ℕ → CurrentLog → ℕ → Filled
unfolding next_log
overflow zero entry total log copystart = no_end
overflow (suc fuel) entry total log copystart =
    let room = free_room log in
    let full = record (append_bytes log (take room (drop copystart entry))) { size = body_size } in
    let copied = copystart + room in
    let next = record (next_log full) {
      first = if ltb body_size (total - copied) then body_size else total - copied;
    } in
    let rest = overflow fuel entry total next copied in
    if leb room (total - copystart)
    then elim rest [
      | filled logs log' copied' ↦ filled (full ∷ logs) log' copied'
      | no_current_log ↦ no_end
      | no_end ↦ no_end
    ]
    else filled [] log copystart

-- The copy of what is left behind the loop.
abbrev pub copy_rest : List ℕ → ℕ → Filled → Filled
copy_rest entry total no_current_log = no_current_log
copy_rest entry total no_end = no_end
copy_rest entry total (filled logs log copystart) =
    if ltb copystart total
    then filled logs
        (record (append_bytes log (take (total - copystart) (drop copystart entry))) {
          size = u32 (log.size + (total - copystart));
        })
        total
    else filled logs log copystart

-- mfs_log_add_entry, of an entry whose first half word is its length less 2.
unfoldable pub log_add_entry : Bool → Bool → Option CurrentLog → List ℕ → Filled
unfolding overflow
log_add_entry mfs_lsb arch_lsb none entry = no_current_log
log_add_entry mfs_lsb arch_lsb (some log) entry =
    let total = intswap16 mfs_lsb arch_lsb (half_at arch_lsb entry 0) + 2 in
    copy_rest entry total (overflow (suc total) entry total log 0)

-- What mfs_log_commit does to the current log before it is written: a zero length entry ends it.
unfoldable pub end_log : CurrentLog → CurrentLog
end_log log = record log { size = u32 (log.size + 2) }
