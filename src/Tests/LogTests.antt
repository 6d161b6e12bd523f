-- ===== src/Tests/LogTests.antt =====
-- A log of 16 sectors on a drive that is kept in memory, and an entry that goes over the end of one.
use mfstools.Base.{
  ℕ, ◌+◌, ◌%◌, ◌≡◌, ◌≢◌, refl, arith, true, false, some, List, [], ◌∷◌, ◌++◌, replicate, length,
}
use mfstools.Util.{intswap16, endian16_swap}
use mfstools.Crc.{mfs_update_crc, store, overwrite}
use mfstools.Inode.{Sector, field}
use mfstools.Inode.Directory.{half_at}
use mfstools.Inode.Runs.Reading.{Serves}
use mfstools.Inode.Runs.Stored.{Stores}
use mfstools.Log.{
  LogArea, logstamp_word, crc_word, other_stamp, log_sector, log_read, log_write, CurrentLog,
  next_log, filled, overflow, log_add_entry,
}
use mfstools.Log.Ring.{log_read-log_write}
use mfstools.Log.Rounds.{Ready}
use mfstools.Log.Appending.{Adds, log_add_entry-Adds}
use mfstools.Tests.InodeTests.{Content, memory}

abbrev pub area : LogArea
area = record { nsectors = 16; start = 100 }

pub memory-Serves : (s : Content) → Serves memory s 4096 s
memory-Serves s = record { reads = λ sector n h. refl }

pub memory-Stores : Stores memory 4096 (λ s. s)
memory-Stores = record { writes = λ s sector new h. refl; holds = λ s sector new k h. refl }

abbrev pub empty : Content
empty k = replicate 512 0

-- The log sector of stamp 20, and the stamp 4 that had its place before.
abbrev twenty : Sector
twenty = 20 ∷ replicate 511 0

log_read-log_write_example :
    let stamp = field true true logstamp_word twenty in
    let (good, s') = log_write memory true true area empty twenty in
    (good ≡ true)
    × (log_read memory true true area s' stamp
        ≡ log_sector (mfs_update_crc true true twenty crc_word))
    × (4 ≢ stamp → 4 % 16 ≡ stamp % 16 → log_read memory true true area s' 4 ≡ other_stamp)
    × (4 % 16 ≢ stamp % 16
        → log_read memory true true area s' 4 ≡ log_read memory true true area empty 4)
log_read-log_write_example =
    log_read-log_write memory 4096 (λ s. s) (omega arith) memory-Stores memory-Serves true true area
      (omega arith) (omega arith) empty twenty 4 refl

-- A log of stamp 7 with room for 6 bytes, and an entry of 10.
abbrev log : CurrentLog
log = record { logstamp = 7; first = 0; size = 490; body = replicate 490 1 ++ replicate 6 0 }

abbrev entry : List ℕ
entry = 0 ∷ 8 ∷ 2 ∷ 3 ∷ 4 ∷ 5 ∷ 6 ∷ 7 ∷ 8 ∷ 9 ∷ []

log-Ready : Ready log
log-Ready = record { has_room = omega arith; whole = refl; blank = refl }

entry_length : intswap16 false true (half_at true entry 0) + 2 ≡ length entry
unfolding intswap16 endian16_swap
entry_length = refl

log_add_entry-Adds_example : Adds entry log (log_add_entry false true (some log) entry)
log_add_entry-Adds_example = log_add_entry-Adds false true log entry log-Ready entry_length

-- One sector is written, and the current one starts with the last 4 bytes.
split :
    log_add_entry false true (some log) entry
    ≡ filled
        (record {
          logstamp = 7;
          first = 0;
          size = 496;
          body = replicate 490 1 ++ 0 ∷ 8 ∷ 2 ∷ 3 ∷ 4 ∷ 5 ∷ [];
        }
          ∷ [])
        (record { logstamp = 8; first = 4; size = 4; body = 6 ∷ 7 ∷ 8 ∷ 9 ∷ replicate 492 0 })
        10
unfolding log_add_entry overflow next_log intswap16 endian16_swap store overwrite
split = refl
