-- ===== src/Tests/ReplayTests.antt =====
-- Replaying the log, and loading a volume header, at concrete inputs.
use mfstools.Base.{
  ℕ, ◌^◌, ◌<◌, ◌≡◌, refl, arith, true, false, some, none, List, [], ◌∷◌, ◌++◌, replicate, take,
  if◌then◌else◌, ◌==◌,
}
use mfstools.Util.{intswap16, endian16_swap, intswap32, endian32_swap, intswap64}
use mfstools.Util.Swap64.{intswap64_twice}
use mfstools.Crc.{word_at, word_bytes, mfs_check_crc, mfs_compute_crc, crc_loop, filler, updc32}
use mfstools.Crc.Table.{crc32tab}
use mfstools.Inode.Objects.Attributes.{half_bytes}
use mfstools.Zonemap.Zone.{MfsHandle}
use mfstools.Log.Loading.{LogEntry}
use mfstools.Log.Replay.{
  LogHandle, check_entries, check_entry, note_entry, fssync_list, commit_list,
}
use mfstools.Log.Replay.Transactions.{
  Transaction, NoCommit, AreTransactions, all_entries, replay, fssync_list-replay,
}
use mfstools.Log.Replay.Stamps.{Commits, commit_list-Commits}
use mfstools.Log.Replay.Encoding.{zone_entry}
use mfstools.Log.Replay.Decoding.{Replayed, commit_entry-zone_entry}
use mfstools.Header.{
  header, good_checksum, load_header, write_header, sealed, drive_order, other_volumes,
}
use mfstools.Header.Copies.{IsHeader}
use mfstools.Header.Stored.{FirstCopy, damaged, load_header-write_header}
use mfstools.Header.Names.{Word, AllAre, AreWords, line, places, other_volumes-places}
use mfstools.Tests.InodeTests.{Content, memory, zones}
use mfstools.Tests.LogTests.{empty, memory-Serves, memory-Stores}

abbrev maps : MfsHandle
maps = record { is_64 = false; loaded_zones = []; err = none }

abbrev handle : LogHandle Content
handle = record {
  store = empty;
  maps = maps;
  next_fsid = 9;
  lastlogcommit = 4;
  lastlogsync = 4;
  inode_log_type = 1;
  volhdrlogstamp = 4;
  bootcycles = 0;
  bootsecs = 0;
}

-- The entry of a kind of transaction, without fields of its own.
abbrev entry : ℕ → ℕ → LogEntry
entry logstamp type = record {
  logstamp = logstamp;
  bytes = 0 ∷ 28 ∷ (replicate 16 0 ++ (0 ∷ 0 ∷ 0 ∷ type ∷ replicate 8 0));
}

abbrev synced : Transaction
synced = record { body = entry 5 4 ∷ []; commit = entry 6 2 }

-- A file system sync and a commit, and a map update that was not committed.
fssync_list-replay_example :
    fssync_list false true memory zones handle (all_entries (synced ∷ []) ++ (entry 7 0 ∷ []))
    ≡ replay false true memory zones (record handle { lastlogsync = 5 }) (synced ∷ [])
unfolding AreTransactions NoCommit check_entries check_entry note_entry all_entries word_at
    intswap32 endian32_swap
fssync_list-replay_example =
    fssync_list-replay false true memory zones handle (record handle { lastlogsync = 5 })
      (synced ∷ []) (entry 7 0 ∷ []) (((λ e. omega (arith, e)), tt), refl, tt)
      ((λ e. omega (arith, e)), tt) refl

commit_list-Commits_example :
    Commits handle 6 (commit_list false true memory zones handle (entry 5 4 ∷ entry 6 2 ∷ []) 6)
commit_list-Commits_example =
    commit_list-Commits false true memory zones handle (entry 5 4 ∷ entry 6 2 ∷ []) 6

-- `log_map_update_32` of 4 blocks at 1122 that are taken.
abbrev taken : List ℕ
taken =
    0 ∷ 40 ∷ 0 ∷ 0 ∷ 0 ∷ 0 ∷ 0 ∷ 0 ∷ 0 ∷ 3 ∷ 0 ∷ 0 ∷ 0 ∷ 9 ∷ 0 ∷ 0 ∷ 0 ∷ 7 ∷ 0 ∷ 0 ∷ 0 ∷ 0 ∷ 0 ∷ 0
    ∷ 0 ∷ 0 ∷ 0 ∷ 0 ∷ 0 ∷ 1 ∷ 0 ∷ 0 ∷ 4 ∷ 98 ∷ 0 ∷ 0 ∷ 0 ∷ 4 ∷ 0 ∷ 0 ∷ 0 ∷ 0 ∷ []

taken_made : zone_entry false true 3 9 maps 7 1122 4 true ≡ some taken
unfolding zone_entry word_bytes intswap32 endian32_swap intswap16 endian16_swap half_bytes
taken_made = refl

commit_entry-zone_entry_example : Replayed false true memory zones handle 1122 4 true 6 taken
commit_entry-zone_entry_example =
    commit_entry-zone_entry false true memory zones handle maps 3 9 7 1122 4 true taken 6
      (omega arith) (omega arith) taken_made

intswap64_twice_example :
    (intswap64 false true (intswap64 false true 0x0123456789abcdef) ≡ 0x0123456789abcdef)
    × (intswap64 false true 0x0123456789abcdef < 2 ^ 64)
intswap64_twice_example = intswap64_twice false true 0x0123456789abcdef (omega arith)

-- The header of a drive of 32 bits that stores the high byte first.
abbrev drive_header : List ℕ
drive_header = 0 ∷ 0 ∷ 0 ∷ 0 ∷ 0xAB ∷ 0xBA ∷ 0xFE ∷ 0xED ∷ replicate 272 0

drive_header-IsHeader : IsHeader true false false drive_header
unfolding drive_order word_at intswap32 endian32_swap
drive_header-IsHeader = record { whole = refl; order = refl; width = refl; consistent = refl }

abbrev stored : Content
stored = (write_header true memory 64 empty false false drive_header).1

-- The drive after the first sector of it was damaged.
abbrev later : Content
later k = if k == 0 then drive_header ++ replicate 232 0 else stored k

later_damaged : FirstCopy true false false drive_header (take 280 (later 0))
unfolding good_checksum mfs_check_crc word_at mfs_compute_crc intswap32 endian32_swap crc_loop
    updc32 crc32tab filler
later_damaged = damaged (record { same = λ k h. refl }) refl

load_header-write_header_example :
    let stored_header = header false false 0xABBAFEED (sealed true false false drive_header) in
    ((write_header true memory 64 empty false false drive_header).0 ≡ true)
    × (load_header true memory 64 stored false ≡ stored_header)
    × (load_header true memory 64 later false ≡ stored_header)
unfolding intswap32 endian32_swap word_at
load_header-write_header_example =
    load_header-write_header memory 4096 (λ s. s) (omega arith) memory-Stores memory-Serves true 64
      (omega arith) (omega arith) false false drive_header empty later false drive_header-IsHeader
      refl later_damaged

-- `a bc`
abbrev second : Word
second = record { blank = 32; blanks = []; letter = 98; letters = 99 ∷ [] }

other_volumes-places_example : other_volumes (97 ∷ line (second ∷ [])) ≡ some (places (second ∷ []))
unfolding AllAre AreWords
other_volumes-places_example =
    other_volumes-places (97 ∷ []) (second ∷ []) (refl, tt)
      (record { is_gap = (refl, tt); is_name = (refl, (refl, tt)) }, tt)
