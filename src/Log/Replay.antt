-- ===== src/Log/Replay.antt =====
-- Applying the entries of the log: mfs_log_sync_inode, mfs_log_commit_list and mfs_log_fssync_list of
-- lib/log.c. An entry is the list of its bytes, as it was loaded; its fields stand at the offsets of the
-- packed structures of include/log.h.
pub mod Transactions
pub mod Stamps
pub mod Encoding
pub mod Fields
pub mod Decoding
use mfstools.Base.{
  ℕ, zero, suc, ◌+◌, ◌-◌, ◌*◌, ◌/◌, ◌^◌, Bool, true, false, not, ◌&&◌, ◌||◌, Option, none, some,
  List, [], ◌∷◌, ◌++◌, bit_and, bit_or, ltb, leb, ◌==◌, if◌then◌else◌, get_or, take, drop, u32,
}
use mfstools.Util.{intswap32, intswap64}
use mfstools.Crc.{word_at, word_bytes, store}
use mfstools.Inode.{
  Sector, Drive, field, with_field, with_flag, numblocks_word, flags_word, data_start, inode_data,
  inode_data2,
}
use mfstools.Inode.Runs.{dword_at}
use mfstools.Inode.Directory.{half_at}
use mfstools.Inode.Sectors.{read_inode, write_inode}
use mfstools.Inode.Chain.{Search, found, absent, ran_out, mfs_find_inode_for_fsid}
use mfstools.Zonemap.Zone.{MfsHandle}
use mfstools.Zonemap.Inodes.{InodeZones}
use mfstools.Zonemap.Update.{zone_map_update}
use mfstools.Zonemap.Commit.{zone_map_commit}
use mfstools.Log.Loading.{LogEntry}

-- `log_trans_types`
abbrev pub lt_map_update : ℕ
lt_map_update = 0

abbrev pub lt_inode_update : ℕ
lt_inode_update = 1

abbrev pub lt_commit : ℕ
lt_commit = 2

abbrev pub lt_fs_sync : ℕ
lt_fs_sync = 4

abbrev pub lt_log_replay : ℕ
lt_log_replay = 5

abbrev pub lt_unknown_type6 : ℕ
lt_unknown_type6 = 6

abbrev pub lt_map_update64 : ℕ
lt_map_update64 = 7

abbrev pub lt_inode_update2 : ℕ
lt_inode_update2 = 8

-- `sizeof (log_entry)`
abbrev pub entry_size : ℕ
entry_size = 26

-- The part of `struct mfs_handle` that the log uses, on the state `S` of the volume set. The boot
-- fields of the volume header are the words as they are stored.
pub record LogHandle (S : Type 0) : Type 0 where
  pub store : S
  pub maps : MfsHandle
  pub next_fsid : ℕ
  pub lastlogcommit : ℕ
  pub lastlogsync : ℕ
  pub inode_log_type : ℕ
  pub volhdrlogstamp : ℕ
  pub bootcycles : ℕ
  pub bootsecs : ℕ

-- What mfs_log_fssync_list makes of an entry before anything is replayed.
pub data Checked : Type 0 where
  fine too_short : Checked
  unknown_type : ℕ → Checked

-- `last` of mfs_log_commit_list
unfoldable pub last_entry : List LogEntry → Option LogEntry
last_entry [] = none
last_entry (e ∷ []) = some e
last_entry (e ∷ e' ∷ list) = last_entry (e' ∷ list)

module _ (mfs_lsb arch_lsb : Bool) where
  -- `intswap32` of the field of an entry at an offset, and `intswap64`
  abbrev pub entry_word : ℕ → List ℕ → ℕ
  entry_word off entry = field mfs_lsb arch_lsb 0 (drop off entry)

  abbrev pub entry_dword : ℕ → List ℕ → ℕ
  entry_dword off entry = intswap64 mfs_lsb arch_lsb (dword_at arch_lsb (drop off entry) 0)

  abbrev pub transtype : LogEntry → ℕ
  transtype e = entry_word 18 e.bytes

  -- The fields of the inode that mfs_log_sync_inode sets from the entry, which are bytes as they are
  -- stored: fsid to bootsecs, and unk3 to pad.
  unfoldable pub copy_fields : List ℕ → Sector → Sector
  copy_fields entry inode =
      store (store inode 0 (take 16 (drop 26 entry))) 20 (take 24 (drop 46 entry))

  -- `inode->inode_flags &= intswap32 (~flag)`
  abbrev pub without_flag : ℕ → Sector → Sector
  without_flag flag inode = store inode (4 * flags_word) (
      word_bytes arch_lsb (
        bit_and (word_at arch_lsb inode flags_word)
          (intswap32 mfs_lsb arch_lsb (2 ^ 32 - 1 - flag))))

  -- The flag for data that is in the inode, and the number of its data blocks.
  unfoldable pub set_data : Bool → List ℕ → Sector → Sector
  set_data is_64 entry inode =
      let flag = if mfs_lsb then inode_data2 else inode_data in
      if not (word_at arch_lsb (drop 70 entry) 0 == 0)
      then with_field mfs_lsb arch_lsb numblocks_word 0 (with_flag mfs_lsb arch_lsb flag inode)
      else with_field mfs_lsb arch_lsb numblocks_word
          (entry_word 74 entry / (if is_64 then 12 else 8)) (without_flag flag inode)

  -- The inode that mfs_log_sync_inode writes.
  unfoldable pub synced_inode : Bool → List ℕ → Sector → Sector
  unfolding copy_fields set_data
  synced_inode is_64 entry inode =
      store (set_data is_64 entry (copy_fields entry inode)) data_start
        (take (entry_word 74 entry) (drop 78 entry))

  -- What the loops over the entries say of one entry. Its length is compared as it is stored.
  unfoldable pub check_entry : LogEntry → Checked
  check_entry e =
      let type = transtype e in
      if ltb (half_at arch_lsb e.bytes 0) (entry_size + 2)
      then if mfs_lsb then fine else too_short
      else if leb type lt_commit
          || (type == lt_fs_sync)
          || (type == lt_log_replay)
          || (type == lt_map_update64)
          || (type == lt_inode_update2)
      then fine
      else unknown_type type

  module _ {S : Type 0} (drive : Drive S) (zones : InodeZones) where
    -- The inode that an entry is for, and the drive then.
    unfoldable pub inode_for : S → List ℕ → Option Sector × S
    inode_for s entry =
        let (search, s') =
          mfs_find_inode_for_fsid drive mfs_lsb arch_lsb zones s (entry_word 26 entry) in
        if entry_word 42 entry == 2 ^ 32 - 1
        then (elim search [ found inode ↦ some inode | absent ↦ none | ran_out ↦ none ], s')
        else (read_inode drive mfs_lsb arch_lsb zones s (entry_word 42 entry), s)

    -- The inode is written, and the next fsid kept behind its own.
    unfoldable pub write_synced : LogHandle S → S → List ℕ → Sector → Bool × LogHandle S
    unfolding synced_inode
    write_synced h s entry inode =
        let (written, s') =
          write_inode drive mfs_lsb arch_lsb zones s (synced_inode h.maps.is_64 entry inode) in
        let fsid = entry_word 26 entry in
        if written
        then (
          true,
          record h {
            store = s';
            next_fsid = if leb h.next_fsid fsid then u32 (fsid + 1) else h.next_fsid;
          },
        )
        else (false, record h { store = s' })

    -- What follows the search for the inode, which may have failed.
    unfoldable pub sync_found : LogHandle S → List ℕ → Option Sector × S → Bool × LogHandle S
    unfolding write_synced
    sync_found h entry (none, s) = (false, record h { store = s })
    sync_found h entry (some inode, s) = write_synced h s entry inode

    -- mfs_log_sync_inode: whether it returns 1, and the handle afterwards.
    unfoldable pub sync_inode : LogHandle S → List ℕ → Bool × LogHandle S
    unfolding inode_for sync_found
    sync_inode h entry = sync_found h entry (inode_for h.store entry)

    -- mfs_zone_map_update for an entry: whether it returns 1
    unfoldable pub update_map : LogHandle S → ℕ → ℕ → ℕ → ℕ → Bool × LogHandle S
    update_map h sector size remove logstamp =
        let (result, maps) = zone_map_update h.maps sector size (not (remove == 0)) logstamp in
        (leb 1 result, record h { maps = maps })

    -- The case of mfs_log_commit_list for one entry.
    unfoldable pub commit_entry : LogHandle S → LogEntry → Bool × LogHandle S
    unfolding update_map sync_inode
    commit_entry h e =
        let type = transtype e in
        if type == lt_map_update
        then update_map h (entry_word 30 e.bytes) (entry_word 34 e.bytes) (entry_word 26 e.bytes)
            e.logstamp
        else if type == lt_map_update64
        then update_map h (entry_dword 34 e.bytes) (entry_dword 42 e.bytes) (entry_word 26 e.bytes)
            e.logstamp
        else if (type == lt_inode_update) || (type == lt_inode_update2)
        then sync_inode h e.bytes
        else (true, h)

    -- Its loop, which an entry that cannot be applied ends.
    unfoldable pub commit_entries : LogHandle S → List LogEntry → Bool × LogHandle S
    unfolding commit_entry
    commit_entries h [] = (true, h)
    commit_entries h (e ∷ list) =
        let (applied, h') = commit_entry h e in
        let rest = commit_entries h' list in if applied then rest else (false, h')

    -- The boot fields of the volume header are those of the last entry, if there is one.
    unfoldable pub note_boot : LogHandle S → Option LogEntry → LogHandle S
    note_boot h none = h
    note_boot h (some e) = record h {
      bootcycles = word_at arch_lsb (drop 6 e.bytes) 0;
      bootsecs = word_at arch_lsb (drop 10 e.bytes) 0;
    }

    -- What mfs_log_commit_list does behind its loop.
    unfoldable pub finish_commit : LogHandle S → List LogEntry → ℕ → LogHandle S
    unfolding last_entry note_boot
    finish_commit h list logstamp =
        let noted =
          note_boot (record h { lastlogcommit = logstamp; volhdrlogstamp = logstamp })
            (last_entry list) in
        record noted { maps = zone_map_commit noted.maps logstamp }

    -- mfs_log_commit_list: whether it returns 1
    unfoldable pub commit_list : LogHandle S → List LogEntry → ℕ → Bool × LogHandle S
    unfolding commit_entries finish_commit
    commit_list h list logstamp =
        let (applied, h') = commit_entries h list in
        if applied then (true, finish_commit h' list logstamp) else (false, h')

    -- What the first loop of mfs_log_fssync_list notes of an entry that is fine.
    unfoldable pub note_entry : LogHandle S → LogEntry → LogHandle S
    note_entry h e =
        let type = transtype e in
        if ltb (half_at arch_lsb e.bytes 0) (entry_size + 2)
        then h
        else if type == lt_fs_sync
        then record h { lastlogsync = e.logstamp }
        else if (type == lt_inode_update) || (type == lt_inode_update2)
        then record h { inode_log_type = type }
        else h

    unfoldable pub check_entries : LogHandle S → List LogEntry → Checked × LogHandle S
    unfolding check_entry note_entry
    check_entries h [] = (fine, h)
    check_entries h (e ∷ list) =
        let rest = check_entries (note_entry h e) list in
        elim (check_entry e) [
          | fine ↦ rest
          | too_short ↦ (too_short, h)
          | unknown_type type ↦ (unknown_type type, h)
        ]

    -- The second loop, with the entries that it has come past since the last commit.
    unfoldable pub commit_each : LogHandle S → List LogEntry → List LogEntry → Bool × LogHandle S
    unfolding commit_list
    commit_each h pending [] = (true, h)
    commit_each h pending (e ∷ list) =
        let (applied, h') = commit_list h (pending ++ (e ∷ [])) e.logstamp in
        let rest = commit_each h' [] list in
        let on = commit_each h (pending ++ (e ∷ [])) list in
        if transtype e == lt_commit then if applied then rest else (false, h') else on

    -- What mfs_log_fssync_list does when its first loop is through.
    unfoldable pub after_check : List LogEntry → Checked × LogHandle S → Bool × LogHandle S
    unfolding commit_each
    after_check list (fine, h) = commit_each h [] list
    after_check list (too_short, h) = (false, h)
    after_check list (unknown_type type, h) = (false, h)

    -- mfs_log_fssync_list: whether it returns 1
    unfoldable pub fssync_list : LogHandle S → List LogEntry → Bool × LogHandle S
    unfolding check_entries after_check
    fssync_list h list = after_check list (check_entries h list)
