-- ===== src/Log/Replay/Stamps.antt =====
-- What a commit of a list of entries leaves behind, when all of them can be applied and when one cannot.
use mfstools.Base.{
  ℕ, ◌≡◌, refl, ◌∙◌, Bool, true, false, Option, none, some, List, [], ◌∷◌, arith, ◌==◌, ◌||◌, ◌+◌,
  leb, u32, if◌then◌else◌,
}
use mfstools.Inode.{Sector, Drive}
use mfstools.Inode.Sectors.{write_inode}
use mfstools.Zonemap.Inodes.{InodeZones}
use mfstools.Zonemap.Zone.{ZoneMap}
use mfstools.Zonemap.Commit.{clear_changes, commit_zone, commit_zones, zone_map_commit}
use mfstools.Log.Loading.{LogEntry}
use mfstools.Log.Replay.{
  LogHandle, inode_for, synced_inode, write_synced, sync_found, note_boot, transtype, entry_word,
  entry_dword, lt_map_update, lt_map_update64, lt_inode_update, lt_inode_update2, sync_inode,
  update_map, commit_entry, commit_entries, last_entry, finish_commit, commit_list,
}

-- The zones that were changed have the stamp.
unfoldable pub AllStamped : ℕ → List ZoneMap → Type 0
AllStamped logstamp [] = Unit
AllStamped logstamp (zone ∷ zones) =
    (zone.dirty ≡ true → zone.map.logstamp ≡ logstamp) × AllStamped logstamp zones

commit_zones-AllStamped :
    (logstamp : ℕ) (zones : List ZoneMap) → AllStamped logstamp (commit_zones logstamp zones)
unfolding AllStamped commit_zones commit_zone clear_changes
commit_zones-AllStamped logstamp [] = tt
commit_zones-AllStamped logstamp (zone ∷ zones) =
    (λ d. ground (arith, d), commit_zones-AllStamped logstamp zones)

-- The parts of the handle that only a commit changes.
pub record SameCommit {S : Type 0} (h h' : LogHandle S) : Type 0 where
  pub same_commit : h'.lastlogcommit ≡ h.lastlogcommit
  pub same_header : h'.volhdrlogstamp ≡ h.volhdrlogstamp
  pub same_bootcycles : h'.bootcycles ≡ h.bootcycles
  pub same_bootsecs : h'.bootsecs ≡ h.bootsecs
  pub same_sync : h'.lastlogsync ≡ h.lastlogsync

SameCommit-trans :
    {S : Type 0} {a b c : LogHandle S} → SameCommit a b → SameCommit b c → SameCommit a c
SameCommit-trans x y = record {
  same_commit = y.same_commit ∙ x.same_commit;
  same_header = y.same_header ∙ x.same_header;
  same_bootcycles = y.same_bootcycles ∙ x.same_bootcycles;
  same_bootsecs = y.same_bootsecs ∙ x.same_bootsecs;
  same_sync = y.same_sync ∙ x.same_sync;
}

-- A pair of a result and a handle, by the result.
unfoldable pub Commits : {S : Type 0} → LogHandle S → ℕ → Bool × LogHandle S → Type 0
Commits h logstamp (true, h') =
    (h'.lastlogcommit ≡ logstamp)
    × (h'.volhdrlogstamp ≡ logstamp)
    × (h'.lastlogsync ≡ h.lastlogsync)
    × AllStamped logstamp h'.maps.loaded_zones
Commits h logstamp (false, h') = SameCommit h h'

SameCommit-refl : {S : Type 0} (h : LogHandle S) → SameCommit h h
SameCommit-refl h = record {
  same_commit = refl;
  same_header = refl;
  same_bootcycles = refl;
  same_bootsecs = refl;
  same_sync = refl;
}

SameCommit-if :
    {S : Type 0} (h : LogHandle S) (b : Bool) (x y : Bool × LogHandle S)
    → SameCommit h x.1
    → SameCommit h y.1
    → SameCommit h (if b then x else y).1
SameCommit-if h true x y p q = p
SameCommit-if h false x y p q = q

module _ (mfs_lsb arch_lsb : Bool) {S : Type 0} (drive : Drive S) (zones : InodeZones) where
  update_map-SameCommit :
      (h : LogHandle S) (sector size remove logstamp : ℕ)
      → SameCommit h (update_map mfs_lsb arch_lsb drive zones h sector size remove logstamp).1
  unfolding update_map
  update_map-SameCommit h sector size remove logstamp = record {
    same_commit = refl;
    same_header = refl;
    same_bootcycles = refl;
    same_bootsecs = refl;
    same_sync = refl;
  }

  write_synced-SameCommit :
      (h : LogHandle S) (s : S) (entry : List ℕ) (inode : Sector)
      → SameCommit h (write_synced mfs_lsb arch_lsb drive zones h s entry inode).1
  unfolding write_synced
  write_synced-SameCommit h s entry inode =
      let (written, s') =
        write_inode drive mfs_lsb arch_lsb zones s
          (synced_inode mfs_lsb arch_lsb h.maps.is_64 entry inode) in
      let fsid = entry_word mfs_lsb arch_lsb 26 entry in
      SameCommit-if h written
        (
          true,
          record h {
            store = s';
            next_fsid = if leb h.next_fsid fsid then u32 (fsid + 1) else h.next_fsid;
          },
        )
        (false, record h { store = s' })
        (record {
          same_commit = refl;
          same_header = refl;
          same_bootcycles = refl;
          same_bootsecs = refl;
          same_sync = refl;
        })
        (record {
          same_commit = refl;
          same_header = refl;
          same_bootcycles = refl;
          same_bootsecs = refl;
          same_sync = refl;
        })

  sync_found-SameCommit :
      (h : LogHandle S) (entry : List ℕ) (there : Option Sector × S)
      → SameCommit h (sync_found mfs_lsb arch_lsb drive zones h entry there).1
  unfolding sync_found
  sync_found-SameCommit h entry (none, s) = record {
    same_commit = refl;
    same_header = refl;
    same_bootcycles = refl;
    same_bootsecs = refl;
    same_sync = refl;
  }
  sync_found-SameCommit h entry (some inode, s) = write_synced-SameCommit h s entry inode

  sync_inode-SameCommit :
      (h : LogHandle S) (entry : List ℕ)
      → SameCommit h (sync_inode mfs_lsb arch_lsb drive zones h entry).1
  unfolding sync_inode
  sync_inode-SameCommit h entry =
      sync_found-SameCommit h entry (inode_for mfs_lsb arch_lsb drive zones h.store entry)

  commit_entry-SameCommit :
      (h : LogHandle S) (e : LogEntry)
      → SameCommit h (commit_entry mfs_lsb arch_lsb drive zones h e).1
  unfolding commit_entry
  commit_entry-SameCommit h e =
      let type = transtype mfs_lsb arch_lsb e in
      let map32 =
        update_map mfs_lsb arch_lsb drive zones h (entry_word mfs_lsb arch_lsb 30 e.bytes)
          (entry_word mfs_lsb arch_lsb 34 e.bytes) (entry_word mfs_lsb arch_lsb 26 e.bytes)
          e.logstamp in
      let map64 =
        update_map mfs_lsb arch_lsb drive zones h (entry_dword mfs_lsb arch_lsb 34 e.bytes)
          (entry_dword mfs_lsb arch_lsb 42 e.bytes) (entry_word mfs_lsb arch_lsb 26 e.bytes)
          e.logstamp in
      let synced = sync_inode mfs_lsb arch_lsb drive zones h e.bytes in
      let other =
        if (type == lt_inode_update) || (type == lt_inode_update2) then synced else (true, h) in
      SameCommit-if h (type == lt_map_update) map32
        (if type == lt_map_update64 then map64 else other)
        (update_map-SameCommit h _ _ _ e.logstamp)
        (SameCommit-if h (type == lt_map_update64) map64 other
          (update_map-SameCommit h _ _ _ e.logstamp)
          (SameCommit-if h ((type == lt_inode_update) || (type == lt_inode_update2)) synced
            (true, h) (sync_inode-SameCommit h e.bytes) (SameCommit-refl h)))

  commit_entries-SameCommit :
      (h : LogHandle S) (list : List LogEntry)
      → SameCommit h (commit_entries mfs_lsb arch_lsb drive zones h list).1
  unfolding commit_entries
  commit_entries-SameCommit h [] = SameCommit-refl h
  commit_entries-SameCommit h (e ∷ list) =
      let (applied, h') = commit_entry mfs_lsb arch_lsb drive zones h e in
      SameCommit-if h applied (commit_entries mfs_lsb arch_lsb drive zones h' list) (false, h')
        (SameCommit-trans (commit_entry-SameCommit h e) (commit_entries-SameCommit h' list))
        (commit_entry-SameCommit h e)

  note_boot-Commits :
      (h h' : LogHandle S) (last : Option LogEntry) (logstamp : ℕ)
      → SameCommit h h'
      → let noted =
          note_boot mfs_lsb arch_lsb drive zones
            (record h' { lastlogcommit = logstamp; volhdrlogstamp = logstamp })
            last in
        Commits h logstamp (true, record noted { maps = zone_map_commit noted.maps logstamp })
  unfolding note_boot Commits zone_map_commit
  note_boot-Commits h h' none logstamp s =
      (refl, refl, s.same_sync, commit_zones-AllStamped logstamp h'.maps.loaded_zones)
  note_boot-Commits h h' (some e) logstamp s =
      (refl, refl, s.same_sync, commit_zones-AllStamped logstamp h'.maps.loaded_zones)

  -- A commit of a list that can be applied leaves its stamp as that of the last commit, in the volume
  -- header and on every loaded zone that was changed. When an entry cannot be applied, the last
  -- commit, the stamp and the boot times of the volume header are those from before. The last sync is
  -- the same in both cases.
  pub commit_list-Commits :
      (h : LogHandle S) (list : List LogEntry) (logstamp : ℕ)
      → Commits h logstamp (commit_list mfs_lsb arch_lsb drive zones h list logstamp)
  unfolding commit_list finish_commit
  commit_list-Commits h list logstamp =
      go (commit_entries mfs_lsb arch_lsb drive zones h list) (commit_entries-SameCommit h list)
    where
      go :
          (result : Bool × LogHandle S)
          → SameCommit h result.1
          → Commits h logstamp (
              if result.0
              then (true, finish_commit mfs_lsb arch_lsb drive zones result.1 list logstamp)
              else (false, result.1))
      go (true, h') s = note_boot-Commits h h' (last_entry list) logstamp s
      go (false, h') s = unfold Commits in s
