-- ===== src/Log/Replay/Decoding.antt =====
-- The entry for a block of a zone map, as mfs_log_zone_update of lib/log.c makes it, is replayed.
use mfstools.Base.{
  ℕ, ◌^◌, ◌<◌, ◌≡◌, refl, ap, ap₂, ◌∙◌, Bool, true, false, none, some, List, arith, leb,
  if◌then◌else◌,
}
use mfstools.Inode.{Drive}
use mfstools.Zonemap.Inodes.{InodeZones}
use mfstools.Zonemap.Zone.{MfsHandle}
use mfstools.Zonemap.Update.{BlockState, state_is, no_state, zone_map_block_state, zone_map_update}
use mfstools.Log.Loading.{LogEntry}
use mfstools.Log.Loading.Pieces.{IsEntry}
use mfstools.Log.Replay.{
  LogHandle, transtype, entry_word, entry_dword, lt_map_update, lt_map_update64, update_map,
  commit_entry,
}
use mfstools.Log.Replay.Encoding.{one_if, zone_entry}
use mfstools.Log.Replay.Fields.{
  given, entry32, entry64, zone_entry_32-Says, zone_entry_32-fields, zone_entry_64-Says,
  zone_entry_64-fields,
}

module _ (mfs_lsb arch_lsb : Bool) {S : Type 0} (drive : Drive S) (zones : InodeZones)
    (h : LogHandle S) where
  -- What replaying an entry for a block comes to.
  abbrev pub applied : ℕ → ℕ → Bool → ℕ → Bool × LogHandle S
  applied sector size state logstamp =
      let (result, maps) = zone_map_update h.maps sector size state logstamp in
      (leb 1 result, record h { maps = maps })

  update_map-one_if :
      (sector size logstamp : ℕ) (state : Bool)
      → update_map mfs_lsb arch_lsb drive zones h sector size (one_if state) logstamp
        ≡ applied sector size state logstamp
  unfolding update_map
  update_map-one_if sector size logstamp true = refl
  update_map-one_if sector size logstamp false = refl

  commit_entry-32 :
      (e : LogEntry)
      → transtype mfs_lsb arch_lsb e ≡ lt_map_update
      → commit_entry mfs_lsb arch_lsb drive zones h e
        ≡ update_map mfs_lsb arch_lsb drive zones h
            (entry_word mfs_lsb arch_lsb 30 e.bytes)
            (entry_word mfs_lsb arch_lsb 34 e.bytes)
            (entry_word mfs_lsb arch_lsb 26 e.bytes)
            e.logstamp
  unfolding commit_entry
  commit_entry-32 e t = rw (t) refl

  commit_entry-64 :
      (e : LogEntry)
      → transtype mfs_lsb arch_lsb e ≡ lt_map_update64
      → commit_entry mfs_lsb arch_lsb drive zones h e
        ≡ update_map mfs_lsb arch_lsb drive zones h
            (entry_dword mfs_lsb arch_lsb 34 e.bytes)
            (entry_dword mfs_lsb arch_lsb 42 e.bytes)
            (entry_word mfs_lsb arch_lsb 26 e.bytes)
            e.logstamp
  unfolding commit_entry
  commit_entry-64 e t = rw (t) refl

  -- An entry that is as long as it says, and replays as an update of the block.
  abbrev pub Replayed : ℕ → ℕ → Bool → ℕ → List ℕ → Type 0
  Replayed sector size state logstamp entry =
      IsEntry mfs_lsb arch_lsb entry
      × (commit_entry mfs_lsb arch_lsb drive zones h (record { logstamp = logstamp; bytes = entry })
          ≡ applied sector size state logstamp)

  module _ (bootcycle bootsecs fsid sector size : ℕ) (state : Bool) (logstamp : ℕ) where
    zone_entry_32-Replayed :
        sector < 2 ^ 32
        → size < 2 ^ 32
        → Replayed sector size state logstamp
            (entry32 mfs_lsb bootcycle bootsecs fsid sector size state arch_lsb)
    zone_entry_32-Replayed a b =
        let says = zone_entry_32-Says mfs_lsb bootcycle bootsecs fsid sector size state arch_lsb in
        let fields =
          zone_entry_32-fields mfs_lsb bootcycle bootsecs fsid sector size state arch_lsb a b in
        (
          says.is_entry,
          commit_entry-32
                (record {
                  logstamp = logstamp;
                  bytes = entry32 mfs_lsb bootcycle bootsecs fsid sector size state arch_lsb;
                })
                says.type_eq
              ∙ ap₂
                  (λ (s n : ℕ).
                    update_map mfs_lsb arch_lsb drive zones h s n
                      (entry_word mfs_lsb arch_lsb 26
                        (entry32 mfs_lsb bootcycle bootsecs fsid sector size state arch_lsb))
                      logstamp)
                  fields.0 fields.1
              ∙ ap (λ (n : ℕ). update_map mfs_lsb arch_lsb drive zones h sector size n logstamp)
                  says.remove_eq
              ∙ update_map-one_if sector size logstamp state,
        )

    zone_entry_64-Replayed :
        (oldstate : Bool)
        → sector < 2 ^ 64
        → size < 2 ^ 64
        → Replayed sector size state logstamp
            (entry64 mfs_lsb bootcycle bootsecs fsid sector size state arch_lsb oldstate)
    zone_entry_64-Replayed oldstate a b =
        let says =
          zone_entry_64-Says mfs_lsb bootcycle bootsecs fsid sector size state arch_lsb oldstate in
        let fields =
          zone_entry_64-fields mfs_lsb bootcycle bootsecs fsid sector size state arch_lsb oldstate a
            b in
        (
          says.is_entry,
          commit_entry-64
                (record {
                  logstamp = logstamp;
                  bytes =
                      entry64 mfs_lsb bootcycle bootsecs fsid sector size state arch_lsb oldstate;
                })
                says.type_eq
              ∙ ap₂
                  (λ (s n : ℕ).
                    update_map mfs_lsb arch_lsb drive zones h s n
                      (entry_word mfs_lsb arch_lsb 26 (
                        entry64 mfs_lsb bootcycle bootsecs fsid sector size state arch_lsb
                          oldstate))
                      logstamp)
                  fields.0 fields.1
              ∙ ap (λ (n : ℕ). update_map mfs_lsb arch_lsb drive zones h sector size n logstamp)
                  says.remove_eq
              ∙ update_map-one_if sector size logstamp state,
        )

    by_width :
        (entry : List ℕ) (is_64 : Bool) (old : BlockState)
        → sector < (if is_64 then 2 ^ 64 else 2 ^ 32)
        → size < (if is_64 then 2 ^ 64 else 2 ^ 32)
        → (if is_64
            then elim old [
              | state_is oldstate ↦
                  some (entry64 mfs_lsb bootcycle bootsecs fsid sector size state arch_lsb oldstate)
              | no_state e ↦ none
            ]
            else some (entry32 mfs_lsb bootcycle bootsecs fsid sector size state arch_lsb))
          ≡ some entry
        → Replayed sector size state logstamp entry
    by_width entry true (no_state e) a b c = absurd (ground (arith, c))
    by_width entry true (state_is oldstate) a b c =
        rw (← ap (given entry) c) (zone_entry_64-Replayed oldstate a b)
    by_width entry false old a b c = rw (← ap (given entry) c) (zone_entry_32-Replayed a b)

  -- The entry that mfs_log_zone_update makes for a block, of a sector and a size within the width of
  -- the drive, has even length and says how long it is, and replaying it is mfs_zone_map_update of the
  -- same block and state, with the stamp of its log sector.
  pub commit_entry-zone_entry :
      (maps : MfsHandle) (bootcycle bootsecs fsid sector size : ℕ) (state : Bool) (entry : List ℕ)
      (logstamp : ℕ)
      → sector < (if maps.is_64 then 2 ^ 64 else 2 ^ 32)
      → size < (if maps.is_64 then 2 ^ 64 else 2 ^ 32)
      → zone_entry mfs_lsb arch_lsb bootcycle bootsecs maps fsid sector size state ≡ some entry
      → Replayed sector size state logstamp entry
  unfolding zone_entry
  commit_entry-zone_entry maps bootcycle bootsecs fsid sector size state entry logstamp =
      by_width bootcycle bootsecs fsid sector size state logstamp entry maps.is_64
        (zone_map_block_state maps sector size).0
