-- ===== src/Log/Loading/Cycle.antt =====
-- A commit on a device: what is added to the log between two commits is what the second loads.
use mfstools.Base.{
  ℕ, suc, ◌+◌, ◌*◌, ◌^◌, ◌≤◌, ◌<◌, ◌≡◌, refl, Bool, Option, none, some, List, [], ◌∷◌, ◌++◌, arith,
  length, length-append, u32,
}
use mfstools.Inode.{Sector, Drive}
use mfstools.Inode.Runs.Reading.{Serves}
use mfstools.Inode.Runs.Stored.{Stores}
use mfstools.Log.{CurrentLog, body_size, LogArea, log_read, end_log}
use mfstools.Log.Rounds.{Ready, Stamped}
use mfstools.Log.Loading.{loaded, log_load_list}
use mfstools.Log.Loading.Carrying.{Continues-start}
use mfstools.Log.Loading.Sessions.{
  AllFit, Session, add_entries, AreEntries, bytes_of, total, Session-of, AddsUp, add_entries-AddsUp,
  AllFit-append,
}
use mfstools.Log.Loading.Committed.{committed, start}
use mfstools.Log.Loading.Device.{Numbered, write_logs, write_logs-Recorded}

module _ {S : Type 0} (drive : Drive S) (size : ℕ) (content : S → ℕ → Sector)
    (small : size < 2 ^ 64) (stores : Stores drive size content)
    (serves : (s : S) → Serves drive s size (content s)) (mfs_lsb arch_lsb : Bool) (area : LogArea)
    (some_sectors : 0 < area.nsectors) (inside : area.start + area.nsectors ≤ size) where
  Numbered-end :
      (logs : List CurrentLog) (log : CurrentLog) (n : ℕ)
      → Stamped n logs log
      → n + length logs < 2 ^ 32
      → Numbered n (logs ++ (end_log log ∷ []))
  unfolding Stamped Numbered end_log
  Numbered-end [] log n h o = (h, tt)
  Numbered-end (w ∷ logs) log n h o =
      (h.0, Numbered-end logs log (suc n) (rw (next) h.1) (omega arith))
    where
      next : suc n ≡ u32 (n + 1)
      next = omega arith

  -- What a session of entries and the commit behind it come to, on the device.
  abbrev pub Loads : S → CurrentLog → List (List ℕ) → ℕ → Session → Type 0
  Loads s log more last_sync session =
      let s' =
        write_logs drive mfs_lsb arch_lsb area s
          (session.written ++ (end_log session.current ∷ [])) in
      (bytes_of session.entries ≡ more)
      × (log_load_list mfs_lsb arch_lsb (log_read drive mfs_lsb arch_lsb area s') area.nsectors
            last_sync log.logstamp session.current.logstamp
          ≡ loaded session.entries)

  loads :
      (s : S) (log : CurrentLog) (more : List (List ℕ)) (last_sync : ℕ) (session : Session)
      → Session-of mfs_lsb arch_lsb log more start [] session
      → log.size ≡ 0
      → log.logstamp + area.nsectors < 2 ^ 32
      → total more < body_size * area.nsectors
      → Loads s log more last_sync session
  unfolding AllFit end_log
  loads s log more last_sync session so z stamps room = (
    so.same,
    committed mfs_lsb arch_lsb (log_read drive mfs_lsb arch_lsb area _) log more session
        area.nsectors last_sync so (omega (arith, stamps, few)) few
        (write_logs-Recorded drive size content small stores serves mfs_lsb arch_lsb area
          some_sectors inside (session.written ++ (end_log session.current ∷ [])) s log.logstamp
          (Numbered-end session.written session.current log.logstamp so.stamps
            (omega (arith, stamps, few)))
          last_fit (omega (arith, longer, few, stamps)) (omega (arith, longer, few))),
  )
    where
      few : length session.written < area.nsectors
      few = omega (arith, so.counted, z, room)

      last_fit : AllFit (session.written ++ (end_log session.current ∷ []))
      last_fit = AllFit-append session.written (end_log session.current ∷ []) so.fits (
        record {
          first_fits = so.last_fits;
          size_fits = omega (arith, so.ready.has_room, so.even);
          whole = so.ready.whole;
        },
        tt,
      )

      longer :
          length (session.written ++ (end_log session.current ∷ [])) ≡ length session.written + 1
      longer = length-append session.written (end_log session.current ∷ [])

  -- A log sector that holds nothing, a ring within a device that keeps what is written, and entries of
  -- even length, longer than the half word that says so, that have room in the ring: adding them one
  -- after the other succeeds, and when the sectors written on the way and at last the current one, ended
  -- as mfs_log_commit ends it, are on the device, loading the list from the first stamp to the last gives
  -- just these entries in their order, each with the stamp of the sector that it started in. No stamp is
  -- to wrap around.
  pub log_load_list-add_entries :
      (s : S) (log : CurrentLog) (more : List (List ℕ)) (last_sync : ℕ)
      → AreEntries mfs_lsb arch_lsb more
      → Ready log
      → log.first ≡ 0
      → log.size ≡ 0
      → log.logstamp + area.nsectors < 2 ^ 32
      → total more < body_size * area.nsectors
      → (session : Session) × (add_entries mfs_lsb arch_lsb log more ≡ some session)
        × Loads s log more last_sync session
  log_load_list-add_entries s log more last_sync w ready f z stamps room =
      go (add_entries mfs_lsb arch_lsb log more) refl (
        add_entries-AddsUp mfs_lsb arch_lsb log more start [] w ready (omega (arith, z))
          (omega (arith, f)) (Continues-start mfs_lsb arch_lsb log [] 0 f z))
    where
      go :
          (o : Option Session)
          → add_entries mfs_lsb arch_lsb log more ≡ o
          → AddsUp mfs_lsb arch_lsb log more start [] o
          → (session : Session) × (add_entries mfs_lsb arch_lsb log more ≡ some session)
            × Loads s log more last_sync session
      go none e h = unfold AddsUp in absurd h
      go (some session) e h =
          unfold AddsUp in (session, e, loads s log more last_sync session h z stamps room)
