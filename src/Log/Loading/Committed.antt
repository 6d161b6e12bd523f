-- ===== src/Log/Loading/Committed.antt =====
-- What is written by a commit is what it loads.
use mfstools.Base.{
  ℕ, zero, suc, ◌+◌, ◌-◌, ◌^◌, ◌≤◌, ◌<◌, ◌≡◌, inl, refl, sym, ap, ap₂, ◌∙◌, Bool, true, false, none,
  List, [], ◌∷◌, ◌++◌, arith, leb, get_or, take, drop, replicate, length, u32,
}
use mfstools.Util.{intswap16, endian16_swap}
use mfstools.Inode.{Sector, field}
use mfstools.Inode.Directory.{half_at}
use mfstools.Log.{CurrentLog, body_size, end_log, LogRead, log_sector}
use mfstools.Log.Bytes.{drop-drop}
use mfstools.Log.Rounds.{Ready, Stamped}
use mfstools.Log.Loading.{
  hdr_size, size_word, LogEntry, Reader, reading, loaded, as_loaded, first_stamp, start_entry,
  next_entry, read_entries, load_sector, load_sectors, log_load_list, copy_part, link,
}
use mfstools.Log.Loading.Rounds.{read_entries_stop, read_entries_whole}
use mfstools.Log.Loading.Pieces.{next_entry_room, next_entry_end}
use mfstools.Log.Loading.Continuing.{Continued, Continues}
use mfstools.Log.Loading.Carrying.{Holds}
use mfstools.Log.Loading.RoundTrip.{Runs}
use mfstools.Log.Loading.Sessions.{Session, Session-of}

get_or-zeros : (n i : ℕ) → get_or {A = ℕ} (replicate n 0) i 0 ≡ 0
get_or-zeros zero i = refl
get_or-zeros (suc n) zero = refl
get_or-zeros (suc n) (suc i) = get_or-zeros n i

intswap16_zero : (mfs_lsb arch_lsb : Bool) → intswap16 mfs_lsb arch_lsb 0 ≡ 0
unfolding intswap16 endian16_swap
intswap16_zero true true = refl
intswap16_zero true false = refl
intswap16_zero false true = refl
intswap16_zero false false = refl

half_at-zeros : (arch_lsb : Bool) (n : ℕ) → half_at arch_lsb (replicate n 0) 0 ≡ 0
half_at-zeros true n = omega (arith, get_or-zeros n 0, get_or-zeros n 1)
half_at-zeros false n = omega (arith, get_or-zeros n 0, get_or-zeros n 1)

-- The reader at the start of a list.
abbrev pub start : Reader
start = record { entries = []; cur = none; remaining = 0 }

module _ (mfs_lsb arch_lsb : Bool) where
  -- The zero length entry is read past.
  start_entry_zero :
      (stamp : ℕ) (buf : Sector) (curstart n : ℕ) (entries : List LogEntry)
      → drop (curstart + hdr_size) buf ≡ replicate n 0
      → start_entry mfs_lsb arch_lsb stamp buf curstart entries
        ≡ record { entries = entries; cur = none; remaining = 2 }
  unfolding start_entry
  start_entry_zero stamp buf curstart n entries e = rw (e) (ground (arith, total))
    where
      total : intswap16 mfs_lsb arch_lsb (half_at arch_lsb (replicate n 0) 0) + 2 ≡ 2
      total =
          ap (λ (k : ℕ). intswap16 mfs_lsb arch_lsb k + 2) (half_at-zeros arch_lsb n)
          ∙ ap (λ (k : ℕ). k + 2) (intswap16_zero mfs_lsb arch_lsb)

  finish :
      (log : CurrentLog) (r : Reader) (entries : List LogEntry) (buf : Sector)
      → Ready log
      → Continues mfs_lsb arch_lsb log r entries
      → Holds mfs_lsb arch_lsb buf (end_log log)
      → load_sector mfs_lsb arch_lsb log.logstamp buf r
        ≡ reading (record { entries = entries; cur = none; remaining = 0 })
  unfolding end_log copy_part link
  finish log r entries buf ready h held = go c.fuel c.enough c.runs
    where
      size_eq : field mfs_lsb arch_lsb size_word buf ≡ log.size + 2
      size_eq = omega (arith, held.size, ready.has_room)

      c : Continued mfs_lsb arch_lsb buf log r entries
      c = h buf (record {
        first = held.first;
        begins = ap (take log.size) held.body;
        longer = omega (arith, size_eq);
        some_bytes = omega (arith, size_eq);
      })

      zeros : drop (log.size + hdr_size) buf ≡ replicate (body_size - log.size) 0
      zeros =
          ap (λ (k : ℕ). drop k buf) turned
          ∙ sym (drop-drop hdr_size log.size buf)
          ∙ ap (drop log.size) held.body
          ∙ ready.blank
        where
          turned : log.size + hdr_size ≡ hdr_size + log.size
          turned = omega arith

      go :
          (fuel : ℕ)
          → field mfs_lsb arch_lsb size_word buf - log.size < fuel
          → load_sector mfs_lsb arch_lsb log.logstamp buf r
            ≡ read_entries mfs_lsb arch_lsb fuel log.logstamp buf log.size
                (next_entry mfs_lsb arch_lsb log.logstamp buf log.size entries)
          → load_sector mfs_lsb arch_lsb log.logstamp buf r
            ≡ reading (record { entries = entries; cur = none; remaining = 0 })
      go zero enough runs = absurd (omega (arith, enough))
      go (suc zero) enough runs = absurd (omega (arith, enough, size_eq))
      go (suc (suc fuel)) enough runs =
          runs
          ∙ ap (read_entries mfs_lsb arch_lsb (suc (suc fuel)) log.logstamp buf log.size) (
              next_entry_room mfs_lsb arch_lsb log.logstamp buf log.size entries
                (omega (arith, size_eq))
              ∙ start_entry_zero log.logstamp buf log.size (body_size - log.size) entries zeros)
          ∙ read_entries_whole mfs_lsb arch_lsb (suc fuel) log.logstamp buf log.size
              (record { entries = entries; cur = none; remaining = 2 }) (omega (arith, size_eq))
              (omega arith) (omega (arith, size_eq))
          ∙ ap (read_entries mfs_lsb arch_lsb (suc fuel) log.logstamp buf (log.size + 2)) (
              next_entry_end mfs_lsb arch_lsb log.logstamp buf (log.size + 2) entries
                (omega (arith, size_eq)))
          ∙ read_entries_stop mfs_lsb arch_lsb fuel log.logstamp buf (log.size + 2) _ (inl refl)

  module _ (read : ℕ → LogRead) where
    -- A log that was written is read at its stamp.
    pub record Answers (log : CurrentLog) : Type 0 where
      pub buf : Sector
      pub found : read log.logstamp ≡ log_sector buf
      pub holds : Holds mfs_lsb arch_lsb buf log

    unfoldable pub Recorded : List CurrentLog → Type 0
    Recorded [] = Unit
    Recorded (w ∷ logs) = Answers w × Recorded logs

    load_sectors_step :
        (fuel n end : ℕ) (r r' : Reader) (buf : Sector)
        → n ≤ end
        → read n ≡ log_sector buf
        → load_sector mfs_lsb arch_lsb n buf r ≡ reading r'
        → load_sectors mfs_lsb arch_lsb read (suc fuel) n end r
          ≡ load_sectors mfs_lsb arch_lsb read fuel (u32 (n + 1)) end r'
    unfolding load_sectors
    load_sectors_step fuel n end r r' buf h found stepped = rw (inside, found, stepped) refl
      where
        inside : leb n end ≡ true
        inside = ground (arith, h)

    load_sectors_past :
        (fuel n end : ℕ) (r : Reader)
        → end < n
        → load_sectors mfs_lsb arch_lsb read (suc fuel) n end r ≡ reading r
    unfolding load_sectors
    load_sectors_past fuel n end r h = rw (outside) refl
      where
        outside : leb n end ≡ false
        outside = ground (arith, h)

    load_sectors-Runs :
        (logs : List CurrentLog) (log : CurrentLog) (n fuel end : ℕ) (r r' : Reader)
        → Stamped n logs log
        → Recorded logs
        → Runs mfs_lsb arch_lsb logs r r'
        → n + length logs ≤ end
        → end < 2 ^ 32
        → load_sectors mfs_lsb arch_lsb read (length logs + fuel) n end r
          ≡ load_sectors mfs_lsb arch_lsb read fuel (n + length logs) end r'
    unfolding Stamped Recorded Runs
    load_sectors-Runs [] log n fuel end r r' s k h l m =
        ap (λ (j : ℕ). load_sectors mfs_lsb arch_lsb read j n end r) all
        ∙ ap₂ (λ (j : ℕ) (t : Reader). load_sectors mfs_lsb arch_lsb read fuel j end t) here h
      where
        all : 0 + fuel ≡ fuel
        all = omega arith

        here : n ≡ n + 0
        here = omega arith
    load_sectors-Runs (w ∷ logs) log n fuel end r r' s k h l m =
        ap (λ (j : ℕ). load_sectors mfs_lsb arch_lsb read j n end r) one_more
        ∙ load_sectors_step (length logs + fuel) n end r h.0 k.0.buf (omega arith)
            (ap read (sym s.0) ∙ k.0.found)
            (ap (λ (j : ℕ). load_sector mfs_lsb arch_lsb j k.0.buf r) (sym s.0)
              ∙ h.1 k.0.buf k.0.holds)
        ∙ load_sectors-Runs logs log (u32 (n + 1)) fuel end h.0 r' s.1 k.1 h.2 (omega arith) m
        ∙ ap (λ (j : ℕ). load_sectors mfs_lsb arch_lsb read fuel j end r') moved
      where
        one_more : suc (length logs) + fuel ≡ suc (length logs + fuel)
        one_more = omega arith

        moved : u32 (n + 1) + length logs ≡ n + suc (length logs)
        moved = omega arith

    pub Stamped-end :
        (logs : List CurrentLog) (log : CurrentLog) (n : ℕ)
        → Stamped n logs log
        → n + length logs < 2 ^ 32
        → log.logstamp ≡ n + length logs
    unfolding Stamped
    Stamped-end [] log n s h = s ∙ omega arith
    Stamped-end (w ∷ logs) log n s h =
        Stamped-end logs log (u32 (n + 1)) s.1 (omega (arith, h)) ∙ omega (arith, h)

    Recorded-append :
        (logs : List CurrentLog) (log : CurrentLog)
        → Recorded (logs ++ (log ∷ []))
        → Recorded logs × Answers log
    unfolding Recorded
    Recorded-append [] log h = (tt, h.0)
    Recorded-append (w ∷ logs) log h =
        let (before, last) = Recorded-append logs log h.1 in ((h.0, before), last)

    -- When the sectors of a session can be read, the last as a commit ends it, the list that is loaded
    -- from its stamps is that of its entries.
    pub committed :
        (log : CurrentLog) (more : List (List ℕ)) (s : Session) (nsectors last_sync : ℕ)
        → Session-of mfs_lsb arch_lsb log more start [] s
        → log.logstamp + length s.written < 2 ^ 32 - 1
        → length s.written < nsectors
        → Recorded (s.written ++ (end_log s.current ∷ []))
        → log_load_list mfs_lsb arch_lsb read nsectors last_sync log.logstamp s.current.logstamp
          ≡ loaded s.entries
    unfolding log_load_list end_log
    committed log more s nsectors last_sync so small fits recorded =
        ap (λ (n : ℕ). as_loaded (load_sectors mfs_lsb arch_lsb read (suc nsectors) n end start))
          given
        ∙ ap as_loaded loads
      where
        end : ℕ
        end = s.current.logstamp

        end_eq : end ≡ log.logstamp + length s.written
        end_eq = Stamped-end s.written s.current log.logstamp so.stamps (omega (arith, small))

        given : first_stamp last_sync log.logstamp ≡ log.logstamp
        given = ground (arith, small)

        both : Recorded s.written × Answers (end_log s.current)
        both = Recorded-append s.written (end_log s.current) recorded

        spare : ℕ
        spare = nsectors - suc (length s.written)

        enough : suc nsectors ≡ length s.written + suc (suc spare)
        enough = omega (arith, fits)

        loads :
            load_sectors mfs_lsb arch_lsb read (suc nsectors) log.logstamp end start
            ≡ reading (record { entries = s.entries; cur = none; remaining = 0 })
        loads =
            ap (λ (n : ℕ). load_sectors mfs_lsb arch_lsb read n log.logstamp end start) enough
            ∙ load_sectors-Runs s.written s.current log.logstamp (suc (suc spare)) end start
                so.reaches.0 so.stamps both.0 so.reaches.1 (omega (arith, end_eq))
                (omega (arith, end_eq, small))
            ∙ ap
                (λ (n : ℕ). load_sectors mfs_lsb arch_lsb read (suc (suc spare)) n end so.reaches.0)
                (sym end_eq)
            ∙ load_sectors_step (suc spare) end end so.reaches.0 _ both.1.buf (omega arith)
                both.1.found
                (finish s.current so.reaches.0 s.entries both.1.buf so.ready so.reaches.2
                  both.1.holds)
            ∙ load_sectors_past spare (u32 (end + 1)) end _ (omega (arith, end_eq, small))
