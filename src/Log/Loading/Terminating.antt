-- ===== src/Log/Loading/Terminating.antt =====
-- Loading the log ends: no ring takes more rounds than it has sectors.
use mfstools.Base.{
  ◌⊎◌, inl, inr, ℕ, zero, suc, ◌+◌, ◌-◌, ◌^◌, ◌<◌, ◌≡◌, ◌≢◌, refl, sym, ap, ◌∙◌, Bool, not, Option,
  none, some, List, [], ◌∷◌, arith, leb, ◌==◌, if◌then◌else◌, u32, add64,
}
use native.Mathlib.Nat.{add-mod_right}
use native.Mathlib.Decide.{dec_lt}
use mfstools.Inode.{Sector, Drive, field}
use mfstools.Crc.{mfs_check_crc}
use mfstools.Log.{
  LogArea, log_stamp_to_sector, log_read, logstamp_word, crc_word, LogRead, log_sector, unread,
  other_stamp, wrong_checksum,
}
use mfstools.Log.Loading.{
  Reader, Loading, reading, bad_entry, no_end, load_no_end, load_sector, go_on, first_stamp,
  as_loaded, load_sectors, log_load_list,
}
use mfstools.Log.Loading.Ending.{Ends, Ends-if, Ends-go_on, load_sector-Ends}

module _ (mfs_lsb arch_lsb : Bool) where
  -- A sector that is read, or not, and what follows.
  found-Ends :
      (answer : LogRead) (start : ℕ) (r : Reader) (next : Reader → Loading)
      → ((buf : Sector) → answer ≡ log_sector buf → (r' : Reader) → Ends (next r'))
      → Ends (elim answer [
        | log_sector buf ↦ go_on (load_sector mfs_lsb arch_lsb start buf r) next
        | unread ↦ reading r
        | other_stamp ↦ reading r
        | wrong_checksum ↦ reading r
      ])
  unfolding Ends
  found-Ends unread start r next h = tt
  found-Ends other_stamp start r next h = tt
  found-Ends wrong_checksum start r next h = tt
  found-Ends (log_sector buf) start r next h =
      Ends-go_on (load_sector mfs_lsb arch_lsb start buf r) next
        (load_sector-Ends mfs_lsb arch_lsb start buf r) (h buf refl)

  module _ (read : ℕ → LogRead) where
    -- One of the next `fuel` sectors cannot be read.
    pub load_sectors-Ends :
        (fuel start end : ℕ) (r : Reader) (k : ℕ)
        → k < fuel
        → start + k < 2 ^ 32
        → ((buf : Sector) → read (start + k) ≢ log_sector buf)
        → Ends (load_sectors mfs_lsb arch_lsb read fuel start end r)
    unfolding load_sectors Ends
    load_sectors-Ends zero start end r k h small missing = absurd (omega arith)
    load_sectors-Ends (suc fuel) start end r k h small missing =
        Ends-if (leb start end)
          (elim (read start) [
            | log_sector buf ↦
                go_on (load_sector mfs_lsb arch_lsb start buf r)
                  (λ r'. load_sectors mfs_lsb arch_lsb read fuel (u32 (start + 1)) end r')
            | unread ↦ reading r
            | other_stamp ↦ reading r
            | wrong_checksum ↦ reading r
          ])
          (reading r)
          (found-Ends (read start) start r
            (λ r'. load_sectors mfs_lsb arch_lsb read fuel (u32 (start + 1)) end r')
            (λ buf e r'. elim (dec_lt 0 k) [
              | no here ↦ absurd (missing buf (ap read (first here) ∙ e))
              | yes more ↦
                  load_sectors-Ends fuel (u32 (start + 1)) end r' (k - 1) (omega arith)
                    (omega (arith, small)) (λ buf' e'. missing buf' (ap read (same more) ∙ e'))
            ]))
          tt
      where
        first : ¬ (0 < k) → start + k ≡ start
        first here = omega (arith, here)

        same : 0 < k → start + k ≡ u32 (start + 1) + (k - 1)
        same more = omega (arith, small, more)

  as_loaded-Ends : (l : Loading) → Ends l → as_loaded l ≢ load_no_end
  unfolding Ends
  as_loaded-Ends (reading r) h = λ e. ground (arith, e)
  as_loaded-Ends (bad_entry stamp) h = λ e. ground (arith, e)
  as_loaded-Ends no_end h = λ e. h

  module _ {S : Type 0} (drive : Drive S) (area : LogArea) (s : S) where
    -- A sector of the log that is read has its stamp, and stands at its place.
    log_read-stamp :
        (logstamp : ℕ) (buf : Sector)
        → log_read drive mfs_lsb arch_lsb area s logstamp ≡ log_sector buf
        → (drive.read s (log_stamp_to_sector area logstamp) 1 ≡ some (buf ∷ []))
          × (logstamp ≡ field mfs_lsb arch_lsb logstamp_word buf)
    unfolding log_read
    log_read-stamp logstamp buf e = go (drive.read s (log_stamp_to_sector area logstamp) 1) e
      where
        go :
            (answer : Option (List Sector))
            → (elim answer [
              | some (b ∷ []) ↦
                  if not (logstamp == field mfs_lsb arch_lsb logstamp_word b)
                  then other_stamp
                  else if not (mfs_check_crc mfs_lsb arch_lsb b crc_word)
                  then wrong_checksum
                  else log_sector b
              | _ ↦ unread
            ])
              ≡ log_sector buf
            → (answer ≡ some (buf ∷ [])) × (logstamp ≡ field mfs_lsb arch_lsb logstamp_word buf)
        go none h = ground (arith, h)
        go (some []) h = ground (arith, h)
        go (some (b ∷ c ∷ bs)) h = ground (arith, h)
        go (some (b ∷ [])) h = ground (arith, h)

    -- Loading the list ends, whatever the device answers, when its stamps do not wrap around: after as
    -- many sectors as the ring has the place of the first comes again, with another stamp.
    pub log_load_list-Ends :
        (last_sync start end : ℕ)
        → 0 < area.nsectors
        → first_stamp last_sync start + area.nsectors < 2 ^ 32
        → log_load_list mfs_lsb arch_lsb
            (log_read drive mfs_lsb arch_lsb area s)
            area.nsectors
            last_sync
            start
            end
          ≢ load_no_end
    unfolding log_load_list
    log_load_list-Ends last_sync start end some_sectors small =
        as_loaded-Ends
          (load_sectors mfs_lsb arch_lsb read (suc area.nsectors) first end
            (record { entries = []; cur = none; remaining = 0 }))
          (elim (read-cases first) [
            | inl missing ↦
                load_sectors-Ends read (suc area.nsectors) first end _ 0 (omega arith)
                  (omega (arith, small)) (λ buf e. missing buf (ap read unmoved ∙ e))
            | inr found ↦
                load_sectors-Ends read (suc area.nsectors) first end _ area.nsectors (omega arith)
                  small (λ buf' e'. other buf' found e')
          ])
      where
        read : ℕ → LogRead
        read = log_read drive mfs_lsb arch_lsb area s

        first : ℕ
        first = first_stamp last_sync start

        unmoved : first ≡ first + 0
        unmoved = omega arith

        -- The last of the sectors stands at the place of the first.
        other :
            (buf' : Sector)
            → (buf : Sector) × (read first ≡ log_sector buf)
            → read (first + area.nsectors) ≡ log_sector buf'
            → ⊥
        other buf' (buf, e) e' = absurd (
            ground (
              arith,
              here.1,
              there.1,
              sym here.0 ∙ ap (λ (k : ℕ). drive.read s k 1) (sym same) ∙ there.0,
            ))
          where
            here :
                (drive.read s (log_stamp_to_sector area first) 1 ≡ some (buf ∷ []))
                × (first ≡ field mfs_lsb arch_lsb logstamp_word buf)
            here = log_read-stamp first buf e

            there :
                (drive.read s (log_stamp_to_sector area (first + area.nsectors)) 1
                  ≡ some (buf' ∷ []))
                × (first + area.nsectors ≡ field mfs_lsb arch_lsb logstamp_word buf')
            there = log_read-stamp (first + area.nsectors) buf' e'

            same : log_stamp_to_sector area (first + area.nsectors) ≡ log_stamp_to_sector area first
            same =
                unfold log_stamp_to_sector in
                ap (λ k. add64 k area.start) (add-mod_right first area.nsectors)

        read-cases :
            (n : ℕ)
            → ((buf : Sector) → read n ≢ log_sector buf)
              ⊎ ((buf : Sector) × (read n ≡ log_sector buf))
        read-cases n = go (read n)
          where
            go :
                (found : LogRead)
                → ((buf : Sector) → found ≢ log_sector buf)
                  ⊎ ((buf : Sector) × (found ≡ log_sector buf))
            go unread = inl (λ buf e. ground (arith, e))
            go other_stamp = inl (λ buf e. ground (arith, e))
            go wrong_checksum = inl (λ buf e. ground (arith, e))
            go (log_sector buf) = inr (buf, refl)
