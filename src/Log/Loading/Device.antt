-- ===== src/Log/Loading/Device.antt =====
-- Sectors of the log that are written one after the other to the ring, and read from it.
use mfstools.Base.{
  ℕ, suc, ◌+◌, ◌*◌, ◌/◌, ◌%◌, ◌^◌, ◌≤◌, ◌<◌, ◌≡◌, ◌≢◌, refl, sym, ap, ◌∙◌, Bool, true, false, List,
  [], ◌∷◌, ◌++◌, arith, length,
}
use native.Mathlib.Decide.{dec_lt}
use native.Mathlib.Nat.{div-add-mod, mul-le-mul_left, mul-suc}
use mfstools.Util.{intswap32}
use mfstools.Util.Swaps.{intswap32_twice}
use mfstools.Crc.{word_at, word_bytes, store, mfs_update_crc}
use mfstools.Inode.{Sector, Drive, field}
use mfstools.Inode.Runs.Reading.{Serves}
use mfstools.Inode.Runs.Stored.{Stores}
use mfstools.Log.{CurrentLog, LogArea, logstamp_word, crc_word, log_read, log_write}
use mfstools.Log.Ring.{log_read-log_write}
use mfstools.Log.Loading.Carrying.{Holds}
use mfstools.Log.Loading.Sessions.{Fits, AllFit}
use mfstools.Log.Loading.Committed.{Recorded}

-- The bytes of the current log: its header and its body. The checksum is put in when it is written.
unfoldable pub log_bytes : Bool → Bool → CurrentLog → Sector
log_bytes mfs_lsb arch_lsb log =
    word_bytes arch_lsb (intswap32 mfs_lsb arch_lsb log.logstamp)
    ++ (word_bytes arch_lsb 0xdeadf00d
        ++ (word_bytes arch_lsb (intswap32 mfs_lsb arch_lsb log.first)
            ++ (word_bytes arch_lsb (intswap32 mfs_lsb arch_lsb log.size) ++ log.body)))

-- Two numbers that are less than `k` apart.
mod-apart : (m n k : ℕ) → m < n → n < m + k → m % k ≢ n % k
mod-apart m n k h l e = elim (dec_lt (m / k) (n / k)) [
  | yes less ↦
      omega
        (arith, div-add-mod m k, div-add-mod n k, e, l, mul-le-mul_left k less, mul-suc k (m / k))
  | no more ↦ omega (
    arith,
    div-add-mod m k,
    div-add-mod n k,
    e,
    h,
    mul-le-mul_left {m = n / k} {n = m / k} k (omega (arith, more)),
  )
]

module _ (mfs_lsb : Bool) where
  -- A word that is stored by its bytes and read back.
  word_back :
      (arch_lsb : Bool) (n : ℕ)
      → n < 2 ^ 32
      → let m = intswap32 mfs_lsb arch_lsb n in
        intswap32 mfs_lsb arch_lsb (
          m % 2 ^ 8
          + 2 ^ 8 * (m / 2 ^ 8 % 2 ^ 8)
          + 2 ^ 16 * (m / 2 ^ 16 % 2 ^ 8)
          + 2 ^ 24 * (m / 2 ^ 24 % 2 ^ 8))
        ≡ n
  word_back arch_lsb n h =
      ap (intswap32 mfs_lsb arch_lsb) (omega (arith, (intswap32_twice mfs_lsb arch_lsb n h).1))
      ∙ (intswap32_twice mfs_lsb arch_lsb n h).0

  field-log_bytes :
      (arch_lsb : Bool) (log : CurrentLog)
      → log.logstamp < 2 ^ 32
      → field mfs_lsb arch_lsb logstamp_word (log_bytes mfs_lsb arch_lsb log) ≡ log.logstamp
  unfolding log_bytes word_bytes word_at
  field-log_bytes true log h = word_back true log.logstamp h
  field-log_bytes false log h = word_back false log.logstamp h

  log_bytes-Holds :
      (arch_lsb : Bool) (log : CurrentLog)
      → Fits log
      → Holds mfs_lsb arch_lsb
          (mfs_update_crc mfs_lsb arch_lsb (log_bytes mfs_lsb arch_lsb log) crc_word)
          log
  unfolding log_bytes word_bytes word_at mfs_update_crc store
  log_bytes-Holds true log f = record {
    first = word_back true log.first (omega (arith, f.first_fits));
    size = word_back true log.size (omega (arith, f.size_fits));
    body = refl;
  }
  log_bytes-Holds false log f = record {
    first = word_back false log.first (omega (arith, f.first_fits));
    size = word_back false log.size (omega (arith, f.size_fits));
    body = refl;
  }

  length-log_bytes :
      (arch_lsb : Bool) (log : CurrentLog)
      → Fits log
      → length (log_bytes mfs_lsb arch_lsb log) ≡ 512
  unfolding log_bytes word_bytes
  length-log_bytes true log f = omega (arith, f.whole)
  length-log_bytes false log f = omega (arith, f.whole)

-- The stamps of sectors that are written one after the other.
unfoldable pub Numbered : ℕ → List CurrentLog → Type 0
Numbered n [] = Unit
Numbered n (w ∷ logs) = (w.logstamp ≡ n) × Numbered (suc n) logs

module _ {S : Type 0} (drive : Drive S) (mfs_lsb arch_lsb : Bool) (area : LogArea) where
  -- The sectors that mfs_log_add_entry and mfs_log_commit hand to mfs_log_write.
  unfoldable pub write_logs : S → List CurrentLog → S
  write_logs s [] = s
  write_logs s (w ∷ logs) =
      write_logs (log_write drive mfs_lsb arch_lsb area s (log_bytes mfs_lsb arch_lsb w)).1 logs

module _ {S : Type 0} (drive : Drive S) (size : ℕ) (content : S → ℕ → Sector)
    (small : size < 2 ^ 64) (stores : Stores drive size content)
    (serves : (s : S) → Serves drive s size (content s)) (mfs_lsb arch_lsb : Bool) (area : LogArea)
    (some_sectors : 0 < area.nsectors) (inside : area.start + area.nsectors ≤ size) where
  -- The sectors leave a sector in place that the ring has room for besides them.
  kept :
      (logs : List CurrentLog) (s : S) (m n : ℕ)
      → Numbered n logs
      → AllFit logs
      → n + length logs < 2 ^ 32
      → m < n
      → n + length logs ≤ m + area.nsectors
      → log_read drive mfs_lsb arch_lsb area (write_logs drive mfs_lsb arch_lsb area s logs) m
        ≡ log_read drive mfs_lsb arch_lsb area s m
  unfolding write_logs Numbered AllFit
  kept [] s m n h f o l k = refl
  kept (w ∷ logs) s m n h f o l k =
      kept logs (log_write drive mfs_lsb arch_lsb area s (log_bytes mfs_lsb arch_lsb w)).1 m (suc n)
        h.1 f.1 (omega arith) (omega arith) (omega arith)
      ∙ (log_read-log_write drive size content small stores serves mfs_lsb arch_lsb area
            some_sectors inside s (log_bytes mfs_lsb arch_lsb w) m
            (length-log_bytes mfs_lsb arch_lsb w f.0)).3
          apart
    where
      apart :
          m % area.nsectors
          ≢ field mfs_lsb arch_lsb logstamp_word (log_bytes mfs_lsb arch_lsb w) % area.nsectors
      apart e = mod-apart m n area.nsectors l (omega (arith, k)) (
          e
          ∙ ap (λ (j : ℕ). j % area.nsectors)
              (field-log_bytes mfs_lsb arch_lsb w (omega (arith, h.0, o)) ∙ h.0))

  pub write_logs-Recorded :
      (logs : List CurrentLog) (s : S) (n : ℕ)
      → Numbered n logs
      → AllFit logs
      → n + length logs < 2 ^ 32
      → length logs ≤ area.nsectors
      → Recorded mfs_lsb arch_lsb
          (log_read drive mfs_lsb arch_lsb area (write_logs drive mfs_lsb arch_lsb area s logs))
          logs
  unfolding write_logs Numbered AllFit Recorded
  write_logs-Recorded [] s n h f o k = tt
  write_logs-Recorded (w ∷ logs) s n h f o k = (
    record {
      buf = mfs_update_crc mfs_lsb arch_lsb (log_bytes mfs_lsb arch_lsb w) crc_word;
      found =
          kept logs s' w.logstamp (suc n) h.1 f.1 (omega arith) (omega (arith, h.0))
            (omega (arith, h.0, k))
          ∙ ap (log_read drive mfs_lsb arch_lsb area s') (sym stamp)
          ∙ (log_read-log_write drive size content small stores serves mfs_lsb arch_lsb area
              some_sectors inside s (log_bytes mfs_lsb arch_lsb w) 0
              (length-log_bytes mfs_lsb arch_lsb w f.0)).1;
      holds = log_bytes-Holds mfs_lsb arch_lsb w f.0;
    },
    write_logs-Recorded logs s' (suc n) h.1 f.1 (omega arith) (omega arith),
  )
    where
      s' : S
      s' = (log_write drive mfs_lsb arch_lsb area s (log_bytes mfs_lsb arch_lsb w)).1

      stamp : field mfs_lsb arch_lsb logstamp_word (log_bytes mfs_lsb arch_lsb w) ≡ w.logstamp
      stamp = field-log_bytes mfs_lsb arch_lsb w (omega (arith, h.0, o))
