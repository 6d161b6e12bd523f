-- ===== src/Log/Loading/Continuing.antt =====
-- The reader in the sector that the log stands at: whatever is put behind what the log holds, it gets to
-- the end of that with the entries that are in the log.
use mfstools.Base.{
  ℕ, zero, suc, ◌+◌, ◌-◌, ◌≤◌, ◌<◌, ◌≡◌, sym, ap, ◌∙◌, Bool, List, [], ◌∷◌, ◌++◌, arith, take, drop,
  length,
}
use mfstools.Inode.{Sector, field}
use mfstools.Inode.Runs.Slices.{take_all}
use mfstools.Log.{CurrentLog}
use mfstools.Log.Rounds.{data_of}
use mfstools.Log.Loading.{
  hdr_size, first_word, size_word, LogEntry, Reader, next_entry, read_entries, load_sector,
  copy_part, link,
}
use mfstools.Log.Loading.Rounds.{read_entries_whole}
use mfstools.Log.Loading.Pieces.{IsEntry, take_at, take_before, pending, next_entry_lem}

module _ (mfs_lsb arch_lsb : Bool) where
  -- A sector that begins as the log does.
  pub record Extends (buf : Sector) (log : CurrentLog) : Type 0 where
    pub first : field mfs_lsb arch_lsb first_word buf ≡ log.first
    pub begins : take log.size (drop hdr_size buf) ≡ data_of log
    pub longer : log.size ≤ field mfs_lsb arch_lsb size_word buf
    pub some_bytes : 2 ≤ field mfs_lsb arch_lsb size_word buf

  pub record Continued (buf : Sector) (log : CurrentLog) (r : Reader) (entries : List LogEntry)
      : Type 0 where
    pub fuel : ℕ
    pub enough : field mfs_lsb arch_lsb size_word buf - log.size < fuel
    pub runs :
        load_sector mfs_lsb arch_lsb log.logstamp buf r
        ≡ read_entries mfs_lsb arch_lsb fuel log.logstamp buf log.size
            (next_entry mfs_lsb arch_lsb log.logstamp buf log.size entries)

  abbrev pub Continues : CurrentLog → Reader → List LogEntry → Type 0
  Continues log r entries = (buf : Sector) → Extends buf log → Continued buf log r entries

  -- A round that completes the entry, when the rest of its bytes are next.
  pub complete :
      (fuel stamp st : ℕ) (buf : Sector) (curstart left : ℕ) (entries : List LogEntry)
      (bytes rest : List ℕ)
      → 0 < left
      → curstart + left ≤ field mfs_lsb arch_lsb size_word buf
      → take left (drop (curstart + hdr_size) buf) ≡ rest
      → read_entries mfs_lsb arch_lsb (suc fuel) stamp buf curstart (pending entries st bytes left)
        ≡ read_entries mfs_lsb arch_lsb fuel stamp buf (curstart + left) (
            next_entry mfs_lsb arch_lsb stamp buf
              (curstart + left)
              (entries ++ (record { logstamp = st; bytes = bytes ++ rest } ∷ [])))
  unfolding copy_part link
  complete fuel stamp st buf curstart left entries bytes rest h fits e =
      read_entries_whole mfs_lsb arch_lsb fuel stamp buf curstart (pending entries st bytes left)
        (omega arith) h (omega arith)
      ∙ ap
          (λ (t : List ℕ). read_entries mfs_lsb arch_lsb fuel stamp buf (curstart + left) (
            next_entry mfs_lsb arch_lsb stamp buf (curstart + left)
              (entries ++ (record { logstamp = st; bytes = bytes ++ t } ∷ []))))
          e

  -- An entry that fits behind what the log holds.
  pub Continues-fits :
      (log log' : CurrentLog) (r : Reader) (entries : List LogEntry) (entry : List ℕ)
      → IsEntry mfs_lsb arch_lsb entry
      → length (data_of log) ≡ log.size
      → log'.logstamp ≡ log.logstamp
      → log'.first ≡ log.first
      → log'.size ≡ log.size + length entry
      → data_of log' ≡ data_of log ++ entry
      → Continues log r entries
      → Continues log' r (entries ++ (record { logstamp = log.logstamp; bytes = entry } ∷ []))
  Continues-fits log log' r entries entry w l stamps firsts sizes bytes before buf x =
      go c.fuel c.enough c.runs
    where
      begins : take log'.size (drop hdr_size buf) ≡ data_of log ++ entry
      begins = x.begins ∙ bytes

      held : Extends buf log
      held = record {
        first = x.first ∙ firsts;
        begins = take_before log'.size log.size (drop hdr_size buf) (data_of log) entry begins l;
        longer = omega (arith, x.longer, sizes);
        some_bytes = x.some_bytes;
      }

      c : Continued buf log r entries
      c = before buf held

      at_entry : take (length entry) (drop (log.size + hdr_size) buf) ≡ entry
      at_entry = take_at buf log.size (length entry) log'.size (data_of log) entry sizes begins l

      go :
          (fuel : ℕ)
          → field mfs_lsb arch_lsb size_word buf - log.size < fuel
          → load_sector mfs_lsb arch_lsb log.logstamp buf r
            ≡ read_entries mfs_lsb arch_lsb fuel log.logstamp buf log.size
                (next_entry mfs_lsb arch_lsb log.logstamp buf log.size entries)
          → Continued buf log' r
              (entries ++ (record { logstamp = log.logstamp; bytes = entry } ∷ []))
      go zero enough runs = absurd (omega (arith, enough))
      go (suc fuel) enough runs = record {
        fuel = fuel;
        enough = omega (arith, enough, sizes, w.longer, x.longer);
        runs =
            rw (stamps, sizes)
              (runs
                ∙ ap (read_entries mfs_lsb arch_lsb (suc fuel) log.logstamp buf log.size) (
                    next_entry_lem mfs_lsb arch_lsb log.logstamp buf log.size entries entry
                      (length entry) w (omega (arith, w.longer))
                      (omega (arith, x.longer, sizes, w.longer))
                      (at_entry ∙ sym (take_all (length entry) entry (omega arith))))
                ∙ complete fuel log.logstamp log.logstamp buf log.size (length entry) entries []
                    entry (omega (arith, w.longer)) (omega (arith, x.longer, sizes)) at_entry);
      }
