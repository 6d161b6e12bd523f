-- ===== src/Log/Loading/Carrying.antt =====
-- The reader goes on with an entry from one sector of the log to the next.
use mfstools.Base.{
  ℕ, zero, suc, ◌+◌, ◌-◌, ◌≤◌, ◌<◌, ◌≡◌, inl, refl, sym, ap, ap₂, ◌∙◌, Bool, none, List, [], ◌∷◌,
  ◌++◌, arith, take, drop, length, length-append,
}
use mfstools.Inode.{Sector, field}
use mfstools.Inode.Runs.Slices.{append-nil, take-append_within, take_all}
use mfstools.Log.{CurrentLog}
use mfstools.Log.Rounds.{data_of}
use mfstools.Log.Loading.{
  hdr_size, first_word, size_word, LogEntry, Reader, reading, next_entry, read_entries, load_sector,
  copy_part,
}
use mfstools.Log.Loading.Rounds.{
  read_entries_stop, read_entries_part, load_sector_start, load_sector_continue,
}
use mfstools.Log.Loading.Pieces.{
  IsEntry, take_at, take_before, pending, next_entry_lem, next_entry_end, next_entry_room,
}
use mfstools.Log.Loading.Continuing.{Continued, Continues, complete}

-- The reader once bytes of an entry are copied and `left` are still to come.
unfoldable pub after : List LogEntry → ℕ → List ℕ → ℕ → Reader
after entries stamp bytes zero = record {
  entries = entries ++ (record { logstamp = stamp; bytes = bytes } ∷ []);
  cur = none;
  remaining = 0;
}
after entries stamp bytes (suc left) = pending entries stamp bytes (suc left)

pub after-pending :
    (entries : List LogEntry) (stamp : ℕ) (bytes : List ℕ) (left : ℕ)
    → 0 < left
    → after entries stamp bytes left ≡ pending entries stamp bytes left
unfolding after
after-pending entries stamp bytes zero h = absurd (omega arith)
after-pending entries stamp bytes (suc left) h = refl

module _ (mfs_lsb arch_lsb : Bool) where
  -- A sector that a log was written to.
  pub record Holds (buf : Sector) (log : CurrentLog) : Type 0 where
    pub first : field mfs_lsb arch_lsb first_word buf ≡ log.first
    pub size : field mfs_lsb arch_lsb size_word buf ≡ log.size
    pub body : drop hdr_size buf ≡ log.body

  -- The rounds that copy the bytes up to the end of a sector.
  fill :
      (fuel stamp st : ℕ) (buf : Sector) (curstart : ℕ) (entries : List LogEntry)
      (bytes piece : List ℕ) (left : ℕ)
      → 0 < length piece
      → curstart + length piece ≡ field mfs_lsb arch_lsb size_word buf
      → take (length piece) (drop (curstart + hdr_size) buf) ≡ piece
      → read_entries mfs_lsb arch_lsb
          (suc (suc fuel))
          stamp
          buf
          curstart
          (pending entries st bytes (length piece + left))
        ≡ reading (after entries st (bytes ++ piece) left)
  unfolding after copy_part
  fill fuel stamp st buf curstart entries bytes piece zero h ends e =
      ap
        (λ (n : ℕ).
          read_entries mfs_lsb arch_lsb (suc (suc fuel)) stamp buf curstart
            (pending entries st bytes n))
        whole
      ∙ complete mfs_lsb arch_lsb (suc fuel) stamp st buf curstart (length piece) entries bytes
          piece h (omega (arith, ends)) e
      ∙ ap (read_entries mfs_lsb arch_lsb (suc fuel) stamp buf (curstart + length piece)) (
          next_entry_end mfs_lsb arch_lsb stamp buf (curstart + length piece) _
            (omega (arith, ends)))
      ∙ read_entries_stop mfs_lsb arch_lsb fuel stamp buf (curstart + length piece) _ (inl refl)
    where
      whole : length piece + 0 ≡ length piece
      whole = omega arith
  fill fuel stamp st buf curstart entries bytes piece (suc left) h ends e =
      read_entries_part mfs_lsb arch_lsb (suc fuel) stamp buf curstart
        (pending entries st bytes (length piece + suc left)) (omega (arith, ends))
        (omega (arith, ends))
      ∙ ap₂ (λ (t : List ℕ) (n : ℕ). reading (pending entries st (bytes ++ t) n))
          (ap (λ (n : ℕ). take n (drop (curstart + hdr_size) buf)) up_to ∙ e) (omega (arith, ends))
    where
      up_to : field mfs_lsb arch_lsb size_word buf - curstart ≡ length piece
      up_to = omega (arith, ends)

  -- A log sector that is full, when an entry begins in it that does not end before it.
  pub load_sector_fills :
      (log w : CurrentLog) (r : Reader) (entries : List LogEntry) (entry piece rest : List ℕ)
      (buf : Sector)
      → IsEntry mfs_lsb arch_lsb entry
      → entry ≡ piece ++ rest
      → 2 ≤ length piece
      → log.size + length piece ≡ w.size
      → length (data_of log) ≡ log.size
      → w.logstamp ≡ log.logstamp
      → w.first ≡ log.first
      → data_of w ≡ data_of log ++ piece
      → Continues mfs_lsb arch_lsb log r entries
      → Holds buf w
      → load_sector mfs_lsb arch_lsb w.logstamp buf r
        ≡ reading (after entries log.logstamp piece (length rest))
  load_sector_fills log w r entries entry piece rest buf i split more ends l stamps firsts bytes
        before held =
      go c.fuel c.enough c.runs
    where
      begins : take w.size (drop hdr_size buf) ≡ data_of log ++ piece
      begins = ap (take w.size) held.body ∙ bytes

      c : Continued mfs_lsb arch_lsb buf log r entries
      c = before buf (record {
        first = held.first ∙ firsts;
        begins = take_before w.size log.size (drop hdr_size buf) (data_of log) piece begins l;
        longer = omega (arith, held.size, ends);
        some_bytes = omega (arith, held.size, ends, more);
      })

      at_piece : take (length piece) (drop (log.size + hdr_size) buf) ≡ piece
      at_piece = take_at buf log.size (length piece) w.size (data_of log) piece (sym ends) begins l

      starts : take (length piece) (drop (log.size + hdr_size) buf) ≡ take (length piece) entry
      starts =
          at_piece
          ∙ sym (take_all (length piece) piece (omega arith))
          ∙ sym (take-append_within (length piece) piece rest (omega arith))
          ∙ ap (take (length piece)) (sym split)

      counted : length entry ≡ length piece + length rest
      counted = ap length split ∙ length-append piece rest

      go :
          (fuel : ℕ)
          → field mfs_lsb arch_lsb size_word buf - log.size < fuel
          → load_sector mfs_lsb arch_lsb log.logstamp buf r
            ≡ read_entries mfs_lsb arch_lsb fuel log.logstamp buf log.size
                (next_entry mfs_lsb arch_lsb log.logstamp buf log.size entries)
          → load_sector mfs_lsb arch_lsb w.logstamp buf r
            ≡ reading (after entries log.logstamp piece (length rest))
      go zero enough runs = absurd (omega (arith, enough))
      go (suc zero) enough runs = absurd (omega (arith, enough, ends, held.size, more))
      go (suc (suc fuel)) enough runs = rw (stamps) (
          runs
          ∙ ap (read_entries mfs_lsb arch_lsb (suc (suc fuel)) log.logstamp buf log.size) (
              next_entry_lem mfs_lsb arch_lsb log.logstamp buf log.size entries entry (length piece)
                i more (omega (arith, held.size, ends, more)) starts
              ∙ ap (pending entries log.logstamp []) counted)
          ∙ fill fuel log.logstamp log.logstamp buf log.size entries [] piece (length rest)
              (omega (arith, more)) (omega (arith, held.size, ends)) at_piece)

  -- A log sector that is full of an entry.
  pub load_sector_goes_on :
      (w : CurrentLog) (entries : List LogEntry) (st left : ℕ) (bytes : List ℕ) (buf : Sector)
      → 0 < length (data_of w)
      → w.size ≡ length (data_of w)
      → w.first ≡ w.size
      → Holds buf w
      → load_sector mfs_lsb arch_lsb w.logstamp buf
          (pending entries st bytes (length (data_of w) + left))
        ≡ reading (after entries st (bytes ++ data_of w) left)
  load_sector_goes_on w entries st left bytes buf h sizes firsts held =
      load_sector_continue mfs_lsb arch_lsb w.logstamp buf entries _ (length (data_of w) + left)
        (omega (arith, held.first, firsts, sizes, h)) (omega (arith, held.first, firsts, sizes))
      ∙ ap
          (λ (n : ℕ).
            read_entries mfs_lsb arch_lsb n w.logstamp buf 0
              (pending entries st bytes (length (data_of w) + left)))
          enough
      ∙ fill (length (data_of w) - 1) w.logstamp st buf 0 entries bytes (data_of w) left h
          (omega (arith, held.size, sizes)) at_start
    where
      enough : suc (field mfs_lsb arch_lsb size_word buf) ≡ suc (suc (length (data_of w) - 1))
      enough = omega (arith, held.size, sizes, h)

      at_start : take (length (data_of w)) (drop (0 + hdr_size) buf) ≡ data_of w
      at_start = ap₂ (λ (n : ℕ) (t : List ℕ). take n t) (sym sizes) held.body

  -- The log when no entry goes on in it.
  pub Continues-start :
      (log : CurrentLog) (entries : List LogEntry) (n : ℕ)
      → log.first ≡ 0
      → log.size ≡ 0
      → Continues mfs_lsb arch_lsb log
          (record { entries = entries; cur = none; remaining = n })
          entries
  Continues-start log entries n f z buf x = record {
    fuel = suc (field mfs_lsb arch_lsb size_word buf);
    enough = omega arith;
    runs = rw (z) (
        load_sector_start mfs_lsb arch_lsb log.logstamp buf entries n (x.first ∙ f)
        ∙ ap
            (read_entries mfs_lsb arch_lsb (suc (field mfs_lsb arch_lsb size_word buf)) log.logstamp
              buf 0)
            (sym (next_entry_room mfs_lsb arch_lsb log.logstamp buf 0 entries x.some_bytes)));
  }

  -- The log when it holds the rest of an entry.
  pub Continues-rest :
      (log : CurrentLog) (entries : List LogEntry) (st : ℕ) (bytes rest : List ℕ)
      → log.first ≡ length rest
      → log.size ≡ length rest
      → data_of log ≡ rest
      → Continues mfs_lsb arch_lsb log
          (after entries st bytes (length rest))
          (entries ++ (record { logstamp = st; bytes = bytes ++ rest } ∷ []))
  unfolding after
  Continues-rest log entries st bytes [] f z e buf x =
      rw (append-nil bytes) (
        Continues-start log (entries ++ (record { logstamp = st; bytes = bytes } ∷ [])) 0 f z buf x)
  Continues-rest log entries st bytes (b ∷ rest) f z e buf x = record {
    fuel = field mfs_lsb arch_lsb size_word buf;
    enough = omega (arith, z, x.some_bytes);
    runs =
        load_sector_continue mfs_lsb arch_lsb log.logstamp buf entries _ (suc (length rest))
          (omega (arith, x.first, f)) (omega (arith, x.first, f))
        ∙ complete mfs_lsb arch_lsb (field mfs_lsb arch_lsb size_word buf) log.logstamp st buf 0
            (suc (length rest)) entries bytes (b ∷ rest) (omega arith) (omega (arith, x.longer, z))
            begins
        ∙ ap
            (λ (n : ℕ).
              read_entries mfs_lsb arch_lsb (field mfs_lsb arch_lsb size_word buf) log.logstamp buf
                n
                (next_entry mfs_lsb arch_lsb log.logstamp buf n
                  (entries ++ (record { logstamp = st; bytes = bytes ++ (b ∷ rest) } ∷ []))))
            at_end;
  }
    where
      begins : take (suc (length rest)) (drop (0 + hdr_size) buf) ≡ b ∷ rest
      begins = ap (λ (n : ℕ). take n (drop hdr_size buf)) (sym z) ∙ x.begins ∙ e

      at_end : 0 + suc (length rest) ≡ log.size
      at_end = omega (arith, z)
