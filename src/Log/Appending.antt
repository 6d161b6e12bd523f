-- ===== src/Log/Appending.antt =====
-- An entry that is added to the log stands behind what the log holds, through as many sectors as it
-- takes.
use mfstools.Base.{
  ℕ, suc, ◌+◌, ◌-◌, ◌<◌, ◌≡◌, refl, sym, ap, ap₂, ◌∙◌, Bool, true, false, some, List, [], ◌∷◌, ◌++◌,
  arith, min, ltb, take, drop, replicate, length, length-take, length-drop, u32,
}
use native.Mathlib.Decide.{dec_lt}
use mfstools.Util.{intswap16}
use mfstools.Inode.Directory.{half_at}
use mfstools.Inode.Runs.Slices.{append_assoc, take_all, take-drop}
use mfstools.Log.{
  CurrentLog, body_size, Filled, no_current_log, no_end, filled, overflow, copy_rest, log_add_entry,
}
use mfstools.Log.Bytes.{length-store, take-store, drop-drop, drop-store, drop-replicate}
use mfstools.Log.Rounds.{
  Ready, data_of, all_data, AllFull, Stamped, Marked, Overflowed, Overflows, overflow-Overflows,
}

-- What mfs_log_add_entry is to do with an entry.
pub record Added (entry : List ℕ) (log : CurrentLog) (logs : List CurrentLog) (log' : CurrentLog)
    : Type 0 where
  pub ready : Ready log'
  pub bytes : all_data logs ++ data_of log' ≡ data_of log ++ entry
  pub full : AllFull logs
  pub stamps : Stamped log.logstamp logs log'
  pub marks : Marked log.first (length entry - (body_size - log.size)) logs log'

unfoldable pub Adds : List ℕ → CurrentLog → Filled → Type 0
Adds entry log no_current_log = ⊥
Adds entry log no_end = ⊥
Adds entry log (filled logs log' copied) = Added entry log logs log'

-- The same sectors, with more in the last.
Stamped-last :
    (n : ℕ) (logs : List CurrentLog) (log log' : CurrentLog)
    → log.logstamp ≡ log'.logstamp
    → Stamped n logs log
    → Stamped n logs log'
unfolding Stamped
Stamped-last n [] log log' e h = sym e ∙ h
Stamped-last n (w ∷ logs) log log' e h = (h.0, Stamped-last (u32 (n + 1)) logs log log' e h.1)

Marked-last :
    (first left : ℕ) (logs : List CurrentLog) (log log' : CurrentLog)
    → log.first ≡ log'.first
    → Marked first left logs log
    → Marked first left logs log'
unfolding Marked
Marked-last first left [] log log' e h = sym e ∙ h
Marked-last first left (w ∷ logs) log log' e h =
    (h.0, Marked-last (min body_size left) (left - body_size) logs log log' e h.1)

Added-rest :
    (entry : List ℕ) (log : CurrentLog) (logs : List CurrentLog) (log' : CurrentLog) (copied : ℕ)
    → Overflowed entry log 0 logs log' copied
    → Adds entry log (copy_rest entry (length entry) (filled logs log' copied))
unfolding Adds
Added-rest entry log logs log' copied o = elim (dec_lt copied (length entry)) [
  | yes more ↦ rw (goes_on more) (record {
    ready = record {
      has_room = omega (arith, o.fits);
      whole = length-store log'.body log'.size rest ∙ o.ready.whole;
      blank =
          drop-store log'.body log'.size _ rest grown
          ∙ ap (λ (k : ℕ). drop k log'.body) grown
          ∙ sym (drop-drop log'.size (length rest) log'.body)
          ∙ ap (drop (length rest)) o.ready.blank
          ∙ drop-replicate (length rest) (body_size - log'.size)
          ∙ ap (λ (k : ℕ). replicate k 0) (omega (arith, grown));
    };
    bytes =
        ap (λ t. all_data logs ++ t)
          (take-store log'.body log'.size _ rest (omega (arith, o.fits, rest_length))
            (omega (arith, o.fits, o.ready.whole)))
        ∙ sym (append_assoc (all_data logs) (data_of log') rest)
        ∙ ap (λ t. t ++ rest) o.bytes
        ∙ append_assoc (data_of log) (take (copied - 0) entry) rest
        ∙ ap (λ t. data_of log ++ t) whole_entry;
    full = o.full;
    stamps = Stamped-last log.logstamp logs log' _ refl o.stamps;
    marks = Marked-last log.first (length entry - (body_size - log.size)) logs log' _ refl marks;
  })
  | no all ↦ rw (stops all) (record {
    ready = o.ready;
    bytes = o.bytes ∙ ap (λ t. data_of log ++ t) (take_all (copied - 0) entry (omega arith));
    full = o.full;
    stamps = o.stamps;
    marks = marks;
  })
]
  where
    rest : List ℕ
    rest = take (length entry - copied) (drop copied entry)

    rest_length : length rest ≡ length entry - copied
    rest_length =
        omega
          (arith, length-take (length entry - copied) (drop copied entry), length-drop copied entry)

    grown : u32 (log'.size + (length entry - copied)) ≡ log'.size + length rest
    grown = omega (arith, o.fits, rest_length)

    goes_on : copied < length entry → ltb copied (length entry) ≡ true
    goes_on h = ground arith

    stops : ¬ (copied < length entry) → ltb copied (length entry) ≡ false
    stops h = ground arith

    marks : Marked log.first (length entry - (body_size - log.size)) logs log'
    marks = rw (sym from_start) o.marks
      where
        from_start : length entry - 0 ≡ length entry
        from_start = omega arith

    whole_entry : take (copied - 0) entry ++ rest ≡ entry
    whole_entry =
        ap₂ ◌++◌ (ap (λ (k : ℕ). take k entry) from_start) (
          take_all (length entry - copied) (drop copied entry)
            (omega (arith, length-drop copied entry)))
        ∙ take-drop copied entry
      where
        from_start : copied - 0 ≡ copied
        from_start = omega arith

-- mfs_log_add_entry on a current log that has room always returns, for an entry as long as its
-- length says. The bytes of the sectors that it writes, and then of the current log, are those that
-- the log held and behind them the entry. Every sector that it writes is full, the stamps run on
-- from the log's, a sector that the entry goes on in has as its first place where the entry ends in
-- it, or its own end, and the current log has room again.
pub log_add_entry-Adds :
    (mfs_lsb arch_lsb : Bool) (log : CurrentLog) (entry : List ℕ)
    → Ready log
    → intswap16 mfs_lsb arch_lsb (half_at arch_lsb entry 0) + 2 ≡ length entry
    → Adds entry log (log_add_entry mfs_lsb arch_lsb (some log) entry)
unfolding log_add_entry
log_add_entry-Adds mfs_lsb arch_lsb log entry r e = rw (e) (
    go (overflow (suc (length entry)) entry (length entry) log 0)
      (overflow-Overflows (suc (length entry)) entry log 0 r (omega arith) (omega arith)))
  where
    go :
        (result : Filled)
        → Overflows entry log 0 result
        → Adds entry log (copy_rest entry (length entry) result)
    go no_current_log o = unfold Overflows in absurd o
    go no_end o = unfold Overflows in absurd o
    go (filled logs log' copied) o = unfold Overflows in Added-rest entry log logs log' copied o
