-- ===== src/Log/Rounds.antt =====
-- The rounds of the loop of mfs_log_add_entry: each fills a log sector and goes on in the next.
use mfstools.Base.{
  ℕ, zero, suc, ◌+◌, ◌-◌, ◌≤◌, ◌<◌, ◌≡◌, refl, sym, ap, ap₂, ◌∙◌, true, false, List, [], ◌∷◌, ◌++◌,
  arith, min, leb, ltb, if◌then◌else◌, take, drop, replicate, length, length-replicate, length-take,
  length-drop, u32,
}
use native.Mathlib.Decide.{dec_le}
use mfstools.Inode.Runs.Slices.{append_assoc, append-nil}
use mfstools.Log.{
  CurrentLog, body_size, free_room, next_log, Filled, no_current_log, no_end, filled, append_bytes,
  overflow,
}
use mfstools.Log.Bytes.{length-store, take-store, take-take, drop-drop}

-- The current log has room, its whole body, and zeros behind what it holds.
pub record Ready (log : CurrentLog) : Type 0 where
  pub has_room : log.size < body_size
  pub whole : length log.body ≡ body_size
  pub blank : drop log.size log.body ≡ replicate (body_size - log.size) 0

-- The bytes of entries that a log sector holds, and those of the sectors that were written.
abbrev pub data_of : CurrentLog → List ℕ
data_of log = take log.size log.body

unfoldable pub all_data : List CurrentLog → List ℕ
all_data [] = []
all_data (log ∷ logs) = data_of log ++ all_data logs

-- The sectors that are written are full.
unfoldable pub AllFull : List CurrentLog → Type 0
AllFull [] = Unit
AllFull (log ∷ logs) = (log.size ≡ body_size) × (length log.body ≡ body_size) × AllFull logs

-- The sectors written and the current one are stamped one after the other.
unfoldable pub Stamped : ℕ → List CurrentLog → CurrentLog → Type 0
Stamped n [] log = log.logstamp ≡ n
Stamped n (written ∷ logs) log = (written.logstamp ≡ n) × Stamped (u32 (n + 1)) logs log

-- The first of the sectors keeps the place of its first entry; in each further one that is where the
-- `left` bytes that do not fit the ones before it end, or its end.
unfoldable pub Marked : ℕ → ℕ → List CurrentLog → CurrentLog → Type 0
Marked first left [] log = log.first ≡ first
Marked first left (written ∷ logs) log =
    (written.first ≡ first) × Marked (min body_size left) (left - body_size) logs log

-- What the loop does to a log from the place `copystart` of an entry on.
pub record Overflowed (entry : List ℕ) (log : CurrentLog) (copystart : ℕ) (logs : List CurrentLog)
    (log' : CurrentLog) (copied : ℕ) : Type 0 where
  pub ready : Ready log'
  pub further : copystart ≤ copied
  pub no_more : copied ≤ length entry
  pub fits : length entry - copied < body_size - log'.size
  pub bytes :
      all_data logs ++ data_of log'
      ≡ data_of log ++ take (copied - copystart) (drop copystart entry)
  pub full : AllFull logs
  pub stamps : Stamped log.logstamp logs log'
  pub marks : Marked log.first (length entry - copystart - (body_size - log.size)) logs log'

unfoldable pub Overflows : List ℕ → CurrentLog → ℕ → Filled → Type 0
Overflows entry log copystart no_current_log = ⊥
Overflows entry log copystart no_end = ⊥
Overflows entry log copystart (filled logs log' copied) =
    Overflowed entry log copystart logs log' copied

room_eq : (log : CurrentLog) → Ready log → free_room log ≡ body_size - log.size
room_eq log r = omega (arith, r.has_room)

-- The sector that is filled up, and the next one.
full_log : CurrentLog → List ℕ → CurrentLog
full_log log piece = record (append_bytes log piece) { size = body_size }

next_of : CurrentLog → ℕ → CurrentLog
unfolding next_log
next_of log left = record (next_log log) { first = if ltb body_size left then body_size else left }

next_of-Ready : (log : CurrentLog) (left : ℕ) → Ready (next_of log left)
unfolding next_of next_log
next_of-Ready log left = record {
  has_room = omega arith;
  whole = length-replicate {A = ℕ} body_size 0;
  blank = refl;
}

-- A sector that is filled goes in front of what the later rounds do.
Overflowed-full :
    (entry : List ℕ) (log : CurrentLog) (copystart : ℕ) (logs : List CurrentLog) (log' : CurrentLog)
    (copied room : ℕ)
    → Ready log
    → room ≡ body_size - log.size
    → copystart + room ≤ length entry
    → Overflowed entry
        (next_of
          (full_log log (take room (drop copystart entry)))
          (length entry - (copystart + room)))
        (copystart + room)
        logs
        log'
        copied
    → Overflowed entry log copystart
        (full_log log (take room (drop copystart entry)) ∷ logs)
        log'
        copied
unfolding all_data AllFull Stamped Marked full_log next_of next_log
Overflowed-full entry log copystart logs log' copied room r e h later = record {
  ready = later.ready;
  further = omega (arith, later.further);
  no_more = later.no_more;
  fits = later.fits;
  bytes =
      append_assoc (data_of (full_log log piece)) (all_data logs) (data_of log')
      ∙ ap₂ ◌++◌
          (take-store log.body log.size body_size piece (omega (arith, piece_length, e, r.has_room))
            (omega (arith, r.whole)))
          later.bytes
      ∙ append_assoc (data_of log) piece (take left (drop (copystart + room) entry))
      ∙ ap (λ t. data_of log ++ t) rejoined;
  full = (refl, length-store log.body log.size piece ∙ r.whole, later.full);
  stamps = (refl, later.stamps);
  marks = (refl, rw (mark, rest) later.marks);
}
  where
    piece : List ℕ
    piece = take room (drop copystart entry)

    piece_length : length piece ≡ room
    piece_length =
        omega (arith, length-take room (drop copystart entry), length-drop copystart entry)

    left : ℕ
    left = copied - (copystart + room)

    rejoined :
        piece ++ take left (drop (copystart + room) entry)
        ≡ take (copied - copystart) (drop copystart entry)
    rejoined =
        ap (λ t. piece ++ take left t) (sym (drop-drop copystart room entry))
        ∙ take-take room left (drop copystart entry)
        ∙ ap (λ (k : ℕ). take k (drop copystart entry)) counted
      where
        counted : room + left ≡ copied - copystart
        counted = omega (arith, later.further)

    mark :
        min body_size (length entry - copystart - (body_size - log.size))
        ≡ (next_of (full_log log piece) (length entry - (copystart + room))).first
    mark = ground (arith, e)

    rest :
        length entry - copystart - (body_size - log.size) - body_size
        ≡ length entry - (copystart + room) - (body_size - 0)
    rest = omega (arith, e)

pub overflow-Overflows :
    (fuel : ℕ) (entry : List ℕ) (log : CurrentLog) (copystart : ℕ)
    → Ready log
    → copystart ≤ length entry
    → length entry - copystart < fuel
    → Overflows entry log copystart (overflow fuel entry (length entry) log copystart)
unfolding overflow Overflows full_log next_of next_log all_data AllFull Stamped Marked
overflow-Overflows zero entry log copystart r h enough = absurd (omega arith)
overflow-Overflows (suc fuel) entry log copystart r h enough =
    elim (dec_le (body_size - log.size) (length entry - copystart)) [
      | yes over ↦ rw (goes_on over) (
          go (overflow fuel entry (length entry) next (copystart + room)) (fits over) (
            overflow-Overflows fuel entry next (copystart + room)
              (next_of-Ready (full_log log (take room (drop copystart entry)))
                (length entry - (copystart + room)))
              (fits over) (omega (arith, room_eq log r, r.has_room, fits over))))
      | no under ↦ rw (stops under) (record {
        ready = r;
        further = omega arith;
        no_more = h;
        fits = omega arith;
        bytes = sym (
            ap (λ (k : ℕ). data_of log ++ take k (drop copystart entry)) nothing
            ∙ append-nil (data_of log));
        full = tt;
        stamps = refl;
        marks = refl;
      })
    ]
  where
    room : ℕ
    room = free_room log

    next : CurrentLog
    next =
        next_of (full_log log (take room (drop copystart entry)))
          (length entry - (copystart + room))

    nothing : copystart - copystart ≡ 0
    nothing = omega arith

    goes_on :
        body_size - log.size ≤ length entry - copystart
        → leb (free_room log) (length entry - copystart) ≡ true
    goes_on over = ground (arith, room_eq log r)

    stops :
        ¬ (body_size - log.size ≤ length entry - copystart)
        → leb (free_room log) (length entry - copystart) ≡ false
    stops under = ground (arith, room_eq log r)

    fits : body_size - log.size ≤ length entry - copystart → copystart + room ≤ length entry
    fits over = omega (arith, room_eq log r)

    put : Filled → Filled
    put (filled logs log' copied) =
        filled (full_log log (take room (drop copystart entry)) ∷ logs) log' copied
    put no_current_log = no_end
    put no_end = no_end

    go :
        (result : Filled)
        → copystart + room ≤ length entry
        → Overflows entry next (copystart + room) result
        → Overflows entry log copystart (put result)
    go no_current_log f later = later
    go no_end f later = later
    go (filled logs log' copied) f later =
        Overflowed-full entry log copystart logs log' copied room r (room_eq log r) f later
