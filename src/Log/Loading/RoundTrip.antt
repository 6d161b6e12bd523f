-- ===== src/Log/Loading/RoundTrip.antt =====
-- What is added to the log is what is loaded from it.
use mfstools.Base.{
  ℕ, ◌+◌, ◌-◌, ◌%◌, ◌≤◌, ◌≡◌, refl, sym, ap, ap₂, ◌∙◌, min, Bool, List, [], ◌∷◌, ◌++◌, arith,
  get_or, take, drop, length, length-take, length-drop, length-append,
}
use mfstools.Inode.{Sector}
use mfstools.Inode.Runs.Slices.{append_assoc, take-drop}
use mfstools.Log.{CurrentLog, body_size}
use mfstools.Log.Rounds.{Ready, data_of, all_data, AllFull, Stamped, Marked}
use mfstools.Log.Appending.{Added}
use mfstools.Log.Loading.{LogEntry, Reader, reading, load_sector}
use mfstools.Log.Loading.Pieces.{IsEntry}
use mfstools.Log.Loading.Continuing.{Continues, Continues-fits}
use mfstools.Log.Loading.Carrying.{
  after, after-pending, Holds, load_sector_fills, load_sector_goes_on, Continues-rest,
}

-- The bytes of a log are as many as it says.
pub length-data_of :
    (log : CurrentLog) → log.size ≤ length log.body → length (data_of log) ≡ log.size
length-data_of log h = omega (arith, length-take log.size log.body)

-- Two lists that are split at one place.
front :
    {A : Type 0} (xs ys xs' ys' : List A)
    → length xs ≡ length xs'
    → xs ++ ys ≡ xs' ++ ys'
    → xs ≡ xs'
front [] ys [] ys' l e = refl
front [] ys (x' ∷ xs') ys' l e = absurd (omega (arith, l))
front (x ∷ xs) ys [] ys' l e = absurd (omega (arith, l))
front (x ∷ xs) ys (x' ∷ xs') ys' l e =
    ap₂ ◌∷◌ (ap (λ t. get_or t 0 x) e) (front xs ys xs' ys' (omega (arith, l)) (ap (drop 1) e))

back :
    {A : Type 0} (xs ys xs' ys' : List A)
    → length xs ≡ length xs'
    → xs ++ ys ≡ xs' ++ ys'
    → ys ≡ ys'
back [] ys [] ys' l e = e
back [] ys (x' ∷ xs') ys' l e = absurd (omega (arith, l))
back (x ∷ xs) ys [] ys' l e = absurd (omega (arith, l))
back (x ∷ xs) ys (x' ∷ xs') ys' l e = back xs ys xs' ys' (omega (arith, l)) (ap (drop 1) e)

module _ (mfs_lsb arch_lsb : Bool) where
  -- The reader gets through sectors that logs were written to.
  unfoldable pub Runs : List CurrentLog → Reader → Reader → Type 0
  Runs [] r r' = r ≡ r'
  Runs (w ∷ logs) r r' =
      (r1 : Reader) × ((buf : Sector)
        → Holds mfs_lsb arch_lsb buf w
        → load_sector mfs_lsb arch_lsb w.logstamp buf r ≡ reading r1)
      × Runs logs r1 r'

  pub Runs-append :
      (logs logs' : List CurrentLog) (r r' r'' : Reader)
      → Runs logs r r'
      → Runs logs' r' r''
      → Runs (logs ++ logs') r r''
  unfolding Runs
  Runs-append [] logs' r r' r'' h k = rw (h) k
  Runs-append (w ∷ logs) logs' r r' r'' h k = (h.0, h.1, Runs-append logs logs' h.0 r' r'' h.2 k)

  -- The reader gets through the sectors written, and to the end of what the current log holds.
  abbrev pub Reaches : List CurrentLog → CurrentLog → Reader → List LogEntry → Type 0
  Reaches logs log r entries =
      (r' : Reader) × Runs logs r r' × Continues mfs_lsb arch_lsb log r' entries

  carry :
      (logs : List CurrentLog) (log : CurrentLog) (entries : List LogEntry) (st : ℕ)
      (bytes rest : List ℕ)
      → Ready log
      → AllFull logs
      → Marked (min body_size (length rest)) (length rest - body_size) logs log
      → all_data logs ++ data_of log ≡ rest
      → Reaches logs log
          (after entries st bytes (length rest))
          (entries ++ (record { logstamp = st; bytes = bytes ++ rest } ∷ []))
  unfolding AllFull Marked all_data Runs
  carry [] log entries st bytes rest ready full marks e = (
    after entries st bytes (length rest),
    refl,
    Continues-rest mfs_lsb arch_lsb log entries st bytes rest
        (omega (arith, marks, counted, ready.has_room)) (omega (arith, counted)) e,
  )
    where
      counted : log.size ≡ length rest
      counted = sym (length-data_of log (omega (arith, ready.has_room, ready.whole))) ∙ ap length e
  carry (w ∷ logs) log entries st bytes rest ready full marks e =
      let later =
        carry logs log entries st (bytes ++ data_of w) behind ready full.2 (rw (left) marks.1)
          refl in
      (
        later.0,
        (after entries st (bytes ++ data_of w) (length behind), step, later.1),
        rw (bytes_eq) later.2,
      )
    where
      behind : List ℕ
      behind = all_data logs ++ data_of log

      whole : length (data_of w) ≡ body_size
      whole = length-data_of w (omega (arith, full.0, full.1)) ∙ full.0

      counted : length rest ≡ length (data_of w) + length behind
      counted =
          ap length (sym e ∙ append_assoc (data_of w) (all_data logs) (data_of log))
          ∙ length-append (data_of w) behind

      left : length behind ≡ length rest - body_size
      left = omega (arith, counted, whole)

      step :
          (buf : Sector)
          → Holds mfs_lsb arch_lsb buf w
          → load_sector mfs_lsb arch_lsb w.logstamp buf (after entries st bytes (length rest))
            ≡ reading (after entries st (bytes ++ data_of w) (length behind))
      step buf held = rw (counted) (
          rw
            (after-pending entries st bytes (length (data_of w) + length behind)
              (omega (arith, whole)))
            (load_sector_goes_on mfs_lsb arch_lsb w entries st (length behind) bytes buf
              (omega (arith, whole)) (omega (arith, whole, full.0))
              (omega (arith, marks.0, full.0, counted, whole)) held))

      bytes_eq : bytes ++ rest ≡ (bytes ++ data_of w) ++ behind
      bytes_eq =
          ap (λ t. bytes ++ t) (sym e ∙ append_assoc (data_of w) (all_data logs) (data_of log))
          ∙ sym (append_assoc bytes (data_of w) behind)

  Reaches-bytes :
      (logs : List CurrentLog) (log : CurrentLog) (r : Reader) (entries : List LogEntry) (st : ℕ)
      (bytes bytes' : List ℕ)
      → bytes ≡ bytes'
      → Reaches logs log r (entries ++ (record { logstamp = st; bytes = bytes } ∷ []))
      → Reaches logs log r (entries ++ (record { logstamp = st; bytes = bytes' } ∷ []))
  Reaches-bytes logs log r entries st bytes bytes' e h = rw (← e) h

  AllFull-even : (logs : List CurrentLog) → AllFull logs → length (all_data logs) % 2 ≡ 0
  unfolding AllFull all_data
  AllFull-even [] full = refl
  AllFull-even (w ∷ logs) full = omega (
    arith,
    length-append (data_of w) (all_data logs),
    length-data_of w (omega (arith, full.0, full.1)),
    full.0,
    AllFull-even logs full.2,
  )

  -- An entry that is added goes behind the ones that the reader has.
  pub Reaches-add :
      (entry : List ℕ) (log : CurrentLog) (logs : List CurrentLog) (log' : CurrentLog) (r : Reader)
      (entries : List LogEntry)
      → IsEntry mfs_lsb arch_lsb entry
      → Ready log
      → log.size % 2 ≡ 0
      → Added entry log logs log'
      → Continues mfs_lsb arch_lsb log r entries
      → Reaches logs log' r (entries ++ (record { logstamp = log.logstamp; bytes = entry } ∷ []))
        × (log'.size % 2 ≡ 0)
  unfolding AllFull Marked all_data Runs Stamped
  Reaches-add entry log [] log' r entries i ready even a before = (
    (
      r,
      refl,
      Continues-fits mfs_lsb arch_lsb log log' r entries entry i held a.stamps a.marks sizes a.bytes
          before,
    ),
    omega (arith, sizes, even, i.even),
  )
    where
      held : length (data_of log) ≡ log.size
      held = length-data_of log (omega (arith, ready.has_room, ready.whole))

      sizes : log'.size ≡ log.size + length entry
      sizes = omega (
        arith,
        length-data_of log' (omega (arith, a.ready.has_room, a.ready.whole)),
        ap length a.bytes,
        length-append (data_of log) entry,
        held,
      )
  Reaches-add entry log (w ∷ logs) log' r entries i ready even a before = (
    (later.0, (after entries log.logstamp piece (length rest), step, later.1), later.2),
    omega (
      arith,
      counted,
      held,
      even,
      i.even,
      AllFull-even (w ∷ logs) a.full,
      length-data_of log' (omega (arith, a.ready.has_room, a.ready.whole)),
    ),
  )
    where
      room : ℕ
      room = body_size - log.size

      piece : List ℕ
      piece = take room entry

      rest : List ℕ
      rest = drop room entry

      held : length (data_of log) ≡ log.size
      held = length-data_of log (omega (arith, ready.has_room, ready.whole))

      whole : length (data_of w) ≡ body_size
      whole = length-data_of w (omega (arith, a.full.0, a.full.1)) ∙ a.full.0

      counted :
          length (data_of w ++ all_data logs) + length (data_of log')
          ≡ length (data_of log) + length entry
      counted = omega (
        arith,
        ap length a.bytes,
        length-append (data_of log) entry,
        length-append (data_of w ++ all_data logs) (data_of log'),
      )

      over : room ≤ length entry
      over = omega (arith, counted, held, whole, length-append (data_of w) (all_data logs))

      piece_length : length piece ≡ room
      piece_length = omega (arith, length-take room entry, over)

      split : entry ≡ piece ++ rest
      split = sym (take-drop room entry)

      joined : data_of w ++ (all_data logs ++ data_of log') ≡ (data_of log ++ piece) ++ rest
      joined =
          sym (append_assoc (data_of w) (all_data logs) (data_of log'))
          ∙ a.bytes
          ∙ ap (λ t. data_of log ++ t) split
          ∙ sym (append_assoc (data_of log) piece rest)

      evenly : length (data_of w) ≡ length (data_of log ++ piece)
      evenly =
          omega
            (arith, whole, length-append (data_of log) piece, held, piece_length, ready.has_room)

      first_part : data_of w ≡ data_of log ++ piece
      first_part =
          front (data_of w) (all_data logs ++ data_of log') (data_of log ++ piece) rest evenly
            joined

      last_part : all_data logs ++ data_of log' ≡ rest
      last_part =
          back (data_of w) (all_data logs ++ data_of log') (data_of log ++ piece) rest evenly joined

      later :
          Reaches logs log'
            (after entries log.logstamp piece (length rest))
            (entries ++ (record { logstamp = log.logstamp; bytes = entry } ∷ []))
      later =
          Reaches-bytes logs log' (after entries log.logstamp piece (length rest)) entries
            log.logstamp (piece ++ rest) entry (take-drop room entry)
            (carry logs log' entries log.logstamp piece rest a.ready a.full.2
              (rw (length-drop room entry) a.marks.1) last_part)

      step :
          (buf : Sector)
          → Holds mfs_lsb arch_lsb buf w
          → load_sector mfs_lsb arch_lsb w.logstamp buf r
            ≡ reading (after entries log.logstamp piece (length rest))
      step buf there =
          load_sector_fills mfs_lsb arch_lsb log w r entries entry piece rest buf i split
            (omega (arith, piece_length, ready.has_room, even))
            (omega (arith, piece_length, a.full.0, ready.has_room)) held a.stamps.0 a.marks.0
            first_part before there
