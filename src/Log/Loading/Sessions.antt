-- ===== src/Log/Loading/Sessions.antt =====
-- The entries that are added between two commits: the sectors that they are written to, and what is
-- loaded from these.
use mfstools.Base.{
  ℕ, ◌+◌, ◌-◌, ◌*◌, ◌%◌, ◌≤◌, ◌≡◌, refl, ap, min, Bool, Option, none, some, List, [], ◌∷◌, ◌++◌,
  arith, length, length-append, u32,
}
use mfstools.Inode.Runs.Slices.{append_assoc, append-nil}
use mfstools.Log.{CurrentLog, body_size, Filled, no_current_log, no_end, filled, log_add_entry}
use mfstools.Log.Rounds.{Ready, data_of, Stamped, AllFull, Marked, all_data}
use mfstools.Log.Appending.{Added, Adds, log_add_entry-Adds}
use mfstools.Log.Loading.{LogEntry, Reader}
use mfstools.Log.Loading.Pieces.{IsEntry}
use mfstools.Log.Loading.Continuing.{Continues}
use mfstools.Log.Loading.RoundTrip.{length-data_of, Runs, Runs-append, Reaches, Reaches-add}

-- The sectors that are written while entries are added, the current log then, and the entries with the
-- stamps of the sectors that they start in.
pub record Session : Type 0 where
  pub written : List CurrentLog
  pub current : CurrentLog
  pub entries : List LogEntry

-- The bytes of the entries.
unfoldable pub bytes_of : List LogEntry → List (List ℕ)
bytes_of [] = []
bytes_of (e ∷ entries) = e.bytes ∷ bytes_of entries

-- The fields of a log that is written fit.
pub record Fits (log : CurrentLog) : Type 0 where
  pub first_fits : log.first ≤ body_size
  pub size_fits : log.size ≤ body_size
  pub whole : length log.body ≡ body_size

unfoldable pub AllFit : List CurrentLog → Type 0
AllFit [] = Unit
AllFit (log ∷ logs) = Fits log × AllFit logs

pub AllFit-append :
    (logs logs' : List CurrentLog) → AllFit logs → AllFit logs' → AllFit (logs ++ logs')
unfolding AllFit
AllFit-append [] logs' h k = k
AllFit-append (w ∷ logs) logs' h k = (h.0, AllFit-append logs logs' h.1 k)

-- The sectors that an entry goes through fit, and the current log then.
Marked-AllFit :
    (first left : ℕ) (logs : List CurrentLog) (log : CurrentLog)
    → first ≤ body_size
    → AllFull logs
    → Marked first left logs log
    → AllFit logs × (log.first ≤ body_size)
unfolding AllFit AllFull Marked
Marked-AllFit first left [] log h full marks = (tt, omega (arith, marks))
Marked-AllFit first left (w ∷ logs) log h full marks =
    let (fits, last) =
      Marked-AllFit (min body_size left) (left - body_size) logs log (omega arith) full.2 marks.1 in
    (
      (
        record {
          first_fits = omega (arith, marks.0);
          size_fits = omega (arith, full.0);
          whole = full.1;
        },
        fits,
      ),
      last,
    )

-- How many bytes there are in the entries.
unfoldable pub total : List (List ℕ) → ℕ
total [] = 0
total (entry ∷ more) = length entry + total more

AllFull-length :
    (logs : List CurrentLog) → AllFull logs → length (all_data logs) ≡ body_size * length logs
unfolding AllFull all_data
AllFull-length [] full = refl
AllFull-length (w ∷ logs) full = omega (
  arith,
  length-append (data_of w) (all_data logs),
  length-data_of w (omega (arith, full.0, full.1)),
  full.0,
  AllFull-length logs full.2,
)

Added-counted :
    (entry : List ℕ) (log : CurrentLog) (logs : List CurrentLog) (log' : CurrentLog)
    → Ready log
    → Added entry log logs log'
    → body_size * length logs + log'.size ≡ log.size + length entry
Added-counted entry log logs log' ready a = omega (
  arith,
  AllFull-length logs a.full,
  length-append (all_data logs) (data_of log'),
  length-data_of log' (omega (arith, a.ready.has_room, a.ready.whole)),
  length-data_of log (omega (arith, ready.has_room, ready.whole)),
  ap length a.bytes,
  length-append (data_of log) entry,
)

module _ (mfs_lsb arch_lsb : Bool) where
  -- One call of mfs_log_add_entry after the other.
  unfoldable pub add_entries : CurrentLog → List (List ℕ) → Option Session
  add_entries log [] = some (record { written = []; current = log; entries = [] })
  add_entries log (entry ∷ more) = elim (log_add_entry mfs_lsb arch_lsb (some log) entry) [
    | filled logs log' copied ↦ elim (add_entries log' more) [
      | some s ↦ some (record {
        written = logs ++ s.written;
        current = s.current;
        entries = record { logstamp = log.logstamp; bytes = entry } ∷ s.entries;
      })
      | none ↦ none
    ]
    | no_current_log ↦ none
    | no_end ↦ none
  ]

  unfoldable pub AreEntries : List (List ℕ) → Type 0
  AreEntries [] = Unit
  AreEntries (entry ∷ more) = IsEntry mfs_lsb arch_lsb entry × AreEntries more

  -- What adding entries comes to, for a reader `r` that is at the end of the log with the entries `before`.
  pub record Session-of (log : CurrentLog) (more : List (List ℕ)) (r : Reader)
      (before : List LogEntry) (s : Session) : Type 0 where
    pub ready : Ready s.current
    pub even : s.current.size % 2 ≡ 0
    pub stamps : Stamped log.logstamp s.written s.current
    pub counted : body_size * length s.written + s.current.size ≡ log.size + total more
    pub fits : AllFit s.written
    pub last_fits : s.current.first ≤ body_size
    pub same : bytes_of s.entries ≡ more
    pub reaches : Reaches mfs_lsb arch_lsb s.written s.current r (before ++ s.entries)

  unfoldable pub AddsUp :
      CurrentLog → List (List ℕ) → Reader → List LogEntry → Option Session → Type 0
  AddsUp log more r before none = ⊥
  AddsUp log more r before (some s) = Session-of log more r before s

  Stamped-append :
      (n : ℕ) (logs : List CurrentLog) (log : CurrentLog) (logs' : List CurrentLog)
      (log' : CurrentLog)
      → Stamped n logs log
      → Stamped log.logstamp logs' log'
      → Stamped n (logs ++ logs') log'
  unfolding Stamped
  Stamped-append n [] log logs' log' h k = rw (← h) k
  Stamped-append n (w ∷ logs) log logs' log' h k =
      (h.0, Stamped-append (u32 (n + 1)) logs log logs' log' h.1 k)

  -- The entries behind the first.
  AddsUp-more :
      (log : CurrentLog) (entry : List ℕ) (more : List (List ℕ)) (r r' : Reader)
      (before : List LogEntry) (logs : List CurrentLog) (log' : CurrentLog) (o : Option Session)
      → Stamped log.logstamp logs log'
      → body_size * length logs + log'.size ≡ log.size + length entry
      → AllFit logs
      → Runs mfs_lsb arch_lsb logs r r'
      → AddsUp log' more r' (before ++ (record { logstamp = log.logstamp; bytes = entry } ∷ [])) o
      → AddsUp log (entry ∷ more) r before (elim o [
        | some s ↦ some (record {
          written = logs ++ s.written;
          current = s.current;
          entries = record { logstamp = log.logstamp; bytes = entry } ∷ s.entries;
        })
        | none ↦ none
      ])
  unfolding AddsUp bytes_of total
  AddsUp-more log entry more r r' before logs log' none stamps counted fits runs h = h
  AddsUp-more log entry more r r' before logs log' (some s) stamps counted fits runs h = record {
    ready = h.ready;
    even = h.even;
    stamps = Stamped-append log.logstamp logs log' s.written s.current stamps h.stamps;
    counted = omega (arith, counted, h.counted, length-append logs s.written);
    fits = AllFit-append logs s.written fits h.fits;
    last_fits = h.last_fits;
    same = ap (λ t. entry ∷ t) h.same;
    reaches = (
      h.reaches.0,
      Runs-append mfs_lsb arch_lsb logs s.written r r' h.reaches.0 runs h.reaches.1,
      rw (← append_assoc before (record { logstamp = log.logstamp; bytes = entry } ∷ []) s.entries)
          h.reaches.2,
    );
  }

  AddsUp-first :
      (log : CurrentLog) (entry : List ℕ) (more : List (List ℕ)) (r : Reader)
      (before : List LogEntry) (result : Filled) (rest : CurrentLog → Option Session)
      → IsEntry mfs_lsb arch_lsb entry
      → Ready log
      → log.size % 2 ≡ 0
      → log.first ≤ body_size
      → Continues mfs_lsb arch_lsb log r before
      → Adds entry log result
      → ((log' : CurrentLog) (r' : Reader)
          → Ready log'
          → log'.size % 2 ≡ 0
          → log'.first ≤ body_size
          → Continues mfs_lsb arch_lsb log' r'
              (before ++ (record { logstamp = log.logstamp; bytes = entry } ∷ []))
          → AddsUp log' more r'
              (before ++ (record { logstamp = log.logstamp; bytes = entry } ∷ []))
              (rest log'))
      → AddsUp log (entry ∷ more) r before (elim result [
        | filled logs log' copied ↦ elim (rest log') [
          | some s ↦ some (record {
            written = logs ++ s.written;
            current = s.current;
            entries = record { logstamp = log.logstamp; bytes = entry } ∷ s.entries;
          })
          | none ↦ none
        ]
        | no_current_log ↦ none
        | no_end ↦ none
      ])
  unfolding Adds AddsUp
  AddsUp-first log entry more r before no_current_log rest w ready even first h a later = a
  AddsUp-first log entry more r before no_end rest w ready even first h a later = a
  AddsUp-first log entry more r before (filled logs log' copied) rest w ready even first h a later =
      let (reached, even') =
        Reaches-add mfs_lsb arch_lsb entry log logs log' r before w ready even a h in
      let (fits, first') =
        Marked-AllFit log.first (length entry - (body_size - log.size)) logs log' first a.full
          a.marks in
      AddsUp-more log entry more r reached.0 before logs log' (rest log') a.stamps
        (Added-counted entry log logs log' ready a) fits reached.1
        (later log' reached.0 a.ready even' first' reached.2)

  pub add_entries-AddsUp :
      (log : CurrentLog) (more : List (List ℕ)) (r : Reader) (before : List LogEntry)
      → AreEntries more
      → Ready log
      → log.size % 2 ≡ 0
      → log.first ≤ body_size
      → Continues mfs_lsb arch_lsb log r before
      → AddsUp log more r before (add_entries log more)
  unfolding add_entries AddsUp AreEntries bytes_of AllFit total Runs Stamped
  add_entries-AddsUp log [] r before w ready even first h = record {
    ready = ready;
    even = even;
    stamps = refl;
    counted = omega arith;
    fits = tt;
    last_fits = first;
    same = refl;
    reaches = (r, refl, rw (append-nil before) h);
  }
  add_entries-AddsUp log (entry ∷ more) r before w ready even first h =
      AddsUp-first log entry more r before (log_add_entry mfs_lsb arch_lsb (some log) entry)
        (λ log'. add_entries log' more) w.0 ready even first h
        (log_add_entry-Adds mfs_lsb arch_lsb log entry ready w.0.says)
        (λ log' r' ready' even' first' h'.
          add_entries-AddsUp log' more r' _ w.1 ready' even' first' h')
