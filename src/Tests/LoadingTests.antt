-- ===== src/Tests/LoadingTests.antt =====
-- Loading the log at concrete inputs: a log of two entries that is committed and loaded, and an empty
-- device.
use mfstools.Base.{
  ℕ, ◌≡◌, ◌≢◌, refl, true, false, some, none, List, [], ◌∷◌, ◌++◌, arith, replicate,
}
use mfstools.Util.{intswap16, endian16_swap, intswap32, endian32_swap}
use mfstools.Crc.{word_at}
use mfstools.Inode.{Sector}
use mfstools.Log.{CurrentLog, log_read}
use mfstools.Log.Rounds.{Ready}
use mfstools.Log.Loading.{reading, log_load_list, load_no_end, load_sector, start_sector}
use mfstools.Log.Loading.Sessions.{Session, add_entries, AreEntries, total}
use mfstools.Log.Loading.Cycle.{Loads, log_load_list-add_entries}
use mfstools.Log.Loading.Terminating.{log_load_list-Ends}
use mfstools.Tests.InodeTests.{memory}
use mfstools.Tests.LogTests.{memory-Serves, memory-Stores, area, empty}

abbrev fresh : CurrentLog
fresh = record { logstamp = 7; first = 0; size = 0; body = replicate 496 0 }

abbrev one : List ℕ
one = 0 ∷ 8 ∷ 2 ∷ 3 ∷ 4 ∷ 5 ∷ 6 ∷ 7 ∷ 8 ∷ 9 ∷ []

-- An entry that goes on in the next sector.
abbrev two : List ℕ
two = 2 ∷ 2 ∷ replicate 514 1

fresh-Ready : Ready fresh
fresh-Ready = record { has_room = omega arith; whole = refl; blank = refl }

both : AreEntries false true (one ∷ two ∷ [])
unfolding AreEntries intswap16 endian16_swap
both = (
  record { says = refl; longer = omega arith; even = refl },
  (record { says = refl; longer = omega arith; even = refl }, tt),
)

log_load_list-add_entries_example :
    (session : Session) × (add_entries false true fresh (one ∷ two ∷ []) ≡ some session)
    × Loads memory 4096
        (λ s. s)
        (omega arith)
        memory-Stores
        memory-Serves
        false
        true
        area
        (omega arith)
        (omega arith)
        empty
        fresh
        (one ∷ two ∷ [])
        6
        session
unfolding total
log_load_list-add_entries_example =
    log_load_list-add_entries memory 4096 (λ s. s) (omega arith) memory-Stores memory-Serves false
      true area (omega arith) (omega arith) empty fresh (one ∷ two ∷ []) 6 both fresh-Ready refl
      refl (omega arith) (omega arith)

log_load_list-Ends_example :
    log_load_list false true (log_read memory false true area empty) 16 6 7 20 ≢ load_no_end
log_load_list-Ends_example =
    log_load_list-Ends false true memory area empty 6 7 20 (omega arith) (omega arith)

-- The sector of stamp 7 with the first of the entries, as a commit ends it.
abbrev committed_sector : Sector
committed_sector =
    0 ∷ 0 ∷ 0 ∷ 7 ∷ 0 ∷ 0 ∷ 0 ∷ 0 ∷ 0 ∷ 0 ∷ 0 ∷ 0 ∷ 0 ∷ 0 ∷ 0 ∷ 12 ∷ (one ++ replicate 486 0)

one_loaded :
    load_sector false true 7 committed_sector (record { entries = []; cur = none; remaining = 0 })
    ≡ reading
        (record { entries = record { logstamp = 7; bytes = one } ∷ []; cur = none; remaining = 0 })
unfolding load_sector start_sector intswap32 endian32_swap word_at intswap16 endian16_swap
one_loaded = refl
