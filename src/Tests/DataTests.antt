-- ===== src/Tests/DataTests.antt =====
-- The data of an inode in two runs, a directory and an object.
use mfstools.Base.{
  ℕ, ◌+◌, ◌/◌, ◌≤◌, ◌<◌, ◌≡◌, inl, inr, refl, arith, true, false, some, none, List, [], ◌∷◌, ◌++◌,
  replicate, if◌then◌else◌, ◌==◌, take, drop,
}
use mfstools.Util.{intswap16, intswap32, endian16_swap}
use mfstools.Crc.{word_at, word_bytes}
use mfstools.Inode.{Sector, field, numblocks_word}
use mfstools.Inode.Runs.{Run, got, run_at, runs_from, in_inode, read_data_part, write_data_part}
use mfstools.Inode.Runs.Reading.{contents, Serves, Within, read_data_part-contents}
use mfstools.Inode.Runs.Stored.{Stores, Clear, Separate, Outside, total_count}
use mfstools.Inode.Runs.RoundTrip.{read_data_part-write_data_part}
use mfstools.Inode.Directory.{
  Dirent, ty_dir, Listing, no_dir, entries, half_at, parse_dir, count_entries,
}
use mfstools.Inode.Directory.Layout.{NoZero}
use mfstools.Inode.Directory.Endless.{count_entries_endless}
use mfstools.Inode.Directory.Entries.{AreEntries, dir_bytes, total_words, parse_dir-dir_bytes}
use mfstools.Inode.Directory.Paths.{
  same_name, tokens_from, find_entry, resolved, walk, Leads, here, enter,
}
use mfstools.Inode.Objects.{attribute, parse_subobj}
use mfstools.Inode.Objects.Attributes.{
  Attribute, attrs_bytes, AreAttributes, size_of_attrs, parse_subobj-attrs_bytes,
}
use mfstools.Tests.InodeTests.{Content, memory, zones}

-- An inode with the runs of 3 sectors at 100 and of 5 sectors at 40.
abbrev two_runs : Sector
two_runs =
    replicate 56 0
    ++ word_bytes true 2
    ++ word_bytes true 100
    ++ word_bytes true 3
    ++ word_bytes true 40
    ++ word_bytes true 5

abbrev runs : List Run
runs = runs_from true true false two_runs (field true true numblocks_word two_runs) 0

runs_read : runs ≡ record { sector = 100; count = 3 } ∷ record { sector = 40; count = 5 } ∷ []
unfolding runs_from run_at intswap32 word_at word_bytes
runs_read = refl

in_runs : in_inode true true false two_runs ≡ false
unfolding intswap32 word_at word_bytes
in_runs = refl

runs-Within : Within 4096 runs
unfolding Within runs_from run_at intswap32 word_at word_bytes
runs-Within = (omega arith, omega arith)

runs-Separate : Separate runs
unfolding Separate Clear runs_from run_at intswap32 word_at word_bytes
runs-Separate = ((inr (omega arith), tt), (tt, tt))

runs_room : 1 + 4 ≤ total_count runs
unfolding total_count runs_from run_at intswap32 word_at word_bytes
runs_room = omega arith

-- Sector 48 is in neither run.
runs-Outside : Outside 48 runs
unfolding Outside runs_from run_at intswap32 word_at word_bytes
runs-Outside = (inl (omega arith), (inr (omega arith), tt))

memory-Serves : (s : Content) → Serves memory s 4096 s
memory-Serves s = record { reads = λ sector n h. refl }

memory-Stores : Stores memory 4096 (λ s. s)
memory-Stores = record { writes = λ s sector new h. refl; holds = λ s sector new k h. refl }

abbrev numbered : Content
numbered k = k ∷ []

read_data_part-contents_example :
    read_data_part memory true true false numbered two_runs 2 4
    ≡ got (take 4 (drop 2 (contents numbered runs)))
read_data_part-contents_example =
    read_data_part-contents memory numbered 4096 numbered (omega arith) (memory-Serves numbered)
      true true false two_runs 2 4 in_runs runs-Within

over_the_end :
    take 4 (drop 2 (contents numbered runs)) ≡ (102 ∷ []) ∷ (40 ∷ []) ∷ (41 ∷ []) ∷ (42 ∷ []) ∷ []
unfolding contents runs_from run_at intswap32 word_at word_bytes
over_the_end = refl

abbrev four_new : List Sector
four_new = replicate 4 (7 ∷ [])

read_data_part-write_data_part_example :
    let (result, inode', s') =
      write_data_part memory true true false zones numbered two_runs four_new 1 in
    (result ≡ some 4)
    × (inode' ≡ two_runs)
    × (s' 48 ≡ 48 ∷ [])
    × (read_data_part memory true true false s' two_runs 1 4 ≡ got four_new)
read_data_part-write_data_part_example =
    read_data_part-write_data_part memory 4096 (λ s. s) (omega arith) memory-Stores memory-Serves
      true true false zones numbered two_runs four_new 1 48 in_runs runs-Within runs-Separate
      runs_room runs-Outside

-- `a`, a directory, and `bc`, a file.
abbrev dir_a : Dirent
dir_a = record { fsid = 300; type = ty_dir; name = 97 ∷ [] }

abbrev file_bc : Dirent
file_bc = record { fsid = 70000; type = 1; name = 98 ∷ 99 ∷ [] }

abbrev listed : List Dirent
listed = dir_a ∷ file_bc ∷ []

listed-AreEntries : AreEntries false true listed
unfolding AreEntries NoZero
listed-AreEntries = (
  record {
    small_fsid = omega arith;
    short_name = omega arith;
    plain_name = (λ e. absurd (omega (arith, e)), tt);
  },
  (
    record {
      small_fsid = omega arith;
      short_name = omega arith;
      plain_name = (λ e. absurd (omega (arith, e)), (λ e. absurd (omega (arith, e)), tt));
    },
    tt,
  ),
)

-- The header counts 24 bytes: its own 4, and two entries of 8 and 12.
listed_limit :
    intswap16 false true (half_at true (0 ∷ 24 ∷ 2 ∷ 0 ∷ []) 0) / 4
    ≡ 1 + total_words false true listed
unfolding intswap16 endian16_swap total_words
listed_limit = refl

listed_words : total_words false true listed < 16384
unfolding total_words
listed_words = omega arith

parse_dir-dir_bytes_example :
    parse_dir false true 16384 (0 ∷ 24 ∷ 2 ∷ 0 ∷ (dir_bytes false true listed ++ 9 ∷ []))
    ≡ some listed
parse_dir-dir_bytes_example =
    parse_dir-dir_bytes false true 16384 0 24 2 0 listed (9 ∷ []) listed-AreEntries listed_limit
      listed_words

count_entries_endless_example : count_entries false true 1000 (replicate 8 0) 1 3 ≡ none
count_entries_endless_example =
    count_entries_endless false true 1000 (replicate 8 0) 1 3 (omega arith) (omega arith)

-- The root holds `a` and `bc`, and `a` holds `bc`.
abbrev tree : ℕ → Listing
tree n = if n == 1 then entries listed else if n == 300 then entries (file_bc ∷ []) else no_dir

a-Leads : Leads tree 1 (tokens_from [] (97 ∷ [])) 300
unfolding tokens_from find_entry same_name
a-Leads = enter {e = dir_a} refl refl refl here

a_bc_resolved : walk tree 300 (tokens_from [] (b'/' ∷ 98 ∷ 99 ∷ [])) ≡ resolved 70000
unfolding walk tokens_from find_entry same_name
a_bc_resolved = refl

abbrev attrs : List Attribute
attrs = record { type = 5; body = 1 ∷ 2 ∷ 3 ∷ [] } ∷ record { type = 6; body = 4 ∷ [] } ∷ []

attrs-AreAttributes : AreAttributes false true attrs
unfolding AreAttributes
attrs-AreAttributes = (omega arith, omega arith, (omega arith, omega arith, tt))

attrs_size : 16 ≡ 0 + size_of_attrs false true attrs
unfolding size_of_attrs
attrs_size = refl

parse_subobj-attrs_bytes_example :
    parse_subobj false true 3 (attrs_bytes false true attrs ++ 8 ∷ []) 16 0
    ≡ some (attribute 5 (1 ∷ 2 ∷ 3 ∷ []) ∷ attribute 6 (4 ∷ []) ∷ [])
parse_subobj-attrs_bytes_example =
    parse_subobj-attrs_bytes false true 3 attrs (8 ∷ []) 16 0 attrs-AreAttributes attrs_size
      (omega arith)
