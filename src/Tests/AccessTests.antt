-- ===== src/Tests/AccessTests.antt =====
-- A partition whose bytes are swapped, on descriptors that read.
use mfstools.Base.{
  ℕ, ◌+◌, ◌≡◌, refl, arith, true, false, some, List, [], ◌∷◌, min, if◌then◌else◌, ◌==◌,
}
use mfstools.Spans.{sectors_from}
use mfstools.Volume.Overlay.{Reads}
use mfstools.Access.{Sector, FdResult, fd_sectors, fd_eio, TpFile, data_swab, tivo_partition_read}
use mfstools.Access.Swab.{AreBytes, swap_pairs, data_swab-swap_pairs}
use mfstools.Access.Partition.{Gives, sector_of, tivo_partition_read-Reads}
use mfstools.Access.Rescue.{tivo_partition_read_rescues}

abbrev bytes : List ℕ
bytes = 1 ∷ 2 ∷ 3 ∷ 4 ∷ 5 ∷ 6 ∷ 7 ∷ []

bytes-AreBytes : AreBytes bytes
unfolding AreBytes
bytes-AreBytes = (
  omega arith,
  (omega arith, (omega arith, (omega arith, (omega arith, (omega arith, (omega arith, tt)))))),
)

data_swab-swap_pairs_example : data_swab false bytes ≡ swap_pairs bytes
data_swab-swap_pairs_example = data_swab-swap_pairs false bytes bytes-AreBytes

abbrev raw : ℕ → Sector
raw k = 1 ∷ 2 ∷ []

abbrev file : TpFile
file = record { sectors = 1000; offset = 64; swab = true }

abbrev two_at_most : ℕ → ℕ → FdResult
two_at_most pos n = fd_sectors (sectors_from raw pos (min 2 n))

two_at_most-Gives : Gives two_at_most (64 + 1000) raw
two_at_most-Gives = record {
  amount = λ pos n. min 2 n;
  some_given = λ pos n h. (omega arith, omega arith);
  gives = λ pos n h h'. refl;
}

tivo_partition_read-Reads_example :
    Reads
      (λ f sector count. tivo_partition_read true two_at_most [] f sector count)
      file
      1000
      (sector_of true file raw)
tivo_partition_read-Reads_example =
    tivo_partition_read-Reads true raw two_at_most [] file two_at_most-Gives (omega arith)

-- A descriptor that fails on more than one sector.
abbrev one_by_one : ℕ → ℕ → FdResult
one_by_one pos n = if n == 1 then fd_sectors (raw pos ∷ []) else fd_eio

raw-AreBytes : (k : ℕ) → AreBytes (raw k)
unfolding AreBytes
raw-AreBytes k = (omega arith, (omega arith, tt))

tivo_partition_read_rescues_example :
    tivo_partition_read true one_by_one [] file 10 2 ≡ some ((1 ∷ 2 ∷ []) ∷ (1 ∷ 2 ∷ []) ∷ [])
tivo_partition_read_rescues_example =
    tivo_partition_read_rescues true one_by_one [] raw (λ k. refl) raw-AreBytes file 10 2
      (omega arith) (omega arith) (omega arith) (omega arith) refl
