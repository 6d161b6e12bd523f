-- ===== src/Access.antt =====
-- Reading a partition, lib/readwrite.c: data_swab and tivo_partition_read, as built with lseek64 and
-- read and not for Mac OS. The file descriptor is a parameter: what `lseek64` and `read` give.
pub mod Swab
pub mod Partition
pub mod Rescue
use mfstools.Base.{
  ℕ, zero, suc, ◌+◌, ◌/◌, Bool, Option, none, some, List, [], ◌∷◌, ◌++◌, ltb, ◌==◌, if◌then◌else◌,
  bit_and, bit_or, add64, u32, ◌<<◌, ◌>>◌, replicate,
}
use mfstools.Crc.{word_at, word_bytes}

abbrev pub Sector : Type 0
Sector = List ℕ

-- `((*idata << 8) & 0xff00ff00) | ((*idata & 0xff00ff00) >> 8)`
unfoldable pub swab_word : ℕ → ℕ
swab_word n = bit_or (bit_and (u32 (n << 8)) 0xff00ff00) (bit_and n 0xff00ff00 >> 8)

-- data_swab: by words, and the two bytes that may be left.
unfoldable pub data_swab : Bool → List ℕ → List ℕ
unfolding swab_word
data_swab arch_lsb (a ∷ b ∷ c ∷ d ∷ bytes) =
    word_bytes arch_lsb (swab_word (word_at arch_lsb (a ∷ b ∷ c ∷ d ∷ []) 0))
    ++ data_swab arch_lsb bytes
data_swab arch_lsb (a ∷ b ∷ c ∷ []) = b ∷ a ∷ c ∷ []
data_swab arch_lsb (a ∷ b ∷ []) = b ∷ a ∷ []
data_swab arch_lsb (a ∷ []) = a ∷ []
data_swab arch_lsb [] = []

-- What seeking to a sector and reading so many gives: the whole sectors that were read, a failure with
-- EIO, or another one. A part of a sector at the end is left out, as mfsvol_read_data does.
pub data FdResult : Type 0 where
  fd_sectors : List Sector → FdResult
  fd_eio fd_error : FdResult

-- `tpFILE`: tivo_partition_size, tivo_partition_offset and _tivo_partition_swab of it.
pub record TpFile : Type 0 where
  pub sectors : ℕ
  pub offset : ℕ
  pub swab : Bool

unfoldable pub swab_all : Bool → List Sector → List Sector
unfolding data_swab
swab_all arch_lsb [] = []
swab_all arch_lsb (sector ∷ sectors) = data_swab arch_lsb sector ∷ swab_all arch_lsb sectors

module _ (arch_lsb : Bool) (fd : ℕ → ℕ → FdResult) where
  -- The end of tivo_partition_read, once the buffer holds the sectors.
  abbrev pub finish_read : TpFile → List Sector → List Sector
  finish_read file buf = if file.swab then swab_all arch_lsb buf else buf

  -- tivo_partition_read of one sector: one that cannot be read is taken for zeros. `none` is a negative
  -- result.
  unfoldable pub read_one : TpFile → ℕ → Option (List Sector)
  unfolding swab_all
  read_one file sector =
      if ltb file.sectors (add64 sector 1) then none else elim (fd (add64 sector file.offset) 1) [
        | fd_sectors buf ↦ some (finish_read file buf)
        | fd_eio ↦ some (finish_read file (replicate 512 0 ∷ []))
        | fd_error ↦ none
      ]

  -- The loop that reads sector by sector, from the number that `orig_sector` holds. A sector that is
  -- not filled keeps what the buffer held, `junk`.
  unfoldable pub read_each : Sector → TpFile → ℕ → ℕ → Option (List Sector)
  unfolding read_one
  read_each junk file orig_sector zero = some []
  read_each junk file orig_sector (suc n) =
      let rest = read_each junk file (u32 (orig_sector + 1)) n in
      elim (read_one file orig_sector) [
        | none ↦ none
        | some got ↦ elim rest [
          | none ↦ none
          | some later ↦ some (elim got [ [] ↦ junk | ◌∷◌ sector sectors ↦ sector ] ∷ later)
        ]
      ]

  -- tivo_partition_read
  unfoldable pub tivo_partition_read : Sector → TpFile → ℕ → ℕ → Option (List Sector)
  unfolding read_each
  tivo_partition_read junk file sector count =
      let rescued : Option (List Sector) =
        if count == 1
        then some (finish_read file (replicate 512 0 ∷ []))
        else elim (read_each junk file (u32 sector) count) [
          | none ↦ none
          | some buf ↦ some (finish_read file buf)
        ] in
      if ltb file.sectors (add64 sector count)
      then none
      else if count == 0
      then some []
      else elim (fd (add64 sector file.offset) count) [
        | fd_sectors buf ↦ some (finish_read file buf)
        | fd_eio ↦ rescued
        | fd_error ↦ none
      ]
