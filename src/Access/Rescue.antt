-- ===== src/Access/Rescue.antt =====
-- What tivo_partition_read does when a read of several sectors fails and each can be read alone.
use mfstools.Base.{
  ℕ, zero, suc, ◌+◌, ◌^◌, ◌≤◌, ◌<◌, ◌≡◌, refl, ap, ap₂, ◌∙◌, Bool, true, false, Option, none, some,
  List, [], ◌∷◌, arith, ltb, ◌==◌, if◌then◌else◌, add64, u32,
}
use mfstools.Spans.{sectors_from}
use mfstools.Access.{
  Sector, FdResult, fd_sectors, fd_eio, TpFile, data_swab, swab_all, finish_read, read_one,
  read_each, tivo_partition_read,
}
use mfstools.Access.Swab.{AreBytes, data_swab_twice}
use mfstools.Access.Partition.{sector_of}

module _ (arch_lsb : Bool) (fd : ℕ → ℕ → FdResult) (junk : Sector) (raw : ℕ → Sector)
    (singles : (k : ℕ) → fd k 1 ≡ fd_sectors (raw k ∷ []))
    (are_bytes : (k : ℕ) → AreBytes (raw k)) where
  read_one_lem :
      (file : TpFile) (k : ℕ)
      → k + 1 ≤ file.sectors
      → file.offset + file.sectors < 2 ^ 64
      → read_one arch_lsb fd file k
        ≡ some (finish_read arch_lsb fd file (raw (k + file.offset) ∷ []))
  unfolding read_one
  read_one_lem file k inside fits = rw (within) (rw (place) (rw (singles (k + file.offset)) refl))
    where
      within : ltb file.sectors (add64 k 1) ≡ false
      within = ground (arith, inside, fits)

      place : add64 k file.offset ≡ k + file.offset
      place = omega (arith, inside, fits)

  read_each-sectors_from :
      (file : TpFile) (n k : ℕ)
      → k + n ≤ file.sectors
      → k + n < 2 ^ 32
      → file.offset + file.sectors < 2 ^ 64
      → read_each arch_lsb fd junk file k n ≡ some (sectors_from (sector_of arch_lsb file raw) k n)
  unfolding read_each read_one
  read_each-sectors_from file zero k inside small fits = refl
  read_each-sectors_from file (suc n) k inside small fits =
      rw (read_one_lem file k (omega arith) fits, read_each)
        (ap
            (λ r. elim r as (λ _. Option (List Sector)) [
              | none ↦ none
              | some later ↦
                  some (first (finish_read arch_lsb fd file (raw (k + file.offset) ∷ [])) ∷ later)
            ])
            (ap (λ (j : ℕ). read_each arch_lsb fd junk file j n) next
              ∙ read_each-sectors_from file n (suc k) (omega arith) (omega arith) fits)
          ∙ ap (λ t. some (t ∷ sectors_from (sector_of arch_lsb file raw) (suc k) n))
              (choose file.swab))
    where
      next : u32 (k + 1) ≡ suc k
      next = omega (arith, small)

      first : List Sector → Sector
      first [] = junk
      first (sector ∷ sectors) = sector

      choose :
          (swab : Bool)
          → first (
              if swab
              then swab_all arch_lsb (raw (k + file.offset) ∷ [])
              else raw (k + file.offset) ∷ [])
            ≡ (if swab then data_swab arch_lsb (raw (k + file.offset)) else raw (k + file.offset))
      choose true = unfold swab_all in refl
      choose false = refl

  -- Swapping the bytes once more leaves them as they stand on the device.
  finish_read_again :
      (swab : Bool) (sectors offset n k : ℕ)
      → (let file : TpFile = record { sectors = sectors; offset = offset; swab = swab } in
          finish_read arch_lsb fd file (sectors_from (sector_of arch_lsb file raw) k n)
          ≡ sectors_from raw (k + offset) n)
  unfolding swab_all
  finish_read_again true sectors offset zero k = refl
  finish_read_again false sectors offset zero k = refl
  finish_read_again true sectors offset (suc n) k =
      ap₂ ◌∷◌ (data_swab_twice arch_lsb (raw (k + offset)) (are_bytes (k + offset))) (
        finish_read_again true sectors offset n (suc k)
        ∙ ap (λ (j : ℕ). sectors_from raw j n) one_more)
    where
      one_more : suc k + offset ≡ suc (k + offset)
      one_more = omega arith
  finish_read_again false sectors offset (suc n) k =
      ap (λ t. raw (k + offset) ∷ t)
        (finish_read_again false sectors offset n (suc k)
          ∙ ap (λ (j : ℕ). sectors_from raw j n) one_more)
    where
      one_more : suc k + offset ≡ suc (k + offset)
      one_more = omega arith

  -- When a read of several sectors fails with EIO and each of them can be read alone, below the
  -- sector 2 ^ 32, tivo_partition_read gives the bytes as they stand on the device, whether or not
  -- the file asks for them to be swapped: the bytes of such a file are swapped twice.
  pub tivo_partition_read_rescues :
      (file : TpFile) (sector count : ℕ)
      → 1 < count
      → sector + count ≤ file.sectors
      → sector + count < 2 ^ 32
      → file.offset + file.sectors < 2 ^ 64
      → fd (sector + file.offset) count ≡ fd_eio
      → tivo_partition_read arch_lsb fd junk file sector count
        ≡ some (sectors_from raw (sector + file.offset) count)
  unfolding tivo_partition_read
  tivo_partition_read_rescues file sector count several inside small fits broken = rw (within) (
      rw (wanted) (
        rw (place) (
          rw (broken) (
            rw (more) (
              ap
                (λ r. elim r as (λ _. Option (List Sector)) [
                  | none ↦ none
                  | some buf ↦ some (finish_read arch_lsb fd file buf)
                ])
                (ap (λ (j : ℕ). read_each arch_lsb fd junk file j count) start
                  ∙ read_each-sectors_from file count sector inside small fits)
              ∙ ap some (finish_read_again file.swab file.sectors file.offset count sector))))))
    where
      within : ltb file.sectors (add64 sector count) ≡ false
      within = ground (arith, inside, small)

      wanted : (count == 0) ≡ false
      wanted = ground (arith, several)

      more : (count == 1) ≡ false
      more = ground (arith, several)

      place : add64 sector file.offset ≡ sector + file.offset
      place = omega (arith, inside, fits)

      start : u32 sector ≡ sector
      start = omega (arith, small)
