-- ===== src/Access/Partition.antt =====
-- tivo_partition_read is what mfsvol_read_data asks of it.
use mfstools.Base.{
  ℕ, zero, suc, ◌+◌, ◌^◌, ◌≤◌, ◌<◌, ◌≡◌, refl, ap, ◌∙◌, Bool, true, false, some, ◌∷◌, arith, ltb,
  ◌==◌, if◌then◌else◌, add64,
}
use mfstools.Spans.{sectors_from}
use mfstools.Volume.Overlay.{Reads}
use mfstools.Access.{Sector, FdResult, fd_sectors, TpFile, data_swab, swab_all, tivo_partition_read}

-- A descriptor that gives at least one sector of those it is asked for, up to `limit`.
pub record Gives (fd : ℕ → ℕ → FdResult) (limit : ℕ) (raw : ℕ → Sector) : Type 0 where
  pub amount : ℕ → ℕ → ℕ
  pub some_given : (pos n : ℕ) → 0 < n → (0 < amount pos n) × (amount pos n ≤ n)
  pub gives :
      (pos n : ℕ)
      → 0 < n
      → pos + n ≤ limit
      → fd pos n ≡ fd_sectors (sectors_from raw pos (amount pos n))

-- A sector of the partition, as the machine is to see it.
abbrev pub sector_of : Bool → TpFile → (ℕ → Sector) → ℕ → Sector
sector_of arch_lsb file raw k =
    if file.swab then data_swab arch_lsb (raw (k + file.offset)) else raw (k + file.offset)

module _ (arch_lsb : Bool) (raw : ℕ → Sector) where
  finish_read-sectors_from :
      (swab : Bool) (sectors offset k m : ℕ)
      → (if swab
          then swab_all arch_lsb (sectors_from raw (k + offset) m)
          else sectors_from raw (k + offset) m)
        ≡ sectors_from
            (sector_of arch_lsb (record { sectors = sectors; offset = offset; swab = swab }) raw)
            k
            m
  unfolding swab_all
  finish_read-sectors_from true sectors offset k zero = refl
  finish_read-sectors_from false sectors offset k zero = refl
  finish_read-sectors_from true sectors offset k (suc m) =
      ap (λ t. data_swab arch_lsb (raw (k + offset)) ∷ t)
        (ap (λ (j : ℕ). swab_all arch_lsb (sectors_from raw j m)) one_more
          ∙ finish_read-sectors_from true sectors offset (suc k) m)
    where
      one_more : suc (k + offset) ≡ suc k + offset
      one_more = omega arith
  finish_read-sectors_from false sectors offset k (suc m) =
      ap (λ t. raw (k + offset) ∷ t)
        (ap (λ (j : ℕ). sectors_from raw j m) one_more
          ∙ finish_read-sectors_from false sectors offset (suc k) m)
    where
      one_more : suc (k + offset) ≡ suc k + offset
      one_more = omega arith

  -- On a descriptor that gives sectors up to the end of the partition, tivo_partition_read is a read
  -- that mfsvol_read_data can rest on: within the partition it gives at least one sector, from the
  -- partition's offset on and with the bytes swapped if the file says so.
  pub tivo_partition_read-Reads :
      (fd : ℕ → ℕ → FdResult) (junk : Sector) (file : TpFile)
      → Gives fd (file.offset + file.sectors) raw
      → file.offset + file.sectors < 2 ^ 64
      → Reads
          (λ f sector count. tivo_partition_read arch_lsb fd junk f sector count)
          file
          file.sectors
          (sector_of arch_lsb file raw)
  unfolding tivo_partition_read
  tivo_partition_read-Reads fd junk file given small = record {
    amount = λ pos n. given.amount (pos + file.offset) n;
    some_read = λ pos n h. given.some_given (pos + file.offset) n h;
    gives = λ pos n h inside. rw (fits pos n inside) (
        rw (wanted pos n h) (
          rw (place pos n inside) (
            rw (given.gives (pos + file.offset) n h (omega arith)) (
              ap some (
                finish_read-sectors_from file.swab file.sectors file.offset pos
                  (given.amount (pos + file.offset) n))))));
  }
    where
      fits : (pos n : ℕ) → pos + n ≤ file.sectors → ltb file.sectors (add64 pos n) ≡ false
      fits pos n inside = ground (arith, small)

      wanted : (pos n : ℕ) → 0 < n → (n == 0) ≡ false
      wanted pos n h = ground arith

      place : (pos n : ℕ) → pos + n ≤ file.sectors → add64 pos file.offset ≡ pos + file.offset
      place pos n inside = omega (arith, small)
