-- ===== src/Header/Stored.antt =====
-- A volume header that is written is loaded, from its backup if its first copy is damaged.
use mfstools.Base.{
  ℕ, ◌+◌, ◌-◌, ◌^◌, ◌≤◌, ◌<◌, ◌≡◌, refl, ap, ◌∙◌, Bool, true, false, some, List, [], ◌∷◌, ◌++◌,
  arith, take, replicate, length, sub64,
}
use mfstools.Inode.{Sector, Drive}
use mfstools.Inode.Runs.Reading.{Serves}
use mfstools.Inode.Runs.Stored.{Stores}
use mfstools.Inode.Runs.Slices.{take-append_within, take_all}
use mfstools.Log.Ring.{over_one, beside_one}
use mfstools.Header.{
  header, magic_of, good_checksum, read_header, load_header, sealed, write_header,
}
use mfstools.Header.Copies.{
  IsHeader, SameMagic, sealed-SameMagic, good_checksum-sealed, load_header_first,
  check_copies_header, check_header_good, check_header_bad, length-sealed,
}

-- The first copy of a header, as it was written or damaged behind its magic.
pub data FirstCopy (arch_lsb mfs_lsb is_64 : Bool) (hdr found : List ℕ) : Type 0 where
  undamaged : found ≡ sealed arch_lsb mfs_lsb is_64 hdr → FirstCopy arch_lsb mfs_lsb is_64 hdr found
  damaged :
      SameMagic found hdr
      → good_checksum arch_lsb mfs_lsb is_64 found ≡ false
      → FirstCopy arch_lsb mfs_lsb is_64 hdr found

module _ {S : Type 0} (drive : Drive S) (size : ℕ) (content : S → ℕ → Sector)
    (small : size < 2 ^ 64) (stores : Stores drive size content)
    (serves : (s : S) → Serves drive s size (content s)) (arch_lsb : Bool) (volume_size : ℕ)
    (backed : 1 < volume_size) (inside : volume_size ≤ size) where
  read_header_lem :
      (s : S) (sector : ℕ)
      → sector < size
      → read_header arch_lsb drive volume_size s sector ≡ some (take 280 (content s sector))
  unfolding read_header
  read_header_lem s sector h = rw ((serves s).reads sector 1 (omega arith), read_header) refl

  abbrev written_sector : Bool → Bool → List ℕ → Sector
  written_sector mfs_lsb is_64 hdr = sealed arch_lsb mfs_lsb is_64 hdr ++ replicate (512 - 280) 0

  -- The drive after the first of the two writes, and after both.
  unfoldable first_write : S → Sector → S
  first_write s buf = (drive.write s 0 (buf ∷ [])).1

  unfoldable both_writes : S → Sector → S
  unfolding first_write
  both_writes s buf = (drive.write (first_write s buf) (volume_size - 1) (buf ∷ [])).1

  last_eq : sub64 volume_size 1 ≡ volume_size - 1
  last_eq = omega (arith, small, inside, backed)

  write_header_lem :
      (mfs_lsb is_64 : Bool) (hdr : List ℕ) (s : S)
      → write_header arch_lsb drive volume_size s mfs_lsb is_64 hdr
        ≡ (true, both_writes s (written_sector mfs_lsb is_64 hdr))
  unfolding write_header first_write both_writes
  write_header_lem mfs_lsb is_64 hdr s = rw (last_eq, first, second) refl
    where
      buf : Sector
      buf = written_sector mfs_lsb is_64 hdr

      first : (drive.write s 0 (buf ∷ [])).0 ≡ some 1
      first = stores.writes s 0 (buf ∷ []) (omega (arith, backed, inside))

      second : (drive.write (first_write s buf) (volume_size - 1) (buf ∷ [])).0 ≡ some 1
      second =
          stores.writes (first_write s buf) (volume_size - 1) (buf ∷ [])
            (omega (arith, backed, inside))

  content-both_writes :
      (s : S) (buf : Sector)
      → (content (both_writes s buf) (volume_size - 1) ≡ buf)
        × (content (both_writes s buf) 0 ≡ buf)
  unfolding first_write both_writes
  content-both_writes s buf = (
    stores.holds (first_write s buf) (volume_size - 1) (buf ∷ []) (volume_size - 1) within
        ∙ over_one (volume_size - 1) buf (content (first_write s buf) (volume_size - 1)),
    stores.holds (first_write s buf) (volume_size - 1) (buf ∷ []) 0 within
        ∙ beside_one (volume_size - 1) 0 buf (content (first_write s buf) 0)
            (λ e. omega (arith, e, backed))
        ∙ stores.holds s 0 (buf ∷ []) 0 (omega (arith, backed, inside))
        ∙ over_one 0 buf (content s 0),
  )
    where
      within : volume_size - 1 + 1 ≤ size
      within = omega (arith, backed, inside)

  take-written_sector :
      (mfs_lsb is_64 : Bool) (hdr : List ℕ)
      → length hdr ≡ 280
      → take 280 (written_sector mfs_lsb is_64 hdr) ≡ sealed arch_lsb mfs_lsb is_64 hdr
  take-written_sector mfs_lsb is_64 hdr h =
      take-append_within 280 (sealed arch_lsb mfs_lsb is_64 hdr) _
        (omega (arith, length-sealed arch_lsb mfs_lsb is_64 hdr h))
      ∙ take_all 280 (sealed arch_lsb mfs_lsb is_64 hdr)
          (omega (arith, length-sealed arch_lsb mfs_lsb is_64 hdr h))

  load_header_lem :
      (mfs_lsb is_64 : Bool) (hdr : List ℕ) (s : S) (error_ok : Bool)
      → IsHeader arch_lsb mfs_lsb is_64 hdr
      → content s (volume_size - 1) ≡ written_sector mfs_lsb is_64 hdr
      → FirstCopy arch_lsb mfs_lsb is_64 hdr (take 280 (content s 0))
      → load_header arch_lsb drive volume_size s error_ok
        ≡ header mfs_lsb is_64 (magic_of arch_lsb mfs_lsb hdr) (sealed arch_lsb mfs_lsb is_64 hdr)
  load_header_lem mfs_lsb is_64 hdr s error_ok i backup (undamaged e) =
      load_header_first arch_lsb drive volume_size mfs_lsb is_64 hdr i s error_ok copy
        (read_header_lem s 0 (omega (arith, backed, inside)) ∙ ap some e) same
      ∙ check_copies_header arch_lsb drive volume_size mfs_lsb is_64 hdr i s error_ok copy same
      ∙ check_header_good arch_lsb drive volume_size mfs_lsb is_64 hdr i s error_ok copy
          (good_checksum-sealed arch_lsb mfs_lsb is_64 hdr i.whole)
    where
      copy : List ℕ
      copy = sealed arch_lsb mfs_lsb is_64 hdr

      same : SameMagic copy hdr
      same = sealed-SameMagic arch_lsb mfs_lsb is_64 hdr i.whole
  load_header_lem mfs_lsb is_64 hdr s error_ok i backup (damaged same bad) =
      load_header_first arch_lsb drive volume_size mfs_lsb is_64 hdr i s error_ok found
        (read_header_lem s 0 (omega (arith, backed, inside))) same
      ∙ check_copies_header arch_lsb drive volume_size mfs_lsb is_64 hdr i s error_ok found same
      ∙ check_header_bad arch_lsb drive volume_size mfs_lsb is_64 hdr i s error_ok found
          (sealed arch_lsb mfs_lsb is_64 hdr) bad
          (ap (read_header arch_lsb drive volume_size s) last_eq
            ∙ read_header_lem s (volume_size - 1) (omega (arith, backed, inside))
            ∙ ap (λ (buf : Sector). some (take 280 buf)) backup
            ∙ ap some (take-written_sector mfs_lsb is_64 hdr i.whole))
          (good_checksum-sealed arch_lsb mfs_lsb is_64 hdr i.whole)
    where
      found : List ℕ
      found = take 280 (content s 0)

  -- On a device that keeps what is written, with a first volume of more than one sector within it: a
  -- whole header, of a consistent drive and of the byte order and width that its magic says, is
  -- written, and then loaded with its checksum made right. It still is in any later state in which the
  -- backup is as it was written, and the first copy is too, or has the magic and a wrong checksum.
  pub load_header-write_header :
      (mfs_lsb is_64 : Bool) (hdr : List ℕ) (s later : S) (error_ok : Bool)
      → IsHeader arch_lsb mfs_lsb is_64 hdr
      → content later (volume_size - 1)
        ≡ content (write_header arch_lsb drive volume_size s mfs_lsb is_64 hdr).1 (volume_size - 1)
      → FirstCopy arch_lsb mfs_lsb is_64 hdr (take 280 (content later 0))
      → let (good, s') = write_header arch_lsb drive volume_size s mfs_lsb is_64 hdr in
        let stored =
          header mfs_lsb is_64
            (magic_of arch_lsb mfs_lsb hdr)
            (sealed arch_lsb mfs_lsb is_64 hdr) in
        (good ≡ true)
        × (load_header arch_lsb drive volume_size s' error_ok ≡ stored)
        × (load_header arch_lsb drive volume_size later error_ok ≡ stored)
  load_header-write_header mfs_lsb is_64 hdr s later error_ok i backup found = (
    ap (λ (r : Bool × S). r.0) done,
    ap (λ (r : Bool × S). load_header arch_lsb drive volume_size r.1 error_ok) done
        ∙ load_header_lem mfs_lsb is_64 hdr (both_writes s buf) error_ok i held.0
            (undamaged (ap (take 280) held.1 ∙ take-written_sector mfs_lsb is_64 hdr i.whole)),
    load_header_lem mfs_lsb is_64 hdr later error_ok i
        (backup ∙ ap (λ (r : Bool × S). content r.1 (volume_size - 1)) done ∙ held.0) found,
  )
    where
      buf : Sector
      buf = written_sector mfs_lsb is_64 hdr

      done : write_header arch_lsb drive volume_size s mfs_lsb is_64 hdr ≡ (true, both_writes s buf)
      done = write_header_lem mfs_lsb is_64 hdr s

      held :
          (content (both_writes s buf) (volume_size - 1) ≡ buf)
          × (content (both_writes s buf) 0 ≡ buf)
      held = content-both_writes s buf
