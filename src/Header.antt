-- ===== src/Header.antt =====
-- The volume header, lib/mfs.c and include/mfs.h: mfs_write_volume_header and mfs_load_volume_header. The
-- header is the list of the 280 bytes of `vol_hdr`, of which a drive of 32 bits uses the first 232.
pub mod Copies
pub mod Names
pub mod Stored
use mfstools.Base.{
  ℕ, zero, suc, ◌+◌, ◌-◌, ◌*◌, ◌^◌, Bool, true, false, not, ◌&&◌, ◌||◌, Option, none, some, List,
  [], ◌∷◌, ◌++◌, bit_and, ltb, ◌==◌, if◌then◌else◌, take, drop, replicate, length, sub64,
}
use mfstools.Util.{intswap32}
use mfstools.Crc.{word_at, mfs_check_crc, mfs_update_crc}
use mfstools.Inode.{Sector, Drive}

abbrev pub magic_ok : ℕ
magic_ok = 0xABBAFEED

abbrev pub magic_fs_chk : ℕ
magic_fs_chk = 0x37353033

abbrev pub magic_log_chk : ℕ
magic_log_chk = 0x37353134

abbrev pub magic_db_chk : ℕ
magic_db_chk = 0x37353135

abbrev pub magic_clean : ℕ
magic_clean = 0x37353136

abbrev pub magic_64bit : ℕ
magic_64bit = 0x40000000

-- `sizeof (volume_header_32)`, `sizeof (volume_header_64)`, and the word of `checksum`.
abbrev pub hdr_size : Bool → ℕ
hdr_size is_64 = if is_64 then 280 else 232

abbrev pub checksum_word : ℕ
checksum_word = 2

-- What mfs_load_volume_header makes of the two copies, before it adds the other volumes.
pub data Header : Type 0 where
  unreadable corrupt : Header
  -- `magicLSB` and `magicMSB`, as they are stored
  unexpected_values : ℕ → ℕ → Header
  unexpected_magic inconsistent : ℕ → Header
  -- `mfsLSB`, `is_64`, the magic and the header
  header : Bool → Bool → ℕ → List ℕ → Header

module _ (arch_lsb : Bool) where
  -- Whether the drive stores the low byte first: the magic is the first word, and the second is 0, or the
  -- other way round.
  unfoldable pub drive_order : List ℕ → Option Bool
  drive_order hdr =
      let lsb = not (word_at arch_lsb hdr 0 == 0) in
      let msb = not (word_at arch_lsb hdr 1 == 0) in
      if lsb && not msb then some true else if not lsb && msb then some false else none

  module _ (mfs_lsb : Bool) where
    abbrev pub magic_of : List ℕ → ℕ
    magic_of hdr = intswap32 mfs_lsb arch_lsb (word_at arch_lsb hdr (if mfs_lsb then 0 else 1))

    -- The test of the checksum, of either layout.
    unfoldable pub good_checksum : Bool → List ℕ → Bool
    good_checksum is_64 hdr =
        (mfs_check_crc mfs_lsb arch_lsb (take (hdr_size false) hdr) checksum_word && not is_64)
        || (mfs_check_crc mfs_lsb arch_lsb (take (hdr_size true) hdr) checksum_word && is_64)

    -- What is made of the magic. `error_ok` is `flags & MFS_ERROROK`.
    unfoldable pub check_magic : Bool → Bool → ℕ → List ℕ → Header
    check_magic error_ok is_64 magic hdr =
        let state = bit_and magic (2 ^ 32 - 1 - magic_64bit) in
        if state == magic_ok
        then header mfs_lsb is_64 magic hdr
        else if not (
            (state == magic_fs_chk)
            || (state == magic_log_chk)
            || (state == magic_db_chk)
            || (state == magic_clean))
        then unexpected_magic magic
        else if error_ok
        then header mfs_lsb is_64 magic hdr
        else inconsistent magic

    -- The header with its checksum.
    unfoldable pub sealed : Bool → List ℕ → List ℕ
    sealed is_64 hdr =
        mfs_update_crc mfs_lsb arch_lsb (take (hdr_size is_64) hdr) checksum_word
        ++ drop (hdr_size is_64) hdr

  module _ {S : Type 0} (drive : Drive S) (volume_size : ℕ) where
    -- One sector of 512 bytes, of which the header is copied.
    unfoldable pub read_header : S → ℕ → Option (List ℕ)
    read_header s sector = elim (drive.read s sector 1) [
      | some (buf ∷ []) ↦ some (take (hdr_size true) buf)
      | _ ↦ none
    ]

    -- What is made of the backup on the last sector of the first volume.
    unfoldable pub check_backup : Bool → Bool → ℕ → Bool → Option (List ℕ) → Header
    unfolding good_checksum check_magic
    check_backup mfs_lsb error_ok magic is_64 none = unreadable
    check_backup mfs_lsb error_ok magic is_64 (some hdr) =
        if good_checksum mfs_lsb is_64 hdr
        then check_magic mfs_lsb error_ok is_64 magic hdr
        else corrupt

    -- The header, or its backup when its checksum is wrong.
    unfoldable pub check_header : S → Bool → Bool → List ℕ → ℕ → Bool → Header
    unfolding read_header good_checksum check_magic check_backup
    check_header s mfs_lsb error_ok hdr magic is_64 =
        if good_checksum mfs_lsb is_64 hdr
        then check_magic mfs_lsb error_ok is_64 magic hdr
        else check_backup mfs_lsb error_ok magic is_64 (read_header s (sub64 volume_size 1))

    -- The byte order, the width and the magic are those of the first copy, whether it is good or not.
    unfoldable pub check_copies : S → Bool → Bool → List ℕ → Header
    unfolding check_header
    check_copies s mfs_lsb error_ok hdr =
        let magic = magic_of mfs_lsb hdr in
        check_header s mfs_lsb error_ok hdr magic (not (bit_and magic magic_64bit == 0))

    -- What is made of the first copy, once its byte order is known.
    unfoldable pub check_order : S → Bool → List ℕ → Option Bool → Header
    unfolding check_copies
    check_order s error_ok hdr none =
        unexpected_values (word_at arch_lsb hdr 0) (word_at arch_lsb hdr 1)
    check_order s error_ok hdr (some mfs_lsb) = check_copies s mfs_lsb error_ok hdr

    -- mfs_load_volume_header, up to the list of partitions
    unfoldable pub load_header : S → Bool → Header
    unfolding read_header drive_order check_order
    load_header s error_ok = elim (read_header s 0) [
      | none ↦ unreadable
      | some hdr ↦ check_order s error_ok hdr (drive_order hdr)
    ]

    -- mfs_write_volume_header: whether it returns 512, and the drive afterwards.
    unfoldable pub write_header : S → Bool → Bool → List ℕ → Bool × S
    unfolding sealed
    write_header s mfs_lsb is_64 hdr =
        let buf = sealed mfs_lsb is_64 hdr ++ replicate (512 - 280) 0 in
        let (first, s') = drive.write s 0 (buf ∷ []) in
        let (second, s'') = drive.write s' (sub64 volume_size 1) (buf ∷ []) in
        if elim first [ none ↦ false | some n ↦ n == 1 ]
        then (elim second [ none ↦ false | some n ↦ n == 1 ], s'')
        else (false, s')

-- `strcspn (names, " \t\r\n")`, as a test of one byte.
abbrev pub is_blank : ℕ → Bool
is_blank b = (b == 32) || (b == 9) || (b == 13) || (b == 10)

-- A string without the bytes in front of the next blank one, and without those in front of the next
-- byte that is not blank.
unfoldable pub skip_name : List ℕ → List ℕ
skip_name [] = []
skip_name (b ∷ names) = let rest = skip_name names in if is_blank b then b ∷ names else rest

unfoldable pub skip_blanks : List ℕ → List ℕ
skip_blanks [] = []
skip_blanks (b ∷ names) = let rest = skip_blanks names in if is_blank b then rest else b ∷ names

-- The strings that the loop over the partition list passes to mfsvol_add_volume; `none` when the fuel
-- runs out.
unfoldable pub name_places : ℕ → List ℕ → Option (List (List ℕ))
unfolding skip_name skip_blanks
name_places zero names = none
name_places (suc fuel) [] = some []
name_places (suc fuel) (b ∷ names) = elim (name_places fuel (skip_blanks (skip_name (b ∷ names)))) [
  | none ↦ none
  | some places ↦ some ((b ∷ names) ∷ places)
]

-- The volumes behind the first: the loop begins behind the first name.
unfoldable pub other_volumes : List ℕ → Option (List (List ℕ))
unfolding name_places
other_volumes names = name_places (suc (length names)) (skip_blanks (skip_name names))
