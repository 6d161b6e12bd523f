-- ===== src/Header/Copies.antt =====
-- A volume header and its two copies: what the checks of lib/mfs.c make of them.
use mfstools.Base.{
  ℕ, ◌+◌, ◌-◌, ◌*◌, ◌^◌, ◌≤◌, ◌<◌, ◌≡◌, inl, refl, ap, ◌∙◌, Bool, true, false, not, ◌&&◌, ◌||◌,
  some, List, arith, bit_and, ◌==◌, get_or, get_or-append_left, get_or-take, take, drop, length,
  length-take, length-drop, length-append, sub64,
}
use mfstools.Util.{intswap32}
use mfstools.Crc.{word_at, mfs_check_crc, mfs_update_crc}
use mfstools.Crc.RoundTrip.{check-update, get_or-update_ne}
use mfstools.Inode.{Drive}
use mfstools.Inode.Runs.Slices.{take-append_within, take_all}
use mfstools.Log.Bytes.{length-store}
use mfstools.Header.{
  header, hdr_size, checksum_word, magic_ok, magic_64bit, drive_order, magic_of, good_checksum,
  check_magic, read_header, check_copies, check_header, check_backup, check_order, load_header,
  sealed,
}

-- A header of a consistent drive, of an order of bytes and a width.
pub record IsHeader (arch_lsb mfs_lsb is_64 : Bool) (hdr : List ℕ) : Type 0 where
  pub whole : length hdr ≡ 280
  pub order : drive_order arch_lsb hdr ≡ some mfs_lsb
  pub width : not (bit_and (magic_of arch_lsb mfs_lsb hdr) magic_64bit == 0) ≡ is_64
  pub consistent : bit_and (magic_of arch_lsb mfs_lsb hdr) (2 ^ 32 - 1 - magic_64bit) ≡ magic_ok

-- The same first two words.
pub record SameMagic (hdr hdr' : List ℕ) : Type 0 where
  pub same : (k : ℕ) → k < 8 → get_or hdr k 0 ≡ get_or hdr' k 0

word_at-SameMagic :
    (arch_lsb : Bool) (hdr hdr' : List ℕ) (off : ℕ)
    → off < 2
    → SameMagic hdr hdr'
    → word_at arch_lsb hdr off ≡ word_at arch_lsb hdr' off
unfolding word_at
word_at-SameMagic true hdr hdr' off h m = omega (
  arith,
  m.same (4 * off) (omega arith),
  m.same (4 * off + 1) (omega arith),
  m.same (4 * off + 2) (omega arith),
  m.same (4 * off + 3) (omega arith),
)
word_at-SameMagic false hdr hdr' off h m = omega (
  arith,
  m.same (4 * off) (omega arith),
  m.same (4 * off + 1) (omega arith),
  m.same (4 * off + 2) (omega arith),
  m.same (4 * off + 3) (omega arith),
)

-- The test of both checksums, of which one counts.
abbrev or_second : Bool → Bool → Bool
or_second a b = (a && false) || (b && true)

abbrev or_first : Bool → Bool → Bool
or_first a b = (b && true) || (a && false)

or_second-true : (a : Bool) → or_second a true ≡ true
or_second-true true = refl
or_second-true false = refl

module _ (arch_lsb : Bool) where
  drive_order-SameMagic :
      (hdr hdr' : List ℕ)
      → SameMagic hdr hdr'
      → drive_order arch_lsb hdr ≡ drive_order arch_lsb hdr'
  unfolding drive_order
  drive_order-SameMagic hdr hdr' m =
      rw
        (
          word_at-SameMagic arch_lsb hdr hdr' 0 (omega arith) m,
          word_at-SameMagic arch_lsb hdr hdr' 1 (omega arith) m,
        )
        refl

  magic_of-SameMagic :
      (mfs_lsb : Bool) (hdr hdr' : List ℕ)
      → SameMagic hdr hdr'
      → magic_of arch_lsb mfs_lsb hdr ≡ magic_of arch_lsb mfs_lsb hdr'
  magic_of-SameMagic true hdr hdr' m =
      ap (intswap32 true arch_lsb) (word_at-SameMagic arch_lsb hdr hdr' 0 (omega arith) m)
  magic_of-SameMagic false hdr hdr' m =
      ap (intswap32 false arch_lsb) (word_at-SameMagic arch_lsb hdr hdr' 1 (omega arith) m)

  module _ (mfs_lsb : Bool) where
    -- The part of the header that its checksum is of.
    abbrev front : Bool → List ℕ → List ℕ
    front is_64 hdr = mfs_update_crc mfs_lsb arch_lsb (take (hdr_size is_64) hdr) checksum_word

    size_bounds : (is_64 : Bool) → (232 ≤ hdr_size is_64) × (hdr_size is_64 ≤ 280)
    size_bounds true = (omega arith, omega arith)
    size_bounds false = (omega arith, omega arith)

    length-front :
        (is_64 : Bool) (hdr : List ℕ) → length hdr ≡ 280 → length (front is_64 hdr) ≡ hdr_size is_64
    unfolding mfs_update_crc
    length-front is_64 hdr h =
        length-store (take (hdr_size is_64) hdr) (4 * checksum_word) _
        ∙ omega (arith, length-take (hdr_size is_64) hdr, (size_bounds is_64).1, h)

    -- The sealed header is whole, its checksum is accepted, and it has the magic of the header.
    pub length-sealed :
        (is_64 : Bool) (hdr : List ℕ)
        → length hdr ≡ 280
        → length (sealed arch_lsb mfs_lsb is_64 hdr) ≡ 280
    unfolding sealed
    length-sealed is_64 hdr h = omega (
      arith,
      length-append (front is_64 hdr) (drop (hdr_size is_64) hdr),
      length-front is_64 hdr h,
      length-drop (hdr_size is_64) hdr,
      (size_bounds is_64).1,
      h,
    )

    check-sealed :
        (is_64 : Bool) (hdr : List ℕ)
        → length hdr ≡ 280
        → mfs_check_crc mfs_lsb arch_lsb
            (take (hdr_size is_64) (sealed arch_lsb mfs_lsb is_64 hdr))
            checksum_word
          ≡ true
    unfolding sealed
    check-sealed is_64 hdr h =
        ap (λ t. mfs_check_crc mfs_lsb arch_lsb t checksum_word)
          (take-append_within (hdr_size is_64) (front is_64 hdr) (drop (hdr_size is_64) hdr)
              (omega (arith, length-front is_64 hdr h))
            ∙ take_all (hdr_size is_64) (front is_64 hdr) (omega (arith, length-front is_64 hdr h)))
        ∙ check-update mfs_lsb arch_lsb (take (hdr_size is_64) hdr) checksum_word
            (omega (arith, length-take (hdr_size is_64) hdr, h, (size_bounds is_64).0))
            (omega arith)

    pub good_checksum-sealed :
        (is_64 : Bool) (hdr : List ℕ)
        → length hdr ≡ 280
        → good_checksum arch_lsb mfs_lsb is_64 (sealed arch_lsb mfs_lsb is_64 hdr) ≡ true
    unfolding good_checksum
    good_checksum-sealed true hdr h =
        ap
          (or_second (
            mfs_check_crc mfs_lsb arch_lsb
              (take (hdr_size false) (sealed arch_lsb mfs_lsb true hdr)) checksum_word))
          (check-sealed true hdr h)
        ∙ or_second-true _
    good_checksum-sealed false hdr h =
        ap
          (or_first (
            mfs_check_crc mfs_lsb arch_lsb
              (take (hdr_size true) (sealed arch_lsb mfs_lsb false hdr)) checksum_word))
          (check-sealed false hdr h)

    pub sealed-SameMagic :
        (is_64 : Bool) (hdr : List ℕ)
        → length hdr ≡ 280
        → SameMagic (sealed arch_lsb mfs_lsb is_64 hdr) hdr
    unfolding sealed
    sealed-SameMagic is_64 hdr h = record {
      same = λ k l.
          get_or-append_left (front is_64 hdr) (drop (hdr_size is_64) hdr) k 0
            (omega (arith, length-front is_64 hdr h, (size_bounds is_64).0))
          ∙ get_or-update_ne mfs_lsb arch_lsb (take (hdr_size is_64) hdr) checksum_word k
              (inl (omega arith))
          ∙ get_or-take (hdr_size is_64) hdr k 0 (omega (arith, (size_bounds is_64).0));
    }

  module _ {S : Type 0} (drive : Drive S) (volume_size : ℕ) (mfs_lsb is_64 : Bool) (hdr : List ℕ)
      (i : IsHeader arch_lsb mfs_lsb is_64 hdr) (s : S) (error_ok : Bool) where
    abbrev magic : ℕ
    magic = magic_of arch_lsb mfs_lsb hdr

    check_magic-header :
        (hdr' : List ℕ)
        → check_magic arch_lsb mfs_lsb error_ok is_64 magic hdr' ≡ header mfs_lsb is_64 magic hdr'
    unfolding check_magic
    check_magic-header hdr' = rw (i.consistent) refl

    -- A first copy with the magic, whose checksum is right or not.
    pub load_header_first :
        (hdr' : List ℕ)
        → read_header arch_lsb drive volume_size s 0 ≡ some hdr'
        → SameMagic hdr' hdr
        → load_header arch_lsb drive volume_size s error_ok
          ≡ check_copies arch_lsb drive volume_size s mfs_lsb error_ok hdr'
    unfolding load_header check_order
    load_header_first hdr' e m =
        rw (e, load_header)
          (ap (check_order arch_lsb drive volume_size s error_ok hdr')
            (drive_order-SameMagic hdr' hdr m ∙ i.order))

    pub check_copies_header :
        (hdr' : List ℕ)
        → SameMagic hdr' hdr
        → check_copies arch_lsb drive volume_size s mfs_lsb error_ok hdr'
          ≡ check_header arch_lsb drive volume_size s mfs_lsb error_ok hdr' magic is_64
    unfolding check_copies
    check_copies_header hdr' m =
        ap
          (λ (n : ℕ).
            check_header arch_lsb drive volume_size s mfs_lsb error_ok hdr' n
              (not (bit_and n magic_64bit == 0)))
          (magic_of-SameMagic mfs_lsb hdr' hdr m)
        ∙ ap (check_header arch_lsb drive volume_size s mfs_lsb error_ok hdr' magic) i.width

    pub check_header_good :
        (hdr' : List ℕ)
        → good_checksum arch_lsb mfs_lsb is_64 hdr' ≡ true
        → check_header arch_lsb drive volume_size s mfs_lsb error_ok hdr' magic is_64
          ≡ header mfs_lsb is_64 magic hdr'
    unfolding check_header
    check_header_good hdr' good = rw (good) (check_magic-header hdr')

    check_backup_good :
        (backup : List ℕ)
        → good_checksum arch_lsb mfs_lsb is_64 backup ≡ true
        → check_backup arch_lsb drive volume_size mfs_lsb error_ok magic is_64 (some backup)
          ≡ header mfs_lsb is_64 magic backup
    unfolding check_backup
    check_backup_good backup good = rw (good) (check_magic-header backup)

    pub check_header_bad :
        (hdr' backup : List ℕ)
        → good_checksum arch_lsb mfs_lsb is_64 hdr' ≡ false
        → read_header arch_lsb drive volume_size s (sub64 volume_size 1) ≡ some backup
        → good_checksum arch_lsb mfs_lsb is_64 backup ≡ true
        → check_header arch_lsb drive volume_size s mfs_lsb error_ok hdr' magic is_64
          ≡ header mfs_lsb is_64 magic backup
    unfolding check_header
    check_header_bad hdr' backup bad e good = rw (bad) (
        ap (check_backup arch_lsb drive volume_size mfs_lsb error_ok magic is_64) e
        ∙ check_backup_good backup good)
