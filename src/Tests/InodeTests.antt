-- ===== src/Tests/InodeTests.antt =====
-- Inodes on a drive that is kept in memory, and a chain of four inodes.
use mfstools.Base.{
  ℕ, zero, suc, ◌+◌, ◌-◌, ◌<◌, ◌≡◌, ◌≢◌, refl, arith, Bool, true, false, ◌&&◌, Option, some, none,
  [], ◌∷◌, ◌++◌, if◌then◌else◌, ltb, leb, ◌==◌, get_or, replicate, length,
}
use mfstools.Util.{intswap32, endian32_swap}
use mfstools.Crc.{
  word_at, word_bytes, mfs_check_crc, mfs_update_crc, mfs_compute_crc, crc_loop, filler, updc32,
}
use mfstools.Crc.Table.{crc32tab}
use mfstools.Zonemap.Zone.{inode, ZoneHeader, ZoneMap}
use mfstools.Zonemap.Inodes.{
  InodeZones, Fits64, AreEven, Placed, inode_count, total_size, sector_in_zones, inode_to_sector,
  inode_to_sector-Placed,
}
use mfstools.Spans.{sectors_from}
use mfstools.Inode.{
  Sector, Drive, field, with_field, inode_word, fsid_word, checksum_word, inode_chained, has_flag,
  is_used,
}
use mfstools.Inode.Sectors.{read_inode, write_inode}
use mfstools.Inode.Backup.{KeepsPair, HoldsCopy, damaged, read_inode-write_inode}
use mfstools.Inode.Chain.{absent, found, step, ends_chain, home, scan, read_by_fsid, find_for_fsid}
use mfstools.Inode.Chain.Reading.{Finds, read_by_fsid-Finds}
use mfstools.Inode.Chain.Finding.{Gives, find_for_fsid-Gives}
use mfstools.Inode.Chain.Renumbering.{find_for_fsid_renumbers}

-- A drive that holds a sector at every number.
abbrev pub Content : Type 0
Content = ℕ → Sector

abbrev pub memory : Drive Content
memory = record {
  read = λ s sector n. some (sectors_from s sector n);
  write = λ s sector new. (
    some (length new),
    λ k. if leb sector k && ltb k (sector + length new) then get_or new (k - sector) [] else s k,
  );
}

abbrev header : ℕ → ℕ → ZoneHeader
header first size = record {
  sector = 1000;
  sbackup = 9000;
  length = 1;
  next_sector = 0;
  next_sbackup = 0;
  next_length = 0;
  next_size = 0;
  next_min = 0;
  type = inode;
  logstamp = 7;
  checksum = 0xdeadf00d;
  first = first;
  last = first + size - 1;
  size = size;
  min = size;
  free = 0;
  num = 1;
}

abbrev zone : ℕ → ℕ → ZoneMap
zone first size = record {
  map = header first size;
  bitmaps = [];
  changed_runs = [];
  changes = [];
  dirty = false;
}

-- Two zones, of 16 and of 32 sectors.
abbrev pub zones : InodeZones
zones = record { size = 48; zones = zone 1122 16 ∷ zone 5000 32 ∷ [] }

zones-AreEven : AreEven zones.zones
unfolding AreEven
zones-AreEven = (refl, (refl, tt))

zones-Fits64 : Fits64 zones.zones
unfolding Fits64
zones-Fits64 = (omega arith, omega arith)

zones_total : total_size zones.zones ≡ zones.size
unfolding total_size
zones_total = refl

ten_exists : 10 < inode_count zones
unfolding inode_count
ten_exists = omega arith

-- Inode 10 is behind the 8 inodes of the first zone.
inode_to_sector-Placed_example :
    (sector : ℕ) × (inode_to_sector zones 10 ≡ (sector, none))
    × Placed zones.zones 20 sector
    × Placed zones.zones 21 (sector + 1)
inode_to_sector-Placed_example =
    inode_to_sector-Placed zones 10 zones-Fits64 zones-AreEven zones_total (omega arith) ten_exists

ten_place : (inode_to_sector zones 10).0 ≡ 5004
unfolding inode_to_sector sector_in_zones inode_count
ten_place = refl

-- The sector of an inode that names itself as number 10.
abbrev ten : Sector
ten = replicate 16 0 ++ 10 ∷ replicate 495 0

ten_number : field true true inode_word ten ≡ 10
unfolding intswap32 word_at
ten_number = refl

ten_place_ne : (inode_to_sector zones (field true true inode_word ten)).0 ≢ 0
unfolding inode_to_sector sector_in_zones inode_count intswap32 word_at
ten_place_ne e = absurd (omega (arith, e))

memory-KeepsPair : KeepsPair memory (inode_to_sector zones (field true true inode_word ten)).0
unfolding inode_to_sector sector_in_zones inode_count intswap32 word_at
memory-KeepsPair = record { writes = λ s a b. refl; first = λ s a b. refl; second = λ s a b. refl }

-- A drive that lost its first sector of the inode, which now holds zeros.
abbrev half_lost : Content
half_lost k = if leb k 5004 then replicate 512 0 else mfs_update_crc true true ten checksum_word

zeros_rejected : mfs_check_crc true true (replicate 512 0) checksum_word ≡ false
unfolding mfs_check_crc mfs_compute_crc crc_loop filler word_at updc32 crc32tab intswap32
    endian32_swap
zeros_rejected = refl

half_lost-HoldsCopy :
    HoldsCopy memory true true half_lost
      (inode_to_sector zones (field true true inode_word ten)).0
      (mfs_update_crc true true ten checksum_word)
unfolding inode_to_sector sector_in_zones inode_count intswap32 word_at
half_lost-HoldsCopy = damaged (replicate 512 0) refl zeros_rejected refl

read_inode-write_inode_example :
    ((write_inode memory true true zones half_lost ten).0 ≡ true)
    × (read_inode memory true true zones
          (write_inode memory true true zones half_lost ten).1
          (field true true inode_word ten)
        ≡ some (mfs_update_crc true true ten checksum_word))
    × (read_inode memory true true zones half_lost (field true true inode_word ten)
        ≡ some (mfs_update_crc true true ten checksum_word))
read_inode-write_inode_example =
    read_inode-write_inode memory true true zones half_lost ten refl ten_place_ne memory-KeepsPair
      half_lost half_lost-HoldsCopy

-- The start of an inode, up to its flags.
abbrev inode_of : ℕ → ℕ → ℕ → Sector
inode_of fsid refcount flags =
    word_bytes true fsid ++ word_bytes true refcount ++ replicate 44 0 ++ word_bytes true flags

-- Four inodes: the home of fsid 7 is inode 3, which is free and followed by inode 0, of fsid 9.
abbrev four : ℕ → Option Sector
four zero = some (inode_of 9 1 0)
four (suc zero) = some (inode_of 5 1 0)
four (suc (suc zero)) = none
four (suc (suc (suc n))) = some (inode_of 0 0 inode_chained)

read_by_fsid-Finds_example : Finds true true four 4 7 (read_by_fsid true true four 4 7)
read_by_fsid-Finds_example = read_by_fsid-Finds true true four 4 7 (omega arith) (omega arith)

nine_absent : read_by_fsid true true four 4 9 ≡ absent
unfolding read_by_fsid scan home intswap32 word_at word_bytes
nine_absent = refl

five_found : read_by_fsid true true four 4 5 ≡ found (inode_of 5 1 0)
unfolding read_by_fsid scan home intswap32 word_at word_bytes
five_found = refl

-- The four inodes as the state of a drive that can be written.
abbrev read_four : (ℕ → Option Sector) → ℕ → Option Sector
read_four s n = s n

abbrev write_four : (ℕ → Option Sector) → Sector → Bool × (ℕ → Option Sector)
write_four s new = (true, λ n. if field true true inode_word new == n then some new else s n)

find_for_fsid-Gives_example :
    Gives true true read_four write_four 4 7 four
      (find_for_fsid true true read_four write_four 4 7 four).0
find_for_fsid-Gives_example =
    find_for_fsid-Gives true true read_four write_four 4 7 four (omega arith) (omega arith)

home_of_seven : home 4 7 ≡ 3
unfolding home
home_of_seven = refl

moves_on : step 4 (home 4 7) ≢ home 4 7
unfolding home
moves_on e = absurd (omega (arith, e))

home_free : four (home 4 7) ≡ some (inode_of 0 0 inode_chained)
unfolding home
home_free = refl

free_unused : is_used true (inode_of 0 0 inode_chained) ≡ false
unfolding word_at word_bytes
free_unused = refl

free_goes_on : ends_chain true true 7 (inode_of 0 0 inode_chained) ≡ false
unfolding intswap32 word_at word_bytes
free_goes_on = refl

next_read : four (step 4 (home 4 7)) ≡ some (inode_of 9 1 0)
unfolding home
next_read = refl

next_fsid : field true true fsid_word (inode_of 9 1 0) ≢ 7
unfolding intswap32 word_at word_bytes
next_fsid e = absurd (omega (arith, e))

next_ends : has_flag true true inode_chained (inode_of 9 1 0) ≡ false
unfolding intswap32 word_at word_bytes
next_ends = refl

-- The free inode 3 is given out as inode 0.
find_for_fsid_renumbers_example : find_for_fsid true true read_four write_four 4 7 four ≡ (
  found (with_field true true inode_word (step 4 (home 4 7)) (inode_of 0 0 inode_chained)),
  four,
)
find_for_fsid_renumbers_example =
    find_for_fsid_renumbers true true read_four write_four 4 7 four (inode_of 0 0 inode_chained)
      (inode_of 9 1 0) (omega arith) moves_on home_free free_unused free_goes_on next_read next_fsid
      next_ends
