-- ===== src/Inode/Directory.antt =====
-- Directories, lib/inode.c: the entries of a directory's data (the loops of mfs_dir), mfs_dir with its
-- directories of directories, and mfs_resolve.
pub mod Layout
pub mod Entries
pub mod Endless
pub mod Paths
use mfstools.Base.{
  ℕ, zero, suc, ◌+◌, ◌-◌, ◌*◌, ◌/◌, Bool, true, false, not, ◌&&◌, ◌||◌, Option, none, some, List,
  [], ◌∷◌, ◌++◌, ltb, leb, ◌==◌, if◌then◌else◌, get_or, drop,
}
use mfstools.Util.{intswap16, intswap32}
use mfstools.Crc.{word_at}
use mfstools.Zonemap.Inodes.{InodeZones}
use mfstools.Inode.{Sector, Drive, type_byte}
use mfstools.Inode.Chain.{Search, ran_out, absent, found, mfs_read_inode_by_fsid}
use mfstools.Inode.Runs.{DataRead, no_data, data_failed, data_of, read_inode_data}

-- `mfs_dirent`
pub record Dirent : Type 0 where
  pub fsid : ℕ
  pub type : ℕ
  pub name : List ℕ

abbrev pub ty_dir : ℕ
ty_dir = 4

-- The bytes of a C string, up to the byte 0.
unfoldable pub c_string : List ℕ → List ℕ
c_string [] = []
c_string (b ∷ bytes) = let rest = c_string bytes in if b == 0 then [] else b ∷ rest

-- A 16-bit word in memory.
abbrev pub half_at : Bool → List ℕ → ℕ → ℕ
half_at arch_lsb bytes i =
    let a = get_or bytes (2 * i) 0 in
    let b = get_or bytes (2 * i + 1) 0 in if arch_lsb then a + 256 * b else b + 256 * a

-- `s[0] / 4`, where `p` points at these bytes: how many words the entry has.
abbrev pub entry_words : List ℕ → ℕ
entry_words at = get_or at 4 0 / 4

module _ (mfs_lsb arch_lsb : Bool) where
  -- The first loop of mfs_dir over the data: how many entries there are from the word `p` on, up to
  -- the word `limit`; `none` if the fuel ran out.
  unfoldable pub count_entries : ℕ → List ℕ → ℕ → ℕ → Option ℕ
  count_entries zero at p limit = none
  count_entries (suc fuel) at p limit =
      let rest = count_entries fuel (drop (4 * entry_words at) at) (p + entry_words at) limit in
      if ltb p limit then elim rest [ none ↦ none | some n ↦ some (suc n) ] else some 0

  unfoldable pub entry_at : List ℕ → Dirent
  unfolding c_string
  entry_at at = record {
    fsid = intswap32 mfs_lsb arch_lsb (word_at arch_lsb at 0);
    type = get_or at 5 0;
    name = c_string (drop 6 at);
  }

  -- The second loop: the entries, `n` of them.
  unfoldable pub read_entries : ℕ → List ℕ → List Dirent
  unfolding entry_at
  read_entries zero at = []
  read_entries (suc n) at = entry_at at ∷ read_entries n (drop (4 * entry_words at) at)

-- What mfs_dir returns: a null pointer or the entries; `endless` if one of its loops, or its
-- recursion, does not end within the fuel.
pub data Listing : Type 0 where
  endless no_dir : Listing
  entries : List Dirent → Listing

abbrev pub concat : List Sector → List ℕ
concat [] = []
concat (sector ∷ sectors) = sector ++ concat sectors

module _ (mfs_lsb arch_lsb : Bool) where
  -- The flags of a directory's data, and its entries.
  unfoldable pub parse_dir : ℕ → List ℕ → Option (List Dirent)
  unfolding count_entries read_entries
  parse_dir fuel buf =
      elim (count_entries mfs_lsb arch_lsb fuel (drop 4 buf) 1
        (intswap16 mfs_lsb arch_lsb (half_at arch_lsb buf 0) / 4)) [
          | none ↦ none
          | some n ↦ some (read_entries mfs_lsb arch_lsb n (drop 4 buf))
        ]

  abbrev pub dir_flags : List ℕ → ℕ
  dir_flags buf = intswap16 mfs_lsb arch_lsb (half_at arch_lsb buf 1)

-- The directories that a directory of directories lists, put together by `dir`; `so_far` holds the
-- entries of those that were read. Entries that are no directory are passed over.
unfoldable pub join_dirs : (ℕ → Listing) → List Dirent → List Dirent → Listing
join_dirs dir [] so_far = elim so_far [ [] ↦ no_dir | ◌∷◌ e es ↦ entries (e ∷ es) ]
join_dirs dir (entry ∷ rest) so_far =
    let skip = join_dirs dir rest so_far in
    let listed : Listing = elim (dir entry.fsid) [
      | endless ↦ endless
      | no_dir ↦ skip
      | entries es ↦ join_dirs dir rest (so_far ++ es)
    ] in
    if entry.type == ty_dir then listed else skip

module _ {S : Type 0} (drive : Drive S) (mfs_lsb arch_lsb is_64 : Bool) (zones : InodeZones)
    (s : S) where
  -- The data of the directory that has an fsid, or the null pointer that mfs_dir returns before it
  -- looks at the data.
  unfoldable pub dir_data : ℕ → Search × List ℕ
  dir_data fsid = elim (mfs_read_inode_by_fsid drive mfs_lsb arch_lsb zones s fsid) [
    | ran_out ↦ (ran_out, [])
    | absent ↦ (absent, [])
    | found inode ↦ elim (read_inode_data drive mfs_lsb arch_lsb is_64 s inode) [
      | no_data ↦ (absent, [])
      | data_failed ↦ (absent, [])
      | data_of size sectors ↦
          if ltb size 4 || not (get_or inode type_byte 0 == ty_dir)
          then (absent, [])
          else (found inode, concat sectors)
    ]
  ]

  -- mfs_dir, on fuel for how deep the directories of directories lie; each directory's data has fewer
  -- than 2 ^ 14 entries.
  unfoldable pub mfs_dir : ℕ → ℕ → Listing
  unfolding dir_data parse_dir join_dirs
  mfs_dir zero fsid = endless
  mfs_dir (suc depth) fsid =
      let (inode, buf) = dir_data fsid in
      elim inode [
        | ran_out ↦ endless
        | absent ↦ no_dir
        | found inode' ↦ elim (parse_dir mfs_lsb arch_lsb 16384 buf) [
          | none ↦ endless
          | some es ↦
              let joined = join_dirs (mfs_dir depth) es [] in
              if dir_flags mfs_lsb arch_lsb buf == 0x200 then joined else entries es
        ]
      ]
