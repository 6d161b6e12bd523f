-- ===== src/Inode.antt =====
-- Inodes, include/fsid.h and lib/inode.c. An inode is the buffer of 512 bytes that the code casts to
-- `mfs_inode`; its fields are read and written as 32-bit words of the buffer. Reading and writing
-- sectors is the interface `Drive`, which stands for mfsvol_read_data and mfsvol_write_data.
pub mod Sectors
pub mod Backup
pub mod Chain
pub mod Runs
pub mod Directory
pub mod Objects
use mfstools.Base.{
  ℕ, ◌*◌, ◌≡◌, Bool, not, ◌||◌, Option, List, [], ◌∷◌, ◌++◌, bit_and, bit_or, ◌==◌, get_or, length,
}
use mfstools.Util.{intswap32}
use mfstools.Crc.{word_at, word_bytes, store}

abbrev pub Sector : Type 0
Sector = List ℕ

-- The calls of the volume set, on its state. A read gives the sectors that were read, or `none` for
-- a negative result; a write gives how many sectors were written, or `none`.
pub record Drive (S : Type 0) : Type 0 where
  pub read : S → ℕ → ℕ → Option (List Sector)
  pub write : S → ℕ → List Sector → Option ℕ × S

-- The word of each field in `mfs_inode`.
abbrev pub fsid_word : ℕ
fsid_word = 0

abbrev pub refcount_word : ℕ
refcount_word = 1

abbrev pub inode_word : ℕ
inode_word = 4

abbrev pub size_word : ℕ
size_word = 6

abbrev pub checksum_word : ℕ
checksum_word = 12

abbrev pub flags_word : ℕ
flags_word = 13

abbrev pub numblocks_word : ℕ
numblocks_word = 14

-- `inode->type`
abbrev pub type_byte : ℕ
type_byte = 40

-- `(unsigned char *)inode + 0x3c`, where the data or the data blocks start
abbrev pub data_start : ℕ
data_start = 0x3c

module _ (mfs_lsb arch_lsb : Bool) where
  -- `intswap32 (inode->field)`
  abbrev pub field : ℕ → Sector → ℕ
  field word buf = intswap32 mfs_lsb arch_lsb (word_at arch_lsb buf word)

  -- `inode->field = intswap32 (n)`
  abbrev pub with_field : ℕ → ℕ → Sector → Sector
  with_field word n buf = store buf (4 * word) (word_bytes arch_lsb (intswap32 mfs_lsb arch_lsb n))

  -- `intswap32 (inode->inode_flags) & flag`, and the flag set in the stored word
  abbrev pub has_flag : ℕ → Sector → Bool
  has_flag flag buf = not (bit_and (field flags_word buf) flag == 0)

  abbrev pub with_flag : ℕ → Sector → Sector
  with_flag flag buf = store buf (4 * flags_word) (
      word_bytes arch_lsb
        (bit_or (word_at arch_lsb buf flags_word) (intswap32 mfs_lsb arch_lsb flag)))

-- `inode->fsid || inode->refcount`
abbrev pub is_used : Bool → Sector → Bool
is_used arch_lsb buf =
    not (word_at arch_lsb buf fsid_word == 0) || not (word_at arch_lsb buf refcount_word == 0)

abbrev pub inode_chained : ℕ
inode_chained = 0x80000000

abbrev pub inode_data : ℕ
inode_data = 0x40000000

abbrev pub inode_data2 : ℕ
inode_data2 = 0x2

abbrev pub fsid_hash : ℕ
fsid_hash = 0x106d9
