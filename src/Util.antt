-- ===== src/Util.antt =====
-- The byte order helpers of include/util.h. `archLSB` and `mfsLSB` are the Booleans `arch_lsb` and
-- `mfs_lsb`: whether the running machine and the drive store the low byte first.
pub mod Fields
pub mod Swaps
pub mod Swap64
use mfstools.Base.{
  ℕ, ◌*◌, ◌/◌, ◌%◌, ◌^◌, Bool, true, false, bit_and, bit_or, if◌then◌else◌, ◌<<◌, ◌>>◌, u16, u32,
  u64,
}

unfoldable pub endian16_swap : ℕ → ℕ
endian16_swap var = u16 (bit_or (var << 8) (var >> 8))

unfoldable pub endian32_swap : ℕ → ℕ
endian32_swap var =
    let halves = bit_or (u32 (var << 16)) (var >> 16) in
    bit_or (bit_and halves 0xff00ff00 >> 8) (bit_and (u32 (halves << 8)) 0xff00ff00)

unfoldable pub endian64_swap : ℕ → ℕ
endian64_swap var =
    let halves = bit_or (var >> 32) (u64 (var << 32)) in
    let words =
      bit_or (bit_and (halves >> 16) 0x0000FFFF0000FFFF)
        (u64 (bit_and halves 0x0000FFFF0000FFFF << 16)) in
    bit_or (bit_and (words >> 8) 0x00FF00FF00FF00FF) (u64 (bit_and words 0x00FF00FF00FF00FF << 8))

abbrev pub same_order : Bool → Bool → Bool
same_order true b = b
same_order false true = false
same_order false false = true

module _ (mfs_lsb arch_lsb : Bool) where
  unfoldable pub intswap16 : ℕ → ℕ
  intswap16 n = if same_order mfs_lsb arch_lsb then n else endian16_swap n

  unfoldable pub intswap32 : ℕ → ℕ
  intswap32 n = if same_order mfs_lsb arch_lsb then n else endian32_swap n

  unfoldable pub intswap64 : ℕ → ℕ
  intswap64 n = if same_order mfs_lsb arch_lsb then n else endian64_swap n

  -- Drives with the low byte first hold the two halves of a sector number the other way round.
  unfoldable pub sectorswap64 : ℕ → ℕ
  sectorswap64 n =
      let ret = if same_order mfs_lsb arch_lsb then n else endian64_swap n in
      if mfs_lsb then bit_or (ret >> 32) (u64 (ret << 32)) else ret
