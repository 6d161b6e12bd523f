-- ===== src/Crc.antt =====
-- The checksum of lib/crc.c. Data is a list of bytes, `size` of them, and `off` counts 32-bit words.
pub mod Table
pub mod Polynomial
pub mod RoundTrip
use mfstools.Base.{
  ℕ, zero, suc, ◌+◌, ◌-◌, ◌*◌, ◌/◌, ◌%◌, ◌^◌, Bool, List, [], ◌∷◌, bit_and, bit_xor, ltb, ◌==◌,
  if◌then◌else◌, ◌>>◌, u32, sub32, get_or,
}
use mfstools.Util.{intswap32}
use Table.{crc32tab}

-- UPDC32
unfoldable pub updc32 : ℕ → ℕ → ℕ
updc32 octet crc =
    u32 (
      bit_xor (get_or crc32tab (bit_and (bit_xor crc octet) 0xff) 0)
        (bit_and (crc >> 8) 0x00FFFFFF))

-- compute_crc
unfoldable pub compute_crc : List ℕ → ℕ → ℕ
compute_crc [] crc = crc
compute_crc (octet ∷ bytes) crc = compute_crc bytes (updc32 octet crc)

-- What stands in for the bytes of the checksum, by the byte order of the drive.
unfoldable pub filler : Bool → ℕ → ℕ
filler mfs_lsb i =
    get_or (if mfs_lsb then 0x0d ∷ 0xf0 ∷ 0xad ∷ 0xde ∷ [] else 0xde ∷ 0xad ∷ 0xf0 ∷ 0x0d ∷ []) i 0

-- The loop of mfs_compute_crc. `off` counts down to the word of the checksum, and wraps below 0.
unfoldable pub crc_loop : Bool → List ℕ → ℕ → ℕ → ℕ
crc_loop mfs_lsb [] off crc = crc
crc_loop mfs_lsb (octet ∷ bytes) off crc =
    crc_loop mfs_lsb bytes (sub32 off 1)
      (if ltb off 4 then updc32 (filler mfs_lsb (3 - off)) crc else updc32 octet crc)

-- A 32-bit word in memory, by the byte order of the machine: reading it, and its bytes.
unfoldable pub word_at : Bool → List ℕ → ℕ → ℕ
word_at arch_lsb bytes off =
    let b0 = get_or bytes (4 * off) 0 in
    let b1 = get_or bytes (4 * off + 1) 0 in
    let b2 = get_or bytes (4 * off + 2) 0 in
    let b3 = get_or bytes (4 * off + 3) 0 in
    if arch_lsb
    then b0 + 2 ^ 8 * b1 + 2 ^ 16 * b2 + 2 ^ 24 * b3
    else b3 + 2 ^ 8 * b2 + 2 ^ 16 * b1 + 2 ^ 24 * b0

unfoldable pub word_bytes : Bool → ℕ → List ℕ
word_bytes arch_lsb n =
    if arch_lsb
    then (n % 2 ^ 8) ∷ (n / 2 ^ 8 % 2 ^ 8) ∷ (n / 2 ^ 16 % 2 ^ 8) ∷ (n / 2 ^ 24 % 2 ^ 8) ∷ []
    else (n / 2 ^ 24 % 2 ^ 8) ∷ (n / 2 ^ 16 % 2 ^ 8) ∷ (n / 2 ^ 8 % 2 ^ 8) ∷ (n % 2 ^ 8) ∷ []

-- A store of some bytes at the start of memory, and from the byte `i` on.
unfoldable pub overwrite : List ℕ → List ℕ → List ℕ
overwrite [] new = []
overwrite (b ∷ bytes) [] = b ∷ bytes
overwrite (b ∷ bytes) (n ∷ new) = n ∷ overwrite bytes new

unfoldable pub store : List ℕ → ℕ → List ℕ → List ℕ
unfolding overwrite
store bytes zero new = overwrite bytes new
store [] (suc i) new = []
store (b ∷ bytes) (suc i) new = b ∷ store bytes i new

module _ (mfs_lsb arch_lsb : Bool) where
  -- mfs_compute_crc
  unfoldable pub mfs_compute_crc : List ℕ → ℕ → ℕ
  mfs_compute_crc bytes off =
      intswap32 mfs_lsb arch_lsb (crc_loop mfs_lsb bytes (u32 (off * 4 + 3)) 0)

  -- mfs_check_crc
  unfoldable pub mfs_check_crc : List ℕ → ℕ → Bool
  mfs_check_crc bytes off = word_at arch_lsb bytes off == mfs_compute_crc bytes off

  -- mfs_update_crc
  unfoldable pub mfs_update_crc : List ℕ → ℕ → List ℕ
  mfs_update_crc bytes off = store bytes (4 * off) (word_bytes arch_lsb (mfs_compute_crc bytes off))
