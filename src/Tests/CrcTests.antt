-- ===== src/Tests/CrcTests.antt =====
-- The checksum at concrete bytes.
use mfstools.Base.{ℕ, ◌<◌, ◌^◌, ◌≡◌, refl, arith, false, true, List, [], ◌∷◌, get_or}
use mfstools.Crc.{
  updc32, compute_crc, mfs_check_crc, mfs_update_crc, mfs_compute_crc, crc_loop, filler, word_at,
}
use mfstools.Crc.Table.{crc32tab}
use mfstools.Crc.Polynomial.{divide_byte, crc32tab_lem}
use mfstools.Crc.RoundTrip.{check-update}
use mfstools.Util.{intswap32, endian32_swap}

abbrev bytes : List ℕ
bytes = 1 ∷ 2 ∷ 3 ∷ 4 ∷ 5 ∷ 6 ∷ 7 ∷ 8 ∷ 9 ∷ 10 ∷ 11 ∷ 12 ∷ []

-- The bytes of `123456789`, started at all ones, give the complement of the usual check value.
check_value :
    compute_crc (0x31 ∷ 0x32 ∷ 0x33 ∷ 0x34 ∷ 0x35 ∷ 0x36 ∷ 0x37 ∷ 0x38 ∷ 0x39 ∷ []) 0xffffffff
    ≡ 0x340bc6d9
unfolding compute_crc updc32 crc32tab
check_value = refl

stale_rejected : mfs_check_crc false true bytes 1 ≡ false
unfolding mfs_check_crc mfs_compute_crc crc_loop filler word_at updc32 crc32tab intswap32
    endian32_swap
stale_rejected = refl

crc32tab_example : (get_or crc32tab 200 0 ≡ divide_byte 200) × (get_or crc32tab 200 0 < 2 ^ 32)
crc32tab_example = crc32tab_lem 200 (omega arith)

check-update_example : mfs_check_crc false true (mfs_update_crc false true bytes 1) 1 ≡ true
check-update_example = check-update false true bytes 1 (omega arith) (omega arith)
