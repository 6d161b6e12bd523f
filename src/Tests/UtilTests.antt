-- ===== src/Tests/UtilTests.antt =====
-- The byte order helpers at concrete numbers.
use mfstools.Base.{◌≡◌, refl, true}
use mfstools.Util.{endian16_swap, endian32_swap, endian64_swap, sectorswap64}

swaps :
    (endian16_swap 0x1234 ≡ 0x3412)
    × (endian32_swap 0x12345678 ≡ 0x78563412)
    × (endian64_swap 0x0123456789abcdef ≡ 0xefcdab8967452301)
unfolding endian16_swap endian32_swap endian64_swap
swaps = (refl, refl, refl)

-- On a drive with the low byte first the halves of a sector number change places.
sector_halves : sectorswap64 true true 0x0000000100000002 ≡ 0x0000000200000001
unfolding sectorswap64
sector_halves = refl
