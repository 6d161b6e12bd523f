-- ===== src/Log/Replay/Encoding.antt =====
-- The entry for a block of a zone map, mfs_log_zone_update of lib/log.c, and what replaying it does.
use mfstools.Base.{
  ℕ, ◌-◌, ◌/◌, ◌%◌, ◌^◌, Bool, not, Option, none, some, List, ◌∷◌, ◌++◌, bit_xor, if◌then◌else◌,
  u32, replicate,
}
use mfstools.Util.{intswap16, intswap32, intswap64}
use mfstools.Crc.{word_bytes}
use mfstools.Inode.Objects.Attributes.{half_bytes}
use mfstools.Zonemap.Zone.{MfsHandle}
use mfstools.Zonemap.Update.{state_is, no_state, zone_map_block_state}
use mfstools.Log.{CurrentLog, Filled, log_add_entry}
use mfstools.Log.Replay.{lt_map_update, lt_map_update64}

-- The bytes of a 64-bit word in memory.
unfoldable pub dword_bytes : Bool → ℕ → List ℕ
dword_bytes arch_lsb n =
    if arch_lsb
    then word_bytes arch_lsb (n % 2 ^ 32) ++ word_bytes arch_lsb (n / 2 ^ 32)
    else word_bytes arch_lsb (n / 2 ^ 32) ++ word_bytes arch_lsb (n % 2 ^ 32)

-- `state? 1 : 0`
abbrev pub one_if : Bool → ℕ
one_if state = if state then 1 else 0

module _ (mfs_lsb arch_lsb : Bool) (bootcycle bootsecs : ℕ) where
  abbrev pub put_word : ℕ → List ℕ
  put_word n = word_bytes arch_lsb (intswap32 mfs_lsb arch_lsb n)

  -- The generic part of an entry of `size` bytes.
  unfoldable pub entry_header : ℕ → ℕ → ℕ → List ℕ
  entry_header size fsid type =
      half_bytes arch_lsb (intswap16 mfs_lsb arch_lsb (size - 2))
      ++ (word_bytes arch_lsb 0
          ++ (put_word bootcycle
              ++ (put_word bootsecs
                  ++ (put_word fsid ++ (put_word type ++ word_bytes arch_lsb 0)))))

  -- `log_map_update_32`, in which `remove`, `sector` and `size` are cut to 32 bits.
  unfoldable pub zone_entry_32 : ℕ → ℕ → ℕ → Bool → List ℕ
  unfolding entry_header
  zone_entry_32 fsid sector size state =
      entry_header 42 fsid lt_map_update
      ++ (put_word (one_if state)
          ++ (put_word (u32 sector) ++ (put_word (u32 size) ++ word_bytes arch_lsb 0)))

  -- `log_map_update_64`, whose padding is 0xaa.
  unfoldable pub zone_entry_64 : ℕ → ℕ → ℕ → Bool → Bool → List ℕ
  unfolding entry_header dword_bytes
  zone_entry_64 fsid sector size state oldstate =
      entry_header 58 fsid lt_map_update64
      ++ (put_word (one_if state)
          ++ (replicate 4 0xaa
              ++ (dword_bytes arch_lsb (intswap64 mfs_lsb arch_lsb sector)
                  ++ (dword_bytes arch_lsb (intswap64 mfs_lsb arch_lsb size)
                      ++ (bit_xor (bit_xor (one_if (not oldstate)) (one_if state)) 1
                          ∷ replicate 7 0xaa)))))

  -- The entry that mfs_log_zone_update makes; none when it returns 0 before it adds one.
  unfoldable pub zone_entry : MfsHandle → ℕ → ℕ → ℕ → Bool → Option (List ℕ)
  unfolding zone_entry_32 zone_entry_64
  zone_entry maps fsid sector size state =
      if maps.is_64
      then elim (zone_map_block_state maps sector size).0 [
        | state_is oldstate ↦ some (zone_entry_64 fsid sector size state oldstate)
        | no_state e ↦ none
      ]
      else some (zone_entry_32 fsid sector size state)

  -- mfs_log_zone_update
  unfoldable pub log_zone_update : MfsHandle → Option CurrentLog → ℕ → ℕ → ℕ → Bool → Option Filled
  unfolding zone_entry
  log_zone_update maps log fsid sector size state = elim (zone_entry maps fsid sector size state) [
    | none ↦ none
    | some entry ↦ some (log_add_entry mfs_lsb arch_lsb log entry)
  ]
