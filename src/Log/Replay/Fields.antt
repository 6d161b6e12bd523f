-- ===== src/Log/Replay/Fields.antt =====
-- The fields of the entry that mfs_log_zone_update of lib/log.c makes, read back from its bytes.
use mfstools.Base.{
  ℕ, ◌+◌, ◌*◌, ◌/◌, ◌%◌, ◌^◌, ◌<◌, ◌≡◌, refl, ap, ◌∙◌, Bool, true, false, Option, none, some, List,
  arith, u32,
}
use mfstools.Util.{intswap16, intswap32, intswap64}
use mfstools.Util.Swaps.{intswap16_twice, intswap32_twice}
use mfstools.Util.Swap64.{intswap64_twice}
use mfstools.Crc.{word_at, word_bytes}
use mfstools.Inode.Objects.Attributes.{half_bytes}
use mfstools.Log.Loading.Pieces.{IsEntry}
use mfstools.Log.Replay.{entry_word, entry_dword, lt_map_update, lt_map_update64}
use mfstools.Log.Replay.Encoding.{one_if, dword_bytes, entry_header, zone_entry_32, zone_entry_64}

-- A number by the bytes of a word.
abbrev joined : ℕ → ℕ
joined m =
    m % 2 ^ 8
    + 2 ^ 8 * (m / 2 ^ 8 % 2 ^ 8)
    + 2 ^ 16 * (m / 2 ^ 16 % 2 ^ 8)
    + 2 ^ 24 * (m / 2 ^ 24 % 2 ^ 8)

word_back :
    (mfs_lsb arch_lsb : Bool) (n : ℕ)
    → n < 2 ^ 32
    → intswap32 mfs_lsb arch_lsb (joined (intswap32 mfs_lsb arch_lsb n)) ≡ n
word_back mfs_lsb arch_lsb n h =
    ap (intswap32 mfs_lsb arch_lsb) (omega (arith, (intswap32_twice mfs_lsb arch_lsb n h).1))
    ∙ (intswap32_twice mfs_lsb arch_lsb n h).0

half_back :
    (mfs_lsb arch_lsb : Bool) (n : ℕ)
    → n < 2 ^ 16
    → intswap16 mfs_lsb arch_lsb
        (intswap16 mfs_lsb arch_lsb n % 2 ^ 8 + 256 * (intswap16 mfs_lsb arch_lsb n / 2 ^ 8))
      ≡ n
half_back mfs_lsb arch_lsb n h =
    ap (intswap16 mfs_lsb arch_lsb) (omega arith) ∙ (intswap16_twice mfs_lsb arch_lsb n h).0

dword_back :
    (mfs_lsb arch_lsb : Bool) (n : ℕ)
    → n < 2 ^ 64
    → let m = intswap64 mfs_lsb arch_lsb n in
      intswap64 mfs_lsb arch_lsb (joined (m % 2 ^ 32) + 2 ^ 32 * joined (m / 2 ^ 32)) ≡ n
dword_back mfs_lsb arch_lsb n h =
    ap (intswap64 mfs_lsb arch_lsb) (omega (arith, (intswap64_twice mfs_lsb arch_lsb n h).1))
    ∙ (intswap64_twice mfs_lsb arch_lsb n h).0

one_if-lt : (state : Bool) → one_if state < 2 ^ 32
one_if-lt true = omega arith
one_if-lt false = omega arith

-- The bytes that an optional entry gives.
abbrev pub given : List ℕ → Option (List ℕ) → List ℕ
given entry none = entry
given entry (some bytes) = bytes

-- What the fields of an entry for a block say.
pub record Says (mfs_lsb arch_lsb : Bool) (entry : List ℕ) (type : ℕ) (state : Bool) : Type 0 where
  pub is_entry : IsEntry mfs_lsb arch_lsb entry
  pub type_eq : entry_word mfs_lsb arch_lsb 18 entry ≡ type
  pub remove_eq : entry_word mfs_lsb arch_lsb 26 entry ≡ one_if state

module _ (mfs_lsb : Bool) (bootcycle bootsecs fsid sector size : ℕ) (state : Bool) where
  abbrev pub entry32 : Bool → List ℕ
  entry32 arch_lsb = zone_entry_32 mfs_lsb arch_lsb bootcycle bootsecs fsid sector size state

  abbrev pub entry64 : Bool → Bool → List ℕ
  entry64 arch_lsb oldstate =
      zone_entry_64 mfs_lsb arch_lsb bootcycle bootsecs fsid sector size state oldstate

  pub zone_entry_32-Says :
      (arch_lsb : Bool) → Says mfs_lsb arch_lsb (entry32 arch_lsb) lt_map_update state
  unfolding zone_entry_32 entry_header word_bytes word_at half_bytes
  zone_entry_32-Says true = record {
    is_entry = record {
      says = ap (λ (n : ℕ). n + 2) (half_back mfs_lsb true 40 (omega arith));
      longer = omega arith;
      even = refl;
    };
    type_eq = word_back mfs_lsb true lt_map_update (omega arith);
    remove_eq = word_back mfs_lsb true (one_if state) (one_if-lt state);
  }
  zone_entry_32-Says false = record {
    is_entry = record {
      says = ap (λ (n : ℕ). n + 2) (half_back mfs_lsb false 40 (omega arith));
      longer = omega arith;
      even = refl;
    };
    type_eq = word_back mfs_lsb false lt_map_update (omega arith);
    remove_eq = word_back mfs_lsb false (one_if state) (one_if-lt state);
  }

  pub zone_entry_32-fields :
      (arch_lsb : Bool)
      → sector < 2 ^ 32
      → size < 2 ^ 32
      → (entry_word mfs_lsb arch_lsb 30 (entry32 arch_lsb) ≡ sector)
        × (entry_word mfs_lsb arch_lsb 34 (entry32 arch_lsb) ≡ size)
  unfolding zone_entry_32 entry_header word_bytes word_at half_bytes
  zone_entry_32-fields true h k = (
    word_back mfs_lsb true (u32 sector) (omega arith) ∙ omega arith,
    word_back mfs_lsb true (u32 size) (omega arith) ∙ omega arith,
  )
  zone_entry_32-fields false h k = (
    word_back mfs_lsb false (u32 sector) (omega arith) ∙ omega arith,
    word_back mfs_lsb false (u32 size) (omega arith) ∙ omega arith,
  )

  pub zone_entry_64-Says :
      (arch_lsb : Bool) (oldstate : Bool)
      → Says mfs_lsb arch_lsb (entry64 arch_lsb oldstate) lt_map_update64 state
  unfolding zone_entry_64 entry_header word_bytes word_at half_bytes dword_bytes
  zone_entry_64-Says true oldstate = record {
    is_entry = record {
      says = ap (λ (n : ℕ). n + 2) (half_back mfs_lsb true 56 (omega arith));
      longer = omega arith;
      even = refl;
    };
    type_eq = word_back mfs_lsb true lt_map_update64 (omega arith);
    remove_eq = word_back mfs_lsb true (one_if state) (one_if-lt state);
  }
  zone_entry_64-Says false oldstate = record {
    is_entry = record {
      says = ap (λ (n : ℕ). n + 2) (half_back mfs_lsb false 56 (omega arith));
      longer = omega arith;
      even = refl;
    };
    type_eq = word_back mfs_lsb false lt_map_update64 (omega arith);
    remove_eq = word_back mfs_lsb false (one_if state) (one_if-lt state);
  }

  pub zone_entry_64-fields :
      (arch_lsb oldstate : Bool)
      → sector < 2 ^ 64
      → size < 2 ^ 64
      → (entry_dword mfs_lsb arch_lsb 34 (entry64 arch_lsb oldstate) ≡ sector)
        × (entry_dword mfs_lsb arch_lsb 42 (entry64 arch_lsb oldstate) ≡ size)
  unfolding zone_entry_64 entry_header word_bytes word_at half_bytes dword_bytes
  zone_entry_64-fields true oldstate h k =
      (dword_back mfs_lsb true sector h, dword_back mfs_lsb true size k)
  zone_entry_64-fields false oldstate h k =
      (dword_back mfs_lsb false sector h, dword_back mfs_lsb false size k)
