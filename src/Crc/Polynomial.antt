-- ===== src/Crc/Polynomial.antt =====
-- The table of lib/crc.c against the polynomial that its comment names.
use mfstools.Base.{
  ℕ, zero, suc, ◌+◌, ◌/◌, ◌%◌, ◌^◌, ◌<◌, ◌≡◌, refl, ap, ◌∙◌, Bool, true, arith, List, [], ◌∷◌, ◌&&◌,
  bit_xor, ◌==◌, if◌then◌else◌, get_or, ltb, length,
}
use mfstools.Crc.Table.{crc32tab}

-- One step of the division by the reflected polynomial 0xedb88320, and eight of them for a byte.
divide_step : ℕ → ℕ
divide_step crc = if crc % 2 == 1 then bit_xor (crc / 2) 0xedb88320 else crc / 2

pub divide_byte : ℕ → ℕ
unfolding divide_step
divide_byte n = divide_step (
    divide_step
      (divide_step (divide_step (divide_step (divide_step (divide_step (divide_step n)))))))

-- Every entry of a table is what the division gives, and fits 32 bits.
matches : List ℕ → ℕ → Bool
matches [] n = true
matches (t ∷ table) n = t == divide_byte n && ltb t (2 ^ 32) && matches table (n + 1)

matches_sound :
    (table : List ℕ) (n i : ℕ)
    → matches table n ≡ true
    → i < length table
    → (get_or table i 0 ≡ divide_byte (n + i)) × (get_or table i 0 < 2 ^ 32)
unfolding matches
matches_sound [] n i h l = absurd (omega arith)
matches_sound (t ∷ table) n zero h l = ground (arith, ap (λ k. divide_byte k) same)
  where
    same : n + 0 ≡ n
    same = omega arith
matches_sound (t ∷ table) n (suc i) h l =
    ground (arith, matches_sound table (n + 1) i, ap (λ k. divide_byte k) same)
  where
    same : n + suc i ≡ n + 1 + i
    same = omega arith

table_matches : matches crc32tab 0 ≡ true
unfolding matches divide_byte crc32tab
table_matches = refl

pub length-crc32tab : length crc32tab ≡ 256
unfolding crc32tab
length-crc32tab = refl

-- Entry `n` of the table is the remainder of the byte `n` by the polynomial 0xedb88320, the lowest
-- digit first, and fits 32 bits.
pub crc32tab_lem :
    (n : ℕ) → n < 256 → (get_or crc32tab n 0 ≡ divide_byte n) × (get_or crc32tab n 0 < 2 ^ 32)
crc32tab_lem n h =
    let sound = matches_sound crc32tab 0 n table_matches (omega (arith, length-crc32tab)) in
    let whole : 0 + n ≡ n = omega arith in (sound.0 ∙ ap (λ k. divide_byte k) whole, sound.1)
