-- ===== src/Inode/Directory/Layout.antt =====
-- Names and words as they stand in memory, read from the bytes.
use mfstools.Base.{
  ℕ, zero, suc, ◌+◌, ◌/◌, ◌^◌, ◌<◌, ◌≡◌, ◌≢◌, refl, Bool, true, false, List, [], ◌∷◌, ◌++◌, arith,
  get_or, drop, length,
}
use mfstools.Crc.{word_at, word_bytes}
use mfstools.Inode.Directory.{c_string}

-- No byte of a name is the one that ends it.
unfoldable pub NoZero : List ℕ → Type 0
NoZero [] = Unit
NoZero (b ∷ bytes) = (b ≢ 0) × NoZero bytes

pub c_string-append : (name rest : List ℕ) → NoZero name → c_string (name ++ 0 ∷ rest) ≡ name
unfolding c_string NoZero
c_string-append [] rest h = refl
c_string-append (b ∷ name) rest h = ground (arith, h.0, c_string-append name rest h.1)

-- How many words an entry with the name takes: a word for the fsid, two bytes, the name, the byte
-- that ends it, and up to three more.
abbrev pub words_of : List ℕ → ℕ
words_of name = (length name + 10) / 4

-- A word that is stored is the word that is read.
pub word_at-word_bytes :
    (arch_lsb : Bool) (n : ℕ) (rest : List ℕ)
    → n < 2 ^ 32
    → word_at arch_lsb (word_bytes arch_lsb n ++ rest) 0 ≡ n
unfolding word_at word_bytes
word_at-word_bytes true n rest h = omega arith
word_at-word_bytes false n rest h = omega arith

-- What stands behind a word.
pub drop-word_bytes :
    (arch_lsb : Bool) (n k : ℕ) (rest : List ℕ)
    → (get_or (word_bytes arch_lsb n ++ rest) 4 0 ≡ get_or rest 0 0)
      × (get_or (word_bytes arch_lsb n ++ rest) 5 0 ≡ get_or rest 1 0)
      × (drop 6 (word_bytes arch_lsb n ++ rest) ≡ drop 2 rest)
      × (drop (suc (suc (suc (suc k)))) (word_bytes arch_lsb n ++ rest) ≡ drop k rest)
unfolding word_bytes
drop-word_bytes true n k rest = (refl, refl, refl, refl)
drop-word_bytes false n k rest = (refl, refl, refl, refl)

pub drop-append_exact : (n : ℕ) (xs rest : List ℕ) → length xs ≡ n → drop n (xs ++ rest) ≡ rest
drop-append_exact zero [] rest e = refl
drop-append_exact (suc n) [] rest e = absurd (omega arith)
drop-append_exact zero (x ∷ xs) rest e = absurd (omega arith)
drop-append_exact (suc n) (x ∷ xs) rest e = drop-append_exact n xs rest (omega arith)
