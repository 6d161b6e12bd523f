-- ===== src/Access/Swab.antt =====
-- data_swab swaps the two bytes of each pair, on either kind of machine.
use mfstools.Base.{
  ℕ, ◌+◌, ◌*◌, ◌^◌, ◌<◌, ◌≡◌, refl, ap, ap₂, ◌∙◌, Bool, true, false, List, [], ◌∷◌, ◌++◌, arith,
  bit_and, bit_or, u32, ◌<<◌, ◌>>◌,
}
use mfstools.Util.Fields.{bit_or_fields}
use mfstools.Util.Swaps.{keep_high_32, or_high}
use mfstools.Crc.{word_at, word_bytes}
use mfstools.Access.{swab_word, data_swab}

-- The reference: each byte changes places with its neighbour; one that is left over stays.
unfoldable pub swap_pairs : List ℕ → List ℕ
swap_pairs (a ∷ b ∷ bytes) = b ∷ a ∷ swap_pairs bytes
swap_pairs (a ∷ []) = a ∷ []
swap_pairs [] = []

unfoldable pub AreBytes : List ℕ → Type 0
AreBytes [] = Unit
AreBytes (b ∷ bytes) = (b < 2 ^ 8) × AreBytes bytes

swab_word_lem :
    (a b c d : ℕ)
    → a < 2 ^ 8
    → b < 2 ^ 8
    → c < 2 ^ 8
    → d < 2 ^ 8
    → swab_word (a + 2 ^ 8 * b + 2 ^ 16 * c + 2 ^ 24 * d) ≡ b + 2 ^ 8 * a + 2 ^ 16 * d + 2 ^ 24 * c
unfolding swab_word
swab_word_lem a b c d p q r s =
    ap₂ bit_or left right
    ∙ bit_or_fields 16 (c * 2 ^ 8) (a * 2 ^ 8) d b (omega arith) (omega arith)
    ∙ omega (arith, or_high 8 c d s, or_high 8 a b q)
  where
    word : ℕ
    word = a + 2 ^ 8 * b + 2 ^ 16 * c + 2 ^ 24 * d

    left : bit_and (u32 (word << 8)) 0xff00ff00 ≡ c * 2 ^ 8 * 2 ^ 16 + a * 2 ^ 8
    left = omega (arith, keep_high_32 (u32 (word << 8)) (omega arith))

    right : bit_and word 0xff00ff00 >> 8 ≡ d * 2 ^ 16 + b
    right = omega (arith, keep_high_32 word (omega arith))

four :
    {a b c d a' b' c' d' : ℕ}
    → a ≡ a'
    → b ≡ b'
    → c ≡ c'
    → d ≡ d'
    → a ∷ b ∷ c ∷ d ∷ [] ≡ a' ∷ b' ∷ c' ∷ d' ∷ []
four p q r s = ap₂ ◌∷◌ p (ap₂ ◌∷◌ q (ap₂ ◌∷◌ r (ap (λ t. t ∷ []) s)))

-- data_swab is the swap of each pair of bytes, on bytes of any length.
pub data_swab-swap_pairs :
    (arch_lsb : Bool) (bytes : List ℕ)
    → AreBytes bytes
    → data_swab arch_lsb bytes ≡ swap_pairs bytes
unfolding data_swab swap_pairs AreBytes word_at word_bytes
data_swab-swap_pairs arch_lsb [] h = refl
data_swab-swap_pairs arch_lsb (a ∷ []) h = refl
data_swab-swap_pairs arch_lsb (a ∷ b ∷ []) h = refl
data_swab-swap_pairs arch_lsb (a ∷ b ∷ c ∷ []) h = refl
data_swab-swap_pairs arch_lsb (a ∷ b ∷ c ∷ d ∷ bytes) h =
    ap₂ ◌++◌ {x = word_bytes arch_lsb (swab_word (word_at arch_lsb (a ∷ b ∷ c ∷ d ∷ []) 0))}
      {y = b ∷ a ∷ d ∷ c ∷ []} (pairs arch_lsb) (data_swab-swap_pairs arch_lsb bytes h.1.1.1.1)
  where
    pairs :
        (machine : Bool)
        → word_bytes machine (swab_word (word_at machine (a ∷ b ∷ c ∷ d ∷ []) 0))
          ≡ b ∷ a ∷ d ∷ c ∷ []
    pairs true =
        ap (word_bytes true) (swab_word_lem a b c d h.0 h.1.0 h.1.1.0 h.1.1.1.0)
        ∙ four (omega (arith, h.0, h.1.0, h.1.1.0, h.1.1.1.0))
            (omega (arith, h.0, h.1.0, h.1.1.0, h.1.1.1.0))
            (omega (arith, h.0, h.1.0, h.1.1.0, h.1.1.1.0))
            (omega (arith, h.0, h.1.0, h.1.1.0, h.1.1.1.0))
    pairs false =
        ap (word_bytes false) (swab_word_lem d c b a h.1.1.1.0 h.1.1.0 h.1.0 h.0)
        ∙ four (omega (arith, h.0, h.1.0, h.1.1.0, h.1.1.1.0))
            (omega (arith, h.0, h.1.0, h.1.1.0, h.1.1.1.0))
            (omega (arith, h.0, h.1.0, h.1.1.0, h.1.1.1.0))
            (omega (arith, h.0, h.1.0, h.1.1.0, h.1.1.1.0))

swap_pairs_twice : (bytes : List ℕ) → swap_pairs (swap_pairs bytes) ≡ bytes
unfolding swap_pairs
swap_pairs_twice [] = refl
swap_pairs_twice (a ∷ []) = refl
swap_pairs_twice (a ∷ b ∷ bytes) = ap (λ t. a ∷ b ∷ t) (swap_pairs_twice bytes)

AreBytes-swap_pairs : (bytes : List ℕ) → AreBytes bytes → AreBytes (swap_pairs bytes)
unfolding swap_pairs AreBytes
AreBytes-swap_pairs [] h = h
AreBytes-swap_pairs (a ∷ []) h = h
AreBytes-swap_pairs (a ∷ b ∷ bytes) h = (h.1.0, (h.0, AreBytes-swap_pairs bytes h.1.1))

-- A second swap undoes the first.
pub data_swab_twice :
    (arch_lsb : Bool) (bytes : List ℕ)
    → AreBytes bytes
    → data_swab arch_lsb (data_swab arch_lsb bytes) ≡ bytes
data_swab_twice arch_lsb bytes h =
    ap (data_swab arch_lsb) (data_swab-swap_pairs arch_lsb bytes h)
    ∙ data_swab-swap_pairs arch_lsb (swap_pairs bytes) (AreBytes-swap_pairs bytes h)
    ∙ swap_pairs_twice bytes
