-- ===== src/Zonemap/Update/Cover.antt =====
-- The abstract view of the bitmaps of a zone: at how many levels a smallest block is free.
use mfstools.Base.{
  ℕ, zero, suc, ◌+◌, ◌-◌, ◌*◌, ◌/◌, ◌^◌, ◌≤◌, ◌<◌, ◌≡◌, refl, ap, Bool, true, false, arith, List,
  [], ◌∷◌, length, get_or, modify, length-modify, get_or-modify_self, get_or-modify_ne, bit_xor,
}
use mfstools.Base.Bits.{shift_suc, bit_xor-one}
use native.Mathlib.Nat.{pow-suc, pow-le-pow_right, mul-div_cancel, one-le-pow}
use native.Mathlib.Decide.{ℕ_discrete}
use mfstools.Zonemap.Bitmap.{Bitmap, no_bitmap, bit_state_get}
use mfstools.Zonemap.Bitmap.Laws.{InRange}
use mfstools.Zonemap.Update.{level_bit}

abbrev pub ind : Bool → ℕ
ind true = 1
ind false = 0

-- `u >> k`, one place at a time.
abbrev pub halve : ℕ → ℕ → ℕ
halve zero u = u
halve (suc k) u = halve k (u / 2)

-- At how many levels the smallest block `u` lies in a block that is marked free.
abbrev pub cover : List Bitmap → ℕ → ℕ
cover [] u = 0
cover (b ∷ bs) u = ind (bit_state_get b u) + cover bs (u / 2)

-- Changing one bitmap changes the count by what it changes at its own level.
pub cover-modify :
    (bitmaps : List Bitmap) (order : ℕ) (f : Bitmap → Bitmap) (u : ℕ)
    → order < length bitmaps
    → cover (modify bitmaps order f) u + ind (level_bit bitmaps order (halve order u))
      ≡ cover bitmaps u + ind (bit_state_get (f (get_or bitmaps order no_bitmap)) (halve order u))
cover-modify [] order f u h = absurd (omega arith)
cover-modify (b ∷ bs) zero f u h = omega arith
cover-modify (b ∷ bs) (suc order) f u h =
    omega (arith, cover-modify bs order f (u / 2) (omega arith))

-- One level counts at most for itself, and two levels for two.
pub ind-le-cover :
    (bitmaps : List Bitmap) (l u : ℕ)
    → l < length bitmaps
    → ind (level_bit bitmaps l (halve l u)) ≤ cover bitmaps u
ind-le-cover [] l u h = absurd (omega arith)
ind-le-cover (b ∷ bs) zero u h = omega arith
ind-le-cover (b ∷ bs) (suc l) u h = omega (arith, ind-le-cover bs l (u / 2) (omega arith))

pub two-le-cover :
    (bitmaps : List Bitmap) (l k u : ℕ)
    → l < k
    → k < length bitmaps
    → ind (level_bit bitmaps l (halve l u)) + ind (level_bit bitmaps k (halve k u))
      ≤ cover bitmaps u
two-le-cover [] l k u h h' = absurd (omega arith)
two-le-cover (b ∷ bs) l zero u h h' = absurd (omega arith)
two-le-cover (b ∷ bs) zero (suc k) u h h' = omega (arith, ind-le-cover bs k (u / 2) (omega arith))
two-le-cover (b ∷ bs) (suc l) (suc k) u h h' =
    omega (arith, two-le-cover bs l k (u / 2) (omega arith) (omega arith))

-- With `2 ^ n` smallest blocks at level 0, each level has words for the bits of its blocks.
abbrev pub Fits : ℕ → List Bitmap → Type 0
Fits n bitmaps =
    (l : ℕ) → l < length bitmaps → 2 ^ (n - l) ≤ 32 * length (get_or bitmaps l no_bitmap).words

pub Fits-modify :
    (n : ℕ) (bitmaps : List Bitmap) (order : ℕ) (f : Bitmap → Bitmap)
    → ((b : Bitmap) → length (f b).words ≡ length b.words)
    → Fits n bitmaps
    → Fits n (modify bitmaps order f)
Fits-modify n bitmaps order f keep fits l h = elim (ℕ_discrete order l) [
  | yes e ↦ omega (
    arith,
    fits l (omega (arith, length-modify bitmaps order f)),
    keep (get_or bitmaps l no_bitmap),
    ap (λ (b : Bitmap). length b.words) (here e),
  )
  | no ne ↦ omega (
    arith,
    fits l (omega (arith, length-modify bitmaps order f)),
    ap (λ (b : Bitmap). length b.words) (get_or-modify_ne bitmaps order l f no_bitmap ne),
  )
]
  where
    here : order ≡ l → get_or (modify bitmaps order f) l no_bitmap ≡ f (get_or bitmaps l no_bitmap)
    here e = rw (← e) (
        get_or-modify_self bitmaps order f no_bitmap (omega (arith, length-modify bitmaps order f)))

pub halve-lt : (k n u : ℕ) → k ≤ n → u < 2 ^ n → halve k u < 2 ^ (n - k)
halve-lt zero n u h p = let e : n - 0 ≡ n = omega arith in rw e p
halve-lt (suc k) zero u h p = absurd (omega arith)
halve-lt (suc k) (suc n) u h p =
    let e : suc n - suc k ≡ n - k = omega arith in
    rw e (halve-lt k n (u / 2) (omega arith) (omega (arith, pow-suc 2 n)))

pub halve-suc : (k u : ℕ) → halve (suc k) u ≡ halve k u / 2
halve-suc zero u = refl
halve-suc (suc k) u = halve-suc k (u / 2)

pub halve-eq-shift : (k u : ℕ) → halve k u ≡ u / 2 ^ k
halve-eq-shift zero u = omega arith
halve-eq-shift (suc k) u = omega (arith, halve-suc k u, halve-eq-shift k u, shift_suc u k)

-- A bit of a level lies in the words of its bitmap.
pub Fits-InRange :
    (n : ℕ) (bitmaps : List Bitmap) (l bit : ℕ)
    → n < 32
    → Fits n bitmaps
    → l < length bitmaps
    → bit < 2 ^ (n - l)
    → InRange (get_or bitmaps l no_bitmap) bit
Fits-InRange n bitmaps l bit small fits h p =
    omega
      (arith, fits l h, pow-le-pow_right {n = 2} (omega arith) {i = n - l} {j = 31} (omega arith))

pub bit-lt-word : (n k x : ℕ) → n < 32 → x < 2 ^ (n - k) → x < 2 ^ 32
bit-lt-word n k x small p =
    omega (arith, pow-le-pow_right {n = 2} (omega arith) {i = n - k} {j = 31} (omega arith))

-- The first smallest block of a block.
pub block_start-lt : (k n m : ℕ) → k ≤ n → m < 2 ^ (n - k) → m * 2 ^ k < 2 ^ n
block_start-lt zero n m h p = let e : n - 0 ≡ n = omega arith in omega (arith, rw e at p)
block_start-lt (suc k) zero m h p = absurd (omega arith)
block_start-lt (suc k) (suc n) m h p =
    let e : suc n - suc k ≡ n - k = omega arith in
    let lower : m < 2 ^ (n - k) = rw e at p in
    omega (
      arith,
      block_start-lt k n m (omega arith) lower,
      pow-suc 2 n,
      ap (λ (t : ℕ). m * t) (pow-suc 2 k),
    )

pub halve-block_start : (k m : ℕ) → halve k (m * 2 ^ k) ≡ m
halve-block_start k m = omega (
  arith,
  halve-eq-shift k (m * 2 ^ k),
  mul-div_cancel m {n = 2 ^ k} (one-le-pow k 2 (omega arith)),
)

-- No smallest block is free at two levels.
abbrev pub Disjoint : ℕ → List Bitmap → Type 0
Disjoint n bitmaps = (u : ℕ) → u < 2 ^ n → cover bitmaps u ≤ 1

-- A block that is free at one level is not also free at a level above it.
pub Disjoint-above :
    (n : ℕ) (bitmaps : List Bitmap) (l k m : ℕ)
    → Disjoint n bitmaps
    → l < k
    → k < length bitmaps
    → l ≤ n
    → m < 2 ^ (n - l)
    → level_bit bitmaps l m ≡ true
    → level_bit bitmaps k (halve k (m * 2 ^ l)) ≡ false
Disjoint-above n bitmaps l k m alone h inside below range on = ground (
  arith,
  two-le-cover bitmaps l k (m * 2 ^ l) h inside,
  alone (m * 2 ^ l) (block_start-lt l n m below range),
  ap (λ t. level_bit bitmaps l t) (halve-block_start l m),
)

-- The neighbour of a block below the top is a block of the same level.
pub neighbour-lt : (k m : ℕ) → 0 < k → m < 2 ^ k → bit_xor m 1 < 2 ^ k
neighbour-lt zero m h p = absurd (omega arith)
neighbour-lt (suc k) m h p = omega (arith, bit_xor-one m, pow-suc 2 k)

-- A block lies in one of the next level.
pub half-lt : (n order m : ℕ) → order < n → m < 2 ^ (n - order) → m / 2 < 2 ^ (n - suc order)
half-lt n order m h p =
    let e : n - order ≡ suc (n - suc order) = omega arith in
    omega (arith, rw e at p, pow-suc 2 (n - suc order))
