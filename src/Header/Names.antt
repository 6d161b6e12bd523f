-- ===== src/Header/Names.antt =====
-- The volumes that the list of partitions in the volume header names: the last loop of
-- mfs_load_volume_header of lib/mfs.c.
use mfstools.Base.{
  ℕ, zero, suc, ◌≤◌, ◌<◌, ◌≡◌, refl, ap, ◌∙◌, Bool, true, false, some, List, [], ◌∷◌, ◌++◌, arith,
  length, length-append,
}
use mfstools.Header.{is_blank, skip_name, skip_blanks, name_places, other_volumes}

-- Blank bytes, of which there is one at least, and the name behind them.
pub record Word : Type 0 where
  pub blank : ℕ
  pub blanks : List ℕ
  pub letter : ℕ
  pub letters : List ℕ

-- All bytes are blank, or none is.
unfoldable pub AllAre : Bool → List ℕ → Type 0
AllAre is [] = Unit
AllAre is (b ∷ names) = (is_blank b ≡ is) × AllAre is names

pub record IsWord (w : Word) : Type 0 where
  pub is_gap : AllAre true (w.blank ∷ w.blanks)
  pub is_name : AllAre false (w.letter ∷ w.letters)

unfoldable pub AreWords : List Word → Type 0
AreWords [] = Unit
AreWords (w ∷ words) = IsWord w × AreWords words

-- The words as they stand in the list, the name of the first and what is behind, and all of these.
unfoldable pub line : List Word → List ℕ
line [] = []
line (w ∷ words) = (w.blank ∷ w.blanks) ++ ((w.letter ∷ w.letters) ++ line words)

unfoldable named : List Word → List ℕ
unfolding line
named [] = []
named (w ∷ words) = (w.letter ∷ w.letters) ++ line words

unfoldable pub places : List Word → List (List ℕ)
unfolding line
places [] = []
places (w ∷ words) = ((w.letter ∷ w.letters) ++ line words) ∷ places words

skip_name-name :
    (name names : List ℕ) → AllAre false name → skip_name (name ++ names) ≡ skip_name names
unfolding AllAre skip_name
skip_name-name [] names a = refl
skip_name-name (b ∷ name) names a = rw (a.0) (skip_name-name name names a.1)

skip_name-line : (words : List Word) → AreWords words → skip_name (line words) ≡ line words
unfolding AreWords AllAre line skip_name
skip_name-line [] a = refl
skip_name-line (w ∷ words) a = rw (a.0.is_gap.0) refl

skip_blanks-gap :
    (gap names : List ℕ) → AllAre true gap → skip_blanks (gap ++ names) ≡ skip_blanks names
unfolding AllAre skip_blanks
skip_blanks-gap [] names a = refl
skip_blanks-gap (b ∷ gap) names a = rw (a.0) (skip_blanks-gap gap names a.1)

skip_blanks-line : (words : List Word) → AreWords words → skip_blanks (line words) ≡ named words
unfolding AreWords AllAre line named skip_blanks
skip_blanks-line [] a = refl
skip_blanks-line (w ∷ words) a = rw (a.0.is_gap.0) (
    skip_blanks-gap w.blanks ((w.letter ∷ w.letters) ++ line words) a.0.is_gap.1
    ∙ rw (a.0.is_name.0) refl)

-- A name and the blanks behind it are passed together.
next_name :
    (name : List ℕ) (words : List Word)
    → AllAre false name
    → AreWords words
    → skip_blanks (skip_name (name ++ line words)) ≡ named words
next_name name words a b =
    ap skip_blanks (skip_name-name name (line words) a ∙ skip_name-line words b)
    ∙ skip_blanks-line words b

name_places-named :
    (words : List Word) (fuel : ℕ)
    → AreWords words
    → length words < fuel
    → name_places fuel (named words) ≡ some (places words)
unfolding AreWords named places name_places
name_places-named words zero a h = absurd (omega (arith, h))
name_places-named [] (suc fuel) a h = refl
name_places-named (w ∷ words) (suc fuel) a h =
    rw
      (
        next_name (w.letter ∷ w.letters) words a.0.is_name a.1,
        name_places-named words fuel a.1 (omega (arith, h)),
      )
      refl

length-line : (words : List Word) → length words ≤ length (line words)
unfolding line
length-line [] = omega arith
length-line (w ∷ words) = omega (
  arith,
  length-line words,
  length-append w.blanks ((w.letter ∷ w.letters) ++ line words),
  length-append w.letters (line words),
)

-- For a list of partitions that is a name and more names, each behind blank bytes: the volumes
-- that are added are all behind the first name, in their order, each with the rest of the list behind it.
pub other_volumes-places :
    (first : List ℕ) (words : List Word)
    → AllAre false first
    → AreWords words
    → other_volumes (first ++ line words) ≡ some (places words)
unfolding other_volumes
other_volumes-places first words a b =
    ap (name_places (suc (length (first ++ line words)))) (next_name first words a b)
    ∙ name_places-named words (suc (length (first ++ line words))) b
        (omega (arith, length-line words, length-append first (line words)))
