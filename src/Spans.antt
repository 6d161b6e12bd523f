-- ===== src/Spans.antt =====
-- The pieces of what a device holds, as lists: `content` gives the sector at each number.
use mfstools.Base.{
  ℕ, zero, suc, ◌+◌, ◌-◌, ◌≤◌, ◌<◌, ◌≡◌, refl, ap, ap₂, ◌∙◌, List, [], ◌∷◌, ◌++◌, arith, take, drop,
  get_or, length,
}

abbrev Sector : Type 0
Sector = List ℕ

-- The sectors from a number on, of what is held at each.
abbrev pub sectors_from : (ℕ → Sector) → ℕ → ℕ → List Sector
sectors_from content sector zero = []
sectors_from content sector (suc n) = content sector ∷ sectors_from content (suc sector) n

pub length-sectors_from :
    (content : ℕ → Sector) (sector n : ℕ) → length (sectors_from content sector n) ≡ n
length-sectors_from content sector zero = refl
length-sectors_from content sector (suc n) = ap suc (length-sectors_from content (suc sector) n)

pub take-sectors_from :
    (content : ℕ → Sector) (k sector n : ℕ)
    → k ≤ n
    → take k (sectors_from content sector n) ≡ sectors_from content sector k
take-sectors_from content zero sector n h = refl
take-sectors_from content (suc k) sector zero h = absurd (omega arith)
take-sectors_from content (suc k) sector (suc n) h =
    ap (λ t. content sector ∷ t) (take-sectors_from content k (suc sector) n (omega arith))

pub drop-sectors_from :
    (content : ℕ → Sector) (k sector n : ℕ)
    → k ≤ n
    → drop k (sectors_from content sector n) ≡ sectors_from content (sector + k) (n - k)
drop-sectors_from content zero sector n h =
    ap₂ (λ (a b : ℕ). sectors_from content a b) (omega arith) (omega arith)
drop-sectors_from content (suc k) sector zero h = absurd (omega arith)
drop-sectors_from content (suc k) sector (suc n) h =
    drop-sectors_from content k (suc sector) n (omega arith)
    ∙ ap₂ (λ (a b : ℕ). sectors_from content a b) (omega arith) (omega arith)

pub sectors_from_agree :
    (f : ℕ → Sector) (sector : ℕ) (new : List Sector)
    → ((i : ℕ) → i < length new → f (sector + i) ≡ get_or new i [])
    → sectors_from f sector (length new) ≡ new
sectors_from_agree f sector [] h = refl
sectors_from_agree f sector (first ∷ new) h =
    ap₂ ◌∷◌ (ap f (omega arith) ∙ h 0 (omega arith))
      (sectors_from_agree f (suc sector) new (λ i l. ap f (omega arith) ∙ h (suc i) (omega arith)))

pub sectors_from_same :
    (f g : ℕ → Sector) (sector n : ℕ)
    → ((k : ℕ) → sector ≤ k → k < sector + n → f k ≡ g k)
    → sectors_from f sector n ≡ sectors_from g sector n
sectors_from_same f g sector zero h = refl
sectors_from_same f g sector (suc n) h =
    ap₂ ◌∷◌ (h sector (omega arith) (omega arith))
      (sectors_from_same f g (suc sector) n (λ k l u. h k (omega arith) (omega arith)))

pub sectors_from-add :
    (content : ℕ → Sector) (sector m n : ℕ)
    → sectors_from content sector (m + n)
      ≡ sectors_from content sector m ++ sectors_from content (sector + m) n
sectors_from-add content sector zero n =
    ap₂ (λ (a b : ℕ). sectors_from content a b) (omega arith) (omega arith)
sectors_from-add content sector (suc m) n =
    ap (λ (k : ℕ). sectors_from content sector k) count
    ∙ ap (λ t. content sector ∷ t)
        (sectors_from-add content (suc sector) m n
          ∙ ap (λ (k : ℕ). sectors_from content (suc sector) m ++ sectors_from content k n) place)
  where
    count : suc m + n ≡ suc (m + n)
    count = omega arith

    place : suc sector + m ≡ sector + suc m
    place = omega arith
