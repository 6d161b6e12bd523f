-- ===== src/Log/Bytes.antt =====
-- Stores into the body of a log sector, and pieces of an entry.
use mfstools.Base.{
  ℕ, zero, suc, ◌+◌, ◌-◌, ◌≤◌, ◌≡◌, refl, sym, ap, ◌∙◌, List, [], ◌∷◌, ◌++◌, arith, take, drop,
  replicate, length,
}
use mfstools.Crc.{overwrite, store}

length-overwrite : (body new : List ℕ) → length (overwrite body new) ≡ length body
unfolding overwrite
length-overwrite [] new = refl
length-overwrite (b ∷ body) [] = refl
length-overwrite (b ∷ body) (n ∷ new) = ap suc (length-overwrite body new)

pub length-store : (body : List ℕ) (i : ℕ) (new : List ℕ) → length (store body i new) ≡ length body
unfolding store
length-store body zero new = length-overwrite body new
length-store [] (suc i) new = refl
length-store (b ∷ body) (suc i) new = ap suc (length-store body i new)

take-overwrite :
    (body new : List ℕ) → length new ≤ length body → take (length new) (overwrite body new) ≡ new
unfolding overwrite
take-overwrite [] [] h = refl
take-overwrite [] (n ∷ new) h = absurd (omega arith)
take-overwrite (b ∷ body) [] h = refl
take-overwrite (b ∷ body) (n ∷ new) h = ap (λ t. n ∷ t) (take-overwrite body new (omega arith))

-- What stands up to the end of a store.
pub take-store :
    (body : List ℕ) (i k : ℕ) (new : List ℕ)
    → k ≡ i + length new
    → k ≤ length body
    → take k (store body i new) ≡ take i body ++ new
unfolding store
take-store body zero k new e h =
    ap (λ (j : ℕ). take j (overwrite body new)) e' ∙ take-overwrite body new (omega (arith, e))
  where
    e' : k ≡ length new
    e' = omega (arith, e)
take-store [] (suc i) k new e h = absurd (omega (arith, e))
take-store (b ∷ body) (suc i) zero new e h = absurd (omega (arith, e))
take-store (b ∷ body) (suc i) (suc k) new e h =
    ap (λ t. b ∷ t) (take-store body i k new (omega (arith, e)) (omega arith))

take_nil : (k : ℕ) → take {A = ℕ} k [] ≡ []
take_nil zero = refl
take_nil (suc k) = refl

drop_nil : (k : ℕ) → drop {A = ℕ} k [] ≡ []
drop_nil zero = refl
drop_nil (suc k) = refl

-- A piece of an entry and the piece behind it.
pub take-take : (m n : ℕ) (xs : List ℕ) → take m xs ++ take n (drop m xs) ≡ take (m + n) xs
take-take zero n xs = ap (λ (k : ℕ). take k xs) none_first
  where
    none_first : n ≡ 0 + n
    none_first = omega arith
take-take (suc m) n [] = take_nil n ∙ sym (take_nil (suc m + n))
take-take (suc m) n (x ∷ xs) =
    ap (λ t. x ∷ t) (take-take m n xs) ∙ ap (λ (k : ℕ). take k (x ∷ xs)) one_more
  where
    one_more : suc (m + n) ≡ suc m + n
    one_more = omega arith

pub drop-drop : (m n : ℕ) (xs : List ℕ) → drop n (drop m xs) ≡ drop (m + n) xs
drop-drop zero n xs = ap (λ (k : ℕ). drop k xs) none_first
  where
    none_first : n ≡ 0 + n
    none_first = omega arith
drop-drop (suc m) n [] = drop_nil n ∙ sym (drop_nil (suc m + n))
drop-drop (suc m) n (x ∷ xs) = drop-drop m n xs ∙ ap (λ (k : ℕ). drop k (x ∷ xs)) one_more
  where
    one_more : suc (m + n) ≡ suc m + n
    one_more = omega arith

-- Behind a store nothing changes.
drop-overwrite :
    (body new : List ℕ) → drop (length new) (overwrite body new) ≡ drop (length new) body
unfolding overwrite
drop-overwrite [] new = refl
drop-overwrite (b ∷ body) [] = refl
drop-overwrite (b ∷ body) (n ∷ new) = drop-overwrite body new

pub drop-store :
    (body : List ℕ) (i k : ℕ) (new : List ℕ)
    → k ≡ i + length new
    → drop k (store body i new) ≡ drop k body
unfolding store
drop-store body zero k new e =
    ap (λ (j : ℕ). drop j (overwrite body new)) e'
    ∙ drop-overwrite body new
    ∙ ap (λ (j : ℕ). drop j body) (sym e')
  where
    e' : k ≡ length new
    e' = omega (arith, e)
drop-store [] (suc i) k new e = refl
drop-store (b ∷ body) (suc i) zero new e = absurd (omega (arith, e))
drop-store (b ∷ body) (suc i) (suc k) new e = drop-store body i k new (omega (arith, e))

pub drop-replicate : (n k : ℕ) → drop {A = ℕ} n (replicate k 0) ≡ replicate (k - n) 0
drop-replicate zero k = ap (λ (j : ℕ). replicate {A = ℕ} j 0) all
  where
    all : k ≡ k - 0
    all = omega arith
drop-replicate (suc n) zero = ap (λ (j : ℕ). replicate {A = ℕ} j 0) none_left
  where
    none_left : 0 ≡ 0 - suc n
    none_left = omega arith
drop-replicate (suc n) (suc k) = drop-replicate n k ∙ ap (λ (j : ℕ). replicate {A = ℕ} j 0) one_less
  where
    one_less : k - n ≡ suc k - suc n
    one_less = omega arith
