-- ===== src/Inode/Runs/Stored.antt =====
-- A device that keeps what is written, and sectors inside and outside the runs of an inode.
use mfstools.Base.{
  ℕ, ◌+◌, ◌-◌, ◌^◌, ◌≤◌, ◌<◌, ◌≡◌, ◌⊎◌, inl, inr, ap, ◌∙◌, ◌&&◌, some, List, [], ◌∷◌, arith, ltb,
  leb, if◌then◌else◌, get_or, length,
}
use mfstools.Spans.{sectors_from, sectors_from_agree}
use mfstools.Inode.{Sector, Drive}
use mfstools.Inode.Runs.{Run}

-- A device of `size` sectors that keeps what is written: `content` is what it holds.
pub record Stores {S : Type 0} (drive : Drive S) (size : ℕ) (content : S → ℕ → Sector)
    : Type 0 where
  pub writes :
      (s : S) (sector : ℕ) (new : List Sector)
      → sector + length new ≤ size
      → (drive.write s sector new).0 ≡ some (length new)
  pub holds :
      (s : S) (sector : ℕ) (new : List Sector) (k : ℕ)
      → sector + length new ≤ size
      → content (drive.write s sector new).1 k ≡ (
          if leb sector k && ltb k (sector + length new)
          then get_or new (k - sector) []
          else content s k)

-- No sector of a run is one of a later run.
unfoldable pub Clear : Run → List Run → Type 0
Clear run [] = Unit
Clear run (later ∷ runs) =
    ((run.sector + run.count ≤ later.sector) ⊎ (later.sector + later.count ≤ run.sector))
    × Clear run runs

unfoldable pub Separate : List Run → Type 0
unfolding Clear
Separate [] = Unit
Separate (run ∷ runs) = Clear run runs × Separate runs

-- A sector that is in none of the runs.
unfoldable pub Outside : ℕ → List Run → Type 0
Outside k [] = Unit
Outside k (run ∷ runs) = ((k < run.sector) ⊎ (run.sector + run.count ≤ k)) × Outside k runs

unfoldable pub total_count : List Run → ℕ
total_count [] = 0
total_count (run ∷ runs) = run.count + total_count runs

pub Outside-Clear :
    (run : Run) (runs : List Run) (k : ℕ)
    → Clear run runs
    → run.sector ≤ k
    → k < run.sector + run.count
    → Outside k runs
unfolding Clear Outside
Outside-Clear run [] k c l u = tt
Outside-Clear run (later ∷ runs) k c l u = (apart c.0, Outside-Clear run runs k c.1 l u)
  where
    apart :
        ((run.sector + run.count ≤ later.sector) ⊎ (later.sector + later.count ≤ run.sector))
        → ((k < later.sector) ⊎ (later.sector + later.count ≤ k))
    apart (inl h) = inl (omega arith)
    apart (inr h) = inr (omega arith)

module _ {S : Type 0} (drive : Drive S) (size : ℕ) (content : S → ℕ → Sector)
    (small : size < 2 ^ 64) (stores : Stores drive size content) where
  pub written :
      (s : S) (sector : ℕ) (new : List Sector)
      → sector + length new ≤ size
      → sectors_from (content (drive.write s sector new).1) sector (length new) ≡ new
  written s sector new h = sectors_from_agree _ sector new (λ i l.
      stores.holds s sector new (sector + i) h
      ∙ place i l
      ∙ ap (λ (k : ℕ). get_or new k []) (omega arith))
    where
      place :
          (i : ℕ)
          → i < length new
          → (if leb sector (sector + i) && ltb (sector + i) (sector + length new)
              then get_or new (sector + i - sector) []
              else content s (sector + i))
            ≡ get_or new (sector + i - sector) []
      place i l = ground arith

  pub untouched :
      (s : S) (sector : ℕ) (new : List Sector) (k : ℕ)
      → sector + length new ≤ size
      → ((k < sector) ⊎ (sector + length new ≤ k))
      → content (drive.write s sector new).1 k ≡ content s k
  untouched s sector new k h out = stores.holds s sector new k h ∙ ground (arith, out)
