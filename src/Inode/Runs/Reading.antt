-- ===== src/Inode/Runs/Reading.antt =====
-- mfs_read_inode_data_part reads a slice of the inode's runs laid end to end.
use mfstools.Base.{
  ℕ, zero, suc, ◌+◌, ◌-◌, ◌^◌, ◌≤◌, ◌<◌, ◌≡◌, refl, sym, ap, ◌∙◌, Bool, true, false, some, List, [],
  ◌∷◌, ◌++◌, arith, ◌==◌, if◌then◌else◌, take, drop, length, Bool-cases, inl, inr, add64,
}
use native.Mathlib.Decide.{dec_le}
use mfstools.Spans.{sectors_from, length-sectors_from, take-sectors_from, drop-sectors_from}
use mfstools.Inode.{Sector, Drive, field, numblocks_word}
use mfstools.Inode.Runs.{
  Run, Part, got, is_skipped, wanted, read_runs, runs_from, in_inode, read_data_part,
}
use mfstools.Inode.Runs.Slices.{
  drop-append_past, drop-append_within, take-append_past, take-append_within, append_assoc,
  append-nil,
}

-- The runs of an inode, laid end to end.
unfoldable pub contents : (ℕ → Sector) → List Run → List Sector
contents content [] = []
contents content (run ∷ runs) = sectors_from content run.sector run.count ++ contents content runs

-- A read within a device of `size` sectors gives the sectors that it holds.
pub record Serves {S : Type 0} (drive : Drive S) (s : S) (size : ℕ) (content : ℕ → Sector)
    : Type 0 where
  pub reads :
      (sector n : ℕ)
      → sector + n ≤ size
      → drive.read s sector n ≡ some (sectors_from content sector n)

-- Every run lies within the device.
unfoldable pub Within : ℕ → List Run → Type 0
Within size [] = Unit
Within size (run ∷ runs) = (run.sector + run.count ≤ size) × Within size runs

module _ {S : Type 0} (drive : Drive S) (s : S) (size : ℕ) (content : ℕ → Sector)
    (small : size < 2 ^ 64) (serves : Serves drive s size content) where
  -- A run that is not passed by is read from where the wanted sectors start in it.
  read_taken :
      (run : Run) (runs : List Run) (start count n : ℕ) (acc : List Sector)
      → run.sector + run.count ≤ size
      → start ≤ run.count
      → is_skipped run start ≡ false
      → wanted run start (suc count) ≡ n
      → n ≤ run.count - start
      → read_runs drive s (run ∷ runs) start (suc count) acc ≡ (
          if suc count - n == 0
          then got (acc ++ sectors_from content (run.sector + start) n)
          else read_runs drive s runs 0
              (suc count - n)
              (acc ++ sectors_from content (run.sector + start) n))
  unfolding read_runs
  read_taken run runs start count n acc inside fits taken e short =
      rw (nonzero) (
        rw (taken) (
          rw (place)
            (rw (serves.reads (run.sector + start) size' fits', read_runs) (rw (measured) refl))))
      ∙ ap after e
    where
      size' : ℕ
      size' = wanted run start (suc count)

      fits' : run.sector + start + size' ≤ size
      fits' = omega (arith, e)

      nonzero : (suc count == 0) ≡ false
      nonzero = ground arith

      place : add64 run.sector start ≡ run.sector + start
      place = omega (arith, small)

      measured : (length (sectors_from content (run.sector + start) size') == size') ≡ true
      measured = ground (arith, length-sectors_from content (run.sector + start) size')

      after : ℕ → Part
      after k =
          if suc count - k == 0
          then got (acc ++ sectors_from content (run.sector + start) k)
          else read_runs drive s runs 0 (suc count - k)
              (acc ++ sectors_from content (run.sector + start) k)

  -- What the spec takes of a run that is not passed by.
  slice_taken :
      (run : Run) (runs : List Run) (start : ℕ)
      → start ≤ run.count
      → drop start (contents content (run ∷ runs))
        ≡ sectors_from content (run.sector + start) (run.count - start) ++ contents content runs
  unfolding contents
  slice_taken run runs start h =
      drop-append_within start (sectors_from content run.sector run.count) (contents content runs)
        (omega (arith, length-sectors_from content run.sector run.count))
      ∙ ap (λ t. t ++ contents content runs)
          (drop-sectors_from content start run.sector run.count h)

  pub read_runs-contents :
      (runs : List Run) (start count : ℕ) (acc : List Sector)
      → Within size runs
      → read_runs drive s runs start count acc
        ≡ got (acc ++ take count (drop start (contents content runs)))
  unfolding read_runs Within contents
  read_runs-contents [] start count acc w =
      ap got (sym (append-nil acc) ∙ ap (λ t. acc ++ t) (nothing start count))
    where
      nothing : (a b : ℕ) → [] ≡ take b (drop {A = Sector} a [])
      nothing zero zero = refl
      nothing zero (suc b) = refl
      nothing (suc a) zero = refl
      nothing (suc a) (suc b) = refl
  read_runs-contents (run ∷ runs) start zero acc w = ap got (sym (append-nil acc))
  read_runs-contents (run ∷ runs) start (suc count) acc w =
      elim (Bool-cases (is_skipped run start)) [
        | inl skip ↦ rw (nonzero) (
            rw (skip) (
              read_runs-contents runs (start - run.count) (suc count) acc w.1
              ∙ ap (λ t. got (acc ++ take (suc count) t))
                  (sym (
                    drop-append_past start (sectors_from content run.sector run.count)
                      (contents content runs) (ground (arith, skip, measured))
                    ∙ ap (λ (k : ℕ). drop (start - k) (contents content runs)) measured))))
        | inr taken ↦ elim (dec_le (suc count) (run.count - start)) [
          | yes enough ↦
              read_taken run runs start count (suc count) acc w.0 (ground (arith, taken)) taken
                (ground (arith, enough)) enough
              ∙ (ground arith)
              ∙ ap (λ t. got (acc ++ t))
                  (sym (
                    ap (λ t. take (suc count) t)
                      (slice_taken run runs start (ground (arith, taken)))
                    ∙ take-append_within (suc count) _ (contents content runs) (
                        omega (
                          arith,
                          length-sectors_from content (run.sector + start) (run.count - start),
                        ))
                    ∙ take-sectors_from content (suc count) (run.sector + start) (run.count - start)
                        enough))
          | no more ↦
              read_taken run runs start count (run.count - start) acc w.0 (ground (arith, taken))
                taken (ground arith) (omega arith)
              ∙ rw (left (omega arith)) (
                  read_runs-contents runs 0 (suc count - (run.count - start)) (acc ++ piece) w.1
                  ∙ ap got (
                      append_assoc acc piece
                        (take (suc count - (run.count - start)) (contents content runs)))
                  ∙ ap (λ t. got (acc ++ t))
                      (sym (
                        ap (λ t. take (suc count) t)
                          (slice_taken run runs start (ground (arith, taken)))
                        ∙ take-append_past (suc count) piece (contents content runs)
                            (omega (arith, piece_length))
                        ∙ ap (λ (k : ℕ). piece ++ take (suc count - k) (contents content runs))
                            piece_length)))
        ]
      ]
    where
      nonzero : (suc count == 0) ≡ false
      nonzero = ground arith

      left : run.count - start < suc count → (suc count - (run.count - start) == 0) ≡ false
      left h = ground arith

      piece : List Sector
      piece = sectors_from content (run.sector + start) (run.count - start)

      piece_length : length piece ≡ run.count - start
      piece_length = length-sectors_from content (run.sector + start) (run.count - start)

      measured : length (sectors_from content run.sector run.count) ≡ run.count
      measured = length-sectors_from content run.sector run.count

  -- From an inode whose data stands in runs that lie within the device, and on a device that gives
  -- what it holds, mfs_read_inode_data_part reads the sectors wanted of the runs laid end to end:
  -- `start` of them are passed over, and then as many as there are up to `count` are returned in
  -- order, over the ends of any number of runs.
  pub read_data_part-contents :
      (mfs_lsb arch_lsb is_64 : Bool) (inode : Sector) (start count : ℕ)
      → in_inode mfs_lsb arch_lsb is_64 inode ≡ false
      → Within size
          (runs_from mfs_lsb arch_lsb is_64 inode (field mfs_lsb arch_lsb numblocks_word inode) 0)
      → read_data_part drive mfs_lsb arch_lsb is_64 s inode start count
        ≡ got (
            take count (
              drop start (
                contents content (
                  runs_from mfs_lsb arch_lsb is_64 inode
                    (field mfs_lsb arch_lsb numblocks_word inode)
                    0))))
  unfolding read_data_part
  read_data_part-contents mfs_lsb arch_lsb is_64 inode start zero in_runs w = refl
  read_data_part-contents mfs_lsb arch_lsb is_64 inode start (suc count) in_runs w =
      rw (nonzero) (rw (in_runs) (read_runs-contents _ start (suc count) [] w))
    where
      nonzero : (suc count == 0) ≡ false
      nonzero = ground arith
