-- ===== src/Inode/Runs/Writing.antt =====
-- What mfs_write_inode_data_part writes is the slice of the runs that a read then gives.
use mfstools.Base.{
  ℕ, suc, ◌+◌, ◌-◌, ◌^◌, ◌≤◌, ◌<◌, ◌≡◌, ◌⊎◌, inl, inr, refl, sym, ap, ap₂, ◌∙◌, true, false, Option,
  some, List, [], ◌∷◌, ◌++◌, arith, ◌==◌, if◌then◌else◌, take, drop, length, length-take,
  length-drop, add64, Bool-cases,
}
use native.Mathlib.Decide.{dec_le}
use mfstools.Spans.{
  drop-sectors_from, length-sectors_from, sectors_from, sectors_from_same, take-sectors_from,
}
use mfstools.Inode.{Sector, Drive}
use mfstools.Inode.Runs.{Run, is_skipped, wanted, write_runs}
use mfstools.Inode.Runs.Slices.{
  drop-append_past, drop-append_within, take-append_past, take-append_within, take_all, take-drop,
}
use mfstools.Inode.Runs.Reading.{contents, Within}
use mfstools.Inode.Runs.Stored.{
  Stores, Clear, Separate, Outside, total_count, Outside-Clear, written, untouched,
}

module _ {S : Type 0} (drive : Drive S) (size : ℕ) (content : S → ℕ → Sector)
    (small : size < 2 ^ 64) (stores : Stores drive size content) where
  -- The whole write is made: the count of sectors, the slice that was written, and all that is
  -- outside the runs.
  pub record Done (s : S) (runs : List Run) (start : ℕ) (new : List Sector) (total : ℕ)
      (result : Option ℕ) (s' : S) : Type 0 where
    pub counted : result ≡ some (total + length new)
    pub slice : take (length new) (drop start (contents (content s') runs)) ≡ new
    pub others : (k : ℕ) → Outside k runs → content s' k ≡ content s k

  write_taken :
      (s : S) (run : Run) (runs : List Run) (start : ℕ) (first : Sector) (more : List Sector)
      (total n : ℕ)
      → run.sector + run.count ≤ size
      → start ≤ run.count
      → is_skipped run start ≡ false
      → wanted run start (suc (length more)) ≡ n
      → n ≤ run.count - start
      → n ≤ suc (length more)
      → write_runs drive s (run ∷ runs) start (first ∷ more) total ≡ (
          if suc (length more) - n == 0
          then (some (total + n), (drive.write s (run.sector + start) (take n (first ∷ more))).1)
          else write_runs drive
              (drive.write s (run.sector + start) (take n (first ∷ more))).1
              runs
              0
              (drop n (first ∷ more))
              (total + n))
  unfolding write_runs
  write_taken s run runs start first more total n inside fits taken e short few =
      rw (nonzero) (rw (taken) (rw (stored, write_runs) (rw (all) refl))) ∙ ap₂ after place e
    where
      new : List Sector
      new = first ∷ more

      size' : ℕ
      size' = wanted run start (suc (length more))

      nonzero : (suc (length more) == 0) ≡ false
      nonzero = ground arith

      all : (size' == size') ≡ true
      all = ground arith

      place : add64 run.sector start ≡ run.sector + start
      place = omega (arith, small)

      after : ℕ → ℕ → Option ℕ × S
      after sector k =
          if suc (length more) - k == 0
          then (some (total + k), (drive.write s sector (take k new)).1)
          else write_runs drive (drive.write s sector (take k new)).1 runs 0 (drop k new)
              (total + k)

      taken_length : length (take size' new) ≡ size'
      taken_length = omega (arith, length-take size' new, e)

      stored : (drive.write s (add64 run.sector start) (take size' new)).0 ≡ some size'
      stored =
          stores.writes s (add64 run.sector start) (take size' new)
            (omega (arith, taken_length, e, place))
          ∙ ap some taken_length

  -- A run that takes all that is left.
  Done-enough :
      (s : S) (run : Run) (runs : List Run) (start : ℕ) (new : List Sector) (total : ℕ)
      → run.sector + run.count ≤ size
      → start ≤ run.count
      → length new ≤ run.count - start
      → Done s
          (run ∷ runs)
          start
          new
          total
          (some (total + length new))
          (drive.write s (run.sector + start) new).1
  unfolding contents Outside
  Done-enough s run runs start new total inside fits enough = record {
    counted = refl;
    slice =
        ap (λ t. take (length new) t)
          (drop-append_within start (sectors_from held run.sector run.count) (contents held runs)
              (omega (arith, length-sectors_from held run.sector run.count))
            ∙ ap (λ t. t ++ contents held runs)
                (drop-sectors_from held start run.sector run.count fits))
        ∙ take-append_within (length new) _ (contents held runs)
            (omega (arith, length-sectors_from held (run.sector + start) (run.count - start)))
        ∙ take-sectors_from held (length new) (run.sector + start) (run.count - start) enough
        ∙ written drive size content small stores s (run.sector + start) new (omega arith);
    others = λ k out.
        untouched drive size content small stores s (run.sector + start) new k (omega arith)
          (away k out.0);
  }
    where
      held : ℕ → Sector
      held = content (drive.write s (run.sector + start) new).1

      away :
          (k : ℕ)
          → ((k < run.sector) ⊎ (run.sector + run.count ≤ k))
          → ((k < run.sector + start) ⊎ (run.sector + start + length new ≤ k))
      away k (inl h) = inl (omega arith)
      away k (inr h) = inr (omega arith)

  -- A run that is filled up, with the rest written to the later ones.
  Done-more :
      (s : S) (run : Run) (runs : List Run) (start : ℕ) (new : List Sector) (total : ℕ)
      (result : Option ℕ) (s' : S)
      → run.sector + run.count ≤ size
      → start ≤ run.count
      → run.count - start < length new
      → Clear run runs
      → Done
          (drive.write s (run.sector + start) (take (run.count - start) new)).1
          runs
          0
          (drop (run.count - start) new)
          (total + (run.count - start))
          result
          s'
      → Done s (run ∷ runs) start new total result s'
  unfolding contents Outside
  Done-more s run runs start new total result s' inside fits more clear rest = record {
    counted = rest.counted ∙ ap some (omega (arith, length-drop n new));
    slice =
        ap (λ t. take (length new) t)
          (drop-append_within start (sectors_from held run.sector run.count) (contents held runs)
              (omega (arith, length-sectors_from held run.sector run.count))
            ∙ ap (λ t. t ++ contents held runs)
                (drop-sectors_from held start run.sector run.count fits))
        ∙ take-append_past (length new) (sectors_from held (run.sector + start) n)
            (contents held runs) (omega (arith, length-sectors_from held (run.sector + start) n))
        ∙ ap₂ ◌++◌ kept (
            ap (λ (k : ℕ). take k (contents held runs))
              (omega (arith, length-sectors_from held (run.sector + start) n, length-drop n new))
            ∙ rest.slice)
        ∙ take-drop n new;
    others = λ k out.
        rest.others k out.1
        ∙ untouched drive size content small stores s (run.sector + start) (take n new) k
            (omega (arith, piece)) (away k out.0);
  }
    where
      n : ℕ
      n = run.count - start

      held : ℕ → Sector
      held = content s'

      piece : length (take n new) ≡ n
      piece = omega (arith, length-take n new)

      kept : sectors_from held (run.sector + start) n ≡ take n new
      kept =
          sectors_from_same held (content (drive.write s (run.sector + start) (take n new)).1)
            (run.sector + start) n
            (λ k l u. rest.others k (Outside-Clear run runs k clear (omega arith) (omega arith)))
          ∙ ap
              (λ (k : ℕ).
                sectors_from (content (drive.write s (run.sector + start) (take n new)).1)
                  (run.sector + start) k)
              (sym piece)
          ∙ written drive size content small stores s (run.sector + start) (take n new)
              (omega (arith, piece))

      away :
          (k : ℕ)
          → ((k < run.sector) ⊎ (run.sector + run.count ≤ k))
          → ((k < run.sector + start) ⊎ (run.sector + start + length (take n new) ≤ k))
      away k (inl h) = inl (omega arith)
      away k (inr h) = inr (omega (arith, piece))

  -- A run that is passed by.
  Done-later :
      {s : S} (run : Run) {runs : List Run} {start : ℕ} {new : List Sector} {total : ℕ}
      {result : Option ℕ} {s' : S}
      → run.count ≤ start
      → Done s runs (start - run.count) new total result s'
      → Done s (run ∷ runs) start new total result s'
  unfolding contents Outside
  Done-later {s} run {runs} {start} {new} {total} {result} {s'} past rest = record {
    counted = rest.counted;
    slice =
        ap (λ t. take (length new) t)
          (drop-append_past start (sectors_from (content s') run.sector run.count)
              (contents (content s') runs) (omega (arith, measured))
            ∙ ap (λ (k : ℕ). drop (start - k) (contents (content s') runs)) measured)
        ∙ rest.slice;
    others = λ k out. rest.others k out.1;
  }
    where
      measured : length (sectors_from (content s') run.sector run.count) ≡ run.count
      measured = length-sectors_from (content s') run.sector run.count

  pub write_runs-Done :
      (s : S) (runs : List Run) (start : ℕ) (new : List Sector) (total : ℕ)
      → Within size runs
      → Separate runs
      → start + length new ≤ total_count runs
      → Done s runs start new total
          (write_runs drive s runs start new total).0
          (write_runs drive s runs start new total).1
  unfolding Within Separate total_count write_runs
  write_runs-Done s [] start [] total w sep fits = record {
    counted = ap some (omega arith);
    slice = refl;
    others = λ k out. refl;
  }
  write_runs-Done s [] start (first ∷ more) total w sep fits = absurd (omega arith)
  write_runs-Done s (run ∷ runs) start [] total w sep fits = record {
    counted = ap some (omega arith);
    slice = refl;
    others = λ k out. refl;
  }
  write_runs-Done s (run ∷ runs) start (first ∷ more) total w sep fits =
      elim (Bool-cases (is_skipped run start)) [
        | inl skip ↦ rw (nonzero) (
            rw (skip) (
              Done-later run (ground (arith, skip)) (
                write_runs-Done s runs (start - run.count) (first ∷ more) total w.1 sep.1
                  (ground (arith, fits, skip)))))
        | inr taken ↦ elim (dec_le (suc (length more)) (run.count - start)) [
          | yes enough ↦
              let e : write_runs drive s (run ∷ runs) start (first ∷ more) total ≡ (
                some (total + length (first ∷ more)),
                (drive.write s (run.sector + start) (first ∷ more)).1,
              ) =
                write_taken s run runs start first more total (suc (length more)) w.0
                  (ground (arith, taken)) taken (ground (arith, enough)) enough (omega arith)
                ∙ ground arith
                ∙ ap
                    (λ t. (
                      some (total + length (first ∷ more)),
                      (drive.write s (run.sector + start) t).1,
                    ))
                    (take_all (suc (length more)) (first ∷ more) (omega arith)) in
              rw (e) (
                Done-enough s run runs start (first ∷ more) total w.0 (ground (arith, taken))
                  enough)
          | no more' ↦
              let e : write_runs drive s (run ∷ runs) start (first ∷ more) total
                  ≡ write_runs drive
                      (drive.write s (run.sector + start)
                        (take (run.count - start) (first ∷ more))).1
                      runs 0 (drop (run.count - start) (first ∷ more))
                      (total + (run.count - start)) =
                write_taken s run runs start first more total (run.count - start) w.0
                  (ground (arith, taken)) taken (ground arith) (omega arith) (omega arith)
                ∙ ground arith in
              rw (e) (
                Done-more s run runs start (first ∷ more) total _ _ w.0 (ground (arith, taken))
                  (omega arith) sep.0
                  (write_runs-Done
                    (drive.write s (run.sector + start) (take (run.count - start) (first ∷ more))).1
                    runs 0 (drop (run.count - start) (first ∷ more)) (total + (run.count - start))
                    w.1 sep.1
                    (omega (arith, fits, length-drop (run.count - start) (first ∷ more)))))
        ]
      ]
    where
      nonzero : (suc (length more) == 0) ≡ false
      nonzero = ground arith
