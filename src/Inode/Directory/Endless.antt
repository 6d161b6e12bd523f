-- ===== src/Inode/Directory/Endless.antt =====
-- A damaged entry that the loops of mfs_dir do not get past.
use mfstools.Base.{
  ℕ, zero, suc, ◌*◌, ◌<◌, ◌≡◌, refl, ap, ap₂, ◌∙◌, Bool, true, Option, none, some, List, arith, ltb,
  get_or, drop,
}
use mfstools.Inode.Directory.{entry_words, count_entries}

module _ (mfs_lsb arch_lsb : Bool) where
  -- An entry whose length byte is below 4, met before the end, keeps the first loop of mfs_dir from
  -- ever ending: no fuel is enough.
  pub count_entries_endless :
      (fuel : ℕ) (at : List ℕ) (p limit : ℕ)
      → p < limit
      → get_or at 4 0 < 4
      → count_entries mfs_lsb arch_lsb fuel at p limit ≡ none
  unfolding count_entries
  count_entries_endless zero at p limit h stuck = refl
  count_entries_endless (suc fuel) at p limit h stuck = rw (ltb_eq) (
      ap (λ o. elim o as (λ _. Option ℕ) [ none ↦ none | some n ↦ some (suc n) ])
        (ap₂ (λ (t : List ℕ) (q : ℕ). count_entries mfs_lsb arch_lsb fuel t q limit)
            (ap (λ (k : ℕ). drop (4 * k) at) no_words) (omega (arith, no_words))
          ∙ count_entries_endless fuel at p limit h stuck))
    where
      no_words : entry_words at ≡ 0
      no_words = omega arith

      ltb_eq : ltb p limit ≡ true
      ltb_eq = ground arith
