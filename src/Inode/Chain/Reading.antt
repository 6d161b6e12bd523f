-- ===== src/Inode/Chain/Reading.antt =====
-- mfs_read_inode_by_fsid finds the inode in use that the links from the fsid's home lead to.
use mfstools.Base.{
  ℕ, ◌^◌, ◌<◌, ◌≡◌, ◌≢◌, inl, inr, ap, ◌∙◌, Bool, not, ◌&&◌, Option, none, arith, ◌==◌,
  if◌then◌else◌,
}
use mfstools.Crc.{word_at}
use mfstools.Inode.{Sector, field, fsid_word, refcount_word}
use mfstools.Inode.Chain.{
  Search, ran_out, absent, found, Scan, no_fuel, unreadable, stopped, home, scan, read_by_fsid,
}
use mfstools.Inode.Chain.Walk.{Leads, Says, Says-limit, scan-Says}
use mfstools.Inode.Chain.Around.{home-lt, to_go}
use native.Mathlib.Decide.{ℕ_discrete}

module _ (mfs_lsb arch_lsb : Bool) (read : ℕ → Option Sector) (count fsid : ℕ) where
  -- The inode of the fsid, with a count of references that is not zero, behind fewer links than
  -- there are inodes.
  pub record IsInode (cur : Sector) : Type 0 where
    pub leads : Leads mfs_lsb arch_lsb read count fsid count (home count fsid) cur
    pub in_use : word_at arch_lsb cur refcount_word ≢ 0

  -- What a search has to return.
  unfoldable pub Finds : Search → Type 0
  Finds ran_out = ⊥
  Finds absent = (cur : Sector) → ¬ IsInode cur
  Finds (found cur) = IsInode cur × ((other : Sector) → IsInode other → other ≡ cur)

  -- mfs_read_inode_by_fsid always returns, within as many rounds as there are inodes. What it
  -- returns is the one inode of the fsid that is in use and that links lead to from the fsid's
  -- home; it returns a null pointer only if there is none.
  pub read_by_fsid-Finds :
      0 < count → count < 2 ^ 32 → Finds (read_by_fsid mfs_lsb arch_lsb read count fsid)
  unfolding read_by_fsid Finds Says
  read_by_fsid-Finds pos w = go (scan mfs_lsb arch_lsb read count fsid count base base none) (
      Says-limit mfs_lsb arch_lsb read count fsid base _ all (
        scan-Says mfs_lsb arch_lsb read count fsid count base base none w (home-lt count fsid pos w)
          (home-lt count fsid pos w) (omega (arith, all))))
    where
      base : ℕ
      base = home count fsid

      all : to_go count base base ≡ count
      all = ground arith

      choice : Sector → Search
      choice cur =
          if field mfs_lsb arch_lsb fsid_word cur == fsid
            && not (word_at arch_lsb cur refcount_word == 0)
          then found cur
          else absent

      chosen :
          (cur : Sector)
          → field mfs_lsb arch_lsb fsid_word cur ≡ fsid
          → word_at arch_lsb cur refcount_word ≢ 0
          → choice cur ≡ found cur
      chosen cur e ne = ground (arith, e, ne)

      chosen_not : (cur : Sector) → word_at arch_lsb cur refcount_word ≡ 0 → choice cur ≡ absent
      chosen_not cur e = ground (arith, e)

      other_fsid :
          (cur : Sector) → field mfs_lsb arch_lsb fsid_word cur ≢ fsid → choice cur ≡ absent
      other_fsid cur ne = ground (arith, ne)

      go :
          (result : Scan)
          → Says mfs_lsb arch_lsb read count fsid count base result
          → Finds (elim result [
            | no_fuel ↦ ran_out
            | unreadable ↦ absent
            | stopped inode cur first ↦ choice cur
          ])
      go no_fuel says = says
      go unreadable says = λ cur is. says cur is.leads
      go (stopped j cur first) (inl at) = elim (ℕ_discrete (word_at arch_lsb cur refcount_word) 0) [
        | yes e ↦ rw (chosen_not cur e) (λ other is.
            is.in_use (ap (λ b. word_at arch_lsb b refcount_word) (at.2 other is.leads) ∙ e))
        | no ne ↦
            rw (chosen cur at.0 ne)
              (record { leads = at.1; in_use = ne }, λ other is. at.2 other is.leads)
      ]
      go (stopped j cur first) (inr at) = rw (other_fsid cur at.0) (λ other is. at.1 other is.leads)
