-- ===== src/Inode/Chain/Renumbering.antt =====
-- A free inode at the home of an fsid that mfs_find_inode_for_fsid gives the number of another.
use mfstools.Base.{
  ℕ, zero, suc, ◌<◌, ◌≡◌, ◌≢◌, ap, Bool, true, false, Option, none, some, arith, ◌==◌,
}
use mfstools.Inode.{
  Sector, field, with_field, has_flag, is_used, fsid_word, inode_word, inode_chained,
}
use mfstools.Inode.Chain.{
  found, stopped, step, home, first_free, ends_chain, scan, find_after, find_for_fsid,
}

module _ (mfs_lsb arch_lsb : Bool) {S : Type 0} (read : S → ℕ → Option Sector)
    (write : S → Sector → Bool × S) (count fsid : ℕ) where
  scan_two :
      (reads : ℕ → Option Sector) (fuel : ℕ) (free last : Sector)
      → 1 < fuel
      → step count (home count fsid) ≢ home count fsid
      → reads (home count fsid) ≡ some free
      → is_used arch_lsb free ≡ false
      → ends_chain mfs_lsb arch_lsb fsid free ≡ false
      → reads (step count (home count fsid)) ≡ some last
      → ends_chain mfs_lsb arch_lsb fsid last ≡ true
      → scan mfs_lsb arch_lsb reads count fsid fuel (home count fsid) (home count fsid) none
        ≡ stopped (step count (home count fsid)) last (some free)
  unfolding scan
  scan_two reads zero free last many moves e unused goes e' ends = absurd (omega arith)
  scan_two reads (suc zero) free last many moves e unused goes e' ends = absurd (omega arith)
  scan_two reads (suc (suc fuel)) free last many moves e unused goes e' ends =
      rw (e, scan)
        (rw (goes) (
          rw (not_round) (
            rw (e', scan)
              (rw (ends) (
                ap
                  (λ f.
                    stopped (step count (home count fsid)) last
                      (first_free mfs_lsb arch_lsb f last))
                  noted)))))
    where
      noted : first_free mfs_lsb arch_lsb none free ≡ some free
      noted = ground (arith, unused)

      not_round : (step count (home count fsid) == home count fsid) ≡ false
      not_round = ground (arith, moves)

  -- When the fsid's home is a free inode that others follow, and the next one ends the chain with
  -- another fsid, mfs_find_inode_for_fsid returns the free inode with the number of the next: what is
  -- then written goes over the other fsid's inode.
  pub find_for_fsid_renumbers :
      (s : S) (free last : Sector)
      → 1 < count
      → step count (home count fsid) ≢ home count fsid
      → read s (home count fsid) ≡ some free
      → is_used arch_lsb free ≡ false
      → ends_chain mfs_lsb arch_lsb fsid free ≡ false
      → read s (step count (home count fsid)) ≡ some last
      → field mfs_lsb arch_lsb fsid_word last ≢ fsid
      → has_flag mfs_lsb arch_lsb inode_chained last ≡ false
      → find_for_fsid mfs_lsb arch_lsb read write count fsid s
        ≡ (found (with_field mfs_lsb arch_lsb inode_word (step count (home count fsid)) free), s)
  unfolding find_for_fsid find_after
  find_for_fsid_renumbers s free last many moves e unused goes e' differs ends =
      rw (scan_two (read s) count free last many moves e unused goes e' last_ends)
        (ground (arith, differs))
    where
      last_ends : ends_chain mfs_lsb arch_lsb fsid last ≡ true
      last_ends = ground (arith, ends)
