-- ===== src/Inode/Chain.antt =====
-- The chain of inodes that an fsid hashes to: mfs_read_inode_by_fsid and mfs_find_inode_for_fsid. The
-- loops run on fuel, one for each inode that there is.
pub mod Around
pub mod Walk
pub mod Finding
pub mod Renumbering
pub mod Reading
use mfstools.Base.{
  ℕ, zero, suc, ◌+◌, ◌-◌, ◌*◌, ◌%◌, ◌^◌, Bool, true, false, not, ◌||◌, ◌&&◌, Option, none, some,
  bit_and, ◌==◌, if◌then◌else◌, u32, sub32,
}
use mfstools.Crc.{word_at}
use mfstools.Zonemap.Inodes.{InodeZones, inode_count}
use mfstools.Inode.{
  Sector, Drive, field, with_field, has_flag, with_flag, is_used, fsid_word, refcount_word,
  inode_word, inode_chained, fsid_hash,
}
use mfstools.Inode.Sectors.{read_inode, write_inode}

-- What a search for an inode returns: a null pointer or the inode.
pub data Search : Type 0 where
  ran_out absent : Search
  found : Sector → Search

-- How the loop over the chain ends: on an inode that cannot be read, or with the number and the
-- buffer that the variables `inode` and `cur` hold, and the first inode that was free.
pub data Scan : Type 0 where
  no_fuel unreadable : Scan
  stopped : ℕ → Sector → Option Sector → Scan

-- `(inode + 1) % mfs_inode_count`
abbrev pub step : ℕ → ℕ → ℕ
step count inode = u32 (inode + 1) % count

-- `(fsid * MFS_FSID_HASH) & (mfs_inode_count - 1)`
unfoldable pub home : ℕ → ℕ → ℕ
home count fsid = bit_and (u32 (fsid * fsid_hash)) (sub32 count 1)

module _ (mfs_lsb arch_lsb : Bool) where
  -- What `first` holds once `cur` has been read.
  abbrev pub first_free : Option Sector → Sector → Option Sector
  first_free (some first) cur = some first
  first_free none cur = if is_used arch_lsb cur then none else some cur

  -- The test of both loops on an inode: the one that is looked for, or the last of its chain.
  abbrev pub ends_chain : ℕ → Sector → Bool
  ends_chain fsid cur =
      field mfs_lsb arch_lsb fsid_word cur == fsid
      || not (has_flag mfs_lsb arch_lsb inode_chained cur)

  module _ (read : ℕ → Option Sector) (count fsid : ℕ) where
    -- The first loop of both functions; mfs_read_inode_by_fsid makes no use of `first`.
    unfoldable pub scan : ℕ → ℕ → ℕ → Option Sector → Scan
    scan zero base inode first = no_fuel
    scan (suc fuel) base inode first = elim (read inode) [
      | none ↦ unreadable
      | some cur ↦
          let rest = scan fuel base (step count inode) (first_free first cur) in
          if ends_chain fsid cur
          then stopped inode cur (first_free first cur)
          else if step count inode == base
          then stopped base cur (first_free first cur)
          else rest
    ]

    -- mfs_read_inode_by_fsid
    unfoldable pub read_by_fsid : Search
    unfolding scan
    read_by_fsid = elim (scan count (home count fsid) (home count fsid) none) [
      | no_fuel ↦ ran_out
      | unreadable ↦ absent
      | stopped inode cur first ↦
          if field mfs_lsb arch_lsb fsid_word cur == fsid
            && not (word_at arch_lsb cur refcount_word == 0)
          then found cur
          else absent
    ]

  module _ {S : Type 0} (read : S → ℕ → Option Sector) (write : S → Sector → Bool × S)
      (count fsid : ℕ) where
    -- The inode is marked as followed by another, unless it is already.
    unfoldable pub mark_chained : S → Sector → Bool × S
    mark_chained s cur =
        if has_flag mfs_lsb arch_lsb inode_chained cur
        then (true, s)
        else write s (with_flag mfs_lsb arch_lsb inode_chained cur)

    -- The second loop of mfs_find_inode_for_fsid, and what follows it: the chain is made longer up
    -- to a free inode.
    unfoldable pub extend : ℕ → S → ℕ → ℕ → Sector → Search × S
    unfolding mark_chained
    extend zero s base inode cur = (ran_out, s)
    extend (suc fuel) s base inode cur =
        let (marked, s') = mark_chained s cur in
        let after : Search × S = elim (read s' inode) [
          | none ↦ (absent, s')
          | some cur' ↦
              let rest = extend fuel s' base (step count inode) cur' in
              if not (is_used arch_lsb cur')
              then (found (with_field mfs_lsb arch_lsb inode_word inode cur'), s')
              else if step count inode == base
              then (absent, s')
              else rest
        ] in
        if marked then after else (absent, s')

    -- mfs_find_inode_for_fsid behind its first loop
    unfoldable pub find_after : S → Scan → Search × S
    unfolding extend
    find_after s no_fuel = (ran_out, s)
    find_after s unreadable = (absent, s)
    find_after s (stopped inode cur none) =
        let longer = extend count s (home count fsid) inode cur in
        if field mfs_lsb arch_lsb fsid_word cur == fsid then (found cur, s) else longer
    find_after s (stopped inode cur (some first)) =
        if field mfs_lsb arch_lsb fsid_word cur == fsid
        then (found cur, s)
        else (found (with_field mfs_lsb arch_lsb inode_word inode first), s)

    -- mfs_find_inode_for_fsid
    unfoldable pub find_for_fsid : S → Search × S
    unfolding find_after scan
    find_for_fsid s =
        find_after s (scan (read s) count fsid count (home count fsid) (home count fsid) none)

module _ {S : Type 0} (drive : Drive S) (mfs_lsb arch_lsb : Bool) (zones : InodeZones) (s : S)
    (fsid : ℕ) where
  unfoldable pub mfs_read_inode_by_fsid : Search
  unfolding read_by_fsid
  mfs_read_inode_by_fsid =
      read_by_fsid mfs_lsb arch_lsb (read_inode drive mfs_lsb arch_lsb zones s) (inode_count zones)
        fsid

  unfoldable pub mfs_find_inode_for_fsid : Search × S
  unfolding find_for_fsid
  mfs_find_inode_for_fsid =
      find_for_fsid mfs_lsb arch_lsb (read_inode drive mfs_lsb arch_lsb zones)
        (write_inode drive mfs_lsb arch_lsb zones) (inode_count zones) fsid s
