-- ===== src/Inode/Chain/Finding.antt =====
-- What mfs_find_inode_for_fsid returns: the fsid's own inode, or a free one with its number set.
use mfstools.Base.{
  ℕ, zero, suc, ◌^◌, ◌≤◌, ◌<◌, ◌≡◌, ◌≢◌, ◌⊎◌, inl, inr, refl, Bool, true, false, not, Option, none,
  some, arith, ◌==◌, if◌then◌else◌,
}
use mfstools.Inode.{Sector, field, with_field, is_used, fsid_word, inode_word}
use mfstools.Inode.Chain.{
  Search, ran_out, absent, found, Scan, no_fuel, unreadable, stopped, step, home, first_free,
  ends_chain, scan, mark_chained, extend, find_after, find_for_fsid,
}
use mfstools.Inode.Chain.Walk.{Leads, Says, Says-limit, scan-Says}
use mfstools.Inode.Chain.Around.{home-lt, to_go, step_lem}

module _ (mfs_lsb arch_lsb : Bool) where
  -- An inode that was read and is not used.
  pub record IsFree (read : ℕ → Option Sector) (count : ℕ) (cur : Sector) : Type 0 where
    pub place : ℕ
    pub exists : place < count
    pub is_read : read place ≡ some cur
    pub unused : is_used arch_lsb cur ≡ false

  -- What `first` points to is free.
  abbrev Free : (ℕ → Option Sector) → ℕ → Option Sector → Type 0
  Free read count none = Unit
  Free read count (some first) = IsFree read count first

  Free-first_free :
      (read : ℕ → Option Sector) (count inode : ℕ) (first : Option Sector) (cur : Sector)
      → inode < count
      → read inode ≡ some cur
      → Free read count first
      → Free read count (first_free mfs_lsb arch_lsb first cur)
  Free-first_free read count inode (some first) cur hi r h = h
  Free-first_free read count inode none cur hi r h = go (is_used arch_lsb cur) refl
    where
      go :
          (used : Bool)
          → is_used arch_lsb cur ≡ used
          → Free read count (if used then none else some cur)
      go true e = tt
      go false e = record { place = inode; exists = hi; is_read = r; unused = e }

  -- The scan stops on an inode that there is, and what it noted is free.
  unfoldable EndsFree : (ℕ → Option Sector) → ℕ → Scan → Type 0
  EndsFree read count no_fuel = Unit
  EndsFree read count unreadable = Unit
  EndsFree read count (stopped j cur first) = (j < count) × Free read count first

  scan-EndsFree :
      (read : ℕ → Option Sector) (count fsid fuel base inode : ℕ) (first : Option Sector)
      → count < 2 ^ 32
      → base < count
      → inode < count
      → Free read count first
      → EndsFree read count (scan mfs_lsb arch_lsb read count fsid fuel base inode first)
  unfolding scan EndsFree
  scan-EndsFree read count fsid zero base inode first w hb hi h = tt
  scan-EndsFree read count fsid (suc fuel) base inode first w hb hi h =
      go (read inode) refl (λ first' h'.
        scan-EndsFree read count fsid fuel base (step count inode) first' w hb
          (step_lem count base inode w hb hi).0 h')
    where
      go :
          (got : Option Sector)
          → read inode ≡ got
          → ((first' : Option Sector)
              → Free read count first'
              → EndsFree read count
                  (scan mfs_lsb arch_lsb read count fsid fuel base (step count inode) first'))
          → EndsFree read count (elim got [
            | none ↦ unreadable
            | some cur ↦
                let rest =
                  scan mfs_lsb arch_lsb read count fsid fuel base
                    (step count inode)
                    (first_free mfs_lsb arch_lsb first cur) in
                if ends_chain mfs_lsb arch_lsb fsid cur
                then stopped inode cur (first_free mfs_lsb arch_lsb first cur)
                else if step count inode == base
                then stopped base cur (first_free mfs_lsb arch_lsb first cur)
                else rest
          ])
      go none r later = tt
      go (some cur) r later =
          choose (ends_chain mfs_lsb arch_lsb fsid cur) (step count inode == base)
        where
          free : Free read count (first_free mfs_lsb arch_lsb first cur)
          free = Free-first_free read count inode first cur hi r h

          choose :
              (ends comes_round : Bool)
              → EndsFree read count (
                  if ends
                  then stopped inode cur (first_free mfs_lsb arch_lsb first cur)
                  else if comes_round
                  then stopped base cur (first_free mfs_lsb arch_lsb first cur)
                  else scan mfs_lsb arch_lsb read count fsid fuel base
                      (step count inode)
                      (first_free mfs_lsb arch_lsb first cur))
          choose true comes_round = (hi, free)
          choose false true = (hb, free)
          choose false false = later (first_free mfs_lsb arch_lsb first cur) free

  module _ {S : Type 0} (read : S → ℕ → Option Sector) (write : S → Sector → Bool × S)
      (count fsid : ℕ) where
    -- A free inode that the drive held, during the search, with the number of one that there is.
    pub record Numbered (cur : Sector) : Type 0 where
      pub drive : S
      pub free : Sector
      pub is_free : IsFree (read drive) count free
      pub number : ℕ
      pub exists : number < count
      pub is : cur ≡ with_field mfs_lsb arch_lsb inode_word number free

    -- The inode that the links from the fsid's home lead to.
    abbrev pub Own : S → Sector → Type 0
    Own s cur = Leads mfs_lsb arch_lsb (read s) count fsid count (home count fsid) cur

    -- What the search for an inode may return.
    unfoldable pub Gives : S → Search → Type 0
    Gives s ran_out = ⊥
    Gives s absent = (own : Sector) → ¬ Own s own
    Gives s (found cur) =
        (Own s cur × ((own : Sector) → Own s own → own ≡ cur))
        ⊎ (Numbered cur × ((own : Sector) → ¬ Own s own))

    extend-Gives :
        (fuel : ℕ) (s0 s : S) (base inode : ℕ) (cur : Sector)
        → count < 2 ^ 32
        → base < count
        → inode < count
        → to_go count base inode ≤ fuel
        → ((own : Sector) → ¬ Own s0 own)
        → Gives s0 (extend mfs_lsb arch_lsb read write count fsid fuel s base inode cur).0
    unfolding extend Gives
    extend-Gives zero s0 s base inode cur w hb hi h no_own = absurd (ground arith)
    extend-Gives (suc fuel) s0 s base inode cur w hb hi h no_own =
        go (mark_chained mfs_lsb arch_lsb read write count fsid s cur).0 (read s' inode) refl
          (λ cur' more.
            extend-Gives fuel s0 s' base (step count inode) cur' w hb
              (step_lem count base inode w hb hi).0
              (nearer (step_lem count base inode w hb hi).1 more) no_own)
      where
        s' : S
        s' = (mark_chained mfs_lsb arch_lsb read write count fsid s cur).1

        nearer :
            ((step count inode ≡ base)
              ⊎ (suc (to_go count base (step count inode)) ≡ to_go count base inode))
            → step count inode ≢ base
            → to_go count base (step count inode) ≤ fuel
        nearer (inl last) more = absurd (more last)
        nearer (inr e) more = omega (arith, e, h)

        rest : Sector → Search × S
        rest cur' =
            extend mfs_lsb arch_lsb read write count fsid fuel s' base (step count inode) cur'

        given : Sector → Search × S
        given cur' = (found (with_field mfs_lsb arch_lsb inode_word inode cur'), s')

        at :
            (cur' : Sector)
            → read s' inode ≡ some cur'
            → (used : Bool) → is_used arch_lsb cur' ≡ used
            → (comes_round : Bool) → (step count inode == base) ≡ comes_round
            → (step count inode ≢ base → Gives s0 (rest cur').0)
            → Gives s0
                (if not used then given cur' else if comes_round then (absent, s') else rest cur').0
        at cur' r false e comes_round e' later = inr (
          record {
            drive = s';
            free = cur';
            is_free = record { place = inode; exists = hi; is_read = r; unused = e };
            number = inode;
            exists = hi;
            is = refl;
          },
          no_own,
        )
        at cur' r true e true e' later = no_own
        at cur' r true e false e' later = later (ground (arith, e'))

        go :
            (marked : Bool) (got : Option Sector)
            → read s' inode ≡ got
            → ((cur' : Sector) → step count inode ≢ base → Gives s0 (rest cur').0)
            → Gives s0
                (if marked
                  then elim got as (λ g. Search × S) [
                    | none ↦ (absent, s')
                    | some cur' ↦
                        if not (is_used arch_lsb cur')
                        then given cur'
                        else if step count inode == base
                        then (absent, s')
                        else rest cur'
                  ]
                  else (absent, s')).0
        go false got r later = no_own
        go true none r later = no_own
        go true (some cur') r later =
            at cur' r (is_used arch_lsb cur') refl (step count inode == base) refl (later cur')

    -- mfs_find_inode_for_fsid always returns, with as many rounds of each loop as there are inodes.
    -- When links from the fsid's home lead to an inode of the fsid, it returns that one, and there is no
    -- other. Otherwise it returns a null pointer, or an inode that was read and is not used, with a
    -- number set that an inode has.
    pub find_for_fsid-Gives :
        (s : S)
        → 0 < count
        → count < 2 ^ 32
        → Gives s (find_for_fsid mfs_lsb arch_lsb read write count fsid s).0
    unfolding find_for_fsid find_after Gives Says EndsFree
    find_for_fsid-Gives s pos w =
        go (scan mfs_lsb arch_lsb (read s) count fsid count base base none)
          (Says-limit mfs_lsb arch_lsb (read s) count fsid base _ all (
            scan-Says mfs_lsb arch_lsb (read s) count fsid count base base none w base_lt base_lt
              (omega (arith, all))))
          (scan-EndsFree (read s) count fsid count base base none w base_lt base_lt tt)
      where
        base : ℕ
        base = home count fsid

        base_lt : base < count
        base_lt = home-lt count fsid pos w

        all : to_go count base base ≡ count
        all = ground arith

        same :
            (cur : Sector)
            → field mfs_lsb arch_lsb fsid_word cur ≡ fsid
            → (field mfs_lsb arch_lsb fsid_word cur == fsid) ≡ true
        same cur e = ground (arith, e)

        other :
            (cur : Sector)
            → field mfs_lsb arch_lsb fsid_word cur ≢ fsid
            → (field mfs_lsb arch_lsb fsid_word cur == fsid) ≡ false
        other cur ne = ground (arith, ne)

        far : (j : ℕ) → j < count → to_go count base j ≤ count
        far j h = ground (arith, base_lt)

        go :
            (result : Scan)
            → Says mfs_lsb arch_lsb (read s) count fsid count base result
            → EndsFree (read s) count result
            → Gives s (find_after mfs_lsb arch_lsb read write count fsid s result).0
        go no_fuel says free = says
        go unreadable says free = says
        go (stopped j cur none) (inl at) free = rw (same cur at.0) (inl (at.1, at.2))
        go (stopped j cur (some first)) (inl at) free = rw (same cur at.0) (inl (at.1, at.2))
        go (stopped j cur none) (inr at) free =
            rw (other cur at.0)
              (extend-Gives count s s base j cur w base_lt free.0 (far j free.0) at.1)
        go (stopped j cur (some first)) (inr at) free = rw (other cur at.0) (
            inr (
              record {
                drive = s;
                free = first;
                is_free = free.1;
                number = j;
                exists = free.0;
                is = refl;
              },
              at.1,
            ))
