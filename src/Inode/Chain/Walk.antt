-- ===== src/Inode/Chain/Walk.antt =====
-- What the loop over the chain of an fsid finds, as the inodes that links lead to.
use mfstools.Base.{
  ℕ, zero, suc, ◌^◌, ◌≤◌, ◌<◌, ◌≡◌, ◌≢◌, ◌⊎◌, inl, inr, refl, sym, ap, ◌∙◌, Bool, true, false,
  Option, some, arith, Option-cases, Bool-cases,
}
use native.Mathlib.Decide.{ℕ_discrete}
use mfstools.Inode.{Sector, field, fsid_word}
use mfstools.Inode.Chain.{Scan, no_fuel, unreadable, stopped, step, first_free, ends_chain, scan}
use mfstools.Inode.Chain.Around.{to_go, step_lem, to_go_last}

module _ (mfs_lsb arch_lsb : Bool) (read : ℕ → Option Sector) (count fsid : ℕ) where
  -- An inode that the search goes on from: another fsid's, with the flag that more follow.
  pub record Linked (inode : ℕ) : Type 0 where
    pub cur : Sector
    pub is_read : read inode ≡ some cur
    pub goes_on : ends_chain mfs_lsb arch_lsb fsid cur ≡ false

  -- `n` links lead from one inode to another.
  unfoldable pub Chain : ℕ → ℕ → ℕ → Type 0
  Chain zero inode j = inode ≡ j
  Chain (suc n) inode j = Linked inode × Chain n (step count inode) j

  -- The fsid's inode, behind fewer than `limit` links.
  pub record Leads (limit inode : ℕ) (cur : Sector) : Type 0 where
    pub links : ℕ
    pub place : ℕ
    pub few : links < limit
    pub chain : Chain links inode place
    pub is_read : read place ≡ some cur
    pub same_fsid : field mfs_lsb arch_lsb fsid_word cur ≡ fsid

  -- What the loop says of the chain from an inode on.
  unfoldable pub Says : ℕ → ℕ → Scan → Type 0
  Says limit inode no_fuel = ⊥
  Says limit inode unreadable = (cur : Sector) → ¬ Leads limit inode cur
  Says limit inode (stopped j cur first) =
      ((field mfs_lsb arch_lsb fsid_word cur ≡ fsid)
        × Leads limit inode cur
        × ((other : Sector) → Leads limit inode other → other ≡ cur))
      ⊎ ((field mfs_lsb arch_lsb fsid_word cur ≢ fsid)
          × ((other : Sector) → ¬ Leads limit inode other))

  -- The first inode is read: the fsid's inode is that one, or lies behind a link.
  Leads-first :
      (limit inode : ℕ) (cur other : Sector)
      → read inode ≡ some cur
      → Leads limit inode other
      → ((other ≡ cur) × (field mfs_lsb arch_lsb fsid_word cur ≡ fsid))
        ⊎ ((ends_chain mfs_lsb arch_lsb fsid cur ≡ false)
            × ((rest : ℕ) → limit ≡ suc rest → Leads rest (step count inode) other))
  unfolding Chain
  Leads-first limit inode cur other e l = go l.links l.place l.few l.chain l.is_read l.same_fsid
    where
      same : (a b : Sector) → read inode ≡ some a → read inode ≡ some b → a ≡ b
      same a b p q = ground (arith, p, q)

      go :
          (links place : ℕ)
          → links < limit
          → Chain links inode place
          → read place ≡ some other
          → field mfs_lsb arch_lsb fsid_word other ≡ fsid
          → ((other ≡ cur) × (field mfs_lsb arch_lsb fsid_word cur ≡ fsid))
            ⊎ ((ends_chain mfs_lsb arch_lsb fsid cur ≡ false)
                × ((rest : ℕ) → limit ≡ suc rest → Leads rest (step count inode) other))
      go zero place few chain r f =
          let e' : other ≡ cur = same other cur (ap read chain ∙ r) e in
          inl (e', sym (ap (λ b. field mfs_lsb arch_lsb fsid_word b) e') ∙ f)
      go (suc links) place few chain r f = inr (
        ap (λ b. ends_chain mfs_lsb arch_lsb fsid b) (same cur chain.0.cur e chain.0.is_read)
            ∙ chain.0.goes_on,
        λ rest eq. record {
          links = links;
          place = place;
          few = omega arith;
          chain = chain.1;
          is_read = r;
          same_fsid = f;
        },
      )

  Leads-read :
      (limit inode : ℕ) (other : Sector)
      → Leads limit inode other
      → (cur : Sector) × (read inode ≡ some cur)
  unfolding Chain
  Leads-read limit inode other l = go l.links l.place l.chain l.is_read
    where
      go :
          (links place : ℕ)
          → Chain links inode place
          → read place ≡ some other
          → (cur : Sector) × (read inode ≡ some cur)
      go zero place chain r = (other, ap read chain ∙ r)
      go (suc links) place chain r = (chain.0.cur, chain.0.is_read)

  -- The loop stops at `cur`: it is the fsid's, or the last of the chain.
  ended-Says :
      (limit inode : ℕ) (cur : Sector) (first : Option Sector)
      → 0 < limit
      → read inode ≡ some cur
      → ends_chain mfs_lsb arch_lsb fsid cur ≡ true
      → Says limit inode (stopped inode cur first)
  unfolding Says Chain
  ended-Says limit inode cur first pos e end =
      elim (ℕ_discrete (field mfs_lsb arch_lsb fsid_word cur) fsid) [
        | yes same ↦ inl (
          same,
          record {
            links = 0;
            place = inode;
            few = pos;
            chain = refl;
            is_read = e;
            same_fsid = same;
          },
          λ other l. elim (Leads-first limit inode cur other e l) [
            | inl at ↦ at.0
            | inr on ↦ cc (end, on.0)
          ],
        )
        | no differs ↦ inr (
          differs,
          λ other l. elim (Leads-first limit inode cur other e l) [
            | inl at ↦ differs at.1
            | inr on ↦ cc (end, on.0)
          ],
        )
      ]

  -- The loop comes round to the inode that it began with.
  round-Says :
      (base inode : ℕ) (cur : Sector) (first : Option Sector)
      → read inode ≡ some cur
      → ends_chain mfs_lsb arch_lsb fsid cur ≡ false
      → Says 1 inode (stopped base cur first)
  unfolding Says
  round-Says base inode cur first e goes = inr (
    differs,
    λ other l. elim (Leads-first 1 inode cur other e l) [
      | inl at ↦ differs at.1
      | inr on ↦ absurd (let r = on.1 0 refl in omega (arith, r.few))
    ],
  )
    where
      differs : field mfs_lsb arch_lsb fsid_word cur ≢ fsid
      differs same = ground (arith, goes, same)

  -- What holds behind a link holds from the inode before it.
  linked-Says :
      (limit inode : ℕ) (cur : Sector) (result : Scan)
      → read inode ≡ some cur
      → ends_chain mfs_lsb arch_lsb fsid cur ≡ false
      → Says limit (step count inode) result
      → Says (suc limit) inode result
  unfolding Says Chain
  linked-Says limit inode cur no_fuel e goes says = says
  linked-Says limit inode cur unreadable e goes says = λ other l.
      elim (Leads-first (suc limit) inode cur other e l) [
        | inl at ↦ ground (arith, goes, at.1)
        | inr on ↦ says other (on.1 limit refl)
      ]
  linked-Says limit inode cur (stopped j cur' first) e goes (inl at) = inl (
    at.0,
    record {
      links = suc at.1.links;
      place = at.1.place;
      few = omega (arith, at.1.few);
      chain = (record { cur = cur; is_read = e; goes_on = goes }, at.1.chain);
      is_read = at.1.is_read;
      same_fsid = at.1.same_fsid;
    },
    λ other l. elim (Leads-first (suc limit) inode cur other e l) [
      | inl here ↦ absurd (ground (arith, goes, here.1))
      | inr on ↦ at.2 other (on.1 limit refl)
    ],
  )
  linked-Says limit inode cur (stopped j cur' first) e goes (inr at) = inr (
    at.0,
    λ other l. elim (Leads-first (suc limit) inode cur other e l) [
      | inl here ↦ ground (arith, goes, here.1)
      | inr on ↦ at.1 other (on.1 limit refl)
    ],
  )

  pub Says-limit :
      {a b : ℕ} (inode : ℕ) (result : Scan) → a ≡ b → Says a inode result → Says b inode result
  Says-limit inode result e says = rw (← e) says

  pub scan-Says :
      (fuel base inode : ℕ) (first : Option Sector)
      → count < 2 ^ 32
      → base < count
      → inode < count
      → to_go count base inode ≤ fuel
      → Says
          (to_go count base inode)
          inode
          (scan mfs_lsb arch_lsb read count fsid fuel base inode first)
  unfolding scan
  scan-Says zero base inode first w hb hi h = absurd (ground arith)
  scan-Says (suc fuel) base inode first w hb hi h = elim (Option-cases (read inode)) [
    | inl e ↦
        rw (e, scan)
          (unfold Says in λ other l. cc (e, (Leads-read (to_go count base inode) inode other l).1))
    | inr (cur, e) ↦ elim (Bool-cases (ends_chain mfs_lsb arch_lsb fsid cur)) [
      | inl end ↦
          rw (e, scan)
            (rw (end) (
              ended-Says (to_go count base inode) inode cur (first_free mfs_lsb arch_lsb first cur)
                (ground arith) e end))
      | inr goes ↦ elim (ℕ_discrete (step count inode) base) [
        | yes last ↦
            let stops : scan mfs_lsb arch_lsb read count fsid (suc fuel) base inode first
                ≡ stopped base cur (first_free mfs_lsb arch_lsb first cur) =
              rw (e, scan) (rw (goes) (ground (arith, last))) in
            rw (stops) (
              Says-limit inode _ (to_go_last count base inode w hb hi last)
                (round-Says base inode cur _ e goes))
        | no more ↦ elim (step_lem count base inode w hb hi).1 [
          | inl last ↦ absurd (more last)
          | inr nearer ↦
              let goes_on : scan mfs_lsb arch_lsb read count fsid (suc fuel) base inode first
                  ≡ scan mfs_lsb arch_lsb read count fsid fuel base (step count inode)
                      (first_free mfs_lsb arch_lsb first cur) =
                rw (e, scan) (rw (goes) (ground (arith, more))) in
              rw (goes_on) (
                Says-limit inode _ nearer (
                  linked-Says (to_go count base (step count inode)) inode cur _ e goes (
                    scan-Says fuel base (step count inode) _ w hb
                      (step_lem count base inode w hb hi).0 (omega (arith, nearer)))))
        ]
      ]
    ]
  ]
