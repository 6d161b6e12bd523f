-- ===== src/Inode/Chain/Around.antt =====
-- How far the next inode lies from one that the search comes round to.
use mfstools.Base.{
  ℕ, suc, ◌+◌, ◌-◌, ◌*◌, ◌^◌, ◌<◌, ◌≡◌, ◌⊎◌, inl, inr, sym, ◌∙◌, arith, ltb, if◌then◌else◌, u32,
  sub32,
}
use native.Mathlib.Decide.{ℕ_discrete}
use native.Mathlib.Nat.{mod-eq_of_lt}
use mfstools.Base.Bits.{bit_and-le_right}
use mfstools.Inode.{fsid_hash}
use mfstools.Inode.Chain.{step, home}

-- How many inodes lie from one on to the next time that `base` comes round.
abbrev pub to_go : ℕ → ℕ → ℕ → ℕ
to_go count base inode = if ltb inode base then base - inode else base + count - inode

pub step_lem :
    (count base inode : ℕ)
    → count < 2 ^ 32
    → base < count
    → inode < count
    → (step count inode < count)
      × ((step count inode ≡ base)
          ⊎ (suc (to_go count base (step count inode)) ≡ to_go count base inode))
step_lem count base inode w hb hi = elim (ℕ_discrete (inode + 1) count) [
  | yes e ↦
      let e' : step count inode ≡ 0 = rw (u32_eq) (rw (e) (grind arith)) in
      rw e' (omega arith, elim (ℕ_discrete 0 base) [ yes b ↦ inl b | no nb ↦ inr (ground arith) ])
  | no ne ↦
      let e' : step count inode ≡ inode + 1 = rw (u32_eq) (mod-eq_of_lt (omega arith)) in
      rw e' (
        omega arith,
        elim (ℕ_discrete (inode + 1) base) [ yes b ↦ inl b | no nb ↦ inr (ground arith) ],
      )
]
  where
    u32_eq : u32 (inode + 1) ≡ inode + 1
    u32_eq = omega arith

pub to_go_last :
    (count base inode : ℕ)
    → count < 2 ^ 32
    → base < count
    → inode < count
    → step count inode ≡ base
    → 1 ≡ to_go count base inode
to_go_last count base inode w hb hi b = elim (ℕ_discrete (inode + 1) count) [
  | yes e ↦
      let e' : step count inode ≡ 0 = rw (u32_eq) (rw (e) (grind arith)) in
      let b' : base ≡ 0 = sym b ∙ e' in ground (arith, b')
  | no ne ↦
      let e' : step count inode ≡ inode + 1 = rw (u32_eq) (mod-eq_of_lt (omega arith)) in
      let b' : base ≡ inode + 1 = sym b ∙ e' in ground (arith, b')
]
  where
    u32_eq : u32 (inode + 1) ≡ inode + 1
    u32_eq = omega arith

pub home-lt : (count fsid : ℕ) → 0 < count → count < 2 ^ 32 → home count fsid < count
unfolding home
home-lt count fsid pos w = omega (
  arith,
  bit_and-le_right (u32 (fsid * fsid_hash)) (u32 (fsid * fsid_hash)) (sub32 count 1) (omega arith),
)
