-- ===== src/Volume/Held.antt =====
-- Which sectors the blocks of a volume hold in memory, and what the loops of
-- mfsvol_locate_mem_data_for_write take in.
use mfstools.Base.{
  ℕ, ◌+◌, ◌^◌, ◌≤◌, ◌<◌, ◌≡◌, refl, ap, ◌∙◌, Bool, true, false, List, [], ◌∷◌, ltb, leb, ◌&&◌, ◌||◌,
  if◌then◌else◌, arith, take, drop, sub64,
}
use native.Mathlib.Decide.{dec_le}
use mfstools.Volume.Blocks.{Sector, MemBlock, block_end, copy_into, last_sector, absorb}

-- The blocks are sorted and not empty, no block meets or touches the next, and all stay far from
-- the end of the numbers.
unfoldable pub Apart : ℕ → List MemBlock → Type 0
Apart from [] = from ≤ 2 ^ 62
Apart from (block ∷ blocks) =
    (from ≤ block.start) × (0 < block.sectors) × Apart (block.start + block.sectors + 1) blocks

abbrev pub within : ℕ → ℕ → ℕ → Bool
within low high s = leb low s && ltb s high

-- Whether a sector is held by one of the blocks.
unfoldable pub held : List MemBlock → ℕ → Bool
held [] s = false
held (block ∷ blocks) s = within block.start (block.start + block.sectors) s || held blocks s

pub Apart-le : (from : ℕ) (blocks : List MemBlock) → Apart from blocks → from ≤ 2 ^ 62
unfolding Apart
Apart-le from [] a = a
Apart-le from (block ∷ blocks) a =
    omega (arith, a.0, Apart-le (block.start + block.sectors + 1) blocks a.2)

pub block_end-le :
    (from : ℕ) (block : MemBlock) (blocks : List MemBlock)
    → Apart from (block ∷ blocks)
    → (block_end block ≡ block.start + block.sectors) × (block.start + block.sectors < 2 ^ 62)
unfolding Apart
block_end-le from block blocks a =
    let le = Apart-le (block.start + block.sectors + 1) blocks a.2 in
    (omega (arith, le), omega (arith, le))

-- The blocks that `absorb` leaves.
unfoldable pub rest_of : List MemBlock → ℕ → List MemBlock
rest_of [] last = []
rest_of (tmp ∷ blocks) last =
    let rest = rest_of blocks last in if ltb tmp.start last then rest else tmp ∷ blocks

pub absorb-rest_of :
    (ret : MemBlock) (blocks : List MemBlock) (end last : ℕ)
    → ((absorb ret blocks end last).1 ≡ rest_of blocks last)
      × ((absorb ret blocks end last).0.start ≡ ret.start)
      × ((absorb ret blocks end last).0.sectors ≡ ret.sectors)
unfolding absorb rest_of
absorb-rest_of ret [] end last = (refl, refl, refl)
absorb-rest_of ret (tmp ∷ blocks) end last =
    choice (ltb tmp.start last) (ltb end (block_end tmp))
      (copy_into ret.body (sub64 end ret.start)
        (take (sub64 (block_end tmp) end) (drop (sub64 end tmp.start) tmp.body)))
      (λ other. absorb-rest_of other blocks end last)
  where
    tail : Bool → List Sector → MemBlock
    tail longer copied = if longer then record ret { body = copied } else ret

    next : Bool → Bool → List Sector → MemBlock × List MemBlock
    next taken longer copied =
        if taken then absorb (tail longer copied) blocks end last else (ret, tmp ∷ blocks)

    choice :
        (taken longer : Bool) (copied : List Sector)
        → ((other : MemBlock)
            → ((absorb other blocks end last).1 ≡ rest_of blocks last)
              × ((absorb other blocks end last).0.start ≡ other.start)
              × ((absorb other blocks end last).0.sectors ≡ other.sectors))
        → ((next taken longer copied).1 ≡ (if taken then rest_of blocks last else tmp ∷ blocks))
          × ((next taken longer copied).0.start ≡ ret.start)
          × ((next taken longer copied).0.sectors ≡ ret.sectors)
    choice false longer copied same = (refl, refl, refl)
    choice true true copied same = same (record ret { body = copied })
    choice true false copied same = same ret

rest_of-Apart :
    (from : ℕ) (blocks : List MemBlock) (last : ℕ)
    → Apart from blocks
    → last ≤ from
    → rest_of blocks last ≡ blocks
unfolding rest_of Apart
rest_of-Apart from [] last a h = refl
rest_of-Apart from (tmp ∷ blocks) last a h = ground (arith, a.0)

-- The blocks that `absorb` leaves start behind the last sector; the absorbed ones and the write
-- make up the sectors up to it. `low` stands where the absorbing block starts.
pub record Absorbed (low : ℕ) (blocks : List MemBlock) (end s last : ℕ) (rest : List MemBlock)
    : Type 0 where
  pub covers : end ≤ last
  pub behind : low < last
  pub separate : Apart (last + 1) rest
  pub same : (within low last s || held rest s) ≡ (held blocks s || within low end s)

module _ {low from : ℕ} {tmp : MemBlock} {blocks : List MemBlock} {end s : ℕ}
    (a : Apart from (tmp ∷ blocks)) (h : low ≤ from) (l : low < end) where
  Absorbed-here :
      end ≤ tmp.start + tmp.sectors
      → tmp.start ≤ end
      → Absorbed low (tmp ∷ blocks) end s (tmp.start + tmp.sectors) blocks
  unfolding Apart held
  Absorbed-here reach meets = record {
    covers = reach;
    behind = omega (arith, a.0, a.1);
    separate = a.2;
    same = ground (arith, a.0);
  }

  Absorbed-apart :
      end < tmp.start → end < 2 ^ 62 → Absorbed low (tmp ∷ blocks) end s end (tmp ∷ blocks)
  unfolding Apart held
  Absorbed-apart apart room = record {
    covers = omega arith;
    behind = l;
    separate = (omega arith, a.1, a.2);
    same = ground arith;
  }

  Absorbed-passed :
      {last : ℕ} {rest : List MemBlock}
      → tmp.start + tmp.sectors < end
      → Absorbed low blocks end s last rest
      → Absorbed low (tmp ∷ blocks) end s last rest
  unfolding Apart held
  Absorbed-passed short later = record {
    covers = later.covers;
    behind = later.behind;
    separate = later.separate;
    same = ground (arith, a.0, later.same);
  }

moved :
    {low : ℕ} {blocks : List MemBlock} {end s last last' : ℕ} {rest rest' : List MemBlock}
    → last ≡ last'
    → rest ≡ rest'
    → Absorbed low blocks end s last' rest'
    → Absorbed low blocks end s last rest
moved e e' r = rw (e, e') r

pub absorbed :
    (low from : ℕ) (blocks : List MemBlock) (end s : ℕ)
    → Apart from blocks
    → low ≤ from
    → low < end
    → end < 2 ^ 62
    → Absorbed low blocks end s (last_sector blocks end) (rest_of blocks (last_sector blocks end))
unfolding last_sector rest_of Apart held
absorbed low from [] end s a h l room = record {
  covers = omega arith;
  behind = l;
  separate = omega arith;
  same = ground arith;
}
absorbed low from (tmp ∷ blocks) end s a h l room = elim (dec_le end (tmp.start + tmp.sectors)) [
  | yes reach ↦ elim (dec_le tmp.start end) [
    | yes meets ↦
        let e : last_sector (tmp ∷ blocks) end ≡ tmp.start + tmp.sectors = ground (arith, ends) in
        let e' : rest_of (tmp ∷ blocks) (tmp.start + tmp.sectors) ≡ blocks =
          ground
            (arith, a.1, rest_of-Apart next blocks (tmp.start + tmp.sectors) a.2 (omega arith)) in
        moved e (ap (λ t. rest_of (tmp ∷ blocks) t) e ∙ e') (Absorbed-here a h l reach meets)
    | no apart ↦
        let e : last_sector (tmp ∷ blocks) end ≡ end = ground (arith, ends) in
        let e' : rest_of (tmp ∷ blocks) end ≡ tmp ∷ blocks = ground arith in
        moved e (ap (λ t. rest_of (tmp ∷ blocks) t) e ∙ e')
          (Absorbed-apart a h l (omega arith) room)
  ]
  | no short ↦
      let later = absorbed low next blocks end s a.2 (omega (arith, a.0)) l room in
      let e : last_sector (tmp ∷ blocks) end ≡ last_sector blocks end = ground (arith, ends) in
      let e' : rest_of (tmp ∷ blocks) (last_sector blocks end)
          ≡ rest_of blocks (last_sector blocks end) =
        ground (arith, later.covers, a.1) in
      moved e (ap (λ t. rest_of (tmp ∷ blocks) t) e ∙ e')
        (Absorbed-passed a h l (omega arith) later)
]
  where
    next : ℕ
    next = tmp.start + tmp.sectors + 1

    ends : block_end tmp ≡ tmp.start + tmp.sectors
    ends = (block_end-le from tmp blocks a).0
