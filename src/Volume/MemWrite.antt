-- ===== src/Volume/MemWrite.antt =====
-- What a write to memory adds to the sectors that the blocks of a volume hold, and what a read finds.
use mfstools.Base.{
  ℕ, ◌+◌, ◌-◌, ◌^◌, ◌≤◌, ◌<◌, ◌≡◌, refl, ap, ◌∙◌, false, List, [], ◌∷◌, ◌||◌, arith, length, add64,
  sub64,
}
use native.Mathlib.Decide.{dec_lt, dec_le}
use mfstools.Volume.Blocks.{
  Sector, MemBlock, block_end, copy_into, locate_for_read, last_sector, absorb, grown, fresh,
  finish, write_here, mem_write,
}
use mfstools.Volume.Held.{
  Apart, held, within, Apart-le, block_end-le, rest_of, absorb-rest_of, Absorbed, absorbed,
}
use mfstools.Volume.Written.{Written, finish-Apart, held-finish, Written-moved}

module _ (junk : Sector) {from sector : ℕ} (buf : List Sector) (s : ℕ) (h : from ≤ sector)
    (pos : 0 < length buf) (room : sector + length buf < 2 ^ 62) where
  -- `sector + count`
  abbrev end : ℕ
  end = add64 sector (length buf)

  end_eq : end ≡ sector + length buf
  end_eq = omega (arith, room)

  -- A new block before all those that are left.
  fresh-Written :
      (low : ℕ) (blocks : List MemBlock)
      → Apart low blocks
      → sector ≤ low
      → Written from blocks sector (length buf) s (
          finish
            (absorb
              (fresh junk sector (last_sector blocks end))
              blocks
              end
              (last_sector blocks end))
            sector
            buf)
  unfolding fresh
  fresh-Written low blocks a l = record {
    apart = finish-Apart result sector buf h r same.0 same.1 sectors_eq;
    holds =
        held-finish result sector buf r same.0 same.1 sectors_eq
        ∙ ap (λ e. held blocks s || within sector e s) end_eq;
  }
    where
      last : ℕ
      last = last_sector blocks end

      result : MemBlock × List MemBlock
      result = absorb (fresh junk sector last) blocks end last

      r : Absorbed sector blocks end s last (rest_of blocks last)
      r = absorbed sector low blocks end s a l (omega (arith, end_eq)) (omega (arith, end_eq))

      same :
          (result.1 ≡ rest_of blocks last)
          × (result.0.start ≡ sector)
          × (result.0.sectors ≡ sub64 last sector)
      same = absorb-rest_of (fresh junk sector last) blocks end last

      sectors_eq : result.0.sectors ≡ last - sector
      sectors_eq =
          omega (arith, same.2, r.behind, Apart-le (last + 1) (rest_of blocks last) r.separate)

  -- The block that the write begins in or behind, made longer.
  grown-Written :
      (block : MemBlock) (blocks : List MemBlock)
      → Apart from (block ∷ blocks)
      → block.start ≤ sector
      → sector ≤ block.start + block.sectors
      → block.start + block.sectors < end
      → Written from (block ∷ blocks) sector (length buf) s (
          finish
            (absorb (grown junk block (last_sector blocks end)) blocks end (last_sector blocks end))
            sector
            buf)
  unfolding grown Apart held
  grown-Written block blocks a l reach short = record {
    apart = finish-Apart result sector buf a.0 r same.0 same.1 sectors_eq;
    holds = held-finish result sector buf r same.0 same.1 sectors_eq ∙ joined;
  }
    where
      last : ℕ
      last = last_sector blocks end

      result : MemBlock × List MemBlock
      result = absorb (grown junk block last) blocks end last

      r : Absorbed block.start blocks end s last (rest_of blocks last)
      r =
          absorbed block.start (block.start + block.sectors + 1) blocks end s a.2 (omega arith)
            (omega (arith, short)) (omega (arith, end_eq))

      same :
          (result.1 ≡ rest_of blocks last)
          × (result.0.start ≡ block.start)
          × (result.0.sectors ≡ sub64 last block.start)
      same = absorb-rest_of (grown junk block last) blocks end last

      sectors_eq : result.0.sectors ≡ last - block.start
      sectors_eq =
          omega (arith, same.2, r.behind, Apart-le (last + 1) (rest_of blocks last) r.separate)

      joined : (held blocks s || within block.start end s) ≡ (
          (within block.start (block.start + block.sectors) s || held blocks s)
          || within sector (sector + length buf) s)
      joined = ground (arith, end_eq)

  inside-Written :
      (block : MemBlock) (blocks : List MemBlock) (body : List Sector)
      → Apart from (block ∷ blocks)
      → block.start ≤ sector
      → end ≤ block.start + block.sectors
      → Written from (block ∷ blocks) sector (length buf) s (record block { body = body } ∷ blocks)
  unfolding Apart held
  inside-Written block blocks body a l reach = record { apart = a; holds = ground (arith, end_eq) }

  write_here-Written :
      (block : MemBlock) (blocks : List MemBlock)
      → Apart from (block ∷ blocks)
      → sector ≤ block.start + block.sectors
      → Written from
          (block ∷ blocks)
          sector
          (length buf)
          s
          (write_here junk (block ∷ blocks) sector buf)
  unfolding write_here Apart last_sector
  write_here-Written block blocks a meets = elim (dec_le block.start sector) [
    | yes l ↦ elim (dec_le end (block.start + block.sectors)) [
      | yes reach ↦ Written-moved (ground (arith, ends)) (
          inside-Written block blocks (copy_into block.body (sub64 sector block.start) buf) a l
            reach)
      | no short ↦
          Written-moved (ground (arith, ends) ∙ ap finished (passed (omega arith)))
            (grown-Written block blocks a l meets (omega arith))
    ]
    | no before ↦
        Written-moved (ground arith)
          (fresh-Written block.start (block ∷ blocks) (omega arith, a.1, a.2) (omega arith))
  ]
    where
      ends : block_end block ≡ block.start + block.sectors
      ends = (block_end-le from block blocks a).0

      finished : ℕ → List MemBlock
      finished last = finish (absorb (grown junk block last) blocks end last) sector buf

      passed :
          block.start + block.sectors < end
          → last_sector (block ∷ blocks) end ≡ last_sector blocks end
      passed short = ground (arith, ends)

pub mem_write-Written :
    (junk : Sector) (from : ℕ) (blocks : List MemBlock) (sector : ℕ) (buf : List Sector) (s : ℕ)
    → Apart from blocks
    → from ≤ sector
    → 0 < length buf
    → sector + length buf < 2 ^ 62
    → Written from blocks sector (length buf) s (mem_write junk blocks sector buf)
unfolding mem_write write_here last_sector Apart held
mem_write-Written junk from [] sector buf s a h pos room =
    fresh-Written junk buf s h pos room sector [] (omega (arith, room)) (omega arith)
mem_write-Written junk from (block ∷ blocks) sector buf s a h pos room =
    elim (dec_lt (block.start + block.sectors) sector) [
      | yes passed ↦
          let later =
            mem_write-Written junk (block.start + block.sectors + 1) blocks sector buf s a.2
              (omega arith) pos room in
          Written-moved {result' = block ∷ mem_write junk blocks sector buf} (ground (arith, ends))
            (record { apart = (a.0, a.1, later.apart); holds = ground (arith, later.holds) })
      | no meets ↦
          Written-moved (ground (arith, ends))
            (write_here-Written junk buf s h pos room block blocks a (omega arith))
    ]
  where
    ends : block_end block ≡ block.start + block.sectors
    ends = (block_end-le from block blocks a).0

held_before :
    (from : ℕ) (blocks : List MemBlock) (s : ℕ)
    → Apart from blocks
    → s < from
    → held blocks s ≡ false
unfolding Apart held
held_before from [] s a l = refl
held_before from (block ∷ blocks) s a l =
    ground
      (arith, a.0, held_before (block.start + block.sectors + 1) blocks s a.2 (omega (arith, a.0)))

-- The blocks from the one that a read is given on hold every sector of the read that is held at
-- all.
pub held-locate_for_read :
    (from : ℕ) (blocks : List MemBlock) (sector count s : ℕ)
    → Apart from blocks
    → sector ≤ s
    → s < sector + count
    → sector + count < 2 ^ 62
    → held (locate_for_read blocks sector count) s ≡ held blocks s
unfolding locate_for_read Apart held
held-locate_for_read from [] sector count s a l u room = refl
held-locate_for_read from (block ∷ blocks) sector count s a l u room = ground (
  arith,
  (block_end-le from block blocks a).0,
  held-locate_for_read (block.start + block.sectors + 1) blocks sector count s a.2 l u room,
  λ (p : sector + count ≤ block.start).
      held_before (block.start + block.sectors + 1) blocks s a.2 (omega arith),
)
