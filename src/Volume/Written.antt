-- ===== src/Volume/Written.antt =====
-- What a write to memory leaves: blocks that are apart and hold what they held and what is written.
use mfstools.Base.{ℕ, ◌+◌, ◌-◌, ◌≤◌, ◌≡◌, ap, ◌∙◌, List, [], ◌∷◌, ◌||◌, arith}
use mfstools.Volume.Blocks.{Sector, MemBlock, finish}
use mfstools.Volume.Held.{Apart, held, within, Absorbed}

Apart-weaken :
    (from from' : ℕ) (blocks : List MemBlock)
    → from' ≤ from
    → Apart from blocks
    → Apart from' blocks
unfolding Apart
Apart-weaken from from' [] h a = omega arith
Apart-weaken from from' (block ∷ blocks) h a = (omega (arith, a.0), a.1, a.2)

-- The blocks are still apart, and hold what they held and what was written.
pub record Written (from : ℕ) (blocks : List MemBlock) (sector count s : ℕ) (result : List MemBlock)
    : Type 0 where
  pub apart : Apart from result
  pub holds : held result s ≡ (held blocks s || within sector (sector + count) s)

pub finish-Apart :
    {from low end s last : ℕ} {blocks rest : List MemBlock} (p : MemBlock × List MemBlock)
    (sector : ℕ) (buf : List Sector)
    → from ≤ low
    → Absorbed low blocks end s last rest
    → p.1 ≡ rest
    → p.0.start ≡ low
    → p.0.sectors ≡ last - low
    → Apart from (finish p sector buf)
unfolding finish Apart
finish-Apart {from} {low} {end} {s} {last} {blocks} {rest} p sector buf h r e e' e'' = (
  omega (arith, e'),
  omega (arith, e'', r.behind),
  Apart-weaken (last + 1) (p.0.start + p.0.sectors + 1) p.1 (omega (arith, e', e'', r.behind))
      (rw (e) r.separate),
)

pub held-finish :
    {low end s last : ℕ} {blocks rest : List MemBlock} (p : MemBlock × List MemBlock) (sector : ℕ)
    (buf : List Sector)
    → Absorbed low blocks end s last rest
    → p.1 ≡ rest
    → p.0.start ≡ low
    → p.0.sectors ≡ last - low
    → held (finish p sector buf) s ≡ (held blocks s || within low end s)
unfolding finish held
held-finish {low} {end} {s} {last} {blocks} {rest} p sector buf r e e' e'' =
    bounds ∙ ap (λ t. within low last s || held t s) e ∙ r.same
  where
    bounds :
        (within p.0.start (p.0.start + p.0.sectors) s || held p.1 s)
        ≡ (within low last s || held p.1 s)
    bounds = ground (arith, e', e'', r.behind)

pub Written-moved :
    {from : ℕ} {blocks : List MemBlock} {sector count s : ℕ} {result result' : List MemBlock}
    → result ≡ result'
    → Written from blocks sector count s result'
    → Written from blocks sector count s result
Written-moved e w = rw e w
