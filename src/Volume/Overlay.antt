-- ===== src/Volume/Overlay.antt =====
-- What mfsvol_read_data gives: the sectors held in memory over those of the partition.
use mfstools.Base.{
  ℕ, ◌+◌, ◌-◌, ◌^◌, ◌≤◌, ◌<◌, ◌≡◌, refl, sym, ap, ◌∙◌, some, List, [], ◌∷◌, ◌++◌, if◌then◌else◌,
  arith, take, drop, length, get_or, get_or-take, get_or-drop, length-take, length-drop,
}
use native.Mathlib.Decide.{dec_le}
use mfstools.Spans.{sectors_from, sectors_from_agree, sectors_from-add}
use mfstools.Inode.Runs.Slices.{append_assoc}
use mfstools.Volume.Blocks.{Sector, MemBlock}
use mfstools.Volume.Held.{Apart, Apart-le, within}
use mfstools.Volume.Reading.{PartitionRead, still_within}

-- Every block has the memory for its sectors.
unfoldable pub Full : List MemBlock → Type 0
Full [] = Unit
Full (block ∷ blocks) = (length block.body ≡ block.sectors) × Full blocks

-- The sector that a read is to give: the one held in memory, or the partition's.
unfoldable pub overlay : List MemBlock → (ℕ → Sector) → ℕ → Sector
overlay [] content s = content s
overlay (block ∷ blocks) content s =
    if within block.start (block.start + block.sectors) s
    then get_or block.body (s - block.start) []
    else overlay blocks content s

-- A partition of `size` sectors that reads at least one sector of those it is asked for, and what it
-- reads is what it holds.
pub record Reads {File : Type 0} (partition_read : PartitionRead File) (file : File) (size : ℕ)
    (content : ℕ → Sector) : Type 0 where
  pub amount : ℕ → ℕ → ℕ
  pub some_read : (pos n : ℕ) → 0 < n → (0 < amount pos n) × (amount pos n ≤ n)
  pub gives :
      (pos n : ℕ)
      → 0 < n
      → pos + n ≤ size
      → partition_read file pos n ≡ some (sectors_from content pos (amount pos n))

-- The first block is not passed yet.
unfoldable pub Ahead : ℕ → List MemBlock → Type 0
Ahead pos [] = Unit
Ahead pos (block ∷ blocks) = pos < block.start + block.sectors

-- The first block starts before the end of the read.
unfoldable pub Starts : ℕ → List MemBlock → Type 0
Starts limit [] = Unit
Starts limit (block ∷ blocks) = block.start < limit

-- In front of the blocks, the partition's sectors are read.
pub overlay_before :
    (from : ℕ) (blocks : List MemBlock) (content : ℕ → Sector) (s : ℕ)
    → Apart from blocks
    → s < from
    → overlay blocks content s ≡ content s
unfolding Apart overlay
overlay_before from [] content s a l = refl
overlay_before from (block ∷ blocks) content s a l = ground (
  arith,
  a.0,
  overlay_before (block.start + block.sectors + 1) blocks content s a.2 (omega (arith, a.0)),
)

-- The next block, if it starts within the read, with all that later rounds ask of it.
pub still_within_lem :
    (from limit : ℕ) (blocks : List MemBlock) (content : ℕ → Sector)
    → Apart from blocks
    → Full blocks
    → limit < 2 ^ 62
    → Apart from (still_within blocks limit)
      × Full (still_within blocks limit)
      × (length (still_within blocks limit) ≤ length blocks)
      × Starts limit (still_within blocks limit)
      × ((s : ℕ)
          → s < limit
          → overlay (still_within blocks limit) content s ≡ overlay blocks content s)
unfolding Apart Full Starts overlay
still_within_lem from limit [] content a f room = (a, f, omega arith, tt, λ s l. refl)
still_within_lem from limit (block ∷ blocks) content a f room = elim (dec_le limit block.start) [
  | yes out ↦ rw (cut out) (
    omega (arith, Apart-le from (block ∷ blocks) a),
    tt,
    omega arith,
    tt,
    λ s l. sym (
        overlay_before block.start (block ∷ blocks) content s (omega arith, a.1, a.2)
          (omega arith)),
  )
  | no in' ↦ rw (kept in') (a, f, omega arith, omega arith, λ s l. refl)
]
  where
    cut : limit ≤ block.start → still_within (block ∷ blocks) limit ≡ []
    cut h = ground arith

    kept : ¬ (limit ≤ block.start) → still_within (block ∷ blocks) limit ≡ block ∷ blocks
    kept h = ground arith

pub Ahead-Apart :
    (from pos : ℕ) (blocks : List MemBlock) → Apart from blocks → pos ≤ from → Ahead pos blocks
unfolding Apart Ahead
Ahead-Apart from pos [] a h = tt
Ahead-Apart from pos (block ∷ blocks) a h = omega (arith, a.0, a.1)

-- What was read, followed by the rest.
pub joined :
    (f : ℕ → Sector) (pos m limit : ℕ) (so_far piece : List Sector)
    → piece ≡ sectors_from f pos m
    → pos + m ≤ limit
    → (so_far ++ piece) ++ sectors_from f (pos + m) (limit - (pos + m))
      ≡ so_far ++ sectors_from f pos (limit - pos)
joined f pos m limit so_far piece e h =
    append_assoc so_far piece (sectors_from f (pos + m) (limit - (pos + m)))
    ∙ ap (λ t. so_far ++ t)
        (ap (λ t. t ++ sectors_from f (pos + m) (limit - (pos + m))) e
          ∙ sym (sectors_from-add f pos m (limit - (pos + m)))
          ∙ ap (λ (k : ℕ). sectors_from f pos k) (omega arith))

-- The piece that is copied from a block.
pub copied_piece :
    (block : MemBlock) (f : ℕ → Sector) (pos n : ℕ)
    → length block.body ≡ block.sectors
    → block.start ≤ pos
    → pos + n ≤ block.start + block.sectors
    → ((s : ℕ) → pos ≤ s → s < pos + n → f s ≡ get_or block.body (s - block.start) [])
    → take n (drop (pos - block.start) block.body) ≡ sectors_from f pos n
copied_piece block f pos n full l u same =
    sym (sectors_from_agree f pos piece at) ∙ ap (λ (k : ℕ). sectors_from f pos k) measured
  where
    piece : List Sector
    piece = take n (drop (pos - block.start) block.body)

    measured : length piece ≡ n
    measured = omega (
      arith,
      full,
      length-take n (drop (pos - block.start) block.body),
      length-drop (pos - block.start) block.body,
    )

    at : (i : ℕ) → i < length piece → f (pos + i) ≡ get_or piece i []
    at i h =
        same (pos + i) (omega arith) (omega (arith, measured))
        ∙ ap (λ (k : ℕ). get_or block.body k []) (omega arith)
        ∙ sym (
            get_or-take n (drop (pos - block.start) block.body) i [] (omega (arith, measured))
            ∙ get_or-drop (pos - block.start) block.body i [])
