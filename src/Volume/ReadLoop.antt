-- ===== src/Volume/ReadLoop.antt =====
-- The rounds of the loop of mfsvol_read_data, one by one and together.
use mfstools.Base.{
  ℕ, zero, suc, ◌+◌, ◌-◌, ◌*◌, ◌^◌, ◌≤◌, ◌<◌, ◌≡◌, refl, sym, ap, ap₂, ◌∙◌, true, false, List, [],
  ◌∷◌, ◌++◌, leb, arith, take, drop, length, get_or, add64, sub64, u32,
}
use native.Mathlib.Decide.{dec_le}
use mfstools.Spans.{sectors_from, length-sectors_from, sectors_from_same}
use mfstools.Inode.Runs.Slices.{append-nil}
use mfstools.Volume.Blocks.{Sector, MemBlock, block_end}
use mfstools.Volume.Held.{Apart, block_end-le}
use mfstools.Volume.Reading.{
  ReadOutcome, read_sectors, not_read, nothing_read, PartitionRead, from_memory, from_partition,
  next_piece, to_copy, still_within, read_loop,
}
use mfstools.Volume.Overlay.{
  Full, overlay, Reads, Ahead, Starts, overlay_before, still_within_lem, Ahead-Apart, joined,
  copied_piece,
}

module _ {File : Type 0} (partition_read : PartitionRead File) (file : File) (size : ℕ)
    (content : ℕ → Sector) (reads : Reads partition_read file size content) (sector count : ℕ)
    (few : count < 2 ^ 22) where
  -- The test of the loop, while the bytes fit an `int`.
  goes_on :
      (pos limit : ℕ)
      → sector ≤ pos
      → pos < limit
      → limit ≡ sector + count
      → limit < 2 ^ 62
      → (leb (2 ^ 31) (512 * sub64 pos sector) ≡ false)
        × (leb (u32 (count * 512)) (512 * sub64 pos sector) ≡ false)
  goes_on pos limit began more is room =
      let nread : sub64 pos sector ≡ pos - sector = omega arith in
      (ground (arith, nread), ground (arith, nread))

  -- The loop reads the overlay from `pos` on.
  abbrev pub Completes : ℕ → List MemBlock → ℕ → ℕ → List Sector → Type 0
  Completes fuel blocks pos limit so_far =
      read_loop partition_read file sector count fuel blocks pos limit so_far
      ≡ read_sectors (so_far ++ sectors_from (overlay blocks content) pos (limit - pos))

  -- A round that reads from the partition, in front of the first block or behind the last.
  partition_round :
      (fuel pos n limit : ℕ) (blocks : List MemBlock) (so_far : List Sector)
      → next_piece blocks pos limit ≡ from_partition n
      → 0 < n
      → pos + n ≤ limit
      → limit ≤ size
      → limit < 2 ^ 62
      → sector ≤ pos
      → limit ≡ sector + count
      → ((s : ℕ) → pos ≤ s → s < pos + n → overlay blocks content s ≡ content s)
      → ((m : ℕ)
          → 0 < m
          → m ≤ n
          → (so_far' : List Sector) → Completes fuel blocks (pos + m) limit so_far')
      → Completes (suc fuel) blocks pos limit so_far
  unfolding read_loop
  partition_round fuel pos n limit blocks so_far next_eq some_n inside fits room began is same
        later =
      rw
        (
          (goes_on pos limit began (omega arith) is room).0,
          (goes_on pos limit began (omega arith) is room).1,
        )
        (rw (next_eq) (
          rw (reads.gives pos n some_n (omega arith)) (
            go (reads.amount pos n) (reads.some_read pos n some_n).0
              (reads.some_read pos n some_n).1)))
    where
      go :
          (m : ℕ)
          → 0 < m
          → m ≤ n
          → elim (sectors_from content pos m) as (λ _. ReadOutcome) [
            | [] ↦ not_read nothing_read
            | first ∷ more ↦
                read_loop partition_read file sector count fuel blocks
                  (add64 pos (suc (length more)))
                  limit
                  (so_far ++ first ∷ more)
          ]
            ≡ read_sectors (so_far ++ sectors_from (overlay blocks content) pos (limit - pos))
      go zero h h' = absurd (omega arith)
      go (suc m) h h' =
          ap
            (λ (k : ℕ).
              read_loop partition_read file sector count fuel blocks k limit
                (so_far ++ sectors_from content pos (suc m)))
            (omega (arith, length-sectors_from content (suc pos) m))
          ∙ later (suc m) h h' (so_far ++ sectors_from content pos (suc m))
          ∙ ap read_sectors (
              joined (overlay blocks content) pos (suc m) limit so_far
                (sectors_from content pos (suc m))
                (sym (
                  sectors_from_same (overlay blocks content) content pos (suc m)
                    (λ s l u. same s l (omega arith))))
                (omega arith))

  -- What holds before each round of the loop.
  pub record Going (pos limit : ℕ) (blocks : List MemBlock) : Type 0 where
    pub from : ℕ
    pub apart : Apart from blocks
    pub full : Full blocks
    pub ahead : Ahead pos blocks
    pub starts : Starts limit blocks
    pub short : pos ≤ limit
    pub fits : limit ≤ size
    pub room : limit < 2 ^ 62
    pub began : sector ≤ pos
    pub is : limit ≡ sector + count

  -- What the rounds that are left do.
  abbrev pub Later : ℕ → Type 0
  Later fuel =
      (pos limit : ℕ) (blocks : List MemBlock) (so_far : List Sector)
      → Going pos limit blocks
      → (limit - pos) + length blocks < fuel
      → Completes fuel blocks pos limit so_far

  -- A round that copies `n` sectors from the first block: all that it has, or all that are wanted.
  memory_round :
      (fuel pos n limit : ℕ) (block : MemBlock) (blocks : List MemBlock) (so_far : List Sector)
      → Later fuel
      → Going pos limit (block ∷ blocks)
      → (limit - pos) + length (block ∷ blocks) < suc fuel
      → block.start ≤ pos
      → to_copy block pos limit ≡ n
      → 0 < n
      → pos + n ≤ limit
      → pos + n ≤ block.start + block.sectors
      → ((s : ℕ) → pos + n ≤ s → s < limit → block.start + block.sectors ≤ s)
      → Completes (suc fuel) (block ∷ blocks) pos limit so_far
  unfolding read_loop Apart Full Ahead overlay next_piece
  memory_round fuel pos n limit block blocks so_far later g enough started copies some_n inside
        within_block passed =
      rw
        (
          (goes_on pos limit g.began (omega arith) g.is g.room).0,
          (goes_on pos limit g.began (omega arith) g.is g.room).1,
        )
        (rw (next_eq) (
          ap
            (λ (k : ℕ).
              read_loop partition_read file sector count fuel rest k limit (so_far ++ piece))
            place
          ∙ later (pos + n) limit rest (so_far ++ piece) g' (omega (arith, kept.2))
          ∙ ap (λ t. read_sectors ((so_far ++ piece) ++ t))
              (sectors_from_same (overlay rest content) (overlay (block ∷ blocks) content) (pos + n)
                (limit - (pos + n))
                (λ s l u. kept.4 s (omega arith) ∙ sym (behind s (passed s l (omega arith)))))
          ∙ ap read_sectors (
              joined (overlay (block ∷ blocks) content) pos n limit so_far piece
                (copied_piece block (overlay (block ∷ blocks) content) pos n g.full.0 started
                  within_block (λ s l u. inside_block s (omega arith) (omega arith)))
                inside)))
    where
      end : (block_end block ≡ block.start + block.sectors) × (block.start + block.sectors < 2 ^ 62)
      end = block_end-le g.from block blocks g.apart

      rest : List MemBlock
      rest = still_within blocks limit

      piece : List Sector
      piece = take n (drop (pos - block.start) block.body)

      place : add64 pos n ≡ pos + n
      place = omega (arith, g.room)

      next_eq : next_piece (block ∷ blocks) pos limit ≡ from_memory n piece rest
      next_eq =
          rw (is_started)
            (ap₂ (λ (k j : ℕ). from_memory k (take k (drop j block.body)) rest) copies offset)
        where
          is_started : leb block.start pos ≡ true
          is_started = ground arith

          offset : sub64 pos block.start ≡ pos - block.start
          offset = omega (arith, g.room, g.short)

      kept :
          Apart (block.start + block.sectors + 1) rest
          × Full rest
          × (length rest ≤ length blocks)
          × Starts limit rest
          × ((s : ℕ) → s < limit → overlay rest content s ≡ overlay blocks content s)
      kept =
          still_within_lem (block.start + block.sectors + 1) limit blocks content g.apart.2 g.full.1
            g.room

      g' : Going (pos + n) limit rest
      g' = record {
        from = block.start + block.sectors + 1;
        apart = kept.0;
        full = kept.1;
        ahead = Ahead-Apart (block.start + block.sectors + 1) (pos + n) rest kept.0 (omega arith);
        starts = kept.3;
        short = inside;
        fits = g.fits;
        room = g.room;
        began = omega (arith, g.began);
        is = g.is;
      }

      behind :
          (s : ℕ)
          → block.start + block.sectors ≤ s
          → overlay (block ∷ blocks) content s ≡ overlay blocks content s
      behind s h = ground arith

      inside_block :
          (s : ℕ)
          → block.start ≤ s
          → s < block.start + block.sectors
          → overlay (block ∷ blocks) content s ≡ get_or block.body (s - block.start) []
      inside_block s l u = ground arith

  any_round :
      (fuel pos limit : ℕ) (blocks : List MemBlock) (so_far : List Sector)
      → Later fuel
      → Going pos limit blocks
      → (limit - pos) + length blocks < suc fuel
      → ¬ (limit ≤ pos)
      → Completes (suc fuel) blocks pos limit so_far
  unfolding Apart Full Ahead Starts overlay next_piece
  any_round fuel pos limit [] so_far later g enough more =
      partition_round fuel pos (limit - pos) limit [] so_far
        (ap from_partition (omega (arith, g.room))) (omega arith) (omega arith) g.fits g.room
        g.began g.is (λ s l u. refl)
        (λ m h h' so_far'.
          later (pos + m) limit [] so_far'
            (record {
              from = g.from;
              apart = g.apart;
              full = tt;
              ahead = tt;
              starts = tt;
              short = omega arith;
              fits = g.fits;
              room = g.room;
              began = omega (arith, g.began);
              is = g.is;
            })
            (omega arith))
  any_round fuel pos limit (block ∷ blocks) so_far later g enough more =
      elim (dec_le block.start pos) [
        | yes started ↦ elim (dec_le (block.start + block.sectors) limit) [
          | yes whole ↦
              memory_round fuel pos (block.start + block.sectors - pos) limit block blocks so_far
                later g enough started (ground (arith, end, g.room)) (omega (arith, g.ahead))
                (omega (arith, g.ahead)) (omega (arith, g.ahead)) (λ s l u. omega (arith, g.ahead))
          | no part ↦
              memory_round fuel pos (limit - pos) limit block blocks so_far later g enough started
                (ground (arith, end, g.room)) (omega arith) (omega arith) (omega arith)
                (λ s l u. absurd (omega arith))
        ]
        | no far ↦
            partition_round fuel pos (block.start - pos) limit (block ∷ blocks) so_far (next_eq far)
              (omega arith) (omega (arith, g.starts)) g.fits g.room g.began g.is
              (λ s l u.
                overlay_before block.start (block ∷ blocks) content s
                  (omega arith, g.apart.1, g.apart.2) (omega arith))
              (λ m h h' so_far'.
                later (pos + m) limit (block ∷ blocks) so_far'
                  (record {
                    from = g.from;
                    apart = g.apart;
                    full = g.full;
                    ahead = omega (arith, g.ahead);
                    starts = g.starts;
                    short = omega (arith, g.starts);
                    fits = g.fits;
                    room = g.room;
                    began = omega (arith, g.began);
                    is = g.is;
                  })
                  (omega (arith, enough, g.starts)))
      ]
    where
      end : (block_end block ≡ block.start + block.sectors) × (block.start + block.sectors < 2 ^ 62)
      end = block_end-le g.from block blocks g.apart

      next_eq :
          ¬ (block.start ≤ pos)
          → next_piece (block ∷ blocks) pos limit ≡ from_partition (block.start - pos)
      next_eq far = ground (arith, far, end)

  pub read_loop-overlay : (fuel : ℕ) → Later fuel
  unfolding read_loop
  read_loop-overlay zero pos limit blocks so_far g enough = absurd (omega arith)
  read_loop-overlay (suc fuel) pos limit blocks so_far g enough = elim (dec_le limit pos) [
    | yes done ↦ rw (in_range, stops done) (ap read_sectors (sym (nothing done)))
    | no more ↦ any_round fuel pos limit blocks so_far (read_loop-overlay fuel) g enough more
  ]
    where
      nread : sub64 pos sector ≡ pos - sector
      nread = omega (arith, g.began, g.short, g.room)

      in_range : leb (2 ^ 31) (512 * sub64 pos sector) ≡ false
      in_range = ground (arith, nread, g.short, g.is, few)

      stops : limit ≤ pos → leb (u32 (count * 512)) (512 * sub64 pos sector) ≡ true
      stops h = ground (arith, nread, g.is, few)

      none_left : limit ≤ pos → limit - pos ≡ 0
      none_left h = omega arith

      nothing :
          limit ≤ pos → so_far ++ sectors_from (overlay blocks content) pos (limit - pos) ≡ so_far
      nothing h =
          ap (λ (k : ℕ). so_far ++ sectors_from (overlay blocks content) pos k) (none_left h)
          ∙ append-nil so_far
