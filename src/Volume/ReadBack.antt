-- ===== src/Volume/ReadBack.antt =====
-- mfsvol_read_data gives the sectors held in memory over those of the partition.
use mfstools.Base.{
  ℕ, suc, ◌+◌, ◌-◌, ◌^◌, ◌≤◌, ◌<◌, ◌≡◌, refl, sym, ap, ap₂, ◌∙◌, Bool, false, some, List, [], ◌∷◌,
  ltb, if◌then◌else◌, arith, length, add64, sub64,
}
use native.Mathlib.Decide.{dec_lt}
use mfstools.Spans.{sectors_from, sectors_from_same}
use mfstools.Volume.{VolumeInfo, get_volume}
use mfstools.Volume.Blocks.{Sector, MemBlock, block_end, locate_for_read}
use mfstools.Volume.Held.{Apart, Apart-le, block_end-le}
use mfstools.Volume.Reading.{
  ReadOutcome, read_sectors, not_read, past_volume, PartitionRead, read_loop, read_volume,
  read_data,
}
use mfstools.Volume.ReadLoop.{read_loop-overlay}
use mfstools.Volume.Overlay.{Full, overlay, Reads, Ahead, Starts, overlay_before}

module _ (content : ℕ → Sector) where
  -- The blocks from the one that is found on, with what the loop asks of them.
  Located : ℕ → ℕ → List MemBlock → List MemBlock → Type 0
  Located pos limit blocks located =
      (from : ℕ) × Apart from located
      × Full located
      × Ahead pos located
      × Starts limit located
      × ((s : ℕ) → pos ≤ s → s < limit → overlay located content s ≡ overlay blocks content s)

  locate_for_read-Located :
      (from pos count : ℕ) (blocks : List MemBlock)
      → Apart from blocks
      → Full blocks
      → pos + count < 2 ^ 62
      → Located pos (pos + count) blocks (locate_for_read blocks pos count)
  unfolding Located Apart Full Ahead Starts overlay locate_for_read
  locate_for_read-Located from pos count [] a f room = (from, a, tt, tt, tt, λ s l u. refl)
  locate_for_read-Located from pos count (block ∷ blocks) a f room =
      elim (dec_lt pos (block.start + block.sectors)) [
        | yes reached ↦ elim (dec_lt block.start (pos + count)) [
          | yes starts ↦ rw (taken reached starts) (from, a, f, reached, starts, λ s l u. refl)
          | no behind ↦ rw (none_taken reached behind) (
            from,
            omega (arith, Apart-le from (block ∷ blocks) a),
            tt,
            tt,
            tt,
            λ s l u. sym (
                overlay_before block.start (block ∷ blocks) content s (omega arith, a.1, a.2)
                  (omega arith)),
          )
        ]
        | no passed ↦
            let later =
              locate_for_read-Located (block.start + block.sectors + 1) pos count blocks a.2 f.1
                room in
            rw (skipped passed) (
              later.0,
              later.1,
              later.2,
              later.3,
              later.4,
              λ s l u. later.5 s l u ∙ sym (beyond s (omega arith)),
            )
      ]
    where
      end : (block_end block ≡ block.start + block.sectors) × (block.start + block.sectors < 2 ^ 62)
      end = block_end-le from block blocks a

      taken :
          pos < block.start + block.sectors
          → block.start < pos + count
          → locate_for_read (block ∷ blocks) pos count ≡ block ∷ blocks
      taken h h' = ground (arith, end)

      none_taken :
          pos < block.start + block.sectors
          → ¬ (block.start < pos + count)
          → locate_for_read (block ∷ blocks) pos count ≡ []
      none_taken h h' = ground (arith, end)

      skipped :
          ¬ (pos < block.start + block.sectors)
          → locate_for_read (block ∷ blocks) pos count ≡ locate_for_read blocks pos count
      skipped h = ground (arith, end)

      beyond :
          (s : ℕ)
          → block.start + block.sectors ≤ s
          → overlay (block ∷ blocks) content s ≡ overlay blocks content s
      beyond s h = ground arith

-- A read that is found a volume and lies within it gives all of its sectors: those that the volume
-- holds in memory from there, and the others as the partition holds them. The blocks in memory are
-- apart and have their memory; the partition may read fewer sectors than it is asked for, as long
-- as it reads one. The bytes that are read fit an `int`.
pub read_data-overlay :
    {File : Type 0} (partition_read : PartitionRead File) (content : ℕ → Sector)
    (volumes : List (VolumeInfo File)) (vol : VolumeInfo File) (sector count : ℕ)
    → Reads partition_read vol.file vol.sectors content
    → get_volume volumes sector ≡ some vol
    → Apart 0 vol.mem_blocks
    → Full vol.mem_blocks
    → sub64 sector vol.start + count ≤ vol.sectors
    → vol.sectors < 2 ^ 62
    → count < 2 ^ 22
    → read_data partition_read volumes sector count
      ≡ read_sectors (sectors_from (overlay vol.mem_blocks content) (sub64 sector vol.start) count)
unfolding read_data read_volume read_loop Located
read_data-overlay partition_read content volumes vol sector count reads found apart full fits small
      few =
    rw (found, read_data)
      (ap₂ after within_volume limit_eq
        ∙ read_loop-overlay partition_read vol.file vol.sectors content reads offset count few
            (suc (count + length located)) offset (offset + count) located []
            (record {
              from = l.0;
              apart = l.1;
              full = l.2;
              ahead = l.3;
              starts = l.4;
              short = omega arith;
              fits = fits;
              room = omega arith;
              began = omega arith;
              is = refl;
            })
            (omega arith)
        ∙ ap read_sectors (
            ap (λ (k : ℕ). sectors_from (overlay located content) offset k) wanted
            ∙ sectors_from_same (overlay located content) (overlay vol.mem_blocks content) offset
                count l.5))
  where
    offset : ℕ
    offset = sub64 sector vol.start

    located : List MemBlock
    located = locate_for_read vol.mem_blocks offset count

    l : Located content offset (offset + count) vol.mem_blocks located
    l = locate_for_read-Located content 0 offset count vol.mem_blocks apart full (omega arith)

    limit_eq : add64 offset count ≡ offset + count
    limit_eq = omega arith

    within_volume : ltb vol.sectors (add64 offset count) ≡ false
    within_volume = ground (arith, limit_eq)

    wanted : offset + count - offset ≡ count
    wanted = omega arith

    after : Bool → ℕ → ReadOutcome
    after past limit =
        if past
        then not_read past_volume
        else read_loop partition_read vol.file offset count (suc (count + length located)) located
            offset limit []
