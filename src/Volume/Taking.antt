-- ===== src/Volume/Taking.antt =====
-- The block of a volume that takes a write, in which the sectors of the blocks that it joins are.
use mfstools.Base.{
  ℕ, ◌+◌, ◌-◌, ◌^◌, ◌≤◌, ◌<◌, ◌≡◌, refl, sym, ap, ◌∙◌, ◌⊎◌, inl, inr, List, [], ◌∷◌, if◌then◌else◌,
  arith, length, replicate, length-replicate, get_or, sub64,
}
use native.Mathlib.Decide.{dec_lt}
use mfstools.Volume.Blocks.{Sector, MemBlock, zero_sector, copy_into, zero_out, finish}
use mfstools.Volume.Held.{Apart, within}
use mfstools.Volume.Overlay.{Full, overlay, overlay_before}
use mfstools.Volume.Bodies.{
  length-copy_into, get_or-copy_into_front, get_or-copy_into_self, get_or-copy_into_behind, Joined,
}

module _ (content : ℕ → Sector) where
  -- Every block has its memory, and a read gives the sectors written, and the others as before.
  pub record Overwritten (blocks : List MemBlock) (sector : ℕ) (buf : List Sector)
      (result : List MemBlock) : Type 0 where
    pub full : Full result
    pub reads :
        (s : ℕ)
        → overlay result content s ≡ (
            if within sector (sector + length buf) s
            then get_or buf (s - sector) []
            else overlay blocks content s)

  -- What a write asks of the block that takes it, and of the blocks that it had to take in.
  pub record Taking (before blocks : List MemBlock) (ret : MemBlock) (sector end last : ℕ)
      (p : MemBlock × List MemBlock) : Type 0 where
    pub joins : Joined content ret blocks end last p
    pub same_start : p.0.start ≡ ret.start
    pub same_sectors : p.0.sectors ≡ last - ret.start
    pub whole : length ret.body ≡ last - ret.start
    pub covers : end ≤ last
    pub starts : ret.start ≤ sector
    pub small : last < 2 ^ 62
    pub separate : Apart (last + 1) p.1
    pub lower : (s : ℕ) → s < ret.start → overlay before content s ≡ content s
    pub kept :
        (s : ℕ)
        → ret.start ≤ s
        → s < sector
        → get_or ret.body (s - ret.start) [] ≡ overlay before content s
    pub upper : (s : ℕ) → end ≤ s → overlay blocks content s ≡ overlay before content s

  module _ {before blocks : List MemBlock} {ret : MemBlock} {sector last : ℕ}
      {p : MemBlock × List MemBlock} (buf : List Sector)
      (t : Taking before blocks ret sector (sector + length buf) last p) where
    place : ℕ
    place = sector - ret.start

    zeros : List Sector
    zeros = replicate (length buf) zero_sector

    zeroed : List Sector
    zeroed = copy_into p.0.body place zeros

    body : List Sector
    body = copy_into zeroed place buf

    room : place + length buf ≤ length p.0.body
    unfolding place
    room = omega (arith, t.joins.whole, t.whole, t.covers, t.starts)

    room_zeros : place + length zeros ≤ length p.0.body
    unfolding zeros
    room_zeros = omega (arith, room, length-replicate (length buf) zero_sector)

    length-zeroed : length zeroed ≡ length p.0.body
    unfolding zeroed
    length-zeroed = length-copy_into p.0.body place zeros room_zeros

    room_zeroed : place + length buf ≤ length zeroed
    room_zeroed = omega (arith, room, length-zeroed)

    finish_lem : finish p sector buf ≡ (record p.0 { body = body }) ∷ p.1
    unfolding finish zero_out body zeroed zeros place
    finish_lem = rw (t.same_start, offset) refl
      where
        offset : sub64 sector ret.start ≡ sector - ret.start
        offset = omega (arith, t.starts, t.small, t.covers)

    length-body : length body ≡ last - ret.start
    unfolding body
    length-body =
        length-copy_into zeroed place buf room_zeroed ∙ length-zeroed ∙ t.joins.whole ∙ t.whole

    body-below : (i : ℕ) → i < place → get_or body i [] ≡ get_or p.0.body i []
    unfolding body zeroed
    body-below i h =
        get_or-copy_into_front zeroed place buf room_zeroed i h
        ∙ get_or-copy_into_front p.0.body place zeros room_zeros i h

    body-above : (i : ℕ) → place + length buf ≤ i → get_or body i [] ≡ get_or p.0.body i []
    unfolding body zeroed zeros
    body-above i h =
        get_or-copy_into_behind zeroed place buf room_zeroed i h
        ∙ get_or-copy_into_behind p.0.body place zeros room_zeros i
            (omega (arith, h, length-replicate (length buf) zero_sector))

    held_body :
        (s : ℕ)
        → ret.start ≤ s
        → s < last
        → overlay ((record p.0 { body = body }) ∷ p.1) content s ≡ get_or body (s - ret.start) []
    unfolding overlay
    held_body s l u = rw (t.same_start, t.same_sectors) (ground (arith, l, u))

    not_held :
        (s : ℕ)
        → ¬ (ret.start ≤ s) ⊎ (last ≤ s)
        → overlay ((record p.0 { body = body }) ∷ p.1) content s ≡ overlay p.1 content s
    unfolding overlay
    not_held s o = rw (t.same_start, t.same_sectors) (ground (arith, o, t.covers, t.starts))

    -- The block and those behind it, when the sectors are copied in.
    pub finish-Overwritten : Overwritten before sector buf (finish p sector buf)
    unfolding Full overlay place body
    finish-Overwritten = rw (finish_lem) (record {
      full = (length-body ∙ sym t.same_sectors, t.joins.full);
      reads = λ s.
          at s (dec_lt s ret.start) (dec_lt s sector) (dec_lt s (sector + length buf))
            (dec_lt s last);
    })
      where
        result : List MemBlock
        result = (record p.0 { body = body }) ∷ p.1

        written : ℕ → Sector
        written s =
            if within sector (sector + length buf) s
            then get_or buf (s - sector) []
            else overlay before content s

        outside :
            (s : ℕ)
            → (s < sector) ⊎ (sector + length buf ≤ s)
            → written s ≡ overlay before content s
        outside s (inl h) = ground (arith, h)
        outside s (inr h) = ground (arith, h)

        inside :
            (s : ℕ) → sector ≤ s → s < sector + length buf → written s ≡ get_or buf (s - sector) []
        inside s l u = ground (arith, l, u)

        at :
            (s : ℕ)
            → Dec (s < ret.start)
            → Dec (s < sector)
            → Dec (s < sector + length buf)
            → Dec (s < last)
            → overlay result content s ≡ written s
        at s (yes low) d d' d'' =
            not_held s (inl (omega (arith, low)))
            ∙ overlay_before (last + 1) p.1 content s t.separate
                (omega (arith, low, t.covers, t.starts))
            ∙ sym (t.lower s low)
            ∙ sym (outside s (inl (omega (arith, low, t.starts))))
        at s (no l) (yes front) d' d'' =
            held_body s (omega (arith, l)) (omega (arith, front, t.covers))
            ∙ body-below (s - ret.start) (omega (arith, l, front))
            ∙ t.joins.front s (omega (arith, l)) (omega (arith, front))
            ∙ t.kept s (omega (arith, l)) front
            ∙ sym (outside s (inl front))
        at s (no l) (no l') (yes mid) d'' =
            held_body s (omega (arith, l)) (omega (arith, mid, t.covers))
            ∙ get_or-copy_into_self zeroed place buf room_zeroed (s - ret.start) (omega (arith, l'))
                (omega (arith, l', mid, t.starts))
            ∙ ap (λ (k : ℕ). get_or buf k []) (omega (arith, l', t.starts))
            ∙ sym (inside s (omega (arith, l')) mid)
        at s (no l) (no l') (no h) (yes short) =
            held_body s (omega (arith, l)) short
            ∙ body-above (s - ret.start) (omega (arith, h, t.starts))
            ∙ t.joins.behind s (omega (arith, h)) short
            ∙ t.upper s (omega (arith, h))
            ∙ sym (outside s (inr (omega (arith, h))))
        at s (no l) (no l') (no h) (no far) =
            not_held s (inr (omega (arith, far)))
            ∙ t.joins.others s (omega (arith, far))
            ∙ t.upper s (omega (arith, h))
            ∙ sym (outside s (inr (omega (arith, h))))
