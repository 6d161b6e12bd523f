-- ===== src/Volume/Bodies.antt =====
-- The sectors that the blocks of a volume hold, through the loop of mfsvol_locate_mem_data_for_write that
-- takes blocks in.
use mfstools.Base.{
  ℕ, ◌+◌, ◌-◌, ◌^◌, ◌≤◌, ◌<◌, ◌≡◌, refl, sym, ap, ◌∙◌, true, List, [], ◌∷◌, ◌++◌, ltb, arith, take,
  drop, length, get_or, get_or-append_left, get_or-append_right, get_or-take, get_or-drop,
  length-append, length-take, length-drop, sub64,
}
use native.Mathlib.Decide.{dec_le, dec_lt}
use mfstools.Volume.Blocks.{Sector, MemBlock, block_end, copy_into, last_sector, absorb}
use mfstools.Volume.Held.{Apart, block_end-le, absorbed}
use mfstools.Volume.Overlay.{Full, overlay}

module _ (body : List Sector) (offset : ℕ) (new : List Sector)
    (h : offset + length new ≤ length body) where
  front : List Sector
  front = take offset body ++ new

  measured : (length (take offset body) ≡ offset) × (length front ≡ offset + length new)
  unfolding front
  measured =
      let first : length (take offset body) ≡ offset = omega (arith, length-take offset body, h) in
      (first, length-append (take offset body) new ∙ ap (λ (k : ℕ). k + length new) first)

  pub length-copy_into : length (copy_into body offset new) ≡ length body
  unfolding copy_into front
  length-copy_into =
      length-append front (drop (offset + length new) body)
      ∙ omega (arith, measured.1, length-drop (offset + length new) body, h)

  -- In front of the copy, in it and behind it.
  pub get_or-copy_into_front :
      (i : ℕ) → i < offset → get_or (copy_into body offset new) i [] ≡ get_or body i []
  unfolding copy_into front
  get_or-copy_into_front i l =
      get_or-append_left front (drop (offset + length new) body) i [] (omega (arith, measured.1, l))
      ∙ get_or-append_left (take offset body) new i [] (omega (arith, measured.0, l))
      ∙ get_or-take offset body i [] l

  pub get_or-copy_into_self :
      (i : ℕ)
      → offset ≤ i
      → i < offset + length new
      → get_or (copy_into body offset new) i [] ≡ get_or new (i - offset) []
  unfolding copy_into front
  get_or-copy_into_self i l u =
      get_or-append_left front (drop (offset + length new) body) i [] (omega (arith, measured.1, u))
      ∙ get_or-append_right (take offset body) new i [] (omega (arith, measured.0, l))
      ∙ ap (λ (k : ℕ). get_or new (i - k) []) measured.0

  pub get_or-copy_into_behind :
      (i : ℕ) → offset + length new ≤ i → get_or (copy_into body offset new) i [] ≡ get_or body i []
  unfolding copy_into front
  get_or-copy_into_behind i l =
      get_or-append_right front (drop (offset + length new) body) i []
        (omega (arith, measured.1, l))
      ∙ get_or-drop (offset + length new) body (i - length front) []
      ∙ ap (λ (k : ℕ). get_or body k []) (omega (arith, measured.1, l))

-- Blocks behind the last sector are not taken in.
absorb_behind :
    (ret : MemBlock) (blocks : List MemBlock) (end from last : ℕ)
    → Apart from blocks
    → last ≤ from
    → absorb ret blocks end last ≡ (ret, blocks)
unfolding absorb Apart
absorb_behind ret [] end from last a h = refl
absorb_behind ret (tmp ∷ blocks) end from last a h = ground (arith, a.0)

module _ (content : ℕ → Sector) where
  -- What a block and those behind it hold once the block has taken in the blocks up to `last`.
  pub record Joined (ret : MemBlock) (blocks : List MemBlock) (end last : ℕ)
      (result : MemBlock × List MemBlock) : Type 0 where
    pub whole : length result.0.body ≡ length ret.body
    pub full : Full result.1
    pub front :
        (s : ℕ)
        → ret.start ≤ s
        → s < end
        → get_or result.0.body (s - ret.start) [] ≡ get_or ret.body (s - ret.start) []
    pub behind :
        (s : ℕ)
        → end ≤ s
        → s < last
        → get_or result.0.body (s - ret.start) [] ≡ overlay blocks content s
    pub others : (s : ℕ) → last ≤ s → overlay result.1 content s ≡ overlay blocks content s

  Joined-moved :
      {ret : MemBlock} {blocks : List MemBlock} {end last last' : ℕ}
      {result : MemBlock × List MemBlock}
      → last ≡ last'
      → absorb ret blocks end last' ≡ result
      → Joined ret blocks end last' result
      → Joined ret blocks end last (absorb ret blocks end last)
  Joined-moved e e' j = rw (e, e') j

  -- The first block reaches beyond the write: what is behind the write is copied from it.
  module _ (ret tmp : MemBlock) (blocks : List MemBlock) (end from : ℕ)
      (a : Apart from (tmp ∷ blocks)) (f : Full (tmp ∷ blocks)) (l : ret.start < end)
      (meets : tmp.start ≤ end) (longer : end < tmp.start + tmp.sectors) where
    tail : List Sector
    tail = take (tmp.start + tmp.sectors - end) (drop (end - tmp.start) tmp.body)

    with_tail : MemBlock
    with_tail = record ret { body = copy_into ret.body (end - ret.start) tail }

    absorb-with_tail : absorb ret (tmp ∷ blocks) end (tmp.start + tmp.sectors) ≡ (with_tail, blocks)
    unfolding absorb with_tail tail Apart
    absorb-with_tail =
        rw (taken, ends, reaches, first, second, third)
          (absorb_behind with_tail blocks end (tmp.start + tmp.sectors + 1)
            (tmp.start + tmp.sectors) a.2 (omega arith))
      where
        ends : block_end tmp ≡ tmp.start + tmp.sectors
        ends = (block_end-le from tmp blocks a).0

        small : tmp.start + tmp.sectors < 2 ^ 62
        small = (block_end-le from tmp blocks a).1

        taken : ltb tmp.start (tmp.start + tmp.sectors) ≡ true
        taken = ground (arith, a.1)

        reaches : ltb end (tmp.start + tmp.sectors) ≡ true
        reaches = ground arith

        first : sub64 end ret.start ≡ end - ret.start
        first = omega (arith, small, longer, l)

        second : sub64 (tmp.start + tmp.sectors) end ≡ tmp.start + tmp.sectors - end
        second = omega (arith, small, longer)

        third : sub64 end tmp.start ≡ end - tmp.start
        third = omega (arith, small, longer, meets)

    length-tail : length tail ≡ tmp.start + tmp.sectors - end
    unfolding tail Full
    length-tail = omega (
      arith,
      length-take (tmp.start + tmp.sectors - end) (drop (end - tmp.start) tmp.body),
      length-drop (end - tmp.start) tmp.body,
      f.0,
    )

    with_tail-Joined :
        length ret.body ≡ tmp.start + tmp.sectors - ret.start
        → Joined ret (tmp ∷ blocks) end (tmp.start + tmp.sectors) (with_tail, blocks)
    unfolding with_tail tail Full overlay
    with_tail-Joined whole = record {
      whole = length-copy_into ret.body (end - ret.start) tail room;
      full = f.1;
      front = λ s h u.
          get_or-copy_into_front ret.body (end - ret.start) tail room (s - ret.start)
            (omega (arith, h, u));
      behind = λ s h u.
          get_or-copy_into_self ret.body (end - ret.start) tail room (s - ret.start)
            (omega (arith, h)) (omega (arith, h, u, length-tail, l))
          ∙ ap (λ (k : ℕ). get_or tail k []) (omega (arith, h, l))
          ∙ get_or-take (tmp.start + tmp.sectors - end) (drop (end - tmp.start) tmp.body) (s - end)
              [] (omega (arith, h, u))
          ∙ get_or-drop (end - tmp.start) tmp.body (s - end) []
          ∙ ap (λ (k : ℕ). get_or tmp.body k []) (omega (arith, h, meets))
          ∙ sym (held_here s (omega (arith, h, meets)) u);
      others = λ s h. sym (not_here s h);
    }
      where
        room : end - ret.start + length tail ≤ length ret.body
        room = omega (arith, whole, length-tail, l, longer)

        held_here :
            (s : ℕ)
            → tmp.start ≤ s
            → s < tmp.start + tmp.sectors
            → overlay (tmp ∷ blocks) content s ≡ get_or tmp.body (s - tmp.start) []
        held_here s h u = ground arith

        not_here :
            (s : ℕ)
            → tmp.start + tmp.sectors ≤ s
            → overlay (tmp ∷ blocks) content s ≡ overlay blocks content s
        not_here s h = ground arith

  -- The loop takes in the blocks up to the last sector that overlaps or touches the write.
  pub absorb-Joined :
      (ret : MemBlock) (blocks : List MemBlock) (end from : ℕ)
      → Apart from blocks
      → Full blocks
      → ret.start ≤ from
      → ret.start < end
      → end < 2 ^ 62
      → length ret.body ≡ last_sector blocks end - ret.start
      → Joined ret blocks end
          (last_sector blocks end)
          (absorb ret blocks end (last_sector blocks end))
  unfolding absorb last_sector Apart Full overlay
  absorb-Joined ret [] end from a f low l room whole = record {
    whole = refl;
    full = tt;
    front = λ s h u. refl;
    behind = λ s h u. absurd (omega (arith, h, u));
    others = λ s h. refl;
  }
  absorb-Joined ret (tmp ∷ blocks) end from a f low l room whole =
      elim (dec_le end (tmp.start + tmp.sectors)) [
        | yes reach ↦ elim (dec_le tmp.start end) [
          | yes meets ↦
              let e : last_sector (tmp ∷ blocks) end ≡ tmp.start + tmp.sectors =
                ground (arith, ends) in
              elim (dec_lt end (tmp.start + tmp.sectors)) [
                | yes longer ↦
                    Joined-moved e (absorb-with_tail ret tmp blocks end from a f l meets longer) (
                      with_tail-Joined ret tmp blocks end from a f l meets longer
                        (whole ∙ ap (λ (k : ℕ). k - ret.start) e))
                | no exact ↦ Joined-moved e (exactly (omega (arith, exact, reach))) (record {
                  whole = refl;
                  full = f.1;
                  front = λ s h u. refl;
                  behind = λ s h u. absurd (omega (arith, exact, h, u));
                  others = λ s h. sym (not_here s h);
                })
              ]
          | no apart ↦ Joined-moved (ground (arith, ends)) (beyond (omega (arith, apart))) (record {
            whole = refl;
            full = f;
            front = λ s h u. refl;
            behind = λ s h u. absurd (omega (arith, h, u));
            others = λ s h. refl;
          })
        ]
        | no short ↦
            let last = last_sector blocks end in
            let e : last_sector (tmp ∷ blocks) end ≡ last = ground (arith, ends) in
            let later : Joined ret blocks end last (absorb ret blocks end last) =
              absorb-Joined ret blocks end (tmp.start + tmp.sectors + 1) a.2 f.1
                (omega (arith, low, a.0)) l room (whole ∙ ap (λ (k : ℕ). k - ret.start) e) in
            Joined-moved e (goes_on (omega (arith, short))) (record {
              whole = later.whole;
              full = later.full;
              front = later.front;
              behind = λ s h u. later.behind s h u ∙ sym (not_here s (omega (arith, short, h)));
              others = λ s h. later.others s h ∙ sym (not_here s (omega (arith, short, h, covers)));
            })
      ]
    where
      ends : block_end tmp ≡ tmp.start + tmp.sectors
      ends = (block_end-le from tmp blocks a).0

      covers : end ≤ last_sector blocks end
      covers =
          (absorbed ret.start (tmp.start + tmp.sectors + 1) blocks end 0 a.2
            (omega (arith, low, a.0)) l room).covers

      not_here :
          (s : ℕ)
          → tmp.start + tmp.sectors ≤ s
          → overlay (tmp ∷ blocks) content s ≡ overlay blocks content s
      not_here s h = ground arith

      exactly :
          end ≡ tmp.start + tmp.sectors
          → absorb ret (tmp ∷ blocks) end (tmp.start + tmp.sectors) ≡ (ret, blocks)
      exactly h = ground (
        arith,
        ends,
        a.1,
        absorb_behind ret blocks end (tmp.start + tmp.sectors + 1) (tmp.start + tmp.sectors) a.2
            (omega arith),
      )

      beyond : end < tmp.start → absorb ret (tmp ∷ blocks) end end ≡ (ret, tmp ∷ blocks)
      beyond h = ground arith

      goes_on :
          tmp.start + tmp.sectors < end
          → absorb ret (tmp ∷ blocks) end (last_sector blocks end)
            ≡ absorb ret blocks end (last_sector blocks end)
      goes_on h = ground (arith, ends, covers)
