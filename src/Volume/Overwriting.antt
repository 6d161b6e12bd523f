-- ===== src/Volume/Overwriting.antt =====
-- What a write to memory leaves at each sector: the one written, or what a read gave before.
use mfstools.Base.{
  ℕ, ◌+◌, ◌-◌, ◌^◌, ◌≤◌, ◌<◌, ◌≡◌, refl, sym, ap, ◌∙◌, List, [], ◌∷◌, if◌then◌else◌, arith, length,
  replicate, length-replicate, length-append, get_or, get_or-append_left, add64, sub64,
}
use native.Mathlib.Decide.{dec_lt, dec_le}
use mfstools.Volume.Blocks.{
  Sector, MemBlock, block_end, copy_into, last_sector, absorb, finish, grown, fresh, write_here,
  mem_write,
}
use mfstools.Volume.Held.{
  Apart, within, Apart-le, block_end-le, rest_of, absorb-rest_of, Absorbed, absorbed,
}
use mfstools.Volume.Overlay.{Full, overlay, overlay_before}
use mfstools.Volume.Bodies.{
  length-copy_into, get_or-copy_into_front, get_or-copy_into_self, get_or-copy_into_behind,
  absorb-Joined,
}
use mfstools.Volume.Taking.{Overwritten, finish-Overwritten}

module _ (junk : Sector) (content : ℕ → Sector) where
  module _ (sector : ℕ) (buf : List Sector) (pos : 0 < length buf)
      (room : sector + length buf < 2 ^ 62) where
    abbrev end : ℕ
    end = sector + length buf

    fresh-Overwritten :
        (low : ℕ) (blocks : List MemBlock)
        → Apart low blocks
        → Full blocks
        → sector ≤ low
        → Overwritten content blocks sector buf (
            finish
              (absorb
                (fresh junk sector (last_sector blocks end))
                blocks
                end
                (last_sector blocks end))
              sector
              buf)
    unfolding fresh
    fresh-Overwritten low blocks a f l = finish-Overwritten content buf (record {
      joins =
          absorb-Joined content (fresh junk sector last) blocks end low a f l (omega arith) room
            length_fresh;
      same_start = same.1;
      same_sectors = same.2 ∙ sectors_eq;
      whole = length_fresh;
      covers = r.covers;
      starts = omega arith;
      small = small;
      separate = rw (same.0) r.separate;
      lower = λ s h. overlay_before low blocks content s a (omega (arith, h, l));
      kept = λ s h u. absurd (omega (arith, h, u));
      upper = λ s h. refl;
    })
      where
        last : ℕ
        last = last_sector blocks end

        result : MemBlock × List MemBlock
        result = absorb (fresh junk sector last) blocks end last

        r : Absorbed sector blocks end 0 last (rest_of blocks last)
        r = absorbed sector low blocks end 0 a l (omega arith) room

        small : last < 2 ^ 62
        small = omega (arith, Apart-le (last + 1) (rest_of blocks last) r.separate)

        sectors_eq : sub64 last sector ≡ last - sector
        sectors_eq = omega (arith, small, r.behind)

        length_fresh : length (fresh junk sector last).body ≡ last - sector
        length_fresh = length-replicate (sub64 last sector) junk ∙ sectors_eq

        same :
            (result.1 ≡ rest_of blocks last)
            × (result.0.start ≡ sector)
            × (result.0.sectors ≡ sub64 last sector)
        same = absorb-rest_of (fresh junk sector last) blocks end last

    grown-Overwritten :
        (from : ℕ) (block : MemBlock) (blocks : List MemBlock)
        → Apart from (block ∷ blocks)
        → Full (block ∷ blocks)
        → block.start ≤ sector
        → sector ≤ block.start + block.sectors
        → block.start + block.sectors < end
        → Overwritten content (block ∷ blocks) sector buf (
            finish
              (absorb
                (grown junk block (last_sector blocks end))
                blocks
                end
                (last_sector blocks end))
              sector
              buf)
    unfolding grown Apart Full overlay
    grown-Overwritten from block blocks a f l reach short = finish-Overwritten content buf (record {
      joins =
          absorb-Joined content (grown junk block last) blocks end (block.start + block.sectors + 1)
            a.2 f.1 (omega arith) (omega arith) room length_grown;
      same_start = same.1;
      same_sectors = same.2 ∙ sectors_eq;
      whole = length_grown;
      covers = r.covers;
      starts = l;
      small = small;
      separate = rw (same.0) r.separate;
      lower =
          λ s h. overlay_before block.start (block ∷ blocks) content s (omega arith, a.1, a.2) h;
      kept = λ s h u.
          get_or-append_left block.body _ (s - block.start) [] (omega (arith, f.0, h, u, reach))
          ∙ sym (held_here s h (omega (arith, u, reach)));
      upper = λ s h. sym (not_here s (omega (arith, h, short)));
    })
      where
        last : ℕ
        last = last_sector blocks end

        result : MemBlock × List MemBlock
        result = absorb (grown junk block last) blocks end last

        r : Absorbed block.start blocks end 0 last (rest_of blocks last)
        r =
            absorbed block.start (block.start + block.sectors + 1) blocks end 0 a.2 (omega arith)
              (omega arith) room

        small : last < 2 ^ 62
        small = omega (arith, Apart-le (last + 1) (rest_of blocks last) r.separate)

        sectors_eq : sub64 last block.start ≡ last - block.start
        sectors_eq = omega (arith, small, r.behind)

        length_grown : length (grown junk block last).body ≡ last - block.start
        length_grown =
            length-append block.body (replicate (sub64 last block.start - length block.body) junk)
            ∙ omega (
              arith,
              length-replicate (sub64 last block.start - length block.body) junk,
              sectors_eq,
              f.0,
              r.covers,
              short,
            )

        same :
            (result.1 ≡ rest_of blocks last)
            × (result.0.start ≡ block.start)
            × (result.0.sectors ≡ sub64 last block.start)
        same = absorb-rest_of (grown junk block last) blocks end last

        held_here :
            (s : ℕ)
            → block.start ≤ s
            → s < block.start + block.sectors
            → overlay (block ∷ blocks) content s ≡ get_or block.body (s - block.start) []
        held_here s h u = ground arith

        not_here :
            (s : ℕ)
            → block.start + block.sectors ≤ s
            → overlay (block ∷ blocks) content s ≡ overlay blocks content s
        not_here s h = ground arith

    inside-Overwritten :
        (from : ℕ) (block : MemBlock) (blocks : List MemBlock)
        → Apart from (block ∷ blocks)
        → Full (block ∷ blocks)
        → block.start ≤ sector
        → end ≤ block.start + block.sectors
        → Overwritten content
            (block ∷ blocks)
            sector
            buf
            (record block { body = copy_into block.body (sub64 sector block.start) buf } ∷ blocks)
    unfolding Apart Full overlay
    inside-Overwritten from block blocks a f l reach = rw (place_eq) (record {
      full = (length-copy_into block.body place buf fits ∙ f.0, f.1);
      reads = λ s.
          at s (dec_lt s sector) (dec_lt s end) (dec_lt s block.start)
            (dec_lt s (block.start + block.sectors));
    })
      where
        place : ℕ
        place = sector - block.start

        place_eq : sub64 sector block.start ≡ sector - block.start
        place_eq = omega (arith, room, l)

        fits : place + length buf ≤ length block.body
        fits = omega (arith, f.0, l, reach)

        body : List Sector
        body = copy_into block.body place buf

        at :
            (s : ℕ)
            → Dec (s < sector)
            → Dec (s < end)
            → Dec (s < block.start)
            → Dec (s < block.start + block.sectors)
            → (if within block.start (block.start + block.sectors) s
                then get_or body (s - block.start) []
                else overlay blocks content s)
              ≡ (if within sector end s
                  then get_or buf (s - sector) []
                  else if within block.start (block.start + block.sectors) s
                  then get_or block.body (s - block.start) []
                  else overlay blocks content s)
        at s (yes h) d (yes h') d' = ground (arith, h, h')
        at s (yes h) d (no h') d' =
            let e : get_or body (s - block.start) [] ≡ get_or block.body (s - block.start) [] =
              get_or-copy_into_front block.body place buf fits (s - block.start)
                (omega (arith, h, h')) in
            ground (arith, h, h', e, reach, pos)
        at s (no h) (yes u) d d' =
            let e : get_or body (s - block.start) [] ≡ get_or buf (s - sector) [] =
              get_or-copy_into_self block.body place buf fits (s - block.start) (omega (arith, h))
                (omega (arith, h, u, l))
              ∙ ap (λ (k : ℕ). get_or buf k []) (omega (arith, h, l)) in
            ground (arith, h, u, e, reach, l)
        at s (no h) (no u) d (yes h') =
            let e : get_or body (s - block.start) [] ≡ get_or block.body (s - block.start) [] =
              get_or-copy_into_behind block.body place buf fits (s - block.start)
                (omega (arith, u, l)) in
            ground (arith, h, u, h', e)
        at s (no h) (no u) d (no h') = ground (arith, h, u, h')

    Overwritten-moved :
        {blocks result result' : List MemBlock}
        → result ≡ result'
        → Overwritten content blocks sector buf result'
        → Overwritten content blocks sector buf result
    Overwritten-moved e w = rw e w

    write_here-Overwritten :
        (from : ℕ) (block : MemBlock) (blocks : List MemBlock)
        → Apart from (block ∷ blocks)
        → Full (block ∷ blocks)
        → sector ≤ block.start + block.sectors
        → Overwritten content
            (block ∷ blocks)
            sector
            buf
            (write_here junk (block ∷ blocks) sector buf)
    unfolding write_here Apart Full last_sector
    write_here-Overwritten from block blocks a f meets = elim (dec_le block.start sector) [
      | yes l ↦ elim (dec_le end (block.start + block.sectors)) [
        | yes reach ↦
            Overwritten-moved (ground (arith, ends, end_eq))
              (inside-Overwritten from block blocks a f l reach)
        | no short ↦
            Overwritten-moved
              (ground (arith, ends, end_eq) ∙ ap finished end_eq ∙ ap taken (passed (omega arith)))
              (grown-Overwritten from block blocks a f l meets (omega arith))
      ]
      | no before ↦
          Overwritten-moved (ground arith ∙ ap fresh_at end_eq)
            (fresh-Overwritten block.start (block ∷ blocks) (omega arith, a.1, a.2) f (omega arith))
    ]
      where
        ends : block_end block ≡ block.start + block.sectors
        ends = (block_end-le from block blocks a).0

        end_eq : add64 sector (length buf) ≡ end
        end_eq = omega (arith, room)

        finished : ℕ → List MemBlock
        finished e =
            finish
              (absorb (grown junk block (last_sector (block ∷ blocks) e)) blocks e
                (last_sector (block ∷ blocks) e))
              sector buf

        taken : ℕ → List MemBlock
        taken last = finish (absorb (grown junk block last) blocks end last) sector buf

        fresh_at : ℕ → List MemBlock
        fresh_at e =
            finish
              (absorb (fresh junk sector (last_sector (block ∷ blocks) e)) (block ∷ blocks) e
                (last_sector (block ∷ blocks) e))
              sector buf

        passed :
            block.start + block.sectors < end
            → last_sector (block ∷ blocks) end ≡ last_sector blocks end
        passed short = ground (arith, ends)

    -- Writing sectors to blocks that are apart and have their memory.
    pub mem_write-Overwritten :
        (from : ℕ) (blocks : List MemBlock)
        → Apart from blocks
        → Full blocks
        → from ≤ sector
        → Overwritten content blocks sector buf (mem_write junk blocks sector buf)
    unfolding mem_write write_here last_sector Apart Full overlay
    mem_write-Overwritten from [] a f h =
        Overwritten-moved (ap at_end (omega (arith, room)))
          (fresh-Overwritten sector [] (omega (arith, room)) tt (omega arith))
      where
        at_end : ℕ → List MemBlock
        at_end e = finish (absorb (fresh junk sector e) [] e e) sector buf
    mem_write-Overwritten from (block ∷ blocks) a f h =
        elim (dec_lt (block.start + block.sectors) sector) [
          | yes passed ↦
              let later =
                mem_write-Overwritten (block.start + block.sectors + 1) blocks a.2 f.1
                  (omega arith) in
              Overwritten-moved {result' = block ∷ mem_write junk blocks sector buf}
                (ground (arith, ends))
                (record { full = (f.0, later.full); reads = λ s. ground (arith, later.reads s) })
          | no meets ↦
              Overwritten-moved (ground (arith, ends))
                (write_here-Overwritten from block blocks a f (omega arith))
        ]
      where
        ends : block_end block ≡ block.start + block.sectors
        ends = (block_end-le from block blocks a).0
