-- ===== src/Volume/Blocks.antt =====
-- The blocks of sectors held in memory by a volume: `struct volume_mem_data`, and the two functions
-- of lib/volume.c that find one. A sector is the list of its 512 bytes; what `malloc` and `realloc`
-- leave in new memory is `junk`, and both are taken to succeed.
use mfstools.Base.{
  ℕ, ◌+◌, ◌-◌, List, [], ◌∷◌, ◌++◌, ltb, leb, if◌then◌else◌, add64, sub64, take, drop, replicate,
  length,
}

abbrev pub Sector : Type 0
Sector = List ℕ

-- `struct volume_mem_data`, with the sectors of its `data`
pub record MemBlock : Type 0 where
  pub start : ℕ
  pub sectors : ℕ
  pub body : List Sector

-- `block->start + block->sectors`
abbrev pub block_end : MemBlock → ℕ
block_end b = add64 b.start b.sectors

-- mfsvol_locate_mem_data_for_read: the list from the block that it returns on.
unfoldable pub locate_for_read : List MemBlock → ℕ → ℕ → List MemBlock
locate_for_read [] sector count = []
locate_for_read (block ∷ blocks) sector count =
    if ltb sector (block_end block)
    then (if ltb block.start (add64 sector count) then block ∷ blocks else [])
    else locate_for_read blocks sector count

-- `memset (…, 0, 512)`
unfoldable pub zero_sector : Sector
zero_sector = replicate 512 0

-- A copy of sectors into a body, from an offset on.
unfoldable pub copy_into : List Sector → ℕ → List Sector → List Sector
copy_into body offset new = take offset body ++ new ++ drop (offset + length new) body

-- The loop for the last sector of the blocks that overlap or butt up against the write.
unfoldable pub last_sector : List MemBlock → ℕ → ℕ
last_sector [] end = end
last_sector (tmp ∷ blocks) end =
    if leb end (block_end tmp)
    then (if leb tmp.start end then block_end tmp else end)
    else last_sector blocks end

-- The loop that takes the blocks behind `ret` in, copying the tail that is not overwritten. `end` is
-- `sector + count`.
unfoldable pub absorb : MemBlock → List MemBlock → ℕ → ℕ → MemBlock × List MemBlock
unfolding copy_into
absorb ret [] end last = (ret, [])
absorb ret (tmp ∷ blocks) end last =
    let tail =
      if ltb end (block_end tmp)
      then record ret {
        body =
            copy_into ret.body (sub64 end ret.start)
              (take (sub64 (block_end tmp) end) (drop (sub64 end tmp.start) tmp.body));
      }
      else ret in
    if ltb tmp.start last then absorb tail blocks end last else (ret, tmp ∷ blocks)

-- The sectors about to be overwritten are zeroed first.
unfoldable pub zero_out : MemBlock → ℕ → ℕ → MemBlock
unfolding copy_into
zero_out ret sector count = record ret {
  body = copy_into ret.body (sub64 sector ret.start) (replicate count zero_sector);
}

-- The end of mfsvol_locate_mem_data_for_write, and the copy by mfsvol_write_data into the block
-- that it returns.
unfoldable pub finish : MemBlock × List MemBlock → ℕ → List Sector → List MemBlock
unfolding zero_out copy_into
finish (ret, rest) sector buf =
    let zeroed = zero_out ret sector (length buf) in
    record zeroed { body = copy_into zeroed.body (sub64 sector zeroed.start) buf } ∷ rest

module _ (junk : Sector) where
  -- The block that is reused and made longer, or the new one.
  unfoldable pub grown : MemBlock → ℕ → MemBlock
  grown block last = record block {
    sectors = sub64 last block.start;
    body = block.body ++ replicate (sub64 last block.start - length block.body) junk;
  }

  unfoldable pub fresh : ℕ → ℕ → MemBlock
  fresh sector last = record {
    start = sector;
    sectors = sub64 last sector;
    body = replicate (sub64 last sector) junk;
  }

  -- mfsvol_locate_mem_data_for_write, with the copy by mfsvol_write_data into the block that it
  -- returns: the blocks that end before the write are passed, and `write_here` does the rest.
  unfoldable pub write_here : List MemBlock → ℕ → List Sector → List MemBlock
  unfolding absorb last_sector grown fresh finish copy_into
  write_here [] sector buf =
      let end = add64 sector (length buf) in
      finish (absorb (fresh sector end) [] end end) sector buf
  write_here (block ∷ blocks) sector buf =
      let end = add64 sector (length buf) in
      let last = last_sector (block ∷ blocks) end in
      if leb block.start sector
      then (if leb end (block_end block)
          then record block { body = copy_into block.body (sub64 sector block.start) buf } ∷ blocks
          else finish (absorb (grown block last) blocks end last) sector buf)
      else finish (absorb (fresh sector last) (block ∷ blocks) end last) sector buf

  unfoldable pub mem_write : List MemBlock → ℕ → List Sector → List MemBlock
  unfolding write_here
  mem_write [] sector buf = write_here [] sector buf
  mem_write (block ∷ blocks) sector buf =
      let later = mem_write blocks sector buf in
      if ltb (block_end block) sector then block ∷ later else write_here (block ∷ blocks) sector buf
