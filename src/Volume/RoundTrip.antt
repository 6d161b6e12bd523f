-- ===== src/Volume/RoundTrip.antt =====
-- What is written to memory by mfsvol_write_data is read back by mfsvol_read_data.
use mfstools.Base.{
  ℕ, ◌+◌, ◌-◌, ◌*◌, ◌/◌, ◌%◌, ◌≤◌, ◌<◌, ◌^◌, ◌≡◌, refl, Option, some, none, List, [], ◌∷◌, arith,
  length, sub64, u32, get_or, inl, inr, if◌then◌else◌, Bool-cases, ap, ◌∙◌,
}
use mfstools.Spans.{sectors_from_agree}
use mfstools.Volume.Blocks.{Sector, mem_write}
use mfstools.Volume.{VolumeInfo, VolumeHandle, holds, get_volume}
use mfstools.Volume.Held.{Apart, within}
use mfstools.Volume.MemWrite.{mem_write-Written}
use mfstools.Volume.Writing.{in_memory, write_blocks, write_volume, write_data}
use mfstools.Volume.Reading.{PartitionRead, read_sectors, read_data}
use mfstools.Volume.Overlay.{Full, overlay, Reads}
use mfstools.Volume.ReadBack.{read_data-overlay}
use mfstools.Volume.Taking.{Overwritten}
use mfstools.Volume.Overwriting.{mem_write-Overwritten}

module _ {File : Type 0} (junk : Sector) where
  -- The volume that takes a write in its blocks.
  abbrev pub with_write : Option (VolumeInfo File) → ℕ → List Sector → Option (VolumeInfo File)
  with_write none sector buf = none
  with_write (some vol) sector buf =
      some (record vol { mem_blocks = mem_write junk vol.mem_blocks (sub64 sector vol.start) buf })

  get_volume-write_blocks :
      (volumes : List (VolumeInfo File)) (sector : ℕ) (buf : List Sector)
      → get_volume (write_blocks junk volumes sector buf) sector
        ≡ with_write (get_volume volumes sector) sector buf
  unfolding get_volume write_blocks
  get_volume-write_blocks [] sector buf = refl
  get_volume-write_blocks (first ∷ volumes) sector buf = elim (Bool-cases (holds sector first)) [
    | inl e ↦ ground (arith, e)
    | inr e ↦ ground (arith, e, get_volume-write_blocks volumes sector buf)
  ]

  -- In a mode with vwLocal, whether or not the volume was opened read-only: at least one sector and
  -- fewer than 2 ^ 22, within the volume of the first, are written to its blocks in memory, which are
  -- apart and have their memory. The number of bytes is returned, reading the same sectors gives them
  -- back, and the blocks stay so, with every other sector of the volume as it was.
  pub read_data-write_data :
      (partition_read : PartitionRead File) (content : ℕ → Sector) (hnd : VolumeHandle File)
      (vol : VolumeInfo File) (sector : ℕ) (buf : List Sector)
      → Reads partition_read vol.file vol.sectors content
      → hnd.write_mode / 2 % 2 ≡ 1
      → get_volume hnd.volumes sector ≡ some vol
      → Apart 0 vol.mem_blocks
      → Full vol.mem_blocks
      → 0 < length buf
      → length buf < 2 ^ 22
      → sub64 sector vol.start + length buf ≤ vol.sectors
      → vol.sectors < 2 ^ 62
      → (volumes : List (VolumeInfo File)) × (vol' : VolumeInfo File) × (write_data junk hnd sector
            buf
          ≡ in_memory volumes (length buf * 512))
        × (read_data partition_read volumes sector (length buf) ≡ read_sectors buf)
        × (get_volume volumes sector ≡ some vol')
        × Apart 0 vol'.mem_blocks
        × Overwritten content vol.mem_blocks (sub64 sector vol.start) buf vol'.mem_blocks
  unfolding write_data write_volume
  read_data-write_data partition_read content hnd vol sector buf reads local found apart full pos
        few fits small =
      (
        write_blocks junk hnd.volumes sector buf,
        vol',
        rw (found, write_data) (ground (arith, local, bytes)),
        read_data-overlay partition_read content (write_blocks junk hnd.volumes sector buf) vol'
              sector (length buf)
              (record { amount = reads.amount; some_read = reads.some_read; gives = reads.gives })
              here still_apart over.full fits small few
            ∙ ap read_sectors (
                sectors_from_agree (overlay vol'.mem_blocks content) offset buf
                  (λ i h. over.reads (offset + i) ∙ among i h)),
        here,
        still_apart,
        over,
      )
    where
      offset : ℕ
      offset = sub64 sector vol.start

      vol' : VolumeInfo File
      vol' = record vol { mem_blocks = mem_write junk vol.mem_blocks (sub64 sector vol.start) buf }

      here : get_volume (write_blocks junk hnd.volumes sector buf) sector ≡ some vol'
      here =
          get_volume-write_blocks hnd.volumes sector buf ∙ ap (λ o. with_write o sector buf) found

      bytes : u32 (length buf * 512) ≡ length buf * 512
      bytes = omega (arith, few)

      still_apart : Apart 0 vol'.mem_blocks
      still_apart =
          (mem_write-Written junk 0 vol.mem_blocks offset buf 0 apart (omega arith) pos
            (omega (arith, fits, small))).apart

      over : Overwritten content vol.mem_blocks offset buf vol'.mem_blocks
      over =
          mem_write-Overwritten junk content offset buf pos (omega (arith, fits, small)) 0
            vol.mem_blocks apart full (omega arith)

      among :
          (i : ℕ)
          → i < length buf
          → (if within offset (offset + length buf) (offset + i)
              then get_or buf (offset + i - offset) []
              else overlay vol.mem_blocks content (offset + i))
            ≡ get_or buf i []
      among i h =
          let e : offset + i - offset ≡ i = omega arith in
          ground (arith, h, ap (λ (k : ℕ). get_or buf k []) e)
