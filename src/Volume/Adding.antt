-- ===== src/Volume/Adding.antt =====
-- What a call of mfsvol_add_volume does to a set of volumes, as mfsvol_get_volume and
-- mfsvol_is_writable see it.
use mfstools.Base.{
  ℕ, ◌+◌, ◌-◌, ◌^◌, ◌<◌, ◌≡◌, refl, sym, ap, ◌∙◌, Bool, true, false, not, Option, none, some, List,
  [], ◌∷◌, ◌++◌, Option-cases, inl, inr, ◌==◌, ltb, ◌||◌, if◌then◌else◌, arith, drop, add64,
}
use native.Mathlib.Decide.{dec_lt}
use mfstools.Base.Bits.{bit_and-le}
use native.Mathlib.Nat.{mod-eq_of_lt}
use mfstools.Volume.{
  VolumeInfo, VolumeHandle, Added, added, not_added, get_volume, volume_set_size, is_writable,
  next_start, round_down, asks_read_only, append_volume, add_volume, vw_normal,
}
use mfstools.Volume.Layout.{
  Tiled, volume_set_size-next_start, Tiled-append, get_volume-old, get_volume-new,
  get_volume-beyond,
}

module _ {File : Type 0} where
  -- The first sector of the volume that is found.
  abbrev pub found_at : Option (VolumeInfo File) → Option ℕ
  found_at none = none
  found_at (some vol) = some vol.start

  -- What a call of mfsvol_add_volume leaves when it adds a volume: the volumes still follow one
  -- another, the start returned is the old size of the set, and any sector is looked for where it
  -- was below the start, in the new volume up to the new size, and nowhere behind that. A sector of
  -- the new volume can be written unless the mode is normal and read-only was asked for.
  unfoldable pub Placed : VolumeHandle File → Bool → ℕ → Added File → Type 0
  Placed hnd read_only sector not_added = Unit
  Placed hnd read_only sector (added hnd' start) =
      Tiled 0 hnd'.volumes
      × (start ≡ volume_set_size hnd.volumes 0)
      × (start < volume_set_size hnd'.volumes 0)
      × (found_at (get_volume hnd'.volumes sector) ≡ (
          if ltb sector start
          then found_at (get_volume hnd.volumes sector)
          else if ltb sector (volume_set_size hnd'.volumes 0)
          then some start
          else none))
      × (is_writable hnd' sector ≡ (
          if ltb sector start
          then is_writable hnd sector
          else if ltb sector (volume_set_size hnd'.volumes 0)
          then not (hnd.write_mode == vw_normal) || not read_only
          else false))

  next_start-append :
      (from : ℕ) (volumes : List (VolumeInfo File)) (vol : VolumeInfo File)
      → next_start (volumes ++ vol ∷ []) from ≡ add64 vol.start vol.sectors
  unfolding next_start
  next_start-append from [] vol = refl
  next_start-append from (first ∷ volumes) vol =
      next_start-append (add64 first.start first.sectors) volumes vol

  added-Placed :
      (hnd : VolumeHandle File) (vol : VolumeInfo File) (sector : ℕ)
      → Tiled 0 hnd.volumes
      → vol.start ≡ next_start hnd.volumes 0
      → 0 < vol.sectors
      → vol.start + vol.sectors < 2 ^ 64
      → Placed hnd vol.read_only sector
          (added (record hnd { volumes = hnd.volumes ++ vol ∷ [] }) (next_start hnd.volumes 0))
  unfolding Placed is_writable
  added-Placed hnd vol sector t e pos room = (
    tiled,
    sym (volume_set_size-next_start 0 hnd.volumes t),
    omega (arith, size, e),
    where_found.0,
    where_found.1,
  )
    where
      tiled : Tiled 0 (hnd.volumes ++ vol ∷ [])
      tiled = Tiled-append 0 hnd.volumes vol t e pos room

      size : volume_set_size (hnd.volumes ++ vol ∷ []) 0 ≡ vol.start + vol.sectors
      size =
          volume_set_size-next_start 0 (hnd.volumes ++ vol ∷ []) tiled
          ∙ next_start-append 0 hnd.volumes vol
          ∙ mod-eq_of_lt room

      hnd' : VolumeHandle File
      hnd' = record hnd { volumes = hnd.volumes ++ vol ∷ [] }

      start : ℕ
      start = next_start hnd.volumes 0

      where_found :
          (found_at (get_volume hnd'.volumes sector) ≡ (
            if ltb sector start
            then found_at (get_volume hnd.volumes sector)
            else if ltb sector (volume_set_size hnd'.volumes 0)
            then some start
            else none))
          × (is_writable hnd' sector ≡ (
              if ltb sector start
              then is_writable hnd sector
              else if ltb sector (volume_set_size hnd'.volumes 0)
              then not (hnd.write_mode == vw_normal) || not vol.read_only
              else false))
      where_found = elim (dec_lt sector start) [
        | yes l ↦
            rw (get_volume-old 0 hnd.volumes vol sector t e l room, is_writable) (ground arith)
        | no ge ↦ elim (dec_lt sector (vol.start + vol.sectors)) [
          | yes l ↦
              rw
                (
                  get_volume-new 0 hnd.volumes vol sector t e (omega (arith, e)) l room,
                  size,
                  is_writable,
                )
                (ground (arith, e))
          | no ge' ↦
              rw
                (
                  get_volume-beyond 0 (hnd.volumes ++ vol ∷ []) sector tiled
                      (omega (arith, size, volume_set_size-next_start 0 hnd'.volumes tiled)),
                  size,
                  is_writable,
                )
                (ground (arith, e))
        ]
      ]

  append_volume-Placed :
      (size_of : File → ℕ) (hnd : VolumeHandle File) (file : File) (read_only : Bool) (sector : ℕ)
      → Tiled 0 hnd.volumes
      → volume_set_size hnd.volumes 0 + size_of file < 2 ^ 64
      → Placed hnd read_only sector (append_volume size_of hnd file read_only)
  unfolding append_volume Placed
  append_volume-Placed size_of hnd file read_only sector t room = go (sectors == 0) refl
    where
      sectors : ℕ
      sectors = round_down (size_of file)

      vol : VolumeInfo File
      vol = record {
        file = file;
        read_only = read_only;
        start = next_start hnd.volumes 0;
        sectors = sectors;
        mem_blocks = [];
      }

      go :
          (empty : Bool)
          → (sectors == 0) ≡ empty
          → Placed hnd read_only sector (
              if empty
              then not_added
              else added
                  (record hnd { volumes = hnd.volumes ++ vol ∷ [] })
                  (next_start hnd.volumes 0))
      go true e = tt
      go false e = added-Placed hnd vol sector t refl (ground arith) (
          omega (
            arith,
            room,
            volume_set_size-next_start 0 hnd.volumes t,
            bit_and-le (size_of file) (size_of file) (2 ^ 64 - 1024) (omega arith),
          ))

  Placed-flag :
      (hnd : VolumeHandle File) (a b : Bool) (sector : ℕ) (result : Added File)
      → (not (hnd.write_mode == vw_normal) || not a) ≡ (not (hnd.write_mode == vw_normal) || not b)
      → Placed hnd a sector result
      → Placed hnd b sector result
  unfolding Placed
  Placed-flag hnd a b sector not_added e placed = tt
  Placed-flag hnd a b sector (added hnd' start) e placed = (
    placed.0,
    placed.1,
    placed.2,
    placed.3,
    placed.4
        ∙ ap
            (λ c.
              if ltb sector start
              then is_writable hnd sector
              else if ltb sector (volume_set_size hnd'.volumes 0)
              then c
              else false)
            e,
  )

  -- When the volumes follow one another from sector 0 and any file that opens leaves room below
  -- 2 ^ 64, mfsvol_add_volume either adds nothing, or leaves volumes that follow one another,
  -- returns the old size of the set, and any sector is then found (and is writable) as before below
  -- that start, in the new volume from there to the new size, and nowhere behind it. The new
  -- volume's sectors are writable unless the write mode is normal and the caller or the path asked
  -- for read-only.
  pub add_volume-Placed :
      (open_file : List ℕ → Bool → Option File) (size_of : File → ℕ) (hnd : VolumeHandle File)
      (path : List ℕ) (read_only : Bool) (sector : ℕ)
      → Tiled 0 hnd.volumes
      → ((file : File) → volume_set_size hnd.volumes 0 + size_of file < 2 ^ 64)
      → Placed hnd
          (asks_read_only path || read_only)
          sector
          (add_volume open_file size_of hnd (some path) read_only)
  unfolding add_volume Placed
  add_volume-Placed open_file size_of hnd path read_only sector t room =
      elim (Option-cases (open_file (if forced then drop 3 path else path) (forced || read_only))) [
        | inl e ↦ rw (e, Placed, add_volume) tt
        | inr opened ↦
            rw (opened.1, Placed, add_volume)
              (Placed-flag hnd (forced || read_only) (asks_read_only path || read_only) sector
                (append_volume size_of hnd opened.0 (forced || read_only)) flags
                (append_volume-Placed size_of hnd opened.0 (forced || read_only) sector t
                  (room opened.0)))
      ]
    where
      forced : Bool
      forced = not (hnd.write_mode == vw_normal) || asks_read_only path

      flags :
          (not (hnd.write_mode == vw_normal) || not (forced || read_only))
          ≡ (not (hnd.write_mode == vw_normal) || not (asks_read_only path || read_only))
      flags = ground arith
