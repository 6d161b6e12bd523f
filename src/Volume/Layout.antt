-- ===== src/Volume/Layout.antt =====
-- The volumes of a set lie one behind the other, and what mfsvol_get_volume and
-- mfsvol_volume_set_size find in such a set.
use mfstools.Base.{
  ℕ, ◌+◌, ◌^◌, ◌≤◌, ◌<◌, ◌≡◌, refl, sym, ap, ◌∙◌, none, some, List, [], ◌∷◌, ◌++◌, if◌then◌else◌,
  arith, add64,
}
use native.Mathlib.Decide.{dec_lt}
use mfstools.Volume.{VolumeInfo, holds, get_volume, volume_set_size, next_start}

module _ {File : Type 0} where
  -- The volumes follow one another from a sector on, none is empty, and no sector number wraps.
  unfoldable pub Tiled : ℕ → List (VolumeInfo File) → Type 0
  Tiled from [] = from < 2 ^ 64
  Tiled from (vol ∷ volumes) =
      (vol.start ≡ from) × (0 < vol.sectors) × Tiled (from + vol.sectors) volumes

  pub Tiled-le : (from : ℕ) (volumes : List (VolumeInfo File)) → Tiled from volumes → from < 2 ^ 64
  unfolding Tiled
  Tiled-le from [] t = t
  Tiled-le from (vol ∷ volumes) t = omega (arith, Tiled-le (from + vol.sectors) volumes t.2)

  pub next_start-cons :
      (from : ℕ) (vol : VolumeInfo File) (volumes : List (VolumeInfo File))
      → Tiled from (vol ∷ volumes)
      → add64 vol.start vol.sectors ≡ from + vol.sectors
  unfolding Tiled
  next_start-cons from vol volumes t = omega (arith, t.0, Tiled-le (from + vol.sectors) volumes t.2)

  pub volume_set_size-next_start :
      (from : ℕ) (volumes : List (VolumeInfo File))
      → Tiled from volumes
      → volume_set_size volumes from ≡ next_start volumes from
  unfolding Tiled volume_set_size next_start
  volume_set_size-next_start from [] t = refl
  volume_set_size-next_start from (vol ∷ volumes) t =
      ap (λ s. volume_set_size volumes s) (ap (λ s. add64 s vol.sectors) (sym t.0) ∙ e)
      ∙ volume_set_size-next_start (from + vol.sectors) volumes t.2
      ∙ ap (λ s. next_start volumes s) (sym e)
    where
      e : add64 vol.start vol.sectors ≡ from + vol.sectors
      e = next_start-cons from vol volumes t

  pub next_start-ge :
      (from : ℕ) (volumes : List (VolumeInfo File))
      → Tiled from volumes
      → (from ≤ next_start volumes from) × (next_start volumes from < 2 ^ 64)
  unfolding Tiled next_start
  next_start-ge from [] t = (omega arith, t)
  next_start-ge from (vol ∷ volumes) t = rw (next_start-cons from vol volumes t) (
      let later = next_start-ge (from + vol.sectors) volumes t.2 in
      (omega (arith, later.0), later.1))

  pub Tiled-append :
      (from : ℕ) (volumes : List (VolumeInfo File)) (vol : VolumeInfo File)
      → Tiled from volumes
      → vol.start ≡ next_start volumes from
      → 0 < vol.sectors
      → vol.start + vol.sectors < 2 ^ 64
      → Tiled from (volumes ++ vol ∷ [])
  unfolding Tiled next_start
  Tiled-append from [] vol t e pos room = (e, pos, omega (arith, e))
  Tiled-append from (first ∷ volumes) vol t e pos room = (
    t.0,
    t.1,
    Tiled-append (from + first.sectors) volumes vol t.2
        (e ∙ ap (λ s. next_start volumes s) (next_start-cons from first volumes t)) pos room,
  )

  -- The volume behind the others holds exactly what it brings; the others keep theirs.
  pub get_volume-old :
      (from : ℕ) (volumes : List (VolumeInfo File)) (vol : VolumeInfo File) (sector : ℕ)
      → Tiled from volumes
      → vol.start ≡ next_start volumes from
      → sector < next_start volumes from
      → vol.start + vol.sectors < 2 ^ 64
      → get_volume (volumes ++ vol ∷ []) sector ≡ get_volume volumes sector
  unfolding Tiled next_start get_volume
  get_volume-old from [] vol sector t e below room = ground arith
  get_volume-old from (first ∷ volumes) vol sector t e below room =
      ap (λ r. if holds sector first then some first else r)
        (get_volume-old (from + first.sectors) volumes vol sector t.2 (e ∙ step)
          (omega (arith, below, step)) room)
    where
      step :
          next_start volumes (add64 first.start first.sectors)
          ≡ next_start volumes (from + first.sectors)
      step = ap (λ s. next_start volumes s) (next_start-cons from first volumes t)

  pub get_volume-new :
      (from : ℕ) (volumes : List (VolumeInfo File)) (vol : VolumeInfo File) (sector : ℕ)
      → Tiled from volumes
      → vol.start ≡ next_start volumes from
      → vol.start ≤ sector
      → sector < vol.start + vol.sectors
      → vol.start + vol.sectors < 2 ^ 64
      → get_volume (volumes ++ vol ∷ []) sector ≡ some vol
  unfolding Tiled next_start get_volume
  get_volume-new from [] vol sector t e above below room = ground arith
  get_volume-new from (first ∷ volumes) vol sector t e above below room =
      rw (get_volume-new (from + first.sectors) volumes vol sector t.2 (e ∙ step) above below room)
        (ground (
          arith,
          next_start-cons from first volumes t,
          next_start-ge (from + first.sectors) volumes t.2,
          step,
          t.0,
          e,
        ))
    where
      step :
          next_start volumes (add64 first.start first.sectors)
          ≡ next_start volumes (from + first.sectors)
      step = ap (λ s. next_start volumes s) (next_start-cons from first volumes t)

  -- Every sector below the size of the set is found in a volume, and that volume holds it.
  pub get_volume_total :
      (from : ℕ) (volumes : List (VolumeInfo File)) (sector : ℕ)
      → Tiled from volumes
      → from ≤ sector
      → sector < volume_set_size volumes from
      → (vol : VolumeInfo File) × (get_volume volumes sector ≡ some vol)
        × (vol.start ≤ sector)
        × (sector < vol.start + vol.sectors)
  unfolding Tiled get_volume volume_set_size
  get_volume_total from [] sector t above below = absurd (omega arith)
  get_volume_total from (vol ∷ volumes) sector t above below =
      elim (dec_lt sector (from + vol.sectors)) [
        | yes l ↦ (vol, ground (arith, fits, t.0), omega (arith, t.0), omega (arith, t.0))
        | no ge ↦
            let rest =
              get_volume_total (from + vol.sectors) volumes sector t.2 (omega arith)
                (omega (arith, below, ap (λ s. volume_set_size volumes s) same)) in
            (rest.0, passed (omega arith) ∙ rest.1, rest.2, rest.3)
      ]
    where
      fits : add64 vol.start vol.sectors ≡ from + vol.sectors
      fits = next_start-cons from vol volumes t

      same : add64 from vol.sectors ≡ from + vol.sectors
      same = ap (λ s. add64 s vol.sectors) (sym t.0) ∙ fits

      passed :
          from + vol.sectors ≤ sector
          → (if holds sector vol then some vol else get_volume volumes sector)
            ≡ get_volume volumes sector
      passed h = ground (arith, fits)

  pub get_volume-beyond :
      (from : ℕ) (volumes : List (VolumeInfo File)) (sector : ℕ)
      → Tiled from volumes
      → next_start volumes from ≤ sector
      → get_volume volumes sector ≡ none
  unfolding Tiled get_volume next_start
  get_volume-beyond from [] sector t above = refl
  get_volume-beyond from (vol ∷ volumes) sector t above =
      passed
      ∙ get_volume-beyond (from + vol.sectors) volumes sector t.2 (omega (arith, above, step))
    where
      step :
          next_start volumes (add64 vol.start vol.sectors) ≡ next_start volumes (from + vol.sectors)
      step = ap (λ s. next_start volumes s) (next_start-cons from vol volumes t)

      passed :
          (if holds sector vol then some vol else get_volume volumes sector)
          ≡ get_volume volumes sector
      passed = ground (
        arith,
        next_start-cons from vol volumes t,
        next_start-ge (from + vol.sectors) volumes t.2,
        step,
        above,
      )
