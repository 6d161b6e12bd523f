-- ===== src/Inode/Objects/Attributes.antt =====
-- The attributes of a subobject as they are laid out are those that parse_subobj passes on.
use mfstools.Base.{
  ℕ, zero, suc, ◌+◌, ◌-◌, ◌*◌, ◌/◌, ◌%◌, ◌^◌, ◌<◌, ◌≡◌, refl, ap, ap₂, ◌∙◌, Bool, true, false,
  Option, none, some, List, [], ◌∷◌, ◌++◌, arith, ltb, if◌then◌else◌, take, drop, replicate, length,
  length-append, length-replicate,
}
use mfstools.Util.{intswap16}
use mfstools.Util.Swaps.{intswap16_twice}
use mfstools.Inode.Runs.Slices.{append_assoc, take-append_within, take_all, drop-append_past}
use mfstools.Inode.Directory.{half_at}
use mfstools.Inode.Objects.{Called, attribute, half, attr_call, attr_size, parse_subobj}

-- An attribute: `attreltype`, and the bytes behind the header.
pub record Attribute : Type 0 where
  pub type : ℕ
  pub body : List ℕ

-- The bytes of a 16-bit word in memory.
unfoldable pub half_bytes : Bool → ℕ → List ℕ
half_bytes arch_lsb n =
    if arch_lsb then (n % 2 ^ 8) ∷ (n / 2 ^ 8) ∷ [] else (n / 2 ^ 8) ∷ (n % 2 ^ 8) ∷ []

abbrev pub padding : List ℕ → ℕ
padding body = (length body + 7) / 4 * 4 - (length body + 4)

halves_lem :
    (arch_lsb : Bool) (a b : ℕ) (rest : List ℕ)
    → (half_at arch_lsb (half_bytes arch_lsb a ++ (half_bytes arch_lsb b ++ rest)) 0 ≡ a)
      × (half_at arch_lsb (half_bytes arch_lsb a ++ (half_bytes arch_lsb b ++ rest)) 1 ≡ b)
      × (drop 4 (half_bytes arch_lsb a ++ (half_bytes arch_lsb b ++ rest)) ≡ rest)
unfolding half_bytes
halves_lem true a b rest = (omega arith, omega arith, refl)
halves_lem false a b rest = (omega arith, omega arith, refl)

drop_four :
    (arch_lsb : Bool) (a b k : ℕ) (rest : List ℕ)
    → drop (suc (suc (suc (suc k)))) (half_bytes arch_lsb a ++ (half_bytes arch_lsb b ++ rest))
      ≡ drop k rest
unfolding half_bytes
drop_four true a b k rest = refl
drop_four false a b k rest = refl

module _ (mfs_lsb arch_lsb : Bool) where
  unfoldable pub attr_bytes : Attribute → List ℕ
  attr_bytes a =
      half_bytes arch_lsb (intswap16 mfs_lsb arch_lsb a.type)
      ++ (half_bytes arch_lsb (intswap16 mfs_lsb arch_lsb (length a.body + 4))
          ++ (a.body ++ replicate (padding a.body) 0))

  unfoldable pub attrs_bytes : List Attribute → List ℕ
  unfolding attr_bytes
  attrs_bytes [] = []
  attrs_bytes (a ∷ as') = attr_bytes a ++ attrs_bytes as'

  -- The fields fit their 16 bits.
  unfoldable pub AreAttributes : List Attribute → Type 0
  AreAttributes [] = Unit
  AreAttributes (a ∷ as') = (a.type < 2 ^ 16) × (length a.body + 4 < 2 ^ 16) × AreAttributes as'

  unfoldable pub size_of_attrs : List Attribute → ℕ
  size_of_attrs [] = 0
  size_of_attrs (a ∷ as') = (length a.body + 7) / 4 * 4 + size_of_attrs as'

  abbrev pub calls_of : List Attribute → List Called
  calls_of [] = []
  calls_of (a ∷ as') = attribute a.type a.body ∷ calls_of as'

  attr_lem :
      (a : Attribute) (rest : List ℕ)
      → a.type < 2 ^ 16
      → length a.body + 4 < 2 ^ 16
      → (attr_call mfs_lsb arch_lsb (attr_bytes a ++ rest) ≡ attribute a.type a.body)
        × (attr_size mfs_lsb arch_lsb (attr_bytes a ++ rest) ≡ (length a.body + 7) / 4 * 4)
        × (drop ((length a.body + 7) / 4 * 4) (attr_bytes a ++ rest) ≡ rest)
  unfolding attr_bytes
  attr_lem a rest h h' = (
    ap₂ attribute (ap (λ t. half mfs_lsb arch_lsb 0 t) regroup ∙ type_eq) body_eq,
    ap (λ t. attr_size mfs_lsb arch_lsb t) regroup
        ∙ ap (λ (k : ℕ). (k + 3) / 4 * 4) size_eq
        ∙ omega arith,
    ap₂ (λ (k : ℕ) (t : List ℕ). drop k t) four regroup
        ∙ drop_four arch_lsb _ _ (length a.body + padding a.body) (tail ++ rest)
        ∙ drop-append_past (length a.body + padding a.body) tail rest (omega (arith, measured))
        ∙ ap (λ (k : ℕ). drop k rest) none_left,
  )
    where
      tail : List ℕ
      tail = a.body ++ replicate (padding a.body) 0

      measured : length tail ≡ length a.body + padding a.body
      measured = omega (
        arith,
        length-append a.body (replicate (padding a.body) 0),
        length-replicate {A = ℕ} (padding a.body) 0,
      )

      none_left : length a.body + padding a.body - length tail ≡ 0
      none_left = omega (arith, measured)

      laid : List ℕ
      laid =
          half_bytes arch_lsb (intswap16 mfs_lsb arch_lsb a.type)
          ++ (half_bytes arch_lsb (intswap16 mfs_lsb arch_lsb (length a.body + 4))
              ++ (tail ++ rest))

      regroup : attr_bytes a ++ rest ≡ laid
      regroup =
          append_assoc (half_bytes arch_lsb (intswap16 mfs_lsb arch_lsb a.type)) _ rest
          ∙ ap (λ t. half_bytes arch_lsb (intswap16 mfs_lsb arch_lsb a.type) ++ t)
              (append_assoc (half_bytes arch_lsb (intswap16 mfs_lsb arch_lsb (length a.body + 4)))
                tail rest)

      parts :
          (half_at arch_lsb laid 0 ≡ intswap16 mfs_lsb arch_lsb a.type)
          × (half_at arch_lsb laid 1 ≡ intswap16 mfs_lsb arch_lsb (length a.body + 4))
          × (drop 4 laid ≡ tail ++ rest)
      parts =
          halves_lem arch_lsb (intswap16 mfs_lsb arch_lsb a.type)
            (intswap16 mfs_lsb arch_lsb (length a.body + 4)) (tail ++ rest)

      type_eq : half mfs_lsb arch_lsb 0 laid ≡ a.type
      type_eq =
          ap (intswap16 mfs_lsb arch_lsb) parts.0 ∙ (intswap16_twice mfs_lsb arch_lsb a.type h).0

      size_eq : half mfs_lsb arch_lsb 1 laid ≡ length a.body + 4
      size_eq =
          ap (intswap16 mfs_lsb arch_lsb) parts.1
          ∙ (intswap16_twice mfs_lsb arch_lsb (length a.body + 4) h').0

      body_eq :
          take (half mfs_lsb arch_lsb 1 (attr_bytes a ++ rest) - 4) (drop 4 (attr_bytes a ++ rest))
          ≡ a.body
      body_eq =
          ap (λ t. take (half mfs_lsb arch_lsb 1 t - 4) (drop 4 t)) regroup
          ∙ ap₂ (λ (k : ℕ) (t : List ℕ). take (k - 4) t) size_eq
              (parts.2 ∙ append_assoc a.body (replicate (padding a.body) 0) rest)
          ∙ ap (λ (k : ℕ). take k (a.body ++ (replicate (padding a.body) 0 ++ rest))) (omega arith)
          ∙ take-append_within (length a.body) a.body _ (omega arith)
          ∙ take_all (length a.body) a.body (omega arith)

      four : (length a.body + 7) / 4 * 4 ≡ suc (suc (suc (suc (length a.body + padding a.body))))
      four = omega arith

  -- parse_subobj on attributes that are laid out one behind the other, whatever stands behind them,
  -- calls the function on each of them in order, with its type and its bytes: for types of 16 bits,
  -- bodies that leave room for the header in 16 bits, and fuel above the number of attributes.
  pub parse_subobj-attrs_bytes :
      (fuel : ℕ) (as' : List Attribute) (rest : List ℕ) (len ofs : ℕ)
      → AreAttributes as'
      → len ≡ ofs + size_of_attrs as'
      → length as' < fuel
      → parse_subobj mfs_lsb arch_lsb fuel (attrs_bytes as' ++ rest) len ofs ≡ some (calls_of as')
  unfolding parse_subobj AreAttributes size_of_attrs attrs_bytes
  parse_subobj-attrs_bytes zero as' rest len ofs h e enough = absurd (omega arith)
  parse_subobj-attrs_bytes (suc fuel) [] rest len ofs h e enough = ground (arith, e)
  parse_subobj-attrs_bytes (suc fuel) (a ∷ as') rest len ofs h e enough = rw (more) (
      ap with_call (
        ap₂ (λ (t : List ℕ) (k : ℕ). parse_subobj mfs_lsb arch_lsb fuel t len k) tail place
        ∙ parse_subobj-attrs_bytes fuel as' rest len (ofs + (length a.body + 7) / 4 * 4) h.2
            (omega (arith, e)) (omega arith))
      ∙ ap (λ c. some (c ∷ calls_of as')) (ap (attr_call mfs_lsb arch_lsb) grouped ∙ here.0))
    where
      grouped :
          (attr_bytes a ++ attrs_bytes as') ++ rest ≡ attr_bytes a ++ (attrs_bytes as' ++ rest)
      grouped = append_assoc (attr_bytes a) (attrs_bytes as') rest

      here :
          (attr_call mfs_lsb arch_lsb (attr_bytes a ++ (attrs_bytes as' ++ rest))
            ≡ attribute a.type a.body)
          × (attr_size mfs_lsb arch_lsb (attr_bytes a ++ (attrs_bytes as' ++ rest))
              ≡ (length a.body + 7) / 4 * 4)
          × (drop ((length a.body + 7) / 4 * 4) (attr_bytes a ++ (attrs_bytes as' ++ rest))
              ≡ attrs_bytes as' ++ rest)
      here = attr_lem a (attrs_bytes as' ++ rest) h.0 h.1

      size_eq :
          attr_size mfs_lsb arch_lsb ((attr_bytes a ++ attrs_bytes as') ++ rest)
          ≡ (length a.body + 7) / 4 * 4
      size_eq = ap (attr_size mfs_lsb arch_lsb) grouped ∙ here.1

      tail :
          drop
            (attr_size mfs_lsb arch_lsb ((attr_bytes a ++ attrs_bytes as') ++ rest))
            ((attr_bytes a ++ attrs_bytes as') ++ rest)
          ≡ attrs_bytes as' ++ rest
      tail = ap₂ (λ (k : ℕ) (t : List ℕ). drop k t) size_eq grouped ∙ here.2

      place :
          ofs + attr_size mfs_lsb arch_lsb ((attr_bytes a ++ attrs_bytes as') ++ rest)
          ≡ ofs + (length a.body + 7) / 4 * 4
      place = ap (λ (k : ℕ). ofs + k) size_eq

      with_call : Option (List Called) → Option (List Called)
      with_call o = elim o [
        | none ↦ none
        | some calls ↦
            some (attr_call mfs_lsb arch_lsb ((attr_bytes a ++ attrs_bytes as') ++ rest) ∷ calls)
      ]

      more : ltb ofs len ≡ true
      more = ground (arith, e)
