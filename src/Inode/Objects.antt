-- ===== src/Inode/Objects.antt =====
-- Objects, lib/inode.c: parse_object, parse_subobj and parse_attr call a function on each subobject and
-- each of its attributes; here the calls are listed. Buffers are the bytes from a place on.
pub mod Attributes
use mfstools.Base.{
  ℕ, zero, suc, ◌+◌, ◌-◌, ◌*◌, ◌/◌, ◌%◌, ◌^◌, ◌≤◌, ◌<◌, ◌≡◌, refl, sym, ap, ap₂, ◌∙◌, Bool, true,
  false, Option, none, some, List, [], ◌∷◌, ◌++◌, arith, ltb, if◌then◌else◌, get_or, take, drop,
  replicate, length, length-append, length-replicate, u32,
}
use mfstools.Util.{intswap16, intswap32}
use mfstools.Crc.{word_at}
use mfstools.Inode.Runs.Slices.{append_assoc}
use mfstools.Inode.Directory.{half_at}

-- A call of the function: for a subobject, with its type and id, or for an attribute, with its type and
-- the bytes that its length counts behind the header of four.
pub data Called : Type 0 where
  subobject : ℕ → ℕ → Called
  attribute : ℕ → List ℕ → Called

module _ (mfs_lsb arch_lsb : Bool) where
  abbrev pub half : ℕ → List ℕ → ℕ
  half i at = intswap16 mfs_lsb arch_lsb (half_at arch_lsb at i)

  -- What parse_attr passes on, and what it returns: the length rounded up to words.
  abbrev pub attr_call : List ℕ → Called
  attr_call at = attribute (half 0 at) (take (half 1 at - 4) (drop 4 at))

  abbrev pub attr_size : List ℕ → ℕ
  attr_size at = (half 1 at + 3) / 4 * 4

  -- parse_subobj: the attributes in `len` bytes; `none` if the fuel runs out.
  unfoldable pub parse_subobj : ℕ → List ℕ → ℕ → ℕ → Option (List Called)
  parse_subobj zero at len ofs = none
  parse_subobj (suc fuel) at len ofs =
      let rest = parse_subobj fuel (drop (attr_size at) at) len (ofs + attr_size at) in
      if ltb ofs len
      then elim rest [ none ↦ none | some calls ↦ some (attr_call at ∷ calls) ]
      else some []

  -- The loop of parse_object, with the subobject's header of 16 bytes; `fuel` is for the loop over the
  -- attributes too.
  unfoldable pub parse_subobjs : ℕ → ℕ → List ℕ → ℕ → ℕ → Option (List Called)
  unfolding parse_subobj
  parse_subobjs zero attrs at size ofs = none
  parse_subobjs (suc fuel) attrs at size ofs =
      let rest = parse_subobjs fuel attrs (drop (half 0 at) at) size (u32 (ofs + half 0 at)) in
      let calls : Option (List Called) = elim (parse_subobj attrs (drop 16 at) (half 0 at - 16) 0) [
        | none ↦ none
        | some of_attrs ↦ elim rest [
          | none ↦ none
          | some later ↦ some (
              subobject (half 2 at) (intswap32 mfs_lsb arch_lsb (word_at arch_lsb at 3))
              ∷ (of_attrs ++ later))
        ]
      ] in
      if ltb ofs size then calls else some []

  -- parse_object: the header of 8 bytes holds the size.
  unfoldable pub parse_object : ℕ → ℕ → List ℕ → Option (List Called)
  unfolding parse_subobjs
  parse_object fuel attrs buf =
      parse_subobjs fuel attrs (drop 8 buf) (intswap32 mfs_lsb arch_lsb (word_at arch_lsb buf 1)) 8
