-- ===== src/Inode/Directory/Paths.antt =====
-- mfs_resolve: from a path to an fsid, through the directories.
use mfstools.Base.{
  ℕ, ◌≡◌, refl, ap, ◌∙◌, Bool, true, false, ◌&&◌, Option, none, some, List, [], ◌∷◌, ◌++◌, arith,
  ◌==◌, if◌then◌else◌, get_or,
}
use mfstools.Inode.Directory.{Dirent, ty_dir, Listing, endless, no_dir, entries}

-- `strcmp (a, b) == 0`
unfoldable pub same_name : List ℕ → List ℕ → Bool
same_name [] [] = true
same_name [] (b ∷ bs) = false
same_name (a ∷ as') [] = false
same_name (a ∷ as') (b ∷ bs) = a == b && same_name as' bs

-- The pieces that strtok_r makes of a path at its slashes; none of them is empty. `cur` is the piece
-- that is being read.
abbrev pub emit : List ℕ → List (List ℕ) → List (List ℕ)
emit [] pieces = pieces
emit (c ∷ cur) pieces = (c ∷ cur) ∷ pieces

unfoldable pub tokens_from : List ℕ → List ℕ → List (List ℕ)
tokens_from cur [] = emit cur []
tokens_from cur (c ∷ path) =
    let rest = tokens_from [] path in
    let longer = tokens_from (cur ++ c ∷ []) path in if c == b'/' then emit cur rest else longer

-- What mfs_resolve returns; `unending` if a directory's loops do not end.
pub data Resolved : Type 0 where
  unending : Resolved
  resolved : ℕ → Resolved

-- The search for a name in a directory.
unfoldable pub find_entry : List ℕ → List Dirent → Option Dirent
unfolding same_name
find_entry tok [] = none
find_entry tok (e ∷ es) = if same_name tok e.name then some e else find_entry tok es

module _ (dir : ℕ → Listing) where
  -- The loop over the pieces. A name that is no directory must be the last one.
  unfoldable pub walk : ℕ → List (List ℕ) → Resolved
  unfolding find_entry
  walk fsid [] = resolved fsid
  walk fsid (tok ∷ toks) = elim (dir fsid) [
    | endless ↦ unending
    | no_dir ↦ resolved 0
    | entries es ↦ elim (find_entry tok es) [
      | none ↦ resolved 0
      | some e ↦
          let further = walk e.fsid toks in
          let last : Resolved = elim toks [ [] ↦ resolved e.fsid | ◌∷◌ t ts ↦ resolved 0 ] in
          if e.type == ty_dir then further else last
    ]
  ]

  -- mfs_resolve: a path that does not start with a slash is a number.
  unfoldable pub mfs_resolve : (List ℕ → ℕ) → List ℕ → Resolved
  unfolding walk tokens_from
  mfs_resolve atoi path =
      if get_or path 0 0 == b'/' then walk 1 (tokens_from [] path) else resolved (atoi path)

  -- Directories that lie one in another by the names of a list.
  pub data Leads : ℕ → List (List ℕ) → ℕ → Type 0 where
    here : {fsid : ℕ} → Leads fsid [] fsid
    enter :
        {fsid target : ℕ} {tok : List ℕ} {toks : List (List ℕ)} {es : List Dirent} {e : Dirent}
        → dir fsid ≡ entries es
        → find_entry tok es ≡ some e
        → e.type ≡ ty_dir
        → Leads e.fsid toks target
        → Leads fsid (tok ∷ toks) target

  walk-append :
      {fsid target : ℕ} {toks : List (List ℕ)} (more : List (List ℕ))
      → Leads fsid toks target
      → walk fsid (toks ++ more) ≡ walk target more
  unfolding walk
  walk-append more here = refl
  walk-append more (enter {e = e} listed named is_dir leads) =
      rw (listed, walk) (rw (named) (ground (arith, is_dir, walk-append more leads)))

  tokens_from-append :
      (cur a b : List ℕ) → tokens_from cur (a ++ b'/' ∷ b) ≡ tokens_from cur a ++ tokens_from [] b
  unfolding tokens_from
  tokens_from-append [] [] b = refl
  tokens_from-append (c ∷ cur) [] b = refl
  tokens_from-append cur (c ∷ a) b = ground (
    arith,
    tokens_from-append [] a b,
    tokens_from-append (cur ++ c ∷ []) a b,
    emit-append cur (tokens_from [] a) (tokens_from [] b),
  )
    where
      emit-append : (cur : List ℕ) (p q : List (List ℕ)) → emit cur (p ++ q) ≡ emit cur p ++ q
      emit-append [] p q = refl
      emit-append (c ∷ cur) p q = refl

  -- A path into a directory, a slash and a second path are resolved as the second path from that
  -- directory on: to the fsid of what it names there, or to 0 or no end when that is what looking
  -- it up there gives. Repeated slashes make no difference.
  pub mfs_resolve-append :
      (atoi : List ℕ → ℕ) (a b : List ℕ) (target : ℕ)
      → Leads 1 (tokens_from [] a) target
      → mfs_resolve atoi (b'/' ∷ (a ++ b'/' ∷ b)) ≡ walk target (tokens_from [] b)
  unfolding mfs_resolve tokens_from
  mfs_resolve-append atoi a b target leads =
      ap (walk 1) (tokens_from-append [] a b) ∙ walk-append (tokens_from [] b) leads
