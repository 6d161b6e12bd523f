-- ===== src/Inode/Directory/Entries.antt =====
-- The entries of a directory as they are laid out are the entries that mfs_dir reads.
use mfstools.Base.{
  ℕ, zero, suc, ◌+◌, ◌-◌, ◌*◌, ◌/◌, ◌^◌, ◌<◌, ◌≡◌, refl, ap, ap₂, ◌∙◌, Bool, true, Option, none,
  some, List, [], ◌∷◌, ◌++◌, arith, ltb, get_or, drop, replicate, length, length-append,
  length-replicate,
}
use mfstools.Util.{intswap16, intswap32}
use mfstools.Util.Swaps.{intswap32_twice}
use mfstools.Crc.{word_at, word_bytes}
use mfstools.Inode.Runs.Slices.{append_assoc}
use mfstools.Inode.Directory.{
  Dirent, c_string, half_at, entry_words, parse_dir, count_entries, entry_at, read_entries,
}
use mfstools.Inode.Directory.Layout.{
  NoZero, words_of, c_string-append, word_at-word_bytes, drop-word_bytes, drop-append_exact,
}

module _ (mfs_lsb arch_lsb : Bool) where
  -- An entry in memory.
  unfoldable pub entry_bytes : Dirent → List ℕ
  entry_bytes e =
      word_bytes arch_lsb (intswap32 mfs_lsb arch_lsb e.fsid)
      ++ (4 * words_of e.name
          ∷ e.type
          ∷ (e.name ++ 0 ∷ replicate (4 * words_of e.name - (length e.name + 7)) 0))

  unfoldable pub dir_bytes : List Dirent → List ℕ
  unfolding entry_bytes
  dir_bytes [] = []
  dir_bytes (e ∷ es) = entry_bytes e ++ dir_bytes es

  -- Entries that the format can hold: 32-bit fsids, and names whose length fits its byte.
  pub record IsEntry (e : Dirent) : Type 0 where
    pub small_fsid : e.fsid < 2 ^ 32
    pub short_name : length e.name < 246
    pub plain_name : NoZero e.name

  unfoldable pub AreEntries : List Dirent → Type 0
  AreEntries [] = Unit
  AreEntries (e ∷ es) = IsEntry e × AreEntries es

  unfoldable pub total_words : List Dirent → ℕ
  total_words [] = 0
  total_words (e ∷ es) = words_of e.name + total_words es

  -- What stands behind the word of the fsid.
  behind : Dirent → List ℕ
  behind e =
      4 * words_of e.name
      ∷ e.type
      ∷ (e.name ++ 0 ∷ replicate (4 * words_of e.name - (length e.name + 7)) 0)

  regroup :
      (e : Dirent) (rest : List ℕ)
      → entry_bytes e ++ rest
        ≡ word_bytes arch_lsb (intswap32 mfs_lsb arch_lsb e.fsid) ++ (behind e ++ rest)
  unfolding entry_bytes behind
  regroup e rest =
      append_assoc (word_bytes arch_lsb (intswap32 mfs_lsb arch_lsb e.fsid)) (behind e) rest

  entry_at-append :
      (e : Dirent) (rest : List ℕ)
      → IsEntry e
      → entry_at mfs_lsb arch_lsb (entry_bytes e ++ rest) ≡ e
  unfolding entry_at behind
  entry_at-append e rest h =
      ap (entry_at mfs_lsb arch_lsb) (regroup e rest)
      ∙ ap₂ (λ f (rest' : ℕ × List ℕ). record { fsid = f; type = rest'.0; name = rest'.1 }) fsid_eq
          (ap₂ (λ (t : ℕ) (n : List ℕ). (t, n)) parts.1
            (ap c_string parts.2
              ∙ ap c_string (append_assoc e.name (0 ∷ pad) rest)
              ∙ c_string-append e.name (pad ++ rest) h.plain_name))
    where
      pad : List ℕ
      pad = replicate (4 * words_of e.name - (length e.name + 7)) 0

      parts :
          (get_or
              (word_bytes arch_lsb (intswap32 mfs_lsb arch_lsb e.fsid) ++ (behind e ++ rest))
              4
              0
            ≡ get_or (behind e ++ rest) 0 0)
          × (get_or
                (word_bytes arch_lsb (intswap32 mfs_lsb arch_lsb e.fsid) ++ (behind e ++ rest))
                5
                0
              ≡ get_or (behind e ++ rest) 1 0)
          × (drop 6 (word_bytes arch_lsb (intswap32 mfs_lsb arch_lsb e.fsid) ++ (behind e ++ rest))
              ≡ drop 2 (behind e ++ rest))
          × (drop 4 (word_bytes arch_lsb (intswap32 mfs_lsb arch_lsb e.fsid) ++ (behind e ++ rest))
              ≡ drop 0 (behind e ++ rest))
      parts = drop-word_bytes arch_lsb (intswap32 mfs_lsb arch_lsb e.fsid) 0 (behind e ++ rest)

      fsid_eq :
          intswap32 mfs_lsb arch_lsb (
            word_at arch_lsb
              (word_bytes arch_lsb (intswap32 mfs_lsb arch_lsb e.fsid) ++ (behind e ++ rest))
              0)
          ≡ e.fsid
      fsid_eq =
          ap (intswap32 mfs_lsb arch_lsb) (
            word_at-word_bytes arch_lsb (intswap32 mfs_lsb arch_lsb e.fsid) (behind e ++ rest)
              (intswap32_twice mfs_lsb arch_lsb e.fsid h.small_fsid).1)
          ∙ (intswap32_twice mfs_lsb arch_lsb e.fsid h.small_fsid).0

  drop-entry_bytes :
      (e : Dirent) (rest : List ℕ)
      → (entry_words (entry_bytes e ++ rest) ≡ words_of e.name)
        × (drop (4 * words_of e.name) (entry_bytes e ++ rest) ≡ rest)
  unfolding behind
  drop-entry_bytes e rest = (
    ap entry_words (regroup e rest)
        ∙ ap (λ (t : ℕ). t / 4)
            (drop-word_bytes arch_lsb (intswap32 mfs_lsb arch_lsb e.fsid) 0 (behind e ++ rest)).0
        ∙ omega arith,
    ap₂ (λ (k : ℕ) (t : List ℕ). drop k t) four (regroup e rest)
        ∙ (drop-word_bytes arch_lsb (intswap32 mfs_lsb arch_lsb e.fsid) size (behind e ++ rest)).3
        ∙ drop-append_exact size (behind e) rest measured,
  )
    where
      size : ℕ
      size = 4 * words_of e.name - 4

      four : 4 * words_of e.name ≡ suc (suc (suc (suc size)))
      four = omega arith

      pad : ℕ
      pad = 4 * words_of e.name - (length e.name + 7)

      measured : length (behind e) ≡ size
      measured =
          omega (arith, length-append e.name (0 ∷ replicate pad 0), length-replicate {A = ℕ} pad 0)

  count_entries_lem :
      (fuel : ℕ) (es : List Dirent) (rest : List ℕ) (p limit : ℕ)
      → limit ≡ p + total_words es
      → total_words es < fuel
      → count_entries mfs_lsb arch_lsb fuel (dir_bytes es ++ rest) p limit ≡ some (length es)
  unfolding count_entries dir_bytes total_words
  count_entries_lem zero es rest p limit e h = absurd (omega arith)
  count_entries_lem (suc fuel) [] rest p limit e h = ground (arith, e)
  count_entries_lem (suc fuel) (d ∷ es) rest p limit e h = rw (more) (
      ap counted (
        ap₂ (λ (at : List ℕ) (q : ℕ). count_entries mfs_lsb arch_lsb fuel at q limit) tail place
        ∙ count_entries_lem fuel es rest (p + words_of d.name) limit (omega (arith, e))
            (omega arith)))
    where
      counted : Option ℕ → Option ℕ
      counted o = elim o [ none ↦ none | some n ↦ some (suc n) ]

      parts :
          (entry_words ((entry_bytes d ++ dir_bytes es) ++ rest) ≡ words_of d.name)
          × (drop (4 * words_of d.name) ((entry_bytes d ++ dir_bytes es) ++ rest)
              ≡ dir_bytes es ++ rest)
      parts =
          let grouped : (entry_bytes d ++ dir_bytes es) ++ rest
              ≡ entry_bytes d ++ (dir_bytes es ++ rest) =
            append_assoc (entry_bytes d) (dir_bytes es) rest in
          let here = drop-entry_bytes d (dir_bytes es ++ rest) in
          (ap entry_words grouped ∙ here.0, ap (λ t. drop (4 * words_of d.name) t) grouped ∙ here.1)

      tail :
          drop
            (4 * entry_words ((entry_bytes d ++ dir_bytes es) ++ rest))
            ((entry_bytes d ++ dir_bytes es) ++ rest)
          ≡ dir_bytes es ++ rest
      tail =
          ap (λ (k : ℕ). drop (4 * k) ((entry_bytes d ++ dir_bytes es) ++ rest)) parts.0 ∙ parts.1

      place : p + entry_words ((entry_bytes d ++ dir_bytes es) ++ rest) ≡ p + words_of d.name
      place = ap (λ (k : ℕ). p + k) parts.0

      more : ltb p limit ≡ true
      more = ground (arith, e)

  read_entries_lem :
      (es : List Dirent) (rest : List ℕ)
      → AreEntries es
      → read_entries mfs_lsb arch_lsb (length es) (dir_bytes es ++ rest) ≡ es
  unfolding read_entries dir_bytes AreEntries
  read_entries_lem [] rest h = refl
  read_entries_lem (d ∷ es) rest h =
      ap₂ ◌∷◌
        (ap (entry_at mfs_lsb arch_lsb) grouped ∙ entry_at-append d (dir_bytes es ++ rest) h.0)
        (ap (read_entries mfs_lsb arch_lsb (length es)) tail ∙ read_entries_lem es rest h.1)
    where
      grouped : (entry_bytes d ++ dir_bytes es) ++ rest ≡ entry_bytes d ++ (dir_bytes es ++ rest)
      grouped = append_assoc (entry_bytes d) (dir_bytes es) rest

      tail :
          drop
            (4 * entry_words ((entry_bytes d ++ dir_bytes es) ++ rest))
            ((entry_bytes d ++ dir_bytes es) ++ rest)
          ≡ dir_bytes es ++ rest
      tail =
          ap (λ t. drop (4 * entry_words t) t) grouped
          ∙ ap (λ (k : ℕ). drop (4 * k) (entry_bytes d ++ (dir_bytes es ++ rest)))
              (drop-entry_bytes d (dir_bytes es ++ rest)).0
          ∙ (drop-entry_bytes d (dir_bytes es ++ rest)).1

  -- Reading a directory's data gives back the entries that are laid out in it, in order, whatever
  -- stands behind them: for fsids of 32 bits, names without the byte 0 that are shorter than 246
  -- bytes, a size in the first two bytes that counts the words of the header and the entries, and
  -- fuel for as many entries as there are words.
  pub parse_dir-dir_bytes :
      (fuel h0 h1 h2 h3 : ℕ) (es : List Dirent) (rest : List ℕ)
      → AreEntries es
      → intswap16 mfs_lsb arch_lsb (half_at arch_lsb (h0 ∷ h1 ∷ h2 ∷ h3 ∷ []) 0) / 4
        ≡ 1 + total_words es
      → total_words es < fuel
      → parse_dir mfs_lsb arch_lsb fuel (h0 ∷ h1 ∷ h2 ∷ h3 ∷ (dir_bytes es ++ rest)) ≡ some es
  unfolding parse_dir
  parse_dir-dir_bytes fuel h0 h1 h2 h3 es rest h e enough =
      rw
        (
          count_entries_lem fuel es rest 1
              (intswap16 mfs_lsb arch_lsb (half_at arch_lsb (h0 ∷ h1 ∷ h2 ∷ h3 ∷ []) 0) / 4) e
              enough,
          parse_dir,
        )
        (ap some (read_entries_lem es rest h))
