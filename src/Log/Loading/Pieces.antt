-- ===== src/Log/Loading/Pieces.antt =====
-- The bytes of an entry in a sector of the log, and how the reader starts on it.
use mfstools.Base.{
  ℕ, zero, suc, ◌+◌, ◌*◌, ◌%◌, ◌≤◌, ◌<◌, ◌≡◌, refl, sym, ap, ap₂, ◌∙◌, Bool, true, none, some, List,
  [], ◌∷◌, ◌++◌, arith, leb, get_or, if◌then◌else◌, take, drop, length, get_or-take,
}
use mfstools.Util.{intswap16}
use mfstools.Inode.{Sector, field}
use mfstools.Inode.Directory.{half_at}
use mfstools.Inode.Runs.Slices.{append_assoc, take-append_within, take_all, take-drop}
use mfstools.Log.Bytes.{drop-drop}
use mfstools.Log.Loading.{hdr_size, size_word, LogEntry, Reader, start_entry, next_entry}

-- An entry that mfs_log_add_entry can be given: as long as its first half word says, more than that word,
-- and of even length.
pub record IsEntry (mfs_lsb arch_lsb : Bool) (entry : List ℕ) : Type 0 where
  pub says : intswap16 mfs_lsb arch_lsb (half_at arch_lsb entry 0) + 2 ≡ length entry
  pub longer : 2 < length entry
  pub even : length entry % 2 ≡ 0

-- The bytes behind others.
take_behind :
    (c n k : ℕ) (xs before piece : List ℕ)
    → k ≡ c + n
    → take k xs ≡ before ++ piece
    → length before ≡ c
    → take n (drop c xs) ≡ piece
take_behind c n k xs [] piece e h l = rw (here) (ap (λ (j : ℕ). take j xs) all ∙ h)
  where
    here : c ≡ 0
    here = sym l

    all : n ≡ k
    all = omega (arith, e, l)
take_behind c n zero xs (b ∷ before) piece e h l = absurd (omega (arith, e, l))
take_behind c n (suc k) [] (b ∷ before) piece e h l = ground (arith, h)
take_behind zero n (suc k) (x ∷ xs) (b ∷ before) piece e h l = absurd (omega (arith, l))
take_behind (suc c) n (suc k) (x ∷ xs) (b ∷ before) piece e h l =
    take_behind c n k xs before piece (omega (arith, e)) (ap (drop 1) h) (omega (arith, l))

pub take_at :
    (buf : Sector) (c n k : ℕ) (before piece : List ℕ)
    → k ≡ c + n
    → take k (drop hdr_size buf) ≡ before ++ piece
    → length before ≡ c
    → take n (drop (c + hdr_size) buf) ≡ piece
take_at buf c n k before piece e h l =
    ap (λ t. take n t) (sym (drop-drop hdr_size c buf ∙ ap (λ (j : ℕ). drop j buf) turned))
    ∙ take_behind c n k (drop hdr_size buf) before piece e h l
  where
    turned : hdr_size + c ≡ c + hdr_size
    turned = omega arith

-- The bytes in front of others.
pub take_before :
    (k n : ℕ) (xs before more : List ℕ)
    → take k xs ≡ before ++ more
    → length before ≡ n
    → take n xs ≡ before
take_before k n xs before more e l =
    ap (λ t. take n t)
      (sym (take-drop k xs) ∙ ap (λ t. t ++ drop k xs) e ∙ append_assoc before more (drop k xs))
    ∙ take-append_within n before (more ++ drop k xs) (omega (arith, l))
    ∙ take_all n before (omega (arith, l))

-- The first half word is in the first two bytes.
half_at-take :
    (arch_lsb : Bool) (n : ℕ) (xs ys : List ℕ)
    → 2 ≤ n
    → take n xs ≡ take n ys
    → half_at arch_lsb xs 0 ≡ half_at arch_lsb ys 0
half_at-take arch_lsb n xs ys h e =
    ap₂ (λ (a b : ℕ). if arch_lsb then a + 256 * b else b + 256 * a) (same 0 (omega arith))
      (same 1 (omega arith))
  where
    same : (i : ℕ) → i < 2 → get_or xs i 0 ≡ get_or ys i 0
    same i l =
        sym (get_or-take n xs i 0 (omega arith))
        ∙ ap (λ t. get_or t i 0) e
        ∙ get_or-take n ys i 0 (omega arith)

-- `cur` is pending: some bytes are copied, and `left` are not.
abbrev pub pending : List LogEntry → ℕ → List ℕ → ℕ → Reader
pending entries stamp bytes left = record {
  entries = entries;
  cur = some (record { logstamp = stamp; bytes = bytes });
  remaining = left;
}

module _ (mfs_lsb arch_lsb : Bool) where
  -- The reader starts on an entry of which the first bytes stand at `curstart`.
  pub start_entry_lem :
      (stamp : ℕ) (buf : Sector) (curstart : ℕ) (entries : List LogEntry) (entry : List ℕ) (n : ℕ)
      → IsEntry mfs_lsb arch_lsb entry
      → 2 ≤ n
      → take n (drop (curstart + hdr_size) buf) ≡ take n entry
      → start_entry mfs_lsb arch_lsb stamp buf curstart entries
        ≡ pending entries stamp [] (length entry)
  unfolding start_entry
  start_entry_lem stamp buf curstart entries entry n w h e = ground (arith, total, w.longer)
    where
      total :
          intswap16 mfs_lsb arch_lsb (half_at arch_lsb (drop (curstart + hdr_size) buf) 0) + 2
          ≡ length entry
      total =
          ap (λ (k : ℕ). intswap16 mfs_lsb arch_lsb k + 2)
            (half_at-take arch_lsb n (drop (curstart + hdr_size) buf) entry h e)
          ∙ w.says

  pub next_entry_room :
      (stamp : ℕ) (buf : Sector) (curstart : ℕ) (entries : List LogEntry)
      → curstart + 2 ≤ field mfs_lsb arch_lsb size_word buf
      → next_entry mfs_lsb arch_lsb stamp buf curstart entries
        ≡ start_entry mfs_lsb arch_lsb stamp buf curstart entries
  unfolding next_entry
  next_entry_room stamp buf curstart entries room = rw (there) refl
    where
      there : leb (curstart + 2) (field mfs_lsb arch_lsb size_word buf) ≡ true
      there = ground (arith, room)

  pub next_entry_lem :
      (stamp : ℕ) (buf : Sector) (curstart : ℕ) (entries : List LogEntry) (entry : List ℕ) (n : ℕ)
      → IsEntry mfs_lsb arch_lsb entry
      → 2 ≤ n
      → curstart + 2 ≤ field mfs_lsb arch_lsb size_word buf
      → take n (drop (curstart + hdr_size) buf) ≡ take n entry
      → next_entry mfs_lsb arch_lsb stamp buf curstart entries
        ≡ pending entries stamp [] (length entry)
  next_entry_lem stamp buf curstart entries entry n w h room e =
      next_entry_room stamp buf curstart entries room
      ∙ start_entry_lem stamp buf curstart entries entry n w h e

  pub next_entry_end :
      (stamp : ℕ) (buf : Sector) (curstart : ℕ) (entries : List LogEntry)
      → field mfs_lsb arch_lsb size_word buf < curstart + 2
      → next_entry mfs_lsb arch_lsb stamp buf curstart entries
        ≡ record { entries = entries; cur = none; remaining = 0 }
  unfolding next_entry
  next_entry_end stamp buf curstart entries past = ground (arith, past)
