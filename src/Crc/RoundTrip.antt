-- ===== src/Crc/RoundTrip.antt =====
-- A checksum that mfs_update_crc has stored is one that mfs_check_crc accepts.
use mfstools.Base.{
  ℕ, zero, suc, ◌+◌, ◌-◌, ◌*◌, ◌/◌, ◌%◌, ◌^◌, ◌≤◌, ◌<◌, ◌≡◌, refl, sym, ap, ap₂, ◌∙◌, Bool, true,
  false, arith, List, [], ◌∷◌, ltb, lt→ltb, ==_iff, ◌⊎◌, if◌then◌else◌, u32, sub32, get_or, length,
}
use mfstools.Util.{intswap32}
use mfstools.Util.Swaps.{intswap32_twice}
use mfstools.Crc.{
  updc32, crc_loop, filler, word_at, word_bytes, overwrite, store, mfs_compute_crc, mfs_check_crc,
  mfs_update_crc,
}

overwrite-nil : (bytes : List ℕ) → overwrite bytes [] ≡ bytes
unfolding overwrite
overwrite-nil [] = refl
overwrite-nil (b ∷ bytes) = refl

-- Within four bytes of the end of its count, the loop does not look at the bytes.
crc_loop_skips :
    (mfs_lsb : Bool) (b : ℕ) (bytes : List ℕ) (off crc : ℕ)
    → off < 4
    → crc_loop mfs_lsb (b ∷ bytes) off crc
      ≡ crc_loop mfs_lsb bytes (sub32 off 1) (updc32 (filler mfs_lsb (3 - off)) crc)
unfolding crc_loop
crc_loop_skips mfs_lsb b bytes off crc h = rw (lt→ltb off 4 h)

crc_loop_reads :
    (mfs_lsb : Bool) (b : ℕ) (bytes : List ℕ) (off crc : ℕ)
    → 3 < off
    → off < 2 ^ 32
    → crc_loop mfs_lsb (b ∷ bytes) off crc ≡ crc_loop mfs_lsb bytes (off - 1) (updc32 b crc)
unfolding crc_loop
crc_loop_reads mfs_lsb b bytes off crc h h' = ap₂ (crc_loop mfs_lsb bytes) less (ground arith)
  where
    less : sub32 off 1 ≡ off - 1
    less = omega arith

crc_loop-overwrite :
    (mfs_lsb : Bool) (bytes : List ℕ) (n : ℕ) (new : List ℕ) (off crc : ℕ)
    → off ≡ length new
    → off < 4
    → crc_loop mfs_lsb (overwrite bytes (n ∷ new)) off crc ≡ crc_loop mfs_lsb bytes off crc
unfolding overwrite
crc_loop-overwrite mfs_lsb [] n new off crc e h = refl
crc_loop-overwrite mfs_lsb (b ∷ bytes) n [] off crc e h =
    crc_loop_skips mfs_lsb n (overwrite bytes []) off crc h
    ∙ ap (λ l. crc_loop mfs_lsb l (sub32 off 1) (updc32 (filler mfs_lsb (3 - off)) crc))
        (overwrite-nil bytes)
    ∙ sym (crc_loop_skips mfs_lsb b bytes off crc h)
crc_loop-overwrite mfs_lsb (b ∷ bytes) n (m ∷ new) off crc e h =
    crc_loop_skips mfs_lsb n (overwrite bytes (m ∷ new)) off crc h
    ∙ crc_loop-overwrite mfs_lsb bytes m new (sub32 off 1) (updc32 (filler mfs_lsb (3 - off)) crc)
        (omega arith) (omega arith)
    ∙ sym (crc_loop_skips mfs_lsb b bytes off crc h)

-- The bytes of the checksum do not count towards it.
crc_loop-store :
    (mfs_lsb : Bool) (i : ℕ) (bytes : List ℕ) (a b c d off crc : ℕ)
    → off ≡ i + 3
    → off < 2 ^ 32
    → crc_loop mfs_lsb (store bytes i (a ∷ b ∷ c ∷ d ∷ [])) off crc ≡ crc_loop mfs_lsb bytes off crc
unfolding store
crc_loop-store mfs_lsb zero bytes a b c d off crc e h =
    crc_loop-overwrite mfs_lsb bytes a (b ∷ c ∷ d ∷ []) off crc (omega arith) (omega arith)
crc_loop-store mfs_lsb (suc i) [] a b c d off crc e h = refl
crc_loop-store mfs_lsb (suc i) (x ∷ bytes) a b c d off crc e h =
    crc_loop_reads mfs_lsb x (store bytes i (a ∷ b ∷ c ∷ d ∷ [])) off crc (omega arith) h
    ∙ crc_loop-store mfs_lsb i bytes a b c d (off - 1) (updc32 x crc) (omega arith) (omega arith)
    ∙ sym (crc_loop_reads mfs_lsb x bytes off crc (omega arith) h)

-- What was stored is read back.
get_or-store :
    (i : ℕ) (bytes new : List ℕ) (j : ℕ)
    → i + length new ≤ length bytes
    → j < length new
    → get_or (store bytes i new) (i + j) 0 ≡ get_or new j 0
unfolding store
get_or-store zero bytes new j h l =
    ap (λ k. get_or (overwrite bytes new) k 0) whole ∙ read bytes new j h l
  where
    whole : 0 + j ≡ j
    whole = omega arith

    read :
        (bytes new : List ℕ) (j : ℕ)
        → 0 + length new ≤ length bytes
        → j < length new
        → get_or (overwrite bytes new) j 0 ≡ get_or new j 0
    read bytes [] j h l = absurd (omega arith)
    read [] (n ∷ new) j h l = absurd (omega arith)
    read (b ∷ bytes) (n ∷ new) zero h l = refl
    read (b ∷ bytes) (n ∷ new) (suc j) h l = read bytes new j (omega arith) (omega arith)
get_or-store (suc i) [] new j h l = absurd (omega arith)
get_or-store (suc i) (b ∷ bytes) new j h l =
    ap (λ k. get_or (b ∷ store bytes i new) k 0) whole ∙ get_or-store i bytes new j (omega arith) l
  where
    whole : suc i + j ≡ suc (i + j)
    whole = omega arith

past :
    (bytes new : List ℕ) (k : ℕ)
    → length new ≤ k
    → get_or (overwrite bytes new) k 0 ≡ get_or bytes k 0
unfolding overwrite
past [] new k h = refl
past (b ∷ bytes) [] k h = refl
past (b ∷ bytes) (n ∷ new) zero h = absurd (omega arith)
past (b ∷ bytes) (n ∷ new) (suc k) h = past bytes new k (omega arith)

-- A store leaves the bytes before and behind it alone.
untouched :
    (i : ℕ) (bytes new : List ℕ) (k : ℕ)
    → (k < i) ⊎ (i + length new ≤ k)
    → get_or (store bytes i new) k 0 ≡ get_or bytes k 0
unfolding store
untouched zero bytes new k h = past bytes new k (omega arith)
untouched (suc i) [] new k h = refl
untouched (suc i) (b ∷ bytes) new zero h = refl
untouched (suc i) (b ∷ bytes) new (suc k) h = untouched i bytes new k (omega arith)

four_reads :
    (i : ℕ) (bytes : List ℕ) (a b c d : ℕ)
    → i + 4 ≤ length bytes
    → let stored = store bytes i (a ∷ b ∷ c ∷ d ∷ []) in
      (get_or stored i 0 ≡ a)
      × (get_or stored (i + 1) 0 ≡ b)
      × (get_or stored (i + 2) 0 ≡ c)
      × (get_or stored (i + 3) 0 ≡ d)
four_reads i bytes a b c d h = (
  ap (λ k. get_or (store bytes i (a ∷ b ∷ c ∷ d ∷ [])) k 0) whole
      ∙ get_or-store i bytes (a ∷ b ∷ c ∷ d ∷ []) 0 h (omega arith),
  get_or-store i bytes (a ∷ b ∷ c ∷ d ∷ []) 1 h (omega arith),
  get_or-store i bytes (a ∷ b ∷ c ∷ d ∷ []) 2 h (omega arith),
  get_or-store i bytes (a ∷ b ∷ c ∷ d ∷ []) 3 h (omega arith),
)
  where
    whole : i ≡ i + 0
    whole = omega arith

word_at-store :
    (arch_lsb : Bool) (bytes : List ℕ) (off n : ℕ)
    → 4 * off + 4 ≤ length bytes
    → n < 2 ^ 32
    → word_at arch_lsb (store bytes (4 * off) (word_bytes arch_lsb n)) off ≡ n
unfolding word_at word_bytes
word_at-store true bytes off n h small = omega (
  arith,
  four_reads (4 * off) bytes (n % 2 ^ 8) (n / 2 ^ 8 % 2 ^ 8) (n / 2 ^ 16 % 2 ^ 8)
      (n / 2 ^ 24 % 2 ^ 8) h,
)
word_at-store false bytes off n h small = omega (
  arith,
  four_reads (4 * off) bytes (n / 2 ^ 24 % 2 ^ 8) (n / 2 ^ 16 % 2 ^ 8) (n / 2 ^ 8 % 2 ^ 8)
      (n % 2 ^ 8) h,
)

updc32-lt : (octet crc : ℕ) → updc32 octet crc < 2 ^ 32
unfolding updc32
updc32-lt octet crc = omega arith

crc_loop-lt :
    (mfs_lsb : Bool) (bytes : List ℕ) (off crc : ℕ)
    → crc < 2 ^ 32
    → crc_loop mfs_lsb bytes off crc < 2 ^ 32
unfolding crc_loop
crc_loop-lt mfs_lsb [] off crc h = h
crc_loop-lt mfs_lsb (b ∷ bytes) off crc h = crc_loop-lt mfs_lsb bytes (sub32 off 1) _ next
  where
    next : (if ltb off 4 then updc32 (filler mfs_lsb (3 - off)) crc else updc32 b crc) < 2 ^ 32
    next = ground (arith, updc32-lt (filler mfs_lsb (3 - off)) crc, updc32-lt b crc)

mfs_compute_crc-store :
    (mfs_lsb arch_lsb : Bool) (bytes : List ℕ) (off n : ℕ)
    → off * 4 + 3 < 2 ^ 32
    → mfs_compute_crc mfs_lsb arch_lsb (store bytes (4 * off) (word_bytes arch_lsb n)) off
      ≡ mfs_compute_crc mfs_lsb arch_lsb bytes off
unfolding mfs_compute_crc word_bytes
mfs_compute_crc-store mfs_lsb true bytes off n h = ap (intswap32 mfs_lsb true) (
    crc_loop-store mfs_lsb (4 * off) bytes _ _ _ _ (u32 (off * 4 + 3)) 0 (omega arith)
      (omega arith))
mfs_compute_crc-store mfs_lsb false bytes off n h = ap (intswap32 mfs_lsb false) (
    crc_loop-store mfs_lsb (4 * off) bytes _ _ _ _ (u32 (off * 4 + 3)) 0 (omega arith)
      (omega arith))

-- After mfs_update_crc, mfs_check_crc accepts the data, on either kind of drive and machine, if the
-- word of the checksum lies within it.
pub check-update :
    (mfs_lsb arch_lsb : Bool) (bytes : List ℕ) (off : ℕ)
    → 4 * off + 4 ≤ length bytes
    → off * 4 + 3 < 2 ^ 32
    → mfs_check_crc mfs_lsb arch_lsb (mfs_update_crc mfs_lsb arch_lsb bytes off) off ≡ true
unfolding mfs_check_crc mfs_update_crc
check-update mfs_lsb arch_lsb bytes off h h' = (==_iff _ _).1 (
    word_at-store arch_lsb bytes off (mfs_compute_crc mfs_lsb arch_lsb bytes off) h crc_fits
    ∙ sym (
        mfs_compute_crc-store mfs_lsb arch_lsb bytes off
          (mfs_compute_crc mfs_lsb arch_lsb bytes off) h'))
  where
    crc_fits : mfs_compute_crc mfs_lsb arch_lsb bytes off < 2 ^ 32
    crc_fits =
        unfold mfs_compute_crc in
        (intswap32_twice mfs_lsb arch_lsb _
          (crc_loop-lt mfs_lsb bytes (u32 (off * 4 + 3)) 0 (omega arith))).1

-- mfs_update_crc changes no byte outside the word of the checksum.
pub get_or-update_ne :
    (mfs_lsb arch_lsb : Bool) (bytes : List ℕ) (off k : ℕ)
    → (k < 4 * off) ⊎ (4 * off + 4 ≤ k)
    → get_or (mfs_update_crc mfs_lsb arch_lsb bytes off) k 0 ≡ get_or bytes k 0
unfolding mfs_update_crc
get_or-update_ne mfs_lsb arch_lsb bytes off k outside = untouched (4 * off) bytes _ k (
    ground
      (arith, outside, length-word_bytes arch_lsb (mfs_compute_crc mfs_lsb arch_lsb bytes off)))
  where
    length-word_bytes : (arch_lsb : Bool) (n : ℕ) → length (word_bytes arch_lsb n) ≡ 4
    length-word_bytes true n = unfold word_bytes in refl
    length-word_bytes false n = unfold word_bytes in refl
