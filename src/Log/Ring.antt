-- ===== src/Log/Ring.antt =====
-- What is written to the ring of log sectors is read back at its stamp, and at no other.
use mfstools.Base.{
  ℕ, ◌+◌, ◌-◌, ◌%◌, ◌^◌, ◌≤◌, ◌<◌, ◌≡◌, ◌≢◌, inl, refl, sym, ap, ap₂, ◌∙◌, Bool, true, false, not,
  ◌&&◌, [], ◌∷◌, arith, leb, ltb, ◌==◌, if◌then◌else◌, get_or, length,
}
use native.Mathlib.Nat.{mod-lt}
use mfstools.Crc.{word_at, mfs_check_crc, mfs_update_crc}
use mfstools.Crc.RoundTrip.{check-update, get_or-update_ne}
use mfstools.Util.{intswap32}
use mfstools.Inode.{Sector, Drive, field}
use mfstools.Inode.Runs.Reading.{Serves}
use mfstools.Inode.Runs.Stored.{Stores}
use mfstools.Log.{
  LogArea, log_stamp_to_sector, logstamp_word, crc_word, LogRead, other_stamp, wrong_checksum,
  log_sector, log_read, log_write,
}

-- The checksum stands behind the stamp.
field-update :
    (mfs_lsb arch_lsb : Bool) (buf : Sector)
    → field mfs_lsb arch_lsb logstamp_word (mfs_update_crc mfs_lsb arch_lsb buf crc_word)
      ≡ field mfs_lsb arch_lsb logstamp_word buf
unfolding word_at
field-update mfs_lsb arch_lsb buf = ap (intswap32 mfs_lsb arch_lsb) (same arch_lsb)
  where
    kept :
        (k : ℕ) → k < 4 → get_or (mfs_update_crc mfs_lsb arch_lsb buf crc_word) k 0 ≡ get_or buf k 0
    kept k h = get_or-update_ne mfs_lsb arch_lsb buf crc_word k (inl (omega arith))

    same :
        (machine : Bool)
        → word_at machine (mfs_update_crc mfs_lsb arch_lsb buf crc_word) 0 ≡ word_at machine buf 0
    same true = omega (
      arith,
      kept 0 (omega arith),
      kept 1 (omega arith),
      kept 2 (omega arith),
      kept 3 (omega arith),
    )
    same false = omega (
      arith,
      kept 0 (omega arith),
      kept 1 (omega arith),
      kept 2 (omega arith),
      kept 3 (omega arith),
    )

-- One sector that is written, at its place and elsewhere.
pub over_one :
    (n : ℕ) (copy old : Sector)
    → (if leb n n && ltb n (n + 1) then get_or (copy ∷ []) (n - n) [] else old) ≡ copy
over_one n copy old =
    ap₂ (λ (b : Bool) (k : ℕ). if b then get_or (copy ∷ []) k [] else old) here none_before
  where
    here : (leb n n && ltb n (n + 1)) ≡ true
    here = ground arith

    none_before : n - n ≡ 0
    none_before = omega arith

pub beside_one :
    (n m : ℕ) (copy old : Sector)
    → m ≢ n
    → (if leb n m && ltb m (n + 1) then get_or (copy ∷ []) (m - n) [] else old) ≡ old
beside_one n m copy old ne = ground (arith, ne)

module _ {S : Type 0} (drive : Drive S) (size : ℕ) (content : S → ℕ → Sector)
    (small : size < 2 ^ 64) (stores : Stores drive size content)
    (serves : (s : S) → Serves drive s size (content s)) (mfs_lsb arch_lsb : Bool) (area : LogArea)
    (some_sectors : 0 < area.nsectors) (inside : area.start + area.nsectors ≤ size) where
  place_eq :
      (logstamp : ℕ) → log_stamp_to_sector area logstamp ≡ logstamp % area.nsectors + area.start
  unfolding log_stamp_to_sector
  place_eq logstamp = omega (arith, small, inside, mod-lt logstamp some_sectors)

  place-lt : (logstamp : ℕ) → log_stamp_to_sector area logstamp + 1 ≤ size
  place-lt logstamp = omega (arith, place_eq logstamp, inside, mod-lt logstamp some_sectors)

  -- What a read of the log makes of the sector that stands at its place.
  abbrev judged : ℕ → Sector → LogRead
  judged logstamp buf =
      if not (logstamp == field mfs_lsb arch_lsb logstamp_word buf)
      then other_stamp
      else if not (mfs_check_crc mfs_lsb arch_lsb buf crc_word)
      then wrong_checksum
      else log_sector buf

  log_read-judged :
      (s : S) (logstamp : ℕ)
      → log_read drive mfs_lsb arch_lsb area s logstamp
        ≡ judged logstamp (content s (log_stamp_to_sector area logstamp))
  unfolding log_read
  log_read-judged s logstamp =
      rw ((serves s).reads (log_stamp_to_sector area logstamp) 1 (place-lt logstamp), log_read) refl

  -- On a device that keeps what is written, with a log area that lies within it: a log sector that is
  -- written is read back at its own stamp, with its checksum made right; a stamp that shares its
  -- place in the ring is from then on answered with 0; and every stamp with another place is read as
  -- before.
  pub log_read-log_write :
      (s : S) (buf : Sector) (other : ℕ)
      → length buf ≡ 512
      → let stamp = field mfs_lsb arch_lsb logstamp_word buf in
        let (good, s') = log_write drive mfs_lsb arch_lsb area s buf in
        (good ≡ true)
        × (log_read drive mfs_lsb arch_lsb area s' stamp
            ≡ log_sector (mfs_update_crc mfs_lsb arch_lsb buf crc_word))
        × (other ≢ stamp
            → other % area.nsectors ≡ stamp % area.nsectors
            → log_read drive mfs_lsb arch_lsb area s' other ≡ other_stamp)
        × (other % area.nsectors ≢ stamp % area.nsectors
            → log_read drive mfs_lsb arch_lsb area s' other
              ≡ log_read drive mfs_lsb arch_lsb area s other)
  unfolding log_write
  log_read-log_write s buf other whole = (
    ground (arith, stores.writes s place (copy ∷ []) (place-lt stamp)),
    log_read-judged s' stamp ∙ ap (judged stamp) held ∙ accepted,
    λ ne same.
        log_read-judged s' other
        ∙ ap (judged other) (ap (content s') (same_place same) ∙ held)
        ∙ refused ne,
    λ apart.
        log_read-judged s' other
        ∙ ap (judged other) (untouched apart)
        ∙ sym (log_read-judged s other),
  )
    where
      stamp : ℕ
      stamp = field mfs_lsb arch_lsb logstamp_word buf

      place : ℕ
      place = log_stamp_to_sector area stamp

      copy : Sector
      copy = mfs_update_crc mfs_lsb arch_lsb buf crc_word

      s' : S
      s' = (drive.write s place (copy ∷ [])).1

      held : content s' place ≡ copy
      held =
          stores.holds s place (copy ∷ []) place (place-lt stamp)
          ∙ over_one place copy (content s place)

      accepted : judged stamp copy ≡ log_sector copy
      accepted = ground (
        arith,
        field-update mfs_lsb arch_lsb buf,
        check-update mfs_lsb arch_lsb buf crc_word (omega (arith, whole)) (omega arith),
      )

      refused : other ≢ stamp → judged other copy ≡ other_stamp
      refused ne = ground (arith, field-update mfs_lsb arch_lsb buf, ne)

      same_place :
          other % area.nsectors ≡ stamp % area.nsectors → log_stamp_to_sector area other ≡ place
      same_place e = omega (arith, place_eq other, place_eq stamp, e)

      untouched :
          other % area.nsectors ≢ stamp % area.nsectors
          → content s' (log_stamp_to_sector area other) ≡ content s (log_stamp_to_sector area other)
      untouched apart =
          stores.holds s place (copy ∷ []) (log_stamp_to_sector area other) (place-lt stamp)
          ∙ beside_one place (log_stamp_to_sector area other) copy
              (content s (log_stamp_to_sector area other))
              (λ e. apart (omega (arith, e, place_eq other, place_eq stamp)))
