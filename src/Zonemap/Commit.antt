-- ===== src/Zonemap/Commit.antt =====
-- mfs_zone_map_commit and mfs_zone_map_clear_changes of lib/zonemap.c: the zones that were changed are
-- stamped, so that the log entries up to the stamp are not applied again.
use mfstools.Base.{
  ℕ, zero, suc, ◌+◌, ◌%◌, ◌^◌, ◌≤◌, ◌<◌, ◌≡◌, refl, ap, ap₂, ◌∙◌, Bool, true, false, not, ◌&&◌,
  some, List, [], ◌∷◌, arith, ltb, leb, ◌==◌, if◌then◌else◌, set, get_elem?, sub64, add64,
}
use mfstools.Zonemap.Zone.{
  ZoneMap, ChangedRun, Changes, MfsHandle, Lookup, found, refused, ZoneSearch, missing, at,
  find_zone, check_block, zone_for_block, out_of_bounds, crosses_boundary, not_aligned,
}
use mfstools.Zonemap.Update.{updated, update_zone, zone_map_update}
use mfstools.Zonemap.Update.Requests.{update_zone_stale, zone_for_block_lem}

-- The loop of mfs_zone_map_clear_changes over the first levels, `n` of them.
unfoldable pub clear_runs : ℕ → List (List ChangedRun) → List (List ChangedRun)
clear_runs zero runs = runs
clear_runs (suc n) [] = []
clear_runs (suc n) (level ∷ runs) = [] ∷ clear_runs n runs

unfoldable pub clear_counts : ℕ → List Changes → List Changes
clear_counts zero changes = changes
clear_counts (suc n) [] = []
clear_counts (suc n) (level ∷ changes) =
    record { allocated = 0; freed = 0 } ∷ clear_counts n changes

-- mfs_zone_map_clear_changes
unfoldable pub clear_changes : ZoneMap → ZoneMap
unfolding clear_runs clear_counts
clear_changes zone = record zone {
  changed_runs = clear_runs zone.map.num zone.changed_runs;
  changes = clear_counts zone.map.num zone.changes;
}

-- What mfs_zone_map_commit does to a zone.
unfoldable pub commit_zone : ℕ → ZoneMap → ZoneMap
unfolding clear_changes
commit_zone logstamp zone =
    if zone.dirty
    then clear_changes (record zone { map = record zone.map { logstamp = logstamp } })
    else zone

unfoldable pub commit_zones : ℕ → List ZoneMap → List ZoneMap
unfolding commit_zone
commit_zones logstamp [] = []
commit_zones logstamp (zone ∷ zones) = commit_zone logstamp zone ∷ commit_zones logstamp zones

-- mfs_zone_map_commit
unfoldable pub zone_map_commit : MfsHandle → ℕ → MfsHandle
unfolding commit_zones
zone_map_commit mfshnd logstamp = record mfshnd {
  loaded_zones = commit_zones logstamp mfshnd.loaded_zones;
}

-- A commit leaves the bounds of a zone as they are.
commit_zone_bounds :
    (logstamp : ℕ) (zone : ZoneMap)
    → ((commit_zone logstamp zone).map.first ≡ zone.map.first)
      × ((commit_zone logstamp zone).map.last ≡ zone.map.last)
      × (zone.dirty ≡ true → (commit_zone logstamp zone).map.logstamp ≡ logstamp)
unfolding commit_zone clear_changes
commit_zone_bounds logstamp zone = go zone.dirty
  where
    result : Bool → ZoneMap
    result dirty =
        if dirty
        then clear_changes (record zone { map = record zone.map { logstamp = logstamp } })
        else zone

    go :
        (dirty : Bool)
        → ((result dirty).map.first ≡ zone.map.first)
          × ((result dirty).map.last ≡ zone.map.last)
          × (dirty ≡ true → (result dirty).map.logstamp ≡ logstamp)
    go true = (refl, refl, λ e. refl)
    go false = (refl, refl, λ e. absurd (ground (arith, e)))

-- The zone that is found is the same one, committed.
abbrev committed_search : ℕ → ZoneSearch → ZoneSearch
committed_search logstamp missing = missing
committed_search logstamp (at i zone) = at i (commit_zone logstamp zone)

find_zone-commit_zones :
    (logstamp : ℕ) (zones : List ZoneMap) (sector i : ℕ)
    → find_zone (commit_zones logstamp zones) sector i
      ≡ committed_search logstamp (find_zone zones sector i)
unfolding find_zone commit_zones
find_zone-commit_zones logstamp [] sector i = refl
find_zone-commit_zones logstamp (zone ∷ zones) sector i =
    ap₂
      (λ (first last : ℕ).
        if leb first sector && leb sector last
        then at i (commit_zone logstamp zone)
        else find_zone (commit_zones logstamp zones) sector (suc i))
      (commit_zone_bounds logstamp zone).0 (commit_zone_bounds logstamp zone).1
    ∙ choose (leb zone.map.first sector && leb sector zone.map.last)
        (find_zone-commit_zones logstamp zones sector (suc i))
  where
    choose :
        (inside : Bool)
        → find_zone (commit_zones logstamp zones) sector (suc i)
          ≡ committed_search logstamp (find_zone zones sector (suc i))
        → (if inside
            then at i (commit_zone logstamp zone)
            else find_zone (commit_zones logstamp zones) sector (suc i))
          ≡ committed_search logstamp (if inside then at i zone else find_zone zones sector (suc i))
    choose true later = refl
    choose false later = later

abbrev committed : ℕ → Lookup → Lookup
committed logstamp (found i zone) = found i (commit_zone logstamp zone)
committed logstamp (refused e) = refused e

check_block-commit_zone :
    (logstamp i : ℕ) (zone : ZoneMap) (sector size : ℕ)
    → check_block i (commit_zone logstamp zone) sector size
      ≡ committed logstamp (check_block i zone sector size)
unfolding check_block
check_block-commit_zone logstamp i zone sector size =
    ap₂
      (λ (first last : ℕ).
        checked (ltb last (sub64 (add64 sector size) 1)) (sub64 sector first % size == 0)
          (commit_zone logstamp zone))
      (commit_zone_bounds logstamp zone).0 (commit_zone_bounds logstamp zone).1
    ∙ choose (ltb zone.map.last (sub64 (add64 sector size) 1))
        (sub64 sector zone.map.first % size == 0)
  where
    checked : Bool → Bool → ZoneMap → Lookup
    checked crosses aligned z =
        if crosses
        then refused (crosses_boundary sector size)
        else if not aligned
        then refused (not_aligned sector size)
        else found i z

    choose :
        (crosses aligned : Bool)
        → checked crosses aligned (commit_zone logstamp zone)
          ≡ committed logstamp (checked crosses aligned zone)
    choose true aligned = refl
    choose false true = refl
    choose false false = refl

zone_for_block-zone_map_commit :
    (mfshnd : MfsHandle) (logstamp sector size : ℕ)
    → zone_for_block (zone_map_commit mfshnd logstamp) sector size
      ≡ committed logstamp (zone_for_block mfshnd sector size)
unfolding zone_for_block zone_map_commit
zone_for_block-zone_map_commit mfshnd logstamp sector size =
    ap through (find_zone-commit_zones logstamp mfshnd.loaded_zones sector 0)
    ∙ choose (find_zone mfshnd.loaded_zones sector 0)
  where
    through : ZoneSearch → Lookup
    through missing = refused (out_of_bounds sector)
    through (at i zone) = check_block i zone sector size

    choose :
        (r : ZoneSearch) → through (committed_search logstamp r) ≡ committed logstamp (through r)
    choose missing = refl
    choose (at i zone) = check_block-commit_zone logstamp i zone sector size

set_same :
    (zones : List ZoneMap) (i : ℕ) (zone : ZoneMap)
    → get_elem? zones i ≡ some zone
    → set zones i zone ≡ zones
set_same [] i zone e = refl
set_same (z ∷ zones) zero zone e = ground (arith, e)
set_same (z ∷ zones) (suc i) zone e = ap (λ t. z ∷ t) (set_same zones i zone e)

-- Once a changed zone is committed, a log entry for a block of it whose stamp is not newer than the
-- commit is accepted and changes nothing: replaying the log over committed zone maps is harmless.
pub zone_map_update-zone_map_commit :
    (mfshnd : MfsHandle) (logstamp stamp sector size : ℕ) (state : Bool) {i : ℕ} {zone : ZoneMap}
    → zone_for_block mfshnd sector size ≡ found i zone
    → zone.dirty ≡ true
    → stamp ≤ logstamp
    → 0 < size
    → sector + size < 2 ^ 64
    → zone_map_update (zone_map_commit mfshnd logstamp) sector size state stamp
      ≡ (1, zone_map_commit mfshnd logstamp)
unfolding zone_map_update
zone_map_update-zone_map_commit mfshnd logstamp stamp sector size state {i} {zone} e dirty old pos
      small =
    rw (lookup, zone_map_update)
      (rw (stale) (ap (λ zones. (1, record after { loaded_zones = zones })) same))
  where
    after : MfsHandle
    after = zone_map_commit mfshnd logstamp

    lookup : zone_for_block after sector size ≡ found i (commit_zone logstamp zone)
    lookup = zone_for_block-zone_map_commit mfshnd logstamp sector size ∙ ap (committed logstamp) e

    stale :
        update_zone after.is_64 (commit_zone logstamp zone) sector size state stamp
        ≡ updated (commit_zone logstamp zone)
    stale =
        update_zone_stale after.is_64 (commit_zone logstamp zone) sector size state stamp
          (omega (arith, (commit_zone_bounds logstamp zone).2 dirty))

    same : set after.loaded_zones i (commit_zone logstamp zone) ≡ after.loaded_zones
    same =
        set_same after.loaded_zones i (commit_zone logstamp zone)
          (zone_for_block_lem after sector size lookup pos small).0
