-- ===== src/Tests/CommitTests.antt =====
-- A commit of a zone that was changed, and the entry of the log once more.
use mfstools.Base.{◌≡◌, refl, arith, true, false, none, [], ◌∷◌}
use mfstools.Zonemap.Zone.{media, ZoneMap, MfsHandle, found, zone_for_block, find_zone, check_block}
use mfstools.Zonemap.Update.{zone_map_update}
use mfstools.Zonemap.Commit.{zone_map_commit, zone_map_update-zone_map_commit}

abbrev zone : ZoneMap
zone = record {
  map = record {
    sector = 1122;
    sbackup = 523_000;
    length = 1;
    next_sector = 0;
    next_sbackup = 0;
    next_length = 0;
    next_size = 0;
    next_min = 0;
    type = media;
    logstamp = 7;
    checksum = 0xdeadf00d;
    first = 100_000;
    last = 102_047;
    size = 2048;
    min = 2048;
    free = 2048;
    num = 1;
  };
  bitmaps =
      record { nbits = 1; freeblocks = 1; last = 0; nints = 1; words = 0x8000_0000 ∷ [] } ∷ [];
  changed_runs = [] ∷ [];
  changes = [];
  dirty = true;
}

abbrev handle : MfsHandle
handle = record { is_64 = false; loaded_zones = zone ∷ []; err = none }

block_found : zone_for_block handle 100_000 2048 ≡ found 0 zone
unfolding zone_for_block find_zone check_block
block_found = refl

-- The block is free; an entry of stamp 9 that takes it is not applied after a commit at 9.
zone_map_update-zone_map_commit_example :
    zone_map_update (zone_map_commit handle 9) 100_000 2048 false 9 ≡ (1, zone_map_commit handle 9)
zone_map_update-zone_map_commit_example =
    zone_map_update-zone_map_commit handle 9 9 100_000 2048 false block_found refl (omega arith)
      (omega arith) (omega arith)
