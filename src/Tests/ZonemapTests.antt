-- ===== src/Tests/ZonemapTests.antt =====
-- The zone map functions on a zone of four smallest blocks of 2048 sectors.
use mfstools.Base.{
  ℕ, zero, suc, ◌+◌, ◌-◌, ◌*◌, ◌/◌, ◌^◌, ◌≤◌, ◌<◌, ◌≡◌, refl, true, false, arith, none, some, [],
  ◌∷◌, sub64, get_elem?, get_or, length,
}
use mfstools.Zonemap.Bitmap.{
  Bitmap, no_bitmap, bit_state_get, bit_state_set, bit_state_clear, bit_mask,
}
use mfstools.Zonemap.Zone.{media, ZoneHeader, ZoneMap, MfsHandle, cut, found, zone_for_block}
use mfstools.Zonemap.Update.{
  level_bit, updated, update_zone, zone_map_update, zone_block_state, state_is,
}
use mfstools.Zonemap.Update.Cover.{ind, cover}
use mfstools.Zonemap.Update.WellFormed.{WellFormed, Request, free_levels, in_block, InZone}
use mfstools.Zonemap.Update.Joining.{new_pair}
use mfstools.Zonemap.Update.Freeing.{update_zone_frees}
use mfstools.Zonemap.Update.Allocating.{update_zone_allocates}
use mfstools.Zonemap.Update.Requests.{
  update_zone_free_again, update_zone_allocate_again, zone_for_block_lem,
}
use mfstools.Zonemap.Update.Handle.{zone_block_state_lem}

abbrev header : ZoneHeader
header = record {
  sector = 1122;
  sbackup = 523_000;
  length = 1;
  next_sector = 0;
  next_sbackup = 0;
  next_length = 0;
  next_size = 0;
  next_min = 0;
  type = media;
  logstamp = 7;
  checksum = 0xdeadf00d;
  first = 100_000;
  last = 108_191;
  size = 8192;
  min = 2048;
  free = 4096;
  num = 3;
}

-- Blocks 0 and 1 are taken, and blocks 2 and 3 are one free pair.
abbrev half_free : ZoneMap
half_free = record {
  map = header;
  bitmaps =
      record { nbits = 4; freeblocks = 0; last = 2; nints = 1; words = 0 ∷ [] }
      ∷ record { nbits = 2; freeblocks = 1; last = 0; nints = 1; words = 0x4000_0000 ∷ [] }
      ∷ record { nbits = 1; freeblocks = 0; last = 0; nints = 1; words = 0 ∷ [] }
      ∷ [];
  changed_runs = [] ∷ [] ∷ [] ∷ [];
  changes = [];
  dirty = false;
}

abbrev handle : MfsHandle
handle = record { is_64 = false; loaded_zones = half_free ∷ []; err = none }

by_four : (P : ℕ → Type 0) → P 0 → P 1 → P 2 → P 3 → (u : ℕ) → u < 4 → P u
by_four P a b c d zero h = a
by_four P a b c d (suc zero) h = b
by_four P a b c d (suc (suc zero)) h = c
by_four P a b c d (suc (suc (suc zero))) h = d
by_four P a b c d (suc (suc (suc (suc u)))) h = absurd (omega arith)

half_free_counts :
    (cover half_free.bitmaps 0 ≡ 0)
    × (cover half_free.bitmaps 1 ≡ 0)
    × (cover half_free.bitmaps 2 ≡ 1)
    × (cover half_free.bitmaps 3 ≡ 1)
unfolding bit_state_get bit_mask
half_free_counts = (refl, refl, refl, refl)

half_free-WellFormed : WellFormed half_free
half_free-WellFormed = record {
  levels = refl;
  some_level = omega arith;
  few_levels = omega arith;
  fits = λ l h.
      by_four (λ l. l < 3 → 2 ^ (2 - l) ≤ 32 * length (get_or half_free.bitmaps l no_bitmap).words)
        (λ _. omega arith) (λ _. omega arith) (λ _. omega arith) (λ p. absurd (omega arith)) l
        (omega arith) h;
  alone = λ u h.
      by_four (λ u. cover half_free.bitmaps u ≤ 1) (omega (arith, half_free_counts))
        (omega (arith, half_free_counts)) (omega (arith, half_free_counts))
        (omega (arith, half_free_counts)) u h;
  unit = omega arith;
  extent = omega arith;
  no_wrap = omega arith;
}

low_half : Request half_free 100_000 4096 1 0
low_half = record { order_in = omega arith; doubled = refl; aligned = refl; within = omega arith }

block_two : Request half_free 104_096 2048 0 2
block_two = record { order_in = omega arith; doubled = refl; aligned = refl; within = omega arith }

low_half_taken :
    (s : ℕ) → InZone half_free s → in_block 100_000 4096 s ≡ true → free_levels half_free s ≡ 0
unfolding free_levels
low_half_taken s i among =
    by_four (λ u. u < 2 → cover half_free.bitmaps u ≡ 0) (λ _. half_free_counts.0)
      (λ _. half_free_counts.1) (λ p. absurd (omega arith)) (λ p. absurd (omega arith))
      ((s - 100_000) / 2048) (ground arith) (ground arith)

-- Freeing the lower half of the zone joins everything into the one block of the top level.
run_free :
    (zone_map_update handle 100_000 4096 true 8).1.loaded_zones
    ≡ record half_free {
      map = record header { free = 8192 };
      bitmaps =
          record { nbits = 4; freeblocks = 0; last = 2; nints = 1; words = 0 ∷ [] }
          ∷ record { nbits = 2; freeblocks = 0; last = 0; nints = 1; words = 0 ∷ [] }
          ∷ record { nbits = 1; freeblocks = 1; last = 0; nints = 1; words = 0x8000_0000 ∷ [] }
          ∷ [];
      dirty = true;
    }
      ∷ []
unfolding zone_map_update zone_for_block update_zone bit_state_get bit_state_set bit_state_clear
    bit_mask
run_free = refl

-- Allocating block 2 leaves its neighbour free.
run_allocate :
    (zone_map_update handle 104_096 2048 false 8).1.loaded_zones
    ≡ record half_free {
      map = record header { free = 2048 };
      bitmaps =
          record { nbits = 4; freeblocks = 1; last = 2; nints = 1; words = 0x1000_0000 ∷ [] }
          ∷ record { nbits = 2; freeblocks = 0; last = 2; nints = 1; words = 0 ∷ [] }
          ∷ record { nbits = 1; freeblocks = 0; last = 0; nints = 1; words = 0 ∷ [] }
          ∷ [];
      dirty = true;
    }
      ∷ []
unfolding zone_map_update zone_for_block update_zone bit_state_get bit_state_set bit_state_clear
    bit_mask
run_allocate = refl

update_zone_frees_example :
    (after : ZoneMap) × (update_zone false half_free 100_000 4096 true 8 ≡ updated after)
    × WellFormed after
    × (free_levels after 101_000
        ≡ free_levels half_free 101_000 + ind (in_block 100_000 4096 101_000))
    × (after.map.free ≡ cut false (4096 + 4096))
    × (new_pair half_free.bitmaps after.bitmaps 1 0 ≡ false)
update_zone_frees_example =
    update_zone_frees half_free-WellFormed low_half low_half_taken false (omega arith) 101_000
      (omega arith, omega arith) 1 0 (omega arith) (omega arith)

pair_held : level_bit half_free.bitmaps 1 (2 / 2 ^ (1 - 0)) ≡ true
unfolding bit_state_get bit_mask
pair_held = refl

update_zone_allocates_example :
    (after : ZoneMap) × (update_zone false half_free 104_096 2048 false 8 ≡ updated after)
    × WellFormed after
    × (free_levels after 105_000 + ind (in_block 104_096 2048 105_000)
        ≡ free_levels half_free 105_000)
    × (after.map.free ≡ cut false (sub64 4096 2048))
update_zone_allocates_example =
    update_zone_allocates half_free-WellFormed block_two 1 (omega arith) (omega arith) pair_held
      false (omega arith) 105_000 (omega arith, omega arith)

update_zone_free_again_example : update_zone false half_free 104_096 2048 true 8 ≡ updated half_free
update_zone_free_again_example =
    update_zone_free_again half_free-WellFormed block_two false (omega arith) 1 (omega arith)
      (omega arith) pair_held

low_half_off : (l : ℕ) → 1 ≤ l → l < 3 → level_bit half_free.bitmaps l (0 / 2 ^ (l - 1)) ≡ false
unfolding bit_state_get bit_mask
low_half_off l h h' =
    by_four (λ l. 1 ≤ l → l < 3 → level_bit half_free.bitmaps l (0 / 2 ^ (l - 1)) ≡ false)
      (λ p q. absurd (omega arith)) (λ p q. refl) (λ p q. refl) (λ p q. absurd (omega arith)) l
      (omega arith) h h'

update_zone_allocate_again_example :
    update_zone false half_free 100_000 4096 false 8 ≡ updated half_free
update_zone_allocate_again_example =
    update_zone_allocate_again half_free-WellFormed low_half false (omega arith) low_half_off

found_half_free : zone_for_block handle 104_096 2048 ≡ found 0 half_free
unfolding zone_for_block
found_half_free = refl

zone_for_block_example :
    (get_elem? (half_free ∷ []) 0 ≡ some half_free)
    × (100_000 ≤ 104_096)
    × (104_096 + 2048 ≤ 108_191 + 1)
    × (◌≡◌ {A = ℕ} 104_096 (100_000 + (104_096 - 100_000) / 2048 * 2048))
zone_for_block_example =
    zone_for_block_lem handle 104_096 2048 found_half_free (omega arith) (omega arith)

outside_fails : (zone_map_update handle 99 2048 true 8).0 ≡ 0
unfolding zone_map_update zone_for_block
outside_fails = refl

zone_block_state_example :
    zone_block_state half_free 100_000 4096 ≡ state_is (level_bit half_free.bitmaps 1 0)
zone_block_state_example = zone_block_state_lem half_free-WellFormed low_half (omega arith)

pair_map : Bitmap
pair_map = record { nbits = 40; freeblocks = 1; last = 0; nints = 2; words = 0x8000_0000 ∷ 0 ∷ [] }
