-- ===== src/Lib.antt =====
-- A model of the core of mfstools, the tools for the file system (MFS) of a recorder's drive, and
-- the theorems that make it correct. It is a shallow embedding of the C code of lib/ and include/:
-- each operation is a function by clauses, and what a call changes is passed on explicitly.
--
-- The program's parts. A drive's partitions are opened as volumes and read and written by sector
-- (lib/volume.c); sectors that carry a checksum are checked and updated by lib/crc.c; numbers are
-- kept in the drive's byte order (include/util.h); and the space of the drive is handed out by the
-- zone maps, buddy allocators with one bitmap per block size (lib/zonemap.c). Inodes, the log, the
-- partition maps and the programs stand on these.
--
-- Which file models which part:
--   Base         what the other modules share: Boolean tests, C arrays as lists, machine words, and
--                the binary digits of a number with what `|`, `&`, `^` and masks do to each.
--   Util         include/util.h: Endian16_Swap, Endian32_Swap, Endian64_Swap, intswap16, intswap32,
--                intswap64 and sectorswap64. The flag `mfsLSB` and the machine's order are Booleans.
--   Crc          lib/crc.c: UPDC32, compute_crc, mfs_compute_crc, mfs_check_crc, mfs_update_crc on a
--                list of bytes; Crc/Table is crc32tab.
--   Volume       lib/volume.c and include/volume.h: mfsvol_add_volume, mfsvol_get_volume,
--                mfsvol_volume_size, mfsvol_volume_set_size, mfsvol_is_writable. Volume/Blocks has
--                the blocks written to memory, mfsvol_locate_mem_data_for_read and
--                mfsvol_locate_mem_data_for_write, where a sector is the list of its bytes and new
--                memory holds an arbitrary sector; Volume/Writing has mfsvol_write_data, Volume/Reading
--                mfsvol_read_data, and Volume/Modes mfsvol_enable_memwrite and _discard_memwrite.
--   Zonemap      lib/zonemap.c, include/zonemap.h and include/mfs.h: Zonemap/Bitmap has
--                mfs_zone_map_bit_state_get, _set and _clear, Zonemap/Zone has mfs_zone_for_block,
--                and Zonemap/Update has mfs_zone_map_update and mfs_zone_map_block_state.
--   Zonemap/Inodes   mfs_inode_count and mfs_inode_to_sector, on the list of the inode zones.
--   Zonemap/Commit   mfs_zone_map_commit and mfs_zone_map_clear_changes.
--   Inode        lib/inode.c and include/fsid.h: an inode is the buffer of its sector. Inode/Sectors
--                has mfs_read_inode and mfs_write_inode, Inode/Chain mfs_read_inode_by_fsid and
--                mfs_find_inode_for_fsid, Inode/Runs the data (mfs_read_inode_data_part,
--                mfs_write_inode_data_part, mfs_read_inode_data), Inode/Directory mfs_dir and
--                mfs_resolve, Inode/Objects parse_object. The volume set is the interface `Drive`:
--                its two calls on a state, of which theorems ask what Stores, Serves or KeepsPair say.
--   Log          lib/log.c and include/log.h: mfs_log_stamp_to_sector, mfs_log_read, mfs_log_write and
--                mfs_log_add_entry, with mfs_log_write_current_log. The current log is a record of
--                its header's fields and its body; its checksum is made when it is written. end_log
--                is what mfs_log_commit adds to it. Log/Loading has mfs_log_load_list, on the
--                function that reads a sector; Log/Replay has mfs_log_sync_inode,
--                mfs_log_commit_list and mfs_log_fssync_list on a handle of the fields they use, and
--                Log/Replay/Encoding mfs_log_zone_update. An entry is the list of its bytes.
--   Header       lib/mfs.c and include/mfs.h: mfs_write_volume_header, and mfs_load_volume_header up
--                to the list of partitions, with the places of the names in it.
--   Access       lib/readwrite.c: data_swab and tivo_partition_read, as built with lseek64 and read;
--                what those give of a descriptor is a parameter.
--   Spans        the pieces of what a device holds, as lists.
--   Tests        the theorems at concrete inputs, and small runs of the code.
--
-- How the code is rendered. `uint32_t` and `uint64_t` are natural numbers and every addition,
-- subtraction and shift that can leave the width has its `% 2 ^ w` written out (Base/Words). A
-- pointer to a table is a list, and an index out of range leaves the list as it is; the
-- theorems hold where the indices are in range. Loops over linked lists are recursions on the
-- list. The loops of mfs_zone_map_update run over the levels of a zone, and are recursions on
-- how many levels are left, which is the number of bitmaps less the level. The loops over a
-- chain of inodes run on fuel, one for each inode, which is enough since they stop when they
-- come round. The loop that counts the entries of a directory has 16384 rounds, more than the
-- words that its 16-bit size can count; it runs out of any fuel when an entry has no length,
-- and the listing is then `endless`. So is that of directories of directories that lie deeper
-- than the depth that mfs_dir is given; the C code recurses without a bound. A read of a
-- volume takes at most a round for each sector and each block in memory, and adding an entry
-- to the log at most one for each of its bytes. Loading the log takes at most one round more
-- than the ring has sectors, since a sector whose place is taken has another stamp, and in a
-- sector one more than it has bytes. A read of data is of whole sectors, as the volume set
-- returns them. A well-formed zone (Zonemap/Update/WellFormed) has at least one and at most 32
-- levels, bitmaps that hold one bit for each block, and every sector in at most one free
-- block.
-- Where C does not define what the code does, the model says so: `overflowed` is a read whose
-- `int` of bytes leaves its range, and discarding the writes of a volume that has blocks in
-- memory is `none`, since the loop over them reads a pointer that was never set.
--
-- Not modelled: the files and devices under a volume, which are parameters; the system calls of
-- the recorder itself and tivo_partition_write in lib/readwrite.c; memory that cannot be
-- allocated; the texts of messages, of which only the kind and the arguments are kept; the rest of
-- lib/zonemap.c (writing the maps back, making and loading them, mfs_alloc_greedy);
-- mfs_type_string and mfs_dir_free; in lib/log.c the entries for inodes
-- (mfs_log_zone_update_for_inodes, mfs_log_inode_update), mfs_log_find_inode_log_type, and
-- mfs_log_commit and mfs_log_fssync, which call what is modelled; in lib/mfs.c all but the volume
-- header; lib/macpart.c; and the command line programs over the library.
pub mod Base
pub mod Spans
pub mod Util
pub mod Crc
pub mod Volume
pub mod Zonemap
pub mod Inode
pub mod Log
pub mod Header
pub mod Access
mod Tests
