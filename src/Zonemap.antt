-- ===== src/Zonemap.antt =====
-- The zone maps of an MFS volume set: include/zonemap.h, include/mfs.h and lib/zonemap.c.
pub mod Bitmap
pub mod Zone
pub mod Update
pub mod Inodes
pub mod Commit
