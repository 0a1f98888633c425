-- ===== src/FileOps.antt =====
-- src/fileops.c: the storage directory. Its locks by file name are in LockTable.
pub mod Resolve
pub mod Files
pub mod Listing
pub mod Whole
