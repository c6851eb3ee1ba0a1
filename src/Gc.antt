-- ===== src/Gc.antt =====
-- server/src/server/worker/blob_reaper: the garbage collection of blobs.
pub mod Bloom
pub mod Orphans
pub mod Shard
pub mod Expiry
pub mod Scan
pub mod Records
pub mod Pass
pub mod Deletes
