-- ===== src/Cluster.antt =====
-- server/src/server/worker/cluster.rs: coordination of the instances through the key-value store.
pub mod Lease
