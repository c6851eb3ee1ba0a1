-- ===== src/Service.antt =====
-- core/src/service: the operations on records, over the interface of a key-value store.
pub mod Error
pub mod Scan
pub mod Artifact
pub mod Page
pub mod Stream
pub mod Merge
pub mod Listing
pub mod Blob
