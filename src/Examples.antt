-- ===== src/Examples.antt =====
-- The theorems of the library at concrete inputs.
pub mod KeyLayout
pub mod Codecs
pub mod Artifacts
pub mod Accesses
pub mod Stores
pub mod Leases
pub mod Proxies
pub mod Listings
pub mod Updates
pub mod Blobs
pub mod Formats
pub mod Inflights
pub mod Filters
pub mod Singles
pub mod Collections
