-- ===== src/Update.antt =====
-- core/src/update.rs and server/src/server/worker/update.rs: the events that keep the directory
-- entries of the browse tree and the numbers of the stores up to date. The channels are the lists
-- of the events that a drain finds; a `HashMap` is an association list, and what is shown of it
-- holds in any order.
pub mod Words
pub mod Deltas
pub mod Merged
pub mod Apply
pub mod Applied
pub mod Flush
pub mod Ends
pub mod Above
pub mod Reaches
pub mod Batch
pub mod Stats
