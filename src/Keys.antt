-- ===== src/Keys.antt =====
-- core/src/store/keys.rs and `parent_dir` of core/src/update.rs: the encoding of records by table,
-- partition key and sort key. The hash behind the shards (BLAKE3) is a parameter.
pub mod Normalize
pub mod Clean
pub mod Tree
pub mod Prefix
pub mod Decimal
pub mod Shard
