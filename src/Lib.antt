-- ===== src/Lib.antt =====
-- Artifact Depot is an artifact repository server: repositories of packages (hosted, cached from an
-- upstream, or proxies over other repositories) whose records live in a key-value store and whose
-- contents live in blob stores. This library models the core of it: how records are keyed and
-- sharded, the store below, the scans and listings above, the repositories, the updates of the
-- browse tree, the leases of a cluster, and the collection of what is not referenced any more.
--
-- The parts, and where they are:
-- * Keys (core/src/store/keys.rs, with parent_dir of core/src/update.rs and ancestor_dirs of
--   server/src/server/worker/update.rs): Keys/Normalize and Keys/Clean are normalize_path;
--   Keys/Tree and its children are the sort keys of the browse tree; Keys/Prefix is prefix_end;
--   Keys/Decimal is the printing of numbers in keys; Keys/Shard and its children are the partition
--   and sort keys of every table. A text is the list of its bytes; the BLAKE3 digest is a
--   parameter.
-- * Kv (core/src/store/kv/trait_def.rs): the trait KvStore as the record KvStore of functions on a
--   state, with its promises in the record KvLaws. Kv/Codec stands for rmp_serde.
-- * Kv/Redb (kv/redb/src/redb_kv.rs): the embedded store over the redb crate, which is the
--   parameter Redb with its documented behaviour RedbLaws. Kv/Redb/Envelope is the version header
--   of a value, Kv/Redb/Rows and Kv/Redb/Scans are the flat keys and the range scans, Kv/Redb/Laws
--   fills KvLaws, Kv/Redb/Batch is the writer task, and Kv/Redb/Model is a database that meets
--   RedbLaws.
-- * Service (core/src/service, core/src/error.rs): Service/Error, Service/Scan
--   (for_each_in_partition, with any KvStore that keeps KvLaws), Service/Page (paginate_results),
--   Service/Artifact (service/artifact.rs with service/typed.rs: the records of artifacts and their
--   file entries in the browse tree; put_artifact takes what other callers do between the read and
--   the write of each attempt as a function on the state), Service/Stream and Service/Merge
--   (ShardStream and k_way_merge of service/pagination.rs: the batches of a shard, and the heap
--   that merges the shards), Service/Listing (list_artifacts and search_artifacts on top of them),
--   Service/Blob (service/blob.rs: the records that map the hash of a content to its blob).
-- * Repo/Proxy (core/src/repo/proxy.rs, make_raw_repo_with_depth of core/src/repo/mod.rs): lookups
--   in Repo/Proxy/Lookup, merged listings in Repo/Proxy/Merge, Repo/Proxy/Pages and Repo/Proxy/Union.
-- * Cluster/Lease (server/src/server/worker/cluster.rs): try_acquire_lease and release_lease over
--   any KvStore. Each is cut in two at its read, so that what other instances do in between is a
--   sequence of steps: Cluster/Lease/Exclusion and Cluster/Lease/Races.
-- * Update (core/src/update.rs and server/src/server/worker/update.rs): Update/Words is the 64-bit
--   arithmetic, Update/Deltas the events and their coalescing, Update/Apply is apply_dir_delta,
--   Update/Flush the last flush of run_update_worker, Update/Batch its batches and its loop over
--   directory deltas, Update/Stats is drain_store_deltas and flush_store_stats. The other files
--   there hold the proofs: Update/Merged of the coalescing, Update/Applied of one delta,
--   Update/Ends and Update/Reaches of the propagation up to the root.
-- * Format/Golang (format/golang/src/store.rs): the escapes of module paths.
-- * Inflight (core/src/inflight.rs, with the wait of CacheRepo::get in core/src/repo/cache.rs): the
--   callers that fetch one key as a step relation; Inflight/Exclusive is about who leads,
--   Inflight/Stranded about who waits.
-- * Access (core/src/auth.rs): check_grants in Access/Grants, decode_basic_auth in Access/Basic.
-- * Gc (server/src/server/worker/blob_reaper): Gc/Bloom is bloom.rs over the crate bloomfilter,
--   which is the parameter BloomCrate with its promises BloomLaws; Gc/Expiry is record_expired of
--   repo_cleanup.rs. The rest is gc_pass of gc_pass.rs: Gc/Shard is the loop over the batches of
--   one partition, Gc/Scan the tasks of the artifact scan, Gc/Records the sweep of the blob
--   records, Gc/Orphans the walk over the files with the candidates for deletion, and Gc/Pass the
--   whole. The tasks of a phase run one after the other, with what other callers do before each
--   batch and between its read and its writes as functions on the state (Interference), and the
--   points where the token is looked at (CancelPoint). What stands before the scan, with docker_gc,
--   is the parameter `prepare`, and a blob store is what its walk yields and its `delete`.
--   Gc/Deletes is about delete_batch of any KvStore.
-- * Base holds the shared lists, bytes and tests; Examples applies the theorems to concrete inputs.
--
-- Bounds and fuel: versions are 64-bit and wrap as written; ancestor_dirs runs on the length of the
-- path, which is more than its slashes; a scan runs on fuel, and one round more than the partition
-- has entries is enough, since every round that does not end the scan passes an entry; a proxy's
-- lookup descends on the levels that are left below the depth limit of the source; put_artifact has
-- the three attempts of the source, and so has flush_store_stats. A stream fetches on fuel, and two
-- rounds more than its partition has entries are enough; the merge takes a round for each entry and
-- one more; a task of the collection takes one round more than its partition has entries; the last
-- flush takes two rounds more than the longest path has bytes, since a round climbs a level. The
-- counts of the updates are words of 64 bits: the sums wrap around, as in a release build.
--
-- Not modelled: storage faults of a backend, the bounded channel and the compaction of the embedded
-- store, the DynamoDB and blob stores, HTTP, the package formats but for the golang escapes, the
-- authentication backends, the cache repository but for its wait, and of the workers flush_atime,
-- full_scan, docker_gc, the loop around the passes of the collection, and all but the updater, the
-- leases and the collection. The deltas of a batch are applied one after the other, where the
-- source applies several at a time. A scan with a callback sees one state of the store in all its
-- rounds. A guard of an in-flight fetch is dropped in one step: it leaves the map and wakes its
-- waiters.
pub mod Base
pub mod Keys
pub mod Kv
pub mod Service
pub mod Repo
pub mod Cluster
pub mod Access
pub mod Update
pub mod Format
pub mod Gc
pub mod Inflight
pub mod Examples
