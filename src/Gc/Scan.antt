-- ===== src/Gc/Scan.antt =====
-- server/src/server/worker/blob_reaper/gc_pass.rs: the scan of the artifacts, which expires old
-- ones and fills the filter of the blobs that are referenced. The tasks stand one after the other:
-- what the others do meanwhile is part of `others` and `between`. Events for the updater are
-- returned.
pub mod Batch
pub mod Deletes
pub mod Live
pub mod Tasks
pub mod Finds
use artifact_depot.Base.{
  ℕ, zero, suc, ◌+◌, ◌-◌, ◌%◌, Bool, true, false, ◌||◌, List, [], ◌∷◌, ◌++◌, Option, some, none,
  if◌then◌else◌, length,
}
use artifact_depot.Base.Bytes.{Bytes, is_empty}
use artifact_depot.Keys.Shard.{artifact_shard_pk, table_artifacts, num_shards}
use artifact_depot.Kv.{KvStore, u64_mod}
use artifact_depot.Kv.Codec.{Codec}
use artifact_depot.Service.Error.{Result, ok, err, ◌>>=◌}
use artifact_depot.Service.Artifact.{ArtifactRecord, TreeEntry, delete_artifacts_paired_batch}
use artifact_depot.Update.Words.{word_size}
use artifact_depot.Update.Deltas.{DirDelta, dir_changed}
use artifact_depot.Gc.Bloom.{BloomCrate, BloomAccumulator, bloom_empty_like, or_from}
use artifact_depot.Gc.Expiry.{CleanupRepo, ExpiryReason, cutoff, record_expired}
use artifact_depot.Gc.Shard.{shard_loop}

-- An expired artifact: its path and its size.
abbrev pub Expired : Type 0
Expired = Bytes × ℕ

abbrev pub paths_of : List Expired → List Bytes
paths_of [] = []
paths_of ((sk, size) ∷ entries) = sk ∷ paths_of entries

-- What a task collects.
pub record ShardScan (F : Type 0) : Type 0 where
  pub local_bf : F
  pub local_scanned : ℕ
  pub local_expired : ℕ
  pub events : List DirDelta

-- What the tasks have collected.
pub record Marked : Type 0 where
  pub acc : BloomAccumulator
  pub scanned_artifacts : ℕ
  pub expired_artifacts : ℕ
  pub dir_events : List DirDelta

-- `0..n`
abbrev pub below_from : ℕ → ℕ → List ℕ
below_from zero first = []
below_from (suc left) first = first ∷ below_from left (first + 1)

abbrev pub tasks_of : CleanupRepo → List ℕ → List (CleanupRepo × ℕ)
tasks_of repo [] = []
tasks_of repo (shard ∷ shards) = (repo, shard) ∷ tasks_of repo shards

-- One task for each repository and shard.
unfoldable pub scan_tasks : List CleanupRepo → List (CleanupRepo × ℕ)
scan_tasks [] = []
scan_tasks (repo ∷ repos) = tasks_of repo (below_from num_shards 0) ++ scan_tasks repos

module _ {K V : Type 0} (kv : KvStore V) (blake3 : Bytes → ℕ → ℕ)
    (records : Codec (ArtifactRecord K) V) (trees : Codec (TreeEntry K) V) (crate : BloomCrate)
    (now : ℕ) (dry_run : Bool) where
  open crate use {Filter, set}

  abbrev pub mark_blob : Option Bytes → Filter → Filter
  mark_blob none bf = bf
  mark_blob (some blob_id) bf = set blob_id bf

  module _ (repo : CleanupRepo) where
    abbrev pub expiry : kv.State → Bytes → ArtifactRecord K → Option ExpiryReason
    expiry s sk r =
        record_expired blake3 trees kv s repo.name sk r repo.is_docker
          (cutoff now repo.cleanup_max_age_days) (cutoff now repo.cleanup_max_unaccessed_days)

    -- A live record is marked, an expired one is listed.
    abbrev pub sort_record :
        Bytes
        → ArtifactRecord K
        → Option ExpiryReason
        → ShardScan Filter × List Expired
        → ShardScan Filter × List Expired
    sort_record sk r (some reason) (l, entries) = (l, entries ++ (sk, r.size) ∷ [])
    sort_record sk r none (l, entries) = (
      record l {
        local_bf = mark_blob r.blob_id l.local_bf;
        local_scanned = (l.local_scanned + 1) % u64_mod;
      },
      entries,
    )

    abbrev pub sort_value :
        kv.State
        → Bytes
        → Result (ArtifactRecord K)
        → ShardScan Filter × List Expired
        → ShardScan Filter × List Expired
    sort_value s sk (err e) c = c
    sort_value s sk (ok r) c = sort_record sk r (expiry s sk r) c

    -- The loop over the items of a batch.
    unfoldable pub sort_items :
        kv.State
        → List (Bytes × V)
        → ShardScan Filter × List Expired
        → ShardScan Filter × List Expired
    unfolding record_expired
    sort_items s [] c = c
    sort_items s ((sk, value) ∷ items) c =
        sort_items s items (sort_value s sk (records.from_slice value) c)

    abbrev pub expiry_events : List Expired → List DirDelta
    expiry_events [] = []
    expiry_events ((sk, size) ∷ entries) =
        dir_changed blake3 repo.name sk (word_size - 1) ((word_size - size) % word_size) now
        ∷ expiry_events entries

    abbrev pub expire_entries :
        ShardScan Filter × List Expired → kv.State → kv.State × ShardScan Filter
    expire_entries (l, entries) s = if is_empty entries || dry_run then (s, l) else (
      delete_artifacts_paired_batch kv blake3 records trees repo.name (paths_of entries) s,
      record l {
        local_expired = (l.local_expired + length entries) % u64_mod;
        events = l.events ++ expiry_events entries;
      },
    )

    -- The body of the loop over batches.
    unfoldable pub scan_batch :
        List (Bytes × V) → kv.State → ShardScan Filter → kv.State × ShardScan Filter
    unfolding sort_items delete_artifacts_paired_batch dir_changed
    scan_batch items s l = expire_entries (sort_items s items (l, [])) s

  abbrev pub merged : ShardScan Filter → Marked → Result Marked
  merged l m = do
    acc ← or_from crate l.local_bf m.acc
    ok (record {
      acc = acc;
      scanned_artifacts = (m.scanned_artifacts + l.local_scanned) % u64_mod;
      expired_artifacts = (m.expired_artifacts + l.local_expired) % u64_mod;
      dir_events = m.dir_events ++ l.events;
    })

  abbrev pub task_end :
      Option (kv.State × Result (ShardScan Filter)) → Marked → Option (kv.State × Result Marked)
  task_end none m = none
  task_end (some (s, err e)) m = some (s, err e)
  task_end (some (s, ok l)) m = some (s, merged l m)

  module _ (template : Filter) (fuel : ℕ) (cancelled : CleanupRepo × ℕ → ℕ → Bool)
      (others between : CleanupRepo × ℕ → ℕ → kv.State → kv.State) where
    abbrev pub scan_from :
        CleanupRepo × ℕ → Result Filter → kv.State → Marked → Option (kv.State × Result Marked)
    scan_from task (err e) s m = some (s, err e)
    scan_from (repo, shard) (ok bf) s m =
        task_end
          (shard_loop kv (others (repo, shard)) (between (repo, shard)) (cancelled (repo, shard))
            (scan_batch repo) fuel table_artifacts (artifact_shard_pk repo.name shard) [] s
            (record { local_bf = bf; local_scanned = 0; local_expired = 0; events = [] }))
          m

    -- One task.
    unfoldable pub scan_shard :
        CleanupRepo × ℕ → kv.State → Marked → Option (kv.State × Result Marked)
    unfolding shard_loop scan_batch bloom_empty_like or_from artifact_shard_pk
    scan_shard task s m = scan_from task (bloom_empty_like crate template) s m

    abbrev pub after_task :
        Option (kv.State × Result Marked)
        → (kv.State → Marked → Option (kv.State × Result Marked))
        → Option (kv.State × Result Marked)
    after_task none rest = none
    after_task (some (s, err e)) rest = some (s, err e)
    after_task (some (s, ok m)) rest = rest s m

    unfoldable pub scan_all :
        List (CleanupRepo × ℕ) → kv.State → Marked → Option (kv.State × Result Marked)
    unfolding scan_shard
    scan_all [] s m = some (s, ok m)
    scan_all (task ∷ tasks) s m = after_task (scan_shard task s m) (λ s' m'. scan_all tasks s' m')
