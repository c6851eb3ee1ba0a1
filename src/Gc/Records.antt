-- ===== src/Gc/Records.antt =====
-- server/src/server/worker/blob_reaper/gc_pass.rs: the sweep of the blob records of one store.
pub mod Swept
pub mod Ends
use artifact_depot.Base.{
  ℕ, ◌+◌, ◌%◌, Bool, true, false, ◌||◌, List, [], ◌∷◌, ◌++◌, Option, some, none, if◌then◌else◌,
  length,
}
use artifact_depot.Base.Bytes.{Bytes, is_empty}
use artifact_depot.Keys.Shard.{blob_shard_pk, table_blobs, num_shards, store_stats_key}
use artifact_depot.Kv.{KvStore, u64_mod}
use artifact_depot.Kv.Codec.{Codec}
use artifact_depot.Service.Error.{Result, ok, err}
use artifact_depot.Service.Artifact.{delete_batch}
use artifact_depot.Service.Blob.{BlobRecord}
use artifact_depot.Update.Stats.{StoreStatsRecord}
use artifact_depot.Gc.Shard.{shard_loop}
use artifact_depot.Gc.Scan.{below_from}

-- What the tasks of a store count.
pub record BlobCounts : Type 0 where
  pub scanned : ℕ
  pub scanned_bytes : ℕ
  pub deleted : ℕ
  pub live_count : ℕ
  pub live_bytes : ℕ

abbrev pub no_counts : BlobCounts
no_counts = record { scanned = 0; scanned_bytes = 0; deleted = 0; live_count = 0; live_bytes = 0 }

module _ {V : Type 0} (kv : KvStore V) (blobs : Codec BlobRecord V) (check : Bytes → Bool)
    (dry_run : Bool) where
  abbrev pub count_record :
      Bytes → BlobRecord → Bool → BlobCounts × List Bytes → BlobCounts × List Bytes
  count_record sk r false (c, del_sks) =
      (record c { scanned_bytes = (c.scanned_bytes + r.size) % u64_mod }, del_sks ++ sk ∷ [])
  count_record sk r true (c, del_sks) = (
    record c {
      scanned_bytes = (c.scanned_bytes + r.size) % u64_mod;
      live_count = (c.live_count + 1) % u64_mod;
      live_bytes = (c.live_bytes + r.size) % u64_mod;
    },
    del_sks,
  )

  abbrev pub count_value :
      Bytes → Result BlobRecord → BlobCounts × List Bytes → BlobCounts × List Bytes
  count_value sk (err e) c = c
  count_value sk (ok r) c = count_record sk r (check r.blob_id) c

  abbrev pub scanned_one : BlobCounts × List Bytes → BlobCounts × List Bytes
  scanned_one (c, del_sks) = (record c { scanned = (c.scanned + 1) % u64_mod }, del_sks)

  -- The loop over the items of a batch.
  unfoldable pub count_items : List (Bytes × V) → BlobCounts × List Bytes → BlobCounts × List Bytes
  count_items [] c = c
  count_items ((sk, value) ∷ items) c =
      count_items items (count_value sk (blobs.from_slice value) (scanned_one c))

  abbrev pub in_partition : Bytes → List Bytes → List (Bytes × Bytes)
  in_partition pk [] = []
  in_partition pk (sk ∷ sks) = (pk, sk) ∷ in_partition pk sks

  abbrev pub delete_records : Bytes → BlobCounts × List Bytes → kv.State → kv.State × BlobCounts
  delete_records pk (c, del_sks) s = if is_empty del_sks || dry_run then (s, c) else (
    (delete_batch kv table_blobs (in_partition pk del_sks) s).0,
    record c { deleted = (c.deleted + length del_sks) % u64_mod },
  )

  -- The body of the loop over batches.
  unfoldable pub sweep_batch :
      Bytes → List (Bytes × V) → kv.State → BlobCounts → kv.State × BlobCounts
  unfolding count_items delete_batch
  sweep_batch pk items s c = delete_records pk (count_items items (c, [])) s

  abbrev pub add_counts : BlobCounts → BlobCounts → BlobCounts
  add_counts a b = record {
    scanned = (a.scanned + b.scanned) % u64_mod;
    scanned_bytes = (a.scanned_bytes + b.scanned_bytes) % u64_mod;
    deleted = (a.deleted + b.deleted) % u64_mod;
    live_count = (a.live_count + b.live_count) % u64_mod;
    live_bytes = (a.live_bytes + b.live_bytes) % u64_mod;
  }

  module _ (fuel : ℕ) (cancelled : ℕ → ℕ → Bool)
      (others between : ℕ → ℕ → kv.State → kv.State) where
    abbrev pub after_shard :
        BlobCounts
        → Option (kv.State × Result BlobCounts)
        → (kv.State → BlobCounts → Option (kv.State × Result BlobCounts))
        → Option (kv.State × Result BlobCounts)
    after_shard c none rest = none
    after_shard c (some (s, err e)) rest = some (s, err e)
    after_shard c (some (s, ok local)) rest = rest s (add_counts c local)

    -- The tasks of the shards, one after the other.
    unfoldable pub sweep_shards :
        Bytes → List ℕ → kv.State → BlobCounts → Option (kv.State × Result BlobCounts)
    unfolding shard_loop sweep_batch blob_shard_pk
    sweep_shards store [] s c = some (s, ok c)
    sweep_shards store (shard ∷ shards) s c =
        after_shard c
          (shard_loop kv (others shard) (between shard) (cancelled shard)
            (sweep_batch (blob_shard_pk store shard)) fuel table_blobs (blob_shard_pk store shard)
            [] s no_counts)
          (λ s' c'. sweep_shards store shards s' c')

    unfoldable pub sweep_records : Bytes → kv.State → Option (kv.State × Result BlobCounts)
    unfolding sweep_shards
    sweep_records store s = sweep_shards store (below_from num_shards 0) s no_counts

  module _ (stats : Codec StoreStatsRecord V) (now : ℕ) where
    -- The numbers of a store are written anew from the records that are referenced.
    unfoldable pub put_live_stats : Bytes → BlobCounts → kv.State → kv.State
    put_live_stats store c s =
        kv.put (store_stats_key store)
          (stats.to_vec
            (record { blob_count = c.live_count; total_bytes = c.live_bytes; updated_at = now }))
          s
