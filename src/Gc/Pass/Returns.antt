-- ===== src/Gc/Pass/Returns.antt =====
-- A pass ends.
use artifact_depot.Base.{ℕ, ◌≡◌, refl, ◌+◌, ◌%◌, Bool, false, List, [], ◌∷◌, some, All}
use artifact_depot.Base.Bytes.{Bytes}
use artifact_depot.Keys.Tree.{NulFree}
use artifact_depot.Keys.Shard.{table_blobs, blob_shard_pk, num_shards}
use artifact_depot.Kv.{KvStore, KvLaws, u64_mod}
use artifact_depot.Kv.Codec.{Codec}
use artifact_depot.Service.Artifact.{ArtifactRecord, TreeEntry}
use artifact_depot.Service.Blob.{BlobRecord}
use artifact_depot.Service.Error.{Result, ok}
use artifact_depot.Update.Stats.{StoreStatsRecord}
use artifact_depot.Gc.Bloom.{BloomCrate, BloomLaws}
use artifact_depot.Gc.Bloom.Merged.{empty_like-IsAccumulator, finalize-ok}
use artifact_depot.Gc.Expiry.{CleanupRepo}
use artifact_depot.Gc.Orphans.{Sweep, Walk}
use artifact_depot.Gc.Pass.{
  GcStats, Preparation, World, Interference, sweep_stores, walked, start_sweep, nothing_marked,
  gc_pass,
}
use artifact_depot.Gc.Pass.Tasks.{scan_tasks-All}
use artifact_depot.Gc.Pass.Total.{Removes, scan_all-returns, put_live_stats-Shrinks}
use artifact_depot.Gc.Records.{BlobCounts, no_counts, put_live_stats, add_counts}
use artifact_depot.Gc.Records.Ends.{sweep_shards-returns, blob_shard_pk-NulFree}
use artifact_depot.Gc.Scan.{scan_tasks, below_from}
use artifact_depot.Gc.Shard.Returns.{Shrinks-trans, FitsIn, Shrinks-FitsIn}

module _ {K V B : Type 0} (kv : KvStore V) (laws : KvLaws kv) (blake3 : Bytes → ℕ → ℕ)
    (records : Codec (ArtifactRecord K) V) (trees : Codec (TreeEntry K) V)
    (blobs : Codec BlobRecord V) (stats : Codec StoreStatsRecord V) (crate : BloomCrate)
    (blaws : BloomLaws crate) (remove : Bytes → Bytes → B → B) (now max_orphan_candidates : ℕ)
    (dry_run : Bool) (fuel : ℕ) (interference : Interference kv.State)
    (scan_others-Removes : (task : CleanupRepo × ℕ) (n : ℕ)
      → Removes kv (interference.scan_others task n))
    (scan_between-Removes : (task : CleanupRepo × ℕ) (n : ℕ)
      → Removes kv (interference.scan_between task n))
    (sweep_others-Removes : (store : Bytes) (shard n : ℕ)
      → Removes kv (interference.sweep_others store shard n))
    (sweep_between-Removes : (store : Bytes) (shard n : ℕ)
      → Removes kv (interference.sweep_between store shard n)) where
  sweep_stores-returns :
      (pass : ℕ) (combined : Bytes → Bool) (stores : List (Bytes × Walk)) (s : kv.State)
      (w : Sweep B) (c : BlobCounts)
      → All (λ (store : Bytes × Walk). NulFree store.0) stores
      → ((pk : Bytes) → NulFree pk → FitsIn kv fuel table_blobs pk s)
      → (s' : kv.State) × (w' : Sweep B) × (c' : BlobCounts) × (sweep_stores kv blake3 records trees
            blobs stats crate remove now max_orphan_candidates dry_run fuel
            (λ point. false)
            interference
            pass
            combined
            stores
            s
            w
            c
          ≡ some (s', w', ok c'))
  unfolding sweep_stores
  sweep_stores-returns pass combined [] s w c free fits = (s, w, c, refl)
  sweep_stores-returns pass combined ((store, walk) ∷ stores) s w c free fits =
      let (s', found, e, smaller) =
        sweep_shards-returns kv laws blobs combined dry_run fuel (interference.sweep_others store)
          (interference.sweep_between store) (λ n m. sweep_others-Removes store n m table_blobs)
          (λ n m. sweep_between-Removes store n m table_blobs) store (below_from num_shards 0) s
          no_counts free.0
          (λ n. fits (blob_shard_pk store n) (blob_shard_pk-NulFree store n free.0)) in
      let s'' = put_live_stats kv blobs combined dry_run stats now store found s' in
      let less =
        Shrinks-trans kv laws table_blobs s s' s'' smaller
          (put_live_stats-Shrinks kv laws stats blobs combined dry_run now store found s') in
      let (t, w', c', e') =
        sweep_stores-returns pass combined stores s''
          (walked kv blake3 records trees blobs stats crate remove now max_orphan_candidates dry_run
            fuel (λ point. false) interference pass combined store walk w)
          (add_counts kv blobs combined dry_run c found) free.1
          (λ pk f. Shrinks-FitsIn kv laws fuel s s'' table_blobs pk f less (fits pk f)) in
      (t, w', c', rw e e')

  -- If the preparations succeed, the crate makes the filter, no name has a NUL, other callers only
  -- remove records during the pass, and the pass is not cancelled: with more fuel than any
  -- partition has entries, the pass ends, and succeeds.
  pub gc_pass-returns :
      (prepare : kv.State → kv.State × Result Preparation) (world : World kv.State B) (s : kv.State)
      (prep : Preparation) (template : crate.Filter)
      → prepare world.store ≡ (s, ok prep)
      → All (λ (repo : CleanupRepo). NulFree repo.name) prep.repos
      → All (λ (store : Bytes × Walk). NulFree store.0) prep.stores
      → ((table pk : Bytes) → NulFree pk → FitsIn kv fuel table pk s)
      → (world' : World kv.State B) × (result : GcStats) × (gc_pass kv blake3 records trees blobs
            stats crate remove now max_orphan_candidates dry_run fuel
            (λ point. false)
            interference
            prepare
            (ok template)
            world
          ≡ some (world', ok result))
  unfolding gc_pass
  gc_pass-returns prepare world s prep template done repos_free stores_free fits =
      let pass = (world.state.pass + 1) % u64_mod in
      let (s', m, e, a, smaller) =
        scan_all-returns kv laws blake3 records trees crate blaws now dry_run fuel template
          interference.scan_others interference.scan_between scan_others-Removes
          scan_between-Removes (scan_tasks prep.repos) s
          (nothing_marked kv blake3 records trees blobs stats crate remove now max_orphan_candidates
            dry_run fuel (λ point. false) interference template)
          (scan_tasks-All (λ repo. NulFree repo.name) prep.repos repos_free)
          (empty_like-IsAccumulator crate template) fits in
      let (g, e', shape, bitmap) = finalize-ok crate blaws template m.acc a in
      let (t, w', c', e'') =
        sweep_stores-returns pass (crate.check g) prep.stores s'
          (start_sweep kv blake3 records trees blobs stats crate remove now max_orphan_candidates
            dry_run fuel (λ point. false) interference (crate.check g) world)
          no_counts stores_free
          (λ pk f.
            Shrinks-FitsIn kv laws fuel s s' table_blobs pk f (smaller table_blobs)
              (fits table_blobs pk f)) in
      (
        record {
          store = t;
          files = w'.files;
          state = record { orphan_candidates = w'.candidates; pass = pass };
        },
        record {
          drained_repos = prep.drained_repos;
          cleaned_upload_sessions = prep.cleaned_upload_sessions;
          scanned_artifacts = m.scanned_artifacts;
          expired_artifacts = (m.expired_artifacts + prep.pre_expired) % u64_mod;
          docker_deleted = prep.docker_deleted;
          scanned_blobs = c'.scanned;
          deleted_dedup_refs = c'.deleted;
          orphaned_blobs_deleted = w'.orphaned_blobs_deleted;
          orphaned_blob_bytes_deleted = w'.orphaned_blob_bytes_deleted;
        },
        rw (done, e, e', e'') refl,
      )
