-- ===== src/Gc/Pass/Total.antt =====
-- A pass ends.
use artifact_depot.Base.{
  ℕ, ◌≡◌, refl, sym, ap, ◌∙◌, Bool, false, List, [], ◌∷◌, some, All, Bool-cases, inl, inr, ◌||◌,
}
use artifact_depot.Base.Bytes.{Bytes, bytes_eq, is_empty, contains_byte}
use artifact_depot.Keys.Tree.{NulFree}
use artifact_depot.Keys.Shard.{
  KeyTriple, table_artifacts, table_blobs, artifact_shard_pk, store_stats_key,
}
use artifact_depot.Kv.{KvStore, KvLaws, key_eq, value_of}
use artifact_depot.Kv.Codec.{Codec}
use artifact_depot.Service.Artifact.{ArtifactRecord, TreeEntry}
use artifact_depot.Service.Blob.{BlobRecord}
use artifact_depot.Service.Error.{ok}
use artifact_depot.Update.Stats.{StoreStatsRecord}
use artifact_depot.Gc.Bloom.{BloomCrate, BloomLaws, SameShape}
use artifact_depot.Gc.Bloom.Merged.{IsAccumulator, bloom_empty_like-SameShape}
use artifact_depot.Gc.Expiry.{CleanupRepo}
use artifact_depot.Gc.Records.{BlobCounts, put_live_stats}
use artifact_depot.Gc.Scan.{
  ShardScan, Marked, scan_batch, scan_shard, scan_all, expire_entries, sort_items, Expired,
  paths_of,
}
use artifact_depot.Gc.Scan.Batch.{scan_batch-SameShape}
use artifact_depot.Gc.Scan.Deletes.{paired-Shrinks}
use artifact_depot.Gc.Scan.Live.{artifact_shard_pk-NulFree}
use artifact_depot.Gc.Scan.Tasks.{merged-ok}
use artifact_depot.Gc.Shard.Keeps.{shard_loop-ends}
use artifact_depot.Gc.Shard.Returns.{
  Shrinks, Shrinks-trans, FitsIn, shard_loop-returns, Shrinks-FitsIn,
}

module _ {V : Type 0} (kv : KvStore V) where
  -- Nothing is added to the store.
  abbrev pub Removes : (kv.State → kv.State) → Type 0
  Removes f = (table : Bytes) (s : kv.State) → Shrinks kv table s (f s)

module _ {K V : Type 0} (kv : KvStore V) (laws : KvLaws kv) (blake3 : Bytes → ℕ → ℕ)
    (records : Codec (ArtifactRecord K) V) (trees : Codec (TreeEntry K) V) (crate : BloomCrate)
    (blaws : BloomLaws crate) (now : ℕ) (dry_run : Bool) (fuel : ℕ) (template : crate.Filter)
    (others between : CleanupRepo × ℕ → ℕ → kv.State → kv.State)
    (others-Removes : (task : CleanupRepo × ℕ) (n : ℕ) → Removes kv (others task n))
    (between-Removes : (task : CleanupRepo × ℕ) (n : ℕ) → Removes kv (between task n)) where
  -- A batch removes records, and nothing else.
  scan_batch-Shrinks :
      (repo : CleanupRepo) (table : Bytes) (items : List (Bytes × V)) (s : kv.State)
      (l : ShardScan crate.Filter)
      → NulFree repo.name
      → Shrinks kv table s (scan_batch kv blake3 records trees crate now dry_run repo items s l).0
  unfolding scan_batch
  scan_batch-Shrinks repo table items s l free =
      expired (sort_items kv blake3 records trees crate now dry_run repo s items (l, []))
    where
      expired :
          (c : ShardScan crate.Filter × List Expired)
          → Shrinks kv table s (expire_entries kv blake3 records trees crate now dry_run repo c s).0
      expired (l', entries) = elim (Bool-cases (is_empty entries || dry_run)) [
        | inl idle ↦ rw idle (λ pk sk v f g. g)
        | inr some_left ↦
            rw some_left (
              paired-Shrinks kv laws blake3 records trees repo.name free table (paths_of entries) s)
      ]

  -- A task ends, with fuel for its partition.
  scan_shard-returns :
      (repo : CleanupRepo) (n : ℕ) (s : kv.State) (m : Marked)
      → NulFree repo.name
      → IsAccumulator crate template m.acc
      → FitsIn kv fuel table_artifacts (artifact_shard_pk repo.name n) s
      → (s' : kv.State) × (m' : Marked) × (scan_shard kv blake3 records trees crate now dry_run
            template fuel
            (λ task i. false)
            others
            between
            (repo, n)
            s
            m
          ≡ some (s', ok m'))
        × IsAccumulator crate template m'.acc
        × ((table : Bytes) → Shrinks kv table s s')
  unfolding scan_shard
  scan_shard-returns repo n s m free a fits =
      let (bf, e, shape) = bloom_empty_like-SameShape crate blaws template in
      let start : ShardScan crate.Filter = record {
        local_bf = bf;
        local_scanned = 0;
        local_expired = 0;
        events = [];
      } in
      let pk = artifact_shard_pk repo.name n in
      let body = scan_batch kv blake3 records trees crate now dry_run repo in
      let (s', l, e', smaller) =
        shard_loop-returns kv laws table_artifacts pk (artifact_shard_pk-NulFree repo.name n free)
          (others (repo, n)) (between (repo, n)) body
          (λ i. others-Removes (repo, n) i table_artifacts)
          (λ i. between-Removes (repo, n) i table_artifacts)
          (λ items t c. scan_batch-Shrinks repo table_artifacts items t c free) fuel [] s start
          fits in
      let kept =
        shard_loop-ends kv laws (others (repo, n)) (between (repo, n)) (λ i. false) body
          table_artifacts pk (λ t. (table : Bytes) → Shrinks kv table s t)
          (λ c. SameShape crate template c.local_bf)
          (λ i t h table.
            Shrinks-trans kv laws table s t (others (repo, n) i t) (h table)
              (others-Removes (repo, n) i table t))
          (λ i t h table.
            Shrinks-trans kv laws table s t (between (repo, n) i t) (h table)
              (between-Removes (repo, n) i table t))
          (λ items seen t c from before h table.
            Shrinks-trans kv laws table s t (body items t c).0 (h table)
              (scan_batch-Shrinks repo table items t c free))
          (λ items t c q.
            scan_batch-SameShape kv blake3 records trees crate blaws now dry_run repo template items
              t c q)
          fuel [] s s' start (ok l) (λ table pk' sk v f g. g) shape e' in
      let (m', e'', grown, has) =
        merged-ok kv laws blake3 records trees crate blaws now dry_run template l m a kept.1 in
      (s', m', rw (e, e', e'') refl, grown.0, kept.0)

  pub scan_all-returns :
      (tasks : List (CleanupRepo × ℕ)) (s : kv.State) (m : Marked)
      → All (λ (task : CleanupRepo × ℕ). NulFree task.0.name) tasks
      → IsAccumulator crate template m.acc
      → ((table pk : Bytes) → NulFree pk → FitsIn kv fuel table pk s)
      → (s' : kv.State) × (m' : Marked) × (scan_all kv blake3 records trees crate now dry_run
            template fuel
            (λ task i. false)
            others
            between
            tasks
            s
            m
          ≡ some (s', ok m'))
        × IsAccumulator crate template m'.acc
        × ((table : Bytes) → Shrinks kv table s s')
  unfolding scan_all
  scan_all-returns [] s m free a fits = (s, m, refl, a, λ table pk sk v f g. g)
  scan_all-returns ((repo, n) ∷ tasks) s m free a fits =
      let (s', m', e, a', smaller) = scan_shard-returns repo n s m free.0 a (
        fits table_artifacts (artifact_shard_pk repo.name n)
          (artifact_shard_pk-NulFree repo.name n free.0)) in
      let (t, m'', e', a'', smaller') = scan_all-returns tasks s' m' free.1 a' (λ table pk f.
        Shrinks-FitsIn kv laws fuel s s' table pk f (smaller table) (fits table pk f)) in
      (
        t,
        m'',
        rw e e',
        a'',
        λ table. Shrinks-trans kv laws table s s' t (smaller table) (smaller' table),
      )

module _ {V : Type 0} (kv : KvStore V) (laws : KvLaws kv) (stats : Codec StoreStatsRecord V)
    (blobs : Codec BlobRecord V) (check : Bytes → Bool) (dry_run : Bool) (now : ℕ) where
  -- The numbers of a store are no blob record.
  pub put_live_stats-Shrinks :
      (store : Bytes) (c : BlobCounts) (s : kv.State)
      → Shrinks kv table_blobs s (put_live_stats kv blobs check dry_run stats now store c s)
  unfolding put_live_stats
  put_live_stats-Shrinks store c s pk sk v free there =
      let j : KeyTriple = record { table = table_blobs; pk = pk; sk = sk } in
      laws.get_lem s j
      ∙ ap value_of (sym same)
      ∙ sym (laws.get_lem (put_live_stats kv blobs check dry_run stats now store c s) j)
      ∙ there
    where
      k_free : NulFree (store_stats_key store).pk
      k_free = unfold store_stats_key contains_byte in refl

      other :
          key_eq (store_stats_key store) (record { table = table_blobs; pk = pk; sk = sk }) ≡ false
      other = unfold store_stats_key bytes_eq in refl

      same :
          kv.get_versioned
            (put_live_stats kv blobs check dry_run stats now store c s)
            (record { table = table_blobs; pk = pk; sk = sk })
          ≡ kv.get_versioned s (record { table = table_blobs; pk = pk; sk = sk })
      same =
          unfold put_live_stats in
          (laws.put_lem s (store_stats_key store) (record { table = table_blobs; pk = pk; sk = sk })
              (stats.to_vec (record {
                blob_count = c.live_count;
                total_bytes = c.live_bytes;
                updated_at = now;
              }))
              k_free free
            ∙ rw other)
