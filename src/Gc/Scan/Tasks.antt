-- ===== src/Gc/Scan/Tasks.antt =====
-- One task of the scan: what it keeps, and that it marks the live blobs of its shard.
use artifact_depot.Base.{ℕ, ◌≡◌, refl, Bool, true, [], Option, some, none, drop, ◌+◌, ◌%◌, ◌++◌}
use mathlib.Core.Path.{subst}
use artifact_depot.Base.Bytes.{Bytes, bytes_lt}
use artifact_depot.Keys.Normalize.{normalize_path}
use artifact_depot.Keys.Tree.{NulFree}
use artifact_depot.Keys.Shard.{artifact_key, table_artifacts, artifact_shard_pk}
use artifact_depot.Kv.{KvStore, KvLaws, u64_mod}
use artifact_depot.Kv.Codec.{Codec}
use artifact_depot.Service.Artifact.{ArtifactRecord, TreeEntry}
use artifact_depot.Service.Error.{Result, ok, err}
use artifact_depot.Gc.Bloom.{BloomCrate, BloomLaws, SameShape, AllHaveBits, header_len}
use artifact_depot.Gc.Bloom.Merged.{IsAccumulator, or_from-ok, bloom_empty_like-SameShape}
use artifact_depot.Gc.Expiry.{CleanupRepo}
use artifact_depot.Gc.Scan.{ShardScan, Marked, scan_batch, merged, task_end, scan_shard}
use artifact_depot.Gc.Scan.Batch.{
  scan_batch-SameShape, scan_batch-marks, scan_batch-keeps, set-finds,
}
use artifact_depot.Gc.Scan.Live.{IsLive, scan_batch-IsLive, in_shard}
use artifact_depot.Gc.Shard.{shard_loop}
use artifact_depot.Gc.Shard.Keeps.{shard_loop-keeps, KeptIn}
use artifact_depot.Gc.Shard.Reaches.{shard_loop-reaches}

module _ {K V : Type 0} (kv : KvStore V) (laws : KvLaws kv) (blake3 : Bytes → ℕ → ℕ)
    (records : Codec (ArtifactRecord K) V) (trees : Codec (TreeEntry K) V) (crate : BloomCrate)
    (blaws : BloomLaws crate) (now : ℕ) (dry_run : Bool) (template : crate.Filter) where
  open crate use {Filter, as_slice, check}

  -- The accumulator has the bits of a filter that finds the blob.
  abbrev pub Marks : Bytes → Marked → Type 0
  Marks b m =
      (f : Filter) × SameShape crate template f
      × (check f b ≡ true)
      × AllHaveBits m.acc.bits (drop (header_len crate template) (as_slice f))

  abbrev pub Grown : Marked → Marked → Type 0
  Grown m m' = IsAccumulator crate template m'.acc × AllHaveBits m'.acc.bits m.acc.bits

  -- The end of a task whose filter has the parameters of the template.
  pub merged-ok :
      (l : ShardScan Filter) (m : Marked)
      → IsAccumulator crate template m.acc
      → SameShape crate template l.local_bf
      → (m' : Marked) × (merged kv blake3 records trees crate now dry_run l m ≡ ok m')
        × Grown m m'
        × AllHaveBits m'.acc.bits (drop (header_len crate template) (as_slice l.local_bf))
  merged-ok l m a shape =
      let (acc, e, (a', grows, has)) = or_from-ok crate template l.local_bf m.acc a shape in
      (
        record {
          acc = acc;
          scanned_artifacts = (m.scanned_artifacts + l.local_scanned) % u64_mod;
          expired_artifacts = (m.expired_artifacts + l.local_expired) % u64_mod;
          dir_events = m.dir_events ++ l.events;
        },
        rw e refl,
        (a', grows),
        has,
      )

  module _ (fuel : ℕ) (cancelled : CleanupRepo × ℕ → ℕ → Bool)
      (others between : CleanupRepo × ℕ → ℕ → kv.State → kv.State) (target : CleanupRepo)
      (p : Bytes) (v : V) (r : ArtifactRecord K) (b : Bytes)
      (readable : records.from_slice v ≡ ok r) (has_blob : r.blob_id ≡ some b)
      (target_free : NulFree target.name) (normal : normalize_path p ≡ p)
      (path_free : NulFree p) where
    abbrev pub Live : kv.State → Type 0
    Live = IsLive kv laws blake3 records trees crate blaws now dry_run target p v r

    module _
        (others-Live : (task : CleanupRepo × ℕ) (n : ℕ) (s : kv.State)
          → Live s
          → Live (others task n s))
        (between-Live : (task : CleanupRepo × ℕ) (n : ℕ) (s : kv.State)
          → Live s
          → Live (between task n s)) where
      -- A task of another repository, or of this one as it is configured.
      abbrev pub IsOwn : CleanupRepo × ℕ → Type 0
      IsOwn (repo, n) = NulFree repo.name × (repo.name ≡ target.name → repo ≡ target)

      -- What the loop of a task ends with.
      abbrev Looped :
          (ShardScan Filter → Type 0) → Option (kv.State × Result (ShardScan Filter)) → Type 0
      Looped Q x = KeptIn Live Q x

      abbrev loop_of :
          CleanupRepo × ℕ → kv.State → Filter → Option (kv.State × Result (ShardScan Filter))
      loop_of (repo, n) s bf =
          shard_loop kv (others (repo, n)) (between (repo, n)) (cancelled (repo, n))
            (scan_batch kv blake3 records trees crate now dry_run repo) fuel table_artifacts
            (artifact_shard_pk repo.name n) [] s
            (record { local_bf = bf; local_scanned = 0; local_expired = 0; events = [] })

      loop_keeps :
          (task : CleanupRepo × ℕ) (s : kv.State) (bf : Filter)
          → IsOwn task
          → Live s
          → SameShape crate template bf
          → Looped (λ l. SameShape crate template l.local_bf) (loop_of task s bf)
      loop_keeps (repo, n) s bf own live shape =
          shard_loop-keeps kv laws (others (repo, n)) (between (repo, n)) (cancelled (repo, n))
            (scan_batch kv blake3 records trees crate now dry_run repo) table_artifacts
            (artifact_shard_pk repo.name n) Live (λ l. SameShape crate template l.local_bf)
            (others-Live (repo, n)) (between-Live (repo, n))
            (λ items seen t l from before now_live.
              scan_batch-IsLive kv laws blake3 records trees crate blaws now dry_run target p v r
                readable target_free normal path_free repo own.0 own.1 n seen t before now_live
                items l from)
            (λ items t l h.
              scan_batch-SameShape kv blake3 records trees crate blaws now dry_run repo template
                items t l h)
            fuel [] s (record { local_bf = bf; local_scanned = 0; local_expired = 0; events = [] })
            live shape

      -- The task of the record's own shard marks its blob.
      loop_finds :
          (n : ℕ) (s s' : kv.State) (bf : Filter) (l : ShardScan Filter)
          → artifact_key blake3 target.name p ≡ in_shard target.name n p
          → Live s
          → loop_of (target, n) s bf ≡ some (s', ok l)
          → check l.local_bf b ≡ true
      unfolding bytes_lt
      loop_finds n s s' bf l at live e =
          (shard_loop-reaches kv laws (others (target, n)) (between (target, n))
            (cancelled (target, n)) (scan_batch kv blake3 records trees crate now dry_run target)
            table_artifacts (artifact_shard_pk target.name n) p v Live
            (λ l'. check l'.local_bf b ≡ true) (λ t h. subst (λ k. kv.get t k ≡ some v) at h.here)
            (others-Live (target, n)) (between-Live (target, n))
            (λ items seen t l' from before now_live.
              scan_batch-IsLive kv laws blake3 records trees crate blaws now dry_run target p v r
                readable target_free normal path_free target target_free (λ same. refl) n seen t
                before now_live items l' from)
            (λ items t l' h held.
              scan_batch-marks kv blake3 records trees crate blaws now dry_run target p v r b
                readable has_blob items t l' h.live held)
            (λ items t l' h found.
              scan_batch-keeps kv blake3 records trees crate blaws now dry_run target
                (λ f. check f b ≡ true)
                (set-finds kv blake3 records trees crate blaws now dry_run target b) items t l'
                found)
            fuel [] s s'
            (record { local_bf = bf; local_scanned = 0; local_expired = 0; events = [] }) l live
            refl e).0

      abbrev pub TaskEnds : Marked → Option (kv.State × Result Marked) → Type 0
      TaskEnds m none = Unit
      TaskEnds m (some (s, err e)) = Unit
      TaskEnds m (some (s, ok m')) = Live s × Grown m m'

      abbrev pub TaskMarks : Option (kv.State × Result Marked) → Type 0
      TaskMarks none = Unit
      TaskMarks (some (s, err e)) = Unit
      TaskMarks (some (s, ok m')) = Marks b m'

      ends_grown :
          (s : kv.State) (l : ShardScan Filter) (m : Marked)
          → IsAccumulator crate template m.acc
          → SameShape crate template l.local_bf
          → Live s
          → TaskEnds m (some (s, merged kv blake3 records trees crate now dry_run l m))
      ends_grown s l m a shape live =
          let (m', e, grown, has) = merged-ok l m a shape in rw e (live, grown)

      ends_marked :
          (s : kv.State) (l : ShardScan Filter) (m : Marked)
          → IsAccumulator crate template m.acc
          → SameShape crate template l.local_bf
          → check l.local_bf b ≡ true
          → TaskMarks (some (s, merged kv blake3 records trees crate now dry_run l m))
      ends_marked s l m a shape found =
          let (m', e, grown, has) = merged-ok l m a shape in rw e (l.local_bf, shape, found, has)

      pub scan_shard-grows :
          (task : CleanupRepo × ℕ) (s : kv.State) (m : Marked)
          → IsOwn task
          → IsAccumulator crate template m.acc
          → Live s
          → TaskEnds m (
              scan_shard kv blake3 records trees crate now dry_run template fuel cancelled others
                between task s m)
      unfolding scan_shard
      scan_shard-grows task s m own a live =
          let (bf, e, shape) = bloom_empty_like-SameShape crate blaws template in
          rw e (looped (loop_of task s bf) (loop_keeps task s bf own live shape))
        where
          looped :
              (x : Option (kv.State × Result (ShardScan Filter)))
              → Looped (λ l. SameShape crate template l.local_bf) x
              → TaskEnds m (task_end kv blake3 records trees crate now dry_run x m)
          looped none h = tt
          looped (some (t, err e)) h = tt
          looped (some (t, ok l)) (live', shape) = ends_grown t l m a shape live'

      pub scan_shard-marks :
          (n : ℕ) (s : kv.State) (m : Marked)
          → artifact_key blake3 target.name p ≡ in_shard target.name n p
          → IsAccumulator crate template m.acc
          → Live s
          → TaskMarks (
              scan_shard kv blake3 records trees crate now dry_run template fuel cancelled others
                between
                (target, n)
                s
                m)
      unfolding scan_shard
      scan_shard-marks n s m at a live =
          let (bf, e, shape) = bloom_empty_like-SameShape crate blaws template in
          rw e (
            looped (loop_of (target, n) s bf)
              (loop_keeps (target, n) s bf (target_free, λ same. refl) live shape)
              (λ s' l found. loop_finds n s s' bf l at live found))
        where
          looped :
              (x : Option (kv.State × Result (ShardScan Filter)))
              → Looped (λ l. SameShape crate template l.local_bf) x
              → ((s' : kv.State) (l : ShardScan Filter)
                  → x ≡ some (s', ok l)
                  → check l.local_bf b ≡ true)
              → TaskMarks (task_end kv blake3 records trees crate now dry_run x m)
          looped none h f = tt
          looped (some (t, err e)) h f = tt
          looped (some (t, ok l)) (live', shape) f = ends_marked t l m a shape (f t l refl)
