-- ===== src/Gc/Scan/Finds.antt =====
-- After the scan of all tasks the accumulator has the bits of every live blob.
use artifact_depot.Base.{ℕ, ◌≡◌, ◌⊎◌, inl, inr, Bool, List, [], ◌∷◌, Option, some, none, All}
use artifact_depot.Base.Bytes.{Bytes}
use artifact_depot.Keys.Normalize.{normalize_path}
use artifact_depot.Keys.Tree.{NulFree}
use artifact_depot.Keys.Shard.{artifact_key}
use artifact_depot.Kv.{KvStore, KvLaws}
use artifact_depot.Kv.Codec.{Codec}
use artifact_depot.Service.Artifact.{ArtifactRecord, TreeEntry}
use artifact_depot.Service.Error.{Result, ok, err}
use artifact_depot.Gc.Bloom.{BloomCrate, BloomLaws}
use artifact_depot.Gc.Bloom.Merged.{IsAccumulator, AllHaveBits-trans}
use artifact_depot.Gc.Expiry.{CleanupRepo}
use artifact_depot.Gc.Scan.{Marked, scan_shard, after_task, scan_all}
use artifact_depot.Gc.Scan.Live.{IsLive, in_shard}
use artifact_depot.Gc.Scan.Tasks.{
  Marks, Grown, IsOwn, TaskEnds, TaskMarks, scan_shard-grows, scan_shard-marks,
}

abbrev pub IsTask : CleanupRepo × ℕ → List (CleanupRepo × ℕ) → Type 0
IsTask task [] = ⊥
IsTask task (other ∷ tasks) = (other ≡ task) ⊎ IsTask task tasks

module _ {K V : Type 0} (kv : KvStore V) (laws : KvLaws kv) (blake3 : Bytes → ℕ → ℕ)
    (records : Codec (ArtifactRecord K) V) (trees : Codec (TreeEntry K) V) (crate : BloomCrate)
    (blaws : BloomLaws crate) (now : ℕ) (dry_run : Bool) (template : crate.Filter) where
  open crate use {Filter, as_slice, check}

  module _ (fuel : ℕ) (cancelled : CleanupRepo × ℕ → ℕ → Bool)
      (others between : CleanupRepo × ℕ → ℕ → kv.State → kv.State) (target : CleanupRepo)
      (p : Bytes) (v : V) (r : ArtifactRecord K) (b : Bytes)
      (readable : records.from_slice v ≡ ok r) (has_blob : r.blob_id ≡ some b)
      (target_free : NulFree target.name) (normal : normalize_path p ≡ p)
      (path_free : NulFree p) where
    abbrev Live : kv.State → Type 0
    Live = IsLive kv laws blake3 records trees crate blaws now dry_run target p v r

    module _
        (others-Live : (task : CleanupRepo × ℕ) (n : ℕ) (s : kv.State)
          → Live s
          → Live (others task n s))
        (between-Live : (task : CleanupRepo × ℕ) (n : ℕ) (s : kv.State)
          → Live s
          → Live (between task n s)) where
      abbrev Ends : Marked → Option (kv.State × Result Marked) → Type 0
      Ends =
          TaskEnds kv laws blake3 records trees crate blaws now dry_run template fuel cancelled
            others between target p v r b readable has_blob target_free normal path_free others-Live
            between-Live

      abbrev IsMine : CleanupRepo × ℕ → Type 0
      IsMine =
          IsOwn kv laws blake3 records trees crate blaws now dry_run template fuel cancelled others
            between target p v r b readable has_blob target_free normal path_free others-Live
            between-Live

      abbrev MarksBlob : Marked → Type 0
      MarksBlob = Marks kv laws blake3 records trees crate blaws now dry_run template b

      abbrev Grows : Marked → Marked → Type 0
      Grows = Grown kv laws blake3 records trees crate blaws now dry_run template

      abbrev shard : CleanupRepo × ℕ → kv.State → Marked → Option (kv.State × Result Marked)
      shard =
          scan_shard kv blake3 records trees crate now dry_run template fuel cancelled others
            between

      shard-grows :
          (task : CleanupRepo × ℕ) (s : kv.State) (m : Marked)
          → IsMine task
          → IsAccumulator crate template m.acc
          → Live s
          → Ends m (shard task s m)
      shard-grows =
          scan_shard-grows kv laws blake3 records trees crate blaws now dry_run template fuel
            cancelled others between target p v r b readable has_blob target_free normal path_free
            others-Live between-Live

      abbrev pub EndsMarked : Option (kv.State × Result Marked) → Type 0
      EndsMarked none = Unit
      EndsMarked (some (s, err e)) = Unit
      EndsMarked (some (s, ok m)) = IsAccumulator crate template m.acc × MarksBlob m

      grown-Marks : (m m' : Marked) → Grows m m' → MarksBlob m → MarksBlob m'
      grown-Marks m m' grown (f, shape, found, has) =
          (f, shape, found, AllHaveBits-trans _ m.acc.bits m'.acc.bits has grown.1)

      abbrev scan : List (CleanupRepo × ℕ) → kv.State → Marked → Option (kv.State × Result Marked)
      scan tasks s m =
          scan_all kv blake3 records trees crate now dry_run template fuel cancelled others between
            tasks s m

      -- The tasks behind one.
      chain :
          (tasks : List (CleanupRepo × ℕ)) (m : Marked) (x : Option (kv.State × Result Marked))
          → Ends m x
          → ((s' : kv.State) (m' : Marked) → Live s' → Grows m m' → EndsMarked (scan tasks s' m'))
          → EndsMarked (
              after_task kv blake3 records trees crate now dry_run template fuel cancelled others
                between x
                (λ s' m'. scan tasks s' m'))
      chain tasks m none h k = tt
      chain tasks m (some (t, err e)) h k = tt
      chain tasks m (some (t, ok m')) h k = k t m' h.0 h.1

      still_marked :
          (tasks : List (CleanupRepo × ℕ)) (s : kv.State) (m : Marked)
          → All IsMine tasks
          → IsAccumulator crate template m.acc
          → Live s
          → MarksBlob m
          → EndsMarked (scan tasks s m)
      unfolding scan_all
      still_marked [] s m own a live marks = (a, marks)
      still_marked (task ∷ tasks) s m own a live marks =
          chain tasks m (shard task s m) (shard-grows task s m own.0 a live) (λ s' m' live' grown.
            still_marked tasks s' m' own.1 grown.0 live' (grown-Marks m m' grown marks))

      -- Every scan with a task for the shard of a live record has its blob in the end.
      pub scan_all-marks :
          (n : ℕ) (tasks : List (CleanupRepo × ℕ)) (s : kv.State) (m : Marked)
          → artifact_key blake3 target.name p ≡ in_shard target.name n p
          → All IsMine tasks
          → IsTask (target, n) tasks
          → IsAccumulator crate template m.acc
          → Live s
          → EndsMarked (scan tasks s m)
      unfolding scan_all
      scan_all-marks n [] s m at own here a live = absurd here
      scan_all-marks n (task ∷ tasks) s m at own (inl same) a live =
          next (shard task s m) (shard-grows task s m own.0 a live) (
            rw same (
              scan_shard-marks kv laws blake3 records trees crate blaws now dry_run template fuel
                cancelled others between target p v r b readable has_blob target_free normal
                path_free others-Live between-Live n s m at a live))
        where
          next :
              (x : Option (kv.State × Result Marked))
              → Ends m x
              → TaskMarks kv laws blake3 records trees crate blaws now dry_run template fuel
                  cancelled others between target p v r b readable has_blob target_free normal
                  path_free others-Live between-Live x
              → EndsMarked (
                  after_task kv blake3 records trees crate now dry_run template fuel cancelled
                    others between x
                    (λ s' m'. scan tasks s' m'))
          next none h k = tt
          next (some (t, err e)) h k = tt
          next (some (t, ok m')) h k = still_marked tasks t m' own.1 h.1.0 h.0 k
      scan_all-marks n (task ∷ tasks) s m at own (inr here) a live =
          chain tasks m (shard task s m) (shard-grows task s m own.0 a live)
            (λ s' m' live' grown. scan_all-marks n tasks s' m' at own.1 here grown.0 live')
