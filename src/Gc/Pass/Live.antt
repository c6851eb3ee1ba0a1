-- ===== src/Gc/Pass/Live.antt =====
-- No pass deletes the file of a live blob.
use artifact_depot.Base.{ℕ, ◌≡◌, Bool, List, Option, some, none}
use artifact_depot.Base.Bytes.{Bytes}
use artifact_depot.Keys.Normalize.{normalize_path}
use artifact_depot.Keys.Tree.{NulFree}
use artifact_depot.Kv.{KvStore, KvLaws}
use artifact_depot.Kv.Codec.{Codec}
use artifact_depot.Service.Artifact.{ArtifactRecord, TreeEntry}
use artifact_depot.Service.Blob.{BlobRecord}
use artifact_depot.Service.Error.{Result, ok}
use artifact_depot.Update.Stats.{StoreStatsRecord}
use artifact_depot.Gc.Bloom.{BloomCrate, BloomLaws}
use artifact_depot.Gc.Expiry.{CleanupRepo}
use artifact_depot.Gc.Orphans.{OrphanKey, Sweep, Walk}
use artifact_depot.Gc.Orphans.Kept.{KeepsOthers}
use artifact_depot.Gc.Pass.{
  GcStats, World, Interference, CancelPoint, in_scan, sweep_stores, walked,
}
use artifact_depot.Gc.Records.{BlobCounts}
use artifact_depot.Gc.Scan.{Marked}
use artifact_depot.Gc.Scan.Finds.{EndsMarked}
use artifact_depot.Gc.Scan.Live.{IsLive}

module _ {K V B : Type 0} (kv : KvStore V) (laws : KvLaws kv) (blake3 : Bytes → ℕ → ℕ)
    (records : Codec (ArtifactRecord K) V) (trees : Codec (TreeEntry K) V)
    (blobs : Codec BlobRecord V) (stats : Codec StoreStatsRecord V) (crate : BloomCrate)
    (blaws : BloomLaws crate) (remove : Bytes → Bytes → B → B) (holds : B → OrphanKey → Bool)
    (keeps : KeepsOthers remove holds) (now max_orphan_candidates : ℕ) (dry_run : Bool) (fuel : ℕ)
    (cancelled : CancelPoint → Bool) (interference : Interference kv.State) where
  abbrev walk_of : ℕ → (Bytes → Bool) → Bytes → Walk → Sweep B → Sweep B
  walk_of =
      walked kv blake3 records trees blobs stats crate remove now max_orphan_candidates dry_run fuel
        cancelled interference

  abbrev sweep_of :
      ℕ
      → (Bytes → Bool)
      → List (Bytes × Walk)
      → kv.State
      → Sweep B
      → BlobCounts
      → Option (kv.State × Sweep B × Result BlobCounts)
  sweep_of =
      sweep_stores kv blake3 records trees blobs stats crate remove now max_orphan_candidates
        dry_run fuel cancelled interference

  -- The file of the key is as it was.
  abbrev SweptWith : OrphanKey → B → Option (kv.State × Sweep B × Result BlobCounts) → Type 0
  SweptWith key files none = Unit
  SweptWith key files (some (s, w, c)) = holds w.files key ≡ holds files key

  abbrev PassedWith : OrphanKey → B → Option (World kv.State B × Result GcStats) → Type 0
  PassedWith key files none = Unit
  PassedWith key files (some (world, result)) = holds world.files key ≡ holds files key

  module _ (target : CleanupRepo) (p : Bytes) (v : V) (r : ArtifactRecord K) (b : Bytes)
      (readable : records.from_slice v ≡ ok r) (has_blob : r.blob_id ≡ some b)
      (target_free : NulFree target.name) (normal : normalize_path p ≡ p)
      (path_free : NulFree p) where
    abbrev pub Live : kv.State → Type 0
    Live = IsLive kv laws blake3 records trees crate blaws now dry_run target p v r

    module _
        (others-Live : (task : CleanupRepo × ℕ) (n : ℕ) (s : kv.State)
          → Live s
          → Live (interference.scan_others task n s))
        (between-Live : (task : CleanupRepo × ℕ) (n : ℕ) (s : kv.State)
          → Live s
          → Live (interference.scan_between task n s)) where
      abbrev Ends : crate.Filter → Option (kv.State × Result Marked) → Type 0
      Ends template =
          EndsMarked kv laws blake3 records trees crate blaws now dry_run template fuel
            (λ task n. cancelled (in_scan task n)) interference.scan_others
            interference.scan_between target p v r b readable has_blob target_free normal path_free
            others-Live between-Live

      abbrev Passes :
          OrphanKey → World kv.State B → Option (World kv.State B × Result GcStats) → Type 0
      Passes key world x = PassedWith key world.files x
