-- ===== src/Gc/Pass.antt =====
-- server/src/server/worker/blob_reaper/gc_pass.rs: one pass of the collection. `prepare` is what
-- comes before the scan (drained repositories, stale uploads, the expiry and the collection of
-- Docker repositories), with the repositories and the stores that it lists; `estimate` is the
-- filter for the estimated number of artifacts, or an error of the crate.
pub mod Tasks
pub mod Live
pub mod Total
pub mod Returns
use artifact_depot.Base.{
  ℕ, ◌+◌, ◌%◌, Bool, true, false, List, [], ◌∷◌, Option, some, none, if◌then◌else◌,
}
use artifact_depot.Base.Bytes.{Bytes}
use artifact_depot.Kv.{KvStore, u64_mod}
use artifact_depot.Kv.Codec.{Codec}
use artifact_depot.Service.Error.{Result, ok, err, ◌>>=◌, DepotError}
use artifact_depot.Service.Artifact.{ArtifactRecord, TreeEntry}
use artifact_depot.Service.Blob.{BlobRecord}
use artifact_depot.Update.Stats.{StoreStatsRecord}
use artifact_depot.Update.Deltas.{DirDelta}
use artifact_depot.Gc.Bloom.{BloomCrate, empty_like, finalize}
use artifact_depot.Gc.Expiry.{CleanupRepo}
use artifact_depot.Gc.Orphans.{GcState, Candidates, Sweep, Walk, retain_unreferenced, walk_store}
use artifact_depot.Gc.Records.{BlobCounts, no_counts, add_counts, sweep_records, put_live_stats}
use artifact_depot.Gc.Scan.{Marked, scan_all, scan_tasks}

pub record GcStats : Type 0 where
  pub drained_repos : ℕ
  pub cleaned_upload_sessions : ℕ
  pub scanned_artifacts : ℕ
  pub expired_artifacts : ℕ
  pub docker_deleted : ℕ
  pub scanned_blobs : ℕ
  pub deleted_dedup_refs : ℕ
  pub orphaned_blobs_deleted : ℕ
  pub orphaned_blob_bytes_deleted : ℕ

-- What the phases before the scan leave: what they list, with what a walk over each store yields,
-- and what they count.
pub record Preparation : Type 0 where
  pub repos : List CleanupRepo
  pub stores : List (Bytes × Walk)
  pub drained_repos : ℕ
  pub cleaned_upload_sessions : ℕ
  pub pre_expired : ℕ
  pub docker_deleted : ℕ

-- The store, the files, and the state that outlives the pass.
pub record World (S B : Type 0) : Type 0 where
  pub store : S
  pub files : B
  pub state : GcState

-- Where a pass looks at the token behind its preparations: before a batch of a task of the scan,
-- with the fuel behind the batch, when the scan is done, and before a batch of the sweep of a
-- store.
pub data CancelPoint : Type 0 where
  in_scan : CleanupRepo × ℕ → ℕ → CancelPoint
  after_scan : CancelPoint
  in_sweep : Bytes → ℕ → ℕ → CancelPoint

-- What other callers do in the tasks of the scan and of the sweep of a store.
pub record Interference (S : Type 0) : Type 0 where
  pub scan_others : CleanupRepo × ℕ → ℕ → S → S
  pub scan_between : CleanupRepo × ℕ → ℕ → S → S
  pub sweep_others : Bytes → ℕ → ℕ → S → S
  pub sweep_between : Bytes → ℕ → ℕ → S → S

module _ {K V B : Type 0} (kv : KvStore V) (blake3 : Bytes → ℕ → ℕ)
    (records : Codec (ArtifactRecord K) V) (trees : Codec (TreeEntry K) V)
    (blobs : Codec BlobRecord V) (stats : Codec StoreStatsRecord V) (crate : BloomCrate)
    (remove : Bytes → Bytes → B → B) (now max_orphan_candidates : ℕ) (dry_run : Bool) (fuel : ℕ)
    (cancelled : CancelPoint → Bool) (interference : Interference kv.State) where
  open crate use {Filter, check}
  open interference use {scan_others, scan_between, sweep_others, sweep_between}

  module _ (pass : ℕ) (combined : Bytes → Bool) where
    abbrev pub walked : Bytes → Walk → Sweep B → Sweep B
    walked store none w = w
    walked store (some items) w =
        walk_store remove pass max_orphan_candidates dry_run combined store items w

    abbrev pub after_records :
        Sweep B
        → BlobCounts
        → Bytes
        → Walk
        → Option (kv.State × Result BlobCounts)
        → (kv.State → Sweep B → BlobCounts → Option (kv.State × Sweep B × Result BlobCounts))
        → Option (kv.State × Sweep B × Result BlobCounts)
    after_records w c store walk none rest = none
    after_records w c store walk (some (s, err e)) rest = some (s, w, err e)
    after_records w c store walk (some (s, ok found)) rest =
        rest (put_live_stats kv blobs combined dry_run stats now store found s)
          (walked store walk w) (add_counts kv blobs combined dry_run c found)

    -- The stores one after the other: first their records, then their files.
    unfoldable pub sweep_stores :
        List (Bytes × Walk)
        → kv.State
        → Sweep B
        → BlobCounts
        → Option (kv.State × Sweep B × Result BlobCounts)
    unfolding sweep_records put_live_stats walk_store
    sweep_stores [] s w c = some (s, w, ok c)
    sweep_stores ((store, walk) ∷ stores) s w c =
        after_records w c store walk
          (sweep_records kv blobs combined dry_run fuel
            (λ shard n. cancelled (in_sweep store shard n)) (sweep_others store)
            (sweep_between store) store s)
          (λ s' w' c'. sweep_stores stores s' w' c')

  abbrev pub swept :
      ℕ
      → Preparation
      → Marked
      → Option (kv.State × Sweep B × Result BlobCounts)
      → Option (World kv.State B × Result GcStats)
  swept pass p m none = none
  swept pass p m (some (s, w, err e)) = some (
    record {
      store = s;
      files = w.files;
      state = record { orphan_candidates = w.candidates; pass = pass };
    },
    err e,
  )
  swept pass p m (some (s, w, ok c)) = some (
    record {
      store = s;
      files = w.files;
      state = record { orphan_candidates = w.candidates; pass = pass };
    },
    ok (record {
      drained_repos = p.drained_repos;
      cleaned_upload_sessions = p.cleaned_upload_sessions;
      scanned_artifacts = m.scanned_artifacts;
      expired_artifacts = (m.expired_artifacts + p.pre_expired) % u64_mod;
      docker_deleted = p.docker_deleted;
      scanned_blobs = c.scanned;
      deleted_dedup_refs = c.deleted;
      orphaned_blobs_deleted = w.orphaned_blobs_deleted;
      orphaned_blob_bytes_deleted = w.orphaned_blob_bytes_deleted;
    }),
  )

  -- The state of a pass that fails before it sweeps.
  abbrev pub failed : ℕ → World kv.State B → kv.State → World kv.State B
  failed pass world s = record {
    store = s;
    files = world.files;
    state = record { orphan_candidates = world.state.orphan_candidates; pass = pass };
  }

  abbrev pub start_sweep : (Bytes → Bool) → World kv.State B → Sweep B
  start_sweep combined world = record {
    candidates = retain_unreferenced combined world.state.orphan_candidates;
    files = world.files;
    orphaned_blobs_deleted = 0;
    orphaned_blob_bytes_deleted = 0;
  }

  abbrev pub with_filter :
      ℕ
      → World kv.State B
      → Preparation
      → kv.State
      → Marked
      → Result Filter
      → Option (World kv.State B × Result GcStats)
  with_filter pass world p s m (err e) = some (failed pass world s, err e)
  with_filter pass world p s m (ok combined) =
      let rest = swept pass p m (
        sweep_stores pass (check combined) p.stores s (start_sweep (check combined) world)
          no_counts) in
      if cancelled after_scan then some (failed pass world s, err DepotError.internal) else rest

  abbrev pub marked :
      ℕ
      → World kv.State B
      → Preparation
      → Option (kv.State × Result Marked)
      → Option (World kv.State B × Result GcStats)
  marked pass world p none = none
  marked pass world p (some (s, err e)) = some (failed pass world s, err e)
  marked pass world p (some (s, ok m)) = with_filter pass world p s m (finalize crate m.acc)

  abbrev pub nothing_marked : Filter → Marked
  nothing_marked template = record {
    acc = empty_like crate template;
    scanned_artifacts = 0;
    expired_artifacts = 0;
    dir_events = [];
  }

  abbrev pub with_template :
      ℕ
      → World kv.State B
      → kv.State
      → Preparation
      → Result Filter
      → Option (World kv.State B × Result GcStats)
  with_template pass world s p (err e) = some (failed pass world s, err e)
  with_template pass world s p (ok template) = marked pass world p (
      scan_all kv blake3 records trees crate now dry_run template fuel
        (λ task n. cancelled (in_scan task n)) scan_others scan_between (scan_tasks p.repos) s
        (nothing_marked template))

  abbrev pub prepared :
      ℕ
      → World kv.State B
      → Result Filter
      → kv.State × Result Preparation
      → Option (World kv.State B × Result GcStats)
  prepared pass world estimate (s, err e) = some (failed pass world s, err e)
  prepared pass world estimate (s, ok p) = with_template pass world s p estimate

  unfoldable pub gc_pass :
      (kv.State → kv.State × Result Preparation)
      → Result Filter
      → World kv.State B
      → Option (World kv.State B × Result GcStats)
  unfolding sweep_stores scan_all scan_tasks finalize empty_like retain_unreferenced
  gc_pass prepare estimate world =
      prepared ((world.state.pass + 1) % u64_mod) world estimate (prepare world.store)
