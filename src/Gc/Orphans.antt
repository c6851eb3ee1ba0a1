-- ===== src/Gc/Orphans.antt =====
-- server/src/server/worker/blob_reaper/gc_pass.rs: the candidates for deletion, and the walk over
-- the files of the blob stores. The map of candidates is a list with one entry for a key, and
-- `files` is what the blob stores hold; `delete` of a blob store is the parameter `remove`, whose
-- failures the source ignores. The deletions, which run beside the walk, stand where they are
-- started.
pub mod Lookup
pub mod Rounds
pub mod Kept
pub mod Collected
pub mod Full
use artifact_depot.Base.{
  ℕ, ◌+◌, ◌-◌, ◌%◌, Bool, true, false, not, ◌&&◌, List, [], ◌∷◌, Option, some, none, leb,
  if◌then◌else◌, length,
}
use artifact_depot.Base.Bytes.{Bytes, bytes_eq}
use artifact_depot.Kv.{u64_mod}

pub record OrphanCandidate : Type 0 where
  pub first_seen_pass : ℕ

-- `(store_name, blob_id)`
abbrev pub OrphanKey : Type 0
OrphanKey = Bytes × Bytes

abbrev pub Candidates : Type 0
Candidates = List (OrphanKey × OrphanCandidate)

pub record GcState : Type 0 where
  pub orphan_candidates : Candidates
  pub pass : ℕ

abbrev pub orphan_eq : OrphanKey → OrphanKey → Bool
orphan_eq (s, b) (t, c) = bytes_eq s t && bytes_eq b c

unfoldable pub candidate : OrphanKey → Candidates → Option OrphanCandidate
candidate key [] = none
candidate key ((k, c) ∷ r) = if orphan_eq k key then some c else candidate key r

unfoldable pub drop_candidate : OrphanKey → Candidates → Candidates
drop_candidate key [] = []
drop_candidate key ((k, c) ∷ r) =
    let rest = drop_candidate key r in if orphan_eq k key then rest else (k, c) ∷ rest

-- The candidates whose blob is referenced again are dropped.
unfoldable pub retain_unreferenced : (Bytes → Bool) → Candidates → Candidates
retain_unreferenced check [] = []
retain_unreferenced check (((s, b), c) ∷ r) =
    let rest = retain_unreferenced check r in if check b then rest else ((s, b), c) ∷ rest

-- The state of the sweep: the candidates, the files, and two counters.
pub record Sweep (B : Type 0) : Type 0 where
  pub candidates : Candidates
  pub files : B
  pub orphaned_blobs_deleted : ℕ
  pub orphaned_blob_bytes_deleted : ℕ

-- `current_pass - c.first_seen_pass`, in 64 bits
abbrev pub passes_since : ℕ → OrphanCandidate → ℕ
passes_since current_pass c = (current_pass + u64_mod - c.first_seen_pass) % u64_mod

-- What a store of the registry answers to its walk: an item of a shard or an error. A store that is
-- not in the registry is skipped.
abbrev pub Walk : Type 0
Walk = Option (List (Option (Bytes × ℕ)))

module _ {B : Type 0} (remove : Bytes → Bytes → B → B) (current_pass : ℕ)
    (max_orphan_candidates : ℕ) (dry_run : Bool) where
  unfoldable pub delete_orphan : OrphanKey → ℕ → Sweep B → Sweep B
  unfolding drop_candidate
  delete_orphan (store_name, blob_id) size w = record {
    candidates = drop_candidate (store_name, blob_id) w.candidates;
    files = if dry_run then w.files else remove store_name blob_id w.files;
    orphaned_blobs_deleted = (w.orphaned_blobs_deleted + 1) % u64_mod;
    orphaned_blob_bytes_deleted = (w.orphaned_blob_bytes_deleted + size) % u64_mod;
  }

  unfoldable pub insert_candidate : OrphanKey → Sweep B → Sweep B
  insert_candidate key w =
      if leb max_orphan_candidates (length w.candidates)
      then w
      else record w { candidates = (key, record { first_seen_pass = current_pass }) ∷ w.candidates }

  abbrev pub judge : OrphanKey → ℕ → Option OrphanCandidate → Sweep B → Sweep B
  judge key size (some c) w =
      if leb 1 (passes_since current_pass c) then delete_orphan key size w else w
  judge key size none w = insert_candidate key w

  -- The body of the loop over the orphans that arrive.
  unfoldable pub consume_orphan : Bytes → Bytes × ℕ → Sweep B → Sweep B
  unfolding candidate delete_orphan insert_candidate
  consume_orphan store_name (blob_id, size) w =
      judge (store_name, blob_id) size (candidate (store_name, blob_id) w.candidates) w

  module _ (check : Bytes → Bool) where
    -- One item of a walk: an error is logged, and a blob that the filter finds is no orphan.
    unfoldable pub walk_item : Bytes → Option (Bytes × ℕ) → Sweep B → Sweep B
    unfolding consume_orphan
    walk_item store_name none w = w
    walk_item store_name (some (blob_id, size)) w =
        if check blob_id then w else consume_orphan store_name (blob_id, size) w

    -- The items of all shards, in the order in which they arrive.
    unfoldable pub walk_store : Bytes → List (Option (Bytes × ℕ)) → Sweep B → Sweep B
    unfolding walk_item
    walk_store store_name [] w = w
    walk_store store_name (item ∷ items) w =
        walk_store store_name items (walk_item store_name item w)

    unfoldable pub walk_stores : List (Bytes × Walk) → Sweep B → Sweep B
    unfolding walk_store
    walk_stores [] w = w
    walk_stores ((store_name, none) ∷ stores) w = walk_stores stores w
    walk_stores ((store_name, some items) ∷ stores) w =
        walk_stores stores (walk_store store_name items w)

    -- The files of all stores: the candidates that are referenced again go first.
    unfoldable pub sweep_files : List (Bytes × Walk) → Candidates → B → Sweep B
    unfolding walk_stores retain_unreferenced
    sweep_files stores candidates files = walk_stores stores (record {
      candidates = retain_unreferenced check candidates;
      files = files;
      orphaned_blobs_deleted = 0;
      orphaned_blob_bytes_deleted = 0;
    })
