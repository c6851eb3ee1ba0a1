-- ===== src/Gc/Expiry.antt =====
-- server/src/server/worker/blob_reaper/repo_cleanup.rs: when an artifact is expired, with
-- `is_bookkeeping_path` of format/docker/src/store.rs. Times are nanoseconds since the epoch.
use artifact_depot.Base.{
  ℕ, ◌-◌, ◌*◌, Bool, false, ◌&&◌, ◌||◌, [], ◌∷◌, Option, some, none, ltb, if◌then◌else◌,
}
use artifact_depot.Base.Bytes.{Bytes, bytes, starts_with}
use artifact_depot.Keys.Shard.{tree_entry_key}
use artifact_depot.Kv.{KvStore, Cell}
use artifact_depot.Kv.Codec.{Codec}
use artifact_depot.Service.Error.{Result, ok, err}
use artifact_depot.Service.Artifact.{ArtifactRecord, TreeEntry}

-- `contains` of a text
unfoldable pub contains_text : Bytes → Bytes → Bool
contains_text [] needle = starts_with needle []
contains_text (c ∷ s) needle = starts_with needle (c ∷ s) || contains_text s needle

unfoldable pub is_bookkeeping_path : Bytes → Bool
unfolding contains_text
is_bookkeeping_path path =
    starts_with (bytes "_manifests/") path
    || (starts_with (bytes "_blobs/") path
        || (contains_text path (bytes "/_manifests/") || contains_text path (bytes "/_blobs/")))

pub data ExpiryReason : Type 0 where
  max_age unaccessed : ExpiryReason

-- What the collection reads of a `RepoConfig`.
pub record CleanupRepo : Type 0 where
  pub name : Bytes
  pub is_docker : Bool
  pub cleanup_max_age_days : Option ℕ
  pub cleanup_max_unaccessed_days : Option ℕ

-- `now - chrono::Duration::days(d)`
abbrev pub cutoff : ℕ → Option ℕ → Option ℕ
cutoff now none = none
cutoff now (some d) = some (now - d * 86400000000000)

abbrev pub before_cutoff : Option ℕ → ℕ → Bool
before_cutoff none time = false
before_cutoff (some c) time = ltb time c

abbrev pub time_or : Option ℕ → ℕ → ℕ
time_or none fallback = fallback
time_or (some time) fallback = time

module _ {K V : Type 0} (blake3 : Bytes → ℕ → ℕ) (trees : Codec (TreeEntry K) V)
    (kv : KvStore V) where
  abbrev pub accessed : Result (TreeEntry K) → Option ℕ
  accessed (ok entry) = some entry.last_accessed_at
  accessed (err e) = none

  abbrev pub cell_accessed : Cell V → Option ℕ
  cell_accessed none = none
  cell_accessed (some (bytes, version)) = accessed (trees.from_slice bytes)

  unfoldable pub tree_last_accessed_at : kv.State → Bytes → Bytes → Option ℕ
  tree_last_accessed_at s repo path =
      cell_accessed (kv.get_versioned s (tree_entry_key blake3 repo path))

  unfoldable pub record_expired :
      kv.State → Bytes → Bytes → ArtifactRecord K → Bool → Option ℕ → Option ℕ → Option ExpiryReason
  unfolding tree_last_accessed_at is_bookkeeping_path
  record_expired s repo sk r is_docker max_age_cutoff max_unaccessed_cutoff =
      let accessed_at = time_or (tree_last_accessed_at s repo sk) r.last_accessed_at in
      if r.internal || (is_docker && is_bookkeeping_path sk)
      then none
      else if before_cutoff max_age_cutoff r.created_at
      then some ExpiryReason.max_age
      else if before_cutoff max_unaccessed_cutoff accessed_at
      then some ExpiryReason.unaccessed
      else none
