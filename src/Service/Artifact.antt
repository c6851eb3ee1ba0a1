-- ===== src/Service/Artifact.antt =====
-- core/src/service/artifact.rs: the records of artifacts and the file entries of the browse tree
-- that go with them, with the typed reads of core/src/service/typed.rs. `K` is the data of a format
-- (`ArtifactKind`), which these functions only pass on. Times are nanoseconds since the epoch.
pub mod Keys
pub mod Put
pub mod Absent
pub mod Delete
pub mod Touch
use artifact_depot.Base.{
  ℕ, zero, suc, ◌-◌, ◌/◌, Bool, true, false, List, [], ◌∷◌, Option, some, none, ◌==◌, ltb,
  if◌then◌else◌,
}
use artifact_depot.Base.Bytes.{Bytes, is_empty}
use artifact_depot.Keys.Shard.{
  KeyTriple, artifact_key, tree_entry_key, table_artifacts, table_dir_entries,
}
use artifact_depot.Kv.{KvStore, Cell}
use artifact_depot.Kv.Codec.{Codec}
use artifact_depot.Service.Error.{Result, ok, err, DepotError}

pub record ArtifactRecord (K : Type 0) : Type 0 where
  pub schema_version : ℕ
  pub id : Bytes
  pub size : ℕ
  pub content_type : Bytes
  pub created_at : ℕ
  pub updated_at : ℕ
  pub last_accessed_at : ℕ
  pub path : Bytes
  pub kind : K
  pub internal : Bool
  pub blob_id : Option Bytes
  pub content_hash : Option Bytes
  pub etag : Option Bytes

pub data TreeEntryKind (K : Type 0) : Type 0 where
  dir : (artifact_count total_bytes : ℕ) → TreeEntryKind K
  file :
      (size : ℕ) (content_type : Bytes) (artifact_kind : K) (blob_id content_hash : Option Bytes)
      (created_at : ℕ)
      → TreeEntryKind K

pub record TreeEntry (K : Type 0) : Type 0 where
  pub kind : TreeEntryKind K
  pub last_modified_at : ℕ
  pub last_accessed_at : ℕ

-- The record as it is written: `uuid` is a fresh id, and the epoch stands for no access time.
unfoldable pub prepare : {K : Type 0} → Bytes → Bytes → ArtifactRecord K → ArtifactRecord K
prepare uuid path r = record {
  schema_version = r.schema_version;
  id = if is_empty r.id then uuid else r.id;
  size = r.size;
  content_type = r.content_type;
  created_at = r.created_at;
  updated_at = r.updated_at;
  last_accessed_at = if r.last_accessed_at == 0 then r.created_at else r.last_accessed_at;
  path = path;
  kind = r.kind;
  internal = r.internal;
  blob_id = r.blob_id;
  content_hash = r.content_hash;
  etag = r.etag;
}

unfoldable pub tree_file : {K : Type 0} → ArtifactRecord K → TreeEntry K
tree_file r = record {
  kind = TreeEntryKind.file r.size r.content_type r.kind r.blob_id r.content_hash r.created_at;
  last_modified_at = r.updated_at;
  last_accessed_at = r.last_accessed_at;
}

unfoldable pub touched : {K : Type 0} → ℕ → TreeEntry K → TreeEntry K
touched now te = record {
  kind = te.kind;
  last_modified_at = te.last_modified_at;
  last_accessed_at = now;
}

abbrev pub put_artifact_max_retries : ℕ
put_artifact_max_retries = 3

-- `(now - last_accessed_at).num_seconds() < 60`, also for a time to come
unfoldable pub is_recent : {K : Type 0} → ℕ → TreeEntry K → Bool
is_recent now te = ltb ((now - te.last_accessed_at) / 1000000000) 60

module _ {A V : Type 0} (codec : Codec A V) where
  abbrev pub some_value : Result A → Result (Option A)
  some_value (ok a) = ok (some a)
  some_value (err e) = err e

  abbrev pub read_value : Option V → Result (Option A)
  read_value none = ok none
  read_value (some bytes) = some_value (codec.from_slice bytes)

  abbrev pub decoded : Result A → ℕ → Result (Option (A × ℕ))
  decoded (ok a) version = ok (some (a, version))
  decoded (err e) version = err e

  abbrev pub read_cell : Cell V → Result (Option (A × ℕ))
  read_cell none = ok none
  read_cell (some (bytes, version)) = decoded (codec.from_slice bytes) version

  unfoldable pub typed_get : (kv : KvStore V) → kv.State → KeyTriple → Result (Option A)
  typed_get kv s k = read_value (kv.get s k)

  unfoldable pub typed_get_versioned :
      (kv : KvStore V) → kv.State → KeyTriple → Result (Option (A × ℕ))
  typed_get_versioned kv s k = read_cell (kv.get_versioned s k)

abbrev pub keys_of : (Bytes → KeyTriple) → List Bytes → List (Bytes × Bytes)
keys_of key [] = []
keys_of key (path ∷ paths) = ((key path).pk, (key path).sk) ∷ keys_of key paths

-- The default methods `put_if_absent` and `delete_batch` of `KvStore`.
module _ {V : Type 0} (kv : KvStore V) where
  unfoldable pub put_if_absent : KeyTriple → V → kv.State → kv.State × Bool
  put_if_absent k v s = kv.put_if_version k v none s

  unfoldable pub delete_batch : Bytes → List (Bytes × Bytes) → kv.State → kv.State × List Bool
  delete_batch table [] s = (s, [])
  delete_batch table ((pk, sk) ∷ keys) s =
      let (s', existed) = kv.delete (record { table = table; pk = pk; sk = sk }) s in
      let (s'', results) = delete_batch table keys s' in (s'', existed ∷ results)

module _ {K V : Type 0} (kv : KvStore V) (blake3 : Bytes → ℕ → ℕ)
    (records : Codec (ArtifactRecord K) V) (trees : Codec (TreeEntry K) V) where
  unfoldable pub upsert_tree_file : Bytes → Bytes → ArtifactRecord K → kv.State → kv.State
  upsert_tree_file repo path r s =
      kv.put (tree_entry_key blake3 repo path) (trees.to_vec (tree_file r)) s

  unfoldable pub delete_tree_file : Bytes → Bytes → kv.State → kv.State
  delete_tree_file repo path s = (kv.delete (tree_entry_key blake3 repo path) s).0

  abbrev pub version_of : Option (ArtifactRecord K × ℕ) → Option ℕ
  version_of none = none
  version_of (some (r, version)) = some version

  abbrev pub record_of : Option (ArtifactRecord K × ℕ) → Option (ArtifactRecord K)
  record_of none = none
  record_of (some (r, version)) = some r

  -- The end of an attempt: the tree entry behind a write that went through, or the next attempt.
  abbrev pub after_write :
      Bytes
      → Bytes
      → ArtifactRecord K
      → Option (ArtifactRecord K)
      → kv.State × Bool
      → (kv.State → kv.State × Result (Option (ArtifactRecord K)))
      → kv.State × Result (Option (ArtifactRecord K))
  after_write repo path r old (s, true) retry = (upsert_tree_file repo path r s, ok old)
  after_write repo path r old (s, false) retry = retry s

  -- One attempt, which read `found`, at its write.
  abbrev pub write_attempt :
      Bytes
      → Bytes
      → ArtifactRecord K
      → Result (Option (ArtifactRecord K × ℕ))
      → kv.State
      → (kv.State → kv.State × Result (Option (ArtifactRecord K)))
      → kv.State × Result (Option (ArtifactRecord K))
  write_attempt repo path r (err e) s retry = (s, err e)
  write_attempt repo path r (ok found) s retry =
      after_write repo path r (record_of found)
        (kv.put_if_version (artifact_key blake3 repo path) (records.to_vec r) (version_of found) s)
        retry

  -- The attempts that are left. `others n` is what other callers do between the read and the write
  -- of the attempt with `n` more behind it, and `uuid n` the id that it would give.
  unfoldable pub put_attempts :
      ℕ
      → (ℕ → kv.State → kv.State)
      → (ℕ → Bytes)
      → Bytes
      → Bytes
      → ArtifactRecord K
      → kv.State
      → kv.State × Result (Option (ArtifactRecord K))
  unfolding upsert_tree_file prepare typed_get_versioned
  put_attempts zero others uuid repo path r s = (s, err DepotError.conflict)
  put_attempts (suc left) others uuid repo path r s =
      write_attempt repo path (prepare (uuid left) path r)
        (typed_get_versioned records kv s (artifact_key blake3 repo path)) (others left s)
        (λ s'. put_attempts left others uuid repo path r s')

  unfoldable pub put_artifact :
      (ℕ → kv.State → kv.State)
      → (ℕ → Bytes)
      → Bytes
      → Bytes
      → ArtifactRecord K
      → kv.State
      → kv.State × Result (Option (ArtifactRecord K))
  unfolding put_attempts
  put_artifact others uuid repo path r s =
      let attempts = put_attempts put_artifact_max_retries others uuid repo path r s in
      if is_empty path then (s, err DepotError.bad_request) else attempts

  unfoldable pub put_artifact_if_absent :
      Bytes → Bytes → Bytes → ArtifactRecord K → kv.State → kv.State × Result Bool
  unfolding upsert_tree_file prepare put_if_absent
  put_artifact_if_absent uuid repo path r s =
      let r' = prepare uuid path r in
      let (s', written) = put_if_absent kv (artifact_key blake3 repo path) (records.to_vec r') s in
      (if written then upsert_tree_file repo path r' s' else s', ok written)

  unfoldable pub get_artifact : kv.State → Bytes → Bytes → Result (Option (ArtifactRecord K))
  unfolding typed_get
  get_artifact s repo path = typed_get records kv s (artifact_key blake3 repo path)

  abbrev pub after_delete :
      Bytes → Bytes → kv.State × Option V → kv.State × Result (Option (ArtifactRecord K))
  after_delete repo path (s, none) = (s, ok none)
  after_delete repo path (s, some bytes) =
      (delete_tree_file repo path s, read_value records (some bytes))

  unfoldable pub delete_artifact :
      Bytes → Bytes → kv.State → kv.State × Result (Option (ArtifactRecord K))
  unfolding delete_tree_file
  delete_artifact repo path s =
      after_delete repo path (kv.delete_returning (artifact_key blake3 repo path) s)

  -- Both batches; the misses among the tree entries are only counted in the log.
  unfoldable pub delete_artifacts_paired_batch : Bytes → List Bytes → kv.State → kv.State
  unfolding delete_batch
  delete_artifacts_paired_batch repo [] s = s
  delete_artifacts_paired_batch repo (path ∷ paths) s =
      let all = path ∷ paths in
      let (s', record_hits) =
        delete_batch kv table_artifacts (keys_of (artifact_key blake3 repo) all) s in
      (delete_batch kv table_dir_entries (keys_of (tree_entry_key blake3 repo) all) s').0

  abbrev pub touch_entry :
      KeyTriple → ℕ → ℕ → Result (TreeEntry K) → kv.State → kv.State × Result (Unit {0})
  touch_entry key now version (err e) s = (s, err e)
  touch_entry key now version (ok te) s =
      if is_recent now te
      then (s, ok tt)
      else ((kv.put_if_version key (trees.to_vec (touched now te)) (some version) s).0, ok tt)

  -- `touch_artifact` behind its read, which found the cell.
  unfoldable pub touch_after : Bytes → Bytes → ℕ → Cell V → kv.State → kv.State × Result (Unit {0})
  unfolding is_recent touched
  touch_after repo path now none s = (s, ok tt)
  touch_after repo path now (some (bytes, version)) s =
      touch_entry (tree_entry_key blake3 repo path) now version (trees.from_slice bytes) s

  unfoldable pub touch_artifact : Bytes → Bytes → ℕ → kv.State → kv.State × Result (Unit {0})
  unfolding touch_after
  touch_artifact repo path now s =
      touch_after repo path now (kv.get_versioned s (tree_entry_key blake3 repo path)) s
