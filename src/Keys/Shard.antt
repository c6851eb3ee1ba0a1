-- ===== src/Keys/Shard.antt =====
-- The key constructors of core/src/store/keys.rs: tables, shards, partition and sort keys.
pub mod Unique
pub mod Scan
use artifact_depot.Base.{ℕ, zero, suc, ◌+◌, ◌*◌, ◌%◌, List, [], ◌∷◌, ◌++◌}
use artifact_depot.Base.Bytes.{Bytes, bytes}
use artifact_depot.Keys.Normalize.{slash, normalize_path}
use artifact_depot.Keys.Tree.{tree_parent, tree_sort_key}
use artifact_depot.Keys.Decimal.{decimal, padded}

abbrev pub table_repos : Bytes
table_repos = bytes "repos"

abbrev pub table_artifacts : Bytes
table_artifacts = bytes "artifacts"

abbrev pub table_blobs : Bytes
table_blobs = bytes "blobs"

abbrev pub table_users : Bytes
table_users = bytes "users"

abbrev pub table_roles : Bytes
table_roles = bytes "roles"

abbrev pub table_meta : Bytes
table_meta = bytes "meta"

abbrev pub table_stores : Bytes
table_stores = bytes "stores"

abbrev pub table_dir_entries : Bytes
table_dir_entries = bytes "dir_entries"

abbrev pub table_upload_sessions : Bytes
table_upload_sessions = bytes "upload_sessions"

abbrev pub table_leases : Bytes
table_leases = bytes "leases"

abbrev pub table_tasks : Bytes
table_tasks = bytes "tasks"

abbrev pub table_task_events : Bytes
table_task_events = bytes "task_events"

abbrev pub all_tables : List Bytes
all_tables =
    table_repos ∷ table_artifacts ∷ table_blobs ∷ table_users ∷ table_roles ∷ table_meta
    ∷ table_stores ∷ table_dir_entries ∷ table_upload_sessions ∷ table_leases ∷ table_tasks
    ∷ table_task_events ∷ []

-- `(table, partition_key, sort_key)`
pub record KeyTriple : Type 0 where
  pub table : Bytes
  pub pk : Bytes
  pub sk : Bytes

abbrev pub num_shards : ℕ
num_shards = 256

abbrev pub single_pk : Bytes
single_pk = bytes "0"

-- `"{scope}/{shard}"`
unfoldable pub shard_pk : Bytes → ℕ → Bytes
shard_pk scope shard = scope ++ slash ∷ decimal shard

unfoldable pub artifact_shard_pk : Bytes → ℕ → Bytes
unfolding shard_pk
artifact_shard_pk repo shard = shard_pk repo shard

unfoldable pub blob_shard_pk : Bytes → ℕ → Bytes
unfolding shard_pk
blob_shard_pk store shard = shard_pk store shard

unfoldable pub tree_shard_pk : Bytes → ℕ → Bytes
unfolding shard_pk
tree_shard_pk repo shard = shard_pk repo shard

-- `(0..NUM_SHARDS).map(…)`, from the shard `s` on with `left` shards to go
shard_pks_from : Bytes → ℕ → ℕ → List Bytes
shard_pks_from scope zero s = []
shard_pks_from scope (suc left) s = shard_pk scope s ∷ shard_pks_from scope left (s + 1)

unfoldable pub all_sharded_pks : Bytes → List Bytes
unfolding shard_pks_from
all_sharded_pks scope = shard_pks_from scope num_shards 0

abbrev pub unsharded : Bytes → Bytes → KeyTriple
unsharded table sk = record { table = table; pk = single_pk; sk = sk }

unfoldable pub repo_key : Bytes → KeyTriple
repo_key name = unsharded table_repos name

unfoldable pub user_key : Bytes → KeyTriple
user_key username = unsharded table_users username

unfoldable pub role_key : Bytes → KeyTriple
role_key name = unsharded table_roles name

unfoldable pub meta_key : Bytes → KeyTriple
meta_key key = unsharded table_meta key

unfoldable pub store_key : Bytes → KeyTriple
store_key name = unsharded table_stores name

unfoldable pub store_stats_key : Bytes → KeyTriple
store_stats_key name = unsharded table_meta (bytes "store_stats/" ++ name)

unfoldable pub upload_session_key : Bytes → KeyTriple
upload_session_key uuid = unsharded table_upload_sessions uuid

unfoldable pub lease_key : Bytes → KeyTriple
lease_key name = unsharded table_leases name

unfoldable pub task_key : Bytes → KeyTriple
task_key id = unsharded table_tasks id

-- `{:020}` of a u64 has 20 digits.
unfoldable pub task_event_key : Bytes → ℕ → KeyTriple
task_event_key task_id seq = record { table = table_task_events; pk = task_id; sk = padded 20 seq }

unfoldable pub task_event_pk : Bytes → Bytes
task_event_pk task_id = task_id

-- `blake3 s i` is byte `i` of the digest of `s`.
module _ (blake3 : Bytes → ℕ → ℕ) where
  unfoldable pub shard_of : Bytes → ℕ
  shard_of sk = (blake3 sk 0 * 256 + blake3 sk 1) % num_shards

  unfoldable pub sharded_pk : Bytes → Bytes → Bytes
  unfolding shard_pk shard_of
  sharded_pk scope sk = shard_pk scope (shard_of sk)

  unfoldable pub artifact_key : Bytes → Bytes → KeyTriple
  unfolding sharded_pk normalize_path
  artifact_key repo path =
      let clean = normalize_path path in
      record { table = table_artifacts; pk = sharded_pk repo clean; sk = clean }

  unfoldable pub blob_key : Bytes → Bytes → KeyTriple
  unfolding sharded_pk
  blob_key store hash = record { table = table_blobs; pk = sharded_pk store hash; sk = hash }

  unfoldable pub tree_entry_key : Bytes → Bytes → KeyTriple
  unfolding sharded_pk normalize_path tree_parent tree_sort_key
  tree_entry_key repo path =
      let clean = normalize_path path in
      record {
        table = table_dir_entries;
        pk = sharded_pk repo (tree_parent clean);
        sk = tree_sort_key clean;
      }

  unfoldable pub tree_children_pk : Bytes → Bytes → Bytes
  unfolding sharded_pk
  tree_children_pk repo parent_path = sharded_pk repo parent_path
