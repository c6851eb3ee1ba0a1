-- ===== src/Update/Deltas.antt =====
-- The deltas of directories: how they are made, coalesced and passed to the parent.
use artifact_depot.Base.{ℕ, Bool, List, [], ◌∷◌, ◌&&◌, ltb, if◌then◌else◌}
use artifact_depot.Base.Bytes.{Bytes, bytes_eq}
use artifact_depot.Keys.Normalize.{normalize_path}
use artifact_depot.Keys.Tree.{parent_dir, tree_parent}
use artifact_depot.Keys.Shard.{sharded_pk}
use artifact_depot.Update.Words.{add_i64}

pub record DirDelta : Type 0 where
  pub repo : Bytes
  pub pk : Bytes
  pub dir_path : Bytes
  pub count_delta : ℕ
  pub bytes_delta : ℕ
  pub timestamp : ℕ

pub record StoreDelta : Type 0 where
  pub store : Bytes
  pub count_delta : ℕ
  pub bytes_delta : ℕ

-- `entry(key).and_modify(f).or_insert(d)`
unfoldable pub upsert {ℓ κ} :
    {K : Type ℓ} {D : Type κ} → (K → K → Bool) → K → (D → D) → D → List (K × D) → List (K × D)
upsert same key f d [] = (key, d) ∷ []
upsert same key f d ((k, e) ∷ entries) =
    let rest = upsert same key f d entries in
    if same k key then (k, f e) ∷ entries else (k, e) ∷ rest

abbrev pub DirKey : Type 0
DirKey = Bytes × Bytes

abbrev pub same_dir : DirKey → DirKey → Bool
same_dir a b = bytes_eq a.0 b.0 && bytes_eq a.1 b.1

abbrev pub DirDeltaMap : Type 0
DirDeltaMap = List (DirKey × DirDelta)

abbrev pub dir_key : DirDelta → DirKey
dir_key delta = (delta.pk, delta.dir_path)

-- The closure of `and_modify`.
abbrev pub add_delta : DirDelta → DirDelta → DirDelta
add_delta delta existing = record existing {
  count_delta = add_i64 existing.count_delta delta.count_delta;
  bytes_delta = add_i64 existing.bytes_delta delta.bytes_delta;
  timestamp =
      if ltb existing.timestamp delta.timestamp then delta.timestamp else existing.timestamp;
}

unfoldable pub merge_dir_delta : DirDelta → DirDeltaMap → DirDeltaMap
unfolding upsert add_i64
merge_dir_delta delta deltas = upsert same_dir (dir_key delta) (add_delta delta) delta deltas

-- The loop over the events that are there.
unfoldable pub merge_all : List DirDelta → DirDeltaMap → DirDeltaMap
unfolding merge_dir_delta
merge_all [] deltas = deltas
merge_all (delta ∷ events) deltas = merge_all events (merge_dir_delta delta deltas)

unfoldable pub drain_dir_deltas : List DirDelta → DirDeltaMap
unfolding merge_all
drain_dir_deltas events = merge_all events []

abbrev pub values {ℓ κ} : {K : Type ℓ} {D : Type κ} → List (K × D) → List D
values [] = []
values ((k, d) ∷ entries) = d ∷ values entries

module _ (blake3 : Bytes → ℕ → ℕ) where
  -- The event of `UpdateSender::dir_changed`.
  unfoldable pub dir_changed : Bytes → Bytes → ℕ → ℕ → ℕ → DirDelta
  unfolding normalize_path parent_dir sharded_pk tree_parent
  dir_changed repo path count_delta bytes_delta now =
      let dir_path = parent_dir (normalize_path path) in
      record {
        repo = repo;
        pk = sharded_pk blake3 repo (tree_parent dir_path);
        dir_path = dir_path;
        count_delta = count_delta;
        bytes_delta = bytes_delta;
        timestamp = now;
      }

  unfoldable pub make_parent_delta : DirDelta → DirDelta
  unfolding parent_dir sharded_pk tree_parent
  make_parent_delta delta =
      let parent = parent_dir delta.dir_path in
      record {
        repo = delta.repo;
        pk = sharded_pk blake3 delta.repo (tree_parent parent);
        dir_path = parent;
        count_delta = delta.count_delta;
        bytes_delta = delta.bytes_delta;
        timestamp = delta.timestamp;
      }
