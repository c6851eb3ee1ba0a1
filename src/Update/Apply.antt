-- ===== src/Update/Apply.antt =====
-- `apply_dir_delta`: one delta on the entry of its directory. `K` is the data of a format, and
-- `others` what other callers do between the read and the write.
use artifact_depot.Base.{ℕ, Bool, true, false, ◌&&◌, Option, some, none, ltb, ◌==◌, if◌then◌else◌}
use artifact_depot.Keys.Tree.{tree_sort_key}
use artifact_depot.Keys.Shard.{KeyTriple, table_dir_entries}
use artifact_depot.Kv.{KvStore, Cell}
use artifact_depot.Kv.Codec.{Codec}
use artifact_depot.Service.Error.{Result, ok, err}
use artifact_depot.Service.Artifact.{TreeEntry, TreeEntryKind}
use artifact_depot.Update.Words.{add_i64, max_0, not_positive}
use artifact_depot.Update.Deltas.{DirDelta}

-- What is known of a directory; an absent one is empty, at the epoch, without a version.
pub record DirState : Type 0 where
  pub count : ℕ
  pub size : ℕ
  pub modified : ℕ
  pub accessed : ℕ
  pub version : Option ℕ

abbrev pub absent_dir : DirState
absent_dir = record { count = 0; size = 0; modified = 0; accessed = 0; version = none }

unfoldable pub delta_key : DirDelta → KeyTriple
unfolding tree_sort_key
delta_key delta = record {
  table = table_dir_entries;
  pk = delta.pk;
  sk = tree_sort_key delta.dir_path;
}

abbrev pub later : ℕ → ℕ → ℕ
later a b = if ltb a b then b else a

-- `new_count`, `new_bytes`, `new_modified` and `new_accessed`; `is_new` is the absence of a
-- version.
abbrev pub changed_by : DirDelta → ℕ → ℕ → ℕ → ℕ → Option ℕ → DirState
changed_by delta count size modified accessed none = record {
  count = delta.count_delta;
  size = max_0 delta.bytes_delta;
  modified = delta.timestamp;
  accessed = delta.timestamp;
  version = none;
}
changed_by delta count size modified accessed (some v) = record {
  count = max_0 (add_i64 count delta.count_delta);
  size = max_0 (add_i64 size delta.bytes_delta);
  modified = later modified delta.timestamp;
  accessed = later accessed delta.timestamp;
  version = some v;
}

unfoldable pub new_state : DirDelta → DirState → DirState
unfolding add_i64 max_0
new_state delta old = changed_by delta old.count old.size old.modified old.accessed old.version

abbrev pub is_new : Option ℕ → Bool
is_new none = true
is_new (some v) = false

abbrev pub dir_entry : {K : Type 0} → DirState → TreeEntry K
dir_entry d = record {
  kind = TreeEntryKind.dir d.count d.size;
  last_modified_at = d.modified;
  last_accessed_at = d.accessed;
}

abbrev pub done {ℓ} : {S : Type ℓ} → S × Bool → S × Result Bool
done (s, changed) = (s, ok changed)

module _ {K V : Type 0} (trees : Codec (TreeEntry K) V) where
  -- A file where a directory is expected is `none`.
  abbrev pub as_dir : TreeEntryKind K → ℕ → ℕ → ℕ → Option DirState
  as_dir (TreeEntryKind.dir count size) modified accessed v = some (record {
    count = count;
    size = size;
    modified = modified;
    accessed = accessed;
    version = some v;
  })
  as_dir (TreeEntryKind.file a b c d e f) modified accessed v = none

  abbrev pub parsed : Result (TreeEntry K) → ℕ → Result (Option DirState)
  parsed (err e) v = err e
  parsed (ok te) v = ok (as_dir te.kind te.last_modified_at te.last_accessed_at v)

  unfoldable pub existing : Cell V → Result (Option DirState)
  existing none = ok (some absent_dir)
  existing (some (bytes, v)) = parsed (trees.from_slice bytes) v

  module _ (kv : KvStore V) where
    abbrev pub removed : KeyTriple → Option ℕ → kv.State → kv.State × Result Bool
    removed key none s = (s, ok false)
    removed key (some v) s = done (kv.delete_if_version key v s)

    unfoldable pub write_dir : DirDelta → DirState → kv.State → kv.State × Result Bool
    unfolding new_state delta_key
    write_dir delta old s =
        let new = new_state delta old in
        let gone = removed (delta_key delta) old.version s in
        let written =
          done (kv.put_if_version (delta_key delta) (trees.to_vec (dir_entry new)) old.version s) in
        if is_new old.version && not_positive delta.count_delta
        then (s, ok false)
        else if new.count == 0
        then gone
        else written

    abbrev pub apply_existing :
        DirDelta → Result (Option DirState) → kv.State → kv.State × Result Bool
    apply_existing delta (err e) s = (s, err e)
    apply_existing delta (ok none) s = (s, ok false)
    apply_existing delta (ok (some old)) s = write_dir delta old s

    unfoldable pub apply_dir_delta :
        (kv.State → kv.State) → DirDelta → kv.State → kv.State × Result Bool
    unfolding existing write_dir
    apply_dir_delta others delta s =
        apply_existing delta (existing (kv.get_versioned s (delta_key delta))) (others s)
