-- ===== src/Keys/Shard/Scan.antt =====
-- The fan-out over the shards reaches every record, and the scan of a directory its children.
use artifact_depot.Base.{ℕ, zero, suc, ◌+◌, ◌≤◌, ◌<◌, ◌≡◌, ap, sym, ◌⊎◌, inl, inr, true, arith, ◌↔◌}
use artifact_depot.Base.Bytes.{Bytes, starts_with}
use artifact_depot.Keys.Normalize.{normalize_path}
use artifact_depot.Keys.Tree.{NulFree, tree_parent, tree_children_sk_prefix}
use artifact_depot.Keys.Tree.Injective.{tree_children_sk_prefix_iff}
use artifact_depot.Keys.Tree.Ancestors.{IsListed}
use artifact_depot.Keys.Shard.{
  shard_pk, shard_pks_from, all_sharded_pks, num_shards, shard_of, sharded_pk, tree_entry_key,
  tree_children_pk,
}

shard_pks_from-lists :
    (scope : Bytes) (left s n : ℕ)
    → s ≤ n
    → n < s + left
    → IsListed (shard_pk scope n) (shard_pks_from scope left s)
unfolding shard_pks_from
shard_pks_from-lists scope zero s n h k = absurd (omega arith)
shard_pks_from-lists scope (suc left) s n h k = elim (split s n h) [
  | inl e ↦ inl (ap (shard_pk scope) e)
  | inr l ↦ inr (shard_pks_from-lists scope left (s + 1) n (omega arith) (omega arith))
]
  where
    split : (a b : ℕ) → a ≤ b → (b ≡ a) ⊎ (a < b)
    split a b h = grind arith

module _ (blake3 : Bytes → ℕ → ℕ) where
  -- Wherever the hash puts a record of a scope, the fan-out over the scope's partitions finds it.
  pub all_sharded_pks_complete :
      (scope sk : Bytes) → IsListed (sharded_pk blake3 scope sk) (all_sharded_pks scope)
  unfolding all_sharded_pks sharded_pk shard_of
  all_sharded_pks_complete scope sk =
      shard_pks_from-lists scope num_shards 0 _ (omega arith) (omega arith)

  -- Where the paths have no NUL, a tree entry lies in the partition and under the prefix that the
  -- listing of `dir` scans exactly when `dir` is the parent of its normalized path.
  pub tree_children_iff :
      (repo dir path : Bytes)
      → NulFree dir
      → NulFree (normalize_path path)
      → let key = tree_entry_key blake3 repo path in
        ((key.pk ≡ tree_children_pk blake3 repo dir)
          × (starts_with (tree_children_sk_prefix dir) key.sk ≡ true))
        ↔ (dir ≡ tree_parent (normalize_path path))
  unfolding tree_entry_key tree_children_pk
  tree_children_iff repo dir path hd hp =
      let select = tree_children_sk_prefix_iff dir (normalize_path path) hd hp in
      (λ h. select.0 h.1, λ e. (ap (sharded_pk blake3 repo) (sym e), select.1 e))
