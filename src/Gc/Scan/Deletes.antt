-- ===== src/Gc/Scan/Deletes.antt =====
-- What a paired batch of deletions leaves in the store.
use artifact_depot.Base.{ℕ, ◌≡◌, refl, ◌∙◌, false, List, [], ◌∷◌, All}
use artifact_depot.Base.Bytes.{Bytes}
use artifact_depot.Keys.Tree.{NulFree}
use artifact_depot.Keys.Shard.{
  KeyTriple, artifact_key, tree_entry_key, table_artifacts, table_dir_entries,
}
use artifact_depot.Kv.{KvStore, KvLaws, key_eq}
use artifact_depot.Kv.Codec.{Codec}
use artifact_depot.Service.Artifact.{
  ArtifactRecord, TreeEntry, keys_of, delete_batch, delete_artifacts_paired_batch,
}
use artifact_depot.Service.Artifact.Keys.{artifact_key-NulFree, tree_entry_key-NulFree}
use artifact_depot.Gc.Deletes.{delete_batch-keeps, delete_batch-Shrinks, key_in}
use artifact_depot.Gc.Shard.Returns.{Shrinks, Shrinks-trans}

module _ {K V : Type 0} (kv : KvStore V) (laws : KvLaws kv) (blake3 : Bytes → ℕ → ℕ)
    (records : Codec (ArtifactRecord K) V) (trees : Codec (TreeEntry K) V) (repo : Bytes)
    (free : NulFree repo) where
  abbrev pub after_paired : List Bytes → kv.State → kv.State
  after_paired paths s = delete_artifacts_paired_batch kv blake3 records trees repo paths s

  -- Neither key of a path is `j`.
  abbrev pub Misses : KeyTriple → Bytes → Type 0
  Misses j q =
      (key_eq (artifact_key blake3 repo q) j ≡ false)
      × (key_eq (tree_entry_key blake3 repo q) j ≡ false)

  artifact_keys-other :
      (j : KeyTriple) (paths : List Bytes)
      → All (Misses j) paths
      → All
          (λ (k : Bytes × Bytes).
            NulFree k.0 × (key_eq (key_in kv laws table_artifacts k) j ≡ false))
          (keys_of (artifact_key blake3 repo) paths)
  artifact_keys-other j [] h = tt
  artifact_keys-other j (q ∷ paths) h = (
    (artifact_key-NulFree blake3 repo q free, unfold artifact_key in h.0.0),
    artifact_keys-other j paths h.1,
  )

  tree_keys-other :
      (j : KeyTriple) (paths : List Bytes)
      → All (Misses j) paths
      → All
          (λ (k : Bytes × Bytes).
            NulFree k.0 × (key_eq (key_in kv laws table_dir_entries k) j ≡ false))
          (keys_of (tree_entry_key blake3 repo) paths)
  tree_keys-other j [] h = tt
  tree_keys-other j (q ∷ paths) h = (
    (tree_entry_key-NulFree blake3 repo q free, unfold tree_entry_key in h.0.1),
    tree_keys-other j paths h.1,
  )

  pub paired-keeps :
      (paths : List Bytes) (s : kv.State) (j : KeyTriple)
      → NulFree j.pk
      → All (Misses j) paths
      → kv.get_versioned (after_paired paths s) j ≡ kv.get_versioned s j
  unfolding delete_artifacts_paired_batch
  paired-keeps [] s j hj h = refl
  paired-keeps (q ∷ paths) s j hj h =
      let all = q ∷ paths in
      let s' = (delete_batch kv table_artifacts (keys_of (artifact_key blake3 repo) all) s).0 in
      delete_batch-keeps kv laws table_dir_entries (keys_of (tree_entry_key blake3 repo) all) s' j
        hj (tree_keys-other j all h)
      ∙ delete_batch-keeps kv laws table_artifacts (keys_of (artifact_key blake3 repo) all) s j hj
          (artifact_keys-other j all h)

  keys_of-NulFree :
      (key : Bytes → KeyTriple) (paths : List Bytes)
      → ((q : Bytes) → NulFree (key q).pk)
      → All (λ (k : Bytes × Bytes). NulFree k.0) (keys_of key paths)
  keys_of-NulFree key [] h = tt
  keys_of-NulFree key (q ∷ paths) h = (h q, keys_of-NulFree key paths h)

  pub paired-Shrinks :
      (table : Bytes) (paths : List Bytes) (s : kv.State)
      → Shrinks kv table s (after_paired paths s)
  unfolding delete_artifacts_paired_batch
  paired-Shrinks table [] s = λ pk sk v f g. g
  paired-Shrinks table (q ∷ paths) s =
      let all = q ∷ paths in
      let s' = (delete_batch kv table_artifacts (keys_of (artifact_key blake3 repo) all) s).0 in
      Shrinks-trans kv laws table s s'
        (delete_batch kv table_dir_entries (keys_of (tree_entry_key blake3 repo) all) s').0
        (delete_batch-Shrinks kv laws table_artifacts (keys_of (artifact_key blake3 repo) all) table
          s
          (keys_of-NulFree (artifact_key blake3 repo) all
            (λ p. artifact_key-NulFree blake3 repo p free)))
        (delete_batch-Shrinks kv laws table_dir_entries (keys_of (tree_entry_key blake3 repo) all)
          table s'
          (keys_of-NulFree (tree_entry_key blake3 repo) all
            (λ p. tree_entry_key-NulFree blake3 repo p free)))
