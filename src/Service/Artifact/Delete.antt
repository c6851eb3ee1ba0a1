-- ===== src/Service/Artifact/Delete.antt =====
-- What the deletions leave in the store.
use artifact_depot.Base.{
  ℕ, ◌≡◌, refl, ap, sym, ◌∙◌, true, List, [], ◌∷◌, Option, some, none, if◌then◌else◌, Bool-cases,
  inl, inr,
}
use artifact_depot.Base.Bytes.{Bytes, bytes_eq_iff}
use artifact_depot.Keys.Tree.{NulFree}
use artifact_depot.Keys.Tree.Ancestors.{IsListed}
use artifact_depot.Keys.Shard.{
  KeyTriple, artifact_key, tree_entry_key, table_artifacts, table_dir_entries,
}
use artifact_depot.Kv.{KvStore, KvLaws, key_eq, is_there}
use artifact_depot.Kv.Codec.{Codec}
use artifact_depot.Service.Error.{Result, ok}
use artifact_depot.Service.Artifact.{
  ArtifactRecord, TreeEntry, typed_get, delete_tree_file, delete_artifact, delete_batch,
  delete_artifacts_paired_batch, keys_of, after_delete, get_artifact,
}
use artifact_depot.Service.Artifact.Keys.{
  artifact_key-NulFree, tree_entry_key-NulFree, key_eq-tables', typed_get-none,
}

module _ {V : Type 0} (kv : KvStore V) (laws : KvLaws kv) where
  -- A key that is gone stays gone when others are deleted.
  delete-keeps_none :
      (s : kv.State) (k j : KeyTriple)
      → NulFree k.pk
      → NulFree j.pk
      → kv.get_versioned s j ≡ none
      → kv.get_versioned (kv.delete k s).0 j ≡ none
  delete-keeps_none s k j hk hj gone = elim (Bool-cases (key_eq k j)) [
    | inl e ↦ laws.delete_lem s k j hk hj ∙ rw e
    | inr e ↦ laws.delete_lem s k j hk hj ∙ rw e gone
  ]

  pub self_eq : (k : KeyTriple) → key_eq k k ≡ true
  self_eq k = rw (
    (bytes_eq_iff k.table k.table).1 refl,
    (bytes_eq_iff k.pk k.pk).1 refl,
    (bytes_eq_iff k.sk k.sk).1 refl,
  )

  module _ (key : Bytes → KeyTriple) (table : Bytes)
      (in_table : (path : Bytes)
        → key path ≡ record { table = table; pk = (key path).pk; sk = (key path).sk })
      (keys-NulFree : (path : Bytes) → NulFree (key path).pk) where
    abbrev after_batch : List Bytes → kv.State → kv.State
    after_batch paths s = (delete_batch kv table (keys_of key paths) s).0

    after_batch-cons :
        (path : Bytes) (paths : List Bytes) (s : kv.State)
        → after_batch (path ∷ paths) s ≡ after_batch paths (kv.delete (key path) s).0
    unfolding delete_batch
    after_batch-cons path paths s =
        ap (λ k. after_batch paths (kv.delete k s).0) (sym (in_table path))

    batch-keeps_none :
        (paths : List Bytes) (s : kv.State) (j : KeyTriple)
        → NulFree j.pk
        → kv.get_versioned s j ≡ none
        → kv.get_versioned (after_batch paths s) j ≡ none
    unfolding delete_batch
    batch-keeps_none [] s j hj gone = gone
    batch-keeps_none (path ∷ paths) s j hj gone = rw after_batch-cons (
        batch-keeps_none paths (kv.delete (key path) s).0 j hj
          (delete-keeps_none s (key path) j (keys-NulFree path) hj gone))

    -- A batch removes each of its keys.
    batch-gone :
        (paths : List Bytes) (s : kv.State) (p : Bytes)
        → IsListed p paths
        → kv.get_versioned (after_batch paths s) (key p) ≡ none
    batch-gone [] s p h = absurd h
    batch-gone (path ∷ paths) s p (inl e) =
        rw (after_batch-cons, e)
          (batch-keeps_none paths (kv.delete (key path) s).0 (key path) (keys-NulFree path) (
            laws.delete_lem s (key path) (key path) (keys-NulFree path) (keys-NulFree path)
            ∙ rw (self_eq (key path))))
    batch-gone (path ∷ paths) s p (inr m) =
        rw after_batch-cons (batch-gone paths (kv.delete (key path) s).0 p m)

module _ {K V : Type 0} (kv : KvStore V) (laws : KvLaws kv) (blake3 : Bytes → ℕ → ℕ)
    (records : Codec (ArtifactRecord K) V) (trees : Codec (TreeEntry K) V) where
  in_artifacts :
      (repo path : Bytes)
      → artifact_key blake3 repo path ≡ record {
        table = table_artifacts;
        pk = (artifact_key blake3 repo path).pk;
        sk = (artifact_key blake3 repo path).sk;
      }
  unfolding artifact_key
  in_artifacts repo path = refl

  in_dir_entries :
      (repo path : Bytes)
      → tree_entry_key blake3 repo path ≡ record {
        table = table_dir_entries;
        pk = (tree_entry_key blake3 repo path).pk;
        sk = (tree_entry_key blake3 repo path).sk;
      }
  unfolding tree_entry_key
  in_dir_entries repo path = refl

  -- After a paired batch in a repository without NUL in its name, neither the record nor the tree
  -- entry of any of its paths is there.
  pub delete_artifacts_paired_batch-gone :
      (repo path : Bytes) (paths : List Bytes) (s : kv.State)
      → NulFree repo
      → IsListed path paths
      → let s' = delete_artifacts_paired_batch kv blake3 records trees repo paths s in
        (get_artifact kv blake3 records trees s' repo path ≡ ok none)
        × (typed_get trees kv s' (tree_entry_key blake3 repo path) ≡ ok none)
  unfolding delete_artifacts_paired_batch get_artifact
  delete_artifacts_paired_batch-gone repo path [] s h listed = absurd listed
  delete_artifacts_paired_batch-gone repo path (p ∷ ps) s h listed =
      let aa = λ (q : Bytes). artifact_key-NulFree blake3 repo q h in
      let ta = λ (q : Bytes). tree_entry_key-NulFree blake3 repo q h in
      let key_a = artifact_key blake3 repo in
      let key_t = tree_entry_key blake3 repo in
      let s' = (delete_batch kv table_artifacts (keys_of key_a (p ∷ ps)) s).0 in
      (
        typed_get-none kv laws records _ (key_a path) (
            batch-keeps_none kv laws key_t table_dir_entries (in_dir_entries repo) ta (p ∷ ps) s'
              (key_a path) (aa path)
              (batch-gone kv laws key_a table_artifacts (in_artifacts repo) aa (p ∷ ps) s path
                listed)),
        typed_get-none kv laws trees _ (key_t path) (
            batch-gone kv laws key_t table_dir_entries (in_dir_entries repo) ta (p ∷ ps) s' path
              listed),
      )

  abbrev Deleted : Bytes → Bytes → kv.State → kv.State × Result (Option (ArtifactRecord K)) → Type 0
  Deleted repo path s (s', result) =
      (result ≡ get_artifact kv blake3 records trees s repo path)
      × (get_artifact kv blake3 records trees s' repo path ≡ ok none)
      × (kv.get_versioned s' (tree_entry_key blake3 repo path) ≡ (
          if is_there (kv.get s (artifact_key blake3 repo path))
          then none
          else kv.get_versioned s (tree_entry_key blake3 repo path)))

  -- In a repository without NUL in its name, `delete_artifact` returns what `get_artifact` would;
  -- then the record is gone, and so is its tree entry if there was a record, while otherwise the
  -- tree entry is as before.
  pub delete_artifact-get_artifact :
      (repo path : Bytes) (s : kv.State)
      → NulFree repo
      → let (s', result) = delete_artifact kv blake3 records trees repo path s in
        (result ≡ get_artifact kv blake3 records trees s repo path)
        × (get_artifact kv blake3 records trees s' repo path ≡ ok none)
        × (kv.get_versioned s' (tree_entry_key blake3 repo path) ≡ (
            if is_there (kv.get s (artifact_key blake3 repo path))
            then none
            else kv.get_versioned s (tree_entry_key blake3 repo path)))
  unfolding delete_artifact
  delete_artifact-get_artifact repo path s h =
      after (kv.delete_returning key_a s)
        (laws.delete_returning_result s key_a ∙ sym (laws.get_lem s key_a))
        (laws.delete_returning_lem s key_a key_a aa aa ∙ rw (self_eq kv laws key_a))
        (laws.delete_returning_lem s key_a key_t aa ta
          ∙ rw (key_eq-tables' blake3 repo path repo path))
    where
      key_a : KeyTriple
      key_a = artifact_key blake3 repo path

      key_t : KeyTriple
      key_t = tree_entry_key blake3 repo path

      aa : NulFree key_a.pk
      aa = artifact_key-NulFree blake3 repo path h

      ta : NulFree key_t.pk
      ta = tree_entry_key-NulFree blake3 repo path h

      after :
          (d : kv.State × Option V)
          → d.1 ≡ kv.get s key_a
          → kv.get_versioned d.0 key_a ≡ none
          → kv.get_versioned d.0 key_t ≡ kv.get_versioned s key_t
          → Deleted repo path s (after_delete kv blake3 records trees repo path d)
      after (s', none) was gone kept =
          unfold get_artifact typed_get in
          (rw (← was) refl, typed_get-none kv laws records s' key_a gone, rw (← was) kept)
      after (s', some bytes) was gone kept =
          unfold get_artifact typed_get delete_tree_file in
          (
            rw (← was) refl,
            typed_get-none kv laws records _ key_a
                (delete-keeps_none kv laws s' key_t key_a ta aa gone),
            laws.delete_lem s' key_t key_t ta ta ∙ rw (self_eq kv laws key_t) (rw (← was) refl),
          )
