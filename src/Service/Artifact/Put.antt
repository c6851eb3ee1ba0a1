-- ===== src/Service/Artifact/Put.antt =====
-- What `put_artifact` leaves in the store.
use artifact_depot.Base.{ℕ, ◌≡◌, refl, ◌∙◌, true, Option, some}
use artifact_depot.Base.Bytes.{Bytes, bytes_eq_iff}
use artifact_depot.Keys.Tree.{NulFree}
use artifact_depot.Keys.Shard.{KeyTriple, artifact_key, tree_entry_key}
use artifact_depot.Kv.{KvStore, KvLaws, key_eq, next_version, version_or_0}
use artifact_depot.Kv.Codec.{Codec, CodecLaws}
use artifact_depot.Service.Error.{Result, ok}
use artifact_depot.Service.Artifact.{
  ArtifactRecord, TreeEntry, tree_file, typed_get, upsert_tree_file,
}
use artifact_depot.Service.Artifact.Keys.{
  artifact_key-NulFree, tree_entry_key-NulFree, key_eq-tables, typed_get-some,
}

module _ {K V : Type 0} (kv : KvStore V) (laws : KvLaws kv) (blake3 : Bytes → ℕ → ℕ)
    (records : Codec (ArtifactRecord K) V) (records_laws : CodecLaws records)
    (trees : Codec (TreeEntry K) V) (trees_laws : CodecLaws trees) where
  pub self_eq : (k : KeyTriple) → key_eq k k ≡ true
  self_eq k = rw (
    (bytes_eq_iff k.table k.table).1 refl,
    (bytes_eq_iff k.pk k.pk).1 refl,
    (bytes_eq_iff k.sk k.sk).1 refl,
  )

  abbrev pub a_key : Bytes → Bytes → KeyTriple
  a_key = artifact_key blake3

  abbrev pub t_key : Bytes → Bytes → KeyTriple
  t_key = tree_entry_key blake3

  -- A record is stored under its key, and its file entry in the tree.
  abbrev pub Stored : Bytes → Bytes → ArtifactRecord K → kv.State → Type 0
  Stored repo path r s =
      (typed_get records kv s (a_key repo path) ≡ ok (some r))
      × (typed_get trees kv s (t_key repo path) ≡ ok (some (tree_file r)))

  pub upsert-Stored :
      (repo path : Bytes) (r : ArtifactRecord K) (s : kv.State) (n : ℕ)
      → NulFree repo
      → kv.get_versioned s (a_key repo path) ≡ some (records.to_vec r, n)
      → Stored repo path r (upsert_tree_file kv blake3 records trees repo path r s)
  unfolding upsert_tree_file
  upsert-Stored repo path r s n h at =
      let ta = tree_entry_key-NulFree blake3 repo path h in
      let aa = artifact_key-NulFree blake3 repo path h in
      (
        typed_get-some kv laws records records_laws _ (a_key repo path) r n (
            laws.put_lem s (t_key repo path) (a_key repo path) _ ta aa
            ∙ rw (key_eq-tables blake3 repo path repo path) at),
        typed_get-some kv laws trees trees_laws _ (t_key repo path) (tree_file r)
            (next_version (version_or_0 (kv.get_versioned s (t_key repo path))))
            (laws.put_lem s (t_key repo path) (t_key repo path) (trees.to_vec (tree_file r)) ta ta
              ∙ rw (self_eq (t_key repo path))),
      )

  abbrev Written :
      Bytes
      → Bytes
      → ArtifactRecord K
      → Option (ArtifactRecord K)
      → kv.State × Result (Option (ArtifactRecord K))
      → Type 0
  Written repo path r old (s, result) = (result ≡ ok old) × Stored repo path r s
