-- ===== src/Service/Artifact/Absent.antt =====
-- What `put_artifact_if_absent` leaves in the store.
use artifact_depot.Base.{
  ℕ, if◌then◌else◌, not, Bool-cases, inl, inr, ◌≡◌, refl, ap, ◌∙◌, Bool, true, false, some, none,
}
use artifact_depot.Base.Bytes.{Bytes}
use artifact_depot.Keys.Tree.{NulFree}
use artifact_depot.Keys.Shard.{KeyTriple, artifact_key, tree_entry_key}
use artifact_depot.Kv.{KvStore, KvLaws, Cell, version_matches, is_there}
use artifact_depot.Kv.Codec.{Codec, CodecLaws}
use artifact_depot.Service.Error.{Result, ok}
use artifact_depot.Service.Artifact.{
  ArtifactRecord, TreeEntry, prepare, tree_file, typed_get, upsert_tree_file,
  put_artifact_if_absent, put_if_absent, get_artifact,
}
use artifact_depot.Service.Artifact.Keys.{
  artifact_key-NulFree, tree_entry_key-NulFree, key_eq-tables', typed_get-same,
}
use artifact_depot.Service.Artifact.Put.{self_eq, upsert-Stored}

module _ {K V : Type 0} (kv : KvStore V) (laws : KvLaws kv) (blake3 : Bytes → ℕ → ℕ)
    (records : Codec (ArtifactRecord K) V) (records_laws : CodecLaws records)
    (trees : Codec (TreeEntry K) V) (trees_laws : CodecLaws trees) where
  abbrev a_key : Bytes → Bytes → KeyTriple
  a_key = artifact_key blake3

  abbrev t_key : Bytes → Bytes → KeyTriple
  t_key = tree_entry_key blake3

  absent-matches : (c : Cell V) → version_matches none c ≡ not (is_there c)
  absent-matches none = refl
  absent-matches (some (v, n)) = refl

  abbrev WrittenIf :
      Bool → Bytes → Bytes → ArtifactRecord K → kv.State → kv.State × Result Bool → Type 0
  WrittenIf there repo path r s (s', result) =
      (result ≡ ok (not there))
      × (typed_get records kv s' (a_key repo path)
          ≡ (if there then typed_get records kv s (a_key repo path) else ok (some r)))
      × (typed_get trees kv s' (t_key repo path)
          ≡ (if there then typed_get trees kv s (t_key repo path) else ok (some (tree_file r))))

  absent_write :
      (there : Bool) (repo path : Bytes) (r : ArtifactRecord K) (s : kv.State)
      → NulFree repo
      → is_there (kv.get_versioned s (a_key repo path)) ≡ there
      → WrittenIf there repo path r s (
          let (s', wrote) = kv.put_if_version (a_key repo path) (records.to_vec r) none s in
          (if wrote then upsert_tree_file kv blake3 records trees repo path r s' else s', ok wrote))
  absent_write there repo path r s h at =
      finish there m (kv.put_if_version key v none s) result (own there m) other
    where
      key : KeyTriple
      key = a_key repo path

      v : V
      v = records.to_vec r

      m : version_matches none (kv.get_versioned s key) ≡ not there
      m = absent-matches (kv.get_versioned s key) ∙ ap not at

      result : (kv.put_if_version key v none s).1 ≡ not there
      result = laws.put_if_version_result s key v none ∙ m

      own :
          (b : Bool)
          → version_matches none (kv.get_versioned s key) ≡ not b
          → kv.get_versioned (kv.put_if_version key v none s).0 key
            ≡ (if b then kv.get_versioned s key else some (v, 1))
      own true e =
          laws.put_if_version_lem s key key v none (artifact_key-NulFree blake3 repo path h)
            (artifact_key-NulFree blake3 repo path h)
          ∙ rw e
      own false e =
          laws.put_if_version_lem s key key v none (artifact_key-NulFree blake3 repo path h)
            (artifact_key-NulFree blake3 repo path h)
          ∙ rw (e, self_eq kv laws blake3 records records_laws trees trees_laws key)

      other :
          kv.get_versioned (kv.put_if_version key v none s).0 (t_key repo path)
          ≡ kv.get_versioned s (t_key repo path)
      other = elim (Bool-cases (version_matches none (kv.get_versioned s key))) [
        | inl e ↦
            laws.put_if_version_lem s key (t_key repo path) v none
              (artifact_key-NulFree blake3 repo path h) (tree_entry_key-NulFree blake3 repo path h)
            ∙ rw (e, key_eq-tables' blake3 repo path repo path)
        | inr e ↦
            laws.put_if_version_lem s key (t_key repo path) v none
              (artifact_key-NulFree blake3 repo path h) (tree_entry_key-NulFree blake3 repo path h)
            ∙ rw e
      ]

      finish :
          (b : Bool)
          → version_matches none (kv.get_versioned s key) ≡ not b
          → (w : kv.State × Bool) → w.1 ≡ not b
          → kv.get_versioned w.0 key ≡ (if b then kv.get_versioned s key else some (v, 1))
          → kv.get_versioned w.0 (t_key repo path) ≡ kv.get_versioned s (t_key repo path)
          → WrittenIf b repo path r s (
            if w.1 then upsert_tree_file kv blake3 records trees repo path r w.0 else w.0,
            ok w.1,
          )
      finish true e w wrote at_a at_t = rw wrote (
        refl,
        typed_get-same kv laws records w.0 s key at_a,
        typed_get-same kv laws trees w.0 s (t_key repo path) at_t,
      )
      finish false e w wrote at_a at_t =
          let stored =
            upsert-Stored kv laws blake3 records records_laws trees trees_laws repo path r w.0 1 h
              at_a in
          rw wrote (refl, stored.0, stored.1)

  -- In a repository without NUL in its name, `put_artifact_if_absent` writes exactly when there is
  -- no record; then the record and its tree entry read as written, and otherwise both read as
  -- before.
  pub put_artifact_if_absent-get_artifact :
      (uuid repo path : Bytes) (r : ArtifactRecord K) (s : kv.State)
      → NulFree repo
      → let (s', result) = put_artifact_if_absent kv blake3 records trees uuid repo path r s in
        let r' = prepare uuid path r in
        (result ≡ ok (not (is_there (kv.get_versioned s (artifact_key blake3 repo path)))))
        × (get_artifact kv blake3 records trees s' repo path ≡ (
            if is_there (kv.get_versioned s (artifact_key blake3 repo path))
            then get_artifact kv blake3 records trees s repo path
            else ok (some r')))
        × (typed_get trees kv s' (tree_entry_key blake3 repo path) ≡ (
            if is_there (kv.get_versioned s (artifact_key blake3 repo path))
            then typed_get trees kv s (tree_entry_key blake3 repo path)
            else ok (some (tree_file r'))))
  unfolding put_artifact_if_absent put_if_absent get_artifact
  put_artifact_if_absent-get_artifact uuid repo path r s h =
      absent_write (is_there (kv.get_versioned s (artifact_key blake3 repo path))) repo path
        (prepare uuid path r) s h refl
