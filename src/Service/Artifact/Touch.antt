-- ===== src/Service/Artifact/Touch.antt =====
-- The access time of an artifact is kept in its tree entry.
use artifact_depot.Base.{
  ℕ, ◌-◌, ◌/◌, ltb, arith, ◌≡◌, refl, ◌∙◌, Bool, some, if◌then◌else◌, Bool-cases, inl, inr,
}
use artifact_depot.Base.Bytes.{Bytes}
use artifact_depot.Keys.Tree.{NulFree}
use artifact_depot.Keys.Shard.{KeyTriple, artifact_key, tree_entry_key}
use artifact_depot.Kv.{KvStore, KvLaws, version_matches, next_version}
use artifact_depot.Kv.Codec.{Codec}
use artifact_depot.Service.Error.{ok}
use artifact_depot.Service.Artifact.{ArtifactRecord, TreeEntry, is_recent, touched, touch_after}
use artifact_depot.Service.Artifact.Keys.{
  artifact_key-NulFree, tree_entry_key-NulFree, key_eq-tables,
}
use artifact_depot.Service.Artifact.Delete.{self_eq}

module _ {K V : Type 0} (kv : KvStore V) (laws : KvLaws kv) (blake3 : Bytes → ℕ → ℕ)
    (records : Codec (ArtifactRecord K) V) (trees : Codec (TreeEntry K) V) where
  -- Less than a minute, in nanoseconds.
  recent_iff :
      (now : ℕ) (te : TreeEntry K) → is_recent now te ≡ ltb (now - te.last_accessed_at) 60000000000
  unfolding is_recent
  recent_iff now te = minute (now - te.last_accessed_at)
    where
      minute : (n : ℕ) → ltb (n / 1000000000) 60 ≡ ltb n 60000000000
      minute n = ground arith

  -- `touch_artifact` read a tree entry under a version, and goes on in any later state, in a
  -- repository without NUL in its name, where the entry can be parsed. It does not fail. The entry
  -- gets the new access time, and nothing else, under the next version unless its old one is less
  -- than a minute back or the entry has changed since the read; otherwise it is as before. The record
  -- is not touched.
  pub touch_after-touched :
      (repo path : Bytes) (now : ℕ) (s : kv.State) (bytes : V) (version : ℕ) (te : TreeEntry K)
      → NulFree repo
      → trees.from_slice bytes ≡ ok te
      → let key = tree_entry_key blake3 repo path in
        let (s', result) =
          touch_after kv blake3 records trees repo path now (some (bytes, version)) s in
        (result ≡ ok tt)
        × (kv.get_versioned s' key ≡ (
            if ltb (now - te.last_accessed_at) 60000000000
            then kv.get_versioned s key
            else if version_matches (some version) (kv.get_versioned s key)
            then some (
              trees.to_vec (record {
                kind = te.kind;
                last_modified_at = te.last_modified_at;
                last_accessed_at = now;
              }),
              next_version version,
            )
            else kv.get_versioned s key))
        × (kv.get_versioned s' (artifact_key blake3 repo path)
            ≡ kv.get_versioned s (artifact_key blake3 repo path))
  unfolding touch_after touched
  touch_after-touched repo path now s bytes version te h reads =
      rw (← recent_iff now te) (elim (Bool-cases (is_recent now te)) [
        | inl recent ↦ rw (reads, recent) (refl, refl, refl)
        | inr old ↦ rw (reads, old) (refl, own, other)
      ])
    where
      key_a : KeyTriple
      key_a = artifact_key blake3 repo path

      key_t : KeyTriple
      key_t = tree_entry_key blake3 repo path

      v : V
      v = trees.to_vec (touched now te)

      aa : NulFree key_a.pk
      aa = artifact_key-NulFree blake3 repo path h

      ta : NulFree key_t.pk
      ta = tree_entry_key-NulFree blake3 repo path h

      matches : Bool
      matches = version_matches (some version) (kv.get_versioned s key_t)

      own :
          kv.get_versioned (kv.put_if_version key_t v (some version) s).0 key_t
          ≡ (if matches then some (v, next_version version) else kv.get_versioned s key_t)
      own = elim (Bool-cases matches) [
        | inl m ↦
            laws.put_if_version_lem s key_t key_t v (some version) ta ta
            ∙ rw (m, self_eq kv laws key_t)
        | inr m ↦ laws.put_if_version_lem s key_t key_t v (some version) ta ta ∙ rw m
      ]

      other :
          kv.get_versioned (kv.put_if_version key_t v (some version) s).0 key_a
          ≡ kv.get_versioned s key_a
      other = elim (Bool-cases matches) [
        | inl m ↦
            laws.put_if_version_lem s key_t key_a v (some version) ta aa
            ∙ rw (m, key_eq-tables blake3 repo path repo path)
        | inr m ↦ laws.put_if_version_lem s key_t key_a v (some version) ta aa ∙ rw m
      ]
