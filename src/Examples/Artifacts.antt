-- ===== src/Examples/Artifacts.antt =====
-- The artifact service over the embedded store at concrete inputs.
use artifact_depot.Base.{
  ℕ, ◌-◌, ltb, ◌≡◌, refl, false, not, [], ◌∷◌, some, none, length, ◌+◌, ◌%◌, inl, if◌then◌else◌,
}
use artifact_depot.Base.Bytes.{Bytes, contains_byte}
use artifact_depot.Keys.Tree.{NulFree}
use artifact_depot.Keys.Shard.{artifact_key, tree_entry_key}
use artifact_depot.Kv.{KvStore, KvLaws, is_there, version_matches, next_version}
use artifact_depot.Kv.Redb.Laws.{redb_kv, redb_kv-KvLaws}
use artifact_depot.Kv.Redb.Model.{tables, no_rows, tables-RedbLaws}
use artifact_depot.Service.Error.{ok}
use artifact_depot.Service.Artifact.{
  ArtifactRecord, TreeEntry, prepare, tree_file, typed_get, put_artifact, put_artifact_if_absent,
  get_artifact, delete_artifacts_paired_batch, touch_after,
}
use artifact_depot.Service.Artifact.Absent.{put_artifact_if_absent-get_artifact}
use artifact_depot.Service.Artifact.Delete.{delete_artifacts_paired_batch-gone}
use artifact_depot.Service.Artifact.Touch.{touch_after-touched}
use artifact_depot.Examples.Codecs.{records, records-CodecLaws, trees, trees-CodecLaws}

abbrev pub hash : Bytes → ℕ → ℕ
hash s n = (length s + n) % 256

abbrev pub kv : KvStore Bytes
kv = redb_kv tables

abbrev pub laws : KvLaws kv
laws = redb_kv-KvLaws tables tables-RedbLaws

unfoldable pub empty : kv.State
unfolding redb_kv
empty = no_rows

abbrev pub libs : Bytes
libs = 108 ∷ 105 ∷ 98 ∷ 115 ∷ []

pub libs-NulFree : NulFree libs
unfolding contains_byte
libs-NulFree = refl

-- "a/b"
abbrev pub a_b : Bytes
a_b = 97 ∷ 47 ∷ 98 ∷ []

abbrev uuid : ℕ → Bytes
uuid n = 117 ∷ n ∷ []

abbrev pub upload : ArtifactRecord ℕ
upload = record {
  schema_version = 3;
  id = [];
  size = 12;
  content_type = 116 ∷ [];
  created_at = 100;
  updated_at = 100;
  last_accessed_at = 0;
  path = [];
  kind = 0;
  internal = false;
  blob_id = some (98 ∷ []);
  content_hash = none;
  etag = none;
}

-- The store after one upload.
abbrev stored : kv.State
stored = (put_artifact kv hash records trees (λ n t. t) uuid libs a_b upload empty).0

put_artifact_if_absent-get_artifact_example :
    (let (s', result) =
        put_artifact_if_absent kv hash records trees (uuid 7) libs a_b upload stored in
      let r' = prepare (uuid 7) a_b upload in
      (result ≡ ok (not (is_there (kv.get_versioned stored (artifact_key hash libs a_b)))))
      × (get_artifact kv hash records trees s' libs a_b ≡ (
          if is_there (kv.get_versioned stored (artifact_key hash libs a_b))
          then get_artifact kv hash records trees stored libs a_b
          else ok (some r')))
      × (typed_get trees kv s' (tree_entry_key hash libs a_b) ≡ (
          if is_there (kv.get_versioned stored (artifact_key hash libs a_b))
          then typed_get trees kv stored (tree_entry_key hash libs a_b)
          else ok (some (tree_file r')))))
put_artifact_if_absent-get_artifact_example =
    put_artifact_if_absent-get_artifact kv laws hash records records-CodecLaws trees trees-CodecLaws
      (uuid 7) libs a_b upload stored libs-NulFree

delete_artifacts_paired_batch-gone_example :
    (let s' = delete_artifacts_paired_batch kv hash records trees libs (a_b ∷ []) stored in
      (get_artifact kv hash records trees s' libs a_b ≡ ok none)
      × (typed_get trees kv s' (tree_entry_key hash libs a_b) ≡ ok none))
delete_artifacts_paired_batch-gone_example =
    delete_artifacts_paired_batch-gone kv laws hash records trees libs a_b (a_b ∷ []) stored
      libs-NulFree (inl refl)

abbrev entry : TreeEntry ℕ
entry = tree_file (prepare (uuid 2) a_b upload)

touch_after-touched_example :
    (let key = tree_entry_key hash libs a_b in
      let (s', result) =
        touch_after kv hash records trees libs a_b 70000000000
          (some (trees.to_vec entry, 1))
          stored in
      (result ≡ ok tt)
      × (kv.get_versioned s' key ≡ (
          if ltb (70000000000 - entry.last_accessed_at) 60000000000
          then kv.get_versioned stored key
          else if version_matches (some 1) (kv.get_versioned stored key)
          then some (
            trees.to_vec (record {
              kind = entry.kind;
              last_modified_at = entry.last_modified_at;
              last_accessed_at = 70000000000;
            }),
            next_version 1,
          )
          else kv.get_versioned stored key))
      × (kv.get_versioned s' (artifact_key hash libs a_b)
          ≡ kv.get_versioned stored (artifact_key hash libs a_b)))
touch_after-touched_example =
    touch_after-touched kv laws hash records trees libs a_b 70000000000 stored (trees.to_vec entry)
      1 entry libs-NulFree (trees-CodecLaws.round_trip entry)
