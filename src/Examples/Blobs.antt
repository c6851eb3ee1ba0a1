-- ===== src/Examples/Blobs.antt =====
-- Claims of blobs at a concrete input.
use artifact_depot.Base.{ℕ, ◌≡◌, refl, List, [], ◌∷◌, some, none, if◌then◌else◌}
use artifact_depot.Base.Bytes.{Bytes, bytes_eq}
use artifact_depot.Keys.Shard.{blob_key}
use artifact_depot.Kv.Codec.{Codec, CodecLaws}
use artifact_depot.Kv.Redb.Laws.{redb_kv}
use artifact_depot.Kv.Redb.Model.{tables, no_rows}
use artifact_depot.Service.Error.{Result, ok, err, DepotError}
use artifact_depot.Service.Artifact.Keys.{typed_get-none}
use artifact_depot.Service.Blob.{BlobRecord, get_blob, claim_or_reuse_blob_counted}
use artifact_depot.Service.Blob.Claim.{kept, claim_or_reuse_blob_counted-get_blob}
use artifact_depot.Examples.Codecs.{
  put_text, text, behind_text, text-put_text, behind_text-put_text,
}
use artifact_depot.Examples.Artifacts.{hash, kv, laws, libs, libs-NulFree, empty}

abbrev texts : ℕ → ℕ → ℕ → Bytes → Bytes → BlobRecord
texts a b c r r' = record {
  schema_version = a;
  blob_id = text r;
  hash = text r';
  size = b;
  created_at = c;
  store = text (behind_text r');
}

abbrev read_blob : Bytes → Result BlobRecord
read_blob (a ∷ b ∷ c ∷ r) = ok (texts a b c r (behind_text r))
read_blob other = err DepotError.internal

unfoldable pub blobs : Codec BlobRecord Bytes
blobs = record {
  to_vec = λ r.
      r.schema_version
      ∷ r.size
      ∷ r.created_at
      ∷ put_text r.blob_id (put_text r.hash (put_text r.store []));
  from_slice = read_blob;
}

pub blobs-CodecLaws : CodecLaws blobs
unfolding blobs
blobs-CodecLaws = record {
  round_trip = λ r.
      rw
        (
          text-put_text r.blob_id (put_text r.hash (put_text r.store [])),
          behind_text-put_text r.blob_id (put_text r.hash (put_text r.store [])),
          text-put_text r.hash (put_text r.store []),
          behind_text-put_text r.hash (put_text r.store []),
          text-put_text r.store [],
        )
        refl;
}

abbrev pub blob : BlobRecord
blob = record {
  schema_version = 1;
  blob_id = 105 ∷ [];
  hash = 104 ∷ [];
  size = 12;
  created_at = 100;
  store = [];
}

-- The removed files.
abbrev remove : Bytes → List Bytes → List Bytes
remove id removed = id ∷ removed

no_blob : get_blob kv hash blobs empty libs blob.hash ≡ ok none
no_blob =
    unfold get_blob in
    typed_get-none kv laws blobs empty (blob_key hash libs blob.hash)
      (unfold empty no_rows tables redb_kv in refl)

claim_or_reuse_blob_counted-get_blob_example :
    (let ((s', b'), id, events) =
        claim_or_reuse_blob_counted kv hash blobs remove (λ t. t) libs blob (empty, []) in
      let left = kept libs blob none in
      (id ≡ ok left.blob_id)
      × (get_blob kv hash blobs s' libs blob.hash ≡ ok (some left))
      × (b' ≡ (if bytes_eq left.blob_id blob.blob_id then [] else remove blob.blob_id []))
      × (events ≡ record { store = libs; count_delta = 1; bytes_delta = 12 } ∷ []))
claim_or_reuse_blob_counted-get_blob_example =
    claim_or_reuse_blob_counted-get_blob kv laws hash blobs blobs-CodecLaws (λ t. t) libs blob
      libs-NulFree (λ t. refl) remove none empty [] no_blob
