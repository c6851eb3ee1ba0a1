-- ===== src/Service/Blob/Claim.antt =====
-- Claims of a blob, and the record that they leave.
use artifact_depot.Base.{
  ℕ, ◌&&◌, [], ◌∷◌, Bool-cases, inl, inr, if◌then◌else◌, Bool, true, false, ◌≡◌, refl, sym, ap, ◌∙◌,
  Option, some, none,
}
use artifact_depot.Base.Bytes.{Bytes, bytes_eq, bytes_eq_iff}
use artifact_depot.Keys.Tree.{NulFree}
use artifact_depot.Keys.Shard.{KeyTriple, blob_key, sharded_pk}
use artifact_depot.Kv.{KvStore, KvLaws, Cell, value_of, key_eq, version_matches, next_version}
use artifact_depot.Kv.Codec.{Codec, CodecLaws}
use artifact_depot.Service.Error.{Result, ok, err}
use artifact_depot.Service.Artifact.{typed_get, put_if_absent, read_value, some_value}
use artifact_depot.Service.Artifact.Keys.{
  shard_pk-NulFree, typed_get-some, typed_get-none, typed_get-same,
}
use artifact_depot.Service.Artifact.Delete.{self_eq}
use artifact_depot.Service.Blob.{
  BlobRecord, in_store, get_blob, lost_race, claimed, put_dedup_record, counted,
  put_dedup_record_counted, reused, claim_or_reuse_blob_counted,
}

-- The record that a claim leaves: the one in place, or the new one.
abbrev pub kept : Bytes → BlobRecord → Option BlobRecord → BlobRecord
kept store r none = in_store store r
kept store r (some existing) = existing

abbrev pub is_none : Option BlobRecord → Bool
is_none none = true
is_none (some e) = false

module _ {V : Type 0} (kv : KvStore V) (laws : KvLaws kv) (blake3 : Bytes → ℕ → ℕ)
    (blobs : Codec BlobRecord V) (claws : CodecLaws blobs) (others : kv.State → kv.State)
    (store : Bytes) (r : BlobRecord) (free : NulFree store)
    (quiet : (t : kv.State)
      → kv.get_versioned (others t) (blob_key blake3 store r.hash)
        ≡ kv.get_versioned t (blob_key blake3 store r.hash)) where
  abbrev key : KeyTriple
  key = blob_key blake3 store r.hash

  abbrev value : V
  value = blobs.to_vec (in_store store r)

  abbrev id_of : Option BlobRecord → Option Bytes
  id_of none = none
  id_of (some existing) = some existing.blob_id

  key_NulFree : NulFree (blob_key blake3 store r.hash).pk
  key_NulFree = unfold blob_key sharded_pk in shard_pk-NulFree store _ free

  abbrev Claims : Option BlobRecord → kv.State × Result (Option Bytes) → Type 0
  Claims old w =
      (w.1 ≡ ok (id_of old)) × (typed_get blobs kv w.0 key ≡ ok (some (kept store r old)))

  some_read : (d : Result BlobRecord) → some_value blobs d ≡ ok none → ⊥
  some_read (err e) h = absurd cc
  some_read (ok a) h = absurd cc

  stored :
      {s : kv.State} {bytes : V} {n : ℕ}
      → kv.get_versioned s key ≡ some (bytes, n)
      → typed_get blobs kv s key ≡ some_value blobs (blobs.from_slice bytes)
  unfolding typed_get
  stored {s = s} at = ap (read_value blobs) (laws.get_lem s key ∙ ap value_of at)

  put-Claims :
      (c : Cell V) (old : Option BlobRecord) (s : kv.State) (w : kv.State × Bool)
      → kv.get_versioned s key ≡ c
      → typed_get blobs kv s key ≡ ok old
      → w.1 ≡ version_matches none c
      → kv.get_versioned w.0 key
        ≡ (if version_matches none c then some (value, next_version 0) else c)
      → Claims old (claimed kv blake3 blobs key value others w)
  put-Claims none old s (t, false) at reads went now = absurd cc
  put-Claims none none s (t, true) at reads went now =
      (refl, typed_get-some kv laws blobs claws t key (in_store store r) _ now)
  put-Claims none (some e) s (t, true) at reads went now =
      absurd (cc (typed_get-none kv laws blobs s key at))
  put-Claims (some (bytes, n)) old s (t, true) at reads went now = absurd cc
  put-Claims (some (bytes, n)) old s (t, false) at reads went now =
      by_old old (λ e. some_read (blobs.from_slice bytes) (sym (stored at) ∙ reads ∙ ap ok e)) reads
        (typed_get-same kv laws blobs (others t) s key (quiet t ∙ now ∙ sym at))
    where
      by_old :
          (old : Option BlobRecord)
          → (old ≡ none → ⊥)
          → typed_get blobs kv s key ≡ ok old
          → typed_get blobs kv (others t) key ≡ typed_get blobs kv s key
          → Claims old
              (lost_race kv blake3 blobs key value (typed_get blobs kv (others t) key) (others t))
      by_old none there reads same = absurd (there refl)
      by_old (some e) there reads same = rw (same ∙ reads) (refl, same ∙ reads)

  put_dedup_record-Claims :
      (old : Option BlobRecord) (s : kv.State)
      → get_blob kv blake3 blobs s store r.hash ≡ ok old
      → Claims old (put_dedup_record kv blake3 blobs others store r s)
  unfolding put_dedup_record get_blob put_if_absent
  put_dedup_record-Claims old s reads =
      put-Claims (kv.get_versioned s key) old s (kv.put_if_version key value none s) refl reads
        (laws.put_if_version_result s key value none)
        (laws.put_if_version_lem s key key value none key_NulFree key_NulFree
          ∙ by_test (version_matches none (kv.get_versioned s key)))
    where
      by_test :
          (b : Bool)
          → (if b && key_eq key key then some (value, next_version 0) else kv.get_versioned s key)
            ≡ (if b then some (value, next_version 0) else kv.get_versioned s key)
      by_test true = rw (self_eq kv laws key) refl
      by_test false = refl

  -- If other callers leave the record of the hash alone, in a store without NUL in its name, with a
  -- record in place that can be read or none: `claim_or_reuse_blob_counted` returns the id of the
  -- record that is there afterwards, which is the one in place before, or the new one in this
  -- store; it removes the file of the record given exactly if that has another id, and credits one
  -- blob of its size to the store exactly if there was no record.
  pub claim_or_reuse_blob_counted-get_blob :
      {B : Type 0} (remove : Bytes → B → B) (old : Option BlobRecord) (s : kv.State) (b : B)
      → get_blob kv blake3 blobs s store r.hash ≡ ok old
      → let ((s', b'), id, events) =
          claim_or_reuse_blob_counted kv blake3 blobs remove others store r (s, b) in
        (id ≡ ok (kept store r old).blob_id)
        × (get_blob kv blake3 blobs s' store r.hash ≡ ok (some (kept store r old)))
        × (b' ≡ (if bytes_eq (kept store r old).blob_id r.blob_id then b else remove r.blob_id b))
        × (events ≡ (
            if is_none old
            then record { store = store; count_delta = 1; bytes_delta = r.size } ∷ []
            else []))
  unfolding claim_or_reuse_blob_counted put_dedup_record_counted get_blob
  claim_or_reuse_blob_counted-get_blob remove old s b reads =
      finish old (put_dedup_record kv blake3 blobs others store r s)
        (put_dedup_record-Claims old s reads)
    where
      finish :
          (old : Option BlobRecord) (w : kv.State × Result (Option Bytes))
          → Claims old w
          → let (s', existing, events) = counted kv blake3 blobs store r.size w in
            let (b', id) = reused kv blake3 blobs remove r.blob_id existing b in
            (id ≡ ok (kept store r old).blob_id)
            × (typed_get blobs kv s' key ≡ ok (some (kept store r old)))
            × (b'
                ≡ (if bytes_eq (kept store r old).blob_id r.blob_id then b else remove r.blob_id b))
            × (events ≡ (
                if is_none old
                then record { store = store; count_delta = 1; bytes_delta = r.size } ∷ []
                else []))
      finish none (t, x) c =
          rw c.0 (refl, c.1, rw ((bytes_eq_iff r.blob_id r.blob_id).1 refl) refl, refl)
      finish (some e) (t, x) c = elim (Bool-cases (bytes_eq e.blob_id r.blob_id)) [
        | inl same ↦
            rw (c.0, same)
              (ap ok (sym ((bytes_eq_iff e.blob_id r.blob_id).0 same)), c.1, refl, refl)
        | inr other ↦ rw (c.0, other) (refl, c.1, refl, refl)
      ]
