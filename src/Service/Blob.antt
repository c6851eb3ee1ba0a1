-- ===== src/Service/Blob.antt =====
-- core/src/service/blob.rs: the records of blobs, keyed by the hash of their contents. `remove` is
-- `delete` of the blob store, whose failure the source ignores; the events for the updater are
-- returned. `others` is what other callers do between the conditional write and the read.
pub mod Claim
use artifact_depot.Base.{
  ℕ, ◌-◌, ◌%◌, Bool, true, false, List, [], ◌∷◌, Option, some, none, if◌then◌else◌,
}
use artifact_depot.Base.Bytes.{Bytes, bytes_eq}
use artifact_depot.Keys.Shard.{KeyTriple, blob_key}
use artifact_depot.Kv.{KvStore}
use artifact_depot.Kv.Codec.{Codec}
use artifact_depot.Service.Error.{Result, ok, err}
use artifact_depot.Service.Artifact.{typed_get, put_if_absent}
use artifact_depot.Update.Words.{word_size}
use artifact_depot.Update.Deltas.{StoreDelta}

pub record BlobRecord : Type 0 where
  pub schema_version : ℕ
  pub blob_id : Bytes
  pub hash : Bytes
  pub size : ℕ
  pub created_at : ℕ
  pub store : Bytes

-- `rec.store = store`
abbrev pub in_store : Bytes → BlobRecord → BlobRecord
in_store store r = record r { store = store }

abbrev pub credit : Bytes → ℕ → Option Bytes → List StoreDelta
credit store size none = record { store = store; count_delta = 1; bytes_delta = size } ∷ []
credit store size (some id) = []

-- `store_changed(store, -1, -(sz as i64))`
abbrev pub debit : Bytes → Result (Option BlobRecord) → Bool → List StoreDelta
debit store (ok (some r)) true =
    record {
      store = store;
      count_delta = word_size - 1;
      bytes_delta = (word_size - r.size) % word_size;
    }
    ∷ []
debit store found deleted = []

module _ {V : Type 0} (kv : KvStore V) (blake3 : Bytes → ℕ → ℕ) (blobs : Codec BlobRecord V) where
  unfoldable pub get_blob : kv.State → Bytes → Bytes → Result (Option BlobRecord)
  unfolding typed_get blob_key
  get_blob s store hash = typed_get blobs kv s (blob_key blake3 store hash)

  -- The read behind a conditional write that found a record.
  abbrev pub lost_race :
      KeyTriple → V → Result (Option BlobRecord) → kv.State → kv.State × Result (Option Bytes)
  lost_race key bytes (err e) s = (s, err e)
  lost_race key bytes (ok (some existing)) s = (s, ok (some existing.blob_id))
  lost_race key bytes (ok none) s = (kv.put key bytes s, ok none)

  abbrev pub claimed :
      KeyTriple → V → (kv.State → kv.State) → kv.State × Bool → kv.State × Result (Option Bytes)
  claimed key bytes others (s, true) = (s, ok none)
  claimed key bytes others (s, false) =
      lost_race key bytes (typed_get blobs kv (others s) key) (others s)

  unfoldable pub put_dedup_record :
      (kv.State → kv.State) → Bytes → BlobRecord → kv.State → kv.State × Result (Option Bytes)
  unfolding put_if_absent typed_get blob_key
  put_dedup_record others store r s =
      let key = blob_key blake3 store r.hash in
      let bytes = blobs.to_vec (in_store store r) in
      claimed key bytes others (put_if_absent kv key bytes s)

  abbrev pub counted :
      Bytes
      → ℕ
      → kv.State × Result (Option Bytes)
      → kv.State × Result (Option Bytes) × List StoreDelta
  counted store size (s, err e) = (s, err e, [])
  counted store size (s, ok existing) = (s, ok existing, credit store size existing)

  unfoldable pub put_dedup_record_counted :
      (kv.State → kv.State)
      → Bytes
      → BlobRecord
      → kv.State
      → kv.State × Result (Option Bytes) × List StoreDelta
  unfolding put_dedup_record
  put_dedup_record_counted others store r s =
      counted store r.size (put_dedup_record others store r s)

  module _ {B : Type 0} (remove : Bytes → B → B) where
    -- A dedup hit under another id drops the duplicate.
    abbrev pub reused : Bytes → Result (Option Bytes) → B → B × Result Bytes
    reused id (err e) b = (b, err e)
    reused id (ok none) b = (b, ok id)
    reused id (ok (some existing)) b =
        if bytes_eq existing id then (b, ok id) else (remove id b, ok existing)

    unfoldable pub claim_or_reuse_blob :
        (kv.State → kv.State) → Bytes → BlobRecord → kv.State × B → (kv.State × B) × Result Bytes
    unfolding put_dedup_record
    claim_or_reuse_blob others store r (s, b) =
        let (s', existing) = put_dedup_record others store r s in
        let (b', id) = reused r.blob_id existing b in ((s', b'), id)

    unfoldable pub claim_or_reuse_blob_counted :
        (kv.State → kv.State)
        → Bytes
        → BlobRecord
        → kv.State × B
        → (kv.State × B) × Result Bytes × List StoreDelta
    unfolding put_dedup_record_counted
    claim_or_reuse_blob_counted others store r (s, b) =
        let (s', existing, events) = put_dedup_record_counted others store r s in
        let (b', id) = reused r.blob_id existing b in ((s', b'), id, events)

  unfoldable pub delete_blob : Bytes → Bytes → kv.State → kv.State × Bool
  unfolding blob_key
  delete_blob store hash s = kv.delete (blob_key blake3 store hash) s

  abbrev pub deleted_counted :
      Bytes
      → Result (Option BlobRecord)
      → kv.State × Bool
      → kv.State
      → kv.State × Result Bool × List StoreDelta
  deleted_counted store (err e) w s = (s, err e, [])
  deleted_counted store (ok found) (s', deleted) s =
      (s', ok deleted, debit store (ok found) deleted)

  unfoldable pub delete_blob_counted :
      Bytes → Bytes → kv.State → kv.State × Result Bool × List StoreDelta
  unfolding get_blob delete_blob
  delete_blob_counted store hash s =
      deleted_counted store (get_blob s store hash) (delete_blob store hash s) s
