-- ===== src/Gc/Records/Swept.antt =====
-- The records of referenced blobs survive the sweep, and the sweep ends.
use artifact_depot.Base.{
  ◌≡◌, refl, sym, ap, ◌∙◌, inl, inr, Bool, true, false, ◌||◌, List, [], ◌∷◌, ◌++◌, some, All,
  Bool-cases,
}
use mathlib.Core.Path.{subst}
use artifact_depot.Base.Bytes.{Bytes, is_empty}
use artifact_depot.Keys.Tree.{NulFree}
use artifact_depot.Keys.Shard.{KeyTriple, table_blobs}
use artifact_depot.Kv.{KvStore, KvLaws, key_eq, value_of}
use artifact_depot.Kv.Codec.{Codec}
use artifact_depot.Kv.Sorted.{Holds}
use artifact_depot.Service.Artifact.{delete_batch}
use artifact_depot.Service.Blob.{BlobRecord}
use artifact_depot.Service.Error.{Result, ok, err}
use artifact_depot.Gc.Deletes.{delete_batch-keeps, delete_batch-Shrinks, key_in, key_eq_sound}
use artifact_depot.Gc.Records.{
  BlobCounts, count_value, scanned_one, count_items, in_partition, delete_records, sweep_batch,
}
use artifact_depot.Gc.Shard.Returns.{Shrinks}

module _ {V : Type 0} (kv : KvStore V) (laws : KvLaws kv) (blobs : Codec BlobRecord V)
    (check : Bytes → Bool) (dry_run : Bool) where
  -- A record that can be read and whose blob the filter does not find.
  abbrev Unreferenced : Result BlobRecord → Type 0
  Unreferenced (err e) = ⊥
  Unreferenced (ok r) = check r.blob_id ≡ false

  -- Every listed key is that of an item with such a record.
  module _ (Item : Bytes → V → Type 0) where
    abbrev Listed : Bytes → Type 0
    Listed sk = (v : V) × Item sk v × Unreferenced (blobs.from_slice v)

    AllListed-append :
        (xs : List Bytes) (sk : Bytes) → All Listed xs → Listed sk → All Listed (xs ++ sk ∷ [])
    AllListed-append [] sk h l = (l, tt)
    AllListed-append (x ∷ xs) sk h l = (h.0, AllListed-append xs sk h.1 l)

    value-Listed :
        (sk : Bytes) (v : V) (r : Result BlobRecord) (c : BlobCounts × List Bytes)
        → Item sk v
        → blobs.from_slice v ≡ r
        → All Listed c.1
        → All Listed (count_value kv blobs check dry_run sk r c).1
    value-Listed sk v (err e) c i same h = h
    value-Listed sk v (ok r) c i same h = elim (Bool-cases (check r.blob_id)) [
      | inl found ↦ rw found h
      | inr missed ↦ rw missed (AllListed-append c.1 sk h (v, i, rw same missed))
    ]

    items-Listed :
        (items : List (Bytes × V)) (c : BlobCounts × List Bytes)
        → ((sk : Bytes) (v : V) → Holds sk v items → Item sk v)
        → All Listed c.1
        → All Listed (count_items kv blobs check dry_run items c).1
    unfolding count_items
    items-Listed [] c from h = h
    items-Listed ((sk, v) ∷ items) c from h =
        items-Listed items
          (count_value kv blobs check dry_run sk (blobs.from_slice v)
            (scanned_one kv blobs check dry_run c))
          (λ j w m. from j w (inr m))
          (value-Listed sk v (blobs.from_slice v) (scanned_one kv blobs check dry_run c)
            (from sk v (inl (refl, refl))) refl h)

  partition-NulFree :
      (pk : Bytes) (sks : List Bytes)
      → NulFree pk
      → All (λ (k : Bytes × Bytes). NulFree k.0) (in_partition kv blobs check dry_run pk sks)
  partition-NulFree pk [] h = tt
  partition-NulFree pk (sk ∷ sks) h = (h, partition-NulFree pk sks h)

  -- A batch removes records, and nothing else.
  pub sweep_batch-Shrinks :
      (pk table : Bytes) (items : List (Bytes × V)) (s : kv.State) (c : BlobCounts)
      → NulFree pk
      → Shrinks kv table s (sweep_batch kv blobs check dry_run pk items s c).0
  unfolding sweep_batch
  sweep_batch-Shrinks pk table items s c h =
      deleted (count_items kv blobs check dry_run items (c, []))
    where
      deleted :
          (found : BlobCounts × List Bytes)
          → Shrinks kv table s (delete_records kv blobs check dry_run pk found s).0
      deleted (c', sks) = elim (Bool-cases (is_empty sks || dry_run)) [
        | inl idle ↦ rw idle (λ pk' sk v f g. g)
        | inr some_left ↦
            rw some_left
              (delete_batch-Shrinks kv laws table_blobs _ table s (partition-NulFree pk sks h))
      ]

  -- The record of a blob that the filter finds.
  module _ (j : KeyTriple) (v : V) (r : BlobRecord) (free : NulFree j.pk)
      (readable : blobs.from_slice v ≡ ok r) (found : check r.blob_id ≡ true) where
    abbrev pub InPlace : kv.State → Type 0
    InPlace s = kv.get s j ≡ some v

    referenced : (w : V) → w ≡ v → Unreferenced (blobs.from_slice w) → ⊥
    referenced w same missed = cc (
      the_record (blobs.from_slice v) readable
          (subst (λ x. Unreferenced (blobs.from_slice x)) same missed),
      found,
    )
      where
        the_record : (x : Result BlobRecord) → x ≡ ok r → Unreferenced x → check r.blob_id ≡ false
        the_record (ok x) e h = cc
        the_record (err e') e h = absurd h

    other_key :
        (pk sk : Bytes) (seen : kv.State)
        → InPlace seen
        → Listed (λ k w. kv.get seen (record { table = table_blobs; pk = pk; sk = k }) ≡ some w) sk
        → key_eq (record { table = table_blobs; pk = pk; sk = sk }) j ≡ false
    other_key pk sk seen here (w, there, missed) =
        elim (Bool-cases (key_eq (record { table = table_blobs; pk = pk; sk = sk }) j)) [
          | inl e ↦ absurd (referenced w (same_value w (key_eq_sound _ j e) there) missed)
          | inr e ↦ e
        ]
      where
        same_value :
            (u : V)
            → record { table = table_blobs; pk = pk; sk = sk } ≡ j
            → kv.get seen (record { table = table_blobs; pk = pk; sk = sk }) ≡ some u
            → u ≡ v
        same_value u same at = cc (ap (kv.get seen) same, at, here)

    keys_other :
        (pk : Bytes) (sks : List Bytes) (seen : kv.State)
        → NulFree pk
        → InPlace seen
        → All
            (Listed (λ k w. kv.get seen (record { table = table_blobs; pk = pk; sk = k }) ≡ some w))
            sks
        → All
            (λ (k : Bytes × Bytes). NulFree k.0 × (key_eq (key_in kv laws table_blobs k) j ≡ false))
            (in_partition kv blobs check dry_run pk sks)
    keys_other pk [] seen h here l = tt
    keys_other pk (sk ∷ sks) seen h here l =
        ((h, other_key pk sk seen here l.0), keys_other pk sks seen h here l.1)

    pub sweep_batch-InPlace :
        (pk : Bytes) (items : List (Bytes × V)) (seen t : kv.State) (c : BlobCounts)
        → NulFree pk
        → ((k : Bytes) (w : V)
            → Holds k w items
            → kv.get seen (record { table = table_blobs; pk = pk; sk = k }) ≡ some w)
        → InPlace seen
        → InPlace t
        → InPlace (sweep_batch kv blobs check dry_run pk items t c).0
    unfolding sweep_batch
    sweep_batch-InPlace pk items seen t c h from here now =
        deleted (count_items kv blobs check dry_run items (c, [])) (
          items-Listed
            (λ k w. kv.get seen (record { table = table_blobs; pk = pk; sk = k }) ≡ some w) items
            (c, []) from tt)
      where
        deleted :
            (found : BlobCounts × List Bytes)
            → All
                (Listed
                  (λ k w. kv.get seen (record { table = table_blobs; pk = pk; sk = k }) ≡ some w))
                found.1
            → InPlace (delete_records kv blobs check dry_run pk found t).0
        deleted (c', sks) l = elim (Bool-cases (is_empty sks || dry_run)) [
          | inl idle ↦ rw idle now
          | inr some_left ↦
              let s' =
                (delete_batch kv table_blobs (in_partition kv blobs check dry_run pk sks) t).0 in
              rw some_left (
                laws.get_lem s' j
                ∙ ap value_of (
                    delete_batch-keeps kv laws table_blobs
                      (in_partition kv blobs check dry_run pk sks) t j free
                      (keys_other pk sks seen h here l))
                ∙ sym (laws.get_lem t j)
                ∙ now)
        ]
