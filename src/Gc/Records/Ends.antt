-- ===== src/Gc/Records/Ends.antt =====
-- The sweep of all shards of a store: what it keeps, and that it ends.
use artifact_depot.Base.{ℕ, ◌≡◌, refl, Bool, true, false, List, [], ◌∷◌, Option, some, none}
use mathlib.Core.Path.{subst}
use artifact_depot.Base.Bytes.{Bytes}
use artifact_depot.Keys.Tree.{NulFree}
use artifact_depot.Keys.Shard.{KeyTriple, num_shards, table_blobs, blob_shard_pk}
use artifact_depot.Kv.{KvStore, KvLaws}
use artifact_depot.Kv.Codec.{Codec}
use artifact_depot.Service.Artifact.Keys.{shard_pk-NulFree}
use artifact_depot.Service.Blob.{BlobRecord}
use artifact_depot.Service.Error.{Result, ok, err}
use artifact_depot.Gc.Records.{
  BlobCounts, sweep_batch, sweep_shards, sweep_records, no_counts, after_shard, add_counts,
}
use artifact_depot.Gc.Records.Swept.{sweep_batch-InPlace, sweep_batch-Shrinks}
use artifact_depot.Gc.Scan.{below_from}
use artifact_depot.Gc.Shard.{shard_loop}
use artifact_depot.Gc.Shard.Keeps.{shard_loop-keeps, KeptIn}
use artifact_depot.Gc.Shard.Returns.{
  Shrinks, Shrinks-trans, FitsIn, shard_loop-returns, Shrinks-FitsIn,
}

pub blob_shard_pk-NulFree :
    (store : Bytes) (n : ℕ) → NulFree store → NulFree (blob_shard_pk store n)
unfolding blob_shard_pk
blob_shard_pk-NulFree store n h = shard_pk-NulFree store n h

module _ {V : Type 0} (kv : KvStore V) (laws : KvLaws kv) (blobs : Codec BlobRecord V)
    (check : Bytes → Bool) (dry_run : Bool) (fuel : ℕ)
    (others between : ℕ → ℕ → kv.State → kv.State) where
  module _ (cancelled : ℕ → ℕ → Bool) (j : KeyTriple) (v : V) (r : BlobRecord) (free : NulFree j.pk)
      (readable : blobs.from_slice v ≡ ok r) (found : check r.blob_id ≡ true)
      (others-keep : (n m : ℕ) (s : kv.State)
        → kv.get s j ≡ some v
        → kv.get (others n m s) j ≡ some v)
      (between-keep : (n m : ℕ) (s : kv.State)
        → kv.get s j ≡ some v
        → kv.get (between n m s) j ≡ some v) where
    abbrev KeptAfter : Option (kv.State × Result BlobCounts) → Type 0
    KeptAfter none = Unit
    KeptAfter (some (s, c)) = kv.get s j ≡ some v

    abbrev Alive : kv.State → Type 0
    Alive s = kv.get s j ≡ some v

    after_keeps :
        (pk : Bytes) (c : BlobCounts) (x : Option (kv.State × Result BlobCounts))
        (rest : kv.State → BlobCounts → Option (kv.State × Result BlobCounts))
        → KeptAfter x
        → ((s : kv.State) (c' : BlobCounts) → Alive s → KeptAfter (rest s c'))
        → KeptAfter (after_shard kv blobs check dry_run fuel cancelled others between c x rest)
    after_keeps pk c none rest h k = tt
    after_keeps pk c (some (s, err e)) rest h k = h
    after_keeps pk c (some (s, ok c')) rest h k = k s (add_counts kv blobs check dry_run c c') h

    pub sweep_shards-keeps :
        (store : Bytes) (shards : List ℕ) (s : kv.State) (c : BlobCounts)
        → NulFree store
        → Alive s
        → KeptAfter
            (sweep_shards kv blobs check dry_run fuel cancelled others between store shards s c)
    unfolding sweep_shards
    sweep_shards-keeps store [] s c h alive = alive
    sweep_shards-keeps store (shard ∷ shards) s c h alive =
        let pk = blob_shard_pk store shard in
        let pk_free = blob_shard_pk-NulFree store shard h in
        after_keeps pk c
          (shard_loop kv (others shard) (between shard) (cancelled shard)
            (sweep_batch kv blobs check dry_run pk) fuel table_blobs pk [] s no_counts)
          (λ s' c'.
            sweep_shards kv blobs check dry_run fuel cancelled others between store shards s' c')
          (kept
            (shard_loop kv (others shard) (between shard) (cancelled shard)
              (sweep_batch kv blobs check dry_run pk) fuel table_blobs pk [] s no_counts)
            (shard_loop-keeps kv laws (others shard) (between shard) (cancelled shard)
              (sweep_batch kv blobs check dry_run pk) table_blobs pk Alive (λ c'. Unit)
              (others-keep shard) (between-keep shard)
              (λ items seen t c' from here now.
                sweep_batch-InPlace kv laws blobs check dry_run j v r free readable found pk items
                  seen t c' pk_free from here now)
              (λ items t c' q. tt) fuel [] s no_counts alive tt))
          (λ s' c' alive'. sweep_shards-keeps store shards s' c' h alive')
      where
        kept :
            (x : Option (kv.State × Result BlobCounts))
            → KeptIn Alive (λ (c' : BlobCounts). Unit) x
            → KeptAfter x
        kept none h = tt
        kept (some (s', r')) h = h.0

    -- In a store without NUL in its name: the sweep keeps every record that can be read and
    -- whose blob the filter finds, in whatever partition without NUL in its key, whatever the
    -- sweep ends with, where other callers keep the record.
    pub sweep_records-keeps :
        (store : Bytes) (s s' : kv.State) (result : Result BlobCounts)
        → NulFree store
        → kv.get s j ≡ some v
        → sweep_records kv blobs check dry_run fuel cancelled others between store s
          ≡ some (s', result)
        → kv.get s' j ≡ some v
    unfolding sweep_records
    sweep_records-keeps store s s' result h alive e =
        subst KeptAfter e (sweep_shards-keeps store (below_from num_shards 0) s no_counts h alive)

  -- With fuel for each partition, and where records are only removed meanwhile, the sweep ends.
  module _ (others-Shrinks : (n m : ℕ) (s : kv.State) → Shrinks kv table_blobs s (others n m s))
      (between-Shrinks : (n m : ℕ) (s : kv.State) → Shrinks kv table_blobs s (between n m s)) where
    pub sweep_shards-returns :
        (store : Bytes) (shards : List ℕ) (s : kv.State) (c : BlobCounts)
        → NulFree store
        → ((n : ℕ) → FitsIn kv fuel table_blobs (blob_shard_pk store n) s)
        → (s' : kv.State) × (c' : BlobCounts) × (sweep_shards kv blobs check dry_run fuel
              (λ n m. false)
              others
              between
              store
              shards
              s
              c
            ≡ some (s', ok c'))
          × Shrinks kv table_blobs s s'
    unfolding sweep_shards
    sweep_shards-returns store [] s c h fits = (s, c, refl, λ pk sk v f g. g)
    sweep_shards-returns store (shard ∷ shards) s c h fits =
        let pk = blob_shard_pk store shard in
        let pk_free = blob_shard_pk-NulFree store shard h in
        let (s', local, e, smaller) =
          shard_loop-returns kv laws table_blobs pk pk_free (others shard) (between shard)
            (sweep_batch kv blobs check dry_run pk) (others-Shrinks shard) (between-Shrinks shard)
            (λ items t a.
              sweep_batch-Shrinks kv laws blobs check dry_run pk table_blobs items t a pk_free)
            fuel [] s no_counts (fits shard) in
        let (t, c', e', smaller') =
          sweep_shards-returns store shards s' (add_counts kv blobs check dry_run c local) h (λ n.
            Shrinks-FitsIn kv laws fuel s s' table_blobs (blob_shard_pk store n)
              (blob_shard_pk-NulFree store n h) smaller (fits n)) in
        (t, c', rw e e', Shrinks-trans kv laws table_blobs s s' t smaller smaller')
