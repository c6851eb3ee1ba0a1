-- ===== src/Update/Stats.antt =====
-- The numbers of the stores: `drain_store_deltas` and `flush_store_stats`. `others n` is what other
-- callers do between the read and the write of the attempt with `n` more behind it.
pub mod Sums
pub mod Flushed
use artifact_depot.Base.{
  ℕ, zero, suc, Bool, true, false, not, ◌||◌, List, [], ◌∷◌, Option, some, none, ◌==◌,
  if◌then◌else◌,
}
use artifact_depot.Base.Bytes.{Bytes, bytes_eq}
use artifact_depot.Keys.Shard.{KeyTriple, store_stats_key}
use artifact_depot.Kv.{KvStore, Cell}
use artifact_depot.Kv.Codec.{Codec}
use artifact_depot.Service.Error.{Result, ok, err}
use artifact_depot.Update.Words.{add_i64, max_0}
use artifact_depot.Update.Deltas.{StoreDelta, upsert}

pub record StoreStatsRecord : Type 0 where
  pub blob_count : ℕ
  pub total_bytes : ℕ
  pub updated_at : ℕ

abbrev pub Pending : Type 0
Pending = List (Bytes × (ℕ × ℕ))

-- `pending.entry(store).or_insert((0, 0))`, and the two additions.
unfoldable pub add_pending : Bytes → ℕ → ℕ → Pending → Pending
unfolding upsert add_i64
add_pending store count size pending =
    upsert bytes_eq store (λ e. (add_i64 e.0 count, add_i64 e.1 size))
      (add_i64 0 count, add_i64 0 size) pending

-- The loop over the events that are there.
unfoldable pub add_events : List StoreDelta → Pending → Pending
unfolding add_pending
add_events [] pending = pending
add_events (d ∷ events) pending =
    add_events events (add_pending d.store d.count_delta d.bytes_delta pending)

abbrev pub nonzero : Pending → Pending
nonzero [] = []
nonzero ((store, (c, b)) ∷ pending) =
    let rest = nonzero pending in
    if not (c == 0) || not (b == 0) then (store, (c, b)) ∷ rest else rest

-- What is to be flushed; nothing stays pending.
unfoldable pub drain_store_deltas : List StoreDelta → Pending → Pending
unfolding add_events
drain_store_deltas events pending = nonzero (add_events events pending)

abbrev pub store_stats_flush_max_retries : ℕ
store_stats_flush_max_retries = 3

module _ {V : Type 0} (stats : Codec StoreStatsRecord V) where
  abbrev pub parsed : Result StoreStatsRecord → ℕ → Option StoreStatsRecord × Option ℕ
  parsed (ok rec) v = (some rec, some v)
  parsed (err e) v = (none, none)

  -- `(existing, version)`: a record that does not parse counts as none.
  unfoldable pub read_stats : Cell V → Option StoreStatsRecord × Option ℕ
  read_stats none = (none, none)
  read_stats (some (bytes, v)) = parsed (stats.from_slice bytes) v

  abbrev pub new_stats : ℕ → ℕ → ℕ → Option StoreStatsRecord → StoreStatsRecord
  new_stats count size now none = record {
    blob_count = max_0 (add_i64 0 count);
    total_bytes = max_0 (add_i64 0 size);
    updated_at = now;
  }
  new_stats count size now (some s) = record {
    blob_count = max_0 (add_i64 s.blob_count count);
    total_bytes = max_0 (add_i64 s.total_bytes size);
    updated_at = now;
  }

  module _ (kv : KvStore V) (others : ℕ → kv.State → kv.State) (now : ℕ) where
    abbrev pub after_put : kv.State × Bool → (kv.State → kv.State × Bool) → kv.State × Bool
    after_put (s, true) retry = (s, true)
    after_put (s, false) retry = retry s

    -- The attempts that are left, and whether one is `applied`.
    unfoldable pub stats_attempts : ℕ → Bytes → ℕ → ℕ → kv.State → kv.State × Bool
    unfolding read_stats add_i64 max_0
    stats_attempts zero store count size s = (s, false)
    stats_attempts (suc left) store count size s =
        let (existing, version) = read_stats (kv.get_versioned s (store_stats_key store)) in
        after_put
          (kv.put_if_version (store_stats_key store)
            (stats.to_vec (new_stats count size now existing)) version (others left s))
          (λ s'. stats_attempts left store count size s')

    -- Deltas that are not applied are pending again.
    unfoldable pub flush_store_stats : Pending → Pending → kv.State → kv.State × Pending
    unfolding stats_attempts add_pending
    flush_store_stats [] pending s = (s, pending)
    flush_store_stats ((store, (count, size)) ∷ deltas) pending s =
        let (s', applied) = stats_attempts store_stats_flush_max_retries store count size s in
        flush_store_stats deltas (if applied then pending else add_pending store count size pending)
          s'
