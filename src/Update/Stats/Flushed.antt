-- ===== src/Update/Stats/Flushed.antt =====
-- The attempts to apply a delta of a store.
use artifact_depot.Base.{
  ℕ, zero, suc, ◌==◌, arith, ◌≡◌, refl, ap, ◌∙◌, Bool, true, false, ◌&&◌, [], ◌∷◌, Option, some,
  none, if◌then◌else◌,
}
use artifact_depot.Base.Bytes.{Bytes, bytes_eq, contains_byte}
use artifact_depot.Keys.Tree.{NulFree}
use artifact_depot.Keys.Shard.{KeyTriple, store_stats_key}
use artifact_depot.Kv.{KvStore, KvLaws, Cell, key_eq, version_matches, next_version, expected_or_0}
use artifact_depot.Kv.Codec.{Codec}
use artifact_depot.Service.Artifact.Delete.{self_eq}
use artifact_depot.Service.Error.{Result, ok, err}
use artifact_depot.Update.Stats.{
  StoreStatsRecord, Pending, read_stats, new_stats, after_put, stats_attempts, flush_store_stats,
  add_pending,
}
use artifact_depot.Update.Stats.Sums.{
  sum_cut, max_0-add_i64, pending_of, plus_words, add_pending-own, add_pending-other,
}

module _ {V : Type 0} (stats : Codec StoreStatsRecord V) (kv : KvStore V) (laws : KvLaws kv)
    (others : ℕ → kv.State → kv.State) (now : ℕ) where
  module _ (store : Bytes) (count size : ℕ)
      (quiet : (n : ℕ) (t : kv.State)
        → kv.get_versioned (others n t) (store_stats_key store)
          ≡ kv.get_versioned t (store_stats_key store)) where
    abbrev key : KeyTriple
    key = store_stats_key store

    abbrev cell : kv.State → Cell V
    cell s = kv.get_versioned s key

    abbrev attempts : ℕ → kv.State → kv.State × Bool
    attempts left s = stats_attempts stats kv others now left store count size s

    key_NulFree : NulFree (store_stats_key store).pk
    key_NulFree = unfold store_stats_key contains_byte in refl

    put-cell :
        (s : kv.State) (v : V) (e : Option ℕ)
        → cell (kv.put_if_version key v e s).0 ≡ (
            if version_matches e (cell s) then some (v, next_version (expected_or_0 e)) else cell s)
    put-cell s v e =
        laws.put_if_version_lem s key key v e key_NulFree key_NulFree
        ∙ by_test (version_matches e (cell s))
      where
        by_test :
            (b : Bool)
            → (if b && key_eq key key then some (v, next_version (expected_or_0 e)) else cell s)
              ≡ (if b then some (v, next_version (expected_or_0 e)) else cell s)
        by_test true = rw (self_eq kv laws key) refl
        by_test false = refl

    -- A record that does not parse is never replaced.
    failing :
        (left : ℕ) (s : kv.State) (c : Cell V)
        → cell s ≡ c
        → version_matches (read_stats stats c).1 c ≡ false
        → ((attempts left s).1 ≡ false) × (cell (attempts left s).0 ≡ c)
    unfolding stats_attempts
    failing zero s c at m = (refl, at)
    failing (suc left) s c at m =
        let r = read_stats stats (cell s) in
        let t = others left s in
        let w = kv.put_if_version key (stats.to_vec (new_stats stats count size now r.0)) r.1 t in
        let same : version_matches r.1 (cell t) ≡ false = rw (quiet left s, at) m in
        next (λ u e. failing left u c e m) w (laws.put_if_version_result t key _ r.1 ∙ same)
          (put-cell t _ r.1 ∙ rw same (quiet left s ∙ at))
      where
        next :
            ((u : kv.State)
              → cell u ≡ c
              → ((attempts left u).1 ≡ false) × (cell (attempts left u).0 ≡ c))
            → (w : kv.State × Bool) → w.1 ≡ false
            → cell w.0 ≡ c
            → ((after_put stats kv others now w (λ s'. attempts left s')).1 ≡ false)
              × (cell (after_put stats kv others now w (λ s'. attempts left s')).0 ≡ c)
        next later (t, true) failed kept = absurd cc
        next later (t, false) failed kept = later t kept

    applying :
        (left : ℕ) (s : kv.State)
        → version_matches (read_stats stats (cell s)).1 (cell s) ≡ true
        → ((attempts (suc left) s).1 ≡ true)
          × (cell (attempts (suc left) s).0
              ≡ some (
                stats.to_vec (new_stats stats count size now (read_stats stats (cell s)).0),
                next_version (expected_or_0 (read_stats stats (cell s)).1),
              ))
    unfolding stats_attempts
    applying left s m =
        let r = read_stats stats (cell s) in
        let t = others left s in
        let same : version_matches r.1 (cell t) ≡ true = rw (quiet left s) m in
        next (kv.put_if_version key (stats.to_vec (new_stats stats count size now r.0)) r.1 t)
          (laws.put_if_version_result t key _ r.1 ∙ same) (put-cell t _ r.1 ∙ rw same refl)
      where
        next :
            {new : Cell V} (w : kv.State × Bool)
            → w.1 ≡ true
            → cell w.0 ≡ new
            → ((after_put stats kv others now w (λ s'. attempts left s')).1 ≡ true)
              × (cell (after_put stats kv others now w (λ s'. attempts left s')).0 ≡ new)
        next (t, true) went at = (refl, at)
        next (t, false) went at = absurd cc

    -- What stands in the place of a record, with the delta added in words of 64 bits; a sum that is
    -- negative as a signed word counts as 0.
    abbrev pub with_delta : ℕ → ℕ → StoreStatsRecord
    with_delta old_count old_bytes = record {
      blob_count = sum_cut old_count count;
      total_bytes = sum_cut old_bytes size;
      updated_at = now;
    }

    -- The pending deltas of the store have the delta on top, and those of other stores are the same.
    abbrev pub IsPendingAgain : Pending → Pending → Type 0
    IsPendingAgain pending pending' =
        (pending_of store pending' ≡ some (plus_words count size (pending_of store pending)))
        × ((other : Bytes)
            → bytes_eq store other ≡ false
            → pending_of other pending' ≡ pending_of other pending)

    new_stats-none : new_stats stats count size now none ≡ with_delta 0 0
    new_stats-none = rw (max_0-add_i64 0 count, max_0-add_i64 0 size) refl

    new_stats-some :
        (r : StoreStatsRecord)
        → new_stats stats count size now (some r) ≡ with_delta r.blob_count r.total_bytes
    new_stats-some r = rw (max_0-add_i64 r.blob_count count, max_0-add_i64 r.total_bytes size) refl

    -- What a flush does to the record of the store and to what is pending, by the record before it.
    abbrev pub FlushedValue :
        V → ℕ → Result StoreStatsRecord → Pending → kv.State × Pending → Type 0
    FlushedValue bytes version (ok old) pending (s', pending') =
        (pending' ≡ pending)
        × (cell s'
            ≡ some (stats.to_vec (with_delta old.blob_count old.total_bytes), next_version version))
    FlushedValue bytes version (err e) pending (s', pending') =
        IsPendingAgain pending pending' × (cell s' ≡ some (bytes, version))

    abbrev pub Flushed : Cell V → Pending → kv.State × Pending → Type 0
    Flushed none pending (s', pending') =
        (pending' ≡ pending) × (cell s' ≡ some (stats.to_vec (with_delta 0 0), 1))
    Flushed (some (bytes, version)) pending after =
        FlushedValue bytes version (stats.from_slice bytes) pending after

    -- If the other callers leave the record of a store alone, `flush_store_stats` applies a delta
    -- once or keeps it. Where the store has no record or one that parses, a record with the delta
    -- added to the old numbers, or to 0, in words of 64 bits, with 0 for a negative sum, stands there
    -- under the next version, and nothing more is pending than before. Where it does not parse, the
    -- record and its version are as they were, the delta is added to what is pending for the store,
    -- and what is pending for other stores stays the same.
    pub flush_store_stats-once :
        (pending : Pending) (s : kv.State)
        → Flushed
            (cell s)
            pending
            (flush_store_stats stats kv others now ((store, (count, size)) ∷ []) pending s)
    unfolding flush_store_stats
    flush_store_stats-once pending s = by_cell (cell s) refl
      where
        same : (n : ℕ) → (n == n) ≡ true
        same n = ground arith

        by_value :
            (bytes : V) (version : ℕ) (x : Result StoreStatsRecord)
            → stats.from_slice bytes ≡ x
            → cell s ≡ some (bytes, version)
            → FlushedValue bytes version x pending (
              (attempts 3 s).0,
              if (attempts 3 s).1 then pending else add_pending store count size pending,
            )
        by_value bytes version (ok old) reads at =
            let seen : read_stats stats (cell s) ≡ (some old, some version) =
              rw at (unfold read_stats in rw reads refl) in
            let (went, now_at) = applying 2 s (rw (seen, at) (same version)) in
            (
              rw went refl,
              now_at
                  ∙ rw seen
                      (ap (λ r. some (stats.to_vec r, next_version version)) (new_stats-some old)),
            )
        by_value bytes version (err e) reads at =
            let seen : read_stats stats (some (bytes, version)) ≡ (none, none) =
              unfold read_stats in rw reads refl in
            let (failed, kept) = failing 3 s (some (bytes, version)) at (rw seen refl) in
            (
              rw failed (
                add_pending-own store count size pending,
                add_pending-other store count size pending,
              ),
              kept,
            )

        by_cell :
            (c : Cell V)
            → cell s ≡ c
            → Flushed c pending (
              (attempts 3 s).0,
              if (attempts 3 s).1 then pending else add_pending store count size pending,
            )
        by_cell none at =
            let seen : read_stats stats (cell s) ≡ (none, none) =
              rw at (unfold read_stats in refl) in
            let (went, now_at) = applying 2 s (rw (seen, at) refl) in
            (rw went refl, now_at ∙ rw seen (ap (λ r. some (stats.to_vec r, 1)) new_stats-none))
        by_cell (some (bytes, version)) at = by_value bytes version (stats.from_slice bytes) refl at
