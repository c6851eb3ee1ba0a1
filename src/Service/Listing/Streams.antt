-- ===== src/Service/Listing/Streams.antt =====
-- The streams of a listing, and the entries of their shards.
use artifact_depot.Base.{
  ℕ, zero, suc, ◌+◌, ◌<◌, ◌≤◌, ◌≡◌, refl, sym, ◌∙◌, ◌↔◌, ◌⊎◌, Bool, true, false, List, [], ◌∷◌,
  Option, some, none, arith, length, inl, inr, All, ltb, Bool-cases,
}
use artifact_depot.Base.Bytes.{Bytes, bytes_lt}
use artifact_depot.Keys.Prefix.{IsByte}
use artifact_depot.Keys.Shard.{artifact_shard_pk, artifact_key, table_artifacts}
use artifact_depot.Keys.Shard.Unique.{shard_pk-injective}
use artifact_depot.Kv.{KvStore, KvLaws, in_range}
use artifact_depot.Kv.Codec.{Codec}
use artifact_depot.Kv.Sorted.{Holds}
use artifact_depot.Kv.Select.{IsSorted-select, select_sound, select_complete}
use artifact_depot.Service.Scan.{prefix_end, per_shard_batch}
use artifact_depot.Service.Scan.Complete.{AllBytes, starts-in_range}
use artifact_depot.Service.Stream.{ShardStream}
use artifact_depot.Service.Stream.Fetch.{wanted}
use artifact_depot.Service.Merge.Primed.{comes, Yielded, AllApart, AllFit}
use artifact_depot.Service.Listing.{streams_from, shard_stream}

per_shard_batch-positive : (limit : ℕ) → 0 < per_shard_batch limit
unfolding per_shard_batch
per_shard_batch-positive limit = ground arith

bytes_of :
    {V : Type 0} (k : Bytes) (v : V) (xs : List (Bytes × V))
    → AllBytes xs
    → Holds k v xs
    → All IsByte k
bytes_of k v [] b m = absurd m
bytes_of k v ((j, w) ∷ r) b (inl e) = rw e.0 b.0
bytes_of k v ((j, w) ∷ r) b (inr m) = bytes_of k v r b.1 m

range_end :
    (is_utf8 : Bytes → Bool) (prefix start k : Bytes) (end : Option Bytes)
    → in_range prefix end k ≡ true
    → bytes_lt k start ≡ false
    → in_range start end k ≡ true
range_end is_utf8 prefix start k none h ge = ground arith
range_end is_utf8 prefix start k (some e) h ge = ground arith

module _ {V : Type 0} (kv : KvStore V) (blake3 : Bytes → ℕ → ℕ) (store : kv.State)
    (laws : KvLaws kv) (repo : Bytes) where
  abbrev pub shard_entries : ℕ → List (Bytes × V)
  shard_entries shard = kv.entries store table_artifacts (artifact_shard_pk repo shard)

  -- Every artifact is in the partition that its path hashes to.
  abbrev pub AtHome : Type 0
  AtHome =
      (k : Bytes) (v : V) (shard : ℕ)
      → Holds k v (shard_entries shard)
      → (artifact_key blake3 repo k).pk ≡ artifact_shard_pk repo shard

module _ {T V : Type 0} (codec : Codec T V) (lower_contains : Bytes → Bytes → Bool)
    (is_utf8 : Bytes → Bool) (kv : KvStore V) (laws : KvLaws kv) (rounds : ℕ) (store : kv.State)
    (blake3 : Bytes → ℕ → ℕ) (repo prefix start : Bytes) (filter : Option Bytes) (limit : ℕ)
    (from_prefix : bytes_lt start prefix ≡ false)
    (all_bytes : (shard : ℕ) → AllBytes (shard_entries kv blake3 store laws repo shard))
    (enough : (shard : ℕ) → suc (length (shard_entries kv blake3 store laws repo shard)) < rounds)
    (home : AtHome kv blake3 store laws repo) where
  abbrev pub stream : ℕ → ShardStream V
  stream shard = shard_stream is_utf8 repo prefix start filter limit shard

  abbrev entries : ℕ → List (Bytes × V)
  entries = shard_entries kv blake3 store laws repo

  abbrev out_of : ShardStream V → List (Bytes × V)
  out_of = comes codec lower_contains is_utf8 kv laws rounds store table_artifacts

  abbrev pub Out : Bytes → V → List (ShardStream V) → Type 0
  Out = Yielded codec lower_contains is_utf8 kv laws rounds store table_artifacts

  -- What a shard holds that the listing is for.
  abbrev pub Wanted : Bytes → V → ℕ → Type 0
  Wanted k v shard =
      (wanted lower_contains prefix filter k ≡ true)
      × (bytes_lt k start ≡ false)
      × Holds k v (entries shard)

  out-Wanted :
      (k : Bytes) (v : V) (shard : ℕ) → Holds k v (out_of (stream shard)) ↔ Wanted k v shard
  out-Wanted k v shard = (to, from)
    where
      to : Holds k v (out_of (stream shard)) → Wanted k v shard
      to m =
          let (want, m') = select_sound (wanted lower_contains prefix filter) k v _ m in
          let (range, m'') =
            select_sound (in_range start (prefix_end is_utf8 prefix)) k v (entries shard) m' in
          (want, ground arith, m'')

      from : Wanted k v shard → Holds k v (out_of (stream shard))
      from w =
          let bytes = bytes_of k v (entries shard) (all_bytes shard) w.2 in
          select_complete (wanted lower_contains prefix filter) k v _ w.0 (
            select_complete (in_range start (prefix_end is_utf8 prefix)) k v (entries shard)
              (range_end is_utf8 prefix start k (prefix_end is_utf8 prefix)
                (starts-in_range is_utf8 prefix k bytes (ground arith)) w.1)
              w.2)

  pub AllFit-streams :
      (left s : ℕ)
      → AllFit codec lower_contains is_utf8 kv laws rounds store table_artifacts
          (streams_from stream left s)
  unfolding streams_from
  AllFit-streams zero s = tt
  AllFit-streams (suc left) s = (
    (
      record {
        bounded = record {
          ends = refl;
          starts = from_prefix;
          batch = per_shard_batch-positive limit;
        };
        bytes = all_bytes s;
        enough = enough s;
      },
      IsSorted-select _ _ (
          IsSorted-select _ _
            (laws.entries-IsSorted store table_artifacts (artifact_shard_pk repo s))),
    ),
    AllFit-streams left (s + 1),
  )

  pub Out-sound :
      (left s : ℕ) (k : Bytes) (v : V)
      → Out k v (streams_from stream left s)
      → (shard : ℕ) × (s ≤ shard) × (shard < s + left) × Wanted k v shard
  unfolding streams_from
  Out-sound zero s k v m = absurd m
  Out-sound (suc left) s k v (inl m) = (s, omega arith, omega arith, (out-Wanted k v s).0 m)
  Out-sound (suc left) s k v (inr m) =
      let (shard, low, high, w) = Out-sound left (s + 1) k v m in
      (shard, omega arith, omega arith, w)

  pub Out-complete :
      (left s : ℕ) (k : Bytes) (v : V) (shard : ℕ)
      → s ≤ shard
      → shard < s + left
      → Wanted k v shard
      → Out k v (streams_from stream left s)
  unfolding streams_from
  Out-complete zero s k v shard low high w = absurd (omega arith)
  Out-complete (suc left) s k v shard low high w = elim (dec s shard low) [
    | inl e ↦ inl ((out-Wanted k v s).1 (rw e w))
    | inr lt ↦ inr (Out-complete left (s + 1) k v shard (omega arith) (omega arith) w)
  ]
    where
      dec : (a b : ℕ) → a ≤ b → (a ≡ b) ⊎ (a < b)
      dec a b le = elim (Bool-cases (ltb a b)) [
        | inl e ↦ inr (ground arith)
        | inr e ↦ inl (ground arith)
      ]

  pub AllApart-streams :
      (left s : ℕ)
      → AllApart codec lower_contains is_utf8 kv laws rounds store table_artifacts
          (streams_from stream left s)
  unfolding streams_from
  AllApart-streams zero s = tt
  AllApart-streams (suc left) s = (
    λ k v w m n.
        let (shard, low, high, at) = Out-sound left (s + 1) k w n in
        let there = home k v s ((out-Wanted k v s).0 m).2 in
        let here = home k w shard at.2 in
        let same : s ≡ shard =
          unfold artifact_shard_pk in (shard_pk-injective repo repo s shard (sym there ∙ here)).1 in
        absurd (omega arith),
    AllApart-streams left (s + 1),
  )
