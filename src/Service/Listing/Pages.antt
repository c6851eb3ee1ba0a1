-- ===== src/Service/Listing/Pages.antt =====
-- What a page of artifacts holds.
use artifact_depot.Base.{
  ℕ, suc, ◌<◌, ◌≡◌, refl, ap, ◌∙◌, ◌↔◌, Bool, true, false, not, List, [], ◌∷◌, Option, some, none,
  arith, length, take, drop, inl, inr, Bool-cases,
}
use artifact_depot.Base.Bytes.{Bytes, bytes_lt, starts_with}
use artifact_depot.Keys.Shard.{num_shards, table_artifacts}
use artifact_depot.Kv.{KvStore, KvLaws, select}
use artifact_depot.Kv.Codec.{Codec}
use artifact_depot.Kv.Sorted.{IsSorted, Holds, bytes_lt_irrefl, bytes_lt_asymm}
use artifact_depot.Kv.Select.{IsSorted-select, select_sound, select_complete}
use artifact_depot.Service.Scan.Complete.{AllBytes, length-select}
use artifact_depot.Service.Page.{Pagination}
use artifact_depot.Service.Stream.Fetch.{wanted}
use artifact_depot.Service.Merge.{k_way_merge, at_or_before}
use artifact_depot.Service.Merge.Listed.{read_all, passed}
use artifact_depot.Service.Merge.Primed.{k_way_merge_lem}
use artifact_depot.Service.Listing.{
  streams_from, shard_stream, list_artifacts, search_artifacts, list_start, search_start,
  decode_cursor, skip_of, paged,
}
use artifact_depot.Service.Listing.Streams.{
  shard_entries, AtHome, AllFit-streams, AllApart-streams, Out-sound, Out-complete,
}

-- The entries behind the cursor, all of them without one.
abbrev pub behind : {V : Type 0} → Option Bytes → List (Bytes × V) → List (Bytes × V)
behind none xs = xs
behind (some cp) xs = select (bytes_lt cp) xs

passed-behind :
    {V : Type 0} (cursor_path : Option Bytes) (xs : List (Bytes × V))
    → passed cursor_path xs ≡ behind cursor_path xs
passed-behind none [] = refl
passed-behind none ((k, v) ∷ r) = ap (λ t. (k, v) ∷ t) (passed-behind none r)
passed-behind (some cp) [] = refl
passed-behind (some cp) ((k, v) ∷ r) = elim (Bool-cases (bytes_lt cp k)) [
  | inl e ↦ rw e (ap (λ t. (k, v) ∷ t) (passed-behind (some cp) r))
  | inr e ↦ rw e (passed-behind (some cp) r)
]

-- Entries before the start are before the cursor too.
passed-select :
    {V : Type 0} (cursor_path : Option Bytes) (p : Bytes → Bool) (xs : List (Bytes × V))
    → ((k : Bytes) (v : V) → Holds k v xs → at_or_before cursor_path k ≡ false → p k ≡ true)
    → passed cursor_path (select p xs) ≡ passed cursor_path xs
passed-select cursor_path p [] h = refl
passed-select cursor_path p ((k, v) ∷ r) h =
    let rest = passed-select cursor_path p r (λ j w m. h j w (inr m)) in
    elim (Bool-cases (p k)) [
      | inl e ↦ rw (e, rest)
      | inr e ↦ elim (Bool-cases (at_or_before cursor_path k)) [
        | inl before ↦ rw (e, before, rest)
        | inr after ↦ absurd (cc (h k v (inl (refl, refl)) after))
      ]
    ]

starts-not_below : (p k : Bytes) → starts_with p k ≡ true → bytes_lt k p ≡ false
unfolding starts_with bytes_lt
starts-not_below [] [] h = refl
starts-not_below [] (y ∷ k) h = refl
starts-not_below (x ∷ p) [] h = absurd cc
starts-not_below (x ∷ p) (y ∷ k) h = ground (arith, starts-not_below p k)

list_start-from :
    (cursor_path : Option Bytes) (prefix : Bytes)
    → bytes_lt (list_start cursor_path prefix) prefix ≡ false
list_start-from none prefix = bytes_lt_irrefl prefix
list_start-from (some cp) prefix = elim (Bool-cases (bytes_lt prefix cp)) [
  | inl e ↦ rw e (bytes_lt_asymm prefix cp e)
  | inr e ↦ rw e (bytes_lt_irrefl prefix)
]

list_start-late :
    (cursor_path : Option Bytes) (prefix k : Bytes)
    → starts_with prefix k ≡ true
    → at_or_before cursor_path k ≡ false
    → bytes_lt k (list_start cursor_path prefix) ≡ false
list_start-late none prefix k has after = starts-not_below prefix k has
list_start-late (some cp) prefix k has after = elim (Bool-cases (bytes_lt prefix cp)) [
  | inl e ↦ rw e (bytes_lt_asymm cp k (ground arith))
  | inr e ↦ rw e (starts-not_below prefix k has)
]

search_start-late :
    (cursor_path : Option Bytes) (k : Bytes)
    → at_or_before cursor_path k ≡ false
    → bytes_lt k (search_start cursor_path) ≡ false
search_start-late none k after = starts-not_below [] k (unfold starts_with in refl)
search_start-late (some cp) k after = bytes_lt_asymm cp k (ground arith)

-- The entry is in some shard of the repository.
abbrev pub Stored : {V : Type 0} → (ℕ → List (Bytes × V)) → Bytes → V → Type 0
Stored shards k v = (shard : ℕ) × (shard < num_shards) × Holds k v (shards shard)

module _ {T V : Type 0} (codec : Codec T V) (lower_contains : Bytes → Bytes → Bool)
    (is_utf8 : Bytes → Bool) (kv : KvStore V) (laws : KvLaws kv) (rounds : ℕ) (store : kv.State)
    (blake3 : Bytes → ℕ → ℕ) (repo : Bytes)
    (all_bytes : (shard : ℕ) → AllBytes (shard_entries kv blake3 store laws repo shard))
    (enough : (shard : ℕ) → suc (length (shard_entries kv blake3 store laws repo shard)) < rounds)
    (home : AtHome kv blake3 store laws repo) where
  merged :
      (fuel : ℕ) (prefix start : Bytes) (filter : Option Bytes) (limit skip : ℕ)
      (cursor_path : Option Bytes) (all : List (Bytes × V))
      → bytes_lt start prefix ≡ false
      → IsSorted all
      → ((k : Bytes) (v : V)
          → Holds k v all
            ↔ (wanted lower_contains prefix filter k ≡ true)
              × Stored (shard_entries kv blake3 store laws repo) k v)
      → ((k : Bytes)
          → wanted lower_contains prefix filter k ≡ true
          → at_or_before cursor_path k ≡ false
          → bytes_lt k start ≡ false)
      → length all < fuel
      → k_way_merge codec lower_contains kv rounds store table_artifacts fuel
          (streams_from (shard_stream is_utf8 repo prefix start filter limit) num_shards 0)
          cursor_path
          skip
          limit
        ≡ some (read_all codec (take (suc limit) (drop skip (behind cursor_path all))))
  merged fuel prefix start filter limit skip cursor_path all from_prefix sorted same late room =
      let late_all =
        passed-select cursor_path (λ k. not (bytes_lt k start)) all
          (λ k v m after. let ge = late k ((same k v).0 m).0 after in rw ge) in
      k_way_merge_lem codec lower_contains is_utf8 kv laws rounds store table_artifacts fuel
        (streams_from (shard_stream is_utf8 repo prefix start filter limit) num_shards 0)
        cursor_path skip limit (select (λ k. not (bytes_lt k start)) all)
        (AllFit-streams codec lower_contains is_utf8 kv laws rounds store blake3 repo prefix start
          filter limit from_prefix all_bytes enough home num_shards 0)
        (AllApart-streams codec lower_contains is_utf8 kv laws rounds store blake3 repo prefix start
          filter limit from_prefix all_bytes enough home num_shards 0)
        (IsSorted-select _ all sorted)
        (λ k v. (
          λ m.
              let (ge, m') = select_sound (λ k. not (bytes_lt k start)) k v all m in
              let (want, (shard, high, at)) = (same k v).0 m' in
              Out-complete codec lower_contains is_utf8 kv laws rounds store blake3 repo prefix
                start filter limit from_prefix all_bytes enough home num_shards 0 k v shard
                (omega arith) (omega arith) (want, ground arith, at),
          λ m.
              let (shard, low, high, (want, ge, at)) =
                Out-sound codec lower_contains is_utf8 kv laws rounds store blake3 repo prefix start
                  filter limit from_prefix all_bytes enough home num_shards 0 k v m in
              select_complete (λ k. not (bytes_lt k start)) k v all (ap not ge)
                ((same k v).1 (want, (shard, omega arith, at))),
        ))
        (omega (arith, length-select (λ k. not (bytes_lt k start)) all))
      ∙ rw (late_all, passed-behind cursor_path all) refl

  -- For any sorted list of the entries with the prefix in the shards of a repository, if every
  -- key of the shards is made of bytes and stands in the shard of its path, and the bounds
  -- suffice, with two fetches of a stream more than its partition has entries and one round of
  -- the merge more than there are entries in the list: `list_artifacts` is the page of the
  -- records that follow the cursor, from the offset on if there is none, up to one more than
  -- the limit, or the error of the first of them that does not parse.
  pub list_artifacts-read_all :
      (fuel : ℕ) (encode decode : Bytes → Bytes) (prefix : Bytes) (pagination : Pagination)
      (all : List (Bytes × V))
      → IsSorted all
      → ((k : Bytes) (v : V)
          → Holds k v all
            ↔ (starts_with prefix k ≡ true) × Stored (shard_entries kv blake3 store laws repo) k v)
      → length all < fuel
      → let cursor_path = decode_cursor decode pagination.cursor in
        list_artifacts codec lower_contains is_utf8 kv rounds fuel store encode decode repo prefix
          pagination
        ≡ paged encode pagination.limit (
            some (
              read_all codec (
                take
                  (suc pagination.limit)
                  (drop (skip_of cursor_path pagination.offset) (behind cursor_path all)))))
  unfolding list_artifacts
  list_artifacts-read_all fuel encode decode prefix pagination all sorted same room =
      let cursor_path = decode_cursor decode pagination.cursor in
      ap (paged encode pagination.limit) (
        merged fuel prefix (list_start cursor_path prefix) none pagination.limit
          (skip_of cursor_path pagination.offset) cursor_path all
          (list_start-from cursor_path prefix) sorted
          (λ k v. (
            λ m. let (has, at) = (same k v).0 m in (ground arith, at),
            λ m. (same k v).1 (ground arith, m.1),
          ))
          (λ k want after. list_start-late cursor_path prefix k (ground arith) after) room)

  -- For any sorted list of the entries in the shards of a repository whose path contains the
  -- query, both in lowercase, if every key of the shards is made of bytes and stands in the
  -- shard of its path, and the bounds suffice, with two fetches of a stream more than its
  -- partition has entries and one round of the merge more than there are entries in the list:
  -- `search_artifacts` is the page of the records that follow the cursor, from the offset on if
  -- there is none, up to one more than the limit, or the error of the first of them that does
  -- not parse.
  pub search_artifacts-read_all :
      (fuel : ℕ) (encode decode to_lowercase : Bytes → Bytes) (query : Bytes)
      (pagination : Pagination) (all : List (Bytes × V))
      → IsSorted all
      → ((k : Bytes) (v : V)
          → Holds k v all
            ↔ (lower_contains k (to_lowercase query) ≡ true)
              × Stored (shard_entries kv blake3 store laws repo) k v)
      → length all < fuel
      → let cursor_path = decode_cursor decode pagination.cursor in
        search_artifacts codec lower_contains is_utf8 kv rounds fuel store encode decode
          to_lowercase repo query pagination
        ≡ paged encode pagination.limit (
            some (
              read_all codec (
                take
                  (suc pagination.limit)
                  (drop (skip_of cursor_path pagination.offset) (behind cursor_path all)))))
  unfolding search_artifacts starts_with
  search_artifacts-read_all fuel encode decode to_lowercase query pagination all sorted same room =
      let cursor_path = decode_cursor decode pagination.cursor in
      ap (paged encode pagination.limit) (
        merged fuel [] (search_start cursor_path) (some (to_lowercase query)) pagination.limit
          (skip_of cursor_path pagination.offset) cursor_path all (starts-not_below [] _ refl)
          sorted same (λ k want after. search_start-late cursor_path k after) room)
