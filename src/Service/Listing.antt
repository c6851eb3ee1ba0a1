-- ===== src/Service/Listing.antt =====
-- `list_artifacts` and `search_artifacts` of core/src/service/artifact.rs, with `decode_cursor` of
-- core/src/service/pagination.rs. Base64 with the lossy reading as UTF-8 is the parameter `decode`,
-- its inverse `encode`; `to_lowercase` is a parameter too. `rounds` and `fuel` bound the loops of
-- `k_way_merge`.
pub mod Streams
pub mod Pages
use artifact_depot.Base.{ℕ, zero, suc, ◌+◌, List, [], ◌∷◌, Option, some, none, if◌then◌else◌, Bool}
use artifact_depot.Base.Bytes.{Bytes, bytes_lt}
use artifact_depot.Keys.Shard.{num_shards, artifact_shard_pk, table_artifacts}
use artifact_depot.Kv.{KvStore}
use artifact_depot.Kv.Codec.{Codec}
use artifact_depot.Service.Error.{Result, ok, err}
use artifact_depot.Service.Scan.{per_shard_batch}
use artifact_depot.Service.Page.{Pagination, PaginatedResult, paginate_results}
use artifact_depot.Service.Stream.{ShardStream, new_stream}
use artifact_depot.Service.Merge.{k_way_merge}

abbrev pub decode_cursor : (Bytes → Bytes) → Option Bytes → Option Bytes
decode_cursor decode none = none
decode_cursor decode (some c) = some (decode c)

abbrev pub skip_of : Option Bytes → ℕ → ℕ
skip_of none offset = offset
skip_of (some cp) offset = 0

-- The first key of a listing: the cursor, if it is behind the prefix.
abbrev pub list_start : Option Bytes → Bytes → Bytes
list_start none prefix = prefix
list_start (some cp) prefix = if bytes_lt prefix cp then cp else prefix

abbrev pub search_start : Option Bytes → Bytes
search_start none = []
search_start (some cp) = cp

-- `(0..NUM_SHARDS).map(…)`, from the shard `s` on with `left` shards to go.
unfoldable pub streams_from : {V : Type 0} → (ℕ → ShardStream V) → ℕ → ℕ → List (ShardStream V)
streams_from stream zero s = []
streams_from stream (suc left) s = stream s ∷ streams_from stream left (s + 1)

abbrev pub shard_stream :
    {V : Type 0} → (Bytes → Bool) → Bytes → Bytes → Bytes → Option Bytes → ℕ → ℕ → ShardStream V
shard_stream is_utf8 repo prefix start filter limit shard =
    new_stream is_utf8 (artifact_shard_pk repo shard) prefix start filter (per_shard_batch limit)

abbrev pub paged :
    {T : Type 0}
    → (Bytes → Bytes)
    → ℕ
    → Option (Result (List (Bytes × T)))
    → Option (Result (PaginatedResult T))
paged encode limit none = none
paged encode limit (some (err e)) = some (err e)
paged encode limit (some (ok items)) = some (ok (paginate_results encode items limit))

module _ {T V : Type 0} (codec : Codec T V) (lower_contains : Bytes → Bytes → Bool)
    (is_utf8 : Bytes → Bool) (kv : KvStore V) (rounds fuel : ℕ) (store : kv.State)
    (encode decode : Bytes → Bytes) where
  unfoldable pub list_artifacts : Bytes → Bytes → Pagination → Option (Result (PaginatedResult T))
  unfolding k_way_merge streams_from
  list_artifacts repo prefix pagination =
      let cursor_path = decode_cursor decode pagination.cursor in
      let streams =
        streams_from
          (shard_stream is_utf8 repo prefix (list_start cursor_path prefix) none pagination.limit)
          num_shards 0 in
      paged encode pagination.limit (
        k_way_merge codec lower_contains kv rounds store table_artifacts fuel streams cursor_path
          (skip_of cursor_path pagination.offset) pagination.limit)

  unfoldable pub search_artifacts :
      (Bytes → Bytes) → Bytes → Bytes → Pagination → Option (Result (PaginatedResult T))
  unfolding k_way_merge streams_from
  search_artifacts to_lowercase repo query pagination =
      let cursor_path = decode_cursor decode pagination.cursor in
      let streams =
        streams_from
          (shard_stream is_utf8 repo [] (search_start cursor_path) (some (to_lowercase query))
            pagination.limit)
          num_shards 0 in
      paged encode pagination.limit (
        k_way_merge codec lower_contains kv rounds store table_artifacts fuel streams cursor_path
          (skip_of cursor_path pagination.offset) pagination.limit)
