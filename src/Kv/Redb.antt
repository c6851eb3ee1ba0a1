-- ===== src/Kv/Redb.antt =====
-- kv/redb/src/redb_kv.rs: the embedded backend. The redb crate (tables with get, insert, remove and
-- range) is the parameter `Redb`; its I/O faults, the channel to the writer and compaction are not
-- modelled, but for a commit that fails.
pub mod Envelope
pub mod Rows
pub mod Scans
pub mod Laws
pub mod Batch
pub mod Model
use artifact_depot.Base.{
  ℕ, zero, suc, ◌+◌, Bool, true, false, List, [], ◌∷◌, ◌++◌, Option, some, none, ◌==◌, leb,
  if◌then◌else◌, take, drop, length, map, ◌≡◌, ◌↔◌, not, ◌&&◌,
}
use artifact_depot.Base.Bytes.{Bytes, bytes_eq, bytes_lt}
use artifact_depot.Keys.Prefix.{prefix_end, is_below}
use artifact_depot.Keys.Shard.{KeyTriple}
use artifact_depot.Kv.{
  KvStore, ScanResult, Cell, version_or_0, version_matches, expected_or_0, next_version, in_range,
}
use artifact_depot.Kv.Sorted.{IsSorted, Holds}
use Envelope.{wrap_envelope, unwrap_envelope}

-- A database of the redb crate. `remove` returns what the key held.
pub record Redb : Type 1 where
  pub Db : Type 0
  pub get : Db → Bytes → Bytes → Option Bytes
  pub insert : Db → Bytes → Bytes → Bytes → Db
  pub remove : Db → Bytes → Bytes → Db × Option Bytes
  pub range : Db → Bytes → Bytes → Option Bytes → List (Bytes × Bytes)

-- The documented behaviour of the tables: maps from keys to values, ranges in the order of the
-- keys.
pub record RedbLaws (r : Redb) : Type 1 where
  pub get-insert :
      (d : r.Db) (t k v u j : Bytes)
      → r.get (r.insert d t k v) u j
        ≡ (if bytes_eq t u && bytes_eq k j then some v else r.get d u j)
  pub get-remove :
      (d : r.Db) (t k u j : Bytes)
      → r.get (r.remove d t k).0 u j ≡ (if bytes_eq t u && bytes_eq k j then none else r.get d u j)
  pub remove_result : (d : r.Db) (t k : Bytes) → (r.remove d t k).1 ≡ r.get d t k
  pub range-IsSorted :
      (d : r.Db) (t start : Bytes) (end : Option Bytes) → IsSorted (r.range d t start end)
  pub range-Holds :
      (d : r.Db) (t start : Bytes) (end : Option Bytes) (k v : Bytes)
      → Holds k v (r.range d t start end) ↔ ((in_range start end k ≡ true) × (r.get d t k ≡ some v))

pub data WriteOp : Type 0 where
  put : Bytes → Bytes → Bytes → WriteOp
  put_if_version : Bytes → Bytes → Bytes → Option ℕ → WriteOp
  delete : Bytes → Bytes → WriteOp
  delete_returning : Bytes → Bytes → WriteOp
  delete_if_version : Bytes → Bytes → ℕ → WriteOp
  delete_batch : Bytes → List Bytes → WriteOp
  put_batch : Bytes → List (Bytes × Bytes) → WriteOp

pub data OpResult : Type 0 where
  unit : OpResult
  bool : Bool → OpResult
  bools : List Bool → OpResult
  opt_bytes : Option Bytes → OpResult

unfoldable pub flat_key : Bytes → Bytes → Bytes
flat_key pk sk = pk ++ 0x00 ∷ sk

unfoldable pub partition_prefix : Bytes → Bytes
partition_prefix pk = pk ++ 0x00 ∷ []

unfoldable pub extract_sk : Bytes → ℕ → Bytes
extract_sk flat prefix_len = drop prefix_len flat

abbrev pub opt_map : {A B : Type 0} → (A → B) → Option A → Option B
opt_map f none = none
opt_map f (some a) = some (f a)

abbrev pub opt_is_some : {A : Type 0} → Option A → Bool
opt_is_some none = false
opt_is_some (some a) = true

-- The rows of a range as a scan returns them.
abbrev pub scan_rows : ℕ → List (Bytes × Bytes) → List (Bytes × Bytes)
scan_rows prefix_len [] = []
scan_rows prefix_len ((k, raw) ∷ r) =
    (extract_sk k prefix_len, (unwrap_envelope raw).0) ∷ scan_rows prefix_len r

-- The end of a scan: of the given key, or of the partition.
abbrev pub range_end : Bytes → Option Bytes → Option Bytes
range_end pk (some end_str) = some (flat_key pk end_str)
range_end pk none = prefix_end (partition_prefix pk)

abbrev pub batch_cap : ℕ
batch_cap = 64

module _ (r : Redb) where
  open r use {Db, get, insert, remove, range}

  -- What a raw value of a table holds, with its version.
  abbrev pub cell_at : Db → Bytes → Bytes → Cell Bytes
  cell_at d table key = opt_map unwrap_envelope (get d table key)

  unfoldable pub put_op : Db → Bytes → Bytes → Bytes → Db
  put_op d table key value =
      let current_version = version_or_0 (cell_at d table key) in
      insert d table key (wrap_envelope (next_version current_version) value)

  delete_keys : Db → Bytes → List Bytes → Db × List Bool
  delete_keys d table [] = (d, [])
  delete_keys d table (key ∷ keys) =
      let (d', old) = remove d table key in
      let (d'', existed) = delete_keys d' table keys in (d'', opt_is_some old ∷ existed)

  put_entries : Db → Bytes → List (Bytes × Bytes) → Db
  unfolding put_op
  put_entries d table [] = d
  put_entries d table ((key, value) ∷ entries) =
      put_entries (put_op d table key value) table entries

  -- One write inside a transaction.
  unfoldable pub run_op : Db → WriteOp → Db × OpResult
  unfolding put_op delete_keys put_entries
  run_op d (put table key value) = (put_op d table key value, unit)
  run_op d (put_if_version table key value expected) =
      if version_matches expected (cell_at d table key)
      then (
        insert d table key (wrap_envelope (next_version (expected_or_0 expected)) value),
        bool true,
      )
      else (d, bool false)
  run_op d (delete table key) = let (d', old) = remove d table key in (d', bool (opt_is_some old))
  run_op d (delete_if_version table key expected) =
      if version_matches (some expected) (cell_at d table key)
      then (let (d', old) = remove d table key in (d', bool (opt_is_some old)))
      else (d, bool false)
  run_op d (delete_returning table key) =
      let (d', old) = remove d table key in
      (d', opt_bytes (opt_map (λ raw. (unwrap_envelope raw).0) old))
  run_op d (delete_batch table keys) =
      let (d', existed) = delete_keys d table keys in (d', bools existed)
  run_op d (put_batch table entries) = (put_entries d table entries, unit)

  unfoldable pub run_ops : Db → List WriteOp → Db × List OpResult
  unfolding run_op
  run_ops d [] = (d, [])
  run_ops d (op ∷ batch) =
      let (d', result) = run_op d op in
      let (d'', results) = run_ops d' batch in (d'', result ∷ results)

  -- `execute_batch`: one transaction for the batch. If the commit fails nothing is stored and every
  -- caller gets an error, here `none`.
  unfoldable pub execute_batch : Bool → Db → List WriteOp → Db × List (Option OpResult)
  unfolding run_ops
  execute_batch committed d batch =
      let (d', results) = run_ops d batch in
      if committed then (d', map some results) else (d, map (λ _. none) batch)

  -- `writer_task`: each round takes the first waiting operation and up to 63 of the `waiting` ones
  -- behind it, and commits them or not. What the rounds leave in the channel comes last.
  unfoldable pub writer_task :
      List (ℕ × Bool) → Db → List WriteOp → Db × List (Option OpResult) × List WriteOp
  unfolding execute_batch
  writer_task [] d queue = (d, [], queue)
  writer_task ((waiting, committed) ∷ rounds) d queue =
      let size = if leb batch_cap waiting then batch_cap else suc waiting in
      let (d', replies) = execute_batch committed d (take size queue) in
      let (d'', more, left) = writer_task rounds d' (drop size queue) in
      (d'', replies ++ more, left)

  unfoldable pub scan_range : Db → Bytes → Bytes → Bytes → Option Bytes → ℕ → ScanResult Bytes
  scan_range d table pk sk_start sk_end limit =
      let end = range_end pk sk_end in
      let rows =
        scan_rows (length (partition_prefix pk)) (range d table (flat_key pk sk_start) end) in
      record { items = take limit rows; done = leb (length rows) limit }

  unfoldable pub scan_prefix : Db → Bytes → Bytes → Bytes → ℕ → ScanResult Bytes
  scan_prefix d table pk sk_prefix limit =
      let prefix = partition_prefix pk ++ sk_prefix in
      let rows =
        scan_rows (length (partition_prefix pk)) (range d table prefix (prefix_end prefix)) in
      record { items = take limit rows; done = leb (length rows) limit }
