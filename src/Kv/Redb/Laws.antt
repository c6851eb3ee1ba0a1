-- ===== src/Kv/Redb/Laws.antt =====
-- The embedded backend fills the interface of the services.
use artifact_depot.Base.{
  ℕ, ◌<◌, ◌^◌, ◌≡◌, refl, Bool, false, ◌&&◌, [], Option, some, none, arith, if◌then◌else◌,
  Bool-cases, inl, inr,
}
use artifact_depot.Base.Bytes.{Bytes, bytes_eq}
use artifact_depot.Keys.Shard.{KeyTriple}
use artifact_depot.Keys.Tree.{NulFree}
use artifact_depot.Kv.{
  KvStore, KvLaws, value_of, is_there, key_eq, next_version, version_matches, expected_or_0,
}
use artifact_depot.Kv.Redb.{
  Redb, RedbLaws, OpResult, WriteOp, flat_key, cell_at, run_op, scan_range, opt_map, opt_is_some,
}
use artifact_depot.Kv.Redb.Envelope.{wrap_envelope, unwrap_envelope, unwrap_envelope-wrap_envelope}
use artifact_depot.Kv.Redb.Rows.{bytes_eq-flat_key}
use artifact_depot.Kv.Redb.Scans.{
  payload_at, rows_of, rows_of-IsSorted, rows_of-Holds, in_all, rows-select,
}

abbrev bool_of : OpResult → Bool
bool_of (OpResult.bool b) = b
bool_of _ = false

abbrev bytes_of : OpResult → Option Bytes
bytes_of (OpResult.opt_bytes o) = o
bytes_of _ = none

-- The trait's methods: reads on a snapshot, writes sent to the writer as one operation.
unfoldable pub redb_kv : Redb → KvStore Bytes
unfolding run_op scan_range
redb_kv r = record {
  State = r.Db;
  get = λ d k. payload_at r d k.table (flat_key k.pk k.sk);
  get_versioned = λ d k. cell_at r d k.table (flat_key k.pk k.sk);
  put = λ k v d. (run_op r d (WriteOp.put k.table (flat_key k.pk k.sk) v)).0;
  put_if_version = λ k v e d.
      let (d', result) = run_op r d (WriteOp.put_if_version k.table (flat_key k.pk k.sk) v e) in
      (d', bool_of result);
  delete = λ k d.
      let (d', result) = run_op r d (WriteOp.delete k.table (flat_key k.pk k.sk)) in
      (d', bool_of result);
  delete_if_version = λ k e d.
      let (d', result) = run_op r d (WriteOp.delete_if_version k.table (flat_key k.pk k.sk) e) in
      (d', bool_of result);
  delete_returning = λ k d.
      let (d', result) = run_op r d (WriteOp.delete_returning k.table (flat_key k.pk k.sk)) in
      (d', bytes_of result);
  scan_range = λ d table pk start end limit. scan_range r d table pk start end limit;
  entries = λ d table pk. rows_of r d table pk [] none;
}

-- A version that is written is below 2^64, so it can be read back.
next_version-lt : (n : ℕ) → next_version n < 2 ^ 64
next_version-lt n = omega arith

key_eq-flat :
    (k j : KeyTriple)
    → NulFree k.pk
    → NulFree j.pk
    → (bytes_eq k.table j.table && bytes_eq (flat_key k.pk k.sk) (flat_key j.pk j.sk)) ≡ key_eq k j
key_eq-flat k j h h' = rw (bytes_eq-flat_key k.pk j.pk k.sk j.sk h h')

module _ (r : Redb) (laws : RedbLaws r) where
  cell-insert :
      (d : r.Db) (k j : KeyTriple) (n : ℕ) (v : Bytes)
      → NulFree k.pk
      → NulFree j.pk
      → cell_at r
          (r.insert d k.table (flat_key k.pk k.sk) (wrap_envelope (next_version n) v))
          j.table
          (flat_key j.pk j.sk)
        ≡ (if key_eq k j
            then some (v, next_version n)
            else cell_at r d j.table (flat_key j.pk j.sk))
  cell-insert d k j n v h h' =
      rw (laws.get-insert, key_eq-flat k j h h')
        (ground (arith, unwrap_envelope-wrap_envelope (next_version n) v (next_version-lt n)))

  cell-remove :
      (d : r.Db) (k j : KeyTriple)
      → NulFree k.pk
      → NulFree j.pk
      → cell_at r (r.remove d k.table (flat_key k.pk k.sk)).0 j.table (flat_key j.pk j.sk)
        ≡ (if key_eq k j then none else cell_at r d j.table (flat_key j.pk j.sk))
  cell-remove d k j h h' = rw (laws.get-remove, key_eq-flat k j h h') (ground arith)

  payload-value :
      (o : Option Bytes)
      → opt_map (λ raw. (unwrap_envelope raw).0) o ≡ value_of (opt_map unwrap_envelope o)
  payload-value none = refl
  payload-value (some raw) = refl

  some-there : (o : Option Bytes) → opt_is_some o ≡ is_there (opt_map unwrap_envelope o)
  some-there none = refl
  some-there (some raw) = refl

  version_delete :
      (d : r.Db) (k : KeyTriple) (e : ℕ)
      → bool_of (run_op r d (WriteOp.delete_if_version k.table (flat_key k.pk k.sk) e)).1
        ≡ version_matches (some e) (cell_at r d k.table (flat_key k.pk k.sk))
  unfolding run_op
  version_delete d k e = ground (arith, laws.remove_result d k.table (flat_key k.pk k.sk))

  -- Whatever redb file backs it, the embedded store keeps every promise of `KvStore`, those on
  -- writes for partition keys without NUL: puts raise the 64-bit version by one, conditional writes
  -- and deletes take effect exactly when the version matches, an operation changes its own key
  -- only, and a scan returns the first entries of its range in order, with the flag whether that is
  -- all.
  pub redb_kv-KvLaws : KvLaws (redb_kv r)
  unfolding redb_kv
  redb_kv-KvLaws = record {
    get_lem = λ d k. payload-value _;
    put_lem = λ d k j v h h'. cell-insert d k j _ v h h';
    put_if_version_result = λ d k v e. ground arith;
    put_if_version_lem = λ d k j v e h h'.
        elim (Bool-cases (version_matches e (cell_at r d k.table (flat_key k.pk k.sk)))) [
          | inl m ↦ rw m (cell-insert d k j (expected_or_0 e) v h h')
          | inr m ↦ rw m
        ];
    delete_result = λ d k. rw (laws.remove_result) (some-there _);
    delete_lem = λ d k j h h'. cell-remove d k j h h';
    delete_if_version_result = λ d k e. version_delete d k e;
    delete_if_version_lem = λ d k j e h h'.
        elim (Bool-cases (version_matches (some e) (cell_at r d k.table (flat_key k.pk k.sk)))) [
          | inl m ↦ rw m (cell-remove d k j h h')
          | inr m ↦ rw m
        ];
    delete_returning_result = λ d k. rw (laws.remove_result) (payload-value _);
    delete_returning_lem = λ d k j h h'. cell-remove d k j h h';
    entries-IsSorted = λ d t pk. rows_of-IsSorted r laws d t pk [] none;
    entries-Holds = λ d t pk sk v.
        let at = rows_of-Holds r laws d t pk [] none sk v in
        (λ m. (at.0 m).1, λ h. at.1 (in_all r laws d t pk sk, h));
    scan_range_lem = λ d t pk start end limit. rw (rows-select r laws d t pk start end);
  }
