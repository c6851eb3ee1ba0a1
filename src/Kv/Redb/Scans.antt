-- ===== src/Kv/Redb/Scans.antt =====
-- A scan of the embedded backend returns the selected entries of the partition, in order.
use artifact_depot.Base.{
  ℕ, ◌≡◌, refl, ap, sym, ◌∙◌, ◌↔◌, inl, inr, true, List, [], ◌∷◌, Option, some, none, arith, length,
}
use artifact_depot.Base.Bytes.{Bytes, bytes_lt, starts_with}
use artifact_depot.Kv.{in_range, select}
use artifact_depot.Kv.Select.{IsSorted-select, select_sound, select_complete}
use artifact_depot.Kv.Sorted.{IsSorted, Holds, AllAbove, IsSorted-unique}
use artifact_depot.Kv.Redb.{
  Redb, RedbLaws, flat_key, partition_prefix, extract_sk, scan_rows, range_end, opt_map,
}
use artifact_depot.Kv.Redb.Envelope.{unwrap_envelope}
use artifact_depot.Kv.Redb.Rows.{
  range-starts_with, in_range-flat_key, bytes_lt-flat_key, extract_sk-flat, flat-extract_sk,
}

module _ (pk : Bytes) where
  abbrev prefix_len : ℕ
  prefix_len = length (partition_prefix pk)

  abbrev AllOfPartition : List (Bytes × Bytes) → Type 0
  AllOfPartition [] = Unit
  AllOfPartition ((k, v) ∷ r) = (starts_with (partition_prefix pk) k ≡ true) × AllOfPartition r

  of_partition :
      (xs : List (Bytes × Bytes))
      → ((k v : Bytes) → Holds k v xs → starts_with (partition_prefix pk) k ≡ true)
      → AllOfPartition xs
  of_partition [] h = tt
  of_partition ((k, v) ∷ r) h = (h k v (inl (refl, refl)), of_partition r (λ j w m. h j w (inr m)))

  lt-extract :
      (k j : Bytes)
      → starts_with (partition_prefix pk) k ≡ true
      → starts_with (partition_prefix pk) j ≡ true
      → bytes_lt (extract_sk k prefix_len) (extract_sk j prefix_len) ≡ bytes_lt k j
  lt-extract k j hk hj =
      sym (bytes_lt-flat_key pk (extract_sk k prefix_len) (extract_sk j prefix_len))
      ∙ rw (← flat-extract_sk pk k hk, ← flat-extract_sk pk j hj)

  rows-AllAbove :
      (k : Bytes) (xs : List (Bytes × Bytes))
      → starts_with (partition_prefix pk) k ≡ true
      → AllOfPartition xs
      → AllAbove k xs
      → AllAbove (extract_sk k prefix_len) (scan_rows prefix_len xs)
  rows-AllAbove k [] hk h a = tt
  rows-AllAbove k ((j, v) ∷ r) hk h a = (lt-extract k j hk h.0 ∙ a.0, rows-AllAbove k r hk h.1 a.1)

  rows-IsSorted :
      (xs : List (Bytes × Bytes))
      → AllOfPartition xs
      → IsSorted xs
      → IsSorted (scan_rows prefix_len xs)
  rows-IsSorted [] h s = tt
  rows-IsSorted ((k, v) ∷ r) h s = (rows-AllAbove k r h.0 h.1 s.0, rows-IsSorted r h.1 s.1)

  rows_sound :
      (sk v : Bytes) (xs : List (Bytes × Bytes))
      → AllOfPartition xs
      → Holds sk v (scan_rows prefix_len xs)
      → (raw : Bytes) × Holds (flat_key pk sk) raw xs × ((unwrap_envelope raw).0 ≡ v)
  rows_sound sk v [] h m = absurd m
  rows_sound sk v ((k, raw) ∷ r) h (inl e) =
      (raw, inl (ap (flat_key pk) e.0 ∙ sym (flat-extract_sk pk k h.0), refl), sym e.1)
  rows_sound sk v ((k, raw) ∷ r) h (inr m) =
      let (found, at, e) = rows_sound sk v r h.1 m in (found, inr at, e)

  rows_complete :
      (sk raw : Bytes) (xs : List (Bytes × Bytes))
      → Holds (flat_key pk sk) raw xs
      → Holds sk (unwrap_envelope raw).0 (scan_rows prefix_len xs)
  rows_complete sk raw [] m = m
  rows_complete sk raw ((k, w) ∷ r) (inl e) = inl (
    sym (extract_sk-flat pk sk) ∙ ap (λ x. extract_sk x prefix_len) e.0,
    ap (λ x. (unwrap_envelope x).0) e.1,
  )
  rows_complete sk raw ((k, w) ∷ r) (inr m) = inr (rows_complete sk raw r m)

abbrev pub payload_at : (r : Redb) → r.Db → Bytes → Bytes → Option Bytes
payload_at r d t key = opt_map (λ raw. (unwrap_envelope raw).0) (r.get d t key)

abbrev pub rows_of : (r : Redb) → r.Db → Bytes → Bytes → Bytes → Option Bytes → List (Bytes × Bytes)
rows_of r d t pk start end =
    scan_rows (length (partition_prefix pk)) (r.range d t (flat_key pk start) (range_end pk end))

module _ (r : Redb) (laws : RedbLaws r) (d : r.Db) (t pk : Bytes) where
  abbrev rows : Bytes → Option Bytes → List (Bytes × Bytes)
  rows = rows_of r d t pk

  range-AllOfPartition :
      (start : Bytes) (end : Option Bytes)
      → AllOfPartition pk (r.range d t (flat_key pk start) (range_end pk end))
  range-AllOfPartition start end =
      of_partition pk _
        λ k v m. range-starts_with pk start end k ((laws.range-Holds d t _ _ k v).0 m).0

  pub rows_of-IsSorted :
      (start : Bytes) (end : Option Bytes) → IsSorted (rows_of r d t pk start end)
  rows_of-IsSorted start end =
      rows-IsSorted pk _ (range-AllOfPartition start end) (laws.range-IsSorted d t _ _)

  payload-some :
      (o : Option Bytes) (v : Bytes)
      → opt_map (λ raw. (unwrap_envelope raw).0) o ≡ some v
      → (raw : Bytes) × (o ≡ some raw) × ((unwrap_envelope raw).0 ≡ v)
  payload-some none v h = cc
  payload-some (some raw) v h = (raw, refl, ground arith)

  pub rows_of-Holds :
      (start : Bytes) (end : Option Bytes) (sk v : Bytes)
      → Holds sk v (rows_of r d t pk start end)
        ↔ ((in_range start end sk ≡ true) × (payload_at r d t (flat_key pk sk) ≡ some v))
  rows_of-Holds start end sk v = (sound, complete)
    where
      sound :
          Holds sk v (rows start end)
          → (in_range start end sk ≡ true) × (payload_at r d t (flat_key pk sk) ≡ some v)
      sound m =
          let (raw, at, e) = rows_sound pk sk v _ (range-AllOfPartition start end) m in
          let found = (laws.range-Holds d t _ _ (flat_key pk sk) raw).0 at in
          (sym (in_range-flat_key pk start end sk) ∙ found.0, rw found.1 (ap some e))

      complete :
          (in_range start end sk ≡ true) × (payload_at r d t (flat_key pk sk) ≡ some v)
          → Holds sk v (rows start end)
      complete h =
          let (raw, at, e) = payload-some (r.get d t (flat_key pk sk)) v h.1 in
          rw e at (
            rows_complete pk sk raw _ (
              (laws.range-Holds d t _ _ (flat_key pk sk) raw).1
                (in_range-flat_key pk start end sk ∙ h.0, at)))

  pub in_all : (sk : Bytes) → in_range [] none sk ≡ true
  unfolding bytes_lt
  in_all [] = refl
  in_all (c ∷ sk) = refl

  -- The rows of a range are the entries of the partition whose keys lie in it.
  pub rows-select :
      (start : Bytes) (end : Option Bytes)
      → rows_of r d t pk start end ≡ select (in_range start end) (rows_of r d t pk [] none)
  rows-select start end =
      IsSorted-unique _ _ (rows_of-IsSorted start end)
        (IsSorted-select _ _ (rows_of-IsSorted [] none))
        λ sk v. (
          λ m.
              let h = (rows_of-Holds start end sk v).0 m in
              select_complete _ sk v _ h.0 ((rows_of-Holds [] none sk v).1 (in_all sk, h.1)),
          λ m.
              let h = select_sound _ sk v _ m in
              (rows_of-Holds start end sk v).1 (h.0, ((rows_of-Holds [] none sk v).0 h.1).1),
        )
