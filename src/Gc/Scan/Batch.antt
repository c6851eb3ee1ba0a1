-- ===== src/Gc/Scan/Batch.antt =====
-- One batch of the scan: what it marks, and what it lists for deletion.
use artifact_depot.Base.{
  ℕ, ◌≡◌, refl, inl, inr, Bool, true, ◌||◌, List, [], ◌∷◌, ◌++◌, Option, some, none, All,
  Bool-cases, Option-cases,
}
use artifact_depot.Base.Bytes.{Bytes, is_empty}
use artifact_depot.Kv.{KvStore}
use artifact_depot.Kv.Codec.{Codec}
use artifact_depot.Kv.Sorted.{Holds}
use artifact_depot.Service.Artifact.{ArtifactRecord, TreeEntry}
use artifact_depot.Service.Error.{Result, ok, err}
use artifact_depot.Gc.Bloom.{BloomCrate, BloomLaws, SameShape}
use artifact_depot.Gc.Bloom.Merged.{set-SameShape}
use artifact_depot.Gc.Expiry.{CleanupRepo, ExpiryReason}
use artifact_depot.Gc.Scan.{
  Expired, ShardScan, paths_of, mark_blob, expiry, sort_record, sort_value, sort_items,
  expire_entries, scan_batch,
}

module _ {K V : Type 0} (kv : KvStore V) (blake3 : Bytes → ℕ → ℕ)
    (records : Codec (ArtifactRecord K) V) (trees : Codec (TreeEntry K) V) (crate : BloomCrate)
    (laws : BloomLaws crate) (now : ℕ) (dry_run : Bool) (repo : CleanupRepo) where
  open crate use {Filter, check}

  abbrev pub Sorting : Type 0
  Sorting = ShardScan Filter × List Expired

  abbrev sort_one : kv.State → Bytes → V → Sorting → Sorting
  sort_one s sk v c =
      sort_value kv blake3 records trees crate now dry_run repo s sk (records.from_slice v) c

  abbrev sort : kv.State → List (Bytes × V) → Sorting → Sorting
  sort = sort_items kv blake3 records trees crate now dry_run repo

  abbrev pub fate : kv.State → Bytes → ArtifactRecord K → Option ExpiryReason
  fate = expiry kv blake3 records trees crate now dry_run repo

  -- What holds of a filter and is kept by every mark.
  module _ (P : Filter → Type 0) (keep : (x : Bytes) (f : Filter) → P f → P (crate.set x f)) where
    mark-keeps :
        (b : Option Bytes) (f : Filter)
        → P f
        → P (mark_blob kv blake3 records trees crate now dry_run b f)
    mark-keeps none f h = h
    mark-keeps (some b) f h = keep b f h

    record-keeps :
        (sk : Bytes) (r : ArtifactRecord K) (x : Option ExpiryReason) (c : Sorting)
        → P c.0.local_bf
        → P (sort_record kv blake3 records trees crate now dry_run repo sk r x c).0.local_bf
    record-keeps sk r (some x) (l, entries) h = h
    record-keeps sk r none (l, entries) h = mark-keeps r.blob_id l.local_bf h

    value-keeps :
        (s : kv.State) (sk : Bytes) (x : Result (ArtifactRecord K)) (c : Sorting)
        → P c.0.local_bf
        → P (sort_value kv blake3 records trees crate now dry_run repo s sk x c).0.local_bf
    value-keeps s sk (err e) c h = h
    value-keeps s sk (ok r) c h = record-keeps sk r (fate s sk r) c h

    sort-keeps :
        (s : kv.State) (items : List (Bytes × V)) (c : Sorting)
        → P c.0.local_bf
        → P (sort s items c).0.local_bf
    unfolding sort_items
    sort-keeps s [] c h = h
    sort-keeps s ((sk, v) ∷ items) c h =
        sort-keeps s items (sort_one s sk v c) (value-keeps s sk (records.from_slice v) c h)

    expire-keeps :
        (c : Sorting) (s : kv.State)
        → P c.0.local_bf
        → P (expire_entries kv blake3 records trees crate now dry_run repo c s).1.local_bf
    expire-keeps (l, entries) s h = elim (Bool-cases (is_empty entries || dry_run)) [
      | inl idle ↦ rw idle h
      | inr expired ↦ rw expired h
    ]

    pub scan_batch-keeps :
        (items : List (Bytes × V)) (s : kv.State) (l : ShardScan Filter)
        → P l.local_bf
        → P (scan_batch kv blake3 records trees crate now dry_run repo items s l).1.local_bf
    unfolding scan_batch
    scan_batch-keeps items s l h =
        expire-keeps (sort s items (l, [])) s (sort-keeps s items (l, []) h)

  -- A filter that finds a blob finds it after every mark.
  pub set-finds : (b x : Bytes) (f : Filter) → check f b ≡ true → check (crate.set x f) b ≡ true
  set-finds b x f h = laws.check-Grows b f (crate.set x f) (laws.set-Grows x f) h

  pub scan_batch-SameShape :
      (template : Filter) (items : List (Bytes × V)) (s : kv.State) (l : ShardScan Filter)
      → SameShape crate template l.local_bf
      → SameShape crate template
          (scan_batch kv blake3 records trees crate now dry_run repo items s l).1.local_bf
  scan_batch-SameShape template =
      scan_batch-keeps (λ f. SameShape crate template f)
        (λ x f. set-SameShape crate laws x template f)

  -- A live record in a batch is marked.
  module _ (sk : Bytes) (v : V) (r : ArtifactRecord K) (b : Bytes)
      (readable : records.from_slice v ≡ ok r) (has_blob : r.blob_id ≡ some b) where
    marks_self :
        (s : kv.State) (c : Sorting)
        → fate s sk r ≡ none
        → check (sort_one s sk v c).0.local_bf b ≡ true
    marks_self s (l, entries) live = rw (readable, live, has_blob) (laws.check-set b l.local_bf)

    sort-marks :
        (s : kv.State) (items : List (Bytes × V)) (c : Sorting)
        → fate s sk r ≡ none
        → Holds sk v items
        → check (sort s items c).0.local_bf b ≡ true
    unfolding sort_items
    sort-marks s [] c live h = absurd h
    sort-marks s ((j, w) ∷ items) c live (inl same) =
        sort-keeps (λ f. check f b ≡ true) (set-finds b) s items (sort_one s j w c)
          (rw (← same.0, ← same.1) (marks_self s c live))
    sort-marks s ((j, w) ∷ items) c live (inr m) = sort-marks s items (sort_one s j w c) live m

    pub scan_batch-marks :
        (items : List (Bytes × V)) (s : kv.State) (l : ShardScan Filter)
        → fate s sk r ≡ none
        → Holds sk v items
        → check (scan_batch kv blake3 records trees crate now dry_run repo items s l).1.local_bf b
          ≡ true
    unfolding scan_batch
    scan_batch-marks items s l live h =
        expire-keeps (λ f. check f b ≡ true) (set-finds b) (sort s items (l, [])) s
          (sort-marks s items (l, []) live h)

  -- A record that can be read and is expired.
  abbrev pub IsExpired : kv.State → Bytes → Result (ArtifactRecord K) → Type 0
  IsExpired s sk (err e) = ⊥
  IsExpired s sk (ok r) = (x : ExpiryReason) × (fate s sk r ≡ some x)

  module _ (Item : Bytes → V → Type 0) (s : kv.State) where
    -- The path of an item with such a record.
    abbrev pub Doomed : Bytes → Type 0
    Doomed sk = (v : V) × Item sk v × IsExpired s sk (records.from_slice v)

    AllDoomed-append :
        (xs : List Expired) (sk : Bytes) (n : ℕ)
        → All Doomed (paths_of xs)
        → Doomed sk
        → All Doomed (paths_of (xs ++ (sk, n) ∷ []))
    AllDoomed-append [] sk n h d = (d, tt)
    AllDoomed-append ((k, m) ∷ xs) sk n h d = (h.0, AllDoomed-append xs sk n h.1 d)

    value-Doomed :
        (sk : Bytes) (v : V) (x : Result (ArtifactRecord K)) (c : Sorting)
        → Item sk v
        → records.from_slice v ≡ x
        → All Doomed (paths_of c.1)
        → All Doomed
            (paths_of (sort_value kv blake3 records trees crate now dry_run repo s sk x c).1)
    value-Doomed sk v (err e) c i same h = h
    value-Doomed sk v (ok r) c i same h = elim (Option-cases (fate s sk r)) [
      | inl live ↦ rw live h
      | inr (x, dead) ↦ rw dead (AllDoomed-append c.1 sk r.size h (v, i, rw same (x, dead)))
    ]

    pub sort-Doomed :
        (items : List (Bytes × V)) (c : Sorting)
        → ((sk : Bytes) (v : V) → Holds sk v items → Item sk v)
        → All Doomed (paths_of c.1)
        → All Doomed (paths_of (sort s items c).1)
    unfolding sort_items
    sort-Doomed [] c from h = h
    sort-Doomed ((sk, v) ∷ items) c from h =
        sort-Doomed items (sort_one s sk v c) (λ j w m. from j w (inr m))
          (value-Doomed sk v (records.from_slice v) c (from sk v (inl (refl, refl))) refl h)
