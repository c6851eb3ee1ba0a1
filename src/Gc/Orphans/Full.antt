-- ===== src/Gc/Orphans/Full.antt =====
-- The bound on the candidates, and what it leads to when candidates outlive their files.
use artifact_depot.Base.{
  ℕ, ◌-◌, ◌≤◌, ◌≡◌, refl, Bool, false, List, [], ◌∷◌, Option, some, none, arith, length, All,
  Bool-cases, inl, inr,
}
use artifact_depot.Base.Bytes.{Bytes}
use artifact_depot.Gc.Orphans.{
  OrphanKey, OrphanCandidate, Candidates, Sweep, Walk, orphan_eq, candidate, drop_candidate,
  retain_unreferenced, delete_orphan, insert_candidate, consume_orphan, walk_item, walk_store,
  walk_stores, sweep_files,
}
use artifact_depot.Gc.Orphans.Rounds.{walk_stores-keeps}

-- No more than `limit` candidates, none of them first seen after the pass.
abbrev pub AreBounded : ℕ → ℕ → Candidates → Type 0
AreBounded pass limit cs =
    All (λ (x : OrphanKey × OrphanCandidate). x.1.first_seen_pass ≤ pass) cs × (length cs ≤ limit)

drop-AreBounded :
    (pass limit : ℕ) (key : OrphanKey) (cs : Candidates)
    → AreBounded pass limit cs
    → AreBounded pass limit (drop_candidate key cs)
unfolding drop_candidate
drop-AreBounded pass limit key [] h = h
drop-AreBounded pass limit key ((k, c) ∷ r) (a, n) =
    let ih = drop-AreBounded pass (limit - 1) key r (a.1, omega arith) in
    elim (Bool-cases (orphan_eq k key)) [
      | inl e ↦ rw e (ih.0, omega (arith, ih.1))
      | inr e ↦ rw e ((a.0, ih.0), omega (arith, ih.1))
    ]

module _ {B : Type 0} (remove : Bytes → Bytes → B → B) (pass : ℕ) (limit : ℕ) (dry_run : Bool)
    (check : Bytes → Bool) where
  retain-AreBounded :
      (earlier n : ℕ) (cs : Candidates)
      → earlier ≤ pass
      → AreBounded earlier n cs
      → AreBounded pass n (retain_unreferenced check cs)
  unfolding retain_unreferenced
  retain-AreBounded earlier n [] e h = h
  retain-AreBounded earlier n ((k, c) ∷ r) e (a, m) =
      let ih = retain-AreBounded earlier (n - 1) r e (a.1, omega arith) in
      elim (Bool-cases (check k.1)) [
        | inl f ↦ rw f (ih.0, omega (arith, ih.1))
        | inr f ↦ rw f ((omega arith, ih.0), omega (arith, ih.1))
      ]

  consume-AreBounded :
      (s b : Bytes) (n : ℕ) (w : Sweep B)
      → AreBounded pass limit w.candidates
      → AreBounded pass limit (consume_orphan remove pass limit dry_run s (b, n) w).candidates
  unfolding consume_orphan delete_orphan insert_candidate
  consume-AreBounded s b n w h = ground (arith, drop-AreBounded pass limit (s, b) w.candidates h)

  item-AreBounded :
      (s : Bytes) (item : Option (Bytes × ℕ)) (w : Sweep B)
      → AreBounded pass limit w.candidates
      → AreBounded pass limit (walk_item remove pass limit dry_run check s item w).candidates
  unfolding walk_item
  item-AreBounded s none w h = h
  item-AreBounded s (some (b, n)) w h = elim (Bool-cases (check b)) [
    | inl found ↦ rw found h
    | inr missed ↦ rw missed (consume-AreBounded s b n w h)
  ]

  -- From candidates within the bound that earlier passes saw first, a sweep leaves candidates
  -- within the bound, none of them first seen after its pass.
  pub sweep_files-AreBounded :
      (earlier : ℕ) (stores : List (Bytes × Walk)) (cs : Candidates) (files : B)
      → earlier ≤ pass
      → AreBounded earlier limit cs
      → AreBounded pass limit
          (sweep_files remove pass limit dry_run check stores cs files).candidates
  unfolding sweep_files
  sweep_files-AreBounded earlier stores cs files e h =
      walk_stores-keeps remove pass limit dry_run check (λ m w. AreBounded pass limit w.candidates)
        (λ m. item-AreBounded) stores _ (retain-AreBounded earlier limit cs e h)

  -- Every item that the filter misses is new.
  abbrev pub AllNew : Candidates → Bytes → List (Option (Bytes × ℕ)) → Type 0
  AllNew cs s [] = Unit
  AllNew cs s (none ∷ items) = AllNew cs s items
  AllNew cs s (some (b, n) ∷ items) =
      (check b ≡ false → candidate (s, b) cs ≡ none) × AllNew cs s items

  abbrev pub AllNewIn : Candidates → List (Bytes × Walk) → Type 0
  AllNewIn cs [] = Unit
  AllNewIn cs ((s, none) ∷ stores) = AllNewIn cs stores
  AllNewIn cs ((s, some items) ∷ stores) = AllNew cs s items × AllNewIn cs stores

  full-item :
      (s b : Bytes) (n : ℕ) (w : Sweep B)
      → limit ≤ length w.candidates
      → (check b ≡ false → candidate (s, b) w.candidates ≡ none)
      → walk_item remove pass limit dry_run check s (some (b, n)) w ≡ w
  unfolding walk_item consume_orphan insert_candidate
  full-item s b n w full new = elim (Bool-cases (check b)) [
    | inl found ↦ rw found
    | inr missed ↦ rw (missed, new missed) (ground arith)
  ]

  full-store :
      (s : Bytes) (items : List (Option (Bytes × ℕ))) (w : Sweep B)
      → limit ≤ length w.candidates
      → AllNew w.candidates s items
      → walk_store remove pass limit dry_run check s items w ≡ w
  unfolding walk_store
  full-store s [] w full new = refl
  full-store s (none ∷ items) w full new = unfold walk_item in full-store s items w full new
  full-store s (some (b, n) ∷ items) w full new =
      rw (full-item s b n w full new.0) (full-store s items w full new.1)

  full-stores :
      (stores : List (Bytes × Walk)) (w : Sweep B)
      → limit ≤ length w.candidates
      → AllNewIn w.candidates stores
      → walk_stores remove pass limit dry_run check stores w ≡ w
  unfolding walk_stores
  full-stores [] w full new = refl
  full-stores ((s, none) ∷ stores) w full new = full-stores stores w full new
  full-stores ((s, some items) ∷ stores) w full new =
      rw (full-store s items w full new.0) (full-stores stores w full new.1)

  retain_all :
      (cs : Candidates)
      → All (λ (x : OrphanKey × OrphanCandidate). check x.0.1 ≡ false) cs
      → retain_unreferenced check cs ≡ cs
  unfolding retain_unreferenced
  retain_all [] h = refl
  retain_all (((s, b), c) ∷ r) h = rw (h.0, retain_all r h.1) refl

  -- When the candidates have reached the bound, the filter finds none of them and the walks yield
  -- none of their files any more, a sweep deletes nothing and leaves the candidates as they are,
  -- whatever orphans the walks yield.
  pub sweep_files-full :
      (stores : List (Bytes × Walk)) (cs : Candidates) (files : B)
      → limit ≤ length cs
      → All (λ (x : OrphanKey × OrphanCandidate). check x.0.1 ≡ false) cs
      → AllNewIn cs stores
      → sweep_files remove pass limit dry_run check stores cs files ≡ record {
        candidates = cs;
        files = files;
        orphaned_blobs_deleted = 0;
        orphaned_blob_bytes_deleted = 0;
      }
  unfolding sweep_files
  sweep_files-full stores cs files full unreferenced new =
      rw (retain_all cs unreferenced) (full-stores stores _ full new)
