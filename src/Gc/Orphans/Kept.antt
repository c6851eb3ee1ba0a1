-- ===== src/Gc/Orphans/Kept.antt =====
-- Which files a sweep leaves alone.
use artifact_depot.Base.{
  ℕ, ◌≡◌, refl, ◌∙◌, ◌⊎◌, inl, inr, Bool, true, false, List, [], ◌∷◌, Option, some, none, arith,
  leb, length, Bool-cases, Option-cases,
}
use mathlib.Core.Path.{subst}
use artifact_depot.Base.Bytes.{Bytes}
use artifact_depot.Gc.Orphans.{
  OrphanKey, OrphanCandidate, Candidates, Sweep, Walk, orphan_eq, candidate, retain_unreferenced,
  passes_since, delete_orphan, insert_candidate, judge, consume_orphan, walk_item, walk_store,
  walk_stores, sweep_files,
}
use artifact_depot.Gc.Orphans.Lookup.{
  orphan_eq_iff, candidate-drop_candidate, candidate-retain_unreferenced,
}

-- A deletion of one file leaves the others alone.
abbrev pub KeepsOthers : {B : Type 0} → (Bytes → Bytes → B → B) → (B → OrphanKey → Bool) → Type 0
KeepsOthers {B} remove holds =
    (s b : Bytes) (files : B) (key : OrphanKey)
    → orphan_eq (s, b) key ≡ false
    → holds (remove s b files) key ≡ holds files key

-- Not seen before this pass.
abbrev pub IsYoung : ℕ → Option OrphanCandidate → Type 0
IsYoung pass none = Unit
IsYoung pass (some c) = c.first_seen_pass ≡ pass

module _ {B : Type 0} (remove : Bytes → Bytes → B → B) (holds : B → OrphanKey → Bool)
    (keeps : KeepsOthers remove holds) (pass : ℕ) (limit : ℕ) (dry_run : Bool) where
  abbrev pub Untouched : OrphanKey → Sweep B → Sweep B → Type 0
  Untouched key w w' =
      (holds w'.files key ≡ holds w.files key)
      × (candidate key w'.candidates ≡ candidate key w.candidates)

  delete-other :
      (key : OrphanKey) (s b : Bytes) (n : ℕ) (w : Sweep B)
      → orphan_eq (s, b) key ≡ false
      → Untouched key w (delete_orphan remove pass limit dry_run (s, b) n w)
  unfolding delete_orphan
  delete-other key s b n w other = (
    ground (arith, keeps s b w.files key other),
    candidate-drop_candidate (s, b) key w.candidates ∙ rw other,
  )

  insert-other :
      (key : OrphanKey) (s b : Bytes) (w : Sweep B)
      → orphan_eq (s, b) key ≡ false
      → Untouched key w (insert_candidate remove pass limit dry_run (s, b) w)
  unfolding insert_candidate candidate
  insert-other key s b w other = elim (Bool-cases (leb limit (length w.candidates))) [
    | inl full ↦ rw full (refl, refl)
    | inr free ↦ rw free (refl, rw other)
  ]

  -- An orphan of another name is none of the key's business.
  pub consume-other :
      (key : OrphanKey) (s b : Bytes) (n : ℕ) (w : Sweep B)
      → orphan_eq (s, b) key ≡ false
      → Untouched key w (consume_orphan remove pass limit dry_run s (b, n) w)
  unfolding consume_orphan
  consume-other key s b n w other = judged (candidate (s, b) w.candidates)
    where
      judged :
          (c : Option OrphanCandidate)
          → Untouched key w (judge remove pass limit dry_run (s, b) n c w)
      judged none = insert-other key s b w other
      judged (some c) = elim (Bool-cases (leb 1 (passes_since pass c))) [
        | inl old ↦ rw old (delete-other key s b n w other)
        | inr young ↦ rw young (refl, refl)
      ]

  -- What a sweep does not delete: a blob that is referenced, or no candidate of an earlier pass.
  abbrev Protected : (Bytes → Bool) → OrphanKey → Sweep B → Type 0
  Protected check (s, b) w = (check b ≡ true) ⊎ IsYoung pass (candidate (s, b) w.candidates)

  pub insert-IsYoung :
      (s b : Bytes) (w : Sweep B)
      → candidate (s, b) w.candidates ≡ none
      → let w' = insert_candidate remove pass limit dry_run (s, b) w in
        (holds w'.files (s, b) ≡ holds w.files (s, b))
        × IsYoung pass (candidate (s, b) w'.candidates)
  unfolding insert_candidate candidate
  insert-IsYoung s b w new = elim (Bool-cases (leb limit (length w.candidates))) [
    | inl full ↦ rw full (refl, rw new tt)
    | inr free ↦ rw free (refl, rw ((orphan_eq_iff (s, b) (s, b)).1 refl) refl)
  ]

  pub young-now :
      (c : OrphanCandidate) → c.first_seen_pass ≡ pass → leb 1 (passes_since pass c) ≡ false
  young-now c e = ground arith

  pub consume-IsYoung :
      (s b : Bytes) (n : ℕ) (w : Sweep B)
      → IsYoung pass (candidate (s, b) w.candidates)
      → let w' = consume_orphan remove pass limit dry_run s (b, n) w in
        (holds w'.files (s, b) ≡ holds w.files (s, b))
        × IsYoung pass (candidate (s, b) w'.candidates)
  unfolding consume_orphan
  consume-IsYoung s b n w young = elim (Option-cases (candidate (s, b) w.candidates)) [
    | inl new ↦ rw new (insert-IsYoung s b w new)
    | inr (c, seen) ↦
        let e : c.first_seen_pass ≡ pass = rw seen at young in
        rw (seen, young-now c e) (refl, rw seen e)
  ]

  module _ (check : Bytes → Bool) where
    abbrev Kept : OrphanKey → Sweep B → Sweep B → Type 0
    Kept key w w' = (holds w'.files key ≡ holds w.files key) × Protected check key w'

    still-Protected :
        (key : OrphanKey) (w w' : Sweep B)
        → Untouched key w w'
        → Protected check key w
        → Kept key w w'
    still-Protected key w w' same (inl found) = (same.0, inl found)
    still-Protected key w w' same (inr young) = (same.0, inr (rw (same.1) young))

    self-Kept :
        (s b : Bytes) (n : ℕ) (w : Sweep B)
        → check b ≡ false
        → Protected check (s, b) w
        → Kept (s, b) w (consume_orphan remove pass limit dry_run s (b, n) w)
    self-Kept s b n w missed (inl found) = absurd (cc)
    self-Kept s b n w missed (inr young) = let k = consume-IsYoung s b n w young in (k.0, inr k.1)

    orphan-Kept :
        (key : OrphanKey) (s b : Bytes) (n : ℕ) (w : Sweep B)
        → check b ≡ false
        → Protected check key w
        → Kept key w (consume_orphan remove pass limit dry_run s (b, n) w)
    orphan-Kept key s b n w missed safe = elim (Bool-cases (orphan_eq (s, b) key)) [
      | inl e ↦
          let same = (orphan_eq_iff (s, b) key).0 e in
          subst
            (λ k.
              Protected check k w → Kept k w (consume_orphan remove pass limit dry_run s (b, n) w))
            same (self-Kept s b n w missed) safe
      | inr e ↦
          still-Protected key w (consume_orphan remove pass limit dry_run s (b, n) w)
            (consume-other key s b n w e) safe
    ]

    item-Kept :
        (key : OrphanKey) (s : Bytes) (item : Option (Bytes × ℕ)) (w : Sweep B)
        → Protected check key w
        → Kept key w (walk_item remove pass limit dry_run check s item w)
    unfolding walk_item
    item-Kept key s none w safe = (refl, safe)
    item-Kept key s (some (b, n)) w safe = elim (Bool-cases (check b)) [
      | inl found ↦ rw found (refl, safe)
      | inr missed ↦ rw missed (orphan-Kept key s b n w missed safe)
    ]

    Kept-trans : (key : OrphanKey) (w v u : Sweep B) → Kept key w v → Kept key v u → Kept key w u
    Kept-trans key w v u h k = (k.0 ∙ h.0, k.1)

    store-Kept :
        (key : OrphanKey) (s : Bytes) (items : List (Option (Bytes × ℕ))) (w : Sweep B)
        → Protected check key w
        → Kept key w (walk_store remove pass limit dry_run check s items w)
    unfolding walk_store
    store-Kept key s [] w safe = (refl, safe)
    store-Kept key s (item ∷ items) w safe =
        let w' = walk_item remove pass limit dry_run check s item w in
        let first = item-Kept key s item w safe in
        Kept-trans key w w' (walk_store remove pass limit dry_run check s items w') first
          (store-Kept key s items w' first.1)

    stores-Kept :
        (key : OrphanKey) (stores : List (Bytes × Walk)) (w : Sweep B)
        → Protected check key w
        → Kept key w (walk_stores remove pass limit dry_run check stores w)
    unfolding walk_stores
    stores-Kept key [] w safe = (refl, safe)
    stores-Kept key ((s, none) ∷ stores) w safe = stores-Kept key stores w safe
    stores-Kept key ((s, some items) ∷ stores) w safe =
        let w' = walk_store remove pass limit dry_run check s items w in
        let first = store-Kept key s items w safe in
        Kept-trans key w w' (walk_stores remove pass limit dry_run check stores w') first
          (stores-Kept key stores w' first.1)

    protected :
        (s b : Bytes) (cs : Candidates)
        → (check b ≡ true) ⊎ (candidate (s, b) cs ≡ none)
        → (check b ≡ true) ⊎ IsYoung pass (candidate (s, b) (retain_unreferenced check cs))
    protected s b cs (inl found) = inl found
    protected s b cs (inr new) = elim (Bool-cases (check b)) [
      | inl found ↦ inl found
      | inr missed ↦ inr (rw (candidate-retain_unreferenced check s b cs, missed, new) tt)
    ]

    -- Where the deletion of one file leaves the others alone, a sweep keeps a file whose blob the
    -- filter finds, and a file that no earlier pass has seen as an orphan, whatever the walks
    -- yield.
    pub sweep_files-kept :
        (s b : Bytes) (stores : List (Bytes × Walk)) (cs : Candidates) (files : B)
        → (check b ≡ true) ⊎ (candidate (s, b) cs ≡ none)
        → holds (sweep_files remove pass limit dry_run check stores cs files).files (s, b)
          ≡ holds files (s, b)
    unfolding sweep_files
    sweep_files-kept s b stores cs files safe =
        let start : Sweep B = record {
          candidates = retain_unreferenced check cs;
          files = files;
          orphaned_blobs_deleted = 0;
          orphaned_blob_bytes_deleted = 0;
        } in
        (stores-Kept (s, b) stores start (protected s b cs safe)).0

    -- One walk keeps a file whose blob the filter finds.
    pub walk_store-kept :
        (key : OrphanKey) (s : Bytes) (items : List (Option (Bytes × ℕ))) (w : Sweep B)
        → check key.1 ≡ true
        → holds (walk_store remove pass limit dry_run check s items w).files key ≡ holds w.files key
    walk_store-kept key s items w found = (store-Kept key s items w (inl found)).0
