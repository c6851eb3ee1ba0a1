-- ===== src/Gc/Orphans/Collected.antt =====
-- An orphan that two passes see is deleted by the second.
use artifact_depot.Base.{
  ℕ, suc, ◌+◌, ◌≤◌, ◌<◌, ◌≡◌, refl, sym, ◌⊎◌, inl, inr, Bool, true, false, List, [], ◌∷◌, Option,
  some, none, arith, leb, length, Bool-cases, Option-cases,
}
use artifact_depot.Base.Bytes.{Bytes}
use artifact_depot.Kv.{u64_mod}
use artifact_depot.Gc.Orphans.{
  OrphanKey, OrphanCandidate, Candidates, Sweep, Walk, orphan_eq, candidate, drop_candidate,
  retain_unreferenced, passes_since, delete_orphan, insert_candidate, judge, consume_orphan,
  walk_item, sweep_files,
}
use artifact_depot.Gc.Orphans.Lookup.{orphan_eq_iff, candidate-retain_unreferenced}
use artifact_depot.Gc.Orphans.Rounds.{FindsIn, walk_size, walk_stores-reach}
use artifact_depot.Gc.Orphans.Kept.{KeepsOthers, IsYoung, young-now, consume-other, consume-IsYoung}
use mathlib.Core.Path.{subst}

-- Seen first in the pass.
abbrev IsSeen : ℕ → Option OrphanCandidate → Type 0
IsSeen pass none = ⊥
IsSeen pass (some c) = c.first_seen_pass ≡ pass

-- A candidate of an earlier pass.
abbrev IsOld : ℕ → Option OrphanCandidate → Type 0
IsOld pass none = ⊥
IsOld pass (some c) = 1 ≤ passes_since pass c

module _ {B : Type 0} (remove : Bytes → Bytes → B → B) (holds : B → OrphanKey → Bool)
    (keeps : KeepsOthers remove holds) (pass : ℕ) (limit : ℕ) (dry_run : Bool)
    (check : Bytes → Bool) where
  abbrev step : Bytes → Option (Bytes × ℕ) → Sweep B → Sweep B
  step = walk_item remove pass limit dry_run check

  abbrev consume : Bytes → Bytes → ℕ → Sweep B → Sweep B
  consume s b n = consume_orphan remove pass limit dry_run s (b, n)

  -- A predicate on the key's candidate and file is kept by every item, if by the key's own.
  module _ (s b : Bytes) (P : Option OrphanCandidate → Bool → Type 0) where
    abbrev Here : Sweep B → Type 0
    Here w = P (candidate (s, b) w.candidates) (holds w.files (s, b))

    step-keeps :
        ((n : ℕ) (w : Sweep B) → Here w → Here (consume s b n w))
        → (t : Bytes) (item : Option (Bytes × ℕ)) (w : Sweep B) → Here w
        → Here (step t item w)
    unfolding walk_item
    step-keeps own t none w h = h
    step-keeps own t (some (c, n)) w h = elim (Bool-cases (check c)) [
      | inl found ↦ rw found h
      | inr missed ↦ rw missed (elim (Bool-cases (orphan_eq (t, c) (s, b))) [
        | inl e ↦
            (let same = (orphan_eq_iff (t, c) (s, b)).0 e in
              subst (λ (k : OrphanKey). Here (consume k.0 k.1 n w)) (sym same) (own n w h))
        | inr e ↦
            (let u = consume-other remove holds keeps pass limit dry_run (s, b) t c n w e in
              rw (u.0, u.1) h)
      ])
    ]

  -- The list of candidates grows by one at most.
  length-drop_candidate :
      (key : OrphanKey) (cs : Candidates) → length (drop_candidate key cs) ≤ length cs
  unfolding drop_candidate
  length-drop_candidate key [] = omega arith
  length-drop_candidate key ((k, c) ∷ r) = ground (arith, length-drop_candidate key r)

  length-consume :
      (s b : Bytes) (n : ℕ) (w : Sweep B)
      → length (consume s b n w).candidates ≤ length w.candidates + 1
  unfolding consume_orphan delete_orphan insert_candidate
  length-consume s b n w = ground (arith, length-drop_candidate (s, b) w.candidates)

  length-retain_unreferenced : (cs : Candidates) → length (retain_unreferenced check cs) ≤ length cs
  unfolding retain_unreferenced
  length-retain_unreferenced [] = omega arith
  length-retain_unreferenced ((k, c) ∷ r) = ground (arith, length-retain_unreferenced r)

  length-step :
      (t : Bytes) (item : Option (Bytes × ℕ)) (w : Sweep B)
      → length (step t item w).candidates ≤ length w.candidates + 1
  unfolding walk_item
  length-step t none w = omega arith
  length-step t (some (c, n)) w = ground (arith, length-consume t c n w)

  -- The first pass.
  module _ (s b : Bytes) (missed : check b ≡ false) where
    abbrev Roomy : ℕ → Sweep B → Type 0
    Roomy k w = IsYoung pass (candidate (s, b) w.candidates) × (length w.candidates + k ≤ limit)

    abbrev SeenIn : Sweep B → Type 0
    SeenIn w = IsSeen pass (candidate (s, b) w.candidates)

    seen-consume : (n : ℕ) (w : Sweep B) → SeenIn w → SeenIn (consume s b n w)
    unfolding consume_orphan
    seen-consume n w seen = elim (Option-cases (candidate (s, b) w.candidates)) [
      | inl new ↦ absurd (rw new at seen)
      | inr (c, e) ↦
          let now : c.first_seen_pass ≡ pass = rw e at seen in
          rw (e, young-now remove holds keeps pass limit dry_run c now) (rw e now)
    ]

    seen-insert :
        (w : Sweep B)
        → length w.candidates < limit
        → SeenIn (insert_candidate remove pass limit dry_run (s, b) w)
    unfolding insert_candidate candidate
    seen-insert w room =
        let free : leb limit (length w.candidates) ≡ false = ground arith in
        rw (free, (orphan_eq_iff (s, b) (s, b)).1 refl) refl

    hit-seen : (m n : ℕ) (w : Sweep B) → Roomy (suc m) w → SeenIn (step s (some (b, n)) w)
    unfolding walk_item consume_orphan
    hit-seen m n w (young, room) = rw missed (elim (Option-cases (candidate (s, b) w.candidates)) [
      | inl new ↦ rw new (seen-insert w (omega arith))
      | inr (c, e) ↦ seen-consume n w (rw e (rw e at young))
    ])

    keep :
        (m : ℕ) (t : Bytes) (item : Option (Bytes × ℕ)) (w : Sweep B)
        → Roomy (suc m) w
        → Roomy m (step t item w)
    keep m t item w (young, room) = (
      step-keeps s b (λ c h. IsYoung pass c)
          (λ n v y. (consume-IsYoung remove holds keeps pass limit dry_run s b n v y).1) t item w
          young,
      omega (arith, length-step t item w),
    )

    seen :
        (stores : List (Bytes × Walk)) (cs : Candidates) (files : B)
        → candidate (s, b) cs ≡ none
        → length cs + walk_size stores ≤ limit
        → FindsIn (s, b) stores
        → SeenIn (sweep_files remove pass limit dry_run check stores cs files)
    unfolding sweep_files
    seen stores cs files new room found =
        walk_stores-reach remove pass limit dry_run check Roomy keep s b SeenIn hit-seen
          (step-keeps s b (λ c h. IsSeen pass c) seen-consume) stores
          (record {
            candidates = retain_unreferenced check cs;
            files = files;
            orphaned_blobs_deleted = 0;
            orphaned_blob_bytes_deleted = 0;
          })
          found
          (
            rw (candidate-retain_unreferenced check s b cs, missed, new) tt,
            omega (arith, length-retain_unreferenced cs),
          )

  -- The second pass.
  module _ (s b : Bytes) (missed : check b ≡ false) (wet : dry_run ≡ false)
      (removes : (files : B) → holds (remove s b files) (s, b) ≡ false) where
    abbrev GoneIn : Sweep B → Type 0
    GoneIn w = holds w.files (s, b) ≡ false

    abbrev RipeIn : ℕ → Sweep B → Type 0
    RipeIn k w = IsOld pass (candidate (s, b) w.candidates) ⊎ GoneIn w

    delete-gone :
        (n : ℕ) (w : Sweep B) → GoneIn (delete_orphan remove pass limit dry_run (s, b) n w)
    unfolding delete_orphan
    delete-gone n w = rw wet (removes w.files)

    insert-gone :
        (w : Sweep B) → GoneIn w → GoneIn (insert_candidate remove pass limit dry_run (s, b) w)
    unfolding insert_candidate
    insert-gone w gone = ground arith

    gone-consume : (n : ℕ) (w : Sweep B) → GoneIn w → GoneIn (consume s b n w)
    unfolding consume_orphan
    gone-consume n w gone = judged (candidate (s, b) w.candidates)
      where
        judged :
            (c : Option OrphanCandidate) → GoneIn (judge remove pass limit dry_run (s, b) n c w)
        judged none = insert-gone w gone
        judged (some c) = ground (arith, delete-gone n w)

    ripe-consume : (n : ℕ) (w : Sweep B) → RipeIn 0 w → GoneIn (consume s b n w)
    unfolding consume_orphan
    ripe-consume n w (inr gone) = unfold consume_orphan in gone-consume n w gone
    ripe-consume n w (inl old) = elim (Option-cases (candidate (s, b) w.candidates)) [
      | inl new ↦ absurd (rw new at old)
      | inr (c, e) ↦
          let o : 1 ≤ passes_since pass c = rw e at old in
          let t : leb 1 (passes_since pass c) ≡ true = ground arith in rw (e, t) (delete-gone n w)
    ]

    hit-gone : (m n : ℕ) (w : Sweep B) → RipeIn (suc m) w → GoneIn (step s (some (b, n)) w)
    unfolding walk_item
    hit-gone m n w ripe = rw missed (ripe-consume n w ripe)

    gone :
        (stores : List (Bytes × Walk)) (cs : Candidates) (files : B)
        → IsOld pass (candidate (s, b) cs)
        → FindsIn (s, b) stores
        → GoneIn (sweep_files remove pass limit dry_run check stores cs files)
    unfolding sweep_files
    gone stores cs files old found =
        walk_stores-reach remove pass limit dry_run check RipeIn
          (λ m.
            step-keeps s b (λ c h. IsOld pass c ⊎ (h ≡ false)) (λ n w r. inr (ripe-consume n w r)))
          s b GoneIn hit-gone (step-keeps s b (λ c h. h ≡ false) gone-consume) stores
          (record {
            candidates = retain_unreferenced check cs;
            files = files;
            orphaned_blobs_deleted = 0;
            orphaned_blob_bytes_deleted = 0;
          })
          found (inl (rw (candidate-retain_unreferenced check s b cs, missed) old))

-- Where the deletion of a file removes it and leaves the others alone: a file that the walks of two
-- passes yield, of a blob that neither filter finds and that was no candidate, is gone after the
-- second, if that is no dry run and the first had room for all items of its walks as candidates;
-- whatever the stores hold when the second pass begins.
pub sweep_files-collects :
    {B : Type 0} (remove : Bytes → Bytes → B → B) (holds : B → OrphanKey → Bool)
    (pass pass' limit limit' : ℕ) (dry_run : Bool) (check check' : Bytes → Bool) (s b : Bytes)
    (stores stores' : List (Bytes × Walk)) (cs : Candidates) (files files' : B)
    → KeepsOthers remove holds
    → ((files : B) → holds (remove s b files) (s, b) ≡ false)
    → pass < pass'
    → pass' < u64_mod
    → check b ≡ false
    → check' b ≡ false
    → candidate (s, b) cs ≡ none
    → length cs + walk_size stores ≤ limit
    → FindsIn (s, b) stores
    → FindsIn (s, b) stores'
    → let first = sweep_files remove pass limit dry_run check stores cs files in
      let second = sweep_files remove pass' limit' false check' stores' first.candidates files' in
      holds second.files (s, b) ≡ false
sweep_files-collects remove holds pass pass' limit limit' dry_run check check' s b stores stores' cs
      files files' keeps removes later bound missed missed' new room found found' =
    let first = sweep_files remove pass limit dry_run check stores cs files in
    gone remove holds keeps pass' limit' false check' s b missed' refl removes stores'
      first.candidates files'
      (old (candidate (s, b) first.candidates) (
        seen remove holds keeps pass limit dry_run check s b missed stores cs files new room found))
      found'
  where
    old : (c : Option OrphanCandidate) → IsSeen pass c → IsOld pass' c
    old none h = absurd h
    old (some c) h = omega arith
