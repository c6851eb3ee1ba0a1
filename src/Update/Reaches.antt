-- ===== src/Update/Reaches.antt =====
-- A change of an artifact, from its event to the directories above it.
use artifact_depot.Base.{
  ℕ, zero, suc, ◌<◌, ◌≤◌, ◌≡◌, refl, sym, ap, ◌∙◌, Bool, true, false, not, ◌&&◌, [], ◌∷◌, Option,
  some, arith, length, Bool-cases, inl, inr,
}
use mathlib.Core.Path.{subst}
use artifact_depot.Base.Bytes.{Bytes, bytes_eq_iff}
use artifact_depot.Keys.Normalize.{IsClean, normalize_path}
use artifact_depot.Keys.Clean.{normalize_path-IsClean}
use artifact_depot.Keys.Tree.{NulFree, parent_dir, tree_parent, tree_sort_key, ancestor_dirs}
use artifact_depot.Keys.Tree.Injective.{tree_sort_key-injective}
use artifact_depot.Keys.Tree.Ancestors.{IsListed, ancestor_dirs_iff}
use artifact_depot.Keys.Shard.{KeyTriple, sharded_pk}
use artifact_depot.Kv.{KvStore, KvLaws, key_eq}
use artifact_depot.Kv.Codec.{Codec, CodecLaws}
use artifact_depot.Service.Error.{Result, ok}
use artifact_depot.Service.Artifact.{TreeEntry}
use artifact_depot.Service.Artifact.Keys.{shard_pk-NulFree}
use artifact_depot.Update.Words.{IsWord, not_positive}
use artifact_depot.Update.Deltas.{
  DirDelta, dir_key, merge_dir_delta, make_parent_delta, drain_dir_deltas, dir_changed,
}
use artifact_depot.Update.Apply.{DirState, delta_key, existing, is_new, apply_dir_delta}
use artifact_depot.Update.Applied.{IsApplied, apply_dir_delta_frame, apply_dir_delta-IsApplied}
use artifact_depot.Update.Flush.{with_parent, flush_round, final_flush}
use artifact_depot.Update.Ends.{parent_dir-shorter}
use artifact_depot.Update.Above.{Above, Above-fits, Above-shorter, IsAncestor-parent_dir}

-- The delta of a change for one of the directories.
abbrev pub delta_at : (Bytes → ℕ → ℕ) → Bytes → ℕ → ℕ → ℕ → Bytes → DirDelta
delta_at blake3 repo count_delta bytes_delta now dir = record {
  repo = repo;
  pk = sharded_pk blake3 repo (tree_parent dir);
  dir_path = dir;
  count_delta = count_delta;
  bytes_delta = bytes_delta;
  timestamp = now;
}

module _ {K V : Type 0} (blake3 : Bytes → ℕ → ℕ) (trees : Codec (TreeEntry K) V)
    (claws : CodecLaws trees) (kv : KvStore V) (laws : KvLaws kv) (repo : Bytes)
    (count_delta bytes_delta now : ℕ) (free : NulFree repo)
    (words : IsWord count_delta × IsWord bytes_delta) where
  abbrev at : Bytes → DirDelta
  at = delta_at blake3 repo count_delta bytes_delta now

  abbrev alone : DirDelta → kv.State → kv.State
  alone d s = s

  abbrev flushed : ℕ → Bytes → kv.State → Option kv.State
  flushed fuel p s = final_flush blake3 trees kv alone fuel ((dir_key (at p), at p) ∷ []) s

  at-NulFree : (p : Bytes) → NulFree (at p).pk
  at-NulFree p = unfold sharded_pk in shard_pk-NulFree repo _ free

  -- Two directories of a clean path have two keys.
  apart :
      (q p : Bytes)
      → IsClean q × NulFree q
      → IsClean p × NulFree p
      → (length q ≡ length p → ⊥)
      → key_eq (delta_key (at q)) (delta_key (at p)) ≡ false
  unfolding delta_key
  apart q p fq fp less = elim (Bool-cases (key_eq (delta_key (at q)) (delta_key (at p)))) [
    | inr e ↦ e
    | inl e ↦
        (let same = (bytes_eq_iff (tree_sort_key q) (tree_sort_key p)).0 (ground (arith, e)) in
          absurd (less (ap length (tree_sort_key-injective q p fq.0 fp.0 fq.1 fp.1 same))))
  ]

  pub record Reached (old : Bytes → DirState) (p : Bytes) (s : kv.State) (run : Option kv.State)
      : Type 0 where
    pub end : kv.State
    pub ends : run ≡ some end
    pub applied :
        (q : Bytes) → Above q p → IsApplied trees kv laws claws (at q) (old q) (end, ok true)
    pub kept :
        (j : KeyTriple)
        → NulFree j.pk
        → ((q : Bytes) → Above q p → key_eq (delta_key (at q)) j ≡ false)
        → kv.get_versioned end j ≡ kv.get_versioned s j

  abbrev applied_at : Bytes → kv.State → kv.State × Result Bool
  applied_at p s = apply_dir_delta trees kv (alone (at p)) (at p) s

  flushed-step :
      (fuel : ℕ) (p : Bytes) (s : kv.State)
      → (applied_at p s).1 ≡ ok true
      → flushed (suc fuel) p s
        ≡ final_flush blake3 trees kv alone fuel
            (with_parent blake3 (at p) (ok true) [])
            (applied_at p s).0
  unfolding final_flush flush_round
  flushed-step fuel p s r = rw r refl

  parent-flushed :
      (c : ℕ) (p : Bytes)
      → with_parent blake3 (at (c ∷ p)) (ok true) []
        ≡ (dir_key (at (parent_dir (c ∷ p))), at (parent_dir (c ∷ p))) ∷ []
  unfolding merge_dir_delta make_parent_delta
  parent-flushed c p = refl

  abbrev ReadsDirs : (Bytes → DirState) → Bytes → kv.State → Type 0
  ReadsDirs old p s =
      (q : Bytes)
      → Above q p
      → existing trees (kv.get_versioned s (delta_key (at q))) ≡ ok (some (old q))

  abbrev pub Changes : (Bytes → DirState) → Bytes → Type 0
  Changes old p =
      (q : Bytes) → Above q p → (is_new (old q).version && not_positive count_delta) ≡ false

  first :
      (old : Bytes → DirState) (p : Bytes) (s : kv.State)
      → ReadsDirs old p s
      → IsApplied trees kv laws claws (at p) (old p) (applied_at p s)
  first old p s reads =
      apply_dir_delta-IsApplied trees kv laws claws (alone (at p)) (at p) (old p) s (at-NulFree p)
        words.0 words.1 (reads p (inl refl)) refl

  -- An entry that is read the same is applied the same.
  IsApplied-kept :
      (d : DirDelta) (old : DirState) (w : kv.State × Result Bool) (t : kv.State)
      → IsApplied trees kv laws claws d old w
      → w.1 ≡ ok true
      → kv.get_versioned t (delta_key d) ≡ kv.get_versioned w.0 (delta_key d)
      → IsApplied trees kv laws claws d old (t, ok true)
  IsApplied-kept d old w t a r same = record {
    new = a.new;
    reads = ap (existing trees) same ∙ a.reads;
    counts = a.counts;
    sizes = a.sizes;
    there = a.there;
    result = sym r ∙ a.result;
  }

  reach :
      (n fuel : ℕ) (p : Bytes) (old : Bytes → DirState) (s : kv.State)
      → length p < n
      → n < fuel
      → IsClean p × NulFree p
      → ReadsDirs old p s
      → Changes old p
      → Reached old p s (flushed fuel p s)
  reach zero fuel p old s short more fits reads changes = absurd (omega arith)
  reach (suc n) zero p old s short more fits reads changes = absurd (omega arith)
  reach (suc n) (suc zero) p old s short more fits reads changes = absurd (omega arith)
  reach (suc n) (suc (suc fuel)) [] old s short more fits reads changes =
      let a = first old [] s reads in
      let r = a.result ∙ ap (λ b. ok (not b)) (changes [] (inl refl)) in
      record {
        end = (applied_at [] s).0;
        ends = flushed-step (suc fuel) [] s r ∙ (unfold final_flush in refl);
        applied = λ q ab.
            subst (λ d. IsApplied trees kv laws claws (at d) (old d) ((applied_at [] s).0, ok true))
              (only_root q (Above-shorter q [] ab))
              (IsApplied-kept (at []) (old []) (applied_at [] s) (applied_at [] s).0 a r refl);
        kept = λ j hj away.
            apply_dir_delta_frame trees kv laws (alone (at [])) (at []) j s (at-NulFree []) hj
              (inl (away [] (inl refl)));
      }
    where
      only_root : (q : Bytes) → length q ≤ 0 → [] ≡ q
      only_root [] h = refl
      only_root (x ∷ q) h = absurd (omega (arith, h))
  reach (suc n) (suc (suc fuel)) (c ∷ p) old s short more fits reads changes =
      let a = first old (c ∷ p) s reads in
      let r = a.result ∙ ap (λ b. ok (not b)) (changes (c ∷ p) (inl refl)) in
      let ih =
        reach n (suc fuel) (parent_dir (c ∷ p)) old (applied_at (c ∷ p) s).0
          (omega (arith, shorter, short)) (omega arith)
          (Above-fits (parent_dir (c ∷ p)) (c ∷ p) (up (parent_dir (c ∷ p)) (inl refl)) fits.0
            fits.1)
          (λ q ab.
            ap (existing trees) (
              apply_dir_delta_frame trees kv laws (alone (at (c ∷ p))) (at (c ∷ p))
                (delta_key (at q)) s (at-NulFree (c ∷ p)) (key_NulFree q)
                (inl (
                  apart (c ∷ p) q fits (Above-fits q (c ∷ p) (up q ab) fits.0 fits.1)
                    (λ e. lower q ab (sym e)))))
            ∙ reads q (up q ab))
          (λ q ab. changes q (up q ab)) in
      record {
        end = ih.end;
        ends =
            flushed-step (suc fuel) (c ∷ p) s r
            ∙ ap (λ m. final_flush blake3 trees kv alone (suc fuel) m (applied_at (c ∷ p) s).0)
                (parent-flushed c p)
            ∙ ih.ends;
        applied = λ q ab. elim ab [
          | inl e ↦
              subst (λ d. IsApplied trees kv laws claws (at d) (old d) (ih.end, ok true)) (sym e)
                (IsApplied-kept (at (c ∷ p)) (old (c ∷ p)) (applied_at (c ∷ p) s) ih.end a r (
                  ih.kept (delta_key (at (c ∷ p))) (key_NulFree (c ∷ p)) (λ d above.
                    apart d (c ∷ p) (Above-fits d (c ∷ p) (up d above) fits.0 fits.1) fits
                      (lower d above))))
          | inr anc ↦ ih.applied q ((IsAncestor-parent_dir q (c ∷ p)).0 anc)
        ];
        kept = λ j hj away.
            ih.kept j hj (λ q ab. away q (up q ab))
            ∙ apply_dir_delta_frame trees kv laws (alone (at (c ∷ p))) (at (c ∷ p)) j s
                (at-NulFree (c ∷ p)) hj (inl (away (c ∷ p) (inl refl)));
      }
    where
      shorter : length (parent_dir (c ∷ p)) < length (c ∷ p)
      shorter = parent_dir-shorter (c ∷ p) (omega arith)

      up : (q : Bytes) → Above q (parent_dir (c ∷ p)) → Above q (c ∷ p)
      up q ab = inr ((IsAncestor-parent_dir q (c ∷ p)).1 ab)

      lower : (q : Bytes) → Above q (parent_dir (c ∷ p)) → length q ≡ length (c ∷ p) → ⊥
      lower q ab e = omega (arith, Above-shorter q (parent_dir (c ∷ p)) ab, shorter, e)

      key_NulFree : (q : Bytes) → NulFree (delta_key (at q)).pk
      key_NulFree q = unfold delta_key in at-NulFree q

  -- If no other caller writes, in a repository without NUL in its name and at a path without NUL,
  -- and the directories above the path can be read or are absent, with a positive count if one is
  -- absent: the event of `dir_changed`, drained and flushed on fuel for two rounds more than the
  -- path has bytes, adds the count and the size to every directory that `ancestor_dirs` lists for
  -- the path, up to the root.
  pub dir_changed-ancestor_dirs :
      (path : Bytes) (fuel : ℕ) (old : Bytes → DirState) (s : kv.State)
      → NulFree (normalize_path path)
      → suc (length (normalize_path path)) < fuel
      → ((dir : Bytes)
          → IsListed dir (ancestor_dirs (normalize_path path))
          → existing trees (kv.get_versioned s (delta_key (at dir))) ≡ ok (some (old dir)))
      → ((dir : Bytes)
          → IsListed dir (ancestor_dirs (normalize_path path))
          → (is_new (old dir).version && not_positive count_delta) ≡ false)
      → let event = dir_changed blake3 repo path count_delta bytes_delta now in
        (t : kv.State) × (final_flush blake3 trees kv alone fuel (drain_dir_deltas (event ∷ [])) s
          ≡ some t)
        × ((dir : Bytes)
            → IsListed dir (ancestor_dirs (normalize_path path))
            → IsApplied trees kv laws claws (at dir) (old dir) (t, ok true))
  unfolding dir_changed drain_dir_deltas merge_dir_delta
  dir_changed-ancestor_dirs path fuel old s nul more reads changes =
      let clean = normalize_path path in
      let listed = λ (dir : Bytes) (ab : Above dir (parent_dir clean)).
        (ancestor_dirs_iff dir clean).1 ((IsAncestor-parent_dir dir clean).1 ab) in
      let r =
        reach (suc (length clean)) fuel (parent_dir clean) old s (parent_short clean) more
          (Above-fits (parent_dir clean) clean
            (inr ((IsAncestor-parent_dir (parent_dir clean) clean).1 (inl refl)))
            (normalize_path-IsClean path) nul)
          (λ dir ab. reads dir (listed dir ab)) (λ dir ab. changes dir (listed dir ab)) in
      (
        r.end,
        r.ends,
        λ dir l.
            r.applied dir ((IsAncestor-parent_dir dir clean).0 ((ancestor_dirs_iff dir clean).0 l)),
      )
    where
      parent_short : (p : Bytes) → length (parent_dir p) < suc (length p)
      parent_short [] = unfold parent_dir in omega arith
      parent_short (c ∷ p) = omega (arith, parent_dir-shorter (c ∷ p) (omega arith))
