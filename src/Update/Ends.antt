-- ===== src/Update/Ends.antt =====
-- The rounds of the last flush, and the levels at which their deltas stand.
use artifact_depot.Base.{
  ℕ, zero, suc, ◌<◌, ◌≡◌, refl, ap, Bool, true, false, List, [], ◌∷◌, Option, some, none, arith,
  length, length-append, Bool-cases, inl, inr,
}
use artifact_depot.Base.Bytes.{Bytes, is_empty, rsplit_once, rsplit_once-Splits, Splits}
use artifact_depot.Keys.Normalize.{slash}
use artifact_depot.Keys.Tree.{parent_dir, before}
use artifact_depot.Kv.{KvStore}
use artifact_depot.Kv.Codec.{Codec}
use artifact_depot.Service.Error.{Result, ok, err}
use artifact_depot.Service.Artifact.{TreeEntry}
use artifact_depot.Update.Deltas.{
  DirDelta, DirDeltaMap, same_dir, dir_key, merge_dir_delta, make_parent_delta, values,
}
use artifact_depot.Update.Apply.{apply_dir_delta}
use artifact_depot.Update.Flush.{with_parent, flush_round, final_flush}

before-shorter :
    (p : Bytes) (r : Option (Bytes × Bytes))
    → Splits slash p r
    → 0 < length p
    → length (before r) < length p
before-shorter p none s h = h
before-shorter p (some (a, b)) s h = ground (arith, length-append {0} a (slash ∷ b), ap length s.0)

pub parent_dir-shorter : (p : Bytes) → 0 < length p → length (parent_dir p) < length p
unfolding parent_dir
parent_dir-shorter p h = before-shorter p (rsplit_once slash p) (rsplit_once-Splits slash p) h

-- Every delta is for a path of less than `n` bytes.
abbrev pub AllShorter : ℕ → List DirDelta → Type 0
AllShorter n [] = Unit
AllShorter n (d ∷ ds) = (length d.dir_path < n) × AllShorter n ds

AllShorter-merge :
    (n : ℕ) (d : DirDelta) (m : DirDeltaMap)
    → length d.dir_path < n
    → AllShorter n (values m)
    → AllShorter n (values (merge_dir_delta d m))
unfolding merge_dir_delta
AllShorter-merge n d [] h a = (h, tt)
AllShorter-merge n d ((k, e) ∷ m) h a = elim (Bool-cases (same_dir k (dir_key d))) [
  | inl s ↦ rw s (a.0, a.1)
  | inr s ↦ rw s (a.0, AllShorter-merge n d m h a.1)
]

module _ (blake3 : Bytes → ℕ → ℕ) where
  AllShorter-with_parent :
      (n : ℕ) (d : DirDelta) (r : Result Bool) (m : DirDeltaMap)
      → length d.dir_path < suc n
      → AllShorter n (values m)
      → AllShorter n (values (with_parent blake3 d r m))
  AllShorter-with_parent n d (err e) m h a = a
  AllShorter-with_parent n d (ok false) m h a = a
  AllShorter-with_parent n d (ok true) m h a = elim (Bool-cases (is_empty d.dir_path)) [
    | inl e ↦ rw e a
    | inr e ↦ rw e (
        AllShorter-merge n (make_parent_delta blake3 d) m
          (unfold make_parent_delta in
            omega (arith, parent_dir-shorter d.dir_path (full d.dir_path e), h))
          a)
  ]
    where
      full : (p : Bytes) → is_empty p ≡ false → 0 < length p
      full [] e = absurd cc
      full (c ∷ p) e = omega arith

  module _ {K V : Type 0} (trees : Codec (TreeEntry K) V) (kv : KvStore V)
      (others : DirDelta → kv.State → kv.State) where
    flush_round-AllShorter :
        (n : ℕ) (ds : List DirDelta) (m : DirDeltaMap) (s : kv.State)
        → AllShorter (suc n) ds
        → AllShorter n (values m)
        → AllShorter n (values (flush_round blake3 trees kv others ds m s).1)
    unfolding flush_round
    flush_round-AllShorter n [] m s h a = a
    flush_round-AllShorter n (d ∷ ds) m s h a =
        let w = apply_dir_delta trees kv (others d) d s in
        flush_round-AllShorter n ds (with_parent blake3 d w.1 m) w.0 h.1
          (AllShorter-with_parent n d w.1 m h.0 a)

    -- Whatever the store holds and the other callers do: if every delta is for a path of less than
    -- `n` bytes, the last flush ends within `n + 1` rounds.
    pub final_flush-ends :
        (n fuel : ℕ) (coalesced : DirDeltaMap) (s : kv.State)
        → AllShorter n (values coalesced)
        → n < fuel
        → (t : kv.State) × (final_flush blake3 trees kv others fuel coalesced s ≡ some t)
    unfolding final_flush
    final_flush-ends n zero coalesced s h more = absurd (omega arith)
    final_flush-ends n (suc fuel) [] s h more = (s, refl)
    final_flush-ends zero (suc fuel) ((k, d) ∷ entries) s h more = absurd (omega (arith, h.0))
    final_flush-ends (suc n) (suc fuel) ((k, d) ∷ entries) s h more =
        let w = flush_round blake3 trees kv others (values ((k, d) ∷ entries)) [] s in
        final_flush-ends n fuel w.1 w.0
          (flush_round-AllShorter n (values ((k, d) ∷ entries)) [] s h tt) (omega arith)
