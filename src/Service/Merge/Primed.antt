-- ===== src/Service/Merge/Primed.antt =====
-- The heap that `k_way_merge` starts with, and the merge as a whole.
use artifact_depot.Base.{
  ℕ, suc, ◌+◌, ◌-◌, ◌<◌, ◌≡◌, refl, ap, sym, ◌∙◌, ◌↔◌, ◌⊎◌, Bool, List, [], ◌∷◌, Option, some,
  arith, length, take, drop, inl, inr,
}
use mathlib.Core.Path.{subst}
use artifact_depot.Base.Bytes.{Bytes}
use artifact_depot.Kv.{KvStore, KvLaws}
use artifact_depot.Kv.Codec.{Codec}
use artifact_depot.Kv.Sorted.{IsSorted, Holds}
use artifact_depot.Service.Error.{Result, ok, err}
use artifact_depot.Service.Stream.{ShardStream, peek}
use artifact_depot.Service.Merge.{HeapEntry, push_shown, prime, k_way_merge}
use artifact_depot.Service.Merge.Heap.{InHeap, IsHeap}
use artifact_depot.Service.Merge.Union.{InHeap-push_shown, IsHeap-push_shown}
use artifact_depot.Service.Merge.Listed.{
  prepended, passed, read_all, left, Fits, ready-IsPrimed, merge_loop-Reads,
}

module _ {T V : Type 0} (codec : Codec T V) (lower_contains : Bytes → Bytes → Bool)
    (is_utf8 : Bytes → Bool) (kv : KvStore V) (laws : KvLaws kv) (rounds : ℕ) (store : kv.State)
    (table : Bytes) where
  abbrev pub comes : ShardStream V → List (Bytes × V)
  comes = left codec lower_contains is_utf8 kv laws rounds store table

  abbrev Fit : ShardStream V → Type 0
  Fit = Fits codec lower_contains is_utf8 kv laws rounds store table

  abbrev In : Bytes → V → List (HeapEntry V) → Type 0
  In = InHeap comes Fit

  -- Some stream yields the entry.
  abbrev pub Yielded : Bytes → V → List (ShardStream V) → Type 0
  Yielded k v [] = ⊥
  Yielded k v (s ∷ streams) = Holds k v (comes s) ⊎ Yielded k v streams

  -- No two streams yield one key.
  abbrev pub AllApart : List (ShardStream V) → Type 0
  AllApart [] = Unit
  AllApart (s ∷ streams) =
      ((k : Bytes) (v w : V) → Holds k v (comes s) → Yielded k w streams → ⊥) × AllApart streams

  abbrev pub AllFit : List (ShardStream V) → Type 0
  AllFit [] = Unit
  AllFit (s ∷ streams) = (Fit s × IsSorted (comes s)) × AllFit streams

  record Primed (i : ℕ) (streams : List (ShardStream V)) : Type 0 where
    heap : List (HeapEntry V)
    runs : prime codec lower_contains kv rounds store table i streams ≡ some heap
    ordered : IsHeap comes Fit heap
    same : (k : Bytes) (v : V) → Yielded k v streams ↔ In k v heap

  prime_lem :
      (i : ℕ) (streams : List (ShardStream V))
      → AllFit streams
      → AllApart streams
      → Primed i streams
  unfolding prime
  prime_lem i [] f a = record {
    heap = [];
    runs = refl;
    ordered = tt;
    same = λ k v. (λ m. m, λ m. m);
  }
  prime_lem i (s ∷ streams) f a = joined (prime_lem (i + 1) streams f.1 a.1)
    where
      joined : Primed (i + 1) streams → Primed i (s ∷ streams)
      joined p =
          let (t, e, same, primed) =
            ready-IsPrimed codec lower_contains is_utf8 kv laws rounds store table s f.0.0 f.0.1 in
          record {
            heap = push_shown i t (peek t) p.heap;
            runs = rw (e, p.runs) refl;
            ordered =
                IsHeap-push_shown comes Fit i t (peek t) p.heap primed refl
                  (λ k v w m n. a.0 k v w (subst (Holds k v) same m) ((p.same k w).1 n)) p.ordered;
            same = λ k v. (
              λ m.
                  (InHeap-push_shown comes Fit i t (peek t) p.heap k v (sym primed.shows)).1
                    (into t k v same m),
              λ m.
                  from t k v same
                    ((InHeap-push_shown comes Fit i t (peek t) p.heap k v (sym primed.shows)).0 m),
            );
          }
        where
          into :
              (t : ShardStream V) (k : Bytes) (v : V)
              → comes t ≡ comes s
              → Yielded k v (s ∷ streams)
              → Holds k v (comes t) ⊎ In k v p.heap
          into t k v same (inl m) = inl (subst (Holds k v) (sym same) m)
          into t k v same (inr m) = inr ((p.same k v).0 m)

          from :
              (t : ShardStream V) (k : Bytes) (v : V)
              → comes t ≡ comes s
              → Holds k v (comes t) ⊎ In k v p.heap
              → Yielded k v (s ∷ streams)
          from t k v same (inl m) = inl (subst (Holds k v) same m)
          from t k v same (inr m) = inr ((p.same k v).1 m)

  prepended_nil : (r : Result (List (Bytes × T))) → prepended [] r ≡ r
  prepended_nil (ok r) = refl
  prepended_nil (err e) = refl

  -- The merge reads off the sorted list of what its streams yield.
  pub k_way_merge_lem :
      (fuel : ℕ) (streams : List (ShardStream V)) (cursor_path : Option Bytes) (skip limit : ℕ)
      (all : List (Bytes × V))
      → AllFit streams
      → AllApart streams
      → IsSorted all
      → ((k : Bytes) (v : V) → Holds k v all ↔ Yielded k v streams)
      → length all < fuel
      → k_way_merge codec lower_contains kv rounds store table fuel streams cursor_path skip limit
        ≡ some (read_all codec (take (suc limit) (drop skip (passed cursor_path all))))
  unfolding k_way_merge
  k_way_merge_lem fuel streams cursor_path skip limit all f a sorted same enough =
      let p = prime_lem 0 streams f a in
      let loop =
        merge_loop-Reads codec lower_contains is_utf8 kv laws rounds store table fuel cursor_path
          skip limit p.heap 0 [] all
          (record {
            sorted = sorted;
            ordered = p.ordered;
            same =
                λ k v. (λ m. (p.same k v).0 ((same k v).0 m), λ m. (same k v).1 ((p.same k v).1 m));
          })
          enough (omega arith) in
      let none_yet : suc limit - 0 ≡ suc limit = omega arith in
      let all_left : skip - 0 ≡ skip = omega arith in
      rw p.runs (loop ∙ rw (none_yet, all_left) (ap some (prepended_nil _)))
