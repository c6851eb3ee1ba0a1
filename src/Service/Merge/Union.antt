-- ===== src/Service/Merge/Union.antt =====
-- Heaps, and the sorted lists of entries that they stand for.
use artifact_depot.Base.{
  ℕ, ◌≡◌, refl, sym, ◌∙◌, ◌↔◌, ◌⊎◌, List, [], ◌∷◌, Option, some, none, arith, inl, inr,
}
use mathlib.Core.Path.{subst}
use artifact_depot.Base.Bytes.{Bytes}
use artifact_depot.Kv.Sorted.{IsSorted, Holds, bytes_lt_irrefl, above-Holds}
use artifact_depot.Service.Stream.{ShardStream, peek, head}
use artifact_depot.Service.Merge.{HeapEntry, push_shown}
use artifact_depot.Service.Merge.Heap.{InHeap, IsShown, IsHeap, InHeap-push}
use artifact_depot.Service.Merge.Order.{IsHeap-push, least}

module _ {V : Type 0} (yields : ShardStream V → List (Bytes × V))
    (Fits : ShardStream V → Type 0) where
  abbrev In : Bytes → V → List (HeapEntry V) → Type 0
  In = InHeap yields Fits

  -- The stream shows the first entry that it yields.
  pub record IsPrimed (s : ShardStream V) : Type 0 where
    pub shows : peek s ≡ head (yields s)
    pub sorted : IsSorted (yields s)
    pub fits : Fits s

  pub record IsUnion (heap : List (HeapEntry V)) (all : List (Bytes × V)) : Type 0 where
    pub sorted : IsSorted all
    pub ordered : IsHeap yields Fits heap
    pub same : (k : Bytes) (v : V) → Holds k v all ↔ In k v heap

  shown_first :
      (xs : List (Bytes × V)) (k : Bytes) (v : V)
      → head xs ≡ some (k, v)
      → (rest : List (Bytes × V)) × (xs ≡ (k, v) ∷ rest)
  shown_first [] k v e = cc
  shown_first (x ∷ xs) k v e = (xs, cc)

  shown_none : (xs : List (Bytes × V)) → head xs ≡ none → xs ≡ []
  shown_none [] e = refl
  shown_none (x ∷ xs) e = cc

  AsShown :
      (i : ℕ) (t : ShardStream V) (k : Bytes) (v : V)
      → IsPrimed t
      → peek t ≡ some (k, v)
      → IsShown yields Fits (record { sk = k; stream_idx = i; stream = t })
  AsShown i t k v p at =
      let (rest, e) = shown_first (yields t) k v (sym p.shows ∙ at) in
      record {
        value = v;
        rest = rest;
        shows = at;
        first = e;
        sorted = subst IsSorted e p.sorted;
        fits = p.fits;
      }

  -- What the shown stream yields joins the heap.
  pub InHeap-push_shown :
      (i : ℕ) (t : ShardStream V) (o : Option (Bytes × V)) (h : List (HeapEntry V)) (k : Bytes)
      (v : V)
      → head (yields t) ≡ o
      → In k v (push_shown i t o h) ↔ (Holds k v (yields t) ⊎ In k v h)
  InHeap-push_shown i t none h k v e = (λ m. inr m, back)
    where
      back : Holds k v (yields t) ⊎ In k v h → In k v h
      back (inl m) = absurd (subst (Holds k v) (shown_none (yields t) e) m)
      back (inr m) = m
  InHeap-push_shown i t (some (sk, w)) h k v e =
      InHeap-push yields Fits k v (record { sk = sk; stream_idx = i; stream = t }) h

  pub IsHeap-push_shown :
      (i : ℕ) (t : ShardStream V) (o : Option (Bytes × V)) (h : List (HeapEntry V))
      → IsPrimed t
      → peek t ≡ o
      → ((k : Bytes) (v w : V) → Holds k v (yields t) → In k w h → ⊥)
      → IsHeap yields Fits h
      → IsHeap yields Fits (push_shown i t o h)
  IsHeap-push_shown i t none h p e a o = o
  IsHeap-push_shown i t (some (sk, w)) h p e a o =
      IsHeap-push yields Fits (record { sk = sk; stream_idx = i; stream = t }) h
        (AsShown i t sk w p e) a o

  pub IsUnion-nil : (all : List (Bytes × V)) → IsUnion [] all → all ≡ []
  IsUnion-nil [] u = refl
  IsUnion-nil ((k, v) ∷ all) u = absurd ((u.same k v).0 (inl (refl, refl)))

  pub IsUnion-cons : (e : HeapEntry V) (h : List (HeapEntry V)) → IsUnion (e ∷ h) [] → ⊥
  IsUnion-cons e h u =
      (u.same e.sk u.ordered.0.value).1
        (inl (subst (Holds e.sk u.ordered.0.value) (sym u.ordered.0.first) (inl (refl, refl))))

  pub IsUnion-first :
      (e : HeapEntry V) (h : List (HeapEntry V)) (k : Bytes) (v : V) (all : List (Bytes × V))
      → (u : IsUnion (e ∷ h) ((k, v) ∷ all)) → (e.sk ≡ k) × (u.ordered.0.value ≡ v)
  IsUnion-first e h k v all u = at (
      (u.same e.sk u.ordered.0.value).1
        (inl (subst (Holds e.sk u.ordered.0.value) (sym u.ordered.0.first) (inl (refl, refl)))))
    where
      at : Holds e.sk u.ordered.0.value ((k, v) ∷ all) → (e.sk ≡ k) × (u.ordered.0.value ≡ v)
      at (inl m) = m
      at (inr m) = absurd (
          ground (
            arith,
            above-Holds k e.sk u.ordered.0.value all u.sorted.0 m,
            least yields Fits e h k v u.ordered ((u.same k v).0 (inl (refl, refl))),
          ))

  -- The heap after a round: the first stream is advanced and pushed again.
  pub IsUnion-rest :
      (e : HeapEntry V) (h : List (HeapEntry V)) (k : Bytes) (v : V) (all : List (Bytes × V))
      → (u : IsUnion (e ∷ h) ((k, v) ∷ all)) → (t : ShardStream V) → yields t ≡ u.ordered.0.rest
      → IsPrimed t
      → IsUnion (push_shown e.stream_idx t (peek t) h) all
  IsUnion-rest e h k v all u t same p = record {
    sorted = u.sorted.1;
    ordered =
        IsHeap-push_shown e.stream_idx t (peek t) h p refl
          (λ j x y m n.
            u.ordered.2 j x y
              (subst (Holds j x) (sym u.ordered.0.first) (inr (subst (Holds j x) same m))) n)
          u.ordered.3;
    same = λ j w. (
      λ m.
          (InHeap-push_shown e.stream_idx t (peek t) h j w (sym p.shows)).1
            (stays j w m ((u.same j w).0 (inr m))),
      λ m. behind j w ((InHeap-push_shown e.stream_idx t (peek t) h j w (sym p.shows)).0 m),
    );
  }
    where
      at : (e.sk ≡ k) × (u.ordered.0.value ≡ v)
      at = IsUnion-first e h k v all u

      stays : (j : Bytes) (w : V) → Holds j w all → In j w (e ∷ h) → Holds j w (yields t) ⊎ In j w h
      stays j w m (inr n) = inr n
      stays j w m (inl n) = from (subst (Holds j w) u.ordered.0.first n)
        where
          from :
              Holds j w ((e.sk, u.ordered.0.value) ∷ u.ordered.0.rest)
              → Holds j w (yields t) ⊎ In j w h
          from (inl i) =
              absurd (ground (arith, at, above-Holds k j w all u.sorted.0 m, bytes_lt_irrefl j))
          from (inr i) = inl (subst (Holds j w) (sym same) i)

      behind : (j : Bytes) (w : V) → Holds j w (yields t) ⊎ In j w h → Holds j w all
      behind j w (inl m) = from (
          (u.same j w).1
            (inl (subst (Holds j w) (sym u.ordered.0.first) (inr (subst (Holds j w) same m)))))
        where
          from : Holds j w ((k, v) ∷ all) → Holds j w all
          from (inr i) = i
          from (inl i) = absurd (
              ground (
                arith,
                at,
                above-Holds e.sk j w u.ordered.0.rest u.ordered.0.sorted.0
                    (subst (Holds j w) same m),
                bytes_lt_irrefl j,
              ))
      behind j w (inr m) = from ((u.same j w).1 (inr m))
        where
          from : Holds j w ((k, v) ∷ all) → Holds j w all
          from (inr i) = i
          from (inl i) = absurd (
              u.ordered.2 e.sk u.ordered.0.value w
                (subst (Holds e.sk u.ordered.0.value) (sym u.ordered.0.first) (inl (refl, refl)))
                (subst (λ y. In y w h) (i.0 ∙ sym at.0) m))
