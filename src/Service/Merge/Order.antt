-- ===== src/Service/Merge/Order.antt =====
-- The order of the heap of `k_way_merge`, and its least entry.
use artifact_depot.Base.{◌≡◌, true, false, List, [], ◌∷◌, arith, Bool-cases, inl, inr}
use artifact_depot.Base.Bytes.{Bytes, bytes_lt, bytes_eq_iff}
use artifact_depot.Kv.Sorted.{
  Holds, bytes_lt_irrefl, bytes_lt_trans, bytes_lt_asymm, bytes_lt_total, above-Holds,
}
use artifact_depot.Service.Stream.{ShardStream}
use artifact_depot.Service.Merge.{HeapEntry, entry_lt, push}
use artifact_depot.Service.Merge.Heap.{InHeap, Apart, NotBelow, IsShown, IsHeap, InHeap-push}

not_below_trans :
    (a b c : Bytes) → bytes_lt b a ≡ false → bytes_lt c b ≡ false → bytes_lt c a ≡ false
not_below_trans a b c h k = ground (arith, bytes_lt_trans c a b, bytes_lt_total b a)

module _ {V : Type 0} (yields : ShardStream V → List (Bytes × V))
    (Fits : ShardStream V → Type 0) where
  abbrev In : Bytes → V → List (HeapEntry V) → Type 0
  In = InHeap yields Fits

  abbrev Ordered : List (HeapEntry V) → Type 0
  Ordered = IsHeap yields Fits

  abbrev Below : Bytes → List (HeapEntry V) → Type 0
  Below = NotBelow yields Fits

  Below-trans :
      (a b : Bytes) (h : List (HeapEntry V)) → bytes_lt b a ≡ false → Below b h → Below a h
  Below-trans a b [] le n = tt
  Below-trans a b (x ∷ h) le n = (not_below_trans a b x.sk le n.0, Below-trans a b h le n.1)

  Below-push :
      (b : Bytes) (e : HeapEntry V) (h : List (HeapEntry V))
      → bytes_lt e.sk b ≡ false
      → Below b h
      → Below b (push e h)
  unfolding push
  Below-push b e [] le n = (le, tt)
  Below-push b e (x ∷ h) le n = elim (Bool-cases (entry_lt e x)) [
    | inl lt ↦ rw lt (le, n)
    | inr ge ↦ rw ge (n.0, Below-push b e h le n.1)
  ]

  first_below : (e x : HeapEntry V) → entry_lt e x ≡ true → bytes_lt x.sk e.sk ≡ false
  first_below e x lt =
      ground (arith, bytes_lt_asymm e.sk x.sk, (bytes_eq_iff e.sk x.sk).0, bytes_lt_irrefl e.sk)

  Apart-push :
      (x e : HeapEntry V) (h : List (HeapEntry V))
      → Apart yields Fits e (x ∷ h)
      → Apart yields Fits x h
      → Apart yields Fits x (push e h)
  Apart-push x e h ae ax k v w m n = elim ((InHeap-push yields Fits k w e h).0 n) [
    | inl i ↦ ae k w v i (inl m)
    | inr i ↦ ax k v w m i
  ]

  pub IsHeap-push :
      (e : HeapEntry V) (h : List (HeapEntry V))
      → IsShown yields Fits e
      → Apart yields Fits e h
      → Ordered h
      → Ordered (push e h)
  unfolding push
  IsHeap-push e [] s a o = (s, tt, a, tt)
  IsHeap-push e (x ∷ h) s a o = elim (Bool-cases (entry_lt e x)) [
    | inl lt ↦
        rw lt (s, (first_below e x lt, Below-trans e.sk x.sk h (first_below e x lt) o.1), a, o)
    | inr ge ↦ rw ge (
      o.0,
      Below-push x.sk e h (ground arith) o.1,
      Apart-push x e h a o.2,
      IsHeap-push e h s (λ k v w m n. a k v w m (inr n)) o.3,
    )
  ]

  least-shown :
      (e : HeapEntry V) (k : Bytes) (v : V)
      → IsShown yields Fits e
      → Holds k v (yields e.stream)
      → bytes_lt k e.sk ≡ false
  least-shown e k v s m = at_first (rw s.first at m)
    where
      at_first : Holds k v ((e.sk, s.value) ∷ s.rest) → bytes_lt k e.sk ≡ false
      at_first (inl i) = rw i.0 (bytes_lt_irrefl e.sk)
      at_first (inr i) = bytes_lt_asymm e.sk k (above-Holds e.sk k v s.rest s.sorted.0 i)

  least-Below :
      (b : Bytes) (h : List (HeapEntry V)) (k : Bytes) (v : V)
      → Ordered h
      → Below b h
      → In k v h
      → bytes_lt k b ≡ false
  least-Below b [] k v o n m = absurd m
  least-Below b (x ∷ h) k v o n (inl m) = not_below_trans b x.sk k n.0 (least-shown x k v o.0 m)
  least-Below b (x ∷ h) k v o n (inr m) = least-Below b h k v o.3 n.1 m

  pub least :
      (e : HeapEntry V) (h : List (HeapEntry V)) (k : Bytes) (v : V)
      → Ordered (e ∷ h)
      → In k v (e ∷ h)
      → bytes_lt k e.sk ≡ false
  least e h k v o (inl m) = least-shown e k v o.0 m
  least e h k v o (inr m) = least-Below e.sk h k v o.3 o.1 m
