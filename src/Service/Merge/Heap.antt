-- ===== src/Service/Merge/Heap.antt =====
-- The heap of `k_way_merge`, seen as the entries that its streams still yield.
use artifact_depot.Base.{◌≡◌, ◌↔◌, ◌⊎◌, false, List, [], ◌∷◌, some, Bool-cases, inl, inr}
use artifact_depot.Base.Bytes.{Bytes, bytes_lt}
use artifact_depot.Kv.Sorted.{IsSorted, AllAbove, Holds}
use artifact_depot.Service.Stream.{ShardStream, peek}
use artifact_depot.Service.Merge.{HeapEntry, entry_lt, push}

module _ {V : Type 0} (yields : ShardStream V → List (Bytes × V))
    (Fits : ShardStream V → Type 0) where
  -- Some stream of the heap yields the entry.
  abbrev pub InHeap : Bytes → V → List (HeapEntry V) → Type 0
  InHeap k v [] = ⊥
  InHeap k v (e ∷ h) = Holds k v (yields e.stream) ⊎ InHeap k v h

  -- No key of `e` is in `h`.
  abbrev pub Apart : HeapEntry V → List (HeapEntry V) → Type 0
  Apart e h = (k : Bytes) (v w : V) → Holds k v (yields e.stream) → InHeap k w h → ⊥

  abbrev pub NotBelow : Bytes → List (HeapEntry V) → Type 0
  NotBelow k [] = Unit
  NotBelow k (x ∷ h) = (bytes_lt x.sk k ≡ false) × NotBelow k h

  -- The stream of an entry yields its key first, and shows it.
  pub record IsShown (e : HeapEntry V) : Type 0 where
    pub value : V
    pub rest : List (Bytes × V)
    pub shows : peek e.stream ≡ some (e.sk, value)
    pub first : yields e.stream ≡ (e.sk, value) ∷ rest
    pub sorted : AllAbove e.sk rest × IsSorted rest
    pub fits : Fits e.stream

  abbrev pub IsHeap : List (HeapEntry V) → Type 0
  IsHeap [] = Unit
  IsHeap (e ∷ h) = IsShown e × NotBelow e.sk h × Apart e h × IsHeap h

  pub InHeap-push :
      (k : Bytes) (v : V) (e : HeapEntry V) (h : List (HeapEntry V))
      → InHeap k v (push e h) ↔ (Holds k v (yields e.stream) ⊎ InHeap k v h)
  unfolding push
  InHeap-push k v e [] = (λ m. m, λ m. m)
  InHeap-push k v e (x ∷ h) = by_test (InHeap-push k v e h)
    where
      by_test :
          InHeap k v (push e h) ↔ (Holds k v (yields e.stream) ⊎ InHeap k v h)
          → InHeap k v (push e (x ∷ h)) ↔ (Holds k v (yields e.stream) ⊎ InHeap k v (x ∷ h))
      by_test ih = elim (Bool-cases (entry_lt e x)) [
        | inl lt ↦ rw lt (λ m. m, λ m. m)
        | inr ge ↦ rw ge (swap_out ih, swap_in ih)
      ]
        where
          swap_out :
              InHeap k v (push e h) ↔ (Holds k v (yields e.stream) ⊎ InHeap k v h)
              → Holds k v (yields x.stream) ⊎ InHeap k v (push e h)
              → Holds k v (yields e.stream) ⊎ InHeap k v (x ∷ h)
          swap_out i (inl m) = inr (inl m)
          swap_out i (inr m) = elim (i.0 m) [ inl a ↦ inl a | inr b ↦ inr (inr b) ]

          swap_in :
              InHeap k v (push e h) ↔ (Holds k v (yields e.stream) ⊎ InHeap k v h)
              → Holds k v (yields e.stream) ⊎ InHeap k v (x ∷ h)
              → Holds k v (yields x.stream) ⊎ InHeap k v (push e h)
          swap_in i (inl a) = inr (i.1 (inl a))
          swap_in i (inr (inl m)) = inl m
          swap_in i (inr (inr b)) = inr (i.1 (inr b))
