-- ===== src/Kv/Sorted.antt =====
-- Association lists in the order of their keys, each key once.
use artifact_depot.Base.{◌≡◌, refl, sym, ◌↔◌, ◌⊎◌, inl, inr, true, false, List, [], ◌∷◌, arith}
use artifact_depot.Base.Bytes.{Bytes, bytes_lt}

module _ {V : Type 0} where
  -- `k` stands before every key of the list.
  abbrev pub AllAbove : Bytes → List (Bytes × V) → Type 0
  AllAbove k [] = Unit
  AllAbove k ((j, v) ∷ r) = (bytes_lt k j ≡ true) × AllAbove k r

  abbrev pub IsSorted : List (Bytes × V) → Type 0
  IsSorted [] = Unit
  IsSorted ((k, v) ∷ r) = AllAbove k r × IsSorted r

  abbrev pub Holds : Bytes → V → List (Bytes × V) → Type 0
  Holds k v [] = ⊥
  Holds k v ((j, w) ∷ r) = ((k ≡ j) × (v ≡ w)) ⊎ Holds k v r

pub bytes_lt_irrefl : (x : Bytes) → bytes_lt x x ≡ false
unfolding bytes_lt
bytes_lt_irrefl [] = refl
bytes_lt_irrefl (c ∷ x) = ground (arith, bytes_lt_irrefl x)

pub bytes_lt_trans :
    (x y z : Bytes) → bytes_lt x y ≡ true → bytes_lt y z ≡ true → bytes_lt x z ≡ true
unfolding bytes_lt
bytes_lt_trans x [] z h k = ground arith
bytes_lt_trans x (b ∷ y) [] h k = ground arith
bytes_lt_trans [] (b ∷ y) (c ∷ z) h k = refl
bytes_lt_trans (a ∷ x) (b ∷ y) (c ∷ z) h k = ground (arith, bytes_lt_trans x y z)

pub bytes_lt_asymm : (x y : Bytes) → bytes_lt x y ≡ true → bytes_lt y x ≡ false
unfolding bytes_lt
bytes_lt_asymm [] [] h = refl
bytes_lt_asymm [] (b ∷ y) h = refl
bytes_lt_asymm (a ∷ x) [] h = ground arith
bytes_lt_asymm (a ∷ x) (b ∷ y) h = ground (arith, bytes_lt_asymm x y)

-- Of two texts one is less, or they are equal.
pub bytes_lt_total : (x y : Bytes) → bytes_lt x y ≡ false → bytes_lt y x ≡ false → x ≡ y
unfolding bytes_lt
bytes_lt_total [] [] h k = refl
bytes_lt_total [] (b ∷ y) h k = ground arith
bytes_lt_total (a ∷ x) [] h k = ground arith
bytes_lt_total (a ∷ x) (b ∷ y) h k = ground (arith, bytes_lt_total x y)

pub AllAbove-trans :
    {V : Type 0} (k j : Bytes) (r : List (Bytes × V))
    → bytes_lt k j ≡ true
    → AllAbove j r
    → AllAbove k r
AllAbove-trans k j [] h a = tt
AllAbove-trans k j ((i, v) ∷ r) h a = (bytes_lt_trans k j i h a.0, AllAbove-trans k j r h a.1)

pub above-Holds :
    {V : Type 0} (k j : Bytes) (v : V) (r : List (Bytes × V))
    → AllAbove k r
    → Holds j v r
    → bytes_lt k j ≡ true
above-Holds k j v [] a h = absurd h
above-Holds k j v ((i, w) ∷ r) a (inl e) = ground arith
above-Holds k j v ((i, w) ∷ r) a (inr h) = above-Holds k j v r a.1 h

module _ {V : Type 0} where
  -- Two sorted lists have one first entry if each holds the other's.
  same_head :
      (k j : Bytes) (v w : V) (r t : List (Bytes × V))
      → AllAbove k r
      → AllAbove j t
      → Holds k v ((j, w) ∷ t)
      → Holds j w ((k, v) ∷ r)
      → (k ≡ j) × (v ≡ w)
  same_head k j v w r t a b (inl e) h = e
  same_head k j v w r t a b (inr m) (inl e) = (sym e.0, sym e.1)
  same_head k j v w r t a b (inr m) (inr n) =
      absurd (ground (arith, above-Holds j k v t b m, above-Holds k j w r a n, bytes_lt_asymm j k))

  -- What the tail holds, another list with the same head holds in its tail.
  tail-Holds :
      (k j i : Bytes) (v w u : V) (r t : List (Bytes × V))
      → k ≡ j
      → AllAbove k r
      → Holds i u r
      → Holds i u ((j, w) ∷ t)
      → Holds i u t
  tail-Holds k j i v w u r t e a m (inr n) = n
  tail-Holds k j i v w u r t e a m (inl f) =
      absurd (ground (arith, above-Holds k i u r a m, bytes_lt_irrefl i))

  pub IsSorted-unique :
      (xs ys : List (Bytes × V))
      → IsSorted xs
      → IsSorted ys
      → ((k : Bytes) (v : V) → Holds k v xs ↔ Holds k v ys)
      → xs ≡ ys
  IsSorted-unique [] [] sx sy h = refl
  IsSorted-unique [] ((j, w) ∷ t) sx sy h = absurd ((h j w).1 (inl (refl, refl)))
  IsSorted-unique ((k, v) ∷ r) [] sx sy h = absurd ((h k v).0 (inl (refl, refl)))
  IsSorted-unique ((k, v) ∷ r) ((j, w) ∷ t) sx sy h =
      let head =
        same_head k j v w r t sx.0 sy.0 ((h k v).0 (inl (refl, refl)))
          ((h j w).1 (inl (refl, refl))) in
      let rest = IsSorted-unique r t sx.1 sy.1 λ i u. (
        λ m. tail-Holds k j i v w u r t head.0 sx.0 m ((h i u).0 (inr m)),
        λ m. tail-Holds j k i w v u t r (sym head.0) sy.0 m ((h i u).1 (inr m)),
      ) in
      ground (arith, head, rest)
