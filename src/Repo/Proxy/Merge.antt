-- ===== src/Repo/Proxy/Merge.antt =====
-- The merged map of a proxy listing: a sorted list, in which the first member's record stays.
use artifact_depot.Base.{
  take_all, take-append-drop, length-take, ℕ, zero, suc, ◌≤◌, ◌≡◌, refl, ap, sym, ◌∙◌, ◌⊎◌, inl,
  inr, true, false, List, [], ◌∷◌, ◌++◌, arith, take, drop, length, Bool-cases,
}
use native.Mathlib.Decide.{dec_le}
use artifact_depot.Base.Bytes.{Bytes, bytes_lt, bytes_eq, bytes_eq_iff}
use artifact_depot.Kv.Sorted.{
  IsSorted, AllAbove, AllAbove-trans, bytes_lt_total, bytes_lt_trans, bytes_lt_asymm,
  bytes_lt_irrefl,
}
use artifact_depot.Repo.Proxy.{or_insert, or_insert_all}

module _ {T : Type 0} where
  -- The key is in the list.
  abbrev pub HasKey : Bytes → List (Bytes × T) → Type 0
  HasKey k [] = ⊥
  HasKey k ((j, w) ∷ r) = (k ≡ j) ⊎ HasKey k r

  AllAbove-or_insert :
      (j k : Bytes) (v : T) (xs : List (Bytes × T))
      → bytes_lt j k ≡ true
      → AllAbove j xs
      → AllAbove j (or_insert k v xs)
  unfolding or_insert
  AllAbove-or_insert j k v [] h a = (h, tt)
  AllAbove-or_insert j k v ((i, w) ∷ r) h a = ground (arith, AllAbove-or_insert j k v r h a.1)

  pub IsSorted-or_insert :
      (k : Bytes) (v : T) (xs : List (Bytes × T)) → IsSorted xs → IsSorted (or_insert k v xs)
  unfolding or_insert
  IsSorted-or_insert k v [] s = (tt, tt)
  IsSorted-or_insert k v ((j, w) ∷ r) s = elim (Bool-cases (bytes_lt k j)) [
    | inl lt ↦ rw lt ((lt, AllAbove-trans k j r lt s.0), s)
    | inr ge ↦ rw ge (elim (Bool-cases (bytes_eq k j)) [
      | inl e ↦ rw e s
      | inr ne ↦ rw ne (
        AllAbove-or_insert j k v r (ground (arith, bytes_lt_total k j, bytes_eq_iff k j)) s.0,
        IsSorted-or_insert k v r s.1,
      )
    ])
  ]

  pub HasKey-or_insert_self :
      (k : Bytes) (v : T) (xs : List (Bytes × T)) → HasKey k (or_insert k v xs)
  unfolding or_insert
  HasKey-or_insert_self k v [] = inl refl
  HasKey-or_insert_self k v ((j, w) ∷ r) = elim (Bool-cases (bytes_lt k j)) [
    | inl lt ↦ rw lt (inl refl)
    | inr ge ↦ rw ge (elim (Bool-cases (bytes_eq k j)) [
      | inl e ↦ rw e (inl ((bytes_eq_iff k j).0 e))
      | inr ne ↦ rw ne (inr (HasKey-or_insert_self k v r))
    ])
  ]

  pub HasKey-or_insert :
      (i k : Bytes) (v : T) (xs : List (Bytes × T)) → HasKey i xs → HasKey i (or_insert k v xs)
  unfolding or_insert
  HasKey-or_insert i k v [] h = absurd h
  HasKey-or_insert i k v ((j, w) ∷ r) h = elim (Bool-cases (bytes_lt k j)) [
    | inl lt ↦ rw lt (inr h)
    | inr ge ↦ rw ge (elim (Bool-cases (bytes_eq k j)) [
      | inl e ↦ rw e h
      | inr ne ↦ rw ne (keep h (HasKey-or_insert i k v r))
    ])
  ]
    where
      keep :
          (i ≡ j) ⊎ HasKey i r
          → (HasKey i r → HasKey i (or_insert k v r))
          → (i ≡ j) ⊎ HasKey i (or_insert k v r)
      keep (inl e) ih = inl e
      keep (inr m) ih = inr (ih m)

  pub above-HasKey :
      (k i : Bytes) (xs : List (Bytes × T)) → AllAbove k xs → HasKey i xs → bytes_lt k i ≡ true
  above-HasKey k i [] a h = absurd h
  above-HasKey k i ((j, w) ∷ r) a (inl e) = rw e a.0
  above-HasKey k i ((j, w) ∷ r) a (inr m) = above-HasKey k i r a.1 m

  take-take : (m n : ℕ) (xs : List (Bytes × T)) → m ≤ n → take m (take n xs) ≡ take m xs
  take-take zero n xs h = refl
  take-take (suc m) zero xs h = absurd (omega arith)
  take-take (suc m) (suc n) [] h = refl
  take-take (suc m) (suc n) (x ∷ xs) h = ap (λ r. x ∷ r) (take-take m n xs (omega arith))

  take-cons_take :
      (n : ℕ) (x : Bytes × T) (xs : List (Bytes × T)) → take n (x ∷ take n xs) ≡ take n (x ∷ xs)
  take-cons_take zero x xs = refl
  take-cons_take (suc n) x xs = ap (λ r. x ∷ r) (take-take n (suc n) xs (omega arith))

  -- The first entries of a map do not depend on what stood behind them.
  pub take-or_insert :
      (n : ℕ) (k : Bytes) (v : T) (xs : List (Bytes × T))
      → take n (or_insert k v xs) ≡ take n (or_insert k v (take n xs))
  unfolding or_insert
  take-or_insert zero k v xs = refl
  take-or_insert (suc n) k v [] = refl
  take-or_insert (suc n) k v ((j, w) ∷ r) = elim (Bool-cases (bytes_lt k j)) [
    | inl lt ↦ rw lt (ap (λ t. (k, v) ∷ t) (sym (take-cons_take n (j, w) r)))
    | inr ge ↦ rw ge (elim (Bool-cases (bytes_eq k j)) [
      | inl e ↦ rw e (ap (λ t. (j, w) ∷ t) (sym (take-take n n r (omega arith))))
      | inr ne ↦ rw ne (ap (λ t. (j, w) ∷ t) (take-or_insert n k v r))
    ])
  ]

  -- A record whose key lies behind `n` entries does not show among the first `n`.
  pub take-or_insert_late :
      (n : ℕ) (k : Bytes) (v : T) (below xs : List (Bytes × T))
      → n ≤ length below
      → IsSorted below
      → ((i : Bytes) → HasKey i below → HasKey i xs)
      → IsSorted xs
      → ((i : Bytes) → HasKey i below → bytes_lt i k ≡ true)
      → take n (or_insert k v xs) ≡ take n xs
  unfolding or_insert
  take-or_insert_late zero k v below xs h sb within sx lower = refl
  take-or_insert_late (suc n) k v [] xs h sb within sx lower = absurd (omega arith)
  take-or_insert_late (suc n) k v ((i, b) ∷ bs) [] h sb within sx lower =
      absurd (within i (inl refl))
  take-or_insert_late (suc n) k v ((i, b) ∷ bs) ((j, w) ∷ r) h sb within sx lower =
      rw (bytes_lt_asymm j k (first (within i (inl refl))), distinct (first (within i (inl refl))))
        (ap (λ t. (j, w) ∷ t)
          (take-or_insert_late n k v bs r (omega arith) sb.1
            (λ x m. rest x (above-HasKey i x bs sb.0 m) (within i (inl refl)) (within x (inr m)))
            sx.1 (λ x m. lower x (inr m))))
    where
      first : (i ≡ j) ⊎ HasKey i r → bytes_lt j k ≡ true
      first (inl e) = rw (← e) (lower i (inl refl))
      first (inr m) = bytes_lt_trans j i k (above-HasKey j i r sx.0 m) (lower i (inl refl))

      distinct : bytes_lt j k ≡ true → bytes_eq k j ≡ false
      distinct lt = ground (arith, bytes_eq_iff k j, bytes_lt_irrefl j)

      rest :
          (x : Bytes)
          → bytes_lt i x ≡ true
          → (i ≡ j) ⊎ HasKey i r
          → (x ≡ j) ⊎ HasKey x r
          → HasKey x r
      rest x lt at (inr m) = m
      rest x lt (inl e) (inl f) = absurd (ground (arith, bytes_lt_irrefl j))
      rest x lt (inr m) (inl f) =
          absurd (ground (arith, above-HasKey j i r sx.0 m, bytes_lt_asymm j i))

  pub IsSorted-or_insert_all :
      (items xs : List (Bytes × T)) → IsSorted xs → IsSorted (or_insert_all items xs)
  unfolding or_insert_all
  IsSorted-or_insert_all [] xs s = s
  IsSorted-or_insert_all ((k, v) ∷ r) xs s =
      IsSorted-or_insert_all r (or_insert k v xs) (IsSorted-or_insert k v xs s)

  -- Maps that agree on the first `n` entries still do after the same insertions.
  pub take-or_insert_all :
      (n : ℕ) (items xs ys : List (Bytes × T))
      → take n xs ≡ take n ys
      → take n (or_insert_all items xs) ≡ take n (or_insert_all items ys)
  unfolding or_insert_all
  take-or_insert_all n [] xs ys h = h
  take-or_insert_all n ((k, v) ∷ r) xs ys h =
      take-or_insert_all n r (or_insert k v xs) (or_insert k v ys) (
        take-or_insert n k v xs
        ∙ ap (λ t. take n (or_insert k v t)) h
        ∙ sym (take-or_insert n k v ys))

  -- Entries behind the first `n` of a sorted list, all of them inserted, do not show.
  late_all :
      (n : ℕ) (below items xs : List (Bytes × T))
      → n ≤ length below
      → IsSorted below
      → ((i : Bytes) → HasKey i below → HasKey i xs)
      → IsSorted xs
      → ((i j : Bytes) → HasKey i below → HasKey j items → bytes_lt i j ≡ true)
      → take n (or_insert_all items xs) ≡ take n xs
  unfolding or_insert_all
  late_all n below [] xs h sb within sx lower = refl
  late_all n below ((k, v) ∷ r) xs h sb within sx lower =
      late_all n below r (or_insert k v xs) h sb (λ i m. HasKey-or_insert i k v xs (within i m))
        (IsSorted-or_insert k v xs sx) (λ i j m p. lower i j m (inr p))
      ∙ take-or_insert_late n k v below xs h sb within sx (λ i m. lower i k m (inl refl))

  pub HasKey-or_insert_all :
      (i : Bytes) (items xs : List (Bytes × T)) → HasKey i xs → HasKey i (or_insert_all items xs)
  unfolding or_insert_all
  HasKey-or_insert_all i [] xs h = h
  HasKey-or_insert_all i ((k, v) ∷ r) xs h =
      HasKey-or_insert_all i r (or_insert k v xs) (HasKey-or_insert i k v xs h)

  pub items-HasKey :
      (i : Bytes) (items xs : List (Bytes × T)) → HasKey i items → HasKey i (or_insert_all items xs)
  unfolding or_insert_all
  items-HasKey i [] xs h = absurd h
  items-HasKey i ((k, v) ∷ r) xs (inl e) =
      HasKey-or_insert_all i r (or_insert k v xs) (rw e (HasKey-or_insert_self k v xs))
  items-HasKey i ((k, v) ∷ r) xs (inr m) = items-HasKey i r (or_insert k v xs) m

  or_insert_all-append :
      (a b xs : List (Bytes × T)) → or_insert_all (a ++ b) xs ≡ or_insert_all b (or_insert_all a xs)
  unfolding or_insert_all
  or_insert_all-append [] b xs = refl
  or_insert_all-append ((k, v) ∷ a) b xs = or_insert_all-append a b (or_insert k v xs)

  IsSorted-take : (n : ℕ) (xs : List (Bytes × T)) → IsSorted xs → IsSorted (take n xs)
  IsSorted-take zero xs s = tt
  IsSorted-take (suc n) [] s = tt
  IsSorted-take (suc n) ((k, v) ∷ r) s = (above n r s.0, IsSorted-take n r s.1)
    where
      above : (m : ℕ) (ys : List (Bytes × T)) → AllAbove k ys → AllAbove k (take m ys)
      above zero ys a = tt
      above (suc m) [] a = tt
      above (suc m) ((j, w) ∷ ys) a = (a.0, above m ys a.1)

  split_lower :
      (n : ℕ) (xs : List (Bytes × T)) (i j : Bytes)
      → IsSorted xs
      → HasKey i (take n xs)
      → HasKey j (drop n xs)
      → bytes_lt i j ≡ true
  split_lower zero xs i j s hi hj = absurd hi
  split_lower (suc n) [] i j s hi hj = absurd hi
  split_lower (suc n) ((k, v) ∷ r) i j s (inl e) hj = rw e (above-HasKey k j r s.0 (behind n r hj))
    where
      behind : (m : ℕ) (ys : List (Bytes × T)) → HasKey j (drop m ys) → HasKey j ys
      behind zero ys h = h
      behind (suc m) [] h = h
      behind (suc m) (y ∷ ys) h = inr (behind m ys h)
  split_lower (suc n) ((k, v) ∷ r) i j s (inr m) hj = split_lower n r i j s.1 m hj

  -- The first `n` entries of a member are all that the first `n` of the map depend on.
  pub take-or_insert_all-take :
      (n : ℕ) (items xs : List (Bytes × T))
      → IsSorted items
      → IsSorted xs
      → take n (or_insert_all (take n items) xs) ≡ take n (or_insert_all items xs)
  take-or_insert_all-take n items xs s sx = elim (dec_le (length items) n) [
    | yes short ↦ rw (take_all n items short)
    | no long ↦
        (let fits : n ≤ length items = omega arith in
          sym (
            ap (λ t. take n (or_insert_all t xs)) (sym (take-append-drop n items))
            ∙ ap (take n) (or_insert_all-append (take n items) (drop n items) xs)
            ∙ late_all n (take n items) (drop n items) (or_insert_all (take n items) xs)
                (omega (arith, length-take {0} n items fits)) (IsSorted-take n items s)
                (λ i m. items-HasKey i (take n items) xs m)
                (IsSorted-or_insert_all (take n items) xs sx)
                (λ i j m p. split_lower n items i j s m p)))
  ]
