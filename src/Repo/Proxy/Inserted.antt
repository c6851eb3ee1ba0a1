-- ===== src/Repo/Proxy/Inserted.antt =====
-- What the merged map of a proxy listing holds after insertions: the first record of each path.
use artifact_depot.Base.{
  ◌≡◌, refl, ◌↔◌, ◌⊎◌, inl, inr, true, false, List, [], ◌∷◌, arith, Bool-cases,
}
use artifact_depot.Base.Bytes.{Bytes, bytes_lt, bytes_eq, bytes_eq_iff}
use artifact_depot.Kv.Sorted.{IsSorted, Holds, above-Holds, bytes_lt_irrefl, bytes_lt_asymm}
use artifact_depot.Repo.Proxy.{or_insert, or_insert_all}
use artifact_depot.Repo.Proxy.Merge.{HasKey, above-HasKey, HasKey-or_insert, IsSorted-or_insert}

module _ {T : Type 0} where
  -- The keys of a map after an insertion.
  HasKey-inserted :
      (k j : Bytes) (w : T) (xs : List (Bytes × T))
      → HasKey k (or_insert j w xs)
      → (k ≡ j) ⊎ HasKey k xs
  unfolding or_insert
  HasKey-inserted k j w [] h = h
  HasKey-inserted k j w ((i, u) ∷ r) h = elim (Bool-cases (bytes_lt j i)) [
    | inl lt ↦ rw lt at h
    | inr ge ↦
        (let h' = rw ge at h in
          elim (Bool-cases (bytes_eq j i)) [
            | inl e ↦ inr (rw e at h')
            | inr ne ↦ later (λ m. HasKey-inserted k j w r m) (rw ne at h')
          ])
  ]
    where
      later :
          (HasKey k (or_insert j w r) → (k ≡ j) ⊎ HasKey k r)
          → (k ≡ i) ⊎ HasKey k (or_insert j w r)
          → (k ≡ j) ⊎ ((k ≡ i) ⊎ HasKey k r)
      later ih (inl e) = inr (inl e)
      later ih (inr m) = elim (ih m) [ inl e ↦ inl e | inr n ↦ inr (inr n) ]

  Holds-kept :
      (k j : Bytes) (v w : T) (xs : List (Bytes × T)) → Holds k v xs → Holds k v (or_insert j w xs)
  unfolding or_insert
  Holds-kept k j v w [] h = absurd h
  Holds-kept k j v w ((i, u) ∷ r) h = elim (Bool-cases (bytes_lt j i)) [
    | inl lt ↦ rw lt (inr h)
    | inr ge ↦ rw ge (elim (Bool-cases (bytes_eq j i)) [
      | inl e ↦ rw e h
      | inr ne ↦ rw ne (later (λ m. Holds-kept k j v w r m) h)
    ])
  ]
    where
      later :
          (Holds k v r → Holds k v (or_insert j w r))
          → ((k ≡ i) × (v ≡ u)) ⊎ Holds k v r
          → ((k ≡ i) × (v ≡ u)) ⊎ Holds k v (or_insert j w r)
      later ih (inl e) = inl e
      later ih (inr m) = inr (ih m)

  Holds-new :
      (j : Bytes) (w : T) (xs : List (Bytes × T)) → (HasKey j xs → ⊥) → Holds j w (or_insert j w xs)
  unfolding or_insert
  Holds-new j w [] new = inl (refl, refl)
  Holds-new j w ((i, u) ∷ r) new = elim (Bool-cases (bytes_lt j i)) [
    | inl lt ↦ rw lt (inl (refl, refl))
    | inr ge ↦ rw ge (elim (Bool-cases (bytes_eq j i)) [
      | inl e ↦ absurd (new (inl ((bytes_eq_iff j i).0 e)))
      | inr ne ↦ rw ne (inr (Holds-new j w r (λ m. new (inr m))))
    ])
  ]

  -- What a sorted map holds after an insertion it held before, or it is the new record of a new key.
  Holds-inserted :
      (k j : Bytes) (v w : T) (xs : List (Bytes × T))
      → IsSorted xs
      → Holds k v (or_insert j w xs)
      → Holds k v xs ⊎ ((HasKey j xs → ⊥) × (k ≡ j) × (v ≡ w))
  unfolding or_insert
  Holds-inserted k j v w [] s (inl e) = inr (λ m. m, e.0, e.1)
  Holds-inserted k j v w [] s (inr m) = absurd m
  Holds-inserted k j v w ((i, u) ∷ r) s h = elim (Bool-cases (bytes_lt j i)) [
    | inl lt ↦ first lt (rw lt at h)
    | inr ge ↦
        (let h' = rw ge at h in
          elim (Bool-cases (bytes_eq j i)) [
            | inl e ↦ inl (rw e at h')
            | inr ne ↦ later ne (λ m. Holds-inserted k j v w r s.1 m) (rw ne at h')
          ])
  ]
    where
      absent : bytes_lt j i ≡ true → HasKey j ((i, u) ∷ r) → ⊥
      absent lt (inl e) = absurd (ground (arith, bytes_lt_irrefl i))
      absent lt (inr m) = absurd (ground (arith, above-HasKey i j r s.0 m, bytes_lt_asymm i j))

      first :
          bytes_lt j i ≡ true
          → ((k ≡ j) × (v ≡ w)) ⊎ Holds k v ((i, u) ∷ r)
          → Holds k v ((i, u) ∷ r) ⊎ ((HasKey j ((i, u) ∷ r) → ⊥) × (k ≡ j) × (v ≡ w))
      first lt (inl e) = inr (absent lt, e.0, e.1)
      first lt (inr m) = inl m

      other : bytes_eq j i ≡ false → (HasKey j r → ⊥) → HasKey j ((i, u) ∷ r) → ⊥
      other ne new (inl e) = absurd (ground (arith, bytes_eq_iff j i))
      other ne new (inr m) = new m

      later :
          bytes_eq j i ≡ false
          → (Holds k v (or_insert j w r) → Holds k v r ⊎ ((HasKey j r → ⊥) × (k ≡ j) × (v ≡ w)))
          → ((k ≡ i) × (v ≡ u)) ⊎ Holds k v (or_insert j w r)
          → Holds k v ((i, u) ∷ r) ⊎ ((HasKey j ((i, u) ∷ r) → ⊥) × (k ≡ j) × (v ≡ w))
      later ne ih (inl e) = inl (inl e)
      later ne ih (inr m) = elim (ih m) [
        | inl n ↦ inl (inr n)
        | inr new ↦ inr (other ne new.0, new.1, new.2)
      ]

  -- The same for the records of a sorted list.
  pub Holds-all :
      (k : Bytes) (v : T) (items xs : List (Bytes × T))
      → IsSorted items
      → IsSorted xs
      → Holds k v (or_insert_all items xs) ↔ (Holds k v xs ⊎ ((HasKey k xs → ⊥) × Holds k v items))
  unfolding or_insert_all
  Holds-all k v [] xs s sx = (λ h. inl h, elim [ inl h ↦ h | inr h ↦ absurd h.1 ])
  Holds-all k v ((j, w) ∷ r) xs s sx =
      let next = or_insert j w xs in
      let ih = Holds-all k v r next s.1 (IsSorted-or_insert j w xs sx) in
      (λ h. there (ih.0 h), λ h. ih.1 (back h))
    where
      there :
          Holds k v (or_insert j w xs) ⊎ ((HasKey k (or_insert j w xs) → ⊥) × Holds k v r)
          → Holds k v xs ⊎ ((HasKey k xs → ⊥) × Holds k v ((j, w) ∷ r))
      there (inl h) = elim (Holds-inserted k j v w xs sx h) [
        | inl m ↦ inl m
        | inr new ↦ inr (rw new.1 new.0, inl (new.1, new.2))
      ]
      there (inr (new, m)) = inr (λ n. new (HasKey-or_insert k j w xs n), inr m)

      distinct : Holds k v r → k ≡ j → ⊥
      distinct m e = absurd (ground (arith, above-Holds j k v r s.0 m, bytes_lt_irrefl j))

      back :
          Holds k v xs ⊎ ((HasKey k xs → ⊥) × (((k ≡ j) × (v ≡ w)) ⊎ Holds k v r))
          → Holds k v (or_insert j w xs) ⊎ ((HasKey k (or_insert j w xs) → ⊥) × Holds k v r)
      back (inl h) = inl (Holds-kept k j v w xs h)
      back (inr (new, inl e)) = inl (rw (e.0, e.1) (Holds-new j w xs (λ n. new (rw e.0 n))))
      back (inr (new, inr m)) =
          inr (λ n. elim (HasKey-inserted k j w xs n) [ inl e ↦ distinct m e | inr o ↦ new o ], m)

  pub HasKey-all :
      (k : Bytes) (items xs : List (Bytes × T))
      → HasKey k (or_insert_all items xs)
      → HasKey k items ⊎ HasKey k xs
  unfolding or_insert_all
  HasKey-all k [] xs h = inr h
  HasKey-all k ((j, w) ∷ r) xs h = later (HasKey-all k r (or_insert j w xs) h)
    where
      later : HasKey k r ⊎ HasKey k (or_insert j w xs) → HasKey k ((j, w) ∷ r) ⊎ HasKey k xs
      later (inl m) = inl (inr m)
      later (inr m) = elim (HasKey-inserted k j w xs m) [ inl e ↦ inl (inl e) | inr n ↦ inr n ]
