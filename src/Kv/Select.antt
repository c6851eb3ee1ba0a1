-- ===== src/Kv/Select.antt =====
-- The entries of a sorted list that a test on the keys selects.
use artifact_depot.Base.{◌≡◌, ◌⊎◌, inl, inr, Bool, true, List, [], ◌∷◌, Bool-cases, ap, ◌∙◌}
use artifact_depot.Base.Bytes.{Bytes}
use artifact_depot.Kv.{select}
use artifact_depot.Kv.Sorted.{IsSorted, Holds, AllAbove}

module _ {V : Type 0} (p : Bytes → Bool) where
  AllAbove-select : (k : Bytes) (xs : List (Bytes × V)) → AllAbove k xs → AllAbove k (select p xs)
  AllAbove-select k [] h = tt
  AllAbove-select k ((j, v) ∷ r) h = elim (Bool-cases (p j)) [
    | inl e ↦ rw e (h.0, AllAbove-select k r h.1)
    | inr e ↦ rw e (AllAbove-select k r h.1)
  ]

  pub IsSorted-select : (xs : List (Bytes × V)) → IsSorted xs → IsSorted (select p xs)
  IsSorted-select [] h = tt
  IsSorted-select ((j, v) ∷ r) h = elim (Bool-cases (p j)) [
    | inl e ↦ rw e (AllAbove-select j r h.0, IsSorted-select r h.1)
    | inr e ↦ rw e (IsSorted-select r h.1)
  ]

  pub select_sound :
      (k : Bytes) (v : V) (xs : List (Bytes × V))
      → Holds k v (select p xs)
      → (p k ≡ true) × Holds k v xs
  select_sound k v [] h = absurd h
  select_sound k v ((j, w) ∷ r) h = elim (Bool-cases (p j)) [
    | inl e ↦ here e (select_sound k v r) (rw e at h)
    | inr e ↦ (let m = select_sound k v r (rw e at h) in (m.0, inr m.1))
  ]
    where
      here :
          p j ≡ true
          → (Holds k v (select p r) → (p k ≡ true) × Holds k v r)
          → ((k ≡ j) × (v ≡ w)) ⊎ Holds k v (select p r)
          → (p k ≡ true) × (((k ≡ j) × (v ≡ w)) ⊎ Holds k v r)
      here e ih (inl m) = (ap p m.0 ∙ e, inl m)
      here e ih (inr m) = ((ih m).0, inr (ih m).1)

  pub select_complete :
      (k : Bytes) (v : V) (xs : List (Bytes × V))
      → p k ≡ true
      → Holds k v xs
      → Holds k v (select p xs)
  select_complete k v [] e h = h
  select_complete k v ((j, w) ∷ r) e (inl m) = elim (Bool-cases (p j)) [
    | inl f ↦ rw f (inl m)
    | inr f ↦ absurd (cc (m.0))
  ]
  select_complete k v ((j, w) ∷ r) e (inr m) = elim (Bool-cases (p j)) [
    | inl f ↦ rw f (inr (select_complete k v r e m))
    | inr f ↦ rw f (select_complete k v r e m)
  ]
