-- ===== src/Update/Stats/Sums.antt =====
-- Sums of the numbers of a store, and what is pending for it.
use artifact_depot.Base.{
  ℕ, ◌+◌, ◌%◌, leb, ltb, arith, ◌≡◌, refl, ap, false, [], ◌∷◌, Option, some, none, if◌then◌else◌,
  Bool-cases, inl, inr,
}
use artifact_depot.Base.Bytes.{Bytes, bytes_eq, bytes_eq_iff}
use artifact_depot.Update.Deltas.{upsert}
use artifact_depot.Update.Words.{add_i64, max_0}
use artifact_depot.Update.Stats.{Pending, add_pending}

-- A sum of words of 64 bits, or 0 where it is negative as a signed word.
abbrev pub sum_cut : ℕ → ℕ → ℕ
sum_cut a b =
    let sum = (a + b) % 18446744073709551616 in if ltb sum 9223372036854775808 then sum else 0

pub max_0-add_i64 : (a b : ℕ) → max_0 (add_i64 a b) ≡ sum_cut a b
unfolding max_0 add_i64
max_0-add_i64 a b = cut ((a + b) % 18446744073709551616)
  where
    cut :
        (n : ℕ)
        → (if leb 9223372036854775808 n then 0 else n)
          ≡ (if ltb n 9223372036854775808 then n else 0)
    cut n = ground arith

-- What is pending for a store.
abbrev pub pending_of : Bytes → Pending → Option (ℕ × ℕ)
pending_of store [] = none
pending_of store ((k, e) ∷ pending) = if bytes_eq k store then some e else pending_of store pending

abbrev pub plus_words : ℕ → ℕ → Option (ℕ × ℕ) → ℕ × ℕ
plus_words count size none = ((0 + count) % 18446744073709551616, (0 + size) % 18446744073709551616)
plus_words count size (some (c, b)) =
    ((c + count) % 18446744073709551616, (b + size) % 18446744073709551616)

module _ (store : Bytes) (count size : ℕ) where
  pub add_pending-own :
      (pending : Pending)
      → pending_of store (add_pending store count size pending)
        ≡ some (plus_words count size (pending_of store pending))
  unfolding add_pending upsert add_i64
  add_pending-own [] = rw ((bytes_eq_iff store store).1 refl) refl
  add_pending-own ((k, (c, b)) ∷ pending) = elim (Bool-cases (bytes_eq k store)) [
    | inl e ↦ rw (e, e) refl
    | inr ne ↦ rw (ne, ne) (add_pending-own pending)
  ]

  pub add_pending-other :
      (pending : Pending) (other : Bytes)
      → bytes_eq store other ≡ false
      → pending_of other (add_pending store count size pending) ≡ pending_of other pending
  unfolding add_pending upsert
  add_pending-other [] other ne = rw ne refl
  add_pending-other ((k, e) ∷ pending) other ne = elim (Bool-cases (bytes_eq k store)) [
    | inl same ↦ rw (same, (bytes_eq_iff k store).0 same, ne) refl
    | inr differs ↦
        rw differs
          (ap (λ x. if bytes_eq k other then some e else x) (add_pending-other pending other ne))
  ]
