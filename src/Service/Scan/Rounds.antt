-- ===== src/Service/Scan/Rounds.antt =====
-- The rounds of the loop of core/src/service/scan.rs: what is left behind the cursor after a batch.
use artifact_depot.Base.{
  ℕ, zero, suc, ◌<◌, ◌≡◌, refl, ap, sym, ◌∙◌, Bool, true, false, not, ◌&&◌, List, [], ◌∷◌, Option,
  some, none, arith, length, take, drop, Bool-cases, inl, inr, All,
}
use artifact_depot.Base.Bytes.{Bytes, bytes_lt}
use artifact_depot.Kv.{in_range, select}
use artifact_depot.Kv.Sorted.{IsSorted, AllAbove, bytes_lt_irrefl, bytes_lt_trans, bytes_lt_asymm}
use artifact_depot.Kv.Select.{IsSorted-select}
use mathlib.Core.Path.{subst}
use artifact_depot.Service.Scan.{last_key, next_start}

some_eq : {a b : Bytes} → ◌≡◌ {A = Option Bytes} (some a) (some b) → a ≡ b
some_eq h = cc

-- Behind `last_sk` is at or after `last_sk` with a NUL.
pub bytes_lt-next_start : (k l : Bytes) → bytes_lt k (next_start l) ≡ not (bytes_lt l k)
unfolding bytes_lt
bytes_lt-next_start [] [] = refl
bytes_lt-next_start (x ∷ []) [] = ground arith
bytes_lt-next_start (x ∷ y ∷ k) [] = ground arith
bytes_lt-next_start [] (y ∷ l) = refl
bytes_lt-next_start (x ∷ k) (y ∷ l) = ground (arith, bytes_lt-next_start k l)

-- The test of the next round, among the entries of this one.
range_next :
    (start l k : Bytes) (end : Option Bytes)
    → bytes_lt l start ≡ false
    → in_range (next_start l) end k ≡ (in_range start end k && bytes_lt l k)
range_next start l k none h = ground (arith, bytes_lt-next_start k l, bytes_lt_trans l k start)
range_next start l k (some e) h = ground (arith, bytes_lt-next_start k l, bytes_lt_trans l k start)

module _ {V : Type 0} where
  pub select-select :
      (p q : Bytes → Bool) (xs : List (Bytes × V))
      → select q (select p xs) ≡ select (λ k. p k && q k) xs
  select-select p q [] = refl
  select-select p q ((k, v) ∷ r) = ground (arith, select-select p q r)

  select-congr :
      (p q : Bytes → Bool) (xs : List (Bytes × V))
      → ((k : Bytes) → p k ≡ q k)
      → select p xs ≡ select q xs
  select-congr p q [] h = refl
  select-congr p q ((k, v) ∷ r) h = ground (arith, h k, select-congr p q r h)

  select-above : (l : Bytes) (xs : List (Bytes × V)) → AllAbove l xs → select (bytes_lt l) xs ≡ xs
  select-above l [] a = refl
  select-above l ((k, v) ∷ r) a = rw (a.0, select-above l r a.1)

  -- The last key of a batch is not below its first.
  last-take_above :
      (k : Bytes) (b : ℕ) (xs : List (Bytes × V)) (l : Bytes)
      → AllAbove k xs
      → last_key (take b xs) ≡ some l
      → bytes_lt k l ≡ true
  last-take_above k zero xs l a e = cc
  last-take_above k (suc b) [] l a e = cc
  last-take_above k (suc zero) ((j, v) ∷ r) l a e = ground arith
  last-take_above k (suc (suc b)) ((j, v) ∷ []) l a e = ground arith
  last-take_above k (suc (suc b)) ((j, v) ∷ (i, w) ∷ r) l a e =
      last-take_above k (suc b) ((i, w) ∷ r) l a.1 e

  select-last :
      (b : ℕ) (xs : List (Bytes × V)) (l : Bytes)
      → IsSorted xs
      → last_key (take b xs) ≡ some l
      → select (bytes_lt l) xs ≡ drop b xs
  select-last zero xs l s e = cc
  select-last (suc b) [] l s e = refl
  select-last (suc zero) ((j, v) ∷ r) l s e =
      subst (λ x. select (bytes_lt x) ((j, v) ∷ r) ≡ r) (some_eq e)
        (rw (bytes_lt_irrefl j) (select-above j r s.0))
  select-last (suc (suc b)) ((j, v) ∷ []) l s e =
      subst (λ x. select (bytes_lt x) ((j, v) ∷ []) ≡ []) (some_eq e) (rw (bytes_lt_irrefl j))
  select-last (suc (suc b)) ((j, v) ∷ (i, w) ∷ r) l s e =
      rw (bytes_lt_asymm j l (last-take_above j (suc b) ((i, w) ∷ r) l s.0 e))
        (select-last (suc b) ((i, w) ∷ r) l s.1 e)

  -- The last key of a batch is one of the entries, so it is in the range.
  pub last-take_selected :
      (p : Bytes → Bool) (b : ℕ) (xs : List (Bytes × V)) (l : Bytes)
      → last_key (take b (select p xs)) ≡ some l
      → p l ≡ true
  last-take_selected p b xs l e = last_of b (select p xs) (all_selected xs) e
    where
      all_selected : (ys : List (Bytes × V)) → All (λ (x : Bytes × V). p x.0 ≡ true) (select p ys)
      all_selected [] = tt
      all_selected ((k, v) ∷ r) = elim (Bool-cases (p k)) [
        | inl h ↦ rw h (h, all_selected r)
        | inr h ↦ rw h (all_selected r)
      ]

      last_of :
          (n : ℕ) (ys : List (Bytes × V))
          → All (λ (x : Bytes × V). p x.0 ≡ true) ys
          → last_key (take n ys) ≡ some l
          → p l ≡ true
      last_of zero ys a h = cc
      last_of (suc n) [] a h = cc
      last_of (suc zero) ((k, v) ∷ r) a h = ap p (sym (some_eq h)) ∙ a.0
      last_of (suc (suc n)) ((k, v) ∷ []) a h = ap p (sym (some_eq h)) ∙ a.0
      last_of (suc (suc n)) ((k, v) ∷ (i, w) ∷ r) a h = last_of (suc n) ((i, w) ∷ r) a.1 h

  -- After a batch of `b` entries the next round starts behind them.
  pub next_round :
      (start : Bytes) (end : Option Bytes) (b : ℕ) (xs : List (Bytes × V)) (l : Bytes)
      → IsSorted xs
      → last_key (take b (select (in_range start end) xs)) ≡ some l
      → select (in_range (next_start l) end) xs ≡ drop b (select (in_range start end) xs)
  next_round start end b xs l s e =
      let here = last-take_selected (in_range start end) b xs l e in
      select-congr (in_range (next_start l) end) (λ k. in_range start end k && bytes_lt l k) xs
        (λ k. range_next start l k end (ground arith))
      ∙ sym (select-select (in_range start end) (bytes_lt l) xs)
      ∙ select-last b (select (in_range start end) xs) l (IsSorted-select _ xs s) e

  pub last-take-some :
      (b : ℕ) (xs : List (Bytes × V))
      → 0 < b
      → b < length xs
      → (l : Bytes) × (last_key (take b xs) ≡ some l)
  last-take-some zero xs h k = absurd (omega arith)
  last-take-some (suc b) [] h k = absurd (omega arith)
  last-take-some (suc zero) ((j, v) ∷ r) h k = (j, refl)
  last-take-some (suc (suc b)) ((j, v) ∷ []) h k = (j, refl)
  last-take-some (suc (suc b)) ((j, v) ∷ (i, w) ∷ r) h k =
      last-take-some (suc b) ((i, w) ∷ r) (omega arith) (omega arith)
