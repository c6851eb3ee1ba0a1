-- ===== src/Kv/Redb/Model.antt =====
-- A database that meets the assumptions on the redb crate: each table is a sorted list of rows.
use artifact_depot.Base.{
  ◌≡◌, refl, sym, inl, inr, true, List, [], ◌∷◌, Option, some, none, arith, if◌then◌else◌,
  Bool-cases,
}
use artifact_depot.Base.Bytes.{Bytes, bytes_lt, bytes_eq, bytes_eq_iff}
use artifact_depot.Kv.{in_range, select}
use artifact_depot.Kv.Select.{IsSorted-select, select_sound, select_complete}
use artifact_depot.Kv.Sorted.{
  IsSorted, Holds, AllAbove, AllAbove-trans, above-Holds, bytes_lt_irrefl, bytes_lt_total,
}
use artifact_depot.Kv.Redb.{Redb, RedbLaws}

abbrev pub Rows : Type 0
Rows = List (Bytes × Bytes)

unfoldable pub lookup_row : Bytes → Rows → Option Bytes
lookup_row k [] = none
lookup_row k ((j, w) ∷ r) = if bytes_eq j k then some w else lookup_row k r

unfoldable pub insert_row : Bytes → Bytes → Rows → Rows
insert_row k v [] = (k, v) ∷ []
insert_row k v ((j, w) ∷ r) =
    let rest = insert_row k v r in
    if bytes_lt k j then (k, v) ∷ (j, w) ∷ r else if bytes_eq k j then (k, v) ∷ r else (j, w) ∷ rest

unfoldable pub remove_row : Bytes → Rows → Rows
remove_row k [] = []
remove_row k ((j, w) ∷ r) =
    let rest = remove_row k r in if bytes_eq j k then rest else (j, w) ∷ rest

lookup_row-insert_row :
    (k j v : Bytes) (xs : Rows)
    → lookup_row j (insert_row k v xs) ≡ (if bytes_eq k j then some v else lookup_row j xs)
unfolding lookup_row insert_row
lookup_row-insert_row k j v [] = refl
lookup_row-insert_row k j v ((i, w) ∷ r) =
    ground
      (arith, lookup_row-insert_row k j v r, bytes_eq_iff k j, bytes_eq_iff k i, bytes_eq_iff i j)

lookup_row-remove_row :
    (k j : Bytes) (xs : Rows)
    → lookup_row j (remove_row k xs) ≡ (if bytes_eq k j then none else lookup_row j xs)
unfolding lookup_row remove_row
lookup_row-remove_row k j [] = ground arith
lookup_row-remove_row k j ((i, w) ∷ r) =
    ground
      (arith, lookup_row-remove_row k j r, bytes_eq_iff k j, bytes_eq_iff i k, bytes_eq_iff i j)

AllAbove-insert_row :
    (j k v : Bytes) (xs : Rows)
    → bytes_lt j k ≡ true
    → AllAbove j xs
    → AllAbove j (insert_row k v xs)
unfolding insert_row
AllAbove-insert_row j k v [] h a = (h, tt)
AllAbove-insert_row j k v ((i, w) ∷ r) h a = ground (arith, AllAbove-insert_row j k v r h a.1)

pub IsSorted-insert_row : (k v : Bytes) (xs : Rows) → IsSorted xs → IsSorted (insert_row k v xs)
unfolding insert_row
IsSorted-insert_row k v [] s = (tt, tt)
IsSorted-insert_row k v ((j, w) ∷ r) s = elim (Bool-cases (bytes_lt k j)) [
  | inl lt ↦ rw lt ((lt, AllAbove-trans k j r lt s.0), s)
  | inr ge ↦ rw ge (elim (Bool-cases (bytes_eq k j)) [
    | inl e ↦ rw e (rw ((bytes_eq_iff k j).0 e) s.0, s.1)
    | inr ne ↦ rw ne (
      AllAbove-insert_row j k v r (ground (arith, bytes_lt_total k j, bytes_eq_iff k j)) s.0,
      IsSorted-insert_row k v r s.1,
    )
  ])
]

AllAbove-remove_row : (j k : Bytes) (xs : Rows) → AllAbove j xs → AllAbove j (remove_row k xs)
unfolding remove_row
AllAbove-remove_row j k [] a = tt
AllAbove-remove_row j k ((i, w) ∷ r) a = ground (arith, AllAbove-remove_row j k r a.1)

pub IsSorted-remove_row : (k : Bytes) (xs : Rows) → IsSorted xs → IsSorted (remove_row k xs)
unfolding remove_row
IsSorted-remove_row k [] s = tt
IsSorted-remove_row k ((j, w) ∷ r) s = elim (Bool-cases (bytes_eq j k)) [
  | inl e ↦ rw e (IsSorted-remove_row k r s.1)
  | inr e ↦ rw e (AllAbove-remove_row j k r s.0, IsSorted-remove_row k r s.1)
]

Holds-lookup_row : (k v : Bytes) (xs : Rows) → IsSorted xs → Holds k v xs → lookup_row k xs ≡ some v
unfolding lookup_row
Holds-lookup_row k v [] s h = absurd h
Holds-lookup_row k v ((j, w) ∷ r) s (inl e) = ground (arith, bytes_eq_iff j k)
Holds-lookup_row k v ((j, w) ∷ r) s (inr m) = ground (
  arith,
  Holds-lookup_row k v r s.1 m,
  bytes_eq_iff j k,
  above-Holds j k v r s.0 m,
  bytes_lt_irrefl j,
)

lookup_row-Holds : (k v : Bytes) (xs : Rows) → lookup_row k xs ≡ some v → Holds k v xs
unfolding lookup_row
lookup_row-Holds k v [] h = cc
lookup_row-Holds k v ((j, w) ∷ r) h = elim (Bool-cases (bytes_eq j k)) [
  | inl e ↦ inl (sym ((bytes_eq_iff j k).0 e), ground arith)
  | inr e ↦ inr (lookup_row-Holds k v r (rw e at h))
]

pub record Tables : Type 0 where
  pub rows : Bytes → Rows
  pub sorted : (t : Bytes) → IsSorted (rows t)

-- One table is changed by a function that keeps the order.
change : Bytes → (f : Rows → Rows) → ((xs : Rows) → IsSorted xs → IsSorted (f xs)) → Tables → Tables
change t f keep d = record {
  rows = λ u. if bytes_eq t u then f (d.rows u) else d.rows u;
  sorted = λ u. kept u;
}
  where
    kept : (u : Bytes) → IsSorted (if bytes_eq t u then f (d.rows u) else d.rows u)
    kept u = elim (Bool-cases (bytes_eq t u)) [
      | inl e ↦ rw e (keep (d.rows u) (d.sorted u))
      | inr e ↦ rw e (d.sorted u)
    ]

unfoldable pub tables : Redb
unfolding lookup_row insert_row remove_row change
tables = record {
  Db = Tables;
  get = λ d t k. lookup_row k (d.rows t);
  insert = λ d t k v. change t (insert_row k v) (IsSorted-insert_row k v) d;
  remove = λ d t k. (change t (remove_row k) (IsSorted-remove_row k) d, lookup_row k (d.rows t));
  range = λ d t start end. select (in_range start end) (d.rows t);
}

unfoldable pub no_rows : tables.Db
unfolding tables
no_rows = record { rows = λ t. []; sorted = λ t. tt }

pub tables-RedbLaws : RedbLaws tables
unfolding tables
tables-RedbLaws = record {
  get-insert = λ d t k v u j.
      let at = lookup_row-insert_row k j v (d.rows u) in
      elim (Bool-cases (bytes_eq t u)) [ inl e ↦ rw e (rw at) | inr e ↦ rw e ];
  get-remove = λ d t k u j.
      let at = lookup_row-remove_row k j (d.rows u) in
      elim (Bool-cases (bytes_eq t u)) [ inl e ↦ rw e (rw at) | inr e ↦ rw e ];
  remove_result = λ d t k. refl;
  range-IsSorted = λ d t start end. IsSorted-select _ _ (d.sorted t);
  range-Holds = λ d t start end k v. (
    λ m.
        let h = select_sound (in_range start end) k v (d.rows t) m in
        (h.0, Holds-lookup_row k v (d.rows t) (d.sorted t) h.1),
    λ h.
        select_complete (in_range start end) k v (d.rows t) h.0
          (lookup_row-Holds k v (d.rows t) h.1),
  );
}
