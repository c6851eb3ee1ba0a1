-- ===== src/Gc/Shard/Returns.antt =====
-- The loop over a partition ends, where entries are only removed meanwhile.
use artifact_depot.Base.{
  ℕ, zero, suc, ◌≤◌, ◌<◌, ◌≡◌, refl, ap, inl, inr, true, false, List, [], ◌∷◌, Option, some, none,
  arith, leb, length, take, length-drop, Bool-cases,
}
use artifact_depot.Base.Bytes.{Bytes, bytes_lt}
use artifact_depot.Keys.Tree.{NulFree}
use artifact_depot.Kv.{KvStore, KvLaws, in_range, select}
use artifact_depot.Kv.Sorted.{IsSorted, AllAbove-trans, Holds, above-Holds, bytes_lt_irrefl}
use artifact_depot.Kv.Select.{IsSorted-select, select_sound, select_complete}
use artifact_depot.Service.Error.{Result, ok, err}
use artifact_depot.Service.Scan.{last_key, next_start}
use artifact_depot.Service.Scan.Rounds.{next_round, last-take-some}
use artifact_depot.Service.Scan.Complete.{length-select}
use artifact_depot.Gc.Shard.{shard_loop, shard_round_end, shard_batch_size}

module _ {V : Type 0} where
  behind_head :
      (i j : Bytes) (x w : V) (t : List (Bytes × V))
      → bytes_lt j i ≡ true
      → Holds i x ((j, w) ∷ t)
      → Holds i x t
  behind_head i j x w t less (inl e) = absurd (ground (arith, bytes_lt_irrefl i))
  behind_head i j x w t less (inr m) = m

  -- A sorted list is no longer than another that holds all of it.
  pub length-le-of_Holds :
      (xs ys : List (Bytes × V))
      → IsSorted xs
      → IsSorted ys
      → ((k : Bytes) (v : V) → Holds k v xs → Holds k v ys)
      → length xs ≤ length ys
  length-le-of_Holds [] ys s t h = omega arith
  length-le-of_Holds ((k, v) ∷ r) [] s t h = absurd (h k v (inl (refl, refl)))
  length-le-of_Holds ((k, v) ∷ r) ((j, w) ∷ t) s u h = elim (h k v (inl (refl, refl))) [
    | inl e ↦ omega (
      arith,
      length-le-of_Holds r t s.1 u.1
          (λ i x m. behind_head i j x w t (rw (← e.0) (above-Holds k i x r s.0 m)) (h i x (inr m))),
    )
    | inr m ↦ omega (
      arith,
      length-le-of_Holds ((k, v) ∷ r) t s u.1 (λ i x n.
          behind_head i j x w t
            (above-Holds j i x ((k, v) ∷ r)
              (let less = above-Holds j k v t u.0 m in (less, AllAbove-trans j k r less s.0)) n)
            (h i x n)),
    )
  ]

module _ {V : Type 0} (kv : KvStore V) where
  -- Nothing is in the table of the second store that is not in that of the first.
  abbrev pub Shrinks : Bytes → kv.State → kv.State → Type 0
  Shrinks table s s' =
      (pk sk : Bytes) (v : V)
      → NulFree pk
      → kv.get s' (record { table = table; pk = pk; sk = sk }) ≡ some v
      → kv.get s (record { table = table; pk = pk; sk = sk }) ≡ some v

  -- The entries of a partition, fewer than the fuel.
  abbrev pub FitsIn : ℕ → Bytes → Bytes → kv.State → Type 0
  FitsIn fuel table pk s = length (kv.entries s table pk) < fuel

module _ {V : Type 0} (kv : KvStore V) (laws : KvLaws kv) where
  -- What is left behind a cursor is no more after a removal.
  left-le :
      (s s' : kv.State) (table pk start : Bytes)
      → NulFree pk
      → Shrinks kv table s s'
      → length (select (in_range start none) (kv.entries s' table pk))
        ≤ length (select (in_range start none) (kv.entries s table pk))
  left-le s s' table pk start h smaller =
      length-le-of_Holds _ _
        (IsSorted-select (in_range start none) _ (laws.entries-IsSorted s' table pk))
        (IsSorted-select (in_range start none) _ (laws.entries-IsSorted s table pk))
        (λ k v m.
          let (within, held) = select_sound (in_range start none) k v (kv.entries s' table pk) m in
          select_complete (in_range start none) k v (kv.entries s table pk) within (
            (laws.entries-Holds s table pk k v).1
              (smaller pk k v h ((laws.entries-Holds s' table pk k v).0 held))))

  pub Shrinks-FitsIn :
      (fuel : ℕ) (s s' : kv.State) (table pk : Bytes)
      → NulFree pk
      → Shrinks kv table s s'
      → FitsIn kv fuel table pk s
      → FitsIn kv fuel table pk s'
  Shrinks-FitsIn fuel s s' table pk h smaller fits = omega (
    arith,
    length-le-of_Holds (kv.entries s' table pk) (kv.entries s table pk)
        (laws.entries-IsSorted s' table pk) (laws.entries-IsSorted s table pk)
        (λ k v m.
          (laws.entries-Holds s table pk k v).1
            (smaller pk k v h ((laws.entries-Holds s' table pk k v).0 m))),
  )

  pub Shrinks-trans :
      (table : Bytes) (s t u : kv.State)
      → Shrinks kv table s t
      → Shrinks kv table t u
      → Shrinks kv table s u
  Shrinks-trans table s t u h h' = λ pk sk v f g. h pk sk v f (h' pk sk v f g)

  module _ (table pk : Bytes) (free : NulFree pk) {A : Type 0}
      (others between : ℕ → kv.State → kv.State)
      (body : List (Bytes × V) → kv.State → A → kv.State × A)
      (others-Shrinks : (n : ℕ) (s : kv.State) → Shrinks kv table s (others n s))
      (between-Shrinks : (n : ℕ) (s : kv.State) → Shrinks kv table s (between n s))
      (body-Shrinks : (items : List (Bytes × V)) (s : kv.State) (a : A)
        → Shrinks kv table s (body items s a).0) where
    abbrev loop : ℕ → Bytes → kv.State → A → Option (kv.State × Result A)
    loop = λ fuel start s a. shard_loop kv others between (λ n. false) body fuel table pk start s a

    abbrev Returned : kv.State → Option (kv.State × Result A) → Type 0
    Returned s none = ⊥
    Returned s (some (s', err e)) = ⊥
    Returned s (some (s', ok a)) = Shrinks kv table s s'

    Returned-trans :
        (s t : kv.State) (r : Option (kv.State × Result A))
        → Shrinks kv table s t
        → Returned t r
        → Returned s r
    Returned-trans s t none h r = r
    Returned-trans s t (some (s', err e)) h r = r
    Returned-trans s t (some (s', ok a)) h r = λ pk sk v f g. h pk sk v f (r pk sk v f g)

    abbrev from : kv.State → Bytes → List (Bytes × V)
    from s start = select (in_range start none) (kv.entries s table pk)

    -- A round, where the rounds behind it return.
    module _ (fuel : ℕ)
        (rest : (l : Bytes) (s : kv.State) (a : A)
          → length (from s (next_start l)) < fuel
          → Returned s (loop fuel (next_start l) s a)) where
      round :
          (start : Bytes) (seen : kv.State) (a : A)
          → length (from seen start) ≤ fuel
          → Returned seen (
              shard_round_end
                (body (take shard_batch_size (from seen start)) (between fuel seen) a)
                (leb (length (from seen start)) shard_batch_size)
                (last_key (take shard_batch_size (from seen start)))
                (λ last_sk s' a'. loop fuel (next_start last_sk) s' a'))
      round start seen a few = elim (Bool-cases (leb (length (from seen start)) shard_batch_size)) [
        | inl done ↦ rw done smaller
        | inr long ↦
            let (l, e) =
              last-take-some shard_batch_size (from seen start) (omega arith) (ground arith) in
            let behind =
              next_round start none shard_batch_size (kv.entries seen table pk) l
                (laws.entries-IsSorted seen table pk) e in
            let fewer = left-le seen w.0 table pk (next_start l) free smaller in
            rw (long, e)
              (Returned-trans seen w.0 (loop fuel (next_start l) w.0 w.1) smaller (
                rest l w.0 w.1 (
                  omega (
                    arith,
                    fewer,
                    ap (length {A = Bytes × V}) behind,
                    length-drop shard_batch_size (from seen start),
                    longer long,
                  ))))
      ]
        where
          w : kv.State × A
          w = body (take shard_batch_size (from seen start)) (between fuel seen) a

          smaller : Shrinks kv table seen w.0
          smaller =
              Shrinks-trans table seen (between fuel seen) w.0 (between-Shrinks fuel seen)
                (body-Shrinks (take shard_batch_size (from seen start)) (between fuel seen) a)

          longer :
              leb (length (from seen start)) shard_batch_size ≡ false
              → shard_batch_size < length (from seen start)
          longer h = ground arith

    returns :
        (fuel : ℕ) (start : Bytes) (s : kv.State) (a : A)
        → length (from s start) < fuel
        → Returned s (loop fuel start s a)
    unfolding shard_loop
    returns zero start s a h = absurd (omega arith)
    returns (suc fuel) start s a h =
        let seen = others fuel s in
        let few = left-le s seen table pk start free (others-Shrinks fuel s) in
        rw laws.scan_range_lem (
          Returned-trans s seen _ (others-Shrinks fuel s) (
            round fuel (λ l s' a'. returns fuel (next_start l) s' a') start seen a
              (omega (arith, few))))

    -- The loop returns, and entries are only removed.
    pub shard_loop-returns :
        (fuel : ℕ) (start : Bytes) (s : kv.State) (a : A)
        → FitsIn kv fuel table pk s
        → (s' : kv.State) × (a' : A) × (shard_loop kv others between
              (λ n. false)
              body
              fuel
              table
              pk
              start
              s
              a
            ≡ some (s', ok a'))
          × Shrinks kv table s s'
    shard_loop-returns fuel start s a fits = opened (loop fuel start s a) (
        returns fuel start s a
          (omega (arith, length-select (in_range start none) (kv.entries s table pk))))
      where
        opened :
            (r : Option (kv.State × Result A))
            → Returned s r
            → (s' : kv.State) × (a' : A) × (r ≡ some (s', ok a')) × Shrinks kv table s s'
        opened none h = absurd h
        opened (some (s', err e)) h = absurd h
        opened (some (s', ok a')) h = (s', a', refl, h)
