-- ===== src/Gc/Shard/Reaches.antt =====
-- A record that stays in place is in a batch of the loop over its partition.
use artifact_depot.Base.{
  ℕ, zero, suc, ◌≡◌, refl, ◌⊎◌, inl, inr, Bool, true, false, not, List, [], ◌∷◌, ◌++◌, Option, some,
  none, arith, leb, length, take, drop, take_all, take-append-drop, Bool-cases,
}
use mathlib.Core.Path.{subst}
use artifact_depot.Base.Bytes.{Bytes, bytes_lt}
use artifact_depot.Keys.Shard.{KeyTriple}
use artifact_depot.Kv.{KvStore, KvLaws, in_range, select}
use artifact_depot.Kv.Sorted.{Holds}
use artifact_depot.Kv.Select.{select_sound, select_complete}
use artifact_depot.Service.Error.{Result, ok, err}
use artifact_depot.Service.Scan.{last_key, next_start}
use artifact_depot.Service.Scan.Rounds.{next_round, last-take-some}
use artifact_depot.Gc.Shard.{shard_loop, shard_round_end, shard_batch_size}

module _ {V : Type 0} where
  pub Holds-append :
      (k : Bytes) (v : V) (xs ys : List (Bytes × V))
      → Holds k v (xs ++ ys)
      → Holds k v xs ⊎ Holds k v ys
  Holds-append k v [] ys h = inr h
  Holds-append k v ((j, w) ∷ xs) ys (inl e) = inl (inl e)
  Holds-append k v ((j, w) ∷ xs) ys (inr h) = elim (Holds-append k v xs ys h) [
    | inl m ↦ inl (inr m)
    | inr m ↦ inr m
  ]

  pub Holds-take :
      (k : Bytes) (v : V) (n : ℕ) (xs : List (Bytes × V)) → Holds k v (take n xs) → Holds k v xs
  Holds-take k v zero xs h = absurd h
  Holds-take k v (suc n) [] h = absurd h
  Holds-take k v (suc n) ((j, w) ∷ xs) (inl e) = inl e
  Holds-take k v (suc n) ((j, w) ∷ xs) (inr h) = inr (Holds-take k v n xs h)

-- From the cursor on.
in_range-from : (start k : Bytes) → in_range start none k ≡ not (bytes_lt k start)
in_range-from start k = ground arith

not_before :
    (k l : Bytes) → in_range (next_start l) none k ≡ true → bytes_lt k (next_start l) ≡ false
not_before k l h = ground arith

module _ {V : Type 0} (kv : KvStore V) (laws : KvLaws kv) (table pk : Bytes) where
  abbrev pub at : Bytes → KeyTriple
  at sk = record { table = table; pk = pk; sk = sk }

  -- What is left of the partition from the cursor on.
  abbrev pub left : kv.State → Bytes → List (Bytes × V)
  left s start = select (in_range start none) (kv.entries s table pk)

  -- Every item of a batch is in the partition.
  pub batch-get :
      (s : kv.State) (start sk : Bytes) (v : V)
      → Holds sk v (take shard_batch_size (left s start))
      → kv.get s (at sk) ≡ some v
  batch-get s start sk v h =
      (laws.entries-Holds s table pk sk v).0
        (select_sound (in_range start none) sk v (kv.entries s table pk)
          (Holds-take sk v shard_batch_size (left s start) h)).1

module _ {V A : Type 0} (kv : KvStore V) (laws : KvLaws kv)
    (others between : ℕ → kv.State → kv.State) (cancelled : ℕ → Bool)
    (body : List (Bytes × V) → kv.State → A → kv.State × A) (table pk : Bytes) where
  module _ (sk : Bytes) (v : V) (Alive : kv.State → Type 0) (Q : A → Type 0)
      (there : (s : kv.State) → Alive s → kv.get s (at kv laws table pk sk) ≡ some v)
      (others-Alive : (n : ℕ) (s : kv.State) → Alive s → Alive (others n s))
      (between-Alive : (n : ℕ) (s : kv.State) → Alive s → Alive (between n s))
      (body-Alive : (items : List (Bytes × V)) (s t : kv.State) (a : A)
        → ((j : Bytes) (w : V) → Holds j w items → kv.get s (at kv laws table pk j) ≡ some w)
        → Alive s
        → Alive t
        → Alive (body items t a).0)
      (body-hits : (items : List (Bytes × V)) (t : kv.State) (a : A)
        → Alive t
        → Holds sk v items
        → Q (body items t a).1)
      (body-keeps : (items : List (Bytes × V)) (t : kv.State) (a : A)
        → Alive t
        → Q a
        → Q (body items t a).1) where
    abbrev Ends : kv.State × Result A → Type 0
    Ends (s, err e) = Unit
    Ends (s, ok a) = Q a × Alive s

    abbrev EndsIn : Option (kv.State × Result A) → Type 0
    EndsIn none = Unit
    EndsIn (some r) = Ends r

    -- The record is in the batch, or behind its last key.
    in_batch :
        (s : kv.State) (start : Bytes)
        → Alive s
        → bytes_lt sk start ≡ false
        → Holds sk v (take shard_batch_size (left kv laws table pk s start))
          ⊎ ((leb (length (left kv laws table pk s start)) shard_batch_size ≡ false)
              × ((l : Bytes)
                  → last_key (take shard_batch_size (left kv laws table pk s start)) ≡ some l
                  → bytes_lt sk (next_start l) ≡ false))
    in_batch s start alive behind =
        let all = kv.entries s table pk in
        let rest = left kv laws table pk s start in
        let held : Holds sk v rest =
          select_complete (in_range start none) sk v all (rw (in_range-from start sk, behind) refl)
            ((laws.entries-Holds s table pk sk v).1 (there s alive)) in
        elim (Bool-cases (leb (length rest) shard_batch_size)) [
          | inl short ↦ inl (rw (take_all shard_batch_size rest (ground arith)) held)
          | inr long ↦
              elim (Holds-append sk v (take shard_batch_size rest) (drop shard_batch_size rest)
                (rw (take-append-drop shard_batch_size rest) held)) [
                  | inl here ↦ inl here
                  | inr later ↦ inr (
                    long,
                    λ l e.
                        not_before sk l
                          (select_sound (in_range (next_start l) none) sk v all (
                            rw
                              (next_round start none shard_batch_size all l
                                (laws.entries-IsSorted s table pk) e)
                              later)).0,
                  )
                ]
        ]

    abbrev loop : ℕ → Bytes → kv.State → A → Option (kv.State × Result A)
    loop fuel start s a = shard_loop kv others between cancelled body fuel table pk start s a

    abbrev Reached : Bytes → A → Type 0
    Reached start a = Q a ⊎ (bytes_lt sk start ≡ false)

    -- The end of a round, where the rounds behind it do what they should.
    module _ (fuel : ℕ)
        (rest : (l : Bytes) (s : kv.State) (a : A)
          → Alive s
          → Reached (next_start l) a
          → EndsIn (loop fuel (next_start l) s a)) where
      abbrev RoundEnds : kv.State × A → Bool → Option Bytes → Type 0
      RoundEnds w done last =
          EndsIn
            (shard_round_end w done last (λ last_sk s' a'. loop fuel (next_start last_sk) s' a'))

      after :
          (w : kv.State × A) (done : Bool) (last : Option Bytes)
          → Q w.1
          → Alive w.0
          → RoundEnds w done last
      after w true last q alive = (q, alive)
      after w false none q alive = (q, alive)
      after w false (some l) q alive = rest l w.0 w.1 alive (inl q)

      round :
          (start : Bytes) (s : kv.State) (a : A)
          → Alive s
          → Reached start a
          → let seen = others fuel s in
            let items = take shard_batch_size (left kv laws table pk seen start) in
            RoundEnds
              (body items (between fuel seen) a)
              (leb (length (left kv laws table pk seen start)) shard_batch_size)
              (last_key items)
      round start s a alive reached = ended reached
        where
          seen : kv.State
          seen = others fuel s

          items : List (Bytes × V)
          items = take shard_batch_size (left kv laws table pk seen start)

          alive' : Alive seen
          alive' = others-Alive fuel s alive

          alive'' : Alive (between fuel seen)
          alive'' = between-Alive fuel seen alive'

          w : kv.State × A
          w = body items (between fuel seen) a

          next_alive : Alive w.0
          next_alive =
              body-Alive items seen (between fuel seen) a (batch-get kv laws table pk seen start)
                alive' alive''

          done : Bool
          done = leb (length (left kv laws table pk seen start)) shard_batch_size

          ended : Reached start a → RoundEnds w done (last_key items)
          ended (inl q) =
              after w done (last_key items) (body-keeps items (between fuel seen) a alive'' q)
                next_alive
          ended (inr behind) = elim (in_batch seen start alive' behind) [
            | inl here ↦
                after w done (last_key items) (body-hits items (between fuel seen) a alive'' here)
                  next_alive
            | inr (long, later) ↦
                let (l, e) =
                  last-take-some shard_batch_size (left kv laws table pk seen start) (omega arith)
                    (ground arith) in
                rw (long, e) (rest l w.0 w.1 next_alive (inr (later l e)))
          ]

    reach :
        (fuel : ℕ) (start : Bytes) (s : kv.State) (a : A)
        → Alive s
        → Reached start a
        → EndsIn (loop fuel start s a)
    unfolding shard_loop
    reach zero start s a alive q = tt
    reach (suc fuel) start s a alive q = elim (Bool-cases (cancelled fuel)) [
      | inl stop ↦ rw stop tt
      | inr go ↦
          rw (go, laws.scan_range_lem)
            (round fuel (λ l s' a'. reach fuel (next_start l) s' a') start s a alive q)
    ]

    -- A loop that begins before the record and ends without an error has had it in a batch.
    pub shard_loop-reaches :
        (fuel : ℕ) (start : Bytes) (s s' : kv.State) (a a' : A)
        → Alive s
        → bytes_lt sk start ≡ false
        → shard_loop kv others between cancelled body fuel table pk start s a ≡ some (s', ok a')
        → Q a' × Alive s'
    shard_loop-reaches fuel start s s' a a' alive before e =
        subst EndsIn e (reach fuel start s a alive (inr before))
