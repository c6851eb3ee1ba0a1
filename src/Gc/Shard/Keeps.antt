-- ===== src/Gc/Shard/Keeps.antt =====
-- What every batch and all other callers keep, the loop over a partition keeps.
use artifact_depot.Base.{
  ℕ, zero, suc, ◌≡◌, Bool, true, false, List, Option, some, none, leb, length, take, Bool-cases,
  inl, inr,
}
use mathlib.Core.Path.{subst}
use artifact_depot.Base.Bytes.{Bytes}
use artifact_depot.Kv.{KvStore, KvLaws}
use artifact_depot.Kv.Sorted.{Holds}
use artifact_depot.Service.Error.{Result, ok, err}
use artifact_depot.Service.Scan.{last_key, next_start}
use artifact_depot.Gc.Shard.{shard_loop, shard_round_end, shard_batch_size}
use artifact_depot.Gc.Shard.Reaches.{batch-get, left}

module _ {S A : Type 0} (Alive : S → Type 0) (Q : A → Type 0) where
  abbrev pub KeptBy : Result A → Type 0
  KeptBy (err e) = Unit
  KeptBy (ok a) = Q a

  abbrev pub KeptIn : Option (S × Result A) → Type 0
  KeptIn none = Unit
  KeptIn (some (s, r)) = Alive s × KeptBy r

module _ {V A : Type 0} (kv : KvStore V) (laws : KvLaws kv)
    (others between : ℕ → kv.State → kv.State) (cancelled : ℕ → Bool)
    (body : List (Bytes × V) → kv.State → A → kv.State × A) (table pk : Bytes)
    (Alive : kv.State → Type 0) (Q : A → Type 0)
    (others-Alive : (n : ℕ) (s : kv.State) → Alive s → Alive (others n s))
    (between-Alive : (n : ℕ) (s : kv.State) → Alive s → Alive (between n s))
    (body-Alive : (items : List (Bytes × V)) (s t : kv.State) (a : A)
      → ((j : Bytes) (w : V)
          → Holds j w items
          → kv.get s (record { table = table; pk = pk; sk = j }) ≡ some w)
      → Alive s
      → Alive t
      → Alive (body items t a).0)
    (body-keeps : (items : List (Bytes × V)) (t : kv.State) (a : A)
      → Q a
      → Q (body items t a).1) where
  round_keeps :
      (w : kv.State × A) (done : Bool) (last : Option Bytes)
      (next : Bytes → kv.State → A → Option (kv.State × Result A))
      → Alive w.0
      → Q w.1
      → ((l : Bytes) (s : kv.State) (a : A) → Alive s → Q a → KeptIn Alive Q (next l s a))
      → KeptIn Alive Q (shard_round_end w done last next)
  round_keeps w true last next h q rest = (h, q)
  round_keeps w false none next h q rest = (h, q)
  round_keeps w false (some l) next h q rest = rest l w.0 w.1 h q

  pub shard_loop-keeps :
      (fuel : ℕ) (start : Bytes) (s : kv.State) (a : A)
      → Alive s
      → Q a
      → KeptIn Alive Q (shard_loop kv others between cancelled body fuel table pk start s a)
  unfolding shard_loop
  shard_loop-keeps zero start s a h q = tt
  shard_loop-keeps (suc fuel) start s a h q = elim (Bool-cases (cancelled fuel)) [
    | inl stop ↦ rw stop (h, tt)
    | inr go ↦
        let seen = others fuel s in
        let items = take shard_batch_size (left kv laws table pk seen start) in
        let alive = others-Alive fuel s h in
        rw (go, laws.scan_range_lem)
          (round_keeps (body items (between fuel seen) a)
            (leb (length (left kv laws table pk seen start)) shard_batch_size) (last_key items)
            (λ l s' a'.
              shard_loop kv others between cancelled body fuel table pk (next_start l) s' a')
            (body-Alive items seen (between fuel seen) a (batch-get kv laws table pk seen start)
              alive (between-Alive fuel seen alive))
            (body-keeps items (between fuel seen) a q)
            (λ l s' a' h' q'. shard_loop-keeps fuel (next_start l) s' a' h' q'))
  ]

  -- The loop, when it ends.
  pub shard_loop-ends :
      (fuel : ℕ) (start : Bytes) (s s' : kv.State) (a : A) (r : Result A)
      → Alive s
      → Q a
      → shard_loop kv others between cancelled body fuel table pk start s a ≡ some (s', r)
      → Alive s' × KeptBy Alive Q r
  shard_loop-ends fuel start s s' a r h q e =
      subst (KeptIn Alive Q) e (shard_loop-keeps fuel start s a h q)
