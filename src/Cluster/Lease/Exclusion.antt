-- ===== src/Cluster/Lease/Exclusion.antt =====
-- As long as instances only acquire, a valid lease is never taken from its holder, however the
-- calls interleave.
use artifact_depot.Base.{
  ℕ, suc, ◌<◌, ◌+◌, ◌%◌, ◌≡◌, ◌≢◌, ◌⊎◌, refl, ap, sym, ◌∙◌, Bool, true, false, List, [], ◌∷◌,
  Option, some, none, if◌then◌else◌, arith, Bool-cases, inl, inr, ◌==◌, length,
}
use artifact_depot.Base.Bytes.{Bytes, bytes_eq_iff}
use artifact_depot.Keys.Shard.{lease_key}
use artifact_depot.Kv.{
  KvStore, KvLaws, Cell, version_or_0, version_matches, next_version, u64_mod, expected_or_0,
}
use artifact_depot.Kv.Codec.{Codec}
use artifact_depot.Service.Error.{Result, ok, err}
use artifact_depot.Cluster.Lease.{
  LeaseRecord, may_take, is_expired, acquire_after, write_lease, take_over,
}
use artifact_depot.Cluster.Lease.Grant.{own_key}

-- One call of `try_acquire_lease`, at its write: what it read, however long ago.
pub record Attempt (V : Type 0) : Type 0 where
  pub instance_id : Bytes
  pub ttl_secs : ℕ
  pub now : ℕ
  pub read : Cell V

-- A later cell is the same, or has a higher version.
abbrev pub Newer : {V : Type 0} → Cell V → Cell V → Type 0
Newer c d = (c ≡ d) ⊎ (version_or_0 c < version_or_0 d)

abbrev cell : {V : Type 0} (kv : KvStore V) → kv.State → Bytes → Cell V
cell kv s name = kv.get_versioned s (lease_key name)

module _ {V : Type 0} (kv : KvStore V) (laws : KvLaws kv) (codec : Codec LeaseRecord V) where
  pub attempt : Bytes → Attempt V → kv.State → kv.State
  attempt name a s = (acquire_after kv codec name a.instance_id a.ttl_secs a.now a.read s).0

  unfoldable pub attempts : Bytes → List (Attempt V) → kv.State → kv.State
  unfolding attempt
  attempts name [] s = s
  attempts name (a ∷ r) s = attempts name r (attempt name a s)

  -- A conditional write leaves the cell, or raises its version by one.
  abbrev RaisedAtMost : Cell V → Cell V → Type 0
  RaisedAtMost c d = (d ≡ c) ⊎ (version_or_0 d ≡ version_or_0 c + 1)

  raised_write :
      (c : Cell V) (v : V) (e : Option ℕ)
      → version_or_0 c + 1 < u64_mod
      → RaisedAtMost c (if version_matches e c then some (v, next_version (expected_or_0 e)) else c)
  raised_write none v none h = inr (omega arith)
  raised_write none v (some e) h = inl refl
  raised_write (some (w, n)) v none h = inl refl
  raised_write (some (w, n)) v (some e) h = elim (Bool-cases (e == n)) [
    | inl m ↦ rw m (inr (written m))
    | inr m ↦ rw m (inl refl)
  ]
    where
      written : (e == n) ≡ true → (e + 1) % u64_mod ≡ n + 1
      written m = ground arith

  write-raises :
      (name : Bytes) (r : LeaseRecord) (e : Option ℕ) (s : kv.State)
      → version_or_0 (cell kv s name) + 1 < u64_mod
      → RaisedAtMost (cell kv s name) (cell kv (write_lease kv codec name r e s).0 name)
  write-raises name r e s h =
      rw (own_key kv laws codec s name (codec.to_vec r) e)
        (raised_write (cell kv s name) (codec.to_vec r) e h)

  take_over-raises :
      (name id : Bytes) (ttl now n : ℕ) (d : Result LeaseRecord) (s : kv.State)
      → version_or_0 (cell kv s name) + 1 < u64_mod
      → RaisedAtMost (cell kv s name) (cell kv (take_over kv codec name id ttl now n d s).0 name)
  take_over-raises name id ttl now n (err e) s h = inl refl
  take_over-raises name id ttl now n (ok r) s h = elim (Bool-cases (may_take id now r)) [
    | inl m ↦ rw m (write-raises name _ (some n) s h)
    | inr m ↦ rw m (inl refl)
  ]

  attempt-raises :
      (name : Bytes) (a : Attempt V) (s : kv.State)
      → version_or_0 (cell kv s name) + 1 < u64_mod
      → RaisedAtMost (cell kv s name) (cell kv (attempt name a s) name)
  unfolding attempt
  attempt-raises name a s h = by_cell a.read
    where
      by_cell :
          (c : Cell V)
          → RaisedAtMost
              (cell kv s name)
              (cell kv (acquire_after kv codec name a.instance_id a.ttl_secs a.now c s).0 name)
      by_cell none = unfold acquire_after in write-raises name _ none s h
      by_cell (some (bytes, n)) =
          unfold acquire_after in
          take_over-raises name a.instance_id a.ttl_secs a.now n (codec.from_slice bytes) s h

  Newer-trans : (c d e : Cell V) → RaisedAtMost c d → Newer d e → Newer c e
  Newer-trans c d e (inl same) (inl same') = inl (sym same ∙ same')
  Newer-trans c d e (inl same) (inr lt) = inr (rw same at lt)
  Newer-trans c d e (inr up) (inl same) = inr (rw (← same) (omega arith))
  Newer-trans c d e (inr up) (inr lt) = inr (omega arith)

  version_raised :
      (c d : Cell V) (n : ℕ)
      → RaisedAtMost c d
      → version_or_0 c + suc n < u64_mod
      → version_or_0 d + n < u64_mod
  version_raised c d n (inl same) h = rw same (omega arith)
  version_raised c d n (inr up) h = omega arith

  attempts-Newer :
      (name : Bytes) (others : List (Attempt V)) (s : kv.State)
      → version_or_0 (cell kv s name) + length others < u64_mod
      → Newer (cell kv s name) (cell kv (attempts name others s) name)
  unfolding attempts
  attempts-Newer name [] s h = inl refl
  attempts-Newer name (a ∷ r) s h =
      let raised = attempt-raises name a s (omega arith) in
      Newer-trans (cell kv s name) (cell kv (attempt name a s) name) _ raised (
        attempts-Newer name r (attempt name a s)
          (version_raised (cell kv s name) (cell kv (attempt name a s) name) (length r) raised h))

  abbrev Refused : Bytes → kv.State → kv.State × Result Bool → Type 0
  Refused name s (s', result) = (result ≢ ok true) × (cell kv s' name ≡ cell kv s name)

  write-Refused :
      (name : Bytes) (r : LeaseRecord) (e : Option ℕ) (s : kv.State)
      → version_matches e (cell kv s name) ≡ false
      → Refused name s (write_lease kv codec name r e s)
  write-Refused name r e s no_match = (
    λ h. cc (laws.put_if_version_result s (lease_key name) (codec.to_vec r) e),
    own_key kv laws codec s name (codec.to_vec r) e ∙ rw no_match,
  )

  respects :
      (name id : Bytes) (ttl now : ℕ) (c : Cell V) (s : kv.State) (bytes : V) (version : ℕ)
      (r : LeaseRecord)
      → cell kv s name ≡ some (bytes, version)
      → codec.from_slice bytes ≡ ok r
      → may_take id now r ≡ false
      → Newer c (cell kv s name)
      → Refused name s (acquire_after kv codec name id ttl now c s)
  unfolding acquire_after
  respects name id ttl now none s bytes version r at reads keep newer =
      write-Refused name _ none s (ap (version_matches none) at)
  respects name id ttl now (some (b, n)) s bytes version r at reads keep newer =
      by_record (codec.from_slice b) refl
    where
      no_match :
          (r' : LeaseRecord)
          → codec.from_slice b ≡ ok r'
          → may_take id now r' ≡ true
          → version_matches (some n) (cell kv s name) ≡ false
      no_match r' reads' take = ap (version_matches (some n)) at ∙ differ newer
        where
          differ : Newer (some (b, n)) (cell kv s name) → (n == version) ≡ false
          differ (inl same) = absurd (cc (same, at, reads, reads', take, keep))
          differ (inr lt) = let lt' : n < version = rw at at lt in ground arith

      by_record :
          (d : Result LeaseRecord)
          → codec.from_slice b ≡ d
          → Refused name s (take_over kv codec name id ttl now n d s)
      by_record (err e) reads' = ((λ h. cc), refl)
      by_record (ok r') reads' = elim (Bool-cases (may_take id now r')) [
        | inl m ↦ rw m (write-Refused name _ (some n) s (no_match r' reads' m))
        | inr m ↦ rw m ((λ h. cc), refl)
      ]

  -- An instance read a lease, and then any number of other attempts were made, each on what it had
  -- read at any time. If now another instance holds a valid lease, the write of the first instance
  -- is refused, and the lease stays as it is. (The version counter must not wrap.)
  pub acquire-respects_holder :
      (name id : Bytes) (ttl now : ℕ) (others : List (Attempt V)) (s : kv.State) (bytes : V)
      (version : ℕ) (r : LeaseRecord)
      → version_or_0 (kv.get_versioned s (lease_key name)) + length others < u64_mod
      → kv.get_versioned (attempts name others s) (lease_key name) ≡ some (bytes, version)
      → codec.from_slice bytes ≡ ok r
      → r.holder ≢ id
      → is_expired now r ≡ false
      → let s' = attempts name others s in
        let (s'', result) =
          acquire_after kv codec name id ttl now (kv.get_versioned s (lease_key name)) s' in
        (result ≢ ok true)
        × (kv.get_versioned s'' (lease_key name) ≡ kv.get_versioned s' (lease_key name))
  acquire-respects_holder name id ttl now others s bytes version r bound at reads other valid =
      respects name id ttl now (cell kv s name) (attempts name others s) bytes version r at reads
        (unfold may_take in ground (arith, bytes_eq_iff r.holder id))
        (attempts-Newer name others s bound)
