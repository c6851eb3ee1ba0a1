-- ===== src/Cluster/Lease/Grant.antt =====
-- What an undisturbed call grants, and what it leaves in the store.
use artifact_depot.Base.{
  ℕ, ◌≡◌, refl, ap, ◌∙◌, Bool, true, Option, some, none, if◌then◌else◌, arith, Bool-cases, inl, inr,
  ◌==◌, ◌↔◌, ◌⊎◌, ◌+◌, ◌*◌, ◌<◌,
}
use artifact_depot.Base.Bytes.{Bytes, bytes_eq_iff, contains_byte}
use artifact_depot.Keys.Shard.{KeyTriple, lease_key}
use artifact_depot.Keys.Tree.{NulFree}
use artifact_depot.Kv.{KvStore, KvLaws, Cell, key_eq, version_matches, next_version, expected_or_0}
use artifact_depot.Kv.Codec.{Codec}
use artifact_depot.Service.Error.{Result, ok}
use artifact_depot.Cluster.Lease.{
  LeaseRecord, may_take, is_expired, acquire_after, try_acquire_lease,
}

pub lease_key-NulFree : (name : Bytes) → NulFree (lease_key name).pk
unfolding lease_key contains_byte
lease_key-NulFree name = refl

pub key_eq_refl : (k : KeyTriple) → key_eq k k ≡ true
key_eq_refl k = rw (
  (bytes_eq_iff k.table k.table).1 refl,
  (bytes_eq_iff k.pk k.pk).1 refl,
  (bytes_eq_iff k.sk k.sk).1 refl,
)

-- Whether a lease is to be had, and the version that the write expects.
abbrev pub grants : Bytes → ℕ → Option LeaseRecord → Bool
grants id now none = true
grants id now (some r) = may_take id now r

-- There is no lease, or it is the caller's own, or its time is over.
abbrev pub MayHave : Bytes → ℕ → Option LeaseRecord → Type 0
MayHave id now none = Unit
MayHave id now (some r) = (r.holder ≡ id) ⊎ (r.renewed_at + r.ttl_secs * 1000000000 < now)

grants_iff :
    (id : Bytes) (now : ℕ) (lease : Option LeaseRecord)
    → (grants id now lease ≡ true) ↔ MayHave id now lease
unfolding may_take is_expired
grants_iff id now none = (λ h. tt, λ h. refl)
grants_iff id now (some r) =
    (λ h. grind (arith, bytes_eq_iff r.holder id), λ h. grind (arith, bytes_eq_iff r.holder id))

module _ {V : Type 0} (kv : KvStore V) (laws : KvLaws kv) (codec : Codec LeaseRecord V) where
  abbrev pub cell : kv.State → Bytes → Cell V
  cell s name = kv.get_versioned s (lease_key name)

  -- The lease that a cell shows.
  pub data Shows : Cell V → Option LeaseRecord → Type 0 where
    free : Shows none none
    held :
        (bytes : V) (version : ℕ) (r : LeaseRecord)
        → codec.from_slice bytes ≡ ok r
        → Shows (some (bytes, version)) (some r)

  abbrev pub next_cell : LeaseRecord → Cell V → Cell V
  next_cell r none = some (codec.to_vec r, 1)
  next_cell r (some (bytes, version)) = some (codec.to_vec r, next_version version)

  pub own_key :
      (s : kv.State) (name : Bytes) (v : V) (e : Option ℕ)
      → cell (kv.put_if_version (lease_key name) v e s).0 name ≡ (
          if version_matches e (cell s name)
          then some (v, next_version (expected_or_0 e))
          else cell s name)
  own_key s name v e =
      let after =
        laws.put_if_version_lem s (lease_key name) (lease_key name) v e (lease_key-NulFree name)
          (lease_key-NulFree name) in
      let self = key_eq_refl (lease_key name) in
      elim (Bool-cases (version_matches e (cell s name))) [
        | inl m ↦ after ∙ rw (m, self)
        | inr m ↦ after ∙ rw m
      ]

  -- What a call should do to a cell: it returns whether the lease is to be had, and writes it then.
  abbrev Granted :
      Bytes → Bytes → ℕ → ℕ → Option LeaseRecord → Cell V → kv.State × Result Bool → Type 0
  Granted name id ttl now lease c (s', result) =
      (result ≡ ok (grants id now lease))
      × (cell s' name ≡ (
          if grants id now lease
          then next_cell (record { holder = id; renewed_at = now; ttl_secs = ttl }) c
          else c))

  granted :
      (name id : Bytes) (ttl now : ℕ) (s : kv.State) (lease : Option LeaseRecord) (c : Cell V)
      → cell s name ≡ c
      → Shows c lease
      → Granted name id ttl now lease c (acquire_after kv codec name id ttl now c s)
  unfolding acquire_after
  granted name id ttl now s lease c at free = (
    ap ok (laws.put_if_version_result s (lease_key name) _ none ∙ ap (version_matches none) at),
    own_key s name _ none ∙ rw at,
  )
  granted name id ttl now s lease c at (held bytes version r reads) =
      elim (Bool-cases (may_take id now r)) [
        | inl take ↦
            rw (reads, take)
              (
                ap ok (
                    laws.put_if_version_result s (lease_key name) _ (some version)
                    ∙ ap (version_matches (some version)) at
                    ∙ same version),
                own_key s name _ (some version) ∙ rw at (rw (same version)),
              )
        | inr keep ↦ rw (reads, keep) (refl, at)
      ]
    where
      same : (n : ℕ) → (n == n) ≡ true
      same n = ground arith

  -- The same for the whole call.
  pub try_acquire_lease-lem :
      (name id : Bytes) (ttl now : ℕ) (s : kv.State) (lease : Option LeaseRecord)
      → Shows (kv.get_versioned s (lease_key name)) lease
      → let (s', result) = try_acquire_lease kv codec name id ttl now s in
        (result ≡ ok (grants id now lease))
        × (kv.get_versioned s' (lease_key name) ≡ (
            if grants id now lease
            then next_cell
                (record { holder = id; renewed_at = now; ttl_secs = ttl })
                (kv.get_versioned s (lease_key name))
            else kv.get_versioned s (lease_key name)))
  unfolding try_acquire_lease
  try_acquire_lease-lem name id ttl now s lease shows = granted name id ttl now s lease _ refl shows

  -- An undisturbed call, where the lease is absent or its record can be read, says true exactly when
  -- there is no lease, or it is the caller's own, or it has run out, and false otherwise; then the
  -- record is the caller's under the next version, and otherwise the lease is as before.
  pub try_acquire_lease-grants :
      (name id : Bytes) (ttl now : ℕ) (s : kv.State) (lease : Option LeaseRecord)
      → Shows (kv.get_versioned s (lease_key name)) lease
      → let (s', result) = try_acquire_lease kv codec name id ttl now s in
        (grant : Bool) × (result ≡ ok grant)
        × ((grant ≡ true) ↔ MayHave id now lease)
        × (kv.get_versioned s' (lease_key name) ≡ (
            if grant
            then next_cell
                (record { holder = id; renewed_at = now; ttl_secs = ttl })
                (kv.get_versioned s (lease_key name))
            else kv.get_versioned s (lease_key name)))
  try_acquire_lease-grants name id ttl now s lease shows =
      let (result, after) = try_acquire_lease-lem name id ttl now s lease shows in
      (grants id now lease, result, grants_iff id now lease, after)
