-- ===== src/Cluster/Lease/Races.antt =====
-- Two interleavings of server/src/server/worker/cluster.rs in which two instances hold one lease.
use artifact_depot.Base.{ℕ, ◌≡◌, refl, ap, ◌∙◌, true, some, none, arith}
use artifact_depot.Base.Bytes.{Bytes, bytes_eq_iff}
use artifact_depot.Keys.Shard.{lease_key}
use artifact_depot.Kv.{KvStore, KvLaws, Cell, version_matches}
use artifact_depot.Kv.Codec.{Codec}
use artifact_depot.Service.Error.{ok}
use artifact_depot.Cluster.Lease.{
  LeaseRecord, may_take, is_expired, acquire_after, try_acquire_lease, release_lease, release_after,
}
use artifact_depot.Cluster.Lease.Grant.{
  free, held, next_cell, try_acquire_lease-lem, lease_key-NulFree, key_eq_refl,
}

module _ {V : Type 0} (kv : KvStore V) (laws : KvLaws kv) (codec : Codec LeaseRecord V) where
  abbrev cell : kv.State → Bytes → Cell V
  cell s name = kv.get_versioned s (lease_key name)

  abbrev lease : ℕ → ℕ → Bytes → LeaseRecord
  lease ttl now id = record { holder = id; renewed_at = now; ttl_secs = ttl }

  delete-own_key : (s : kv.State) (name : Bytes) → cell (kv.delete (lease_key name) s).0 name ≡ none
  delete-own_key s name =
      laws.delete_lem s (lease_key name) (lease_key name) (lease_key-NulFree name)
        (lease_key-NulFree name)
      ∙ rw (key_eq_refl (lease_key name))

  -- A release that finds its own record deletes the key, whatever it holds by now.
  release-deletes :
      (name id : Bytes) (bytes : V) (version : ℕ) (r : LeaseRecord) (s : kv.State)
      → codec.from_slice bytes ≡ ok r
      → r.holder ≡ id
      → let (s', result) = release_after kv codec name id (some (bytes, version)) s in
        (result ≡ ok true) × (cell s' name ≡ none)
  unfolding release_after
  release-deletes name id bytes version r s reads own =
      rw (reads, (bytes_eq_iff r.holder id).1 own) (refl, delete-own_key s name)

  take_expired :
      (name id : Bytes) (ttl now : ℕ) (s : kv.State) (bytes : V) (version : ℕ) (r : LeaseRecord)
      → cell s name ≡ some (bytes, version)
      → codec.from_slice bytes ≡ ok r
      → is_expired now r ≡ true
      → (try_acquire_lease kv codec name id ttl now s).1 ≡ ok true
  take_expired name id ttl now s bytes version r at reads out =
      (try_acquire_lease-lem kv laws codec name id ttl now s (some r)
        (rw at (held bytes version r reads))).0
      ∙ ap ok (unfold may_take in ground arith)

  take_free :
      (name id : Bytes) (ttl now : ℕ) (s : kv.State)
      → cell s name ≡ none
      → let (s', result) = try_acquire_lease kv codec name id ttl now s in
        (result ≡ ok true) × (cell s' name ≡ some (codec.to_vec (lease ttl now id), 1))
  take_free name id ttl now s at =
      let taken = try_acquire_lease-lem kv laws codec name id ttl now s none (rw at free) in
      (taken.0, taken.1 ∙ ap (next_cell kv laws codec (lease ttl now id)) at)

  -- The holder of a lease that has run out releases it, and another instance takes it over between
  -- the read and the delete of the release. Both calls report success, the new lease is gone, and
  -- at the same time a third instance is granted it.
  pub release_deletes_successor :
      (name a b c : Bytes) (ttl now : ℕ) (s : kv.State) (bytes : V) (version : ℕ) (r : LeaseRecord)
      → kv.get_versioned s (lease_key name) ≡ some (bytes, version)
      → codec.from_slice bytes ≡ ok r
      → r.holder ≡ a
      → is_expired now r ≡ true
      → let (s₁, taken) = try_acquire_lease kv codec name b ttl now s in
        let (s₂, released) =
          release_after kv codec name a (kv.get_versioned s (lease_key name)) s₁ in
        (taken ≡ ok true)
        × (released ≡ ok true)
        × (kv.get_versioned s₂ (lease_key name) ≡ none)
        × ((try_acquire_lease kv codec name c ttl now s₂).1 ≡ ok true)
  release_deletes_successor name a b c ttl now s bytes version r at reads own out =
      let s₁ = (try_acquire_lease kv codec name b ttl now s).0 in
      let gone = release-deletes name a bytes version r s₁ reads own in
      rw at (
        take_expired name b ttl now s bytes version r at reads out,
        gone.0,
        gone.1,
        (take_free name c ttl now _ gone.1).0,
      )

  -- An instance reads a lease that has run out, under version 1. The holder releases it and a
  -- second instance acquires it anew, under version 1 again. The conditional write of the first
  -- instance then succeeds too: both are told that they hold the lease.
  pub acquire_after_release :
      (name h a b : Bytes) (ttl now : ℕ) (s : kv.State) (bytes : V) (r : LeaseRecord)
      → kv.get_versioned s (lease_key name) ≡ some (bytes, 1)
      → codec.from_slice bytes ≡ ok r
      → r.holder ≡ h
      → is_expired now r ≡ true
      → let (s₁, released) = release_lease kv codec name h s in
        let (s₂, taken) = try_acquire_lease kv codec name b ttl now s₁ in
        let (s₃, taken') =
          acquire_after kv codec name a ttl now (kv.get_versioned s (lease_key name)) s₂ in
        (released ≡ ok true) × (taken ≡ ok true) × (taken' ≡ ok true)
  unfolding release_lease
  acquire_after_release name h a b ttl now s bytes r at reads own out =
      let gone = release-deletes name h bytes 1 r s reads own in
      rw at
        (gone.0, (take_free name b ttl now _ gone.1).0, again (take_free name b ttl now _ gone.1).1)
    where
      again :
          {s₂ : kv.State}
          → cell s₂ name ≡ some (codec.to_vec (lease ttl now b), 1)
          → (acquire_after kv codec name a ttl now (some (bytes, 1)) s₂).1 ≡ ok true
      again {s₂} fresh =
          unfold acquire_after in
          rw (reads, take)
            (ap ok (
              laws.put_if_version_result s₂ (lease_key name) _ (some 1)
              ∙ ap (version_matches (some 1)) fresh))
        where
          take : may_take a now r ≡ true
          take = unfold may_take in ground arith
