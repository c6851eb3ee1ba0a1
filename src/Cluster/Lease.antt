-- ===== src/Cluster/Lease.antt =====
-- The distributed leases of server/src/server/worker/cluster.rs. The store may change between an
-- operation's read and its write, so each is two steps: `get_versioned` gives a cell, and the rest
-- of the code runs on a later state. Times are nanoseconds; a lease lasts less than 2^63 seconds.
pub mod Grant
pub mod Exclusion
pub mod Races
use artifact_depot.Base.{
  ℕ, ◌+◌, ◌*◌, Bool, true, false, ◌||◌, Option, some, none, ltb, if◌then◌else◌,
}
use artifact_depot.Base.Bytes.{Bytes, bytes_eq}
use artifact_depot.Keys.Shard.{KeyTriple, lease_key}
use artifact_depot.Kv.{KvStore, Cell}
use artifact_depot.Kv.Codec.{Codec}
use artifact_depot.Service.Error.{Result, ok, err}

pub record LeaseRecord : Type 0 where
  pub holder : Bytes
  pub renewed_at : ℕ
  pub ttl_secs : ℕ

abbrev pub nanos_per_sec : ℕ
nanos_per_sec = 1000000000

-- `now > record.renewed_at + Duration::seconds(record.ttl_secs)`
unfoldable pub is_expired : ℕ → LeaseRecord → Bool
is_expired now r = ltb (r.renewed_at + r.ttl_secs * nanos_per_sec) now

-- Who may write the lease: its holder, or anybody once it has run out.
unfoldable pub may_take : Bytes → ℕ → LeaseRecord → Bool
unfolding is_expired
may_take instance_id now r = bytes_eq r.holder instance_id || is_expired now r

module _ {V : Type 0} (kv : KvStore V) (codec : Codec LeaseRecord V) where
  open kv use {State}

  abbrev pub write_lease : Bytes → LeaseRecord → Option ℕ → State → State × Result Bool
  write_lease name r expected s =
      let (s', written) = kv.put_if_version (lease_key name) (codec.to_vec r) expected s in
      (s', ok written)

  abbrev pub take_over :
      Bytes → Bytes → ℕ → ℕ → ℕ → Result LeaseRecord → State → State × Result Bool
  take_over name instance_id ttl_secs now version (err e) s = (s, err e)
  take_over name instance_id ttl_secs now version (ok r) s =
      if may_take instance_id now r
      then write_lease name (record { holder = instance_id; renewed_at = now; ttl_secs = ttl_secs })
          (some version) s
      else (s, ok false)

  -- `try_acquire_lease` behind its read, which found `cell`.
  unfoldable pub acquire_after : Bytes → Bytes → ℕ → ℕ → Cell V → State → State × Result Bool
  unfolding may_take lease_key
  acquire_after name instance_id ttl_secs now none s =
      write_lease name (record { holder = instance_id; renewed_at = now; ttl_secs = ttl_secs }) none
        s
  acquire_after name instance_id ttl_secs now (some (bytes, version)) s =
      take_over name instance_id ttl_secs now version (codec.from_slice bytes) s

  -- The whole call, with nothing in between.
  unfoldable pub try_acquire_lease : Bytes → Bytes → ℕ → ℕ → State → State × Result Bool
  unfolding acquire_after
  try_acquire_lease name instance_id ttl_secs now s =
      acquire_after name instance_id ttl_secs now (kv.get_versioned s (lease_key name)) s

  abbrev pub delete_own : Bytes → Bytes → Result LeaseRecord → State → State × Result Bool
  delete_own name instance_id (err e) s = (s, err e)
  delete_own name instance_id (ok r) s =
      if bytes_eq r.holder instance_id
      then (let (s', existed) = kv.delete (lease_key name) s in (s', ok true))
      else (s, ok false)

  -- `release_lease` behind its read.
  unfoldable pub release_after : Bytes → Bytes → Cell V → State → State × Result Bool
  unfolding lease_key
  release_after name instance_id none s = (s, ok false)
  release_after name instance_id (some (bytes, version)) s =
      delete_own name instance_id (codec.from_slice bytes) s

  unfoldable pub release_lease : Bytes → Bytes → State → State × Result Bool
  unfolding release_after
  release_lease name instance_id s =
      release_after name instance_id (kv.get_versioned s (lease_key name)) s
