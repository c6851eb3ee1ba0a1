-- ===== src/Examples/Leases.antt =====
-- Leases over the embedded store at concrete inputs.
use artifact_depot.Base.{
  Bool, ◌↔◌, ◌≡◌, ◌≢◌, refl, sym, ap, ◌∙◌, ℕ, List, [], ◌∷◌, some, none, arith, true, false,
  if◌then◌else◌,
}
use artifact_depot.Base.Bytes.{Bytes}
use artifact_depot.Keys.Shard.{lease_key}
use artifact_depot.Kv.{KvStore, KvLaws}
use artifact_depot.Kv.Codec.{Codec}
use artifact_depot.Kv.Redb.Laws.{redb_kv, redb_kv-KvLaws}
use artifact_depot.Kv.Redb.Model.{tables, no_rows, tables-RedbLaws}
use artifact_depot.Service.Error.{Result, ok, err, DepotError}
use artifact_depot.Cluster.Lease.{
  LeaseRecord, is_expired, acquire_after, try_acquire_lease, release_lease, release_after,
}
use artifact_depot.Cluster.Lease.Grant.{
  free, held, next_cell, MayHave, try_acquire_lease-lem, try_acquire_lease-grants,
}
use artifact_depot.Cluster.Lease.Exclusion.{Attempt, attempts, acquire-respects_holder}
use artifact_depot.Cluster.Lease.Races.{release_deletes_successor, acquire_after_release}

-- A codec: two numbers, and the rest is the holder.
abbrev read_record : Bytes → Result LeaseRecord
read_record (n ∷ t ∷ id) = ok (record { holder = id; renewed_at = n; ttl_secs = t })
read_record _ = err DepotError.internal

abbrev codec : Codec LeaseRecord Bytes
codec = record { to_vec = λ r. r.renewed_at ∷ r.ttl_secs ∷ r.holder; from_slice = read_record }

abbrev kv : KvStore Bytes
kv = redb_kv tables

abbrev laws : KvLaws kv
laws = redb_kv-KvLaws tables tables-RedbLaws

abbrev gc : Bytes
gc = 103 ∷ 99 ∷ []

abbrev node_a : Bytes
node_a = 97 ∷ []

abbrev node_b : Bytes
node_b = 98 ∷ []

abbrev node_c : Bytes
node_c = 99 ∷ []

unfoldable empty : kv.State
unfolding redb_kv
empty = no_rows

abbrev late : ℕ
late = 5000000000

empty-free : kv.get_versioned empty (lease_key gc) ≡ none
unfolding empty no_rows tables redb_kv
empty-free = refl

-- The first instance has taken the lease for three seconds, at time 0.
abbrev taken : kv.State
taken = (try_acquire_lease kv codec gc node_a 3 0 empty).0

taken-held : kv.get_versioned taken (lease_key gc) ≡ some ((0 ∷ 3 ∷ node_a), 1)
taken-held =
    (try_acquire_lease-lem kv laws codec gc node_a 3 0 empty none (rw empty-free free)).1
    ∙ ap (next_cell kv laws codec (record { holder = node_a; renewed_at = 0; ttl_secs = 3 }))
        empty-free

abbrev record_a : LeaseRecord
record_a = record { holder = node_a; renewed_at = 0; ttl_secs = 3 }

record_a-expired : is_expired late record_a ≡ true
unfolding is_expired
record_a-expired = refl

record_a-valid : is_expired 1000 record_a ≡ false
unfolding is_expired
record_a-valid = refl

try_acquire_lease-grants_example :
    let (s', result) = try_acquire_lease kv codec gc node_b 3 late taken in
    (grant : Bool) × (result ≡ ok grant)
    × ((grant ≡ true) ↔ MayHave node_b late (some record_a))
    × (kv.get_versioned s' (lease_key gc) ≡ (
        if grant
        then next_cell kv laws codec
            (record { holder = node_b; renewed_at = late; ttl_secs = 3 })
            (kv.get_versioned taken (lease_key gc))
        else kv.get_versioned taken (lease_key gc)))
try_acquire_lease-grants_example =
    try_acquire_lease-grants kv laws codec gc node_b 3 late taken (some record_a)
      (rw taken-held (held (0 ∷ 3 ∷ node_a) 1 record_a refl))

node_a-other : node_a ≢ node_b
node_a-other e = absurd (ground arith)

-- The attempt of the first instance, which read the free lease.
abbrev first_attempt : List (Attempt Bytes)
first_attempt = record { instance_id = node_a; ttl_secs = 3; now = 0; read = none } ∷ []

first_attempt-held :
    kv.get_versioned (attempts kv laws codec gc first_attempt empty) (lease_key gc)
    ≡ some ((0 ∷ 3 ∷ node_a), 1)
unfolding attempts try_acquire_lease
first_attempt-held =
    ap (λ c. kv.get_versioned (acquire_after kv codec gc node_a 3 0 c empty).0 (lease_key gc))
      (sym empty-free)
    ∙ taken-held

acquire-respects_holder_example :
    (let s' = attempts kv laws codec gc first_attempt empty in
      let (s'', result) =
        acquire_after kv codec gc node_b 3 1000 (kv.get_versioned empty (lease_key gc)) s' in
      (result ≢ ok true)
      × (kv.get_versioned s'' (lease_key gc) ≡ kv.get_versioned s' (lease_key gc)))
acquire-respects_holder_example =
    acquire-respects_holder kv laws codec gc node_b 3 1000 first_attempt empty (0 ∷ 3 ∷ node_a) 1
      record_a (rw empty-free (omega arith)) first_attempt-held refl node_a-other record_a-valid

release_deletes_successor_example :
    (let (s₁, got) = try_acquire_lease kv codec gc node_b 3 late taken in
      let (s₂, released) =
        release_after kv codec gc node_a (kv.get_versioned taken (lease_key gc)) s₁ in
      (got ≡ ok true)
      × (released ≡ ok true)
      × (kv.get_versioned s₂ (lease_key gc) ≡ none)
      × ((try_acquire_lease kv codec gc node_c 3 late s₂).1 ≡ ok true))
release_deletes_successor_example =
    release_deletes_successor kv laws codec gc node_a node_b node_c 3 late taken (0 ∷ 3 ∷ node_a) 1
      record_a taken-held refl refl record_a-expired

acquire_after_release_example :
    (let (s₁, released) = release_lease kv codec gc node_a taken in
      let (s₂, got) = try_acquire_lease kv codec gc node_b 3 late s₁ in
      let (s₃, got') =
        acquire_after kv codec gc node_c 3 late (kv.get_versioned taken (lease_key gc)) s₂ in
      (released ≡ ok true) × (got ≡ ok true) × (got' ≡ ok true))
acquire_after_release_example =
    acquire_after_release kv laws codec gc node_a node_c node_b 3 late taken (0 ∷ 3 ∷ node_a)
      record_a taken-held refl refl record_a-expired
