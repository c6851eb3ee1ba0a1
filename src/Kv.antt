-- ===== src/Kv.antt =====
-- `KvStore` of core/src/store/kv/trait_def.rs as an interface: the operations as functions on a
-- state, and what a backend promises of them. An operation of the trait is one atomic step;
-- storage faults of a backend are not part of the interface.
pub mod Codec
pub mod Sorted
pub mod Select
pub mod Redb
use artifact_depot.Base.{
  ℕ, ◌+◌, ◌%◌, ◌^◌, ◌≡◌, ◌↔◌, Bool, true, false, not, ◌&&◌, List, Option, some, none, ◌==◌, leb,
  if◌then◌else◌, take, length, [], ◌∷◌,
}
use artifact_depot.Base.Bytes.{Bytes, bytes_eq, bytes_lt}
use artifact_depot.Keys.Prefix.{is_below}
use artifact_depot.Keys.Tree.{NulFree}
use artifact_depot.Keys.Shard.{KeyTriple}
use Sorted.{IsSorted, Holds}

abbrev pub u64_mod : ℕ
u64_mod = 2 ^ 64

abbrev pub key_eq : KeyTriple → KeyTriple → Bool
key_eq k j = bytes_eq k.table j.table && (bytes_eq k.pk j.pk && bytes_eq k.sk j.sk)

pub record ScanResult (V : Type 0) : Type 0 where
  pub items : List (Bytes × V)
  pub done : Bool

-- What a key holds: the value and its version.
abbrev pub Cell : Type 0 → Type 0
Cell V = Option (V × ℕ)

abbrev pub value_of : {V : Type 0} → Cell V → Option V
value_of none = none
value_of (some (v, n)) = some v

abbrev pub is_there : {A : Type 0} → Option A → Bool
is_there none = false
is_there (some a) = true

-- The version of a write over `c`: versions start at 1 and grow by 1, as a u64.
abbrev pub next_version : ℕ → ℕ
next_version n = (n + 1) % u64_mod

abbrev pub version_or_0 : {V : Type 0} → Cell V → ℕ
version_or_0 none = 0
version_or_0 (some (v, n)) = n

-- `(None, None)`, or two equal versions
abbrev pub version_matches : {V : Type 0} → Option ℕ → Cell V → Bool
version_matches none none = true
version_matches none (some (v, n)) = false
version_matches (some e) none = false
version_matches (some e) (some (v, n)) = e == n

abbrev pub expected_or_0 : Option ℕ → ℕ
expected_or_0 none = 0
expected_or_0 (some e) = e

-- `sk_start ≤ sk < sk_end`
abbrev pub in_range : Bytes → Option Bytes → Bytes → Bool
in_range start end sk = not (bytes_lt sk start) && is_below sk end

abbrev pub select : {V : Type 0} → (Bytes → Bool) → List (Bytes × V) → List (Bytes × V)
select p [] = []
select p ((k, v) ∷ r) = let rest = select p r in if p k then (k, v) ∷ rest else rest

pub record KvStore (V : Type 0) : Type 1 where
  pub State : Type 0
  pub get : State → KeyTriple → Option V
  pub get_versioned : State → KeyTriple → Cell V
  pub put : KeyTriple → V → State → State
  pub put_if_version : KeyTriple → V → Option ℕ → State → State × Bool
  pub delete : KeyTriple → State → State × Bool
  pub delete_if_version : KeyTriple → ℕ → State → State × Bool
  pub delete_returning : KeyTriple → State → State × Option V
  pub scan_range : State → Bytes → Bytes → Bytes → Option Bytes → ℕ → ScanResult V
  -- All entries of a partition, in the order of their sort keys.
  pub entries : State → Bytes → Bytes → List (Bytes × V)

-- The promises, for partition keys without NUL. `k` is the key of the call, `j` any key.
pub record KvLaws {V : Type 0} (kv : KvStore V) : Type 1 where
  pub get_lem : (s : kv.State) (k : KeyTriple) → kv.get s k ≡ value_of (kv.get_versioned s k)
  pub put_lem :
      (s : kv.State) (k j : KeyTriple) (v : V)
      → NulFree k.pk
      → NulFree j.pk
      → kv.get_versioned (kv.put k v s) j ≡ (
          if key_eq k j
          then some (v, next_version (version_or_0 (kv.get_versioned s k)))
          else kv.get_versioned s j)
  pub put_if_version_result :
      (s : kv.State) (k : KeyTriple) (v : V) (e : Option ℕ)
      → (kv.put_if_version k v e s).1 ≡ version_matches e (kv.get_versioned s k)
  pub put_if_version_lem :
      (s : kv.State) (k j : KeyTriple) (v : V) (e : Option ℕ)
      → NulFree k.pk
      → NulFree j.pk
      → kv.get_versioned (kv.put_if_version k v e s).0 j ≡ (
          if version_matches e (kv.get_versioned s k) && key_eq k j
          then some (v, next_version (expected_or_0 e))
          else kv.get_versioned s j)
  pub delete_result :
      (s : kv.State) (k : KeyTriple) → (kv.delete k s).1 ≡ is_there (kv.get_versioned s k)
  pub delete_lem :
      (s : kv.State) (k j : KeyTriple)
      → NulFree k.pk
      → NulFree j.pk
      → kv.get_versioned (kv.delete k s).0 j ≡ (if key_eq k j then none else kv.get_versioned s j)
  pub delete_if_version_result :
      (s : kv.State) (k : KeyTriple) (e : ℕ)
      → (kv.delete_if_version k e s).1 ≡ version_matches (some e) (kv.get_versioned s k)
  pub delete_if_version_lem :
      (s : kv.State) (k j : KeyTriple) (e : ℕ)
      → NulFree k.pk
      → NulFree j.pk
      → kv.get_versioned (kv.delete_if_version k e s).0 j ≡ (
          if version_matches (some e) (kv.get_versioned s k) && key_eq k j
          then none
          else kv.get_versioned s j)
  pub delete_returning_result :
      (s : kv.State) (k : KeyTriple) → (kv.delete_returning k s).1 ≡ value_of (kv.get_versioned s k)
  pub delete_returning_lem :
      (s : kv.State) (k j : KeyTriple)
      → NulFree k.pk
      → NulFree j.pk
      → kv.get_versioned (kv.delete_returning k s).0 j
        ≡ (if key_eq k j then none else kv.get_versioned s j)
  pub entries-IsSorted : (s : kv.State) (table pk : Bytes) → IsSorted (kv.entries s table pk)
  pub entries-Holds :
      (s : kv.State) (table pk sk : Bytes) (v : V)
      → Holds sk v (kv.entries s table pk)
        ↔ (kv.get s (record { table = table; pk = pk; sk = sk }) ≡ some v)
  pub scan_range_lem :
      (s : kv.State) (table pk start : Bytes) (end : Option Bytes) (limit : ℕ)
      → let found = select (in_range start end) (kv.entries s table pk) in
        kv.scan_range s table pk start end limit
        ≡ record { items = take limit found; done = leb (length found) limit }
