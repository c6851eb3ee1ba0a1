-- ===== src/Service/Scan.antt =====
-- `for_each_in_partition` and `prefix_end` of core/src/service/scan.rs.
pub mod Rounds
pub mod Complete
use artifact_depot.Base.{
  ℕ, zero, suc, ◌+◌, ◌/◌, ◌*◌, Bool, true, false, not, ◌&&◌, List, [], ◌∷◌, ◌++◌, Option, some,
  none, ltb, if◌then◌else◌,
}
use artifact_depot.Base.Bytes.{Bytes, is_empty, starts_with}
use artifact_depot.Keys.Prefix
use artifact_depot.Keys.Shard.{num_shards}
use artifact_depot.Kv.{KvStore}
use artifact_depot.Service.Error.{Result, ok, err, DepotError}

abbrev pub scan_batch_size : ℕ
scan_batch_size = 1000

-- `(limit / NUM_SHARDS + 1).max(4) * 2`
unfoldable pub per_shard_batch : ℕ → ℕ
per_shard_batch limit = let share = limit / num_shards + 1 in (if ltb share 4 then 4 else share) * 2

-- How a batch ends: go on with the next, return, or fail.
pub data Flow (S : Type 0) : Type 0 where
  more : S → Flow S
  stop : S → Flow S
  fail : DepotError → Flow S

abbrev pub finish : {S : Type 0} → Flow S → Result S
finish (more s) = ok s
finish (stop s) = ok s
finish (fail e) = err e

-- `String::from_utf8(..).ok()` is the test `is_utf8` of the standard library.
module _ (is_utf8 : Bytes → Bool) where
  abbrev pub if_utf8 : Option Bytes → Option Bytes
  if_utf8 none = none
  if_utf8 (some b) = if is_utf8 b then some b else none

  unfoldable pub prefix_end : Bytes → Option Bytes
  prefix_end prefix = if_utf8 (Prefix.prefix_end prefix)

abbrev pub after_callback : {S : Type 0} → Result (S × Bool) → (S → Flow S) → Flow S
after_callback (err e) k = fail e
after_callback (ok (s, false)) k = stop s
after_callback (ok (s, true)) k = k s

module _ {S V : Type 0} (callback : S → Bytes → V → Result (S × Bool)) where
  -- The body of the loop over one batch; the state is what the closure captures.
  unfoldable pub visit_batch : Bytes → S → List (Bytes × V) → Flow S
  visit_batch sk_prefix s [] = more s
  visit_batch sk_prefix s ((sk, value) ∷ items) =
      if not (is_empty sk_prefix) && not (starts_with sk_prefix sk)
      then stop s
      else after_callback (callback s sk value) (λ s'. visit_batch sk_prefix s' items)

abbrev pub last_key : {V : Type 0} → List (Bytes × V) → Option Bytes
last_key [] = none
last_key ((k, v) ∷ []) = some k
last_key ((k, v) ∷ (j, w) ∷ r) = last_key ((j, w) ∷ r)

-- `format!("{}\0", last_sk)`
abbrev pub next_start : Bytes → Bytes
next_start last_sk = last_sk ++ 0x00 ∷ []

-- What follows a batch: `result.done` returns, and so does a batch without a last key.
abbrev pub round_end :
    {S : Type 0}
    → Flow S
    → Bool
    → Option Bytes
    → (Bytes → S → Option (Result S))
    → Option (Result S)
round_end (stop s) done last next = some (ok s)
round_end (fail e) done last next = some (err e)
round_end (more s) true last next = some (ok s)
round_end (more s) false none next = some (ok s)
round_end (more s) false (some last_sk) next = next last_sk s

module _ {V : Type 0} (kv : KvStore V) (is_utf8 : Bytes → Bool) where
  module _ {S : Type 0} (callback : S → Bytes → V → Result (S × Bool)) where
    -- The loop, with fuel for the rounds; `none` is out of fuel. `start` is the cursor, or at first
    -- the prefix.
    pub scan_loop : ℕ → kv.State → Bytes → Bytes → Bytes → ℕ → Bytes → S → Option (Result S)
    scan_loop zero store table pk sk_prefix batch_size start s = none
    scan_loop (suc fuel) store table pk sk_prefix batch_size start s =
        let result = kv.scan_range store table pk start (prefix_end is_utf8 sk_prefix) batch_size in
        round_end (visit_batch callback sk_prefix s result.items) result.done
          (last_key result.items)
          (λ last_sk s'. scan_loop fuel store table pk sk_prefix batch_size (next_start last_sk) s')

    unfoldable pub for_each_in_partition :
        ℕ → kv.State → Bytes → Bytes → Bytes → ℕ → S → Option (Result S)
    unfolding scan_loop
    for_each_in_partition fuel store table pk sk_prefix batch_size s =
        scan_loop fuel store table pk sk_prefix batch_size sk_prefix s
