-- ===== src/Gc/Shard.antt =====
-- The loop over the batches of one partition, which the tasks of
-- server/src/server/worker/blob_reaper/gc_pass.rs and repo_cleanup.rs share. `others n` is what
-- other callers do before the batch with fuel `n` behind it is read, `between n` what they do
-- between the read and the writes of the batch, and `cancelled n` whether the token is cancelled by
-- then.
pub mod Reaches
pub mod Keeps
pub mod Returns
use artifact_depot.Base.{
  ℕ, zero, suc, Bool, true, false, List, [], ◌∷◌, Option, some, none, if◌then◌else◌,
}
use artifact_depot.Base.Bytes.{Bytes}
use artifact_depot.Kv.{KvStore}
use artifact_depot.Service.Error.{Result, ok, err, DepotError}
use artifact_depot.Service.Scan.{last_key, next_start}

abbrev pub shard_batch_size : ℕ
shard_batch_size = 1000

-- What follows a batch: `result.done` ends the loop, and so does a batch without a last key.
abbrev pub shard_round_end :
    {S A : Type 0}
    → S × A
    → Bool
    → Option Bytes
    → (Bytes → S → A → Option (S × Result A))
    → Option (S × Result A)
shard_round_end (s, a) true last next = some (s, ok a)
shard_round_end (s, a) false none next = some (s, ok a)
shard_round_end (s, a) false (some last_sk) next = next last_sk s a

module _ {V A : Type 0} (kv : KvStore V) (others between : ℕ → kv.State → kv.State)
    (cancelled : ℕ → Bool) (body : List (Bytes × V) → kv.State → A → kv.State × A) where
  -- `none` is out of fuel. The cursor is at first the empty text.
  unfoldable pub shard_loop :
      ℕ → Bytes → Bytes → Bytes → kv.State → A → Option (kv.State × Result A)
  shard_loop zero table pk start s a = none
  shard_loop (suc fuel) table pk start s a =
      let seen = others fuel s in
      let result = kv.scan_range seen table pk start none shard_batch_size in
      let rest =
        shard_round_end (body result.items (between fuel seen) a) result.done
          (last_key result.items)
          (λ last_sk s' a'. shard_loop fuel table pk (next_start last_sk) s' a') in
      if cancelled fuel then some (s, err DepotError.internal) else rest
