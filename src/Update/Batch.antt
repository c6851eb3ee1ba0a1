-- ===== src/Update/Batch.antt =====
-- `apply_dir_batch`, and the part of the loop of `run_update_worker` that applies directory deltas
-- while there is work: the deltas of a batch are applied one after the other, in any order.
pub mod Stuck
use artifact_depot.Base.{
  ℕ, zero, suc, ◌+◌, Bool, true, false, List, [], ◌∷◌, Option, some, none, if◌then◌else◌,
}
use artifact_depot.Base.Bytes.{Bytes, is_empty}
use artifact_depot.Kv.{KvStore}
use artifact_depot.Kv.Codec.{Codec}
use artifact_depot.Service.Error.{Result, ok, err}
use artifact_depot.Service.Artifact.{TreeEntry}
use artifact_depot.Update.Deltas.{
  DirDelta, DirDeltaMap, merge_all, drain_dir_deltas, make_parent_delta, values,
}
use artifact_depot.Update.Apply.{apply_dir_delta}

pub record DirBatchResult : Type 0 where
  pub parents : List DirDelta
  pub retries : List DirDelta

module _ (blake3 : Bytes → ℕ → ℕ) where
  -- The outcome of a delta, before those of the deltas behind it.
  abbrev pub with_outcome : DirDelta → Result Bool → DirBatchResult → DirBatchResult
  with_outcome delta (ok true) rest = if is_empty delta.dir_path then rest else record {
    parents = make_parent_delta blake3 delta ∷ rest.parents;
    retries = rest.retries;
  }
  with_outcome delta (ok false) rest = record {
    parents = rest.parents;
    retries = delta ∷ rest.retries;
  }
  with_outcome delta (err e) rest = record {
    parents = rest.parents;
    retries = delta ∷ rest.retries;
  }

  module _ {K V : Type 0} (trees : Codec (TreeEntry K) V) (kv : KvStore V)
      (others : DirDelta → kv.State → kv.State) where
    unfoldable pub apply_dir_batch : List DirDelta → kv.State → kv.State × DirBatchResult
    unfolding apply_dir_delta make_parent_delta
    apply_dir_batch [] s = (s, record { parents = []; retries = [] })
    apply_dir_batch (delta ∷ deltas) s =
        let (s', r) = apply_dir_delta trees kv (others delta) delta s in
        let (s'', rest) = apply_dir_batch deltas s' in (s'', with_outcome delta r rest)

    -- A round: the store, the propagation buffer, and `did_work`.
    abbrev pub batch_round : DirDeltaMap → kv.State → kv.State × DirDeltaMap × Bool
    batch_round [] s = (s, [], false)
    batch_round (entry ∷ entries) s =
        let (s', r) = apply_dir_batch (values (entry ∷ entries)) s in
        (s', merge_all r.retries (merge_all r.parents []), true)

    unfoldable pub dir_round :
        List DirDelta → DirDeltaMap → kv.State → kv.State × DirDeltaMap × Bool
    unfolding drain_dir_deltas merge_all apply_dir_batch
    dir_round events propagation_buf s =
        batch_round (merge_all (values propagation_buf) (drain_dir_deltas events)) s

    -- `while did_work`, on fuel for the rounds: `arrivals n` are the events that wait in the channel
    -- when the round with `n` more behind it begins.
    unfoldable pub dir_work : (ℕ → List DirDelta) → ℕ → DirDeltaMap → kv.State → Option kv.State
    unfolding dir_round
    dir_work arrivals zero propagation_buf s = none
    dir_work arrivals (suc fuel) propagation_buf s =
        let (s', buf, did_work) = dir_round (arrivals fuel) propagation_buf s in
        let again = dir_work arrivals fuel buf s' in if did_work then again else some s'
