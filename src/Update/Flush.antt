-- ===== src/Update/Flush.antt =====
-- The last part of `run_update_worker`, after the cancellation: the deltas that are left go up to
-- the root. `others` is what other callers do during the application of a delta.
use artifact_depot.Base.{
  ℕ, zero, suc, Bool, true, false, List, [], ◌∷◌, Option, some, none, if◌then◌else◌,
}
use artifact_depot.Base.Bytes.{Bytes, is_empty}
use artifact_depot.Kv.{KvStore}
use artifact_depot.Kv.Codec.{Codec}
use artifact_depot.Service.Error.{Result, ok, err}
use artifact_depot.Service.Artifact.{TreeEntry}
use artifact_depot.Update.Deltas.{DirDelta, DirDeltaMap, merge_dir_delta, make_parent_delta, values}
use artifact_depot.Update.Apply.{apply_dir_delta}

module _ (blake3 : Bytes → ℕ → ℕ) where
  -- `Ok(true) if !dir_path.is_empty()`
  abbrev pub with_parent : DirDelta → Result Bool → DirDeltaMap → DirDeltaMap
  with_parent delta (ok true) next =
      if is_empty delta.dir_path
      then next
      else merge_dir_delta (make_parent_delta blake3 delta) next
  with_parent delta (ok false) next = next
  with_parent delta (err e) next = next

  module _ {K V : Type 0} (trees : Codec (TreeEntry K) V) (kv : KvStore V)
      (others : DirDelta → kv.State → kv.State) where
    -- The loop over the coalesced deltas of one round.
    unfoldable pub flush_round : List DirDelta → DirDeltaMap → kv.State → kv.State × DirDeltaMap
    unfolding apply_dir_delta merge_dir_delta make_parent_delta
    flush_round [] next s = (s, next)
    flush_round (delta ∷ deltas) next s =
        let (s', r) = apply_dir_delta trees kv (others delta) delta s in
        flush_round deltas (with_parent delta r next) s'

    -- On fuel for the rounds; `none` is out of fuel.
    unfoldable pub final_flush : ℕ → DirDeltaMap → kv.State → Option kv.State
    unfolding flush_round
    final_flush zero coalesced s = none
    final_flush (suc fuel) [] s = some s
    final_flush (suc fuel) (entry ∷ entries) s =
        let (s', next) = flush_round (values (entry ∷ entries)) [] s in final_flush fuel next s'
