-- ===== src/Kv/Redb/Batch.antt =====
-- How the writer groups operations into transactions cannot be seen, but for commits that fail.
use artifact_depot.Base.{
  ℕ, suc, ◌≡◌, Bool, true, false, List, [], ◌∷◌, ◌++◌, Option, some, none, map, take, drop,
  take-append-drop, leb, if◌then◌else◌,
}
use mathlib.Core.Path.{subst}
use artifact_depot.Kv.Redb.{
  Redb, WriteOp, OpResult, run_op, run_ops, execute_batch, writer_task, batch_cap,
}

module _ (r : Redb) (failing : Bool) where
  -- The operations of a queue, answered one by one in their order up to those that are left: with
  -- the result that the operation has on the database of those before it, and with its effect; or,
  -- where commits may fail, with an error and without any effect.
  pub data Answered
      : r.Db → List WriteOp → List (Option OpResult) → List WriteOp → r.Db → Type 0 where
    waiting : (d : r.Db) (ops : List WriteOp) → Answered d ops [] ops d
    served :
        (d d' : r.Db) (op : WriteOp) (ops left : List WriteOp) (replies : List (Option OpResult))
        → Answered (run_op r d op).0 ops replies left d'
        → Answered d (op ∷ ops) (some (run_op r d op).1 ∷ replies) left d'
    refused :
        (d d' : r.Db) (op : WriteOp) (ops left : List WriteOp) (replies : List (Option OpResult))
        → failing ≡ true
        → Answered d ops replies left d'
        → Answered d (op ∷ ops) (none ∷ replies) left d'

  -- A commit fails only where commits may fail.
  abbrev pub MayFail : List (ℕ × Bool) → Type 0
  MayFail [] = Unit
  MayFail ((n, true) ∷ rounds) = MayFail rounds
  MayFail ((n, false) ∷ rounds) = (failing ≡ true) × MayFail rounds

  module _ (d' : r.Db) (rest left : List WriteOp) (more : List (Option OpResult)) where
    served_all :
        (d : r.Db) (ops : List WriteOp)
        → Answered (run_ops r d ops).0 rest more left d'
        → Answered d (ops ++ rest) (map some (run_ops r d ops).1 ++ more) left d'
    unfolding run_ops
    served_all d [] h = h
    served_all d (op ∷ ops) h =
        served d d' op (ops ++ rest) left (map some (run_ops r (run_op r d op).0 ops).1 ++ more)
          (served_all (run_op r d op).0 ops h)

    refused_all :
        (d : r.Db) (ops : List WriteOp)
        → failing ≡ true
        → Answered d rest more left d'
        → Answered d (ops ++ rest) (map (λ _. none) ops ++ more) left d'
    refused_all d [] f h = h
    refused_all d (op ∷ ops) f h =
        refused d d' op (ops ++ rest) left (map (λ _. none) ops ++ more) f (refused_all d ops f h)

  -- However many operations wait in each round, and whichever commits fail: the writer answers the
  -- operations in their order, up to those that it leaves in the channel. Each has the result and
  -- the effect that it has when those before it that were not refused are run one by one, or, only
  -- if a commit fails, an error and no effect.
  pub writer_task-Answered :
      (rounds : List (ℕ × Bool)) (d : r.Db) (queue : List WriteOp)
      → MayFail rounds
      → let (d', replies, left) = writer_task r rounds d queue in Answered d queue replies left d'
  unfolding writer_task execute_batch
  writer_task-Answered [] d queue h = waiting d queue
  writer_task-Answered ((n, true) ∷ rounds) d queue h =
      let size = if leb batch_cap n then batch_cap else suc n in
      let e = (run_ops r d (take size queue)).0 in
      let (d', more, left) = writer_task r rounds e (drop size queue) in
      subst (λ ops. Answered d ops (map some (run_ops r d (take size queue)).1 ++ more) left d')
        (take-append-drop size queue)
        (served_all d' (drop size queue) left more d (take size queue)
          (writer_task-Answered rounds e (drop size queue) h))
  writer_task-Answered ((n, false) ∷ rounds) d queue h =
      let size = if leb batch_cap n then batch_cap else suc n in
      let (d', more, left) = writer_task r rounds d (drop size queue) in
      subst (λ ops. Answered d ops (map (λ _. none) (take size queue) ++ more) left d')
        (take-append-drop size queue)
        (refused_all d' (drop size queue) left more d (take size queue) h.0
          (writer_task-Answered rounds d (drop size queue) h.1))
