-- ===== src/Gc/Pass/Tasks.antt =====
-- The tasks of a scan: one for each repository and shard.
use artifact_depot.Base.{
  ℕ, zero, suc, ◌+◌, ◌≤◌, ◌<◌, ◌≡◌, ap, ◌⊎◌, inl, inr, List, [], ◌∷◌, ◌++◌, All, arith,
}
use artifact_depot.Base.Bytes.{Bytes}
use artifact_depot.Keys.Normalize.{normalize_path}
use artifact_depot.Keys.Shard.{artifact_key, artifact_shard_pk, sharded_pk, shard_of, num_shards}
use artifact_depot.Gc.Expiry.{CleanupRepo}
use artifact_depot.Gc.Scan.{below_from, tasks_of, scan_tasks}
use artifact_depot.Gc.Scan.Finds.{IsTask}
use artifact_depot.Gc.Scan.Live.{in_shard}

-- The repository is in the list.
abbrev pub IsRepo : CleanupRepo → List CleanupRepo → Type 0
IsRepo target [] = ⊥
IsRepo target (repo ∷ repos) = (repo ≡ target) ⊎ IsRepo target repos

All-append :
    (P : CleanupRepo × ℕ → Type 0) (xs ys : List (CleanupRepo × ℕ))
    → All P xs
    → All P ys
    → All P (xs ++ ys)
All-append P [] ys h k = k
All-append P (x ∷ xs) ys h k = (h.0, All-append P xs ys h.1 k)

IsTask-left :
    (task : CleanupRepo × ℕ) (xs ys : List (CleanupRepo × ℕ))
    → IsTask task xs
    → IsTask task (xs ++ ys)
IsTask-left task [] ys h = absurd h
IsTask-left task (x ∷ xs) ys (inl e) = inl e
IsTask-left task (x ∷ xs) ys (inr h) = inr (IsTask-left task xs ys h)

IsTask-right :
    (task : CleanupRepo × ℕ) (xs ys : List (CleanupRepo × ℕ))
    → IsTask task ys
    → IsTask task (xs ++ ys)
IsTask-right task [] ys h = h
IsTask-right task (x ∷ xs) ys h = inr (IsTask-right task xs ys h)

below_from-IsTask :
    (repo : CleanupRepo) (left first n : ℕ)
    → first ≤ n
    → n < first + left
    → IsTask (repo, n) (tasks_of repo (below_from left first))
below_from-IsTask repo zero first n h k = absurd (omega arith)
below_from-IsTask repo (suc left) first n h k = elim (split first n h) [
  | inl e ↦ inl (ap (λ m. (repo, m)) e)
  | inr l ↦ inr (below_from-IsTask repo left (first + 1) n (omega arith) (omega arith))
]
  where
    split : (a b : ℕ) → a ≤ b → (a ≡ b) ⊎ (a < b)
    split a b h = grind arith

-- Every shard of a repository of the list has its task.
pub scan_tasks-IsTask :
    (target : CleanupRepo) (repos : List CleanupRepo) (n : ℕ)
    → IsRepo target repos
    → n < num_shards
    → IsTask (target, n) (scan_tasks repos)
unfolding scan_tasks
scan_tasks-IsTask target [] n h k = absurd h
scan_tasks-IsTask target (repo ∷ repos) n (inl e) k = rw e (
    IsTask-left (target, n) (tasks_of target (below_from num_shards 0)) (scan_tasks repos)
      (below_from-IsTask target num_shards 0 n (omega arith) (omega arith)))
scan_tasks-IsTask target (repo ∷ repos) n (inr h) k =
    IsTask-right (target, n) (tasks_of repo (below_from num_shards 0)) (scan_tasks repos)
      (scan_tasks-IsTask target repos n h k)

-- What holds of every repository holds of every task.
module _ (P : CleanupRepo → Type 0) where
  tasks_of-All :
      (repo : CleanupRepo) (shards : List ℕ)
      → P repo
      → All (λ (task : CleanupRepo × ℕ). P task.0) (tasks_of repo shards)
  tasks_of-All repo [] h = tt
  tasks_of-All repo (n ∷ shards) h = (h, tasks_of-All repo shards h)

  pub scan_tasks-All :
      (repos : List CleanupRepo)
      → All P repos
      → All (λ (task : CleanupRepo × ℕ). P task.0) (scan_tasks repos)
  unfolding scan_tasks
  scan_tasks-All [] h = tt
  scan_tasks-All (repo ∷ repos) h =
      All-append (λ task. P task.0) (tasks_of repo (below_from num_shards 0)) (scan_tasks repos)
        (tasks_of-All repo (below_from num_shards 0) h.0) (scan_tasks-All repos h.1)

-- A normalized path stands in one of the shards.
pub artifact_key-in_shard :
    (blake3 : Bytes → ℕ → ℕ) (repo p : Bytes)
    → normalize_path p ≡ p
    → (n : ℕ) × (n < num_shards) × (artifact_key blake3 repo p ≡ in_shard repo n p)
unfolding artifact_key sharded_pk artifact_shard_pk shard_of
artifact_key-in_shard blake3 repo p normal =
    (shard_of blake3 p, unfold shard_of in omega arith, rw normal)
