-- ===== src/Update/Batch/Stuck.antt =====
-- Deltas that are not applied, and the loop of the worker.
use artifact_depot.Base.{
  ℕ, zero, suc, ◌∙◌, ap, Bool, if◌then◌else◌, ◌≡◌, refl, true, false, [], ◌∷◌, some, none,
}
use artifact_depot.Base.Bytes.{Bytes}
use artifact_depot.Kv.{KvStore}
use artifact_depot.Kv.Codec.{Codec}
use artifact_depot.Service.Error.{ok}
use artifact_depot.Service.Artifact.{TreeEntry}
use artifact_depot.Update.Words.{not_positive}
use artifact_depot.Update.Deltas.{
  DirDelta, DirDeltaMap, dir_key, merge_all, drain_dir_deltas, merge_dir_delta,
}
use artifact_depot.Update.Apply.{delta_key, existing, write_dir, apply_dir_delta}
use artifact_depot.Update.Batch.{apply_dir_batch, dir_round, dir_work}

module _ {K V : Type 0} (blake3 : Bytes → ℕ → ℕ) (trees : Codec (TreeEntry K) V) (kv : KvStore V)
    (others : DirDelta → kv.State → kv.State) (delta : DirDelta)
    (less : not_positive delta.count_delta ≡ true) where
  abbrev Gone : kv.State → Type 0
  Gone s = kv.get_versioned s (delta_key delta) ≡ none

  refused :
      (s : kv.State)
      → Gone s
      → apply_dir_delta trees kv (others delta) delta s ≡ (others delta s, ok false)
  unfolding apply_dir_delta existing write_dir
  refused s gone = rw (gone, less) refl

  abbrev waiting : DirDeltaMap
  waiting = (dir_key delta, delta) ∷ []

  same_round :
      (s : kv.State)
      → Gone s
      → dir_round blake3 trees kv others [] waiting s ≡ (others delta s, waiting, true)
  unfolding dir_round apply_dir_batch drain_dir_deltas merge_all merge_dir_delta
  same_round s gone = rw (refused s gone) refl

  work-round :
      (fuel : ℕ) (buf : DirDeltaMap) (s : kv.State) (r : kv.State × DirDeltaMap × Bool)
      → dir_round blake3 trees kv others [] buf s ≡ r
      → dir_work blake3 trees kv others (λ n. []) (suc fuel) buf s
        ≡ (if r.2 then dir_work blake3 trees kv others (λ n. []) fuel r.1 r.0 else some r.0)
  unfolding dir_work
  work-round fuel buf s r e =
      ap (λ w. if w.2 then dir_work blake3 trees kv others (λ n. []) fuel w.1 w.0 else some w.0) e

  -- If a directory is absent, and stays so whatever other callers do, a delta for it whose count is
  -- not positive keeps the loop of the worker busy as long as the delta is alone in the propagation
  -- buffer and no event arrives: the loop does not end within any number of such rounds, so the
  -- worker neither sleeps nor sees the cancellation.
  pub dir_work-stuck :
      (fuel : ℕ) (s : kv.State)
      → ((t : kv.State)
          → kv.get_versioned t (delta_key delta) ≡ none
          → kv.get_versioned (others delta t) (delta_key delta) ≡ none)
      → kv.get_versioned s (delta_key delta) ≡ none
      → dir_work blake3 trees kv others (λ n. []) fuel ((dir_key delta, delta) ∷ []) s ≡ none
  unfolding dir_work
  dir_work-stuck zero s stays gone = refl
  dir_work-stuck (suc fuel) s stays gone =
      work-round fuel waiting s _ (same_round s gone)
      ∙ dir_work-stuck fuel (others delta s) stays (stays s gone)
