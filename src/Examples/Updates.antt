-- ===== src/Examples/Updates.antt =====
-- The updates of the browse tree and of the numbers of the stores at concrete inputs.
use artifact_depot.Base.{◌%◌, ◌≡◌, refl, true, [], ◌∷◌, some, none, arith, ◌==◌, if◌then◌else◌, inl}
use artifact_depot.Base.Bytes.{Bytes, bytes_eq, contains_byte}
use artifact_depot.Keys.Normalize.{normalize_path}
use artifact_depot.Keys.Tree.{ancestor_dirs}
use artifact_depot.Keys.Tree.Ancestors.{IsListed}
use artifact_depot.Keys.Shard.{KeyTriple, artifact_key, store_stats_key}
use artifact_depot.Kv.Codec.{Codec, CodecLaws}
use artifact_depot.Kv.Redb.Laws.{redb_kv}
use artifact_depot.Kv.Redb.Model.{tables, no_rows}
use artifact_depot.Service.Error.{Result, ok, err, DepotError}
use artifact_depot.Service.Artifact.Keys.{artifact_key-NulFree}
use artifact_depot.Update.Words.{word_size}
use artifact_depot.Update.Deltas.{DirDelta, dir_key, dir_changed, drain_dir_deltas, values}
use artifact_depot.Update.Merged.{sum_at, latest_at, number_at, drain_dir_deltas-sums}
use artifact_depot.Update.Apply.{absent_dir, delta_key, existing, apply_dir_delta}
use artifact_depot.Update.Applied.{IsApplied, apply_dir_delta_frame, apply_dir_delta-IsApplied}
use artifact_depot.Update.Flush.{final_flush}
use artifact_depot.Update.Ends.{final_flush-ends}
use artifact_depot.Update.Reaches.{delta_at, dir_changed-ancestor_dirs}
use artifact_depot.Update.Batch.{dir_work}
use artifact_depot.Update.Batch.Stuck.{dir_work-stuck}
use artifact_depot.Update.Stats.{StoreStatsRecord, flush_store_stats}
use artifact_depot.Update.Stats.Flushed.{Flushed, flush_store_stats-once}
use artifact_depot.Examples.Codecs.{trees, trees-CodecLaws}
use artifact_depot.Examples.Artifacts.{hash, kv, laws, libs, libs-NulFree, a_b, empty}

-- The directory "a" of the repository.
abbrev added : DirDelta
added = record {
  repo = libs;
  pk = libs;
  dir_path = 97 ∷ [];
  count_delta = 1;
  bytes_delta = 12;
  timestamp = 100;
}

-- One artifact less.
abbrev taken : DirDelta
taken = record added {
  count_delta = 18446744073709551615;
  bytes_delta = 18446744073709551604;
  timestamp = 90;
}

drain_dir_deltas-sums_example :
    let coalesced = values (drain_dir_deltas (added ∷ taken ∷ added ∷ [])) in
    let events = added ∷ taken ∷ added ∷ [] in
    (sum_at (λ d. d.count_delta) (dir_key added) coalesced % word_size
      ≡ sum_at (λ d. d.count_delta) (dir_key added) events % word_size)
    × (sum_at (λ d. d.bytes_delta) (dir_key added) coalesced % word_size
        ≡ sum_at (λ d. d.bytes_delta) (dir_key added) events % word_size)
    × (latest_at (dir_key added) coalesced ≡ latest_at (dir_key added) events)
    × (number_at (dir_key added) coalesced
        ≡ (if number_at (dir_key added) events == 0 then 0 else 1))
drain_dir_deltas-sums_example = drain_dir_deltas-sums (dir_key added) (added ∷ taken ∷ added ∷ [])

nothing_there : (k : KeyTriple) → kv.get_versioned empty k ≡ none
unfolding empty no_rows tables redb_kv
nothing_there k = refl

no_dir : (k : KeyTriple) → existing trees (kv.get_versioned empty k) ≡ ok (some absent_dir)
no_dir k = rw (nothing_there k) (unfold existing in refl)

apply_dir_delta-IsApplied_example :
    IsApplied trees kv laws trees-CodecLaws added absent_dir
      (apply_dir_delta trees kv (λ t. t) added empty)
apply_dir_delta-IsApplied_example =
    apply_dir_delta-IsApplied trees kv laws trees-CodecLaws (λ t. t) added absent_dir empty
      libs-NulFree (omega arith) (omega arith) (no_dir (delta_key added)) refl

apply_dir_delta_frame_example :
    kv.get_versioned (apply_dir_delta trees kv (λ t. t) added empty).0 (artifact_key hash libs a_b)
    ≡ kv.get_versioned empty (artifact_key hash libs a_b)
apply_dir_delta_frame_example =
    apply_dir_delta_frame trees kv laws (λ t. t) added (artifact_key hash libs a_b) empty
      libs-NulFree (artifact_key-NulFree hash libs a_b libs-NulFree)
      (inl (unfold artifact_key delta_key bytes_eq in refl))

final_flush-ends_example :
    (t : kv.State) × (final_flush hash trees kv (λ d s. s) 3 ((dir_key added, added) ∷ []) empty
      ≡ some t)
final_flush-ends_example =
    final_flush-ends hash trees kv (λ d s. s) 2 3 ((dir_key added, added) ∷ []) empty
      (omega arith, tt) (omega arith)

dir_changed-ancestor_dirs_example :
    let event = dir_changed hash libs a_b 1 12 100 in
    (t : kv.State) × (final_flush hash trees kv (λ d s. s) 5 (drain_dir_deltas (event ∷ [])) empty
      ≡ some t)
    × ((dir : Bytes)
        → IsListed dir (ancestor_dirs (normalize_path a_b))
        → IsApplied trees kv laws trees-CodecLaws
            (delta_at hash libs 1 12 100 dir)
            absent_dir
            (t, ok true))
dir_changed-ancestor_dirs_example =
    dir_changed-ancestor_dirs hash trees trees-CodecLaws kv laws libs 1 12 100 libs-NulFree
      (omega arith, omega arith) a_b 5 (λ dir. absent_dir) empty
      (unfold normalize_path contains_byte in refl) (unfold normalize_path in omega arith)
      (λ dir l. no_dir (delta_key (delta_at hash libs 1 12 100 dir))) (λ dir l. refl)

dir_work-stuck_example :
    dir_work hash trees kv (λ d s. s) (λ n. []) 1000 ((dir_key taken, taken) ∷ []) empty ≡ none
dir_work-stuck_example =
    dir_work-stuck hash trees kv (λ d s. s) taken refl 1000 empty (λ t h. h)
      (nothing_there (delta_key taken))

abbrev read_three : Bytes → Result StoreStatsRecord
read_three (a ∷ b ∷ c ∷ []) = ok (record { blob_count = a; total_bytes = b; updated_at = c })
read_three other = err DepotError.internal

abbrev pub stats : Codec StoreStatsRecord Bytes
stats = record {
  to_vec = λ r. r.blob_count ∷ r.total_bytes ∷ r.updated_at ∷ [];
  from_slice = read_three;
}

stats-CodecLaws : CodecLaws stats
stats-CodecLaws = record { round_trip = λ a. refl }

flush_store_stats-once_example :
    let s = kv.put (store_stats_key libs) (5 ∷ 60 ∷ 7 ∷ []) empty in
    Flushed stats kv laws
      (λ n t. t)
      100
      libs
      1
      12
      (λ n t. refl)
      (kv.get_versioned s (store_stats_key libs))
      []
      (flush_store_stats stats kv (λ n t. t) 100 ((libs, (1, 12)) ∷ []) [] s)
flush_store_stats-once_example =
    flush_store_stats-once stats kv laws (λ n t. t) 100 libs 1 12 (λ n t. refl) []
      (kv.put (store_stats_key libs) (5 ∷ 60 ∷ 7 ∷ []) empty)
