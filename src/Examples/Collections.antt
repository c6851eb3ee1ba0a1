-- ===== src/Examples/Collections.antt =====
-- Passes of the garbage collection over a store with one artifact.
use artifact_depot.Base.{
  ℕ, ◌≡◌, refl, ◌∙◌, Bool, true, false, List, [], ◌∷◌, some, none, arith, inl, inr,
}
use artifact_depot.Base.Bytes.{Bytes, bytes_eq, contains_byte}
use artifact_depot.Keys.Shard.{KeyTriple, blob_key, blob_shard_pk, table_blobs, num_shards}
use artifact_depot.Keys.Tree.{NulFree}
use artifact_depot.Service.Artifact.Delete.{self_eq}
use artifact_depot.Service.Artifact.Keys.{artifact_key-NulFree, shard_pk-NulFree}
use artifact_depot.Service.Error.{ok}
use artifact_depot.Gc.Expiry.{CleanupRepo}
use artifact_depot.Gc.Orphans.{Candidates, Walk, candidate, sweep_files}
use artifact_depot.Gc.Orphans.Kept.{sweep_files-kept}
use artifact_depot.Gc.Orphans.Collected.{sweep_files-collects}
use artifact_depot.Gc.Orphans.Full.{AreBounded, sweep_files-AreBounded, sweep_files-full}
use artifact_depot.Gc.Pass.{GcStats, Preparation, World, Interference, gc_pass}
use artifact_depot.Gc.Pass.Returns.{gc_pass-returns}
use artifact_depot.Gc.Records.{BlobCounts, no_counts, sweep_records}
use artifact_depot.Gc.Records.Ends.{
  sweep_shards-returns, blob_shard_pk-NulFree, sweep_records-keeps,
}
use artifact_depot.Gc.Scan.{below_from}
use artifact_depot.Gc.Shard.Returns.{FitsIn, Shrinks}
use artifact_depot.Examples.Artifacts.{hash, kv, laws, libs, libs-NulFree, a_b, empty}
use artifact_depot.Examples.Blobs.{blobs, blob, blobs-CodecLaws}
use artifact_depot.Examples.Codecs.{records, trees}
use artifact_depot.Examples.Filters.{
  tiny, tiny-BloomLaws, Files, all_files, removed, has, removed-KeepsOthers, removed-gone,
}
use artifact_depot.Examples.Singles.{single-get, single-fits}
use artifact_depot.Examples.Updates.{stats}
use artifact_depot.Examples.Listings.{one, key, value}

-- The blob of the artifact, and another.
abbrev live : Bytes
live = 98 ∷ []

abbrev dead : Bytes
dead = 100 ∷ []

abbrev only_live : Bytes → Bool
only_live b = bytes_eq b live

abbrev walk : List (Bytes × Walk)
walk = (libs, some (some (live, 12) ∷ none ∷ some (dead, 5) ∷ [])) ∷ (dead, none) ∷ []

abbrev seen_before : Candidates
seen_before = ((libs, dead), record { first_seen_pass = 4 }) ∷ []

sweep_files-kept_example :
    has (sweep_files removed 5 10 false only_live walk seen_before all_files).files (libs, live)
    ≡ has all_files (libs, live)
sweep_files-kept_example =
    sweep_files-kept removed has removed-KeepsOthers 5 10 false only_live libs live walk seen_before
      all_files (inl (unfold bytes_eq in refl))

sweep_files-collects_example :
    let first = sweep_files removed 5 10 true only_live walk [] all_files in
    let second = sweep_files removed 6 10 false only_live walk first.candidates all_files in
    has second.files (libs, dead) ≡ false
sweep_files-collects_example =
    sweep_files-collects removed has 5 6 10 10 true only_live only_live libs dead walk walk []
      all_files all_files removed-KeepsOthers (removed-gone libs dead) (omega arith) (omega arith)
      (unfold bytes_eq in refl) (unfold bytes_eq in refl) (unfold candidate in refl) (omega arith)
      (inl (refl, inr (inl refl))) (inl (refl, inr (inl refl)))

sweep_files-AreBounded_example :
    AreBounded 5 10 (sweep_files removed 5 10 false only_live walk seen_before all_files).candidates
sweep_files-AreBounded_example =
    sweep_files-AreBounded removed 5 10 false only_live 4 walk seen_before all_files (omega arith)
      ((omega arith, tt), omega arith)

-- A candidate whose file is gone.
abbrev gone : Candidates
gone = ((dead, 1 ∷ []), record { first_seen_pass = 4 }) ∷ []

sweep_files-full_example : sweep_files removed 5 1 false only_live walk gone all_files ≡ record {
  candidates = gone;
  files = all_files;
  orphaned_blobs_deleted = 0;
  orphaned_blob_bytes_deleted = 0;
}
sweep_files-full_example =
    sweep_files-full removed 5 1 false only_live walk gone all_files (omega arith)
      (unfold bytes_eq in refl, tt)
      ((λ h. unfold candidate bytes_eq in refl, (λ h. unfold candidate bytes_eq in refl, tt)), tt)

key_free : NulFree key.pk
key_free = artifact_key-NulFree hash libs a_b libs-NulFree

fits : (table pk : Bytes) → NulFree pk → FitsIn kv 3 table pk one
unfolding one
fits = single-fits key value key_free

abbrev policy : CleanupRepo
policy = record {
  name = libs;
  is_docker = true;
  cleanup_max_age_days = some 30;
  cleanup_max_unaccessed_days = none;
}

abbrev quiet : Interference kv.State
quiet = record {
  scan_others = λ task n s. s;
  scan_between = λ task n s. s;
  sweep_others = λ store shard n s. s;
  sweep_between = λ store shard n s. s;
}

abbrev listed : Preparation
listed = record {
  repos = policy ∷ [];
  stores = walk;
  drained_repos = 0;
  cleaned_upload_sessions = 0;
  pre_expired = 0;
  docker_deleted = 0;
}

abbrev world : World kv.State Files
world = record {
  store = one;
  files = all_files;
  state = record { orphan_candidates = seen_before; pass = 4 };
}

gc_pass-returns_example :
    (world' : World kv.State Files) × (result : GcStats) × (gc_pass kv hash records trees blobs
        stats tiny removed 100 10 false 3
        (λ point. false)
        quiet
        (λ s. (s, ok listed))
        (ok 0)
        world
      ≡ some (world', ok result))
gc_pass-returns_example =
    gc_pass-returns kv laws hash records trees blobs stats tiny tiny-BloomLaws removed 100 10 false
      3 quiet (λ task n table s pk sk v f g. g) (λ task n table s pk sk v f g. g)
      (λ store shard n table s pk sk v f g. g) (λ store shard n table s pk sk v f g. g)
      (λ s. (s, ok listed)) world one listed 0 refl (libs-NulFree, tt)
      (libs-NulFree, (unfold contains_byte in refl, tt)) fits

abbrev blob_at : KeyTriple
blob_at = blob_key hash libs blob.hash

blob_free : NulFree blob_at.pk
blob_free = unfold blob_key in shard_pk-NulFree libs _ libs-NulFree

-- A store with one blob record.
abbrev one_blob : kv.State
one_blob = kv.put blob_at (blobs.to_vec blob) empty

same : ℕ → ℕ → kv.State → kv.State
same n m s = s

swept :
    (s' : kv.State) × (c' : BlobCounts) × (sweep_records kv blobs
        (λ b. true)
        false
        3
        (λ n m. false)
        same
        same
        libs
        one_blob
      ≡ some (s', ok c'))
    × Shrinks kv table_blobs one_blob s'
unfolding same sweep_records
swept =
    sweep_shards-returns kv laws blobs (λ b. true) false 3 same same (λ n m s pk sk v f g. g)
      (λ n m s pk sk v f g. g) libs (below_from num_shards 0) one_blob no_counts libs-NulFree
      (λ n.
        single-fits blob_at (blobs.to_vec blob) blob_free table_blobs (blob_shard_pk libs n)
          (blob_shard_pk-NulFree libs n libs-NulFree))

sweep_records-keeps_example : kv.get swept.0 blob_at ≡ some (blobs.to_vec blob)
unfolding same
sweep_records-keeps_example =
    sweep_records-keeps kv laws blobs (λ b. true) false 3 same same (λ n m. false) blob_at
      (blobs.to_vec blob) blob blob_free (blobs-CodecLaws.round_trip blob) refl (λ n m s h. h)
      (λ n m s h. h) libs one_blob swept.0 (ok swept.1) libs-NulFree
      (single-get blob_at (blobs.to_vec blob) blob_free blob_at blob_free
        ∙ rw (self_eq kv laws blob_at) refl)
      swept.2
