-- ===== src/Gc/Scan/Live.antt =====
-- A live record stays in place through the scans of all partitions.
use artifact_depot.Base.{
  ℕ, ◌≡◌, refl, sym, ap, ◌∙◌, Bool, ◌||◌, List, [], ◌∷◌, Option, some, none, All, Bool-cases, inl,
  inr,
}
use mathlib.Core.Path.{subst}
use artifact_depot.Base.Bytes.{Bytes, is_empty}
use artifact_depot.Keys.Normalize.{normalize_path}
use artifact_depot.Keys.Tree.{NulFree}
use artifact_depot.Keys.Shard.{
  KeyTriple, artifact_key, tree_entry_key, table_artifacts, artifact_shard_pk, sharded_pk,
}
use artifact_depot.Keys.Shard.Unique.{artifact_key_iff, tree_entry_key_iff, shard_pk-injective}
use artifact_depot.Kv.{KvStore, KvLaws, key_eq, value_of}
use artifact_depot.Kv.Codec.{Codec}
use artifact_depot.Kv.Sorted.{Holds}
use artifact_depot.Service.Artifact.{ArtifactRecord, TreeEntry}
use artifact_depot.Service.Artifact.Keys.{
  artifact_key-NulFree, tree_entry_key-NulFree, shard_pk-NulFree, key_eq-tables, key_eq-tables',
}
use artifact_depot.Service.Error.{Result, ok, err}
use artifact_depot.Gc.Bloom.{BloomCrate, BloomLaws}
use artifact_depot.Gc.Deletes.{key_eq_sound}
use artifact_depot.Gc.Expiry.{CleanupRepo, ExpiryReason, record_expired, tree_last_accessed_at}
use artifact_depot.Gc.Scan.{Expired, ShardScan, paths_of, sort_items, expire_entries, scan_batch}
use artifact_depot.Gc.Scan.Batch.{Doomed, sort-Doomed, fate, IsExpired}
use artifact_depot.Gc.Scan.Deletes.{Misses, paired-keeps, paired-Shrinks, after_paired}

pub artifact_shard_pk-NulFree :
    (repo : Bytes) (n : ℕ) → NulFree repo → NulFree (artifact_shard_pk repo n)
unfolding artifact_shard_pk
artifact_shard_pk-NulFree repo n h = shard_pk-NulFree repo n h

abbrev pub in_shard : Bytes → ℕ → Bytes → KeyTriple
in_shard repo n sk = record { table = table_artifacts; pk = artifact_shard_pk repo n; sk = sk }

tree_entry_key-repo :
    (blake3 : Bytes → ℕ → ℕ) (r r' q p : Bytes)
    → tree_entry_key blake3 r q ≡ tree_entry_key blake3 r' p
    → r ≡ r'
unfolding tree_entry_key sharded_pk
tree_entry_key-repo blake3 r r' q p e = (shard_pk-injective r r' _ _ (ap (λ k. k.pk) e)).0

module _ {K V : Type 0} (kv : KvStore V) (laws : KvLaws kv) (blake3 : Bytes → ℕ → ℕ)
    (records : Codec (ArtifactRecord K) V) (trees : Codec (TreeEntry K) V) (crate : BloomCrate)
    (blaws : BloomLaws crate) (now : ℕ) (dry_run : Bool) (target : CleanupRepo) (p : Bytes) (v : V)
    (r : ArtifactRecord K) where
  abbrev pub fate_in : CleanupRepo → kv.State → Bytes → ArtifactRecord K → Option ExpiryReason
  fate_in repo = fate kv blake3 records trees crate blaws now dry_run repo

  -- The record is in place and not expired, and every record of the repository stands under the key
  -- of its path, which has no NUL.
  pub record IsLive (s : kv.State) : Type 0 where
    pub here : kv.get s (artifact_key blake3 target.name p) ≡ some v
    pub live : fate_in target s p r ≡ none
    pub placed :
        (n : ℕ) (j : Bytes) (w : V)
        → kv.get s (in_shard target.name n j) ≡ some w
        → (artifact_key blake3 target.name j ≡ in_shard target.name n j) × NulFree j

  fate-same :
      (s t : kv.State)
      → kv.get_versioned s (tree_entry_key blake3 target.name p)
        ≡ kv.get_versioned t (tree_entry_key blake3 target.name p)
      → fate_in target s p r ≡ fate_in target t p r
  unfolding record_expired tree_last_accessed_at
  fate-same s t e = rw e

  module _ (readable : records.from_slice v ≡ ok r) (target_free : NulFree target.name)
      (normal : normalize_path p ≡ p) (path_free : NulFree p) (repo : CleanupRepo)
      (repo_free : NulFree repo.name) (own : repo.name ≡ target.name → repo ≡ target) (n : ℕ)
      (seen t : kv.State) (before : IsLive seen) (now_live : IsLive t) where
    abbrev From : Bytes → V → Type 0
    From j w = kv.get seen (in_shard repo.name n j) ≡ some w

    abbrev DoomedHere : Bytes → Type 0
    DoomedHere = Doomed kv blake3 records trees crate blaws now dry_run repo From t

    -- The record itself is not among the expired.
    same_expired :
        (q : Bytes) (w : V)
        → repo ≡ target
        → q ≡ p
        → w ≡ v
        → IsExpired kv blake3 records trees crate blaws now dry_run repo t q (records.from_slice w)
        → ⊥
    same_expired q w eq_repo eq_path eq_value h =
        judged (records.from_slice w) (ap records.from_slice eq_value ∙ readable) h
      where
        judged :
            (x : Result (ArtifactRecord K))
            → x ≡ ok r
            → IsExpired kv blake3 records trees crate blaws now dry_run repo t q x
            → ⊥
        judged (err e) same h = h
        judged (ok r') same (x, dead) = absurd (cc (eq_repo, eq_path, same, dead, now_live.live))

    not_doomed :
        (q : Bytes)
        → repo.name ≡ target.name
        → normalize_path q ≡ normalize_path p
        → DoomedHere q
        → ⊥
    not_doomed q same_name same_path (w, there, dead) =
        let there' : kv.get seen (in_shard target.name n q) ≡ some w =
          subst (λ x. kv.get seen (in_shard x n q) ≡ some w) same_name there in
        let key = (before.placed n q w there').0 in
        let key' =
          sym key ∙ (artifact_key_iff blake3 target.name target.name q p).1 (refl, same_path) in
        same_expired q w (own same_name) (path_of_key q n key')
          (some_same w v (sym there' ∙ ap (kv.get seen) key' ∙ before.here)) dead
      where
        some_same : (x y : V) → some x ≡ some y → x ≡ y
        some_same x y e = cc

        path_of_key :
            (j : Bytes) (m : ℕ)
            → in_shard target.name m j ≡ artifact_key blake3 target.name p
            → j ≡ p
        path_of_key j m e = ap (λ k. k.sk) e ∙ unfold artifact_key in normal

    Misses-record :
        (q : Bytes)
        → DoomedHere q
        → Misses kv laws blake3 records trees repo.name repo_free
            (artifact_key blake3 target.name p)
            q
    Misses-record q doomed = (
      elim (Bool-cases
          (key_eq (artifact_key blake3 repo.name q) (artifact_key blake3 target.name p))) [
            | inl e ↦
                let same = (artifact_key_iff blake3 repo.name target.name q p).0 (
                  key_eq_sound (artifact_key blake3 repo.name q) (artifact_key blake3 target.name p)
                    e) in
                absurd (not_doomed q same.0 same.1 doomed)
            | inr e ↦ e
          ],
      key_eq-tables blake3 repo.name q target.name p,
    )

    tree_same :
        (q : Bytes)
        → DoomedHere q
        → tree_entry_key blake3 repo.name q ≡ tree_entry_key blake3 target.name p
        → ⊥
    tree_same q (w, there, dead) e =
        let same_name = tree_entry_key-repo blake3 repo.name target.name q p e in
        let there' : kv.get seen (in_shard target.name n q) ≡ some w =
          subst (λ x. kv.get seen (in_shard x n q) ≡ some w) same_name there in
        let (key, q_free) = before.placed n q w there' in
        let q_normal : normalize_path q ≡ q = sk_of q key in
        let same_path =
          ((tree_entry_key_iff blake3 repo.name target.name q p (rw q_normal q_free)
              (rw normal path_free)).0
            e).1 in
        not_doomed q same_name same_path (w, there, dead)
      where
        sk_of :
            (j : Bytes)
            → artifact_key blake3 target.name j ≡ in_shard target.name n j
            → normalize_path j ≡ j
        sk_of j h = unfold artifact_key in ap (λ k. k.sk) h

    Misses-tree :
        (q : Bytes)
        → DoomedHere q
        → Misses kv laws blake3 records trees repo.name repo_free
            (tree_entry_key blake3 target.name p)
            q
    Misses-tree q doomed = (
      key_eq-tables' blake3 repo.name q target.name p,
      elim (Bool-cases
          (key_eq (tree_entry_key blake3 repo.name q) (tree_entry_key blake3 target.name p))) [
            | inl e ↦ absurd (
                tree_same q doomed (
                  key_eq_sound (tree_entry_key blake3 repo.name q)
                    (tree_entry_key blake3 target.name p) e))
            | inr e ↦ e
          ],
    )

    All-map :
        (P Q : Bytes → Type 0) (xs : List Bytes) → ((x : Bytes) → P x → Q x) → All P xs → All Q xs
    All-map P Q [] f h = tt
    All-map P Q (x ∷ xs) f h = (f x h.0, All-map P Q xs f h.1)

    paired-IsLive :
        (paths : List Bytes)
        → All DoomedHere paths
        → IsLive (after_paired kv laws blake3 records trees repo.name repo_free paths t)
    paired-IsLive paths doomed =
        let t' = after_paired kv laws blake3 records trees repo.name repo_free paths t in
        let key = artifact_key blake3 target.name p in
        let tree_key = tree_entry_key blake3 target.name p in
        record {
          here =
              laws.get_lem t' key
              ∙ ap value_of (
                  paired-keeps kv laws blake3 records trees repo.name repo_free paths t key
                    (artifact_key-NulFree blake3 target.name p target_free)
                    (All-map DoomedHere _ paths Misses-record doomed))
              ∙ sym (laws.get_lem t key)
              ∙ now_live.here;
          live =
              fate-same t' t (
                paired-keeps kv laws blake3 records trees repo.name repo_free paths t tree_key
                  (tree_entry_key-NulFree blake3 target.name p target_free)
                  (All-map DoomedHere _ paths Misses-tree doomed))
              ∙ now_live.live;
          placed = λ m j w h. now_live.placed m j w (
              paired-Shrinks kv laws blake3 records trees repo.name repo_free table_artifacts paths
                t (artifact_shard_pk target.name m) j w
                (artifact_shard_pk-NulFree target.name m target_free) h);
        }

    -- A batch of any partition leaves a live record in place.
    pub scan_batch-IsLive :
        (items : List (Bytes × V)) (l : ShardScan crate.Filter)
        → ((j : Bytes) (w : V) → Holds j w items → From j w)
        → IsLive (scan_batch kv blake3 records trees crate now dry_run repo items t l).0
    unfolding scan_batch
    scan_batch-IsLive items l from =
        expired (sort_items kv blake3 records trees crate now dry_run repo t items (l, [])) (
          sort-Doomed kv blake3 records trees crate blaws now dry_run repo From t items (l, []) from
            tt)
      where
        expired :
            (c : ShardScan crate.Filter × List Expired)
            → All DoomedHere (paths_of c.1)
            → IsLive (expire_entries kv blake3 records trees crate now dry_run repo c t).0
        expired (l', entries) doomed = elim (Bool-cases (is_empty entries || dry_run)) [
          | inl idle ↦ rw idle now_live
          | inr some_left ↦ rw some_left (paired-IsLive (paths_of entries) doomed)
        ]
