-- ===== src/Update/Applied.antt =====
-- What a delta does to the entries of the browse tree.
use artifact_depot.Base.{
  ℕ, ◌≡◌, ◌≢◌, refl, sym, ap, ◌∙◌, ◌⊎◌, Bool, true, false, not, ◌&&◌, Option, some, none, ◌==◌,
  if◌then◌else◌, arith, Bool-cases, inl, inr,
}
use mathlib.Core.Path.{subst}
use artifact_depot.Keys.Tree.{NulFree}
use artifact_depot.Keys.Shard.{KeyTriple}
use artifact_depot.Kv.{KvStore, KvLaws, Cell, key_eq, version_matches, next_version, expected_or_0}
use artifact_depot.Kv.Codec.{Codec, CodecLaws}
use artifact_depot.Service.Error.{Result, ok, err}
use artifact_depot.Service.Artifact.{TreeEntry, TreeEntryKind}
use artifact_depot.Service.Artifact.Delete.{self_eq}
use artifact_depot.Update.Words.{IsWord, add_i64, max_0, not_positive}
use artifact_depot.Update.Deltas.{DirDelta}
use artifact_depot.Update.Apply.{
  DirState, absent_dir, delta_key, new_state, is_new, dir_entry, done, existing, removed, parsed,
  as_dir, write_dir, apply_existing, apply_dir_delta,
}

ok_eq : {A : Type 0} {a b : A} → ok a ≡ ok b → a ≡ b
ok_eq e = cc

some_eq : {A : Type 0} {a b : A} → some a ≡ some b → a ≡ b
some_eq e = cc

module _ {K V : Type 0} (trees : Codec (TreeEntry K) V) (kv : KvStore V) (laws : KvLaws kv) where
  -- The same entry at `j`.
  abbrev Kept : KeyTriple → kv.State → kv.State → Type 0
  Kept j s t = kv.get_versioned t j ≡ kv.get_versioned s j

  abbrev Untouched : KeyTriple → KeyTriple → kv.State → kv.State × Result Bool → Type 0
  Untouched k j s (t, r) = (key_eq k j ≡ false) ⊎ (r ≢ ok true) → Kept j s t

  conditional :
      (m : Bool) (k j : KeyTriple) (new : Cell V) (s : kv.State) (w : kv.State × Bool)
      → w.1 ≡ m
      → kv.get_versioned w.0 j ≡ (if m && key_eq k j then new else kv.get_versioned s j)
      → Untouched k j s (done w)
  conditional true k j new s w went at (inl other) = at ∙ rw other
  conditional true k j new s w went at (inr failed) = absurd (failed (ap ok went))
  conditional false k j new s w went at h = at

  put-Untouched :
      (k j : KeyTriple) (v : V) (e : Option ℕ) (s : kv.State)
      → NulFree k.pk
      → NulFree j.pk
      → Untouched k j s (done (kv.put_if_version k v e s))
  put-Untouched k j v e s hk hj =
      conditional (version_matches e (kv.get_versioned s k)) k j _ s (kv.put_if_version k v e s)
        (laws.put_if_version_result s k v e) (laws.put_if_version_lem s k j v e hk hj)

  removed-Untouched :
      (k j : KeyTriple) (e : Option ℕ) (s : kv.State)
      → NulFree k.pk
      → NulFree j.pk
      → Untouched k j s (removed trees kv k e s)
  removed-Untouched k j none s hk hj h = refl
  removed-Untouched k j (some v) s hk hj h =
      conditional (version_matches (some v) (kv.get_versioned s k)) k j none s
        (kv.delete_if_version k v s) (laws.delete_if_version_result s k v)
        (laws.delete_if_version_lem s k j v hk hj) h

  branches :
      (P : kv.State × Result Bool → Type 0) (b c : Bool) (x y z : kv.State × Result Bool)
      → P x
      → P y
      → P z
      → P (if b then x else if c then y else z)
  branches P true c x y z p q r = p
  branches P false true x y z p q r = q
  branches P false false x y z p q r = r

  key_NulFree : (delta : DirDelta) → NulFree delta.pk → NulFree (delta_key delta).pk
  key_NulFree delta h = unfold delta_key in h

  write_dir-Untouched :
      (delta : DirDelta) (j : KeyTriple) (old : DirState) (s : kv.State)
      → NulFree delta.pk
      → NulFree j.pk
      → Untouched (delta_key delta) j s (write_dir trees kv delta old s)
  unfolding write_dir
  write_dir-Untouched delta j old s hk hj =
      branches (Untouched (delta_key delta) j s) _ _ _ _ _ (λ h. refl)
        (removed-Untouched (delta_key delta) j old.version s (key_NulFree delta hk) hj)
        (put-Untouched (delta_key delta) j _ old.version s (key_NulFree delta hk) hj)

  apply_existing-Untouched :
      (delta : DirDelta) (j : KeyTriple) (x : Result (Option DirState)) (s : kv.State)
      → NulFree delta.pk
      → NulFree j.pk
      → Untouched (delta_key delta) j s (apply_existing trees kv delta x s)
  apply_existing-Untouched delta j (err e) s hk hj h = refl
  apply_existing-Untouched delta j (ok none) s hk hj h = refl
  apply_existing-Untouched delta j (ok (some old)) s hk hj h =
      write_dir-Untouched delta j old s hk hj h

  -- In partitions without NUL in their names: `apply_dir_delta` leaves every other entry as the
  -- other callers left it, and when it fails or says that nothing changed, the entry of the
  -- directory too.
  pub apply_dir_delta_frame :
      (others : kv.State → kv.State) (delta : DirDelta) (j : KeyTriple) (s : kv.State)
      → NulFree delta.pk
      → NulFree j.pk
      → (key_eq (delta_key delta) j ≡ false)
        ⊎ ((apply_dir_delta trees kv others delta s).1 ≢ ok true)
      → kv.get_versioned (apply_dir_delta trees kv others delta s).0 j
        ≡ kv.get_versioned (others s) j
  unfolding apply_dir_delta
  apply_dir_delta_frame others delta j s hk hj =
      apply_existing-Untouched delta j (existing trees (kv.get_versioned s (delta_key delta)))
        (others s) hk hj

  module _ (claws : CodecLaws trees) where
    -- What is read after a delta: the counts are added and cut at 0; without artifacts there is no
    -- entry.
    pub record IsApplied (delta : DirDelta) (old : DirState) (w : kv.State × Result Bool)
        : Type 0 where
      pub new : DirState
      pub reads : existing trees (kv.get_versioned w.0 (delta_key delta)) ≡ ok (some new)
      pub counts : new.count ≡ max_0 (add_i64 old.count delta.count_delta)
      pub sizes :
          new.size ≡ (if new.count == 0 then 0 else max_0 (add_i64 old.size delta.bytes_delta))
      pub there : is_new new.version ≡ (new.count == 0)
      pub result : w.1 ≡ ok (not (is_new old.version && not_positive delta.count_delta))

    put-IsApplied :
        (delta : DirDelta) (old : DirState) (s : kv.State) (n : DirState) (e : Option ℕ)
        → NulFree delta.pk
        → version_matches e (kv.get_versioned s (delta_key delta)) ≡ true
        → (is_new old.version && not_positive delta.count_delta) ≡ false
        → (n.count == 0) ≡ false
        → n.count ≡ max_0 (add_i64 old.count delta.count_delta)
        → n.size ≡ max_0 (add_i64 old.size delta.bytes_delta)
        → IsApplied delta old
            (done (kv.put_if_version (delta_key delta) (trees.to_vec (dir_entry n)) e s))
    put-IsApplied delta old s n e hk m changes some_left counts sizes = record {
      new = record n { version = some (next_version (expected_or_0 e)) };
      reads =
          parsed-back
            (kv.get_versioned
              (kv.put_if_version (delta_key delta) (trees.to_vec (dir_entry n)) e s).0
              (delta_key delta))
            (laws.put_if_version_lem s (delta_key delta) (delta_key delta) _ e
                (key_NulFree delta hk) (key_NulFree delta hk)
              ∙ rw (m, self_eq kv laws (delta_key delta)) refl);
      counts = counts;
      sizes = rw some_left sizes;
      there = sym some_left;
      result =
          ap ok (laws.put_if_version_result s (delta_key delta) _ e ∙ m ∙ ap not (sym changes));
    }
      where
        parsed-back :
            (c : Cell V)
            → c ≡ some (trees.to_vec (dir_entry n), next_version (expected_or_0 e))
            → existing trees c
              ≡ ok (some (record n { version = some (next_version (expected_or_0 e)) }))
        parsed-back c at = rw at (unfold existing in rw (claws.round_trip (dir_entry n)) refl)

    removed-IsApplied :
        (delta : DirDelta) (old : DirState) (s : kv.State) (v : ℕ)
        → NulFree delta.pk
        → version_matches (some v) (kv.get_versioned s (delta_key delta)) ≡ true
        → (is_new old.version && not_positive delta.count_delta) ≡ false
        → 0 ≡ max_0 (add_i64 old.count delta.count_delta)
        → IsApplied delta old (done (kv.delete_if_version (delta_key delta) v s))
    removed-IsApplied delta old s v hk m changes counts = record {
      new = absent_dir;
      reads =
          rw
            (
              laws.delete_if_version_lem s (delta_key delta) (delta_key delta) v
                  (key_NulFree delta hk) (key_NulFree delta hk),
              m,
              self_eq kv laws (delta_key delta),
            )
            (unfold existing in refl);
      counts = counts;
      sizes = refl;
      there = refl;
      result =
          ap ok (laws.delete_if_version_result s (delta_key delta) v ∙ m ∙ ap not (sym changes));
    }

    onto_none :
        (delta : DirDelta) (s : kv.State)
        → NulFree delta.pk
        → IsWord delta.count_delta
        → IsWord delta.bytes_delta
        → kv.get_versioned s (delta_key delta) ≡ none
        → IsApplied delta absent_dir (write_dir trees kv delta absent_dir s)
    unfolding write_dir new_state
    onto_none delta s hk wc wb at = elim (Bool-cases (not_positive delta.count_delta)) [
      | inl less ↦ rw less (record {
        new = absent_dir;
        reads = rw at (unfold existing in refl);
        counts = unfold max_0 add_i64 in ground (arith, less);
        sizes = refl;
        there = refl;
        result = rw less;
      })
      | inr more ↦
          (let left : (delta.count_delta == 0) ≡ false = ground (arith, more) in
            rw (more, left)
              (put-IsApplied delta absent_dir s (new_state delta absent_dir) none hk
                (ap (version_matches none) at) more left
                (unfold max_0 add_i64 in ground (arith, more))
                (unfold max_0 add_i64 in ground (arith, wb))))
    ]

    onto_some :
        (delta : DirDelta) (d : DirState) (s : kv.State) (v : ℕ)
        → NulFree delta.pk
        → version_matches (some v) (kv.get_versioned s (delta_key delta)) ≡ true
        → let old = record d { version = some v } in
          IsApplied delta old (write_dir trees kv delta old s)
    unfolding write_dir new_state
    onto_some delta d s v hk m =
        let old = record d { version = some v } in
        elim (Bool-cases (max_0 (add_i64 d.count delta.count_delta) == 0)) [
          | inl gone ↦ rw gone (removed-IsApplied delta old s v hk m refl (ground arith))
          | inr left ↦
              rw left
                (put-IsApplied delta old s (new_state delta old) (some v) hk m refl left refl refl)
        ]

    parsed-version :
        (r : Result (TreeEntry K)) (v : ℕ) (old : DirState)
        → parsed trees r v ≡ ok (some old)
        → (d : DirState) × (record d { version = some v } ≡ old)
    parsed-version (err e) v old h = absurd cc
    parsed-version (ok te) v old h = of_kind te.kind h
      where
        of_kind :
            (k : TreeEntryKind K)
            → ok (as_dir trees k te.last_modified_at te.last_accessed_at v) ≡ ok (some old)
            → (d : DirState) × (record d { version = some v } ≡ old)
        of_kind (TreeEntryKind.dir count size) h = (
          record {
            count = count;
            size = size;
            modified = te.last_modified_at;
            accessed = te.last_accessed_at;
            version = some v;
          },
          some_eq (ok_eq h),
        )
        of_kind (TreeEntryKind.file a b c d e f) h = absurd cc

    write_dir-IsApplied :
        (delta : DirDelta) (c : Cell V) (old : DirState) (s : kv.State)
        → NulFree delta.pk
        → IsWord delta.count_delta
        → IsWord delta.bytes_delta
        → kv.get_versioned s (delta_key delta) ≡ c
        → existing trees c ≡ ok (some old)
        → IsApplied delta old (write_dir trees kv delta old s)
    write_dir-IsApplied delta none old s hk wc wb at ex =
        subst (λ o. IsApplied delta o (write_dir trees kv delta o s)) (absent_old ex)
          (onto_none delta s hk wc wb at)
      where
        absent_old : existing trees none ≡ ok (some old) → absent_dir ≡ old
        absent_old e = some_eq (ok_eq (unfold existing in e))
    write_dir-IsApplied delta (some (bytes, v)) old s hk wc wb at ex =
        let (d, same) = parsed-version (trees.from_slice bytes) v old (unfold existing in ex) in
        subst (λ o. IsApplied delta o (write_dir trees kv delta o s)) same
          (onto_some delta d s v hk (ap (version_matches (some v)) at ∙ same_version v))
      where
        same_version : (n : ℕ) → (n == n) ≡ true
        same_version n = ground arith

    -- If the others leave the entry of the directory as it is between the read and the write, in a
    -- partition without NUL in its name, and the entry is a directory that can be read, or absent:
    -- `apply_dir_delta` adds the deltas to the count and to the size, cut at 0 and with the
    -- wrapping of `i64`, where an absent directory counts as empty; behind it the directory is
    -- there exactly if its count is not 0, and its size is 0 if it is gone. It says true but for an
    -- absent directory and a count that is not positive.
    pub apply_dir_delta-IsApplied :
        (others : kv.State → kv.State) (delta : DirDelta) (old : DirState) (s : kv.State)
        → NulFree delta.pk
        → IsWord delta.count_delta
        → IsWord delta.bytes_delta
        → existing trees (kv.get_versioned s (delta_key delta)) ≡ ok (some old)
        → kv.get_versioned (others s) (delta_key delta) ≡ kv.get_versioned s (delta_key delta)
        → IsApplied delta old (apply_dir_delta trees kv others delta s)
    unfolding apply_dir_delta
    apply_dir_delta-IsApplied others delta old s hk wc wb ex same = rw ex (
        write_dir-IsApplied delta (kv.get_versioned s (delta_key delta)) old (others s) hk wc wb
          same ex)
