-- ===== src/Examples/Listings.antt =====
-- Pages of artifacts from a store with one artifact.
use artifact_depot.Base.{
  ℕ, suc, ◌<◌, ◌≤◌, ◌≡◌, refl, sym, ◌∙◌, ◌↔◌, Bool, true, false, List, [], ◌∷◌, some, none, arith,
  length, take, drop, inl, inr, Bool-cases, All, if◌then◌else◌,
}
use mathlib.Core.Path.{subst}
use artifact_depot.Base.Bytes.{Bytes, starts_with, bytes_eq, bytes_eq_iff}
use artifact_depot.Keys.Prefix.{IsByte}
use artifact_depot.Keys.Shard.{KeyTriple, artifact_shard_pk, artifact_key, table_artifacts}
use artifact_depot.Kv.{key_eq}
use artifact_depot.Keys.Decimal.{decimal}
use artifact_depot.Keys.Tree.{NulFree}
use artifact_depot.Service.Artifact.Keys.{shard_pk-NulFree, artifact_key-NulFree}
use artifact_depot.Kv.Redb.Laws.{redb_kv}
use artifact_depot.Kv.Redb.Model.{tables, no_rows}
use artifact_depot.Kv.Sorted.{IsSorted, Holds, bytes_lt_irrefl}
use artifact_depot.Service.Page.{Pagination}
use artifact_depot.Service.Scan.Complete.{AllBytes}
use artifact_depot.Service.Merge.Listed.{read_all}
use artifact_depot.Service.Listing.{list_artifacts, search_artifacts, paged}
use artifact_depot.Service.Listing.Streams.{shard_entries, AtHome}
use artifact_depot.Service.Listing.Pages.{
  Stored, behind, list_artifacts-read_all, search_artifacts-read_all,
}
use artifact_depot.Examples.Codecs.{records}
use artifact_depot.Examples.Artifacts.{hash, kv, laws, libs, libs-NulFree, a_b, upload, empty}

pub one_key :
    {V : Type 0} (k : Bytes) (xs : List (Bytes × V))
    → IsSorted xs
    → ((j : Bytes) (v : V) → Holds j v xs → j ≡ k)
    → length xs ≤ 1
one_key k [] s h = omega arith
one_key k (x ∷ []) s h = omega arith
one_key k ((i, v) ∷ (j, w) ∷ r) s h = absurd (
    ground
      (arith, h i v (inl (refl, refl)), h j w (inr (inl (refl, refl))), s.0.0, bytes_lt_irrefl k))

all_bytes_of :
    {V : Type 0} (xs : List (Bytes × V))
    → ((j : Bytes) (v : V) → Holds j v xs → All IsByte j)
    → AllBytes xs
all_bytes_of [] h = tt
all_bytes_of ((j, v) ∷ r) h = (h j v (inl (refl, refl)), all_bytes_of r (λ i w m. h i w (inr m)))

abbrev pub key : KeyTriple
key = artifact_key hash libs a_b

abbrev pub value : Bytes
value = records.to_vec upload

unfoldable pub one : kv.State
one = kv.put key value empty

abbrev shards : ℕ → List (Bytes × Bytes)
shards = shard_entries kv hash one laws libs

abbrev at_shard : ℕ → Bytes → KeyTriple
at_shard shard sk = record { table = table_artifacts; pk = artifact_shard_pk libs shard; sk = sk }

shard_NulFree : (shard : ℕ) → NulFree (artifact_shard_pk libs shard)
unfolding artifact_shard_pk
shard_NulFree shard = shard_pk-NulFree libs shard libs-NulFree

pub empty-gone : (k : KeyTriple) → kv.get_versioned empty k ≡ none
unfolding empty no_rows tables redb_kv
empty-gone k = refl

one-get :
    (shard : ℕ) (sk : Bytes)
    → kv.get one (at_shard shard sk) ≡ (if key_eq key (at_shard shard sk) then some value else none)
unfolding one
one-get shard sk =
    laws.get_lem one (at_shard shard sk)
    ∙ rw
        (laws.put_lem empty key (at_shard shard sk) value
          (artifact_key-NulFree hash libs a_b libs-NulFree) (shard_NulFree shard))
        (elim (Bool-cases (key_eq key (at_shard shard sk))) [
          | inl e ↦ rw e refl
          | inr e ↦ rw (e, empty-gone (at_shard shard sk)) refl
        ])

pub same_key :
    (shard : ℕ) (sk : Bytes)
    → key_eq key (at_shard shard sk) ≡ true
    → (key.pk ≡ artifact_shard_pk libs shard) × (key.sk ≡ sk)
same_key shard sk e = (
  (bytes_eq_iff key.pk (artifact_shard_pk libs shard)).0 (ground arith),
  (bytes_eq_iff key.sk sk).0 (ground arith),
)

at_key :
    (shard : ℕ) (sk v : Bytes)
    → Holds sk v (shards shard)
    → (key.pk ≡ artifact_shard_pk libs shard) × (key.sk ≡ sk) × (v ≡ value)
at_key shard sk v m = by_test (key_eq key (at_shard shard sk)) (same_key shard sk) (
    sym ((laws.entries-Holds one table_artifacts (artifact_shard_pk libs shard) sk v).0 m)
    ∙ one-get shard sk)
  where
    by_test :
        (b : Bool)
        → (b ≡ true → (key.pk ≡ artifact_shard_pk libs shard) × (key.sk ≡ sk))
        → some v ≡ (if b then some value else none)
        → (key.pk ≡ artifact_shard_pk libs shard) × (key.sk ≡ sk) × (v ≡ value)
    by_test true k e = ((k refl).0, (k refl).1, cc)
    by_test false k e = absurd cc

pub key_sk : key.sk ≡ a_b
unfolding artifact_key
key_sk = refl

home : AtHome kv hash one laws libs
home k v shard m = let (pk, sk, at) = at_key shard k v m in rw (sym sk, key_sk) pk

all_bytes : (shard : ℕ) → AllBytes (shards shard)
all_bytes shard = all_bytes_of (shards shard) (λ j v m.
    subst (All IsByte) (sym key_sk ∙ (at_key shard j v m).1)
      (omega arith, (omega arith, (omega arith, tt))))

one_each : (shard : ℕ) → suc (length (shards shard)) < 3
one_each shard =
    let few =
      one_key key.sk (shards shard)
        (laws.entries-IsSorted one table_artifacts (artifact_shard_pk libs shard))
        (λ j v m. sym (at_key shard j v m).1) in
    omega (arith, few)

-- The list of all artifacts.
abbrev all : List (Bytes × Bytes)
all = (a_b, value) ∷ []

key-at_shard : key_eq key (at_shard 4 a_b) ≡ true
unfolding artifact_key artifact_shard_pk bytes_eq decimal
key-at_shard = refl

there : Stored shards a_b value
there = (
  4,
  omega arith,
  (laws.entries-Holds one table_artifacts (artifact_shard_pk libs 4) a_b value).1
      (one-get 4 a_b ∙ rw key-at_shard refl),
)

same_all :
    (p : Bytes → Bool) (has : p a_b ≡ true) (k : Bytes) (v : Bytes)
    → Holds k v all ↔ (p k ≡ true) × Stored shards k v
same_all p has k v = (to, from)
  where
    to : Holds k v all → (p k ≡ true) × Stored shards k v
    to (inl (k_is, v_is)) = rw (k_is, v_is) (has, there)
    to (inr m) = absurd m

    from : (p k ≡ true) × Stored shards k v → Holds k v all
    from (h, (shard, high, m)) = let at = at_key shard k v m in inl (sym at.1 ∙ key_sk, at.2)

abbrev first_page : Pagination
first_page = record { cursor = none; offset = 0; limit = 2 }

-- A test of the letters alone.
abbrev found : Bytes → Bytes → Bool
found sk query = starts_with query sk

abbrev same_text : Bytes → Bytes
same_text b = b

list_artifacts-read_all_example :
    list_artifacts records found
      (λ b. true)
      kv
      3
      2
      one
      same_text
      same_text
      libs
      (97 ∷ [])
      first_page
    ≡ paged same_text 2 (some (read_all records (take 3 (drop 0 (behind none all)))))
list_artifacts-read_all_example =
    list_artifacts-read_all records found (λ b. true) kv laws 3 one hash libs all_bytes one_each
      home 2 same_text same_text (97 ∷ []) first_page all (tt, tt)
      (same_all (starts_with (97 ∷ [])) (unfold starts_with in refl)) (omega arith)

search_artifacts-read_all_example :
    search_artifacts records found
      (λ b. true)
      kv
      3
      2
      one
      same_text
      same_text
      same_text
      libs
      (97 ∷ [])
      first_page
    ≡ paged same_text 2 (some (read_all records (take 3 (drop 0 (behind none all)))))
search_artifacts-read_all_example =
    search_artifacts-read_all records found (λ b. true) kv laws 3 one hash libs all_bytes one_each
      home 2 same_text same_text same_text (97 ∷ []) first_page all (tt, tt)
      (same_all (λ k. found k (97 ∷ [])) (unfold starts_with in refl)) (omega arith)
