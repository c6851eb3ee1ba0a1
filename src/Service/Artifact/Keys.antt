-- ===== src/Service/Artifact/Keys.antt =====
-- The keys of the artifact service in any store that keeps its promises.
use artifact_depot.Base.{ℕ, ◌≡◌, refl, ap, sym, ◌∙◌, false, ◌∷◌, some, none, arith}
use artifact_depot.Base.Bytes.{Bytes, bytes_eq, contains_byte, contains_byte-append}
use artifact_depot.Keys.Normalize.{slash}
use artifact_depot.Keys.Tree.{NulFree, tree_sk_sep}
use artifact_depot.Keys.Decimal.{decimal, contains_byte-decimal}
use artifact_depot.Keys.Shard.{KeyTriple, artifact_key, tree_entry_key, shard_pk, sharded_pk}
use artifact_depot.Kv.{KvStore, KvLaws, key_eq, value_of}
use artifact_depot.Kv.Codec.{Codec, CodecLaws}
use artifact_depot.Service.Error.{ok}
use artifact_depot.Service.Artifact.{typed_get, read_value}

pub shard_pk-NulFree : (scope : Bytes) (n : ℕ) → NulFree scope → NulFree (shard_pk scope n)
unfolding shard_pk contains_byte
shard_pk-NulFree scope n h =
    contains_byte-append tree_sk_sep scope (slash ∷ decimal n)
    ∙ rw (h, contains_byte-decimal tree_sk_sep n (omega arith))

module _ (blake3 : Bytes → ℕ → ℕ) where
  pub artifact_key-NulFree :
      (repo path : Bytes) → NulFree repo → NulFree (artifact_key blake3 repo path).pk
  unfolding artifact_key sharded_pk
  artifact_key-NulFree repo path h = shard_pk-NulFree repo _ h

  pub tree_entry_key-NulFree :
      (repo path : Bytes) → NulFree repo → NulFree (tree_entry_key blake3 repo path).pk
  unfolding tree_entry_key sharded_pk
  tree_entry_key-NulFree repo path h = shard_pk-NulFree repo _ h

  -- The two tables.
  pub key_eq-tables :
      (repo path repo' path' : Bytes)
      → key_eq (tree_entry_key blake3 repo path) (artifact_key blake3 repo' path') ≡ false
  unfolding tree_entry_key artifact_key bytes_eq
  key_eq-tables repo path repo' path' = refl

  pub key_eq-tables' :
      (repo path repo' path' : Bytes)
      → key_eq (artifact_key blake3 repo path) (tree_entry_key blake3 repo' path') ≡ false
  unfolding tree_entry_key artifact_key bytes_eq
  key_eq-tables' repo path repo' path' = refl

module _ {V : Type 0} (kv : KvStore V) (laws : KvLaws kv) where
  pub typed_get-some :
      {A : Type 0} (codec : Codec A V) (claws : CodecLaws codec) (s : kv.State) (k : KeyTriple)
      (a : A) (n : ℕ)
      → kv.get_versioned s k ≡ some (codec.to_vec a, n)
      → typed_get codec kv s k ≡ ok (some a)
  unfolding typed_get
  typed_get-some codec claws s k a n e = rw (laws.get_lem, e, claws.round_trip)

  pub typed_get-none :
      {A : Type 0} (codec : Codec A V) (s : kv.State) (k : KeyTriple)
      → kv.get_versioned s k ≡ none
      → typed_get codec kv s k ≡ ok none
  unfolding typed_get
  typed_get-none codec s k e = rw (laws.get_lem, e)

  pub typed_get-same :
      {A : Type 0} (codec : Codec A V) (s t : kv.State) (k : KeyTriple)
      → kv.get_versioned s k ≡ kv.get_versioned t k
      → typed_get codec kv s k ≡ typed_get codec kv t k
  unfolding typed_get
  typed_get-same codec s t k e =
      ap (read_value codec) (laws.get_lem s k ∙ ap value_of e ∙ sym (laws.get_lem t k))
