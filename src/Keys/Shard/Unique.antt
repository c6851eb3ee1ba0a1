-- ===== src/Keys/Shard/Unique.antt =====
-- Two records never share a key: the scope and the shard can be read back from a partition key.
use artifact_depot.Base.{ℕ, ◌≡◌, sym, ap, ◌∙◌, ◌↔◌, ◌^◌, ◌<◌, ltb, arith}
use artifact_depot.Base.Bytes.{Bytes, bytes_lt, rsplit_once, rsplit_once-append}
use artifact_depot.Keys.Normalize.{slash, normalize_path}
use artifact_depot.Keys.Clean.{normalize_path-IsClean}
use artifact_depot.Keys.Tree.{NulFree}
use artifact_depot.Keys.Tree.Injective.{tree_sort_key-injective}
use artifact_depot.Keys.Decimal.{decimal, decimal-injective, contains_byte-decimal, bytes_lt-padded}
use artifact_depot.Keys.Shard.{
  shard_pk, sharded_pk, artifact_key, blob_key, tree_entry_key, task_event_key,
}

pub shard_pk-injective : (s t : Bytes) (m n : ℕ) → shard_pk s m ≡ shard_pk t n → (s ≡ t) × (m ≡ n)
unfolding shard_pk
shard_pk-injective s t m n e =
    let at_s =
      rsplit_once-append slash s (decimal m) (contains_byte-decimal slash m (omega arith)) in
    let at_t =
      rsplit_once-append slash t (decimal n) (contains_byte-decimal slash n (omega arith)) in
    let same = sym at_s ∙ ap (rsplit_once slash) e ∙ at_t in
    (ground (arith, same), decimal-injective m n (ground (arith, same)))

module _ (blake3 : Bytes → ℕ → ℕ) where
  -- Two artifacts share a key exactly when they have one repository and one normalized path.
  pub artifact_key_iff :
      (r r' p p' : Bytes)
      → (artifact_key blake3 r p ≡ artifact_key blake3 r' p')
        ↔ ((r ≡ r') × (normalize_path p ≡ normalize_path p'))
  unfolding artifact_key sharded_pk
  artifact_key_iff r r' p p' = (
    λ e. ((shard_pk-injective r r' _ _ (ap (λ k. k.pk) e)).0, ap (λ k. k.sk) e),
    λ h. rw (h.0, h.1),
  )

  pub blob_key-injective :
      (s s' h h' : Bytes) → blob_key blake3 s h ≡ blob_key blake3 s' h' → (s ≡ s') × (h ≡ h')
  unfolding blob_key sharded_pk
  blob_key-injective s s' h h' e =
      ((shard_pk-injective s s' _ _ (ap (λ k. k.pk) e)).0, ap (λ k. k.sk) e)

  -- Two entries of the browse tree, whose normalized paths have no NUL, share a key exactly when
  -- they have one repository and one normalized path.
  pub tree_entry_key_iff :
      (r r' p p' : Bytes)
      → NulFree (normalize_path p)
      → NulFree (normalize_path p')
      → (tree_entry_key blake3 r p ≡ tree_entry_key blake3 r' p')
        ↔ ((r ≡ r') × (normalize_path p ≡ normalize_path p'))
  unfolding tree_entry_key sharded_pk
  tree_entry_key_iff r r' p p' h h' = (
    λ e. (
      (shard_pk-injective r r' _ _ (ap (λ k. k.pk) e)).0,
      tree_sort_key-injective _ _ (normalize_path-IsClean p) (normalize_path-IsClean p') h h'
          (ap (λ k. k.sk) e),
    ),
    λ h. rw (h.0, h.1),
  )

-- The events of a task are stored in the order of their 64-bit sequence numbers.
pub task_event_key-order :
    (id : Bytes) (m n : ℕ)
    → m < 2 ^ 64
    → n < 2 ^ 64
    → bytes_lt (task_event_key id m).sk (task_event_key id n).sk ≡ ltb m n
unfolding task_event_key
task_event_key-order id m n h k = bytes_lt-padded 20 m n (omega arith) (omega arith)
