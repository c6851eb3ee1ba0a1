-- ===== src/Gc/Deletes.antt =====
-- What batches of deletions leave in the store.
use artifact_depot.Base.{
  true, arith, ◌≡◌, refl, sym, ap, ◌∙◌, false, List, [], ◌∷◌, none, All, Bool-cases, inl, inr,
}
use artifact_depot.Base.Bytes.{Bytes, bytes_eq_iff}
use artifact_depot.Keys.Tree.{NulFree}
use artifact_depot.Keys.Shard.{KeyTriple}
use artifact_depot.Kv.{KvStore, KvLaws, key_eq, value_of}
use artifact_depot.Service.Artifact.{delete_batch}
use artifact_depot.Gc.Shard.Returns.{Shrinks, Shrinks-trans}

pub key_eq_sound : (k j : KeyTriple) → key_eq k j ≡ true → k ≡ j
key_eq_sound k j e =
    ground (arith, bytes_eq_iff k.table j.table, bytes_eq_iff k.pk j.pk, bytes_eq_iff k.sk j.sk)

module _ {V : Type 0} (kv : KvStore V) (laws : KvLaws kv) where
  pub delete-keeps :
      (s : kv.State) (k j : KeyTriple)
      → NulFree k.pk
      → NulFree j.pk
      → key_eq k j ≡ false
      → kv.get_versioned (kv.delete k s).0 j ≡ kv.get_versioned s j
  delete-keeps s k j hk hj other = laws.delete_lem s k j hk hj ∙ rw other

  pub delete-Shrinks :
      (table : Bytes) (s : kv.State) (k : KeyTriple)
      → NulFree k.pk
      → Shrinks kv table s (kv.delete k s).0
  delete-Shrinks table s k hk pk sk v hj there =
      let j : KeyTriple = record { table = table; pk = pk; sk = sk } in
      let read = laws.get_lem (kv.delete k s).0 j in
      elim (Bool-cases (key_eq k j)) [
        | inl e ↦
            let gone : kv.get_versioned (kv.delete k s).0 j ≡ none =
              laws.delete_lem s k j hk hj ∙ rw e in
            absurd (cc (read, gone, there))
        | inr e ↦
            laws.get_lem s j ∙ ap value_of (sym (delete-keeps s k j hk hj e)) ∙ sym read ∙ there
      ]

  module _ (table : Bytes) where
    abbrev pub key_in : Bytes × Bytes → KeyTriple
    key_in (pk, sk) = record { table = table; pk = pk; sk = sk }

    -- A batch leaves a key alone that it does not list.
    pub delete_batch-keeps :
        (keys : List (Bytes × Bytes)) (s : kv.State) (j : KeyTriple)
        → NulFree j.pk
        → All (λ (k : Bytes × Bytes). NulFree k.0 × (key_eq (key_in k) j ≡ false)) keys
        → kv.get_versioned (delete_batch kv table keys s).0 j ≡ kv.get_versioned s j
    unfolding delete_batch
    delete_batch-keeps [] s j hj h = refl
    delete_batch-keeps ((pk, sk) ∷ keys) s j hj h =
        delete_batch-keeps keys (kv.delete (key_in (pk, sk)) s).0 j hj h.1
        ∙ delete-keeps s (key_in (pk, sk)) j h.0.0 hj h.0.1

    pub delete_batch-Shrinks :
        (keys : List (Bytes × Bytes)) (other : Bytes) (s : kv.State)
        → All (λ (k : Bytes × Bytes). NulFree k.0) keys
        → Shrinks kv other s (delete_batch kv table keys s).0
    unfolding delete_batch
    delete_batch-Shrinks [] other s h = λ pk sk v f g. g
    delete_batch-Shrinks ((pk, sk) ∷ keys) other s h =
        Shrinks-trans kv laws other s (kv.delete (key_in (pk, sk)) s).0 _
          (delete-Shrinks other s (key_in (pk, sk)) h.0)
          (delete_batch-Shrinks keys other (kv.delete (key_in (pk, sk)) s).0 h.1)
