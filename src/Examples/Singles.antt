-- ===== src/Examples/Singles.antt =====
-- Stores with one record.
use artifact_depot.Base.{
  ◌≡◌, refl, sym, ap, ◌∙◌, some, none, arith, inl, inr, Bool-cases, if◌then◌else◌,
}
use artifact_depot.Base.Bytes.{Bytes}
use artifact_depot.Keys.Shard.{KeyTriple}
use artifact_depot.Keys.Tree.{NulFree}
use artifact_depot.Kv.{key_eq}
use artifact_depot.Gc.Deletes.{key_eq_sound}
use artifact_depot.Gc.Shard.Returns.{FitsIn}
use artifact_depot.Examples.Artifacts.{kv, laws, empty}
use artifact_depot.Examples.Listings.{one_key, empty-gone}

module _ (key : KeyTriple) (value : Bytes) (key_free : NulFree key.pk) where
  abbrev single : kv.State
  single = kv.put key value empty

  pub single-get :
      (k : KeyTriple) → NulFree k.pk → kv.get single k ≡ (if key_eq key k then some value else none)
  single-get k h =
      laws.get_lem single k
      ∙ rw (laws.put_lem empty key k value key_free h) (elim (Bool-cases (key_eq key k)) [
        | inl e ↦ rw e refl
        | inr e ↦ rw (e, empty-gone k) refl
      ])

  pub single-only : (k : KeyTriple) (w : Bytes) → NulFree k.pk → kv.get single k ≡ some w → key ≡ k
  single-only k w h there = elim (Bool-cases (key_eq key k)) [
    | inl e ↦ key_eq_sound key k e
    | inr e ↦
        let none_there : kv.get single k ≡ none = single-get k h ∙ rw e in
        absurd (cc (none_there, there))
  ]

  pub single-fits : (table pk : Bytes) → NulFree pk → FitsIn kv 3 table pk single
  single-fits table pk h =
      let few =
        one_key key.sk (kv.entries single table pk) (laws.entries-IsSorted single table pk)
          (λ j v m.
            let at : KeyTriple = record { table = table; pk = pk; sk = j } in
            ap (λ k. k.sk)
              (sym (single-only at v h ((laws.entries-Holds single table pk j v).0 m)))) in
      omega (arith, few)
