-- ===== src/Gc/Orphans/Rounds.antt =====
-- Inductions over the items of all walks of a sweep.
use artifact_depot.Base.{ℕ, suc, ◌≡◌, ◌⊎◌, inl, inr, Bool, List, [], ◌∷◌, Option, some, none}
use artifact_depot.Base.Bytes.{Bytes}
use artifact_depot.Gc.Orphans.{OrphanKey, Sweep, Walk, walk_item, walk_store, walk_stores}

-- The file is among the items.
abbrev pub Finds : Bytes → List (Option (Bytes × ℕ)) → Type 0
Finds b [] = ⊥
Finds b (none ∷ items) = Finds b items
Finds b (some (c, n) ∷ items) = (c ≡ b) ⊎ Finds b items

abbrev pub FindsIn : OrphanKey → List (Bytes × Walk) → Type 0
FindsIn key [] = ⊥
FindsIn key ((t, none) ∷ stores) = FindsIn key stores
FindsIn (s, b) ((t, some items) ∷ stores) = ((t ≡ s) × Finds b items) ⊎ FindsIn (s, b) stores

-- How many items are left, in one walk before others.
abbrev pub count_items : List (Option (Bytes × ℕ)) → ℕ → ℕ
count_items [] m = m
count_items (item ∷ items) m = suc (count_items items m)

abbrev pub walk_size : List (Bytes × Walk) → ℕ
walk_size [] = 0
walk_size ((s, none) ∷ stores) = walk_size stores
walk_size ((s, some items) ∷ stores) = count_items items (walk_size stores)

module _ {B : Type 0} (remove : Bytes → Bytes → B → B) (pass : ℕ) (limit : ℕ) (dry_run : Bool)
    (check : Bytes → Bool) where
  abbrev item_of : Bytes → Option (Bytes × ℕ) → Sweep B → Sweep B
  item_of = walk_item remove pass limit dry_run check

  -- What every item keeps, all walks keep; `P` may count the items that are left.
  module _ (P : ℕ → Sweep B → Type 0)
      (keep : (m : ℕ) (s : Bytes) (item : Option (Bytes × ℕ)) (w : Sweep B)
        → P (suc m) w
        → P m (item_of s item w)) where
    pub walk_store-keeps :
        (m : ℕ) (s : Bytes) (items : List (Option (Bytes × ℕ))) (w : Sweep B)
        → P (count_items items m) w
        → P m (walk_store remove pass limit dry_run check s items w)
    unfolding walk_store
    walk_store-keeps m s [] w h = h
    walk_store-keeps m s (item ∷ items) w h =
        walk_store-keeps m s items (item_of s item w) (keep (count_items items m) s item w h)

    pub walk_stores-keeps :
        (stores : List (Bytes × Walk)) (w : Sweep B)
        → P (walk_size stores) w
        → P 0 (walk_stores remove pass limit dry_run check stores w)
    unfolding walk_stores
    walk_stores-keeps [] w h = h
    walk_stores-keeps ((s, none) ∷ stores) w h = walk_stores-keeps stores w h
    walk_stores-keeps ((s, some items) ∷ stores) w h =
        walk_stores-keeps stores (walk_store remove pass limit dry_run check s items w)
          (walk_store-keeps (walk_size stores) s items w h)

    -- What the item of a file brings about, and every other keeps, holds in the end.
    module _ (s b : Bytes) (Q : Sweep B → Type 0)
        (hit : (m n : ℕ) (w : Sweep B) → P (suc m) w → Q (item_of s (some (b, n)) w))
        (keep_Q : (t : Bytes) (item : Option (Bytes × ℕ)) (w : Sweep B)
          → Q w
          → Q (item_of t item w)) where
      store-Kept :
          (t : Bytes) (items : List (Option (Bytes × ℕ))) (w : Sweep B)
          → Q w
          → Q (walk_store remove pass limit dry_run check t items w)
      unfolding walk_store
      store-Kept t [] w q = q
      store-Kept t (item ∷ items) w q = store-Kept t items (item_of t item w) (keep_Q t item w q)

      stores-Kept :
          (stores : List (Bytes × Walk)) (w : Sweep B)
          → Q w
          → Q (walk_stores remove pass limit dry_run check stores w)
      unfolding walk_stores
      stores-Kept [] w q = q
      stores-Kept ((t, none) ∷ stores) w q = stores-Kept stores w q
      stores-Kept ((t, some items) ∷ stores) w q =
          stores-Kept stores (walk_store remove pass limit dry_run check t items w)
            (store-Kept t items w q)

      store-reaches :
          (m : ℕ) (t : Bytes) (items : List (Option (Bytes × ℕ))) (w : Sweep B)
          → t ≡ s
          → Finds b items
          → P (count_items items m) w
          → Q (walk_store remove pass limit dry_run check t items w)
      unfolding walk_store
      store-reaches m t [] w same found p = absurd found
      store-reaches m t (none ∷ items) w same found p =
          store-reaches m t items (item_of t none w) same found
            (keep (count_items items m) t none w p)
      store-reaches m t (some (c, n) ∷ items) w same (inl e) p =
          store-Kept t items (item_of t (some (c, n)) w)
            (rw (same, e) (hit (count_items items m) n w p))
      store-reaches m t (some (c, n) ∷ items) w same (inr found) p =
          store-reaches m t items (item_of t (some (c, n)) w) same found
            (keep (count_items items m) t (some (c, n)) w p)

      pub walk_stores-reach :
          (stores : List (Bytes × Walk)) (w : Sweep B)
          → FindsIn (s, b) stores
          → P (walk_size stores) w
          → Q (walk_stores remove pass limit dry_run check stores w)
      unfolding walk_stores
      walk_stores-reach [] w found p = absurd found
      walk_stores-reach ((t, none) ∷ stores) w found p = walk_stores-reach stores w found p
      walk_stores-reach ((t, some items) ∷ stores) w (inl (same, found)) p =
          stores-Kept stores (walk_store remove pass limit dry_run check t items w)
            (store-reaches (walk_size stores) t items w same found p)
      walk_stores-reach ((t, some items) ∷ stores) w (inr found) p =
          walk_stores-reach stores (walk_store remove pass limit dry_run check t items w) found
            (walk_store-keeps (walk_size stores) t items w p)
