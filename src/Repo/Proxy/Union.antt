-- ===== src/Repo/Proxy/Union.antt =====
-- What a proxy listing shows, told by the listings of its members: for each path the record of the
-- first member that has it.
use artifact_depot.Base.{ℕ, ◌+◌, ◌≡◌, ◌↔◌, ◌⊎◌, inl, inr, List, [], ◌∷◌, take}
use artifact_depot.Base.Bytes.{Bytes}
use artifact_depot.Kv.Sorted.{IsSorted, Holds}
use artifact_depot.Service.Error.{Result, ok, err}
use artifact_depot.Service.Page.{Pagination, PaginatedResult, paginate_results}
use artifact_depot.Repo.Proxy.{paginated_merge, cursor_skip}
use artifact_depot.Repo.Proxy.Merge.{
  HasKey, HasKey-or_insert_all, items-HasKey, IsSorted-or_insert_all,
}
use artifact_depot.Repo.Proxy.Pages.{PageOf, merge_all, merge_listing, paginated_merge-merge_all}
use artifact_depot.Repo.Proxy.Inserted.{Holds-all, HasKey-all}

module _ {T : Type 0} where
  -- The listing shows the record, or it has no record with the path: a member without a listing has
  -- none.
  abbrev pub Shows : Result (List (Bytes × T)) → Bytes → T → Type 0
  Shows (ok items) k v = Holds k v items
  Shows (err e) k v = ⊥

  abbrev pub Lacks : Result (List (Bytes × T)) → Bytes → Type 0
  Lacks (ok items) k = HasKey k items → ⊥
  Lacks (err e) k = Unit

  module _ (listing : Bytes → Result (List (Bytes × T))) where
    -- The first of the members that has the path has this record for it.
    abbrev pub FirstShows : List Bytes → Bytes → T → Type 0
    FirstShows [] k v = ⊥
    FirstShows (name ∷ members) k v =
        Shows (listing name) k v ⊎ (Lacks (listing name) k × FirstShows members k v)

  abbrev pub IsListing : Result (List (Bytes × T)) → Type 0
  IsListing (ok items) = IsSorted items
  IsListing (err e) = Unit

-- One member more in front: `N` and `M` are about the merged map with its listing, `H` and `P` about
-- the map before.
pass_over :
    {N M H P S L F : Type 0}
    → (N ↔ (H ⊎ (P × S)))
    → (M ↔ (P × L))
    → ((N ⊎ (M × F)) ↔ (H ⊎ (P × (S ⊎ (L × F)))))
pass_over {N} {M} {H} {P} {S} {L} {F} one none_yet = (there, back)
  where
    there : N ⊎ (M × F) → H ⊎ (P × (S ⊎ (L × F)))
    there (inl h) = elim (one.0 h) [ inl m ↦ inl m | inr new ↦ inr (new.0, inl new.1) ]
    there (inr (new, m)) = let (before, lacks) = none_yet.0 new in inr (before, inr (lacks, m))

    back : H ⊎ (P × (S ⊎ (L × F))) → N ⊎ (M × F)
    back (inl h) = inl (one.1 (inl h))
    back (inr (new, inl m)) = inl (one.1 (inr (new, m)))
    back (inr (new, inr (lacks, m))) = inr (none_yet.1 (new, lacks), m)

module _ {T : Type 0} (encode : Bytes → Bytes)
    (list : Bytes → Pagination → Result (PaginatedResult T)) where
  merged-IsSorted :
      (x : Result (List (Bytes × T))) (xs : List (Bytes × T))
      → IsListing x
      → IsSorted xs
      → IsSorted (merge_listing encode list x xs)
  merged-IsSorted (ok items) xs s sx = IsSorted-or_insert_all items xs sx
  merged-IsSorted (err e) xs s sx = sx

  Holds-merged :
      (k : Bytes) (v : T) (x : Result (List (Bytes × T))) (xs : List (Bytes × T))
      → IsListing x
      → IsSorted xs
      → Holds k v (merge_listing encode list x xs)
        ↔ (Holds k v xs ⊎ ((HasKey k xs → ⊥) × Shows x k v))
  Holds-merged k v (ok items) xs s sx = Holds-all k v items xs s sx
  Holds-merged k v (err e) xs s sx = (λ h. inl h, elim [ inl h ↦ h | inr h ↦ absurd h.1 ])

  -- A path is new to the merged map if it was new and the listing lacks it.
  Lacks-merged :
      (k : Bytes) (x : Result (List (Bytes × T))) (xs : List (Bytes × T))
      → (HasKey k (merge_listing encode list x xs) → ⊥) ↔ ((HasKey k xs → ⊥) × Lacks x k)
  Lacks-merged k (ok items) xs = (
    λ h. (λ m. h (HasKey-or_insert_all k items xs m), λ m. h (items-HasKey k items xs m)),
    λ h m. elim (HasKey-all k items xs m) [ inl n ↦ h.1 n | inr n ↦ h.0 n ],
  )
  Lacks-merged k (err e) xs = (λ h. (h, tt), λ h. h.0)

  module _ (listing : Bytes → Result (List (Bytes × T)))
      (listings : (name : Bytes) → IsListing (listing name)) where
    union-IsSorted :
        (members : List Bytes) (xs : List (Bytes × T))
        → IsSorted xs
        → IsSorted (merge_all encode list listing members xs)
    unfolding merge_all
    union-IsSorted [] xs s = s
    union-IsSorted (name ∷ members) xs s =
        union-IsSorted members (merge_listing encode list (listing name) xs)
          (merged-IsSorted (listing name) xs (listings name) s)

    Holds-union :
        (k : Bytes) (v : T) (members : List Bytes) (xs : List (Bytes × T))
        → IsSorted xs
        → Holds k v (merge_all encode list listing members xs)
          ↔ (Holds k v xs ⊎ ((HasKey k xs → ⊥) × FirstShows listing members k v))
    unfolding merge_all
    Holds-union k v [] xs s = (λ h. inl h, elim [ inl h ↦ h | inr h ↦ absurd h.1 ])
    Holds-union k v (name ∷ members) xs s =
        let x = listing name in
        let ih =
          Holds-union k v members (merge_listing encode list x xs)
            (merged-IsSorted x xs (listings name) s) in
        let step = pass_over (Holds-merged k v x xs (listings name) s) (Lacks-merged k x xs) in
        (λ h. step.0 (ih.0 h), λ h. ih.1 (step.1 h))

  PageOf-IsListing :
      (n : ℕ) (page : Result (PaginatedResult T)) (x : Result (List (Bytes × T)))
      → PageOf encode list n page x
      → IsListing x
  PageOf-IsListing n (ok page) (ok items) h = h.1
  PageOf-IsListing n (err e) (err e') h = tt
  PageOf-IsListing n (ok page) (err e) h = absurd h
  PageOf-IsListing n (err e) (ok items) h = absurd h

  -- Where the page of every member at the cursor is the beginning of its sorted listing behind the
  -- cursor, and fails exactly when the member has no listing: a page of a proxy at a cursor, or at
  -- offset 0, is the page of the sorted list that holds, for each path that a member's listing has,
  -- the record of the first member that has it, and nothing else.
  pub paginated_merge-FirstShows :
      (members : List Bytes) (pagination : Pagination) (listing : Bytes → Result (List (Bytes × T)))
      → cursor_skip pagination.cursor pagination.offset ≡ 0
      → ((name : Bytes)
          → PageOf encode list
              (pagination.limit + 1)
              (list name
                (record { cursor = pagination.cursor; offset = 0; limit = pagination.limit + 1 }))
              (listing name))
      → (union : List (Bytes × T)) × IsSorted union
        × ((k : Bytes) (v : T) → Holds k v union ↔ FirstShows listing members k v)
        × (paginated_merge encode list members pagination
            ≡ paginate_results encode (take (pagination.limit + 1) union) pagination.limit)
  paginated_merge-FirstShows members pagination listing first pages = (
    merge_all encode list listing members [],
    union-IsSorted listing listings members [] tt,
    λ k v. (λ h. only ((holds k v).0 h), λ h. (holds k v).1 (inr (λ m. m, h))),
    paginated_merge-merge_all encode list members pagination listing first pages,
  )
    where
      listings : (name : Bytes) → IsListing (listing name)
      listings name = PageOf-IsListing (pagination.limit + 1) _ (listing name) (pages name)

      holds :
          (k : Bytes) (v : T)
          → Holds k v (merge_all encode list listing members [])
            ↔ (⊥ ⊎ ((⊥ → ⊥) × FirstShows listing members k v))
      holds k v = Holds-union listing listings k v members [] tt

      only : {A B : Type 0} → ⊥ ⊎ (A × B) → B
      only (inl h) = absurd h
      only (inr h) = h.1
