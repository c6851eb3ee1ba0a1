-- ===== src/Repo/Proxy/Pages.antt =====
-- What a page of a proxy listing shows of the listings of its members.
use artifact_depot.Base.{
  ℕ, zero, suc, ◌≤◌, ◌+◌, ◌*◌, ◌≡◌, refl, ap, sym, ◌∙◌, Bool, true, false, if◌then◌else◌, List, [],
  ◌∷◌, Option, none, arith, take, drop, drop_all, length, ltb,
}
use artifact_depot.Base.Bytes.{Bytes}
use artifact_depot.Kv.Sorted.{IsSorted}
use artifact_depot.Service.Error.{Result, ok, err}
use artifact_depot.Service.Page.{Pagination, PaginatedResult, paginate_results}
use artifact_depot.Repo.Proxy.{
  or_insert, or_insert_all, merge_page, merge_members, paginated_merge, cursor_skip,
}
use artifact_depot.Repo.Proxy.Merge.{
  IsSorted-or_insert_all, take-or_insert_all, take-or_insert_all-take,
}

module _ {T : Type 0} where
  length-or_insert :
      (k : Bytes) (v : T) (xs : List (Bytes × T)) → length (or_insert k v xs) ≤ suc (length xs)
  unfolding or_insert
  length-or_insert k v [] = omega arith
  length-or_insert k v ((j, w) ∷ r) = ground (arith, length-or_insert k v r)

  length-or_insert_all :
      (items xs : List (Bytes × T)) → length (or_insert_all items xs) ≤ length items + length xs
  unfolding or_insert_all
  length-or_insert_all [] xs = omega arith
  length-or_insert_all ((k, v) ∷ r) xs =
      omega (arith, length-or_insert_all r (or_insert k v xs), length-or_insert k v xs)

module _ {T : Type 0} (encode : Bytes → Bytes)
    (list : Bytes → Pagination → Result (PaginatedResult T)) where
  -- The pages of the members respect their limit.
  abbrev ShortPage : ℕ → Result (PaginatedResult T) → Type 0
  ShortPage limit (ok page) = length page.items ≤ limit
  ShortPage limit (err e) = Unit

  length-merge_page :
      (limit : ℕ) (page : Result (PaginatedResult T)) (merged : List (Bytes × T))
      → ShortPage limit page
      → length (merge_page page merged) ≤ limit + length merged
  length-merge_page limit (ok page) merged h = omega (arith, length-or_insert_all page.items merged)
  length-merge_page limit (err e) merged h = omega arith

  length-merge_members :
      (p : Pagination) (members : List Bytes) (merged : List (Bytes × T))
      → ((name : Bytes) → ShortPage p.limit (list name p))
      → length (merge_members encode list p members merged)
        ≤ length members * p.limit + length merged
  unfolding merge_members
  length-merge_members p [] merged h = omega arith
  length-merge_members p (name ∷ members) merged h = omega (
    arith,
    length-merge_members p members (merge_page (list name p) merged) h,
    length-merge_page p.limit (list name p) merged (h name),
  )

  page_of_none :
      (n limit : ℕ)
      → paginate_results {T = T} encode (take n []) limit
        ≡ record { items = []; next_cursor = none }
  unfolding paginate_results
  page_of_none n limit =
      rw (no_items n, no_items limit)
        (ap (λ c. record { items = []; next_cursor = c }) (no_cursor (ltb limit 0)))
    where
      no_items : (m : ℕ) → ◌≡◌ {A = List (Bytes × T)} (take m []) []
      no_items zero = refl
      no_items (suc m) = refl

      no_cursor : (b : Bool) → ◌≡◌ {A = Option Bytes} (if b then none else none) none
      no_cursor true = refl
      no_cursor false = refl

  nothing_left :
      (xs : List (Bytes × T)) (skip limit : ℕ)
      → length xs ≤ skip
      → paginate_results encode (take (limit + 1) (drop skip xs)) limit
        ≡ record { items = []; next_cursor = none }
  nothing_left xs skip limit h = rw (drop_all skip xs h) (page_of_none (limit + 1) limit)

  -- A page of a proxy without a cursor never shows anything from the offset
  -- `members * (limit + 1)` on, whatever its members hold, as long as the members' pages keep to
  -- the limit they are given; nor does it name a next page.
  pub paginated_merge-late_offset :
      (members : List Bytes) (offset limit : ℕ)
      → ((name : Bytes) (p : Pagination) → ShortPage p.limit (list name p))
      → length members * (limit + 1) ≤ offset
      → paginated_merge encode list members
          (record { cursor = none; offset = offset; limit = limit })
        ≡ record { items = []; next_cursor = none }
  unfolding paginated_merge
  paginated_merge-late_offset [] offset limit short h = refl
  paginated_merge-late_offset (name ∷ members) offset limit short h =
      let p : Pagination = record { cursor = none; offset = 0; limit = limit + 1 } in
      nothing_left (merge_members encode list p (name ∷ members) []) offset limit
        (omega (arith, length-merge_members p (name ∷ members) [] (λ n. short n p)))

  -- The page is the beginning of the listing.
  abbrev pub PageOf : ℕ → Result (PaginatedResult T) → Result (List (Bytes × T)) → Type 0
  PageOf limit (ok page) (ok items) = (page.items ≡ take limit items) × IsSorted items
  PageOf limit (err e) (err e') = Unit
  PageOf limit _ _ = ⊥

  abbrev pub merge_listing : Result (List (Bytes × T)) → List (Bytes × T) → List (Bytes × T)
  merge_listing (ok items) merged = or_insert_all items merged
  merge_listing (err e) merged = merged

  -- The whole listings, inserted one after the other.
  unfoldable pub merge_all :
      (Bytes → Result (List (Bytes × T))) → List Bytes → List (Bytes × T) → List (Bytes × T)
  merge_all listing [] merged = merged
  merge_all listing (name ∷ members) merged =
      merge_all listing members (merge_listing (listing name) merged)

  abbrev AgreeSorted : ℕ → List (Bytes × T) → List (Bytes × T) → Type 0
  AgreeSorted n xs ys = (take n xs ≡ take n ys) × IsSorted ys

  merge_page-agrees :
      (n : ℕ) (page : Result (PaginatedResult T)) (all : Result (List (Bytes × T)))
      (xs ys : List (Bytes × T))
      → PageOf n page all
      → AgreeSorted n xs ys
      → AgreeSorted n (merge_page page xs) (merge_listing all ys)
  merge_page-agrees n (ok page) (ok items) xs ys h agree = (
    ap (λ t. take n (or_insert_all t xs)) h.0
        ∙ take-or_insert_all n (take n items) xs ys agree.0
        ∙ take-or_insert_all-take n items ys h.1 agree.1,
    IsSorted-or_insert_all items ys agree.1,
  )
  merge_page-agrees n (err e) (err e') xs ys h agree = agree
  merge_page-agrees n (ok page) (err e) xs ys h agree = absurd h
  merge_page-agrees n (err e) (ok items) xs ys h agree = absurd h

  merge_members-agrees :
      (p : Pagination) (listing : Bytes → Result (List (Bytes × T))) (members : List Bytes)
      (xs ys : List (Bytes × T))
      → ((name : Bytes) → PageOf p.limit (list name p) (listing name))
      → AgreeSorted p.limit xs ys
      → take p.limit (merge_members encode list p members xs)
        ≡ take p.limit (merge_all listing members ys)
  unfolding merge_members merge_all
  merge_members-agrees p listing [] xs ys h agree = agree.0
  merge_members-agrees p listing (name ∷ members) xs ys h agree =
      merge_members-agrees p listing members _ _ h
        (merge_page-agrees p.limit (list name p) (listing name) xs ys (h name) agree)

  -- A page at a cursor, or at offset 0, is the page of the members' whole listings, inserted one
  -- after the other.
  pub paginated_merge-merge_all :
      (members : List Bytes) (pagination : Pagination) (listing : Bytes → Result (List (Bytes × T)))
      → cursor_skip pagination.cursor pagination.offset ≡ 0
      → ((name : Bytes)
          → PageOf
              (pagination.limit + 1)
              (list name
                (record { cursor = pagination.cursor; offset = 0; limit = pagination.limit + 1 }))
              (listing name))
      → paginated_merge encode list members pagination
        ≡ paginate_results encode
            (take (pagination.limit + 1) (merge_all listing members []))
            pagination.limit
  unfolding paginated_merge
  paginated_merge-merge_all [] pagination listing first pages =
      unfold merge_all in sym (page_of_none (pagination.limit + 1) pagination.limit)
  paginated_merge-merge_all (name ∷ members) pagination listing first pages = rw first (
      ap (λ t. paginate_results encode t pagination.limit)
        (merge_members-agrees
          (record { cursor = pagination.cursor; offset = 0; limit = pagination.limit + 1 }) listing
          (name ∷ members) [] [] pages (refl, tt)))
