-- ===== src/Examples/Proxies.antt =====
-- Proxy repositories at concrete inputs.
use artifact_depot.Base.{
  ◌≡◌, ◌↔◌, ◌≤◌, ◌+◌, ◌-◌, ℕ, [], ◌∷◌, List, Option, some, none, refl, take, length, length-take-le,
  arith, if◌then◌else◌,
}
use artifact_depot.Base.Bytes.{Bytes, bytes_eq, bytes_lt}
use artifact_depot.Kv.Sorted.{IsSorted, Holds}
use artifact_depot.Service.Error.{Result, ok, err, DepotError}
use artifact_depot.Service.Page.{Pagination, PaginatedResult, paginate_results}
use artifact_depot.Repo.Proxy.{
  RepoKind, hosted, proxy, max_proxy_depth, lookup_inner, paginated_merge,
}
use artifact_depot.Repo.Proxy.Lookup.{leaves, first_hit, lookup_inner-leaves}
use artifact_depot.Repo.Proxy.Pages.{paginated_merge-late_offset}
use artifact_depot.Repo.Proxy.Union.{FirstShows, paginated_merge-FirstShows}

-- A proxy "p" over itself and the repository "h"; nothing else is configured.
abbrev configs : Bytes → Option RepoKind
configs name =
    if bytes_eq name (112 ∷ [])
    then some (proxy ((112 ∷ []) ∷ (104 ∷ []) ∷ []))
    else if bytes_eq name (104 ∷ [])
    then some hosted
    else none

abbrev leaf : Bytes → Result (Option ℕ)
leaf name = if bytes_eq name (104 ∷ []) then ok (some 5) else err DepotError.internal

lookup_inner-leaves_example :
    lookup_inner (λ name. ok (configs name)) leaf 0 ((112 ∷ []) ∷ [])
    ≡ ok (first_hit leaf (leaves configs (max_proxy_depth + 1 - 0) ((112 ∷ []) ∷ [])))
lookup_inner-leaves_example = lookup_inner-leaves leaf configs 0 ((112 ∷ []) ∷ [])

abbrev entries : List (Bytes × ℕ)
entries = ((97 ∷ []), 1) ∷ ((98 ∷ []), 2) ∷ ((99 ∷ []), 3) ∷ []

-- Every member holds the same three entries.
abbrev list_page : Bytes → Pagination → Result (PaginatedResult ℕ)
list_page name pagination =
    ok (record { items = take pagination.limit entries; next_cursor = none })

abbrev members : List Bytes
members = (104 ∷ []) ∷ (105 ∷ []) ∷ []

entries-IsSorted : IsSorted entries
unfolding bytes_lt
entries-IsSorted = ((refl, (refl, tt)), ((refl, tt), (tt, tt)))

paginated_merge-FirstShows_example :
    (union : List (Bytes × ℕ)) × IsSorted union
    × ((k : Bytes) (v : ℕ) → Holds k v union ↔ FirstShows (λ name. ok entries) members k v)
    × (paginated_merge
          (λ key. key)
          list_page
          members
          (record { cursor = none; offset = 0; limit = 2 })
        ≡ paginate_results (λ key. key) (take (2 + 1) union) 2)
paginated_merge-FirstShows_example =
    paginated_merge-FirstShows (λ key. key) list_page members
      (record { cursor = none; offset = 0; limit = 2 }) (λ name. ok entries) refl
      (λ name. (refl, entries-IsSorted))

list_page-short : (limit : ℕ) → length (take limit entries) ≤ limit
list_page-short limit = length-take-le limit entries

paginated_merge-late_offset_example :
    paginated_merge (λ key. key) list_page members (record { cursor = none; offset = 4; limit = 1 })
    ≡ record { items = []; next_cursor = none }
paginated_merge-late_offset_example =
    paginated_merge-late_offset (λ key. key) list_page members 4 1
      (λ name p. list_page-short p.limit) (omega arith)
