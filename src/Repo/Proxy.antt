-- ===== src/Repo/Proxy.antt =====
-- core/src/repo/proxy.rs: a proxy repository over an ordered list of members.
pub mod Lookup
pub mod Merge
pub mod Pages
pub mod Inserted
pub mod Union
use artifact_depot.Base.{
  ℕ, zero, suc, ◌+◌, ◌-◌, Bool, true, false, List, [], ◌∷◌, Option, some, none, ltb, if◌then◌else◌,
  take, drop,
}
use artifact_depot.Base.Bytes.{Bytes, bytes_eq, bytes_lt}
use artifact_depot.Service.Error.{Result, ok, err}
use artifact_depot.Service.Page.{Pagination, PaginatedResult, paginate_results}

-- `RepoKind` of core/src/store/kv/records.rs; the settings of a cache stay with its lookup.
pub data RepoKind : Type 0 where
  hosted cache : RepoKind
  proxy : List Bytes → RepoKind

abbrev pub max_proxy_depth : ℕ
max_proxy_depth = 8

-- An error of a member is logged and the next one is tried.
abbrev pub or_next : {R : Type 0} → Result (Option R) → Result (Option R) → Result (Option R)
or_next (ok (some r)) rest = ok (some r)
or_next (ok none) rest = rest
or_next (err e) rest = rest

-- A member without a configuration is skipped; an error of the store ends the call.
abbrev pub with_config :
    {R : Type 0}
    → Result (Option RepoKind)
    → (RepoKind → Result (Option R))
    → Result (Option R)
    → Result (Option R)
with_config (err e) look rest = err e
with_config (ok none) look rest = rest
with_config (ok (some kind)) look rest = or_next (look kind) rest

-- `get_repo` reads the configuration of a member; `leaf` is the lookup of a hosted or cache
-- repository (HEAD or GET of a path).
module _ {R : Type 0} (get_repo : Bytes → Result (Option RepoKind))
    (leaf : Bytes → Result (Option R)) where
  -- `make_raw_repo_with_depth`, and the lookup that it makes; `nested` is that of a proxy.
  abbrev pub member_lookup : (List Bytes → Result (Option R)) → Bytes → RepoKind → Result (Option R)
  member_lookup nested name hosted = leaf name
  member_lookup nested name cache = leaf name
  member_lookup nested name (proxy members) = nested members

  unfoldable pub try_members : (List Bytes → Result (Option R)) → List Bytes → Result (Option R)
  try_members nested [] = ok none
  try_members nested (name ∷ members) =
      with_config (get_repo name) (member_lookup nested name) (try_members nested members)

  -- `head_inner` and `get_inner` with `levels` left: the depth of the proxy is
  -- `max_proxy_depth + 1 - levels`, and a deeper one finds nothing.
  unfoldable pub lookup_levels : ℕ → List Bytes → Result (Option R)
  unfolding try_members
  lookup_levels zero members = ok none
  lookup_levels (suc levels) members = try_members (lookup_levels levels) members

  unfoldable pub lookup_inner : ℕ → List Bytes → Result (Option R)
  unfolding lookup_levels
  lookup_inner depth members = lookup_levels (max_proxy_depth + 1 - depth) members

-- `merged.entry(path).or_insert(record)` on a map in the order of its keys
unfoldable pub or_insert : {T : Type 0} → Bytes → T → List (Bytes × T) → List (Bytes × T)
or_insert k v [] = (k, v) ∷ []
or_insert k v ((j, w) ∷ r) =
    let rest = or_insert k v r in
    if bytes_lt k j then (k, v) ∷ (j, w) ∷ r else if bytes_eq k j then (j, w) ∷ r else (j, w) ∷ rest

unfoldable pub or_insert_all : {T : Type 0} → List (Bytes × T) → List (Bytes × T) → List (Bytes × T)
unfolding or_insert
or_insert_all [] merged = merged
or_insert_all ((k, v) ∷ items) merged = or_insert_all items (or_insert k v merged)

abbrev pub merge_page :
    {T : Type 0} → Result (PaginatedResult T) → List (Bytes × T) → List (Bytes × T)
merge_page (ok page) merged = or_insert_all page.items merged
merge_page (err e) merged = merged

abbrev pub cursor_skip : Option Bytes → ℕ → ℕ
cursor_skip none offset = offset
cursor_skip (some c) offset = 0

-- `list` is `list_artifacts` or `search_artifacts` of one member.
module _ {T : Type 0} (encode : Bytes → Bytes)
    (list : Bytes → Pagination → Result (PaginatedResult T)) where
  unfoldable pub merge_members : Pagination → List Bytes → List (Bytes × T) → List (Bytes × T)
  unfolding or_insert_all
  merge_members member_pagination [] merged = merged
  merge_members member_pagination (name ∷ members) merged =
      merge_members member_pagination members (merge_page (list name member_pagination) merged)

  unfoldable pub paginated_merge : List Bytes → Pagination → PaginatedResult T
  unfolding merge_members paginate_results
  paginated_merge [] pagination = record { items = []; next_cursor = none }
  paginated_merge (name ∷ members) pagination =
      let per_member_limit = pagination.limit + 1 in
      let member_pagination : Pagination = record {
        cursor = pagination.cursor;
        offset = 0;
        limit = per_member_limit;
      } in
      let merged = merge_members member_pagination (name ∷ members) [] in
      let skip = cursor_skip pagination.cursor pagination.offset in
      paginate_results encode (take per_member_limit (drop skip merged)) pagination.limit
