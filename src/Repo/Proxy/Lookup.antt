-- ===== src/Repo/Proxy/Lookup.antt =====
-- A lookup through a proxy is the first hit among the repositories below it, depth first.
use artifact_depot.Base.{
  ℕ, zero, suc, ◌+◌, ◌-◌, ◌≡◌, refl, ap, ◌∙◌, List, [], ◌∷◌, ◌++◌, Option, some, none, arith,
}
use artifact_depot.Base.Bytes.{Bytes}
use artifact_depot.Service.Error.{Result, ok, err}
use artifact_depot.Repo.Proxy.{
  RepoKind, hosted, cache, proxy, member_lookup, or_next, with_config, try_members, lookup_levels,
  lookup_inner, max_proxy_depth,
}

-- The hosted and cache repositories below a list of members, in the order of the search.
module _ (configs : Bytes → Option RepoKind) where
  abbrev leaves_of : (List Bytes → List Bytes) → Bytes → Option RepoKind → List Bytes
  leaves_of nested name none = []
  leaves_of nested name (some hosted) = name ∷ []
  leaves_of nested name (some cache) = name ∷ []
  leaves_of nested name (some (proxy members)) = nested members

  leaves_each : (List Bytes → List Bytes) → List Bytes → List Bytes
  leaves_each nested [] = []
  leaves_each nested (name ∷ members) =
      leaves_of nested name (configs name) ++ leaves_each nested members

  unfoldable pub leaves : ℕ → List Bytes → List Bytes
  unfolding leaves_each
  leaves zero members = []
  leaves (suc levels) members = leaves_each (leaves levels) members

module _ {R : Type 0} (leaf : Bytes → Result (Option R)) where
  abbrev hit_or : Result (Option R) → Option R → Option R
  hit_or (ok (some r)) rest = some r
  hit_or (ok none) rest = rest
  hit_or (err e) rest = rest

  -- The answer of the first repository that has one; errors are passed over.
  unfoldable pub first_hit : List Bytes → Option R
  first_hit [] = none
  first_hit (name ∷ names) = hit_or (leaf name) (first_hit names)

  abbrev or_else : Option R → Option R → Option R
  or_else (some r) o = some r
  or_else none o = o

  first_hit-append :
      (xs ys : List Bytes) → first_hit (xs ++ ys) ≡ or_else (first_hit xs) (first_hit ys)
  unfolding first_hit
  first_hit-append [] ys = refl
  first_hit-append (x ∷ xs) ys = ground (arith, first_hit-append xs ys)

  or_next-hits : (a b : Option R) → or_next (ok a) (ok b) ≡ ok (or_else a b)
  or_next-hits none b = refl
  or_next-hits (some r) b = refl

  leaf-hits : (x : Result (Option R)) (b : Option R) → or_next x (ok b) ≡ ok (hit_or x b)
  leaf-hits (ok none) b = refl
  leaf-hits (ok (some r)) b = refl
  leaf-hits (err e) b = refl

  module _ (configs : Bytes → Option RepoKind) where
    abbrev stored : Bytes → Result (Option RepoKind)
    stored name = ok (configs name)

    by_config :
        (nested : List Bytes → Result (Option R)) (below : List Bytes → List Bytes)
        → ((ms : List Bytes) → nested ms ≡ ok (first_hit (below ms)))
        → (name : Bytes) (rest : List Bytes) (c : Option RepoKind)
        → with_config (ok c) (member_lookup stored leaf nested name) (ok (first_hit rest))
          ≡ ok (first_hit (leaves_of configs below name c ++ rest))
    by_config nested below same name rest none = refl
    by_config nested below same name rest (some hosted) =
        unfold first_hit in leaf-hits (leaf name) (first_hit rest)
    by_config nested below same name rest (some cache) =
        unfold first_hit in leaf-hits (leaf name) (first_hit rest)
    by_config nested below same name rest (some (proxy ms)) =
        rw (same ms, or_next-hits, first_hit-append (below ms) rest)

    each_member :
        (nested : List Bytes → Result (Option R)) (below : List Bytes → List Bytes)
        → ((ms : List Bytes) → nested ms ≡ ok (first_hit (below ms)))
        → (members : List Bytes)
        → try_members stored leaf nested members
          ≡ ok (first_hit (leaves_each configs below members))
    unfolding try_members leaves_each
    each_member nested below same [] = unfold first_hit in refl
    each_member nested below same (name ∷ members) =
        ap (with_config (ok (configs name)) (member_lookup stored leaf nested name))
          (each_member nested below same members)
        ∙ by_config nested below same name (leaves_each configs below members) (configs name)

    lookup_levels-leaves :
        (levels : ℕ) (members : List Bytes)
        → lookup_levels stored leaf levels members ≡ ok (first_hit (leaves configs levels members))
    unfolding lookup_levels leaves
    lookup_levels-leaves zero members = unfold first_hit in refl
    lookup_levels-leaves (suc levels) members =
        each_member (lookup_levels stored leaf levels) (leaves configs levels)
          (lookup_levels-leaves levels) members

    -- While the store answers, a lookup at any depth, on any membership (cycles too), returns what
    -- the first of the repositories below the proxy has, nine levels down at most from depth 0,
    -- and never fails.
    pub lookup_inner-leaves :
        (depth : ℕ) (members : List Bytes)
        → lookup_inner stored leaf depth members
          ≡ ok (first_hit (leaves configs (max_proxy_depth + 1 - depth) members))
    unfolding lookup_inner
    lookup_inner-leaves depth members = lookup_levels-leaves (max_proxy_depth + 1 - depth) members
