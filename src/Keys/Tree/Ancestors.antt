-- ===== src/Keys/Tree/Ancestors.antt =====
-- `ancestor_dirs` of server/src/server/worker/update.rs lists what stands before a `/` of the path,
-- and the root.
use artifact_depot.Base.{
  ℕ, zero, suc, ◌≤◌, ◌<◌, ◌≡◌, refl, ap, sym, ◌∙◌, ◌↔◌, ◌⊎◌, inl, inr, false, List, [], ◌∷◌, ◌++◌,
  Option, some, none, arith, length, length-append, append_assoc,
}
use artifact_depot.Base.Bytes.{
  Bytes, contains_byte, contains_byte-append, rsplit_once, rsplit_once-Splits, Splits,
}
use artifact_depot.Keys.Normalize.{slash}
use artifact_depot.Keys.Tree.{ancestor_loop, ancestor_dirs}

-- A directory above `path`: the root, or what stands before one of its slashes.
abbrev pub IsAncestor : Bytes → Bytes → Type 0
IsAncestor dir path = (dir ≡ []) ⊎ ((rest : Bytes) × (path ≡ dir ++ slash ∷ rest))

abbrev pub IsListed : Bytes → List Bytes → Type 0
IsListed d [] = ⊥
IsListed d (x ∷ xs) = (d ≡ x) ⊎ IsListed d xs

-- Of two splits at a slash, the one at the last slash is the later.
later_split :
    (a b d rest : Bytes)
    → contains_byte slash b ≡ false
    → a ++ slash ∷ b ≡ d ++ slash ∷ rest
    → (d ≡ a) ⊎ ((rest' : Bytes) × (a ≡ d ++ slash ∷ rest'))
unfolding contains_byte
later_split [] b [] rest h e = inl refl
later_split [] b (y ∷ d) rest h e =
    absurd (ground (arith, contains_byte-append slash d (slash ∷ rest)))
later_split (x ∷ a) b [] rest h e = inr (a, ground arith)
later_split (x ∷ a) b (y ∷ d) rest h e = elim (later_split a b d rest h (ground arith)) [
  | inl same ↦ inl (ground arith)
  | inr (rest', at) ↦ inr (rest', ground arith)
]

pub no_slash :
    (d path : Bytes) → contains_byte slash path ≡ false → IsAncestor d path → (d ≡ []) ⊎ ⊥
unfolding contains_byte
no_slash d path h (inl e) = inl e
no_slash d path h (inr (rest, e)) =
    absurd (ground (arith, contains_byte-append slash d (slash ∷ rest)))

-- From the directory of a path to the path, and back.
pub IsAncestor-down :
    (d dir name : Bytes) (path : Bytes)
    → path ≡ dir ++ slash ∷ name
    → IsAncestor d dir
    → IsAncestor d path
IsAncestor-down d dir name path e (inl root) = inl root
IsAncestor-down d dir name path e (inr (rest, at)) = inr (
  rest ++ slash ∷ name,
  e ∙ ap (λ x. x ++ slash ∷ name) at ∙ append_assoc d (slash ∷ rest) (slash ∷ name),
)

pub IsAncestor-up :
    (d dir name path : Bytes)
    → path ≡ dir ++ slash ∷ name
    → contains_byte slash name ≡ false
    → IsAncestor d path
    → (d ≡ dir) ⊎ IsAncestor d dir
IsAncestor-up d dir name path e last (inl root) = inr (inl root)
IsAncestor-up d dir name path e last (inr (rest, at)) =
    elim (later_split dir name d rest last (sym e ∙ at)) [
      | inl same ↦ inl same
      | inr split ↦ inr (inr split)
    ]

abbrev ListsAncestors : Bytes → ℕ → Bytes → Type 0
ListsAncestors d fuel path = IsListed d (ancestor_loop fuel path) ↔ IsAncestor d path

loop_step :
    (d : Bytes) (fuel : ℕ) (path : Bytes) (r : Option (Bytes × Bytes))
    → rsplit_once slash path ≡ r
    → Splits slash path r
    → ((dir name : Bytes) → r ≡ some (dir, name) → ListsAncestors d fuel dir)
    → ListsAncestors d (suc fuel) path
unfolding ancestor_loop
loop_step d fuel path none e s ih = rw (e, ancestor_loop) (root_only, no_slash d path s)
  where
    root_only : (d ≡ []) ⊎ ⊥ → IsAncestor d path
    root_only (inl root) = inl root
    root_only (inr h) = absurd h
loop_step d fuel path (some (dir, name)) e s ih = rw (e, ancestor_loop) (down, up)
  where
    down : (d ≡ dir) ⊎ IsListed d (ancestor_loop fuel dir) → IsAncestor d path
    down (inl same) = inr (name, s.0 ∙ ap (λ x. x ++ slash ∷ name) (sym same))
    down (inr m) = IsAncestor-down d dir name path s.0 ((ih dir name refl).0 m)

    lower : (d ≡ dir) ⊎ IsAncestor d dir → (d ≡ dir) ⊎ IsListed d (ancestor_loop fuel dir)
    lower (inl same) = inl same
    lower (inr a) = inr ((ih dir name refl).1 a)

    up : IsAncestor d path → (d ≡ dir) ⊎ IsListed d (ancestor_loop fuel dir)
    up a = lower (IsAncestor-up d dir name path s.0 s.1 a)

-- The directory of a path is shorter than the path.
shorter :
    (path dir name : Bytes) (r : Option (Bytes × Bytes))
    → Splits slash path r
    → r ≡ some (dir, name)
    → length dir < length path
shorter path dir name none s e = cc
shorter path dir name (some (a, b)) s e =
    ground (arith, length-append {0} a (slash ∷ b), ap length s.0)

loop-lists : (d : Bytes) (fuel : ℕ) (path : Bytes) → length path ≤ fuel → ListsAncestors d fuel path
unfolding ancestor_loop
loop-lists d zero [] h = (root_only, no_slash d [] (unfold contains_byte in refl))
  where
    root_only : (d ≡ []) ⊎ ⊥ → IsAncestor d []
    root_only (inl root) = inl root
    root_only (inr k) = absurd k
loop-lists d zero (c ∷ path) h = absurd (omega arith)
loop-lists d (suc fuel) path h =
    loop_step d fuel path (rsplit_once slash path) refl (rsplit_once-Splits slash path)
      λ dir name e. loop-lists d fuel dir (
        omega
          (arith, shorter path dir name (rsplit_once slash path) (rsplit_once-Splits slash path) e))

-- A directory is listed exactly when it is the root or stands before a slash of the path: the
-- fuel is enough.
pub ancestor_dirs_iff : (d path : Bytes) → IsListed d (ancestor_dirs path) ↔ IsAncestor d path
unfolding ancestor_dirs
ancestor_dirs_iff d path = loop-lists d (length path) path (omega arith)
