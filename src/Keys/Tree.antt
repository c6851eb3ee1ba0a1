-- ===== src/Keys/Tree.antt =====
-- The browse-tree keys of core/src/store/keys.rs, `parent_dir` of core/src/update.rs and
-- `ancestor_dirs` of server/src/server/worker/update.rs.
pub mod Injective
pub mod Ancestors
use artifact_depot.Base.{
  ℕ, zero, suc, ◌≡◌, refl, false, List, [], ◌∷◌, ◌++◌, Option, none, some, arith, if◌then◌else◌,
  length,
}
use artifact_depot.Base.Bytes.{
  Bytes, bytes, is_empty, contains_byte, rsplit_once, rsplit_once-append, rsplit_once-Splits,
  Splits, contains_byte-append,
}
use artifact_depot.Keys.Normalize.{slash}

-- `ROOT_PARENT` and `TREE_SK_SEP`
abbrev pub root_parent : Bytes
root_parent = bytes "_root"

abbrev pub tree_sk_sep : ℕ
tree_sk_sep = 0

abbrev pub before : Option (Bytes × Bytes) → Bytes
before none = []
before (some (a, b)) = a

abbrev pub behind : Bytes → Option (Bytes × Bytes) → Bytes
behind s none = s
behind s (some (a, b)) = b

unfoldable pub parent_dir : Bytes → Bytes
unfolding rsplit_once
parent_dir path = before (rsplit_once slash path)

unfoldable pub tree_parent : Bytes → Bytes
unfolding rsplit_once
tree_parent path = if is_empty path then root_parent else before (rsplit_once slash path)

unfoldable pub tree_name : Bytes → Bytes
unfolding rsplit_once
tree_name path = if is_empty path then [] else behind path (rsplit_once slash path)

unfoldable pub tree_sort_key : Bytes → Bytes
unfolding tree_parent tree_name
tree_sort_key path = tree_parent path ++ tree_sk_sep ∷ tree_name path

unfoldable pub tree_sk_name : Bytes → Bytes
unfolding rsplit_once
tree_sk_name sk = behind sk (rsplit_once tree_sk_sep sk)

unfoldable pub tree_children_sk_prefix : Bytes → Bytes
tree_children_sk_prefix parent_path = parent_path ++ tree_sk_sep ∷ []

-- `while let Some(pos) = remaining.rfind('/')`, on fuel; each round shortens `remaining`.
pub ancestor_loop : ℕ → Bytes → List Bytes
ancestor_loop zero remaining = [] ∷ []
ancestor_loop (suc fuel) remaining = elim (rsplit_once slash remaining) [
  | none ↦ [] ∷ []
  | some (dir, name) ↦ dir ∷ ancestor_loop fuel dir
]

unfoldable pub ancestor_dirs : Bytes → List Bytes
unfolding ancestor_loop rsplit_once
ancestor_dirs path = ancestor_loop (length path) path

-- No NUL byte, as in every path of a URL.
abbrev pub NulFree : Bytes → Type 0
NulFree s = contains_byte tree_sk_sep s ≡ false

-- The parts of a path.
parts :
    (s : Bytes) (r : Option (Bytes × Bytes))
    → Splits slash s r
    → NulFree s
    → NulFree (before r) × NulFree (behind s r)
unfolding contains_byte
parts s none h free = (refl, free)
parts s (some (a, b)) h free = ground (arith, contains_byte-append tree_sk_sep a (slash ∷ b), h.0)

pub tree_parent-NulFree : (p : Bytes) → NulFree p → NulFree (tree_parent p)
unfolding tree_parent
tree_parent-NulFree [] h = unfold contains_byte in refl
tree_parent-NulFree (c ∷ p) h =
    (parts (c ∷ p) (rsplit_once slash (c ∷ p)) (rsplit_once-Splits slash (c ∷ p)) h).0

pub tree_name-NulFree : (p : Bytes) → NulFree p → NulFree (tree_name p)
unfolding tree_name
tree_name-NulFree [] h = h
tree_name-NulFree (c ∷ p) h =
    (parts (c ∷ p) (rsplit_once slash (c ∷ p)) (rsplit_once-Splits slash (c ∷ p)) h).1

-- The name of a path without NUL can be read back from its sort key.
pub tree_sk_name-tree_sort_key :
    (path : Bytes) → NulFree path → tree_sk_name (tree_sort_key path) ≡ tree_name path
unfolding tree_sk_name tree_sort_key
tree_sk_name-tree_sort_key path h =
    rw (
      rsplit_once-append tree_sk_sep (tree_parent path) (tree_name path) (tree_name-NulFree path h))
