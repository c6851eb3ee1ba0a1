-- ===== src/Keys/Tree/Injective.antt =====
-- Two entries of the browse tree never share a sort key, and the prefix of a directory selects its
-- children.
use artifact_depot.Base.{
  ◌≡◌, refl, sym, ◌∙◌, ap, true, false, [], ◌∷◌, ◌++◌, some, none, arith, ◌↔◌, Option,
}
use artifact_depot.Base.Bytes.{
  Bytes, contains_byte, starts_with, rsplit_once, rsplit_once-append, rsplit_once-Splits, Splits,
}
use artifact_depot.Keys.Normalize.{slash, starts_slash, ends_slash, IsClean}
use artifact_depot.Keys.Tree.{
  before, behind, tree_parent, tree_name, tree_sort_key, tree_sk_sep, tree_children_sk_prefix,
  NulFree, tree_parent-NulFree, tree_name-NulFree,
}

-- A clean path seen through its last `/`.
abbrev View : Bytes → Bytes → Bytes → Type 0
View p parent name =
    (r : Option (Bytes × Bytes)) × Splits slash p r × (before r ≡ parent) × (behind p r ≡ name)

ends_slash-append : (a : Bytes) → ends_slash (a ++ slash ∷ []) ≡ true
unfolding ends_slash
ends_slash-append [] = refl
ends_slash-append (c ∷ []) = refl
ends_slash-append (c ∷ d ∷ a) = ends_slash-append (d ∷ a)

-- The name of a clean path that is not the root is not empty.
name-ne-nil :
    (p : Bytes) (r : Option (Bytes × Bytes))
    → Splits slash p r
    → ends_slash p ≡ false
    → behind p r ≡ []
    → p ≡ []
name-ne-nil p none s e h = h
name-ne-nil p (some (a, b)) s e h = ground (arith, ends_slash-append a, s.0)

same_parts :
    (p q : Bytes) (r t : Option (Bytes × Bytes))
    → Splits slash p r
    → Splits slash q t
    → starts_slash p ≡ false
    → starts_slash q ≡ false
    → before r ≡ before t
    → behind p r ≡ behind q t
    → p ≡ q
unfolding starts_slash
same_parts p q none none s u hp hq b n = n
same_parts p q none (some (a, b)) s u hp hq e n = ground arith
same_parts p q (some (a, b)) none s u hp hq e n = ground arith
same_parts p q (some (a, b)) (some (c, d)) s u hp hq e n = ground arith

sort_key-parts :
    (p q : Bytes)
    → NulFree p
    → NulFree q
    → tree_sort_key p ≡ tree_sort_key q
    → (tree_parent p ≡ tree_parent q) × (tree_name p ≡ tree_name q)
unfolding tree_sort_key
sort_key-parts p q hp hq e =
    let at_p =
      rsplit_once-append tree_sk_sep (tree_parent p) (tree_name p) (tree_name-NulFree p hp) in
    let at_q =
      rsplit_once-append tree_sk_sep (tree_parent q) (tree_name q) (tree_name-NulFree q hq) in
    ground (arith, sym at_p ∙ ap (rsplit_once tree_sk_sep) e ∙ at_q)

-- Two clean paths without NUL that have the same sort key are the same path.
pub tree_sort_key-injective :
    (p q : Bytes)
    → IsClean p
    → IsClean q
    → NulFree p
    → NulFree q
    → tree_sort_key p ≡ tree_sort_key q
    → p ≡ q
unfolding tree_parent tree_name
tree_sort_key-injective [] [] cp cq hp hq e = refl
tree_sort_key-injective [] (c ∷ q) cp cq hp hq e = sym (
    name-ne-nil (c ∷ q) (rsplit_once slash (c ∷ q)) (rsplit_once-Splits slash (c ∷ q)) cq.end
      (sym (sort_key-parts [] (c ∷ q) hp hq e).1))
tree_sort_key-injective (c ∷ p) [] cp cq hp hq e =
    name-ne-nil (c ∷ p) (rsplit_once slash (c ∷ p)) (rsplit_once-Splits slash (c ∷ p)) cp.end
      (sort_key-parts (c ∷ p) [] hp hq e).1
tree_sort_key-injective (c ∷ p) (d ∷ q) cp cq hp hq e =
    let es = sort_key-parts (c ∷ p) (d ∷ q) hp hq e in
    same_parts (c ∷ p) (d ∷ q) (rsplit_once slash (c ∷ p)) (rsplit_once slash (d ∷ q))
      (rsplit_once-Splits slash (c ∷ p)) (rsplit_once-Splits slash (d ∷ q)) cp.start cq.start es.0
      es.1

-- A NUL-free text before the separator is found again by a prefix test.
starts_with-separator :
    (d a b : Bytes)
    → NulFree d
    → NulFree a
    → (starts_with (d ++ tree_sk_sep ∷ []) (a ++ tree_sk_sep ∷ b) ≡ true) ↔ (d ≡ a)
unfolding starts_with contains_byte
starts_with-separator [] [] b hd ha = (λ _. refl, λ _. refl)
starts_with-separator [] (y ∷ a) b hd ha = ground arith
starts_with-separator (x ∷ d) [] b hd ha = ground arith
starts_with-separator (x ∷ d) (y ∷ a) b hd ha = ground (arith, starts_with-separator d a b)

-- The scan prefix of a directory selects exactly the entries whose parent is that directory.
pub tree_children_sk_prefix_iff :
    (dir path : Bytes)
    → NulFree dir
    → NulFree path
    → (starts_with (tree_children_sk_prefix dir) (tree_sort_key path) ≡ true)
      ↔ (dir ≡ tree_parent path)
unfolding tree_children_sk_prefix tree_sort_key
tree_children_sk_prefix_iff dir path hd hp =
    starts_with-separator dir (tree_parent path) (tree_name path) hd (tree_parent-NulFree path hp)
