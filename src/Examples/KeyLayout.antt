-- ===== src/Examples/KeyLayout.antt =====
-- core/src/store/keys.rs and the paths of core/src/update.rs at concrete inputs.
use artifact_depot.Base.{◌≡◌, refl, ◌↔◌, true, [], ◌∷◌, ℕ, ◌+◌, ◌%◌, length}
use artifact_depot.Base.Bytes.{Bytes, starts_with, contains_byte}
use artifact_depot.Keys.Normalize.{normalize_path, segments, join_segments, IsClean}
use artifact_depot.Keys.Clean.{normalize_path-IsClean, normalize_path-clean}
use artifact_depot.Keys.Normalize.{normalize_path-join_segments}
use artifact_depot.Keys.Tree.{tree_parent, NulFree, ancestor_dirs, tree_children_sk_prefix}
use artifact_depot.Keys.Tree.Ancestors.{IsAncestor, IsListed, ancestor_dirs_iff}
use artifact_depot.Keys.Shard.{artifact_key, tree_entry_key, tree_children_pk}
use artifact_depot.Keys.Shard.Unique.{artifact_key_iff, tree_entry_key_iff}
use artifact_depot.Keys.Shard.Scan.{tree_children_iff}

abbrev hash : Bytes → ℕ → ℕ
hash s n = (length s + n) % 256

-- "//lib//a.so/"
abbrev messy_path : Bytes
messy_path = 47 ∷ 47 ∷ 108 ∷ 105 ∷ 98 ∷ 47 ∷ 47 ∷ 97 ∷ 46 ∷ 115 ∷ 111 ∷ 47 ∷ []

-- "lib/a.so"
abbrev clean_path : Bytes
clean_path = 108 ∷ 105 ∷ 98 ∷ 47 ∷ 97 ∷ 46 ∷ 115 ∷ 111 ∷ []

-- "lib"
abbrev lib_dir : Bytes
lib_dir = 108 ∷ 105 ∷ 98 ∷ []

clean_path-NulFree : NulFree clean_path
unfolding contains_byte
clean_path-NulFree = refl

lib_dir-NulFree : NulFree lib_dir
unfolding contains_byte
lib_dir-NulFree = refl

normalize_path-messy : normalize_path messy_path ≡ clean_path
unfolding normalize_path
normalize_path-messy = refl

normalize_path-join_segments_example :
    normalize_path messy_path ≡ join_segments (segments messy_path)
normalize_path-join_segments_example = normalize_path-join_segments messy_path

clean_path-IsClean : IsClean clean_path
clean_path-IsClean = rw (← normalize_path-messy) (normalize_path-IsClean messy_path)

ancestor_dirs_iff_example :
    IsListed lib_dir (ancestor_dirs clean_path) ↔ IsAncestor lib_dir clean_path
ancestor_dirs_iff_example = ancestor_dirs_iff lib_dir clean_path

artifact_key_iff_example :
    (artifact_key hash lib_dir messy_path ≡ artifact_key hash lib_dir clean_path)
    ↔ ((lib_dir ≡ lib_dir) × (normalize_path messy_path ≡ normalize_path clean_path))
artifact_key_iff_example = artifact_key_iff hash lib_dir lib_dir messy_path clean_path

messy_path-NulFree : NulFree (normalize_path messy_path)
messy_path-NulFree = rw normalize_path-messy clean_path-NulFree

normal_clean-NulFree : NulFree (normalize_path clean_path)
normal_clean-NulFree = rw (normalize_path-clean clean_path clean_path-IsClean) clean_path-NulFree

tree_entry_key_iff_example :
    (tree_entry_key hash lib_dir messy_path ≡ tree_entry_key hash lib_dir clean_path)
    ↔ ((lib_dir ≡ lib_dir) × (normalize_path messy_path ≡ normalize_path clean_path))
tree_entry_key_iff_example =
    tree_entry_key_iff hash lib_dir lib_dir messy_path clean_path messy_path-NulFree
      normal_clean-NulFree

tree_children_iff_example :
    (((tree_entry_key hash clean_path messy_path).pk ≡ tree_children_pk hash clean_path lib_dir)
      × (starts_with
            (tree_children_sk_prefix lib_dir)
            (tree_entry_key hash clean_path messy_path).sk
          ≡ true))
    ↔ (lib_dir ≡ tree_parent (normalize_path messy_path))
tree_children_iff_example =
    tree_children_iff hash clean_path lib_dir messy_path lib_dir-NulFree messy_path-NulFree
