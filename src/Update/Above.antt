-- ===== src/Update/Above.antt =====
-- The directories above a path, and what they share with it.
use artifact_depot.Base.{
  ◌≤◌, ◌≡◌, ◌↔◌, refl, sym, ap, ◌∙◌, ◌⊎◌, false, [], ◌∷◌, ◌++◌, Option, some, none, arith, length,
  length-append, inl, inr,
}
use mathlib.Core.Path.{subst}
use artifact_depot.Base.Bytes.{
  Bytes, contains_byte, contains_byte-append, rsplit_once, rsplit_once-Splits, Splits,
}
use artifact_depot.Keys.Normalize.{slash, IsClean, starts_slash, ends_slash, contains_double}
use artifact_depot.Keys.Tree.{NulFree, before, parent_dir}
use artifact_depot.Keys.Tree.Ancestors.{no_slash, IsAncestor, IsAncestor-down, IsAncestor-up}

starts_slash-prefix : (a r : Bytes) → starts_slash (a ++ r) ≡ false → starts_slash a ≡ false
unfolding starts_slash
starts_slash-prefix [] r h = refl
starts_slash-prefix (c ∷ a) r h = h

contains_double-prefix :
    (a r : Bytes) → contains_double (a ++ r) ≡ false → contains_double a ≡ false
unfolding contains_double
contains_double-prefix [] r h = refl
contains_double-prefix (c ∷ a) r h =
    ground (arith, contains_double-prefix a r, starts_slash-prefix a r)

ends_slash-double : (a b : Bytes) → contains_double (a ++ slash ∷ b) ≡ false → ends_slash a ≡ false
unfolding ends_slash contains_double starts_slash
ends_slash-double [] b h = refl
ends_slash-double (c ∷ []) b h = ground arith
ends_slash-double (c ∷ d ∷ a) b h = ends_slash-double (d ∷ a) b (ground arith)

prefix-IsClean : (a b : Bytes) → IsClean (a ++ slash ∷ b) → IsClean a
prefix-IsClean a b h = record {
  start = starts_slash-prefix a (slash ∷ b) h.start;
  end = ends_slash-double a b h.single;
  single = contains_double-prefix a (slash ∷ b) h.single;
}

root-IsClean : IsClean []
root-IsClean = record {
  start = unfold starts_slash in refl;
  end = unfold ends_slash in refl;
  single = unfold contains_double in refl;
}

prefix-NulFree : (a b : Bytes) → NulFree (a ++ slash ∷ b) → NulFree a
unfolding contains_byte
prefix-NulFree a b h = ground (arith, contains_byte-append 0 a (slash ∷ b))

-- The directory `p` and those above it.
abbrev pub Above : Bytes → Bytes → Type 0
Above q p = (q ≡ p) ⊎ IsAncestor q p

ancestor-fits : (q p : Bytes) → IsAncestor q p → IsClean p → NulFree p → IsClean q × NulFree q
ancestor-fits q p (inl e) c n =
    (subst IsClean (sym e) root-IsClean, subst NulFree (sym e) (unfold contains_byte in refl))
ancestor-fits q p (inr (rest, e)) c n =
    (prefix-IsClean q rest (subst IsClean e c), prefix-NulFree q rest (subst NulFree e n))

pub Above-fits : (q p : Bytes) → Above q p → IsClean p → NulFree p → IsClean q × NulFree q
Above-fits q p (inl e) c n = (subst IsClean (sym e) c, subst NulFree (sym e) n)
Above-fits q p (inr a) c n = ancestor-fits q p a c n

-- The directories above a path are its own and those above that.
pub IsAncestor-parent_dir : (q path : Bytes) → IsAncestor q path ↔ Above q (parent_dir path)
unfolding parent_dir
IsAncestor-parent_dir q path = by_split (rsplit_once slash path) (rsplit_once-Splits slash path)
  where
    by_split :
        (r : Option (Bytes × Bytes)) → Splits slash path r → IsAncestor q path ↔ Above q (before r)
    by_split none s = (λ a. elim (no_slash q path s a) [ inl e ↦ inl e | inr f ↦ absurd f ], back)
      where
        back : Above q [] → IsAncestor q path
        back (inl e) = inl e
        back (inr (inl e)) = inl e
        back (inr (inr (rest, e))) = absurd (append_nil q rest e)
          where
            append_nil : (q rest : Bytes) → [] ≡ q ++ slash ∷ rest → ⊥
            append_nil [] rest e = absurd cc
            append_nil (c ∷ q) rest e = absurd cc
    by_split (some (dir, name)) s = (λ a. IsAncestor-up q dir name path s.0 s.1 a, back)
      where
        back : Above q dir → IsAncestor q path
        back (inl e) = inr (name, s.0 ∙ ap (λ x. x ++ slash ∷ name) (sym e))
        back (inr a) = IsAncestor-down q dir name path s.0 a

pub Above-shorter : (q p : Bytes) → Above q p → length q ≤ length p
Above-shorter q p (inl e) = omega (arith, ap length e)
Above-shorter q p (inr (inl e)) = omega (arith, ap length e)
Above-shorter q p (inr (inr (rest, e))) =
    omega (arith, ap length e, length-append {0} q (slash ∷ rest))
