-- ===== src/Keys/Clean.antt =====
-- The paths that `normalize_path` returns, and those that it leaves alone.
use artifact_depot.Base.{◌≡◌, refl, ◌∙◌, Bool, true, false, [], ◌∷◌, arith, Bool-cases, inl, inr}
use artifact_depot.Base.Bytes.{Bytes, is_empty, trim_start, trim_end, trim_matches}
use artifact_depot.Keys.Normalize.{
  slash, starts_slash, ends_slash, contains_double, collapse, normalize_path, IsClean,
  trim_matches-ends, ends_slash-cons,
}

starts_slash-collapse-true : (s : Bytes) → starts_slash (collapse true s) ≡ false
unfolding starts_slash collapse
starts_slash-collapse-true [] = refl
starts_slash-collapse-true (c ∷ s) = ground (arith, starts_slash-collapse-true s)

contains_double-collapse : (prev : Bool) (s : Bytes) → contains_double (collapse prev s) ≡ false
unfolding contains_double collapse
contains_double-collapse prev [] = refl
contains_double-collapse prev (c ∷ s) = ground (
  arith,
  starts_slash-collapse-true s,
  contains_double-collapse true s,
  contains_double-collapse false s,
)

-- Only a text of slashes vanishes behind a `/`.
collapse-is_empty : (s : Bytes) → ends_slash s ≡ false → is_empty (collapse true s) ≡ is_empty s
unfolding collapse
collapse-is_empty [] h = refl
collapse-is_empty (c ∷ []) h = unfold ends_slash in ground arith
collapse-is_empty (c ∷ d ∷ s) h =
    ground (arith, ends_slash-cons c (d ∷ s), collapse-is_empty (d ∷ s))

collapse-false-is_empty : (s : Bytes) → is_empty (collapse false s) ≡ is_empty s
unfolding collapse
collapse-false-is_empty [] = refl
collapse-false-is_empty (c ∷ s) = ground arith

ends_slash-collapse :
    (prev : Bool) (s : Bytes) → ends_slash s ≡ false → ends_slash (collapse prev s) ≡ false
unfolding collapse
ends_slash-collapse prev [] h = h
ends_slash-collapse prev (c ∷ s) h = ground (
  arith,
  ends_slash-cons c s,
  ends_slash-cons c (collapse true s),
  ends_slash-cons c (collapse false s),
  ends_slash-cons slash (collapse true s),
  collapse-is_empty s,
  collapse-false-is_empty s,
  ends_slash-collapse true s,
  ends_slash-collapse false s,
)

starts_slash-collapse-false : (s : Bytes) → starts_slash (collapse false s) ≡ starts_slash s
unfolding starts_slash collapse
starts_slash-collapse-false [] = refl
starts_slash-collapse-false (c ∷ s) = ground arith

collapse-IsClean :
    (s : Bytes) → starts_slash s ≡ false → ends_slash s ≡ false → IsClean (collapse false s)
collapse-IsClean s h e = record {
  start = starts_slash-collapse-false s ∙ h;
  end = ends_slash-collapse false s e;
  single = contains_double-collapse false s;
}

-- A normalized path has no `/` at either end and no two in a row.
pub normalize_path-IsClean : (path : Bytes) → IsClean (normalize_path path)
unfolding normalize_path
normalize_path-IsClean path =
    let t = trim_matches slash path in
    let ends = trim_matches-ends path in
    elim (Bool-cases (contains_double t)) [
      | inl double ↦ rw double (collapse-IsClean t ends.0 ends.1)
      | inr single ↦ rw single (record { start = ends.0; end = ends.1; single = single })
    ]

trim_start-clean : (s : Bytes) → starts_slash s ≡ false → trim_start slash s ≡ s
unfolding trim_start starts_slash
trim_start-clean [] h = refl
trim_start-clean (c ∷ s) h = ground arith

trim_end-clean : (s : Bytes) → ends_slash s ≡ false → trim_end slash s ≡ s
unfolding trim_end
trim_end-clean [] h = refl
trim_end-clean (c ∷ []) h = unfold ends_slash in ground arith
trim_end-clean (c ∷ d ∷ s) h = ground (arith, ends_slash-cons c (d ∷ s), trim_end-clean (d ∷ s))

-- A clean path is its own normal form (the borrowed branch).
pub normalize_path-clean : (path : Bytes) → IsClean path → normalize_path path ≡ path
unfolding normalize_path trim_matches
normalize_path-clean path h =
    rw (trim_start-clean path h.start, trim_end-clean path h.end, h.single)

-- Normalizing a normalized path changes nothing.
pub normalize_path_idem :
    (path : Bytes) → normalize_path (normalize_path path) ≡ normalize_path path
normalize_path_idem path = normalize_path-clean (normalize_path path) (normalize_path-IsClean path)
