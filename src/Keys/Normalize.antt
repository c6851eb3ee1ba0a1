-- ===== src/Keys/Normalize.antt =====
-- `normalize_path` of core/src/store/keys.rs. The reference is a list of segments: the maximal runs
-- of bytes other than `/`.
use artifact_depot.Base.{
  ℕ, ◌≡◌, refl, ap, ◌∙◌, ◌≢◌, Bool, true, false, ◌&&◌, ◌||◌, List, [], ◌∷◌, ◌++◌, arith, ◌==◌,
  if◌then◌else◌,
}
use artifact_depot.Base.Bytes.{Bytes, is_empty, trim_start, trim_end, trim_matches}

abbrev pub slash : ℕ
slash = b'/'

unfoldable pub starts_slash : Bytes → Bool
starts_slash [] = false
starts_slash (c ∷ s) = c == slash

unfoldable pub ends_slash : Bytes → Bool
ends_slash [] = false
ends_slash (c ∷ []) = c == slash
ends_slash (c ∷ d ∷ s) = ends_slash (d ∷ s)

-- `contains("//")`
unfoldable pub contains_double : Bytes → Bool
unfolding starts_slash
contains_double [] = false
contains_double (c ∷ s) = (c == slash && starts_slash s) || contains_double s

-- The loop of the slow path; the flag is `prev_slash`.
unfoldable pub collapse : Bool → Bytes → Bytes
collapse prev [] = []
collapse prev (ch ∷ s) =
    let rest = collapse (ch == slash) s in
    if ch == slash then (if prev then rest else slash ∷ rest) else ch ∷ rest

unfoldable pub normalize_path : Bytes → Bytes
unfolding contains_double collapse trim_matches
normalize_path path =
    let trimmed = trim_matches slash path in
    if contains_double trimmed then collapse false trimmed else trimmed

-- The bytes before the first `/`, and the segments behind it.
segment_head : Bytes → Bytes
segment_head [] = []
segment_head (c ∷ s) = if c == slash then [] else c ∷ segment_head s

abbrev add_segment : Bytes → List Bytes → List Bytes
add_segment [] r = r
add_segment (c ∷ h) r = (c ∷ h) ∷ r

segment_rest : Bytes → List Bytes
segment_rest [] = []
segment_rest (c ∷ s) =
    if c == slash then add_segment (segment_head s) (segment_rest s) else segment_rest s

unfoldable pub segments : Bytes → List Bytes
unfolding segment_head segment_rest
segments s = add_segment (segment_head s) (segment_rest s)

joined : List Bytes → Bytes
joined [] = []
joined (x ∷ r) = slash ∷ x ++ joined r

-- The segments with one `/` between two.
unfoldable pub join_segments : List Bytes → Bytes
unfolding joined
join_segments [] = []
join_segments (x ∷ r) = x ++ joined r

-- No `/` at either end, and no two in a row.
pub record IsClean (s : Bytes) : Type 0 where
  pub start : starts_slash s ≡ false
  pub end : ends_slash s ≡ false
  pub single : contains_double s ≡ false

starts_slash-trim_start : (s : Bytes) → starts_slash (trim_start slash s) ≡ false
unfolding starts_slash trim_start
starts_slash-trim_start [] = refl
starts_slash-trim_start (c ∷ s) = ground (arith, starts_slash-trim_start s)

pub ends_slash-cons :
    (c : ℕ) (s : Bytes) → ends_slash (c ∷ s) ≡ (if is_empty s then c == slash else ends_slash s)
unfolding ends_slash
ends_slash-cons c [] = refl
ends_slash-cons c (d ∷ s) = refl

ends_slash-trim_end : (s : Bytes) → ends_slash (trim_end slash s) ≡ false
unfolding trim_end
ends_slash-trim_end [] = unfold ends_slash in refl
ends_slash-trim_end (c ∷ s) =
    ground (arith, ends_slash-trim_end s, ends_slash-cons c (trim_end slash s))

starts_slash-trim_end :
    (s : Bytes) → starts_slash s ≡ false → starts_slash (trim_end slash s) ≡ false
unfolding starts_slash trim_end
starts_slash-trim_end [] h = refl
starts_slash-trim_end (c ∷ s) h = ground arith

segments-trim_start : (s : Bytes) → segments (trim_start slash s) ≡ segments s
unfolding segments trim_start
segments-trim_start [] = refl
segments-trim_start (c ∷ s) = ground (arith, segments-trim_start s)

parts-trim_end :
    (s : Bytes)
    → (segment_head (trim_end slash s) ≡ segment_head s)
      × (segment_rest (trim_end slash s) ≡ segment_rest s)
unfolding segment_head segment_rest trim_end
parts-trim_end [] = (refl, refl)
parts-trim_end (c ∷ s) = ground (arith, parts-trim_end s)

segments-trim_end : (s : Bytes) → segments (trim_end slash s) ≡ segments s
unfolding segments
segments-trim_end s = rw ((parts-trim_end s).0, (parts-trim_end s).1)

segments-trim_matches : (s : Bytes) → segments (trim_matches slash s) ≡ segments s
unfolding trim_matches
segments-trim_matches s = segments-trim_end (trim_start slash s) ∙ segments-trim_start s

-- A text with no `//` is left as it is.
collapse-single :
    (s : Bytes)
    → contains_double s ≡ false
    → (collapse false s ≡ s) × (starts_slash s ≡ false → collapse true s ≡ s)
unfolding collapse contains_double
collapse-single [] h = (refl, λ _. refl)
collapse-single (c ∷ s) h = ground (arith, collapse-single s)

-- A text that does not end in `/` has a segment behind a `/`.
segments-ne-nil : (c : ℕ) (s : Bytes) → ends_slash (c ∷ s) ≡ false → segments (c ∷ s) ≢ []
unfolding segments
segments-ne-nil c [] h = unfold ends_slash in ground arith
segments-ne-nil c (d ∷ s) h = ground (arith, ends_slash-cons c (d ∷ s), segments-ne-nil d s)

-- The loop writes the segments: from inside one, and behind a `/`.
collapse-segments :
    (s : Bytes)
    → ends_slash s ≡ false
    → (collapse false s ≡ segment_head s ++ joined (segment_rest s))
      × (collapse true s ≡ join_segments (segments s))
unfolding collapse join_segments segments
collapse-segments [] h = (refl, refl)
collapse-segments (c ∷ []) h = unfold ends_slash in ground arith
collapse-segments (c ∷ d ∷ s) h =
    ground (arith, ends_slash-cons c (d ∷ s), segments-ne-nil d s, collapse-segments (d ∷ s))

-- What stays of a path once its ends are trimmed.
pub trim_matches-ends :
    (s : Bytes)
    → (starts_slash (trim_matches slash s) ≡ false) × (ends_slash (trim_matches slash s) ≡ false)
unfolding trim_matches
trim_matches-ends s = (
  starts_slash-trim_end (trim_start slash s) (starts_slash-trim_start s),
  ends_slash-trim_end (trim_start slash s),
)

join_segments-collapse :
    (s : Bytes)
    → starts_slash s ≡ false
    → ends_slash s ≡ false
    → collapse false s ≡ join_segments (segments s)
unfolding join_segments segments starts_slash
join_segments-collapse [] h e = unfold collapse in refl
join_segments-collapse (c ∷ s) h e = ground (arith, collapse-segments (c ∷ s))

-- `normalize_path` keeps exactly the segments of a path, in order, with one `/` between two.
pub normalize_path-join_segments :
    (path : Bytes) → normalize_path path ≡ join_segments (segments path)
unfolding normalize_path
normalize_path-join_segments path =
    let t = trim_matches slash path in
    let ends = trim_matches-ends path in
    let join =
      join_segments-collapse t ends.0 ends.1 ∙ ap join_segments (segments-trim_matches path) in
    ground (arith, join, collapse-single t)
