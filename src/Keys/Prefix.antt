-- ===== src/Keys/Prefix.antt =====
-- `prefix_end` of core/src/store/keys.rs: the end of the range of byte strings with a prefix.
use mathlib.Core.List.{reverse, reverse-cons, reverse-append}
use artifact_depot.Base.{
  ℕ, ◌+◌, ◌<◌, ◌≡◌, refl, ap, ◌∙◌, Bool, true, false, not, ◌&&◌, [], ◌∷◌, ◌++◌, Option, some, none,
  arith, ltb, ◌==◌, if◌then◌else◌, All,
}
use artifact_depot.Base.Bytes.{Bytes, bytes_lt, starts_with}

-- The loop over `bytes.last_mut()`: the list is reversed, so that the last byte comes first.
prefix_end_loop : Bytes → Option Bytes
prefix_end_loop [] = none
prefix_end_loop (last ∷ bytes) =
    let rest = prefix_end_loop bytes in
    if ltb last 0xFF then some (reverse ((last + 1) ∷ bytes)) else rest

unfoldable pub prefix_end : Bytes → Option Bytes
unfolding prefix_end_loop
prefix_end prefix = prefix_end_loop (reverse prefix)

abbrev pub IsByte : ℕ → Type 0
IsByte x = x < 256

-- `s` lies before the end of a range; `none` is open.
abbrev pub is_below : Bytes → Option Bytes → Bool
is_below s none = true
is_below s (some e) = bytes_lt s e

abbrev pub end_cons : ℕ → Option Bytes → Option Bytes
end_cons x (some e) = some (x ∷ e)
end_cons x none = if ltb x 0xFF then some ((x + 1) ∷ []) else none

loop-snoc : (ys : Bytes) (x : ℕ) → prefix_end_loop (ys ++ x ∷ []) ≡ end_cons x (prefix_end_loop ys)
unfolding prefix_end_loop
loop-snoc [] x = ground arith
loop-snoc (y ∷ ys) x = ground (
  arith,
  loop-snoc ys x,
  reverse-cons (y + 1) (ys ++ x ∷ []),
  reverse-append ys (x ∷ []),
  reverse-cons (y + 1) ys,
)

-- The same function read from the front.
pub prefix_end-cons : (x : ℕ) (p : Bytes) → prefix_end (x ∷ p) ≡ end_cons x (prefix_end p)
unfolding prefix_end
prefix_end-cons x p = ap prefix_end_loop (reverse-cons x p) ∙ loop-snoc (reverse p) x

bytes_lt-nil : (s : Bytes) → bytes_lt s [] ≡ false
unfolding bytes_lt
bytes_lt-nil [] = refl
bytes_lt-nil (x ∷ s) = refl

pub prefix_end-nil : prefix_end [] ≡ none
unfolding prefix_end
prefix_end-nil = refl

range-cons :
    (x y : ℕ) (p s : Bytes)
    → y < 256
    → starts_with p s ≡ (not (bytes_lt s p) && is_below s (prefix_end p))
    → (x == y && starts_with p s)
      ≡ (not (bytes_lt (y ∷ s) (x ∷ p)) && is_below (y ∷ s) (end_cons x (prefix_end p)))
unfolding bytes_lt
range-cons x y p s h ih = ground (arith, bytes_lt-nil s)

-- The strings of bytes (numbers below 256) with a prefix are those from the prefix up to its end,
-- for every prefix: the empty one and one of bytes 0xFF have no end.
pub starts_with-range :
    (prefix s : Bytes)
    → All IsByte s
    → starts_with prefix s ≡ (not (bytes_lt s prefix) && is_below s (prefix_end prefix))
unfolding starts_with
starts_with-range [] s h = rw (prefix_end-nil, bytes_lt-nil s)
starts_with-range (x ∷ p) [] h = unfold bytes_lt in refl
starts_with-range (x ∷ p) (y ∷ s) h =
    rw (prefix_end-cons x p) (range-cons x y p s h.0 (starts_with-range p s h.1))
