-- ===== src/Base/Bytes.antt =====
-- Texts and byte strings as lists of bytes. A path is read byte by byte: `/` and NUL are single
-- bytes of UTF-8, and the order of texts is that of their bytes.
use Prim.Native.Char.{code}
use Prim.Native.String.{String}
use Prim.Native.Nat.{ℕ}
use mathlib.Core.Path.{◌≡◌, refl}
use mathlib.Core.Logic.{◌↔◌}
use mathlib.Core.Bool.{Bool, true, false, ◌&&◌, ◌||◌}
use mathlib.Core.Option.{Option, none, some}
use mathlib.Core.List.{List, [], ◌∷◌, ◌++◌}
use native.Mathlib.Omega.{arith}
use artifact_depot.Base.Tests.{ltb, ◌==◌, if◌then◌else◌}

abbrev pub Bytes : Type 0
Bytes = List ℕ

-- A literal as bytes.
abbrev pub bytes : String → Bytes
bytes String.[] = []
bytes (String.◌∷◌ c s) = code c ∷ bytes s

abbrev pub is_empty {ℓ} : {A : Type ℓ} → List A → Bool
is_empty [] = true
is_empty (x ∷ xs) = false

unfoldable pub bytes_eq : Bytes → Bytes → Bool
bytes_eq [] [] = true
bytes_eq [] (y ∷ ys) = false
bytes_eq (x ∷ xs) [] = false
bytes_eq (x ∷ xs) (y ∷ ys) = x == y && bytes_eq xs ys

-- The order of `Ord for [u8]`: byte by byte, a proper prefix first.
unfoldable pub bytes_lt : Bytes → Bytes → Bool
bytes_lt xs [] = false
bytes_lt [] (y ∷ ys) = true
bytes_lt (x ∷ xs) (y ∷ ys) = ltb x y || (x == y && bytes_lt xs ys)

unfoldable pub contains_byte : ℕ → Bytes → Bool
contains_byte c [] = false
contains_byte c (x ∷ xs) = x == c || contains_byte c xs

unfoldable pub starts_with : Bytes → Bytes → Bool
starts_with [] s = true
starts_with (x ∷ p) [] = false
starts_with (x ∷ p) (y ∷ s) = x == y && starts_with p s

-- `trim_start_matches`, `trim_end_matches` and `trim_matches` of one byte.
unfoldable pub trim_start : ℕ → Bytes → Bytes
trim_start c [] = []
trim_start c (x ∷ xs) = if x == c then trim_start c xs else x ∷ xs

unfoldable pub trim_end : ℕ → Bytes → Bytes
trim_end c [] = []
trim_end c (x ∷ xs) = let r = trim_end c xs in if x == c && is_empty r then [] else x ∷ r

unfoldable pub trim_matches : ℕ → Bytes → Bytes
unfolding trim_start trim_end
trim_matches c s = trim_end c (trim_start c s)

-- What stands before and behind the last `c`: `rsplit_once`, and `rfind` with `split_at`.
abbrev rsplit_cons : ℕ → ℕ → Bytes → Option (Bytes × Bytes) → Option (Bytes × Bytes)
rsplit_cons c x xs none = if x == c then some ([], xs) else none
rsplit_cons c x xs (some (a, b)) = some (x ∷ a, b)

unfoldable pub rsplit_once : ℕ → Bytes → Option (Bytes × Bytes)
rsplit_once c [] = none
rsplit_once c (x ∷ xs) = rsplit_cons c x xs (rsplit_once c xs)

pub bytes_eq_iff : (xs ys : Bytes) → (bytes_eq xs ys ≡ true) ↔ (xs ≡ ys)
unfolding bytes_eq
bytes_eq_iff [] [] = (λ _. refl, λ _. refl)
bytes_eq_iff [] (y ∷ ys) = (λ h. cc, λ h. cc)
bytes_eq_iff (x ∷ xs) [] = (λ h. cc, λ h. cc)
bytes_eq_iff (x ∷ xs) (y ∷ ys) =
    (λ h. ground (arith, bytes_eq_iff xs ys), λ h. ground (arith, bytes_eq_iff xs ys))

pub contains_byte-append :
    (c : ℕ) (xs ys : Bytes)
    → contains_byte c (xs ++ ys) ≡ (contains_byte c xs || contains_byte c ys)
unfolding contains_byte
contains_byte-append c [] ys = refl
contains_byte-append c (x ∷ xs) ys = ground (arith, contains_byte-append c xs ys)

-- The last `c` is found behind any text, if none stands after it.
pub rsplit_once-none : (c : ℕ) (s : Bytes) → contains_byte c s ≡ false → rsplit_once c s ≡ none
unfolding rsplit_once contains_byte
rsplit_once-none c [] h = refl
rsplit_once-none c (x ∷ xs) h = ground (arith, rsplit_once-none c xs)

pub rsplit_once-append :
    (c : ℕ) (a b : Bytes) → contains_byte c b ≡ false → rsplit_once c (a ++ c ∷ b) ≡ some (a, b)
unfolding rsplit_once
rsplit_once-append c [] b h = ground (arith, rsplit_once-none c b h)
rsplit_once-append c (x ∷ a) b h = ground (arith, rsplit_once-append c a b h)

-- The two ways in which a text is split.
abbrev pub Splits : ℕ → Bytes → Option (Bytes × Bytes) → Type 0
Splits c s none = contains_byte c s ≡ false
Splits c s (some (a, b)) = (s ≡ a ++ c ∷ b) × (contains_byte c b ≡ false)

Splits-cons :
    (c x : ℕ) (xs : Bytes) (r : Option (Bytes × Bytes))
    → Splits c xs r
    → Splits c (x ∷ xs) (rsplit_cons c x xs r)
unfolding contains_byte
Splits-cons c x xs none h = ground arith
Splits-cons c x xs (some (a, b)) h = ground arith

pub rsplit_once-Splits : (c : ℕ) (s : Bytes) → Splits c s (rsplit_once c s)
unfolding rsplit_once contains_byte
rsplit_once-Splits c [] = refl
rsplit_once-Splits c (x ∷ xs) = Splits-cons c x xs (rsplit_once c xs) (rsplit_once-Splits c xs)
