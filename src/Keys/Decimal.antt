-- ===== src/Keys/Decimal.antt =====
-- Decimal texts as the `{}` and `{:020}` of `format!` write them.
use native.Mathlib.Nat.{pow-suc}
use artifact_depot.Base.{
  ℕ, zero, suc, ◌+◌, ◌-◌, ◌*◌, ◌/◌, ◌%◌, ◌^◌, ◌<◌, ◌≤◌, ◌≡◌, refl, ap, ◌∙◌, sym, false, ◌||◌, ◌&&◌,
  [], ◌∷◌, ◌++◌, arith, ltb, ◌==◌, if◌then◌else◌, length, length-append,
}
use artifact_depot.Base.Bytes.{
  Bytes, bytes_lt, bytes_eq, contains_byte, contains_byte-append, bytes_eq_iff,
}

-- `w` digits, the lowest last.
unfoldable pub padded : ℕ → ℕ → Bytes
padded zero n = []
padded (suc w) n = padded w (n / 10) ++ (48 + n % 10) ∷ []

digit_count : ℕ → ℕ → ℕ
digit_count zero n = 1
digit_count (suc fuel) n = let more = digit_count fuel (n / 10) in if ltb n 10 then 1 else suc more

unfoldable pub decimal : ℕ → Bytes
unfolding padded digit_count
decimal n = padded (digit_count n n) n

-- The number that a decimal text stands for.
pub value : ℕ → Bytes → ℕ
value acc [] = acc
value acc (c ∷ s) = value (acc * 10 + (c - 48)) s

value-append : (acc : ℕ) (s : Bytes) (c : ℕ) → value acc (s ++ c ∷ []) ≡ value acc s * 10 + (c - 48)
unfolding value
value-append acc [] c = refl
value-append acc (d ∷ s) c = value-append (acc * 10 + (d - 48)) s c

pub value-padded : (w n : ℕ) → n < 10 ^ w → value 0 (padded w n) ≡ n
unfolding padded
value-padded zero n h = unfold value in omega arith
value-padded (suc w) n h =
    value-append 0 (padded w (n / 10)) (48 + n % 10)
    ∙ omega (arith, value-padded w (n / 10) (omega (arith, pow-suc 10 w)))

digit_count-bound : (fuel n : ℕ) → n ≤ fuel → n < 10 ^ digit_count fuel n
unfolding digit_count
digit_count-bound zero n h = omega arith
digit_count-bound (suc fuel) n h =
    ground (arith, digit_count-bound fuel (n / 10), pow-suc 10 (digit_count fuel (n / 10)))

pub value-decimal : (n : ℕ) → value 0 (decimal n) ≡ n
unfolding decimal
value-decimal n = value-padded (digit_count n n) n (digit_count-bound n n (omega arith))

pub decimal-injective : (m n : ℕ) → decimal m ≡ decimal n → m ≡ n
decimal-injective m n e = sym (value-decimal m) ∙ ap (value 0) e ∙ value-decimal n

-- No byte below or above the digits occurs.
contains_byte-padded : (c w n : ℕ) → c < 48 → contains_byte c (padded w n) ≡ false
unfolding padded contains_byte
contains_byte-padded c zero n h = refl
contains_byte-padded c (suc w) n h = ground (
  arith,
  contains_byte-append c (padded w (n / 10)) ((48 + n % 10) ∷ []),
  contains_byte-padded c w (n / 10),
)

pub contains_byte-decimal : (c n : ℕ) → c < 48 → contains_byte c (decimal n) ≡ false
unfolding decimal
contains_byte-decimal c n = contains_byte-padded c (digit_count n n) n

length-padded : (w n : ℕ) → length (padded w n) ≡ w
unfolding padded
length-padded zero n = refl
length-padded (suc w) n =
    omega
      (arith, length-append {0} (padded w (n / 10)) ((48 + n % 10) ∷ []), length-padded w (n / 10))

bytes_lt-append :
    (x y s t : Bytes)
    → length x ≡ length y
    → bytes_lt (x ++ s) (y ++ t) ≡ (bytes_lt x y || (bytes_eq x y && bytes_lt s t))
unfolding bytes_lt bytes_eq
bytes_lt-append [] [] s t h = refl
bytes_lt-append [] (d ∷ y) s t h = absurd (omega arith)
bytes_lt-append (c ∷ x) [] s t h = absurd (omega arith)
bytes_lt-append (c ∷ x) (d ∷ y) s t h = ground (arith, bytes_lt-append x y s t)

bytes_eq-padded :
    (w m n : ℕ) → m < 10 ^ w → n < 10 ^ w → bytes_eq (padded w m) (padded w n) ≡ (m == n)
bytes_eq-padded w m n h k = ground (
  arith,
  bytes_eq_iff (padded w m) (padded w n),
  ap (value 0) {x = padded w m} {y = padded w n},
  value-padded w m h,
  value-padded w n k,
)

-- The order of two numbers by their quotients and last digits.
by_digits :
    (m n : ℕ)
    → (ltb (m / 10) (n / 10)
        || (m / 10 == n / 10 && bytes_lt ((48 + m % 10) ∷ []) ((48 + n % 10) ∷ [])))
      ≡ ltb m n
unfolding bytes_lt
by_digits m n = ground arith

-- Texts of one width are ordered as their numbers.
pub bytes_lt-padded :
    (w m n : ℕ) → m < 10 ^ w → n < 10 ^ w → bytes_lt (padded w m) (padded w n) ≡ ltb m n
unfolding padded
bytes_lt-padded zero m n h k = unfold bytes_lt in ground arith
bytes_lt-padded (suc w) m n h k =
    bytes_lt-append (padded w (m / 10)) (padded w (n / 10)) ((48 + m % 10) ∷ [])
      ((48 + n % 10) ∷ []) (length-padded w (m / 10) ∙ sym (length-padded w (n / 10)))
    ∙ rw
        (
          bytes_lt-padded w (m / 10) (n / 10) (omega (arith, pow-suc 10 w))
              (omega (arith, pow-suc 10 w)),
          bytes_eq-padded w (m / 10) (n / 10) (omega (arith, pow-suc 10 w))
              (omega (arith, pow-suc 10 w)),
        )
        (by_digits m n)
