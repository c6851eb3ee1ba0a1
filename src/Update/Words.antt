-- ===== src/Update/Words.antt =====
-- `i64` and `u64` as words of 64 bits: a release build wraps around, and `as` keeps the bits.
use artifact_depot.Base.{ℕ, ◌+◌, ◌%◌, ◌<◌, Bool, ◌||◌, leb, ◌==◌, if◌then◌else◌}

abbrev pub word_size : ℕ
word_size = 18446744073709551616

abbrev pub sign_bit : ℕ
sign_bit = 9223372036854775808

abbrev pub IsWord : ℕ → Type 0
IsWord a = a < word_size

unfoldable pub add_i64 : ℕ → ℕ → ℕ
add_i64 a b = (a + b) % word_size

-- `a < 0`
abbrev pub is_negative : ℕ → Bool
is_negative a = leb sign_bit a

-- `a <= 0`
abbrev pub not_positive : ℕ → Bool
not_positive a = a == 0 || is_negative a

-- `a.max(0)`
unfoldable pub max_0 : ℕ → ℕ
max_0 a = if is_negative a then 0 else a
