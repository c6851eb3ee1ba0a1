-- ===== src/Base/Bits.antt =====
-- The bytes that another byte has the bits of, for the bitmaps of
-- server/src/server/worker/blob_reaper.
use Prim.Native.Nat.{ℕ, zero, suc, ◌+◌, ◌*◌, ◌/◌, ◌%◌, ◌≤◌, max, bit_or, digits, bit_or-bitwise}
use mathlib.Core.Path.{◌≡◌, refl, sym, ap, ◌∙◌}
use native.Mathlib.Omega.{arith}

abbrev or_digits : ℕ → ℕ → ℕ → ℕ
or_digits = digits (λ b. b) max

-- Any count of digits will do that the first number has no more of.
or_digits-count : (n m a b : ℕ) → a ≤ n → a ≤ m → or_digits n a b ≡ or_digits m a b
or_digits-count zero zero a b p q = refl
or_digits-count zero (suc m) zero b p q = refl
or_digits-count zero (suc m) (suc a) b p q = absurd (omega arith)
or_digits-count (suc n) zero zero b p q = refl
or_digits-count (suc n) zero (suc a) b p q = absurd (omega arith)
or_digits-count (suc n) (suc m) zero b p q = refl
or_digits-count (suc n) (suc m) (suc a) b p q =
    omega (arith, or_digits-count n m (suc a / 2) (b / 2) (omega arith) (omega arith))

zero-bit_or : (b : ℕ) → bit_or 0 b ≡ b
zero-bit_or b = bit_or-bitwise 0 b

low_digit : (a b : ℕ) → bit_or a b ≡ bit_or (a / 2) (b / 2) * 2 + max (a % 2) (b % 2)
low_digit zero b = omega (arith, zero-bit_or b, zero-bit_or (b / 2))
low_digit (suc a) b = omega (
  arith,
  bit_or-bitwise (suc a) b,
  bit_or-bitwise (suc a / 2) (b / 2),
  or_digits-count a (suc a / 2) (suc a / 2) (b / 2) (omega arith) (omega arith),
)

half : (a b : ℕ) → bit_or a b / 2 ≡ bit_or (a / 2) (b / 2)
half a b = omega (arith, low_digit a b)

parity : (a b : ℕ) → bit_or a b % 2 ≡ max (a % 2) (b % 2)
parity a b = omega (arith, low_digit a b)

assoc_below : (n a b c : ℕ) → a ≤ n → b ≤ n → c ≤ n → bit_or (bit_or a b) c ≡ bit_or a (bit_or b c)
assoc_below zero zero zero zero p q r = refl
assoc_below zero (suc a) b c p q r = absurd (omega arith)
assoc_below zero zero (suc b) c p q r = absurd (omega arith)
assoc_below zero zero zero (suc c) p q r = absurd (omega arith)
assoc_below (suc n) a b c p q r =
    rw
      (
        low_digit (bit_or a b) c,
        low_digit a (bit_or b c),
        half a b,
        half b c,
        parity a b,
        parity b c,
      )
      (omega
        (arith, assoc_below n (a / 2) (b / 2) (c / 2) (omega arith) (omega arith) (omega arith)))

bit_or_assoc : (a b c : ℕ) → bit_or (bit_or a b) c ≡ bit_or a (bit_or b c)
bit_or_assoc a b c = assoc_below (a + b + c) a b c (omega arith) (omega arith) (omega arith)

self_below : (n a : ℕ) → a ≤ n → bit_or a a ≡ a
self_below zero zero h = refl
self_below zero (suc a) h = absurd (omega arith)
self_below (suc n) a h = omega (arith, low_digit a a, self_below n (a / 2) (omega arith))

pub bit_or_self : (a : ℕ) → bit_or a a ≡ a
bit_or_self a = self_below a a (omega arith)

comm_below : (n a b : ℕ) → a ≤ n → b ≤ n → bit_or a b ≡ bit_or b a
comm_below zero zero zero p q = refl
comm_below zero zero (suc b) p q = absurd (omega arith)
comm_below zero (suc a) b p q = absurd (omega arith)
comm_below (suc n) a b p q =
    omega (
      arith,
      low_digit a b,
      low_digit b a,
      comm_below n (a / 2) (b / 2) (omega arith) (omega arith),
    )

bit_or_comm : (a b : ℕ) → bit_or a b ≡ bit_or b a
bit_or_comm a b = comm_below (a + b) a b (omega arith) (omega arith)

-- `b` has the bits of `a`.
abbrev pub HasBits : ℕ → ℕ → Type 0
HasBits b a = bit_or b a ≡ b

pub HasBits-left : (a b : ℕ) → HasBits (bit_or a b) a
HasBits-left a b =
    bit_or_comm (bit_or a b) a ∙ sym (bit_or_assoc a a b) ∙ ap (λ x. bit_or x b) (bit_or_self a)

pub HasBits-right : (a b : ℕ) → HasBits (bit_or a b) b
HasBits-right a b = bit_or_assoc a b b ∙ ap (bit_or a) (bit_or_self b)

pub HasBits-trans : (a b c : ℕ) → HasBits b a → HasBits c b → HasBits c a
HasBits-trans a b c h k = ap (λ x. bit_or x a) (sym k) ∙ bit_or_assoc c b a ∙ ap (bit_or c) h ∙ k

pub HasBits-zero : (b : ℕ) → HasBits b 0
HasBits-zero b = bit_or_comm b 0 ∙ zero-bit_or b
