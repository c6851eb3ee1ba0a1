-- ===== src/Examples/Filters.antt =====
-- A Bloom filter of one byte and one bit for each item, behind a header of one byte; and files of
-- blob stores that are there or not.
use artifact_depot.Base.{
  ℕ, ◌%◌, ◌^◌, ◌≡◌, refl, Bool, true, false, [], ◌∷◌, Option, some, none, ◌==◌, if◌then◌else◌,
  arith, length,
}
use artifact_depot.Base.Bits.{HasBits-left, HasBits-right, HasBits-trans}
use artifact_depot.Base.Bytes.{Bytes}
use artifact_depot.Gc.Bloom.{BloomCrate, BloomLaws, SameShape, header_len}
use artifact_depot.Gc.Orphans.{OrphanKey, orphan_eq}
use artifact_depot.Gc.Orphans.Kept.{KeepsOthers}
use artifact_depot.Gc.Orphans.Lookup.{orphan_eq_iff}
use Prim.Native.Nat.{bit_or}

abbrev mask : Bytes → ℕ
mask [] = 1
mask (c ∷ r) = 2 ^ (c % 8)

abbrev read : Bytes → Option ℕ
read (h ∷ b ∷ []) = if h == 7 then some b else none
read other = none

abbrev pub tiny : BloomCrate
tiny = record {
  Filter = ℕ;
  as_slice = λ f. 7 ∷ f ∷ [];
  bit_count = λ f. 8;
  from_bytes = read;
  clear = λ f. 0;
  set = λ x f. bit_or f (mask x);
  check = λ f x. bit_or f (mask x) == f;
}

one_byte : (f : ℕ) → header_len tiny f ≡ 1
unfolding header_len
one_byte f = refl

tiny_shape : (f g : ℕ) → SameShape tiny f g
tiny_shape f g = record {
  same_count = refl;
  same_length = refl;
  same_header = rw (one_byte f) refl;
}

tiny_read :
    (f : ℕ) (bitmap : Bytes)
    → length bitmap ≡ 1
    → (g : ℕ) × (read (7 ∷ bitmap) ≡ some g)
      × (◌≡◌ {A = Bytes} (7 ∷ g ∷ []) (7 ∷ bitmap))
      × (◌≡◌ {A = ℕ} 8 8)
tiny_read f [] h = absurd (omega arith)
tiny_read f (x ∷ []) h = (x, refl, refl, refl)
tiny_read f (x ∷ y ∷ r) h = absurd (omega arith)

same_byte : (a b : ℕ) → a ≡ b → (a == b) ≡ true
same_byte a b h = ground arith

pub tiny-BloomLaws : BloomLaws tiny
unfolding header_len
tiny-BloomLaws = record {
  round_trip = λ f. refl;
  from_bytes_lem = λ f bitmap h. tiny_read f bitmap h;
  clear-SameShape = λ f. tiny_shape f 0;
  set-Grows = λ x f. record {
    shape = tiny_shape f (bit_or f (mask x));
    has_bits = (HasBits-left f (mask x), tt);
  };
  check-set = λ x f.
      same_byte (bit_or (bit_or f (mask x)) (mask x)) (bit_or f (mask x))
        (HasBits-right f (mask x));
  check-Grows = λ x f g grows found.
      same_byte (bit_or g (mask x)) g
        (HasBits-trans (mask x) f g (ground (arith, found)) grows.has_bits.0);
}

-- The files of all stores.
abbrev pub Files : Type 0
Files = OrphanKey → Bool

abbrev pub no_files : Files
no_files key = false

abbrev pub all_files : Files
all_files key = true

abbrev pub removed : Bytes → Bytes → Files → Files
removed s b files key = if orphan_eq (s, b) key then false else files key

abbrev pub has : Files → OrphanKey → Bool
has files key = files key

pub removed-KeepsOthers : KeepsOthers removed has
removed-KeepsOthers s b files key other = rw other

pub removed-gone : (s b : Bytes) (files : Files) → has (removed s b files) (s, b) ≡ false
removed-gone s b files = rw ((orphan_eq_iff (s, b) (s, b)).1 refl)
