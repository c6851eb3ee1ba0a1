-- ===== src/Gc/Bloom.antt =====
-- server/src/server/worker/blob_reaper/bloom.rs. The filters of the crate `bloomfilter` are a
-- parameter, with what the source relies on: a filter is serialized as a header and its bitmap.
pub mod Merged
use artifact_depot.Base.{
  ℕ, ◌-◌, ◌/◌, ◌+◌, ◌≤◌, ◌≡◌, Bool, true, false, not, ◌&&◌, ◌||◌, List, [], ◌∷◌, ◌++◌, Option, some,
  none, ◌==◌, leb, if◌then◌else◌, length, take, drop,
}
use artifact_depot.Base.Bits.{HasBits}
use artifact_depot.Base.Bytes.{Bytes, bytes_eq}
use artifact_depot.Service.Error.{Result, ok, err, ◌>>=◌, DepotError}
use Prim.Native.Nat.{bit_or}

pub record BloomCrate : Type 1 where
  pub Filter : Type 0
  -- The serialized form, `as_slice` and `to_bytes`.
  pub as_slice : Filter → Bytes
  -- `len`, the number of bits of the bitmap.
  pub bit_count : Filter → ℕ
  pub from_bytes : Bytes → Option Filter
  pub clear : Filter → Filter
  pub set : Bytes → Filter → Filter
  pub check : Filter → Bytes → Bool

-- `get(..n)`
abbrev pub slice_to : ℕ → Bytes → Option Bytes
slice_to n xs = if leb n (length xs) then some (take n xs) else none

abbrev pub slices_eq : Option Bytes → Option Bytes → Bool
slices_eq none none = true
slices_eq none (some ys) = false
slices_eq (some xs) none = false
slices_eq (some xs) (some ys) = bytes_eq xs ys

abbrev pub slice_or_empty : Option Bytes → Bytes
slice_or_empty none = []
slice_or_empty (some xs) = xs

abbrev pub bloom_result {ℓ} : {A : Type ℓ} → Option A → Result A
bloom_result none = err DepotError.internal
bloom_result (some a) = ok a

-- Every byte has the bits of its counterpart.
abbrev pub AllHaveBits : Bytes → Bytes → Type 0
AllHaveBits [] [] = Unit
AllHaveBits [] (x ∷ xs) = ⊥
AllHaveBits (y ∷ ys) [] = ⊥
AllHaveBits (y ∷ ys) (x ∷ xs) = HasBits y x × AllHaveBits ys xs

-- `*t |= s` for each pair
unfoldable pub or_bytes : Bytes → Bytes → Bytes
or_bytes [] ss = []
or_bytes (t ∷ ts) [] = t ∷ ts
or_bytes (t ∷ ts) (s ∷ ss) = bit_or t s ∷ or_bytes ts ss

-- The same without the writes that change nothing.
unfoldable pub fetch_or_bytes : Bytes → Bytes → Bytes
fetch_or_bytes [] ss = []
fetch_or_bytes (d ∷ ds) [] = d ∷ ds
fetch_or_bytes (d ∷ ds) (s ∷ ss) = (if s == 0 then d else bit_or d s) ∷ fetch_or_bytes ds ss

abbrev pub zeros : ℕ → Bytes
zeros Prim.Native.Nat.zero = []
zeros (Prim.Native.Nat.suc n) = 0 ∷ zeros n

pub record BloomAccumulator : Type 0 where
  pub header : Bytes
  pub bits : Bytes

module _ (crate : BloomCrate) where
  open crate use {Filter, as_slice, bit_count, from_bytes, clear, set, check}

  unfoldable pub header_len : Filter → ℕ
  header_len filter = length (as_slice filter) - bit_count filter / 8

  unfoldable pub bloom_empty_like : Filter → Result Filter
  bloom_empty_like template = do b ← bloom_result (from_bytes (as_slice template)); ok (clear b)

  unfoldable pub bloom_union : Filter → Filter → Result Filter
  unfolding header_len or_bytes
  bloom_union target source =
      let h = header_len target in
      let merged = as_slice target in
      let src = as_slice source in
      if not (slices_eq (slice_to h merged) (slice_to h src)) || not (length merged == length src)
      then err DepotError.internal
      else bloom_result (from_bytes (take h merged ++ or_bytes (drop h merged) (drop h src)))

  unfoldable pub empty_like : Filter → BloomAccumulator
  unfolding header_len
  empty_like template =
      let h = header_len template in
      let serialized = as_slice template in
      record {
        header = slice_or_empty (slice_to h serialized);
        bits = zeros (length serialized - h);
      }

  unfoldable pub or_from : Filter → BloomAccumulator → Result BloomAccumulator
  unfolding fetch_or_bytes
  or_from source acc =
      let src = as_slice source in
      if not (slices_eq (slice_to (length acc.header) src) (some acc.header))
        || not (length src == length acc.header + length acc.bits)
      then err DepotError.internal
      else ok (record acc { bits = fetch_or_bytes acc.bits (drop (length acc.header) src) })

  unfoldable pub finalize : BloomAccumulator → Result Filter
  finalize acc = bloom_result (from_bytes (acc.header ++ acc.bits))

  -- The same parameters: the size of the bitmap and the header.
  pub record SameShape (f g : Filter) : Type 0 where
    pub same_count : bit_count g ≡ bit_count f
    pub same_length : length (as_slice g) ≡ length (as_slice f)
    pub same_header : take (header_len f) (as_slice g) ≡ take (header_len f) (as_slice f)

  -- `g` has the parameters of `f`, and every bit of it.
  pub record Grows (f g : Filter) : Type 0 where
    pub shape : SameShape f g
    pub has_bits : AllHaveBits (drop (header_len f) (as_slice g)) (drop (header_len f) (as_slice f))

  -- What the crate documents: the serialized form, and that no item is missed.
  pub record BloomLaws : Type 0 where
    pub round_trip : (f : Filter) → from_bytes (as_slice f) ≡ some f
    -- Any bitmap of the right length behind the header of a filter is a filter.
    pub from_bytes_lem :
        (f : Filter) (bitmap : Bytes)
        → length bitmap ≡ length (as_slice f) - header_len f
        → (g : Filter) × (from_bytes (take (header_len f) (as_slice f) ++ bitmap) ≡ some g)
          × (as_slice g ≡ take (header_len f) (as_slice f) ++ bitmap)
          × (bit_count g ≡ bit_count f)
    pub clear-SameShape : (f : Filter) → SameShape f (clear f)
    pub set-Grows : (x : Bytes) (f : Filter) → Grows f (set x f)
    pub check-set : (x : Bytes) (f : Filter) → check (set x f) x ≡ true
    pub check-Grows : (x : Bytes) (f g : Filter) → Grows f g → check f x ≡ true → check g x ≡ true
