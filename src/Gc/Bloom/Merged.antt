-- ===== src/Gc/Bloom/Merged.antt =====
-- An accumulator misses no item of the filters that were merged into it.
use artifact_depot.Base.{
  ℕ, suc, ◌-◌, ◌+◌, ◌≤◌, ◌≡◌, refl, sym, ap, ◌∙◌, true, [], ◌∷◌, ◌++◌, some, arith, length, take,
  drop, length-take, length-drop, length-append, take-append, drop-append, ◌==◌,
}
use mathlib.Core.Path.{subst}
use artifact_depot.Base.Bits.{HasBits-left, HasBits-right, HasBits-trans, HasBits-zero, bit_or_self}
use artifact_depot.Base.Bytes.{Bytes, bytes_eq, bytes_eq_iff}
use artifact_depot.Service.Error.{ok}
use artifact_depot.Gc.Bloom.{
  BloomCrate, BloomLaws, BloomAccumulator, AllHaveBits, SameShape, header_len, or_bytes,
  fetch_or_bytes, zeros, empty_like, or_from, finalize, bloom_empty_like, slice_to,
}

AllHaveBits-refl : (xs : Bytes) → AllHaveBits xs xs
AllHaveBits-refl [] = tt
AllHaveBits-refl (x ∷ xs) = (bit_or_self x, AllHaveBits-refl xs)

pub AllHaveBits-trans :
    (xs ys zs : Bytes) → AllHaveBits ys xs → AllHaveBits zs ys → AllHaveBits zs xs
AllHaveBits-trans [] [] zs h k = k
AllHaveBits-trans [] (y ∷ ys) zs h k = absurd h
AllHaveBits-trans (x ∷ xs) [] zs h k = absurd h
AllHaveBits-trans (x ∷ xs) (y ∷ ys) [] h k = absurd k
AllHaveBits-trans (x ∷ xs) (y ∷ ys) (z ∷ zs) h k =
    (HasBits-trans x y z h.0 k.0, AllHaveBits-trans xs ys zs h.1 k.1)

-- The writes that are skipped would change nothing.
fetch_or_bytes-or_bytes : (ds ss : Bytes) → fetch_or_bytes ds ss ≡ or_bytes ds ss
unfolding fetch_or_bytes or_bytes
fetch_or_bytes-or_bytes [] ss = refl
fetch_or_bytes-or_bytes (d ∷ ds) [] = refl
fetch_or_bytes-or_bytes (d ∷ ds) (s ∷ ss) =
    ground (arith, HasBits-zero d, fetch_or_bytes-or_bytes ds ss)

length-or_bytes : (ts ss : Bytes) → length (or_bytes ts ss) ≡ length ts
unfolding or_bytes
length-or_bytes [] ss = refl
length-or_bytes (t ∷ ts) [] = refl
length-or_bytes (t ∷ ts) (s ∷ ss) = omega (arith, length-or_bytes ts ss)

or_bytes-left : (ts ss : Bytes) → AllHaveBits (or_bytes ts ss) ts
unfolding or_bytes
or_bytes-left [] ss = tt
or_bytes-left (t ∷ ts) [] = AllHaveBits-refl (t ∷ ts)
or_bytes-left (t ∷ ts) (s ∷ ss) = (HasBits-left t s, or_bytes-left ts ss)

or_bytes-right : (ts ss : Bytes) → length ss ≡ length ts → AllHaveBits (or_bytes ts ss) ss
unfolding or_bytes
or_bytes-right [] [] h = tt
or_bytes-right [] (s ∷ ss) h = absurd (omega arith)
or_bytes-right (t ∷ ts) [] h = absurd (omega arith)
or_bytes-right (t ∷ ts) (s ∷ ss) h = (HasBits-right t s, or_bytes-right ts ss (omega arith))

length-zeros : (n : ℕ) → length (zeros n) ≡ n
length-zeros Prim.Native.Nat.zero = refl
length-zeros (suc n) = omega (arith, length-zeros n)

slice_to_within : (n : ℕ) (xs : Bytes) → n ≤ length xs → slice_to n xs ≡ some (take n xs)
slice_to_within n xs h = ground arith

module _ (crate : BloomCrate) where
  open crate use {Filter, as_slice, check, clear}

  -- An accumulator for filters with the parameters of `t`.
  pub record IsAccumulator (t : Filter) (acc : BloomAccumulator) : Type 0 where
    pub header_eq : acc.header ≡ take (header_len crate t) (as_slice t)
    pub bits_length : length acc.bits ≡ length (as_slice t) - header_len crate t

  within : (t : Filter) → header_len crate t ≤ length (as_slice t)
  unfolding header_len
  within t = omega arith

  header_len-eq : (f g : Filter) → SameShape crate f g → header_len crate g ≡ header_len crate f
  unfolding header_len
  header_len-eq f g s = rw (s.same_length, s.same_count) refl

  pub empty_like-IsAccumulator : (t : Filter) → IsAccumulator t (empty_like crate t)
  unfolding empty_like
  empty_like-IsAccumulator t = record {
    header_eq = rw (slice_to_within (header_len crate t) (as_slice t) (within t)) refl;
    bits_length = length-zeros _;
  }

  -- What a merge gives.
  abbrev pub Merged : Filter → Filter → BloomAccumulator → BloomAccumulator → Type 0
  Merged t f acc acc' =
      IsAccumulator t acc'
      × AllHaveBits acc'.bits acc.bits
      × AllHaveBits acc'.bits (drop (header_len crate t) (as_slice f))

  pub or_from-ok :
      (t f : Filter) (acc : BloomAccumulator)
      → IsAccumulator t acc
      → SameShape crate t f
      → (acc' : BloomAccumulator) × (or_from crate f acc ≡ ok acc') × Merged t f acc acc'
  unfolding or_from
  or_from-ok t f acc a s =
      let n : length acc.header ≡ header_len crate t =
        ap length a.header_eq ∙ length-take (header_len crate t) (as_slice t) (within t) in
      let total : (length (as_slice f) == length acc.header + length acc.bits) ≡ true =
        ground (arith, within t, s.same_length, a.bits_length) in
      let same : bytes_eq (take (length acc.header) (as_slice f)) acc.header ≡ true =
        rw n ((bytes_eq_iff _ _).1 (s.same_header ∙ sym a.header_eq)) in
      let cut =
        slice_to_within (length acc.header) (as_slice f) (omega (arith, within t, s.same_length)) in
      let src = drop (length acc.header) (as_slice f) in
      let merged = fetch_or_bytes-or_bytes acc.bits src in
      let src_length : length src ≡ length acc.bits =
        length-drop (length acc.header) (as_slice f)
        ∙ omega (arith, s.same_length, a.bits_length) in
      (
        record acc { bits = fetch_or_bytes acc.bits src },
        rw (cut, same, total) refl,
        (
          record {
            header_eq = a.header_eq;
            bits_length = ap length merged ∙ length-or_bytes acc.bits src ∙ a.bits_length;
          },
          rw merged (or_bytes-left acc.bits src),
          rw (merged, ← n) (or_bytes-right acc.bits src src_length),
        ),
      )

  pub finalize-ok :
      (laws : BloomLaws crate) (t : Filter) (acc : BloomAccumulator)
      → IsAccumulator t acc
      → (g : Filter) × (finalize crate acc ≡ ok g)
        × SameShape crate t g
        × (drop (header_len crate t) (as_slice g) ≡ acc.bits)
  unfolding finalize
  finalize-ok laws t acc a =
      let h = header_len crate t in
      let head = take h (as_slice t) in
      let n : length head ≡ h = length-take h (as_slice t) (within t) in
      let (g, read, serialized, count) = laws.from_bytes_lem t acc.bits a.bits_length in
      (
        g,
        rw (a.header_eq, read) refl,
        record {
          same_count = count;
          same_length =
              ap length serialized
              ∙ length-append head acc.bits
              ∙ omega (arith, n, a.bits_length, within t);
          same_header =
              ap (take h) serialized
              ∙ subst (λ (k : ℕ). take k (head ++ acc.bits) ≡ head) n (take-append head acc.bits);
        },
        ap (drop h) serialized
            ∙ subst (λ (k : ℕ). drop k (head ++ acc.bits) ≡ acc.bits) n (drop-append head acc.bits),
      )

  pub bloom_empty_like-SameShape :
      (laws : BloomLaws crate) (t : Filter)
      → (b : Filter) × (bloom_empty_like crate t ≡ ok b) × SameShape crate t b
  unfolding bloom_empty_like
  bloom_empty_like-SameShape laws t = (clear t, rw (laws.round_trip t) refl, laws.clear-SameShape t)

  SameShape-trans :
      (t f g : Filter) → SameShape crate t f → SameShape crate f g → SameShape crate t g
  SameShape-trans t f g s u = record {
    same_count = u.same_count ∙ s.same_count;
    same_length = u.same_length ∙ s.same_length;
    same_header =
        subst (λ (k : ℕ). take k (as_slice g) ≡ take k (as_slice f)) (header_len-eq t f s)
          u.same_header
        ∙ s.same_header;
  }

  -- Items that are set keep the parameters of a filter.
  pub set-SameShape :
      (laws : BloomLaws crate) (x : Bytes) (t f : Filter)
      → SameShape crate t f
      → SameShape crate t (crate.set x f)
  set-SameShape laws x t f s = SameShape-trans t f (crate.set x f) s (laws.set-Grows x f).shape

  -- The filter of an accumulator that has the bits of `f` finds the items of `f`.
  pub check-finalize :
      (laws : BloomLaws crate) (x : Bytes) (t f g : Filter) (acc : BloomAccumulator)
      → SameShape crate t f
      → SameShape crate t g
      → drop (header_len crate t) (as_slice g) ≡ acc.bits
      → AllHaveBits acc.bits (drop (header_len crate t) (as_slice f))
      → check f x ≡ true
      → check g x ≡ true
  check-finalize laws x t f g acc s u bitmap has found =
      laws.check-Grows x f g
        (record {
          shape = record {
            same_count = u.same_count ∙ sym s.same_count;
            same_length = u.same_length ∙ sym s.same_length;
            same_header = rw (header_len-eq t f s) (u.same_header ∙ sym s.same_header);
          };
          has_bits = rw (header_len-eq t f s, bitmap) has;
        })
        found
