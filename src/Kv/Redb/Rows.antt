-- ===== src/Kv/Redb/Rows.antt =====
-- The rows that a scan of a partition returns, in terms of the flat keys.
use artifact_depot.Base.{
  ◌≡◌, refl, ◌∙◌, true, false, ◌&&◌, [], ◌∷◌, ◌++◌, Option, some, none, arith, length, drop,
  append_assoc,
}
use artifact_depot.Base.Bytes.{Bytes, bytes_lt, bytes_eq, starts_with, contains_byte}
use artifact_depot.Keys.Prefix.{prefix_end, prefix_end-cons, prefix_end-nil}
use artifact_depot.Keys.Tree.{NulFree}
use artifact_depot.Kv.{in_range}
use artifact_depot.Kv.Redb.{flat_key, partition_prefix, extract_sk, range_end}

-- The flat keys of two NUL-free partition keys are equal only part by part.
pub bytes_eq-flat_key :
    (pk qk sk tk : Bytes)
    → NulFree pk
    → NulFree qk
    → bytes_eq (flat_key pk sk) (flat_key qk tk) ≡ (bytes_eq pk qk && bytes_eq sk tk)
unfolding flat_key bytes_eq contains_byte
bytes_eq-flat_key [] [] sk tk h k = refl
bytes_eq-flat_key [] (y ∷ qk) sk tk h k = ground arith
bytes_eq-flat_key (x ∷ pk) [] sk tk h k = ground arith
bytes_eq-flat_key (x ∷ pk) (y ∷ qk) sk tk h k = ground (arith, bytes_eq-flat_key pk qk sk tk)

pub prefix-append : (pk sk : Bytes) → partition_prefix pk ++ sk ≡ flat_key pk sk
unfolding partition_prefix flat_key
prefix-append pk sk = append_assoc pk (0x00 ∷ []) sk

pub partition_end : Bytes → Bytes
partition_end pk = pk ++ 0x01 ∷ []

pub prefix_end-partition : (pk : Bytes) → prefix_end (partition_prefix pk) ≡ some (partition_end pk)
unfolding partition_prefix partition_end
prefix_end-partition [] = rw (prefix_end-cons, prefix_end-nil)
prefix_end-partition (x ∷ pk) = rw (prefix_end-cons, prefix_end-partition pk)

bytes_lt-nil : (s : Bytes) → bytes_lt s [] ≡ false
unfolding bytes_lt
bytes_lt-nil [] = refl
bytes_lt-nil (x ∷ s) = refl

-- The order of flat keys of one partition is that of the sort keys.
pub bytes_lt-flat_key : (pk s t : Bytes) → bytes_lt (flat_key pk s) (flat_key pk t) ≡ bytes_lt s t
unfolding flat_key bytes_lt
bytes_lt-flat_key [] s t = ground arith
bytes_lt-flat_key (x ∷ pk) s t = ground (arith, bytes_lt-flat_key pk s t)

flat_key-below_end : (pk s : Bytes) → bytes_lt (flat_key pk s) (partition_end pk) ≡ true
unfolding flat_key bytes_lt partition_end
flat_key-below_end [] s = refl
flat_key-below_end (x ∷ pk) s = ground (arith, flat_key-below_end pk s)

-- A key at or after one flat key and before another, or before the end, is a flat key.
between-end :
    (pk s k : Bytes)
    → bytes_lt k (flat_key pk s) ≡ false
    → bytes_lt k (partition_end pk) ≡ true
    → starts_with (partition_prefix pk) k ≡ true
unfolding flat_key bytes_lt partition_end partition_prefix starts_with
between-end [] s [] h e = ground arith
between-end [] s (y ∷ k) h e = ground (arith, bytes_lt-nil k)
between-end (x ∷ pk) s [] h e = ground arith
between-end (x ∷ pk) s (y ∷ k) h e = ground (arith, between-end pk s k)

between-keys :
    (pk s t k : Bytes)
    → bytes_lt k (flat_key pk s) ≡ false
    → bytes_lt k (flat_key pk t) ≡ true
    → starts_with (partition_prefix pk) k ≡ true
unfolding flat_key bytes_lt partition_prefix starts_with
between-keys [] s t [] h e = ground arith
between-keys [] s t (y ∷ k) h e = ground arith
between-keys (x ∷ pk) s t [] h e = ground arith
between-keys (x ∷ pk) s t (y ∷ k) h e = ground (arith, between-keys pk s t k)

-- What a scan range holds are keys of the partition.
pub range-starts_with :
    (pk start : Bytes) (end : Option Bytes) (k : Bytes)
    → in_range (flat_key pk start) (range_end pk end) k ≡ true
    → starts_with (partition_prefix pk) k ≡ true
range-starts_with pk start none k h =
    ground (arith, between-end pk start k, prefix_end-partition pk)
range-starts_with pk start (some e) k h = ground (arith, between-keys pk start e k)

pub in_range-flat_key :
    (pk start : Bytes) (end : Option Bytes) (sk : Bytes)
    → in_range (flat_key pk start) (range_end pk end) (flat_key pk sk) ≡ in_range start end sk
in_range-flat_key pk start none sk =
    ground (arith, bytes_lt-flat_key pk sk start, prefix_end-partition pk, flat_key-below_end pk sk)
in_range-flat_key pk start (some e) sk =
    ground (arith, bytes_lt-flat_key pk sk start, bytes_lt-flat_key pk sk e)

-- A text with a prefix is the prefix and the rest.
drop-prefix : (p k : Bytes) → starts_with p k ≡ true → k ≡ p ++ drop (length p) k
unfolding starts_with
drop-prefix [] k h = refl
drop-prefix (x ∷ p) [] h = ground arith
drop-prefix (x ∷ p) (y ∷ k) h = ground (arith, drop-prefix p k)

pub extract_sk-flat :
    (pk sk : Bytes) → extract_sk (flat_key pk sk) (length (partition_prefix pk)) ≡ sk
unfolding extract_sk flat_key partition_prefix
extract_sk-flat [] sk = refl
extract_sk-flat (x ∷ pk) sk = extract_sk-flat pk sk

pub flat-extract_sk :
    (pk k : Bytes)
    → starts_with (partition_prefix pk) k ≡ true
    → k ≡ flat_key pk (extract_sk k (length (partition_prefix pk)))
unfolding extract_sk
flat-extract_sk pk k h = drop-prefix (partition_prefix pk) k h ∙ prefix-append pk _
