-- ===== src/Format/Golang.antt =====
-- The module paths of format/golang/src/store.rs. A text is the list of its bytes: the bytes of
-- other characters than ASCII stay as they are.
use artifact_depot.Base.{
  ℕ, ◌+◌, ◌-◌, ◌≤◌, ◌≡◌, refl, ap, ◌∙◌, ◌↔◌, Bool, true, false, ◌&&◌, [], ◌∷◌, ◌++◌, leb, ◌==◌,
  if◌then◌else◌, arith, length, Bool-cases, inl, inr,
}
use artifact_depot.Base.Bytes.{Bytes, bytes, contains_byte}

-- `'!'`
abbrev pub bang : ℕ
bang = 0x21

abbrev pub is_ascii_uppercase : ℕ → Bool
is_ascii_uppercase c = leb 65 c && leb c 90

abbrev pub to_ascii_lowercase : ℕ → ℕ
to_ascii_lowercase c = if is_ascii_uppercase c then c + 32 else c

abbrev pub to_ascii_uppercase : ℕ → ℕ
to_ascii_uppercase c = if leb 97 c && leb c 122 then c - 32 else c

unfoldable pub encode_module_path : Bytes → Bytes
encode_module_path [] = []
encode_module_path (c ∷ s) =
    let rest = encode_module_path s in
    if is_ascii_uppercase c then bang ∷ to_ascii_lowercase c ∷ rest else c ∷ rest

-- The loop; the flag says that a `!` has been read.
unfoldable pub decode_chars : Bool → Bytes → Bytes
decode_chars escaped [] = []
decode_chars true (c ∷ s) = to_ascii_uppercase c ∷ decode_chars false s
decode_chars false (c ∷ s) =
    let rest = decode_chars false s in
    let next = decode_chars true s in if c == bang then next else c ∷ rest

unfoldable pub decode_module_path : Bytes → Bytes
unfolding decode_chars
decode_module_path encoded = decode_chars false encoded

-- `format!("_modules/{encoded}/@v/{version}.{ext}")`
unfoldable pub module_file_path : Bytes → Bytes → Bytes → Bytes
unfolding encode_module_path
module_file_path path version ext =
    bytes "_modules/" ++ encode_module_path path ++ bytes "/@v/" ++ version ++ bytes "." ++ ext

back : (m : Bytes) → contains_byte bang m ≡ false → decode_chars false (encode_module_path m) ≡ m
unfolding encode_module_path decode_chars contains_byte
back [] h = refl
back (c ∷ m) h = elim (Bool-cases (is_ascii_uppercase c)) [
  | inl up ↦ rw up (ground (arith, back m))
  | inr low ↦ rw low (ground (arith, back m))
]

-- Decoding is never longer; behind a `!` by one at most.
decode_chars-shorter :
    (m : Bytes)
    → (length (decode_chars false (encode_module_path m)) ≤ length m)
      × (length (decode_chars true (encode_module_path m)) ≤ length m + 1)
unfolding encode_module_path decode_chars
decode_chars-shorter [] = (omega arith, omega arith)
decode_chars-shorter (c ∷ m) = elim (Bool-cases (is_ascii_uppercase c)) [
  | inl up ↦ rw up (ground (arith, decode_chars-shorter m), ground (arith, decode_chars-shorter m))
  | inr low ↦
      rw low (ground (arith, decode_chars-shorter m), ground (arith, decode_chars-shorter m))
]

bang_lost : (s : Bytes) → decode_chars true (encode_module_path s) ≡ bang ∷ s → ⊥
unfolding encode_module_path decode_chars
bang_lost [] e = absurd cc
bang_lost (d ∷ t) e = elim (Bool-cases (is_ascii_uppercase d)) [
  | inl up ↦ absurd (ground (arith, rw up at e))
  | inr low ↦ absurd (ground (arith, ap length (rw low at e), decode_chars-shorter t))
]

only_plain :
    (m : Bytes) → decode_chars false (encode_module_path m) ≡ m → contains_byte bang m ≡ false
unfolding encode_module_path decode_chars contains_byte
only_plain [] e = refl
only_plain (c ∷ s) e = elim (Bool-cases (is_ascii_uppercase c)) [
  | inl up ↦ ground (arith, up, rw up at e, only_plain s)
  | inr low ↦ elim (Bool-cases (c == bang)) [
    | inl b ↦ absurd (lost (ground arith) (rw (low, b) at e))
    | inr other ↦ ground (arith, rw (low, other) at e, only_plain s)
  ]
]
  where
    lost : c ≡ bang → decode_chars true (encode_module_path s) ≡ c ∷ s → ⊥
    lost at f = bang_lost s (f ∙ ap (λ x. x ∷ s) at)

-- A module path is decoded to itself from its encoding exactly if it has no `!`.
pub decode_module_path-encode_module_path :
    (m : Bytes) → (decode_module_path (encode_module_path m) ≡ m) ↔ (contains_byte bang m ≡ false)
unfolding decode_module_path
decode_module_path-encode_module_path m = (only_plain m, back m)
