-- ===== src/Access/Basic.antt =====
-- The credentials of a Basic header.
use artifact_depot.Base.{ℕ, ◌≡◌, Bool, true, false, [], ◌∷◌, ◌++◌, Option, some, arith}
use artifact_depot.Base.Bytes.{Bytes, contains_byte}
use artifact_depot.Access.{strip_prefix, split_once, basic, colon, decode_basic_auth}

split_once-append :
    (sep : ℕ) (a b : Bytes)
    → contains_byte sep a ≡ false
    → split_once sep (a ++ sep ∷ b) ≡ some (a, b)
unfolding split_once contains_byte
split_once-append sep [] b h = ground arith
split_once-append sep (c ∷ a) b h = ground (arith, split_once-append sep a b)

-- The header that a client makes of a user name without a colon and any password is decoded to the
-- two, where decoding undoes the client's encoding and the text is UTF-8.
pub decode_basic_auth-encoded :
    (base64_encode : Bytes → Bytes) (base64_decode : Bytes → Option Bytes) (is_utf8 : Bytes → Bool)
    (user password : Bytes)
    → ((s : Bytes) → base64_decode (base64_encode s) ≡ some s)
    → is_utf8 (user ++ colon ∷ password) ≡ true
    → contains_byte colon user ≡ false
    → decode_basic_auth base64_decode is_utf8 (basic ++ base64_encode (user ++ colon ∷ password))
      ≡ some (user, password)
unfolding decode_basic_auth strip_prefix
decode_basic_auth-encoded base64_encode base64_decode is_utf8 user password round utf8 h =
    rw (round, utf8) (split_once-append colon user password h)
