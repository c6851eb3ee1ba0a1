-- ===== src/Kv/Redb/Envelope.antt =====
-- The envelope of a stored value in kv/redb/src/redb_kv.rs: a format byte and a u64 version, low
-- byte first, before the payload.
use artifact_depot.Base.{
  ℕ, zero, suc, ◌+◌, ◌*◌, ◌/◌, ◌%◌, ◌^◌, ◌<◌, ◌≡◌, Bool, false, ◌&&◌, [], ◌∷◌, ◌++◌, arith, leb,
  ◌==◌, if◌then◌else◌, length, take, drop,
}
use artifact_depot.Base.Bytes.{Bytes}

abbrev pub envelope_v1 : ℕ
envelope_v1 = 0x01

abbrev pub envelope_header_size : ℕ
envelope_header_size = 9

-- `to_le_bytes` and `from_le_bytes`
to_le_bytes : ℕ → ℕ → Bytes
to_le_bytes zero n = []
to_le_bytes (suc w) n = n % 256 ∷ to_le_bytes w (n / 256)

from_le_bytes : Bytes → ℕ
from_le_bytes [] = 0
from_le_bytes (b ∷ s) = b + 256 * from_le_bytes s

unfoldable pub wrap_envelope : ℕ → Bytes → Bytes
unfolding to_le_bytes
wrap_envelope version payload = envelope_v1 ∷ to_le_bytes 8 version ++ payload

head_is : ℕ → Bytes → Bool
head_is c [] = false
head_is c (x ∷ s) = x == c

unfoldable pub unwrap_envelope : Bytes → Bytes × ℕ
unfolding head_is from_le_bytes
unwrap_envelope raw =
    if leb envelope_header_size (length raw) && head_is envelope_v1 raw
    then (drop envelope_header_size raw, from_le_bytes (take 8 (drop 1 raw)))
    else (raw, 0)

unfoldable pub read_version : Bytes → ℕ
unfolding unwrap_envelope
read_version raw = (unwrap_envelope raw).1

-- Eight bytes give back a u64.
le_bytes_round : (n : ℕ) → n < 2 ^ 64 → from_le_bytes (to_le_bytes 8 n) ≡ n
unfolding from_le_bytes to_le_bytes
le_bytes_round n h = omega arith

-- A payload wrapped with a version below 2^64 is unwrapped with that version, whatever the payload.
pub unwrap_envelope-wrap_envelope :
    (version : ℕ) (payload : Bytes)
    → version < 2 ^ 64
    → unwrap_envelope (wrap_envelope version payload) ≡ (payload, version)
unfolding unwrap_envelope wrap_envelope
unwrap_envelope-wrap_envelope version payload h = ground (arith, le_bytes_round version h)
