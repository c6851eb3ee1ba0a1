-- ===== src/Access.antt =====
-- core/src/auth.rs: the grants of roles and the Basic header. Base64 and the UTF-8 test of the
-- standard library are parameters.
pub mod Grants
pub mod Basic
use artifact_depot.Base.{
  ℕ, Bool, true, false, ◌&&◌, ◌||◌, List, [], ◌∷◌, Option, some, none, ◌==◌, if◌then◌else◌,
}
use artifact_depot.Base.Bytes.{Bytes, bytes, bytes_eq}
use artifact_depot.Service.Error.{Result, ok, err, DepotError}

pub data Capability : Type 0 where
  read write delete : Capability

abbrev pub capability_eq : Capability → Capability → Bool
capability_eq read read = true
capability_eq write write = true
capability_eq delete delete = true
capability_eq _ _ = false

pub record CapabilityGrant : Type 0 where
  pub capability : Capability
  pub repo : Bytes

pub record RoleRecord : Type 0 where
  pub schema_version : ℕ
  pub name : Bytes
  pub description : Bytes
  pub capabilities : List CapabilityGrant
  pub created_at : ℕ
  pub updated_at : ℕ

-- `"*"`
abbrev pub any_repo : Bytes
any_repo = 42 ∷ []

unfoldable pub allows : Bytes → Capability → CapabilityGrant → Bool
allows repo required g =
    capability_eq g.capability required && (bytes_eq g.repo any_repo || bytes_eq g.repo repo)

unfoldable pub any_allows : Bytes → Capability → List CapabilityGrant → Bool
unfolding allows
any_allows repo required [] = false
any_allows repo required (g ∷ grants) = allows repo required g || any_allows repo required grants

-- The two loops return at the first grant that allows the call.
unfoldable pub check_grants : List RoleRecord → Bytes → Capability → Result (Unit {0})
unfolding any_allows
check_grants [] repo required = err DepotError.forbidden
check_grants (role ∷ roles) repo required =
    let rest = check_grants roles repo required in
    if any_allows repo required role.capabilities then ok tt else rest

-- `strip_prefix`
unfoldable pub strip_prefix : Bytes → Bytes → Option Bytes
strip_prefix [] s = some s
strip_prefix (x ∷ p) [] = none
strip_prefix (x ∷ p) (y ∷ s) = let rest = strip_prefix p s in if x == y then rest else none

abbrev pub prepend : ℕ → Option (Bytes × Bytes) → Option (Bytes × Bytes)
prepend c none = none
prepend c (some (before, behind)) = some (c ∷ before, behind)

-- `split_once`
unfoldable pub split_once : ℕ → Bytes → Option (Bytes × Bytes)
split_once sep [] = none
split_once sep (c ∷ s) =
    let rest = prepend c (split_once sep s) in if c == sep then some ([], s) else rest

-- "Basic "
abbrev pub basic : Bytes
basic = 66 ∷ 97 ∷ 115 ∷ 105 ∷ 99 ∷ 32 ∷ []

abbrev pub colon : ℕ
colon = 58

module _ (base64_decode : Bytes → Option Bytes) (is_utf8 : Bytes → Bool) where
  abbrev pub from_utf8 : Option Bytes → Option (Bytes × Bytes)
  from_utf8 none = none
  from_utf8 (some s) = if is_utf8 s then split_once colon s else none

  abbrev pub decode_credentials : Option Bytes → Option (Bytes × Bytes)
  decode_credentials none = none
  decode_credentials (some encoded) = from_utf8 (base64_decode encoded)

  unfoldable pub decode_basic_auth : Bytes → Option (Bytes × Bytes)
  unfolding strip_prefix split_once
  decode_basic_auth header_value = decode_credentials (strip_prefix basic header_value)
