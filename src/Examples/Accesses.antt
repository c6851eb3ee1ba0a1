-- ===== src/Examples/Accesses.antt =====
-- Grants and Basic headers at concrete inputs.
use artifact_depot.Base.{◌≡◌, ◌↔◌, ◌⊎◌, refl, false, [], ◌∷◌}
use artifact_depot.Base.Bytes.{contains_byte}
use artifact_depot.Service.Error.{ok, err, DepotError}
use artifact_depot.Access.{read, write, RoleRecord, any_repo, check_grants, colon}
use artifact_depot.Access.Grants.{Granted, check_grants_iff}

-- A role that may read every repository and write to "libs".
abbrev developer : RoleRecord
developer = record {
  schema_version = 1;
  name = 100 ∷ [];
  description = [];
  capabilities =
      record { capability = read; repo = any_repo }
      ∷ record { capability = write; repo = 108 ∷ 105 ∷ 98 ∷ 115 ∷ [] }
      ∷ [];
  created_at = 0;
  updated_at = 0;
}

check_grants_iff_example :
    ((check_grants (developer ∷ []) (120 ∷ []) read ≡ ok tt)
      ↔ Granted (developer ∷ []) (120 ∷ []) read)
    × ((check_grants (developer ∷ []) (120 ∷ []) read ≡ ok tt)
        ⊎ (check_grants (developer ∷ []) (120 ∷ []) read ≡ err DepotError.forbidden))
check_grants_iff_example = check_grants_iff (developer ∷ []) (120 ∷ []) read

no_colon : contains_byte colon (97 ∷ 108 ∷ []) ≡ false
unfolding contains_byte
no_colon = refl
