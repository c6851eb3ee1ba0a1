-- ===== src/Gc/Orphans/Lookup.antt =====
-- Lookups in the map of candidates after each of its updates.
use artifact_depot.Base.{◌≡◌, ◌↔◌, Bool, true, [], ◌∷◌, none, arith, if◌then◌else◌}
use artifact_depot.Base.Bytes.{Bytes, bytes_eq_iff}
use artifact_depot.Gc.Orphans.{
  OrphanKey, Candidates, orphan_eq, candidate, drop_candidate, retain_unreferenced,
}

pub orphan_eq_iff : (k j : OrphanKey) → (orphan_eq k j ≡ true) ↔ (k ≡ j)
orphan_eq_iff (s, b) (t, c) = (
  λ h. ground (arith, bytes_eq_iff s t, bytes_eq_iff b c),
  λ h. ground (arith, bytes_eq_iff s t, bytes_eq_iff b c),
)

pub candidate-drop_candidate :
    (k j : OrphanKey) (cs : Candidates)
    → candidate j (drop_candidate k cs) ≡ (if orphan_eq k j then none else candidate j cs)
unfolding candidate drop_candidate
candidate-drop_candidate k j [] = ground arith
candidate-drop_candidate k j ((i, c) ∷ r) =
    ground (
      arith,
      orphan_eq_iff i k,
      orphan_eq_iff i j,
      orphan_eq_iff k j,
      candidate-drop_candidate k j r,
    )

pub candidate-retain_unreferenced :
    (check : Bytes → Bool) (s b : Bytes) (cs : Candidates)
    → candidate (s, b) (retain_unreferenced check cs)
      ≡ (if check b then none else candidate (s, b) cs)
unfolding candidate retain_unreferenced
candidate-retain_unreferenced check s b [] = ground arith
candidate-retain_unreferenced check s b (((t, d), c) ∷ r) =
    ground (arith, bytes_eq_iff t s, bytes_eq_iff d b, candidate-retain_unreferenced check s b r)
