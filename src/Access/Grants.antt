-- ===== src/Access/Grants.antt =====
-- Access is granted by a role, and by nothing else.
use artifact_depot.Base.{
  ◌≡◌, refl, ◌↔◌, ◌⊎◌, inl, inr, true, false, ◌&&◌, ◌||◌, List, [], ◌∷◌, Bool-cases, if◌then◌else◌,
}
use artifact_depot.Base.Bytes.{Bytes, bytes_eq, bytes_eq_iff}
use artifact_depot.Service.Error.{Result, ok, err, DepotError}
use artifact_depot.Access.{
  Capability, read, write, delete, capability_eq, CapabilityGrant, RoleRecord, any_repo, allows,
  any_allows, check_grants,
}

abbrev pub IsIn : {A : Type 0} → A → List A → Type 0
IsIn a [] = ⊥
IsIn a (x ∷ xs) = (a ≡ x) ⊎ IsIn a xs

-- A grant of the capability on every repository or on this one.
abbrev pub Allows : Bytes → Capability → CapabilityGrant → Type 0
Allows repo required g = (g.capability ≡ required) × ((g.repo ≡ any_repo) ⊎ (g.repo ≡ repo))

abbrev pub AnyAllows : Bytes → Capability → List CapabilityGrant → Type 0
AnyAllows repo required grants = (g : CapabilityGrant) × IsIn g grants × Allows repo required g

abbrev pub Granted : List RoleRecord → Bytes → Capability → Type 0
Granted roles repo required =
    (role : RoleRecord) × IsIn role roles × AnyAllows repo required role.capabilities

capability_eq_sound : (a b : Capability) → capability_eq a b ≡ true → a ≡ b
capability_eq_sound read read h = refl
capability_eq_sound write write h = refl
capability_eq_sound delete delete h = refl
capability_eq_sound read write h = absurd cc
capability_eq_sound read delete h = absurd cc
capability_eq_sound write read h = absurd cc
capability_eq_sound write delete h = absurd cc
capability_eq_sound delete read h = absurd cc
capability_eq_sound delete write h = absurd cc

capability_eq_refl : (a : Capability) → capability_eq a a ≡ true
capability_eq_refl read = refl
capability_eq_refl write = refl
capability_eq_refl delete = refl

allows_iff :
    (repo : Bytes) (required : Capability) (g : CapabilityGrant)
    → (allows repo required g ≡ true) ↔ Allows repo required g
unfolding allows
allows_iff repo required g = (sound, complete)
  where
    sound :
        (capability_eq g.capability required && (bytes_eq g.repo any_repo || bytes_eq g.repo repo))
          ≡ true
        → Allows repo required g
    sound h = elim (Bool-cases (capability_eq g.capability required)) [
      | inl e ↦ (capability_eq_sound g.capability required e, side (rw e at h))
      | inr e ↦ absurd (cc (rw e at h))
    ]
      where
        side :
            (bytes_eq g.repo any_repo || bytes_eq g.repo repo) ≡ true
            → (g.repo ≡ any_repo) ⊎ (g.repo ≡ repo)
        side o = elim (Bool-cases (bytes_eq g.repo any_repo)) [
          | inl e ↦ inl ((bytes_eq_iff g.repo any_repo).0 e)
          | inr e ↦ inr ((bytes_eq_iff g.repo repo).0 (rw e at o))
        ]

    complete :
        Allows repo required g
        → (capability_eq g.capability required
            && (bytes_eq g.repo any_repo || bytes_eq g.repo repo))
          ≡ true
    complete (c, inl e) = rw (c, capability_eq_refl required, (bytes_eq_iff g.repo any_repo).1 e)
    complete (c, inr e) = elim (Bool-cases (bytes_eq g.repo any_repo)) [
      | inl a ↦ rw (c, capability_eq_refl required, a)
      | inr a ↦ rw (c, capability_eq_refl required, a, (bytes_eq_iff g.repo repo).1 e)
    ]

any_allows_iff :
    (repo : Bytes) (required : Capability) (grants : List CapabilityGrant)
    → (any_allows repo required grants ≡ true) ↔ AnyAllows repo required grants
unfolding any_allows
any_allows_iff repo required [] = (λ h. absurd (cc h), none_in)
  where
    none_in : AnyAllows repo required [] → false ≡ true
    none_in (g, m, a) = absurd m
any_allows_iff repo required (g ∷ grants) =
    let here = allows_iff repo required g in
    let there = any_allows_iff repo required grants in (sound here there, complete here there)
  where
    sound :
        ((allows repo required g ≡ true) ↔ Allows repo required g)
        → ((any_allows repo required grants ≡ true) ↔ AnyAllows repo required grants)
        → (allows repo required g || any_allows repo required grants) ≡ true
        → AnyAllows repo required (g ∷ grants)
    sound here there h = elim (Bool-cases (allows repo required g)) [
      | inl e ↦ (g, inl refl, here.0 e)
      | inr e ↦ (let (g', m, a) = there.0 (rw e at h) in (g', inr m, a))
    ]

    complete :
        ((allows repo required g ≡ true) ↔ Allows repo required g)
        → ((any_allows repo required grants ≡ true) ↔ AnyAllows repo required grants)
        → AnyAllows repo required (g ∷ grants)
        → (allows repo required g || any_allows repo required grants) ≡ true
    complete here there (g', inl e, a) = rw (here.1 (rw e at a))
    complete here there (g', inr m, a) = elim (Bool-cases (allows repo required g)) [
      | inl e ↦ rw e
      | inr e ↦ rw (e, there.1 (g', m, a))
    ]

abbrev Decides : Result (Unit {0}) → Type 0 → Type 0
Decides result P = ((result ≡ ok tt) ↔ P) × ((result ≡ ok tt) ⊎ (result ≡ err DepotError.forbidden))

no_role : (repo : Bytes) (required : Capability) → Granted [] repo required → ⊥
no_role repo required (role, m, a) = m

-- `check_grants` succeeds exactly when one of the roles has a grant of the required capability, on
-- every repository ("*") or on this one; otherwise its error is `forbidden`.
pub check_grants_iff :
    (roles : List RoleRecord) (repo : Bytes) (required : Capability)
    → ((check_grants roles repo required ≡ ok tt) ↔ Granted roles repo required)
      × ((check_grants roles repo required ≡ ok tt)
          ⊎ (check_grants roles repo required ≡ err DepotError.forbidden))
unfolding check_grants
check_grants_iff [] repo required =
    ((λ h. absurd (cc h), λ g. absurd (no_role repo required g)), inr refl)
check_grants_iff (role ∷ roles) repo required =
    cons (check_grants roles repo required) (check_grants_iff roles repo required)
  where
    cons :
        (rest : Result (Unit {0}))
        → Decides rest (Granted roles repo required)
        → Decides
            (if any_allows repo required role.capabilities then ok tt else rest)
            (Granted (role ∷ roles) repo required)
    cons rest ih = elim (Bool-cases (any_allows repo required role.capabilities)) [
      | inl e ↦ rw e (
        (λ _. (role, inl refl, (any_allows_iff repo required role.capabilities).0 e), λ _. refl),
        inl refl,
      )
      | inr e ↦ rw e ((λ h. further (ih.0.0 h), λ g. ih.0.1 (not_here e g)), ih.1)
    ]
      where
        further : Granted roles repo required → Granted (role ∷ roles) repo required
        further (r, m, a) = (r, inr m, a)

        not_here :
            any_allows repo required role.capabilities ≡ false
            → Granted (role ∷ roles) repo required
            → Granted roles repo required
        not_here e (r, inl same, a) =
            absurd (cc (e, (any_allows_iff repo required role.capabilities).1 (rw same at a)))
        not_here e (r, inr m, a) = (r, m, a)
