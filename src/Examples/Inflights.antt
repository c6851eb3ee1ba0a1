-- ===== src/Examples/Inflights.antt =====
-- Runs of callers that fetch one key.
use artifact_depot.Base.{ℕ, ◌≡◌, refl, [], ◌∷◌, arith, inl, inr}
use artifact_depot.Base.Bytes.{Bytes, bytes_eq}
use artifact_depot.Inflight.{
  idle, finished, leading, told, listening, World, set_caller, get_notify, remove_notify, try_claim,
  drop_guard, woken, Steps, claim, listen, release, stay, onward, nobody,
}
use artifact_depot.Inflight.Exclusive.{reachable-one_leader, leader_cases}
use artifact_depot.Inflight.Stranded.{IsStranded, Steps-IsStranded, leads-set, leads-woken}

abbrev key : Bytes
key = 107 ∷ []

-- Caller 0 leads, and caller 1 is told to wait.
abbrev told_one : World
told_one = try_claim 1 key (try_claim 0 key nobody)

-- Caller 0 is done before caller 1 listens.
abbrev late : World
late =
    let w = drop_guard 0 key 0 told_one in record w { caller = set_caller 1 (listening 0) w.caller }

late-Steps : Steps nobody late
unfolding try_claim get_notify drop_guard remove_notify bytes_eq
late-Steps = onward _ _ _ (claim nobody 0 key refl) (
    onward _ _ _ (claim (try_claim 0 key nobody) 1 key refl) (
      onward _ _ _ (release told_one 0 key 0 refl)
        (onward _ _ _ (listen (drop_guard 0 key 0 told_one) 1 0 refl) (stay late))))

late-IsStranded : IsStranded 1 0 late
unfolding try_claim get_notify drop_guard remove_notify bytes_eq
late-IsStranded = record {
  listens = refl;
  given = omega arith;
  leaderless = λ j k e. none_leads j k e;
}
  where
    none_leads : (j : ℕ) (k : Bytes) → late.caller j ≡ leading k 0 → ⊥
    none_leads j k e =
        let still =
          leads-set 1 j (listening 0) (set_caller 0 finished (λ l. woken 0 (told_one.caller l))) k 0
            (λ h. cc) e in
        elim (leader_cases 0 j finished (λ l. woken 0 (told_one.caller l)) k 0 still) [
          | inl (at, same) ↦ absurd cc
          | inr (off, old) ↦
              (let first =
                  leads-set 1 j (told 0) (set_caller 0 (leading key 0) (λ l. idle)) k 0 (λ h. cc)
                    (leads-woken 0 0 k (told_one.caller j) old) in
                elim (leader_cases 0 j (leading key 0) (λ l. idle) k 0 first) [
                  | inl (at, same) ↦ absurd (ground (arith, at, off))
                  | inr (off', none_left) ↦ absurd cc
                ])
        ]

Steps-IsStranded_example : IsStranded 1 0 (try_claim 2 key late)
Steps-IsStranded_example =
    Steps-IsStranded 1 0 late (try_claim 2 key late)
      (onward late (try_claim 2 key late) (try_claim 2 key late)
        (claim late 2 key (unfold try_claim get_notify drop_guard remove_notify bytes_eq in refl))
        (stay (try_claim 2 key late)))
      late-IsStranded

-- Caller 0 leads for the key.
abbrev led : World
led = try_claim 0 key nobody

led-leads : led.caller 0 ≡ leading key 0
unfolding try_claim get_notify
led-leads = refl

reachable-one_leader_example : ◌≡◌ {A = ℕ} 0 0
reachable-one_leader_example =
    reachable-one_leader led 0 0 key 0 0
      (onward nobody led led (claim nobody 0 key refl) (stay led)) led-leads led-leads
