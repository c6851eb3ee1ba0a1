-- ===== src/Inflight/Stranded.antt =====
-- Callers that listen to a notify without a leader.
use artifact_depot.Base.{
  ℕ, ◌<◌, ◌≡◌, refl, ap, ◌∙◌, Bool, true, false, Option, some, none, ◌==◌, if◌then◌else◌, arith,
  Bool-cases, inl, inr,
}
use artifact_depot.Base.Bytes.{Bytes}
use artifact_depot.Inflight.{
  Caller, idle, finished, leading, told, listening, World, set_caller, claimed, get_notify,
  try_claim, woken, drop_guard, Step, Steps, claim, listen, release, again, stay, onward,
}

-- Caller `i` listens to a notify that was given out and that nobody leads.
pub record IsStranded (i n : ℕ) (w : World) : Type 0 where
  pub listens : w.caller i ≡ listening n
  pub given : n < w.next
  pub leaderless : (j : ℕ) (key : Bytes) → w.caller j ≡ leading key n → ⊥

notify_of : Caller → ℕ
notify_of (leading k m) = m
notify_of other = 0

is_listening : Caller → Bool
is_listening (listening n) = true
is_listening other = false

set-other :
    (i j : ℕ) (c : Caller) (callers : ℕ → Caller)
    → (j == i) ≡ false
    → set_caller i c callers j ≡ callers j
set-other i j c callers e = rw e refl

-- A caller whose state is another one keeps out.
apart :
    (w : World) (i j n : ℕ) (c : Caller)
    → w.caller i ≡ listening n
    → w.caller j ≡ c
    → is_listening c ≡ false
    → (i == j) ≡ false
unfolding is_listening
apart w i j n c at there other = elim (Bool-cases (i == j)) [
  | inr e ↦ e
  | inl e ↦ absurd (cc (at, there, other, ap w.caller (same i j e)))
]
  where
    same : (a b : ℕ) → (a == b) ≡ true → a ≡ b
    same a b e = ground (arith, e)

pub leads-set :
    (i j : ℕ) (c : Caller) (callers : ℕ → Caller) (key : Bytes) (n : ℕ)
    → (c ≡ leading key n → ⊥)
    → set_caller i c callers j ≡ leading key n
    → callers j ≡ leading key n
leads-set i j c callers key n other e = elim (Bool-cases (j == i)) [
  | inl s ↦ absurd (other (rw s at e))
  | inr s ↦ rw s at e
]

pub leads-woken :
    (m n : ℕ) (key : Bytes) (c : Caller) → woken m c ≡ leading key n → c ≡ leading key n
leads-woken m n key idle e = absurd cc
leads-woken m n key finished e = absurd cc
leads-woken m n key (leading k l) e = e
leads-woken m n key (told l) e = absurd cc
leads-woken m n key (listening l) e = absurd (not_leading (l == m) e)
  where
    not_leading : (b : Bool) → (if b then finished else listening l) ≡ leading key n → ⊥
    not_leading true e = cc
    not_leading false e = cc

told-leads : (m n : ℕ) (key : Bytes) → told m ≡ leading key n → ⊥
told-leads m n key e = cc

module _ (i n : ℕ) where
  claimed-IsStranded :
      (w : World) (j : ℕ) (key : Bytes) (o : Option ℕ)
      → w.caller j ≡ idle
      → IsStranded i n w
      → IsStranded i n (claimed j key w o)
  claimed-IsStranded w j key (some m) is_idle s = record {
    listens =
        set-other j i (told m) w.caller
          (apart w i j n idle s.listens is_idle (unfold is_listening in refl))
        ∙ s.listens;
    given = s.given;
    leaderless = λ l k e. s.leaderless l k (leads-set j l (told m) w.caller k n (λ h. cc) e);
  }
  claimed-IsStranded w j key none is_idle s = record {
    listens =
        set-other j i (leading key w.next) w.caller
          (apart w i j n idle s.listens is_idle (unfold is_listening in refl))
        ∙ s.listens;
    given = omega (arith, s.given);
    leaderless = λ l k e.
        s.leaderless l k (leads-set j l (leading key w.next) w.caller k n (λ h. later k h) e);
  }
    where
      later : (k : Bytes) → leading key w.next ≡ leading k n → ⊥
      later k h =
          let e : w.next ≡ n = unfold notify_of in ap notify_of h in omega (arith, e, s.given)

  drop_guard-IsStranded :
      (w : World) (j : ℕ) (key : Bytes) (m : ℕ)
      → w.caller j ≡ leading key m
      → IsStranded i n w
      → IsStranded i n (drop_guard j key m w)
  unfolding drop_guard
  drop_guard-IsStranded w j key m leads s = record {
    listens =
        set-other j i finished (λ l. woken m (w.caller l))
          (apart w i j n (leading key m) s.listens leads (unfold is_listening in refl))
        ∙ ap (woken m) s.listens
        ∙ asleep;
    given = s.given;
    leaderless = λ l k e. s.leaderless l k (
        leads-woken m n k (w.caller l)
          (leads-set j l finished (λ l. woken m (w.caller l)) k n (λ h. cc) e));
  }
    where
      asleep : woken m (listening n) ≡ listening n
      asleep = elim (Bool-cases (n == m)) [
        | inr e ↦ rw e refl
        | inl e ↦
            (let same : m ≡ n = ground (arith, e) in
              absurd (s.leaderless j key (leads ∙ ap (leading key) same)))
      ]

  Step-IsStranded : (u v : World) → Step u v → IsStranded i n u → IsStranded i n v
  unfolding try_claim
  Step-IsStranded u v (claim w j key e) s =
      claimed-IsStranded w j key (get_notify key w.notifies) e s
  Step-IsStranded u v (listen w j m e) s = record {
    listens =
        set-other j i (listening m) w.caller
          (apart w i j n (told m) s.listens e (unfold is_listening in refl))
        ∙ s.listens;
    given = s.given;
    leaderless = λ l k h. s.leaderless l k (leads-set j l (listening m) w.caller k n (λ h. cc) h);
  }
  Step-IsStranded u v (release w j key m e) s = drop_guard-IsStranded w j key m e s
  Step-IsStranded u v (again w j e) s = record {
    listens =
        set-other j i idle w.caller
          (apart w i j n finished s.listens e (unfold is_listening in refl))
        ∙ s.listens;
    given = s.given;
    leaderless = λ l k h. s.leaderless l k (leads-set j l idle w.caller k n (λ h. cc) h);
  }

-- A caller that listens to a notify that was given out and has no leader any more listens after any
-- number of further steps of all callers: nothing wakes it.
pub Steps-IsStranded : (i n : ℕ) (u v : World) → Steps u v → IsStranded i n u → IsStranded i n v
Steps-IsStranded i n u v (stay w) s = s
Steps-IsStranded i n u v (onward a b c first rest) s =
    Steps-IsStranded i n b c rest (Step-IsStranded i n a b first s)
