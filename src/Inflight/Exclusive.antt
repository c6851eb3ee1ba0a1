-- ===== src/Inflight/Exclusive.antt =====
-- The leaders of a key.
use artifact_depot.Base.{
  ℕ, ◌<◌, ◌≡◌, refl, sym, ap, ◌∙◌, ◌⊎◌, false, [], ◌∷◌, Option, some, none, ◌==◌, arith, Bool-cases,
  inl, inr,
}
use artifact_depot.Base.Bytes.{Bytes, bytes_eq, bytes_eq_iff}
use artifact_depot.Inflight.{
  Caller, idle, finished, leading, told, listening, World, Notifies, set_caller, claimed,
  get_notify, remove_notify, try_claim, woken, drop_guard, Step, Steps, claim, listen, release,
  again, stay, onward, nobody,
}
use artifact_depot.Inflight.Stranded.{leads-set, leads-woken}

-- Every leader is in the map under its key, and has a notify of its own.
record IsLed (w : World) : Type 0 where
  listed :
      (i : ℕ) (key : Bytes) (n : ℕ)
      → w.caller i ≡ leading key n
      → get_notify key w.notifies ≡ some n
  given : (i : ℕ) (key : Bytes) (n : ℕ) → w.caller i ≡ leading key n → n < w.next
  alone :
      (i j : ℕ) (key : Bytes) (n m : ℕ)
      → w.caller i ≡ leading key n
      → w.caller j ≡ leading key m
      → i ≡ j

nobody-IsLed : IsLed nobody
nobody-IsLed = record {
  listed = λ i k n e. cc;
  given = λ i k n e. absurd cc;
  alone = λ i j k n m e f. absurd cc;
}

-- A step after which no caller leads that did not lead before, with the same map.
quiet-IsLed :
    (w : World) (callers : ℕ → Caller)
    → ((i : ℕ) (key : Bytes) (n : ℕ) → callers i ≡ leading key n → w.caller i ≡ leading key n)
    → IsLed w
    → IsLed (record w { caller = callers })
quiet-IsLed w callers old l = record {
  listed = λ i k n e. l.listed i k n (old i k n e);
  given = λ i k n e. l.given i k n (old i k n e);
  alone = λ i j k n m e f. l.alone i j k n m (old i k n e) (old j k m f);
}

get-remove :
    (k j : Bytes) (m : Notifies)
    → bytes_eq j k ≡ false
    → get_notify k (remove_notify j m) ≡ get_notify k m
unfolding get_notify remove_notify
get-remove k j [] h = refl
get-remove k j ((i, n) ∷ m) h =
    ground (arith, get-remove k j m h, bytes_eq_iff i j, bytes_eq_iff i k, bytes_eq_iff j k)

-- Who leads after a change of one caller: this one, or who led before.
pub leader_cases :
    (i j : ℕ) (c : Caller) (callers : ℕ → Caller) (key : Bytes) (n : ℕ)
    → set_caller i c callers j ≡ leading key n
    → ((j ≡ i) × (c ≡ leading key n)) ⊎ (((j == i) ≡ false) × (callers j ≡ leading key n))
leader_cases i j c callers key n e = elim (Bool-cases (j == i)) [
  | inl s ↦ inl (ground (arith, s), rw s at e)
  | inr s ↦ inr (s, rw s at e)
]

key_of : Caller → Bytes
key_of (leading k m) = k
key_of other = []

notify_of : Caller → ℕ
notify_of (leading k m) = m
notify_of other = 0

same_key : (k j : Bytes) (n m : ℕ) → leading k n ≡ leading j m → (k ≡ j) × (n ≡ m)
unfolding key_of notify_of
same_key k j n m e = (ap key_of e, ap notify_of e)

claimed-IsLed :
    (w : World) (i : ℕ) (key : Bytes) (o : Option ℕ)
    → get_notify key w.notifies ≡ o
    → IsLed w
    → IsLed (claimed i key w o)
claimed-IsLed w i key (some m) free l =
    quiet-IsLed w (set_caller i (told m) w.caller)
      (λ j k n e. leads-set i j (told m) w.caller k n (λ h. cc) e) l
claimed-IsLed w i key none free l = record {
  listed = λ j k n e. elim (leader_cases i j (leading key w.next) w.caller k n e) [
    | inl (at, same) ↦ here k n same
    | inr (off, old) ↦ there k n (l.listed j k n old)
  ];
  given = λ j k n e. elim (leader_cases i j (leading key w.next) w.caller k n e) [
    | inl (at, same) ↦ (let (k', n') = same_key key k w.next n same in omega arith)
    | inr (off, old) ↦ (let less = l.given j k n old in omega (arith, less))
  ];
  alone = λ a b k n m e f. elim (leader_cases i a (leading key w.next) w.caller k n e) [
    | inl (at, same) ↦ elim (leader_cases i b (leading key w.next) w.caller k m f) [
      | inl (at', same') ↦ at ∙ sym at'
      | inr (off', old') ↦ absurd (never k m (same_key key k w.next n same).0 (l.listed b k m old'))
    ]
    | inr (off, old) ↦ elim (leader_cases i b (leading key w.next) w.caller k m f) [
      | inl (at', same') ↦ absurd (never k n (same_key key k w.next m same').0 (l.listed a k n old))
      | inr (off', old') ↦ l.alone a b k n m old old'
    ]
  ];
}
  where
    never : (k : Bytes) (n : ℕ) → key ≡ k → get_notify k w.notifies ≡ some n → ⊥
    never k n e at = cc (at, free, ap (λ x. get_notify x w.notifies) e)

    here :
        (k : Bytes) (n : ℕ)
        → leading key w.next ≡ leading k n
        → get_notify k ((key, w.next) ∷ w.notifies) ≡ some n
    here k n same =
        let (k', n') = same_key key k w.next n same in
        unfold get_notify in rw ((bytes_eq_iff key k).1 k') (ap some n')

    there :
        (k : Bytes) (n : ℕ)
        → get_notify k w.notifies ≡ some n
        → get_notify k ((key, w.next) ∷ w.notifies) ≡ some n
    there k n at = elim (Bool-cases (bytes_eq key k)) [
      | inl e ↦ absurd (never k n ((bytes_eq_iff key k).0 e) at)
      | inr e ↦ (unfold get_notify in rw e at)
    ]

drop_guard-IsLed :
    (w : World) (i : ℕ) (key : Bytes) (n : ℕ)
    → w.caller i ≡ leading key n
    → IsLed w
    → IsLed (drop_guard i key n w)
unfolding drop_guard
drop_guard-IsLed w i key n leads l = record {
  listed = λ j k m e.
      let (off, old) = before j k m e in
      get-remove k key w.notifies (other j k m off old) ∙ l.listed j k m old;
  given = λ j k m e. l.given j k m (before j k m e).1;
  alone = λ a b k m p e f. l.alone a b k m p (before a k m e).1 (before b k p f).1;
}
  where
    before :
        (j : ℕ) (k : Bytes) (m : ℕ)
        → set_caller i finished (λ a. woken n (w.caller a)) j ≡ leading k m
        → ((j == i) ≡ false) × (w.caller j ≡ leading k m)
    before j k m e = elim (leader_cases i j finished (λ a. woken n (w.caller a)) k m e) [
      | inl (at, same) ↦ absurd cc
      | inr (off, old) ↦ (off, leads-woken n m k (w.caller j) old)
    ]

    other :
        (j : ℕ) (k : Bytes) (m : ℕ)
        → (j == i) ≡ false
        → w.caller j ≡ leading k m
        → bytes_eq key k ≡ false
    other j k m off old = elim (Bool-cases (bytes_eq key k)) [
      | inr e ↦ e
      | inl e ↦
          (let same : leading k m ≡ leading key m =
              ap (λ x. leading x m) (sym ((bytes_eq_iff key k).0 e)) in
            let one : j ≡ i = l.alone j i key m n (old ∙ same) leads in
            absurd (ground (arith, one, off)))
    ]

Step-IsLed : (u v : World) → Step u v → IsLed u → IsLed v
unfolding try_claim
Step-IsLed u v (claim w i key e) l = claimed-IsLed w i key (get_notify key w.notifies) refl l
Step-IsLed u v (listen w i n e) l =
    quiet-IsLed w (set_caller i (listening n) w.caller)
      (λ j k m h. leads-set i j (listening n) w.caller k m (λ x. cc) h) l
Step-IsLed u v (release w i key n e) l = drop_guard-IsLed w i key n e l
Step-IsLed u v (again w i e) l =
    quiet-IsLed w (set_caller i idle w.caller)
      (λ j k m h. leads-set i j idle w.caller k m (λ x. cc) h) l

Steps-IsLed : (u v : World) → Steps u v → IsLed u → IsLed v
Steps-IsLed u v (stay w) l = l
Steps-IsLed u v (onward a b c first rest) l = Steps-IsLed b c rest (Step-IsLed a b first l)

-- After any steps of any callers, from a map without entries and callers that have not begun, two
-- callers that lead for one key are the same caller.
pub reachable-one_leader :
    (w : World) (i j : ℕ) (key : Bytes) (n m : ℕ)
    → Steps nobody w
    → w.caller i ≡ leading key n
    → w.caller j ≡ leading key m
    → i ≡ j
reachable-one_leader w i j key n m steps =
    (Steps-IsLed nobody w steps nobody-IsLed).alone i j key n m
