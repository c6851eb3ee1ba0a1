-- ===== src/Update/Merged.antt =====
-- The sums of the directories before and after coalescing.
use artifact_depot.Base.{
  ℕ, ◌+◌, ◌%◌, ◌≡◌, refl, sym, ap, ◌∙◌, Bool, true, false, List, [], ◌∷◌, ltb, ◌==◌, if◌then◌else◌,
  arith, Bool-cases, inl, inr,
}
use artifact_depot.Base.Bytes.{bytes_eq_iff}
use artifact_depot.Update.Words.{word_size, add_i64}
use artifact_depot.Update.Deltas.{
  DirDelta, DirKey, DirDeltaMap, same_dir, dir_key, add_delta, merge_dir_delta, merge_all,
  drain_dir_deltas, values,
}

-- The sum of a field over the deltas of one directory.
abbrev pub sum_at : (DirDelta → ℕ) → DirKey → List DirDelta → ℕ
sum_at f key [] = 0
sum_at f key (d ∷ ds) =
    let rest = sum_at f key ds in if same_dir (dir_key d) key then f d + rest else rest

abbrev pub max : ℕ → ℕ → ℕ
max a b = if ltb a b then b else a

abbrev pub latest_at : DirKey → List DirDelta → ℕ
latest_at key [] = 0
latest_at key (d ∷ ds) =
    let rest = latest_at key ds in if same_dir (dir_key d) key then max d.timestamp rest else rest

abbrev pub number_at : DirKey → List DirDelta → ℕ
number_at key ds = sum_at (λ d. 1) key ds

same_dir_sound : (a b : DirKey) → same_dir a b ≡ true → a ≡ b
same_dir_sound (a, p) (b, q) h =
    let e = (bytes_eq_iff a b).0 (ground arith) in
    let f = (bytes_eq_iff p q).0 (ground arith) in rw (e, f)

-- Every delta stands under its own directory.
abbrev Keyed : DirDeltaMap → Type 0
Keyed [] = Unit
Keyed ((k, d) ∷ m) = (k ≡ dir_key d) × Keyed m

Keyed-merge : (d : DirDelta) (m : DirDeltaMap) → Keyed m → Keyed (merge_dir_delta d m)
unfolding merge_dir_delta
Keyed-merge d [] h = (refl, tt)
Keyed-merge d ((k, e) ∷ m) h = elim (Bool-cases (same_dir k (dir_key d))) [
  | inl s ↦ rw s (h.0, h.1)
  | inr s ↦ rw s (h.0, Keyed-merge d m h.1)
]

same_step :
    (b c : Bool) (fa fd fe rest : ℕ)
    → b ≡ c
    → fa ≡ (fe + fd) % word_size
    → (if b then fa + rest else rest) % word_size
      ≡ ((if c then fd + 0 else 0) + (if b then fe + rest else rest)) % word_size
same_step true true fa fd fe rest e a = omega (arith, a)
same_step true false fa fd fe rest e a = absurd cc
same_step false true fa fd fe rest e a = absurd cc
same_step false false fa fd fe rest e a = omega arith

other_step :
    (b : Bool) (fe new here rest : ℕ)
    → new % word_size ≡ (here + rest) % word_size
    → (if b then fe + new else new) % word_size
      ≡ (here + (if b then fe + rest else rest)) % word_size
other_step true fe new here rest e = omega (arith, e)
other_step false fe new here rest e = e

module _ (f : DirDelta → ℕ)
    (adds : (d e : DirDelta) → f (add_delta d e) ≡ (f e + f d) % word_size) where
  sum_at-merge :
      (key : DirKey) (d : DirDelta) (m : DirDeltaMap)
      → Keyed m
      → sum_at f key (values (merge_dir_delta d m)) % word_size
        ≡ (sum_at f key (d ∷ []) + sum_at f key (values m)) % word_size
  unfolding merge_dir_delta
  sum_at-merge key d [] h = ap (λ n. n % word_size) (omega arith)
  sum_at-merge key d ((k, e) ∷ m) h = elim (Bool-cases (same_dir k (dir_key d))) [
    | inl s ↦
        (let here : dir_key e ≡ dir_key d = sym h.0 ∙ same_dir_sound k (dir_key d) s in
          rw s (
            same_step (same_dir (dir_key e) key) (same_dir (dir_key d) key) (f (add_delta d e))
              (f d) (f e) (sum_at f key (values m)) (ap (λ k. same_dir k key) here) (adds d e)))
    | inr s ↦ rw s (
        other_step (same_dir (dir_key e) key) (f e) (sum_at f key (values (merge_dir_delta d m)))
          (sum_at f key (d ∷ [])) (sum_at f key (values m)) (sum_at-merge key d m h.1))
  ]

  sum_at-merge_all :
      (key : DirKey) (ds : List DirDelta) (m : DirDeltaMap)
      → Keyed m
      → sum_at f key (values (merge_all ds m)) % word_size
        ≡ (sum_at f key ds + sum_at f key (values m)) % word_size
  unfolding merge_all
  sum_at-merge_all key [] m h = ap (λ n. n % word_size) (omega arith)
  sum_at-merge_all key (d ∷ ds) m h =
      let ih = sum_at-merge_all key ds (merge_dir_delta d m) (Keyed-merge d m h) in
      let here = sum_at-merge key d m h in
      split (same_dir (dir_key d) key) (sum_at f key (values (merge_all ds (merge_dir_delta d m))))
        ih here
    where
      split :
          (b : Bool) (all : ℕ)
          → all % word_size
            ≡ (sum_at f key ds + sum_at f key (values (merge_dir_delta d m))) % word_size
          → sum_at f key (values (merge_dir_delta d m)) % word_size
            ≡ ((if b then f d + 0 else 0) + sum_at f key (values m)) % word_size
          → all % word_size
            ≡ ((if b then f d + sum_at f key ds else sum_at f key ds) + sum_at f key (values m))
              % word_size
      split true all ih here = omega (arith, ih, here)
      split false all ih here = omega (arith, ih, here)

latest_at-merge :
    (key : DirKey) (d : DirDelta) (m : DirDeltaMap)
    → Keyed m
    → latest_at key (values (merge_dir_delta d m))
      ≡ max (latest_at key (d ∷ [])) (latest_at key (values m))
unfolding merge_dir_delta
latest_at-merge key d [] h = ground arith
latest_at-merge key d ((k, e) ∷ m) h = elim (Bool-cases (same_dir k (dir_key d))) [
  | inl s ↦
      (let here : dir_key e ≡ dir_key d = sym h.0 ∙ same_dir_sound k (dir_key d) s in
        rw s (
          merged (same_dir (dir_key e) key) (same_dir (dir_key d) key)
            (ap (λ k. same_dir k key) here)))
  | inr s ↦ rw s (kept (same_dir (dir_key e) key) (latest_at-merge key d m h.1))
]
  where
    merged :
        (b c : Bool)
        → b ≡ c
        → (if b
            then max (max e.timestamp d.timestamp) (latest_at key (values m))
            else latest_at key (values m))
          ≡ max
              (if c then max d.timestamp 0 else 0)
              (if b then max e.timestamp (latest_at key (values m)) else latest_at key (values m))
    merged true true e = ground arith
    merged true false e = absurd cc
    merged false true e = absurd cc
    merged false false e = ground arith

    kept :
        (b : Bool)
        → latest_at key (values (merge_dir_delta d m))
          ≡ max (latest_at key (d ∷ [])) (latest_at key (values m))
        → (if b
            then max e.timestamp (latest_at key (values (merge_dir_delta d m)))
            else latest_at key (values (merge_dir_delta d m)))
          ≡ max
              (latest_at key (d ∷ []))
              (if b then max e.timestamp (latest_at key (values m)) else latest_at key (values m))
    kept b ih = ground (arith, ih)

latest_at-merge_all :
    (key : DirKey) (ds : List DirDelta) (m : DirDeltaMap)
    → Keyed m
    → latest_at key (values (merge_all ds m)) ≡ max (latest_at key ds) (latest_at key (values m))
unfolding merge_all
latest_at-merge_all key [] m h = ground arith
latest_at-merge_all key (d ∷ ds) m h =
    split (same_dir (dir_key d) key)
      (latest_at-merge_all key ds (merge_dir_delta d m) (Keyed-merge d m h))
      (latest_at-merge key d m h)
  where
    split :
        (b : Bool) {all : ℕ}
        → all ≡ max (latest_at key ds) (latest_at key (values (merge_dir_delta d m)))
        → latest_at key (values (merge_dir_delta d m))
          ≡ max (if b then max d.timestamp 0 else 0) (latest_at key (values m))
        → all
          ≡ max
              (if b then max d.timestamp (latest_at key ds) else latest_at key ds)
              (latest_at key (values m))
    split true ih here = ground (arith, ih, here)
    split false ih here = ground (arith, ih, here)

number_at-merge :
    (key : DirKey) (d : DirDelta) (m : DirDeltaMap)
    → Keyed m
    → number_at key (values (merge_dir_delta d m)) ≡ (
        if same_dir (dir_key d) key
        then max 1 (number_at key (values m))
        else number_at key (values m))
unfolding merge_dir_delta
number_at-merge key d [] h = ground arith
number_at-merge key d ((k, e) ∷ m) h = elim (Bool-cases (same_dir k (dir_key d))) [
  | inl s ↦
      (let here : dir_key e ≡ dir_key d = sym h.0 ∙ same_dir_sound k (dir_key d) s in
        rw s (
          merged (same_dir (dir_key e) key) (same_dir (dir_key d) key)
            (ap (λ k. same_dir k key) here)))
  | inr s ↦ rw s (
      kept (same_dir (dir_key e) key) (same_dir (dir_key d) key) (number_at-merge key d m h.1)
        (λ b c. other s b c))
]
  where
    merged :
        (b c : Bool)
        → b ≡ c
        → (if b then 1 + number_at key (values m) else number_at key (values m)) ≡ (
            if c
            then max 1 (if b then 1 + number_at key (values m) else number_at key (values m))
            else (if b then 1 + number_at key (values m) else number_at key (values m)))
    merged true true e = ground arith
    merged true false e = absurd cc
    merged false true e = absurd cc
    merged false false e = refl

    other :
        same_dir k (dir_key d) ≡ false
        → same_dir (dir_key e) key ≡ true
        → same_dir (dir_key d) key ≡ true
        → ⊥
    other s b c =
        let here : dir_key e ≡ dir_key d =
          same_dir_sound (dir_key e) key b ∙ sym (same_dir_sound (dir_key d) key c) in
        let there : same_dir k key ≡ same_dir k (dir_key d) =
          ap (same_dir k) (sym (same_dir_sound (dir_key d) key c)) in
        let same : same_dir k key ≡ same_dir (dir_key e) key = ap (λ j. same_dir j key) h.0 in
        absurd (cc)

    kept :
        (b c : Bool) {new : ℕ}
        → new ≡ (if c then max 1 (number_at key (values m)) else number_at key (values m))
        → (b ≡ true → c ≡ true → ⊥)
        → (if b then 1 + new else new) ≡ (
            if c
            then max 1 (if b then 1 + number_at key (values m) else number_at key (values m))
            else (if b then 1 + number_at key (values m) else number_at key (values m)))
    kept true true ih apart = absurd (apart refl refl)
    kept true false ih apart = ground (arith, ih)
    kept false true ih apart = ground (arith, ih)
    kept false false ih apart = ground (arith, ih)

number_at-merge_all :
    (key : DirKey) (ds : List DirDelta) (m : DirDeltaMap)
    → Keyed m
    → number_at key (values (merge_all ds m)) ≡ (
        if number_at key ds == 0
        then number_at key (values m)
        else max 1 (number_at key (values m)))
unfolding merge_all
number_at-merge_all key [] m h = refl
number_at-merge_all key (d ∷ ds) m h =
    split (same_dir (dir_key d) key)
      (number_at-merge_all key ds (merge_dir_delta d m) (Keyed-merge d m h))
      (number_at-merge key d m h)
  where
    split :
        (b : Bool) {all : ℕ}
        → all ≡ (
            if number_at key ds == 0
            then number_at key (values (merge_dir_delta d m))
            else max 1 (number_at key (values (merge_dir_delta d m))))
        → number_at key (values (merge_dir_delta d m))
          ≡ (if b then max 1 (number_at key (values m)) else number_at key (values m))
        → all ≡ (
            if (if b then 1 + number_at key ds else number_at key ds) == 0
            then number_at key (values m)
            else max 1 (number_at key (values m)))
    split true ih here = ground (arith, ih, here)
    split false ih here = ground (arith, ih, here)

-- For every directory, what `drain_dir_deltas` coalesces has the sums of the counts and of the
-- bytes that its events have, up to multiples of 2^64, the latest of their times, and one delta if
-- there is an event for it and none otherwise.
pub drain_dir_deltas-sums :
    (key : DirKey) (events : List DirDelta)
    → let coalesced = values (drain_dir_deltas events) in
      (sum_at (λ d. d.count_delta) key coalesced % word_size
        ≡ sum_at (λ d. d.count_delta) key events % word_size)
      × (sum_at (λ d. d.bytes_delta) key coalesced % word_size
          ≡ sum_at (λ d. d.bytes_delta) key events % word_size)
      × (latest_at key coalesced ≡ latest_at key events)
      × (number_at key coalesced ≡ (if number_at key events == 0 then 0 else 1))
unfolding drain_dir_deltas add_i64
drain_dir_deltas-sums key events = (
  sum_at-merge_all (λ d. d.count_delta) (λ d e. refl) key events [] tt
      ∙ ap (λ n. n % word_size) (omega arith),
  sum_at-merge_all (λ d. d.bytes_delta) (λ d e. refl) key events [] tt
      ∙ ap (λ n. n % word_size) (omega arith),
  latest_at-merge_all key events [] tt ∙ ground arith,
  number_at-merge_all key events [] tt,
)
