-- ===== src/Service/Scan/Complete.antt =====
-- `for_each_in_partition` visits the entries with the prefix, all of them and in order, whatever
-- the size of its batches.
use artifact_depot.Base.{
  ℕ, zero, suc, ◌<◌, ◌≤◌, ◌≡◌, refl, ap, sym, ◌∙◌, Bool, true, false, not, ◌&&◌, List, [], ◌∷◌,
  ◌++◌, Option, some, none, leb, arith, length, take, drop, take_all, take-append-drop, length-drop,
  Bool-cases, inl, inr, All,
}
use artifact_depot.Base.Bytes.{Bytes, bytes_lt, starts_with, is_empty}
use artifact_depot.Keys.Prefix
use artifact_depot.Keys.Prefix.{IsByte, is_below, starts_with-range}
use artifact_depot.Kv.{KvStore, KvLaws, in_range, select}
use artifact_depot.Kv.Sorted.{IsSorted, AllAbove, bytes_lt_trans}
use artifact_depot.Service.Error.{Result, ok, err}
use artifact_depot.Service.Scan.{
  Flow, more, stop, fail, finish, visit_batch, after_callback, last_key, next_start, scan_loop,
  round_end, prefix_end, if_utf8, for_each_in_partition,
}
use artifact_depot.Service.Scan.Rounds.{next_round, last-take-some}

module _ {S : Type 0} where
  abbrev after : Result (S × Bool) → (S → Result S) → Result S
  after (err e) k = err e
  after (ok (s, false)) k = ok s
  after (ok (s, true)) k = k s

  abbrev followed : Flow S → (S → Flow S) → Flow S
  followed (more s) k = k s
  followed (stop s) k = stop s
  followed (fail e) k = fail e

  after-followed :
      (x : Result (S × Bool)) (f g : S → Flow S) (h : S → Flow S)
      → ((s : S) → f s ≡ followed (g s) h)
      → after_callback x f ≡ followed (after_callback x g) h
  after-followed (err e) f g h same = refl
  after-followed (ok (s, false)) f g h same = refl
  after-followed (ok (s, true)) f g h same = same s

  finish-after :
      (x : Result (S × Bool)) (f : S → Flow S) (g : S → Result S)
      → ((s : S) → finish (f s) ≡ g s)
      → finish (after_callback x f) ≡ after x g
  finish-after (err e) f g same = refl
  finish-after (ok (s, false)) f g same = refl
  finish-after (ok (s, true)) f g same = same s

-- The guard of the loop is the prefix test: everything has the empty prefix.
pub guard_lem : (p k : Bytes) → (not (is_empty p) && not (starts_with p k)) ≡ not (starts_with p k)
unfolding starts_with
guard_lem [] k = refl
guard_lem (x ∷ p) k = refl

module _ {S V : Type 0} (callback : S → Bytes → V → Result (S × Bool)) where
  -- The reference: the callback on one entry after the other, until it fails or says stop.
  unfoldable pub visit_all : S → List (Bytes × V) → Result S
  visit_all s [] = ok s
  visit_all s ((sk, value) ∷ items) = after (callback s sk value) (λ s'. visit_all s' items)

  visit_batch-append :
      (p : Bytes) (s : S) (xs ys : List (Bytes × V))
      → visit_batch callback p s (xs ++ ys)
        ≡ followed (visit_batch callback p s xs) (λ s'. visit_batch callback p s' ys)
  unfolding visit_batch
  visit_batch-append p s [] ys = refl
  visit_batch-append p s ((k, v) ∷ xs) ys = elim (Bool-cases (starts_with p k)) [
    | inr e ↦ rw (guard_lem p k, e)
    | inl e ↦
        rw (guard_lem p k, e)
          (after-followed (callback s k v) (λ s'. visit_batch callback p s' (xs ++ ys))
            (λ s'. visit_batch callback p s' xs) (λ s'. visit_batch callback p s' ys)
            (λ s'. visit_batch-append p s' xs ys))
  ]

abbrev pub AllBytes : {V : Type 0} → List (Bytes × V) → Type 0
AllBytes [] = Unit
AllBytes ((k, v) ∷ r) = All IsByte k × AllBytes r

-- Once a sorted list has left the prefix it does not meet it again.
left_prefix :
    (p k j : Bytes)
    → All IsByte k
    → All IsByte j
    → bytes_lt k p ≡ false
    → starts_with p k ≡ false
    → bytes_lt k j ≡ true
    → starts_with p j ≡ false
left_prefix p k j bk bj ge out lt =
    left (Prefix.prefix_end p) (starts_with-range p k bk) (starts_with-range p j bj)
  where
    left :
        (e : Option Bytes)
        → starts_with p k ≡ (not (bytes_lt k p) && is_below k e)
        → starts_with p j ≡ (not (bytes_lt j p) && is_below j e)
        → starts_with p j ≡ false
    left none hk hj = ground arith
    left (some e) hk hj = ground (arith, bytes_lt_trans k j e)

pub select_left :
    {V : Type 0} (p k : Bytes) (r : List (Bytes × V))
    → All IsByte k
    → AllBytes r
    → bytes_lt k p ≡ false
    → starts_with p k ≡ false
    → AllAbove k r
    → select (starts_with p) r ≡ []
select_left p k [] bk b ge out a = refl
select_left p k ((j, v) ∷ r) bk b ge out a =
    rw (left_prefix p k j bk b.0 ge out a.0, select_left p k r bk b.1 ge out a.1)

module _ (is_utf8 : Bytes → Bool) where
  -- The range of a scan holds what has the prefix.
  pub starts-in_range :
      (p k : Bytes)
      → All IsByte k
      → starts_with p k ≡ true
      → in_range p (prefix_end is_utf8 p) k ≡ true
  unfolding prefix_end
  starts-in_range p k b h = within (Prefix.prefix_end p) (starts_with-range p k b)
    where
      within :
          (e : Option Bytes)
          → starts_with p k ≡ (not (bytes_lt k p) && is_below k e)
          → in_range p (if_utf8 is_utf8 e) k ≡ true
      within none hk = ground arith
      within (some e) hk = ground arith

  pub range-not_below :
      (p k : Bytes) (end : Option Bytes) → in_range p end k ≡ true → bytes_lt k p ≡ false
  range-not_below p k none h = ground arith
  range-not_below p k (some e) h = ground arith

  module _ {S V : Type 0} (callback : S → Bytes → V → Result (S × Bool)) where
    visit_batch-select :
        (p : Bytes) (s : S) (xs : List (Bytes × V))
        → IsSorted xs
        → AllBytes xs
        → finish (visit_batch callback p s (select (in_range p (prefix_end is_utf8 p)) xs))
          ≡ visit_all callback s (select (starts_with p) xs)
    unfolding visit_batch visit_all
    visit_batch-select p s [] sorted b = refl
    visit_batch-select p s ((k, v) ∷ r) sorted b = elim (Bool-cases (starts_with p k)) [
      | inl has ↦
          rw (has, starts-in_range p k b.0 has)
            (rw (guard_lem p k, has)
              (finish-after (callback s k v) _ _ (λ s'. visit_batch-select p s' r sorted.1 b.1)))
      | inr out ↦ rw out (elim (Bool-cases (in_range p (prefix_end is_utf8 p) k)) [
        | inl here ↦ rw here (
            rw (guard_lem p k, out)
              (rw (select_left p k r b.0 b.1 (range-not_below p k _ here) out sorted.0)))
        | inr above ↦ rw above (visit_batch-select p s r sorted.1 b.1)
      ])
    ]

pub length-select :
    {V : Type 0} (p : Bytes → Bool) (xs : List (Bytes × V)) → length (select p xs) ≤ length xs
length-select p [] = omega arith
length-select p ((k, v) ∷ r) = ground (arith, length-select p r)

module _ {S : Type 0} where
  round_end-done :
      (f : Flow S) (l : Option Bytes) (next : Bytes → S → Option (Result S))
      → round_end f true l next ≡ some (finish f)
  round_end-done (more s) l next = refl
  round_end-done (stop s) l next = refl
  round_end-done (fail e) l next = refl

  round_end-next :
      (f : Flow S) (l : Bytes) (next : Bytes → S → Option (Result S)) (g : S → Flow S)
      → ((s : S) → next l s ≡ some (finish (g s)))
      → round_end f false (some l) next ≡ some (finish (followed f g))
  round_end-next (more s) l next g h = h s
  round_end-next (stop s) l next g h = refl
  round_end-next (fail e) l next g h = refl

module _ {V : Type 0} (kv : KvStore V) (laws : KvLaws kv) (is_utf8 : Bytes → Bool) where
  module _ {S : Type 0} (callback : S → Bytes → V → Result (S × Bool)) where
    -- What is left of the scan from `start` on.
    abbrev remaining : kv.State → Bytes → Bytes → Bytes → Bytes → List (Bytes × V)
    remaining store table pk p start =
        select (in_range start (prefix_end is_utf8 p)) (kv.entries store table pk)

    scan_loop-remaining :
        (fuel : ℕ) (store : kv.State) (table pk p : Bytes) (b : ℕ) (start : Bytes) (s : S)
        → 0 < b
        → length (remaining store table pk p start) < fuel
        → scan_loop kv is_utf8 callback fuel store table pk p b start s
          ≡ some (finish (visit_batch callback p s (remaining store table pk p start)))
    unfolding scan_loop
    scan_loop-remaining zero store table pk p b start s pos h = absurd (omega arith)
    scan_loop-remaining (suc fuel) store table pk p b start s pos h =
        let rest = remaining store table pk p start in
        elim (Bool-cases (leb (length rest) b)) [
          | inl done ↦
              rw (laws.scan_range_lem store table pk start (prefix_end is_utf8 p) b, done)
                (rw (take_all b rest (ground arith))
                  (round_end-done (visit_batch callback p s rest) (last_key rest) _))
          | inr go_on ↦
              (let longer : b < length rest = ground arith in
                let (l, at) = last-take-some b rest pos longer in
                let behind =
                  next_round start (prefix_end is_utf8 p) b (kv.entries store table pk) l
                    (laws.entries-IsSorted store table pk) at in
                rw (laws.scan_range_lem store table pk start (prefix_end is_utf8 p) b, go_on, at)
                  (round_end-next (visit_batch callback p s (take b rest)) l _
                      (λ s'. visit_batch callback p s' (drop b rest))
                      (λ s'.
                        scan_loop-remaining fuel store table pk p b (next_start l) s' pos
                          (rw behind (omega (arith, length-drop {0} b rest)))
                        ∙ rw behind)
                    ∙ ap (λ f. some (finish f))
                        (sym (visit_batch-append callback p s (take b rest) (drop b rest))
                          ∙ rw (take-append-drop b rest))))
        ]

    -- With fuel for one round more than there are entries, the loop returns, and has called the
    -- callback on exactly the entries with the prefix, in order, up to the first that fails or says
    -- stop. Neither the batch size nor the end of the range can be seen.
    pub for_each_in_partition-visit_all :
        (fuel : ℕ) (store : kv.State) (table pk p : Bytes) (b : ℕ) (s : S)
        → 0 < b
        → length (kv.entries store table pk) < fuel
        → AllBytes (kv.entries store table pk)
        → for_each_in_partition kv is_utf8 callback fuel store table pk p b s
          ≡ some (visit_all callback s (select (starts_with p) (kv.entries store table pk)))
    unfolding for_each_in_partition
    for_each_in_partition-visit_all fuel store table pk p b s pos h bytes =
        scan_loop-remaining fuel store table pk p b p s pos (
          omega
            (arith, length-select (in_range p (prefix_end is_utf8 p)) (kv.entries store table pk)))
        ∙ ap some (
            visit_batch-select is_utf8 callback p s (kv.entries store table pk)
              (laws.entries-IsSorted store table pk) bytes)
