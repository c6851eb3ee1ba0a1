-- ===== src/Service/Merge/Listed.antt =====
-- The loop of `k_way_merge`, read against a sorted list.
use artifact_depot.Base.{
  ℕ, zero, suc, ◌+◌, ◌-◌, ◌≤◌, ◌<◌, ◌≡◌, refl, ap, sym, ◌∙◌, Bool, not, List, [], ◌∷◌, ◌++◌, Option,
  some, arith, length, length-append, append-nil, append_assoc, drop_all, take_all, take, drop, ltb,
  Bool-cases, inl, inr,
}
use mathlib.Core.Path.{subst}
use artifact_depot.Base.Bytes.{Bytes}
use artifact_depot.Kv.{KvStore, KvLaws, select}
use artifact_depot.Kv.Codec.{Codec}
use artifact_depot.Kv.Sorted.{IsSorted}
use artifact_depot.Service.Error.{Result, ok, err}
use artifact_depot.Service.Scan.Complete.{AllBytes}
use artifact_depot.Service.Stream.{ShardStream, peek, advance}
use artifact_depot.Service.Stream.Fetch.{IsBounded}
use artifact_depot.Service.Stream.Buffered.{
  yields, ensure_buffered-IsReady, advance-yields, advance-IsBounded, measure-bound,
}
use artifact_depot.Service.Merge.{
  HeapEntry, push_shown, at_or_before, collect, on_shown, ready, merge_loop,
}
use artifact_depot.Service.Merge.Heap.{IsShown}
use artifact_depot.Service.Merge.Union.{
  IsPrimed, IsUnion, IsUnion-nil, IsUnion-cons, IsUnion-first, IsUnion-rest,
}

abbrev pub prepended : {A : Type 0} → List A → Result (List A) → Result (List A)
prepended xs (ok r) = ok (xs ++ r)
prepended xs (err e) = err e

abbrev pub with_record :
    {T : Type 0} → Bytes → Result T → Result (List (Bytes × T)) → Result (List (Bytes × T))
with_record k (err e) rest = err e
with_record k (ok r) rest = prepended ((k, r) ∷ []) rest

prepended_twice :
    {A : Type 0} (xs ys : List A) (r : Result (List A))
    → prepended (xs ++ ys) r ≡ prepended xs (prepended ys r)
prepended_twice xs ys (ok r) = ap ok (append_assoc xs ys r)
prepended_twice xs ys (err e) = refl

-- The entries that the loop does not pass over.
abbrev pub passed : {V : Type 0} → Option Bytes → List (Bytes × V) → List (Bytes × V)
passed cursor_path xs = select (λ k. not (at_or_before cursor_path k)) xs

module _ {T V : Type 0} (codec : Codec T V) where
  -- The records of a list, or the error of the first that does not parse.
  unfoldable pub read_all : List (Bytes × V) → Result (List (Bytes × T))
  read_all [] = ok []
  read_all ((k, v) ∷ r) = with_record k (codec.from_slice v) (read_all r)

  -- What the loop comes to, with some entries skipped and some results collected.
  abbrev sifted : ℕ → ℕ → ℕ → List (Bytes × T) → List (Bytes × V) → Result (List (Bytes × T))
  sifted skip limit skipped results xs =
      prepended results (read_all (take (suc limit - length results) (drop (skip - skipped) xs)))

  sifted_nil :
      (skip limit skipped : ℕ) (results : List (Bytes × T))
      → sifted skip limit skipped results [] ≡ ok results
  unfolding read_all
  sifted_nil skip limit skipped results =
      rw
        (
          drop_all {A = Bytes × V} (skip - skipped) [] (omega arith),
          take_all {A = Bytes × V} (suc limit - length results) [] (omega arith),
          append-nil results,
        )
        refl

  collect_lem :
      (limit : ℕ) (k : Bytes) (x : Result T) (results : List (Bytes × T))
      (next : List (Bytes × T) → Option (Result (List (Bytes × T)))) (rest : List (Bytes × V))
      (n : ℕ)
      → length results + n ≡ limit
      → ((r : T)
          → length (results ++ (k, r) ∷ []) ≤ limit
          → next (results ++ (k, r) ∷ [])
            ≡ some (
                prepended
                  (results ++ (k, r) ∷ [])
                  (read_all (take (suc limit - length (results ++ (k, r) ∷ [])) rest))))
      → collect limit k x results next
        ≡ some (prepended results (with_record k x (read_all (take n rest))))
  collect_lem limit k (err e) results next rest n at ih = refl
  collect_lem limit k (ok r) results next rest n at ih =
      let len = length-append {0} results ((k, r) ∷ []) in
      elim (Bool-cases (ltb limit (length (results ++ (k, r) ∷ [])))) [
        | inl full ↦
            (let none_left : n ≡ 0 = ground (arith, len) in
              rw (full, none_left) (unfold read_all in refl))
        | inr more ↦
            (let left : suc limit - length (results ++ (k, r) ∷ []) ≡ n = ground (arith, len) in
              rw more (
                ih r (ground (arith, len))
                ∙ rw left (ap some (prepended_twice results ((k, r) ∷ []) _))))
      ]

module _ {T V : Type 0} (codec : Codec T V) (lower_contains : Bytes → Bytes → Bool)
    (is_utf8 : Bytes → Bool) (kv : KvStore V) (laws : KvLaws kv) (rounds : ℕ) (store : kv.State)
    (table : Bytes) where
  abbrev pub left : ShardStream V → List (Bytes × V)
  left = yields kv laws lower_contains is_utf8 store table

  -- The rounds are enough for the stream's partition.
  pub record Fits (s : ShardStream V) : Type 0 where
    pub bounded : IsBounded is_utf8 s
    pub bytes : AllBytes (kv.entries store table s.pk)
    pub enough : suc (length (kv.entries store table s.pk)) < rounds

  abbrev refill : ShardStream V → Option (ShardStream V)
  refill = ready codec lower_contains kv rounds store table

  pub ready-IsPrimed :
      (s : ShardStream V)
      → Fits s
      → IsSorted (left s)
      → (t : ShardStream V) × (refill s ≡ some t) × (left t ≡ left s) × IsPrimed left Fits t
  ready-IsPrimed s f sorted =
      let (t, e, r) =
        ensure_buffered-IsReady kv laws lower_contains is_utf8 store table rounds s f.bounded
          f.bytes
          (omega (arith, measure-bound kv laws lower_contains is_utf8 store table s, f.enough)) in
      (
        t,
        e,
        r.same,
        record {
          shows = r.shows;
          sorted = subst IsSorted (sym r.same) sorted;
          fits = record {
            bounded = r.bounded;
            bytes = subst (λ p. AllBytes (kv.entries store table p)) (sym r.same_pk) f.bytes;
            enough =
                subst (λ p. suc (length (kv.entries store table p)) < rounds) (sym r.same_pk)
                  f.enough;
          };
        },
      )

  -- The next of a heap entry.
  next-IsPrimed :
      (e : HeapEntry V)
      → (s : IsShown left Fits e)
      → (t : ShardStream V) × (refill (advance e.stream) ≡ some t)
        × (left t ≡ s.rest)
        × IsPrimed left Fits t
  next-IsPrimed e s =
      let step =
        advance-yields kv laws lower_contains is_utf8 store table e.stream e.sk s.value s.rest
          s.shows s.first in
      let (t, at, same, p) =
        ready-IsPrimed (advance e.stream)
          (record {
            bounded =
                advance-IsBounded kv laws lower_contains is_utf8 store table e.stream
                  s.fits.bounded;
            bytes = s.fits.bytes;
            enough = s.fits.enough;
          })
          (subst IsSorted (sym step) s.sorted.1) in
      (t, at, same ∙ step, p)

  abbrev Reads :
      ℕ
      → Option Bytes
      → ℕ
      → ℕ
      → List (HeapEntry V)
      → ℕ
      → List (Bytes × T)
      → List (Bytes × V)
      → Type 0
  Reads fuel cursor_path skip limit heap skipped results all =
      merge_loop codec lower_contains kv rounds store table fuel cursor_path skip limit heap skipped
        results
      ≡ some (sifted codec skip limit skipped results (passed cursor_path all))

  -- One round, whatever the test of the cursor and of the skipped entries says.
  round_lem :
      (fuel : ℕ) (cursor_path : Option Bytes) (skip limit : ℕ) (e : HeapEntry V)
      (h : List (HeapEntry V)) (k : Bytes) (v : V) (t : ShardStream V) (all : List (Bytes × V))
      (skipped : ℕ) (results : List (Bytes × T))
      → peek e.stream ≡ some (k, v)
      → refill (advance e.stream) ≡ some t
      → length results ≤ limit
      → ((skipped' : ℕ) (results' : List (Bytes × T))
          → length results' ≤ limit
          → Reads fuel cursor_path skip limit
              (push_shown e.stream_idx t (peek t) h)
              skipped'
              results'
              all)
      → Reads (suc fuel) cursor_path skip limit (e ∷ h) skipped results ((k, v) ∷ all)
  unfolding merge_loop
  round_lem fuel cursor_path skip limit e h k v t all skipped results shows at room ih =
      rw (shows, at)
        (unfold on_shown in
          (elim (Bool-cases (at_or_before cursor_path k)) [
            | inl before ↦ rw before (ih skipped results room)
            | inr after ↦ rw after (elim (Bool-cases (ltb skipped skip)) [
              | inl more ↦
                  (let d : skip - skipped ≡ suc (skip - (skipped + 1)) = ground arith in
                    rw (more, d) (ih (skipped + 1) results room))
              | inr done ↦
                  (let d : skip - skipped ≡ 0 = ground arith in
                    let n : suc limit - length results ≡ suc (limit - length results) =
                      omega (arith, room) in
                    rw (done, d, n)
                      (unfold read_all in
                        collect_lem codec limit k (codec.from_slice v) results _
                          (passed cursor_path all) (limit - length results) (omega (arith, room))
                          (λ r room'. ih skipped (results ++ (k, r) ∷ []) room' ∙ rw d refl)))
            ])
          ]))

  pub merge_loop-Reads :
      (fuel : ℕ) (cursor_path : Option Bytes) (skip limit : ℕ) (heap : List (HeapEntry V))
      (skipped : ℕ) (results : List (Bytes × T)) (all : List (Bytes × V))
      → IsUnion left Fits heap all
      → length all < fuel
      → length results ≤ limit
      → Reads fuel cursor_path skip limit heap skipped results all
  unfolding merge_loop
  merge_loop-Reads zero cursor_path skip limit heap skipped results all u enough room =
      absurd (omega arith)
  merge_loop-Reads (suc fuel) cursor_path skip limit [] skipped results all u enough room =
      rw (IsUnion-nil left Fits all u, sifted_nil codec skip limit skipped results) refl
  merge_loop-Reads (suc fuel) cursor_path skip limit (e ∷ h) skipped results [] u enough room =
      absurd (IsUnion-cons left Fits e h u)
  merge_loop-Reads (suc fuel) cursor_path skip limit (e ∷ h) skipped results ((k, v) ∷ all) u enough
        room =
      let (t, at, same, p) = next-IsPrimed e u.ordered.0 in
      let first = IsUnion-first left Fits e h k v all u in
      round_lem fuel cursor_path skip limit e h k v t all skipped results
        (u.ordered.0.shows ∙ rw (first.0, first.1) refl) at room
        (λ skipped' results' room'.
          merge_loop-Reads fuel cursor_path skip limit (push_shown e.stream_idx t (peek t) h)
            skipped' results' all (IsUnion-rest left Fits e h k v all u t same p) (omega arith)
            room')
