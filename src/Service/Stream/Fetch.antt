-- ===== src/Service/Stream/Fetch.antt =====
-- What a stream still yields, before and after a round of `ensure_buffered`.
use artifact_depot.Base.{
  ◌<◌, ◌≡◌, refl, ap, sym, ◌∙◌, Bool, true, false, ◌&&◌, ◌||◌, List, [], ◌∷◌, ◌++◌, Option, some,
  none, leb, if◌then◌else◌, arith, length, take, drop, take-append-drop, drop_all, Bool-cases, inl,
  inr, All,
}
use artifact_depot.Base.Bytes.{Bytes, bytes_lt, starts_with}
use artifact_depot.Keys.Prefix.{IsByte}
use artifact_depot.Kv.{KvStore, KvLaws, in_range, select}
use artifact_depot.Kv.Sorted.{IsSorted, AllAbove, bytes_lt_trans, bytes_lt_total}
use artifact_depot.Kv.Select.{IsSorted-select}
use artifact_depot.Service.Scan.{prefix_end, last_key}
use artifact_depot.Service.Scan.Complete.{AllBytes, guard_lem, select_left}
use artifact_depot.Service.Scan.Rounds.{next_round, last-take-some, select-select}
use artifact_depot.Service.Stream.{ShardStream, keep, fetch, matches, must_fetch, start_behind}

-- What a stream is for: its prefix, and its query.
abbrev pub wanted : (Bytes → Bytes → Bool) → Bytes → Option Bytes → Bytes → Bool
wanted lower_contains p filter sk = starts_with p sk && matches lower_contains filter sk

abbrev AllFrom : {V : Type 0} → Bytes → List (Bytes × V) → Type 0
AllFrom p [] = Unit
AllFrom p ((k, v) ∷ r) = (bytes_lt k p ≡ false) × AllFrom p r

module _ {V : Type 0} (lower_contains : Bytes → Bytes → Bool) where
  wanted-left :
      (p k : Bytes) (filter : Option Bytes) (r : List (Bytes × V))
      → All IsByte k
      → AllBytes r
      → bytes_lt k p ≡ false
      → starts_with p k ≡ false
      → AllAbove k r
      → select (wanted lower_contains p filter) r ≡ []
  wanted-left p k filter r bk b ge out a =
      sym (select-select (starts_with p) (matches lower_contains filter) r)
      ∙ ap (select (matches lower_contains filter)) (select_left p k r bk b ge out a)

  -- What a batch keeps, and what is wanted behind it, is what is wanted of the whole.
  keep_lem :
      (p : Bytes) (filter : Option Bytes) (xs ys : List (Bytes × V))
      → IsSorted (xs ++ ys)
      → AllBytes (xs ++ ys)
      → AllFrom p (xs ++ ys)
      → (keep lower_contains p filter xs).0
          ++ (if (keep lower_contains p filter xs).1
              then []
              else select (wanted lower_contains p filter) ys)
        ≡ select (wanted lower_contains p filter) (xs ++ ys)
  unfolding keep
  keep_lem p filter [] ys s b f = refl
  keep_lem p filter ((k, v) ∷ xs) ys s b f = elim (Bool-cases (starts_with p k)) [
    | inl e ↦
        rw (guard_lem p k, e)
          (elim (Bool-cases (matches lower_contains filter k)) [
            | inl m ↦ rw m (ap (λ r. (k, v) ∷ r) (keep_lem p filter xs ys s.1 b.1 f.1))
            | inr m ↦ rw m (keep_lem p filter xs ys s.1 b.1 f.1)
          ])
    | inr e ↦ rw (guard_lem p k, e) (sym (wanted-left p k filter (xs ++ ys) b.0 b.1 f.0 e s.0))
  ]

-- The bounds of a stream: it ends where its prefix does, and starts at its prefix or behind.
pub record IsBounded {V : Type 0} (is_utf8 : Bytes → Bool) (s : ShardStream V) : Type 0 where
  pub ends : s.sk_end ≡ prefix_end is_utf8 s.sk_prefix
  pub starts : bytes_lt s.next_start s.sk_prefix ≡ false
  pub batch : 0 < s.batch_size

module _ {V : Type 0} (kv : KvStore V) (laws : KvLaws kv) (lower_contains : Bytes → Bytes → Bool)
    (is_utf8 : Bytes → Bool) (store : kv.State) (table : Bytes) where
  -- The entries that the stream has not fetched.
  abbrev pub unread : ShardStream V → List (Bytes × V)
  unread s = select (in_range s.next_start s.sk_end) (kv.entries store table s.pk)

  abbrev pub coming : ShardStream V → List (Bytes × V)
  coming s =
      if s.exhausted then [] else select (wanted lower_contains s.sk_prefix s.filter) (unread s)

  -- What the stream still yields.
  abbrev pub remaining : ShardStream V → List (Bytes × V)
  remaining s = drop s.buf_idx s.buffer ++ coming s

  pub range-from :
      (p start k : Bytes) (end : Option Bytes)
      → bytes_lt start p ≡ false
      → in_range start end k ≡ true
      → bytes_lt k p ≡ false
  range-from p start k none h r = ground (arith, bytes_lt_trans k p start, bytes_lt_total start p)
  range-from p start k (some e) h r =
      ground (arith, bytes_lt_trans k p start, bytes_lt_total start p)

  AllFrom-select :
      (p start : Bytes) (end : Option Bytes) (xs : List (Bytes × V))
      → bytes_lt start p ≡ false
      → AllFrom p (select (in_range start end) xs)
  AllFrom-select p start end [] h = tt
  AllFrom-select p start end ((k, v) ∷ r) h = elim (Bool-cases (in_range start end k)) [
    | inl e ↦ rw e (range-from p start k end h e, AllFrom-select p start end r h)
    | inr e ↦ rw e (AllFrom-select p start end r h)
  ]

  AllBytes-select :
      (q : Bytes → Bool) (xs : List (Bytes × V)) → AllBytes xs → AllBytes (select q xs)
  AllBytes-select q [] b = tt
  AllBytes-select q ((k, v) ∷ r) b = elim (Bool-cases (q k)) [
    | inl e ↦ rw e (b.0, AllBytes-select q r b.1)
    | inr e ↦ rw e (AllBytes-select q r b.1)
  ]

  cut : (past : Bool) → ◌≡◌ {A = List (Bytes × V)} (if past then [] else []) []
  cut true = refl
  cut false = refl

  -- What the next round would read is what this one left, unless nothing is left.
  next-unread :
      (s : ShardStream V) (past : Bool)
      → 0 < s.batch_size
      → (if leb (length (unread s)) s.batch_size || past
          then []
          else select (wanted lower_contains s.sk_prefix s.filter) (
              select
                (in_range
                  (start_behind (last_key (take s.batch_size (unread s))) s.next_start)
                  s.sk_end)
                (kv.entries store table s.pk)))
        ≡ (if past
            then []
            else select (wanted lower_contains s.sk_prefix s.filter) (drop s.batch_size (unread s)))
  next-unread s past pos = elim (Bool-cases (leb (length (unread s)) s.batch_size)) [
    | inl done ↦ rw (done, drop_all s.batch_size (unread s) (ground arith)) (sym (cut past))
    | inr on ↦
        (let (l, last) = last-take-some s.batch_size (unread s) pos (ground arith) in
          let next =
            next_round s.next_start s.sk_end s.batch_size (kv.entries store table s.pk) l
              (laws.entries-IsSorted store table s.pk) last in
          rw (on, last, next))
  ]

  batch-wanted :
      (s : ShardStream V)
      → IsBounded is_utf8 s
      → AllBytes (kv.entries store table s.pk)
      → (keep lower_contains s.sk_prefix s.filter (take s.batch_size (unread s))).0
          ++ (if (keep lower_contains s.sk_prefix s.filter (take s.batch_size (unread s))).1
              then []
              else select
                  (wanted lower_contains s.sk_prefix s.filter)
                  (drop s.batch_size (unread s)))
        ≡ select (wanted lower_contains s.sk_prefix s.filter) (unread s)
  batch-wanted s h bytes =
      let whole = take-append-drop s.batch_size (unread s) in
      keep_lem lower_contains s.sk_prefix s.filter (take s.batch_size (unread s))
        (drop s.batch_size (unread s))
        (rw whole (IsSorted-select _ _ (laws.entries-IsSorted store table s.pk)))
        (rw whole (AllBytes-select _ _ bytes))
        (rw whole
          (AllFrom-select s.sk_prefix s.next_start s.sk_end (kv.entries store table s.pk) h.starts))
      ∙ rw whole

  pub fetch-remaining :
      (s : ShardStream V)
      → IsBounded is_utf8 s
      → AllBytes (kv.entries store table s.pk)
      → must_fetch lower_contains kv store table s ≡ true
      → remaining (fetch lower_contains kv store table s) ≡ remaining s
  unfolding fetch
  fetch-remaining s h bytes must =
      let kept = (keep lower_contains s.sk_prefix s.filter (take s.batch_size (unread s))) in
      rw (laws.scan_range_lem store table s.pk s.next_start s.sk_end s.batch_size) (
        ap (λ r. kept.0 ++ r) (next-unread s kept.1 h.batch)
        ∙ batch-wanted s h bytes
        ∙ rw (drop_all s.buf_idx s.buffer (ground arith), fresh))
    where
      fresh : s.exhausted ≡ false
      fresh = ground arith
