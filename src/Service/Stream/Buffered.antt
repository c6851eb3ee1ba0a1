-- ===== src/Service/Stream/Buffered.antt =====
-- The rounds of `ensure_buffered`, and the entry that a stream shows.
use artifact_depot.Base.{
  ℕ, zero, suc, ◌<◌, ◌≤◌, ◌+◌, ◌≡◌, refl, ◌∙◌, Bool, true, false, ◌||◌, List, [], ◌∷◌, ◌++◌, Option,
  some, none, leb, if◌then◌else◌, arith, length, take, drop, length-drop, Bool-cases, inl, inr, ◌⊎◌,
}
use artifact_depot.Base.Bytes.{Bytes, bytes_lt}
use artifact_depot.Kv.{KvStore, KvLaws, in_range, select}
use artifact_depot.Kv.Sorted.{bytes_lt_trans, bytes_lt_irrefl}
use artifact_depot.Service.Scan.{last_key, next_start}
use artifact_depot.Service.Scan.Complete.{AllBytes, length-select}
use artifact_depot.Service.Scan.Rounds.{
  next_round, last-take-some, last-take_selected, bytes_lt-next_start,
}
use artifact_depot.Service.Stream.{
  ShardStream, keep, fetch, ensure_buffered, must_fetch, peek, head, start_behind, advance,
}
use artifact_depot.Service.Stream.Fetch.{IsBounded, unread, remaining, range-from, fetch-remaining}

module _ {V : Type 0} (kv : KvStore V) (laws : KvLaws kv) (lower_contains : Bytes → Bytes → Bool)
    (is_utf8 : Bytes → Bool) (store : kv.State) (table : Bytes) where
  abbrev left_over : ShardStream V → List (Bytes × V)
  left_over = unread kv laws lower_contains is_utf8 store table

  abbrev pub yields : ShardStream V → List (Bytes × V)
  yields = remaining kv laws lower_contains is_utf8 store table

  abbrev measure : ShardStream V → ℕ
  measure s = if s.exhausted then 0 else suc (length (left_over s))

  starts_behind :
      (s : ShardStream V) (o : Option Bytes)
      → IsBounded is_utf8 s
      → last_key (take s.batch_size (left_over s)) ≡ o
      → bytes_lt (start_behind o s.next_start) s.sk_prefix ≡ false
  starts_behind s none h last = h.starts
  starts_behind s (some l) h last =
      let within =
        last-take_selected (in_range s.next_start s.sk_end) s.batch_size
          (kv.entries store table s.pk) l last in
      let from =
        range-from kv laws lower_contains is_utf8 store table s.sk_prefix s.next_start l s.sk_end
          h.starts within in
      ground (
        arith,
        bytes_lt-next_start l l,
        bytes_lt_irrefl l,
        bytes_lt_trans l (next_start l) s.sk_prefix,
      )

  fetch-IsBounded :
      (s : ShardStream V)
      → IsBounded is_utf8 s
      → IsBounded is_utf8 (fetch lower_contains kv store table s)
  unfolding fetch
  fetch-IsBounded s h = record {
    ends = h.ends;
    starts =
        rw (laws.scan_range_lem store table s.pk s.next_start s.sk_end s.batch_size)
          (starts_behind s (last_key (take s.batch_size (left_over s))) h refl);
    batch = h.batch;
  }

  smaller :
      (s : ShardStream V) (past : Bool)
      → 0 < s.batch_size
      → (if leb (length (left_over s)) s.batch_size || past
          then 0
          else suc (
              length (
                select
                  (in_range
                    (start_behind (last_key (take s.batch_size (left_over s))) s.next_start)
                    s.sk_end)
                  (kv.entries store table s.pk))))
        < suc (length (left_over s))
  smaller s true pos = elim (Bool-cases (leb (length (left_over s)) s.batch_size)) [
    | inl done ↦ rw done (omega arith)
    | inr on ↦ rw on (omega arith)
  ]
  smaller s false pos = elim (Bool-cases (leb (length (left_over s)) s.batch_size)) [
    | inl done ↦ rw done (omega arith)
    | inr on ↦
        (let (l, last) = last-take-some s.batch_size (left_over s) pos (ground arith) in
          let next =
            next_round s.next_start s.sk_end s.batch_size (kv.entries store table s.pk) l
              (laws.entries-IsSorted store table s.pk) last in
          rw (on, last, next) (ground (arith, length-drop {0} s.batch_size (left_over s))))
  ]

  fetch-measure :
      (s : ShardStream V)
      → IsBounded is_utf8 s
      → must_fetch lower_contains kv store table s ≡ true
      → measure (fetch lower_contains kv store table s) < measure s
  unfolding fetch
  fetch-measure s h must =
      rw (laws.scan_range_lem store table s.pk s.next_start s.sk_end s.batch_size, fresh)
        (smaller s (keep lower_contains s.sk_prefix s.filter (take s.batch_size (left_over s))).1
          h.batch)
    where
      fresh : s.exhausted ≡ false
      fresh = ground arith

  -- `t` is `s` with its buffer filled.
  pub record IsReady (s t : ShardStream V) : Type 0 where
    pub same : yields t ≡ yields s
    pub bounded : IsBounded is_utf8 t
    pub shows : peek t ≡ head (yields t)
    pub same_pk : t.pk ≡ s.pk

  shown :
      (xs : List (Bytes × V)) (n : ℕ) (ys : List (Bytes × V))
      → (leb (length xs) n ≡ false) ⊎ (ys ≡ [])
      → head (drop n xs) ≡ head (drop n xs ++ ys)
  shown [] n ys (inl h) = absurd (ground arith)
  shown [] zero ys (inr e) = rw e
  shown [] (suc n) ys (inr e) = rw e
  shown (x ∷ xs) zero ys h = refl
  shown (x ∷ xs) (suc n) ys (inl h) = shown xs n ys (inl (ground arith))
  shown (x ∷ xs) (suc n) ys (inr e) = shown xs n ys (inr e)

  full-shows :
      (s : ShardStream V)
      → must_fetch lower_contains kv store table s ≡ false
      → peek s ≡ head (yields s)
  full-shows s must = elim (Bool-cases s.exhausted) [
    | inl e ↦ shown s.buffer s.buf_idx _ (inr (rw e))
    | inr e ↦ shown s.buffer s.buf_idx _ (inl (ground arith))
  ]

  pub ensure_buffered-IsReady :
      (fuel : ℕ) (s : ShardStream V)
      → IsBounded is_utf8 s
      → AllBytes (kv.entries store table s.pk)
      → measure s < fuel
      → (t : ShardStream V) × (ensure_buffered lower_contains kv store table fuel s ≡ some t)
        × IsReady s t
  unfolding ensure_buffered
  ensure_buffered-IsReady zero s h bytes m = absurd (omega arith)
  ensure_buffered-IsReady (suc fuel) s h bytes m =
      elim (Bool-cases (must_fetch lower_contains kv store table s)) [
        | inr full ↦ (
          s,
          rw full,
          record { same = refl; bounded = h; shows = full-shows s full; same_pk = refl },
        )
        | inl must ↦
            (let s' = fetch lower_contains kv store table s in
              let same =
                fetch-remaining kv laws lower_contains is_utf8 store table s h bytes must in
              let (t, e, r) =
                ensure_buffered-IsReady fuel s' (fetch-IsBounded s h) (fetch_bytes bytes)
                  (omega (arith, fetch-measure s h must)) in
              (
                t,
                rw must e,
                record {
                  same = r.same ∙ same;
                  bounded = r.bounded;
                  shows = r.shows;
                  same_pk = r.same_pk ∙ fetch_pk;
                },
              ))
      ]
    where
      fetch_pk : (fetch lower_contains kv store table s).pk ≡ s.pk
      fetch_pk = unfold fetch in refl

      fetch_bytes :
          AllBytes (kv.entries store table s.pk)
          → AllBytes (kv.entries store table (fetch lower_contains kv store table s).pk)
      fetch_bytes b = unfold fetch in b

  tail_of :
      (xs : List (Bytes × V)) (n : ℕ) (ys : List (Bytes × V)) (k : Bytes) (v : V)
      (rest : List (Bytes × V))
      → head (drop n xs) ≡ some (k, v)
      → drop n xs ++ ys ≡ (k, v) ∷ rest
      → drop (suc n) xs ++ ys ≡ rest
  tail_of [] zero ys k v rest at e = cc
  tail_of [] (suc n) ys k v rest at e = cc
  tail_of (x ∷ xs) zero ys k v rest at e = cc
  tail_of (x ∷ xs) (suc n) ys k v rest at e = tail_of xs n ys k v rest at e

  -- Taking the entry that is shown.
  pub advance-yields :
      (s : ShardStream V) (k : Bytes) (v : V) (rest : List (Bytes × V))
      → peek s ≡ some (k, v)
      → yields s ≡ (k, v) ∷ rest
      → yields (advance s) ≡ rest
  advance-yields s k v rest at e =
      let up : s.buf_idx + 1 ≡ suc s.buf_idx = omega arith in
      rw up (tail_of s.buffer s.buf_idx _ k v rest at e)

  pub advance-IsBounded : (s : ShardStream V) → IsBounded is_utf8 s → IsBounded is_utf8 (advance s)
  advance-IsBounded s h = record { ends = h.ends; starts = h.starts; batch = h.batch }

  -- More rounds than entries are always enough.
  pub measure-bound : (s : ShardStream V) → measure s ≤ suc (length (kv.entries store table s.pk))
  measure-bound s =
      ground (arith, length-select (in_range s.next_start s.sk_end) (kv.entries store table s.pk))
