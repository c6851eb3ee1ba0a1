-- ===== src/Service/Merge.antt =====
-- `k_way_merge` of core/src/service/pagination.rs. The standard library's heap is a list in the
-- order of `HeapEntry`; an entry carries its stream, which the source keeps in a slice at
-- `stream_idx`.
pub mod Heap
pub mod Order
pub mod Union
pub mod Listed
pub mod Primed
use artifact_depot.Base.{
  ℕ, zero, suc, ◌+◌, Bool, true, false, not, ◌&&◌, ◌||◌, List, [], ◌∷◌, ◌++◌, Option, some, none,
  ltb, leb, ◌==◌, if◌then◌else◌, length,
}
use artifact_depot.Base.Bytes.{Bytes, bytes_lt, bytes_eq}
use artifact_depot.Kv.{KvStore}
use artifact_depot.Kv.Codec.{Codec}
use artifact_depot.Service.Error.{Result, ok, err}
use artifact_depot.Service.Stream.{ShardStream, peek, advance, ensure_buffered}

pub record HeapEntry (V : Type 0) : Type 0 where
  pub sk : Bytes
  pub stream_idx : ℕ
  pub stream : ShardStream V

-- `cmp`: by the sort key, then by the index.
abbrev pub entry_lt : {V : Type 0} → HeapEntry V → HeapEntry V → Bool
entry_lt a b = bytes_lt a.sk b.sk || (bytes_eq a.sk b.sk && ltb a.stream_idx b.stream_idx)

unfoldable pub push : {V : Type 0} → HeapEntry V → List (HeapEntry V) → List (HeapEntry V)
push e [] = e ∷ []
push e (x ∷ heap) = let rest = push e heap in if entry_lt e x then e ∷ x ∷ heap else x ∷ rest

-- A stream goes into the heap if it shows an entry.
abbrev pub push_shown :
    {V : Type 0} → ℕ → ShardStream V → Option (Bytes × V) → List (HeapEntry V) → List (HeapEntry V)
push_shown i s none heap = heap
push_shown i s (some (sk, v)) heap = push (record { sk = sk; stream_idx = i; stream = s }) heap

-- The entry popped: a stream that shows nothing is passed over.
unfoldable pub on_shown {ℓ} :
    {V : Type 0} {R : Type ℓ} → Option (Bytes × V) → R → (Bytes → V → R) → R
on_shown none next shown = next
on_shown (some (path, value)) next shown = shown path value

abbrev pub with_ready {ℓ} :
    {V : Type 0} {R : Type ℓ} → Option (ShardStream V) → (ShardStream V → Option R) → Option R
with_ready none k = none
with_ready (some s) k = k s

abbrev pub pushed :
    {V : Type 0} → ℕ → ShardStream V → Option (List (HeapEntry V)) → Option (List (HeapEntry V))
pushed i s none = none
pushed i s (some heap) = some (push_shown i s (peek s) heap)

-- `path <= cp`
abbrev pub at_or_before : Option Bytes → Bytes → Bool
at_or_before none path = false
at_or_before (some cp) path = not (bytes_lt cp path)

-- The results behind a record: too many end the loop.
abbrev pub collect :
    {T : Type 0}
    → ℕ
    → Bytes
    → Result T
    → List (Bytes × T)
    → (List (Bytes × T) → Option (Result (List (Bytes × T))))
    → Option (Result (List (Bytes × T)))
collect limit path (err e) results next = some (err e)
collect limit path (ok r) results next =
    let results' = results ++ (path, r) ∷ [] in
    if ltb limit (length results') then some (ok results') else next results'

module _ {T V : Type 0} (codec : Codec T V) (lower_contains : Bytes → Bytes → Bool) (kv : KvStore V)
    (rounds : ℕ) (store : kv.State) (table : Bytes) where
  abbrev pub ready : ShardStream V → Option (ShardStream V)
  ready s = ensure_buffered lower_contains kv store table rounds s

  -- Priming the streams and building the heap; `i` is the index of the first.
  unfoldable pub prime : ℕ → List (ShardStream V) → Option (List (HeapEntry V))
  unfolding push
  prime i [] = some []
  prime i (s ∷ streams) = with_ready (ready s) (λ s'. pushed i s' (prime (i + 1) streams))

  -- The loop, on fuel for its rounds.
  unfoldable pub merge_loop :
      ℕ
      → Option Bytes
      → ℕ
      → ℕ
      → List (HeapEntry V)
      → ℕ
      → List (Bytes × T)
      → Option (Result (List (Bytes × T)))
  unfolding push on_shown
  merge_loop zero cursor_path skip limit heap skipped results = none
  merge_loop (suc fuel) cursor_path skip limit [] skipped results = some (ok results)
  merge_loop (suc fuel) cursor_path skip limit (entry ∷ heap) skipped results =
      on_shown (peek entry.stream) (merge_loop fuel cursor_path skip limit heap skipped results)
        (λ path value. with_ready (ready (advance entry.stream)) (λ s'.
          let heap' = push_shown entry.stream_idx s' (peek s') heap in
          let passed = merge_loop fuel cursor_path skip limit heap' skipped results in
          let counted = merge_loop fuel cursor_path skip limit heap' (skipped + 1) results in
          let taken =
            collect limit path (codec.from_slice value) results
              (λ results'. merge_loop fuel cursor_path skip limit heap' skipped results') in
          if at_or_before cursor_path path
          then passed
          else if ltb skipped skip
          then counted
          else taken))

  abbrev pub from_heap :
      ℕ → Option Bytes → ℕ → ℕ → Option (List (HeapEntry V)) → Option (Result (List (Bytes × T)))
  from_heap fuel cursor_path skip limit none = none
  from_heap fuel cursor_path skip limit (some heap) =
      merge_loop fuel cursor_path skip limit heap 0 []

  unfoldable pub k_way_merge :
      ℕ → List (ShardStream V) → Option Bytes → ℕ → ℕ → Option (Result (List (Bytes × T)))
  unfolding prime merge_loop
  k_way_merge fuel streams cursor_path skip limit =
      from_heap fuel cursor_path skip limit (prime 0 streams)
