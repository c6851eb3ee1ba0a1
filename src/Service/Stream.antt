-- ===== src/Service/Stream.antt =====
-- `ShardStream` of core/src/service/pagination.rs: the entries of one partition in batches, as far
-- as they have the prefix and match the query. `lower_contains sk q` stands for
-- `sk.to_lowercase().contains(q)` of the standard library.
pub mod Fetch
pub mod Buffered
use artifact_depot.Base.{
  ℕ, zero, suc, ◌+◌, Bool, true, false, not, ◌&&◌, ◌||◌, List, [], ◌∷◌, Option, some, none, ltb,
  leb, if◌then◌else◌, length, drop,
}
use artifact_depot.Base.Bytes.{Bytes, is_empty, starts_with}
use artifact_depot.Kv.{KvStore}
use artifact_depot.Service.Scan.{prefix_end, last_key, next_start}

pub record ShardStream (V : Type 0) : Type 0 where
  pub pk : Bytes
  pub sk_prefix : Bytes
  pub sk_end : Option Bytes
  pub buffer : List (Bytes × V)
  pub buf_idx : ℕ
  pub next_start : Bytes
  pub exhausted : Bool
  pub filter : Option Bytes
  pub batch_size : ℕ

abbrev pub new_stream :
    {V : Type 0} → (Bytes → Bool) → Bytes → Bytes → Bytes → Option Bytes → ℕ → ShardStream V
new_stream is_utf8 pk sk_prefix scan_start filter batch_size = record {
  pk = pk;
  sk_prefix = sk_prefix;
  sk_end = prefix_end is_utf8 sk_prefix;
  buffer = [];
  buf_idx = 0;
  next_start = scan_start;
  exhausted = false;
  filter = filter;
  batch_size = batch_size;
}

abbrev pub head {ℓ} : {A : Type ℓ} → List A → Option A
head [] = none
head (x ∷ xs) = some x

-- The item at `buf_idx`.
abbrev pub peek : {V : Type 0} → ShardStream V → Option (Bytes × V)
peek s = head (drop s.buf_idx s.buffer)

abbrev pub advance : {V : Type 0} → ShardStream V → ShardStream V
advance s = record s { buf_idx = s.buf_idx + 1 }

abbrev pub start_behind : Option Bytes → Bytes → Bytes
start_behind none start = start
start_behind (some last_sk) start = next_start last_sk

module _ (lower_contains : Bytes → Bytes → Bool) where
  abbrev pub matches : Option Bytes → Bytes → Bool
  matches none sk = true
  matches (some query) sk = lower_contains sk query

  -- The loop over a batch: the entries kept, and `past_prefix`.
  unfoldable pub keep :
      {V : Type 0} → Bytes → Option Bytes → List (Bytes × V) → List (Bytes × V) × Bool
  keep sk_prefix filter [] = ([], false)
  keep sk_prefix filter ((sk, v) ∷ items) =
      let (kept, past) = keep sk_prefix filter items in
      if not (is_empty sk_prefix) && not (starts_with sk_prefix sk)
      then ([], true)
      else (if matches filter sk then (sk, v) ∷ kept else kept, past)

  module _ {V : Type 0} (kv : KvStore V) (store : kv.State) (table : Bytes) where
    -- One round of `ensure_buffered`.
    unfoldable pub fetch : ShardStream V → ShardStream V
    unfolding keep
    fetch s =
        let result = kv.scan_range store table s.pk s.next_start s.sk_end s.batch_size in
        let (filtered, past_prefix) = keep s.sk_prefix s.filter result.items in
        record s {
          buffer = filtered;
          buf_idx = 0;
          next_start = start_behind (last_key result.items) s.next_start;
          exhausted = result.done || past_prefix;
        }

    abbrev pub must_fetch : ShardStream V → Bool
    must_fetch s = leb (length s.buffer) s.buf_idx && not s.exhausted

    -- On fuel for the rounds; `none` is out of fuel.
    unfoldable pub ensure_buffered : ℕ → ShardStream V → Option (ShardStream V)
    unfolding fetch
    ensure_buffered zero s = none
    ensure_buffered (suc fuel) s =
        let rest = ensure_buffered fuel (fetch s) in if must_fetch s then rest else some s
