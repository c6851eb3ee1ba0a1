-- ===== src/Inflight.antt =====
-- core/src/inflight.rs, and how `CacheRepo::get` of core/src/repo/cache.rs uses it: of the callers
-- that miss the cache for one key, one leads and the others wait. A `Notify` is a number; the
-- shards of the map, each under a lock of its own, are one association list.
pub mod Exclusive
pub mod Stranded
use artifact_depot.Base.{ℕ, ◌+◌, ◌≡◌, Bool, List, [], ◌∷◌, Option, some, none, ◌==◌, if◌then◌else◌}
use artifact_depot.Base.Bytes.{Bytes, bytes_eq}

abbrev pub Notifies : Type 0
Notifies = List (Bytes × ℕ)

-- `snapshot.get(key)`
unfoldable pub get_notify : Bytes → Notifies → Option ℕ
get_notify key [] = none
get_notify key ((k, n) ∷ m) = if bytes_eq k key then some n else get_notify key m

-- `new.remove(&self.key)`
unfoldable pub remove_notify : Bytes → Notifies → Notifies
remove_notify key [] = []
remove_notify key ((k, n) ∷ m) =
    let rest = remove_notify key m in if bytes_eq k key then rest else (k, n) ∷ rest

-- A caller: `told` has the notify of the leader and has not called `notified` yet.
pub data Caller : Type 0 where
  idle finished : Caller
  leading : (key : Bytes) (n : ℕ) → Caller
  told listening : (n : ℕ) → Caller

pub record World : Type 0 where
  pub notifies : Notifies
  -- the number of the next `Notify::new`
  pub next : ℕ
  pub caller : ℕ → Caller

abbrev pub set_caller : ℕ → Caller → (ℕ → Caller) → ℕ → Caller
set_caller i c callers j = if j == i then c else callers j

abbrev pub claimed : ℕ → Bytes → World → Option ℕ → World
claimed i key w (some n) = record w { caller = set_caller i (told n) w.caller }
claimed i key w none = record {
  notifies = (key, w.next) ∷ w.notifies;
  next = w.next + 1;
  caller = set_caller i (leading key w.next) w.caller;
}

unfoldable pub try_claim : ℕ → Bytes → World → World
unfolding get_notify
try_claim i key w = claimed i key w (get_notify key w.notifies)

-- `notify_waiters` wakes who listens by now.
abbrev pub woken : ℕ → Caller → Caller
woken n (listening m) = if m == n then finished else listening m
woken n other = other

-- The guard of caller `i` is dropped.
unfoldable pub drop_guard : ℕ → Bytes → ℕ → World → World
unfolding remove_notify
drop_guard i key n w = record w {
  notifies = remove_notify key w.notifies;
  caller = set_caller i finished (λ j. woken n (w.caller j));
}

-- One step of one caller.
pub data Step : World → World → Type 0 where
  claim : (w : World) (i : ℕ) (key : Bytes) → w.caller i ≡ idle → Step w (try_claim i key w)
  listen :
      (w : World) (i n : ℕ)
      → w.caller i ≡ told n
      → Step w (record w { caller = set_caller i (listening n) w.caller })
  release :
      (w : World) (i : ℕ) (key : Bytes) (n : ℕ)
      → w.caller i ≡ leading key n
      → Step w (drop_guard i key n w)
  again :
      (w : World) (i : ℕ)
      → w.caller i ≡ finished
      → Step w (record w { caller = set_caller i idle w.caller })

pub data Steps : World → World → Type 0 where
  stay : (w : World) → Steps w w
  onward : (u v w : World) → Step u v → Steps v w → Steps u w

abbrev pub nobody : World
nobody = record { notifies = []; next = 0; caller = λ i. idle }
