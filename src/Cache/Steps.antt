-- ===== src/Cache/Steps.antt =====
-- cache/cache.go under concurrency: the critical sections of the callers, of the background ticker
-- and of the purges that lookups schedule, in any order. The two locked parts of WriteThruLookup
-- and of mark are separate steps, and what waits between them is part of the state.
pub mod Safety
pub mod Live
pub mod Coalescing
use go_bananas.Base.{
  ℕ, suc, ◌+◌, ◌^◌, ◌≤◌, ◌<◌, ◌≡◌, Bool, true, Option, none, some, Bytes, List, [], ◌∷◌, ◌++◌,
  if◌then◌else◌,
}
use go_bananas.Base.Int.{ℤ}
use go_bananas.Base.Result.{Result}
use go_bananas.Cache.{
  Cache, unix_nano, lookup, set, clear, collect, sweep, purge_expired, write_locked,
}

pub record World (A : Type 0) : Type 0 where
  pub cache : Cache A
  pub now : ℕ
  -- purgeExpired goroutines that have not run yet
  pub purges : List (Bytes × ℤ)
  -- calls of mark between their two locks, with the keys collected
  pub sweeps : List (ℤ × List Bytes)
  -- calls of WriteThruLookup that have missed and wait for the write lock
  pub waiting : List Bytes
  -- the names for which primaryLookup was run
  pub calls : List Bytes

abbrev pub schedule : Option (Bytes × ℤ) → List (Bytes × ℤ) → List (Bytes × ℤ)
schedule none ps = ps
schedule (some p) ps = p ∷ ps

abbrev pub log_call : Bool → Bytes → List Bytes → List Bytes
log_call b name calls = if b then name ∷ calls else calls

-- The write-locked part of WriteThruLookup, with primaryLookup returning at `later`.
abbrev pub after_write : {A : Type 0} → World A → Bytes → Result Bytes A → ℕ → List Bytes → World A
after_write w name primary later waiting = record w {
  cache = (write_locked w.cache name w.now primary later).cache;
  now = later;
  purges = schedule (write_locked w.cache name w.now primary later).purge w.purges;
  waiting = waiting;
  calls = log_call (write_locked w.cache name w.now primary later).called name w.calls;
}

-- What the background does to the cache.
pub data Background {A : Type 0} (w w' : World A) : Type 0 where
  purge :
      (name : Bytes) (e : ℤ) (before after : List (Bytes × ℤ))
      → w.purges ≡ before ++ (name, e) ∷ after
      → w' ≡ record w { cache = purge_expired w.cache name e; purges = before ++ after }
      → Background w w'
  delete_swept :
      (t : ℤ) (keys : List Bytes) (before after : List (ℤ × List Bytes))
      → w.sweeps ≡ before ++ (t, keys) ∷ after
      → w' ≡ record w {
        cache = record w.cache { data_map = sweep t keys w.cache.data_map };
        sweeps = before ++ after;
      }
      → Background w w'

-- The steps of the other threads, but for Clear. The clock only moves forward, up to the year 2262.
pub data Step {A : Type 0} (w w' : World A) : Type 0 where
  background : Background w w' → Step w w'
  tick : (n : ℕ) → w.now ≤ n → n < 2 ^ 63 → w' ≡ record w { now = n } → Step w w'
  tick_mark :
      (t : ℕ)
      → t ≤ w.now
      → w' ≡ record w { sweeps = (unix_nano t, collect (unix_nano t) w.cache.data_map) ∷ w.sweeps }
      → Step w w'
  look_up :
      (name : Bytes)
      → w' ≡ record w { purges = schedule (lookup w.cache name w.now).1 w.purges }
      → Step w w'
  store : (name : Bytes) (v : A) → w' ≡ record w { cache = set w.cache name v w.now } → Step w w'
  miss :
      (name : Bytes)
      → (lookup w.cache name w.now).0 ≡ none
      → w' ≡ record w {
        purges = schedule (lookup w.cache name w.now).1 w.purges;
        waiting = name ∷ w.waiting;
      }
      → Step w w'
  write_thru :
      (name : Bytes) (primary : Result Bytes A) (later : ℕ) (before after : List Bytes)
      → w.waiting ≡ before ++ name ∷ after
      → w.now ≤ later
      → later < 2 ^ 63
      → w' ≡ after_write w name primary later (before ++ after)
      → Step w w'

pub data Run {A : Type 0} (w : World A) : World A → Type 0 where
  here : Run w w
  next : {v u : World A} → Run w v → Step v u → Run w u
