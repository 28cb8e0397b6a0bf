-- ===== src/Cache.antt =====
-- cache/cache.go: the TTL cache. Time is a count of nanoseconds since 1970; `UnixNano` wraps it to
-- an int64. Each operation is one critical section; Cache/Steps.antt interleaves them.
pub mod Lookup
pub mod Sweep
pub mod Stop
pub mod Steps
mod Tests
use go_bananas.Base.{
  ℕ, ◌+◌, ◌-◌, ◌/◌, ◌%◌, ◌^◌, Bool, true, false, ◌&&◌, Option, none, some, List, [], ◌∷◌, ltb, eqb,
  if◌then◌else◌, length, Bytes, bytes_eq,
}
use go_bananas.Base.Dict
use go_bananas.Base.Dict.{Dict}
use go_bananas.Base.Int.{ℤ, pos, negsuc, ltb_ℤ, eqb_ℤ}
use go_bananas.Base.Result.{Result, ok, err, panic, ◌>>=◌}

-- time.Time.UnixNano: the count of nanoseconds as a signed 64-bit integer
unfoldable pub unix_nano : ℕ → ℤ
unix_nano t = let n = t % 2 ^ 64 in if ltb n (2 ^ 63) then pos n else negsuc (2 ^ 64 - 1 - n)

-- time.Second, in nanoseconds
abbrev pub second : ℕ
second = 1000000000

pub data Error : Type 0 where
  invalid_duration : Error

pub record Item (A : Type 0) : Type 0 where
  pub object : A
  pub expires_at : ℤ

pub record Cache (A : Type 0) : Type 0 where
  pub data_map : Dict Bytes (Item A)
  pub expire_after : ℕ
  pub interval : ℕ
  pub ticking : Bool
  pub stop_called : Bool
  pub stop_chan_closed : Bool

-- time.NewTicker panics unless the interval is positive.
unfoldable pub new_ticker : ℕ → Result Error ℕ
new_ticker n = if eqb n 0 then panic else ok n

module _ {A : Type 0} where
  unfoldable pub expired : Item A → ℕ → Bool
  expired i now = ltb_ℤ i.expires_at (unix_nano now)

  -- New; a negative duration is refused before anything else is done.
  unfoldable pub new : ℤ → Result Error (Cache A)
  unfolding new_ticker
  new (negsuc n) = err invalid_duration
  new (pos d) = do
    t ← new_ticker (if eqb (d / 2) 0 then second else d / 2)
    ok (record {
      data_map = [];
      expire_after = d;
      interval = t;
      ticking = true;
      stop_called = false;
      stop_chan_closed = false;
    })

  -- lookup: the value if there is a live one, and the purge that an expired entry schedules.
  unfoldable pub lookup : Cache A → Bytes → ℕ → Option A × Option (Bytes × ℤ)
  unfolding expired
  lookup c name now = elim (Dict.lookup name c.data_map) [
    | none ↦ (none, none)
    | some i ↦ if expired i now then (none, some (name, i.expires_at)) else (some i.object, none)
  ]

  abbrev pub new_item : Cache A → A → ℕ → Item A
  new_item c object now = record { object = object; expires_at = unix_nano (now + c.expire_after) }

  -- Set, and the assignment at the end of WriteThruLookup
  unfoldable pub set : Cache A → Bytes → A → ℕ → Cache A
  set c name object now = record c {
    data_map = Dict.insert name (new_item c object now) c.data_map;
  }

  unfoldable pub clear : Cache A → Cache A
  clear c = record c { data_map = [] }

  unfoldable pub size : Cache A → ℕ
  size c = length c.data_map

  -- purgeExpired
  unfoldable pub purge_expired : Cache A → Bytes → ℤ → Cache A
  purge_expired c name expected = elim (Dict.lookup name c.data_map) [
    | none ↦ c
    | some i ↦
        if eqb_ℤ i.expires_at expected
        then record c { data_map = Dict.delete name c.data_map }
        else c
  ]

  -- mark, under the read lock: the keys of the entries that have expired by t.
  unfoldable pub collect : ℤ → Dict Bytes (Item A) → List Bytes
  collect t [] = []
  collect t ((k, v) ∷ m) = let rest = collect t m in if ltb_ℤ v.expires_at t then k ∷ rest else rest

  -- one round of mark's loop under the write lock
  unfoldable pub sweep_key : ℤ → Bytes → Dict Bytes (Item A) → Dict Bytes (Item A)
  sweep_key t k m = elim (Dict.lookup k m) [
    | none ↦ m
    | some v ↦ if ltb_ℤ v.expires_at t then Dict.delete k m else m
  ]

  -- mark, under the write lock; with no key to delete it is not taken, and nothing changes.
  unfoldable pub sweep : ℤ → List Bytes → Dict Bytes (Item A) → Dict Bytes (Item A)
  unfolding sweep_key
  sweep t [] m = m
  sweep t (k ∷ ks) m = sweep t ks (sweep_key t k m)

  -- mark with nothing between its two locks
  unfoldable pub mark : Cache A → ℤ → Cache A
  unfolding sweep collect
  mark c t = record c { data_map = sweep t (collect t c.data_map) c.data_map }

  -- close(ch) panics on a closed channel.
  unfoldable pub close_stop : Cache A → Result Error (Cache A)
  close_stop c = if c.stop_chan_closed then panic else ok (record c { stop_chan_closed = true })

  -- Stop; the once guard is `stop_called`.
  unfoldable pub stop : Cache A → Result Error (Cache A)
  unfolding close_stop
  stop c =
      let halted = record c { ticking = false } in
      if c.stop_called then ok halted else close_stop (record halted { stop_called = true })

-- What WriteThruLookup returns: a cached value, a computed one, or what primaryLookup failed with.
pub data Reply (E A : Type 0) : Type 0 where
  hit : A → Reply E A
  computed : A → Reply E A
  failed : E → Reply E A
  panicked : Reply E A

-- The cache after the write-locked part of WriteThruLookup, the reply, the purge that it
-- schedules, and whether primaryLookup was run.
pub record Outcome (E A : Type 0) : Type 0 where
  pub cache : Cache A
  pub reply : Reply E A
  pub purge : Option (Bytes × ℤ)
  pub called : Bool

module _ {E A : Type 0} where
  -- What follows the second lookup, given what it found and the purge that it scheduled:
  -- primaryLookup is run on a miss and returns at `later`; its value is stored.
  unfoldable pub settle :
      Cache A → Bytes → Option (Bytes × ℤ) → Option A → Result E A → ℕ → Outcome E A
  settle c name purge (some v) primary later = record {
    cache = c;
    reply = hit v;
    purge = purge;
    called = false;
  }
  settle c name purge none (ok v) later = record {
    cache = set c name v later;
    reply = computed v;
    purge = purge;
    called = true;
  }
  settle c name purge none (err e) later = record {
    cache = c;
    reply = failed e;
    purge = purge;
    called = true;
  }
  settle c name purge none panic later = record {
    cache = c;
    reply = panicked;
    purge = purge;
    called = true;
  }

  -- The write-locked part, entered at `now`.
  unfoldable pub write_locked : Cache A → Bytes → ℕ → Result E A → ℕ → Outcome E A
  unfolding settle
  write_locked c name now primary later =
      let (found, purge) = lookup c name now in settle c name purge found primary later

  -- WriteThruLookup with no other thread between its two locks; the read lock is taken at `now`,
  -- the write lock at `locked`.
  unfoldable pub write_thru_lookup : Cache A → Bytes → ℕ → ℕ → Result E A → ℕ → Outcome E A
  write_thru_lookup c name now locked primary later = elim ((lookup c name now).0) [
    | some v ↦ record { cache = c; reply = hit v; purge = (lookup c name now).1; called = false }
    | none ↦ write_locked c name locked primary later
  ]
