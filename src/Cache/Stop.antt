-- ===== src/Cache/Stop.antt =====
-- cache/cache.go: construction and Stop.
use go_bananas.Base.{ℕ, zero, suc, ◌/◌, ◌<◌, ◌≡◌, refl, true, false, arith, if◌then◌else◌, eqb, []}
use go_bananas.Base.Int.{pos, negsuc}
use go_bananas.Base.Result.{Result, ok, err, ◌>>=◌}
use go_bananas.Cache.{Cache, Error, invalid_duration, second, new, stop}

-- Stop, n times
unfoldable pub stops : {A : Type 0} → ℕ → Cache A → Result Error (Cache A)
stops zero c = ok c
stops (suc n) c = do c' ← stop c; stops n c'

abbrev pub stopped : {A : Type 0} → Cache A → Cache A
stopped c = record c { ticking = false; stop_called = true; stop_chan_closed = true }

module _ {A : Type 0} where
  stop_first :
      (c : Cache A) → c.stop_called ≡ false → c.stop_chan_closed ≡ false → stop c ≡ ok (stopped c)
  unfolding stop
  stop_first c h k = ground arith

  stops-stopped : (n : ℕ) (c : Cache A) → stops n (stopped c) ≡ ok (stopped c)
  unfolding stops stop
  stops-stopped zero c = refl
  stops-stopped (suc n) c = stops-stopped n c

  abbrev pub started : ℕ → Cache A
  started n = record {
    data_map = [];
    expire_after = n;
    interval = if eqb (n / 2) 0 then second else n / 2;
    ticking = true;
    stop_called = false;
    stop_chan_closed = false;
  }

  new-started : (n : ℕ) → new (pos n) ≡ ok (started n)
  unfolding new
  new-started n = ground arith

  -- New never panics: a negative duration is refused, and for any other the ticker gets a positive
  -- interval. A Stop called one or more times on the new cache does not panic either: the channel
  -- is closed once, the ticker stands, and the entries are left alone.
  pub stops-new :
      (d n : ℕ)
      → (new {A = A} (negsuc d) ≡ err invalid_duration)
        × (new (pos d) ≡ ok (started d))
        × (0 < (started d).interval)
        × (stops (suc n) (started d) ≡ ok (stopped (started d)))
  unfolding stops
  stops-new d n = (
    (unfold new in refl),
    new-started d,
    ground arith,
    rw (stop_first (started d) refl refl) (stops-stopped n (started d)),
  )
