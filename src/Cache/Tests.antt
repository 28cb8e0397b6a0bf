-- ===== src/Cache/Tests.antt =====
-- Runs of the cache at concrete times, and the theorems at inputs that meet their hypotheses.
use go_bananas.Base.{
  ℕ, ◌+◌, ◌<◌, ◌≡◌, refl, none, some, [], ◌∷◌, arith, Bytes, codes, if◌then◌else◌, bytes_eq, ◌==◌,
  list_beq,
}
use go_bananas.Base.Dict
use go_bananas.Base.Int.{pos, negsuc, ltb_ℤ}
use go_bananas.Base.Result.{ok, err}
use go_bananas.Cache.{
  Cache, unix_nano, lookup, set, mark, write_locked, write_thru_lookup, purge_expired,
  invalid_duration, new, computed, hit,
}
use go_bananas.Cache.Lookup.{lookup-set}
use go_bananas.Cache.Sweep.{lookup-mark, unless_expired}
use go_bananas.Cache.Stop.{started, stopped, stops, stops-new}
use go_bananas.Cache.Steps.{World, purge, tick, here, next, after_write}
use go_bananas.Cache.Steps.Safety.{lookup-Background}
use go_bananas.Cache.Steps.Live.{IsHit}
use go_bananas.Cache.Steps.Coalescing.{calls_for, primary_runs_once}

program : Unit {0}
unfolding lookup set mark write_locked write_thru_lookup purge_expired new unix_nano Dict.lookup
    Dict.insert Dict.delete list_beq
program = tt

abbrev key : Bytes
key = codes "a"

abbrev fresh : Cache ℕ
fresh = started 100

-- Stored at 0 for 100 nanoseconds: found at 100, not at 101.
set_tests :
    (lookup (set fresh key 7 0) key 100 ≡ (some 7, none))
    × (lookup (set fresh key 7 0) key 101 ≡ (none, some (key, pos 100)))
    × (mark (set fresh key 7 0) (pos 100) ≡ set fresh key 7 0)
    × (mark (set fresh key 7 0) (pos 101) ≡ fresh)
unfolding program
set_tests = (refl, refl, refl, refl)

write_thru_tests :
    ((write_thru_lookup {E = Bytes} fresh key 5 6 (ok 7) 8).reply ≡ computed 7)
    × ((write_thru_lookup {E = Bytes} (set fresh key 9 0) key 5 6 (ok 7) 8).reply ≡ hit 9)
unfolding program
write_thru_tests = (refl, refl)

-- A deadline past the year 2262 wraps to a negative int64: the entry is expired when it is stored.
overflow_test :
    lookup (set (started {A = ℕ} 9223372036854775807) key 7 1) key 1
    ≡ (none, some (key, negsuc 9223372036854775807))
unfolding program
overflow_test = refl

lookup-set_example : (lookup (set fresh key 7 0) key 50).0 ≡ (
    if key == key
    then if ltb_ℤ (unix_nano (0 + 100)) (unix_nano 50) then none else some 7
    else (lookup fresh key 50).0)
lookup-set_example = lookup-set fresh key key 7 0 50

lookup-mark_example :
    Dict.lookup key (mark (set fresh key 7 0) (pos 101)).data_map
    ≡ unless_expired (pos 101) (Dict.lookup key (set fresh key 7 0).data_map)
lookup-mark_example = lookup-mark (set fresh key 7 0) (pos 101) key

stops-new_example :
    (new {A = ℕ} (negsuc 1) ≡ err invalid_duration)
    × (new {A = ℕ} (pos 1) ≡ ok (started 1))
    × (0 < (started {A = ℕ} 1).interval)
    × (stops 3 (started {A = ℕ} 1) ≡ ok (stopped (started 1)))
stops-new_example = stops-new 1 2

-- An entry has expired, and a lookup has scheduled its purge.
abbrev stale : World ℕ
stale = record {
  cache = set fresh key 7 0;
  now = 150;
  purges = (key, pos 100) ∷ [];
  sweeps = [];
  waiting = [];
  calls = [];
}

lookup-Background_example :
    (lookup (purge_expired stale.cache key (pos 100)) (codes "b") 160).0
    ≡ (lookup stale.cache (codes "b") 160).0
lookup-Background_example =
    lookup-Background {w = stale}
      {w' = record stale { cache = purge_expired stale.cache key (pos 100); purges = [] }}
      (record { small = omega arith; purges_past = (refl, tt); sweeps_past = tt })
      (purge key (pos 100) [] [] refl refl) (codes "b") 160 (omega arith) (omega arith)

-- A caller has missed and waits for the write lock.
abbrev missed : World ℕ
missed = record {
  cache = fresh;
  now = 10;
  purges = [];
  sweeps = [];
  waiting = key ∷ [];
  calls = [];
}

abbrev written : World ℕ
written = after_write missed key (ok 7) 12 []

primary_runs_once_example :
    (calls_for key written.calls ≡ calls_for key missed.calls + 1)
    × IsHit (lookup written.cache key 50).0
unfolding program
primary_runs_once_example =
    primary_runs_once missed key 7 (ok 7) 12 {u = record written { now = 50 }} [] []
      (record { small = omega arith; purges_past = tt; sweeps_past = tt }) refl (omega arith)
      (omega arith) refl (next here (tick 50 (omega arith) (omega arith) refl)) (omega arith)
