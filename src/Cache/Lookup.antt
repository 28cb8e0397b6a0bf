-- ===== src/Cache/Lookup.antt =====
-- cache/cache.go: what Lookup and WriteThruLookup return.
use go_bananas.Base.{
  ℕ, ◌+◌, ◌^◌, ◌≤◌, ◌<◌, ◌≡◌, none, some, if◌then◌else◌, Bytes, arith, bytes_eq, ◌==◌,
}
use go_bananas.Base.Dict.{lookup-insert}
use go_bananas.Base.Int.{pos, ltb_ℤ, pos_part}
use go_bananas.Cache.{Cache, unix_nano, new_item, expired, lookup, set}

-- Up to the year 2262 UnixNano is the plain count.
pub unix_nano_of_lt : (t : ℕ) → t < 2 ^ 63 → unix_nano t ≡ pos t
unfolding unix_nano
unix_nano_of_lt t h = ground arith

pub unix_nano-le : (t : ℕ) → pos_part (unix_nano t) ≤ t
unfolding unix_nano
unix_nano-le t = ground arith

-- A Lookup after a Set, of any name at any time: of that name it finds the value until the
-- deadline, the int64 of the time of the Set plus the duration, has passed; of any other name it
-- finds what it would have found before.
pub lookup-set :
    {A : Type 0} (c : Cache A) (name other : Bytes) (v : A) (now later : ℕ)
    → (lookup (set c name v now) other later).0 ≡ (
        if name == other
        then if ltb_ℤ (unix_nano (now + c.expire_after)) (unix_nano later) then none else some v
        else (lookup c other later).0)
unfolding lookup set expired
lookup-set c name other v now later =
    ground (arith, lookup-insert name other (new_item c v now) c.data_map)
