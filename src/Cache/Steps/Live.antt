-- ===== src/Cache/Steps/Live.antt =====
-- While an entry is live, no step of any thread ends its life.
use go_bananas.Base.{
  ℕ, ◌+◌, ◌^◌, ◌≤◌, ◌<◌, ◌≡◌, refl, false, Option, none, some, Bytes, arith, bytes_eq,
}
use go_bananas.Base.Int.{ℤ}
use go_bananas.Base.Result.{Result, ok}
use go_bananas.Cache.{Cache, purge_expired, lookup, set, write_locked, settle}
use go_bananas.Cache.Lookup.{unix_nano_of_lt, lookup-set}
use go_bananas.Cache.Steps.{
  World, Background, purge, delete_swept, Step, background, tick, tick_mark, look_up, store, miss,
  write_thru,
}
use go_bananas.Cache.Steps.Safety.{IsSettled, lookup-Background}

module _ {A : Type 0} where
  abbrev pub IsHit : Option A → Type 0
  IsHit none = ⊥
  IsHit (some v) = Unit

  -- Every lookup of the name finds a value up to the time `limit`; what is stored from now on
  -- lives at least as long, and no deadline overflows an int64.
  pub record IsLive (w : World A) (name : Bytes) (limit : ℕ) : Type 0 where
    pub found : (t : ℕ) → w.now ≤ t → t ≤ limit → IsHit ((lookup w.cache name t).0)
    pub bounded : limit ≤ w.now + w.cache.expire_after
    pub in_range : limit + w.cache.expire_after < 2 ^ 63

  set-IsHit :
      (c : Cache A) (name other : Bytes) (v : A) (now limit t : ℕ)
      → limit ≤ now + c.expire_after
      → now ≤ limit
      → limit + c.expire_after < 2 ^ 63
      → t ≤ limit
      → IsHit ((lookup c name t).0)
      → IsHit ((lookup (set c other v now) name t).0)
  set-IsHit c name other v now limit t b u r le h =
      rw lookup-set (ground (arith, unix_nano_of_lt (now + c.expire_after), unix_nano_of_lt t))

  pub set-expire_after :
      (c : Cache A) (name : Bytes) (v : A) (now : ℕ)
      → (set c name v now).expire_after ≡ c.expire_after
  unfolding set
  set-expire_after c name v now = refl

  settle-IsHit :
      (c : Cache A) (name other : Bytes) (p : Option (Bytes × ℤ)) (found : Option A)
      → (primary : Result Bytes A) (later limit t : ℕ) → limit ≤ later + c.expire_after
      → later ≤ limit
      → limit + c.expire_after < 2 ^ 63
      → t ≤ limit
      → IsHit ((lookup c name t).0)
      → IsHit ((lookup (settle c other p found primary later).cache name t).0)
  unfolding settle
  settle-IsHit c name other p none (ok v) later limit t b u r le h =
      set-IsHit c name other v later limit t b u r le h
  settle-IsHit c name other p _ _ later limit t b u r le h = h

  write_locked-IsHit :
      (c : Cache A) (name other : Bytes) (now : ℕ) (primary : Result Bytes A) (later limit t : ℕ)
      → limit ≤ later + c.expire_after
      → later ≤ limit
      → limit + c.expire_after < 2 ^ 63
      → t ≤ limit
      → IsHit ((lookup c name t).0)
      → IsHit ((lookup (write_locked c other now primary later).cache name t).0)
  unfolding write_locked
  write_locked-IsHit c name other now primary later limit t b u r le h =
      settle-IsHit c name other _ _ primary later limit t b u r le h

  pub settle-expire_after :
      (c : Cache A) (name : Bytes) (p : Option (Bytes × ℤ)) (found : Option A)
      → (primary : Result Bytes A) (later : ℕ)
      → (settle c name p found primary later).cache.expire_after ≡ c.expire_after
  unfolding settle set
  settle-expire_after c name p none (ok v) later = refl
  settle-expire_after c name p _ _ later = refl

  pub write_locked-expire_after :
      (c : Cache A) (name : Bytes) (now : ℕ) (primary : Result Bytes A) (later : ℕ)
      → (write_locked c name now primary later).cache.expire_after ≡ c.expire_after
  unfolding write_locked settle set
  write_locked-expire_after c name now primary later = settle-expire_after c name _ _ primary later

  -- The write-locked part of WriteThruLookup runs primaryLookup only if the name has no live entry.
  pub write_locked_called :
      (c : Cache A) (name : Bytes) (now : ℕ) (primary : Result Bytes A) (later : ℕ)
      → IsHit ((lookup c name now).0)
      → (write_locked c name now primary later).called ≡ false
  unfolding write_locked
  write_locked_called c name now primary later h = ground arith

  pub Background-expire_after :
      {w w' : World A} → Background w w' → w'.cache.expire_after ≡ w.cache.expire_after
  unfolding purge_expired
  Background-expire_after {w} (purge name e before after at step) = rw step (ground arith)
  Background-expire_after (delete_swept t keys before after at step) = rw step refl

  pub Background-now : {w w' : World A} → Background w w' → w'.now ≡ w.now
  Background-now (purge name e before after at step) = rw step refl
  Background-now (delete_swept t keys before after at step) = rw step refl

  -- No step before the limit ends the life of an entry.
  pub Step-IsLive :
      {w w' : World A} {name : Bytes} {limit : ℕ}
      → IsSettled w
      → IsLive w name limit
      → Step w w'
      → w'.now ≤ limit
      → IsLive w' name limit
  Step-IsLive {w} {name = name} s l (background b) le = record {
    found = λ t p q.
        rw (lookup-Background s b name t (omega (arith, Background-now b)) (omega arith))
          (l.found t (omega (arith, Background-now b)) q);
    bounded = omega (arith, l.bounded, Background-now b, Background-expire_after b);
    in_range = omega (arith, l.in_range, Background-expire_after b);
  }
  Step-IsLive s l (tick n later small step) le = rw step (record {
    found = λ t p q. l.found t (omega arith) q;
    bounded = omega (arith, l.bounded);
    in_range = l.in_range;
  })
  Step-IsLive s l (tick_mark t past step) le =
      rw step (record { found = l.found; bounded = l.bounded; in_range = l.in_range })
  Step-IsLive s l (look_up other step) le =
      rw step (record { found = l.found; bounded = l.bounded; in_range = l.in_range })
  Step-IsLive {w} {name = name} {limit = limit} s l (store other v step) le =
      let kept = set-expire_after w.cache other v w.now in
      rw step (record {
        found = λ t p q.
            set-IsHit w.cache name other v w.now limit t l.bounded (rw step at le) l.in_range q
              (l.found t p q);
        bounded = omega (arith, l.bounded, kept);
        in_range = omega (arith, l.in_range, kept);
      })
  Step-IsLive s l (miss other absent step) le =
      rw step (record { found = l.found; bounded = l.bounded; in_range = l.in_range })
  Step-IsLive {w} {name = name} {limit = limit} s l
        (write_thru other primary later before after at now_le small step) le =
      let kept = write_locked-expire_after w.cache other w.now primary later in
      rw step (record {
        found = λ t p q.
            write_locked-IsHit w.cache name other w.now primary later limit t
              (omega (arith, l.bounded)) (rw step at le) l.in_range q (l.found t (omega arith) q);
        bounded = omega (arith, l.bounded, kept);
        in_range = omega (arith, l.in_range, kept);
      })
