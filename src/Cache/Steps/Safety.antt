-- ===== src/Cache/Steps/Safety.antt =====
-- The background never removes what a lookup could still find.
use go_bananas.Base.{
  ℕ, ◌^◌, ◌≤◌, ◌<◌, ◌≡◌, refl, true, Option, none, Bytes, List, [], ◌∷◌, ◌++◌, arith, bytes_eq, All,
}
use go_bananas.Base.Dict.{lookup-delete}
use go_bananas.Base.Int.{ℤ, pos, ltb_ℤ, pos_part}
use go_bananas.Base.Result.{Result, ok}
use go_bananas.Cache.{Cache, lookup, sweep, purge_expired, write_locked, settle}
use go_bananas.Cache.Lookup.{unix_nano_of_lt, unix_nano-le}
use go_bananas.Cache.Sweep.{lookup-sweep}
use go_bananas.Cache.Steps.{
  World, Background, Step, Run, purge, delete_swept, background, tick, tick_mark, look_up, store,
  miss, write_thru, here, next, schedule,
}

abbrev pub IsPast : ℕ → ℤ → Type 0
IsPast now e = ltb_ℤ e (pos now) ≡ true

-- Every purge that waits was scheduled for an entry that had expired, and every mark that waits
-- between its locks is for a time that has come.
pub record IsSettled {A : Type 0} (w : World A) : Type 0 where
  pub small : w.now < 2 ^ 63
  pub purges_past : All (λ p. IsPast w.now p.1) w.purges
  pub sweeps_past : All (λ s. pos_part s.0 ≤ w.now) w.sweeps

module _ {κ} {A : Type 0} (P Q : A → Type κ) (weaken : (a : A) → P a → Q a) where
  All-map : (xs : List A) → All P xs → All Q xs
  All-map [] h = h
  All-map (x ∷ xs) h = (weaken x h.0, All-map xs h.1)

module _ {κ} {A : Type 0} (P : A → Type κ) where
  All-split : (xs : List A) {x : A} (ys : List A) → All P (xs ++ x ∷ ys) → P x × All P (xs ++ ys)
  All-split [] ys h = h
  All-split (y ∷ xs) ys h = let (p, q) = All-split xs ys h.1 in (p, (h.0, q))

IsPast-later : (now later : ℕ) → now ≤ later → (e : ℤ) → IsPast now e → IsPast later e
IsPast-later now later le e h = ground arith

module _ {A : Type 0} where
  purge-lookup :
      (c : Cache A) (name other : Bytes) (e : ℤ) (now later : ℕ)
      → IsPast now e
      → now ≤ later
      → later < 2 ^ 63
      → (lookup (purge_expired c name e) other later).0 ≡ (lookup c other later).0
  unfolding lookup purge_expired
  purge-lookup c name other e now later past le small = ground (
    arith,
    lookup-delete name other c.data_map,
    bytes_eq.equals_iff name other,
    unix_nano_of_lt later,
  )

  sweep-lookup :
      (c : Cache A) (t : ℤ) (keys : List Bytes) (other : Bytes) (later : ℕ)
      → pos_part t ≤ later
      → later < 2 ^ 63
      → (lookup (record c { data_map = sweep t keys c.data_map }) other later).0
        ≡ (lookup c other later).0
  unfolding lookup
  sweep-lookup c t keys other later le small =
      ground (arith, lookup-sweep t keys other c.data_map, unix_nano_of_lt later)

  -- A step of the background, in a settled state, changes no lookup: whatever the name and the
  -- time from now on (before the year 2262), it finds what it would have found without the step.
  pub lookup-Background :
      {w w' : World A}
      → IsSettled w
      → Background w w'
      → (name : Bytes) (later : ℕ) → w.now ≤ later
      → later < 2 ^ 63
      → (lookup w'.cache name later).0 ≡ (lookup w.cache name later).0
  lookup-Background {w} s (purge k e before after at step) name later le small =
      let past = (All-split (λ p. IsPast w.now p.1) before after (rw at at s.purges_past)).0 in
      rw step (purge-lookup w.cache k name e w.now later past le small)
  lookup-Background {w} s (delete_swept t keys before after at step) name later le small =
      let past = (All-split (λ p. pos_part p.0 ≤ w.now) before after (rw at at s.sweeps_past)).0 in
      rw step (sweep-lookup w.cache t keys name later (omega (arith, past)) small)

  Background-IsSettled : {w w' : World A} → IsSettled w → Background w w' → IsSettled w'
  Background-IsSettled {w} s (purge k e before after at step) =
      let rest = (All-split (λ p. IsPast w.now p.1) before after (rw at at s.purges_past)).1 in
      rw step (record { small = s.small; purges_past = rest; sweeps_past = s.sweeps_past })
  Background-IsSettled {w} s (delete_swept t keys before after at step) =
      let rest = (All-split (λ p. pos_part p.0 ≤ w.now) before after (rw at at s.sweeps_past)).1 in
      rw step (record { small = s.small; purges_past = s.purges_past; sweeps_past = rest })

  schedule-IsPast :
      (c : Cache A) (name : Bytes) (now : ℕ) (ps : List (Bytes × ℤ))
      → now < 2 ^ 63
      → All (λ p. IsPast now p.1) ps
      → All (λ p. IsPast now p.1) (schedule (lookup c name now).1 ps)
  unfolding lookup
  schedule-IsPast c name now ps small h = ground (arith, unix_nano_of_lt now)

  later-IsSettled :
      {w : World A} (n : ℕ)
      → w.now ≤ n
      → n < 2 ^ 63
      → IsSettled w
      → IsSettled (record w { now = n })
  later-IsSettled {w} n le small s = record {
    small = small;
    purges_past = All-map _ _ (λ p. IsPast-later w.now n le p.1) w.purges s.purges_past;
    sweeps_past = All-map _ _ (λ p h. omega arith) w.sweeps s.sweeps_past;
  }

  settle-purge :
      (c : Cache A) (name : Bytes) (p : Option (Bytes × ℤ)) (found : Option A)
      → (primary : Result Bytes A) (later : ℕ) → (settle c name p found primary later).purge ≡ p
  unfolding settle
  settle-purge c name p none (ok v) later = refl
  settle-purge c name p _ _ later = refl

  write-purge :
      (c : Cache A) (name : Bytes) (now : ℕ) (primary : Result Bytes A) (later : ℕ)
      → (write_locked c name now primary later).purge ≡ (lookup c name now).1
  unfolding write_locked
  write-purge c name now primary later = settle-purge c name _ _ primary later

  -- Every step of every thread keeps the state settled.
  pub Step-IsSettled : {w w' : World A} → IsSettled w → Step w w' → IsSettled w'
  Step-IsSettled s (background b) = Background-IsSettled s b
  Step-IsSettled s (tick n le small step) = rw step (later-IsSettled n le small s)
  Step-IsSettled {w} s (tick_mark t le step) = rw step (record {
    small = s.small;
    purges_past = s.purges_past;
    sweeps_past = (omega (arith, unix_nano-le t), s.sweeps_past);
  })
  Step-IsSettled {w} s (look_up name step) = rw step (record {
    small = s.small;
    purges_past = schedule-IsPast w.cache name w.now w.purges s.small s.purges_past;
    sweeps_past = s.sweeps_past;
  })
  Step-IsSettled s (store name v step) =
      rw step (record { small = s.small; purges_past = s.purges_past; sweeps_past = s.sweeps_past })
  Step-IsSettled {w} s (miss name absent step) = rw step (record {
    small = s.small;
    purges_past = schedule-IsPast w.cache name w.now w.purges s.small s.purges_past;
    sweeps_past = s.sweeps_past;
  })
  Step-IsSettled {w} s (write_thru name primary later before after at le small step) =
      rw (step, write-purge)
        (record {
          small = small;
          purges_past =
              All-map _ _ (λ p. IsPast-later w.now later le p.1) _
                (schedule-IsPast w.cache name w.now w.purges s.small s.purges_past);
          sweeps_past = All-map _ _ (λ p h. omega arith) w.sweeps s.sweeps_past;
        })

  pub Run-IsSettled : {w w' : World A} → IsSettled w → Run w w' → IsSettled w'
  Run-IsSettled s here = s
  Run-IsSettled s (next r st) = Step-IsSettled (Run-IsSettled s r) st
