-- ===== src/Cache/Steps/Coalescing.antt =====
-- While an entry is live, no caller runs primaryLookup for its name.
use go_bananas.Base.{
  ℕ, ◌+◌, ◌^◌, ◌≤◌, ◌<◌, ◌≡◌, refl, true, Option, none, Bytes, List, [], ◌∷◌, ◌++◌, arith, bytes_eq,
  if◌then◌else◌, Bool-cases, inl, inr, ◌==◌, sym, ap, ◌∙◌, subst,
}
use go_bananas.Base.Int.{ℤ}
use go_bananas.Base.Result.{Result, ok}
use go_bananas.Cache.{Cache, lookup, set, write_locked, settle, computed}
use go_bananas.Cache.Lookup.{unix_nano_of_lt, lookup-set}
use go_bananas.Cache.Steps.{
  World, Background, purge, delete_swept, Step, Run, background, tick, tick_mark, look_up, store,
  miss, write_thru, here, next, log_call, after_write,
}
use go_bananas.Cache.Steps.Live.{
  IsHit, IsLive, Step-IsLive, write_locked_called, write_locked-expire_after, Background-now,
}
use go_bananas.Cache.Steps.Safety.{IsSettled, Step-IsSettled, Run-IsSettled}

-- How often primaryLookup was run for a name.
abbrev pub calls_for : Bytes → List Bytes → ℕ
calls_for name [] = 0
calls_for name (n ∷ ns) = (if n == name then 1 else 0) + calls_for name ns

module _ {A : Type 0} where
  Step-now : {w w' : World A} → Step w w' → w.now ≤ w'.now
  Step-now (background b) = omega (arith, Background-now b)
  Step-now (tick n later small step) = rw step later
  Step-now (tick_mark t past step) = rw step (omega arith)
  Step-now (look_up other step) = rw step (omega arith)
  Step-now (store other v step) = rw step (omega arith)
  Step-now (miss other absent step) = rw step (omega arith)
  Step-now (write_thru other primary later before after at now_le small step) = rw step now_le

  Background-calls : {w w' : World A} → Background w w' → w'.calls ≡ w.calls
  Background-calls (purge name e before after at step) = rw step refl
  Background-calls (delete_swept t keys before after at step) = rw step refl

  log_call-other :
      (c : Cache A) (name other : Bytes) (now : ℕ) (primary : Result Bytes A) (later : ℕ)
      → (calls : List Bytes) → IsHit ((lookup c name now).0)
      → calls_for name (log_call (write_locked c other now primary later).called other calls)
        ≡ calls_for name calls
  log_call-other c name other now primary later calls h = elim (Bool-cases (other == name)) [
    | inl same ↦
        let e = (bytes_eq.equals_iff other name).0 same in
        let h' = subst (λ k. IsHit ((lookup c k now).0)) (sym e) h in
        rw (write_locked_called c other now primary later h') refl
    | inr differ ↦ ground arith
  ]

  Step-calls :
      {w w' : World A} {name : Bytes} {limit : ℕ}
      → IsLive w name limit
      → Step w w'
      → w'.now ≤ limit
      → calls_for name w'.calls ≡ calls_for name w.calls
  Step-calls {name = name} l (background b) le = ap (calls_for name) (Background-calls b)
  Step-calls l (tick n later small step) le = rw step refl
  Step-calls l (tick_mark t past step) le = rw step refl
  Step-calls l (look_up other step) le = rw step refl
  Step-calls l (store other v step) le = rw step refl
  Step-calls l (miss other absent step) le = rw step refl
  Step-calls {w} {name = name} l (write_thru other primary later before after at now_le small step)
        le =
      rw step (
        log_call-other w.cache name other w.now primary later w.calls (
          l.found w.now (omega arith)
            (omega (arith, le, ap (λ (v : World A). v.now) step, now_le))))

  -- A name that is live until `limit` stays so in every run of the other threads that ends by
  -- then, and primaryLookup is not run for it.
  Run-IsLive :
      {w w' : World A} {name : Bytes} {limit : ℕ}
      → IsSettled w
      → IsLive w name limit
      → Run w w'
      → w'.now ≤ limit
      → IsLive w' name limit × (calls_for name w'.calls ≡ calls_for name w.calls)
  Run-IsLive s l here le = (l, refl)
  Run-IsLive s l (next r st) le =
      let (l', same) = Run-IsLive s l r (omega (arith, Step-now st)) in
      (Step-IsLive (Run-IsSettled s r) l' st le, Step-calls l' st le ∙ same)

  settle_computed :
      (c : Cache A) (name : Bytes) (p : Option (Bytes × ℤ)) (found : Option A)
      → (primary : Result Bytes A) (later : ℕ) (v : A)
      → (settle c name p found primary later).reply ≡ computed v
      → ((settle c name p found primary later).cache ≡ set c name v later)
        × ((settle c name p found primary later).called ≡ true)
  unfolding settle
  settle_computed c name p none (ok u) later v e = ground arith
  settle_computed c name p _ _ later v e = absurd (ground arith)

  write_locked_computed :
      (c : Cache A) (name : Bytes) (now : ℕ) (primary : Result Bytes A) (later : ℕ) (v : A)
      → (write_locked c name now primary later).reply ≡ computed v
      → ((write_locked c name now primary later).cache ≡ set c name v later)
        × ((write_locked c name now primary later).called ≡ true)
  unfolding write_locked
  write_locked_computed c name now primary later v e = settle_computed c name _ _ primary later v e

  set-IsHit_self :
      (c : Cache A) (name : Bytes) (v : A) (now t : ℕ)
      → now + c.expire_after < 2 ^ 63
      → t ≤ now + c.expire_after
      → IsHit ((lookup (set c name v now) name t).0)
  set-IsHit_self c name v now t small le = rw lookup-set (
      ground (
        arith,
        bytes_eq.equals_iff name name,
        unix_nano_of_lt (now + c.expire_after),
        unix_nano_of_lt t,
      ))

  module _ (w : World A) (name : Bytes) (v : A) (primary : Result Bytes A) (later : ℕ) where
    open w use {cache as c}

    computed-IsLive :
        (ws : List Bytes)
        → later + c.expire_after + c.expire_after < 2 ^ 63
        → (write_locked c name w.now primary later).reply ≡ computed v
        → IsLive (after_write w name primary later ws) name (later + c.expire_after)
    computed-IsLive ws small e =
        let stored = (write_locked_computed c name w.now primary later v e).0 in
        let kept = write_locked-expire_after c name w.now primary later in
        record {
          found = λ t p q. rw stored (set-IsHit_self c name v later t (omega arith) q);
          bounded = omega (arith, kept);
          in_range = omega (arith, kept);
        }

    computed_calls :
        (ws : List Bytes)
        → (write_locked c name w.now primary later).reply ≡ computed v
        → calls_for name (after_write w name primary later ws).calls ≡ calls_for name w.calls + 1
    computed_calls ws e =
        rw (write_locked_computed c name w.now primary later v e).1
          (ground (arith, bytes_eq.equals_iff name name))

    -- Once a WriteThruLookup of a name has computed and stored a value, primaryLookup has run
    -- once for that call, and is not run again for the name by any caller until the lifetime of
    -- the value is over, in whatever order the threads and the background go on; nobody calls
    -- Clear, and the deadlines fit an int64. Until then the name is found.
    pub primary_runs_once :
        {u : World A} (before after : List Bytes)
        → IsSettled w
        → w.waiting ≡ before ++ name ∷ after
        → w.now ≤ later
        → later + c.expire_after + c.expire_after < 2 ^ 63
        → (write_locked c name w.now primary later).reply ≡ computed v
        → Run (after_write w name primary later (before ++ after)) u
        → u.now ≤ later + c.expire_after
        → (calls_for name u.calls ≡ calls_for name w.calls + 1)
          × IsHit ((lookup u.cache name u.now).0)
    primary_runs_once before after s at le small e r end =
        let st = write_thru name primary later before after at le (omega arith) refl in
        let live = computed-IsLive (before ++ after) small e in
        let (l, same) = Run-IsLive (Step-IsSettled s st) live r end in
        (same ∙ computed_calls (before ++ after) e, l.found _ (omega arith) end)
