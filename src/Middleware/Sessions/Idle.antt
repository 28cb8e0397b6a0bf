-- ===== src/Middleware/Sessions/Idle.antt =====
-- middleware/sessions.go: CheckSessionIdleNoAuth on what session/session.go stores.
use go_bananas.Base.{
  ℕ, ◌+◌, ◌≤◌, ◌<◌, ◌≡◌, ◌⊎◌, ap, inl, inr, refl, true, false, Option, arith, Bool-cases,
}
use go_bananas.Base.Result.{ok}
use go_bananas.Values.{Values, int64, key_eq}
use go_bananas.Base.Dict
use go_bananas.Session.{put_value, activity_key, Session, unix, last_activity, store_last_activity}
use go_bananas.Session.Access.{view, live, view_activity}
use go_bananas.Middleware.Sessions.{is_idle, idle_at}

idle_at-unix :
    (ttl now t : ℕ)
    → ((idle_at ttl now (unix t) ≡ true) × (t + ttl < now + 1000000000))
      ⊎ ((idle_at ttl now (unix t) ≡ false) × (now ≤ t + ttl))
idle_at-unix ttl now t = elim (Bool-cases (idle_at ttl now (unix t))) [
  | inl idle ↦ inl (idle, ground (arith, idle))
  | inr active ↦ inr (active, ground (arith, active))
]

last_activity-stored :
    (vs : Values) (t : ℕ)
    → 1000000000 ≤ t
    → (last_activity (live (Dict.insert activity_key (int64 (unix t)) vs))).0 ≡ unix t
unfolding view
last_activity-stored vs t h = ap (λ v. v.activity) (view_activity vs (unix t) (ground (arith, h)))

is_idle-live :
    (vs : Values) (t now ttl : ℕ)
    → 1000000000 ≤ t
    → (s : Option Session) → s ≡ live (Dict.insert activity_key (int64 (unix t)) vs)
    → ((is_idle ttl now s ≡ true) × (t + ttl < now + 1000000000))
      ⊎ ((is_idle ttl now s ≡ false) × (now ≤ t + ttl))
unfolding is_idle
is_idle-live vs t now ttl h s same = rw (same, last_activity-stored vs t h) (idle_at-unix ttl now t)

-- A session that a request stored its time `t` in, at a later request of it: either that is
-- refused as idle, and comes more than the limit less a second after `t`, or it passes, and comes
-- within the limit after `t`. The time does not lie within the first second of 1970.
pub is_idle-stored :
    (vs : Values) (t now ttl : ℕ)
    → 1000000000 ≤ t
    → (s : Option Session) × (store_last_activity (live vs) t ≡ ok s)
      × (((is_idle ttl now s ≡ true) × (t + ttl < now + 1000000000))
          ⊎ ((is_idle ttl now s ≡ false) × (now ≤ t + ttl)))
unfolding store_last_activity put_value
is_idle-stored vs t now ttl h = (live _, refl, is_idle-live vs t now ttl h _ refl)
