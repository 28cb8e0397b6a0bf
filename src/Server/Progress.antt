-- ===== src/Server/Progress.antt =====
-- server/server.go: what stays true of ServeHTTP and its goroutine, and that each step leads on.
use go_bananas.Base.{
  ℕ, ◌≡◌, refl, subst, ◌+◌, ◌≤◌, Bool, true, false, Option, none, some, List, [], ◌∷◌, arith,
  if◌then◌else◌,
}
use go_bananas.Server.{
  Served, Main, Helper, State, Event, serving, closing, receiving, returned, selecting,
  shutting_down, exited, cancel, serve_returns, close_serve_done, select_context, select_serve_done,
  shutdown_returns, receive, result, send, step, run,
}

abbrev pub is_done : Main → Bool
is_done serving = false
is_done (closing r) = false
is_done (receiving r) = true
is_done (returned o) = true

-- What the goroutine has sent stays in the channel until it is received.
abbrev pub Channel : Main → Helper → Option (Option ℕ) → Type 0
Channel (returned o) selecting ch = ⊥
Channel (returned o) shutting_down ch = ⊥
Channel (returned o) exited ch = ch ≡ none
Channel serving selecting ch = ch ≡ none
Channel serving shutting_down ch = ch ≡ none
Channel serving exited ch = (e : Option ℕ) × (ch ≡ some e)
Channel (closing r) selecting ch = ch ≡ none
Channel (closing r) shutting_down ch = ch ≡ none
Channel (closing r) exited ch = (e : Option ℕ) × (ch ≡ some e)
Channel (receiving r) selecting ch = ch ≡ none
Channel (receiving r) shutting_down ch = ch ≡ none
Channel (receiving r) exited ch = (e : Option ℕ) × (ch ≡ some e)

abbrev pub IsGood : State → Type 0
IsGood s = (s.serve_done ≡ is_done s.main) × Channel s.main s.helper s.err_ch

-- Steps that are left for each goroutine
abbrev pub main_rank : Main → ℕ
main_rank serving = 3
main_rank (closing r) = 2
main_rank (receiving r) = 1
main_rank (returned o) = 0

abbrev pub helper_rank : Helper → ℕ
helper_rank selecting = 2
helper_rank shutting_down = 1
helper_rank exited = 0

abbrev pub rank : State → ℕ
rank s = main_rank s.main + helper_rank s.helper

abbrev pub cost : Event → ℕ
cost cancel = 0
cost (serve_returns r) = 1
cost close_serve_done = 1
cost select_context = 1
cost select_serve_done = 1
cost (shutdown_returns e) = 1
cost receive = 1

-- The events of a run, without cancellations
abbrev pub steps_of : List Event → ℕ
steps_of [] = 0
steps_of (e ∷ es) = cost e + steps_of es

abbrev pub Progress : Event → State → State → Type 0
Progress e s t = IsGood t × (cost e + rank t ≤ rank s)

some_injective {ℓ} : {A : Type ℓ} {a b : A} → ◌≡◌ {A = Option A} (some a) (some b) → a ≡ b
some_injective e = ground (arith, e)

module _ (c d : Bool) where
  abbrev pub at : Main → Helper → Option (Option ℕ) → State
  at m h ch = record { main = m; helper = h; cancelled = c; serve_done = d; err_ch = ch }

  moves :
      (e : Event) (s t u : State)
      → some t ≡ some u
      → IsGood t
      → cost e + rank t ≤ rank s
      → Progress e s u
  moves e s t u same good less = subst (Progress e s) (some_injective same) (good, less)

  stuck : {u : State} {P : Type 0} → none ≡ some u → P
  stuck h = absurd (ground (arith, h))

  serve_returns-Progress :
      (r : Served) (m : Main) (h : Helper) (ch : Option (Option ℕ)) (u : State)
      → IsGood (at m h ch)
      → step (serve_returns r) (at m h ch) ≡ some u
      → Progress (serve_returns r) (at m h ch) u
  unfolding step
  serve_returns-Progress r serving h ch u (done, sent) k =
      moves (serve_returns r) (at serving h ch) (at (closing r) h ch) u k (done, same h sent)
        (omega arith)
    where
      same : (h : Helper) → Channel serving h ch → Channel (closing r) h ch
      same selecting sent = sent
      same shutting_down sent = sent
      same exited sent = sent
  serve_returns-Progress r (closing r') h ch u good k = absurd (ground (arith, k))
  serve_returns-Progress r (receiving r') h ch u good k = absurd (ground (arith, k))
  serve_returns-Progress r (returned o) h ch u good k = absurd (ground (arith, k))

  close-Progress :
      (m : Main) (h : Helper) (ch : Option (Option ℕ)) (u : State)
      → IsGood (at m h ch)
      → step close_serve_done (at m h ch) ≡ some u
      → Progress close_serve_done (at m h ch) u
  unfolding step
  close-Progress (closing r) h ch u (done, sent) k =
      moves close_serve_done (at (closing r) h ch)
        (record (at (receiving r) h ch) { serve_done = true }) u k (refl, same h sent) (omega arith)
    where
      same : (h : Helper) → Channel (closing r) h ch → Channel (receiving r) h ch
      same selecting sent = sent
      same shutting_down sent = sent
      same exited sent = sent
  close-Progress serving h ch u good k = absurd (ground (arith, k))
  close-Progress (receiving r') h ch u good k = absurd (ground (arith, k))
  close-Progress (returned o) h ch u good k = absurd (ground (arith, k))

  -- The goroutine starts the shutdown.
  begins : (m : Main) (ch : Option (Option ℕ)) → Channel m selecting ch → Channel m shutting_down ch
  begins serving ch sent = sent
  begins (closing r) ch sent = sent
  begins (receiving r) ch sent = sent
  begins (returned o) ch sent = sent

  chosen-Progress :
      (b : Bool) (e : Event) (s t u : State)
      → (if b then some t else none) ≡ some u
      → IsGood t
      → cost e + rank t ≤ rank s
      → Progress e s u
  chosen-Progress true e s t u k good less = moves e s t u k good less
  chosen-Progress false e s t u k good less = absurd (ground (arith, k))

  select_context-Progress :
      (m : Main) (h : Helper) (ch : Option (Option ℕ)) (u : State)
      → IsGood (at m h ch)
      → step select_context (at m h ch) ≡ some u
      → Progress select_context (at m h ch) u
  unfolding step
  select_context-Progress m selecting ch u (done, sent) k =
      chosen-Progress c select_context (at m selecting ch) (at m shutting_down ch) u k
        (done, begins m ch sent) (omega arith)
  select_context-Progress m shutting_down ch u good k = absurd (ground (arith, k))
  select_context-Progress m exited ch u good k = absurd (ground (arith, k))

  -- A send finds the buffer empty.
  sends :
      (m : Main) (e : Option ℕ) (ch : Option (Option ℕ))
      → Channel m shutting_down ch
      → Channel m exited (some e) × (ch ≡ none)
  sends serving e ch sent = ((e, refl), sent)
  sends (closing r) e ch sent = ((e, refl), sent)
  sends (receiving r) e ch sent = ((e, refl), sent)
  sends (returned o) e ch sent = elim sent [ ]

  send-Progress :
      (ev : Event) (m : Main) (h : Helper) (e : Option ℕ) (ch : Option (Option ℕ)) (u : State)
      → (d ≡ is_done m)
      → Channel m exited (some e) × (ch ≡ none)
      → cost ev + helper_rank exited ≤ helper_rank h
      → send (at m h ch) e ch ≡ some u
      → Progress ev (at m h ch) u
  send-Progress ev m h e (some waiting) u done (now, free) less k = absurd (ground (arith, k))
  send-Progress ev m h e none u done (now, free) less k =
      moves ev (at m h none) (at m exited (some e)) u k (done, now) (omega (arith, less))

  shutdown_returns-Progress :
      (e : Option ℕ) (m : Main) (h : Helper) (ch : Option (Option ℕ)) (u : State)
      → IsGood (at m h ch)
      → step (shutdown_returns e) (at m h ch) ≡ some u
      → Progress (shutdown_returns e) (at m h ch) u
  unfolding step
  shutdown_returns-Progress e m shutting_down ch u (done, sent) k =
      send-Progress (shutdown_returns e) m shutting_down e ch u done (sends m e ch sent)
        (omega arith) k
  shutdown_returns-Progress e m selecting ch u good k = absurd (ground (arith, k))
  shutdown_returns-Progress e m exited ch u good k = absurd (ground (arith, k))

  select_serve_done-Progress :
      (m : Main) (h : Helper) (ch : Option (Option ℕ)) (u : State)
      → IsGood (at m h ch)
      → step select_serve_done (at m h ch) ≡ some u
      → Progress select_serve_done (at m h ch) u
  unfolding step
  select_serve_done-Progress m selecting ch u (done, sent) k = go d k
    where
      go :
          (b : Bool)
          → (if b then send (at m selecting ch) none ch else none) ≡ some u
          → Progress select_serve_done (at m selecting ch) u
      go true k =
          send-Progress select_serve_done m selecting none ch u done
            (sends m none ch (begins m ch sent)) (omega arith) k
      go false k = absurd (ground (arith, k))
  select_serve_done-Progress m shutting_down ch u good k = absurd (ground (arith, k))
  select_serve_done-Progress m exited ch u good k = absurd (ground (arith, k))

  receive-Progress :
      (m : Main) (h : Helper) (ch : Option (Option ℕ)) (u : State)
      → IsGood (at m h ch)
      → step receive (at m h ch) ≡ some u
      → Progress receive (at m h ch) u
  unfolding step
  receive-Progress (receiving r) exited (some e) u (done, sent) k =
      moves receive (at (receiving r) exited (some e)) (at (returned (result r e)) exited none) u k
        (done, refl) (omega arith)
  receive-Progress (receiving r) selecting (some e) u (done, sent) k = absurd (ground (arith, sent))
  receive-Progress (receiving r) shutting_down (some e) u (done, sent) k =
      absurd (ground (arith, sent))
  receive-Progress (receiving r) h none u good k = absurd (ground (arith, k))
  receive-Progress serving h ch u good k = absurd (ground (arith, k))
  receive-Progress (closing r) h ch u good k = absurd (ground (arith, k))
  receive-Progress (returned o) h ch u good k = absurd (ground (arith, k))

  step_from :
      (e : Event) (m : Main) (h : Helper) (ch : Option (Option ℕ)) (u : State)
      → IsGood (at m h ch)
      → step e (at m h ch) ≡ some u
      → Progress e (at m h ch) u
  unfolding step
  step_from cancel m h ch u good k =
      moves cancel (at m h ch) (record (at m h ch) { cancelled = true }) u k good (omega arith)
  step_from (serve_returns r) m h ch u good k = serve_returns-Progress r m h ch u good k
  step_from close_serve_done m h ch u good k = close-Progress m h ch u good k
  step_from select_context m h ch u good k = select_context-Progress m h ch u good k
  step_from select_serve_done m h ch u good k = select_serve_done-Progress m h ch u good k
  step_from (shutdown_returns e) m h ch u good k = shutdown_returns-Progress e m h ch u good k
  step_from receive m h ch u good k = receive-Progress m h ch u good k

step-Progress : (e : Event) (s t : State) → IsGood s → step e s ≡ some t → Progress e s t
step-Progress e s t good h = step_from s.cancelled s.serve_done e s.main s.helper s.err_ch t good h

pub run-Progress :
    (es : List Event) (s t : State)
    → IsGood s
    → run es s ≡ some t
    → IsGood t × (steps_of es + rank t ≤ rank s)
unfolding run
run-Progress [] s t good h =
    subst (λ u. IsGood u × (0 + rank u ≤ rank s)) (some_injective h) (good, omega arith)
run-Progress (e ∷ es) s t good h = go (step e s) refl h (λ s' g k. run-Progress es s' t g k)
  where
    go :
        (o : Option State)
        → step e s ≡ o
        → (elim o [ none ↦ none | some s' ↦ run es s' ]) ≡ some t
        → ((s' : State)
            → IsGood s'
            → run es s' ≡ some t
            → IsGood t × (steps_of es + rank t ≤ rank s'))
        → IsGood t × (steps_of (e ∷ es) + rank t ≤ rank s)
    go none stepped k rest = absurd (ground (arith, k))
    go (some s') stepped k rest =
        let (good', less) = step-Progress e s s' good stepped in
        let (good'', fewer) = rest s' good' k in (good'', omega (arith, less, fewer))
