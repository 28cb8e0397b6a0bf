-- ===== src/Server/Shutdown.antt =====
-- server/server.go: ServeHTTP and the goroutine that it starts both come to an end.
use go_bananas.Base.{
  ℕ, ◌≡◌, ◌≢◌, refl, sym, subst, ◌≤◌, Bool, true, false, Option, none, some, List, [], ◌∷◌, arith,
  length,
}
use go_bananas.Server.{
  Outcome, Main, Helper, State, Event, serving, closing, receiving, returned, selecting,
  shutting_down, exited, start, close_serve_done, select_serve_done, shutdown_returns, receive,
  result, step, run,
}
use go_bananas.Server.Progress.{is_done, Channel, at, steps_of, run-Progress}

-- ServeHTTP has returned, the goroutine has exited, and nothing is left in the channel.
abbrev pub IsFinished : State → Type 0
IsFinished s = (o : Outcome) × (s.main ≡ returned o) × (s.helper ≡ exited) × (s.err_ch ≡ none)

abbrev Finishes : State → Type 0
Finishes s = (es : List Event) × (t : State) × (run es s ≡ some t) × IsFinished t × (length es ≤ 3)

module _ (c : Bool) where
  finish :
      (m : Main) (h : Helper) (ch : Option (Option ℕ))
      → Channel m h ch
      → m ≢ serving
      → Finishes (at c (is_done m) m h ch)
  unfolding run step
  finish serving h ch sent served = absurd (served refl)
  finish (closing r) selecting ch sent served =
      subst (λ ch. Finishes (at c false (closing r) selecting ch)) (sym sent)
        (
          close_serve_done ∷ select_serve_done ∷ receive ∷ [],
          at c true (returned (result r none)) exited none,
          refl,
          (result r none, refl, refl, refl),
          omega arith,
        )
  finish (closing r) shutting_down ch sent served =
      subst (λ ch. Finishes (at c false (closing r) shutting_down ch)) (sym sent)
        (
          close_serve_done ∷ shutdown_returns none ∷ receive ∷ [],
          at c true (returned (result r none)) exited none,
          refl,
          (result r none, refl, refl, refl),
          omega arith,
        )
  finish (closing r) exited ch (e, sent) served =
      subst (λ ch. Finishes (at c false (closing r) exited ch)) (sym sent)
        (
          close_serve_done ∷ receive ∷ [],
          at c true (returned (result r e)) exited none,
          refl,
          (result r e, refl, refl, refl),
          omega arith,
        )
  finish (receiving r) selecting ch sent served =
      subst (λ ch. Finishes (at c true (receiving r) selecting ch)) (sym sent)
        (
          select_serve_done ∷ receive ∷ [],
          at c true (returned (result r none)) exited none,
          refl,
          (result r none, refl, refl, refl),
          omega arith,
        )
  finish (receiving r) shutting_down ch sent served =
      subst (λ ch. Finishes (at c true (receiving r) shutting_down ch)) (sym sent)
        (
          shutdown_returns none ∷ receive ∷ [],
          at c true (returned (result r none)) exited none,
          refl,
          (result r none, refl, refl, refl),
          omega arith,
        )
  finish (receiving r) exited ch (e, sent) served =
      subst (λ ch. Finishes (at c true (receiving r) exited ch)) (sym sent)
        (
          receive ∷ [],
          at c true (returned (result r e)) exited none,
          refl,
          (result r e, refl, refl, refl),
          omega arith,
        )
  finish (returned o) exited ch sent served =
      ([], at c true (returned o) exited ch, refl, (o, refl, refl, sent), omega arith)
  finish (returned o) selecting ch sent served = elim sent [ ]
  finish (returned o) shutting_down ch sent served = elim sent [ ]

-- No run of ServeHTTP and its goroutine has more than five steps besides cancellations of the
-- context, and from every state that a run reaches once Serve has returned, at most three further
-- steps end both, with nothing left in the channel: no send or receive waits forever, whether or
-- not the context was cancelled. That Shutdown returns, and how, is an event.
pub run-IsFinished :
    (es : List Event) (s : State)
    → run es start ≡ some s
    → s.main ≢ serving
    → (steps_of es ≤ 5)
      × ((fs : List Event) × (t : State) × (run fs s ≡ some t) × IsFinished t × (length fs ≤ 3))
run-IsFinished es s h served =
    let ((done, sent), few) = run-Progress es start s (refl, refl) h in
    (
      omega (arith, few),
      subst (λ d. Finishes (record s { serve_done = d })) (sym done)
          (finish s.cancelled s.main s.helper s.err_ch sent served),
    )
