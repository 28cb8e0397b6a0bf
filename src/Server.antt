-- ===== src/Server.antt =====
-- server/server.go and server/healthz.go: the server as two goroutines, and the probes.
pub mod Health
pub mod Progress
pub mod Shutdown
mod Tests
use go_bananas.Base.{ℕ, Bool, true, false, Option, none, some, List, [], ◌∷◌, if◌then◌else◌}

-- What srv.Serve returns: nil, http.ErrServerClosed, or another error
pub data Served : Type 0 where
  no_error : Served
  server_closed : Served
  serve_error : ℕ → Served

-- What ServeHTTP returns
pub data Outcome : Type 0 where
  stopped : Outcome
  failed_to_serve : ℕ → Option ℕ → Outcome
  failed_to_shutdown : ℕ → Outcome

-- ServeHTTP itself: in srv.Serve, before close(serveDone), at the receive from errCh, and after it
pub data Main : Type 0 where
  serving : Main
  closing : Served → Main
  receiving : Served → Main
  returned : Outcome → Main

-- The goroutine that it starts: at the select, in srv.Shutdown, and after the send to errCh
pub data Helper : Type 0 where
  selecting : Helper
  shutting_down : Helper
  exited : Helper

-- The context, serveDone and the buffer of errCh are shared.
pub record State : Type 0 where
  pub main : Main
  pub helper : Helper
  pub cancelled : Bool
  pub serve_done : Bool
  pub err_ch : Option (Option ℕ)

abbrev pub start : State
start = record {
  main = serving;
  helper = selecting;
  cancelled = false;
  serve_done = false;
  err_ch = none;
}

-- What may happen next. The select takes either case that is ready.
pub data Event : Type 0 where
  cancel : Event
  serve_returns : Served → Event
  close_serve_done : Event
  select_context : Event
  select_serve_done : Event
  shutdown_returns : Option ℕ → Event
  receive : Event

-- The end of ServeHTTP, with what was received
abbrev pub result : Served → Option ℕ → Outcome
result (serve_error e) shutdown_error = failed_to_serve e shutdown_error
result no_error none = stopped
result no_error (some e) = failed_to_shutdown e
result server_closed none = stopped
result server_closed (some e) = failed_to_shutdown e

abbrev pub on_serve_returns : State → Served → Main → Option State
on_serve_returns s r serving = some (record s { main = closing r })
on_serve_returns s r (closing r') = none
on_serve_returns s r (receiving r') = none
on_serve_returns s r (returned o) = none

abbrev pub on_close : State → Main → Option State
on_close s (closing r) = some (record s { main = receiving r; serve_done = true })
on_close s serving = none
on_close s (receiving r) = none
on_close s (returned o) = none

abbrev pub on_select_context : State → Helper → Option State
on_select_context s selecting =
    if s.cancelled then some (record s { helper = shutting_down }) else none
on_select_context s shutting_down = none
on_select_context s exited = none

-- A send to errCh, whose buffer holds one value
abbrev pub send : State → Option ℕ → Option (Option ℕ) → Option State
send s e none = some (record s { helper = exited; err_ch = some e })
send s e (some waiting) = none

abbrev pub on_select_serve_done : State → Helper → Option State
on_select_serve_done s selecting = if s.serve_done then send s none s.err_ch else none
on_select_serve_done s shutting_down = none
on_select_serve_done s exited = none

abbrev pub on_shutdown_returns : State → Option ℕ → Helper → Option State
on_shutdown_returns s e shutting_down = send s e s.err_ch
on_shutdown_returns s e selecting = none
on_shutdown_returns s e exited = none

abbrev pub on_receive : State → Main → Option (Option ℕ) → Option State
on_receive s (receiving r) (some e) =
    some (record s { main = returned (result r e); err_ch = none })
on_receive s (receiving r) none = none
on_receive s serving ch = none
on_receive s (closing r) ch = none
on_receive s (returned o) ch = none

-- One step of Server.ServeHTTP and of its goroutine, where the event can happen
unfoldable pub step : Event → State → Option State
step cancel s = some (record s { cancelled = true })
step (serve_returns r) s = on_serve_returns s r s.main
step close_serve_done s = on_close s s.main
step select_context s = on_select_context s s.helper
step select_serve_done s = on_select_serve_done s s.helper
step (shutdown_returns e) s = on_shutdown_returns s e s.helper
step receive s = on_receive s s.main s.err_ch

-- A sequence of events
unfoldable pub run : List Event → State → Option State
unfolding step
run [] s = some s
run (e ∷ es) s = elim (step e s) [ none ↦ none | some s' ↦ run es s' ]
