-- ===== src/Server/Tests.antt =====
-- A run that is cancelled, and probes.
use go_bananas.Base.{
  ◌≡◌, ◌≤◌, refl, true, none, some, List, [], ◌∷◌, ◌++◌, Bytes, codes, arith, length,
}
use go_bananas.Base.Result.{ok, err, panic}
use go_bananas.Flash.{sort, bytes_ltb}
use go_bananas.Server.{
  State, Event, receiving, returned, shutting_down, exited, stopped, server_closed, start, cancel,
  select_context, serve_returns, close_serve_done, shutdown_returns, receive, step, run,
}
use go_bananas.Server.Health.{readyz_handler, failed_names, run_check}
use go_bananas.Server.Progress.{steps_of}
use go_bananas.Server.Shutdown.{IsFinished, run-IsFinished}

abbrev cancelled_run : List Event
cancelled_run = cancel ∷ select_context ∷ serve_returns server_closed ∷ close_serve_done ∷ []

abbrev waiting : State
waiting = record {
  main = receiving server_closed;
  helper = shutting_down;
  cancelled = true;
  serve_done = true;
  err_ch = none;
}

runs : run cancelled_run start ≡ some waiting
unfolding run step
runs = refl

ends :
    run (shutdown_returns none ∷ receive ∷ []) waiting
    ≡ some (record waiting { main = returned stopped; helper = exited })
unfolding run step
ends = refl

run-IsFinished_example :
    (steps_of cancelled_run ≤ 5)
    × ((fs : List Event) × (t : State) × (run fs waiting ≡ some t) × IsFinished t × (length fs ≤ 3))
run-IsFinished_example = run-IsFinished cancelled_run waiting runs (ground arith)

abbrev encode : List Bytes → Bytes
encode [] = []
encode (name ∷ names) = name ++ 44 ∷ encode names

ready_test :
    (readyz_handler encode
      ((codes "b", panic) ∷ (codes "c", ok tt) ∷ (codes "a", err (codes "down")) ∷ [])).body
    ≡ codes "a,b,"
unfolding readyz_handler failed_names run_check sort bytes_ltb
ready_test = refl
