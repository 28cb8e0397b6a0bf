-- ===== src/Middleware/Sessions/Commit.antt =====
-- middleware/sessions.go: in which order the cookies and the response reach the client.
use go_bananas.Base.{
  ℕ, ◌≡◌, refl, Bool, true, false, Option, Bytes, List, [], ◌∷◌, ◌++◌, if◌then◌else◌, sym, ◌∙◌,
}
use mathlib.Core.List.{append_assoc, append-nil}
use go_bananas.Values.{Key, Values}
use go_bananas.Middleware.Sessions.{
  Event, status, body, error_page, Call, update, write_header, write, unwrap, panics, cookies,
  fails, main_values, save_session, do_write_header, do_write, serve, finish, finish_returned,
  build_handler, join_all,
}

-- Before its first status or piece of the body the handler does nothing past its writer, and does
-- not panic.
abbrev pub StartsWrapped : List Call → Type 0
StartsWrapped [] = Unit
StartsWrapped (update f ∷ cs) = StartsWrapped cs
StartsWrapped (write_header c ∷ cs) = Unit
StartsWrapped (write b ∷ cs) = Unit
StartsWrapped (unwrap e ∷ cs) = ⊥
StartsWrapped (panics ∷ cs) = ⊥

-- The session's values at the first byte, header or the end of the handler.
abbrev pub at_commit : List Call → Values → Values
at_commit (update f ∷ cs) vs = at_commit cs (f vs)
at_commit _ vs = vs

-- What the handler's calls send, if saving succeeds: the first status, unless a body came before it,
-- every piece of the body, and what it does past its writer, up to a panic.
abbrev pub sent : Bool → List Call → List Event
sent wrote [] = []
sent wrote (update f ∷ cs) = sent wrote cs
sent wrote (write_header c ∷ cs) = if wrote then sent true cs else status c ∷ sent true cs
sent wrote (write b ∷ cs) = body b ∷ sent true cs
sent wrote (unwrap e ∷ cs) = e ∷ sent wrote cs
sent wrote (panics ∷ cs) = []

-- What it does past its writer, up to a panic.
abbrev pub direct : List Call → List Event
direct [] = []
direct (unwrap e ∷ cs) = e ∷ direct cs
direct (panics ∷ cs) = []
direct (_ ∷ cs) = direct cs

-- What is sent if saving fails: a 500, by the writer if the handler sets a status, or else after it,
-- and what it does past its writer.
abbrev pub refused : List Call → List Event
refused [] = error_page ∷ []
refused (update f ∷ cs) = refused cs
refused (write_header c ∷ cs) = status 500 ∷ direct cs
refused (write b ∷ cs) = refused cs
refused (unwrap e ∷ cs) = e ∷ refused cs
refused (panics ∷ cs) = []

module _ (shown : Bytes → Bytes) (keys : List Key) (save_fails : Option Bytes → Values → Bool)
    (now : ℕ) where
  abbrev run : List Call → Values → Bool → Bool → Bool → List Event → List Event
  run cs vs done failed wrote es =
      (finish_returned shown keys save_fails now (
        serve shown keys save_fails now cs (record {
          values = vs;
          done = done;
          failed = failed;
          wrote_header = wrote;
          events = es;
        }))).events

  run-saved :
      (cs : List Call) (vs : Values) (wrote : Bool) (es : List Event)
      → run cs vs true false wrote es ≡ es ++ sent wrote cs
  unfolding finish_returned finish serve save_session do_write_header do_write
  run-saved [] vs wrote es = sym (append-nil es)
  run-saved (update f ∷ cs) vs wrote es = run-saved cs (f vs) wrote es
  run-saved (write_header c ∷ cs) vs true es = run-saved cs vs true es
  run-saved (write_header c ∷ cs) vs false es =
      run-saved cs vs true (es ++ status c ∷ []) ∙ append_assoc es (status c ∷ []) (sent true cs)
  run-saved (write b ∷ cs) vs wrote es =
      run-saved cs vs true (es ++ body b ∷ []) ∙ append_assoc es (body b ∷ []) (sent true cs)
  run-saved (unwrap e ∷ cs) vs wrote es =
      run-saved cs vs wrote (es ++ e ∷ []) ∙ append_assoc es (e ∷ []) (sent wrote cs)
  run-saved (panics ∷ cs) vs wrote es = sym (append-nil es)

  run-refused :
      (cs : List Call) (vs : Values) (wrote : Bool) (es : List Event)
      → run cs vs true true wrote es ≡ es ++ (if wrote then direct cs else refused cs)
  unfolding finish_returned finish serve save_session do_write_header do_write
  run-refused [] vs true es = sym (append-nil es)
  run-refused [] vs false es = refl
  run-refused (update f ∷ cs) vs wrote es = run-refused cs (f vs) wrote es
  run-refused (write_header c ∷ cs) vs true es = run-refused cs vs true es
  run-refused (write_header c ∷ cs) vs false es =
      run-refused cs vs true (es ++ status 500 ∷ []) ∙ append_assoc es (status 500 ∷ []) (direct cs)
  run-refused (write b ∷ cs) vs wrote es = run-refused cs vs wrote es
  run-refused (unwrap e ∷ cs) vs true es =
      run-refused cs vs true (es ++ e ∷ []) ∙ append_assoc es (e ∷ []) (direct cs)
  run-refused (unwrap e ∷ cs) vs false es =
      run-refused cs vs false (es ++ e ∷ []) ∙ append_assoc es (e ∷ []) (refused cs)
  run-refused (panics ∷ cs) vs true es = sym (append-nil es)
  run-refused (panics ∷ cs) vs false es = sym (append-nil es)

  abbrev pub committed : List Call → Values → List Event
  committed cs vs =
      cookies shown keys save_fails now (at_commit cs vs)
      ++ (if fails shown keys save_fails now (at_commit cs vs) then refused cs else sent false cs)

  run-after :
      (b : Bool) (cs : List Call) (vs : Values) (es : List Event)
      → run cs vs true b false es ≡ es ++ (if b then refused cs else sent false cs)
  run-after true cs vs es = run-refused cs vs false es
  run-after false cs vs es = run-saved cs vs false es

  run-committed :
      (cs : List Call) (vs : Values)
      → StartsWrapped cs
      → run cs vs false false false [] ≡ committed cs vs
  unfolding finish_returned finish serve save_session do_write_header do_write
  run-committed [] vs h =
      run-after (fails shown keys save_fails now vs) [] (main_values shown keys save_fails now vs)
        (cookies shown keys save_fails now vs)
  run-committed (update f ∷ cs) vs h = run-committed cs (f vs) h
  run-committed (write_header c ∷ cs) vs h =
      run-after (fails shown keys save_fails now vs) (write_header c ∷ cs)
        (main_values shown keys save_fails now vs) (cookies shown keys save_fails now vs)
  run-committed (write b ∷ cs) vs h =
      run-after (fails shown keys save_fails now vs) (write b ∷ cs)
        (main_values shown keys save_fails now vs) (cookies shown keys save_fails now vs)
  run-committed (unwrap _ ∷ cs) vs h = absurd h
  run-committed (panics ∷ cs) vs h = absurd h

  -- If a handler does nothing past its writer and does not panic before it sets a status or writes a
  -- piece of the body: the session is saved once, before anything of the response is sent, with the
  -- values that it has at that moment. If every save succeeds, the first status that the handler
  -- sets, unless a body came before it, and its body are then passed on, up to a panic. If one fails,
  -- nothing of the handler's status or body is, and a single 500 is sent instead, or nothing if the
  -- handler panics before it sets a status. What the handler does past its writer after that moment
  -- stands at its place.
  pub build_handler-committed :
      (loaded : Values) (split_cookies : Bytes → Option Values) (calls : List Call)
      → StartsWrapped calls
      → (build_handler shown keys save_fails now loaded split_cookies calls).events
        ≡ committed calls (join_all shown split_cookies keys loaded)
  unfolding build_handler
  build_handler-committed loaded split_cookies calls h =
      run-committed calls (join_all shown split_cookies keys loaded) h
