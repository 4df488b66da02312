-- ===== src/Examples/Servers.antt =====
-- A server with one client, up to its return.
use kroxy.Base.{
  All, ◌≡◌, refl, arith, ℕ, suc, ◌+◌, ◌-◌, ◌*◌, ◌≤◌, false, true, ◌++◌, some, List, [], ◌∷◌,
}
use kroxy.Examples.Connections.{packages, config}
use kroxy.Proxy.Conn.{Conn}
use kroxy.Examples.Counts.{two_frames}
use kroxy.Examples.Streams.{calm}
use kroxy.Proxy.Server.{
  Instruments, IsInstruments, ConnMetrics, Session, Server, Trace, accepted, served, closed_both,
  Handler, Phase, returned, Stage, Steps, start, accept, stop, go_on, wg_done, return, here, next,
  accepting, draining, spawned, serving, finished, uncounted, serve_session,
}
use kroxy.Examples.Logins.{one-IsCatalogue}
use kroxy.Protocol.Header.{parse_request_header}
use kroxy.Protocol.Keys.{is_flexible_request}
use kroxy.Proxy.Serve.{serve, client_closed}
use kroxy.Proxy.Dispatch.{serve_frame}
use kroxy.Proxy.Server.Safe.{ServesSafely, Steps-ServesSafely}
use kroxy.Proxy.Server.Ledger.{sum}
use kroxy.Proxy.Server.Accepting.{LoopAt, loop_actions, Steps-LoopAt}
use kroxy.Proxy.Server.Shutdown.{
  accepted_as, served_as, closed_as, failures, closed_links, dials, Steps-closed,
}
use kroxy.Proxy.Server.Gauges.{Shows, Steps-Shows}

abbrev numbers : Instruments ℕ ℕ
numbers = record {
  inc_counter = λ k. suc k;
  inc_gauge = λ g. suc g;
  dec_gauge = λ g. g - 1;
  counter_value = λ k. k;
  gauge_value = λ g. g;
}

numbers-IsInstruments : IsInstruments numbers
numbers-IsInstruments = record {
  counts = λ k. refl;
  rises = λ g. refl;
  falls = λ g n e. omega (arith, e);
}

abbrev zeros : ConnMetrics ℕ ℕ
zeros = record { total = 0; active = 0 }

abbrev session : Session
session = record { ident = 7; rounds = calm; client = two_frames }

abbrev begun : Server ℕ ℕ
begun = start (some zeros)

abbrev end : Conn
end = (serve_session packages config session).conn

-- The server with one handler, and all that is seen of that handler.
abbrev one_handler : Phase → Stage → ConnMetrics ℕ ℕ → Server ℕ ℕ
one_handler p g m = record {
  phase = p;
  is_cancelled = false;
  handlers = record { session = session; stage = g } ∷ [];
  metrics = some m;
}

abbrev Run : List (Trace (Unit {0})) → Server ℕ ℕ → Type 0
Run seen s = Steps packages config numbers begun seen s

abbrev up : ConnMetrics ℕ ℕ
up = record { total = 1; active = 1 }

abbrev down : ConnMetrics ℕ ℕ
down = record { total = 1; active = 0 }

abbrev seen_served : List (Trace (Unit {0}))
seen_served = accepted session ∷ served session (serve_session packages config session) ∷ []

-- The client closes behind its frames; serve does not panic.
served_all : (serve_session packages config session).error ≡ client_closed
unfolding serve_session serve serve_frame parse_request_header is_flexible_request
    kroxy.Protocol.Framing.read_frame kroxy.Protocol.Framing.write_frame
    kroxy.Proxy.Sasl.handle_sasl_handshake kroxy.Base.str_eq
    kroxy.Proxy.Sasl.handle_sasl_authenticate kroxy.Auth.Scram.is_scram_mechanism
    kroxy.Auth.Plain.parse_plain kroxy.Resolver.Memory.get kroxy.Resolver.Memory.lookup
served_all = refl

run_served : Run seen_served (one_handler (accepting 0) (finished end) up)
run_served =
    next
      (next (next here (accept 0 session refl)) (
        go_on [] [] (record { session = session; stage = spawned }) refl
          (record { is_open = λ h. ground (arith, h); is_calm = λ k p. ground (arith, k, p) })))
      (go_on [] [] (record { session = session; stage = serving }) refl
        (record { is_open = λ h. ground (arith, h); is_calm = λ k p. cc (served_all, p) }))

run_draining : Run seen_served (one_handler draining (finished end) up)
run_draining = next run_served (stop 0 true refl refl)

-- The deferred calls, up to wg.Done, and the return of Run.
abbrev returned_server : Server ℕ ℕ
returned_server = record {
  phase = returned;
  is_cancelled = false;
  handlers = [];
  metrics = some down;
}

abbrev seen_all : List (Trace (Unit {0}))
seen_all = seen_served ++ (closed_both session end.upstream ∷ [])

run_returned : Run seen_all returned_server
run_returned =
    let finishing : Handler = record { session = session; stage = finished end } in
    let closing : Handler = record { session = session; stage = uncounted end } in
    next
      (next
        (next
          (next run_draining (
            go_on [] [] finishing refl
              (record { is_open = λ h. ground (arith, h); is_calm = λ k p. ground (arith, k, p) })))
          (go_on [] [] closing refl
            (record { is_open = λ h. ground (arith, h); is_calm = λ k p. ground (arith, k, p) })))
        (wg_done [] [] session refl))
      (return refl refl)

Steps-closed_example :
    ((id : ℕ)
      → (sum (served_as id) seen_all ≡ sum (accepted_as id) seen_all)
        × (sum (closed_as id) seen_all ≡ sum (accepted_as id) seen_all))
    × (sum failures seen_all + sum closed_links seen_all ≡ sum dials seen_all)
Steps-closed_example = Steps-closed packages config numbers (some zeros) run_returned refl

Steps-Shows_example :
    Shows packages config numbers numbers-IsInstruments zeros seen_served
      (one_handler (accepting 0) (finished end) up)
Steps-Shows_example = Steps-Shows packages config numbers numbers-IsInstruments zeros run_served

Steps-LoopAt_example : LoopAt returned (loop_actions seen_all)
Steps-LoopAt_example = Steps-LoopAt packages config numbers (some zeros) run_returned

Steps-ServesSafely_example : All (ServesSafely packages config numbers) seen_all
Steps-ServesSafely_example =
    Steps-ServesSafely packages config numbers (some zeros) run_returned
      ((λ i. one-IsCatalogue), (tt, (tt, tt)))
