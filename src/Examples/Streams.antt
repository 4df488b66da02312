-- ===== src/Examples/Streams.antt =====
-- A client's stream, the attempts of a listener, and one of the advertised keys.
use kroxy.Base.{◌≡◌, ◌≢◌, refl, arith, ℕ, ◌*◌, ◌≤◌, true, false, [], ◌∷◌, length}
use kroxy.Examples.Connections.{packages, config, answers, handshake_frame, login_frame}
use kroxy.Examples.Logins.{one}
use kroxy.Protocol.Framing.{Reader, closed}
use kroxy.Proxy.Backoff.{schedule, accept_loop-schedule}
use kroxy.Proxy.Conn.{new_conn}
use kroxy.Proxy.Listener.{accepted, accept_failed, Attempt, handled, waiting, returned, accept_loop}
use kroxy.Proxy.Loop.{serve_ends}
use kroxy.Proxy.Serve.{Round, out_of_fuel, serve}
use kroxy.Proxy.Stream.{write_frames, replay, serve-write_frames}

abbrev pub calm : ℕ → Round
calm i = record {
  is_cancelled = false;
  sets_deadline = λ t. true;
  answers = answers;
  resolver = one;
}

-- A size field of two, a frame that is no header, and a byte of the next size field.
abbrev client : Reader
client = record { bytes = 0 ∷ 0 ∷ 0 ∷ 2 ∷ 9 ∷ 9 ∷ 0 ∷ []; ending = closed }

serve_ends_example :
    ((serve packages calm 2 0 client (new_conn config)).error ≢ out_of_fuel)
    × (5 * length (serve packages calm 2 0 client (new_conn config)).steps ≤ 7)
serve_ends_example = serve_ends packages calm 2 0 client (new_conn config) (omega arith)

serve-write_frames_example :
    serve packages calm 3 0
      (record { bytes = write_frames (handshake_frame ∷ login_frame ∷ []); ending = closed })
      (new_conn config)
    ≡ replay packages calm 0 (handshake_frame ∷ login_frame ∷ []) (new_conn config)
serve-write_frames_example =
    serve-write_frames packages calm 3 0 (handshake_frame ∷ login_frame ∷ []) (new_conn config)
      (λ j. record { goes_on = refl; sets = λ t. refl })
      ((omega arith, omega arith), ((omega arith, omega arith), tt)) (omega arith)

abbrev failure : Attempt ℕ
failure = record {
  result = accept_failed false;
  is_cancelled = false;
  is_cancelled_waiting = false;
}

abbrev success : Attempt ℕ
success = record { result = accepted 1; is_cancelled = false; is_cancelled_waiting = false }

abbrev shutdown : Attempt ℕ
shutdown = record {
  result = accept_failed true;
  is_cancelled = false;
  is_cancelled_waiting = false;
}

accept_loop-schedule_example :
    accept_loop 0 (failure ∷ failure ∷ success ∷ failure ∷ shutdown ∷ [])
    ≡ waiting 5 ∷ waiting 10 ∷ handled 1 ∷ waiting 5 ∷ returned ∷ []
unfolding schedule
accept_loop-schedule_example =
    accept_loop-schedule 0 (failure ∷ failure ∷ success ∷ failure ∷ shutdown ∷ [])
