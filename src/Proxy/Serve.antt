-- ===== src/Proxy/Serve.antt =====
-- proxy/conn.go, serve: the whole loop, over the bytes that the client sends until its connection
-- ends, and proxy/listener.go, handle.
use kroxy.Base.{
  ℕ, zero, suc, ◌*◌, Bool, not, Option, none, some, List, [], ◌∷◌, if◌then◌else◌, ok, err,
}
use kroxy.Protocol.Framing.{Reader, FrameError, is_eof, read_frame}
use kroxy.Proxy.Conn.{Conn, ConnError, Packages, Answers, Step}
use kroxy.Proxy.Dispatch.{serve_frame}
use kroxy.Proxy.Sasl.{is_authenticated}
use kroxy.Resolver.Memory.{MemoryResolver}

pub data ServeError : Type 0 where
  cancelled deadline_failed client_closed out_of_fuel : ServeError
  frame_failed : FrameError → ServeError
  step_failed : ConnError → ServeError

-- Durations in milliseconds.
abbrev pub client_idle_timeout : ℕ
client_idle_timeout = 10 * 60 * 1000

abbrev pub client_handshake_timeout : ℕ
client_handshake_timeout = 30 * 1000

abbrev pub read_timeout : Conn → ℕ
read_timeout c = if is_authenticated c.state then client_idle_timeout else client_handshake_timeout

-- What one round of the loop meets: whether the context is cancelled, whether SetReadDeadline
-- succeeds for a timeout or for none, how the network answers, and the resolver as it is then.
pub record Round : Type 0 where
  pub is_cancelled : Bool
  pub sets_deadline : Option ℕ → Bool
  pub answers : Answers
  pub resolver : MemoryResolver

-- The connection at the end, the steps taken for the client's frames, and the error that ended the
-- loop.
pub record Served (R : Type 0) : Type 0 where
  pub conn : Conn
  pub steps : List (Step R)
  pub error : ServeError

abbrev pub read_error : FrameError → ServeError
read_error e = if is_eof e then client_closed else frame_failed e

module _ {R : Type 0} where
  abbrev pub stop : Conn → ServeError → Served R
  stop c e = record { conn = c; steps = []; error = e }

module _ {R : Type 0} (P : Packages R) (rounds : ℕ → Round) where
  -- From round `i` on, with fuel for so many rounds.
  unfoldable pub serve : ℕ → ℕ → Reader → Conn → Served R
  unfolding serve_frame
  serve zero i client c = stop c out_of_fuel
  serve (suc fuel) i client c =
      if (rounds i).is_cancelled
      then stop c cancelled
      else if not ((rounds i).sets_deadline (some (read_timeout c)))
      then stop c deadline_failed
      else elim (read_frame client) [
        | err e ↦ stop c (read_error e)
        | ok (frame, client') ↦
            if not ((rounds i).sets_deadline none)
            then stop c deadline_failed
            else (let step = serve_frame P (rounds i).answers (rounds i).resolver c frame in
                elim step.error [
                  | some e ↦ record { conn = step.conn; steps = step ∷ []; error = step_failed e }
                  | none ↦
                      let rest = serve fuel (suc i) client' step.conn in
                      record { conn = rest.conn; steps = step ∷ rest.steps; error = rest.error }
                ])
      ]
