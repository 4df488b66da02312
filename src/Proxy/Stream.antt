-- ===== src/Proxy/Stream.antt =====
-- proxy/conn.go, serve, behind protocol/framing.go: what the loop does for the frames that a client
-- writes before it closes the connection.
use kroxy.Base.{
  ◌≡◌, inl, inr, refl, arith, ℕ, zero, suc, ◌≤◌, ◌<◌, true, false, Option, none, some, List, [],
  ◌∷◌, ◌++◌, Bytes, length, err, All, Option-cases,
}
use kroxy.Protocol.Framing.{closed, eof, io, max_frame_size, read_frame, write_frame}
use kroxy.Protocol.Frames.{read_frame-write_frame}
use kroxy.Proxy.Conn.{Conn, Packages, Step}
use kroxy.Proxy.Dispatch.{serve_frame}
use kroxy.Proxy.Serve.{client_closed, step_failed, Round, Served, serve, stop, read_timeout}

-- The bytes of the frames, written one behind the other.
abbrev pub write_frames : List Bytes → Bytes
write_frames [] = []
write_frames (frame ∷ frames) = write_frame frame ++ write_frames frames

abbrev pub IsFrame : Bytes → Type 0
IsFrame frame = (0 < length frame) × (length frame ≤ max_frame_size)

-- A round that is not cancelled and can set its deadlines.
pub record IsCalm (r : Round) : Type 0 where
  pub goes_on : r.is_cancelled ≡ false
  pub sets : (t : Option ℕ) → r.sets_deadline t ≡ true

module _ {R : Type 0} (P : Packages R) (rounds : ℕ → Round) where
  -- The frames served one after the other, up to the first step with an error.
  unfoldable pub replay : ℕ → List Bytes → Conn → Served R
  replay i [] c = stop c client_closed
  replay i (frame ∷ frames) c =
      let step : Step R = serve_frame P (rounds i).answers (rounds i).resolver c frame in
      elim step.error [
        | some e ↦ record { conn = step.conn; steps = step ∷ []; error = step_failed e }
        | none ↦
            let rest = replay (suc i) frames step.conn in
            record { conn = rest.conn; steps = step ∷ rest.steps; error = rest.error }
      ]

  read_frame_closed : read_frame (record { bytes = []; ending = closed }) ≡ err (io eof)
  unfolding read_frame
  read_frame_closed = refl

  -- For a client that writes frames of 1 to MaxFrameSize bytes and then closes the connection, the
  -- loop serves its frames in order, none left out, up to the first step with an error, and else
  -- ends as closed by the client; if no round is cancelled or fails to set a deadline, and with fuel for more
  -- rounds than there are frames.
  pub serve-write_frames :
      (fuel i : ℕ) (frames : List Bytes) (c : Conn)
      → ((j : ℕ) → IsCalm (rounds j))
      → All IsFrame frames
      → length frames < fuel
      → serve P rounds fuel i (record { bytes = write_frames frames; ending = closed }) c
        ≡ replay i frames c
  unfolding serve replay
  serve-write_frames zero i frames c calm fits enough = absurd (omega (arith, enough))
  serve-write_frames (suc fuel) i [] c calm fits enough =
      rw ((calm i).goes_on, (calm i).sets (some (read_timeout c)), read_frame_closed) refl
  serve-write_frames (suc fuel) i (frame ∷ frames) c calm fits enough =
      let got = read_frame-write_frame frame (write_frames frames) closed fits.0.0 fits.0.1 in
      let step : Step R = serve_frame P (rounds i).answers (rounds i).resolver c frame in
      let again =
        serve-write_frames fuel (suc i) frames step.conn calm fits.1 (omega (arith, enough)) in
      rw ((calm i).goes_on, (calm i).sets (some (read_timeout c)), got, (calm i).sets none)
        (elim (Option-cases step.error) [
          | inr (e, h) ↦ rw (replay, h) refl
          | inl h ↦ rw (replay, h, again) refl
        ])
