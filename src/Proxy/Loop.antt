-- ===== src/Proxy/Loop.antt =====
-- proxy/conn.go, serve: the loop ends, and all that it does is permitted.
use kroxy.Base.{
  ◌≡◌, ◌≢◌, inl, inr, ap, arith, ℕ, zero, suc, ◌+◌, ◌*◌, ◌≤◌, ◌<◌, none, some, [], ◌∷◌, Bytes,
  length, length-append, ok, All, Bool-cases, Option-cases, Result-cases,
}
use kroxy.Protocol.Framing.{Reader, FrameError, read_frame}
use kroxy.Protocol.Frames.{read_frame_takes}
use kroxy.Proxy.Conn.{ConnError, Conn, Packages, Step}
use kroxy.Proxy.Dispatch.{serve_frame}
use kroxy.Proxy.Invariant.{IsConn}
use kroxy.Proxy.Run.{serve_frame-IsSafe}
use kroxy.Proxy.Safety.{IsSafe}
use kroxy.Proxy.Serve.{
  ServeError, cancelled, deadline_failed, out_of_fuel, step_failed, read_timeout, read_error, Round,
  Served, serve, stop,
}
use kroxy.Resolver.Catalogue.{IsCatalogue}

read_frame_consumes :
    (bytes frame : Bytes) (ending : _) (client' : Reader)
    → read_frame (record { bytes = bytes; ending = ending }) ≡ ok (frame, client')
    → 5 + length client'.bytes ≤ length bytes
unfolding read_frame
read_frame_consumes [] frame ending client' e = ground (arith, e)
read_frame_consumes (a ∷ []) frame ending client' e = ground (arith, e)
read_frame_consumes (a ∷ b ∷ []) frame ending client' e = ground (arith, e)
read_frame_consumes (a ∷ b ∷ c ∷ []) frame ending client' e = ground (arith, e)
read_frame_consumes (a ∷ b ∷ c ∷ d ∷ behind) frame ending client' e =
    let (size, positive, small, rest, same) =
      read_frame_takes a b c d behind frame ending client' e in
    omega (arith, ap length rest, length-append frame client'.bytes)

read_error_ends : (e : FrameError) → read_error e ≢ out_of_fuel
read_error_ends e = ground arith

module _ {R : Type 0} (P : Packages R) (rounds : ℕ → Round) where
  abbrev pub step_at : ℕ → Bytes → Conn → Step R
  step_at i frame c = serve_frame P (rounds i).answers (rounds i).resolver c frame

  abbrev pub followed : Step R → Served R → Served R
  followed s rest = record { conn = rest.conn; steps = s ∷ rest.steps; error = rest.error }

  -- A round without a step, one with the last step, and one after which the loop goes on.
  pub data RoundOf (fuel i : ℕ) (client : Reader) (c : Conn) : Served R → Type 0 where
    stops : (e : ServeError) → e ≢ out_of_fuel → RoundOf fuel i client c (stop c e)
    fails :
        (frame : Bytes) (client' : Reader) (e : ConnError)
        → read_frame client ≡ ok (frame, client')
        → RoundOf fuel i client c (record {
          conn = (step_at i frame c).conn;
          steps = step_at i frame c ∷ [];
          error = step_failed e;
        })
    goes_on :
        (frame : Bytes) (client' : Reader)
        → read_frame client ≡ ok (frame, client')
        → RoundOf fuel i client c (
            followed
              (step_at i frame c)
              (serve P rounds fuel (suc i) client' (step_at i frame c).conn))

  pub serve-RoundOf :
      (fuel i : ℕ) (client : Reader) (c : Conn)
      → RoundOf fuel i client c (serve P rounds (suc fuel) i client c)
  unfolding serve
  serve-RoundOf fuel i client c = elim (Bool-cases (rounds i).is_cancelled) [
    | inl e0 ↦ rw e0 (stops cancelled (λ q. ground (arith, q)))
    | inr e0 ↦ elim (Bool-cases ((rounds i).sets_deadline (some (read_timeout c)))) [
      | inr e1 ↦ rw (e0, e1) (stops deadline_failed (λ q. ground (arith, q)))
      | inl e1 ↦ elim (Result-cases (read_frame client)) [
        | inr (e, e2) ↦ rw (e0, e1, e2) (stops (read_error e) (read_error_ends e))
        | inl ((frame, client'), e2) ↦ elim (Bool-cases ((rounds i).sets_deadline none)) [
          | inr e3 ↦ rw (e0, e1, e2, e3) (stops deadline_failed (λ q. ground (arith, q)))
          | inl e3 ↦ elim (Option-cases (step_at i frame c).error) [
            | inl e4 ↦ rw (e0, e1, e2, e3, e4) (goes_on frame client' e2)
            | inr (e, e4) ↦ rw (e0, e1, e2, e3, e4) (fails frame client' e e2)
          ]
        ]
      ]
    ]
  ]

  abbrev pub Ends : Reader → Served R → Type 0
  Ends client s = (s.error ≢ out_of_fuel) × (5 * length s.steps ≤ length client.bytes)

  round-Ends :
      (fuel i : ℕ) (client : Reader) (c : Conn) (s : Served R)
      → ((client' : Reader) (c' : Conn)
          → length client'.bytes < 5 * fuel
          → Ends client' (serve P rounds fuel (suc i) client' c'))
      → length client.bytes < 5 * suc fuel
      → RoundOf fuel i client c s
      → Ends client s
  round-Ends fuel i client c _ ih enough (stops e k) = (k, omega arith)
  round-Ends fuel i client c _ ih enough (fails frame client' e k) = (
    λ q. ground (arith, q),
    omega (arith, read_frame_consumes client.bytes frame client.ending client' k),
  )
  round-Ends fuel i client c _ ih enough (goes_on frame client' k) =
      let less = read_frame_consumes client.bytes frame client.ending client' k in
      let (ends, few) = ih client' (step_at i frame c).conn (omega (arith, less, enough)) in
      (ends, omega (arith, few, less))

  -- With fuel for more than a fifth of the client's bytes the loop ends by itself, and it has
  -- served at most one frame for every five bytes.
  pub serve_ends :
      (fuel i : ℕ) (client : Reader) (c : Conn)
      → length client.bytes < 5 * fuel
      → ((serve P rounds fuel i client c).error ≢ out_of_fuel)
        × (5 * length (serve P rounds fuel i client c).steps ≤ length client.bytes)
  serve_ends zero i client c enough = omega (arith, enough)
  serve_ends (suc fuel) i client c enough =
      round-Ends fuel i client c _ (λ client' c' h. serve_ends fuel (suc i) client' c' h) enough
        (serve-RoundOf fuel i client c)

  module _ (catalogue : (i : ℕ) → IsCatalogue (rounds i).resolver.tenants) where
    abbrev pub AllSafe : Served R → Type 0
    AllSafe s = All (IsSafe P) s.steps × IsConn s.conn

    round-AllSafe :
        (fuel i : ℕ) (client : Reader) (c : Conn) (s : Served R)
        → ((client' : Reader) (c' : Conn)
            → IsConn c'
            → AllSafe (serve P rounds fuel (suc i) client' c'))
        → IsConn c
        → RoundOf fuel i client c s
        → AllSafe s
    round-AllSafe fuel i client c _ ih h (stops e k) = (tt, h)
    round-AllSafe fuel i client c _ ih h (fails frame client' e k) =
        let safe =
          serve_frame-IsSafe P (rounds i).answers (rounds i).resolver c frame (catalogue i) h in
        ((safe, tt), safe.keeps)
    round-AllSafe fuel i client c _ ih h (goes_on frame client' k) =
        let safe =
          serve_frame-IsSafe P (rounds i).answers (rounds i).resolver c frame (catalogue i) h in
        let (steps, last) = ih client' (step_at i frame c).conn safe.keeps in ((safe, steps), last)

    -- From a connection in a good phase, everything that the loop does for the client's frames is
    -- permitted, and it leaves the connection in a good phase; provided that the resolver's
    -- catalogue is well formed in every round.
    pub serve-AllSafe :
        (fuel i : ℕ) (client : Reader) (c : Conn)
        → IsConn c
        → AllSafe (serve P rounds fuel i client c)
    unfolding serve
    serve-AllSafe zero i client c h = (tt, h)
    serve-AllSafe (suc fuel) i client c h =
        round-AllSafe fuel i client c _ (λ client' c' k. serve-AllSafe fuel (suc i) client' c' k) h
          (serve-RoundOf fuel i client c)
