-- ===== src/Examples/Counts.antt =====
-- What a client that logs in is counted as.
use kroxy.Base.{◌≡◌, refl, ◌+◌, [], ◌∷◌, All}
use kroxy.Examples.Connections.{packages, config, answers, handshake_frame, login_frame}
use kroxy.Examples.Logins.{one}
use kroxy.Examples.Streams.{calm}
use kroxy.Protocol.Framing.{Reader, closed}
use kroxy.Proxy.Conn.{new_conn}
use kroxy.Proxy.Counted.{authenticated_now, logins, serve-logins}
use kroxy.Proxy.Dials.{links, attempts, failed_dials, serve-dials}
use kroxy.Proxy.Dispatch.{serve_frame}
use kroxy.Proxy.Labels.{Counts, serve_frame-Counts}
use kroxy.Proxy.Serve.{serve}
use kroxy.Proxy.Stream.{write_frames}
use kroxy.Proxy.Tally.{tally_all}

abbrev pub two_frames : Reader
two_frames = record { bytes = write_frames (handshake_frame ∷ login_frame ∷ []); ending = closed }

serve_frame-Counts_example :
    All Counts (serve_frame packages answers one (new_conn config) handshake_frame).events
serve_frame-Counts_example =
    serve_frame-Counts packages answers one (new_conn config) handshake_frame

serve-logins_example :
    authenticated_now (serve packages calm 9 0 two_frames (new_conn config)).conn
    ≡ 0 + tally_all logins (serve packages calm 9 0 two_frames (new_conn config)).steps
serve-logins_example = serve-logins packages calm 9 0 two_frames (new_conn config)

serve-dials_example :
    links (serve packages calm 9 0 two_frames (new_conn config)).conn
      + tally_all failed_dials (serve packages calm 9 0 two_frames (new_conn config)).steps
    ≡ 0 + tally_all attempts (serve packages calm 9 0 two_frames (new_conn config)).steps
serve-dials_example = serve-dials packages calm 9 0 two_frames (new_conn config) refl
