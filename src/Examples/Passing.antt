-- ===== src/Examples/Passing.antt =====
-- A DeleteRecords request, which is not advertised.
use kroxy.Base.{
  ◌≡◌, refl, arith, pos, Option, none, some, ◌++◌, take, drop, All, [], ◌∷◌, Bytes, codes,
}
use kroxy.Examples.Connections.{packages, acme_conn, answers}
use kroxy.Examples.Logins.{one}
use kroxy.Protocol.Header.{RequestHeader, parse_request_header}
use kroxy.Protocol.Keys.{is_flexible_request}
use kroxy.Proxy.Advertised.{IsAnyOf, advertised_keys}
use kroxy.Proxy.Conn.{Answers, Conn, Dial, dial, with_upstream, passed, answered, raw, counted}
use kroxy.Proxy.Counts.{requests, tenant_label}
use kroxy.Proxy.Dispatch.{serve_frame}
use kroxy.Proxy.Passthrough.{answer_of, unadvertised_passed}
use kroxy.Protocol.Words.{IsByte}
use kroxy.Upstream.RoundTrip.{UpstreamConn, round_trip}

abbrev link : Dial
link = dial (codes "k:9092") (codes "acme") (codes "secret")

abbrev linked : Conn
linked = with_upstream acme_conn link

-- With a name of another tenant in its body.
abbrev frame : Bytes
frame = 0 ∷ 21 ∷ 0 ∷ 0 ∷ 0 ∷ 0 ∷ 0 ∷ 9 ∷ 255 ∷ 255 ∷ codes "other.orders"

abbrev header : RequestHeader
header = record {
  api_key = pos 21;
  api_version = pos 0;
  correlation_id = pos 9;
  client_id = [];
  header_version = 1;
  header_size = pos 10;
}

not_advertised : IsAnyOf (pos 21) advertised_keys → ⊥
unfolding advertised_keys
not_advertised h = ground (arith, h)

-- The upstream answers every request with its correlation id and one more byte.
abbrev broker : Bytes → Option Bytes
broker sent = some (take 4 (drop 4 sent) ++ (77 ∷ []))

abbrev upstream : UpstreamConn
upstream = record { last_id = pos 5 }

abbrev passing : Answers
passing = record answers { round_trip = answer_of (round_trip upstream frame (pos 9) broker).1 }

frame_bytes : All IsByte frame
frame_bytes = omega arith

unadvertised_passed_example : serve_frame packages passing one linked frame ≡ record {
  conn = linked;
  events =
      passed link frame
      ∷ answered (raw (0 ∷ 0 ∷ 0 ∷ 9 ∷ 77 ∷ []))
      ∷ counted (requests (pos 21) (tenant_label (codes "acme")))
      ∷ [];
  error = none;
}
unfolding parse_request_header is_flexible_request
unadvertised_passed_example =
    unadvertised_passed packages passing one linked frame (codes "other.orders") (77 ∷ []) header
      link upstream broker frame_bytes refl refl refl refl not_advertised refl refl refl
