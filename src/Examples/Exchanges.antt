-- ===== src/Examples/Exchanges.antt =====
-- One exchange with an upstream that answers with the request's id and the payload 42.
use kroxy.Base.{All, ◌≡◌, refl, pos, Option, some, [], ◌∷◌, ◌++◌, Bytes, take, drop, ok, arith}
use kroxy.Protocol.Words.{IsByte}
use kroxy.Protocol.Header.{RequestHeader, parse_request_header}
use kroxy.Protocol.Keys.{is_flexible_request}
use kroxy.Upstream.Transparent.{round_trip_transparent}
use kroxy.Upstream.Echo.{round_trip_echo}
use kroxy.Upstream.RoundTrip.{UpstreamConn, round_trip}

abbrev fresh : UpstreamConn
fresh = record { last_id = pos 0 }

abbrev request : Bytes
request = 0 ∷ 3 ∷ 0 ∷ 1 ∷ 0 ∷ 0 ∷ 0 ∷ 9 ∷ 0 ∷ 0 ∷ []

abbrev answer : Bytes → Option Bytes
answer sent = some (take 4 (drop 4 sent) ++ (42 ∷ []))

abbrev header : RequestHeader
header = record {
  api_key = pos 3;
  api_version = pos 1;
  correlation_id = pos 9;
  client_id = [];
  header_version = 1;
  header_size = pos 10;
}

header_parsed : parse_request_header request ≡ ok header
unfolding parse_request_header is_flexible_request
header_parsed = refl

request_bytes : All IsByte request
request_bytes = ground arith

round_trip_transparent_example :
    (round_trip fresh request (pos 9) answer).1 ≡ ok (0 ∷ 0 ∷ 0 ∷ 9 ∷ 42 ∷ [])
round_trip_transparent_example =
    round_trip_transparent fresh request header answer (42 ∷ []) request_bytes header_parsed refl

answered : (round_trip fresh request (pos 9) answer).1 ≡ ok (0 ∷ 0 ∷ 0 ∷ 9 ∷ 42 ∷ [])
answered = round_trip_echo fresh request (pos 9) answer (42 ∷ []) (omega arith) refl
