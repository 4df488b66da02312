-- ===== src/Examples/Relays.antt =====
-- A round of SCRAM that the broker accepts.
use kroxy.Base.{refl, true, pos, none, some, [], ◌∷◌, codes, str_eq}
use kroxy.Auth.Scram.{is_scram_mechanism}
use kroxy.Examples.Connections.{packages, config}
use kroxy.Examples.Logins.{one, acme_tenant}
use kroxy.Examples.Upstreams
use kroxy.Protocol.Header.{RequestHeader, response_header_version}
use kroxy.Protocol.Keys.{is_flexible_request}
use kroxy.Proxy.Conn.{relay_sasl_in_flight, Dial, dial_for_scram, Conn, Answers}
use kroxy.Proxy.Relay.{Outcome, relay_verbatim}
use kroxy.Proxy.Sasl.{handle_sasl_authenticate}
use kroxy.Upstream.Dial.{relay_sasl_authenticate}
use kroxy.Upstream.Link.{Link}

abbrev link : Dial
link = dial_for_scram (codes "k:9092") (codes "SCRAM-SHA-256")

abbrev flying : Conn
flying = record {
  cfg = config;
  state = relay_sasl_in_flight;
  client_mechanism = codes "SCRAM-SHA-256";
  tenant = acme_tenant;
  password = [];
  upstream = some link;
  scram_rounds_completed = 1;
}

abbrev broker : Link
broker = record {
  is_open = true;
  request_timeout = 30000;
  deadline = none;
  last_id = pos 3;
  sent = [];
  network = record { connects = true; deadlines = []; frames = some (0 ∷ 0 ∷ 0 ∷ 4 ∷ 7 ∷ []) ∷ [] };
}

abbrev accepting : Answers
accepting = record {
  dials = true;
  relay = some (7 ∷ [], pos 0, []);
  round_trip = none;
  writes = true;
}

abbrev header : RequestHeader
header = record {
  api_key = pos 36;
  api_version = pos 1;
  correlation_id = pos 9;
  client_id = [];
  header_version = 1;
  header_size = pos 10;
}

relay_verbatim_example :
    Outcome packages Upstreams.packages accepting one flying
      (codes "c=biws")
      broker
      (relay_sasl_authenticate Upstreams.packages (codes "c=biws") broker)
      (handle_sasl_authenticate packages accepting one flying header (codes "c=biws"))
unfolding relay_sasl_authenticate response_header_version is_flexible_request is_scram_mechanism
    str_eq
relay_verbatim_example =
    relay_verbatim packages Upstreams.packages accepting one flying link header (codes "c=biws")
      (codes "c=biws") broker (record { flying = refl; scram = refl; link = refl; decoded = refl })
      refl refl
