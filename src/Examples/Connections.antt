-- ===== src/Examples/Connections.antt =====
-- A connection that logs in with PLAIN and goes on.
use kroxy.Base.{refl, ℤ, pos, true, Option, none, some, [], ◌∷◌, ◌++◌, Bytes, codes}
use kroxy.Examples.Blobs.{codec}
use kroxy.Examples.Logins.{acme_tenant, one}
use kroxy.Protocol.Header.{RequestHeader}
use kroxy.Proxy.Conn.{authenticated, ServerConfig, Conn, Packages, Answers}
use kroxy.Proxy.Dispatch.{dispatch}
use kroxy.Proxy.Stable.{IsSame, dispatch-IsSame}
use kroxy.Rewrite.Kmsg.{TopicsMessage, FetchRequest}
use kroxy.Rewrite.Message.{Api, RequestOf, ResponseOf}

abbrev pub fetch_orders : FetchRequest (Unit {0})
fetch_orders = record {
  topics = record { topic = codes "orders"; rest = tt } ∷ [];
  forgotten_topics = [];
  rest = tt;
}

abbrev pub fetched_orders : TopicsMessage (Unit {0})
fetched_orders = record { topics = record { topic = codes "orders"; rest = tt } ∷ []; rest = tt }

abbrev pub read_fetch : (a : Api) → ℤ → Bytes → Option (RequestOf (Unit {0}) a)
read_fetch Api.fetch version body = some fetch_orders
read_fetch _ version body = none

abbrev pub read_fetched : (a : Api) → ℤ → Bytes → Option (ResponseOf (Unit {0}) a)
read_fetched Api.fetch version body = some fetched_orders
read_fetched _ version body = none

-- Every fetch is one of the topic "orders"; the SASL bodies are the mechanism and the payload.
abbrev pub packages : Packages (Unit {0})
packages = record {
  members = codec;
  read_request = read_fetch;
  read_response = read_fetched;
  read_handshake = λ version body. some body;
  read_authenticate = λ version body. some body;
  split_host_port = λ s. some (s, codes "9092");
  atoi = λ s. some (pos 9092);
}

abbrev pub config : ServerConfig
config = record { advertised = codes "proxy"; upstream_sasl_mechanism = [] }

abbrev pub answers : Answers
answers = record { dials = true; relay = none; round_trip = some []; writes = true }

abbrev pub handshake_frame : Bytes
handshake_frame = 0 ∷ 17 ∷ 0 ∷ 1 ∷ 0 ∷ 0 ∷ 0 ∷ 1 ∷ 0 ∷ 0 ∷ codes "PLAIN"

abbrev pub login_frame : Bytes
login_frame = 0 ∷ 36 ∷ 0 ∷ 1 ∷ 0 ∷ 0 ∷ 0 ∷ 2 ∷ 0 ∷ 0 ∷ 0 ∷ (codes "acme" ++ (0 ∷ codes "secret"))

abbrev fetch_frame : Bytes
fetch_frame = 0 ∷ 1 ∷ 0 ∷ 4 ∷ 0 ∷ 0 ∷ 0 ∷ 3 ∷ 0 ∷ 0 ∷ []

abbrev fetch_header : RequestHeader
fetch_header = record {
  api_key = pos 1;
  api_version = pos 4;
  correlation_id = pos 3;
  client_id = [];
  header_version = 1;
  header_size = pos 10;
}

abbrev pub acme_conn : Conn
acme_conn = record {
  cfg = config;
  state = authenticated;
  client_mechanism = codes "PLAIN";
  tenant = acme_tenant;
  password = codes "secret";
  upstream = none;
  scram_rounds_completed = 0;
}

dispatch-IsSame_example :
    IsSame acme_conn (dispatch packages answers one acme_conn fetch_header fetch_frame []).conn
dispatch-IsSame_example =
    dispatch-IsSame packages answers one acme_conn fetch_header fetch_frame [] refl
