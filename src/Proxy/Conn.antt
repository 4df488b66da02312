-- ===== src/Proxy/Conn.antt =====
-- proxy/conn.go: the state of a connection, what a step of it may do, and the lazy dial of the
-- upstream. Logging is left out: no branch depends on it.
use kroxy.Base.{
  codes, ℕ, ℤ, Bool, ◌&&◌, Option, none, some, List, [], ◌∷◌, Bytes, str_eq, if◌then◌else◌,
}
use kroxy.Auth.Plain.{mechanism_plain}
use kroxy.Auth.Scram.{is_scram_mechanism}
use kroxy.Proxy.Counts.{Count, upstream_errors}
use kroxy.Resolver.Memory.{Tenant}
use kroxy.Rewrite.Members.{MemberCodec}
use kroxy.Rewrite.Message.{Api, RequestOf, ResponseOf}

pub data ConnState : Type 0 where
  await_handshake await_auth relay_sasl_in_flight authenticated : ConnState

-- An upstream connection, as what it was dialled with: Dial (PLAIN, user and password), DialSCRAM
-- (mechanism, user and password) or DialForSCRAM (mechanism only) of upstream/conn.go.
pub data Dial : Type 0 where
  dial : Bytes → Bytes → Bytes → Dial
  dial_scram : Bytes → Bytes → Bytes → Bytes → Dial
  dial_for_scram : Bytes → Bytes → Dial

abbrev pub address : Dial → Bytes
address (dial addr user password) = addr
address (dial_scram addr mechanism user password) = addr
address (dial_for_scram addr mechanism) = addr

-- ServerConfig, as far as a connection reads it.
pub record ServerConfig : Type 0 where
  pub advertised : Bytes
  pub upstream_sasl_mechanism : Bytes

pub record Conn : Type 0 where
  pub cfg : ServerConfig
  pub state : ConnState
  pub client_mechanism : Bytes
  pub tenant : Tenant
  pub password : Bytes
  pub upstream : Option Dial
  pub scram_rounds_completed : ℕ

abbrev pub new_conn : ServerConfig → Conn
new_conn cfg = record {
  cfg = cfg;
  state = await_handshake;
  client_mechanism = [];
  tenant = record { id = []; topic_prefix = []; upstream = [] };
  password = [];
  upstream = none;
  scram_rounds_completed = 0;
}

-- What the proxy calls of the packages kmsg, net and strconv.
pub record Packages (R : Type 0) : Type 0 where
  pub members : MemberCodec R
  pub read_request : (a : Api) → ℤ → Bytes → Option (RequestOf R a)
  pub read_response : (a : Api) → ℤ → Bytes → Option (ResponseOf R a)
  pub read_handshake : ℤ → Bytes → Option Bytes
  pub read_authenticate : ℤ → Bytes → Option Bytes
  pub split_host_port : Bytes → Option (Bytes × Bytes)
  pub atoi : Bytes → Option ℤ

-- How the network answers during one step: whether a dial succeeds, what the upstream relays for a
-- SASL payload (payload, error code, message) and for a request, and whether a write to the client
-- succeeds.
pub record Answers : Type 0 where
  pub dials : Bool
  pub relay : Option (Bytes × ℤ × Bytes)
  pub round_trip : Option Bytes
  pub writes : Bool

pub data Response (R : Type 0) : Type 0 where
  api_versions : Response R
  sasl_handshake : ℕ → Response R
  sasl_authenticate : ℤ → Bytes → Option Bytes → Response R
  rewritten : (a : Api) → ResponseOf R a → Response R
  raw : Bytes → Response R

-- What a step does on the network: dial an upstream, relay a SASL payload to it, send it a
-- rewritten request, hand RoundTrip a frame, which goes up with only its correlation id replaced,
-- answer the client; or on the metrics, count. The code counts only where its metrics are not nil:
-- `counted` stands for what it counts if they are not, and nothing else depends on them.
pub data Event (R : Type 0) : Type 0 where
  dialled : Dial → Event R
  relayed : Dial → Bytes → Event R
  requested : Dial → (a : Api) → RequestOf R a → Event R
  passed : Dial → Bytes → Event R
  answered : Response R → Event R
  counted : Count → Event R

-- Why a step ends the connection. `panicked` is no error of Go's: the slice expression of serve
-- panics, nothing recovers, and the process ends.
pub data ConnError : Type 0 where
  decode_failed before_auth dial_failed relay_failed round_trip_failed : ConnError
  address_failed acks_unsupported write_failed nil_upstream header_failed panicked : ConnError

pub record Step (R : Type 0) : Type 0 where
  pub conn : Conn
  pub events : List (Event R)
  pub error : Option ConnError

module _ {R : Type 0} where
  abbrev pub fail : Conn → ConnError → Step R
  fail c e = record { conn = c; events = []; error = some e }

  abbrev pub emit : Event R → Step R → Step R
  emit e s = record { conn = s.conn; events = e ∷ s.events; error = s.error }

  -- writeResponse and writeTypedResponse.
  abbrev pub write_response : Answers → Conn → Response R → Step R
  write_response w c resp =
      if w.writes
      then record { conn = c; events = answered resp ∷ []; error = none }
      else fail c write_failed

unfoldable pub should_translate_plain_to_scram : Conn → Bool
should_translate_plain_to_scram c =
    str_eq c.client_mechanism mechanism_plain && is_scram_mechanism c.cfg.upstream_sasl_mechanism

-- The dial that ensureUpstream makes.
unfoldable pub choose_dial : Conn → Dial
choose_dial c =
    if should_translate_plain_to_scram c
    then dial_scram c.tenant.upstream c.cfg.upstream_sasl_mechanism c.tenant.id c.password
    else dial c.tenant.upstream c.tenant.id c.password

abbrev pub with_upstream : Conn → Dial → Conn
with_upstream c d = record {
  cfg = c.cfg;
  state = c.state;
  client_mechanism = c.client_mechanism;
  tenant = c.tenant;
  password = c.password;
  upstream = some d;
  scram_rounds_completed = c.scram_rounds_completed;
}

-- A failed dial is counted, if the metrics are not nil (see `Event`).
abbrev pub dial_failure : {R : Type 0} → Conn → Step R
dial_failure c = emit (counted (upstream_errors (codes "dial"))) (fail c dial_failed)

-- ensureUpstream, and then the rest of its caller.
abbrev pub ensure_upstream : {R : Type 0} → Answers → Conn → (Conn → Dial → Step R) → Step R
ensure_upstream w c rest = elim c.upstream [
  | some d ↦ rest c d
  | none ↦
      let connected = rest (with_upstream c (choose_dial c)) (choose_dial c) in
      emit (dialled (choose_dial c)) (if w.dials then connected else dial_failure c)
]
