-- ===== src/Proxy/Sasl.antt =====
-- proxy/conn.go: the SASL handlers, which the proxy answers itself.
use kroxy.Base.{
  Option, codes, is_empty, ℕ, ◌+◌, pos, Bool, true, false, ◌&&◌, not, none, some, [], Bytes, str_eq,
  eq_num, leb, if◌then◌else◌, ok, err,
}
use kroxy.Auth.Plain.{PlainCredentials, mechanism_plain, parse_plain}
use kroxy.Auth.Scram.{is_scram_mechanism, parse_scram_client_first_username}
use kroxy.Protocol.Header.{RequestHeader}
use kroxy.Proxy.Conn.{
  ConnState, await_handshake, await_auth, relay_sasl_in_flight, authenticated, Dial, dial_for_scram,
  Conn, Packages, Answers, sasl_handshake, sasl_authenticate, dialled, relayed, Step, fail, emit,
  counted, write_response, decode_failed, relay_failed, nil_upstream,
}
use kroxy.Proxy.Counts.{observe_handshake, resolver_calls, upstream_errors}
use kroxy.Resolver.Memory.{Tenant, MemoryResolver, get}

abbrev pub sasl_auth_failed : ℕ
sasl_auth_failed = 58

abbrev pub unsupported_sasl_mech : ℕ
unsupported_sasl_mech = 33

abbrev pub illegal_sasl_state : ℕ
illegal_sasl_state = 34

-- The changes that the handlers make to the connection.
abbrev pub after_handshake : Conn → Bytes → Conn
after_handshake c mechanism = record {
  cfg = c.cfg;
  state = await_auth;
  client_mechanism = mechanism;
  tenant = c.tenant;
  password = c.password;
  upstream = c.upstream;
  scram_rounds_completed = c.scram_rounds_completed;
}

abbrev pub after_plain : Conn → Tenant → Bytes → Conn
after_plain c tenant password = record {
  cfg = c.cfg;
  state = authenticated;
  client_mechanism = c.client_mechanism;
  tenant = tenant;
  password = password;
  upstream = c.upstream;
  scram_rounds_completed = c.scram_rounds_completed;
}

abbrev pub with_tenant : Conn → Tenant → Conn
with_tenant c tenant = record {
  cfg = c.cfg;
  state = c.state;
  client_mechanism = c.client_mechanism;
  tenant = tenant;
  password = c.password;
  upstream = c.upstream;
  scram_rounds_completed = c.scram_rounds_completed;
}

abbrev pub in_flight : Conn → Dial → Conn
in_flight c d = record {
  cfg = c.cfg;
  state = relay_sasl_in_flight;
  client_mechanism = c.client_mechanism;
  tenant = c.tenant;
  password = c.password;
  upstream = some d;
  scram_rounds_completed = c.scram_rounds_completed;
}

-- One more accepted round; the second authenticates.
abbrev pub after_round : Conn → Conn
after_round c = record {
  cfg = c.cfg;
  state = if leb 2 (c.scram_rounds_completed + 1) then authenticated else c.state;
  client_mechanism = c.client_mechanism;
  tenant = c.tenant;
  password = c.password;
  upstream = c.upstream;
  scram_rounds_completed = c.scram_rounds_completed + 1;
}

abbrev pub is_await_handshake : ConnState → Bool
is_await_handshake await_handshake = true
is_await_handshake _ = false

abbrev pub is_await_auth : ConnState → Bool
is_await_auth await_auth = true
is_await_auth _ = false

abbrev pub is_relay : ConnState → Bool
is_relay relay_sasl_in_flight = true
is_relay _ = false

abbrev pub is_authenticated : ConnState → Bool
is_authenticated authenticated = true
is_authenticated _ = false

-- A relayed error message is left out if it is empty.
abbrev pub message_of : Bytes → Option Bytes
message_of message = if is_empty message then none else some message

module _ {R : Type 0} (P : Packages R) (w : Answers) (r : MemoryResolver) (c : Conn) where
  abbrev pub observe : Bytes → Bytes → Step R → Step R
  observe mechanism result = emit (counted (observe_handshake mechanism result))

  unfoldable pub handle_sasl_handshake : RequestHeader → Bytes → Step R
  handle_sasl_handshake hdr body = elim (P.read_handshake hdr.api_version body) [
    | none ↦ fail c decode_failed
    | some mechanism ↦
        if not (is_await_handshake c.state)
        then observe mechanism (codes "illegal_state")
            (write_response w c (sasl_handshake illegal_sasl_state))
        else if not (str_eq mechanism mechanism_plain) && not (is_scram_mechanism mechanism)
        then observe mechanism (codes "unsupported")
            (write_response w c (sasl_handshake unsupported_sasl_mech))
        else write_response w (after_handshake c mechanism) (sasl_handshake 0)
  ]

  -- An answer with one of the proxy's own error codes.
  abbrev pub refuse : Conn → ℕ → Bytes → Step R
  refuse c' code message = write_response w c' (sasl_authenticate (pos code) [] (some message))

  -- The answer to a login whose tenant is not found, and the count of one that is.
  abbrev pub unauthorized : Bytes → Conn → Step R
  unauthorized mechanism c' = emit (counted (resolver_calls (codes "unauthorized"))) (
      observe mechanism (codes "unauthorized")
        (refuse c' sasl_auth_failed (codes "authentication failed")))

  abbrev pub resolved : Step R → Step R
  resolved = emit (counted (resolver_calls (codes "ok")))

  -- The credentials of a decoded payload, from the lookup of the tenant on.
  abbrev pub accept_plain : PlainCredentials → Step R
  accept_plain creds = elim (get r creds.username) [
    | err _ ↦ unauthorized mechanism_plain c
    | ok tenant ↦ resolved (
        observe mechanism_plain (codes "ok") (
          write_response w (after_plain c tenant creds.password)
            (sasl_authenticate (pos 0) [] none)))
  ]

  unfoldable pub handle_sasl_authenticate_plain : RequestHeader → Bytes → Step R
  handle_sasl_authenticate_plain hdr body = elim (P.read_authenticate hdr.api_version body) [
    | none ↦ fail c decode_failed
    | some payload ↦
        if not (is_await_auth c.state)
        then observe mechanism_plain (codes "illegal_state")
            (refuse c illegal_sasl_state (codes "SASL handshake required"))
        else elim (parse_plain payload) [
          | err _ ↦
              observe mechanism_plain (codes "malformed")
                (refuse c sasl_auth_failed (codes "malformed PLAIN payload"))
          | ok creds ↦ accept_plain creds
        ]
  ]

  -- The second accepted round is counted as a login.
  abbrev pub count_second : Conn → Step R → Step R
  count_second c' s =
      if leb 2 (c'.scram_rounds_completed + 1)
      then observe c'.client_mechanism (codes "ok") s
      else s

  -- The relay of one payload over the upstream connection, once there is one.
  unfoldable pub relay_payload : Conn → Bytes → Step R
  relay_payload c' payload = elim c'.upstream [
    | none ↦ fail c' nil_upstream
    | some d ↦ emit (relayed d payload) (elim w.relay [
      | none ↦
          emit (counted (upstream_errors (codes "scram_relay")))
            (observe c'.client_mechanism (codes "upstream_error") (fail c' relay_failed))
      | some answer ↦
          if eq_num answer.1 0
          then count_second c' (
              write_response w (after_round c')
                (sasl_authenticate (pos 0) answer.0 (message_of answer.2)))
          else observe c'.client_mechanism (codes "unauthorized")
              (write_response w c' (sasl_authenticate answer.1 answer.0 (message_of answer.2)))
    ])
  ]

  -- The first message: resolve the tenant that it names, and dial its upstream.
  unfoldable pub first_message : Bytes → Step R
  unfolding relay_payload
  first_message payload = elim (parse_scram_client_first_username payload) [
    | err _ ↦
        observe c.client_mechanism (codes "malformed")
          (refuse c sasl_auth_failed (codes "malformed SCRAM client-first-message"))
    | ok username ↦ elim (get r username) [
      | err _ ↦ unauthorized c.client_mechanism c
      | ok tenant ↦
          let d = dial_for_scram tenant.upstream c.client_mechanism in
          resolved (
            emit (dialled d) (
              if w.dials
              then relay_payload (in_flight (with_tenant c tenant) d) payload
              else emit (counted (upstream_errors (codes "scram_dial"))) (
                  observe c.client_mechanism (codes "upstream_error") (
                    refuse (with_tenant c tenant) sasl_auth_failed
                      (codes "upstream unavailable")))))
    ]
  ]

  unfoldable pub handle_sasl_authenticate_scram : RequestHeader → Bytes → Step R
  unfolding relay_payload first_message
  handle_sasl_authenticate_scram hdr body = elim (P.read_authenticate hdr.api_version body) [
    | none ↦ fail c decode_failed
    | some payload ↦
        if not (is_await_auth c.state) && not (is_relay c.state)
        then observe c.client_mechanism (codes "illegal_state")
            (refuse c illegal_sasl_state (codes "SASL handshake required"))
        else if is_await_auth c.state
        then first_message payload
        else relay_payload c payload
  ]

  unfoldable pub handle_sasl_authenticate : RequestHeader → Bytes → Step R
  unfolding handle_sasl_authenticate_scram handle_sasl_authenticate_plain
  handle_sasl_authenticate hdr body =
      if is_scram_mechanism c.client_mechanism
      then handle_sasl_authenticate_scram hdr body
      else handle_sasl_authenticate_plain hdr body
