-- ===== src/Examples/Credentials.antt =====
-- A PLAIN login and its dial, and a run of the resolver's operations.
use kroxy.Base.{◌≡◌, ◌↔◌, refl, pos, List, [], ◌∷◌, ◌++◌, Bytes, codes, str_eq, ok}
use kroxy.Auth.Plain.{PlainCredentials, parse_plain, plain_payload, mechanism_plain}
use kroxy.Auth.PlainUser.{IsPayload, parse_plain_iff}
use kroxy.Auth.Scram.{is_scram_mechanism}
use kroxy.Examples.Connections.{packages, config, answers}
use kroxy.Examples.Logins.{acme_tenant, one, one-IsCatalogue}
use kroxy.Examples.Upstreams
use kroxy.Examples.Upstreams.{network, dialled_link, dial_succeeds}
use kroxy.Protocol.Header.{RequestHeader}
use kroxy.Proxy.Conn.{Conn, new_conn, dial, choose_dial, should_translate_plain_to_scram}
use kroxy.Proxy.Credentials.{IsLogin, login_forwarded}
use kroxy.Proxy.Sasl.{after_handshake, handle_sasl_authenticate_plain}
use kroxy.Resolver.Abstract.{
  Operation, getting, setting, deleting, operate, promise, run, view, view_of_run, run-promise,
}
use kroxy.Resolver.Memory.{get, lookup}
use kroxy.Upstream.Link.{api_versions, sasl_handshake, sasl_authenticate}

abbrev payload : Bytes
payload = codes "admin" ++ (0 ∷ (codes "acme" ++ (0 ∷ codes "secret")))

abbrev credentials : PlainCredentials
credentials = record { authzid = codes "admin"; username = codes "acme"; password = codes "secret" }

parse_plain_iff_example : (parse_plain payload ≡ ok credentials) ↔ IsPayload payload credentials
parse_plain_iff_example = parse_plain_iff payload credentials

abbrev greeted : Conn
greeted = after_handshake (new_conn config) (codes "PLAIN")

abbrev header : RequestHeader
header = record {
  api_key = pos 36;
  api_version = pos 1;
  correlation_id = pos 2;
  client_id = [];
  header_version = 1;
  header_size = pos 10;
}

login : IsLogin packages one greeted header payload payload credentials acme_tenant
unfolding parse_plain get lookup str_eq should_translate_plain_to_scram is_scram_mechanism
login = record { awaited = refl; decoded = refl; parsed = refl; known = refl; untranslated = refl }

login_forwarded_example :
    (choose_dial (handle_sasl_authenticate_plain packages answers one greeted header payload).conn
      ≡ dial (codes "k:9092") (codes "acme") (codes "secret"))
    × (dialled_link.sent
        ≡ (pos 1, api_versions)
          ∷ (pos 2, sasl_handshake mechanism_plain)
          ∷ (pos 3, sasl_authenticate (plain_payload (codes "acme") (codes "secret")))
          ∷ [])
    × (parse_plain (plain_payload (codes "acme") (codes "secret"))
        ≡ ok (record { authzid = []; username = codes "acme"; password = codes "secret" }))
login_forwarded_example =
    login_forwarded packages Upstreams.packages answers one greeted header payload payload
      credentials acme_tenant network dialled_link login one-IsCatalogue dial_succeeds

-- A duplicate, a delete and a second delete.
abbrev operations : List Operation
operations =
    setting acme_tenant
    ∷ getting (codes "acme")
    ∷ deleting (codes "acme")
    ∷ deleting (codes "acme")
    ∷ []

run-promise_example : view_of_run (run operate operations one) ≡ run promise operations (view one)
run-promise_example = run-promise operations one
