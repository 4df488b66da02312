-- ===== src/Proxy/Counts.antt =====
-- proxy/conn.go, observeHandshake and the other calls on the metrics: what a connection counts, and
-- under which labels. A nil Metrics drops the counts.
use kroxy.Base.{ℤ, ◌||◌, Bytes, codes, str_eq, is_empty, if◌then◌else◌}
use kroxy.Auth.Plain.{mechanism_plain}
use kroxy.Auth.Scram.{mechanism_scram_sha256, mechanism_scram_sha512}

-- SaslHandshakeTotal by mechanism and result, ResolverCallsTotal by result, UpstreamErrorTotal by
-- kind, and ObserveRequest by API key and tenant.
pub data Count : Type 0 where
  handshakes : Bytes → Bytes → Count
  resolver_calls : Bytes → Count
  upstream_errors : Bytes → Count
  requests : ℤ → Bytes → Count

-- The label for a mechanism that a client names.
unfoldable pub mechanism_label : Bytes → Bytes
mechanism_label mechanism =
    if str_eq mechanism mechanism_plain
      || str_eq mechanism mechanism_scram_sha256
      || str_eq mechanism mechanism_scram_sha512
    then mechanism
    else codes "unknown"

abbrev pub observe_handshake : Bytes → Bytes → Count
observe_handshake mechanism result = handshakes (mechanism_label mechanism) result

-- The label for the tenant of a request.
unfoldable pub tenant_label : Bytes → Bytes
tenant_label id = if is_empty id then codes "_unauth" else id
