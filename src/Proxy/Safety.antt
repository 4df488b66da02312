-- ===== src/Proxy/Safety.antt =====
-- proxy/conn.go: what a connection may do, and that the SASL handlers do only that.
use kroxy.Base.{
  ◌≡◌, inl, inr, refl, arith, some, Bytes, All, Bool-cases, Option-cases, Result-cases,
}
use kroxy.Auth.Scram.{is_scram_mechanism, parse_scram_client_first_username}
use kroxy.Protocol.Header.{RequestHeader}
use kroxy.Proxy.Conn.{
  authenticated, address, dial_for_scram, Conn, Packages, Answers, Event, dialled, relayed,
  requested, passed, answered, counted, Step,
}
use kroxy.Proxy.Sasl.{
  with_tenant, in_flight, handle_sasl_handshake, handle_sasl_authenticate_plain, relay_payload,
  first_message, handle_sasl_authenticate_scram, handle_sasl_authenticate,
}
use kroxy.Proxy.Invariant.{IsConn, plain-IsConn, scram-IsConn}
use kroxy.Resolver.Memory.{MemoryResolver, get}
use kroxy.Resolver.Catalogue.{IsTenant, IsCatalogue}
use kroxy.Rewrite.Isolation.{Scoped}
use kroxy.Rewrite.Message.RequestNames.{request_names}

module _ {R : Type 0} (P : Packages R) where
  -- What a connection may do on the network: reach only its tenant's upstream; and send requests
  -- only when it is authenticated, for a valid tenant, with the names of a rewritten one empty
  -- or the tenant's. Those are the names of request_names, without the names in member blobs and
  -- those that stay as they are (left_names).
  abbrev pub Permitted : Conn → Event R → Type 0
  Permitted c (dialled d) = address d ≡ c.tenant.upstream
  Permitted c (relayed d payload) = address d ≡ c.tenant.upstream
  Permitted c (requested d a req) =
      (address d ≡ c.tenant.upstream)
      × (c.state ≡ authenticated)
      × IsTenant c.tenant
      × All (Scoped c.tenant.topic_prefix) (request_names R a req)
  Permitted c (passed d frame) =
      (address d ≡ c.tenant.upstream) × (c.state ≡ authenticated) × IsTenant c.tenant
  Permitted c (answered resp) = Unit
  Permitted c (counted n) = Unit

  pub record IsSafe (s : Step R) : Type 0 where
    pub keeps : IsConn s.conn
    pub permitted : All (Permitted s.conn) s.events

  module _ (w : Answers) (r : MemoryResolver) where
    pub handshake-Permitted :
        (c : Conn) (hdr : RequestHeader) (body : Bytes)
        → All
            (Permitted (handle_sasl_handshake P w r c hdr body).conn)
            (handle_sasl_handshake P w r c hdr body).events
    unfolding handle_sasl_handshake
    handshake-Permitted c hdr body = ground arith

    plain-Permitted :
        (c : Conn) (hdr : RequestHeader) (body : Bytes)
        → All
            (Permitted (handle_sasl_authenticate_plain P w r c hdr body).conn)
            (handle_sasl_authenticate_plain P w r c hdr body).events
    unfolding handle_sasl_authenticate_plain
    plain-Permitted c hdr body = ground arith

    relay-Permitted :
        (c0 c : Conn) (payload : Bytes)
        → c.upstream ≡ some (dial_for_scram c.tenant.upstream c.client_mechanism)
        → All
            (Permitted (relay_payload P w r c0 c payload).conn)
            (relay_payload P w r c0 c payload).events
    unfolding relay_payload
    relay-Permitted c0 c payload e = ground (arith, e)

    relay-tenant :
        (c0 c : Conn) (payload : Bytes) → (relay_payload P w r c0 c payload).conn.tenant ≡ c.tenant
    unfolding relay_payload
    relay-tenant c0 c payload = ground arith

    first_message-Permitted :
        (c : Conn) (payload : Bytes)
        → All
            (Permitted (first_message P w r c payload).conn)
            (first_message P w r c payload).events
    unfolding first_message
    first_message-Permitted c payload =
        elim (Result-cases (parse_scram_client_first_username payload)) [
          | inr (x, e) ↦ ground (arith, e)
          | inl (username, e) ↦ elim (Result-cases (get r username)) [
            | inr (x, k) ↦ ground (arith, e, k)
            | inl (t, k) ↦
                let c' =
                  in_flight (with_tenant c t) (dial_for_scram t.upstream c.client_mechanism) in
                ground (arith, e, k, relay-Permitted c c' payload refl, relay-tenant c c' payload)
          ]
        ]

    scram-Permitted :
        (c : Conn) (hdr : RequestHeader) (body : Bytes)
        → IsConn c
        → All
            (Permitted (handle_sasl_authenticate_scram P w r c hdr body).conn)
            (handle_sasl_authenticate_scram P w r c hdr body).events
    unfolding handle_sasl_authenticate_scram
    scram-Permitted c hdr body h = elim (Option-cases (P.read_authenticate hdr.api_version body)) [
      | inl e ↦ ground (arith, e, h)
      | inr (payload, e) ↦
          ground (arith, e, h, first_message-Permitted c payload, relay-Permitted c c payload)
    ]

    pub authenticate-IsSafe :
        (c : Conn) (hdr : RequestHeader) (body : Bytes)
        → IsCatalogue r.tenants
        → IsConn c
        → IsSafe (handle_sasl_authenticate P w r c hdr body)
    unfolding handle_sasl_authenticate
    authenticate-IsSafe c hdr body v h = elim (Bool-cases (is_scram_mechanism c.client_mechanism)) [
      | inl s ↦
          rw (handle_sasl_authenticate, s)
            (record {
              keeps = scram-IsConn P w r c hdr body v s h;
              permitted = scram-Permitted c hdr body h;
            })
      | inr s ↦
          rw (handle_sasl_authenticate, s)
            (record {
              keeps = plain-IsConn P w r c hdr body v s h;
              permitted = plain-Permitted c hdr body;
            })
    ]
