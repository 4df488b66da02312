-- ===== src/Proxy/Provenance.antt =====
-- proxy/conn.go: where the tenant of a connection comes from.
use kroxy.Base.{◌≡◌, inl, inr, arith, ℕ, zero, suc, Bytes, ok, All, Option-cases, Result-cases}
use kroxy.Auth.Plain.{PlainCredentials, parse_plain}
use kroxy.Auth.Scram.{parse_scram_client_first_username}
use kroxy.Protocol.Framing.{Reader}
use kroxy.Protocol.Header.{RequestHeader, parse_request_header, slice_from}
use kroxy.Proxy.Conn.{Conn, Packages, Answers, Step, with_upstream, choose_dial, dial_for_scram}
use kroxy.Proxy.Dispatch.{
  serve_frame, dispatch, forward_passthrough, forward_rewritten, rewrite_handler,
}
use kroxy.Proxy.Loop.{RoundOf, stops, fails, goes_on, step_at, serve-RoundOf}
use kroxy.Proxy.Outgoing.{handle-Handled}
use kroxy.Proxy.Sasl.{
  handle_sasl_handshake, handle_sasl_authenticate, handle_sasl_authenticate_plain, accept_plain,
  handle_sasl_authenticate_scram, first_message, relay_payload, in_flight, with_tenant,
}
use kroxy.Proxy.Serve.{Round, Served, serve}
use kroxy.Resolver.Memory.{Tenant, MemoryResolver, get}
use kroxy.Rewrite.Message.{Api}

module _ {R : Type 0} (P : Packages R) (Q : Tenant → Type 0) where
  -- What holds of every tenant that the resolver finds.
  abbrev pub Finds : MemoryResolver → Type 0
  Finds r = (id : Bytes) (t : Tenant) → get r id ≡ ok t → Q t

  module _ (w : Answers) (r : MemoryResolver) where
    handshake_tenant :
        (c : Conn) (hdr : RequestHeader) (body : Bytes)
        → Q c.tenant
        → Q (handle_sasl_handshake P w r c hdr body).conn.tenant
    unfolding handle_sasl_handshake
    handshake_tenant c hdr body h = ground (arith, h)

    relay_tenant :
        (c0 c : Conn) (payload : Bytes)
        → Q c.tenant
        → Q (relay_payload P w r c0 c payload).conn.tenant
    unfolding relay_payload
    relay_tenant c0 c payload h = ground (arith, h)

    accept_tenant :
        (c : Conn) (creds : PlainCredentials)
        → Finds r
        → Q c.tenant
        → Q (accept_plain P w r c creds).conn.tenant
    accept_tenant c creds f h = elim (Result-cases (get r creds.username)) [
      | inl (t, e) ↦ ground (arith, e, f creds.username t e)
      | inr (x, e) ↦ ground (arith, e, h)
    ]

    plain_tenant :
        (c : Conn) (hdr : RequestHeader) (body : Bytes)
        → Finds r
        → Q c.tenant
        → Q (handle_sasl_authenticate_plain P w r c hdr body).conn.tenant
    unfolding handle_sasl_authenticate_plain
    plain_tenant c hdr body f h = elim (Option-cases (P.read_authenticate hdr.api_version body)) [
      | inl e ↦ ground (arith, e, h)
      | inr (payload, e) ↦ elim (Result-cases (parse_plain payload)) [
        | inr (x, k) ↦ ground (arith, e, k, h)
        | inl (creds, k) ↦ ground (arith, e, k, h, accept_tenant c creds f h)
      ]
    ]

    first_tenant :
        (c : Conn) (payload : Bytes)
        → Finds r
        → Q c.tenant
        → Q (first_message P w r c payload).conn.tenant
    unfolding first_message
    first_tenant c payload f h = elim (Result-cases (parse_scram_client_first_username payload)) [
      | inr (x, e) ↦ ground (arith, e, h)
      | inl (username, e) ↦ elim (Result-cases (get r username)) [
        | inr (x, k) ↦ ground (arith, e, k, h)
        | inl (t, k) ↦
            let c' = in_flight (with_tenant c t) (dial_for_scram t.upstream c.client_mechanism) in
            ground (arith, e, k, f username t k, relay_tenant c c' payload (f username t k))
      ]
    ]

    authenticate_tenant :
        (c : Conn) (hdr : RequestHeader) (body : Bytes)
        → Finds r
        → Q c.tenant
        → Q (handle_sasl_authenticate P w r c hdr body).conn.tenant
    unfolding handle_sasl_authenticate handle_sasl_authenticate_scram
    authenticate_tenant c hdr body f h =
        elim (Option-cases (P.read_authenticate hdr.api_version body)) [
          | inl e ↦ ground (arith, e, h, plain_tenant c hdr body f h)
          | inr (payload, e) ↦ ground (
            arith,
            e,
            h,
            plain_tenant c hdr body f h,
            first_tenant c payload f h,
            relay_tenant c c payload h,
          )
        ]

    passthrough_tenant :
        (c : Conn) (frame : Bytes) → Q c.tenant → Q (forward_passthrough P w r c frame).conn.tenant
    unfolding forward_passthrough
    passthrough_tenant c frame h = ground (arith, h)

    rewritten_tenant :
        (c : Conn) (a : Api) (hdr : RequestHeader) (body : Bytes)
        → (forward_rewritten P w r c a hdr body).conn.tenant ≡ c.tenant
    unfolding forward_rewritten
    rewritten_tenant c a hdr body = elim (Option-cases c.upstream) [
      | inr (d, e) ↦ ground (arith, e, (handle-Handled P w c d a hdr body).same)
      | inl e ↦
          let c' = with_upstream c (choose_dial c) in
          ground (arith, e, (handle-Handled P w c' (choose_dial c) a hdr body).same)
    ]

    dispatch_tenant :
        (c : Conn) (hdr : RequestHeader) (frame body : Bytes)
        → Finds r
        → Q c.tenant
        → Q (dispatch P w r c hdr frame body).conn.tenant
    unfolding dispatch
    dispatch_tenant c hdr frame body f h = elim (Option-cases (rewrite_handler hdr.api_key)) [
      | inl e ↦ ground (
        arith,
        e,
        h,
        handshake_tenant c hdr body h,
        authenticate_tenant c hdr body f h,
        passthrough_tenant c frame h,
      )
      | inr (a, e) ↦
          let forwarded : Q (forward_rewritten P w r c a hdr body).conn.tenant =
            rw (rewritten_tenant c a hdr body) h in
          ground (
            arith,
            e,
            h,
            handshake_tenant c hdr body h,
            authenticate_tenant c hdr body f h,
            forwarded,
          )
    ]

    serve_frame_tenant :
        (c : Conn) (frame : Bytes)
        → Finds r
        → Q c.tenant
        → Q (serve_frame P w r c frame).conn.tenant
    unfolding serve_frame
    serve_frame_tenant c frame f h = elim (Result-cases (parse_request_header frame)) [
      | inr (x, e) ↦ rw (serve_frame, e) h
      | inl (hdr, e) ↦ elim (Result-cases (slice_from frame hdr.header_size)) [
        | inr (x, k) ↦ rw (serve_frame, e, k) h
        | inl (body, k) ↦ rw (serve_frame, e, k) (dispatch_tenant c hdr frame body f h)
      ]
    ]

  abbrev pub HasTenant : Step R → Type 0
  HasTenant s = Q s.conn.tenant

  module _ (rounds : ℕ → Round) (f : (i : ℕ) → Finds (rounds i).resolver) where
    step_tenant :
        (i : ℕ) (frame : Bytes) (c : Conn) → Q c.tenant → HasTenant (step_at P rounds i frame c)
    step_tenant i frame c h =
        serve_frame_tenant (rounds i).answers (rounds i).resolver c frame (f i) h

    round_tenant :
        (fuel i : ℕ) (client : Reader) (c : Conn) (s : Served R)
        → Q c.tenant
        → ((client' : Reader) (c' : Conn)
            → Q c'.tenant
            → All HasTenant (serve P rounds fuel (suc i) client' c').steps)
        → RoundOf P rounds fuel i client c s
        → All HasTenant s.steps
    round_tenant fuel i client c _ h ih (stops e k) = tt
    round_tenant fuel i client c _ h ih (fails frame client' e k) = (step_tenant i frame c h, tt)
    round_tenant fuel i client c _ h ih (goes_on frame client' k) = (
      step_tenant i frame c h,
      ih client' (step_at P rounds i frame c).conn (step_tenant i frame c h),
    )

    -- If what holds of the connection's tenant also holds of each one that the resolver finds in
    -- any round, then it holds behind every step.
    pub serve_tenant :
        (fuel i : ℕ) (client : Reader) (c : Conn)
        → Q c.tenant
        → All HasTenant (serve P rounds fuel i client c).steps
    unfolding serve
    serve_tenant zero i client c h = tt
    serve_tenant (suc fuel) i client c h =
        round_tenant fuel i client c _ h (λ client' c'. serve_tenant fuel (suc i) client' c')
          (serve-RoundOf P rounds fuel i client c)
