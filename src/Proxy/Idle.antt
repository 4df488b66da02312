-- ===== src/Proxy/Idle.antt =====
-- proxy/conn.go: until a login is under way there is no upstream connection.
use kroxy.Base.{◌≡◌, inl, inr, arith, none, Bytes, Option-cases, Result-cases}
use kroxy.Auth.Scram.{parse_scram_client_first_username}
use kroxy.Protocol.Header.{RequestHeader, parse_request_header, slice_from}
use kroxy.Proxy.Conn.{
  ConnState, await_handshake, await_auth, relay_sasl_in_flight, authenticated, Conn, Packages,
  Answers, with_upstream, choose_dial, dial_for_scram,
}
use kroxy.Proxy.Dispatch.{
  serve_frame, dispatch, forward_passthrough, forward_rewritten, rewrite_handler,
}
use kroxy.Proxy.Outgoing.{handle-Handled}
use kroxy.Proxy.Sasl.{
  handle_sasl_handshake, handle_sasl_authenticate, handle_sasl_authenticate_plain,
  handle_sasl_authenticate_scram, first_message, relay_payload, in_flight, with_tenant,
}
use kroxy.Resolver.Memory.{MemoryResolver, get}
use kroxy.Rewrite.Message.{Api}

abbrev IdleIn : ConnState → Conn → Type 0
IdleIn await_handshake c = c.upstream ≡ none
IdleIn await_auth c = c.upstream ≡ none
IdleIn relay_sasl_in_flight c = Unit
IdleIn authenticated c = Unit

abbrev pub IsIdle : Conn → Type 0
IsIdle c = IdleIn c.state c

module _ {R : Type 0} (P : Packages R) (w : Answers) (r : MemoryResolver) where
  handshake-IsIdle :
      (c : Conn) (hdr : RequestHeader) (body : Bytes)
      → IsIdle c
      → IsIdle (handle_sasl_handshake P w r c hdr body).conn
  unfolding handle_sasl_handshake
  handshake-IsIdle c hdr body h = ground (arith, h)

  relay-IsIdle :
      (c0 c : Conn) (payload : Bytes) → IsIdle c → IsIdle (relay_payload P w r c0 c payload).conn
  unfolding relay_payload
  relay-IsIdle c0 c payload h = ground (arith, h)

  first_message-IsIdle :
      (c : Conn) (payload : Bytes) → IsIdle c → IsIdle (first_message P w r c payload).conn
  unfolding first_message
  first_message-IsIdle c payload h =
      elim (Result-cases (parse_scram_client_first_username payload)) [
        | inr (x, e) ↦ ground (arith, e, h)
        | inl (username, e) ↦ elim (Result-cases (get r username)) [
          | inr (x, k) ↦ ground (arith, e, k, h)
          | inl (t, k) ↦
              let c' = in_flight (with_tenant c t) (dial_for_scram t.upstream c.client_mechanism) in
              ground (arith, e, k, h, relay-IsIdle c c' payload tt)
        ]
      ]

  authenticate-IsIdle :
      (c : Conn) (hdr : RequestHeader) (body : Bytes)
      → IsIdle c
      → IsIdle (handle_sasl_authenticate P w r c hdr body).conn
  unfolding handle_sasl_authenticate handle_sasl_authenticate_scram handle_sasl_authenticate_plain
  authenticate-IsIdle c hdr body h =
      elim (Option-cases (P.read_authenticate hdr.api_version body)) [
        | inl e ↦ ground (arith, e, h)
        | inr (payload, e) ↦
            ground (arith, e, h, first_message-IsIdle c payload h, relay-IsIdle c c payload h)
      ]

  rewritten_state :
      (c : Conn) (a : Api) (hdr : RequestHeader) (body : Bytes)
      → (forward_rewritten P w r c a hdr body).conn.state ≡ c.state
  unfolding forward_rewritten
  rewritten_state c a hdr body = elim (Option-cases c.upstream) [
    | inr (d, e) ↦ ground (arith, e, (handle-Handled P w c d a hdr body).same)
    | inl e ↦
        let c' = with_upstream c (choose_dial c) in
        ground (arith, e, (handle-Handled P w c' (choose_dial c) a hdr body).same)
  ]

  authenticated-IsIdle : (c : Conn) → c.state ≡ authenticated → IsIdle c
  authenticated-IsIdle c h = ground (arith, h)

  dispatch-IsIdle :
      (c : Conn) (hdr : RequestHeader) (frame body : Bytes)
      → IsIdle c
      → IsIdle (dispatch P w r c hdr frame body).conn
  unfolding dispatch forward_passthrough
  dispatch-IsIdle c hdr frame body h = elim (Option-cases (rewrite_handler hdr.api_key)) [
    | inl e ↦ ground (arith, e, h, handshake-IsIdle c hdr body h, authenticate-IsIdle c hdr body h)
    | inr (a, e) ↦ ground (
      arith,
      e,
      h,
      handshake-IsIdle c hdr body h,
      authenticate-IsIdle c hdr body h,
      rewritten_state c a hdr body,
      authenticated-IsIdle (forward_rewritten P w r c a hdr body).conn,
    )
  ]

  pub serve_frame-IsIdle :
      (c : Conn) (frame : Bytes) → IsIdle c → IsIdle (serve_frame P w r c frame).conn
  unfolding serve_frame
  serve_frame-IsIdle c frame h = elim (Result-cases (parse_request_header frame)) [
    | inr (x, e) ↦ rw (serve_frame, e) h
    | inl (hdr, e) ↦ elim (Result-cases (slice_from frame hdr.header_size)) [
      | inr (x, k) ↦ rw (serve_frame, e, k) h
      | inl (body, k) ↦ rw (serve_frame, e, k) (dispatch-IsIdle c hdr frame body h)
    ]
  ]
