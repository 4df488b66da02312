-- ===== src/Proxy/Counted.antt =====
-- proxy/conn.go: a login is counted once, when the connection becomes authenticated.
use kroxy.Base.{
  ◌≡◌, inl, inr, refl, arith, ℕ, ◌+◌, false, Bytes, codes, str_eq, if◌then◌else◌, Option-cases,
  Result-cases,
}
use kroxy.Auth.Scram.{parse_scram_client_first_username}
use kroxy.Protocol.Header.{RequestHeader}
use kroxy.Protocol.Framing.{Reader}
use kroxy.Proxy.Counts.{Count, handshakes, resolver_calls, upstream_errors, requests}
use kroxy.Proxy.Conn.{Conn, Packages, Answers, Step, with_upstream, choose_dial, dial_for_scram}
use kroxy.Proxy.Dispatch.{dispatch, forward_passthrough, forward_rewritten, rewrite_handler}
use kroxy.Proxy.Loop.{step_at}
use kroxy.Proxy.Sasl.{
  is_authenticated, handle_sasl_handshake, handle_sasl_authenticate, handle_sasl_authenticate_plain,
  handle_sasl_authenticate_scram, first_message, relay_payload, in_flight, with_tenant,
}
use kroxy.Proxy.Tally.{
  Weight, nothing, tally_all-nothing, tally_all, Balanced, handle-Balanced, serve_frame-Balanced,
  serve_balanced,
}
use kroxy.Proxy.Serve.{Round, serve}
use kroxy.Resolver.Memory.{MemoryResolver, get}
use kroxy.Rewrite.Message.{Api}

-- A login is counted as such: a count of SaslHandshakeTotal with the result "ok" does.
abbrev pub login_of : Count → ℕ
login_of (handshakes mechanism result) = if str_eq result (codes "ok") then 1 else 0
login_of (resolver_calls result) = 0
login_of (upstream_errors kind) = 0
login_of (requests key tenant) = 0

abbrev pub logins : Weight
logins = record { dial = 0; relay = 0; count = login_of }

abbrev pub authenticated_now : Conn → ℕ
authenticated_now c = if is_authenticated c.state then 1 else 0

abbrev CountsLogin : {R : Type 0} → Conn → Step R → Type 0
CountsLogin c s = Balanced authenticated_now logins nothing c s

module _ {R : Type 0} (P : Packages R) (w : Answers) (r : MemoryResolver) where
  handshake-CountsLogin :
      (c : Conn) (hdr : RequestHeader) (body : Bytes)
      → CountsLogin c (handle_sasl_handshake P w r c hdr body)
  unfolding handle_sasl_handshake str_eq
  handshake-CountsLogin c hdr body = ground arith

  plain-CountsLogin :
      (c : Conn) (hdr : RequestHeader) (body : Bytes)
      → CountsLogin c (handle_sasl_authenticate_plain P w r c hdr body)
  unfolding handle_sasl_authenticate_plain str_eq
  plain-CountsLogin c hdr body = ground arith

  relay-CountsLogin :
      (c0 c : Conn) (payload : Bytes)
      → is_authenticated c.state ≡ false
      → CountsLogin c (relay_payload P w r c0 c payload)
  unfolding relay_payload str_eq
  relay-CountsLogin c0 c payload h = ground (arith, h)

  first_message-CountsLogin :
      (c : Conn) (payload : Bytes)
      → is_authenticated c.state ≡ false
      → CountsLogin c (first_message P w r c payload)
  unfolding first_message str_eq
  first_message-CountsLogin c payload h =
      elim (Result-cases (parse_scram_client_first_username payload)) [
        | inr (x, e) ↦ ground (arith, e, h)
        | inl (username, e) ↦ elim (Result-cases (get r username)) [
          | inr (x, k) ↦ ground (arith, e, k, h)
          | inl (t, k) ↦
              let c' = in_flight (with_tenant c t) (dial_for_scram t.upstream c.client_mechanism) in
              ground (arith, e, k, h, relay-CountsLogin c c' payload refl)
        ]
      ]

  authenticate-CountsLogin :
      (c : Conn) (hdr : RequestHeader) (body : Bytes)
      → CountsLogin c (handle_sasl_authenticate P w r c hdr body)
  unfolding handle_sasl_authenticate handle_sasl_authenticate_scram str_eq
  authenticate-CountsLogin c hdr body =
      elim (Option-cases (P.read_authenticate hdr.api_version body)) [
        | inl e ↦ ground (arith, e, plain-CountsLogin c hdr body)
        | inr (payload, e) ↦ ground (
          arith,
          e,
          plain-CountsLogin c hdr body,
          first_message-CountsLogin c payload,
          relay-CountsLogin c c payload,
        )
      ]

  passthrough-CountsLogin :
      (c : Conn) (frame : Bytes) → CountsLogin c (forward_passthrough P w r c frame)
  unfolding forward_passthrough
  passthrough-CountsLogin c frame = ground arith

  rewritten-CountsLogin :
      (c : Conn) (a : Api) (hdr : RequestHeader) (body : Bytes)
      → CountsLogin c (forward_rewritten P w r c a hdr body)
  unfolding forward_rewritten
  rewritten-CountsLogin c a hdr body = elim (Option-cases c.upstream) [
    | inr (d, e) ↦
        ground (arith, e, handle-Balanced P authenticated_now logins nothing w c d a hdr body)
    | inl e ↦ ground (
      arith,
      e,
      handle-Balanced P authenticated_now logins nothing w (with_upstream c (choose_dial c))
          (choose_dial c) a hdr body,
    )
  ]

  dispatch-CountsLogin :
      (c : Conn) (hdr : RequestHeader) (frame body : Bytes)
      → CountsLogin c (dispatch P w r c hdr frame body)
  unfolding dispatch
  dispatch-CountsLogin c hdr frame body = elim (Option-cases (rewrite_handler hdr.api_key)) [
    | inl e ↦ ground (
      arith,
      e,
      handshake-CountsLogin c hdr body,
      authenticate-CountsLogin c hdr body,
      passthrough-CountsLogin c frame,
    )
    | inr (a, e) ↦ ground (
      arith,
      e,
      handshake-CountsLogin c hdr body,
      authenticate-CountsLogin c hdr body,
      rewritten-CountsLogin c a hdr body,
    )
  ]

module _ {R : Type 0} (P : Packages R) (rounds : ℕ → Round) where
  login_balanced :
      (i : ℕ) (frame : Bytes) (c : Conn) → Unit {0} → CountsLogin c (step_at P rounds i frame c)
  login_balanced i frame c h =
      let w = (rounds i).answers in
      let r = (rounds i).resolver in
      serve_frame-Balanced P authenticated_now logins nothing w r c frame (λ key tenant. refl)
        (λ hdr body. dispatch-CountsLogin P w r c hdr frame body)

  -- Over the whole loop of serve, SaslHandshakeTotal has counted one login more with the result
  -- "ok" exactly if the connection became authenticated.
  pub serve-logins :
      (fuel i : ℕ) (client : Reader) (c : Conn)
      → authenticated_now (serve P rounds fuel i client c).conn
        ≡ authenticated_now c + tally_all logins (serve P rounds fuel i client c).steps
  serve-logins fuel i client c = omega (
    arith,
    serve_balanced P rounds (λ c. Unit {0}) authenticated_now logins nothing (λ i frame c h. tt)
        login_balanced fuel i client c tt,
    tally_all-nothing (serve P rounds fuel i client c).steps,
  )
