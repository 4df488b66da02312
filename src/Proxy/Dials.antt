-- ===== src/Proxy/Dials.antt =====
-- proxy/conn.go: the upstream connections that a client's connection opens, and the one that its
-- close will close.
use kroxy.Base.{
  ◌≡◌, inl, inr, refl, arith, ℕ, ◌+◌, true, ◌||◌, some, none, Option, Bytes, codes, str_eq,
  if◌then◌else◌, Option-cases, Result-cases,
}
use kroxy.Auth.Scram.{parse_scram_client_first_username}
use kroxy.Protocol.Header.{RequestHeader}
use kroxy.Protocol.Framing.{Reader}
use kroxy.Proxy.Counts.{Count, handshakes, resolver_calls, upstream_errors, requests}
use kroxy.Proxy.Conn.{
  Conn, Dial, Packages, Answers, Step, with_upstream, choose_dial, dial_for_scram,
}
use kroxy.Proxy.Dispatch.{dispatch, forward_passthrough, forward_rewritten, rewrite_handler}
use kroxy.Proxy.Idle.{IsIdle, serve_frame-IsIdle}
use kroxy.Proxy.Loop.{step_at}
use kroxy.Proxy.Sasl.{
  is_await_auth, handle_sasl_handshake, handle_sasl_authenticate, handle_sasl_authenticate_plain,
  handle_sasl_authenticate_scram, first_message, relay_payload, in_flight, with_tenant,
}
use kroxy.Proxy.Tally.{
  Weight, tally_all, Balanced, handle-Balanced, serve_frame-Balanced, serve_balanced,
}
use kroxy.Proxy.Serve.{Round, serve}
use kroxy.Resolver.Memory.{MemoryResolver, get}
use kroxy.Rewrite.Message.{Api}

abbrev pub attempts : Weight
attempts = record { dial = 1; relay = 0; count = λ n. 0 }

-- UpstreamErrorTotal with the kind "dial" or "scram_dial".
abbrev pub failure_of : Count → ℕ
failure_of (upstream_errors kind) =
    if str_eq kind (codes "dial") || str_eq kind (codes "scram_dial") then 1 else 0
failure_of (handshakes mechanism result) = 0
failure_of (resolver_calls result) = 0
failure_of (requests key tenant) = 0

abbrev pub failed_dials : Weight
failed_dials = record { dial = 0; relay = 0; count = failure_of }

abbrev pub links_of : Option Dial → ℕ
links_of none = 0
links_of (some d) = 1

-- How many upstream connections the connection's close closes.
abbrev pub links : Conn → ℕ
links c = links_of c.upstream

abbrev CountsDials : {R : Type 0} → Conn → Step R → Type 0
CountsDials c s = Balanced links attempts failed_dials c s

module _ {R : Type 0} (P : Packages R) (w : Answers) (r : MemoryResolver) where
  handshake-CountsDials :
      (c : Conn) (hdr : RequestHeader) (body : Bytes)
      → CountsDials c (handle_sasl_handshake P w r c hdr body)
  unfolding handle_sasl_handshake str_eq
  handshake-CountsDials c hdr body = ground arith

  plain-CountsDials :
      (c : Conn) (hdr : RequestHeader) (body : Bytes)
      → CountsDials c (handle_sasl_authenticate_plain P w r c hdr body)
  unfolding handle_sasl_authenticate_plain str_eq
  plain-CountsDials c hdr body = ground arith

  relay-CountsDials :
      (c0 c : Conn) (payload : Bytes) → CountsDials c (relay_payload P w r c0 c payload)
  unfolding relay_payload str_eq
  relay-CountsDials c0 c payload = ground arith

  first_message-CountsDials :
      (c : Conn) (payload : Bytes)
      → c.upstream ≡ none
      → CountsDials c (first_message P w r c payload)
  unfolding first_message str_eq
  first_message-CountsDials c payload h =
      elim (Result-cases (parse_scram_client_first_username payload)) [
        | inr (x, e) ↦ ground (arith, e)
        | inl (username, e) ↦ elim (Result-cases (get r username)) [
          | inr (x, k) ↦ ground (arith, e, k)
          | inl (t, k) ↦
              let c' = in_flight (with_tenant c t) (dial_for_scram t.upstream c.client_mechanism) in
              ground (arith, e, k, h, relay-CountsDials c c' payload)
        ]
      ]

  await_auth_idle : (c : Conn) → IsIdle c → is_await_auth c.state ≡ true → c.upstream ≡ none
  await_auth_idle c h e = ground (arith, h, e)

  authenticate-CountsDials :
      (c : Conn) (hdr : RequestHeader) (body : Bytes)
      → IsIdle c
      → CountsDials c (handle_sasl_authenticate P w r c hdr body)
  unfolding handle_sasl_authenticate handle_sasl_authenticate_scram str_eq
  authenticate-CountsDials c hdr body h =
      elim (Option-cases (P.read_authenticate hdr.api_version body)) [
        | inl e ↦ ground (arith, e, plain-CountsDials c hdr body)
        | inr (payload, e) ↦ ground (
          arith,
          e,
          plain-CountsDials c hdr body,
          first_message-CountsDials c payload,
          await_auth_idle c h,
          relay-CountsDials c c payload,
        )
      ]

  passthrough-CountsDials :
      (c : Conn) (frame : Bytes) → CountsDials c (forward_passthrough P w r c frame)
  unfolding forward_passthrough str_eq
  passthrough-CountsDials c frame = ground arith

  rewritten-CountsDials :
      (c : Conn) (a : Api) (hdr : RequestHeader) (body : Bytes)
      → CountsDials c (forward_rewritten P w r c a hdr body)
  unfolding forward_rewritten str_eq
  rewritten-CountsDials c a hdr body = elim (Option-cases c.upstream) [
    | inr (d, e) ↦ ground (arith, e, handle-Balanced P links attempts failed_dials w c d a hdr body)
    | inl e ↦ ground (
      arith,
      e,
      handle-Balanced P links attempts failed_dials w (with_upstream c (choose_dial c))
          (choose_dial c) a hdr body,
    )
  ]

  dispatch-CountsDials :
      (c : Conn) (hdr : RequestHeader) (frame body : Bytes)
      → IsIdle c
      → CountsDials c (dispatch P w r c hdr frame body)
  unfolding dispatch
  dispatch-CountsDials c hdr frame body h = elim (Option-cases (rewrite_handler hdr.api_key)) [
    | inl e ↦ ground (
      arith,
      e,
      handshake-CountsDials c hdr body,
      authenticate-CountsDials c hdr body h,
      passthrough-CountsDials c frame,
    )
    | inr (a, e) ↦ ground (
      arith,
      e,
      handshake-CountsDials c hdr body,
      authenticate-CountsDials c hdr body h,
      rewritten-CountsDials c a hdr body,
    )
  ]

module _ {R : Type 0} (P : Packages R) (rounds : ℕ → Round) where
  dial_balanced :
      (i : ℕ) (frame : Bytes) (c : Conn) → IsIdle c → CountsDials c (step_at P rounds i frame c)
  dial_balanced i frame c h =
      let w = (rounds i).answers in
      let r = (rounds i).resolver in
      serve_frame-Balanced P links attempts failed_dials w r c frame (λ key tenant. refl)
        (λ hdr body. dispatch-CountsDials P w r c hdr frame body h)

  -- Over the whole loop of serve, from a connection that has no upstream connection until a login is
  -- under way: every dial was counted as failed, or opened the one upstream connection that the
  -- client's connection holds at the end; so no more than one is opened, and none is lost.
  pub serve-dials :
      (fuel i : ℕ) (client : Reader) (c : Conn)
      → IsIdle c
      → links (serve P rounds fuel i client c).conn
          + tally_all failed_dials (serve P rounds fuel i client c).steps
        ≡ links c + tally_all attempts (serve P rounds fuel i client c).steps
  serve-dials =
      serve_balanced P rounds IsIdle links attempts failed_dials
        (λ i frame c h. serve_frame-IsIdle P (rounds i).answers (rounds i).resolver c frame h)
        dial_balanced
