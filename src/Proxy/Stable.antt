-- ===== src/Proxy/Stable.antt =====
-- proxy/conn.go: an authenticated connection stays with its tenant.
use kroxy.Base.{◌≡◌, inl, inr, arith, Bytes, Option-cases}
use kroxy.Protocol.Header.{RequestHeader}
use kroxy.Proxy.Conn.{
  authenticated, Dial, Conn, Packages, Answers, Step, with_upstream, choose_dial, ensure_upstream,
}
use kroxy.Proxy.Dispatch.{dispatch, forward_rewritten, forward_passthrough, rewrite_handler}
use kroxy.Proxy.Handlers.{handle}
use kroxy.Proxy.Outgoing.{handle-Handled}
use kroxy.Proxy.Sasl.{
  handle_sasl_handshake, handle_sasl_authenticate, handle_sasl_authenticate_plain,
  handle_sasl_authenticate_scram,
}
use kroxy.Resolver.Memory.{MemoryResolver}
use kroxy.Rewrite.Message.{Api}

-- Authenticated as the same tenant, with the same credentials.
pub record IsSame (c c' : Conn) : Type 0 where
  pub phase : c'.state ≡ authenticated
  pub tenant : c'.tenant ≡ c.tenant
  pub mechanism : c'.client_mechanism ≡ c.client_mechanism
  pub password : c'.password ≡ c.password

module _ {R : Type 0} (P : Packages R) (w : Answers) (r : MemoryResolver) where
  handshake-IsSame :
      (c : Conn) (hdr : RequestHeader) (body : Bytes)
      → c.state ≡ authenticated
      → IsSame c (handle_sasl_handshake P w r c hdr body).conn
  unfolding handle_sasl_handshake
  handshake-IsSame c hdr body h = ground (arith, h)

  authenticate-IsSame :
      (c : Conn) (hdr : RequestHeader) (body : Bytes)
      → c.state ≡ authenticated
      → IsSame c (handle_sasl_authenticate P w r c hdr body).conn
  unfolding handle_sasl_authenticate handle_sasl_authenticate_plain handle_sasl_authenticate_scram
  authenticate-IsSame c hdr body h = ground (arith, h)

  ensure_upstream-IsSame :
      (c : Conn) (rest : Conn → Dial → Step R)
      → c.state ≡ authenticated
      → ((c' : Conn) (d : Dial) → (rest c' d).conn ≡ c')
      → IsSame c (ensure_upstream w c rest).conn
  ensure_upstream-IsSame c rest h k = elim (Option-cases c.upstream) [
    | inr (d, e) ↦ ground (arith, e, h, k c d)
    | inl e ↦ ground (arith, e, h, k (with_upstream c (choose_dial c)) (choose_dial c))
  ]

  passthrough-IsSame :
      (c : Conn) (frame : Bytes)
      → c.state ≡ authenticated
      → IsSame c (forward_passthrough P w r c frame).conn
  unfolding forward_passthrough
  passthrough-IsSame c frame h = ground (arith, h)

  rewritten-IsSame :
      (c : Conn) (a : Api) (hdr : RequestHeader) (body : Bytes)
      → c.state ≡ authenticated
      → IsSame c (forward_rewritten P w r c a hdr body).conn
  unfolding forward_rewritten
  rewritten-IsSame c a hdr body h =
      ensure_upstream-IsSame c (λ c' d. handle P w c' d a hdr body) h
        (λ c' d. (handle-Handled P w c' d a hdr body).same)

  -- An authenticated connection stays authenticated as the same tenant with the same credentials,
  -- whatever the client sends next, SASL requests included, and even if the resolver has since
  -- changed.
  pub dispatch-IsSame :
      (c : Conn) (hdr : RequestHeader) (frame body : Bytes)
      → c.state ≡ authenticated
      → IsSame c (dispatch P w r c hdr frame body).conn
  unfolding dispatch
  dispatch-IsSame c hdr frame body h = elim (Option-cases (rewrite_handler hdr.api_key)) [
    | inl e ↦ ground (
      arith,
      e,
      h,
      handshake-IsSame c hdr body h,
      authenticate-IsSame c hdr body h,
      passthrough-IsSame c frame h,
    )
    | inr (a, e) ↦ ground (
      arith,
      e,
      h,
      handshake-IsSame c hdr body h,
      authenticate-IsSame c hdr body h,
      rewritten-IsSame c a hdr body h,
    )
  ]
