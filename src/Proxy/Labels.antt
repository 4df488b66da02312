-- ===== src/Proxy/Labels.antt =====
-- proxy/conn.go, observeHandshake and the other counts: the labels that a client can bring about.
use kroxy.Base.{
  inl, inr, arith, List, [], ◌∷◌, Bytes, codes, str_eq, str_eq_iff, All, All-append, Bool-cases,
  Option-cases, Result-cases,
}
use kroxy.Auth.Plain.{mechanism_plain}
use kroxy.Auth.Scram.{
  mechanism_scram_sha256, mechanism_scram_sha512, parse_scram_client_first_username,
}
use kroxy.Protocol.Header.{RequestHeader, parse_request_header, slice_from}
use kroxy.Proxy.Counts.{
  Count, handshakes, resolver_calls, upstream_errors, requests, mechanism_label,
}
use kroxy.Proxy.Conn.{
  Conn, Dial, Packages, Answers, Event, dialled, relayed, requested, passed, answered, counted,
  with_upstream, choose_dial, dial_for_scram,
}
use kroxy.Proxy.Dispatch.{
  serve_frame, dispatch, forward_passthrough, forward_rewritten, rewrite_handler,
}
use kroxy.Proxy.Handlers.{handle}
use kroxy.Proxy.Outgoing.{Sent, handle-Handled}
use kroxy.Proxy.Sasl.{
  handle_sasl_handshake, handle_sasl_authenticate, handle_sasl_authenticate_plain,
  handle_sasl_authenticate_scram, first_message, relay_payload, in_flight, with_tenant,
}
use kroxy.Resolver.Memory.{MemoryResolver, get}
use kroxy.Rewrite.Message.{Api}

pub data IsMechanismLabel : Bytes → Type 0 where
  plain : IsMechanismLabel mechanism_plain
  scram_sha256 : IsMechanismLabel mechanism_scram_sha256
  scram_sha512 : IsMechanismLabel mechanism_scram_sha512
  unknown : IsMechanismLabel (codes "unknown")

pub data IsHandshakeResult : Bytes → Type 0 where
  ok : IsHandshakeResult (codes "ok")
  unsupported : IsHandshakeResult (codes "unsupported")
  malformed : IsHandshakeResult (codes "malformed")
  unauthorized : IsHandshakeResult (codes "unauthorized")
  upstream_error : IsHandshakeResult (codes "upstream_error")
  illegal_state : IsHandshakeResult (codes "illegal_state")

pub data IsResolverResult : Bytes → Type 0 where
  ok : IsResolverResult (codes "ok")
  unauthorized : IsResolverResult (codes "unauthorized")

pub data IsErrorKind : Bytes → Type 0 where
  dial : IsErrorKind (codes "dial")
  scram_dial : IsErrorKind (codes "scram_dial")
  scram_relay : IsErrorKind (codes "scram_relay")

-- The labels of a count are from fixed lists, but for the API key and the tenant of a request.
abbrev pub IsBounded : Count → Type 0
IsBounded (handshakes mechanism result) = IsMechanismLabel mechanism × IsHandshakeResult result
IsBounded (resolver_calls result) = IsResolverResult result
IsBounded (upstream_errors kind) = IsErrorKind kind
IsBounded (requests key tenant) = Unit

mechanism_label-IsMechanismLabel : (m : Bytes) → IsMechanismLabel (mechanism_label m)
unfolding mechanism_label
mechanism_label-IsMechanismLabel m = elim (Bool-cases (str_eq m mechanism_plain)) [
  | inl e ↦ rw (mechanism_label, e) (rw ((str_eq_iff m mechanism_plain).0 e) plain)
  | inr e ↦ elim (Bool-cases (str_eq m mechanism_scram_sha256)) [
    | inl e1 ↦
        rw (mechanism_label, e, e1) (rw ((str_eq_iff m mechanism_scram_sha256).0 e1) scram_sha256)
    | inr e1 ↦ elim (Bool-cases (str_eq m mechanism_scram_sha512)) [
      | inl e2 ↦
          rw (mechanism_label, e, e1, e2)
            (rw ((str_eq_iff m mechanism_scram_sha512).0 e2) scram_sha512)
      | inr e2 ↦ rw (mechanism_label, e, e1, e2) unknown
    ]
  ]
]

abbrev pub Counts : {R : Type 0} → Event R → Type 0
Counts (counted n) = IsBounded n
Counts (dialled d) = Unit
Counts (relayed d payload) = Unit
Counts (requested d a req) = Unit
Counts (passed d frame) = Unit
Counts (answered resp) = Unit

module _ {R : Type 0} (P : Packages R) (w : Answers) (r : MemoryResolver) where
  handshake-Counts :
      (c : Conn) (hdr : RequestHeader) (body : Bytes)
      → All Counts (handle_sasl_handshake P w r c hdr body).events
  unfolding handle_sasl_handshake
  handshake-Counts c hdr body = elim (Option-cases (P.read_handshake hdr.api_version body)) [
    | inl e ↦ ground (arith, e)
    | inr (m, e) ↦ ground (
      arith,
      e,
      mechanism_label-IsMechanismLabel m,
      IsHandshakeResult.illegal_state,
      IsHandshakeResult.unsupported,
    )
  ]

  plain-Counts :
      (c : Conn) (hdr : RequestHeader) (body : Bytes)
      → All Counts (handle_sasl_authenticate_plain P w r c hdr body).events
  unfolding handle_sasl_authenticate_plain
  plain-Counts c hdr body = ground (
    arith,
    mechanism_label-IsMechanismLabel mechanism_plain,
    IsHandshakeResult.illegal_state,
    IsHandshakeResult.malformed,
    IsHandshakeResult.unauthorized,
    IsHandshakeResult.ok,
    IsResolverResult.ok,
    IsResolverResult.unauthorized,
  )

  relay-Counts :
      (c0 c : Conn) (payload : Bytes) → All Counts (relay_payload P w r c0 c payload).events
  unfolding relay_payload
  relay-Counts c0 c payload = ground (
    arith,
    mechanism_label-IsMechanismLabel c.client_mechanism,
    IsHandshakeResult.unauthorized,
    IsHandshakeResult.upstream_error,
    IsHandshakeResult.ok,
    IsErrorKind.scram_relay,
  )

  first_message-Counts :
      (c : Conn) (payload : Bytes) → All Counts (first_message P w r c payload).events
  unfolding first_message
  first_message-Counts c payload = elim (Result-cases (parse_scram_client_first_username payload)) [
    | inr (x, e) ↦
        ground (
          arith,
          e,
          mechanism_label-IsMechanismLabel c.client_mechanism,
          IsHandshakeResult.malformed,
        )
    | inl (username, e) ↦ elim (Result-cases (get r username)) [
      | inr (x, k) ↦ ground (
        arith,
        e,
        k,
        mechanism_label-IsMechanismLabel c.client_mechanism,
        IsHandshakeResult.unauthorized,
        IsResolverResult.unauthorized,
      )
      | inl (t, k) ↦
          let c' = in_flight (with_tenant c t) (dial_for_scram t.upstream c.client_mechanism) in
          ground (
            arith,
            e,
            k,
            mechanism_label-IsMechanismLabel c.client_mechanism,
            IsHandshakeResult.upstream_error,
            IsResolverResult.ok,
            IsErrorKind.scram_dial,
            relay-Counts c c' payload,
          )
    ]
  ]

  authenticate-Counts :
      (c : Conn) (hdr : RequestHeader) (body : Bytes)
      → All Counts (handle_sasl_authenticate P w r c hdr body).events
  unfolding handle_sasl_authenticate handle_sasl_authenticate_scram
  authenticate-Counts c hdr body = elim (Option-cases (P.read_authenticate hdr.api_version body)) [
    | inl e ↦ ground (arith, e, plain-Counts c hdr body)
    | inr (payload, e) ↦ ground (
      arith,
      e,
      plain-Counts c hdr body,
      first_message-Counts c payload,
      relay-Counts c c payload,
      mechanism_label-IsMechanismLabel c.client_mechanism,
      IsHandshakeResult.illegal_state,
    )
  ]

  Sent-Counts : (c : Conn) (d : Dial) (es : List (Event R)) → All (Sent P w c d) es → All Counts es
  Sent-Counts c d [] h = tt
  Sent-Counts c d (dialled d' ∷ es) (h, hs) = absurd h
  Sent-Counts c d (relayed d' payload ∷ es) (h, hs) = absurd h
  Sent-Counts c d (passed d' frame ∷ es) (h, hs) = absurd h
  Sent-Counts c d (counted n ∷ es) (h, hs) = absurd h
  Sent-Counts c d (answered resp ∷ es) (h, hs) = (tt, Sent-Counts c d es hs)
  Sent-Counts c d (requested d' a req ∷ es) (h, hs) = (tt, Sent-Counts c d es hs)

  passthrough-Counts :
      (c : Conn) (frame : Bytes) → All Counts (forward_passthrough P w r c frame).events
  unfolding forward_passthrough
  passthrough-Counts c frame = ground (arith, IsErrorKind.dial)

  rewritten-Counts :
      (c : Conn) (a : Api) (hdr : RequestHeader) (body : Bytes)
      → All Counts (forward_rewritten P w r c a hdr body).events
  unfolding forward_rewritten
  rewritten-Counts c a hdr body =
      let sent : (c' : Conn) (d : Dial) → All Counts (handle P w c' d a hdr body).events = λ c' d.
        Sent-Counts c' d (handle P w c' d a hdr body).events
          (handle-Handled P w c' d a hdr body).sent in
      elim (Option-cases c.upstream) [
        | inr (d, e) ↦ ground (arith, e, sent c d)
        | inl e ↦
            ground
              (arith, e, sent (with_upstream c (choose_dial c)) (choose_dial c), IsErrorKind.dial)
      ]

  dispatch-Counts :
      (c : Conn) (hdr : RequestHeader) (frame body : Bytes)
      → All Counts (dispatch P w r c hdr frame body).events
  unfolding dispatch
  dispatch-Counts c hdr frame body = elim (Option-cases (rewrite_handler hdr.api_key)) [
    | inl e ↦ ground (
      arith,
      e,
      handshake-Counts c hdr body,
      authenticate-Counts c hdr body,
      passthrough-Counts c frame,
    )
    | inr (a, e) ↦ ground (
      arith,
      e,
      handshake-Counts c hdr body,
      authenticate-Counts c hdr body,
      rewritten-Counts c a hdr body,
    )
  ]

  -- Whatever a client sends, the labels that its frame is counted under are from fixed lists, the
  -- mechanisms that it names included, but for the API key and the tenant of a request.
  pub serve_frame-Counts :
      (c : Conn) (frame : Bytes) → All Counts (serve_frame P w r c frame).events
  unfolding serve_frame
  serve_frame-Counts c frame = elim (Result-cases (parse_request_header frame)) [
    | inr (x, e) ↦ rw (serve_frame, e) tt
    | inl (hdr, e) ↦ elim (Result-cases (slice_from frame hdr.header_size)) [
      | inr (x, k) ↦ rw (serve_frame, e, k) tt
      | inl (body, k) ↦
          rw (serve_frame, e, k)
            (All-append Counts (dispatch P w r c hdr frame body).events _
              (dispatch-Counts c hdr frame body) (tt, tt))
    ]
  ]
