-- ===== src/Proxy/Invariant.antt =====
-- What holds of a connection in each phase, and that every step keeps it.
use kroxy.Base.{
  ◌≡◌, ◌⊎◌, inl, inr, refl, arith, ◌≤◌, true, false, none, some, List, [], ◌∷◌, Bytes, str_eq, ok,
  All, Bool-cases, Option-cases, Result-cases,
}
use kroxy.Auth.Plain.{PlainCredentials, parse_plain}
use kroxy.Auth.Scram.{is_scram_mechanism, parse_scram_client_first_username}
use kroxy.Protocol.Header.{RequestHeader}
use kroxy.Proxy.Conn.{
  ConnState, await_handshake, await_auth, relay_sasl_in_flight, authenticated, Dial, dial_for_scram,
  Conn, Packages, Answers, choose_dial,
}
use kroxy.Proxy.Sasl.{
  with_tenant, in_flight, handle_sasl_handshake, handle_sasl_authenticate_plain, accept_plain,
  relay_payload, first_message, handle_sasl_authenticate_scram, is_await_auth,
}
use kroxy.Resolver.Memory.{Tenant, MemoryResolver, get, lookup}
use kroxy.Resolver.Catalogue.{IsTenant, IsCatalogue, IsEntry}

abbrev pub relay_dial : Conn → Dial
relay_dial c = dial_for_scram c.tenant.upstream c.client_mechanism

-- The two ways in: two rounds that the upstream accepted, on the connection that they were relayed
-- to; or a PLAIN payload, with the upstream not dialled yet or dialled with its credentials.
abbrev pub Admitted : Conn → Type 0
Admitted c =
    ((is_scram_mechanism c.client_mechanism ≡ true)
      × (c.upstream ≡ some (relay_dial c))
      × (2 ≤ c.scram_rounds_completed))
    ⊎ ((is_scram_mechanism c.client_mechanism ≡ false)
        × ((c.upstream ≡ none) ⊎ (c.upstream ≡ some (choose_dial c))))

abbrev pub InState : ConnState → Conn → Type 0
InState await_handshake c = c.upstream ≡ none
InState await_auth c = c.upstream ≡ none
InState relay_sasl_in_flight c =
    IsTenant c.tenant
    × (is_scram_mechanism c.client_mechanism ≡ true)
    × (c.upstream ≡ some (relay_dial c))
InState authenticated c = IsTenant c.tenant × Admitted c

abbrev pub IsConn : Conn → Type 0
IsConn c = InState c.state c

lookup-IsTenant :
    (id : Bytes) (m : List (Bytes × Tenant)) (t : Tenant)
    → All IsEntry m
    → lookup id m ≡ some t
    → IsTenant t
unfolding lookup
lookup-IsTenant id [] t h e = ground arith
lookup-IsTenant id ((k, u) ∷ m) t h e = elim (Bool-cases (str_eq k id)) [
  | inl q ↦ rw (known q) h.0.valid
  | inr q ↦ lookup-IsTenant id m t h.1 (ground arith)
]
  where
    known : str_eq k id ≡ true → t ≡ u
    known q = ground arith

get-IsTenant :
    (r : MemoryResolver) (id : Bytes) (t : Tenant)
    → IsCatalogue r.tenants
    → get r id ≡ ok t
    → IsTenant t
unfolding get
get-IsTenant r id t v e = lookup-IsTenant id r.tenants t v.entries (ground arith)

module _ {R : Type 0} (P : Packages R) (w : Answers) (r : MemoryResolver) where
  pub handshake-IsConn :
      (c : Conn) (hdr : RequestHeader) (body : Bytes)
      → IsConn c
      → IsConn (handle_sasl_handshake P w r c hdr body).conn
  unfolding handle_sasl_handshake
  handshake-IsConn c hdr body h = ground (arith, h)

  accept_plain-IsConn :
      (c : Conn) (creds : PlainCredentials)
      → IsCatalogue r.tenants
      → is_scram_mechanism c.client_mechanism ≡ false
      → c.upstream ≡ none
      → IsConn c
      → IsConn (accept_plain P w r c creds).conn
  accept_plain-IsConn c creds v s u h = elim (Result-cases (get r creds.username)) [
    | inl (t, e) ↦ ground (arith, e, get-IsTenant r creds.username t v e, s, u, h)
    | inr (x, e) ↦ ground (arith, e, h)
  ]

  await_auth-idle : (c : Conn) → IsConn c → is_await_auth c.state ≡ true → c.upstream ≡ none
  await_auth-idle c h e = ground (arith, h, e)

  pub plain-IsConn :
      (c : Conn) (hdr : RequestHeader) (body : Bytes)
      → IsCatalogue r.tenants
      → is_scram_mechanism c.client_mechanism ≡ false
      → IsConn c
      → IsConn (handle_sasl_authenticate_plain P w r c hdr body).conn
  unfolding handle_sasl_authenticate_plain
  plain-IsConn c hdr body v s h = elim (Option-cases (P.read_authenticate hdr.api_version body)) [
    | inl e ↦ ground (arith, e, h)
    | inr (payload, e) ↦ elim (Bool-cases (is_await_auth c.state)) [
      | inr q ↦ ground (arith, e, q, h)
      | inl q ↦ elim (Result-cases (parse_plain payload)) [
        | inr (x, k) ↦ ground (arith, e, q, k, h)
        | inl (creds, k) ↦
            ground (arith, e, q, k, accept_plain-IsConn c creds v s (await_auth-idle c h q) h)
      ]
    ]
  ]

  relay_payload-IsConn :
      (c0 c : Conn) (payload : Bytes)
      → c.state ≡ relay_sasl_in_flight
      → IsConn c
      → IsConn (relay_payload P w r c0 c payload).conn
  unfolding relay_payload
  relay_payload-IsConn c0 c payload e h = ground (arith, h)

  first_message-IsConn :
      (c : Conn) (payload : Bytes)
      → IsCatalogue r.tenants
      → is_scram_mechanism c.client_mechanism ≡ true
      → c.state ≡ await_auth
      → IsConn c
      → IsConn (first_message P w r c payload).conn
  unfolding first_message
  first_message-IsConn c payload v s q h =
      elim (Result-cases (parse_scram_client_first_username payload)) [
        | inr (x, e) ↦ ground (arith, e, h)
        | inl (username, e) ↦ elim (Result-cases (get r username)) [
          | inr (x, k) ↦ ground (arith, e, k, h)
          | inl (t, k) ↦
              let d = dial_for_scram t.upstream c.client_mechanism in
              let c' = in_flight (with_tenant c t) d in
              ground (
                arith,
                e,
                k,
                q,
                h,
                relay_payload-IsConn c c' payload refl (get-IsTenant r username t v k, s, refl),
              )
        ]
      ]

  pub scram-IsConn :
      (c : Conn) (hdr : RequestHeader) (body : Bytes)
      → IsCatalogue r.tenants
      → is_scram_mechanism c.client_mechanism ≡ true
      → IsConn c
      → IsConn (handle_sasl_authenticate_scram P w r c hdr body).conn
  unfolding handle_sasl_authenticate_scram
  scram-IsConn c hdr body v s h = elim (Option-cases (P.read_authenticate hdr.api_version body)) [
    | inl e ↦ ground (arith, e, h)
    | inr (payload, e) ↦
        ground
          (arith, e, h, s, first_message-IsConn c payload v s, relay_payload-IsConn c c payload)
  ]
