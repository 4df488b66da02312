-- ===== src/Proxy/Forwarding.antt =====
-- proxy/conn.go, dispatch: every step keeps the connection's invariant and does only what it may.
use mathlib.Core.Path.{subst}
use kroxy.Base.{
  ◌≡◌, inl, inr, refl, sym, ◌∙◌, ap, arith, Bool, true, false, Option, none, some, List, [], ◌∷◌,
  Bytes, eq_num, if◌then◌else◌, All, Bool-cases, Option-cases,
}
use kroxy.Protocol.Header.{RequestHeader}
use kroxy.Protocol.Keys.{api_versions_key, sasl_handshake_key, sasl_authenticate_key}
use kroxy.Proxy.Conn.{
  authenticated, Dial, address, Conn, Packages, Answers, Event, dialled, relayed, requested, passed,
  answered, counted, Step, emit, choose_dial, should_translate_plain_to_scram, with_upstream,
  ensure_upstream, fail, dial_failure, round_trip_failed, raw, write_response, api_versions,
}
use kroxy.Proxy.Handlers.{handle}
use kroxy.Proxy.Sasl.{is_authenticated}
use kroxy.Proxy.Dispatch.{
  dispatch, forward, forward_rewritten, forward_passthrough, rewrite_handler,
}
use kroxy.Proxy.Invariant.{IsConn, handshake-IsConn}
use kroxy.Proxy.Outgoing.{Sent, handle-Handled}
use kroxy.Resolver.Memory.{MemoryResolver}
use kroxy.Resolver.Catalogue.{IsTenant, IsCatalogue}
use kroxy.Rewrite.Message.{Api}
use kroxy.Proxy.Safety.{Permitted, IsSafe, handshake-Permitted, authenticate-IsSafe}

address-choose_dial : (c : Conn) → address (choose_dial c) ≡ c.tenant.upstream
unfolding choose_dial
address-choose_dial c = ground arith

choose_dial-with_upstream : (c : Conn) (d : Dial) → choose_dial (with_upstream c d) ≡ choose_dial c
unfolding choose_dial should_translate_plain_to_scram
choose_dial-with_upstream c d = refl

module _ {R : Type 0} (P : Packages R) (w : Answers) (r : MemoryResolver) where
  -- A connection that may send requests on `d`.
  record IsReady (c : Conn) (d : Dial) : Type 0 where
    conn : IsConn c
    phase : c.state ≡ authenticated
    reached : address d ≡ c.tenant.upstream

  dialled-IsReady :
      (c : Conn)
      → IsConn c
      → c.state ≡ authenticated
      → c.upstream ≡ none
      → IsReady (with_upstream c (choose_dial c)) (choose_dial c)
  dialled-IsReady c h q e = record {
    conn = ground (arith, h, q, e, choose_dial-with_upstream c (choose_dial c));
    phase = q;
    reached = address-choose_dial c;
  }

  kept-IsReady :
      (c : Conn) (d : Dial) → IsConn c → c.state ≡ authenticated → c.upstream ≡ some d → IsReady c d
  kept-IsReady c d h q e = record {
    conn = h;
    phase = q;
    reached = ground (arith, h, q, e, address-choose_dial c);
  }

  dialled-IsSafe :
      (c : Conn) (rest : Conn → Dial → Step R) (b : Bool)
      → IsConn c
      → IsSafe P (rest (with_upstream c (choose_dial c)) (choose_dial c))
      → (rest (with_upstream c (choose_dial c)) (choose_dial c)).conn
        ≡ with_upstream c (choose_dial c)
      → IsSafe P (
          emit
            (dialled (choose_dial c))
            (if b then rest (with_upstream c (choose_dial c)) (choose_dial c) else dial_failure c))
  dialled-IsSafe c rest false h safe same = record {
    keeps = h;
    permitted = (address-choose_dial c, (tt, tt));
  }
  dialled-IsSafe c rest true h safe same = record {
    keeps = safe.keeps;
    permitted = (address-choose_dial c ∙ sym (ap (λ x. x.tenant.upstream) same), safe.permitted);
  }

  ensured-IsSafe :
      (c : Conn) (rest : Conn → Dial → Step R) (o : Option Dial)
      → c.upstream ≡ o
      → IsConn c
      → c.state ≡ authenticated
      → ((c' : Conn) (d : Dial) → IsReady c' d → IsSafe P (rest c' d) × ((rest c' d).conn ≡ c'))
      → IsSafe P (elim o [
        | some d ↦ rest c d
        | none ↦ emit (dialled (choose_dial c)) (
            if w.dials
            then rest (with_upstream c (choose_dial c)) (choose_dial c)
            else dial_failure c)
      ])
  ensured-IsSafe c rest (some d) e h q k = (k c d (kept-IsReady c d h q e)).0
  ensured-IsSafe c rest none e h q k =
      let (safe, same) =
        k (with_upstream c (choose_dial c)) (choose_dial c) (dialled-IsReady c h q e) in
      dialled-IsSafe c rest w.dials h safe same

  ensure_upstream-IsSafe :
      (c : Conn) (rest : Conn → Dial → Step R)
      → IsConn c
      → c.state ≡ authenticated
      → ((c' : Conn) (d : Dial) → IsReady c' d → IsSafe P (rest c' d) × ((rest c' d).conn ≡ c'))
      → IsSafe P (ensure_upstream w c rest)
  ensure_upstream-IsSafe c rest h q k = ensured-IsSafe c rest c.upstream refl h q k

  Sent-Permitted :
      (c : Conn) (d : Dial)
      → IsReady c d
      → IsTenant c.tenant
      → (es : List (Event R)) → All (Sent P w c d) es
      → All (Permitted P c) es
  Sent-Permitted c d v t [] h = tt
  Sent-Permitted c d v t (dialled d' ∷ es) (h, hs) = absurd h
  Sent-Permitted c d v t (relayed d' payload ∷ es) (h, hs) = absurd h
  Sent-Permitted c d v t (passed d' frame ∷ es) (h, hs) = absurd h
  Sent-Permitted c d v t (answered resp ∷ es) (h, hs) = (tt, Sent-Permitted c d v t es hs)
  Sent-Permitted c d v t (counted n ∷ es) (h, hs) = absurd h
  Sent-Permitted c d v t (requested d' a req ∷ es) ((same, names), hs) =
      ((ap address same ∙ v.reached, v.phase, t, names), Sent-Permitted c d v t es hs)

  ready-IsTenant : (c : Conn) (d : Dial) → IsReady c d → IsTenant c.tenant
  ready-IsTenant c d v = admitted v.conn v.phase
    where
      admitted : IsConn c → c.state ≡ authenticated → IsTenant c.tenant
      admitted h q = ground (arith, h, q)

  moved-IsSafe :
      (c : Conn) (s : Step R) → s.conn ≡ c → IsConn c → All (Permitted P c) s.events → IsSafe P s
  moved-IsSafe c s e h p = record {
    keeps = subst IsConn (sym e) h;
    permitted = subst (λ x. All (Permitted P x) s.events) (sym e) p;
  }

  request-IsSafe :
      (a : Api) (hdr : RequestHeader) (body : Bytes) (c : Conn) (d : Dial)
      → IsReady c d
      → IsSafe P (handle P w c d a hdr body)
  request-IsSafe a hdr body c d v =
      let done = handle-Handled P w c d a hdr body in
      moved-IsSafe c (handle P w c d a hdr body) done.same v.conn
        (Sent-Permitted c d v (ready-IsTenant c d v) (handle P w c d a hdr body).events done.sent)

  pass : Bytes → Option Bytes → Conn → Dial → Step R
  pass frame o c d =
      emit (passed d frame)
        (elim o [ none ↦ fail c round_trip_failed | some resp ↦ write_response w c (raw resp) ])

  pass-IsSafe :
      (frame : Bytes) (o : Option Bytes) (c : Conn) (d : Dial)
      → IsReady c d
      → IsSafe P (pass frame o c d) × ((pass frame o c d).conn ≡ c)
  unfolding pass
  pass-IsSafe frame none c d v =
      (moved-IsSafe c _ refl v.conn ((v.reached, v.phase, ready-IsTenant c d v), tt), refl)
  pass-IsSafe frame (some resp) c d v = elim (Bool-cases w.writes) [
    | inl e ↦
        rw e (
          moved-IsSafe c _ refl v.conn ((v.reached, v.phase, ready-IsTenant c d v), (tt, tt)),
          refl,
        )
    | inr e ↦
        rw e (moved-IsSafe c _ refl v.conn ((v.reached, v.phase, ready-IsTenant c d v), tt), refl)
  ]

  forward-IsSafe :
      (c : Conn) (hdr : RequestHeader) (frame body : Bytes)
      → IsConn c
      → c.state ≡ authenticated
      → IsSafe P (forward P w r c hdr frame body)
  unfolding forward_passthrough forward_rewritten pass
  forward-IsSafe c hdr frame body h q = elim (Option-cases (rewrite_handler hdr.api_key)) [
    | inl e ↦
        rw (forward, e)
          (ensure_upstream-IsSafe c (pass frame w.round_trip) h q (pass-IsSafe frame w.round_trip))
    | inr (a, e) ↦
        rw (forward, e)
          (ensure_upstream-IsSafe c (λ c' d. handle P w c' d a hdr body) h q
            λ c' d v. (request-IsSafe a hdr body c' d v, (handle-Handled P w c' d a hdr body).same))
  ]

  -- Every step of dispatch keeps the connection's invariant, whatever the client sends and however
  -- the network answers, and does only what is permitted.
  pub dispatch-IsSafe :
      (c : Conn) (hdr : RequestHeader) (frame body : Bytes)
      → IsCatalogue r.tenants
      → IsConn c
      → IsSafe P (dispatch P w r c hdr frame body)
  unfolding dispatch
  dispatch-IsSafe c hdr frame body v h = elim (Bool-cases (eq_num hdr.api_key api_versions_key)) [
    | inl e ↦ simp (dispatch, e) (answer c h)
    | inr e ↦ elim (Bool-cases (eq_num hdr.api_key sasl_handshake_key)) [
      | inl e1 ↦
          simp (dispatch, e, e1)
            (record {
              keeps = handshake-IsConn P w r c hdr body h;
              permitted = handshake-Permitted P w r c hdr body;
            })
      | inr e1 ↦ elim (Bool-cases (eq_num hdr.api_key sasl_authenticate_key)) [
        | inl e2 ↦ simp (dispatch, e, e1, e2) (authenticate-IsSafe P w r c hdr body v h)
        | inr e2 ↦ elim (Bool-cases (is_authenticated c.state)) [
          | inr q ↦ simp (dispatch, e, e1, e2, q) (record { keeps = h; permitted = tt })
          | inl q ↦ simp (dispatch, e, e1, e2, q) (forward-IsSafe c hdr frame body h (phase q))
        ]
      ]
    ]
  ]
    where
      answer : (c : Conn) → IsConn c → IsSafe P (write_response w c api_versions)
      answer c h = elim (Bool-cases w.writes) [
        | inl e ↦ rw e (moved-IsSafe c _ refl h (tt, tt))
        | inr e ↦ rw e (moved-IsSafe c _ refl h tt)
      ]

      phase : is_authenticated c.state ≡ true → c.state ≡ authenticated
      phase q = ground arith
