-- ===== src/Proxy/Tally.antt =====
-- proxy/conn.go: sums over what the steps of a connection do, and how serve adds them up.
use kroxy.Base.{
  ◌≡◌, refl, inl, inr, ap, arith, ℕ, ℤ, zero, suc, ◌+◌, List, [], ◌∷◌, ◌++◌, Bytes, All,
  Result-cases,
}
use kroxy.Protocol.Framing.{Reader}
use kroxy.Proxy.Conn.{
  Conn, Dial, Packages, Answers, Event, dialled, relayed, requested, passed, answered, counted,
  Step,
}
use kroxy.Protocol.Header.{RequestHeader, parse_request_header, slice_from}
use kroxy.Proxy.Counts.{Count, requests, tenant_label}
use kroxy.Proxy.Dispatch.{serve_frame, dispatch}
use kroxy.Proxy.Handlers.{handle}
use kroxy.Resolver.Memory.{MemoryResolver}
use kroxy.Proxy.Loop.{RoundOf, stops, fails, goes_on, step_at, serve-RoundOf}
use kroxy.Proxy.Outgoing.{Sent, handle-Handled}
use kroxy.Proxy.Serve.{Round, Served, serve}
use kroxy.Rewrite.Message.{Api}

-- How much each event weighs; requests, passed frames and answers weigh nothing.
pub record Weight : Type 0 where
  pub dial : ℕ
  pub relay : ℕ
  pub count : Count → ℕ

module _ {R : Type 0} (f : Weight) where
  abbrev pub weigh : Event R → ℕ
  weigh (dialled d) = f.dial
  weigh (relayed d payload) = f.relay
  weigh (counted n) = f.count n
  weigh (requested d a req) = 0
  weigh (passed d frame) = 0
  weigh (answered resp) = 0

  abbrev pub tally : List (Event R) → ℕ
  tally [] = 0
  tally (e ∷ es) = weigh e + tally es

  -- Over the events of all the steps.
  abbrev pub tally_all : List (Step R) → ℕ
  tally_all [] = 0
  tally_all (s ∷ ss) = tally s.events + tally_all ss

  pub tally-append : (es es' : List (Event R)) → tally (es ++ es') ≡ tally es + tally es'
  tally-append [] es' = omega arith
  tally-append (e ∷ es) es' = omega (arith, tally-append es es')

  pub Sent-tally :
      (P : Packages R) (w : Answers) (c : Conn) (d : Dial) (es : List (Event R))
      → All (Sent P w c d) es
      → tally es ≡ 0
  Sent-tally P w c d [] h = refl
  Sent-tally P w c d (dialled d' ∷ es) (h, hs) = absurd h
  Sent-tally P w c d (relayed d' payload ∷ es) (h, hs) = absurd h
  Sent-tally P w c d (passed d' frame ∷ es) (h, hs) = absurd h
  Sent-tally P w c d (counted n ∷ es) (h, hs) = absurd h
  Sent-tally P w c d (answered resp ∷ es) (h, hs) = omega (arith, Sent-tally P w c d es hs)
  Sent-tally P w c d (requested d' a req ∷ es) (h, hs) = omega (arith, Sent-tally P w c d es hs)

abbrev pub nothing : Weight
nothing = record { dial = 0; relay = 0; count = λ n. 0 }

tally-nothing : {R : Type 0} → (es : List (Event R)) → tally nothing es ≡ 0
tally-nothing [] = refl
tally-nothing (dialled d ∷ es) = omega (arith, tally-nothing es)
tally-nothing (relayed d payload ∷ es) = omega (arith, tally-nothing es)
tally-nothing (requested d a req ∷ es) = omega (arith, tally-nothing es)
tally-nothing (passed d frame ∷ es) = omega (arith, tally-nothing es)
tally-nothing (answered resp ∷ es) = omega (arith, tally-nothing es)
tally-nothing (counted n ∷ es) = omega (arith, tally-nothing es)

pub tally_all-nothing : {R : Type 0} → (ss : List (Step R)) → tally_all nothing ss ≡ 0
tally_all-nothing [] = refl
tally_all-nothing (s ∷ ss) = omega (arith, tally-nothing s.events, tally_all-nothing ss)

-- A measure of the connection that grows by what is gained and shrinks by what is lost.
abbrev pub Balanced : {R : Type 0} → (Conn → ℕ) → Weight → Weight → Conn → Step R → Type 0
Balanced m gain loss c s = m s.conn + tally loss s.events ≡ m c + tally gain s.events

module _ {R : Type 0} (P : Packages R) (m : Conn → ℕ) (gain loss : Weight) where
  pub handle-Balanced :
      (w : Answers) (c : Conn) (d : Dial) (a : Api) (hdr : RequestHeader) (body : Bytes)
      → Balanced m gain loss c (handle P w c d a hdr body)
  handle-Balanced w c d a hdr body =
      let done = handle-Handled P w c d a hdr body in
      let es = (handle P w c d a hdr body).events in
      omega (
        arith,
        ap m done.same,
        Sent-tally gain P w c d es done.sent,
        Sent-tally loss P w c d es done.sent,
      )

  -- What is dispatched decides on a frame, if the count of requests weighs nothing.
  pub serve_frame-Balanced :
      (w : Answers) (r : MemoryResolver) (c : Conn) (frame : Bytes)
      → ((key : ℤ) (tenant : Bytes)
          → gain.count (requests key tenant) + loss.count (requests key tenant) ≡ 0)
      → ((hdr : RequestHeader) (body : Bytes)
          → Balanced m gain loss c (dispatch P w r c hdr frame body))
      → Balanced m gain loss c (serve_frame P w r c frame)
  unfolding serve_frame
  serve_frame-Balanced w r c frame none dispatched =
      elim (Result-cases (parse_request_header frame)) [
        | inr (x, e) ↦ rw (serve_frame, e) (omega arith)
        | inl (hdr, e) ↦ elim (Result-cases (slice_from frame hdr.header_size)) [
          | inr (x, k) ↦ rw (serve_frame, e, k) (omega arith)
          | inl (body, k) ↦
              let s = dispatch P w r c hdr frame body in
              let label = tenant_label s.conn.tenant.id in
              let last : List (Event R) = counted (requests hdr.api_key label) ∷ [] in
              rw (serve_frame, e, k)
                (omega (
                  arith,
                  dispatched hdr body,
                  none hdr.api_key label,
                  tally-append gain s.events last,
                  tally-append loss s.events last,
                ))
        ]
      ]

module _ {R : Type 0} (P : Packages R) (rounds : ℕ → Round) (Inv : Conn → Type 0) (m : Conn → ℕ)
    (gain loss : Weight) where
  abbrev BalancedOver : Conn → Served R → Type 0
  BalancedOver c s = m s.conn + tally_all loss s.steps ≡ m c + tally_all gain s.steps

  module _
      (keeps : (i : ℕ) (frame : Bytes) (c : Conn) → Inv c → Inv (step_at P rounds i frame c).conn)
      (balanced : (i : ℕ) (frame : Bytes) (c : Conn)
        → Inv c
        → Balanced m gain loss c (step_at P rounds i frame c)) where
    round_balanced :
        (fuel i : ℕ) (client : Reader) (c : Conn) (s : Served R)
        → Inv c
        → ((client' : Reader) (c' : Conn)
            → Inv c'
            → BalancedOver c' (serve P rounds fuel (suc i) client' c'))
        → RoundOf P rounds fuel i client c s
        → BalancedOver c s
    round_balanced fuel i client c _ h ih (stops e k) = omega arith
    round_balanced fuel i client c _ h ih (fails frame client' e k) =
        omega (arith, balanced i frame c h)
    round_balanced fuel i client c _ h ih (goes_on frame client' k) = omega (
      arith,
      balanced i frame c h,
      ih client' (step_at P rounds i frame c).conn (keeps i frame c h),
    )

    pub serve_balanced :
        (fuel i : ℕ) (client : Reader) (c : Conn)
        → Inv c
        → BalancedOver c (serve P rounds fuel i client c)
    unfolding serve
    serve_balanced zero i client c h = omega arith
    serve_balanced (suc fuel) i client c h =
        round_balanced fuel i client c _ h (λ client' c'. serve_balanced fuel (suc i) client' c')
          (serve-RoundOf P rounds fuel i client c)
