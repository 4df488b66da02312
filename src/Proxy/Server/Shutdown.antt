-- ===== src/Proxy/Server/Shutdown.antt =====
-- proxy/listener.go: when Run has returned, every connection has been served and closed, and its
-- upstream connection with it.
use kroxy.Base.{
  ◌≡◌, refl, ap, arith, ℕ, ◌+◌, ◌==◌, if◌then◌else◌, Option, List, [], ◌∷◌, ◌++◌, length,
  length-append, suc,
}
use kroxy.Proxy.Conn.{ServerConfig, new_conn, Packages}
use kroxy.Proxy.Dials.{attempts, failed_dials, links, links_of, serve-dials}
use kroxy.Proxy.Server.{
  waited, Instruments, ConnMetrics, Session, Stage, spawned, serving, finished, uncounted, closed,
  Handler, returned, Server, Trace, accepted, served, closed_both, serve_session, Step, accept,
  stop, back_off, retry, give_up, cancel, go_on, wg_done, return, start, Steps, here, next, advance,
}
use kroxy.Proxy.Server.Ledger.{sum, IsLedger, Steps-Settles}
use kroxy.Proxy.Tally.{tally_all}

abbrev one_if : ℕ → ℕ → ℕ
one_if a b = if a == b then 1 else 0

-- How often a connection was accepted, served, and closed.
module _ {R : Type 0} (id : ℕ) where
  abbrev pub accepted_as : Trace R → ℕ
  accepted_as (accepted x) = one_if x.ident id
  accepted_as (waited d) = 0
  accepted_as (served x s) = 0
  accepted_as (closed_both x d) = 0

  abbrev pub served_as : Trace R → ℕ
  served_as (accepted x) = 0
  served_as (waited d) = 0
  served_as (served x s) = one_if x.ident id
  served_as (closed_both x d) = 0

  abbrev pub closed_as : Trace R → ℕ
  closed_as (accepted x) = 0
  closed_as (waited d) = 0
  closed_as (served x s) = 0
  closed_as (closed_both x d) = one_if x.ident id

module _ {R : Type 0} where
  -- The upstream dials of the connections served, those of them that failed, and the upstream
  -- connections closed.
  abbrev pub dials : Trace R → ℕ
  dials (accepted x) = 0
  dials (waited d) = 0
  dials (served x s) = tally_all attempts s.steps
  dials (closed_both x d) = 0

  abbrev pub failures : Trace R → ℕ
  failures (accepted x) = 0
  failures (waited d) = 0
  failures (served x s) = tally_all failed_dials s.steps
  failures (closed_both x d) = 0

  abbrev pub closed_links : Trace R → ℕ
  closed_links (accepted x) = 0
  closed_links (waited d) = 0
  closed_links (served x s) = 0
  closed_links (closed_both x d) = links_of d

  abbrev settled : Trace R → ℕ
  settled e = failures e + closed_links e

  sum-settled : (es : List (Trace R)) → sum settled es ≡ sum failures es + sum closed_links es
  sum-settled [] = refl
  sum-settled (e ∷ es) = omega (arith, sum-settled es)

-- What a handler still has to do.
abbrev waits : Stage → ℕ → ℕ
waits spawned n = n
waits serving n = n
waits (finished c) n = 0
waits (uncounted c) n = 0
waits closed n = 0

abbrev stays : Stage → ℕ → ℕ
stays spawned n = n
stays serving n = n
stays (finished c) n = n
stays (uncounted c) n = n
stays closed n = 0

abbrev held_links : Stage → ℕ
held_links spawned = 0
held_links serving = 0
held_links (finished c) = links c
held_links (uncounted c) = links c
held_links closed = 0

module _ {R K G : Type 0} (P : Packages R) (cfg : ServerConfig) (I : Instruments K G) where
  served-IsLedger :
      (id : ℕ)
      → IsLedger P cfg I
          (λ h. waits h.stage (one_if h.session.ident id))
          (accepted_as id)
          (served_as id)
  served-IsLedger id = record {
    enters = λ x. omega arith;
    moves = λ x g m. moves x g m;
    waits = λ d. refl;
    leaves = λ x. refl;
  }
    where
      moves :
          (x : Session) (g : Stage) (m : Option (ConnMetrics K G))
          → waits (advance P cfg I x g m).stage (one_if x.ident id)
              + sum (served_as id) (advance P cfg I x g m).trace
            ≡ waits g (one_if x.ident id) + sum (accepted_as id) (advance P cfg I x g m).trace
      moves x spawned m = omega arith
      moves x serving m = omega arith
      moves x (finished c) m = omega arith
      moves x (uncounted c) m = omega arith
      moves x closed m = omega arith

  closed-IsLedger :
      (id : ℕ)
      → IsLedger P cfg I
          (λ h. stays h.stage (one_if h.session.ident id))
          (accepted_as id)
          (closed_as id)
  closed-IsLedger id = record {
    enters = λ x. omega arith;
    moves = λ x g m. moves x g m;
    waits = λ d. refl;
    leaves = λ x. refl;
  }
    where
      moves :
          (x : Session) (g : Stage) (m : Option (ConnMetrics K G))
          → stays (advance P cfg I x g m).stage (one_if x.ident id)
              + sum (closed_as id) (advance P cfg I x g m).trace
            ≡ stays g (one_if x.ident id) + sum (accepted_as id) (advance P cfg I x g m).trace
      moves x spawned m = omega arith
      moves x serving m = omega arith
      moves x (finished c) m = omega arith
      moves x (uncounted c) m = omega arith
      moves x closed m = omega arith

  serve_session-dials :
      (x : Session)
      → links (serve_session P cfg x).conn + tally_all failed_dials (serve_session P cfg x).steps
        ≡ tally_all attempts (serve_session P cfg x).steps
  unfolding serve_session
  serve_session-dials x =
      omega
        (arith, serve-dials P x.rounds (suc (length x.client.bytes)) 0 x.client (new_conn cfg) refl)

  links-IsLedger : IsLedger P cfg I (λ h. held_links h.stage) dials settled
  links-IsLedger = record {
    enters = λ x. refl;
    moves = λ x g m. moves x g m;
    waits = λ d. refl;
    leaves = λ x. refl;
  }
    where
      moves :
          (x : Session) (g : Stage) (m : Option (ConnMetrics K G))
          → held_links (advance P cfg I x g m).stage + sum settled (advance P cfg I x g m).trace
            ≡ held_links g + sum dials (advance P cfg I x g m).trace
      moves x spawned m = omega arith
      moves x serving m = omega (arith, serve_session-dials x)
      moves x (finished c) m = omega arith
      moves x (uncounted c) m = omega arith
      moves x closed m = omega arith

  -- Run returns with no handler left, and then there is none to go on.
  abbrev IsEmptied : Server K G → Type 0
  IsEmptied s = s.phase ≡ returned → s.handlers ≡ []

  not_emptied :
      (s : Server K G) (before after : List Handler) (h : Handler)
      → IsEmptied s
      → s.handlers ≡ before ++ (h ∷ after)
      → s.phase ≡ returned
      → ⊥
  not_emptied s before after h e q k =
      let parts = length-append before (h ∷ after) in
      let none = ap length (e k) in absurd (omega (arith, parts, none, ap length q))

  Step-IsEmptied :
      (s : Server K G) {seen : List (Trace R)} {t : Server K G}
      → Step P cfg I s seen t
      → IsEmptied s
      → IsEmptied t
  Step-IsEmptied s (accept b x e) h k = ground (arith, k)
  Step-IsEmptied s (stop b is_closed e q) h k = ground (arith, k)
  Step-IsEmptied s (back_off b e q) h k = ground (arith, k)
  Step-IsEmptied s (retry b e) h k = ground (arith, k)
  Step-IsEmptied s (give_up b e q) h k = ground (arith, k)
  Step-IsEmptied s (cancel e) h k = h k
  Step-IsEmptied s (go_on before after g e q) h k = absurd (not_emptied s before after g h e k)
  Step-IsEmptied s (wg_done before after x e) h k =
      absurd (not_emptied s before after (record { session = x; stage = closed }) h e k)
  Step-IsEmptied s (return e q) h k = q

  Steps-IsEmptied :
      (s : Server K G) {seen : List (Trace R)} {t : Server K G}
      → Steps P cfg I s seen t
      → IsEmptied s
      → IsEmptied t
  Steps-IsEmptied s here h = h
  Steps-IsEmptied s (next {t = t} run step) h = Step-IsEmptied t step (Steps-IsEmptied s run h)

  -- However the steps of the server's goroutines interleave: when Run has returned, each connection
  -- that was accepted has been served and closed as often as it was accepted; and each upstream
  -- dial was counted as failed or is matched by an upstream connection closed.
  pub Steps-closed :
      (m : Option (ConnMetrics K G)) {seen : List (Trace R)} {t : Server K G}
      → Steps P cfg I (start m) seen t
      → t.phase ≡ returned
      → ((id : ℕ)
          → (sum (served_as id) seen ≡ sum (accepted_as id) seen)
            × (sum (closed_as id) seen ≡ sum (accepted_as id) seen))
        × (sum failures seen + sum closed_links seen ≡ sum dials seen)
  Steps-closed m {seen} {t} run k =
      let s = start m in
      let empty = Steps-IsEmptied s run (λ q. refl) k in
      (
        λ id. (
          omega (
            arith,
            Steps-Settles P cfg I _ (accepted_as id) (served_as id) (served-IsLedger id) s run,
            ap (sum (λ (h : Handler). waits h.stage (one_if h.session.ident id))) empty,
          ),
          omega (
            arith,
            Steps-Settles P cfg I _ (accepted_as id) (closed_as id) (closed-IsLedger id) s run,
            ap (sum (λ (h : Handler). stays h.stage (one_if h.session.ident id))) empty,
          ),
        ),
        omega (
          arith,
          Steps-Settles P cfg I _ dials settled (links-IsLedger) s run,
          ap (sum (λ (h : Handler). held_links h.stage)) empty,
          sum-settled seen,
        ),
      )
