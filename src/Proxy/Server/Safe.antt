-- ===== src/Proxy/Server/Safe.antt =====
-- proxy/listener.go and proxy/conn.go: all that the server does for all of its clients.
use kroxy.Base.{refl, ℕ, suc, Option, List, [], ◌∷◌, length, All, All-append, All-split}
use kroxy.Proxy.Conn.{ServerConfig, Packages, new_conn}
use kroxy.Proxy.Invariant.{IsConn}
use kroxy.Proxy.Loop.{serve-AllSafe}
use kroxy.Proxy.Safety.{IsSafe}
use kroxy.Proxy.Server.{
  Instruments, ConnMetrics, Session, Stage, spawned, serving, finished, uncounted, closed, Handler,
  Server, Trace, accepted, waited, served, closed_both, serve_session, advance, Step, accept, stop,
  back_off, retry, give_up, cancel, go_on, wg_done, return, start, Steps, here, next,
}
use kroxy.Resolver.Catalogue.{IsCatalogue}

-- The resolver that a connection asks is well formed in each of its rounds.
abbrev pub IsCatalogued : Session → Type 0
IsCatalogued x = (i : ℕ) → IsCatalogue (x.rounds i).resolver.tenants

abbrev pub AcceptsCatalogued : {R : Type 0} → Trace R → Type 0
AcceptsCatalogued (accepted x) = IsCatalogued x
AcceptsCatalogued (waited d) = Unit
AcceptsCatalogued (served x s) = Unit
AcceptsCatalogued (closed_both x d) = Unit

abbrev HandlesCatalogued : Handler → Type 0
HandlesCatalogued h = IsCatalogued h.session

module _ {R K G : Type 0} (P : Packages R) (cfg : ServerConfig) (I : Instruments K G) where
  -- Every step for a connection was permitted, and it ended in a good phase.
  abbrev pub ServesSafely : Trace R → Type 0
  ServesSafely (accepted x) = Unit
  ServesSafely (waited d) = Unit
  ServesSafely (served x s) = All (IsSafe P) s.steps × IsConn s.conn
  ServesSafely (closed_both x d) = Unit

  advance-ServesSafely :
      (x : Session) (g : Stage) (m : Option (ConnMetrics K G))
      → IsCatalogued x
      → All ServesSafely (advance P cfg I x g m).trace
  unfolding serve_session
  advance-ServesSafely x spawned m v = tt
  advance-ServesSafely x serving m v =
      (serve-AllSafe P x.rounds v (suc (length x.client.bytes)) 0 x.client (new_conn cfg) refl, tt)
  advance-ServesSafely x (finished c) m v = tt
  advance-ServesSafely x (uncounted c) m v = (tt, tt)
  advance-ServesSafely x closed m v = tt

  record Kept (more : List (Trace R)) (t : Server K G) : Type 0 where
    handlers : All HandlesCatalogued t.handlers
    safe : All ServesSafely more

  Step-Kept :
      (s : Server K G) {more : List (Trace R)} {t : Server K G}
      → Step P cfg I s more t
      → All AcceptsCatalogued more
      → All HandlesCatalogued s.handlers
      → Kept more t
  Step-Kept s (accept b x e) a h = record {
    handlers =
        All-append HandlesCatalogued s.handlers (record { session = x; stage = spawned } ∷ []) h
          (a.0, tt);
    safe = (tt, tt);
  }
  Step-Kept s (stop b is_closed e q) a h = record { handlers = h; safe = tt }
  Step-Kept s (back_off b e q) a h = record { handlers = h; safe = (tt, tt) }
  Step-Kept s (retry b e) a h = record { handlers = h; safe = tt }
  Step-Kept s (give_up b e q) a h = record { handlers = h; safe = tt }
  Step-Kept s (cancel e) a h = record { handlers = h; safe = tt }
  Step-Kept s (go_on before after g e q) a h =
      let (ahead, (this, behind)) = All-split HandlesCatalogued before (g ∷ after) (rw e at h) in
      record {
        handlers = All-append HandlesCatalogued before _ ahead (this, behind);
        safe = advance-ServesSafely g.session g.stage s.metrics this;
      }
  Step-Kept s (wg_done before after x e) a h =
      let gone : Handler = record { session = x; stage = closed } in
      let (ahead, (this, behind)) = All-split HandlesCatalogued before (gone ∷ after) (rw e at h) in
      record { handlers = All-append HandlesCatalogued before after ahead behind; safe = tt }
  Step-Kept s (return e q) a h = record { handlers = h; safe = tt }

  Steps-Kept :
      (m : Option (ConnMetrics K G)) {seen : List (Trace R)} {t : Server K G}
      → Steps P cfg I (start m) seen t
      → All AcceptsCatalogued seen
      → Kept seen t
  Steps-Kept m here a = record { handlers = tt; safe = tt }
  Steps-Kept m (next {seen = seen} {more = more} {t = t} run step) a =
      let (earlier, now) = All-split AcceptsCatalogued seen more a in
      let kept = Steps-Kept m run earlier in
      let last = Step-Kept t step now kept.handlers in
      record {
        handlers = last.handlers;
        safe = All-append ServesSafely seen more kept.safe last.safe;
      }

  -- In every run of the server, however its goroutines interleave: each step that is taken for any
  -- of its clients reaches only its tenant's upstream and sends requests only once authenticated
  -- for a valid tenant, whatever the client sends and however the network answers, and every
  -- connection ends in a good phase. The names of request_names in a rewritten request are all empty
  -- or the tenant's; that says nothing of the names that rewrite_request leaves as they are
  -- (left_names), of topics in member blobs, and of requests that are passed on unread. Provided
  -- that the resolver's catalogue is well formed in every round of the connections accepted.
  pub Steps-ServesSafely :
      (m : Option (ConnMetrics K G)) {seen : List (Trace R)} {t : Server K G}
      → Steps P cfg I (start m) seen t
      → All AcceptsCatalogued seen
      → All ServesSafely seen
  Steps-ServesSafely m run a = (Steps-Kept m run a).safe
