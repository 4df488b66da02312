-- ===== src/Proxy/Server.antt =====
-- proxy/listener.go: the Server as a step relation. Run accepts connections, each served by a
-- goroutine of its own, whose steps interleave with those of the loop and of each other; Run
-- returns when the WaitGroup is empty. The metrics may be nil. A call of serve is one step, so the
-- order in which the rounds of different clients take turns is not seen here.
pub mod Ledger
pub mod Shutdown
pub mod Gauges
pub mod Accepting
pub mod Safe
use kroxy.Base.{
  ◌≡◌, ℕ, suc, ◌≤◌, Bool, true, false, ◌||◌, Option, none, some, List, [], ◌∷◌, ◌++◌, length,
}
use kroxy.Protocol.Framing.{Reader}
use kroxy.Proxy.Conn.{panicked, ServerConfig, Conn, Dial, new_conn, Packages}
use kroxy.Proxy.Listener.{next_backoff}
use kroxy.Proxy.Serve.{step_failed, Round, Served, serve}

-- What the server calls of a prometheus.Counter and a prometheus.Gauge.
pub record Instruments (K : Type 0) (G : Type 0) : Type 0 where
  pub inc_counter : K → K
  pub inc_gauge : G → G
  pub dec_gauge : G → G
  pub counter_value : K → ℕ
  pub gauge_value : G → ℕ

-- Inc adds one, and Dec takes one away from what is not zero.
pub record IsInstruments {K : Type 0} {G : Type 0} (I : Instruments K G) : Type 0 where
  pub counts : (k : K) → I.counter_value (I.inc_counter k) ≡ suc (I.counter_value k)
  pub rises : (g : G) → I.gauge_value (I.inc_gauge g) ≡ suc (I.gauge_value g)
  pub falls : (g : G) (n : ℕ) → I.gauge_value g ≡ suc n → I.gauge_value (I.dec_gauge g) ≡ n

-- ConnectionsTotal and ConnectionsActive.
pub record ConnMetrics (K : Type 0) (G : Type 0) : Type 0 where
  pub total : K
  pub active : G

-- What a client's connection will bring: an id to tell it apart, what each round meets, and the
-- bytes that the client sends. What a round meets of the context is not tied to the server's: all
-- courses are covered, those in which the rounds see its cancellation among them.
pub record Session : Type 0 where
  pub ident : ℕ
  pub rounds : ℕ → Round
  pub client : Reader

-- Where handle is: before the metrics, before serve, and after it with the connection that serve
-- leaves; then the deferred calls run, the last one first: Dec, close, and wg.Done at the end.
pub data Stage : Type 0 where
  spawned serving : Stage
  finished uncounted : Conn → Stage
  closed : Stage

pub record Handler : Type 0 where
  pub session : Session
  pub stage : Stage

-- Run between two calls of Accept with its backoff, waiting for a delay to pass, in wg.Wait, and
-- returned.
pub data Phase : Type 0 where
  accepting backing_off : ℕ → Phase
  draining returned : Phase

pub record Server (K : Type 0) (G : Type 0) : Type 0 where
  pub phase : Phase
  pub is_cancelled : Bool
  pub handlers : List Handler
  pub metrics : Option (ConnMetrics K G)

-- What is seen of the server: it accepted a connection, waited for a delay to accept again, served a
-- connection, closed it with its upstream connection, if there was one.
pub data Trace (R : Type 0) : Type 0 where
  accepted : Session → Trace R
  waited : ℕ → Trace R
  served : Session → Served R → Trace R
  closed_both : Session → Option Dial → Trace R

-- One step of a handler: its next stage, the metrics behind it, and what is seen of it.
pub record Advance (R : Type 0) (K : Type 0) (G : Type 0) : Type 0 where
  pub stage : Stage
  pub metrics : Option (ConnMetrics K G)
  pub trace : List (Trace R)

module _ {K G : Type 0} where
  abbrev pub enter : Server K G → Phase → Server K G
  enter s p = record {
    phase = p;
    is_cancelled = s.is_cancelled;
    handlers = s.handlers;
    metrics = s.metrics;
  }

  abbrev pub start : Option (ConnMetrics K G) → Server K G
  start m = record { phase = accepting 0; is_cancelled = false; handlers = []; metrics = m }

module _ {R : Type 0} (P : Packages R) (cfg : ServerConfig) where
  -- The loop of serve on the whole of a session. A round takes bytes of the client, so this fuel
  -- is enough.
  unfoldable pub serve_session : Session → Served R
  unfolding serve
  serve_session x = serve P x.rounds (suc (length x.client.bytes)) 0 x.client (new_conn cfg)

module _ {R K G : Type 0} (P : Packages R) (cfg : ServerConfig) (I : Instruments K G) where
  abbrev pub connected : Option (ConnMetrics K G) → Option (ConnMetrics K G)
  connected none = none
  connected (some m) =
      some (record { total = I.inc_counter m.total; active = I.inc_gauge m.active })

  abbrev pub disconnected : Option (ConnMetrics K G) → Option (ConnMetrics K G)
  disconnected none = none
  disconnected (some m) = some (record { total = m.total; active = I.dec_gauge m.active })

  -- The next thing that handle does. A closed handler has nothing left but wg.Done.
  abbrev pub advance : Session → Stage → Option (ConnMetrics K G) → Advance R K G
  advance x spawned m = record { stage = serving; metrics = connected m; trace = [] }
  advance x serving m = record {
    stage = finished (serve_session P cfg x).conn;
    metrics = m;
    trace = served x (serve_session P cfg x) ∷ [];
  }
  advance x (finished c) m = record { stage = uncounted c; metrics = disconnected m; trace = [] }
  advance x (uncounted c) m = record {
    stage = closed;
    metrics = m;
    trace = closed_both x c.upstream ∷ [];
  }
  advance x closed m = record { stage = closed; metrics = m; trace = [] }

  -- There is something left for handle to do, and it is not a call of serve that panics: a panic
  -- ends the process, and so the run.
  pub record IsMovable (h : Handler) : Type 0 where
    pub is_open : h.stage ≡ closed → ⊥
    pub is_calm :
        h.stage ≡ serving → (serve_session P cfg h.session).error ≡ step_failed panicked → ⊥

  -- A step with what is seen of it. An error of Accept is net.ErrClosed or not. The handlers that
  -- stand before and after the one that goes on are left as they are.
  pub data Step (s : Server K G) : List (Trace R) → Server K G → Type 0 where
    accept :
        (b : ℕ) (x : Session)
        → s.phase ≡ accepting b
        → Step s (accepted x ∷ []) (record {
          phase = accepting 0;
          is_cancelled = s.is_cancelled;
          handlers = s.handlers ++ (record { session = x; stage = spawned } ∷ []);
          metrics = s.metrics;
        })
    stop :
        (b : ℕ) (is_closed : Bool)
        → s.phase ≡ accepting b
        → (s.is_cancelled || is_closed) ≡ true
        → Step s [] (enter s draining)
    back_off :
        (b : ℕ)
        → s.phase ≡ accepting b
        → s.is_cancelled ≡ false
        → Step s (waited (next_backoff b) ∷ []) (enter s (backing_off (next_backoff b)))
    retry : (b : ℕ) → s.phase ≡ backing_off b → Step s [] (enter s (accepting b))
    give_up :
        (b : ℕ) → s.phase ≡ backing_off b → s.is_cancelled ≡ true → Step s [] (enter s draining)
    cancel :
        s.is_cancelled ≡ false
        → Step s [] (record {
          phase = s.phase;
          is_cancelled = true;
          handlers = s.handlers;
          metrics = s.metrics;
        })
    go_on :
        (before after : List Handler) (h : Handler)
        → s.handlers ≡ before ++ (h ∷ after)
        → IsMovable h
        → Step s (advance h.session h.stage s.metrics).trace (record {
          phase = s.phase;
          is_cancelled = s.is_cancelled;
          handlers =
              before
              ++ (record {
                session = h.session;
                stage = (advance h.session h.stage s.metrics).stage;
              }
                  ∷ after);
          metrics = (advance h.session h.stage s.metrics).metrics;
        })
    wg_done :
        (before after : List Handler) (x : Session)
        → s.handlers ≡ before ++ (record { session = x; stage = closed } ∷ after)
        → Step s [] (record {
          phase = s.phase;
          is_cancelled = s.is_cancelled;
          handlers = before ++ after;
          metrics = s.metrics;
        })
    return : s.phase ≡ draining → s.handlers ≡ [] → Step s [] (enter s returned)

  -- The runs from one server to another, with all that is seen, in order.
  pub data Steps (s : Server K G) : List (Trace R) → Server K G → Type 0 where
    here : Steps s [] s
    next :
        {seen more : List (Trace R)} {t u : Server K G}
        → Steps s seen t
        → Step t more u
        → Steps s (seen ++ more) u
