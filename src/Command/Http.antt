-- ===== src/Command/Http.antt =====
-- observability/metrics.go, ServeMetrics, and admin/server.go, Serve: the course of an HTTP server
-- that runs until the context is cancelled. net and net/http are parameters by what they return.
use kroxy.Base.{◌≡◌, ◌↔◌, ◌⊎◌, arith, ℕ, ◌*◌, Option, none, some, List, [], ◌∷◌}

-- What the server's goroutine ends with: nil, http.ErrServerClosed or another error.
pub data ServerEnd (E : Type 0) : Type 0 where
  finished server_closed : ServerEnd E
  failed : E → ServerEnd E

-- Which of the two the select meets first.
pub data FirstDone (E : Type 0) : Type 0 where
  cancelled : FirstDone E
  ended : ServerEnd E → FirstDone E

-- A call of Shutdown with its timeout in milliseconds, and the wait for the goroutine's end.
pub data HttpEvent : Type 0 where
  served : HttpEvent
  shut_down : ℕ → HttpEvent
  joined : HttpEvent

pub record HttpRun (E : Type 0) : Type 0 where
  pub events : List HttpEvent
  pub error : Option E

module _ {E : Type 0} where
  -- What goes to the error channel.
  abbrev pub end_error : ServerEnd E → Option E
  end_error finished = none
  end_error server_closed = none
  end_error (failed e) = some e

  -- The outcomes of net.Listen and of Shutdown are an error or none.
  abbrev pub serve_admin : Option E → FirstDone E → Option E → HttpRun E
  serve_admin (some e) first shutdown = record { events = []; error = some e }
  serve_admin none cancelled (some e) = record {
    events = served ∷ shut_down (5 * 1000) ∷ [];
    error = some e;
  }
  serve_admin none cancelled none = record {
    events = served ∷ shut_down (5 * 1000) ∷ joined ∷ [];
    error = none;
  }
  serve_admin none (ended x) shutdown = record { events = served ∷ []; error = end_error x }

  -- ListenAndServe listens in the goroutine; the error of Shutdown is dropped.
  abbrev pub serve_metrics : FirstDone E → HttpRun E
  serve_metrics cancelled = record { events = served ∷ shut_down (3 * 1000) ∷ []; error = none }
  serve_metrics (ended x) = record { events = served ∷ []; error = end_error x }

  -- Serve ends without an error exactly if it could listen, and either the context was cancelled
  -- and Shutdown succeeded, or its server ended by itself without an error other than
  -- ErrServerClosed.
  serve_admin_iff :
      (listens : Option E) (first : FirstDone E) (shutdown : Option E)
      → ((serve_admin listens first shutdown).error ≡ none) ↔ (
          (listens ≡ none)
          × (((first ≡ cancelled) × (shutdown ≡ none))
              ⊎ (first ≡ ended finished)
              ⊎ (first ≡ ended server_closed)))
  serve_admin_iff listens first shutdown = ground arith
