-- ===== src/Proxy/Server/Gauges.antt =====
-- proxy/listener.go, handle: what connections_total and connections_active show.
use kroxy.Base.{◌≡◌, refl, sym, ◌∙◌, ap, arith, ℕ, ◌+◌, ◌-◌, ◌≤◌, Option, some, List, [], ◌∷◌, ◌++◌}
use kroxy.Proxy.Conn.{ServerConfig, Packages}
use kroxy.Proxy.Server.{
  waited, Instruments, IsInstruments, ConnMetrics, Session, Stage, spawned, serving, finished,
  uncounted, closed, Handler, Server, Trace, accepted, served, closed_both, advance, Step, accept,
  stop, back_off, retry, give_up, cancel, go_on, wg_done, return, start, Steps, here, next,
}
use kroxy.Proxy.Listener.{next_backoff}
use kroxy.Proxy.Server.Ledger.{sum, sum-append, sum_middle}

abbrev pub all_accepted : {R : Type 0} → Trace R → ℕ
all_accepted (accepted x) = 1
all_accepted (waited d) = 0
all_accepted (served x s) = 0
all_accepted (closed_both x d) = 0

abbrev spawned_of : Stage → ℕ
spawned_of spawned = 1
spawned_of serving = 0
spawned_of (finished c) = 0
spawned_of (uncounted c) = 0
spawned_of closed = 0

abbrev counted_of : Stage → ℕ
counted_of spawned = 0
counted_of serving = 1
counted_of (finished c) = 1
counted_of (uncounted c) = 0
counted_of closed = 0

-- The connections that have begun no handling yet, and those in the hands of serve: between Inc and
-- the deferred Dec.
abbrev pub is_spawned : Handler → ℕ
is_spawned h = spawned_of h.stage

abbrev pub is_counted : Handler → ℕ
is_counted h = counted_of h.stage

module _ {R K G : Type 0} (P : Packages R) (cfg : ServerConfig) (I : Instruments K G)
    (law : IsInstruments I) where
  -- The metrics behind one thing that a handler does.
  record Moved (x : Session) (g : Stage) (o : Option (ConnMetrics K G)) (m m' : ConnMetrics K G)
      : Type 0 where
    metrics : (advance P cfg I x g o).metrics ≡ some m'
    total :
        I.counter_value m'.total + spawned_of (advance P cfg I x g o).stage
        ≡ I.counter_value m.total + spawned_of g
    active :
        I.gauge_value m'.active + counted_of g
        ≡ I.gauge_value m.active + counted_of (advance P cfg I x g o).stage

  advance-Moved :
      (x : Session) (g : Stage) (m : ConnMetrics K G)
      → counted_of g ≤ I.gauge_value m.active
      → (m' : ConnMetrics K G) × Moved x g (some m) m m'
  advance-Moved x spawned m h = (
    record { total = I.inc_counter m.total; active = I.inc_gauge m.active },
    record {
      metrics = refl;
      total = omega (arith, law.counts m.total);
      active = omega (arith, law.rises m.active);
    },
  )
  advance-Moved x serving m h = (m, record { metrics = refl; total = refl; active = refl })
  advance-Moved x (finished c) m h = (
    record { total = m.total; active = I.dec_gauge m.active },
    record {
      metrics = refl;
      total = refl;
      active = omega (arith, h, law.falls m.active (I.gauge_value m.active - 1) (omega (arith, h)));
    },
  )
  advance-Moved x (uncounted c) m h = (m, record { metrics = refl; total = refl; active = refl })
  advance-Moved x closed m h = (m, record { metrics = refl; total = refl; active = refl })

  observed-Moved :
      (x : Session) (g : Stage) (o : Option (ConnMetrics K G)) (m : ConnMetrics K G)
      → o ≡ some m
      → counted_of g ≤ I.gauge_value m.active
      → (m' : ConnMetrics K G) × Moved x g o m m'
  observed-Moved x g o m e h = rw e (advance-Moved x g m h)

  module _ (m0 : ConnMetrics K G) where
    -- The gauge shows the connections in the hands of serve, and the counter those that were
    -- accepted, but for the ones whose handling has not begun.
    pub record Shows (seen : List (Trace R)) (s : Server K G) : Type 0 where
      pub now : ConnMetrics K G
      pub metrics : s.metrics ≡ some now
      pub total :
          I.counter_value now.total + sum is_spawned s.handlers
          ≡ I.counter_value m0.total + sum all_accepted seen
      pub active : I.gauge_value now.active ≡ I.gauge_value m0.active + sum is_counted s.handlers

    unseen : (seen : List (Trace R)) → sum all_accepted (seen ++ []) ≡ sum all_accepted seen
    unseen seen = omega (arith, sum-append all_accepted seen [])

    unmoved :
        (seen : List (Trace R)) {s t : Server K G}
        → Shows seen s
        → s.metrics ≡ t.metrics
        → s.handlers ≡ t.handlers
        → Shows (seen ++ []) t
    unmoved seen h m e = record {
      now = h.now;
      metrics = sym m ∙ h.metrics;
      total = omega (arith, h.total, unseen seen, ap (sum is_spawned) e);
      active = omega (arith, h.active, ap (sum is_counted) e);
    }

    unaccepted :
        (x : Session) (g : Stage) (m : Option (ConnMetrics K G))
        → sum all_accepted (advance P cfg I x g m).trace ≡ 0
    unaccepted x spawned m = refl
    unaccepted x serving m = refl
    unaccepted x (finished c) m = refl
    unaccepted x (uncounted c) m = refl
    unaccepted x closed m = refl

    Step-Shows :
        (seen : List (Trace R)) (s : Server K G) {more : List (Trace R)} {t : Server K G}
        → Step P cfg I s more t
        → Shows seen s
        → Shows (seen ++ more) t
    Step-Shows seen s (accept b x e) h =
        let new : List Handler = record { session = x; stage = spawned } ∷ [] in
        record {
          now = h.now;
          metrics = h.metrics;
          total = omega (
            arith,
            h.total,
            sum-append is_spawned s.handlers new,
            sum-append all_accepted seen (accepted x ∷ []),
          );
          active = omega (arith, h.active, sum-append is_counted s.handlers new);
        }
    Step-Shows seen s (stop b is_closed e q) h = unmoved seen h refl refl
    Step-Shows seen s (back_off b e q) h = record {
      now = h.now;
      metrics = h.metrics;
      total = omega (arith, h.total, sum-append all_accepted seen (waited (next_backoff b) ∷ []));
      active = h.active;
    }
    Step-Shows seen s (retry b e) h = unmoved seen h refl refl
    Step-Shows seen s (give_up b e q) h = unmoved seen h refl refl
    Step-Shows seen s (cancel e) h = unmoved seen h refl refl
    Step-Shows seen s (go_on before after g e q) h =
        let o = s.metrics in
        let g' : Handler = record {
          session = g.session;
          stage = (advance P cfg I g.session g.stage o).stage;
        } in
        let spawned_now = sum_middle is_spawned before after in
        let counted_now = sum_middle is_counted before after in
        let before_all = ap (sum is_counted) e in
        let (now, moved) =
          observed-Moved g.session g.stage o h.now h.metrics
            (omega (arith, h.active, before_all, counted_now g)) in
        record {
          now = now;
          metrics = moved.metrics;
          total = omega (
            arith,
            h.total,
            moved.total,
            ap (sum is_spawned) e,
            spawned_now g,
            spawned_now g',
            unaccepted g.session g.stage o,
            sum-append all_accepted seen (advance P cfg I g.session g.stage o).trace,
          );
          active = omega (arith, h.active, moved.active, before_all, counted_now g, counted_now g');
        }
    Step-Shows seen s (wg_done before after x e) h =
        let gone : Handler = record { session = x; stage = closed } in
        record {
          now = h.now;
          metrics = h.metrics;
          total = omega (
            arith,
            h.total,
            unseen seen,
            ap (sum is_spawned) e,
            sum_middle is_spawned before after gone,
          );
          active =
              omega
                (arith, h.active, ap (sum is_counted) e, sum_middle is_counted before after gone);
        }
    Step-Shows seen s (return e q) h = unmoved seen h refl refl

    -- At every moment, however the steps interleave: connections_active shows its value at the
    -- start and the connections that are between their Inc and their Dec, and connections_total has
    -- grown by the connections that were accepted, but for those not handled yet; provided that Inc
    -- and Dec of the instruments count.
    pub Steps-Shows :
        {seen : List (Trace R)} {s : Server K G}
        → Steps P cfg I (start (some m0)) seen s
        → Shows seen s
    Steps-Shows here = record {
      now = m0;
      metrics = refl;
      total = omega arith;
      active = omega arith;
    }
    Steps-Shows (next {seen = seen} {t = t} run step) = Step-Shows seen t step (Steps-Shows run)
