-- ===== src/Proxy/Server/Accepting.antt =====
-- proxy/listener.go, Run: in every run of the server the loop goes by the schedule of delays.
use kroxy.Base.{
  ◌≡◌, refl, sym, ◌∙◌, ap, arith, ℕ, suc, Bool, true, false, ◌||◌, Option, List, [], ◌∷◌, ◌++◌,
  append-nil, append_assoc,
}
use kroxy.Proxy.Conn.{ServerConfig, Packages}
use kroxy.Proxy.Listener.{Attempt, Action, handled, waiting, next_backoff}
use kroxy.Proxy.Backoff.{delay, backoff_after, schedule, next_backoff-backoff_after}
use kroxy.Proxy.Listener
use kroxy.Proxy.Server.{
  Instruments, ConnMetrics, Session, Stage, spawned, serving, finished, uncounted, closed, Phase,
  accepting, backing_off, draining, returned, Server, Trace, accepted, waited, served, closed_both,
  advance, Step, accept, stop, back_off, retry, give_up, cancel, go_on, wg_done, return, start,
  Steps, here, next,
}

-- What of it the loop did.
abbrev pub loop_actions : {R : Type 0} → List (Trace R) → List (Action Session)
loop_actions [] = []
loop_actions (accepted x ∷ es) = handled x ∷ loop_actions es
loop_actions (waited d ∷ es) = waiting d ∷ loop_actions es
loop_actions (served x s ∷ es) = loop_actions es
loop_actions (closed_both x d ∷ es) = loop_actions es

loop_actions-append :
    {R : Type 0}
    → (es es' : List (Trace R)) → loop_actions (es ++ es') ≡ loop_actions es ++ loop_actions es'
loop_actions-append [] es' = refl
loop_actions-append (accepted x ∷ es) es' = ap (◌∷◌ (handled x)) (loop_actions-append es es')
loop_actions-append (waited d ∷ es) es' = ap (◌∷◌ (waiting d)) (loop_actions-append es es')
loop_actions-append (served x s ∷ es) es' = loop_actions-append es es'
loop_actions-append (closed_both x d ∷ es) es' = loop_actions-append es es'

-- After these attempts the loop has done this, and the last ones failed in a row.
pub record Past (done : List (Action Session)) (failures : ℕ) : Type 0 where
  pub attempts : List (Attempt Session)
  pub goes :
      (more : List (Attempt Session))
      → schedule 0 (attempts ++ more) ≡ done ++ schedule failures more

-- The loop holds the backoff of so many failures in a row.
pub record After (done : List (Action Session)) (b : ℕ) : Type 0 where
  pub failures : ℕ
  pub level : b ≡ backoff_after failures
  pub past : Past done failures

-- The loop waits for the delay of one more failure, after what it did before.
pub record Waiting (done : List (Action Session)) (d : ℕ) : Type 0 where
  pub before : List (Action Session)
  pub failures : ℕ
  pub is_delay : d ≡ delay failures
  pub ends : done ≡ before ++ (waiting d ∷ [])
  pub past : Past before failures

-- These attempts make the loop do this and return.
pub record Over (done : List (Action Session)) : Type 0 where
  pub attempts : List (Attempt Session)
  pub all : schedule 0 attempts ≡ done ++ (Listener.returned ∷ [])

abbrev pub LoopAt : Phase → List (Action Session) → Type 0
LoopAt (accepting b) done = After done b
LoopAt (backing_off d) done = Waiting done d
LoopAt draining done = Over done
LoopAt returned done = Over done

Past-next :
    {done : List (Action Session)} {n : ℕ} (n' : ℕ) (t : Attempt Session)
    (acts : List (Action Session))
    → Past done n
    → ((more : List (Attempt Session)) → schedule n (t ∷ more) ≡ acts ++ schedule n' more)
    → Past (done ++ acts) n'
Past-next {done} {n} n' t acts a h = record {
  attempts = a.attempts ++ (t ∷ []);
  goes = λ more. rw (append_assoc a.attempts (t ∷ []) more) (
      a.goes (t ∷ more)
      ∙ ap (◌++◌ done) (h more)
      ∙ sym (append_assoc done acts (schedule n' more)));
}

Past-Over :
    {done : List (Action Session)} {n : ℕ} (t : Attempt Session) (acts : List (Action Session))
    → Past done n
    → schedule n (t ∷ []) ≡ acts ++ (Listener.returned ∷ [])
    → Over (done ++ acts)
Past-Over {done} {n} t acts a h = record {
  attempts = a.attempts ++ (t ∷ []);
  all = a.goes (t ∷ []) ∙ ap (◌++◌ done) h ∙ sym (append_assoc done acts (Listener.returned ∷ []));
}

-- The attempts that the steps of the loop come of.
abbrev arrives : Session → Attempt Session
arrives x = record {
  result = Listener.accepted x;
  is_cancelled = false;
  is_cancelled_waiting = false;
}

abbrev fails : Bool → Bool → Bool → Attempt Session
fails is_closed is_cancelled is_cancelled_waiting = record {
  result = Listener.accept_failed is_closed;
  is_cancelled = is_cancelled;
  is_cancelled_waiting = is_cancelled_waiting;
}

After-accept :
    {done : List (Action Session)} {b : ℕ} (x : Session)
    → After done b
    → After (done ++ (handled x ∷ [])) 0
unfolding schedule
After-accept x a = record {
  failures = 0;
  level = refl;
  past = Past-next 0 (arrives x) (handled x ∷ []) a.past (λ more. refl);
}

After-stop :
    {done : List (Action Session)} {b : ℕ} (is_cancelled is_closed : Bool)
    → (is_cancelled || is_closed) ≡ true
    → After done b
    → Over done
unfolding schedule
After-stop {done} is_cancelled is_closed q a =
    rw (append-nil done) at
      (Past-Over (fails is_closed is_cancelled false) [] a.past (ground (arith, q)))

After-back_off :
    {done : List (Action Session)} {b : ℕ}
    → After done b
    → Waiting (done ++ (waiting (next_backoff b) ∷ [])) (next_backoff b)
After-back_off {done} {b} a = record {
  before = done;
  failures = a.failures;
  is_delay = ap next_backoff a.level ∙ next_backoff-backoff_after a.failures;
  ends = refl;
  past = a.past;
}

Waiting-retry : {done : List (Action Session)} {d : ℕ} → Waiting done d → After done d
unfolding schedule
Waiting-retry {done} {d} w =
    let retried : Past (w.before ++ (waiting (delay w.failures) ∷ [])) (suc w.failures) =
      Past-next (suc w.failures) (fails false false false) (waiting (delay w.failures) ∷ []) w.past
        (λ more. refl) in
    record { failures = suc w.failures; level = w.is_delay; past = rw (w.ends, w.is_delay) retried }

Waiting-give_up : {done : List (Action Session)} {d : ℕ} → Waiting done d → Over done
unfolding schedule
Waiting-give_up {done} {d} w =
    let ended : Over (w.before ++ (waiting (delay w.failures) ∷ [])) =
      Past-Over (fails false false true) (waiting (delay w.failures) ∷ []) w.past refl in
    rw (w.ends, w.is_delay) ended

module _ {R K G : Type 0} (P : Packages R) (cfg : ServerConfig) (I : Instruments K G) where
  unmoved :
      (x : Session) (g : Stage) (m : Option (ConnMetrics K G))
      → loop_actions (advance P cfg I x g m).trace ≡ []
  unmoved x spawned m = refl
  unmoved x serving m = refl
  unmoved x (finished c) m = refl
  unmoved x (uncounted c) m = refl
  unmoved x closed m = refl

  Step-LoopAt :
      (done : List (Action Session)) (s : Server K G) {more : List (Trace R)} {t : Server K G}
      → Step P cfg I s more t
      → LoopAt s.phase done
      → LoopAt t.phase (done ++ loop_actions more)
  Step-LoopAt done s (accept b x e) h = After-accept x (rw e at h)
  Step-LoopAt done s (stop b is_closed e q) h =
      rw (append-nil done) (After-stop s.is_cancelled is_closed q (rw e at h))
  Step-LoopAt done s (back_off b e q) h = After-back_off (rw e at h)
  Step-LoopAt done s (retry b e) h = rw (append-nil done) (Waiting-retry (rw e at h))
  Step-LoopAt done s (give_up b e q) h = rw (append-nil done) (Waiting-give_up (rw e at h))
  Step-LoopAt done s (cancel e) h = rw (append-nil done) h
  Step-LoopAt done s (go_on before after g e q) h =
      rw (unmoved g.session g.stage s.metrics, append-nil done) h
  Step-LoopAt done s (wg_done before after x e) h = rw (append-nil done) h
  Step-LoopAt done s (return e q) h = rw (append-nil done) (rw e at h)

  -- In every run of the server, however its goroutines interleave, the connections that were
  -- accepted and the delays that were waited, in their order, are those of some attempts by the
  -- schedule: every connection is handed on, and the k-th failure in a row, from 0, is waited for
  -- 5 ms doubled k times, at most a second, a connection starting the count anew. While the loop
  -- accepts, the backoff that it holds is that of its failures in a row; and once the server drains,
  -- the attempts are ones on which the schedule returns.
  pub Steps-LoopAt :
      (m : Option (ConnMetrics K G)) {seen : List (Trace R)} {t : Server K G}
      → Steps P cfg I (start m) seen t
      → LoopAt t.phase (loop_actions seen)
  Steps-LoopAt m here = record {
    failures = 0;
    level = refl;
    past = record { attempts = []; goes = λ more. refl };
  }
  Steps-LoopAt m (next {seen = seen} {more = more} {t = t} run step) =
      rw (loop_actions-append seen more)
        (Step-LoopAt (loop_actions seen) t step (Steps-LoopAt m run))
