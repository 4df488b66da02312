-- ===== src/Proxy/Server/Ledger.antt =====
-- proxy/listener.go: sums over the handlers that are live, and over what is seen of the server.
use kroxy.Base.{◌≡◌, ap, arith, ℕ, ◌+◌, Option, List, [], ◌∷◌, ◌++◌}
use kroxy.Proxy.Conn.{ServerConfig, Packages}
use kroxy.Proxy.Listener.{next_backoff}
use kroxy.Proxy.Server.{
  Instruments, ConnMetrics, Session, Stage, spawned, closed, Handler, Server, Trace, accepted,
  waited, advance, Step, accept, stop, back_off, retry, give_up, cancel, go_on, wg_done, return,
  Steps, here, next,
}

module _ {A : Type 0} (f : A → ℕ) where
  abbrev pub sum : List A → ℕ
  sum [] = 0
  sum (x ∷ xs) = f x + sum xs

  pub sum-append : (xs ys : List A) → sum (xs ++ ys) ≡ sum xs + sum ys
  sum-append [] ys = omega arith
  sum-append (x ∷ xs) ys = omega (arith, sum-append xs ys)

  pub sum_middle : (xs ys : List A) (x : A) → sum (xs ++ (x ∷ ys)) ≡ f x + sum (xs ++ ys)
  sum_middle xs ys x = omega (arith, sum-append xs (x ∷ ys), sum-append xs ys)

module _ {R K G : Type 0} (P : Packages R) (cfg : ServerConfig) (I : Instruments K G)
    (held : Handler → ℕ) (gain loss : Trace R → ℕ) where
  -- What each single thing that a handler does gains and loses.
  pub record IsLedger : Type 0 where
    pub enters :
        (x : Session)
        → held (record { session = x; stage = spawned }) + loss (accepted x) ≡ gain (accepted x)
    pub moves :
        (x : Session) (g : Stage) (m : Option (ConnMetrics K G))
        → held (record { session = x; stage = (advance P cfg I x g m).stage })
            + sum loss (advance P cfg I x g m).trace
          ≡ held (record { session = x; stage = g }) + sum gain (advance P cfg I x g m).trace
    pub waits : (d : ℕ) → loss (waited d) ≡ gain (waited d)
    pub leaves : (x : Session) → held (record { session = x; stage = closed }) ≡ 0

  abbrev Settles : Server K G → List (Trace R) → Server K G → Type 0
  Settles s seen t = sum held t.handlers + sum loss seen ≡ sum held s.handlers + sum gain seen

  Step-Settles :
      (law : IsLedger) (s : Server K G) {seen : List (Trace R)} {t : Server K G}
      → Step P cfg I s seen t
      → Settles s seen t
  Step-Settles law s (accept b x e) = omega (
    arith,
    law.enters x,
    sum-append held s.handlers (record { session = x; stage = spawned } ∷ []),
  )
  Step-Settles law s (stop b is_closed e q) = omega arith
  Step-Settles law s (back_off b e q) = omega (arith, law.waits (next_backoff b))
  Step-Settles law s (retry b e) = omega arith
  Step-Settles law s (give_up b e q) = omega arith
  Step-Settles law s (cancel e) = omega arith
  Step-Settles law s (go_on before after h e q) =
      let g = (advance P cfg I h.session h.stage s.metrics).stage in
      let h' : Handler = record { session = h.session; stage = g } in
      omega (
        arith,
        law.moves h.session h.stage s.metrics,
        ap (sum held) e,
        sum_middle held before after h,
        sum_middle held before after h',
      )
  Step-Settles law s (wg_done before after x e) = omega (
    arith,
    law.leaves x,
    ap (sum held) e,
    sum_middle held before after (record { session = x; stage = closed }),
  )
  Step-Settles law s (return e q) = omega arith

  -- Along every run, what is held grows by what is gained and shrinks by what is lost.
  pub Steps-Settles :
      (law : IsLedger) (s : Server K G) {seen : List (Trace R)} {t : Server K G}
      → Steps P cfg I s seen t
      → Settles s seen t
  Steps-Settles law s here = omega arith
  Steps-Settles law s (next {seen = seen} {more = more} {t = t} run step) = omega (
    arith,
    Steps-Settles law s run,
    Step-Settles law t step,
    sum-append gain seen more,
    sum-append loss seen more,
  )
