-- ===== src/Proxy/Backoff.antt =====
-- proxy/listener.go, Run: how long the listener waits after failures, and when it gives up.
use kroxy.Base.{
  ◌≡◌, refl, arith, ℕ, zero, suc, ◌*◌, ◌^◌, ◌≤◌, ◌||◌, List, [], ◌∷◌, ltb, if◌then◌else◌,
}
use kroxy.Proxy.Listener.{
  accepted, accept_failed, Attempt, Action, handled, waiting, returned, next_backoff, accept_loop,
}

-- The delay behind `k` failures in a row: 5 ms doubled k times, at most a second.
abbrev pub delay : ℕ → ℕ
delay k = if ltb 1000 (5 * 2 ^ k) then 1000 else 5 * 2 ^ k

-- The backoff that the loop holds after so many failures in a row.
abbrev pub backoff_after : ℕ → ℕ
backoff_after zero = 0
backoff_after (suc k) = delay k

pow_suc : (k : ℕ) → 2 ^ suc k ≡ 2 * 2 ^ k
pow_suc k = omega arith

positive_pow : (k : ℕ) → 1 ≤ 2 ^ k
positive_pow zero = omega arith
positive_pow (suc k) = omega (arith, positive_pow k, pow_suc k)

pub next_backoff-backoff_after : (k : ℕ) → next_backoff (backoff_after k) ≡ delay k
unfolding next_backoff
next_backoff-backoff_after zero = refl
next_backoff-backoff_after (suc k) = ground (arith, pow_suc k, positive_pow k)

module _ {A : Type 0} where
  -- What the loop is to do after `failures` failed attempts in a row.
  unfoldable pub schedule : ℕ → List (Attempt A) → List (Action A)
  schedule failures [] = []
  schedule failures (t ∷ ts) = elim t.result [
    | accepted a ↦ handled a ∷ schedule 0 ts
    | accept_failed is_closed ↦
        if t.is_cancelled || is_closed
        then returned ∷ []
        else (let rest = schedule (suc failures) ts in
            waiting (delay failures) ∷ (if t.is_cancelled_waiting then returned ∷ [] else rest))
  ]

  -- The listener hands every accepted connection to a goroutine, in order; the k-th failure in a row
  -- makes it wait 5 ms doubled k times (k from 0), at most a second, and then accept again; a
  -- connection starts the count anew; and it returns only on a failure with the context cancelled
  -- or the listener closed, or when the context is cancelled while it waits.
  pub accept_loop-schedule :
      (failures : ℕ) (ts : List (Attempt A))
      → accept_loop (backoff_after failures) ts ≡ schedule failures ts
  unfolding accept_loop schedule
  accept_loop-schedule failures [] = refl
  accept_loop-schedule failures (t ∷ ts) = ground (
    arith,
    next_backoff-backoff_after failures,
    accept_loop-schedule (suc failures) ts,
    accept_loop-schedule 0 ts,
  )
