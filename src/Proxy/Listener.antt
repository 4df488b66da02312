-- ===== src/Proxy/Listener.antt =====
-- proxy/listener.go, Run: the loop that accepts connections, with its backoff. Durations are in
-- milliseconds.
use kroxy.Base.{ℕ, ◌*◌, Bool, ◌||◌, List, [], ◌∷◌, ltb, ◌==◌, if◌then◌else◌}

abbrev pub max_accept_backoff : ℕ
max_accept_backoff = 1000

pub data AcceptResult (A : Type 0) : Type 0 where
  accepted : A → AcceptResult A
  accept_failed : Bool → AcceptResult A

-- One call of Accept: its result, whose error is net.ErrClosed or not; whether the context is
-- cancelled when that error is looked at; and whether it is cancelled before the delay is over.
pub record Attempt (A : Type 0) : Type 0 where
  pub result : AcceptResult A
  pub is_cancelled : Bool
  pub is_cancelled_waiting : Bool

-- What the loop does: hand a connection to its own goroutine, wait, return.
pub data Action (A : Type 0) : Type 0 where
  handled : A → Action A
  waiting : ℕ → Action A
  returned : Action A

unfoldable pub next_backoff : ℕ → ℕ
next_backoff backoff =
    let longer : ℕ = if backoff == 0 then 5 else 2 * backoff in
    if ltb max_accept_backoff longer then max_accept_backoff else longer

module _ {A : Type 0} where
  -- The loop from a value of `backoff` on, over the attempts that it makes; without an action
  -- `returned` at the end it is still in Accept.
  unfoldable pub accept_loop : ℕ → List (Attempt A) → List (Action A)
  unfolding next_backoff
  accept_loop backoff [] = []
  accept_loop backoff (t ∷ ts) = elim t.result [
    | accepted a ↦ handled a ∷ accept_loop 0 ts
    | accept_failed is_closed ↦
        if t.is_cancelled || is_closed
        then returned ∷ []
        else (let rest = accept_loop (next_backoff backoff) ts in
            waiting (next_backoff backoff)
            ∷ (if t.is_cancelled_waiting then returned ∷ [] else rest))
  ]
