-- ===== src/Upstream/Rounds.antt =====
-- upstream/conn.go, scramAuthenticate: the fuel of its model is enough for the frames of a script.
use kroxy.Base.{
  ℕ, if◌then◌else◌, ◌==◌, ◌≡◌, ◌≢◌, refl, arith, ℕ, zero, suc, ◌+◌, ◌≤◌, ◌<◌, ℤ, pos, eq_num, Bool,
  true, false, Option, none, some, List, [], ◌∷◌, Bytes, length, Result, ok, err, Bool-cases, inl,
  inr,
}
use kroxy.Auth.Scram.{is_scram_mechanism}
use kroxy.Protocol.Keys.{sasl_authenticate_key}
use kroxy.Upstream.Link.{
  Message, sasl_authenticate, LinkError, out_of_fuel, session_failed, Link, Call, continue,
  set_deadline, apply_request_deadline, next_deadline, receive, direct_round_trip,
}
use kroxy.Upstream.Dial.{
  Packages, or_refuse, exchange_authenticate, accepted, relay_sasl_authenticate, send_last,
  scram_rounds, scram_authenticate,
}

-- The frames that are still to come.
abbrev left : Link → ℕ
left l = length l.network.frames

-- The call does not run out of fuel; it has used up no frame, or, if it succeeded, `n` at least.
abbrev Uses {ℓ} : {A : Type ℓ} → ℕ → Link → Link × Result LinkError A → Type ℓ
Uses {A} n l (l', r) = (r ≢ err out_of_fuel) × ((a : A) → r ≡ ok a → left l' + n ≤ left l)

continue-Uses {ℓ κ} :
    {A : Type ℓ} {B : Type κ} (n m : ℕ) (l : Link) (x : Link × Result LinkError A) (k : A → Call B)
    → Uses n l x
    → ((a : A) (l' : Link) → left l' + n ≤ left l → Uses m l' (k a l'))
    → Uses (n + m) l (continue x k)
continue-Uses n m l (l', ok a) k h next =
    let rest = next a l' (h.1 a refl) in (rest.0, λ b q. omega (arith, rest.1 b q, h.1 a refl))
continue-Uses n m l (l', err e) k h next = (λ q. h.0 (ground arith), λ a q. absurd (ground arith))

weaken-Uses {ℓ} :
    {A : Type ℓ} (n : ℕ) (l : Link) (x : Link × Result LinkError A) → Uses n l x → Uses 0 l x
weaken-Uses n l (l', r) h = (h.0, λ a q. omega (arith, h.1 a q))

set_deadline-Uses : (t : Option ℕ) (l : Link) → Uses 0 l (set_deadline t l)
unfolding set_deadline
set_deadline-Uses t l = go l l.network.deadlines
  where
    go : (l : Link) (bs : List Bool) → Uses 0 l (next_deadline t l bs)
    go l [] = (λ q. ground arith, λ a q. omega arith)
    go l (true ∷ bs) = (λ q. ground arith, λ a q. omega arith)
    go l (false ∷ bs) = (λ q. ground arith, λ a q. absurd (ground arith))

receive-Uses :
    (l : Link) (m : Message) (key version : ℤ) (frames : List (Option Bytes))
    → l.network.frames ≡ frames
    → Uses 1 l (receive l m key version frames)
receive-Uses l m key version [] e = (λ q. ground arith, λ a q. absurd (ground arith))
receive-Uses l m key version (none ∷ rest) e = (λ q. ground arith, λ a q. absurd (ground arith))
receive-Uses l m key version (some frame ∷ rest) e = (λ q. ground arith, λ a q. rw e (omega arith))

or_refuse-Uses {ℓ} :
    {A : Type ℓ} (e : LinkError) (o : Option A) (l : Link)
    → e ≢ out_of_fuel
    → Uses 0 l (or_refuse e o l)
or_refuse-Uses e none l h = (λ q. h (ground arith), λ a q. absurd (ground arith))
or_refuse-Uses e (some b) l h = (λ q. ground arith, λ a q. omega arith)

apply-Uses : (l : Link) → Uses 0 l (apply_request_deadline l)
unfolding apply_request_deadline
apply-Uses l = set_deadline-Uses (if l.request_timeout == 0 then none else some l.request_timeout) l

module _ {S : Type 0} (P : Packages S) where
  exchange-Uses : (payload : Bytes) (l : Link) → Uses 1 l (exchange_authenticate P payload l)
  unfolding exchange_authenticate direct_round_trip
  exchange-Uses payload l =
      continue-Uses 1 0 l _ _
        (receive-Uses l (sasl_authenticate payload) (pos sasl_authenticate_key) (pos 1)
          l.network.frames refl)
        (λ body l' d. or_refuse-Uses _ (P.read_authenticate body) l' (λ q. cc))

  accepted-Uses : (answer : Bytes × ℤ × Bytes) (l : Link) → Uses 0 l (accepted P answer l)
  accepted-Uses (payload, code, message) l = elim (Bool-cases (eq_num code 0)) [
    | inl e ↦ rw e (λ q. ground arith, λ a q. omega arith)
    | inr e ↦ rw e (λ q. ground arith, λ a q. absurd (ground arith))
  ]

  relay-Uses : (payload : Bytes) (l : Link) → Uses 1 l (relay_sasl_authenticate P payload l)
  unfolding relay_sasl_authenticate
  relay-Uses payload l =
      continue-Uses 0 1 l (apply_request_deadline l) _ (apply-Uses l)
        (λ done l' d. exchange-Uses payload l')

  send_last-Uses : (next : Bytes) (l : Link) → Uses 0 l (send_last P next l)
  send_last-Uses [] l = (λ q. ground arith, λ a q. omega arith)
  send_last-Uses (c ∷ cs) l =
      continue-Uses 0 0 l (relay_sasl_authenticate P (c ∷ cs) l) _
        (weaken-Uses 1 l (relay_sasl_authenticate P (c ∷ cs) l) (relay-Uses (c ∷ cs) l))
        (λ answer l' d.
          continue-Uses 0 0 l' _ _ (accepted-Uses answer l')
            (λ payload l'' d'. (λ q. ground arith, λ a q. omega arith)))

  round-Uses :
      (next : Bytes) (l : Link) (is_done : Bool) (more : Call (Unit {0}))
      → Uses 0 l (more l)
      → Uses {A = Unit {0}} 0 l
          ((elim is_done as (λ x. Call (Unit {0})) [ true ↦ send_last P next | false ↦ more ]) l)
  round-Uses next l true more h = send_last-Uses next l
  round-Uses next l false more h = h

  rounds-Uses :
      (fuel : ℕ) (session : S) (message : Bytes) (l : Link)
      → left l < fuel
      → Uses 0 l (scram_rounds P fuel session message l)
  unfolding scram_rounds
  rounds-Uses zero session message l small = absurd (omega arith)
  rounds-Uses (suc fuel) session message l small =
      weaken-Uses 1 l (scram_rounds P (suc fuel) session message l) (
        continue-Uses 1 0 l (relay_sasl_authenticate P message l) _ (relay-Uses message l)
          λ answer l1 d1. continue-Uses 0 0 l1 _ _ (accepted-Uses answer l1) λ server l2 d2.
            continue-Uses 0 0 l2 _ _ (or_refuse-Uses _ (P.challenge session server) l2 (λ q. cc))
              λ step l3 d3.
                round-Uses step.1 l3 step.0 (scram_rounds P fuel step.2 step.1)
                  (rounds-Uses fuel step.2 step.1 l3 (omega arith)))

  -- The rounds that the model's loop is given are never used up, since each takes a frame of the
  -- script.
  pub scram_authenticate_ends :
      (mechanism username password : Bytes) (l : Link)
      → (scram_authenticate P mechanism username password l).1 ≢ err out_of_fuel
  unfolding scram_authenticate
  scram_authenticate_ends mechanism username password l =
      elim (Bool-cases (is_scram_mechanism mechanism)) [
        | inr e ↦ rw (scram_authenticate, e) (λ q. cc)
        | inl e ↦
            simp (scram_authenticate, e)
              ((continue-Uses 0 0 l
                (or_refuse session_failed (P.authenticate mechanism username password) l) _
                (or_refuse-Uses _ (P.authenticate mechanism username password) l (λ q. cc))
                λ first l' d. rounds-Uses (suc (left l)) first.0 first.1 l' (omega arith)).0)
      ]
