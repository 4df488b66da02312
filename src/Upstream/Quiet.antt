-- ===== src/Upstream/Quiet.antt =====
-- upstream/conn.go: the calls that leave the TCP connection as it is.
use kroxy.Base.{
  ℕ, if◌then◌else◌, ◌==◌, Bool-cases, inl, inr, ◌≡◌, ◌≢◌, refl, ◌∙◌, arith, ℕ, zero, suc, ℤ, pos,
  Bool, true, false, Option, none, some, List, [], ◌∷◌, Bytes, length, Result, ok, err,
}
use kroxy.Protocol.Header.{response_header_version}
use kroxy.Protocol.Keys.{
  is_flexible_request, api_versions_key, sasl_handshake_key, sasl_authenticate_key,
}
use kroxy.Upstream.Link.{
  Message, api_versions, sasl_handshake, sasl_authenticate, LinkError, slice_panic, Link, Call,
  continue, set_deadline, apply_request_deadline, next_deadline, receive, direct_round_trip,
  body_of, body_offset,
}
use kroxy.Upstream.Dial.{
  Packages, or_refuse, request_api_versions, request_handshake, exchange_authenticate, accepted,
  plain_authenticate, relay_sasl_authenticate, send_last, scram_rounds, scram_authenticate,
}
use kroxy.Auth.Scram.{is_scram_mechanism}

-- The call leaves the connection alone, and does not panic.
abbrev pub IsQuiet {ℓ} : {A : Type ℓ} → Link → Link × Result LinkError A → Type ℓ
IsQuiet l x = (x.0.is_open ≡ l.is_open) × (x.1 ≢ err slice_panic)

module _ {ℓ κ} {A : Type ℓ} {B : Type κ} where
  continue-IsQuiet :
      (l : Link) (x : Link × Result LinkError A) (k : A → Call B)
      → IsQuiet l x
      → ((a : A) (l' : Link) → IsQuiet l' (k a l'))
      → IsQuiet l (continue x k)
  continue-IsQuiet l (l', ok a) k h next = ((next a l').0 ∙ h.0, (next a l').1)
  continue-IsQuiet l (l', err e) k h next = (h.0, λ q. h.1 (ground arith))

module _ {ℓ} {A : Type ℓ} where
  or_refuse-IsQuiet :
      (e : LinkError) (o : Option A) (l : Link) → e ≢ slice_panic → IsQuiet l (or_refuse e o l)
  or_refuse-IsQuiet e none l h = (refl, λ q. h (ground arith))
  or_refuse-IsQuiet e (some a) l h = (refl, λ q. ground arith)

body_of-no_panic : (id : ℤ) (frame : Bytes) → body_of id 4 frame ≢ err slice_panic
body_of-no_panic id frame e = ground (arith, e)

receive-IsQuiet :
    (l : Link) (m : Message) (key version : ℤ) (frames : List (Option Bytes))
    → body_offset key version ≡ 4
    → IsQuiet l (receive l m key version frames)
receive-IsQuiet l m key version [] h = (refl, λ q. ground arith)
receive-IsQuiet l m key version (none ∷ rest) h = (refl, λ q. ground arith)
receive-IsQuiet l m key version (some frame ∷ rest) h = (refl, rw h (body_of-no_panic _ frame))

pub set_deadline-IsQuiet : (t : Option ℕ) (l : Link) → IsQuiet l (set_deadline t l)
unfolding set_deadline
set_deadline-IsQuiet t l = go l l.network.deadlines
  where
    go : (l : Link) (bs : List Bool) → IsQuiet l (next_deadline t l bs)
    go l [] = (refl, λ q. ground arith)
    go l (true ∷ bs) = (refl, λ q. ground arith)
    go l (false ∷ bs) = (refl, λ q. ground arith)

accepted-IsQuiet :
    {S : Type 0} (P : Packages S) (answer : Bytes × ℤ × Bytes) (l : Link)
    → IsQuiet l (accepted P answer l)
accepted-IsQuiet P (payload, code, message) l = ground arith

apply-IsQuiet : (l : Link) → IsQuiet l (apply_request_deadline l)
unfolding apply_request_deadline
apply-IsQuiet l =
    set_deadline-IsQuiet (if l.request_timeout == 0 then none else some l.request_timeout) l

module _ {S : Type 0} (P : Packages S) where
  pub api_versions-IsQuiet : (l : Link) → IsQuiet l (request_api_versions P l)
  unfolding request_api_versions direct_round_trip response_header_version
  api_versions-IsQuiet l =
      continue-IsQuiet l _ _
        (receive-IsQuiet l api_versions (pos api_versions_key) (pos 0) l.network.frames refl)
        (λ body l'. (refl, λ q. ground arith))

  pub handshake-IsQuiet :
      (mechanism : Bytes) (l : Link) → IsQuiet l (request_handshake P mechanism l)
  unfolding request_handshake direct_round_trip response_header_version is_flexible_request
  handshake-IsQuiet mechanism l =
      continue-IsQuiet l _ _
        (receive-IsQuiet l (sasl_handshake mechanism) (pos sasl_handshake_key) (pos 1)
          l.network.frames refl)
        (λ body l'.
          continue-IsQuiet l' _ _ (or_refuse-IsQuiet _ (P.read_handshake body) l' (λ q. cc))
            (λ code l''. ground arith))

  exchange-IsQuiet : (payload : Bytes) (l : Link) → IsQuiet l (exchange_authenticate P payload l)
  unfolding exchange_authenticate direct_round_trip response_header_version is_flexible_request
  exchange-IsQuiet payload l =
      continue-IsQuiet l _ _
        (receive-IsQuiet l (sasl_authenticate payload) (pos sasl_authenticate_key) (pos 1)
          l.network.frames refl)
        (λ body l'. or_refuse-IsQuiet _ (P.read_authenticate body) l' (λ q. cc))

  pub plain-IsQuiet :
      (username password : Bytes) (l : Link) → IsQuiet l (plain_authenticate P username password l)
  unfolding plain_authenticate
  plain-IsQuiet username password l = continue-IsQuiet l _ _ (exchange-IsQuiet _ l) (λ answer l'.
      continue-IsQuiet l' _ _ (accepted-IsQuiet P answer l')
        (λ payload l''. (refl, λ q. ground arith)))

  relay-IsQuiet : (payload : Bytes) (l : Link) → IsQuiet l (relay_sasl_authenticate P payload l)
  unfolding relay_sasl_authenticate
  relay-IsQuiet payload l =
      continue-IsQuiet l _ _ (apply-IsQuiet l) (λ done l'. exchange-IsQuiet payload l')

  send_last-IsQuiet : (next : Bytes) (l : Link) → IsQuiet l (send_last P next l)
  send_last-IsQuiet [] l = (refl, λ q. ground arith)
  send_last-IsQuiet (c ∷ cs) l = continue-IsQuiet l _ _ (relay-IsQuiet (c ∷ cs) l) (λ answer l'.
      continue-IsQuiet l' _ _ (accepted-IsQuiet P answer l')
        (λ payload l''. (refl, λ q. ground arith)))

  -- What follows a message of the server, if the rounds behind it are quiet.
  round-IsQuiet :
      (next : Bytes) (l : Link) (is_done : Bool) (more : Call (Unit {0}))
      → IsQuiet l (more l)
      → IsQuiet {A = Unit {0}} l
          ((elim is_done as (λ x. Call (Unit {0})) [ true ↦ send_last P next | false ↦ more ]) l)
  round-IsQuiet next l true more h = send_last-IsQuiet next l
  round-IsQuiet next l false more h = h

  rounds-IsQuiet :
      (fuel : ℕ) (session : S) (message : Bytes) (l : Link)
      → IsQuiet l (scram_rounds P fuel session message l)
  unfolding scram_rounds
  rounds-IsQuiet zero session message l = (refl, λ q. ground arith)
  rounds-IsQuiet (suc fuel) session message l =
      continue-IsQuiet l _ _ (relay-IsQuiet message l) λ answer l1.
        continue-IsQuiet l1 _ _ (accepted-IsQuiet P answer l1) λ server l2.
          continue-IsQuiet l2 _ _ (or_refuse-IsQuiet _ (P.challenge session server) l2 (λ q. cc))
            λ step l3.
              round-IsQuiet step.1 l3 step.0 (scram_rounds P fuel step.2 step.1)
                (rounds-IsQuiet fuel step.2 step.1 l3)

  pub scram-IsQuiet :
      (mechanism username password : Bytes) (l : Link)
      → IsQuiet l (scram_authenticate P mechanism username password l)
  unfolding scram_authenticate
  scram-IsQuiet mechanism username password l = elim (Bool-cases (is_scram_mechanism mechanism)) [
    | inr e ↦ rw (scram_authenticate, e) (refl, λ q. ground arith)
    | inl e ↦
        rw (scram_authenticate, e)
          (continue-IsQuiet l _ _
            (or_refuse-IsQuiet _ (P.authenticate mechanism username password) l (λ q. cc))
            λ first l'. rounds-IsQuiet (suc (length l.network.frames)) first.0 first.1 l')
  ]
