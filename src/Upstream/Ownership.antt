-- ===== src/Upstream/Ownership.antt =====
-- upstream/conn.go: who holds the TCP connection when a dial returns.
use kroxy.Base.{
  List, Bool, [], ◌∷◌, none, refl, some, none, Bool-cases, inl, inr, ◌≡◌, ◌∙◌, arith, Bool, true,
  false, Bytes, Result, ok, err,
}
use kroxy.Upstream.Link.{
  LinkError, Link, Call, continue, ◌>>◌, connect, or_close, closed_by, set_deadline, next_deadline,
  dial_timeout,
}
use kroxy.Upstream.Dial.{
  Packages, request_api_versions, request_handshake, plain_authenticate, scram_authenticate,
  dial_and_negotiate, dial, dial_for_scram, dial_scram,
}
use kroxy.Auth.Plain.{mechanism_plain}
use kroxy.Auth.Scram.{is_scram_mechanism}
use kroxy.Upstream.Quiet.{
  IsQuiet, set_deadline-IsQuiet, api_versions-IsQuiet, handshake-IsQuiet, plain-IsQuiet,
  scram-IsQuiet,
}

abbrev is_ok {ℓ} : {A : Type ℓ} → Result LinkError A → Bool
is_ok (ok value) = true
is_ok (err failure) = false

-- The connection is open exactly if the call succeeded.
abbrev Matches {ℓ} : {A : Type ℓ} → Link × Result LinkError A → Type 0
Matches x = x.0.is_open ≡ is_ok x.1

-- A connection for use is open and without a deadline; a failed call leaves none open.
abbrev pub IsSettled {ℓ} : {A : Type ℓ} → Link × Result LinkError A → Type 0
IsSettled (l, ok a) = (l.is_open ≡ true) × (l.deadline ≡ none)
IsSettled (l, err e) = l.is_open ≡ false

-- The three ways to dial.
pub data Dialling : Type 0 where
  plain : Bytes → Bytes → Dialling
  relayed : Bytes → Dialling
  translated : Bytes → Bytes → Bytes → Dialling

module _ {ℓ κ} {A : Type ℓ} {B : Type κ} where
  continue-Matches :
      (x : Link × Result LinkError A) (k : A → Call B)
      → Matches x
      → ((a : A) (l : Link) → l.is_open ≡ true → Matches (k a l))
      → Matches (continue x k)
  continue-Matches (l, ok a) k h next = next a l h
  continue-Matches (l, err e) k h next = h

  continue-IsSettled :
      (x : Link × Result LinkError A) (k : A → Call B)
      → Matches x
      → ((a : A) (l : Link) → l.is_open ≡ true → IsSettled (k a l))
      → IsSettled (continue x k)
  continue-IsSettled (l, ok a) k h next = next a l h
  continue-IsSettled (l, err e) k h next = h

module _ {ℓ} {A : Type ℓ} where
  closed_by-Matches :
      (l : Link) (x : Link × Result LinkError A)
      → l.is_open ≡ true
      → IsQuiet l x
      → Matches (closed_by x)
  closed_by-Matches l (l', ok a) o h = h.0 ∙ o
  closed_by-Matches l (l', err e) o h = ground (arith, h)

-- The last step of each dial.
clear-IsSettled : (l : Link) → l.is_open ≡ true → IsSettled (or_close (set_deadline none) l)
unfolding set_deadline
clear-IsSettled l h = go l l.network.deadlines h
  where
    go :
        (l : Link) (bs : List Bool)
        → l.is_open ≡ true
        → IsSettled (closed_by (next_deadline none l bs))
    go l [] h = (h, refl)
    go l (true ∷ bs) h = (h, refl)
    go l (false ∷ bs) h = refl

module _ {S : Type 0} (P : Packages S) where
  connect-Matches : (l : Link) → l.is_open ≡ false → Matches (connect l)
  unfolding connect
  connect-Matches l h = ground (arith, h)

  negotiate-Matches :
      (mechanism : Bytes) (l : Link)
      → l.is_open ≡ false
      → Matches (dial_and_negotiate P mechanism l)
  unfolding dial_and_negotiate
  negotiate-Matches mechanism l h =
      continue-Matches (connect l) _ (connect-Matches l h) λ done l1 o1.
        continue-Matches (or_close (set_deadline (some dial_timeout)) l1) _
          (closed_by-Matches l1 _ o1 (set_deadline-IsQuiet (some dial_timeout) l1))
          λ done l2 o2.
            continue-Matches (or_close (request_api_versions P) l2) _
              (closed_by-Matches l2 _ o2 (api_versions-IsQuiet P l2))
              λ done l3 o3.
                closed_by-Matches l3 (request_handshake P mechanism l3) o3
                  (handshake-IsQuiet P mechanism l3)

  -- An open connection is authenticated by `call`, and its deadline is cleared.
  complete-IsSettled :
      (call : Call (Unit {0})) (mechanism : Bytes) (l : Link)
      → ((l' : Link) → IsQuiet l' (call l'))
      → l.is_open ≡ false
      → IsSettled
          (◌>>◌ (dial_and_negotiate P mechanism) (or_close call >> or_close (set_deadline none)) l)
  complete-IsSettled call mechanism l quiet h =
      continue-IsSettled (dial_and_negotiate P mechanism l) _ (negotiate-Matches mechanism l h)
        λ done l1 o1.
          continue-IsSettled (or_close call l1) _ (closed_by-Matches l1 _ o1 (quiet l1))
            λ done l2 o2. clear-IsSettled l2 o2

  abbrev pub dialled : Dialling → Call (Unit {0})
  dialled (plain username password) = dial P username password
  dialled (relayed mechanism) = dial_for_scram P mechanism
  dialled (translated mechanism username password) = dial_scram P mechanism username password

  -- Whichever way the proxy dials and however the network answers, if no TCP connection was open
  -- before: a dial that succeeds leaves one open, without a deadline, and one that fails leaves none
  -- open.
  pub dialled-IsSettled : (d : Dialling) (l : Link) → l.is_open ≡ false → IsSettled (dialled d l)
  unfolding dial dial_for_scram dial_scram
  dialled-IsSettled (plain username password) l h =
      complete-IsSettled (plain_authenticate P username password) mechanism_plain l
        (plain-IsQuiet P username password) h
  dialled-IsSettled (relayed mechanism) l h = elim (Bool-cases (is_scram_mechanism mechanism)) [
    | inr e ↦ rw (dial_for_scram, e) h
    | inl e ↦
        rw (dial_for_scram, e)
          (continue-IsSettled (dial_and_negotiate P mechanism l) _ (negotiate-Matches mechanism l h)
            (λ done l1 o1. clear-IsSettled l1 o1))
  ]
  dialled-IsSettled (translated mechanism username password) l h =
      elim (Bool-cases (is_scram_mechanism mechanism)) [
        | inr e ↦ rw (dial_scram, e) h
        | inl e ↦
            rw (dial_scram, e)
              (complete-IsSettled (scram_authenticate P mechanism username password) mechanism l
                (scram-IsQuiet P mechanism username password) h)
      ]
