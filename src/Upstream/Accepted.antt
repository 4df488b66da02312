-- ===== src/Upstream/Accepted.antt =====
-- upstream/conn.go, Dial: what has happened on the wire when it succeeds.
use mathlib.Core.Path.{subst}
use kroxy.Base.{
  ℕ, ◌≡◌, refl, sym, ap, ◌∙◌, arith, ℕ, zero, suc, ℤ, pos, negsuc, eq_num, Bool, true, false,
  Option, none, some, List, [], ◌∷◌, ◌++◌, Bytes, drop, if◌then◌else◌, Result, ok, err, Bool-cases,
  inl, inr,
}
use kroxy.Auth.Plain.{plain_payload}
use kroxy.Protocol.Header.{response_header_version}
use kroxy.Protocol.Keys.{
  is_flexible_request, api_versions_key, sasl_handshake_key, sasl_authenticate_key,
}
use kroxy.Upstream.RoundTrip.{next_correlation_id, id_of}
use kroxy.Upstream.Echo.{eq_int_iff}
use kroxy.Upstream.Link.{
  Message, api_versions, sasl_handshake, sasl_authenticate, LinkError, Link, finish, refuse,
  upstream_error, Call, continue, connect, closed_by, set_deadline, next_deadline, receive,
  direct_round_trip, body_of, body_offset,
}
use kroxy.Upstream.Dial.{
  Packages, or_refuse, request_api_versions, request_handshake, exchange_authenticate, accepted,
  plain_authenticate,
}

-- The call gave a value and left this connection.
abbrev pub Gives {ℓ} : {A : Type ℓ} → Link × Result LinkError A → A → Link → Type ℓ
Gives x a l = x ≡ (l, ok a)

pub continue-Gives {ℓ κ} :
    {A : Type ℓ} {B : Type κ} (x : Link × Result LinkError A) (k : A → Call B) (b : B) (l : Link)
    → Gives (continue x k) b l
    → (a : A) × (l' : Link) × Gives x a l' × Gives (k a l') b l
continue-Gives (l', ok a) k b l h = (a, l', refl, h)
continue-Gives (l', err e) k b l h = absurd (cc)

pub closed_by-Gives {ℓ} :
    {A : Type ℓ} (x : Link × Result LinkError A) (a : A) (l : Link)
    → Gives (closed_by x) a l
    → Gives x a l
closed_by-Gives (l', ok b) a l h = h
closed_by-Gives (l', err e) a l h = absurd (ground (arith, h))

-- Nothing was exchanged between the two states.
pub record IsIdle (l l' : Link) : Type 0 where
  pub frames : l'.network.frames ≡ l.network.frames
  pub last_id : l'.last_id ≡ l.last_id
  pub sent : l'.sent ≡ l.sent

-- Between the two states the message was sent under the next id, and answered under that id.
pub record IsAnswered (m : Message) (body : Bytes) (l l' : Link) : Type 0 where
  pub frame : Bytes
  pub frames : l.network.frames ≡ some frame ∷ l'.network.frames
  pub next_id : l'.last_id ≡ next_correlation_id (record { last_id = l.last_id })
  pub own_id : id_of frame ≡ l'.last_id
  pub content : body ≡ drop 4 frame
  pub sent : l'.sent ≡ l.sent ++ ((l'.last_id, m) ∷ [])

body_of-eq-ok :
    (id : ℤ) (off : ℕ) (frame body : Bytes)
    → body_of id off frame ≡ ok body
    → (id_of frame ≡ id) × (body ≡ drop off frame)
body_of-eq-ok id off frame body e = ground (arith, e, eq_int_iff (id_of frame) id)

pub receive-Gives :
    (l : Link) (m : Message) (key version : ℤ) (frames : List (Option Bytes)) (body : Bytes)
    (l' : Link)
    → l.network.frames ≡ frames
    → body_offset key version ≡ 4
    → Gives (receive l m key version frames) body l'
    → IsAnswered m body l l'
receive-Gives l m key version [] body l' f o h = absurd (ground (arith, h))
receive-Gives l m key version (none ∷ rest) body l' f o h = absurd (ground (arith, h))
receive-Gives l m key version (some frame ∷ rest) body l' f o h =
    let state = ap (λ x. x.0) h in
    let (same, content) = body_of-eq-ok _ (body_offset key version) frame body (ap (λ x. x.1) h) in
    record {
      frame = frame;
      frames = f ∙ ap (λ fs. some frame ∷ fs) (ap (λ x. x.network.frames) state);
      next_id = sym (ap (λ x. x.last_id) state);
      own_id = same ∙ ap (λ x. x.last_id) state;
      content = content ∙ ap (λ n. drop n frame) o;
      sent =
          sym (ap (λ x. x.sent) state)
          ∙ ap (λ i. l.sent ++ ((i, m) ∷ [])) (ap (λ x. x.last_id) state);
    }

IsIdle-here : (l : Link) → IsIdle l l
IsIdle-here l = record { frames = refl; last_id = refl; sent = refl }

pub IsIdle-trans : (l l1 l2 : Link) → IsIdle l l1 → IsIdle l1 l2 → IsIdle l l2
IsIdle-trans l l1 l2 p q = record {
  frames = q.frames ∙ p.frames;
  last_id = q.last_id ∙ p.last_id;
  sent = q.sent ∙ p.sent;
}

pub IsAnswered-idle :
    (m : Message) (body : Bytes) (l l1 l2 : Link)
    → IsIdle l l1
    → IsAnswered m body l1 l2
    → IsAnswered m body l l2
IsAnswered-idle m body l l1 l2 p q = record {
  frame = q.frame;
  frames = sym p.frames ∙ q.frames;
  next_id = q.next_id ∙ ap (λ i. next_correlation_id (record { last_id = i })) p.last_id;
  own_id = q.own_id;
  content = q.content;
  sent = q.sent ∙ ap (λ ms. ms ++ ((l2.last_id, m) ∷ [])) p.sent;
}

next_deadline-IsIdle :
    (t : Option ℕ) (l : Link) (bs : List Bool) (l' : Link)
    → Gives (next_deadline t l bs) tt l'
    → IsIdle l l' × (l'.deadline ≡ t)
next_deadline-IsIdle t l [] l' h =
    subst (λ x. IsIdle l x × (x.deadline ≡ t)) (ap (λ x. x.0) h)
      (record { frames = refl; last_id = refl; sent = refl }, refl)
next_deadline-IsIdle t l (true ∷ bs) l' h =
    subst (λ x. IsIdle l x × (x.deadline ≡ t)) (ap (λ x. x.0) h)
      (record { frames = refl; last_id = refl; sent = refl }, refl)
next_deadline-IsIdle t l (false ∷ bs) l' h = absurd (ground (arith, h))

pub set_deadline-IsIdle :
    (t : Option ℕ) (l l' : Link) → Gives (set_deadline t l) tt l' → IsIdle l l' × (l'.deadline ≡ t)
unfolding set_deadline
set_deadline-IsIdle t l l' h = next_deadline-IsIdle t l l.network.deadlines l' h

pub connect-IsIdle : (l l' : Link) → Gives (connect l) tt l' → IsIdle l l'
unfolding connect
connect-IsIdle l l' h = elim (Bool-cases l.network.connects) [
  | inl e ↦
      subst (IsIdle l) (ap (λ x. x.0) (simp e at h))
        (record { frames = refl; last_id = refl; sent = refl })
  | inr e ↦ absurd (ground (arith, e, h))
]

pub or_refuse-Gives {ℓ} :
    {A : Type ℓ} (e : LinkError) (o : Option A) (l : Link) (a : A) (l' : Link)
    → Gives (or_refuse e o l) a l'
    → (o ≡ some a) × (l' ≡ l)
or_refuse-Gives e none l a l' h = absurd (ground (arith, h))
or_refuse-Gives e (some b) l a l' h = ground (arith, h)

code_zero-Gives {ℓ} :
    {A : Type ℓ} (code : ℤ) (e : LinkError) (a b : A) (l l' : Link)
    → Gives ((if eq_num code 0 then finish a else refuse e) l) b l'
    → (code ≡ pos 0) × (l' ≡ l)
code_zero-Gives (pos zero) e a b l l' h = ground (arith, h)
code_zero-Gives (pos (suc n)) e a b l l' h = absurd (ground (arith, h))
code_zero-Gives (negsuc n) e a b l l' h = absurd (ground (arith, h))

module _ {S : Type 0} (P : Packages S) where
  pub api_versions-Gives :
      (l l' : Link)
      → Gives (request_api_versions P l) tt l'
      → (body : Bytes) × IsAnswered api_versions body l l'
  unfolding request_api_versions direct_round_trip response_header_version
  api_versions-Gives l l' h =
      let (body, l1, e1, e2) =
        continue-Gives (receive l api_versions (pos api_versions_key) (pos 0) l.network.frames) _ tt
          l' h in
      (
        body,
        subst (IsAnswered api_versions body l) (ap (λ x. x.0) e2) (
            receive-Gives l api_versions (pos api_versions_key) (pos 0) l.network.frames body l1
              refl refl e1),
      )

  pub handshake-Gives :
      (mechanism : Bytes) (l l' : Link)
      → Gives (request_handshake P mechanism l) tt l'
      → (body : Bytes) × IsAnswered (sasl_handshake mechanism) body l l'
        × (P.read_handshake body ≡ some (pos 0))
  unfolding request_handshake direct_round_trip response_header_version is_flexible_request
  handshake-Gives mechanism l l' h =
      let (body, l1, e1, e2) =
        continue-Gives
          (receive l (sasl_handshake mechanism) (pos sasl_handshake_key) (pos 1) l.network.frames) _
          tt l' h in
      let (code, l2, e3, e4) = continue-Gives (or_refuse _ (P.read_handshake body) l1) _ tt l' e2 in
      let (read, same) = or_refuse-Gives _ (P.read_handshake body) l1 code l2 e3 in
      let (zero_code, same') = code_zero-Gives code _ tt tt l2 l' e4 in
      (
        body,
        subst (IsAnswered (sasl_handshake mechanism) body l) (sym (same' ∙ same)) (
            receive-Gives l (sasl_handshake mechanism) (pos sasl_handshake_key) (pos 1)
              l.network.frames body l1 refl refl e1),
        read ∙ ap some zero_code,
      )

  -- The credentials were sent in one message, and the broker's answer to it has no error code.
  pub record IsWelcome (username password : Bytes) (l l' : Link) : Type 0 where
    pub body : Bytes
    pub payload : Bytes
    pub message : Bytes
    pub answered : IsAnswered (sasl_authenticate (plain_payload username password)) body l l'
    pub no_error : P.read_authenticate body ≡ some (payload, pos 0, message)

  accepted-Gives :
      (answer : Bytes × ℤ × Bytes) (l : Link) (got : Bytes) (l' : Link)
      → Gives (accepted P answer l) got l'
      → (answer.1 ≡ pos 0) × (l' ≡ l)
  accepted-Gives (payload, code, message) l got l' h =
      code_zero-Gives code (upstream_error code message) payload got l l' h

  pub plain-Gives :
      (username password : Bytes) (l l' : Link)
      → Gives (plain_authenticate P username password l) tt l'
      → IsWelcome username password l l'
  unfolding plain_authenticate exchange_authenticate direct_round_trip response_header_version
      is_flexible_request
  plain-Gives username password l l' h =
      let (answer, l1, e1, e2) =
        continue-Gives (exchange_authenticate P (plain_payload username password) l) _ tt l' h in
      let (got, l2, e3, e4) = continue-Gives (accepted P answer l1) _ tt l' e2 in
      let (zero_code, same) = accepted-Gives answer l1 got l2 e3 in
      let m = sasl_authenticate (plain_payload username password) in
      let (body, l3, e5, e6) =
        continue-Gives (receive l m (pos sasl_authenticate_key) (pos 1) l.network.frames) _ answer
          l1 e1 in
      let (read, same') = or_refuse-Gives _ (P.read_authenticate body) l3 answer l1 e6 in
      record {
        body = body;
        payload = answer.0;
        message = answer.2;
        answered = subst (IsAnswered m body l) (sym (sym (ap (λ x. x.0) e4) ∙ same ∙ same')) (
            receive-Gives l m (pos sasl_authenticate_key) (pos 1) l.network.frames body l3 refl refl
              e5);
        no_error = read ∙ ap (λ c. some (answer.0, c, answer.2)) zero_code;
      }
