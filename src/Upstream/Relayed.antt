-- ===== src/Upstream/Relayed.antt =====
-- upstream/conn.go, RelaySASLAuthenticate: what has happened on the wire when it succeeds.
use mathlib.Core.Path.{subst}
use kroxy.Base.{◌≡◌, refl, sym, ℕ, ℤ, pos, Option, none, some, Bytes, ◌==◌, if◌then◌else◌}
use kroxy.Protocol.Header.{response_header_version}
use kroxy.Protocol.Keys.{is_flexible_request, sasl_authenticate_key}
use kroxy.Upstream.Accepted.{
  Gives, continue-Gives, or_refuse-Gives, receive-Gives, set_deadline-IsIdle, IsAnswered,
  IsAnswered-idle,
}
use kroxy.Upstream.Dial.{Packages, exchange_authenticate, relay_sasl_authenticate}
use kroxy.Upstream.Link.{
  sasl_authenticate, Link, receive, direct_round_trip, apply_request_deadline, set_deadline,
}

module _ {S : Type 0} (P : Packages S) where
  -- The payload was sent in one message, and the broker's answer to it reads as this.
  pub record IsRelayed (payload : Bytes) (answer : Bytes × ℤ × Bytes) (l l' : Link) : Type 0 where
    pub body : Bytes
    pub answered : IsAnswered (sasl_authenticate payload) body l l'
    pub read : P.read_authenticate body ≡ some answer

  exchange-Gives :
      (payload : Bytes) (answer : Bytes × ℤ × Bytes) (l l' : Link)
      → Gives (exchange_authenticate P payload l) answer l'
      → IsRelayed payload answer l l'
  unfolding exchange_authenticate direct_round_trip response_header_version is_flexible_request
  exchange-Gives payload answer l l' h =
      let m = sasl_authenticate payload in
      let (body, l1, e1, e2) =
        continue-Gives (receive l m (pos sasl_authenticate_key) (pos 1) l.network.frames) _ answer
          l' h in
      let (read, same) = or_refuse-Gives _ (P.read_authenticate body) l1 answer l' e2 in
      record {
        body = body;
        answered = subst (IsAnswered m body l) (sym same) (
            receive-Gives l m (pos sasl_authenticate_key) (pos 1) l.network.frames body l1 refl refl
              e1);
        read = read;
      }

  pub relay-Gives :
      (payload : Bytes) (answer : Bytes × ℤ × Bytes) (l l' : Link)
      → Gives (relay_sasl_authenticate P payload l) answer l'
      → IsRelayed payload answer l l'
  unfolding relay_sasl_authenticate apply_request_deadline
  relay-Gives payload answer l l' h =
      let t : Option ℕ = if l.request_timeout == 0 then none else some l.request_timeout in
      let (_, l1, e1, e2) = continue-Gives (set_deadline t l) _ answer l' h in
      let idle = (set_deadline-IsIdle t l l1 e1).0 in
      let relayed = exchange-Gives payload answer l1 l' e2 in
      record {
        body = relayed.body;
        answered =
            IsAnswered-idle (sasl_authenticate payload) relayed.body l l1 l' idle relayed.answered;
        read = relayed.read;
      }
