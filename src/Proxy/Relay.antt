-- ===== src/Proxy/Relay.antt =====
-- proxy/conn.go, the relay of SCRAM payloads, with upstream/conn.go, RelaySASLAuthenticate: what
-- passes between the client and the tenant's broker.
use kroxy.Base.{
  ◌≡◌, refl, arith, ℤ, pos, negsuc, zero, suc, ◌+◌, ◌&&◌, true, Option, none, some, List, [], ◌∷◌,
  Bytes, eq_num, leb, Result, ok, err,
}
use kroxy.Auth.Scram.{is_scram_mechanism}
use kroxy.Protocol.Header.{RequestHeader}
use kroxy.Proxy.Conn.{
  relay_sasl_in_flight, Dial, Conn, Packages, Answers, Response, sasl_authenticate, Event, dialled,
  relayed, requested, passed, answered, counted, Step, relay_failed,
}
use kroxy.Proxy.Sasl.{
  is_authenticated, handle_sasl_authenticate, handle_sasl_authenticate_scram, relay_payload,
  message_of,
}
use kroxy.Resolver.Memory.{MemoryResolver}
use kroxy.Upstream.Dial.{relay_sasl_authenticate, Packages as UpstreamPackages}
use kroxy.Upstream.Link.{Link, LinkError}
use kroxy.Upstream.Relayed.{IsRelayed, relay-Gives}

-- What the client is sent.
abbrev pub responses : {R : Type 0} → List (Event R) → List (Response R)
responses [] = []
responses (answered resp ∷ es) = resp ∷ responses es
responses (dialled d ∷ es) = responses es
responses (relayed d payload ∷ es) = responses es
responses (requested d a req ∷ es) = responses es
responses (passed d frame ∷ es) = responses es
responses (counted n ∷ es) = responses es

-- What a relay over the connection comes to for the proxy.
abbrev pub answer_of : Link × Result LinkError (Bytes × ℤ × Bytes) → Option (Bytes × ℤ × Bytes)
answer_of (l, ok answer) = some answer
answer_of (l, err failure) = none

-- A SaslAuthenticate request of the client in the middle of a SCRAM exchange.
pub record IsRound {R : Type 0} (P : Packages R) (c : Conn) (d : Dial) (hdr : RequestHeader)
    (body payload : Bytes) : Type 0 where
  pub flying : c.state ≡ relay_sasl_in_flight
  pub scram : is_scram_mechanism c.client_mechanism ≡ true
  pub link : c.upstream ≡ some d
  pub decoded : P.read_authenticate hdr.api_version body ≡ some payload

module _ {R S : Type 0} (P : Packages R) (U : UpstreamPackages S) (w : Answers) (r : MemoryResolver)
    (c : Conn) where
  -- The client is sent this, and is authenticated if it is the second round without an error code.
  pub record Passes (answer : Bytes × ℤ × Bytes) (s : Step R) : Type 0 where
    pub sent : responses s.events ≡ sasl_authenticate answer.1 answer.0 (message_of answer.2) ∷ []
    pub phase :
        is_authenticated s.conn.state ≡ (eq_num answer.1 0 && leb 2 (c.scram_rounds_completed + 1))

  pub record Breaks (s : Step R) : Type 0 where
    pub silent : responses s.events ≡ []
    pub error : s.error ≡ some relay_failed
    pub same : s.conn ≡ c

  abbrev pub Outcome : Bytes → Link → Link × Result LinkError (Bytes × ℤ × Bytes) → Step R → Type 0
  Outcome payload l (l', ok answer) s = IsRelayed U payload answer l l' × Passes answer s
  Outcome payload l (l', err failure) s = Breaks s

  round-relay_payload :
      (d : Dial) (hdr : RequestHeader) (body payload : Bytes)
      → IsRound P c d hdr body payload
      → handle_sasl_authenticate P w r c hdr body ≡ relay_payload P w r c c payload
  unfolding handle_sasl_authenticate handle_sasl_authenticate_scram
  round-relay_payload d hdr body payload h = ground (arith, h.flying, h.scram, h.decoded)

  relay_payload-Passes :
      (d : Dial) (payload : Bytes) (answer : Bytes × ℤ × Bytes)
      → c.state ≡ relay_sasl_in_flight
      → c.upstream ≡ some d
      → w.relay ≡ some answer
      → w.writes ≡ true
      → Passes answer (relay_payload P w r c c payload)
  unfolding relay_payload
  relay_payload-Passes d payload (bytes, pos zero, message) f u a k = record {
    sent = ground (arith, f, u, a, k);
    phase = ground (arith, f, u, a, k);
  }
  relay_payload-Passes d payload (bytes, pos (suc n), message) f u a k = record {
    sent = ground (arith, f, u, a, k);
    phase = ground (arith, f, u, a, k);
  }
  relay_payload-Passes d payload (bytes, negsuc n, message) f u a k = record {
    sent = ground (arith, f, u, a, k);
    phase = ground (arith, f, u, a, k);
  }

  relay_payload-Breaks :
      (d : Dial) (payload : Bytes)
      → c.upstream ≡ some d
      → w.relay ≡ none
      → Breaks (relay_payload P w r c c payload)
  unfolding relay_payload
  relay_payload-Breaks d payload u a = record {
    silent = ground (arith, u, a);
    error = ground (arith, u, a);
    same = ground (arith, u, a);
  }

  module _ (d : Dial) (hdr : RequestHeader) (body payload : Bytes) where
    outcome-Outcome :
        (l : Link) (x : Link × Result LinkError (Bytes × ℤ × Bytes))
        → IsRound P c d hdr body payload
        → relay_sasl_authenticate U payload l ≡ x
        → w.relay ≡ answer_of x
        → w.writes ≡ true
        → Outcome payload l x (relay_payload P w r c c payload)
    outcome-Outcome l (l', ok answer) h e a k = (
      relay-Gives U payload answer l l' e,
      relay_payload-Passes d payload answer h.flying h.link a k,
    )
    outcome-Outcome l (l', err failure) h e a k = relay_payload-Breaks d payload h.link a

    -- In the middle of a SCRAM exchange, the relay over the upstream connection being what
    -- RelaySASLAuthenticate does, and the client's connection taking the answer: if the relay
    -- succeeds, the client's payload was sent to the broker as it is, in one message under a new
    -- id, and the client is sent the payload, the error code and the message of the broker's answer
    -- to it, and nothing else; and it is authenticated exactly if there was no error code and this
    -- was not the first round without one. If the relay fails, the client is sent nothing and its
    -- connection ends.
    pub relay_verbatim :
        (l : Link)
        → IsRound P c d hdr body payload
        → w.relay ≡ answer_of (relay_sasl_authenticate U payload l)
        → w.writes ≡ true
        → Outcome payload l
            (relay_sasl_authenticate U payload l)
            (handle_sasl_authenticate P w r c hdr body)
    relay_verbatim l h a k =
        rw (round-relay_payload d hdr body payload h)
          (outcome-Outcome l (relay_sasl_authenticate U payload l) h refl a k)
