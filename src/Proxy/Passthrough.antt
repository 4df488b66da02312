-- ===== src/Proxy/Passthrough.antt =====
-- proxy/conn.go, dispatch: what becomes of requests of the APIs that are not advertised.
use kroxy.Base.{
  ◌≡◌, inl, inr, ap, ◌∙◌, arith, true, Option, none, some, [], ◌∷◌, ◌++◌, Bytes, All, take, drop,
  Result, ok, err, Option-cases,
}
use kroxy.Protocol.Header.{RequestHeader, parse_request_header, slice_from}
use kroxy.Proxy.Advertised.{IsAnyOf, advertised_keys, advertised_iff}
use kroxy.Proxy.Conn.{authenticated, Conn, Dial, Packages, Answers, passed, answered, counted, raw}
use kroxy.Proxy.Counts.{requests, tenant_label}
use kroxy.Proxy.Dispatch.{serve_frame, dispatch, forward_passthrough, rewrite_handler}
use kroxy.Protocol.Words.{IsByte}
use kroxy.Upstream.RoundTrip.{UpstreamConn, RoundTripError, next_correlation_id, put_id, round_trip}
use kroxy.Upstream.Transparent.{round_trip_transparent}
use kroxy.Resolver.Memory.{MemoryResolver}

-- RoundTrip's answer as the handlers see it.
abbrev pub answer_of : Result RoundTripError Bytes → Option Bytes
answer_of (ok resp) = some resp
answer_of (err e) = none

module _ {R : Type 0} (P : Packages R) (w : Answers) (r : MemoryResolver) (c : Conn) where
  not_handled :
      (hdr : RequestHeader)
      → (IsAnyOf hdr.api_key advertised_keys → ⊥)
      → rewrite_handler hdr.api_key ≡ none
  not_handled hdr n = elim (Option-cases (rewrite_handler hdr.api_key)) [
    | inl e ↦ e
    | inr (a, e) ↦ absurd (n ((advertised_iff hdr.api_key).1 (inr (λ q. ground (arith, e, q)))))
  ]

  handed :
      (frame body resp : Bytes) (hdr : RequestHeader) (d : Dial)
      → parse_request_header frame ≡ ok hdr
      → slice_from frame hdr.header_size ≡ ok body
      → c.state ≡ authenticated
      → c.upstream ≡ some d
      → (IsAnyOf hdr.api_key advertised_keys → ⊥)
      → w.round_trip ≡ some resp
      → w.writes ≡ true
      → serve_frame P w r c frame ≡ record {
        conn = c;
        events =
            passed d frame
            ∷ answered (raw resp)
            ∷ counted (requests hdr.api_key (tenant_label c.tenant.id))
            ∷ [];
        error = none;
      }
  unfolding serve_frame dispatch forward_passthrough
  handed frame body resp hdr d e k q u n a t =
      let iff = advertised_iff hdr.api_key in
      ground (arith, e, k, q, u, a, t, not_handled hdr n, n, iff.1)

  -- On an authenticated connection with an upstream connection, a request of bytes with a header
  -- that can be read, of an API that ApiVersions does not advertise: if the upstream answers the
  -- client's frame, with nothing but its correlation id replaced and so with whatever names are in
  -- it, by that id and a payload, RoundTrip being what package upstream does, and the client's
  -- connection takes the answer, then the frame is handed to RoundTrip once, the client is sent the
  -- four bytes of its own id and the payload unchanged, and the connection goes on.
  pub unadvertised_passed :
      (frame body payload : Bytes) (hdr : RequestHeader) (d : Dial) (u : UpstreamConn)
      (answer : Bytes → Option Bytes)
      → All IsByte frame
      → parse_request_header frame ≡ ok hdr
      → slice_from frame hdr.header_size ≡ ok body
      → c.state ≡ authenticated
      → c.upstream ≡ some d
      → (IsAnyOf hdr.api_key advertised_keys → ⊥)
      → w.round_trip ≡ answer_of (round_trip u frame hdr.correlation_id answer).1
      → answer (put_id 4 (next_correlation_id u) frame)
        ≡ some (take 4 (drop 4 (put_id 4 (next_correlation_id u) frame)) ++ payload)
      → w.writes ≡ true
      → serve_frame P w r c frame ≡ record {
        conn = c;
        events =
            passed d frame
            ∷ answered (raw (take 4 (drop 4 frame) ++ payload))
            ∷ counted (requests hdr.api_key (tenant_label c.tenant.id))
            ∷ [];
        error = none;
      }
  unadvertised_passed frame body payload hdr d u answer bytes e k q up n through a t =
      let back = round_trip_transparent u frame hdr answer payload bytes e a in
      handed frame body _ hdr d e k q up n (through ∙ ap answer_of back) t
