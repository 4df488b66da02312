-- ===== src/Upstream/Transparent.antt =====
-- upstream/conn.go, RoundTrip, behind protocol/header.go: a frame that the proxy passes on, seen by
-- the client that sent it.
use kroxy.Base.{
  ◌≡◌, sym, ap, ap₂, ◌∙◌, arith, ℕ, ◌+◌, ◌/◌, ◌%◌, ◌^◌, ◌≤◌, ◌<◌, pos, to_signed, to_unsigned,
  Option, some, [], ◌∷◌, ◌++◌, Bytes, All, length, take, drop, ok, >>=-eq-ok,
}
use kroxy.Protocol.Header.{
  RequestHeader, Fixed, fixed_of, read_client_id, skip_tagged_fields, request_header_version,
  parse_request_header,
}
use kroxy.Protocol.Words.{IsByte, be_u32, put_u32}
use kroxy.Upstream.Echo.{round_trip_echo}
use kroxy.Upstream.RoundTrip.{UpstreamConn, next_correlation_id, put_id, round_trip}

unsigned_again : (n : ℕ) → to_unsigned 32 (to_signed 32 n) ≡ n % 2 ^ 32
unsigned_again n = ground arith

put_u32-be_u32 :
    (a b c d : ℕ)
    → a < 256
    → b < 256
    → c < 256
    → d < 256
    → put_u32 (be_u32 a b c d % 2 ^ 32) ≡ a ∷ b ∷ c ∷ d ∷ []
put_u32-be_u32 a b c d ha hb hc hd =
    ap₂ ◌∷◌ first (ap₂ ◌∷◌ second (ap₂ ◌∷◌ third (ap (λ x. x ∷ []) fourth)))
  where
    first : be_u32 a b c d % 2 ^ 32 / 16777216 % 256 ≡ a
    first = omega (arith, ha, hb, hc, hd)

    second : be_u32 a b c d % 2 ^ 32 / 65536 % 256 ≡ b
    second = omega (arith, ha, hb, hc, hd)

    third : be_u32 a b c d % 2 ^ 32 / 256 % 256 ≡ c
    third = omega (arith, ha, hb, hc, hd)

    fourth : be_u32 a b c d % 2 ^ 32 % 256 ≡ d
    fourth = omega (arith, ha, hb, hc, hd)

-- The eight fixed bytes are there, and the id that is written again is the one that stood there.
fixed_of_id :
    (frame : Bytes) (h : Fixed)
    → fixed_of frame ≡ ok h
    → All IsByte frame
    → (8 ≤ length frame) × (put_u32 (to_unsigned 32 h.correlation) ≡ take 4 (drop 4 frame))
fixed_of_id (k1 ∷ k2 ∷ v1 ∷ v2 ∷ a ∷ b ∷ c ∷ d ∷ behind) h e
      (_, (_, (_, (_, (ha, (hb, (hc, (hd, _)))))))) =
    let same : to_unsigned 32 h.correlation ≡ be_u32 a b c d % 2 ^ 32 =
      ap (to_unsigned 32) (ground (arith, e)) ∙ unsigned_again (be_u32 a b c d) in
    (omega arith, ap put_u32 same ∙ put_u32-be_u32 a b c d ha hb hc hd)
fixed_of_id _ h e bytes = absurd (cc)

-- If the upstream answers a frame with its id and a payload, then a client whose frame has a
-- readable header gets the very four bytes of its own id and that payload, as if it had talked to
-- the upstream itself; for a frame of bytes.
pub round_trip_transparent :
    (conn : UpstreamConn) (frame : Bytes) (hdr : RequestHeader) (answer : Bytes → Option Bytes)
    (payload : Bytes)
    → All IsByte frame
    → parse_request_header frame ≡ ok hdr
    → answer (put_id 4 (next_correlation_id conn) frame)
      ≡ some (take 4 (drop 4 (put_id 4 (next_correlation_id conn) frame)) ++ payload)
    → (round_trip conn frame hdr.correlation_id answer).1 ≡ ok (take 4 (drop 4 frame) ++ payload)
unfolding parse_request_header
round_trip_transparent conn frame hdr answer payload bytes e answered =
    let (h, e1, r1) = >>=-eq-ok (fixed_of frame) _ e in
    let (long, own) = fixed_of_id frame h e1 bytes in
    let (x, e2, r2) =
      >>=-eq-ok (read_client_id (request_header_version h.key h.version) h.behind) _ r1 in
    let (size, e3, r3) =
      >>=-eq-ok (skip_tagged_fields (request_header_version h.key h.version) frame (pos (x.1 + 8)))
        _ r2 in
    let same : h.correlation ≡ hdr.correlation_id = ground arith in
    round_trip_echo conn frame hdr.correlation_id answer payload long answered
    ∙ ap (λ i. ok (put_u32 (to_unsigned 32 i) ++ payload)) (sym same)
    ∙ ap (λ i. ok (i ++ payload)) own
