-- ===== src/Upstream/RoundTrip.antt =====
-- upstream/conn.go, RoundTrip: the exchange of one frame under a correlation id of the proxy's own.
-- What the network answers is the argument `answer`; none stands for a deadline that cannot be set
-- and for a failed write or read.
use kroxy.Base.{
  eq_int, ℕ, ◌+◌, ℤ, pos, to_signed, to_unsigned, not, Option, none, some, ◌∷◌, ◌++◌, Bytes, length,
  take, drop, leb, if◌then◌else◌, Result, ok, err, ◌>>◌, guard,
}
use kroxy.Protocol.Words.{be_u32, put_u32}

pub data RoundTripError : Type 0 where
  request_too_short network_failed response_too_short id_mismatch : RoundTripError

-- The state of an upstream connection that matters here: the last id that was given out.
pub record UpstreamConn : Type 0 where
  pub last_id : ℤ

-- corrIDGen.Add(1) on an int32.
abbrev pub next_correlation_id : UpstreamConn → ℤ
next_correlation_id c = to_signed 32 (to_unsigned 32 c.last_id + 1)

-- binary.BigEndian.PutUint32(frame[off:off+4], uint32(id)).
abbrev pub put_id : ℕ → ℤ → Bytes → Bytes
put_id off id frame = take off frame ++ (put_u32 (to_unsigned 32 id) ++ drop (off + 4) frame)

-- int32(binary.BigEndian.Uint32(frame[0:4])).
abbrev pub id_of : Bytes → ℤ
id_of (a ∷ b ∷ c ∷ d ∷ rest) = to_signed 32 (be_u32 a b c d)
id_of _ = pos 0

-- What RoundTrip does with the response frame.
unfoldable pub accept_response : ℤ → ℤ → Bytes → Result RoundTripError Bytes
accept_response upstream_id client_id resp = do
  guard (leb 4 (length resp)) response_too_short
  guard (eq_int (id_of resp) upstream_id) id_mismatch
  ok (put_id 0 client_id resp)

-- The frame that is sent upstream, if any, and the result.
unfoldable pub round_trip :
    UpstreamConn → Bytes → ℤ → (Bytes → Option Bytes) → UpstreamConn × Result RoundTripError Bytes
unfolding accept_response
round_trip c frame client_id answer =
    if not (leb 8 (length frame)) then (c, err request_too_short) else (
      record { last_id = next_correlation_id c },
      elim (answer (put_id 4 (next_correlation_id c) frame)) [
        | none ↦ err network_failed
        | some resp ↦ accept_response (next_correlation_id c) client_id resp
      ],
    )
