-- ===== src/Upstream/Echo.antt =====
-- upstream/conn.go, RoundTrip: which response a request gets, and under which id.
use kroxy.Base.{
  eq_int, ◌≡◌, inl, inr, refl, ap, ◌∙◌, arith, ℕ, ◌+◌, ◌%◌, ◌^◌, ◌≤◌, ℤ, pos, negsuc, to_signed,
  to_unsigned, true, Option, some, [], ◌∷◌, ◌++◌, Bytes, length, take, drop, leb, ok, Bool-cases,
  Option-cases,
}
use kroxy.Protocol.Words.{put_u32, be_u32-put_u32}
use kroxy.Upstream.RoundTrip.{
  UpstreamConn, next_correlation_id, put_id, id_of, accept_response, round_trip,
}

pub eq_int_iff : (a b : ℤ) → (eq_int a b ≡ true) → a ≡ b
eq_int_iff a b h = ground (arith, h)

pub eq_int_refl : (a : ℤ) → eq_int a a ≡ true
eq_int_refl (pos a) = ground arith
eq_int_refl (negsuc a) = ground arith

signed_again : (n : ℕ) → to_signed 32 (to_unsigned 32 (to_signed 32 n) % 2 ^ 32) ≡ to_signed 32 n
signed_again n = ground arith

id_of-put_u32 :
    (n : ℕ) (rest : Bytes)
    → id_of (put_u32 (to_unsigned 32 (to_signed 32 n)) ++ rest) ≡ to_signed 32 n
id_of-put_u32 n rest =
    ap (to_signed 32) (be_u32-put_u32 (to_unsigned 32 (to_signed 32 n))) ∙ signed_again n

accept_own :
    (n : ℕ) (client_id : ℤ) (payload : Bytes)
    → accept_response
        (to_signed 32 n)
        client_id
        (put_u32 (to_unsigned 32 (to_signed 32 n)) ++ payload)
      ≡ ok (put_u32 (to_unsigned 32 client_id) ++ payload)
unfolding accept_response
accept_own n client_id payload =
    ground (arith, id_of-put_u32 n payload, eq_int_refl (to_signed 32 n))

-- A response that is accepted carries the id that was asked for, and is delivered as it is but for
-- the client's id in its first four bytes.
accept_response-eq-ok :
    (upstream_id client_id : ℤ) (resp got : Bytes)
    → accept_response upstream_id client_id resp ≡ ok got
    → (id_of resp ≡ upstream_id) × (got ≡ put_u32 (to_unsigned 32 client_id) ++ drop 4 resp)
unfolding accept_response
accept_response-eq-ok upstream_id client_id resp got e =
    ground (arith, e, eq_int_iff (id_of resp) upstream_id)

-- Whatever the network answers, a result is the response to the very request that was sent: its id
-- is the connection's new one, and the client gets it under its own id and otherwise unchanged.
pub round_trip-eq-ok :
    (c : UpstreamConn) (frame : Bytes) (client_id : ℤ) (answer : Bytes → Option Bytes) (got : Bytes)
    → (round_trip c frame client_id answer).1 ≡ ok got
    → (resp : Bytes) × (answer (put_id 4 (next_correlation_id c) frame) ≡ some resp)
      × (id_of resp ≡ next_correlation_id c)
      × (got ≡ put_u32 (to_unsigned 32 client_id) ++ drop 4 resp)
unfolding round_trip
round_trip-eq-ok c frame client_id answer got e = elim (Bool-cases (leb 8 (length frame))) [
  | inr q ↦ absurd (ground (arith, e, q))
  | inl q ↦ elim (Option-cases (answer (put_id 4 (next_correlation_id c) frame))) [
    | inl k ↦ absurd (ground (arith, e, q, k))
    | inr (resp, k) ↦
        let (same, result) =
          accept_response-eq-ok (next_correlation_id c) client_id resp got
            (ground (arith, e, q, k)) in
        (resp, k, same, result)
  ]
]

-- If the upstream answers a request with the request's id and a payload, the client gets its own id
-- and that payload, for every frame of at least eight bytes.
pub round_trip_echo :
    (c : UpstreamConn) (frame : Bytes) (client_id : ℤ) (answer : Bytes → Option Bytes)
    (payload : Bytes)
    → 8 ≤ length frame
    → answer (put_id 4 (next_correlation_id c) frame)
      ≡ some (take 4 (drop 4 (put_id 4 (next_correlation_id c) frame)) ++ payload)
    → (round_trip c frame client_id answer).1 ≡ ok (put_u32 (to_unsigned 32 client_id) ++ payload)
unfolding round_trip
round_trip_echo c frame client_id answer payload long e = ground (
  arith,
  long,
  e,
  sent_id frame long,
  accept_own (to_unsigned 32 c.last_id + 1) client_id payload,
)
  where
    sent_id :
        (f : Bytes)
        → 8 ≤ length f
        → take 4 (drop 4 (put_id 4 (next_correlation_id c) f))
          ≡ put_u32 (to_unsigned 32 (next_correlation_id c))
    sent_id (x1 ∷ x2 ∷ x3 ∷ x4 ∷ f) h = refl
    sent_id [] h = absurd (omega arith)
    sent_id (x1 ∷ []) h = absurd (omega arith)
    sent_id (x1 ∷ x2 ∷ []) h = absurd (omega arith)
    sent_id (x1 ∷ x2 ∷ x3 ∷ []) h = absurd (omega arith)
