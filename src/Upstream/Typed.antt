-- ===== src/Upstream/Typed.antt =====
-- upstream/conn.go, RoundTripRequest: the response that a typed request gets, and the panic that a
-- response of four bytes can bring.
use kroxy.Base.{
  ◌≡◌, refl, arith, ℕ, ℤ, Bool, true, false, not, ◌&&◌, eq_num, Result, Option, some, List, [], ◌∷◌,
  Bytes, ok, err,
}
use kroxy.Protocol.Header.{response_header_version}
use kroxy.Protocol.Keys.{api_versions_key, is_flexible_request}
use kroxy.Upstream.RoundTrip.{next_correlation_id, id_of}
use kroxy.Upstream.Echo.{eq_int_refl}
use kroxy.Upstream.Link.{
  slice_panic, Link, set_deadline, apply_request_deadline, body_of, body_offset, LinkError,
  round_trip_request,
}

-- The deadline is set, and the frame is what the script has next; it has the new id.
pub record IsReply (l : Link) (frame : Bytes) (rest : List (Option Bytes)) : Type 0 where
  pub deadlines : l.network.deadlines ≡ []
  pub frames : l.network.frames ≡ some frame ∷ rest
  pub own_id : id_of frame ≡ next_correlation_id (record { last_id = l.last_id })

-- The body behind a response's correlation id: with tagged fields in the header, one byte more is
-- the header's, and is taken without a look at whether it is there.
abbrev pub behind_id : Bool → Bytes → Result LinkError Bytes
behind_id false rest = ok rest
behind_id true [] = err slice_panic
behind_id true (tags ∷ body) = ok body

-- Kafka's rule for a response's header: it has tagged fields if the request's is flexible, but for
-- ApiVersions.
abbrev pub has_tags : ℤ → ℤ → Bool
has_tags key version = not (eq_num key api_versions_key) && is_flexible_request key version

body_of_lem :
    (a b c d : ℕ) (rest : Bytes) (key version : ℤ)
    → body_of (id_of (a ∷ b ∷ c ∷ d ∷ rest)) (body_offset key version) (a ∷ b ∷ c ∷ d ∷ rest)
      ≡ behind_id (has_tags key version) rest
unfolding response_header_version
body_of_lem a b c d [] key version = ground (arith, eq_int_refl (id_of (a ∷ b ∷ c ∷ d ∷ [])))
body_of_lem a b c d (t ∷ rest) key version =
    ground (arith, eq_int_refl (id_of (a ∷ b ∷ c ∷ d ∷ t ∷ rest)))

-- If the deadline is set and the network's next frame is four bytes of the new id and a rest,
-- RoundTripRequest returns that rest for a response header without tagged fields, and the rest but
-- its first byte for one with tagged fields, where it panics if there is no rest; whatever the
-- request, its API and its version. It leaves the frames behind that one in the network.
pub round_trip_request_reply :
    (req : Bytes) (key version : ℤ) (l : Link) (a b c d : ℕ) (payload : Bytes)
    (rest : List (Option Bytes))
    → IsReply l (a ∷ b ∷ c ∷ d ∷ payload) rest
    → ((round_trip_request req key version l).1 ≡ behind_id (has_tags key version) payload)
      × ((round_trip_request req key version l).0.network.frames ≡ rest)
unfolding round_trip_request set_deadline apply_request_deadline
round_trip_request_reply req key version l a b c d payload rest v =
    let body = body_of_lem a b c d payload key version in
    rw (v.deadlines, v.frames, ← v.own_id) (body, refl)
