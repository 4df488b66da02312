-- ===== src/Upstream/Link.antt =====
-- upstream/conn.go: an upstream connection as the state that its functions pass on, and the exchange
-- that the functions share. The network is a script: the outcomes of the calls of SetDeadline, and
-- the frame that each exchange reads, in their order.
use kroxy.Base.{
  ◌*◌, ◌==◌, eq_int, ℕ, ℤ, pos, Bool, true, false, Option, none, some, List, [], ◌∷◌, ◌++◌, Bytes,
  length, drop, leb, if◌then◌else◌, Result, ok, err,
}
use kroxy.Protocol.Header.{response_header_version}
use kroxy.Upstream.RoundTrip.{next_correlation_id, id_of}

-- The requests that the package builds itself, and one that it is given.
pub data Message : Type 0 where
  api_versions : Message
  sasl_handshake : Bytes → Message
  sasl_authenticate : Bytes → Message
  typed : Bytes → Message

pub data LinkError : Type 0 where
  connect_failed deadline_failed network_failed short_response id_mismatch : LinkError
  decode_failed unsupported_mechanism session_failed slice_panic out_of_fuel : LinkError
  upstream_error : ℤ → Bytes → LinkError

-- Whether the TCP connection comes about, the outcomes of SetDeadline, and the frames that are read;
-- none is a failed write or read, and so is the script's end.
pub record Network : Type 0 where
  pub connects : Bool
  pub deadlines : List Bool
  pub frames : List (Option Bytes)

-- A deadline is the timeout that it was set with, in milliseconds, or none.
pub record Link : Type 0 where
  pub is_open : Bool
  pub request_timeout : ℕ
  pub deadline : Option ℕ
  pub last_id : ℤ
  pub sent : List (ℤ × Message)
  pub network : Network

abbrev pub before_dial : Network → Link
before_dial n = record {
  is_open = false;
  request_timeout = 0;
  deadline = none;
  last_id = pos 0;
  sent = [];
  network = n;
}

-- A function on the connection that can fail.
abbrev pub Call {ℓ} : Type ℓ → Type ℓ
Call A = Link → Link × Result LinkError A

module _ {ℓ κ} {A : Type ℓ} {B : Type κ} where
  abbrev pub continue : Link × Result LinkError A → (A → Call B) → Link × Result LinkError B
  continue (l, err failure) next = (l, err failure)
  continue (l, ok value) next = next value l

infixl 5 ◌>>=◌ ◌>>◌
abbrev pub ◌>>=◌ {ℓ κ} : {A : Type ℓ} {B : Type κ} → Call A → (A → Call B) → Call B
(first >>= next) l = continue (first l) next

abbrev pub ◌>>◌ {κ} : {B : Type κ} → Call (Unit {0}) → Call B → Call B
first >> next = first >>= λ done. next

abbrev pub finish {ℓ} : {A : Type ℓ} → A → Call A
finish value l = (l, ok value)

abbrev pub refuse {ℓ} : {A : Type ℓ} → LinkError → Call A
refuse failure l = (l, err failure)

abbrev pub dial_timeout : ℕ
dial_timeout = 10 * 1000

abbrev pub default_request_timeout : ℕ
default_request_timeout = 30 * 1000

-- net.Dialer.DialContext, and the Conn that is made of what it returns.
unfoldable pub connect : Call (Unit {0})
connect l =
    if l.network.connects
    then (record l { is_open = true; request_timeout = default_request_timeout }, ok tt)
    else (l, err connect_failed)

-- nc.Close, whose error is dropped.
abbrev pub close : Link → Link
close l = record l { is_open = false }

-- `if err != nil { _ = nc.Close(); return err }`; a panic passes by it.
abbrev pub closed_by {ℓ} : {A : Type ℓ} → Link × Result LinkError A → Link × Result LinkError A
closed_by (l, ok value) = (l, ok value)
closed_by (l, err slice_panic) = (l, err slice_panic)
closed_by (l, err failure) = (close l, err failure)

abbrev pub or_close {ℓ} : {A : Type ℓ} → Call A → Call A
or_close call l = closed_by (call l)

abbrev pub next_deadline : Option ℕ → Link → List Bool → Link × Result LinkError (Unit {0})
next_deadline t l [] = (record l { deadline = t }, ok tt)
next_deadline t l (b ∷ bs) =
    let l' = record l { network = record l.network { deadlines = bs } } in
    if b then (record l' { deadline = t }, ok tt) else (l', err deadline_failed)

-- SetDeadline with a timeout from now, or with none for the zero time.
unfoldable pub set_deadline : Option ℕ → Call (Unit {0})
set_deadline t l = next_deadline t l l.network.deadlines

unfoldable pub set_request_timeout : ℕ → Link → Link
set_request_timeout t l = record l { request_timeout = t }

unfoldable pub apply_request_deadline : Call (Unit {0})
unfolding set_deadline
apply_request_deadline l =
    set_deadline (if l.request_timeout == 0 then none else some l.request_timeout) l

-- The state behind an exchange: a new id, one more message sent, one frame of the script used up.
abbrev pub after_send : Link → Message → List (Option Bytes) → Link
after_send l m rest = record l {
  last_id = next_correlation_id (record { last_id = l.last_id });
  sent = l.sent ++ ((next_correlation_id (record { last_id = l.last_id }), m) ∷ []);
  network = record l.network { frames = rest };
}

-- What directRoundTrip and RoundTripRequest do with the frame that was read. `respFrame[off:]`
-- panics if the frame is shorter than `off`.
abbrev pub body_of : ℤ → ℕ → Bytes → Result LinkError Bytes
body_of id off frame =
    if leb 4 (length frame)
    then (if eq_int (id_of frame) id
        then (if leb off (length frame) then ok (drop off frame) else err slice_panic)
        else err id_mismatch)
    else err short_response

abbrev pub body_offset : ℤ → ℤ → ℕ
body_offset key version = if leb 1 (response_header_version key version) then 5 else 4

abbrev pub receive : Link → Message → ℤ → ℤ → List (Option Bytes) → Link × Result LinkError Bytes
receive l m key version [] = (after_send l m [], err network_failed)
receive l m key version (none ∷ rest) = (after_send l m rest, err network_failed)
receive l m key version (some frame ∷ rest) = (
  after_send l m rest,
  body_of (next_correlation_id (record { last_id = l.last_id })) (body_offset key version) frame,
)

unfoldable pub direct_round_trip : Message → ℤ → ℤ → Call Bytes
direct_round_trip m key version l = receive l m key version l.network.frames

-- RoundTripRequest behind SetDeadline; the id is taken before.
abbrev pub send_typed :
    Link × Result LinkError (Unit {0}) → Bytes → ℤ → ℤ → Link × Result LinkError Bytes
send_typed (l, err failure) req key version =
    (record l { last_id = next_correlation_id (record { last_id = l.last_id }) }, err failure)
send_typed (l, ok done) req key version = receive l (typed req) key version l.network.frames

-- The typed request's bytes are kmsg's; its key and version decide on the response's header.
unfoldable pub round_trip_request : Bytes → ℤ → ℤ → Call Bytes
unfolding apply_request_deadline
round_trip_request req key version l = send_typed (apply_request_deadline l) req key version
