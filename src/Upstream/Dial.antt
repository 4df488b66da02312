-- ===== src/Upstream/Dial.antt =====
-- upstream/conn.go: the three ways to dial, and the relay of SASL payloads.
use kroxy.Base.{
  ℕ, zero, suc, ℤ, pos, eq_num, Bool, true, false, Option, none, some, [], Bytes, length, is_empty,
  if◌then◌else◌, err,
}
use kroxy.Auth.Plain.{mechanism_plain, plain_payload}
use kroxy.Auth.Scram.{is_scram_mechanism}
use kroxy.Protocol.Keys.{api_versions_key, sasl_handshake_key, sasl_authenticate_key}
use kroxy.Upstream.Link.{
  api_versions, sasl_handshake, sasl_authenticate, LinkError, decode_failed, unsupported_mechanism,
  session_failed, out_of_fuel, upstream_error, Call, ◌>>=◌, ◌>>◌, finish, refuse, connect, or_close,
  set_deadline, apply_request_deadline, dial_timeout, direct_round_trip,
}

-- kmsg's decoders of the two SASL responses: the error code of the first; payload, error code and
-- message ("" for nil) of the second. And franz-go's SCRAM client: the first message for a
-- mechanism, a user and a password, and for a server's message whether the exchange is done, the
-- next message and the next state.
pub record Packages (S : Type 0) : Type 0 where
  pub read_handshake : Bytes → Option ℤ
  pub read_authenticate : Bytes → Option (Bytes × ℤ × Bytes)
  pub authenticate : Bytes → Bytes → Bytes → Option (S × Bytes)
  pub challenge : S → Bytes → Option (Bool × Bytes × S)

abbrev pub or_refuse {ℓ} : {A : Type ℓ} → LinkError → Option A → Call A
or_refuse failure none = refuse failure
or_refuse failure (some value) = finish value

module _ {S : Type 0} (P : Packages S) where
  unfoldable pub request_api_versions : Call (Unit {0})
  unfolding direct_round_trip
  request_api_versions = do
    body ← direct_round_trip api_versions (pos api_versions_key) (pos 0)
    finish tt

  unfoldable pub request_handshake : Bytes → Call (Unit {0})
  unfolding direct_round_trip
  request_handshake mechanism = do
    body ← direct_round_trip (sasl_handshake mechanism) (pos sasl_handshake_key) (pos 1)
    code ← or_refuse decode_failed (P.read_handshake body)
    if eq_num code 0 then finish tt else refuse (upstream_error code [])

  -- The exchange that plainAuthenticate and RelaySASLAuthenticate share.
  unfoldable pub exchange_authenticate : Bytes → Call (Bytes × ℤ × Bytes)
  unfolding direct_round_trip
  exchange_authenticate payload = do
    body ← direct_round_trip (sasl_authenticate payload) (pos sasl_authenticate_key) (pos 1)
    or_refuse decode_failed (P.read_authenticate body)

  -- `if errCode != 0 { return ... }`
  abbrev pub accepted : Bytes × ℤ × Bytes → Call Bytes
  accepted (payload, code, message) =
      if eq_num code 0 then finish payload else refuse (upstream_error code message)

  unfoldable pub plain_authenticate : Bytes → Bytes → Call (Unit {0})
  unfolding exchange_authenticate plain_payload
  plain_authenticate username password = do
    answer ← exchange_authenticate (plain_payload username password)
    payload ← accepted answer
    finish tt

  unfoldable pub relay_sasl_authenticate : Bytes → Call (Bytes × ℤ × Bytes)
  unfolding apply_request_deadline exchange_authenticate
  relay_sasl_authenticate payload = do apply_request_deadline; exchange_authenticate payload

  -- The last message that the client has to send when the exchange is done.
  abbrev pub send_last : Bytes → Call (Unit {0})
  send_last next =
      if is_empty next
      then finish tt
      else (do answer ← relay_sasl_authenticate next; payload ← accepted answer; finish tt)

  -- The loop of scramAuthenticate, with `fuel` rounds at most. The script holds what the broker sends
  -- until the call returns, so an exchange that never ends has no script: nothing here says that the
  -- code's loop, which has no bound of its own, ends.
  unfoldable pub scram_rounds : ℕ → S → Bytes → Call (Unit {0})
  unfolding relay_sasl_authenticate
  scram_rounds zero session message = refuse out_of_fuel
  scram_rounds (suc fuel) session message = do
    answer ← relay_sasl_authenticate message
    server ← accepted answer
    (is_done, next, session') ← or_refuse session_failed (P.challenge session server)
    elim is_done [ true ↦ send_last next | false ↦ scram_rounds fuel session' next ]

  -- Each round uses up a frame, so as many rounds as there are frames and one are enough.
  unfoldable pub scram_authenticate : Bytes → Bytes → Bytes → Call (Unit {0})
  unfolding scram_rounds
  scram_authenticate mechanism username password l =
      if is_scram_mechanism mechanism
      then ◌>>=◌ (or_refuse session_failed (P.authenticate mechanism username password))
          (λ first. scram_rounds (suc (length l.network.frames)) first.0 first.1) l
      else (l, err unsupported_mechanism)

  unfoldable pub dial_and_negotiate : Bytes → Call (Unit {0})
  unfolding connect set_deadline request_api_versions request_handshake
  dial_and_negotiate mechanism = do
    connect
    or_close (set_deadline (some dial_timeout))
    or_close request_api_versions
    or_close (request_handshake mechanism)

  unfoldable pub dial : Bytes → Bytes → Call (Unit {0})
  unfolding dial_and_negotiate plain_authenticate set_deadline
  dial username password = do
    dial_and_negotiate mechanism_plain
    or_close (plain_authenticate username password)
    or_close (set_deadline none)

  unfoldable pub dial_for_scram : Bytes → Call (Unit {0})
  unfolding dial_and_negotiate set_deadline is_scram_mechanism
  dial_for_scram mechanism =
      if is_scram_mechanism mechanism
      then (do dial_and_negotiate mechanism; or_close (set_deadline none))
      else refuse unsupported_mechanism

  unfoldable pub dial_scram : Bytes → Bytes → Bytes → Call (Unit {0})
  unfolding dial_and_negotiate scram_authenticate set_deadline is_scram_mechanism
  dial_scram mechanism username password =
      if is_scram_mechanism mechanism
      then (do
        dial_and_negotiate mechanism
        or_close (scram_authenticate mechanism username password)
        or_close (set_deadline none))
      else refuse unsupported_mechanism
