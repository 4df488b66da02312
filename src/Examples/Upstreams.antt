-- ===== src/Examples/Upstreams.antt =====
-- Dials of an upstream that answers every request under its id, and a typed request.
use kroxy.Base.{none, ◌≡◌, refl, pos, true, some, [], ◌∷◌, codes, ok, err}
use kroxy.Auth.Plain.{plain_payload}
use kroxy.Protocol.Header.{response_header_version}
use kroxy.Protocol.Keys.{is_flexible_request}
use kroxy.Upstream.Dial.{Packages, dial}
use kroxy.Upstream.Link.{
  api_versions, sasl_handshake, sasl_authenticate, slice_panic, Network, Link, before_dial,
  round_trip_request,
}
use kroxy.Upstream.Ownership.{Dialling, translated, IsSettled, dialled, dialled-IsSettled}
use kroxy.Upstream.Transcript.{IsTranscript, dial-eq-ok}
use kroxy.Upstream.Typed.{IsReply, round_trip_request_reply}

-- Every mechanism and every payload is accepted, and a SCRAM exchange is done after one challenge.
abbrev pub packages : Packages (Unit {0})
packages = record {
  read_handshake = λ body. some (pos 0);
  read_authenticate = λ body. some (body, pos 0, []);
  authenticate = λ mechanism username password. some (tt, username);
  challenge = λ session message. some (true, [], tt);
}

abbrev pub network : Network
network = record {
  connects = true;
  deadlines = [];
  frames =
      some (0 ∷ 0 ∷ 0 ∷ 1 ∷ []) ∷ some (0 ∷ 0 ∷ 0 ∷ 2 ∷ []) ∷ some (0 ∷ 0 ∷ 0 ∷ 3 ∷ 7 ∷ []) ∷ [];
}

abbrev pub dialled_link : Link
dialled_link = record {
  is_open = true;
  request_timeout = 30000;
  deadline = none;
  last_id = pos 3;
  sent =
      (pos 1, api_versions)
      ∷ (pos 2, sasl_handshake (codes "PLAIN"))
      ∷ (pos 3, sasl_authenticate (plain_payload (codes "acme") (codes "secret")))
      ∷ [];
  network = record { connects = true; deadlines = []; frames = [] };
}

pub dial_succeeds :
    dial packages (codes "acme") (codes "secret") (before_dial network) ≡ (dialled_link, ok tt)
unfolding dial response_header_version is_flexible_request
dial_succeeds = refl

dial-eq-ok_example : IsTranscript packages (codes "acme") (codes "secret") network dialled_link
dial-eq-ok_example =
    dial-eq-ok packages (codes "acme") (codes "secret") network dialled_link dial_succeeds

abbrev by_scram : Dialling
by_scram = translated (codes "SCRAM-SHA-256") (codes "acme") (codes "secret")

dialled-IsSettled_example : IsSettled (dialled packages by_scram (before_dial network))
dialled-IsSettled_example = dialled-IsSettled packages by_scram (before_dial network) refl

abbrev four_bytes :
    IsReply
      (before_dial network)
      (0 ∷ 0 ∷ 0 ∷ 1 ∷ [])
      (some (0 ∷ 0 ∷ 0 ∷ 2 ∷ []) ∷ some (0 ∷ 0 ∷ 0 ∷ 3 ∷ 7 ∷ []) ∷ [])
four_bytes = record { deadlines = refl; frames = refl; own_id = refl }

-- A Metadata request of version 9 that is answered with its id alone.
round_trip_request_reply_example :
    ((round_trip_request [] (pos 3) (pos 9) (before_dial network)).1 ≡ err slice_panic)
    × ((round_trip_request [] (pos 3) (pos 9) (before_dial network)).0.network.frames
        ≡ some (0 ∷ 0 ∷ 0 ∷ 2 ∷ []) ∷ some (0 ∷ 0 ∷ 0 ∷ 3 ∷ 7 ∷ []) ∷ [])
unfolding is_flexible_request
round_trip_request_reply_example =
    round_trip_request_reply [] (pos 3) (pos 9) (before_dial network) 0 0 0 1 []
      (some (0 ∷ 0 ∷ 0 ∷ 2 ∷ []) ∷ some (0 ∷ 0 ∷ 0 ∷ 3 ∷ 7 ∷ []) ∷ []) four_bytes
