-- ===== src/Upstream/Transcript.antt =====
-- upstream/conn.go, Dial: what has happened on the wire when it succeeds.
use kroxy.Base.{none, ◌≡◌, refl, sym, ap, ◌∙◌, ℤ, pos, [], ◌∷◌, some, Bytes, drop, ok}
use kroxy.Auth.Plain.{mechanism_plain, plain_payload}
use kroxy.Upstream.RoundTrip.{id_of, next_correlation_id}
use kroxy.Upstream.Link.{
  api_versions, sasl_handshake, sasl_authenticate, Network, Link, before_dial, connect, or_close,
  set_deadline, dial_timeout,
}
use kroxy.Upstream.Dial.{
  Packages, request_api_versions, request_handshake, plain_authenticate, dial_and_negotiate, dial,
}
use kroxy.Upstream.Accepted.{
  Gives, continue-Gives, closed_by-Gives, IsIdle-trans, IsAnswered, IsAnswered-idle,
  set_deadline-IsIdle, connect-IsIdle, api_versions-Gives, handshake-Gives, plain-Gives,
}

abbrev next_id_of : ℤ → ℤ
next_id_of i = next_correlation_id (record { last_id = i })

module _ {S : Type 0} (P : Packages S) where
  -- The versions were asked for and the mechanism was accepted.
  record IsNegotiated (mechanism : Bytes) (l l' : Link) : Type 0 where
    versions : Bytes
    choice : Bytes
    middle : Link
    first : IsAnswered api_versions versions l middle
    second : IsAnswered (sasl_handshake mechanism) choice middle l'
    chosen : P.read_handshake choice ≡ some (pos 0)

  negotiate-Gives :
      (mechanism : Bytes) (l l' : Link)
      → Gives (dial_and_negotiate P mechanism l) tt l'
      → IsNegotiated mechanism l l'
  unfolding dial_and_negotiate
  negotiate-Gives mechanism l l' h =
      let (_, l1, e1, r1) = continue-Gives (connect l) _ tt l' h in
      let (_, l2, e2, r2) =
        continue-Gives (or_close (set_deadline (some dial_timeout)) l1) _ tt l' r1 in
      let (_, l3, e3, r3) = continue-Gives (or_close (request_api_versions P) l2) _ tt l' r2 in
      let idle =
        IsIdle-trans l l1 l2 (connect-IsIdle l l1 e1)
          (set_deadline-IsIdle (some dial_timeout) l1 l2
            (closed_by-Gives (set_deadline (some dial_timeout) l1) tt l2 e2)).0 in
      let (versions, first) =
        api_versions-Gives P l2 l3 (closed_by-Gives (request_api_versions P l2) tt l3 e3) in
      let (choice, second, chosen) =
        handshake-Gives P mechanism l3 l'
          (closed_by-Gives (request_handshake P mechanism l3) tt l' r3) in
      record {
        versions = versions;
        choice = choice;
        middle = l3;
        first = IsAnswered-idle api_versions versions l l2 l3 idle first;
        second = second;
        chosen = chosen;
      }

  -- The wire of a successful dial: three requests under the ids 1 to 3, each answered under its id,
  -- the mechanism and the credentials accepted.
  pub record IsTranscript (username password : Bytes) (n : Network) (l : Link) : Type 0 where
    pub versions : Bytes
    pub choice : Bytes
    pub verdict : Bytes
    pub payload : Bytes
    pub message : Bytes
    pub frames : n.frames ≡ some versions ∷ some choice ∷ some verdict ∷ l.network.frames
    pub first_id : id_of versions ≡ pos 1
    pub second_id : id_of choice ≡ pos 2
    pub third_id : id_of verdict ≡ pos 3
    pub chosen : P.read_handshake (drop 4 choice) ≡ some (pos 0)
    pub accepted : P.read_authenticate (drop 4 verdict) ≡ some (payload, pos 0, message)
    pub cleared : l.deadline ≡ none
    pub sent :
        l.sent
        ≡ (pos 1, api_versions)
          ∷ (pos 2, sasl_handshake mechanism_plain)
          ∷ (pos 3, sasl_authenticate (plain_payload username password))
          ∷ []

  -- Dial succeeds only if the broker answered each of the three requests under its id, and accepted
  -- both the mechanism and the credentials; the credentials were sent last, and once; and the
  -- connection is left without a deadline.
  pub dial-eq-ok :
      (username password : Bytes) (n : Network) (l : Link)
      → dial P username password (before_dial n) ≡ (l, ok tt)
      → IsTranscript username password n l
  unfolding dial
  dial-eq-ok username password n l h =
      let l0 = before_dial n in
      let (_, l1, e1, r1) = continue-Gives (dial_and_negotiate P mechanism_plain l0) _ tt l h in
      let (_, l2, e2, r2) =
        continue-Gives (or_close (plain_authenticate P username password) l1) _ tt l r1 in
      let start = negotiate-Gives mechanism_plain l0 l1 e1 in
      let end =
        plain-Gives P username password l1 l2
          (closed_by-Gives (plain_authenticate P username password l1) tt l2 e2) in
      let (idle, cleared) =
        set_deadline-IsIdle none l2 l (closed_by-Gives (set_deadline none l2) tt l r2) in
      let a = start.first in
      let b = start.second in
      let c = end.answered in
      let id1 : start.middle.last_id ≡ pos 1 = a.next_id in
      let id2 : l1.last_id ≡ pos 2 = b.next_id ∙ ap next_id_of id1 in
      let id3 : l2.last_id ≡ pos 3 = c.next_id ∙ ap next_id_of id2 in
      record {
        versions = a.frame;
        choice = b.frame;
        verdict = c.frame;
        payload = end.payload;
        message = end.message;
        frames =
            a.frames
            ∙ ap (λ fs. some a.frame ∷ fs)
                (b.frames
                  ∙ ap (λ fs. some b.frame ∷ fs)
                      (c.frames ∙ ap (λ fs. some c.frame ∷ fs) (sym idle.frames)));
        first_id = a.own_id ∙ id1;
        second_id = b.own_id ∙ id2;
        third_id = c.own_id ∙ id3;
        chosen = ap P.read_handshake (sym b.content) ∙ start.chosen;
        accepted = ap P.read_authenticate (sym c.content) ∙ end.no_error;
        cleared = cleared;
        sent = idle.sent ∙ rw (c.sent, b.sent, a.sent, id1, id2, id3) refl;
      }
