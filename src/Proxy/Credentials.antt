-- ===== src/Proxy/Credentials.antt =====
-- proxy/conn.go, the PLAIN login, with upstream/conn.go, Dial: the credentials on their way from the
-- client to the tenant's broker.
use kroxy.Base.{◌≡◌, ap, ◌∙◌, arith, pos, false, some, List, [], ◌∷◌, Bytes, str_eq_iff, ok, All}
use kroxy.Auth.Plain.{PlainCredentials, parse_plain, plain_payload, mechanism_plain}
use kroxy.Auth.PlainPayload.{parse_plain-plain_payload}
use kroxy.Auth.PlainUser.{parse_plain_iff}
use kroxy.Protocol.Header.{RequestHeader}
use kroxy.Proxy.Conn.{
  Conn, await_auth, Packages, Answers, dial, choose_dial, should_translate_plain_to_scram,
}
use kroxy.Proxy.Sasl.{handle_sasl_authenticate_plain, after_plain}
use kroxy.Resolver.Catalogue.{IsCatalogue, IsEntry}
use kroxy.Resolver.Memory.{Tenant, MemoryResolver, get, lookup}
use kroxy.Upstream.Dial
use kroxy.Upstream.Link.{
  api_versions, sasl_handshake, sasl_authenticate, Network, Link, before_dial,
}
use kroxy.Upstream.Transcript.{dial-eq-ok}

lookup_keyed :
    (id : Bytes) (m : List (Bytes × Tenant)) (t : Tenant)
    → All IsEntry m
    → lookup id m ≡ some t
    → t.id ≡ id
unfolding lookup
lookup_keyed id [] t h e = absurd (ground arith)
lookup_keyed id ((k, u) ∷ m) t h e =
    ground (arith, lookup_keyed id m t h.1, h.0.keyed, str_eq_iff k id, e)

get_keyed :
    (r : MemoryResolver) (id : Bytes) (t : Tenant)
    → IsCatalogue r.tenants
    → get r id ≡ ok t
    → t.id ≡ id
unfolding get
get_keyed r id t v e = lookup_keyed id r.tenants t v.entries (ground arith)

-- A PLAIN login with a payload of the credentials, for a tenant that is found, when the proxy does
-- not translate to SCRAM.
pub record IsLogin {R : Type 0} (P : Packages R) (r : MemoryResolver) (c : Conn)
    (hdr : RequestHeader) (body payload : Bytes) (creds : PlainCredentials) (t : Tenant)
    : Type 0 where
  pub awaited : c.state ≡ await_auth
  pub decoded : P.read_authenticate hdr.api_version body ≡ some payload
  pub parsed : parse_plain payload ≡ ok creds
  pub known : get r creds.username ≡ ok t
  pub untranslated : should_translate_plain_to_scram c ≡ false

module _ {R S : Type 0} (P : Packages R) (U : Dial.Packages S) (w : Answers)
    (r : MemoryResolver) where
  logged_in :
      (c : Conn) (hdr : RequestHeader) (body payload : Bytes) (creds : PlainCredentials)
      (t : Tenant)
      → IsLogin P r c hdr body payload creds t
      → (handle_sasl_authenticate_plain P w r c hdr body).conn ≡ after_plain c t creds.password
  unfolding handle_sasl_authenticate_plain
  logged_in c hdr body payload creds t h = ground (arith, h.awaited, h.decoded, h.parsed, h.known)

  -- The dial that is chosen after the login.
  login_dial :
      (c : Conn) (hdr : RequestHeader) (body payload : Bytes) (creds : PlainCredentials)
      (t : Tenant)
      → IsLogin P r c hdr body payload creds t
      → IsCatalogue r.tenants
      → choose_dial (handle_sasl_authenticate_plain P w r c hdr body).conn
        ≡ dial t.upstream creds.username creds.password
  unfolding choose_dial should_translate_plain_to_scram
  login_dial c hdr body payload creds t h v =
      let keyed : t.id ≡ creds.username = get_keyed r creds.username t v h.known in
      let same = logged_in c hdr body payload creds t h in
      ap choose_dial same
      ∙ rw (choose_dial, h.untranslated) (ap (λ id. dial t.upstream id creds.password) keyed)

  -- After a PLAIN login of a tenant that the well-formed catalogue knows, with the proxy not set to
  -- translate to SCRAM: the dial that is chosen goes to the tenant's upstream with the client's
  -- credentials; and if Dial with them succeeds, exactly three messages were sent, the last with a
  -- payload that the broker's parser reads as the same username and password, and no authorization
  -- id.
  pub login_forwarded :
      (c : Conn) (hdr : RequestHeader) (body payload : Bytes) (creds : PlainCredentials)
      (t : Tenant) (n : Network) (l : Link)
      → IsLogin P r c hdr body payload creds t
      → IsCatalogue r.tenants
      → Dial.dial U creds.username creds.password (before_dial n) ≡ (l, ok tt)
      → (choose_dial (handle_sasl_authenticate_plain P w r c hdr body).conn
          ≡ dial t.upstream creds.username creds.password)
        × (l.sent
            ≡ (pos 1, api_versions)
              ∷ (pos 2, sasl_handshake mechanism_plain)
              ∷ (pos 3, sasl_authenticate (plain_payload creds.username creds.password))
              ∷ [])
        × (parse_plain (plain_payload creds.username creds.password)
            ≡ ok (record { authzid = []; username = creds.username; password = creds.password }))
  login_forwarded c hdr body payload creds t n l h v dialled = (
    login_dial c hdr body payload creds t h v,
    (dial-eq-ok U creds.username creds.password n l dialled).sent,
    parse_plain-plain_payload creds.username creds.password
        ((parse_plain_iff payload creds).0 h.parsed).username,
  )
