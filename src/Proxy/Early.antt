-- ===== src/Proxy/Early.antt =====
-- proxy/conn.go: a request that comes before any login.
use kroxy.Base.{◌≡◌, ◌||◌, arith, false, some, [], ◌∷◌, Bytes, eq_num, Result}
use kroxy.Protocol.Header.{RequestHeader, parse_request_header, slice_from}
use kroxy.Protocol.Keys.{api_versions_key, sasl_handshake_key, sasl_authenticate_key}
use kroxy.Proxy.Conn.{before_auth, Conn, Packages, Answers, counted}
use kroxy.Proxy.Counts.{requests, tenant_label}
use kroxy.Proxy.Dispatch.{serve_frame, dispatch}
use kroxy.Proxy.Sasl.{is_authenticated}
use kroxy.Resolver.Memory.{MemoryResolver}

module _ {R : Type 0} (P : Packages R) (w : Answers) (r : MemoryResolver) where
  -- A request of an API that the proxy does not answer itself, with a header that can be read, on a
  -- connection that is not authenticated: nothing is sent or answered, the connection is unchanged
  -- and ends with an error, and the request is counted under the API key that the client chose.
  pub serve_frame-before_auth :
      (c : Conn) (frame body : Bytes) (hdr : RequestHeader)
      → parse_request_header frame ≡ Result.ok hdr
      → slice_from frame hdr.header_size ≡ Result.ok body
      → is_authenticated c.state ≡ false
      → (eq_num hdr.api_key api_versions_key
          || eq_num hdr.api_key sasl_handshake_key
          || eq_num hdr.api_key sasl_authenticate_key)
        ≡ false
      → serve_frame P w r c frame ≡ record {
        conn = c;
        events = counted (requests hdr.api_key (tenant_label c.tenant.id)) ∷ [];
        error = some before_auth;
      }
  unfolding serve_frame dispatch
  serve_frame-before_auth c frame body hdr e k q n = ground (arith, e, k, q, n)
