-- ===== src/Proxy/Run.antt =====
-- proxy/conn.go, serve: the connections that a client can bring about, whatever it sends, however
-- the network answers, and however the admin API changes the resolver in between.
use kroxy.Base.{All-append, ◌≡◌, inl, inr, refl, none, Bytes, Result-cases}
use kroxy.Protocol.Header.{RequestHeader, parse_request_header, slice_from}
use kroxy.Proxy.Conn.{ServerConfig, Conn, new_conn, Packages, Answers, Step}
use kroxy.Proxy.Dispatch.{serve_frame, observe_request}
use kroxy.Proxy.Forwarding.{dispatch-IsSafe}
use kroxy.Proxy.Invariant.{IsConn}
use kroxy.Proxy.Safety.{Permitted, IsSafe}
use kroxy.Resolver.Catalogue.{IsCatalogue}
use kroxy.Resolver.Memory.{MemoryResolver}

-- The loop of serve ends at the first error, so each round but the last has none.
pub data Run {R : Type 0} (P : Packages R) : Conn → Type 0 where
  start : (cfg : ServerConfig) → Run P (new_conn cfg)
  serve :
      {c : Conn}
      → Run P c
      → (w : Answers) (r : MemoryResolver) (frame : Bytes) → IsCatalogue r.tenants
      → (serve_frame P w r c frame).error ≡ none
      → Run P (serve_frame P w r c frame).conn

module _ {R : Type 0} (P : Packages R) where
  observed-IsSafe :
      (hdr : RequestHeader) (w : Answers) (r : MemoryResolver) (c : Conn) (s : Step R)
      → IsSafe P s
      → IsSafe P (observe_request P w r c hdr s)
  observed-IsSafe hdr w r c s safe = record {
    keeps = safe.keeps;
    permitted = All-append (Permitted P s.conn) s.events _ safe.permitted (tt, tt);
  }

  pub serve_frame-IsSafe :
      (w : Answers) (r : MemoryResolver) (c : Conn) (frame : Bytes)
      → IsCatalogue r.tenants
      → IsConn c
      → IsSafe P (serve_frame P w r c frame)
  unfolding serve_frame
  serve_frame-IsSafe w r c frame v h = elim (Result-cases (parse_request_header frame)) [
    | inr (x, e) ↦ rw (serve_frame, e) (record { keeps = h; permitted = tt })
    | inl (hdr, e) ↦ elim (Result-cases (slice_from frame hdr.header_size)) [
      | inr (x, k) ↦ rw (serve_frame, e, k) (record { keeps = h; permitted = tt })
      | inl (body, k) ↦
          rw (serve_frame, e, k)
            (observed-IsSafe hdr w r c _ (dispatch-IsSafe P w r c hdr frame body v h))
    ]
  ]

  Run-IsConn : {c : Conn} → Run P c → IsConn c
  Run-IsConn (start cfg) = refl
  Run-IsConn (serve run w r frame v e) = (serve_frame-IsSafe w r _ frame v (Run-IsConn run)).keeps

  -- On every connection that a client can bring about, each further round leaves the connection in
  -- a good phase (authenticated only for a valid tenant, and by SCRAM only after two rounds that
  -- the tenant's own upstream accepted) and does only what is permitted: it reaches only the
  -- tenant's upstream, and sends requests only once authenticated, the rewritten ones with none but
  -- the tenant's names among those of request_names. Provided that the resolver's catalogue is well formed in every round.
  pub Run-IsSafe :
      {c : Conn}
      → Run P c
      → (w : Answers) (r : MemoryResolver) (frame : Bytes) → IsCatalogue r.tenants
      → IsSafe P (serve_frame P w r c frame)
  Run-IsSafe run w r frame v = serve_frame-IsSafe w r _ frame v (Run-IsConn run)
