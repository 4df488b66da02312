-- ===== src/Admin/Exchange.antt =====
-- admin/client.go and admin/server.go together: the client's operations as operations on the
-- resolver, and what HTTP and JSON-RPC do between the two.
use kroxy.Base.{
  ◌≡◌, ◌≢◌, none, some, true, false, Bool, ◌++◌, map, Bytes, codes, is_empty, Result, ok, err, All,
}
use kroxy.Admin.Types.{
  TenantView, Params, set_params, delete_params, no_params, RpcRequest, RpcResponse,
}
use kroxy.Admin.Service.{
  ServiceError, rpc_error, plain_error, Reply, done, listed, map_err, Handler, handle_set,
  handle_delete, handle_list, registry, answer, tenant_of_params, view_of,
}
use kroxy.Admin.Service
use kroxy.Admin.Client.{
  Client, ClientError, resolver_error, call, client_set, client_delete, client_list, next_request,
  after_call, map_client_err, read_answer, read_response,
}
use kroxy.Admin.Client
use kroxy.Resolver.Memory.{Tenant, ResolverError, MemoryResolver, set, delete, list}

-- The operation on the resolver itself, with what the service answers to its success.
abbrev pub direct_change :
    MemoryResolver
    → Result ResolverError MemoryResolver
    → MemoryResolver × Result ResolverError Reply
direct_change r (ok r') = (r', ok (done (record { is_ok = true })))
direct_change r (err e) = (r, err e)

abbrev pub direct : Params → MemoryResolver → MemoryResolver × Result ResolverError Reply
direct (set_params p) r = direct_change r (set r (tenant_of_params p))
direct (delete_params p) r = direct_change r (delete r p.id)
direct no_params r = (r, ok (listed (record { tenants = map view_of (list r) })))

abbrev pub reply :
    {A : Type 0}
    → (A → Reply)
    → Client × MemoryResolver × Result ClientError A
    → Client × MemoryResolver × Result ClientError Reply
reply f (c, r, ok a) = (c, r, ok (f a))
reply f (c, r, err e) = (c, r, err e)

abbrev pub method_of : Params → Bytes
method_of (set_params p) = codes "Set"
method_of (delete_params p) = codes "Delete"
method_of no_params = codes "List"

module _ {P : Type 0} (S : Service.Packages P) (C : Client.Packages MemoryResolver)
    (is_text : Bytes → Bool) where
  -- The client's operation for the parameters.
  abbrev pub perform :
      Params → Client → MemoryResolver → Client × MemoryResolver × Result ClientError Reply
  perform (set_params p) c r = reply done (client_set C p c r)
  perform (delete_params p) c r = reply done (client_delete C p.id c r)
  perform no_params c r = reply listed (client_list C c r)

  abbrev pub request_of : Client → Params → RpcRequest
  request_of c q = next_request c (codes "Tenants." ++ method_of q) q

  -- The strings that JSON must carry are text.
  abbrev pub IsTextTenant : Tenant → Type 0
  IsTextTenant t =
      (is_text t.id ≡ true) × (is_text t.topic_prefix ≡ true) × (is_text t.upstream ≡ true)

  abbrev pub IsTextView : TenantView → Type 0
  IsTextView t =
      (is_text t.id ≡ true) × (is_text t.topic_prefix ≡ true) × (is_text t.upstream ≡ true)

  -- The request's parameters bind to the struct that was marshalled.
  abbrev pub Carries : Params → P → Type 0
  Carries (set_params input) p = S.bind_set p ≡ some input
  Carries (delete_params input) p = S.bind_delete p ≡ some input
  Carries no_params p = Unit

  -- What JSON-RPC says of a handler's result: an error has its code in the envelope, and a value
  -- is there as its JSON.
  abbrev pub Answers : Result ServiceError Reply → RpcResponse → Type 0
  Answers (err (rpc_error e)) x = x.error ≡ some e
  Answers (err (plain_error e)) x = x.error ≢ none
  Answers (ok (done o)) x =
      (x.error ≡ none) × (is_empty x.result ≡ false) × (C.decode_ok x.result ≡ some o)
  Answers (ok (listed l)) x =
      (x.error ≡ none)
      × (is_empty x.result ≡ false)
      × (All IsTextView l.tenants → C.decode_list x.result ≡ some l)

  -- One exchange in which the server ran the handler that the request names once, on its
  -- parameters, and sent its answer. (Status 200 alone does not say so: /healthz answers with it, and
  -- so does go-rpc where it refuses a request before it gets to a handler.)
  pub record IsRun (q : Params) (r r' : MemoryResolver) (bytes : Bytes) : Type 0 where
    pub params : P
    pub response : RpcResponse
    pub carries : Carries q params
    pub decoded : C.decode_response bytes ≡ some response
    pub moved :
        (h : Handler P) → registry S (codes "Tenants") (method_of q) ≡ some h → r' ≡ (h r params).0
    pub answered :
        (h : Handler P)
        → registry S (codes "Tenants") (method_of q) ≡ some h
        → Answers (h r params).1 response
