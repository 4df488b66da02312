-- ===== src/Admin/Refinement.antt =====
-- admin/client.go and admin/server.go together: the client's operations against the resolver's.
use mathlib.Core.Path.{subst}
use kroxy.Base.{
  ◌≡◌, ◌≢◌, ◌⊎◌, inl, inr, refl, arith, ℕ, Option, none, some, true, false, Bool, List, [], ◌∷◌,
  ◌++◌, map, Bytes, codes, is_empty, Result, ok, err, wrap, All, Result-cases,
}
use kroxy.Admin.Types.{OkResult, Params, set_params, delete_params, no_params, RpcResponse}
use kroxy.Admin.Service.{
  ServiceError, rpc_error, plain_error, Reply, done, listed, map_err, Handler, handle_set,
  handle_delete, handle_list, registry, answer, tenant_of_params, view_of,
}
use kroxy.Admin.Service
use kroxy.Admin.Client.{
  Client, ClientError, resolver_error, call, client_set, client_delete, client_list, next_request,
  after_call, map_client_err, read_answer, read_response, read_result,
}
use kroxy.Admin.Client
use kroxy.Resolver.Memory.{
  Tenant, ResolverError, unauthorized, unknown_type, duplicate, not_found, invalid_tenant,
  MemoryResolver, set, delete, list,
}
use kroxy.Admin.Exchange.{
  direct_change, direct, reply, perform, request_of, IsTextTenant, IsTextView, Answers, IsRun,
}

module _ {P : Type 0} (S : Service.Packages P) (C : Client.Packages MemoryResolver)
    (is_text : Bytes → Bool) where
  -- The errors that have a code of their own.
  abbrev IsCoded : ResolverError → Type 0
  IsCoded e = (e ≡ duplicate) ⊎ (e ≡ not_found) ⊎ (e ≡ invalid_tenant)

  set-IsCoded : (r : MemoryResolver) (t : Tenant) (e : ResolverError) → set r t ≡ err e → IsCoded e
  unfolding set
  set-IsCoded r t e h = ground arith

  delete-IsCoded :
      (r : MemoryResolver) (id : Bytes) (e : ResolverError) → delete r id ≡ err e → IsCoded e
  unfolding delete
  delete-IsCoded r id e h = ground arith

  call-answered :
      {A : Type 0} (decode : Bytes → Option A) (out : A) (method : Bytes) (q : Params) (c : Client)
      (r r' : MemoryResolver) (body bytes : Bytes) (x : RpcResponse)
      → C.marshal (next_request c method q) ≡ some body
      → C.is_endpoint c.endpoint ≡ true
      → C.post c.endpoint body r ≡ (r', some (200, bytes))
      → C.decode_response bytes ≡ some x
      → call C decode out method q c r ≡ (after_call c, r', read_response decode out x)
  unfolding call read_answer
  call-answered decode out method q c r r' body bytes x m e p d = rw (call, m, e, p, d) refl

  coded_answer :
      {A : Type 0} (decode : Bytes → Option A) (out : A) (e : ResolverError) (x : RpcResponse)
      → IsCoded e
      → Answers S C is_text (err (map_err e)) x
      → read_response decode out x ≡ err (resolver_error e)
  unfolding map_err map_client_err
  coded_answer decode out duplicate x k h = rw h refl
  coded_answer decode out not_found x k h = rw h refl
  coded_answer decode out invalid_tenant x k h = rw h refl
  coded_answer decode out unauthorized x k h = ground (arith, k)
  coded_answer decode out unknown_type x k h = ground (arith, k)

  read_result-some :
      {A : Type 0} (decode : Bytes → Option A) (out a : A) (bs : Bytes)
      → is_empty bs ≡ false
      → decode bs ≡ some a
      → read_result decode out bs ≡ ok a
  read_result-some decode out a [] n d = absurd (cc)
  read_result-some decode out a (b ∷ bs) n d = rw (read_result, d) refl

  value_answer :
      {A : Type 0} (decode : Bytes → Option A) (out a : A) (x : RpcResponse)
      → x.error ≡ none
      → is_empty x.result ≡ false
      → decode x.result ≡ some a
      → read_response decode out x ≡ ok a
  value_answer decode out a x e n d =
      rw (read_response, e) (read_result-some decode out a x.result n d)

  answer_change :
      (c : Client) (r : MemoryResolver) (o : Result ResolverError MemoryResolver) (x : RpcResponse)
      (out : OkResult)
      → ((e : ResolverError) → o ≡ err e → IsCoded e)
      → Answers S C is_text (answer r o).1 x
      → reply done (c, (answer r o).0, read_response C.decode_ok out x)
        ≡ (c, (direct_change r o).0, wrap resolver_error (direct_change r o).1)
  answer_change c r (ok r') x out k h =
      rw (value_answer C.decode_ok out (record { is_ok = true }) x h.0 h.1 h.2) refl
  answer_change c r (err e) x out k h = rw (coded_answer C.decode_ok out e x (k e refl) h) refl

  view-IsText :
      (ts : List Tenant)
      → All (IsTextTenant S C is_text) ts
      → All (IsTextView S C is_text) (map view_of ts)
  view-IsText [] h = tt
  view-IsText (t ∷ ts) h = (h.0, view-IsText ts h.1)

  changed :
      (c : Client) (r r' : MemoryResolver) (o : Result ResolverError MemoryResolver)
      (x : RpcResponse) (out : OkResult)
      (called : Client × MemoryResolver × Result ClientError OkResult)
      (handled : MemoryResolver × Result ServiceError Reply)
      → ((e : ResolverError) → o ≡ err e → IsCoded e)
      → called ≡ (c, r', read_response C.decode_ok out x)
      → handled ≡ answer r o
      → r' ≡ handled.0
      → Answers S C is_text handled.1 x
      → reply done called ≡ (c, (direct_change r o).0, wrap resolver_error (direct_change r o).1)
  changed c r r' o x out called handled k e h moved ans =
      rw (e, moved, h) (answer_change c r o x out k (subst (λ z. Answers S C is_text z.1 x) h ans))

  -- If the server ran the handler that the request names once, on its parameters, and sent its
  -- answer with status 200, and the strings of the catalogue are text, then each operation of the
  -- client, Set, Delete and List, did to the resolver what the resolver's own operation does, and
  -- returns its answer or the resolver's own error.
  pub perform-direct :
      (q : Params) (c : Client) (r r' : MemoryResolver) (body bytes : Bytes)
      → IsRun S C is_text q r r' bytes
      → All (IsTextTenant S C is_text) (list r)
      → C.marshal (request_of S C is_text c q) ≡ some body
      → C.is_endpoint c.endpoint ≡ true
      → C.post c.endpoint body r ≡ (r', some (200, bytes))
      → perform S C is_text q c r
        ≡ (after_call c, (direct q r).0, wrap resolver_error (direct q r).1)
  unfolding registry kroxy.Base.str_eq client_set client_delete client_list handle_list
  perform-direct (set_params input) c r r' body bytes run texts m e sent =
      changed (after_call c) r r' (set r (tenant_of_params input)) run.response
        (record { is_ok = false }) (client_set C input c r) (handle_set S r run.params)
        (set-IsCoded r (tenant_of_params input))
        (call-answered C.decode_ok (record { is_ok = false }) (codes "Tenants.Set")
          (set_params input) c r r' body bytes run.response m e sent run.decoded)
        (rw (handle_set, run.carries) refl) (run.moved (handle_set S) refl)
        (run.answered (handle_set S) refl)
  perform-direct (delete_params input) c r r' body bytes run texts m e sent =
      changed (after_call c) r r' (delete r input.id) run.response (record { is_ok = false })
        (client_delete C input.id c r) (handle_delete S r run.params) (delete-IsCoded r input.id)
        (call-answered C.decode_ok (record { is_ok = false }) (codes "Tenants.Delete")
          (delete_params input) c r r' body bytes run.response m e sent run.decoded)
        (rw (handle_delete, run.carries) refl) (run.moved (handle_delete S) refl)
        (run.answered (handle_delete S) refl)
  perform-direct no_params c r r' body bytes run texts m e sent =
      let ans = run.answered (handle_list S) refl in
      rw
        (
          call-answered C.decode_list (record { tenants = [] }) (codes "Tenants.List") no_params c r
              r' body bytes run.response m e sent run.decoded,
          value_answer C.decode_list (record { tenants = [] })
              (record { tenants = map view_of (list r) }) run.response ans.0 ans.1
              (ans.2 (view-IsText (list r) texts)),
          run.moved (handle_list S) refl,
        )
        refl
