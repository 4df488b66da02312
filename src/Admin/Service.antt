-- ===== src/Admin/Service.antt =====
-- admin/server.go: the codes, Registry, Set, Delete, List and mapErr. The resolver that the service
-- stores is the state of each handler.
use kroxy.Base.{
  Option, none, some, true, map, Bytes, codes, str_eq, if◌then◌else◌, Result, ok, err, ℤ, negsuc,
  ◌&&◌,
}
use kroxy.Admin.Types.{SetParams, DeleteParams, OkResult, TenantView, ListResult, RpcError}
use kroxy.Resolver.Memory.{
  Tenant, ResolverError, unauthorized, duplicate, not_found, invalid_tenant, unknown_type,
  MemoryResolver, set, delete, list,
}

abbrev pub code_duplicate : ℤ
code_duplicate = negsuc 32010

abbrev pub code_not_found : ℤ
code_not_found = negsuc 32011

abbrev pub code_invalid : ℤ
code_invalid = negsuc 32012

-- What a handler returns as its error: one of go-rpc's errors, or another one unchanged.
pub data ServiceError : Type 0 where
  rpc_error : RpcError → ServiceError
  plain_error : ResolverError → ServiceError

pub data Reply : Type 0 where
  done : OkResult → Reply
  listed : ListResult → Reply

-- go-rpc's RequestParams.Bind into the two parameter structs, with none for an error.
pub record Packages (P : Type 0) : Type 0 where
  pub bind_set : P → Option SetParams
  pub bind_delete : P → Option DeleteParams

unfoldable pub map_err : ResolverError → ServiceError
map_err duplicate = rpc_error (record { code = code_duplicate })
map_err not_found = rpc_error (record { code = code_not_found })
map_err invalid_tenant = rpc_error (record { code = code_invalid })
map_err unauthorized = plain_error unauthorized
map_err unknown_type = plain_error unknown_type

-- The end of Set and Delete: the store's error mapped, or its new state and OKResult{OK: true}.
abbrev pub answer :
    MemoryResolver
    → Result ResolverError MemoryResolver
    → MemoryResolver × Result ServiceError Reply
answer store (ok store') = (store', ok (done (record { is_ok = true })))
answer store (err failure) = (store, err (map_err failure))

abbrev pub Handler : Type 0 → Type 0
Handler P = MemoryResolver → P → MemoryResolver × Result ServiceError Reply

abbrev pub tenant_of_params : SetParams → Tenant
tenant_of_params p = record { id = p.id; topic_prefix = p.topic_prefix; upstream = p.upstream }

abbrev pub view_of : Tenant → TenantView
view_of t = record { id = t.id; topic_prefix = t.topic_prefix; upstream = t.upstream }

module _ {P : Type 0} (S : Packages P) where
  unfoldable pub handle_set : Handler P
  unfolding map_err
  handle_set store p = elim (S.bind_set p) [
    | none ↦ (store, err (rpc_error (record { code = code_invalid })))
    | some input ↦ answer store (set store (tenant_of_params input))
  ]

  unfoldable pub handle_delete : Handler P
  unfolding map_err
  handle_delete store p = elim (S.bind_delete p) [
    | none ↦ (store, err (rpc_error (record { code = code_invalid })))
    | some input ↦ answer store (delete store input.id)
  ]

  unfoldable pub handle_list : Handler P
  handle_list store p = (store, ok (listed (record { tenants = map view_of (list store) })))

  -- The service's name and the handlers registered under it.
  unfoldable pub registry : Bytes → Bytes → Option (Handler P)
  unfolding handle_set handle_delete handle_list
  registry service method =
      if str_eq service (codes "Tenants") && str_eq method (codes "Set")
      then some handle_set
      else if str_eq service (codes "Tenants") && str_eq method (codes "Delete")
      then some handle_delete
      else if str_eq service (codes "Tenants") && str_eq method (codes "List")
      then some handle_list
      else none
