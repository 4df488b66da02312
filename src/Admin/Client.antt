-- ===== src/Admin/Client.antt =====
-- admin/client.go: Set, Delete, List, call and mapClientErr. `W` is the state behind the endpoint,
-- which an HTTP exchange may change.
use kroxy.Base.{
  Option, none, some, false, Bool, [], ◌∷◌, Bytes, codes, if◌then◌else◌, Result, ok, err, ℕ, ℤ, ◌+◌,
  ◌%◌, ◌^◌, ◌==◌, eq_int, not,
}
use kroxy.Admin.Types.{
  SetParams, OkResult, ListResult, Params, set_params, delete_params, no_params, RpcRequest,
  RpcError, RpcResponse,
}
use kroxy.Resolver.Memory.{ResolverError, duplicate, not_found, invalid_tenant}
use kroxy.Admin.Service.{code_duplicate, code_not_found, code_invalid}

pub record Client : Type 0 where
  pub endpoint : Bytes
  pub id : ℕ

pub data ClientError : Type 0 where
  resolver_error : ResolverError → ClientError
  rpc_code : ℤ → ClientError
  http_status : ℕ → ClientError
  marshal_failed bad_endpoint exchange_failed decode_failed result_failed : ClientError

-- json.Marshal of a request, http.NewRequestWithContext, http.Client.Do with the body of the answer
-- read, and json.Unmarshal into the three types that call decodes; none or false is an error.
pub record Packages (W : Type 0) : Type 0 where
  pub marshal : RpcRequest → Option Bytes
  pub is_endpoint : Bytes → Bool
  pub post : Bytes → Bytes → W → W × Option (ℕ × Bytes)
  pub decode_response : Bytes → Option RpcResponse
  pub decode_ok : Bytes → Option OkResult
  pub decode_list : Bytes → Option ListResult

unfoldable pub map_client_err : RpcError → ClientError
map_client_err e =
    if eq_int e.code code_duplicate
    then resolver_error duplicate
    else if eq_int e.code code_not_found
    then resolver_error not_found
    else if eq_int e.code code_invalid
    then resolver_error invalid_tenant
    else rpc_code e.code

-- `json.Unmarshal(envelope.Result, out)`, if there is a result: else `out` keeps its value.
abbrev pub read_result {ℓ} : {A : Type ℓ} → (Bytes → Option A) → A → Bytes → Result ClientError A
read_result decode out [] = ok out
read_result decode out (b ∷ bs) = elim (decode (b ∷ bs)) [
  | none ↦ err result_failed
  | some value ↦ ok value
]

abbrev pub read_response {ℓ} :
    {A : Type ℓ} → (Bytes → Option A) → A → RpcResponse → Result ClientError A
read_response decode out response = elim response.error [
  | some e ↦ err (map_client_err e)
  | none ↦ read_result decode out response.result
]

abbrev pub next_request : Client → Bytes → Params → RpcRequest
next_request c method params = record {
  version = codes "2.0";
  id = (c.id + 1) % 2 ^ 64;
  method = method;
  params = params;
}

-- The client after `c.id.Add(1)`.
abbrev pub after_call : Client → Client
after_call c = record c { id = (c.id + 1) % 2 ^ 64 }

module _ {W : Type 0} (P : Packages W) where
  -- What call makes of the HTTP exchange's outcome.
  unfoldable pub read_answer {ℓ} :
      {A : Type ℓ} → (Bytes → Option A) → A → Option (ℕ × Bytes) → Result ClientError A
  unfolding map_client_err
  read_answer decode out none = err exchange_failed
  read_answer decode out (some (status, body)) =
      if not (status == 200) then err (http_status status) else elim (P.decode_response body) [
        | none ↦ err decode_failed
        | some response ↦ read_response decode out response
      ]

  unfoldable pub call {ℓ} :
      {A : Type ℓ}
      → (Bytes → Option A)
      → A
      → Bytes
      → Params
      → Client
      → W
      → Client × W × Result ClientError A
  unfolding read_answer
  call decode out method params c w = elim (P.marshal (next_request c method params)) [
    | none ↦ (after_call c, w, err marshal_failed)
    | some body ↦
        if not (P.is_endpoint c.endpoint)
        then (after_call c, w, err bad_endpoint)
        else let (w', answer) = P.post c.endpoint body w in
          (after_call c, w', read_answer decode out answer)
  ]

  unfoldable pub client_set : SetParams → Client → W → Client × W × Result ClientError OkResult
  unfolding call
  client_set p = call P.decode_ok (record { is_ok = false }) (codes "Tenants.Set") (set_params p)

  unfoldable pub client_delete : Bytes → Client → W → Client × W × Result ClientError OkResult
  unfolding call
  client_delete id =
      call P.decode_ok (record { is_ok = false }) (codes "Tenants.Delete")
        (delete_params (record { id = id }))

  unfoldable pub client_list : Client → W → Client × W × Result ClientError ListResult
  unfolding call
  client_list = call P.decode_list (record { tenants = [] }) (codes "Tenants.List") no_params
