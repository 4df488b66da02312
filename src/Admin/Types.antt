-- ===== src/Admin/Types.antt =====
-- admin/types.go, and the wire structs of admin/client.go. Error texts are not modelled, so an
-- rpcError is its code.
use kroxy.Base.{Bool, List, Option, ℕ, ℤ, Bytes}

pub record SetParams : Type 0 where
  pub id : Bytes
  pub topic_prefix : Bytes
  pub upstream : Bytes

pub record DeleteParams : Type 0 where
  pub id : Bytes

pub record OkResult : Type 0 where
  pub is_ok : Bool

pub record TenantView : Type 0 where
  pub id : Bytes
  pub topic_prefix : Bytes
  pub upstream : Bytes

pub record ListResult : Type 0 where
  pub tenants : List TenantView

-- What `params any` holds: a SetParams, a DeleteParams or, for List, an empty struct.
pub data Params : Type 0 where
  set_params : SetParams → Params
  delete_params : DeleteParams → Params
  no_params : Params

pub record RpcRequest : Type 0 where
  pub version : Bytes
  pub id : ℕ
  pub method : Bytes
  pub params : Params

pub record RpcError : Type 0 where
  pub code : ℤ

-- The envelope of an answer, less the version and id, which the client does not look at.
pub record RpcResponse : Type 0 where
  pub result : Bytes
  pub error : Option RpcError
