-- ===== src/Resolver/Memory.antt =====
-- resolver/memory.go, with the types and errors of resolver/resolver.go and the switch of
-- resolver/factory.go. The map is an association list; Go's order of iteration over it is not
-- specified, and here it is the list's. Each operation runs under the resolver's lock, so it is one
-- step on the map.
use kroxy.Base.{
  Option, none, some, List, [], ◌∷◌, map, Bytes, str_eq, is_empty, if◌then◌else◌, Result, ok, err,
  ◌>>=◌, ◌>>◌, codes, ◌||◌,
}

pub record Tenant : Type 0 where
  pub id : Bytes
  pub topic_prefix : Bytes
  pub upstream : Bytes

pub data ResolverError : Type 0 where
  unauthorized duplicate not_found invalid_tenant unknown_type : ResolverError

pub record MemoryResolver : Type 0 where
  pub tenants : List (Bytes × Tenant)

unfoldable pub validate_tenant : Tenant → Result ResolverError (Unit {0})
validate_tenant t =
    if is_empty t.id
    then err invalid_tenant
    else if is_empty t.topic_prefix
    then err invalid_tenant
    else if is_empty t.upstream
    then err invalid_tenant
    else ok tt

-- `m[id]`, `m[id] = t` and `delete(m, id)`.
unfoldable pub lookup : Bytes → List (Bytes × Tenant) → Option Tenant
lookup id [] = none
lookup id ((k, t) ∷ m) = if str_eq k id then some t else lookup id m

unfoldable pub insert : Bytes → Tenant → List (Bytes × Tenant) → List (Bytes × Tenant)
insert id t [] = (id, t) ∷ []
insert id t ((k, u) ∷ m) = if str_eq k id then (id, t) ∷ m else (k, u) ∷ insert id t m

unfoldable pub remove : Bytes → List (Bytes × Tenant) → List (Bytes × Tenant)
remove id [] = []
remove id ((k, u) ∷ m) = let rest = remove id m in if str_eq k id then rest else (k, u) ∷ rest

unfoldable pub get : MemoryResolver → Bytes → Result ResolverError Tenant
get r id = elim (lookup id r.tenants) [ none ↦ err unauthorized | some t ↦ ok t ]

-- The check and the write that Set and newMemoryResolver share: a new tenant in a map that does
-- not have its id.
abbrev pub add_new : Tenant → List (Bytes × Tenant) → Result ResolverError (List (Bytes × Tenant))
add_new t m = do
  validate_tenant t
  elim (lookup t.id m) [ some _ ↦ err duplicate | none ↦ ok (insert t.id t m) ]

unfoldable pub set : MemoryResolver → Tenant → Result ResolverError MemoryResolver
unfolding validate_tenant
set r t = do m ← add_new t r.tenants; ok (record { tenants = m })

unfoldable pub delete : MemoryResolver → Bytes → Result ResolverError MemoryResolver
delete r id = if is_empty id then err invalid_tenant else elim (lookup id r.tenants) [
  | none ↦ err not_found
  | some _ ↦ ok (record { tenants = remove id r.tenants })
]

abbrev pub tenant_of : Bytes × Tenant → Tenant
tenant_of (k, t) = t

unfoldable pub list : MemoryResolver → List Tenant
list r = map tenant_of r.tenants

-- The loop of newMemoryResolver.
unfoldable pub add_all :
    List Tenant → List (Bytes × Tenant) → Result ResolverError (List (Bytes × Tenant))
unfolding validate_tenant
add_all [] m = ok m
add_all (t ∷ ts) m = do m' ← add_new t m; add_all ts m'

unfoldable pub new_memory_resolver : List Tenant → Result ResolverError MemoryResolver
unfolding add_all
new_memory_resolver ts = do m ← add_all ts []; ok (record { tenants = m })

-- resolver.Config and resolver.New.
pub record Config : Type 0 where
  pub kind : Bytes
  pub tenants : List Tenant

unfoldable pub new : Config → Result ResolverError MemoryResolver
unfolding new_memory_resolver
new cfg =
    if is_empty cfg.kind || str_eq cfg.kind (codes "memory")
    then new_memory_resolver cfg.tenants
    else err unknown_type
