-- ===== src/Resolver/Catalogue.antt =====
-- The invariant of the catalogue: every entry stands under its tenant's id, is a valid tenant, and
-- no id has two entries.
use kroxy.Base.{
  ◌⊎◌, inl, inr, ◌≡◌, ◌≢◌, ◌↔◌, refl, false, none, some, List, [], ◌∷◌, Bytes, str_eq, str_eq_iff,
  is_empty, if◌then◌else◌, Result, ok, >>=-eq-ok, arith, All,
}
use kroxy.Resolver.Memory.{
  Tenant, ResolverError, MemoryResolver, validate_tenant, lookup, insert, remove, add_new, set,
  delete, add_all, new_memory_resolver,
}

pub lookup-insert :
    (k j : Bytes) (t : Tenant) (m : List (Bytes × Tenant))
    → lookup j (insert k t m) ≡ (if str_eq k j then some t else lookup j m)
unfolding lookup insert
lookup-insert k j t [] = refl
lookup-insert k j t ((i, u) ∷ m) =
    ground (arith, str_eq_iff k j, str_eq_iff i k, str_eq_iff i j, lookup-insert k j t m)

pub lookup-remove :
    (k j : Bytes) (m : List (Bytes × Tenant))
    → lookup j (remove k m) ≡ (if str_eq k j then none else lookup j m)
unfolding lookup remove
lookup-remove k j [] = ground arith
lookup-remove k j ((i, u) ∷ m) =
    ground (arith, str_eq_iff k j, str_eq_iff i k, str_eq_iff i j, lookup-remove k j m)

pub record IsTenant (t : Tenant) : Type 0 where
  pub has_id : is_empty t.id ≡ false
  pub has_prefix : is_empty t.topic_prefix ≡ false
  pub has_upstream : is_empty t.upstream ≡ false

pub record IsEntry (e : Bytes × Tenant) : Type 0 where
  pub keyed : e.0 ≡ e.1.id
  pub valid : IsTenant e.1

abbrev pub HasDistinctKeys : List (Bytes × Tenant) → Type 0
HasDistinctKeys [] = Unit
HasDistinctKeys ((k, t) ∷ m) = (lookup k m ≡ none) × HasDistinctKeys m

pub record IsCatalogue (m : List (Bytes × Tenant)) : Type 0 where
  pub entries : All IsEntry m
  pub distinct : HasDistinctKeys m

pub validate_tenant_iff : (t : Tenant) → (validate_tenant t ≡ ok tt) ↔ IsTenant t
unfolding validate_tenant
validate_tenant_iff t = (λ e. ground arith, λ v. ground arith)

insert-entries :
    (k : Bytes) (t : Tenant) (m : List (Bytes × Tenant))
    → IsEntry (k, t)
    → All IsEntry m
    → All IsEntry (insert k t m)
unfolding insert
insert-entries k t [] v h = (v, tt)
insert-entries k t ((i, u) ∷ m) v h = ground (arith, insert-entries k t m v h.1)

insert-distinct :
    (k : Bytes) (t : Tenant) (m : List (Bytes × Tenant))
    → HasDistinctKeys m
    → HasDistinctKeys (insert k t m)
unfolding insert lookup
insert-distinct k t [] h = (refl, tt)
insert-distinct k t ((i, u) ∷ m) h =
    ground (arith, insert-distinct k t m h.1, lookup-insert k i t m, str_eq_iff k i, str_eq_iff i k)

remove-entries : (k : Bytes) (m : List (Bytes × Tenant)) → All IsEntry m → All IsEntry (remove k m)
unfolding remove
remove-entries k [] h = tt
remove-entries k ((i, u) ∷ m) h = ground (arith, remove-entries k m h.1)

remove-distinct :
    (k : Bytes) (m : List (Bytes × Tenant)) → HasDistinctKeys m → HasDistinctKeys (remove k m)
unfolding remove
remove-distinct k [] h = tt
remove-distinct k ((i, u) ∷ m) h =
    ground (arith, remove-distinct k m h.1, lookup-remove k i m, str_eq_iff k i)

-- What a successful addition has checked, and its result.
pub add_new-eq-ok :
    (t : Tenant) (m m' : List (Bytes × Tenant))
    → add_new t m ≡ ok m'
    → IsTenant t × (lookup t.id m ≡ none) × (m' ≡ insert t.id t m)
unfolding validate_tenant
add_new-eq-ok t m m' e = ground arith

add_new-IsCatalogue :
    (t : Tenant) (m m' : List (Bytes × Tenant))
    → IsCatalogue m
    → add_new t m ≡ ok m'
    → IsCatalogue m'
add_new-IsCatalogue t m m' v e =
    let (valid, fresh, result) = add_new-eq-ok t m m' e in
    rw result (record {
      entries = insert-entries t.id t m (record { keyed = refl; valid = valid }) v.entries;
      distinct = insert-distinct t.id t m v.distinct;
    })

add_all-IsCatalogue :
    (ts : List Tenant) (m m' : List (Bytes × Tenant))
    → IsCatalogue m
    → add_all ts m ≡ ok m'
    → IsCatalogue m'
unfolding add_all
add_all-IsCatalogue [] m m' v e = ground arith
add_all-IsCatalogue (t ∷ ts) m m' v e =
    let (m1, e1, r1) = >>=-eq-ok (add_new t m) (add_all ts) e in
    add_all-IsCatalogue ts m1 m' (add_new-IsCatalogue t m m1 v e1) r1

-- A resolver that newMemoryResolver builds is well formed, whatever the configured tenants are.
pub new_memory_resolver-IsCatalogue :
    (ts : List Tenant) (r : MemoryResolver) → new_memory_resolver ts ≡ ok r → IsCatalogue r.tenants
unfolding new_memory_resolver
new_memory_resolver-IsCatalogue ts r e =
    let (m, e1, r1) = >>=-eq-ok (add_all ts []) (λ m. ok (record { tenants = m })) e in
    rw (tenants_eq r1) (add_all-IsCatalogue ts [] m (record { entries = tt; distinct = tt }) e1)
  where
    tenants_eq :
        {m : List (Bytes × Tenant)}
        → ◌≡◌ {A = Result ResolverError MemoryResolver} (ok (record { tenants = m })) (ok r)
        → r.tenants ≡ m
    tenants_eq q = ground arith

pub set-eq-ok :
    (r r' : MemoryResolver) (t : Tenant)
    → set r t ≡ ok r'
    → IsTenant t × (lookup t.id r.tenants ≡ none) × (r'.tenants ≡ insert t.id t r.tenants)
unfolding set validate_tenant
set-eq-ok r r' t e = ground arith

pub delete-eq-ok :
    (r r' : MemoryResolver) (id : Bytes)
    → delete r id ≡ ok r'
    → (is_empty id ≡ false) × (lookup id r.tenants ≢ none) × (r'.tenants ≡ remove id r.tenants)
unfolding delete
delete-eq-ok r r' id e = (ground arith, λ q. ground arith, ground arith)

-- Set and Delete keep a well-formed catalogue well formed.
pub update-IsCatalogue :
    (r r' : MemoryResolver) (t : Tenant) (id : Bytes)
    → IsCatalogue r.tenants
    → (set r t ≡ ok r') ⊎ (delete r id ≡ ok r')
    → IsCatalogue r'.tenants
update-IsCatalogue r r' t id v (inl e) =
    let (valid, fresh, result) = set-eq-ok r r' t e in
    rw result (record {
      entries = insert-entries t.id t r.tenants (record { keyed = refl; valid = valid }) v.entries;
      distinct = insert-distinct t.id t r.tenants v.distinct;
    })
update-IsCatalogue r r' t id v (inr e) = rw (delete-eq-ok r r' id e).2 (record {
  entries = remove-entries id r.tenants v.entries;
  distinct = remove-distinct id r.tenants v.distinct;
})
