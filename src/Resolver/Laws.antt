-- ===== src/Resolver/Laws.antt =====
-- What the resolver's operations promise, as a map from ids to tenants.
use kroxy.Base.{
  ◌≡◌, ◌≢◌, ◌↔◌, ◌⊎◌, inl, inr, refl, none, some, List, [], ◌∷◌, map, Bytes, str_eq, str_eq_iff,
  str_eq_refl, if◌then◌else◌, ok, err, arith, All, Option-cases,
}
use kroxy.Resolver.Catalogue.{
  lookup-insert, lookup-remove, IsTenant, IsEntry, IsCatalogue, HasDistinctKeys, set-eq-ok,
  delete-eq-ok, validate_tenant_iff,
}
use kroxy.Resolver.Memory.{
  Tenant, unauthorized, MemoryResolver, validate_tenant, lookup, insert, remove, get, set, delete,
  list, tenant_of, duplicate, invalid_tenant,
}

module _ (r r' : MemoryResolver) where
  -- After Set, Get finds the new tenant under its id, and under every other id what it found before.
  pub get-set :
      (t : Tenant) (id : Bytes)
      → set r t ≡ ok r'
      → get r' id ≡ (if str_eq t.id id then ok t else get r id)
  unfolding get
  get-set t id e =
      let (valid, fresh, result) = set-eq-ok r r' t e in
      ground (arith, result, lookup-insert t.id id t r.tenants)

  -- After Delete, Get refuses the id as unauthorized, and finds under every other id what it found
  -- before.
  pub get-delete :
      (id other : Bytes)
      → delete r id ≡ ok r'
      → get r' other ≡ (if str_eq id other then err unauthorized else get r other)
  unfolding get
  get-delete id other e =
      let (non_empty, known, result) = delete-eq-ok r r' id e in
      ground (arith, result, lookup-remove id other r.tenants)

validate_cases :
    (t : Tenant) → (validate_tenant t ≡ err invalid_tenant) ⊎ (validate_tenant t ≡ ok tt)
unfolding validate_tenant
validate_cases t = ground arith

-- Set refuses an invalid tenant first; it refuses a valid one exactly if its id is known, as a
-- duplicate; and else it succeeds.
pub set_outcome :
    (r : MemoryResolver) (t : Tenant)
    → ((IsTenant t → ⊥) × (set r t ≡ err invalid_tenant))
      ⊎ (IsTenant t × (get r t.id ≢ err unauthorized) × (set r t ≡ err duplicate))
      ⊎ (IsTenant t × (get r t.id ≡ err unauthorized) × ((r' : MemoryResolver) × (set r t ≡ ok r')))
unfolding set get
set_outcome r t = elim (validate_cases t) [
  | inl bad ↦ inl (λ v. ground (arith, bad, (validate_tenant_iff t).1 v), rw (set, bad) refl)
  | inr good ↦ elim (Option-cases (lookup t.id r.tenants)) [
    | inl fresh ↦ inr (
        inr (
          (validate_tenant_iff t).0 good,
          rw (get, fresh) refl,
          (record { tenants = insert t.id t r.tenants }, rw (set, good, fresh) refl),
        ))
    | inr (u, known) ↦ inr (
        inl
          ((validate_tenant_iff t).0 good, λ q. ground (arith, known), rw (set, good, known) refl))
  ]
]

remove-insert :
    (id : Bytes) (t : Tenant) (m : List (Bytes × Tenant))
    → lookup id m ≡ none
    → remove id (insert id t m) ≡ m
unfolding remove insert lookup
remove-insert id t [] h = ground (arith, str_eq_refl id)
remove-insert id t ((k, u) ∷ m) h = ground (arith, remove-insert id t m)

-- Deleting the tenant that was just set gives back the catalogue as it was.
pub delete-set : (r r' : MemoryResolver) (t : Tenant) → set r t ≡ ok r' → delete r' t.id ≡ ok r
unfolding delete
delete-set r r' t e =
    let (valid, fresh, result) = set-eq-ok r r' t e in
    ground (
      arith,
      valid,
      fresh,
      result,
      remove-insert t.id t r.tenants fresh,
      lookup-insert t.id t.id t r.tenants,
      str_eq_refl t.id,
    )

-- The tenant is in the list.
abbrev pub Listed : Tenant → List Tenant → Type 0
Listed t [] = ⊥
Listed t (u ∷ us) = (t ≡ u) ⊎ Listed t us

Listed-entries :
    (t : Tenant) (m : List (Bytes × Tenant))
    → All IsEntry m
    → HasDistinctKeys m
    → Listed t (map tenant_of m) ↔ (lookup t.id m ≡ some t)
unfolding lookup
Listed-entries t [] h d = (λ l. absurd l, λ e. ground arith)
Listed-entries t ((k, u) ∷ m) h d =
    ground (arith, Listed-entries t m h.1 d.1, h, d, str_eq_iff k t.id)

-- List returns exactly the tenants that Get finds under their ids, if the catalogue is well formed.
pub list_iff-get :
    (r : MemoryResolver) (t : Tenant)
    → IsCatalogue r.tenants
    → Listed t (list r) ↔ (get r t.id ≡ ok t)
unfolding list get
list_iff-get r t v = ground (arith, Listed-entries t r.tenants v.entries v.distinct)
