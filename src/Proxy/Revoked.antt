-- ===== src/Proxy/Revoked.antt =====
-- A tenant that the admin deletes: resolver/memory.go and proxy/conn.go together.
use kroxy.Base.{
  ◌≡◌, ◌≢◌, inl, inr, arith, ℕ, none, some, List, [], ◌∷◌, Bytes, str_eq, str_eq_iff, ok, All,
  Result-cases, Bool-cases, str_eq_refl,
}
use kroxy.Proxy.Conn.{ServerConfig, Packages, new_conn}
use kroxy.Protocol.Framing.{Reader}
use kroxy.Proxy.Provenance.{Finds, HasTenant, serve_tenant}
use kroxy.Proxy.Serve.{Round, serve}
use kroxy.Resolver.Abstract.{Operation, getting, setting, deleting, operate, run}
use kroxy.Resolver.Catalogue.{
  IsCatalogue, IsEntry, lookup-insert, lookup-remove, set-eq-ok, delete-eq-ok, update-IsCatalogue,
}
use kroxy.Resolver.Lifetime.{run-IsCatalogue}
use kroxy.Resolver.Memory.{Tenant, MemoryResolver, lookup, get, set, delete}

-- An operation that does not set a tenant under the id again.
abbrev pub LeavesOut : Bytes → Operation → Type 0
LeavesOut id (getting other) = Unit
LeavesOut id (setting t) = t.id ≢ id
LeavesOut id (deleting other) = Unit

abbrev Lacks : Bytes → MemoryResolver → Type 0
Lacks id r = lookup id r.tenants ≡ none

operate-Lacks :
    (id : Bytes) (o : Operation) (r : MemoryResolver)
    → LeavesOut id o
    → Lacks id r
    → Lacks id (operate o r).0
operate-Lacks id (getting other) r out h = h
operate-Lacks id (setting t) r out h = elim (Result-cases (set r t)) [
  | inr (x, e) ↦ rw e h
  | inl (r', e) ↦
      let (valid, fresh, result) = set-eq-ok r r' t e in
      rw (e, result) (ground (arith, h, out, str_eq_iff t.id id, lookup-insert t.id id t r.tenants))
]
operate-Lacks id (deleting other) r out h = elim (Result-cases (delete r other)) [
  | inr (x, e) ↦ rw e h
  | inl (r', e) ↦
      rw (e, (delete-eq-ok r r' other e).2) (ground (arith, h, lookup-remove other id r.tenants))
]

run-Lacks :
    (id : Bytes) (os : List Operation) (r : MemoryResolver)
    → All (LeavesOut id) os
    → Lacks id r
    → Lacks id (run operate os r).0
unfolding run
run-Lacks id [] r out h = h
run-Lacks id (o ∷ os) r out h = run-Lacks id os (operate o r).0 out.1 (operate-Lacks id o r out.0 h)

delete-Lacks : (r r' : MemoryResolver) (id : Bytes) → delete r id ≡ ok r' → Lacks id r'
delete-Lacks r r' id e =
    rw ((delete-eq-ok r r' id e).2) (ground (arith, str_eq_refl id, lookup-remove id id r.tenants))

-- A tenant that is found is found under its own id.
keyed :
    (id : Bytes) (m : List (Bytes × Tenant)) (t : Tenant)
    → All IsEntry m
    → lookup id m ≡ some t
    → t.id ≡ id
unfolding lookup
keyed id [] t h e = ground (arith, e)
keyed id ((k, u) ∷ m) t h e = elim (Bool-cases (str_eq k id)) [
  | inl q ↦ ground (arith, q, e, h.0.keyed, str_eq_iff k id)
  | inr q ↦ keyed id m t h.1 (ground (arith, q, e))
]

Lacks-Finds :
    (id : Bytes) (r : MemoryResolver)
    → IsCatalogue r.tenants
    → Lacks id r
    → (name : Bytes) (t : Tenant) → get r name ≡ ok t
    → t.id ≢ id
unfolding get
Lacks-Finds id r v h name t e same =
    let found : lookup name r.tenants ≡ some t = ground (arith, e) in
    let named = keyed name r.tenants t v.entries found in ground (arith, found, named, same, h)

abbrev pub IsOther : Bytes → Tenant → Type 0
IsOther id t = t.id ≢ id

module _ {R : Type 0} (P : Packages R) (rounds : ℕ → Round) (os : ℕ → List Operation) where
  -- The catalogue in each round is what the operations that ran by then made of this one.
  abbrev pub Sees : MemoryResolver → Type 0
  Sees r = (i : ℕ) → (rounds i).resolver ≡ (run operate (os i) r).0

  -- Once Delete has removed a tenant from a well-formed catalogue, and while no Set brings its id
  -- back, a new connection does not take on that tenant by any step of serve, whatever else the
  -- admins do between its rounds and whatever the client sends.
  pub serve_revoked :
      (id : Bytes) (r r' : MemoryResolver)
      → IsCatalogue r.tenants
      → delete r id ≡ ok r'
      → Sees r'
      → ((i : ℕ) → All (LeavesOut id) (os i))
      → (fuel : ℕ) (client : Reader) (cfg : ServerConfig)
      → All (HasTenant P (IsOther id)) (serve P rounds fuel 0 client (new_conn cfg)).steps
  serve_revoked id r r' v e sees out fuel client cfg =
      serve_tenant P (IsOther id) rounds finds fuel 0 client (new_conn cfg) named
    where
      none_of : Tenant
      none_of = record { id = []; topic_prefix = []; upstream = [] }

      finds : (i : ℕ) → Finds P (IsOther id) (rounds i).resolver
      finds i =
          let kept = update-IsCatalogue r r' none_of id v (inr e) in
          rw (sees i) (
            Lacks-Finds id (run operate (os i) r').0 (run-IsCatalogue (os i) r' kept)
              (run-Lacks id (os i) r' (out i) (delete-Lacks r r' id e)))

      named : [] ≢ id
      named q = ground (arith, (delete-eq-ok r r' id e).0, q)
