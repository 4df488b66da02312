-- ===== src/Resolver/Lifetime.antt =====
-- resolver/memory.go: the catalogue from the configuration on, through every operation.
use kroxy.Base.{◌≡◌, inl, inr, List, [], ◌∷◌, ok, Result-cases}
use kroxy.Resolver.Abstract.{Operation, getting, setting, deleting, operate, run}
use kroxy.Resolver.Catalogue.{IsCatalogue, new_memory_resolver-IsCatalogue, update-IsCatalogue}
use kroxy.Resolver.Memory.{Tenant, MemoryResolver, new_memory_resolver, set, delete}

operate-IsCatalogue :
    (o : Operation) (r : MemoryResolver)
    → IsCatalogue r.tenants
    → IsCatalogue (operate o r).0.tenants
operate-IsCatalogue (getting id) r v = v
operate-IsCatalogue (setting t) r v = elim (Result-cases (set r t)) [
  | inl (r', e) ↦ rw e (update-IsCatalogue r r' t [] v (inl e))
  | inr (x, e) ↦ rw e v
]
operate-IsCatalogue (deleting id) r v = elim (Result-cases (delete r id)) [
  | inl (r', e) ↦
      let none : Tenant = record { id = []; topic_prefix = []; upstream = [] } in
      rw e (update-IsCatalogue r r' none id v (inr e))
  | inr (x, e) ↦ rw e v
]

pub run-IsCatalogue :
    (os : List Operation) (r : MemoryResolver)
    → IsCatalogue r.tenants
    → IsCatalogue (run operate os r).0.tenants
unfolding run
run-IsCatalogue [] r v = v
run-IsCatalogue (o ∷ os) r v = run-IsCatalogue os (operate o r).0 (operate-IsCatalogue o r v)

-- A resolver that is built from the configured tenants, whatever they are, holds only valid
-- tenants, each under its id and no id twice, after every run of Get, Set and Delete.
pub built_run-IsCatalogue :
    (ts : List Tenant) (r : MemoryResolver) (os : List Operation)
    → new_memory_resolver ts ≡ ok r
    → IsCatalogue (run operate os r).0.tenants
built_run-IsCatalogue ts r os e = run-IsCatalogue os r (new_memory_resolver-IsCatalogue ts r e)
