-- ===== src/Resolver/Abstract.antt =====
-- resolver/resolver.go, the Resolver interface, as a map from ids to tenants that forgets how and in
-- which order the tenants are kept; and resolver/memory.go against it, over any run of operations.
use kroxy.Base.{
  ◌≡◌, refl, sym, ap, fun_ext, Option, none, some, List, [], ◌∷◌, Bytes, str_eq, is_empty,
  if◌then◌else◌, Result, ok, err, Option-cases, Bool-cases, inl, inr,
}
use kroxy.Resolver.Catalogue.{lookup-insert, lookup-remove}
use kroxy.Resolver.Memory.{
  Tenant, ResolverError, unauthorized, duplicate, not_found, invalid_tenant, MemoryResolver,
  validate_tenant, lookup, insert, remove, get, set, delete,
}

pub data Operation : Type 0 where
  getting : Bytes → Operation
  setting : Tenant → Operation
  deleting : Bytes → Operation

-- What the caller of an operation sees.
pub data Outcome : Type 0 where
  found : Tenant → Outcome
  done : Outcome
  failed : ResolverError → Outcome

-- The operation of the memory resolver, on whose error the resolver is as it was.
abbrev pub changed_to :
    MemoryResolver → Result ResolverError MemoryResolver → MemoryResolver × Outcome
changed_to r (ok r') = (r', done)
changed_to r (err e) = (r, failed e)

abbrev pub found_by : Result ResolverError Tenant → Outcome
found_by (ok t) = found t
found_by (err e) = failed e

abbrev pub operate : Operation → MemoryResolver → MemoryResolver × Outcome
operate (getting id) r = (r, found_by (get r id))
operate (setting t) r = changed_to r (set r t)
operate (deleting id) r = changed_to r (delete r id)

-- The interface's promise, on a map that is a function.
abbrev pub Tenants : Type 0
Tenants = Bytes → Option Tenant

abbrev pub updated : Bytes → Option Tenant → Tenants → Tenants
updated id t m = λ other. if str_eq id other then t else m other

unfoldable pub promise : Operation → Tenants → Tenants × Outcome
promise (getting id) m = elim (m id) [ none ↦ (m, failed unauthorized) | some t ↦ (m, found t) ]
promise (setting t) m =
    if is_empty t.id
    then (m, failed invalid_tenant)
    else if is_empty t.topic_prefix
    then (m, failed invalid_tenant)
    else if is_empty t.upstream
    then (m, failed invalid_tenant)
    else elim (m t.id) [ some u ↦ (m, failed duplicate) | none ↦ (updated t.id (some t) m, done) ]
promise (deleting id) m =
    if is_empty id
    then (m, failed invalid_tenant)
    else elim (m id) [ none ↦ (m, failed not_found) | some t ↦ (updated id none m, done) ]

abbrev pub view : MemoryResolver → Tenants
view r id = lookup id r.tenants

-- A run of operations, one after the other, with what each caller sees.
module _ {S : Type 0} (step : Operation → S → S × Outcome) where
  unfoldable pub run : List Operation → S → S × List Outcome
  run [] s = (s, [])
  run (o ∷ os) s = let (s', seen) = step o s in let (end, rest) = run os s' in (end, seen ∷ rest)

abbrev view_of : MemoryResolver × Outcome → Tenants × Outcome
view_of (r, seen) = (view r, seen)

view-insert :
    (t : Tenant) (r : MemoryResolver)
    → view (record { tenants = insert t.id t r.tenants }) ≡ updated t.id (some t) (view r)
view-insert t r = fun_ext (λ id. lookup-insert t.id id t r.tenants)

view-remove :
    (id : Bytes) (r : MemoryResolver)
    → view (record { tenants = remove id r.tenants }) ≡ updated id none (view r)
view-remove id r = fun_ext (λ other. lookup-remove id other r.tenants)

-- One operation keeps its promise.
operate-promise : (o : Operation) (r : MemoryResolver) → view_of (operate o r) ≡ promise o (view r)
unfolding get set delete promise validate_tenant
operate-promise (getting id) r = elim (Option-cases (lookup id r.tenants)) [
  | inl e ↦ rw (get, promise, e) refl
  | inr (t, e) ↦ rw (get, promise, e) refl
]
operate-promise (setting t) r = elim (Bool-cases (is_empty t.id)) [
  | inl e0 ↦ rw (set, promise, validate_tenant, e0) refl
  | inr e0 ↦ elim (Bool-cases (is_empty t.topic_prefix)) [
    | inl e1 ↦ rw (set, promise, validate_tenant, e0, e1) refl
    | inr e1 ↦ elim (Bool-cases (is_empty t.upstream)) [
      | inl e2 ↦ rw (set, promise, validate_tenant, e0, e1, e2) refl
      | inr e2 ↦ elim (Option-cases (lookup t.id r.tenants)) [
        | inr (u, e3) ↦ rw (set, promise, validate_tenant, e0, e1, e2, e3) refl
        | inl e3 ↦
            rw (set, promise, validate_tenant, e0, e1, e2, e3)
              (ap (λ m. (m, done)) (view-insert t r))
      ]
    ]
  ]
]
operate-promise (deleting id) r = elim (Bool-cases (is_empty id)) [
  | inl e0 ↦ rw (delete, promise, e0) refl
  | inr e0 ↦ elim (Option-cases (lookup id r.tenants)) [
    | inl e1 ↦ rw (delete, promise, e0, e1) refl
    | inr (t, e1) ↦ rw (delete, promise, e0, e1) (ap (λ m. (m, done)) (view-remove id r))
  ]
]

abbrev pub view_of_run : MemoryResolver × List Outcome → Tenants × List Outcome
view_of_run (r, seen) = (view r, seen)

-- In every run of Get, Set and Delete on the in-memory resolver, each caller sees what it would see
-- on a map from ids to tenants, and the resolver ends as that map, whatever the order in which it
-- keeps its tenants.
pub run-promise :
    (os : List Operation) (r : MemoryResolver)
    → view_of_run (run operate os r) ≡ run promise os (view r)
unfolding run
run-promise [] r = refl
run-promise (o ∷ os) r =
    rw (sym (operate-promise o r))
      (ap (λ x. (x.0, (operate o r).1 ∷ x.1)) (run-promise os (operate o r).0))
