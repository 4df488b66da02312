-- ===== src/Config/Startup.antt =====
-- cmd/kroxy/main.go, run: from the configuration file to the proxy's resolver and configuration.
use kroxy.Base.{
  ◌≡◌, ◌↔◌, ◌⊎◌, inl, inr, refl, arith, false, Option, none, some, List, [], ◌∷◌, Bytes, codes,
  str_eq, str_eq_iff, str_eq_refl, Result, ok, err, ◌>>=◌, >>=-eq-ok, wrap, All, Option-cases,
}
use kroxy.Config.Settings.{Config}
use kroxy.Config.Load.{ConfigError, Packages, load, build}
use kroxy.Config.Valid.{load_iff}
use kroxy.Proxy.Conn.{ServerConfig}
use kroxy.Resolver.Catalogue.{IsTenant, lookup-insert, add_new-eq-ok, validate_tenant_iff}
use kroxy.Resolver.Memory.{
  Tenant, ResolverError, duplicate, MemoryResolver, lookup, insert, add_new, add_all,
  new_memory_resolver, new, get,
}

pub data StartError : Type 0 where
  config : ConfigError → StartError
  resolver : ResolverError → StartError

-- What run hands to proxy.NewServer, the keypair none for a plaintext listener, and the configuration
-- that it goes on to read.
pub record Start (K : Type 0) : Type 0 where
  pub settings : Config
  pub listen : Bytes
  pub server : ServerConfig
  pub keypair : Option K
  pub catalogue : MemoryResolver

unfoldable pub start : {K : Type 0} → Packages K → Bytes → Result StartError (Start K)
unfolding load new build
start P path = do
  c ← wrap config (load P path)
  r ← wrap resolver (new c.resolver)
  pair ← wrap config (build P c.tls)
  ok (record {
    settings = c;
    listen = c.listen;
    server = record {
      advertised = c.advertised;
      upstream_sasl_mechanism = c.upstream.sasl.mechanism;
    };
    keypair = pair;
    catalogue = r;
  })

-- No id stands twice in the list.
abbrev pub Without : Bytes → List Tenant → Type 0
Without id [] = Unit
Without id (t ∷ ts) = (str_eq id t.id ≡ false) × Without id ts

abbrev pub HasDistinctIds : List Tenant → Type 0
HasDistinctIds [] = Unit
HasDistinctIds (t ∷ ts) = Without t.id ts × HasDistinctIds ts

-- The tenants' ids are not in the map.
abbrev AreNew : List Tenant → List (Bytes × Tenant) → Type 0
AreNew [] m = Unit
AreNew (t ∷ ts) m = (lookup t.id m ≡ none) × AreNew ts m

AreNew-insert :
    (t : Tenant) (ts : List Tenant) (m : List (Bytes × Tenant))
    → AreNew ts (insert t.id t m) ↔ (Without t.id ts × AreNew ts m)
AreNew-insert t [] m = (λ h. (tt, tt), λ h. tt)
AreNew-insert t (u ∷ ts) m = ground (arith, AreNew-insert t ts m, lookup-insert t.id u.id t m)

add_new_fresh :
    (t : Tenant) (m : List (Bytes × Tenant))
    → IsTenant t
    → add_new t m ≡ elim (lookup t.id m) [ some _ ↦ err duplicate | none ↦ ok (insert t.id t m) ]
add_new_fresh t m v = rw ((validate_tenant_iff t).1 v) refl

-- Valid tenants are all added exactly if their ids are new and distinct; else one is a duplicate.
add_all_cases :
    (ts : List Tenant) (m : List (Bytes × Tenant))
    → All IsTenant ts
    → (HasDistinctIds ts × AreNew ts m × ((m' : List (Bytes × Tenant)) × (add_all ts m ≡ ok m')))
      ⊎ ((HasDistinctIds ts × AreNew ts m → ⊥) × (add_all ts m ≡ err duplicate))
unfolding add_all
add_all_cases [] m v = inl (tt, tt, (m, refl))
add_all_cases (t ∷ ts) m v = elim (Option-cases (lookup t.id m)) [
  | inr (u, e) ↦ inr (λ h. ground (arith, e, h), rw (add_new_fresh t m v.0, e) refl)
  | inl e ↦ elim (add_all_cases ts (insert t.id t m) v.1) [
    | inl (d, n, (m', k)) ↦
        let (apart, fresh) = (AreNew-insert t ts m).0 n in
        inl ((apart, d), (e, fresh), (m', rw (add_new_fresh t m v.0, e) k))
    | inr (apart, k) ↦ inr (
      λ h. apart (h.0.1, (AreNew-insert t ts m).1 (h.0.0, h.1.1)),
      rw (add_new_fresh t m v.0, e) k,
    )
  ]
]

add_all-lookup_other :
    (id : Bytes) (ts : List Tenant) (m m' : List (Bytes × Tenant))
    → Without id ts
    → add_all ts m ≡ ok m'
    → lookup id m' ≡ lookup id m
unfolding add_all
add_all-lookup_other id [] m m' w e = cc
add_all-lookup_other id (t ∷ ts) m m' w e =
    let (added, e1, e2) = >>=-eq-ok (add_new t m) (λ x. add_all ts x) e in
    let (valid, fresh, result) = add_new-eq-ok t m added e1 in
    ground (
      arith,
      add_all-lookup_other id ts added m' w.1 e2,
      lookup-insert t.id id t m,
      str_eq_iff id t.id,
      str_eq_iff t.id id,
    )

abbrev pub IsServed : MemoryResolver → Tenant → Type 0
IsServed r t = get r t.id ≡ ok t

-- A list of tenants that is added is then found.
add_all-IsServed :
    (ts : List Tenant) (m m' : List (Bytes × Tenant))
    → HasDistinctIds ts
    → add_all ts m ≡ ok m'
    → All (IsServed (record { tenants = m' })) ts
unfolding add_all get
add_all-IsServed [] m m' d e = tt
add_all-IsServed (t ∷ ts) m m' d e =
    let (added, e1, e2) = >>=-eq-ok (add_new t m) (λ x. add_all ts x) e in
    let (valid, fresh, result) = add_new-eq-ok t m added e1 in
    (
      ground (
        arith,
        add_all-lookup_other t.id ts added m' d.0 e2,
        lookup-insert t.id t.id t m,
        str_eq_refl t.id,
      ),
      add_all-IsServed ts added m' d.1 e2,
    )

none-AreNew : (ts : List Tenant) → AreNew ts []
unfolding lookup
none-AreNew [] = tt
none-AreNew (t ∷ ts) = (refl, none-AreNew ts)

new-memory :
    (c : Config)
    → c.resolver.kind ≡ codes "memory"
    → new c.resolver ≡ new_memory_resolver c.resolver.tenants
unfolding new
new-memory c k = ground (arith, str_eq_iff c.resolver.kind (codes "memory"))

module _ {K : Type 0} (P : Packages K) where
  -- If the configuration loads and its keypair is built, then either the tenants' ids are distinct,
  -- and the proxy starts with the configured addresses and mechanism and a catalogue in which Get
  -- finds every configured tenant; or two tenants share an id, and run fails with the resolver's
  -- duplicate error.
  pub start_outcome :
      (path : Bytes) (c : Config) (pair : Option K)
      → load P path ≡ ok c
      → build P c.tls ≡ ok pair
      → (HasDistinctIds c.resolver.tenants
          × ((s : Start K) × (start P path ≡ ok s)
              × (s.listen ≡ c.listen)
              × (s.server.advertised ≡ c.advertised)
              × (s.server.upstream_sasl_mechanism ≡ c.upstream.sasl.mechanism)
              × (s.keypair ≡ pair)
              × All (IsServed s.catalogue) c.resolver.tenants))
        ⊎ ((HasDistinctIds c.resolver.tenants → ⊥) × (start P path ≡ err (resolver duplicate)))
  unfolding start
  start_outcome path c pair l b =
      let (raw, c0, _, _, _, valid, tenants) = (load_iff P path c).0 l in
      let kind : new c.resolver ≡ new_memory_resolver c.resolver.tenants =
        new-memory c valid.kind in
      elim (add_all_cases c.resolver.tenants [] tenants) [
        | inl (d, _, (m, added)) ↦ inl (
          d,
          (
            record {
              settings = c;
              listen = c.listen;
              server = record {
                advertised = c.advertised;
                upstream_sasl_mechanism = c.upstream.sasl.mechanism;
              };
              keypair = pair;
              catalogue = record { tenants = m };
            },
            rw (start, l, kind, new_memory_resolver, added, b) refl,
            refl,
            refl,
            refl,
            refl,
            add_all-IsServed c.resolver.tenants [] m d added,
          ),
        )
        | inr (shared, k) ↦ inr (
          λ d. shared (d, none-AreNew c.resolver.tenants),
          rw (start, l, kind, new_memory_resolver, k) refl,
        )
      ]
