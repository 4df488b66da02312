-- ===== src/Config/Valid.antt =====
-- config/config.go: what validate accepts, and what a loaded configuration is like.
use mathlib.Core.Path.{subst}
use kroxy.Base.{
  ◌≡◌, ◌↔◌, refl, sym, ap, arith, ℕ, suc, true, false, Option, none, some, List, [], ◌∷◌, map,
  Bytes, codes, str_eq_iff, is_empty, Result, ok, err, >>=-eq-ok, All,
}
use kroxy.Auth.Scram.{is_scram_mechanism}
use kroxy.Config.Settings.{Config}
use kroxy.Config.Load.{
  ConfigError, read_failed, parse_failed, Packages, or_fail, is_none, no_tenants, fill_upstream,
  apply_defaults, validate_tenants, validate_memory_resolver, validate, load,
}
use kroxy.Resolver.Catalogue.{IsTenant}
use kroxy.Resolver.Memory.{Tenant}

ok_injective {ℓ} : {A : Type ℓ} {a b : A} → ◌≡◌ {A = Result ConfigError A} (ok a) (ok b) → a ≡ b
ok_injective {a = a} e = ap (λ r. elim r [ ok x ↦ x | err x ↦ a ]) e

pub record IsNamed (t : Tenant) : Type 0 where
  pub has_id : is_empty t.id ≡ false
  pub has_prefix : is_empty t.topic_prefix ≡ false

validate_tenants_iff : (i : ℕ) (ts : List Tenant) → (validate_tenants i ts ≡ ok tt) ↔ All IsNamed ts
unfolding validate_tenants
validate_tenants_iff i [] = (λ e. tt, λ h. refl)
validate_tenants_iff i (t ∷ ts) = ground (arith, validate_tenants_iff (suc i) ts)

or_fail-eq-ok {ℓ} :
    {A : Type ℓ} (e : ConfigError) (o : Option A) (a : A) → or_fail e o ≡ ok a → o ≡ some a
or_fail-eq-ok e none a h = absurd (cc)
or_fail-eq-ok e (some b) a h = ap some (ok_injective h)

module _ {K : Type 0} (P : Packages K) where
  pub record IsValid (c : Config) : Type 0 where
    pub advertised : is_empty c.advertised ≡ false
    pub bootstrap : is_empty c.upstream.bootstrap ≡ false
    pub kind : c.resolver.kind ≡ codes "memory"
    pub tenants : All IsNamed c.resolver.tenants
    pub some_tenant : c.admin.enabled ≡ false → no_tenants c.resolver.tenants ≡ false
    pub admin_listen : c.admin.enabled ≡ true → is_none (P.split_host_port c.admin.listen) ≡ false
    pub tls_cert : c.tls.enabled ≡ true → is_empty c.tls.cert_file ≡ false
    pub tls_key : c.tls.enabled ≡ true → is_empty c.tls.key_file ≡ false
    pub mechanism :
        is_empty c.upstream.sasl.mechanism ≡ false
        → is_scram_mechanism c.upstream.sasl.mechanism ≡ true

  memory_resolver_iff :
      (c : Config)
      → (validate_memory_resolver c ≡ ok tt) ↔ (
          All IsNamed c.resolver.tenants
          × (c.admin.enabled ≡ false → no_tenants c.resolver.tenants ≡ false))
  unfolding validate_memory_resolver
  memory_resolver_iff c = ground (arith, validate_tenants_iff 0 c.resolver.tenants)

  -- A configuration is accepted exactly if it is valid.
  validate_iff : (c : Config) → (validate P c ≡ ok tt) ↔ IsValid c
  unfolding validate
  validate_iff c = (
    λ e. ground (arith, e, memory_resolver_iff c, str_eq_iff c.resolver.kind (codes "memory")),
    λ v. ground (arith, v, memory_resolver_iff c, str_eq_iff c.resolver.kind (codes "memory")),
  )

  fill_upstream-IsTenant :
      (bootstrap : Bytes) (t : Tenant)
      → is_empty bootstrap ≡ false
      → IsNamed (fill_upstream bootstrap t)
      → IsTenant (fill_upstream bootstrap t)
  fill_upstream-IsTenant bootstrap t b h = record {
    has_id = h.has_id;
    has_prefix = h.has_prefix;
    has_upstream = ground (arith, b);
  }

  filled-IsTenant :
      (bootstrap : Bytes) (ts : List Tenant)
      → is_empty bootstrap ≡ false
      → All IsNamed (map (fill_upstream bootstrap) ts)
      → All IsTenant (map (fill_upstream bootstrap) ts)
  filled-IsTenant bootstrap [] b h = tt
  filled-IsTenant bootstrap (t ∷ ts) b h =
      (fill_upstream-IsTenant bootstrap t b h.0, filled-IsTenant bootstrap ts b h.1)

  defaults-IsTenant :
      (c : Config) → IsValid (apply_defaults c) → All IsTenant (apply_defaults c).resolver.tenants
  unfolding apply_defaults
  defaults-IsTenant c v =
      filled-IsTenant c.upstream.bootstrap c.resolver.tenants v.bootstrap v.tenants

  abbrev pub IsLoaded : Bytes → Config → Type 0
  IsLoaded path c =
      (raw : Bytes) × (c0 : Config) × (P.read_file path ≡ some raw)
      × (P.unmarshal raw ≡ some c0)
      × (c ≡ apply_defaults c0)
      × IsValid c
      × All IsTenant c.resolver.tenants

  load-IsLoaded : (path : Bytes) (c : Config) → load P path ≡ ok c → IsLoaded path c
  unfolding load
  load-IsLoaded path c e =
      let (raw, e1, r1) = >>=-eq-ok (or_fail read_failed (P.read_file path)) _ e in
      let (c0, e2, r2) = >>=-eq-ok (or_fail parse_failed (P.unmarshal raw)) _ r1 in
      let (_, e3, r3) = >>=-eq-ok (validate P (apply_defaults c0)) _ r2 in
      let same : apply_defaults c0 ≡ c = ok_injective r3 in
      let valid = (validate_iff (apply_defaults c0)).0 e3 in
      (
        raw,
        c0,
        or_fail-eq-ok read_failed (P.read_file path) raw e1,
        or_fail-eq-ok parse_failed (P.unmarshal raw) c0 e2,
        sym same,
        subst IsValid same valid,
        subst (λ x. All IsTenant x.resolver.tenants) same (defaults-IsTenant c0 valid),
      )

  -- Load succeeds exactly if the file can be read and parsed and is valid with its defaults filled
  -- in; and then every tenant has an upstream.
  pub load_iff : (path : Bytes) (c : Config) → (load P path ≡ ok c) ↔ IsLoaded path c
  unfolding load
  load_iff path c = (
    load-IsLoaded path c,
    λ (raw, c0, e1, e2, same, valid, tenants).
        rw (load, e1, e2, (validate_iff (apply_defaults c0)).1 (subst IsValid same valid))
          (ap ok (sym same)),
  )
