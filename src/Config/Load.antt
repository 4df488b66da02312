-- ===== src/Config/Load.antt =====
-- config/config.go: Load, applyDefaults, validate and TLSConfig.Build.
use kroxy.Base.{
  ℕ, suc, Bool, true, false, ◌&&◌, ◌||◌, not, Option, none, some, List, [], ◌∷◌, map, Bytes, codes,
  str_eq, is_empty, if◌then◌else◌, Result, ok, err, ◌>>=◌, ◌>>◌, guard,
}
use kroxy.Auth.Scram.{is_scram_mechanism}
use kroxy.Config.Settings.{Config, TlsConfig}
use kroxy.Resolver.Memory.{Tenant}

pub data ConfigError : Type 0 where
  read_failed parse_failed keypair_failed : ConfigError
  advertised_required bootstrap_required tenants_required unknown_resolver : ConfigError
  admin_listen_invalid tls_files_required mechanism_unsupported : ConfigError
  id_required topic_prefix_required : ℕ → ConfigError

-- os.ReadFile, yaml.Unmarshal into a zero Config, net.SplitHostPort and tls.LoadX509KeyPair, each
-- with none for an error.
pub record Packages (K : Type 0) : Type 0 where
  pub read_file : Bytes → Option Bytes
  pub unmarshal : Bytes → Option Config
  pub split_host_port : Bytes → Option (Bytes × Bytes)
  pub load_keypair : Bytes → Bytes → Option K

abbrev pub or_fail {ℓ} : {A : Type ℓ} → ConfigError → Option A → Result ConfigError A
or_fail failure none = err failure
or_fail failure (some value) = ok value

abbrev pub is_none {ℓ} : {A : Type ℓ} → Option A → Bool
is_none none = true
is_none (some value) = false

-- `if s == "" { s = fallback }`
abbrev pub default : Bytes → Bytes → Bytes
default s fallback = if is_empty s then fallback else s

abbrev pub fill_upstream : Bytes → Tenant → Tenant
fill_upstream bootstrap t = record t { upstream = default t.upstream bootstrap }

unfoldable pub apply_defaults : Config → Config
apply_defaults c = record c {
  listen = default c.listen (codes ":9092");
  log = record c.log {
    level = default c.log.level (codes "info");
    format = default c.log.format (codes "json");
  };
  metrics = record c.metrics { listen = default c.metrics.listen (codes ":9090") };
  admin = record c.admin { listen = default c.admin.listen (codes "127.0.0.1:9095") };
  resolver = record c.resolver {
    kind = default c.resolver.kind (codes "memory");
    tenants = map (fill_upstream c.upstream.bootstrap) c.resolver.tenants;
  };
}

-- The loop over the tenants, from index `i` on.
unfoldable pub validate_tenants : ℕ → List Tenant → Result ConfigError (Unit {0})
validate_tenants i [] = ok tt
validate_tenants i (t ∷ ts) =
    let rest = validate_tenants (suc i) ts in
    if is_empty t.id
    then err (id_required i)
    else if is_empty t.topic_prefix
    then err (topic_prefix_required i)
    else rest

abbrev pub no_tenants : List Tenant → Bool
no_tenants [] = true
no_tenants (t ∷ ts) = false

unfoldable pub validate_memory_resolver : Config → Result ConfigError (Unit {0})
unfolding validate_tenants
validate_memory_resolver c = do
  guard (not (no_tenants c.resolver.tenants && not c.admin.enabled)) tenants_required
  validate_tenants 0 c.resolver.tenants

module _ {K : Type 0} (P : Packages K) where
  unfoldable pub validate : Config → Result ConfigError (Unit {0})
  unfolding validate_memory_resolver is_scram_mechanism
  validate c = do
    guard (not (is_empty c.advertised)) advertised_required
    guard (not (is_empty c.upstream.bootstrap)) bootstrap_required
    guard (str_eq c.resolver.kind (codes "memory")) unknown_resolver
    validate_memory_resolver c
    guard (not (c.admin.enabled && is_none (P.split_host_port c.admin.listen))) admin_listen_invalid
    guard (not (c.tls.enabled && (is_empty c.tls.cert_file || is_empty c.tls.key_file)))
        tls_files_required
    guard
        (not (
          not (is_empty c.upstream.sasl.mechanism)
          && not (is_scram_mechanism c.upstream.sasl.mechanism)))
        mechanism_unsupported

  unfoldable pub load : Bytes → Result ConfigError Config
  unfolding validate apply_defaults
  load path = do
    raw ← or_fail read_failed (P.read_file path)
    c ← or_fail parse_failed (P.unmarshal raw)
    validate (apply_defaults c)
    ok (apply_defaults c)

  -- None for a nil *tls.Config, which leaves the listener plaintext.
  unfoldable pub build : TlsConfig → Result ConfigError (Option K)
  build t = if not t.enabled then ok none else (do
    pair ← or_fail keypair_failed (P.load_keypair t.cert_file t.key_file)
    ok (some pair))
