-- ===== src/Examples/Configs.antt =====
-- A configuration with one tenant, which leaves the rest to the defaults.
use kroxy.Base.{◌≡◌, ◌↔◌, ◌⊎◌, refl, false, none, some, [], ◌∷◌, codes, str_eq, ok, err, All}
use kroxy.Config.Load.{Packages, load, build, apply_defaults}
use kroxy.Config.Settings.{Config}
use kroxy.Config.Startup.{Start, start, HasDistinctIds, IsServed, resolver, start_outcome}
use kroxy.Config.Valid.{IsLoaded, load_iff}
use kroxy.Resolver.Memory.{duplicate}

abbrev written : Config
written = record {
  listen = [];
  advertised = codes "proxy:9092";
  tls = record { enabled = false; cert_file = []; key_file = [] };
  upstream = record { bootstrap = codes "kafka:9092"; sasl = record { mechanism = [] } };
  resolver = record {
    kind = [];
    tenants = record { id = codes "acme"; topic_prefix = codes "acme-"; upstream = [] } ∷ [];
  };
  metrics = record { enabled = false; listen = [] };
  admin = record { enabled = false; listen = [] };
  log = record { level = []; format = [] };
}

abbrev packages : Packages (Unit {0})
packages = record {
  read_file = λ path. some [];
  unmarshal = λ raw. some written;
  split_host_port = λ s. some (s, []);
  load_keypair = λ cert key. some tt;
}

abbrev loaded : Config
loaded = apply_defaults written

loaded_ok : load packages (codes "config.yaml") ≡ ok loaded
unfolding load str_eq
loaded_ok = refl

load_iff_example :
    (load packages (codes "config.yaml") ≡ ok loaded)
    ↔ IsLoaded packages (codes "config.yaml") loaded
load_iff_example = load_iff packages (codes "config.yaml") loaded

plaintext : build packages loaded.tls ≡ ok none
unfolding build apply_defaults
plaintext = refl

start_outcome_example :
    (HasDistinctIds loaded.resolver.tenants
      × ((s : Start (Unit {0})) × (start packages (codes "config.yaml") ≡ ok s)
          × (s.listen ≡ loaded.listen)
          × (s.server.advertised ≡ loaded.advertised)
          × (s.server.upstream_sasl_mechanism ≡ loaded.upstream.sasl.mechanism)
          × (s.keypair ≡ none)
          × All (IsServed s.catalogue) loaded.resolver.tenants))
    ⊎ ((HasDistinctIds loaded.resolver.tenants → ⊥)
        × (start packages (codes "config.yaml") ≡ err (resolver duplicate)))
start_outcome_example = start_outcome packages (codes "config.yaml") loaded none loaded_ok plaintext
