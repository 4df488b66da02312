-- ===== src/Examples/Revocations.antt =====
-- A client that logs in as a tenant that was deleted.
use kroxy.Base.{◌≡◌, refl, ℕ, true, false, List, [], ◌∷◌, codes, ok, str_eq, All}
use kroxy.Examples.Connections.{packages, config, answers}
use kroxy.Examples.Counts.{two_frames}
use kroxy.Examples.Logins.{one, one-IsCatalogue}
use kroxy.Proxy.Conn.{new_conn}
use kroxy.Proxy.Provenance.{HasTenant}
use kroxy.Proxy.Revoked.{IsOther, Sees, serve_revoked}
use kroxy.Proxy.Serve.{Round, serve}
use kroxy.Resolver.Abstract.{Operation, run, getting}
use kroxy.Resolver.Memory.{MemoryResolver, delete, lookup, remove}

abbrev nobody : MemoryResolver
nobody = record { tenants = [] }

deleted : delete one (codes "acme") ≡ ok nobody
unfolding delete lookup remove str_eq
deleted = refl

abbrev asked : ℕ → List Operation
asked i = getting (codes "acme") ∷ []

abbrev later : ℕ → Round
later i = record {
  is_cancelled = false;
  sets_deadline = λ t. true;
  answers = answers;
  resolver = nobody;
}

nobody_seen : Sees packages later asked nobody
unfolding run
nobody_seen i = refl

serve_revoked_example :
    All
      (HasTenant packages (IsOther (codes "acme")))
      (serve packages later 9 0 two_frames (new_conn config)).steps
serve_revoked_example =
    serve_revoked packages later asked (codes "acme") one nobody one-IsCatalogue deleted nobody_seen
      (λ i. (tt, tt)) 9 two_frames config
