-- ===== src/Examples/Logins.antt =====
-- Payloads of two logins, and a catalogue with one tenant.
use kroxy.Base.{◌≡◌, ◌↔◌, refl, none, [], ◌∷◌, ◌++◌, codes, ok}
use kroxy.Auth.ClientFirst.{client_first_username, with_mext, bare_message}
use kroxy.Auth.SaslName.{encode_sasl_name, decode_sasl_name_iff}
use kroxy.Auth.Scram.{contains, decode_sasl_name, parse_scram_client_first_username}
use kroxy.Resolver.Abstract.{run, operate, setting, deleting}
use kroxy.Resolver.Lifetime.{built_run-IsCatalogue}
use kroxy.Resolver.Catalogue.{IsCatalogue, new_memory_resolver-IsCatalogue}
use kroxy.Resolver.Memory.{
  Tenant, MemoryResolver, new_memory_resolver, validate_tenant, lookup, insert, add_all,
}

decode_sasl_name_iff_example :
    (decode_sasl_name (codes "a=2Cb") ≡ ok (codes "a,b"))
    ↔ (codes "a=2Cb" ≡ encode_sasl_name (codes "a,b"))
decode_sasl_name_iff_example = decode_sasl_name_iff (codes "a=2Cb") (codes "a,b")

client_first_username_example :
    parse_scram_client_first_username (
      codes "n,"
      ++ (codes "" ++ (b',' ∷ with_mext none (bare_message (codes "acme") (codes "r=abc")))))
    ≡ ok (codes "acme")
unfolding contains
client_first_username_example =
    client_first_username (codes "") none (codes "acme") (codes "r=abc") refl tt refl

abbrev pub acme_tenant : Tenant
acme_tenant = record { id = codes "acme"; topic_prefix = codes "acme."; upstream = codes "k:9092" }

abbrev pub one : MemoryResolver
one = record { tenants = (codes "acme", acme_tenant) ∷ [] }

new_one : new_memory_resolver (acme_tenant ∷ []) ≡ ok one
unfolding new_memory_resolver add_all validate_tenant lookup insert
new_one = refl

pub one-IsCatalogue : IsCatalogue one.tenants
one-IsCatalogue = new_memory_resolver-IsCatalogue (acme_tenant ∷ []) one new_one

built_run-IsCatalogue_example :
    IsCatalogue (run operate (setting acme_tenant ∷ deleting (codes "acme") ∷ []) one).0.tenants
built_run-IsCatalogue_example =
    built_run-IsCatalogue (acme_tenant ∷ []) one
      (setting acme_tenant ∷ deleting (codes "acme") ∷ []) new_one
